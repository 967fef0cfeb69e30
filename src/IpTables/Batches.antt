-- ===== src/IpTables/Batches.antt =====
-- Batches of addresses for one command each, and what running a plan of commands means.
use ban2fail.IpTables.{max_addr, Program, Flag, Command, Batch, put_addr, Outcome, aborted, went}
use ban2fail.Prelude.{
  suc, ◌+◌, ◌≤◌, ◌<◌, ◌≡◌, ◌⊎◌, ◌∙◌, ap, ap₂, sym, refl, arith, inl, inr, Bool, false, Bool-cases,
  ltb, ltb→lt, suc-ne_zero, length-append, ◌==◌, if◌then◌else◌, List, [], ◌∷◌, ◌++◌, append-nil,
  append_assoc, length,
}
use ban2fail.Stdio.{Text}

unfoldable pub join_more : List Text → Text
join_more [] = []
join_more (a ∷ rest) = 44 ∷ (a ++ join_more rest)

-- The addresses of one command, with a comma between two of them.
unfoldable pub join : List Text → Text
join [] = []
join (a ∷ rest) = a ++ join_more rest

abbrev pub batch_of : List Text → Batch
batch_of xs = record { addr_sb = join xs; naddr = length xs }

join_more-snoc : (xs : List Text) (a : Text) → join_more (xs ++ (a ∷ [])) ≡ join_more xs ++ (44 ∷ a)
unfolding join_more
join_more-snoc [] a = ap (λ l. 44 ∷ l) (append-nil a)
join_more-snoc (x ∷ xs) a =
    ap (λ l. 44 ∷ (x ++ l)) (join_more-snoc xs a)
    ∙ ap (λ l. 44 ∷ l) (sym (append_assoc x (join_more xs) (44 ∷ a)))

pub put_addr-batch_of :
    (xs : List Text) (a : Text) → put_addr (batch_of xs) a ≡ batch_of (xs ++ (a ∷ []))
unfolding put_addr join join_more
put_addr-batch_of [] a = ap (λ l. record { addr_sb = l; naddr = 1 }) (sym (append-nil a))
put_addr-batch_of (x ∷ xs) a =
    let text : ((x ++ join_more xs) ++ (44 ∷ [])) ++ a ≡ x ++ join_more (xs ++ (a ∷ [])) =
      append_assoc (x ++ join_more xs) (44 ∷ []) a
      ∙ append_assoc x (join_more xs) (44 ∷ a)
      ∙ ap (λ l. x ++ l) (sym (join_more-snoc xs a)) in
    let count : suc (length xs) + 1 ≡ suc (length (xs ++ (a ∷ []))) =
      omega (arith, length-append xs (a ∷ [])) in
    rw (suc-ne_zero (length xs)) (ap₂ (λ t n. record { addr_sb = t; naddr = n }) text count)

abbrev last_batch : List Text → List (List Text)
last_batch [] = []
last_batch (a ∷ p) = (a ∷ p) ∷ []

-- The addresses `xs` in batches, the first of which has `p` already.
unfoldable pub batches : List Text → List Text → List (List Text)
batches p [] = last_batch p
batches p (x ∷ xs) =
    let q = p ++ (x ∷ []) in if ltb (length q) max_addr then batches q xs else q ∷ batches [] xs

abbrev pub concat : List (List Text) → List Text
concat [] = []
concat (b ∷ bs) = b ++ concat bs

-- Each batch is a full command, but the last may be smaller; none is empty.
abbrev pub IsPacked : List (List Text) → Type 0
IsPacked [] = Unit
IsPacked (b ∷ bs) =
    (0 < length b) × (length b ≤ max_addr) × ((bs ≡ []) ⊎ (length b ≡ max_addr)) × IsPacked bs

pub batches-cons :
    (p : List Text) (x : Text) (xs : List Text)
    → batches p (x ∷ xs) ≡ (
        if ltb (length (p ++ (x ∷ []))) max_addr
        then batches (p ++ (x ∷ [])) xs
        else (p ++ (x ∷ [])) ∷ batches [] xs)
unfolding batches
batches-cons p x xs = refl

pub batches-last : (p : List Text) (x : Text) → batches p (x ∷ []) ≡ (p ++ (x ∷ [])) ∷ []
unfolding batches
batches-last p x = elim (Bool-cases (ltb (length (p ++ (x ∷ []))) max_addr)) [
  | inl t ↦ rw t (filled p)
  | inr t ↦ rw t
]
  where
    filled : (p : List Text) → last_batch (p ++ (x ∷ [])) ≡ (p ++ (x ∷ [])) ∷ []
    filled [] = refl
    filled (a ∷ p) = refl

-- A batch that has got an address is not empty.
pub snoc-ne_zero : (p : List Text) (x : Text) → (length (p ++ (x ∷ [])) == 0) ≡ false
snoc-ne_zero [] x = refl
snoc-ne_zero (a ∷ p) x = suc-ne_zero (length (p ++ (x ∷ [])))

pub concat-batches : (p xs : List Text) → concat (batches p xs) ≡ p ++ xs
unfolding batches
concat-batches [] [] = refl
concat-batches (a ∷ p) [] = refl
concat-batches p (x ∷ xs) =
    let q = p ++ (x ∷ []) in
    elim (Bool-cases (ltb (length q) max_addr)) [
      | inl t ↦ rw t (concat-batches q xs ∙ append_assoc p (x ∷ []) xs)
      | inr t ↦ rw t (ap (λ l. q ++ l) (concat-batches [] xs) ∙ append_assoc p (x ∷ []) xs)
    ]

pub batches-IsPacked : (p xs : List Text) → length p < max_addr → IsPacked (batches p xs)
unfolding batches
batches-IsPacked [] [] h = tt
batches-IsPacked (a ∷ p) [] h = (omega arith, omega arith, inl refl, tt)
batches-IsPacked p (x ∷ xs) h =
    let q = p ++ (x ∷ []) in
    let more = length-append p (x ∷ []) in
    elim (Bool-cases (ltb (length q) max_addr)) [
      | inl t ↦ rw t (batches-IsPacked q xs (ltb→lt (length q) max_addr t))
      | inr t ↦
          let full : max_addr ≤ length q = ground arith in
          rw t (
            omega (arith, more),
            omega (arith, more),
            inr (omega (arith, more)),
            batches-IsPacked [] xs (omega arith),
          )
    ]

-- Commands are run in order until one fails.
module _ (fails : List Command → Command → Bool) where
  unfoldable pub execute : List Command → List Command → Outcome Unit
  execute ran [] = went ran tt
  execute ran (c ∷ cs) =
      if fails ran c then aborted (ran ++ (c ∷ [])) else execute (ran ++ (c ∷ [])) cs

abbrev pub command : Flag → Program → List Text → Command
command flag program xs = record { program = program; flag = flag; source = join xs }
