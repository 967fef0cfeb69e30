-- ===== src/Ban2fail/Decide.antt =====
-- After the commands have been carried out, iptables blocks just the addresses that it should.
use ban2fail.Ban2fail.{
  as_unsigned, is_minus_one, flags_of, Todo, nothing_to_do, process, process_all, count_qsort,
  latest_qsort,
}
use ban2fail.Map.Keys.{key_eq, key_eq_refl}
use ban2fail.OffEntry.{OffEntry}
use ban2fail.Prelude.{
  ℕ, ◌≡◌, ◌⊎◌, ◌∙◌, ap, ap₂, refl, arith, inl, inr, Bool, true, false, Bool-cases, not, ◌&&◌, ◌||◌,
  List, [], ◌∷◌, ◌++◌, ltb, leb, if◌then◌else◌, All,
}
use ban2fail.Prelude.Int.{ℤ, pos, ◌≤ℤ◌}
use ban2fail.Stdio.{Text}

-- The policy: more offenses than are allowed, where -1 allows any number.
unfoldable pub deserves_block : ℤ → ℕ → Bool
deserves_block n_allowed count = not (is_minus_one n_allowed) && ltb (as_unsigned n_allowed) count

unfoldable pub mem_addr : Text → List Text → Bool
mem_addr a [] = false
mem_addr a (x ∷ xs) = key_eq x a || mem_addr a xs

-- What iptables blocks when the addresses `todo` have been blocked and unblocked.
unfoldable pub blocked_after : (Text → Bool) → Todo → Text → Bool
blocked_after blocked todo a =
    (blocked a || mem_addr a todo.to_block) && not (mem_addr a todo.to_unblock)

mem_addr-snoc :
    (a x : Text) (xs : List Text) → mem_addr a (xs ++ (x ∷ [])) ≡ (mem_addr a xs || key_eq x a)
unfolding mem_addr
mem_addr-snoc a x [] = elim (Bool-cases (key_eq x a)) [ inl t ↦ rw t | inr t ↦ rw t ]
mem_addr-snoc a x (y ∷ ys) = elim (Bool-cases (key_eq y a)) [
  | inl t ↦ rw t
  | inr t ↦ rw t (mem_addr-snoc a x ys)
]

mem_if_other :
    (b : Bool) (a x : Text) (xs : List Text)
    → key_eq x a ≡ false
    → mem_addr a (if b then xs ++ (x ∷ []) else xs) ≡ mem_addr a xs
mem_if_other true a x xs t = mem_addr-snoc a x xs ∙ rw t (or_false (mem_addr a xs))
  where
    or_false : (b : Bool) → (b || false) ≡ b
    or_false true = refl
    or_false false = refl
mem_if_other false a x xs t = refl

mem_if_self :
    (b : Bool) (a : Text) (xs : List Text)
    → mem_addr a xs ≡ false
    → mem_addr a (if b then xs ++ (a ∷ []) else xs) ≡ b
mem_if_self true a xs h = mem_addr-snoc a a xs ∙ ap₂ ◌||◌ h (key_eq_refl a)
mem_if_self false a xs h = h

-- The two tests of the loop, on a blocked and on a free address.
policy :
    (bl wl : Bool) (count n : ℕ)
    → ((bl || (not bl && (not wl && ltb n count))) && not ((wl || leb count n) && bl))
      ≡ (not wl && ltb n count)
policy true true count n = refl
policy true false count n = ground arith
policy false true count n = refl
policy false false count n = elim (Bool-cases (ltb n count)) [
  | inl t ↦ rw t (elim (Bool-cases (leb count n)) [ inl u ↦ rw u | inr u ↦ rw u ])
  | inr t ↦ rw t
]

module _ (blocked : Text → Bool) (allowed : Text → ℤ) where
  -- An address that no entry has is left as it is.
  abbrev pub Absent : Text → List OffEntry → Type 0
  Absent a es = All (λ e. key_eq e.addr a ≡ false) es

  same_elsewhere :
      (e : OffEntry) (todo : Todo) (a : Text)
      → key_eq e.addr a ≡ false
      → (mem_addr a (process blocked allowed e todo).to_block ≡ mem_addr a todo.to_block)
        × (mem_addr a (process blocked allowed e todo).to_unblock ≡ mem_addr a todo.to_unblock)
  unfolding process
  same_elsewhere e todo a t =
      let flags = flags_of (blocked e.addr) (allowed e.addr) e in
      (
        mem_if_other flags.would_block a e.addr todo.to_block t,
        mem_if_other flags.unjust_block a e.addr todo.to_unblock t,
      )

  Absent-unchanged :
      (es : List OffEntry) (todo : Todo) (a : Text)
      → Absent a es
      → (mem_addr a (process_all blocked allowed es todo).to_block ≡ mem_addr a todo.to_block)
        × (mem_addr a (process_all blocked allowed es todo).to_unblock ≡ mem_addr a todo.to_unblock)
  unfolding process_all
  Absent-unchanged [] todo a h = (refl, refl)
  Absent-unchanged (e ∷ es) todo a (t, h) =
      let (b, u) = Absent-unchanged es (process blocked allowed e todo) a h in
      let (b', u') = same_elsewhere e todo a t in (b ∙ b', u ∙ u')

  -- The one turn for the address.
  process-decides :
      (e : OffEntry) (todo : Todo)
      → mem_addr e.addr todo.to_block ≡ false
      → mem_addr e.addr todo.to_unblock ≡ false
      → blocked_after blocked (process blocked allowed e todo) e.addr
        ≡ deserves_block (allowed e.addr) e.count
  unfolding process blocked_after flags_of deserves_block
  process-decides e todo h k =
      let flags = flags_of (blocked e.addr) (allowed e.addr) e in
      ap₂ (λ b u. (blocked e.addr || b) && not u)
        (mem_if_self flags.would_block e.addr todo.to_block h)
        (mem_if_self flags.unjust_block e.addr todo.to_unblock k)
      ∙ policy (blocked e.addr) (is_minus_one (allowed e.addr)) e.count
          (as_unsigned (allowed e.addr))

  process_all-append :
      (xs ys : List OffEntry) (todo : Todo)
      → process_all blocked allowed (xs ++ ys) todo
        ≡ process_all blocked allowed ys (process_all blocked allowed xs todo)
  unfolding process_all
  process_all-append [] ys todo = refl
  process_all-append (x ∷ xs) ys todo = process_all-append xs ys (process blocked allowed x todo)

  blocked_after_congr :
      (s t : Todo) (a : Text)
      → (mem_addr a s.to_block ≡ mem_addr a t.to_block)
        × (mem_addr a s.to_unblock ≡ mem_addr a t.to_unblock)
      → blocked_after blocked s a ≡ blocked_after blocked t a
  unfolding blocked_after
  blocked_after_congr s t a (b, u) = ap₂ (λ x y. (blocked a || x) && not y) b u

  -- Whatever was blocked before: once the addresses that the loop of main collects from the
  -- entries have been blocked and unblocked, the address of an entry is blocked just if the entry
  -- has more offenses than it may have (-1 allows any number), provided that no other entry has
  -- this address.
  pub process_all-decides :
      (before : List OffEntry) (e : OffEntry) (after : List OffEntry)
      → Absent e.addr before
      → Absent e.addr after
      → blocked_after blocked
          (process_all blocked allowed (before ++ (e ∷ after)) nothing_to_do)
          e.addr
        ≡ deserves_block (allowed e.addr) e.count
  unfolding process_all mem_addr
  process_all-decides before e after h k =
      let todo = process_all blocked allowed before nothing_to_do in
      let (b, u) = Absent-unchanged before nothing_to_do e.addr h in
      ap (λ t. blocked_after blocked t e.addr) (process_all-append before (e ∷ after) nothing_to_do)
      ∙ blocked_after_congr _ (process blocked allowed e todo) e.addr
          (Absent-unchanged after (process blocked allowed e todo) e.addr k)
      ∙ process-decides e todo b u

  -- After the loop of main and its commands, an address that no entry has is blocked just if it
  -- was blocked before.
  pub process_all-Absent :
      (es : List OffEntry) (a : Text)
      → Absent a es
      → blocked_after blocked (process_all blocked allowed es nothing_to_do) a ≡ blocked a
  unfolding blocked_after mem_addr
  process_all-Absent es a h =
      blocked_after_congr _ nothing_to_do a (Absent-unchanged es nothing_to_do a h)
      ∙ kept (blocked a)
    where
      kept : (b : Bool) → ((b || false) && true) ≡ b
      kept true = refl
      kept false = refl

-- The order by which entries are sorted.
module _ (a b c : OffEntry) where
  -- The order by time and then by count in which main sorts the entries is transitive.
  pub latest_qsort-transitive :
      latest_qsort a b ≤ℤ pos 0 → latest_qsort b c ≤ℤ pos 0 → latest_qsort a c ≤ℤ pos 0
  unfolding latest_qsort count_qsort
  latest_qsort-transitive h k = ground arith

  pub latest_qsort-total : (latest_qsort a b ≤ℤ pos 0) ⊎ (latest_qsort b a ≤ℤ pos 0)
  unfolding latest_qsort count_qsort
  latest_qsort-total = ground arith
