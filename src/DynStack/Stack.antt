-- ===== src/DynStack/Stack.antt =====
-- A DS is a stack: the list of its elements, the last one on top.
use ban2fail.DynStack.{
  DynStack, top, drop_copied, pop, put, enlarge, push, exists_from, entry_exists, visit_from,
  visit_all_entries,
}
use ban2fail.Prelude.Order.{mul_le}
use ban2fail.Prelude.{
  ℕ, zero, suc, ◌+◌, ◌-◌, ◌*◌, ◌%◌, ◌≤◌, ◌<◌, ◌≡◌, ◌≢◌, ◌⊎◌, ◌∙◌, ap, refl, arith, inl, inr, Bool,
  true, false, Bool-cases, ℕ_discrete, Option, none, some, List, [], ◌∷◌, ◌++◌, ◌==◌, if◌then◌else◌,
  leb, min, store, listing, listing_congr, listing-suc, listing-snoc, store_eq, store_ne, Memory,
  u32, add32,
}
use ban2fail.MsgQueue.{unless_stopped}
use mathlib.Core.Path.{fun_ext}
use ban2fail.Prelude.Int.{ℤ, pos, negsuc}

-- There is memory for an element, and for as many as the size says; the numbers of elements and of
-- bytes are still numbers of 32 bits once the size has doubled.
pub record IsValid {ℓ} {A : Type ℓ} (s : DynStack A) : Type 0 where
  pub roomy : 1 ≤ s.size
  pub fits : s.count ≤ s.size
  pub small : s.size * 2 < u32
  pub held : s.elsize * s.size ≤ s.room
  pub narrow : s.elsize * (s.size * 2) < u32

module _ {ℓ} {A : Type ℓ} where
  -- The elements from the bottom to the top.
  unfoldable pub entries : DynStack A → List A
  entries s = listing s.stk_ptr s.count

  abbrev pub has : (A → A → Bool) → A → List A → Bool
  has same target [] = false
  has same target (x ∷ xs) = if same x target then true else has same target xs

  put-entries :
      (s : DynStack A) (x : A)
      → s.count + 1 < u32
      → s.elsize * (s.count + 1) ≤ s.room
      → entries (put s x) ≡ entries s ++ (x ∷ [])
  unfolding entries put
  put-entries s x h k =
      let at_end = add32 s.count 1 - 1 in
      let next : add32 s.count 1 ≡ s.count + 1 = omega arith in
      let t : leb (s.elsize * add32 s.count 1) s.room ≡ true = rw next (ground arith) in
      rw t (
        listing-snoc s.stk_ptr (store s.stk_ptr at_end x) s.count x (add32 s.count 1) (omega arith)
          (λ i k. store_ne s.stk_ptr at_end i x (omega arith))
          (store_eq s.stk_ptr at_end s.count x (omega arith)))

  module _ (mem : Memory A) (s : DynStack A) (valid : IsValid s) where
    doubled : s.elsize * (s.size * 2 % u32) % u32 ≡ s.elsize * (s.size * 2)
    doubled =
        let plain : s.size * 2 % u32 ≡ s.size * 2 = omega (arith, valid.small) in
        rw plain (omega (arith, valid.narrow))

    enlarge-entries : entries (enlarge mem s) ≡ entries s
    unfolding entries enlarge
    enlarge-entries = listing_congr _ s.stk_ptr s.count (λ i h.
        let plain : s.elsize * (s.size * 2 % u32) % u32 ≡ s.elsize * (s.size * 2) = doubled in
        let below : s.elsize * (i + 1) ≤ s.elsize * s.size =
          mul_le s.elsize (i + 1) s.size (omega (arith, valid.fits)) in
        let more : s.elsize * s.size ≤ s.elsize * (s.size * 2) =
          mul_le s.elsize s.size (s.size * 2) (omega arith) in
        let t : leb (s.elsize * (i + 1)) (min s.room (s.elsize * (s.size * 2 % u32) % u32)) ≡ true =
          rw plain (ground (arith, valid.held)) in
        rw t)

    put_room : s.count ≢ s.size → s.elsize * (s.count + 1) ≤ s.room
    put_room ne =
        let below = mul_le s.elsize (s.count + 1) s.size (omega (arith, valid.fits)) in
        omega (arith, valid.held)

    enlarge_room :
        s.count ≡ s.size
        → (enlarge mem s).elsize * ((enlarge mem s).count + 1) ≤ (enlarge mem s).room
    unfolding enlarge
    enlarge_room e =
        rw doubled (mul_le s.elsize (s.count + 1) (s.size * 2) (omega (arith, valid.roomy)))

    counted : s.count ≡ s.size → (enlarge mem s).count + 1 < u32
    unfolding enlarge
    counted e = omega (arith, valid.small, valid.roomy)

    grown :
        (x : A)
        → s.count ≡ s.size
        → ((put (enlarge mem s) x).count ≡ suc s.count)
          × ((put (enlarge mem s) x).count ≤ (put (enlarge mem s) x).size)
    unfolding put enlarge
    grown x e = omega (arith, valid.small, valid.roomy)

    filled :
        (x : A)
        → s.count ≢ s.size
        → ((put s x).count ≡ suc s.count) × ((put s x).count ≤ (put s x).size)
    unfolding put
    filled x e = omega (arith, valid.small, valid.fits)

    -- DS_push on a stack with memory for as many elements as its size says, where twice the size,
    -- and the bytes for it, are numbers of 32 bits, returns 0 and puts the element on top, within
    -- the size; or it returns -1 and leaves the stack as it was, which was full.
    pub push-refines :
        (x : A)
        → ((push mem s x ≡ (negsuc 0, s)) × (s.count ≡ s.size))
          ⊎ (((push mem s x).0 ≡ pos 0)
              × (entries (push mem s x).1 ≡ entries s ++ (x ∷ []))
              × ((push mem s x).1.count ≡ suc s.count)
              × ((push mem s x).1.count ≤ (push mem s x).1.size))
    unfolding push
    push-refines x = elim (ℕ_discrete s.count s.size) [
      | yes e ↦
          let t : (s.count == s.size) ≡ true = ground arith in
          elim (Bool-cases (mem.grants (s.elsize * (s.size * 2 % u32) % u32))) [
            | inl g ↦
                rw (t, g)
                  (inr (
                    refl,
                    put-entries (enlarge mem s) x (counted e) (enlarge_room e)
                        ∙ ap (λ l. l ++ (x ∷ [])) enlarge-entries,
                    (grown x e).0,
                    (grown x e).1,
                  ))
            | inr g ↦ rw (t, g) (inl (refl, e))
          ]
      | no ne ↦
          let t : (s.count == s.size) ≡ false = ground arith in
          rw t (
            inr (
              refl,
              put-entries s x (omega (arith, valid.fits, valid.small)) (put_room ne),
              (filled x ne).0,
              (filled x ne).1,
            ))
    ]

  top-empty : (s : DynStack A) → s.count ≡ 0 → top s ≡ (negsuc 0, none)
  unfolding top
  top-empty s e = let t : (s.count == 0) ≡ true = ground arith in rw t

  top-more : (s : DynStack A) → s.count ≢ 0 → top s ≡ (pos 0, some (s.stk_ptr (s.count - 1)))
  unfolding top
  top-more s e = let t : (s.count == 0) ≡ false = ground arith in rw t

  pop-of : (s : DynStack A) {c : ℤ × Option A} → top s ≡ c → pop s ≡ drop_copied s c
  unfolding pop
  pop-of s e = ap (drop_copied s) e

  -- DS_pop returns 0 with the element on top and leaves the elements below it, or it returns -1
  -- from an empty stack and leaves it as it was.
  pub pop-refines :
      (s : DynStack A)
      → ((pop s ≡ ((negsuc 0, none), s)) × (entries s ≡ []))
        ⊎ ((x : A) × ((pop s).0 ≡ (pos 0, some x)) × (entries s ≡ entries (pop s).1 ++ (x ∷ [])))
  unfolding entries
  pop-refines s = elim (ℕ_discrete s.count 0) [
    | yes e ↦ inl (pop-of s (top-empty s e), ap (listing s.stk_ptr) e)
    | no ne ↦
        let more : s.count ≡ suc (s.count - 1) = omega arith in
        let t = pop-of s (top-more s ne) in
        rw t (
          inr (
            s.stk_ptr (s.count - 1),
            refl,
            ap (listing s.stk_ptr) more ∙ listing-suc s.stk_ptr (s.count - 1),
          ))
  ]

  exists_from-has :
      (same : A → A → Bool) (s : DynStack A) (target : A) (left i : ℕ)
      → exists_from same s target i left ≡ has same target (listing (λ j. s.stk_ptr (i + j)) left)
  unfolding exists_from
  exists_from-has same s target zero i = refl
  exists_from-has same s target (suc left) i =
      let here : i ≡ i + 0 = omega arith in
      let rest = exists_from-has same s target left (i + 1) in
      let shift : listing (λ j. s.stk_ptr (i + 1 + j)) left
          ≡ listing (λ j. s.stk_ptr (i + suc j)) left =
        listing_congr _ _ left (λ j h. ap s.stk_ptr (omega arith)) in
      ap (λ r. if same (s.stk_ptr i) target then true else r) (rest ∙ ap (has same target) shift)
      ∙ ap
          (λ k.
            if same (s.stk_ptr k) target
            then true
            else has same target (listing (λ j. s.stk_ptr (i + suc j)) left))
          here

  -- DS_entry_exists answers whether some element of the stack compares equal to the target.
  pub entry_exists-has :
      (same : A → A → Bool) (s : DynStack A) (target : A)
      → entry_exists same s target ≡ has same target (entries s)
  unfolding entry_exists entries
  entry_exists-has same s target =
      exists_from-has same s target s.count 0
      ∙ ap (has same target) (listing_congr _ s.stk_ptr s.count (λ j h. ap s.stk_ptr (omega arith)))

  -- A walk that ends with the first result that is not 0.
  abbrev pub visit_all : {S : Type 0} → (A → S → ℤ × S) → List A → S → ℤ × S
  visit_all func [] arg = (pos 0, arg)
  visit_all func (x ∷ xs) arg = unless_stopped (func x arg) (λ next. visit_all func xs next)

  visit_from-visit_all :
      {S : Type 0} (s : DynStack A) (func : A → S → ℤ × S) (left i : ℕ) (arg : S)
      → visit_from s func i left arg ≡ visit_all func (listing (λ j. s.stk_ptr (i + j)) left) arg
  unfolding visit_from
  visit_from-visit_all s func zero i arg = refl
  visit_from-visit_all s func (suc left) i arg =
      let here : i ≡ i + 0 = omega arith in
      let shift : listing (λ j. s.stk_ptr (i + 1 + j)) left
          ≡ listing (λ j. s.stk_ptr (i + suc j)) left =
        listing_congr _ _ left (λ j h. ap s.stk_ptr (omega arith)) in
      ap (unless_stopped (func (s.stk_ptr i) arg)) (
        fun_ext (λ next.
          visit_from-visit_all s func left (i + 1) next ∙ ap (λ l. visit_all func l next) shift))
      ∙ ap
          (λ k.
            unless_stopped (func (s.stk_ptr k) arg)
              (λ next. visit_all func (listing (λ j. s.stk_ptr (i + suc j)) left) next))
          here

  -- DS_visitAllEntries calls the function on the elements from the bottom to the top, until it
  -- returns something other than 0, and returns that.
  pub visit_all_entries-visit_all :
      {S : Type 0} (s : DynStack A) (func : A → S → ℤ × S) (arg : S)
      → visit_all_entries s func arg ≡ visit_all func (entries s) arg
  unfolding visit_all_entries entries
  visit_all_entries-visit_all s func arg =
      visit_from-visit_all s func s.count 0 arg
      ∙ ap (λ l. visit_all func l arg)
          (listing_congr _ s.stk_ptr s.count (λ j h. ap s.stk_ptr (omega arith)))
