-- ===== src/PtrVec/Remove.antt =====
-- PTRVEC_find and PTRVEC_remove, against the first occurrence of an item in the list.
use ban2fail.Prelude.{
  ℕ, zero, suc, ◌+◌, ◌≤◌, ◌<◌, ◌≡◌, ◌⊎◌, ◌∙◌, ap, ap₂, sym, refl, arith, inl, inr, true, false,
  Bool, Bool-cases, ◌∷◌, Option, some, none, listing, listing-eq, dec_lt, ◌≢◌,
}
use ban2fail.PtrVec.Deque.{first, drop_first}
use ban2fail.PtrVec.Omit.{at, remove_at-Omits}
use ban2fail.PtrVec.Ring.{IsValid}
use ban2fail.PtrVec.{PtrVec, loop_fwd, slot, find_from, find, remove_at, remove}

module _ {ℓ} {A : Type ℓ} (p : A → Bool) where
  first-listing-none :
      (f : ℕ → A) (n : ℕ)
      → ((i : ℕ) → i < n → p (f i) ≡ false)
      → (first p (listing f n) ≡ none) × (drop_first p (listing f n) ≡ listing f n)
  unfolding first drop_first
  first-listing-none f zero h = (refl, refl)
  first-listing-none f (suc n) h =
      let (a, b) = first-listing-none (λ i. f (suc i)) n (λ i l. h (suc i) (omega arith)) in
      rw (h 0 (omega arith)) (a, ap (λ l. f 0 ∷ l) b)

  first-listing-some :
      (f : ℕ → A) (n k : ℕ)
      → k < n
      → ((i : ℕ) → i < k → p (f i) ≡ false)
      → p (f k) ≡ true
      → first p (listing f n) ≡ some (f k)
  unfolding first
  first-listing-some f zero k l h e = absurd (omega arith)
  first-listing-some f (suc n) zero l h e = rw e
  first-listing-some f (suc n) (suc k) l h e =
      rw (h 0 (omega arith))
        (first-listing-some (λ i. f (suc i)) n k (omega arith) (λ i m. h (suc i) (omega arith)) e)

  drop_first-listing :
      (f g : ℕ → A) (n k : ℕ)
      → k ≤ n
      → ((i : ℕ) → i < k → p (f i) ≡ false)
      → p (f k) ≡ true
      → ((i : ℕ) → i < k → g i ≡ f i)
      → ((i : ℕ) → k ≤ i → i < n → g i ≡ f (suc i))
      → listing g n ≡ drop_first p (listing f (suc n))
  unfolding drop_first
  drop_first-listing f g n zero l h e b a =
      rw e (listing-eq (λ i. f (suc i)) g n n refl (λ i m. a i (omega arith) m))
  drop_first-listing f g zero (suc k) l h e b a = absurd (omega arith)
  drop_first-listing f g (suc n) (suc k) l h e b a = rw (h 0 (omega arith)) (
      ap₂ ◌∷◌ (b 0 (omega arith)) (
        drop_first-listing (λ i. f (suc i)) (λ i. g (suc i)) n k (omega arith)
          (λ i m. h (suc i) (omega arith)) e (λ i m. b (suc i) (omega arith))
          (λ i m o. a (suc i) (omega arith) (omega arith))))

module _ {ℓ} {A : Type ℓ} (same : A → A → Bool) (v : PtrVec A) (item : A) where
  -- What the search from place `i` on finds: the first match, or none.
  Found : ℕ → ℕ → Option ℕ → Type 0
  Found n i none = (j : ℕ) → i ≤ j → j < i + n → same (at v j) item ≡ false
  Found n i (some ndx) =
      (k : ℕ) × (ndx ≡ slot v k)
      × (i ≤ k)
      × (k < i + n)
      × (same (at v k) item ≡ true)
      × ((j : ℕ) → i ≤ j → j < k → same (at v j) item ≡ false)

  find_from-Found : (n i : ℕ) → Found n i (find_from same v item n i)
  unfolding find_from Found
  find_from-Found zero i = λ j l m. absurd (omega arith)
  find_from-Found (suc n) i = elim (Bool-cases (same (at v i) item)) [
    | inl e ↦ rw e (i, refl, omega arith, omega arith, e, λ j l m. absurd (omega arith))
    | inr e ↦ rw e (later (find_from same v item n (i + 1)) (find_from-Found n (i + 1)) e)
  ]
    where
      stay :
          same (at v i) item ≡ false
          → (j : ℕ) → i ≤ j
          → ((i + 1 ≤ j) → same (at v j) item ≡ false)
          → same (at v j) item ≡ false
      stay e j l h = elim (dec_lt i j) [
        | yes q ↦ h (omega arith)
        | no q ↦ let same_place : j ≡ i = omega arith in rw same_place e
      ]

      later : (o : Option ℕ) → Found n (i + 1) o → same (at v i) item ≡ false → Found (suc n) i o
      later none h e = λ j l m. stay e j l (λ q. h j q (omega arith))
      later (some ndx) (k, a, b, c, d, f) e =
          (k, a, omega arith, omega arith, d, λ j l m. stay e j l (λ q. f j q m))

  -- `PTRVEC_find` finds the first slot of the item, and says so when there is none.
  find-Found : Found v.num_items 0 (find same v item)
  unfolding find
  find-Found = find_from-Found v.num_items 0

  -- What a removal does to the list: it returns the item and takes the first occurrence out, or it
  -- returns NULL and changes nothing where there is none.
  abbrev pub Removed : Option A × PtrVec A → Type ℓ
  Removed (r, w) =
      IsValid w
      × (loop_fwd w ≡ drop_first (λ x. same x item) (loop_fwd v))
      × (((r ≡ none) × (w ≡ v) × (first (λ x. same x item) (loop_fwd v) ≡ none))
          ⊎ ((r ≡ some item)
              × (suc w.num_items ≡ v.num_items)
              × (first (λ x. same x item) (loop_fwd v) ≢ none)))

  -- PTRVEC_remove on a valid vector takes out the first occurrence of the item and keeps the
  -- others in order, in a valid vector; it returns the item, or NULL with the vector as it was
  -- where there is none.
  pub remove-refines : IsValid v → Removed (remove same v item)
  unfolding remove loop_fwd Found
  remove-refines valid = go (find same v item) find-Found
    where
      go :
          (o : Option ℕ)
          → Found v.num_items 0 o
          → Removed (elim o [ none ↦ (none, v) | some ndx ↦ (some item, remove_at v ndx) ])
      go none h =
          let (a, b) =
            first-listing-none (λ x. same x item) (at v) v.num_items
              (λ i l. h i (omega arith) (omega arith)) in
          (valid, sym b, inl (refl, refl, a))
      go (some ndx) (k, a, b, c, d, f) =
          let o = remove_at-Omits valid k (omega arith) in
          let w = remove_at v (slot v k) in
          let n = w.num_items in
          let seen =
            first-listing-some (λ x. same x item) (at v) v.num_items k (omega arith)
              (λ i l. f i (omega arith) l) d in
          rw a (
            o.valid,
            drop_first-listing (λ x. same x item) (at v) (at w) n k (omega (arith, o.fewer))
                  (λ i l. f i (omega arith) l) d o.before o.after
                ∙ ap (λ m. drop_first (λ x. same x item) (listing (at v) m)) o.fewer,
            inr (refl, o.fewer, λ e. cc seen),
          )
