-- ===== src/Prelude/Slots.antt =====
-- A C array as a function from indices, and the list of its first values under an index map.
use Prim.Native.Nat.{ℕ, zero, suc, ◌+◌, ◌-◌, ◌<◌, ◌≤◌}
use mathlib.Core.Path.{◌≡◌, refl, sym, ap, ap₂}
use mathlib.Core.List.{List, [], ◌∷◌, ◌++◌}
use mathlib.Core.Bool.{true, false, ◌&&◌}
use mathlib.Core.Logic.{◌≢◌, ◌⊎◌}
use native.Mathlib.Omega.{arith}
use ban2fail.Prelude.Tests.{ltb, leb, ◌==◌, if◌then◌else◌}
use ban2fail.Prelude.Lists.{length}

module _ {ℓ} {A : Type ℓ} where
  -- `arr[i] = x`
  abbrev pub store : (ℕ → A) → ℕ → A → ℕ → A
  store arr i x j = if j == i then x else arr j

  -- `memmove(arr + dst, arr + src, n * sizeof *arr)`
  abbrev pub memmove : (ℕ → A) → ℕ → ℕ → ℕ → ℕ → A
  memmove arr dst src n j = if leb dst j && ltb j (dst + n) then arr (src + (j - dst)) else arr j

  -- `memcpy(arr + dst, src, n * sizeof *arr)`
  abbrev pub memcpy : (ℕ → A) → ℕ → (ℕ → A) → ℕ → ℕ → A
  memcpy arr dst src n j = if leb dst j && ltb j (dst + n) then src (j - dst) else arr j

  -- The values of `f` below `n`, in order.
  abbrev pub listing : (ℕ → A) → ℕ → List A
  listing f zero = []
  listing f (suc n) = f 0 ∷ listing (λ i. f (suc i)) n

  pub length-listing : (f : ℕ → A) (n : ℕ) → length (listing f n) ≡ n
  length-listing f zero = refl
  length-listing f (suc n) = ap suc (length-listing (λ i. f (suc i)) n)

  pub listing_congr :
      (f g : ℕ → A) (n : ℕ) → ((i : ℕ) → i < n → f i ≡ g i) → listing f n ≡ listing g n
  listing_congr f g zero h = refl
  listing_congr f g (suc n) h =
      ap₂ ◌∷◌ (h 0 (omega arith))
        (listing_congr (λ i. f (suc i)) (λ i. g (suc i)) n (λ i p. h (suc i) (omega arith)))

  pub listing-suc : (f : ℕ → A) (n : ℕ) → listing f (suc n) ≡ listing f n ++ (f n ∷ [])
  listing-suc f zero = refl
  listing-suc f (suc n) = ap (λ l. f 0 ∷ l) (listing-suc (λ i. f (suc i)) n)

  module _ (f g : ℕ → A) (n : ℕ) where
    -- Two listings of the same values.
    pub listing-eq : (m : ℕ) → m ≡ n → ((i : ℕ) → i < n → g i ≡ f i) → listing g m ≡ listing f n
    listing-eq m e h = rw e (listing_congr g f n h)

    -- A listing with one more value at the end.
    pub listing-snoc :
        (x : A) (m : ℕ)
        → m ≡ suc n
        → ((i : ℕ) → i < n → g i ≡ f i)
        → g n ≡ x
        → listing g m ≡ listing f n ++ (x ∷ [])
    listing-snoc x m e h last = rw (e, listing-suc g n, listing_congr g f n h, last)

    -- A listing with one more value in front.
    pub listing-cons :
        (x : A) (m : ℕ)
        → m ≡ suc n
        → g 0 ≡ x
        → ((i : ℕ) → i < n → g (suc i) ≡ f i)
        → listing g m ≡ x ∷ listing f n
    listing-cons x m e first h = rw (e, first, listing_congr (λ i. g (suc i)) f n h)

module _ {ℓ} {A : Type ℓ} (arr : ℕ → A) where
  pub store_eq : (i j : ℕ) (x : A) → j ≡ i → store arr i x j ≡ x
  store_eq i j x e = let t : (j == i) ≡ true = ground arith in rw t

  pub store_ne : (i j : ℕ) (x : A) → j ≢ i → store arr i x j ≡ arr j
  store_ne i j x e = let t : (j == i) ≡ false = ground arith in rw t

  module _ (dst src n j : ℕ) where
    pub memmove_in :
        (k : ℕ) → dst ≤ j → j < dst + n → k ≡ src + (j - dst) → memmove arr dst src n j ≡ arr k
    memmove_in k h l e =
        let t : (leb dst j && ltb j (dst + n)) ≡ true = ground arith in rw t (ap arr (sym e))

    pub memmove_out : (j < dst) ⊎ (dst + n ≤ j) → memmove arr dst src n j ≡ arr j
    memmove_out h = let t : (leb dst j && ltb j (dst + n)) ≡ false = ground arith in rw t

module _ {ℓ} {A : Type ℓ} (arr : ℕ → A) (dst : ℕ) (src : ℕ → A) (n : ℕ) where
  pub memcpy_in : (k : ℕ) → k < n → memcpy arr dst src n (dst + k) ≡ src k
  memcpy_in k h =
      let t : (leb dst (dst + k) && ltb (dst + k) (dst + n)) ≡ true = ground arith in
      let back : dst + k - dst ≡ k = omega arith in rw t (ap src back)

  pub memcpy_out : (j : ℕ) → (j < dst) ⊎ (dst + n ≤ j) → memcpy arr dst src n j ≡ arr j
  memcpy_out j h = let t : (leb dst j && ltb j (dst + n)) ≡ false = ground arith in rw t
