-- ===== src/StrMap.antt =====
-- What the other parts of ban2fail ask of a MAP whose keys are strings: the operations
-- MAP_constructor, MAP_findStrItem and MAP_addStrKey, and the entries in the order in which
-- MAP_visitAllEntries meets them, with their laws. Memory lasts for a number of insertions that `Fits` counts.
use ban2fail.Map.Keys.{key_eq}
use ban2fail.Map.{Key}
use ban2fail.Prelude.{
  ℕ, suc, ◌≤◌, ◌^◌, ◌≡◌, Option, some, none, if◌then◌else◌, List, [], ◌∷◌, length, All,
}

-- The first of two that is there.
abbrev pub or_else {ℓ} : {A : Type ℓ} → Option A → A → A
or_else none y = y
or_else (some x) y = x

-- The first item under a key.
unfoldable pub assoc {ℓ} : {I : Type ℓ} → Key → List (Key × I) → Option I
assoc key [] = none
assoc key ((k, x) ∷ es) = if key_eq k key then some x else assoc key es

pub record StrMap (I : Type 0) : Type 1 where
  pub T : Type 0
  -- Room for that many more insertions.
  pub Fits : ℕ → T → Type 0
  pub fresh : T
  pub find : T → Key → Option I
  pub add : T → Key → I → T
  pub fits_fresh : (n : ℕ) → n ≤ 2 ^ 30 → Fits n fresh
  pub fits_less : (n : ℕ) (t : T) → Fits (suc n) t → Fits n t
  pub fits_add : (n : ℕ) (t : T) (k : Key) (x : I) → Fits (suc n) t → Fits n (add t k x)
  pub find_fresh : (k : Key) → find fresh k ≡ none
  pub find_add :
      (n : ℕ) (t : T) (k : Key) (x : I) (j : Key)
      → Fits (suc n) t
      → find (add t k x) j ≡ (if key_eq k j then some (or_else (find t j) x) else find t j)
  pub entries : T → List (Key × I)
  pub entries_fresh : entries fresh ≡ []
  pub find_entries : (n : ℕ) (t : T) (k : Key) → Fits n t → find t k ≡ assoc k (entries t)
  pub all_add :
      (n : ℕ) (t : T) (k : Key) (x : I) (P : Key × I → Type 0)
      → Fits (suc n) t
      → All P (entries t)
      → P (k, x)
      → All P (entries (add t k x))
  pub count_add :
      (n : ℕ) (t : T) (k : Key) (x : I)
      → Fits (suc n) t
      → length (entries (add t k x)) ≡ suc (length (entries t))
