-- ===== src/Map/Keys.antt =====
-- Keys of map.c are compared by length and then byte by byte: that is equality. The items under a
-- key, in a list of nodes.
use ban2fail.Prelude.{
  ◌≡◌, ◌≢◌, ◌⊎◌, ap, ap₂, sym, refl, arith, inl, inr, Bool, true, false, ◌&&◌, Bool-cases, ◌==◌,
  ==_iff, if◌then◌else◌, length, List, [], ◌∷◌, ◌++◌,
}
use ban2fail.Map.{Key, MapNode, same_bytes, has_key}

pub same_bytes_refl : (s : Key) → same_bytes s s ≡ true
unfolding same_bytes
same_bytes_refl [] = refl
same_bytes_refl (a ∷ s) = let e : (a == a) ≡ true = ground arith in rw (e, same_bytes_refl s)

pub eq_of_same_bytes : (s t : Key) → same_bytes s t ≡ true → s ≡ t
unfolding same_bytes
eq_of_same_bytes [] [] h = refl
eq_of_same_bytes [] (b ∷ t) h = cc
eq_of_same_bytes (a ∷ s) [] h = cc
eq_of_same_bytes (a ∷ s) (b ∷ t) h = elim (Bool-cases (a == b)) [
  | inl e ↦ ap₂ ◌∷◌ ((==_iff a b).0 e) (eq_of_same_bytes s t (rw e at h))
  | inr e ↦ let f : false ≡ true = rw e at h in cc
]

-- The test of the code, as a test on keys.
abbrev pub key_eq : Key → Key → Bool
key_eq j k = length k == length j && same_bytes j k

pub key_eq_refl : (k : Key) → key_eq k k ≡ true
key_eq_refl k = let e : (length k == length k) ≡ true = ground arith in rw (e, same_bytes_refl k)

pub eq_of_key_eq : (j k : Key) → key_eq j k ≡ true → j ≡ k
eq_of_key_eq j k h = eq_of_same_bytes j k (ground arith)

-- Keys are equal, or the test tells them apart both ways.
pub key_cases :
    (j k : Key)
    → ((j ≡ k) × (key_eq j k ≡ true)) ⊎ ((j ≢ k) × (key_eq j k ≡ false) × (key_eq k j ≡ false))
key_cases j k = elim (Bool-cases (key_eq j k)) [
  | inl e ↦ inl (eq_of_key_eq j k e, e)
  | inr e ↦ elim (Bool-cases (key_eq k j)) [
    | inl f ↦ inl (sym (eq_of_key_eq k j f), rw (eq_of_key_eq k j f) (key_eq_refl j))
    | inr f ↦ inr ((λ p. cc (key_eq_refl k, ap (λ x. key_eq x k) p)), e, f)
  ]
]

module _ {ℓ} {I : Type ℓ} where
  -- The items that stand under a key, in order.
  unfoldable pub pick : Key → List (MapNode I) → List I
  pick key [] = []
  pick key (n ∷ ns) = if has_key key n then n.item_ptr ∷ pick key ns else pick key ns

  pub pick-append :
      (key : Key) (l m : List (MapNode I)) → pick key (l ++ m) ≡ pick key l ++ pick key m
  unfolding pick
  pick-append key [] m = refl
  pick-append key (n ∷ ns) m = elim (Bool-cases (has_key key n)) [
    | inl e ↦ rw e (ap (λ l. n.item_ptr ∷ l) (pick-append key ns m))
    | inr e ↦ rw e (pick-append key ns m)
  ]
