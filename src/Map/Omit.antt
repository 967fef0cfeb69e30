-- ===== src/Map/Omit.antt =====
-- Lists of nodes without the first that passes a test, as the removals of map.c leave them.
use ban2fail.Prelude.{
  ◌≡◌, ◌≢◌, ap, refl, arith, inl, inr, Bool, true, false, Bool-cases, ◌==◌, List, [], ◌∷◌, some,
  All, subst,
}
use ban2fail.Map.Keys.{pick}
use ban2fail.Map.View.{Distinct}
use ban2fail.Map.{Key, MapNode, has_key, same_node, find_node_from}
use ban2fail.PtrVec.Deque.{first, drop_first}

-- A list without its first item.
abbrev pub rest {ℓ} : {A : Type ℓ} → List A → List A
rest [] = []
rest (x ∷ xs) = xs

pub All-drop_first {ℓ κ} :
    {A : Type ℓ} (P : A → Type κ) (p : A → Bool) (xs : List A) → All P xs → All P (drop_first p xs)
unfolding drop_first
All-drop_first P p [] h = tt
All-drop_first P p (x ∷ xs) (h, hs) = elim (Bool-cases (p x)) [
  | inl e ↦ rw e hs
  | inr e ↦ rw e (h, All-drop_first P p xs hs)
]

module _ {ℓ} {I : Type ℓ} where
  pub Distinct-drop_first :
      (p : MapNode I → Bool) (ns : List (MapNode I)) → Distinct ns → Distinct (drop_first p ns)
  unfolding drop_first
  Distinct-drop_first p [] h = tt
  Distinct-drop_first p (n ∷ ns) (h, d) = elim (Bool-cases (p n)) [
    | inl e ↦ rw e d
    | inr e ↦ rw e (All-drop_first _ p ns h, Distinct-drop_first p ns d)
  ]

  first-All {κ} :
      (P : MapNode I → Type κ) (p : MapNode I → Bool) (ns : List (MapNode I)) (n : MapNode I)
      → first p ns ≡ some n
      → All P ns
      → P n
  unfolding first
  first-All P p [] n e h = cc
  first-All P p (o ∷ ns) n e (h, hs) = elim (Bool-cases (p o)) [
    | inl t ↦ let q : some o ≡ some n = rw t at e in let found : o ≡ n = cc q in subst P found h
    | inr t ↦ first-All P p ns n (rw t at e) hs
  ]

  -- Where addresses are distinct, the removal by address takes out the very node that was found.
  pub drop_first-addr :
      (p : MapNode I → Bool) (ns : List (MapNode I)) (n : MapNode I)
      → first p ns ≡ some n
      → Distinct ns
      → drop_first (λ x. same_node x n) ns ≡ drop_first p ns
  unfolding first drop_first
  drop_first-addr p [] n e h = refl
  drop_first-addr p (o ∷ ns) n e (h, d) = elim (Bool-cases (p o)) [
    | inl t ↦
        let q : some o ≡ some n = rw t at e in
        let found : o ≡ n = cc q in
        let s : (o.addr == n.addr) ≡ true =
          rw found (let z : (n.addr == n.addr) ≡ true = ground arith in z) in
        rw (s, t)
    | inr t ↦
        let later : first p ns ≡ some n = rw t at e in
        let apart = first-All (λ x. x.addr ≢ o.addr) p ns n later h in
        let s : (o.addr == n.addr) ≡ false = ground arith in
        rw (s, t) (ap (λ l. o ∷ l) (drop_first-addr p ns n later d))
  ]

  pub find_node_from-first :
      (key : Key) (ns : List (MapNode I)) → find_node_from key ns ≡ first (has_key key) ns
  unfolding find_node_from first
  find_node_from-first key [] = refl
  find_node_from-first key (n ∷ ns) = elim (Bool-cases (has_key key n)) [
    | inl e ↦ rw e
    | inr e ↦ rw e (find_node_from-first key ns)
  ]

  pub pick-drop_first_self :
      (key : Key) (ns : List (MapNode I))
      → pick key (drop_first (has_key key) ns) ≡ rest (pick key ns)
  unfolding pick drop_first
  pick-drop_first_self key [] = refl
  pick-drop_first_self key (n ∷ ns) = elim (Bool-cases (has_key key n)) [
    | inl e ↦ rw e
    | inr e ↦ rw (e, e) (pick-drop_first_self key ns)
  ]

  pub pick-drop_first_other :
      (j : Key) (p : MapNode I → Bool) (ns : List (MapNode I))
      → ((n : MapNode I) → p n ≡ true → has_key j n ≡ false)
      → pick j (drop_first p ns) ≡ pick j ns
  unfolding pick drop_first
  pick-drop_first_other j p [] h = refl
  pick-drop_first_other j p (n ∷ ns) h = elim (Bool-cases (p n)) [
    | inl e ↦ rw (e, h n e)
    | inr e ↦ elim (Bool-cases (has_key j n)) [
      | inl f ↦ rw (e, f) (ap (λ l. n.item_ptr ∷ l) (pick-drop_first_other j p ns h))
      | inr f ↦ rw (e, f) (pick-drop_first_other j p ns h)
    ]
  ]
