-- ===== src/Map/Search.antt =====
-- The searches of map.c, against the list of the items under the key.
use ban2fail.Prelude.{
  ℕ, suc, ◌-◌, ◌≡◌, refl, arith, inl, inr, true, false, Bool-cases, ◌==◌, leb, if◌then◌else◌,
  length, List, [], ◌∷◌, Option, some, none,
}
use ban2fail.Map.Keys.{pick}
use ban2fail.Map.View.{view}
use ban2fail.Map.{
  Key, MapNode, Map, bucket, has_key, find_items_from, find_items, find_node_from, find_item,
}
use ban2fail.PtrVec.{loop_fwd}

-- The first item, if there is one.
abbrev pub front {ℓ} : {A : Type ℓ} → List A → Option A
front [] = none
front (x ∷ xs) = some x

module _ {ℓ} {I : Type ℓ} where
  find_node-front :
      (key : Key) (ns : List (MapNode I))
      → elim (find_node_from key ns) [ none ↦ none | some n ↦ some n.item_ptr ]
        ≡ front (pick key ns)
  unfolding find_node_from pick
  find_node-front key [] = refl
  find_node-front key (n ∷ ns) = elim (Bool-cases (has_key key n)) [
    | inl e ↦ rw (e, find_node_from)
    | inr e ↦ rw (e, find_node_from) (find_node-front key ns)
  ]

  -- MAP_findItem returns the first of the items under the key in the order of insertion, and NULL
  -- if there is none.
  pub find_item-view : (m : Map I) (key : Key) → find_item m key ≡ front (view m key)
  unfolding find_item view
  find_item-view m key = find_node-front key (loop_fwd (bucket m key))

  find_items_from-pick :
      (key : Key) (room : ℕ) (ns : List (MapNode I))
      → find_items_from key room ns
        ≡ (if leb (length (pick key ns)) room then some (pick key ns) else none)
  unfolding find_items_from pick
  find_items_from-pick key room [] = let t : leb 0 room ≡ true = ground arith in rw t
  find_items_from-pick key room (n ∷ ns) = elim (Bool-cases (has_key key n)) [
    | inr e ↦ rw e (find_items_from-pick key room ns)
    | inl e ↦ elim (Bool-cases (room == 0)) [
      | inl z ↦ let t : leb (suc (length (pick key ns))) room ≡ false = ground arith in rw (e, z, t)
      | inr z ↦
          let same : leb (suc (length (pick key ns))) room ≡ leb (length (pick key ns)) (room - 1) =
            ground arith in
          rw (e, z, same, find_items_from-pick key (room - 1) ns)
            (elim (Bool-cases (leb (length (pick key ns)) (room - 1))) [
              | inl t ↦ rw t
              | inr t ↦ rw t
            ])
    ]
  ]

  -- MAP_findItems returns all the items under the key, in the order of insertion, if the array has
  -- room for them, and -1 if not.
  pub find_items-view :
      (m : Map I) (size : ℕ) (key : Key)
      → find_items m size key ≡ (if leb (length (view m key)) size then some (view m key) else none)
  unfolding find_items view
  find_items-view m size key = find_items_from-pick key size (loop_fwd (bucket m key))
