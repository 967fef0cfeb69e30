-- ===== src/Map/Remove.antt =====
-- The removals of map.c.
use ban2fail.Prelude.{
  ◌<◌, ◌≡◌, ◌≢◌, ◌⊎◌, ◌∙◌, ap, sym, refl, arith, inl, inr, Bool, true, false, ◌&&◌, Bool-cases,
  if◌then◌else◌, List, [], ◌∷◌, Option, some, none,
}
use ban2fail.Map.Omit.{
  rest, All-drop_first, Distinct-drop_first, drop_first-addr, find_node_from-first,
  pick-drop_first_self, pick-drop_first_other,
}
use ban2fail.Map.Keys.{key_eq, key_cases, eq_of_key_eq, pick}
use ban2fail.Map.Search.{front}
use ban2fail.Map.View.{IsValid, view, bucket_of-lt, put_bucket-IsValid, view-put_bucket}
use ban2fail.Map.{
  Key, MapNode, Map, bucket_of, bucket, has_key, same_node, find_node, find_specific, remove_node,
  remove_item, remove_specific_item,
}
use ban2fail.PtrVec
use ban2fail.PtrVec.Deque.{first, drop_first}
use ban2fail.PtrVec.Remove.{remove-refines}
use ban2fail.PtrVec.{PtrVec, loop_fwd}

module _ {ℓ} {I : Type ℓ} where
  -- The removal of a node that a search for `p` in the bucket of `key` found.
  module _ (m : Map I) (key : Key) (valid : IsValid m) (p : MapNode I → Bool) where
    module _ (n : MapNode I) (found : first p (loop_fwd (bucket m key)) ≡ some n) where
      old : List (MapNode I)
      old = loop_fwd (bucket m key)

      in_range : bucket_of m key < m.num_buckets
      in_range = bucket_of-lt m key valid.positive

      removed : PtrVec (MapNode I)
      removed = (PtrVec.remove same_node (bucket m key) n).1

      removed-items : loop_fwd removed ≡ drop_first p (loop_fwd (bucket m key))
      unfolding removed
      removed-items =
          (remove-refines same_node (bucket m key) n (valid.buckets _ in_range)).1
          ∙ drop_first-addr p (loop_fwd (bucket m key)) n found (valid.distinct _ in_range)

      remove_node-IsValid : IsValid (remove_node m key n)
      unfolding remove_node removed
      remove_node-IsValid =
          put_bucket-IsValid m key removed valid
            (remove-refines same_node (bucket m key) n (valid.buckets _ in_range)).0
            (rw removed-items (All-drop_first _ p _ (valid.placed _ in_range)))
            (rw removed-items (Distinct-drop_first p _ (valid.distinct _ in_range)))

      remove_node-view :
          (j : Key)
          → ((bucket_of m j ≡ bucket_of m key)
              × (view (remove_node m key n) j ≡ pick j (drop_first p (loop_fwd (bucket m key)))))
            ⊎ ((bucket_of m j ≢ bucket_of m key) × (view (remove_node m key n) j ≡ view m j))
      unfolding remove_node removed
      remove_node-view j = elim (view-put_bucket m key removed j) [
        | inl (same, e) ↦ inl (same, e ∙ ap (pick j) removed-items)
        | inr (other, e) ↦ inr (other, e)
      ]

  -- What a removal leaves: a valid table in which the items under `key` are `left`, and those under
  -- every other key are as they were.
  abbrev pub Leaves : Map I → Key → List I → Map I → Type ℓ
  Leaves m key left w =
      IsValid w × ((j : Key) → view w j ≡ (if key_eq key j then left else view m j))

  module _ (m : Map I) (key : Key) (valid : IsValid m) where
    untouched : Leaves m key (view m key) m
    untouched = (
      valid,
      λ j. elim (key_cases key j) [
        | inl (e, t) ↦ rw t (ap (view m) (sym e))
        | inr (n, t, u) ↦ rw t
      ],
    )

    module _ (p : MapNode I → Bool)
        (sound : (j : Key)
          → key_eq key j ≡ false
          → (n : MapNode I) → p n ≡ true
          → has_key j n ≡ false)
        (n : MapNode I) (found : first p (loop_fwd (bucket m key)) ≡ some n) where
      remove_node-Leaves :
          Leaves m key (pick key (drop_first p (loop_fwd (bucket m key)))) (remove_node m key n)
      unfolding view
      remove_node-Leaves = (
        remove_node-IsValid m key valid p n found,
        λ j. elim (key_cases key j) [
          | inl (e, t) ↦ elim (remove_node-view m key valid p n found j) [
            | inl (same, f) ↦
                rw t (f ∙ ap (λ k. pick k (drop_first p (loop_fwd (bucket m key)))) (sym e))
            | inr (other, f) ↦ absurd (other (ap (bucket_of m) (sym e)))
          ]
          | inr (ne, t, u) ↦ elim (remove_node-view m key valid p n found j) [
            | inl (same, f) ↦ rw t (
                f
                ∙ pick-drop_first_other j p (loop_fwd (bucket m key)) (sound j t)
                ∙ ap (λ i. pick j (loop_fwd (m.bucket_arr i))) (sym same))
            | inr (other, f) ↦ rw t f
          ]
        ],
      )

    -- A node that has one key does not have another.
    other_key :
        (j : Key)
        → key_eq key j ≡ false
        → (n : MapNode I) → has_key key n ≡ true
        → has_key j n ≡ false
    other_key j t n h = ap (λ k. key_eq k j) (eq_of_key_eq n.key key h) ∙ t

  drop_first-none :
      (p : MapNode I → Bool) (ns : List (MapNode I)) → first p ns ≡ none → drop_first p ns ≡ ns
  unfolding first drop_first
  drop_first-none p [] h = refl
  drop_first-none p (n ∷ ns) h = elim (Bool-cases (p n)) [
    | inl e ↦ let q : some n ≡ none = rw e at h in cc q
    | inr e ↦ rw e (ap (λ l. n ∷ l) (drop_first-none p ns (rw e at h)))
  ]

  -- The item of a node that may be missing.
  abbrev item_of : Option (MapNode I) → Option I
  item_of none = none
  item_of (some n) = some n.item_ptr

  item_of-first :
      (key : Key) (ns : List (MapNode I)) → item_of (first (has_key key) ns) ≡ front (pick key ns)
  unfolding first pick
  item_of-first key [] = refl
  item_of-first key (n ∷ ns) = elim (Bool-cases (has_key key n)) [
    | inl e ↦ rw e
    | inr e ↦ rw e (item_of-first key ns)
  ]

  module _ (m : Map I) (key : Key) (valid : IsValid m) where
    abbrev taken : Option (MapNode I) → Option I × Map I
    taken none = (none, m)
    taken (some n) = (some n.item_ptr, remove_node m key n)

    taken-Leaves :
        (p : MapNode I → Bool)
        → ((j : Key) → key_eq key j ≡ false → (n : MapNode I) → p n ≡ true → has_key j n ≡ false)
        → (o : Option (MapNode I)) → first p (loop_fwd (bucket m key)) ≡ o
        → ((taken o).0 ≡ item_of o)
          × Leaves m key (pick key (drop_first p (loop_fwd (bucket m key)))) (taken o).1
    unfolding view
    taken-Leaves p sound none e =
        (refl, rw (drop_first-none p (loop_fwd (bucket m key)) e) (untouched m key valid))
    taken-Leaves p sound (some n) e = (refl, remove_node-Leaves m key valid p sound n e)

    remove_item-taken : remove_item m key ≡ taken (first (has_key key) (loop_fwd (bucket m key)))
    unfolding remove_item
    remove_item-taken =
        go (find_node m key) ∙ ap taken (find_node_from-first key (loop_fwd (bucket m key)))
      where
        go :
            (o : Option (MapNode I))
            → elim o [ none ↦ (none, m) | some n ↦ (some n.item_ptr, remove_node m key n) ]
              ≡ taken o
        go none = refl
        go (some n) = refl

    -- In a valid table MAP_removeItem returns the first item under the key and takes that one out,
    -- or returns NULL where there is none. The items of other keys stay and the table is valid.
    pub remove_item-Leaves :
        let (r, w) = remove_item m key in
        (r ≡ front (view m key)) × Leaves m key (rest (view m key)) w
    unfolding view
    remove_item-Leaves =
        let ns = loop_fwd (bucket m key) in
        let (r, l) =
          taken-Leaves (has_key key) (other_key m key valid) (first (has_key key) ns) refl in
        rw (remove_item-taken, ← pick-drop_first_self key ns) (r ∙ item_of-first key ns, l)

    find_specific-first :
        (same_item : I → I → Bool) (item : I) (ns : List (MapNode I))
        → find_specific same_item key item ns
          ≡ first (λ n. has_key key n && same_item n.item_ptr item) ns
    unfolding find_specific first
    find_specific-first same_item item [] = refl
    find_specific-first same_item item (n ∷ ns) =
        elim (Bool-cases (has_key key n && same_item n.item_ptr item)) [
          | inl e ↦ rw e
          | inr e ↦ rw e (find_specific-first same_item item ns)
        ]

    module _ (same_item : I → I → Bool) (item : I) where
      abbrev wanted : MapNode I → Bool
      wanted n = has_key key n && same_item n.item_ptr item

      remove_specific_item-taken :
          remove_specific_item same_item m key item ≡ taken (first wanted (loop_fwd (bucket m key)))
      unfolding remove_specific_item
      remove_specific_item-taken =
          go (find_specific same_item key item (loop_fwd (bucket m key)))
          ∙ ap taken (find_specific-first same_item item (loop_fwd (bucket m key)))
        where
          go :
              (o : Option (MapNode I))
              → elim o [ none ↦ (none, m) | some n ↦ (some n.item_ptr, remove_node m key n) ]
                ≡ taken o
          go none = refl
          go (some n) = refl

      wanted-pick :
          (ns : List (MapNode I))
          → (item_of (first wanted ns) ≡ first (λ i. same_item i item) (pick key ns))
            × (pick key (drop_first wanted ns) ≡ drop_first (λ i. same_item i item) (pick key ns))
      unfolding first drop_first pick
      wanted-pick [] = (refl, refl)
      wanted-pick (n ∷ ns) =
          let (a, b) = wanted-pick ns in
          elim (Bool-cases (has_key key n)) [
            | inr e ↦ rw (e, e) (a, b)
            | inl e ↦ elim (Bool-cases (same_item n.item_ptr item)) [
              | inl f ↦ rw (e, f) (refl, refl)
              | inr f ↦ rw (e, f, e) (a, ap (λ l. n.item_ptr ∷ l) b)
            ]
          ]

      -- In a valid table MAP_removeSpecificItem takes out the first occurrence of the item under
      -- the key and returns it, or returns NULL where there is none. The items of other keys stay
      -- and the table is valid.
      pub remove_specific_item-Leaves :
          let (r, w) = remove_specific_item same_item m key item in
          (r ≡ first (λ i. same_item i item) (view m key))
          × Leaves m key (drop_first (λ i. same_item i item) (view m key)) w
      unfolding view
      remove_specific_item-Leaves =
          let ns = loop_fwd (bucket m key) in
          let (a, b) = wanted-pick ns in
          let (r, l) =
            taken-Leaves wanted (λ j t n h. other_key m key valid j t n (ground arith))
              (first wanted ns) refl in
          rw (remove_specific_item-taken, ← b) (r ∙ a, l)
