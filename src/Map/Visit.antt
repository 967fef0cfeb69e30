-- ===== src/Map/Visit.antt =====
-- The walks over a MAP: they see the entries bucket by bucket, and every item under a key.
use ban2fail.Prelude.{
  ℕ, zero, suc, ◌+◌, ◌≤◌, ◌<◌, ◌≡◌, ◌≢◌, ◌⊎◌, ◌∙◌, ap, sym, refl, arith, inl, inr, Bool-cases,
  false, ◌==◌, if◌then◌else◌, length, length-append, List, [], ◌∷◌, ◌++◌, append-nil, append_assoc,
  map, All, add32, u32, dec_lt,
}
use ban2fail.Map.Keys.{eq_of_key_eq, pick, pick-append}
use ban2fail.Map.View.{IsValid, view, bucket_of-lt}
use ban2fail.Map.{
  Key, MapNode, Map, bucket_of, has_key, visit_nodes, visit_buckets, visit_all_entries,
  num_items_from, num_items, load_arr, fetch_all_items,
}
use ban2fail.PtrVec.Ends.{length-loop_fwd}
use ban2fail.PtrVec.{loop_fwd}

module _ {ℓ} {I : Type ℓ} where
  -- The nodes of `n` buckets from bucket `ndx` on.
  unfoldable pub entries_from : Map I → ℕ → ℕ → List (MapNode I)
  entries_from m zero ndx = []
  entries_from m (suc n) ndx = loop_fwd (m.bucket_arr ndx) ++ entries_from m n (ndx + 1)

  unfoldable pub entries : Map I → List (MapNode I)
  unfolding entries_from
  entries m = entries_from m m.num_buckets 0

  module _ {κ} {S : Type κ} (func : I → S → ℕ × S) where
    visit_nodes-append :
        (l k : List (MapNode I)) (s : S)
        → visit_nodes func (l ++ k) s ≡ (
            let (rc, s') = visit_nodes func l s in
            if rc == 0 then visit_nodes func k s' else (rc, s'))
    unfolding visit_nodes
    visit_nodes-append [] k s = refl
    visit_nodes-append (n ∷ l) k s = elim (Bool-cases ((func n.item_ptr s).0 == 0)) [
      | inl e ↦ rw e (visit_nodes-append l k (func n.item_ptr s).1)
      | inr e ↦ rw (e, e)
    ]

    visit_buckets-entries :
        (m : Map I) (n ndx : ℕ) (s : S)
        → visit_buckets func m n ndx s ≡ visit_nodes func (entries_from m n ndx) s
    unfolding visit_buckets entries_from visit_nodes
    visit_buckets-entries m zero ndx s = refl
    visit_buckets-entries m (suc n) ndx s =
        let (rc, s') = visit_nodes func (loop_fwd (m.bucket_arr ndx)) s in
        ap (λ r. if rc == 0 then r else (rc, s')) (visit_buckets-entries m n (ndx + 1) s')
        ∙ sym (visit_nodes-append (loop_fwd (m.bucket_arr ndx)) (entries_from m n (ndx + 1)) s)

    visit_all_entries-visit_nodes :
        (m : Map I) (s : S) → visit_all_entries func m s ≡ visit_nodes func (entries m) s
    unfolding visit_all_entries entries
    visit_all_entries-visit_nodes m s = visit_buckets-entries m m.num_buckets 0 s

    -- What a walk over the items is meant to do: once a result is not zero, it stands, and the items
    -- behind it change nothing.
    unfoldable pub walk : List I → ℕ × S → ℕ × S
    walk [] r = r
    walk (x ∷ xs) r = walk xs (if r.0 == 0 then func x r.1 else r)

    walk-stopped : (xs : List I) (r : ℕ × S) → (r.0 == 0) ≡ false → walk xs r ≡ r
    unfolding walk
    walk-stopped [] r h = refl
    walk-stopped (x ∷ xs) r h = rw h (walk-stopped xs r h)

    visit_nodes-walk :
        (l : List (MapNode I)) (s : S)
        → visit_nodes func l s ≡ walk (map (λ n. n.item_ptr) l) (0, s)
    unfolding visit_nodes walk
    visit_nodes-walk [] s = refl
    visit_nodes-walk (n ∷ l) s =
        let rest = map (λ o. o.item_ptr) l in
        elim (Bool-cases ((func n.item_ptr s).0 == 0)) [
          | inl e ↦
              let zero_result : (func n.item_ptr s).0 ≡ 0 = ground arith in
              rw e (visit_nodes-walk l (func n.item_ptr s).1)
              ∙ ap (λ rc. walk rest (rc, (func n.item_ptr s).1)) (sym zero_result)
          | inr e ↦ rw e (sym (walk-stopped rest (func n.item_ptr s) e))
        ]

    -- MAP_visitAllEntries calls the function on the items of all entries, bucket by bucket, as one
    -- walk over their list does in which a result that is not zero stands, and the items behind it
    -- change nothing: this result, or 0, is returned.
    pub visit_all_entries-entries :
        (m : Map I) (s : S)
        → visit_all_entries func m s ≡ walk (map (λ n. n.item_ptr) (entries m)) (0, s)
    visit_all_entries-entries m s =
        visit_all_entries-visit_nodes m s ∙ visit_nodes-walk (entries m) s

  visit-load_arr :
      (l : List (MapNode I)) (arr : List I)
      → visit_nodes load_arr l arr ≡ (0, arr ++ map (λ n. n.item_ptr) l)
  unfolding visit_nodes load_arr
  visit-load_arr [] arr = ap (λ a. (0, a)) (sym (append-nil arr))
  visit-load_arr (n ∷ l) arr =
      visit-load_arr l (arr ++ (n.item_ptr ∷ []))
      ∙ ap (λ a. (0, a)) (append_assoc arr (n.item_ptr ∷ []) (map (λ o. o.item_ptr) l))

  -- `MAP_fetchAllItems` writes the items of all entries.
  pub fetch_all_items-entries : (m : Map I) → fetch_all_items m ≡ map (λ n. n.item_ptr) (entries m)
  unfolding fetch_all_items
  fetch_all_items-entries m =
      ap (λ r. r.1) (visit_all_entries-visit_nodes load_arr m [] ∙ visit-load_arr (entries m) [])

  num_items-entries_from :
      (m : Map I) (n ndx sum : ℕ)
      → sum + length (entries_from m n ndx) < u32
      → num_items_from m n ndx sum ≡ sum + length (entries_from m n ndx)
  unfolding num_items_from entries_from
  num_items-entries_from m zero ndx sum h = omega arith
  num_items-entries_from m (suc n) ndx sum h =
      let b = loop_fwd (m.bucket_arr ndx) in
      let split = length-append b (entries_from m n (ndx + 1)) in
      let plain : add32 sum (m.bucket_arr ndx).num_items ≡ sum + length b =
        omega (arith, length-loop_fwd (m.bucket_arr ndx), split) in
      rw plain (
        num_items-entries_from m n (ndx + 1) (sum + length b) (omega (arith, split))
        ∙ omega (arith, split))

  -- MAP_numItems counts the entries of all buckets, if they are fewer than 2^32.
  pub num_items-entries : (m : Map I) → length (entries m) < u32 → num_items m ≡ length (entries m)
  unfolding num_items entries
  num_items-entries m h = num_items-entries_from m m.num_buckets 0 0 (omega arith) ∙ omega arith

  -- A bucket whose nodes all have other keys holds no item of this one.
  pick-foreign :
      (key : Key) (ns : List (MapNode I)) (m : Map I) (i : ℕ)
      → All (λ n. bucket_of m n.key ≡ i) ns
      → bucket_of m key ≢ i
      → pick key ns ≡ []
  unfolding pick
  pick-foreign key [] m i h ne = refl
  pick-foreign key (n ∷ ns) m i (h, hs) ne = elim (Bool-cases (has_key key n)) [
    | inl e ↦ absurd (ne (ap (bucket_of m) (sym (eq_of_key_eq n.key key e)) ∙ h))
    | inr e ↦ rw e (pick-foreign key ns m i hs ne)
  ]

  module _ (m : Map I) (key : Key) (valid : IsValid m) where
    abbrev home : ℕ
    home = bucket_of m key

    pick-entries_none :
        (n ndx : ℕ)
        → ndx + n ≤ m.num_buckets
        → (home < ndx) ⊎ (ndx + n ≤ home)
        → pick key (entries_from m n ndx) ≡ []
    unfolding entries_from pick
    pick-entries_none zero ndx h o = refl
    pick-entries_none (suc n) ndx h o =
        pick-append key (loop_fwd (m.bucket_arr ndx)) (entries_from m n (ndx + 1))
        ∙ ap (λ l. l ++ pick key (entries_from m n (ndx + 1)))
            (pick-foreign key (loop_fwd (m.bucket_arr ndx)) m ndx (valid.placed ndx (omega arith))
              (omega arith))
        ∙ pick-entries_none n (ndx + 1) (omega arith) (omega arith)

    pick-entries_some :
        (n ndx : ℕ)
        → ndx + n ≤ m.num_buckets
        → ndx ≤ home
        → home < ndx + n
        → pick key (entries_from m n ndx) ≡ pick key (loop_fwd (m.bucket_arr home))
    unfolding entries_from
    pick-entries_some zero ndx h lo hi = absurd (omega arith)
    pick-entries_some (suc n) ndx h lo hi =
        let split = pick-append key (loop_fwd (m.bucket_arr ndx)) (entries_from m n (ndx + 1)) in
        elim (dec_lt ndx home) [
          | yes p ↦
              split
              ∙ ap (λ l. l ++ pick key (entries_from m n (ndx + 1)))
                  (pick-foreign key (loop_fwd (m.bucket_arr ndx)) m ndx
                    (valid.placed ndx (omega arith)) (omega arith))
              ∙ pick-entries_some n (ndx + 1) (omega arith) (omega arith) (omega arith)
          | no p ↦
              let here : ndx ≡ home = omega arith in
              split
              ∙ ap (λ l. pick key (loop_fwd (m.bucket_arr ndx)) ++ l)
                  (pick-entries_none n (ndx + 1) (omega arith) (omega arith))
              ∙ append-nil _
              ∙ ap (λ i. pick key (loop_fwd (m.bucket_arr i))) here
        ]

    -- A walk over a valid table meets, of each key, the items that a search for the key finds, in
    -- the same order.
    pub view-entries : view m key ≡ pick key (entries m)
    unfolding view entries
    view-entries = sym (
        pick-entries_some m.num_buckets 0 (omega arith) (omega arith)
          (omega (arith, bucket_of-lt m key valid.positive)))
