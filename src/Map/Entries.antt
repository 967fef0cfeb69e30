-- ===== src/Map/Entries.antt =====
-- The entries of a MAP as the walks meet them: what holds of all of them, and a search through them.
use ban2fail.Map.Search.{front, find_item-view}
use ban2fail.Map.View.{IsValid, bucket-put_bucket, bucket_of-lt}
use ban2fail.Map.Visit.{entries, entries_from, view-entries}
use ban2fail.Map.Keys.{key_eq, pick}
use ban2fail.Map.{Key, MapNode, Map, bucket_of, bucket, put_bucket, find_item}
use ban2fail.Prelude.{
  ℕ, zero, suc, ◌+◌, ◌≤◌, ◌<◌, ◌≡◌, ◌⊎◌, ◌∙◌, ap, length, length-append, subst, sym, refl, arith,
  inl, inr, Bool-cases, List, [], ◌∷◌, map, All, All-append, dec_lt, All-split,
}
use ban2fail.PtrVec.{PtrVec, loop_fwd}
use ban2fail.StrMap.{assoc}

module _ {I : Type 0} where
  abbrev pub pair : MapNode I → Key × I
  pair n = (n.key, n.item_ptr)

  front-assoc : (key : Key) (ns : List (MapNode I)) → front (pick key ns) ≡ assoc key (map pair ns)
  unfolding pick assoc
  front-assoc key [] = refl
  front-assoc key (n ∷ ns) = elim (Bool-cases (key_eq n.key key)) [
    | inl e ↦ rw (e, pick, assoc)
    | inr e ↦ rw (e, pick, assoc) (front-assoc key ns)
  ]

  -- A search finds the first entry of the walk that has the key.
  pub find_item-assoc :
      (m : Map I) (key : Key) → IsValid m → find_item m key ≡ assoc key (map pair (entries m))
  find_item-assoc m key valid =
      find_item-view m key ∙ ap front (view-entries m key valid) ∙ front-assoc key (entries m)

  module _ (P : MapNode I → Type 0) where
    from-buckets :
        (m : Map I) (n ndx : ℕ)
        → ndx + n ≤ m.num_buckets
        → ((i : ℕ) → i < m.num_buckets → All P (loop_fwd (m.bucket_arr i)))
        → All P (entries_from m n ndx)
    unfolding entries_from
    from-buckets m zero ndx h all = tt
    from-buckets m (suc n) ndx h all =
        All-append P (loop_fwd (m.bucket_arr ndx)) (entries_from m n (ndx + 1))
          (all ndx (omega arith)) (from-buckets m n (ndx + 1) (omega arith) all)

    to-buckets :
        (m : Map I) (n ndx : ℕ)
        → All P (entries_from m n ndx)
        → (i : ℕ) → ndx ≤ i
        → i < ndx + n
        → All P (loop_fwd (m.bucket_arr i))
    unfolding entries_from
    to-buckets m zero ndx all i lo hi = absurd (omega arith)
    to-buckets m (suc n) ndx all i lo hi =
        let (here, there) =
          All-split P (loop_fwd (m.bucket_arr ndx)) (entries_from m n (ndx + 1)) all in
        elim (dec_lt ndx i) [
          | yes p ↦ to-buckets m n (ndx + 1) there i (omega arith) (omega arith)
          | no p ↦
              let same : ndx ≡ i = omega arith in
              subst (λ j. All P (loop_fwd (m.bucket_arr j))) same here
        ]

    -- What holds of the entries, and of those of a bucket that is written, holds afterwards.
    pub put_bucket-entries :
        (m : Map I) (key : Key) (v : PtrVec (MapNode I))
        → All P (entries m)
        → All P (loop_fwd v)
        → All P (entries (put_bucket m key v))
    unfolding entries
    put_bucket-entries m key v old new =
        from-buckets (put_bucket m key v) m.num_buckets 0 (omega arith) (λ i h.
          elim (bucket-put_bucket m key v i) [
            | inl (e, f) ↦ rw f new
            | inr (e, f) ↦ rw f (to-buckets m m.num_buckets 0 old i (omega arith) (omega arith))
          ])

    pub bucket-entries :
        (m : Map I) (key : Key) → IsValid m → All P (entries m) → All P (loop_fwd (bucket m key))
    unfolding entries
    bucket-entries m key valid old =
        to-buckets m m.num_buckets 0 old (bucket_of m key) (omega arith)
          (omega (arith, bucket_of-lt m key valid.positive))

  -- Writing one bucket changes the number of the entries by what that bucket gains.
  module _ (m : Map I) (key : Key) (v : PtrVec (MapNode I)) where
    abbrev home : ℕ
    home = bucket_of m key

    abbrev written : Map I
    written = put_bucket m key v

    length-outside :
        (n ndx : ℕ)
        → (home < ndx) ⊎ (ndx + n ≤ home)
        → length (entries_from written n ndx) ≡ length (entries_from m n ndx)
    unfolding entries_from
    length-outside zero ndx o = refl
    length-outside (suc n) ndx o = elim (bucket-put_bucket m key v ndx) [
      | inl (e, f) ↦ absurd (omega arith)
      | inr (e, f) ↦
          let rest = length-outside n (ndx + 1) (omega arith) in
          rw f (
            omega (
              arith,
              rest,
              length-append (loop_fwd (m.bucket_arr ndx)) (entries_from written n (ndx + 1)),
              length-append (loop_fwd (m.bucket_arr ndx)) (entries_from m n (ndx + 1)),
            ))
    ]

    length-inside :
        (n ndx : ℕ)
        → ndx ≤ home
        → home < ndx + n
        → length (entries_from written n ndx) + length (loop_fwd (bucket m key))
          ≡ length (entries_from m n ndx) + length (loop_fwd v)
    unfolding entries_from
    length-inside zero ndx lo hi = absurd (omega arith)
    length-inside (suc n) ndx lo hi = elim (bucket-put_bucket m key v ndx) [
      | inl (e, f) ↦
          let rest = length-outside n (ndx + 1) (omega arith) in
          let same : loop_fwd (bucket m key) ≡ loop_fwd (m.bucket_arr ndx) =
            ap (λ i. loop_fwd (m.bucket_arr i)) (sym e) in
          rw (f, same)
            (omega (
              arith,
              rest,
              length-append (loop_fwd v) (entries_from written n (ndx + 1)),
              length-append (loop_fwd (m.bucket_arr ndx)) (entries_from m n (ndx + 1)),
            ))
      | inr (e, f) ↦
          let rest = length-inside n (ndx + 1) (omega arith) (omega arith) in
          rw f (
            omega (
              arith,
              rest,
              length-append (loop_fwd (m.bucket_arr ndx)) (entries_from written n (ndx + 1)),
              length-append (loop_fwd (m.bucket_arr ndx)) (entries_from m n (ndx + 1)),
            ))
    ]

    pub length-put_bucket :
        IsValid m
        → length (entries written) + length (loop_fwd (bucket m key))
          ≡ length (entries m) + length (loop_fwd v)
    unfolding entries
    length-put_bucket valid =
        length-inside m.num_buckets 0 (omega arith)
          (omega (arith, bucket_of-lt m key valid.positive))

  pub length-pairs : (ns : List (MapNode I)) → length (map pair ns) ≡ length ns
  length-pairs [] = refl
  length-pairs (n ∷ ns) = ap suc (length-pairs ns)

  -- A table of empty buckets has no entries.
  pub entries-empty :
      (m : Map I) → ((i : ℕ) → i < m.num_buckets → loop_fwd (m.bucket_arr i) ≡ []) → entries m ≡ []
  unfolding entries
  entries-empty m e =
      none_left (entries_from m m.num_buckets 0)
        (from-buckets (λ n. ⊥) m m.num_buckets 0 (omega arith) (λ i h. rw (e i h) tt))
    where
      none_left : (ns : List (MapNode I)) → All (λ n. ⊥) ns → ns ≡ []
      none_left [] h = refl
      none_left (n ∷ ns) (h, hs) = absurd h

  -- The same of the entries as pairs.
  module _ (P : Key × I → Type 0) where
    pub All-pairs : (ns : List (MapNode I)) → All (λ n. P (pair n)) ns → All P (map pair ns)
    All-pairs [] h = tt
    All-pairs (n ∷ ns) (h, hs) = (h, All-pairs ns hs)

    pub All-nodes : (ns : List (MapNode I)) → All P (map pair ns) → All (λ n. P (pair n)) ns
    All-nodes [] h = tt
    All-nodes (n ∷ ns) (h, hs) = (h, All-nodes ns hs)
