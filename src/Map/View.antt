-- ===== src/Map/View.antt =====
-- What a MAP means: for each key the items that stand under it, in the order of insertion. Its
-- invariant, and how the writing of one bucket changes both.
use ban2fail.Prelude.{
  ℕ, ◌<◌, ◌≡◌, ◌≢◌, ◌⊎◌, ◌∙◌, ap, sym, refl, arith, inl, inr, List, [], ◌∷◌, All, All-map, store_eq,
  store_ne, ℕ_discrete,
}
use ban2fail.Map.Keys.{pick}
use ban2fail.Map.{Key, MapNode, Map, bucket_of, bucket, put_bucket}
use ban2fail.PtrVec.{PtrVec, loop_fwd}
use ban2fail.PtrVec.Ring

module _ {ℓ} {I : Type ℓ} where
  -- No two nodes stand at one address.
  abbrev pub Distinct : List (MapNode I) → Type 0
  Distinct [] = Unit
  Distinct (n ∷ ns) = All (λ o. o.addr ≢ n.addr) ns × Distinct ns

  -- An address at which no node of the table stands.
  abbrev pub IsFresh : ℕ → Map I → Type 0
  IsFresh addr m =
      (i : ℕ) → i < m.num_buckets → All (λ n. n.addr ≢ addr) (loop_fwd (m.bucket_arr i))

  pub record IsValid (m : Map I) : Type 0 where
    pub positive : 0 < m.num_buckets
    pub buckets : (i : ℕ) → i < m.num_buckets → Ring.IsValid (m.bucket_arr i)
    pub placed :
        (i : ℕ) → i < m.num_buckets → All (λ n. bucket_of m n.key ≡ i) (loop_fwd (m.bucket_arr i))
    pub distinct : (i : ℕ) → i < m.num_buckets → Distinct (loop_fwd (m.bucket_arr i))

  pub bucket_of-lt : (m : Map I) (key : Key) → 0 < m.num_buckets → bucket_of m key < m.num_buckets
  unfolding bucket_of
  bucket_of-lt m key h = omega arith

  unfoldable pub view : Map I → Key → List I
  view m key = pick key (loop_fwd (bucket m key))

  pub bucket_of-put_bucket :
      (m : Map I) (key j : Key) (v : PtrVec (MapNode I))
      → bucket_of (put_bucket m key v) j ≡ bucket_of m j
  unfolding bucket_of
  bucket_of-put_bucket m key j v = refl

  module _ (m : Map I) (key : Key) (v : PtrVec (MapNode I)) where
    pub bucket-put_bucket :
        (i : ℕ)
        → ((i ≡ bucket_of m key) × ((put_bucket m key v).bucket_arr i ≡ v))
          ⊎ ((i ≢ bucket_of m key) × ((put_bucket m key v).bucket_arr i ≡ m.bucket_arr i))
    bucket-put_bucket i = elim (ℕ_discrete i (bucket_of m key)) [
      | yes e ↦ inl (e, store_eq m.bucket_arr (bucket_of m key) i v e)
      | no n ↦ inr (n, store_ne m.bucket_arr (bucket_of m key) i v n)
    ]

    pub put_bucket-IsValid :
        IsValid m
        → Ring.IsValid v
        → All (λ n. bucket_of m n.key ≡ bucket_of m key) (loop_fwd v)
        → Distinct (loop_fwd v)
        → IsValid (put_bucket m key v)
    put_bucket-IsValid valid ok here apart = record {
      positive = valid.positive;
      buckets = λ i h. elim (bucket-put_bucket i) [
        | inl (e, f) ↦ rw f ok
        | inr (e, f) ↦ rw f (valid.buckets i h)
      ];
      placed = λ i h. elim (bucket-put_bucket i) [
        | inl (e, f) ↦
            rw f (
              All-map _ _ (loop_fwd v) (λ n p. bucket_of-put_bucket m key n.key v ∙ p ∙ sym e) here)
        | inr (e, f) ↦ rw f (
            All-map _ _ (loop_fwd (m.bucket_arr i)) (λ n p. bucket_of-put_bucket m key n.key v ∙ p)
              (valid.placed i h))
      ];
      distinct = λ i h. elim (bucket-put_bucket i) [
        | inl (e, f) ↦ rw f apart
        | inr (e, f) ↦ rw f (valid.distinct i h)
      ];
    }

    -- A key of another bucket keeps its items.
    pub view-put_bucket :
        (j : Key)
        → ((bucket_of m j ≡ bucket_of m key) × (view (put_bucket m key v) j ≡ pick j (loop_fwd v)))
          ⊎ ((bucket_of m j ≢ bucket_of m key) × (view (put_bucket m key v) j ≡ view m j))
    unfolding view
    view-put_bucket j =
        let same = bucket_of-put_bucket m key j v in
        elim (bucket-put_bucket (bucket_of m j)) [
          | inl (e, f) ↦ inl (e, rw same (ap (λ b. pick j (loop_fwd b)) f))
          | inr (e, f) ↦ inr (e, rw same (ap (λ b. pick j (loop_fwd b)) f))
        ]
