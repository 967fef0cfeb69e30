-- ===== src/Map/Insert.antt =====
-- MAP_constructor and MAP_addKey.
use ban2fail.Prelude.{
  ℕ, ◌+◌, ◌<◌, ◌≡◌, ◌≢◌, ◌⊎◌, ◌∙◌, ap, sym, refl, inl, inr, false, Bool-cases, if◌then◌else◌,
  length, List, [], ◌∷◌, ◌++◌, append-nil, All, All-append, Memory,
}
use ban2fail.Map.Keys.{key_eq, key_cases, pick, pick-append}
use ban2fail.Map.View.{
  Distinct, IsFresh, IsValid, view, bucket_of-lt, put_bucket-IsValid, view-put_bucket,
}
use ban2fail.Map.{Key, MapNode, Map, bucket_of, bucket, put_bucket, add_key}
use ban2fail.PtrVec.Ends.{max_count, add_tail-refines}
use ban2fail.PtrVec.Ring
use ban2fail.PtrVec.{PtrVec, loop_fwd}

module _ {ℓ} {I : Type ℓ} where
  Distinct-snoc :
      (l : List (MapNode I)) (n : MapNode I)
      → Distinct l
      → All (λ o. o.addr ≢ n.addr) l
      → Distinct (l ++ (n ∷ []))
  Distinct-snoc [] n h k = (tt, tt)
  Distinct-snoc (o ∷ l) n (h, d) (k, ks) =
      (All-append _ l (n ∷ []) h ((λ e. k (sym e)), tt), Distinct-snoc l n d ks)

  pick-singleton :
      (j : Key) (n : MapNode I) → pick j (n ∷ []) ≡ (if key_eq n.key j then n.item_ptr ∷ [] else [])
  unfolding pick
  pick-singleton j n = refl

  module _ (mem : Memory (MapNode I)) (addr : ℕ) (m : Map I) (key : Key) (item : I) where
    abbrev node : MapNode I
    node = record { addr = addr; key = key; item_ptr = item }

    -- What an insertion leaves: with 0 the item behind those of its key, with 1 the table as it
    -- was. 1 is returned only if an allocation is refused.
    abbrev pub Added : ℕ → Map I → Type ℓ
    Added r w =
        IsValid w
        × (((r ≡ 0)
              × ((j : Key)
                  → view w j ≡ (if key_eq key j then view m j ++ (item ∷ []) else view m j)))
            ⊎ ((r ≡ 1) × ((j : Key) → view w j ≡ view m j) × ((n : ℕ) × (mem.grants n ≡ false))))

    module _ (valid : IsValid m) (fresh : IsFresh addr m) where
      put_same :
          (v : PtrVec (MapNode I))
          → v ≡ bucket m key
          → (j : Key) → view (put_bucket m key v) j ≡ view m j
      unfolding view
      put_same v e j = elim (view-put_bucket m key v j) [
        | inl (same, f) ↦ f ∙ ap (λ b. pick j (loop_fwd b)) (e ∙ ap m.bucket_arr (sym same))
        | inr (other, f) ↦ f
      ]

      put_more :
          (v : PtrVec (MapNode I))
          → loop_fwd v ≡ loop_fwd (bucket m key) ++ (node ∷ [])
          → (j : Key)
          → view (put_bucket m key v) j
            ≡ (if key_eq key j then view m j ++ (item ∷ []) else view m j)
      unfolding view
      put_more v e j = elim (view-put_bucket m key v j) [
        | inl (same, f) ↦
            let old = ap (λ i. pick j (loop_fwd (m.bucket_arr i))) same in
            let grown = f ∙ ap (pick j) e ∙ pick-append j (loop_fwd (bucket m key)) (node ∷ []) in
            elim (Bool-cases (key_eq key j)) [
              | inl t ↦
                  rw (t, old)
                    (grown
                      ∙ ap (λ l. pick j (loop_fwd (bucket m key)) ++ l)
                          (pick-singleton j node ∙ rw t))
              | inr t ↦
                  rw (t, old)
                    (grown
                      ∙ ap (λ l. pick j (loop_fwd (bucket m key)) ++ l)
                          (pick-singleton j node ∙ rw t)
                      ∙ append-nil _)
            ]
        | inr (other, f) ↦ elim (key_cases key j) [
          | inl (p, t) ↦ absurd (other (ap (bucket_of m) (sym p)))
          | inr (n, t, u) ↦ rw t f
        ]
      ]

      abbrev home : ℕ
      home = bucket_of m key

      in_range : home < m.num_buckets
      in_range = bucket_of-lt m key valid.positive

      put_same-IsValid : (v : PtrVec (MapNode I)) → v ≡ bucket m key → IsValid (put_bucket m key v)
      put_same-IsValid v e =
          put_bucket-IsValid m key v valid (rw e (valid.buckets home in_range))
            (rw e (valid.placed home in_range)) (rw e (valid.distinct home in_range))

      put_more-IsValid :
          (v : PtrVec (MapNode I))
          → Ring.IsValid v
          → loop_fwd v ≡ loop_fwd (bucket m key) ++ (node ∷ [])
          → IsValid (put_bucket m key v)
      put_more-IsValid v ok e =
          put_bucket-IsValid m key v valid ok
            (rw e (
              All-append _ (loop_fwd (bucket m key)) (node ∷ []) (valid.placed home in_range)
                (refl, tt)))
            (rw e (
              Distinct-snoc (loop_fwd (bucket m key)) node (valid.distinct home in_range)
                (fresh home in_range)))

      -- In a valid table, with a node at a fresh address and fewer than 2^30 items in its bucket,
      -- MAP_addKey returns 0 and puts the item behind those of its key, or it returns 1, some
      -- allocation was refused, and the items are as they were. The items of other keys stay and
      -- the table is valid in both cases.
      pub add_key-Added :
          (bucket m key).num_items < max_count
          → let (r, w) = add_key mem addr m key item in Added r w
      unfolding add_key
      add_key-Added few = elim (Bool-cases (mem.grants (16 + length key))) [
        | inr e ↦ rw e (valid, inr (refl, (λ j. refl), (16 + length key, e)))
        | inl e ↦ elim (add_tail-refines mem (valid.buckets home in_range) few node) [
          | inl (r, same, full, refused) ↦
              rw (e, r) (put_same-IsValid _ same, inr (refl, put_same _ same, (_, refused)))
          | inr (r, ok, items) ↦
              rw (e, r) (put_more-IsValid _ ok items, inl (refl, put_more _ items))
        ]
      ]
