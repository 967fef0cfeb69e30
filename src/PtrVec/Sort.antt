-- ===== src/PtrVec/Sort.antt =====
-- PTRVEC_sort over a `qsort` that returns as many items as it is given.
use ban2fail.Prelude.{
  ℕ, ◌+◌, ◌-◌, ◌*◌, ◌%◌, ◌^◌, ◌≤◌, ◌<◌, ◌≡◌, ◌⊎◌, ◌∙◌, ap, sym, refl, arith, inl, inr, false,
  Bool-cases, ◌==◌, ltb, List, [], ◌∷◌, ◌++◌, append-nil, append_assoc, some, Memory, length, u32,
}
use ban2fail.Prelude.Order.{mod_ring}
use ban2fail.PtrVec.Ends.{length-loop_fwd}
use ban2fail.PtrVec.Insert.{put_tail-IsValid, loop_fwd-put_tail, num_items-put_tail}
use ban2fail.PtrVec.Ring.{IsValid}
use ban2fail.PtrVec.Take.{loop_fwd-empty}
use ban2fail.PtrVec.{PtrVec, reset, loop_fwd, make_room, put_tail, add_tail, add_all, sort}

module _ {ℓ} {A : Type ℓ} (mem : Memory A) where
  max_items-put_tail : (v : PtrVec A) (x : A) → (put_tail v x).max_items ≡ v.max_items
  unfolding put_tail
  max_items-put_tail v x = refl

  -- With a free slot there is no growth.
  add_tail-free :
      (v : PtrVec A) (x : A) → v.num_items < v.max_items → add_tail mem v x ≡ (some x, put_tail v x)
  unfolding add_tail make_room
  add_tail-free v x h = let e : (v.num_items == v.max_items) ≡ false = ground arith in rw e

  -- `w` is `v` with `xs` behind its items, in the same array.
  record Extends (v : PtrVec A) (xs : List A) (w : PtrVec A) : Type ℓ where
    valid : IsValid w
    items : loop_fwd w ≡ loop_fwd v ++ xs

  add_all-Extends :
      (xs : List A) (v : PtrVec A)
      → IsValid v
      → v.num_items + length xs ≤ v.max_items
      → Extends v xs (add_all mem v xs)
  unfolding add_all
  add_all-Extends [] v valid h = record { valid = valid; items = sym (append-nil (loop_fwd v)) }
  add_all-Extends (x ∷ xs) v valid h =
      let free : v.num_items < v.max_items = omega arith in
      let w = put_tail v x in
      let ok = put_tail-IsValid valid free x in
      let rest =
        add_all-Extends xs w ok
          (omega (arith, num_items-put_tail valid free x, max_items-put_tail v x)) in
      rw (add_tail-free v x free) (record {
        valid = rest.valid;
        items =
            rest.items
            ∙ ap (λ l. l ++ xs) (loop_fwd-put_tail valid free x)
            ∙ append_assoc (loop_fwd v) (x ∷ []) xs;
      })

  reset-IsValid : {v : PtrVec A} → IsValid v → IsValid (reset v)
  unfolding reset
  reset-IsValid {v} ok = record {
    roomy = ok.roomy;
    small = ok.small;
    fits = omega arith;
    head_in = omega (arith, ok.roomy);
    last = omega (arith, ok.roomy, mod_ring (0 + (0 - 1)) v.max_items);
  }

  sizes-reset : (w : PtrVec A) → ((reset w).num_items ≡ 0) × ((reset w).max_items ≡ w.max_items)
  unfolding reset
  sizes-reset w = (refl, refl)

  loop_fwd-reset : (w : PtrVec A) → loop_fwd (reset w) ≡ []
  unfolding reset loop_fwd
  loop_fwd-reset w = refl

  abbrev buffered : PtrVec A → ℕ → PtrVec A
  buffered v n = record v { sort_buf_sz = n }

  loop_fwd-buffered : (v : PtrVec A) (n : ℕ) → loop_fwd (buffered v n) ≡ loop_fwd v
  unfolding loop_fwd
  loop_fwd-buffered v n = refl

  buffered-IsValid : {v : PtrVec A} (n : ℕ) → IsValid v → IsValid (buffered v n)
  buffered-IsValid n ok = record {
    roomy = ok.roomy;
    small = ok.small;
    fits = ok.fits;
    head_in = ok.head_in;
    last = ok.last;
  }

  module _ (qsort : List A → List A) (keeps : (l : List A) → length (qsort l) ≡ length l) where
    -- What a sort leaves: the sorted items and a buffer that holds them all, or, with 1, the items
    -- as they were.
    abbrev pub Sorted : PtrVec A → ℕ → PtrVec A → Type ℓ
    Sorted v r w =
        IsValid w
        × (((r ≡ 0) × (loop_fwd w ≡ qsort (loop_fwd v)))
            ⊎ ((r ≡ 1) × (loop_fwd w ≡ loop_fwd v) × (mem.grants (v.num_items * 8) ≡ false)))

    -- The loop that puts the sorted items back, in a vector with the array of `v`.
    refill :
        (v w : PtrVec A)
        → IsValid v
        → IsValid w
        → v.max_items ≡ w.max_items
        → IsValid (add_all mem (reset w) (qsort (loop_fwd v)))
          × (loop_fwd (add_all mem (reset w) (qsort (loop_fwd v))) ≡ qsort (loop_fwd v))
    refill v w valid ok e =
        let t =
          add_all-Extends (qsort (loop_fwd v)) (reset w) (reset-IsValid ok)
            (omega (arith, keeps (loop_fwd v), length-loop_fwd v, valid.fits, sizes-reset w)) in
        (t.valid, t.items ∙ ap (λ l. l ++ qsort (loop_fwd v)) (loop_fwd-reset w))

    empty-qsort : qsort [] ≡ []
    empty-qsort = go (qsort []) (keeps [])
      where
        go : (l : List A) → length l ≡ 0 → l ≡ []
        go [] h = refl
        go (x ∷ l) h = absurd (omega arith)

    -- PTRVEC_sort of a valid vector with fewer than 2^29 items, over a qsort that returns as many
    -- items as it is given, leaves the items as qsort orders them, in a valid vector; it returns
    -- 1, with the items as they were, only if the buffer is refused.
    pub sort-Sorted :
        (v : PtrVec A)
        → IsValid v
        → v.num_items < 2 ^ 29
        → let (r, w) = sort qsort mem v in Sorted v r w
    unfolding sort
    sort-Sorted v valid few =
        let sz = v.num_items * 8 % u32 in
        let plain : sz ≡ v.num_items * 8 = omega arith in
        elim (Bool-cases (v.num_items == 0)) [
          | inl e ↦
              let z = loop_fwd-empty valid (ground arith) in
              rw e (valid, inl (refl, z ∙ sym (ap qsort z ∙ empty-qsort)))
          | inr e ↦ elim (Bool-cases (ltb v.sort_buf_sz sz)) [
            | inr f ↦ let (a, b) = refill v v valid valid refl in rw (e, f) (a, inl (refl, b))
            | inl f ↦ elim (Bool-cases (mem.grants sz)) [
              | inr g ↦
                  rw (e, f, g)
                    (
                      buffered-IsValid 0 valid,
                      inr (refl, loop_fwd-buffered v 0, ap mem.grants (sym plain) ∙ g),
                    )
              | inl g ↦
                  let (a, b) = refill v (buffered v sz) valid (buffered-IsValid sz valid) refl in
                  rw (e, f, g) (a, inl (refl, b))
            ]
          ]
        ]
