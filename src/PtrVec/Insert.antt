-- ===== src/PtrVec/Insert.antt =====
-- Insertion at the two ends of the ring, when a slot is free.
use ban2fail.Prelude.{
  ℕ, suc, ◌+◌, ◌-◌, ◌%◌, ◌<◌, ◌≡◌, ◌∙◌, ap, [], ◌∷◌, ◌++◌, listing-snoc, listing-cons, arith, add32,
  sub32, store, store_eq, store_ne, ◌⊎◌,
}
use ban2fail.Prelude.Order.{mod_ring}
use ban2fail.PtrVec.Ring.{IsValid, slot_place, tail_place}
use ban2fail.PtrVec.{PtrVec, loop_fwd, slot, put_head, put_tail}

module _ {ℓ} {A : Type ℓ} {v : PtrVec A} (valid : IsValid v) (free : v.num_items < v.max_items)
    (x : A) where
  -- The slot that `put_tail` writes is the one behind the last item.
  next_tail : (put_tail v x).tail ≡ (v.head + v.num_items) % v.max_items
  unfolding put_tail
  next_tail = ground (
    arith,
    tail_place valid,
    mod_ring (v.head + v.num_items) v.max_items,
    mod_ring (v.tail + 1) v.max_items,
  )

  pub num_items-put_tail : (put_tail v x).num_items ≡ suc v.num_items
  unfolding put_tail
  num_items-put_tail = omega arith

  pub put_tail-IsValid : IsValid (put_tail v x)
  unfolding put_tail
  put_tail-IsValid = record {
    roomy = valid.roomy;
    small = valid.small;
    fits = rw num_items-put_tail free;
    head_in = valid.head_in;
    last = next_tail ∙ ap (λ (n : ℕ). (v.head + n) % v.max_items) (omega arith);
  }

  pub loop_fwd-put_tail : loop_fwd (put_tail v x) ≡ loop_fwd v ++ (x ∷ [])
  unfolding loop_fwd put_tail
  loop_fwd-put_tail =
      let t = (put_tail v x).tail in
      listing-snoc (λ i. v.ptr_arr (slot v i)) (λ i. store v.ptr_arr t x (slot v i)) v.num_items x _
        num_items-put_tail
        (λ i h. store_ne v.ptr_arr t (slot v i) x (
          omega
            (arith, next_tail, slot_place valid i, mod_ring (v.head + v.num_items) v.max_items)))
        (store_eq v.ptr_arr t (slot v v.num_items) x (
          omega (
            arith,
            next_tail,
            slot_place valid v.num_items,
            mod_ring (v.head + v.num_items) v.max_items,
          )))

  -- The slot that `put_head` writes is the one before the first item.
  next_head :
      let h = (put_head v x).head in
      ((v.num_items ≡ 0) × (h ≡ v.head))
      ⊎ ((0 < v.num_items) × (0 < v.head) × (h + 1 ≡ v.head))
      ⊎ ((0 < v.num_items) × (v.head ≡ 0) × (h + 1 ≡ v.max_items))
  unfolding put_head
  next_head =
      let e : sub32 (add32 v.head v.max_items) 1 ≡ v.head + v.max_items - 1 = omega arith in
      rw e (ground (arith, mod_ring (v.head + v.max_items - 1) v.max_items))

  num_items-put_head : (put_head v x).num_items ≡ suc v.num_items
  unfolding put_head
  num_items-put_head = omega arith

  pub put_head-IsValid : IsValid (put_head v x)
  unfolding put_head
  put_head-IsValid =
      let h = (put_head v x).head in
      record {
        roomy = valid.roomy;
        small = valid.small;
        fits = rw num_items-put_head free;
        head_in = omega (arith, next_head);
        last =
            let e : v.tail ≡ (h + v.num_items) % v.max_items =
              omega (arith, next_head, tail_place valid, mod_ring (h + v.num_items) v.max_items) in
            e ∙ ap (λ (n : ℕ). (h + n) % v.max_items) (omega arith);
      }

  pub loop_fwd-put_head : loop_fwd (put_head v x) ≡ x ∷ loop_fwd v
  unfolding loop_fwd put_head
  loop_fwd-put_head =
      let w = put_head v x in
      listing-cons (λ i. v.ptr_arr (slot v i)) (λ i. store v.ptr_arr w.head x (slot w i))
        v.num_items x _ num_items-put_head
        (store_eq v.ptr_arr w.head (slot w 0) x
          (omega (arith, slot_place put_head-IsValid 0, next_head)))
        (λ i h.
          store_ne v.ptr_arr w.head (slot w (suc i)) x
            (omega (arith, next_head, slot_place put_head-IsValid (suc i)))
          ∙ ap v.ptr_arr
              (omega (arith, next_head, slot_place valid i, slot_place put_head-IsValid (suc i))))
