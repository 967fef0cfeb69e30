-- ===== src/PtrVec/Take.antt =====
-- Removal at the two ends of the ring.
use ban2fail.Prelude.{
  suc, ◌+◌, ◌-◌, ◌%◌, ◌<◌, ◌≡◌, ◌⊎◌, ap, refl, [], ◌∷◌, ◌++◌, some, none, listing-snoc,
  listing-cons, arith, ◌==◌, add32, sub32, if◌then◌else◌, true, false,
}
use ban2fail.Prelude.Order.{mod_ring}
use ban2fail.PtrVec.Ring.{IsValid, slot_place, tail_place}
use ban2fail.PtrVec.{PtrVec, loop_fwd, slot, rem_head, rem_tail}

module _ {ℓ} {A : Type ℓ} {v : PtrVec A} (valid : IsValid v) where
  pub rem_head-empty : v.num_items ≡ 0 → rem_head v ≡ (none, v)
  unfolding rem_head
  rem_head-empty h = let t : (v.num_items == 0) ≡ true = ground arith in rw t

  pub rem_tail-empty : v.num_items ≡ 0 → rem_tail v ≡ (none, v)
  unfolding rem_tail
  rem_tail-empty h = let t : (v.num_items == 0) ≡ true = ground arith in rw t

  pub loop_fwd-empty : v.num_items ≡ 0 → loop_fwd v ≡ []
  unfolding loop_fwd
  loop_fwd-empty h = rw h

  module _ (some_item : 0 < v.num_items) where
    not_empty : (v.num_items == 0) ≡ false
    not_empty = ground arith

    abbrev pub beheaded : PtrVec A
    beheaded = record v {
      num_items = v.num_items - 1;
      head = if v.num_items - 1 == 0 then v.head else add32 v.head 1 % v.max_items;
    }

    abbrev pub curtailed : PtrVec A
    curtailed = record v {
      num_items = v.num_items - 1;
      tail =
          if v.num_items - 1 == 0 then v.tail else sub32 (add32 v.tail v.max_items) 1 % v.max_items;
    }

    pub rem_head_eq : rem_head v ≡ (some (v.ptr_arr v.head), beheaded)
    unfolding rem_head
    rem_head_eq = rw not_empty

    pub rem_tail_eq : rem_tail v ≡ (some (v.ptr_arr v.tail), curtailed)
    unfolding rem_tail
    rem_tail_eq = rw not_empty

    head_next :
        ((v.num_items ≡ 1) × (beheaded.head ≡ v.head))
        ⊎ ((1 < v.num_items) × (v.head + 1 < v.max_items) × (beheaded.head ≡ v.head + 1))
        ⊎ ((1 < v.num_items) × (v.head + 1 ≡ v.max_items) × (beheaded.head ≡ 0))
    head_next = ground (arith, mod_ring (v.head + 1) v.max_items)

    tail_next :
        ((v.num_items ≡ 1) × (curtailed.tail ≡ v.tail))
        ⊎ ((1 < v.num_items) × (0 < v.tail) × (curtailed.tail + 1 ≡ v.tail))
        ⊎ ((1 < v.num_items) × (v.tail ≡ 0) × (curtailed.tail + 1 ≡ v.max_items))
    tail_next =
        let e : sub32 (add32 v.tail v.max_items) 1 ≡ v.tail + v.max_items - 1 =
          omega (arith, tail_place valid) in
        rw e (ground (arith, tail_place valid, mod_ring (v.tail + v.max_items - 1) v.max_items))

    pub beheaded-IsValid : IsValid beheaded
    beheaded-IsValid = record {
      roomy = valid.roomy;
      small = valid.small;
      fits = omega arith;
      head_in = omega (arith, head_next);
      last = omega (
        arith,
        head_next,
        tail_place valid,
        mod_ring (beheaded.head + (v.num_items - 1 - 1)) v.max_items,
      );
    }

    pub curtailed-IsValid : IsValid curtailed
    curtailed-IsValid = record {
      roomy = valid.roomy;
      small = valid.small;
      fits = omega arith;
      head_in = valid.head_in;
      last = omega (
        arith,
        tail_next,
        tail_place valid,
        mod_ring (v.head + (v.num_items - 1 - 1)) v.max_items,
      );
    }

    pub loop_fwd-beheaded : loop_fwd v ≡ v.ptr_arr v.head ∷ loop_fwd beheaded
    unfolding loop_fwd
    loop_fwd-beheaded =
        listing-cons (λ i. v.ptr_arr (slot beheaded i)) (λ i. v.ptr_arr (slot v i))
          (v.num_items - 1) (v.ptr_arr v.head) v.num_items (omega arith)
          (ap v.ptr_arr (omega (arith, slot_place valid 0)))
          (λ i h.
            ap v.ptr_arr
              (omega (arith, head_next, slot_place valid (suc i), slot_place beheaded-IsValid i)))

    pub loop_fwd-curtailed : loop_fwd v ≡ loop_fwd curtailed ++ (v.ptr_arr v.tail ∷ [])
    unfolding loop_fwd
    loop_fwd-curtailed =
        listing-snoc (λ i. v.ptr_arr (slot curtailed i)) (λ i. v.ptr_arr (slot v i))
          (v.num_items - 1) (v.ptr_arr v.tail) v.num_items (omega arith) (λ i h. refl)
          (ap v.ptr_arr (omega (arith, tail_place valid, slot_place valid (v.num_items - 1))))
