-- ===== src/PtrVec/Omit.antt =====
-- The five cases in which PTRVEC_remove closes the gap that the removed item leaves.
use ban2fail.Prelude.{
  ℕ, suc, ◌+◌, ◌-◌, ◌%◌, ◌≤◌, ◌<◌, ◌≡◌, ◌≢◌, ◌∙◌, ap, refl, arith, inl, inr, Bool-cases, ◌==◌, ltb,
  add32, sub32, memmove, memmove_in, memmove_out,
}
use ban2fail.Prelude.Order.{mod_ring}
use ban2fail.PtrVec.Ring.{IsValid, slot_place, tail_place}
use ban2fail.PtrVec.{PtrVec, slot, remove_at}

-- The item at a place.
abbrev pub at {ℓ} : {A : Type ℓ} → PtrVec A → ℕ → A
at v i = v.ptr_arr (slot v i)

-- `w` holds the items of `v` but the one at place `k`, in order.
pub record Omits {ℓ} {A : Type ℓ} (v : PtrVec A) (k : ℕ) (w : PtrVec A) : Type ℓ where
  pub valid : IsValid w
  pub fewer : suc w.num_items ≡ v.num_items
  pub before : (j : ℕ) → j < k → at w j ≡ at v j
  pub after : (j : ℕ) → k ≤ j → j < w.num_items → at w j ≡ at v (suc j)

module _ {ℓ} {A : Type ℓ} {v : PtrVec A} (valid : IsValid v) (k : ℕ)
    (inside : k < v.num_items) where
  abbrev only : PtrVec A
  only = record v { num_items = v.num_items - 1; head = 0; tail = 0 }

  only-Omits : v.num_items ≡ 1 → Omits v k only
  only-Omits one = record {
    valid = record {
      roomy = valid.roomy;
      small = valid.small;
      fits = omega arith;
      head_in = omega (arith, valid.roomy);
      last = omega (arith, valid.roomy, mod_ring (0 + (v.num_items - 1 - 1)) v.max_items);
    };
    fewer = omega arith;
    before = λ j h. absurd (omega arith);
    after = λ j h l. absurd (omega arith);
  }

  abbrev without_head : PtrVec A
  without_head = record v { num_items = v.num_items - 1; head = add32 v.head 1 % v.max_items }

  without_head-Omits : v.num_items ≢ 1 → k ≡ 0 → Omits v k without_head
  without_head-Omits more e =
      let r = mod_ring (v.head + 1) v.max_items in
      let plain : add32 v.head 1 ≡ v.head + 1 = omega (arith, valid.small, valid.head_in) in
      let ok : IsValid without_head = record {
        roomy = valid.roomy;
        small = valid.small;
        fits = omega (arith, valid.fits);
        head_in = rw plain (omega (arith, r, valid.head_in));
        last = rw plain (
            omega (
              arith,
              r,
              valid.head_in,
              valid.fits,
              tail_place valid,
              mod_ring ((v.head + 1) % v.max_items + (v.num_items - 1 - 1)) v.max_items,
            ));
      } in
      record {
        valid = ok;
        fewer = omega arith;
        before = λ j h. absurd (omega arith);
        after = λ j h l. ap v.ptr_arr (
            omega (
              arith,
              r,
              ap (λ n. n % v.max_items) plain,
              slot_place valid (suc j),
              slot_place ok j,
              valid.head_in,
              valid.fits,
            ));
      }

  abbrev without_tail : PtrVec A
  without_tail = record v {
    num_items = v.num_items - 1;
    tail = sub32 (add32 v.tail v.max_items) 1 % v.max_items;
  }

  without_tail-Omits : v.num_items ≢ 1 → suc k ≡ v.num_items → Omits v k without_tail
  without_tail-Omits more e =
      let plain : sub32 (add32 v.tail v.max_items) 1 ≡ v.tail + v.max_items - 1 =
        omega (arith, tail_place valid, valid.small, valid.head_in, valid.fits, valid.roomy) in
      record {
        valid = record {
          roomy = valid.roomy;
          small = valid.small;
          fits = omega (arith, valid.fits);
          head_in = valid.head_in;
          last = rw plain (
              omega (
                arith,
                valid.head_in,
                valid.fits,
                tail_place valid,
                mod_ring (v.tail + v.max_items - 1) v.max_items,
                mod_ring (v.head + (v.num_items - 1 - 1)) v.max_items,
              ));
        };
        fewer = omega arith;
        before = λ j h. refl;
        after = λ j h l. absurd (omega arith);
      }

  -- The gap lies before the last item, with no end of the array between.
  abbrev pulled : ℕ → PtrVec A
  pulled ndx = record v {
    num_items = v.num_items - 1;
    ptr_arr = memmove v.ptr_arr ndx (ndx + 1) (v.tail - ndx);
    tail = v.tail - 1;
  }

  pulled-Omits : (ndx : ℕ) → ndx ≡ slot v k → ndx < v.tail → Omits v k (pulled ndx)
  pulled-Omits ndx e lt =
      let s = slot_place valid k (omega (arith, valid.fits)) in
      let t = tail_place valid in
      let ok : IsValid (pulled ndx) = record {
        roomy = valid.roomy;
        small = valid.small;
        fits = omega (arith, valid.fits);
        head_in = valid.head_in;
        last = omega (
          arith,
          s,
          t,
          valid.head_in,
          valid.fits,
          mod_ring (v.head + (v.num_items - 1 - 1)) v.max_items,
        );
      } in
      record {
        valid = ok;
        fewer = omega arith;
        before = λ j h.
            memmove_out v.ptr_arr ndx (ndx + 1) (v.tail - ndx) (slot v j)
              (omega (arith, s, t, slot_place valid j, valid.head_in, valid.fits));
        after = λ j h l.
            memmove_in v.ptr_arr ndx (ndx + 1) (v.tail - ndx) (slot v j) (slot v (suc j))
              (omega (arith, s, t, slot_place valid j, valid.head_in, valid.fits))
              (omega (arith, s, t, slot_place valid j, valid.head_in, valid.fits))
              (omega (
                arith,
                s,
                t,
                slot_place valid j,
                slot_place valid (suc j),
                valid.head_in,
                valid.fits,
              ));
      }

  -- The gap lies behind the first item, with no end of the array between.
  abbrev pushed : ℕ → PtrVec A
  pushed ndx = record v {
    num_items = v.num_items - 1;
    ptr_arr = memmove v.ptr_arr (v.head + 1) v.head (ndx - v.head);
    head = add32 v.head 1;
  }

  pushed-Omits : (ndx : ℕ) → ndx ≡ slot v k → v.tail < ndx → ndx ≢ v.head → Omits v k (pushed ndx)
  pushed-Omits ndx e gt ne =
      let s = slot_place valid k (omega (arith, valid.fits)) in
      let t = tail_place valid in
      let plain : add32 v.head 1 ≡ v.head + 1 = omega (arith, valid.head_in, valid.small) in
      let ok : IsValid (pushed ndx) = record {
        roomy = valid.roomy;
        small = valid.small;
        fits = omega (arith, valid.fits);
        head_in = omega (arith, s, t, plain, valid.head_in, valid.fits);
        last = rw plain (
            omega (
              arith,
              s,
              t,
              valid.head_in,
              valid.fits,
              mod_ring (v.head + 1 + (v.num_items - 1 - 1)) v.max_items,
            ));
      } in
      record {
        valid = ok;
        fewer = omega arith;
        before = λ j h.
            memmove_in v.ptr_arr (v.head + 1) v.head (ndx - v.head) (slot (pushed ndx) j) (slot v j)
              (omega (arith, s, t, plain, slot_place ok j, valid.head_in, valid.fits))
              (omega (arith, s, t, plain, slot_place ok j, valid.head_in, valid.fits))
              (omega (
                arith,
                s,
                t,
                plain,
                slot_place ok j,
                slot_place valid j,
                valid.head_in,
                valid.fits,
              ));
        after = λ j h l.
            memmove_out v.ptr_arr (v.head + 1) v.head (ndx - v.head) (slot (pushed ndx) j)
              (omega (arith, s, t, plain, slot_place ok j, valid.head_in, valid.fits))
            ∙ ap v.ptr_arr (
                omega (
                  arith,
                  s,
                  t,
                  plain,
                  slot_place ok j,
                  slot_place valid (suc j),
                  valid.head_in,
                  valid.fits,
                ));
      }

  pub remove_at-Omits : Omits v k (remove_at v (slot v k))
  unfolding remove_at
  remove_at-Omits =
      let ndx = slot v k in
      let s = slot_place valid k (omega (arith, valid.fits)) in
      let t = tail_place valid in
      elim (Bool-cases (v.num_items == 1)) [
        | inl one ↦ rw one (only-Omits (ground arith))
        | inr more ↦
            let ne : v.num_items ≢ 1 = ground arith in
            elim (Bool-cases (ndx == v.head)) [
              | inl e ↦
                  let h : ndx ≡ v.head = ground arith in
                  rw (more, e)
                    (without_head-Omits ne (omega (arith, s, h, valid.head_in, valid.fits)))
              | inr e ↦
                  let h : ndx ≢ v.head = ground arith in
                  elim (Bool-cases (ndx == v.tail)) [
                    | inl f ↦
                        let l : ndx ≡ v.tail = ground arith in
                        rw (more, e, f)
                          (without_tail-Omits ne
                            (omega (arith, s, t, l, valid.head_in, valid.fits)))
                    | inr f ↦
                        let l : ndx ≢ v.tail = ground arith in
                        elim (Bool-cases (ltb ndx v.tail)) [
                          | inl g ↦ rw (more, e, f, g) (pulled-Omits ndx refl (ground arith))
                          | inr g ↦ rw (more, e, f, g) (pushed-Omits ndx refl (ground arith) h)
                        ]
                  ]
            ]
      ]
