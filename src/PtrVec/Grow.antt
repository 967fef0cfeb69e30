-- ===== src/PtrVec/Grow.antt =====
-- Growth of the ring: `PTRVEC_resize` to no fewer slots, and the three attempts of `grow`.
use ban2fail.Prelude.{
  ℕ, ◌+◌, ◌-◌, ◌*◌, ◌/◌, ◌%◌, ◌^◌, ◌≤◌, ◌<◌, ◌≡◌, ◌⊎◌, ◌∙◌, ap, refl, arith, Bool-cases, inl, inr,
  true, false, ◌==◌, ltb, add32, sub32, min, u32, memmove, memmove_in, memmove_out, listing-eq,
  Memory, dec_lt,
}
use ban2fail.Prelude.Order.{mod_ring}
use ban2fail.PtrVec.Ring.{IsValid, max_slots, slot_place, tail_place}
use ban2fail.PtrVec.{
  PtrVec, loop_fwd, slot, realloc, rehouse, resize, grow, grow_half, grow_quarter, retry,
}

module _ {ℓ} {A : Type ℓ} (mem : Memory A) {v : PtrVec A} (valid : IsValid v) where
  module _ (n : ℕ) (more : v.max_items ≤ n) (small : n ≤ max_slots) where
    realloc-keeps : (j : ℕ) → j < v.max_items → realloc mem v n j ≡ v.ptr_arr j
    unfolding realloc
    realloc-keeps j h = let t : ltb j (min v.max_items n) ≡ true = ground arith in rw t

    -- The ring goes round the end of the array.
    module _ (wrapped : v.tail < v.head) where
      turned : ltb v.tail v.head ≡ true
      turned = ground arith

      abbrev back : ℕ
      back = sub32 v.max_items v.head

      back_eq : back + v.head ≡ v.max_items
      back_eq = omega (arith, valid.head_in, valid.small)

      abbrev moved : PtrVec A
      moved = record v {
        ptr_arr = memmove (realloc mem v n) (n - back) (v.max_items - back) back;
        head = sub32 n back;
        max_items = n;
      }

      rehouse-turned : rehouse mem v n ≡ moved
      unfolding rehouse
      rehouse-turned = rw turned

      head-moved : moved.head + v.max_items ≡ n + v.head
      head-moved = omega (arith, back_eq, valid.small)

      moved-IsValid : IsValid moved
      moved-IsValid = record {
        roomy = omega (arith, valid.roomy);
        small = small;
        fits = omega (arith, valid.fits);
        head_in = omega (arith, head-moved, valid.head_in);
        last = omega (
          arith,
          head-moved,
          tail_place valid,
          mod_ring (moved.head + (v.num_items - 1)) n,
          valid.fits,
          valid.head_in,
        );
      }

      loop_fwd-moved : loop_fwd moved ≡ loop_fwd v
      unfolding loop_fwd
      loop_fwd-moved =
          listing-eq (λ i. v.ptr_arr (slot v i)) (λ i. moved.ptr_arr (slot moved i)) v.num_items
            v.num_items refl
            (λ i h. elim (slot_place valid i (omega (arith, valid.fits))) [
              | inl (l, e) ↦
                  memmove_in (realloc mem v n) (n - back) (v.max_items - back) back (slot moved i)
                    (slot v i)
                    (omega (arith, head-moved, slot_place moved-IsValid i, valid.fits, back_eq))
                    (omega (arith, head-moved, slot_place moved-IsValid i, valid.fits, back_eq))
                    (omega (arith, head-moved, slot_place moved-IsValid i, valid.fits, back_eq))
                  ∙ realloc-keeps (slot v i) (omega arith)
              | inr (l, e) ↦
                  memmove_out (realloc mem v n) (n - back) (v.max_items - back) back (slot moved i)
                    (inl (
                      omega (
                        arith,
                        head-moved,
                        slot_place moved-IsValid i,
                        valid.fits,
                        back_eq,
                        tail_place valid,
                      )))
                  ∙ ap (realloc mem v n)
                      (omega (arith, head-moved, slot_place moved-IsValid i, valid.fits))
                  ∙ realloc-keeps (slot v i) (omega (arith, valid.fits, valid.head_in))
            ])

    -- The ring stands in one piece.
    module _ (straight : v.head ≤ v.tail) where
      unturned : ltb v.tail v.head ≡ false
      unturned = ground arith

      abbrev kept : PtrVec A
      kept = record v { ptr_arr = realloc mem v n; max_items = n }

      rehouse-unturned : rehouse mem v n ≡ kept
      unfolding rehouse
      rehouse-unturned = rw unturned

      kept-IsValid : IsValid kept
      kept-IsValid = record {
        roomy = omega (arith, valid.roomy);
        small = small;
        fits = omega (arith, valid.fits);
        head_in = omega (arith, valid.head_in);
        last = omega (
          arith,
          tail_place valid,
          mod_ring (v.head + (v.num_items - 1)) n,
          valid.fits,
          valid.head_in,
        );
      }

      loop_fwd-kept : loop_fwd kept ≡ loop_fwd v
      unfolding loop_fwd
      loop_fwd-kept =
          listing-eq (λ i. v.ptr_arr (slot v i)) (λ i. kept.ptr_arr (slot kept i)) v.num_items
            v.num_items refl
            (λ i h.
              ap (realloc mem v n) (
                omega (
                  arith,
                  tail_place valid,
                  slot_place valid i,
                  slot_place kept-IsValid i,
                  valid.fits,
                  valid.head_in,
                ))
              ∙ realloc-keeps (slot v i)
                  (omega (arith, slot_place valid i, valid.fits, valid.head_in)))

    rehouse-keeps :
        IsValid (rehouse mem v n)
        × (loop_fwd (rehouse mem v n) ≡ loop_fwd v)
        × ((rehouse mem v n).num_items ≡ v.num_items)
        × ((rehouse mem v n).max_items ≡ n)
    rehouse-keeps = elim (dec_lt v.tail v.head) [
      | yes p ↦ rw (rehouse-turned p) (moved-IsValid p, loop_fwd-moved p, refl, refl)
      | no p ↦
          let s : v.head ≤ v.tail = omega arith in
          rw (rehouse-unturned s) (kept-IsValid s, loop_fwd-kept s, refl, refl)
    ]

-- `w` is `v` with the same items and more slots.
pub record Regrown {ℓ} {A : Type ℓ} (v w : PtrVec A) : Type ℓ where
  pub valid : IsValid w
  pub items : loop_fwd w ≡ loop_fwd v
  pub num_items : w.num_items ≡ v.num_items
  pub more : v.max_items < w.max_items

-- A call that failed and changed nothing, or succeeded with more slots.
abbrev pub Attempt {ℓ} : {A : Type ℓ} → PtrVec A → Type 0 → ℕ × PtrVec A → Type ℓ
Attempt v Refused (r, w) = ((r ≡ 1) × (w ≡ v) × Refused) ⊎ ((r ≡ 0) × Regrown v w)

module _ {ℓ} {A : Type ℓ} (mem : Memory A) {v : PtrVec A} (valid : IsValid v) where
  resize-Attempt :
      (n : ℕ)
      → v.max_items < n
      → n ≤ max_slots
      → Attempt v (mem.grants (n * 8) ≡ false) (resize mem v n)
  unfolding resize
  resize-Attempt n more small =
      let t : (n == 0) ≡ false = ground arith in
      let s : ltb n v.num_items ≡ false = ground (arith, valid.fits) in
      elim (Bool-cases (mem.grants (n * 8))) [
        | inr e ↦ rw (t, s, e) (inl (refl, refl, refl))
        | inl e ↦
            let (ok, same, num, max) = rehouse-keeps mem valid n (omega arith) small in
            rw (t, s, e)
              (inr (refl, record { valid = ok; items = same; num_items = num; more = omega arith }))
      ]

  retry-Attempt :
      {P Q : Type 0} (a : ℕ × PtrVec A) (next : PtrVec A → ℕ × PtrVec A)
      → Attempt v P a
      → Attempt v Q (next v)
      → Attempt v P (retry a next)
  unfolding retry
  retry-Attempt (r, w) next first second = elim first [
    | inr (e, found) ↦ rw e (inr (refl, found))
    | inl (e, same, refused) ↦
        rw (e, same)
          (elim second [ inl (e', same', q) ↦ inl (e', same', refused) | inr found ↦ inr found ])
  ]

  grow_quarter-Attempt : v.max_items ≤ 2 ^ 30 → Attempt v (Unit {0}) (grow_quarter mem v)
  unfolding grow_quarter
  grow_quarter-Attempt small =
      let n = v.max_items + v.max_items / 4 in
      let plain : add32 v.max_items (v.max_items / 4) ≡ n = omega arith in
      retry-Attempt {P = Unit {0}} {Q = Unit {0}}
        (resize mem v (add32 v.max_items (v.max_items / 4))) (λ w. (1, w))
        (rw plain (elim (resize-Attempt n (omega (arith, valid.roomy)) (omega arith)) [
          | inl (e, same, refused) ↦ inl (e, same, tt)
          | inr found ↦ inr found
        ]))
        (inl (refl, refl, tt))

  grow_half-Attempt : v.max_items ≤ 2 ^ 30 → Attempt v (Unit {0}) (grow_half mem v)
  unfolding grow_half
  grow_half-Attempt small =
      let n = v.max_items + v.max_items / 2 in
      let plain : add32 v.max_items (v.max_items / 2) ≡ n = omega arith in
      retry-Attempt {P = Unit {0}} {Q = Unit {0}}
        (resize mem v (add32 v.max_items (v.max_items / 2))) (grow_quarter mem)
        (rw plain (elim (resize-Attempt n (omega (arith, valid.roomy)) (omega arith)) [
          | inl (e, same, refused) ↦ inl (e, same, tt)
          | inr found ↦ inr found
        ]))
        (grow_quarter-Attempt small)

  -- With up to 2 ^ 30 slots growth succeeds, unless not even the doubled array can be had.
  pub grow-Attempt :
      v.max_items ≤ 2 ^ 30 → Attempt v (mem.grants (v.max_items * 2 * 8) ≡ false) (grow mem v)
  unfolding grow
  grow-Attempt small =
      let n = v.max_items * 2 in
      let plain : v.max_items * 2 % u32 ≡ n = omega arith in
      retry-Attempt {P = mem.grants (n * 8) ≡ false} {Q = Unit {0}}
        (resize mem v (v.max_items * 2 % u32)) (grow_half mem)
        (rw plain (resize-Attempt n (omega (arith, valid.roomy)) (omega arith)))
        (grow_half-Attempt small)
