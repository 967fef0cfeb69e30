-- ===== src/PtrVec/Ends.antt =====
-- The four operations at the ends of a PTRVEC, against the double ended queue of its items.
use ban2fail.Prelude.{
  ℕ, ◌*◌, ◌^◌, ◌<◌, ◌≡◌, ◌⊎◌, ◌∙◌, ap, sym, refl, arith, inl, inr, false, Bool-cases, ◌==◌, List,
  [], ◌∷◌, ◌++◌, Option, some, none, Memory, length, length-listing, dec_lt,
}
use ban2fail.PtrVec.Deque.{pop_front, pop_back, pop_back-snoc}
use ban2fail.PtrVec.Grow.{grow-Attempt}
use ban2fail.PtrVec.Insert.{
  put_head-IsValid, put_tail-IsValid, loop_fwd-put_head, loop_fwd-put_tail,
}
use ban2fail.PtrVec.Ring.{IsValid}
use ban2fail.PtrVec.Take.{
  rem_head-empty, rem_tail-empty, loop_fwd-empty, rem_head_eq, rem_tail_eq, beheaded-IsValid,
  curtailed-IsValid, loop_fwd-beheaded, loop_fwd-curtailed,
}
use ban2fail.PtrVec.{PtrVec, loop_fwd, slot, make_room, add_head, add_tail, rem_head, rem_tail}

-- More items than this a vector is not asked to hold.
abbrev pub max_count : ℕ
max_count = 2 ^ 30

pub length-loop_fwd {ℓ} : {A : Type ℓ} (v : PtrVec A) → length (loop_fwd v) ≡ v.num_items
unfolding loop_fwd
length-loop_fwd v = length-listing (λ i. v.ptr_arr (slot v i)) v.num_items

-- A refused insertion leaves the vector as it was, and happens only when it is full and the
-- allocator does not grant an array of twice the size.
abbrev pub Refused {ℓ} : {A : Type ℓ} → Memory A → PtrVec A → Option A × PtrVec A → Type ℓ
Refused mem v (r, w) =
    (r ≡ none) × (w ≡ v) × (v.num_items ≡ v.max_items) × (mem.grants (v.max_items * 2 * 8) ≡ false)

module _ {ℓ} {A : Type ℓ} (mem : Memory A) {v : PtrVec A} (valid : IsValid v)
    (few : v.num_items < max_count) where
  -- `w` is `v` with a free slot.
  record Ready (w : PtrVec A) : Type ℓ where
    ok : IsValid w
    items : loop_fwd w ≡ loop_fwd v
    free : w.num_items < w.max_items

  make_room-Ready :
      let (r, w) = make_room mem v in
      ((r ≡ 1) × (w ≡ v) × (v.num_items ≡ v.max_items) × (mem.grants (v.max_items * 2 * 8) ≡ false))
      ⊎ ((r ≡ 0) × Ready w)
  unfolding make_room
  make_room-Ready = elim (Bool-cases (v.num_items == v.max_items)) [
    | inr e ↦
        rw e (
          inr
            (refl, record { ok = valid; items = refl; free = let f = valid.fits in ground arith }))
    | inl e ↦
        let full : v.num_items ≡ v.max_items = ground arith in
        rw e (elim (grow-Attempt mem valid (omega arith)) [
          | inl (r, same, refused) ↦ inl (r, same, full, refused)
          | inr (r, g) ↦ inr (
            r,
            record { ok = g.valid; items = g.items; free = omega (arith, g.num_items, g.more) },
          )
        ])
  ]

  -- PTRVEC_addTail on a valid vector with fewer than 2^30 items returns the pointer and puts it
  -- behind the last item of a valid vector, or it returns NULL and leaves the vector as it was,
  -- which happens only when the vector is full and an array of twice the size is refused.
  pub add_tail-refines :
      (x : A)
      → let (r, w) = add_tail mem v x in
        Refused mem v (r, w) ⊎ ((r ≡ some x) × IsValid w × (loop_fwd w ≡ loop_fwd v ++ (x ∷ [])))
  unfolding add_tail
  add_tail-refines x = elim make_room-Ready [
    | inl (e, same, full, refused) ↦ rw e (inl (refl, same, full, refused))
    | inr (e, rdy) ↦ rw e (
        inr (
          refl,
          put_tail-IsValid rdy.ok rdy.free x,
          loop_fwd-put_tail rdy.ok rdy.free x ∙ ap (λ l. l ++ (x ∷ [])) rdy.items,
        ))
  ]

  -- PTRVEC_addHead on a valid vector with fewer than 2^30 items returns the pointer and puts it
  -- before the first item of a valid vector, or it returns NULL and leaves the vector as it was,
  -- which happens only when the vector is full and an array of twice the size is refused.
  pub add_head-refines :
      (x : A)
      → let (r, w) = add_head mem v x in
        Refused mem v (r, w) ⊎ ((r ≡ some x) × IsValid w × (loop_fwd w ≡ x ∷ loop_fwd v))
  unfolding add_head
  add_head-refines x = elim make_room-Ready [
    | inl (e, same, full, refused) ↦ rw e (inl (refl, same, full, refused))
    | inr (e, rdy) ↦ rw e (
        inr (
          refl,
          put_head-IsValid rdy.ok rdy.free x,
          loop_fwd-put_head rdy.ok rdy.free x ∙ ap (λ l. x ∷ l) rdy.items,
        ))
  ]

module _ {ℓ} {A : Type ℓ} {v : PtrVec A} (valid : IsValid v) where
  -- PTRVEC_remHead on a valid vector takes the first item, or returns NULL from an empty vector.
  -- The vector stays valid.
  pub rem_head-refines :
      let (r, w) = rem_head v in IsValid w × ((r, loop_fwd w) ≡ pop_front (loop_fwd v))
  unfolding pop_front
  rem_head-refines = elim (dec_lt 0 v.num_items) [
    | yes p ↦ rw (rem_head_eq valid p, loop_fwd-beheaded valid p) (beheaded-IsValid valid p, refl)
    | no p ↦
        let e : v.num_items ≡ 0 = omega arith in
        rw (rem_head-empty valid e, loop_fwd-empty valid e) (valid, refl)
  ]

  -- PTRVEC_remTail on a valid vector takes the last item, or returns NULL from an empty vector.
  -- The vector stays valid.
  pub rem_tail-refines :
      let (r, w) = rem_tail v in IsValid w × ((r, loop_fwd w) ≡ pop_back (loop_fwd v))
  unfolding pop_back
  rem_tail-refines = elim (dec_lt 0 v.num_items) [
    | yes p ↦
        rw (rem_tail_eq valid p, loop_fwd-curtailed valid p, pop_back-snoc)
          (curtailed-IsValid valid p, refl)
    | no p ↦
        let e : v.num_items ≡ 0 = omega arith in
        rw (rem_tail-empty valid e, loop_fwd-empty valid e) (valid, refl)
  ]

  -- The two outcomes of `PTRVEC_remHead`.
  pub rem_head-cases :
      let (r, w) = rem_head v in
      IsValid w
      × (((r ≡ none) × (loop_fwd v ≡ []) × (loop_fwd w ≡ []))
          ⊎ ((x : A) × (r ≡ some x) × (loop_fwd v ≡ x ∷ loop_fwd w)))
  unfolding pop_front
  rem_head-cases =
      let (r, w) = rem_head v in let (ok, e) = rem_head-refines in (ok, go (loop_fwd v) r w refl e)
    where
      go :
          (l : List A) (r : Option A) (w : PtrVec A)
          → loop_fwd v ≡ l
          → (r, loop_fwd w) ≡ pop_front (loop_fwd v)
          → ((r ≡ none) × (loop_fwd v ≡ []) × (loop_fwd w ≡ []))
            ⊎ ((x : A) × (r ≡ some x) × (loop_fwd v ≡ x ∷ loop_fwd w))
      go [] r w e f = let q = f ∙ ap pop_front e in inl (ap (λ p. p.0) q, e, ap (λ p. p.1) q)
      go (x ∷ l) r w e f =
          let q = f ∙ ap pop_front e in
          inr (x, ap (λ p. p.0) q, e ∙ ap (λ t. x ∷ t) (sym (ap (λ p. p.1) q)))
