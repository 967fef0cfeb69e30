-- ===== src/PtrVec.antt =====
-- ptrvec.c and ptrvec.h: a growable vector of pointers that is used as a double ended queue, kept
-- in a ring of `maxItems` slots. `malloc` and `realloc` answer as the argument `mem` says; a
-- pointer has 8 bytes. An operation on `*self` returns the new vector beside its result, which is
-- `none` for NULL.
pub mod Deque
pub mod Ring
pub mod Insert
pub mod Take
pub mod Grow
pub mod Ends
pub mod Run
pub mod Omit
pub mod Remove
pub mod Sort
use ban2fail.Prelude.{
  ℕ, zero, suc, ◌+◌, ◌-◌, ◌*◌, ◌/◌, ◌%◌, min, Bool, not, Option, none, some, List, [], ◌∷◌, ltb,
  ◌==◌, if◌then◌else◌, length, store, memmove, listing, Memory, u32, add32, sub32,
}

-- `PTRVEC`. Of the sort buffer only the size matters between calls.
pub record PtrVec {ℓ} (A : Type ℓ) : Type ℓ where
  pub ptr_arr : ℕ → A
  pub max_items : ℕ
  pub num_items : ℕ
  pub head : ℕ
  pub tail : ℕ
  pub sort_buf_sz : ℕ

module _ {ℓ} {A : Type ℓ} where
  unfoldable pub construct : Memory A → ℕ → Option (PtrVec A)
  construct mem init_max_items =
      if mem.grants (init_max_items * 8)
      then some (record {
        ptr_arr = mem.fresh;
        max_items = init_max_items;
        num_items = 0;
        head = 0;
        tail = 0;
        sort_buf_sz = 0;
      })
      else none

  unfoldable pub reset : PtrVec A → PtrVec A
  reset v = record v { num_items = 0; head = 0; tail = 0 }

  -- `PTRVEC_sinit`: a vector that is there is emptied. The result, and the vector afterwards.
  unfoldable pub sinit : Memory A → Option (PtrVec A) → ℕ → ℕ × Option (PtrVec A)
  unfolding construct reset
  sinit mem (some v) init_max_items = (0, some (reset v))
  sinit mem none init_max_items = elim (construct mem init_max_items) [
    | none ↦ (1, none)
    | some v ↦ (0, some v)
  ]

  -- The index of the item that is `i` places behind the head.
  abbrev pub slot : PtrVec A → ℕ → ℕ
  slot v i = add32 v.head i % v.max_items

  -- The items that `PTRVEC_loopFwd` visits, in order.
  unfoldable pub loop_fwd : PtrVec A → List A
  loop_fwd v = listing (λ i. v.ptr_arr (slot v i)) v.num_items

  -- `realloc` keeps what both sizes hold.
  unfoldable pub realloc : Memory A → PtrVec A → ℕ → ℕ → A
  realloc mem v n j = if ltb j (min v.max_items n) then v.ptr_arr j else mem.fresh j

  -- `PTRVEC_resize` once `realloc` has answered: the part behind the head moves to the new end.
  unfoldable pub rehouse : Memory A → PtrVec A → ℕ → PtrVec A
  unfolding realloc
  rehouse mem v n =
      let arr = realloc mem v n in
      let head_size = sub32 v.max_items v.head in
      if ltb v.tail v.head
      then record v {
        ptr_arr = memmove arr (n - head_size) (v.max_items - head_size) head_size;
        head = sub32 n head_size;
        max_items = n;
      }
      else record v { ptr_arr = arr; max_items = n }

  -- Returns 0, or 1 for failure.
  unfoldable pub resize : Memory A → PtrVec A → ℕ → ℕ × PtrVec A
  resize mem v n =
      if n == 0
      then (0, v)
      else if ltb n v.num_items
      then (1, v)
      else if not (mem.grants (n * 8))
      then (1, v)
      else (0, rehouse mem v n)

  -- One more attempt after a failed one.
  unfoldable pub retry : ℕ × PtrVec A → (PtrVec A → ℕ × PtrVec A) → ℕ × PtrVec A
  retry (r, w) next = if r == 0 then (0, w) else next w

  -- The attempts of `grow` from the inside out: to add a quarter, to add a half, to double.
  unfoldable pub grow_quarter : Memory A → PtrVec A → ℕ × PtrVec A
  unfolding retry resize
  grow_quarter mem v = retry (resize mem v (add32 v.max_items (v.max_items / 4))) (λ w. (1, w))

  unfoldable pub grow_half : Memory A → PtrVec A → ℕ × PtrVec A
  unfolding grow_quarter
  grow_half mem v = retry (resize mem v (add32 v.max_items (v.max_items / 2))) (grow_quarter mem)

  unfoldable pub grow : Memory A → PtrVec A → ℕ × PtrVec A
  unfolding grow_half
  grow mem v = retry (resize mem v (v.max_items * 2 % u32)) (grow_half mem)

  -- `self->numItems == self->maxItems && grow(self)`, the test on which an insertion gives up.
  unfoldable pub make_room : Memory A → PtrVec A → ℕ × PtrVec A
  make_room mem v = if v.num_items == v.max_items then grow mem v else (0, v)

  unfoldable pub put_head : PtrVec A → A → PtrVec A
  put_head v ptr =
      let h =
        if v.num_items == 0 then v.head else sub32 (add32 v.head v.max_items) 1 % v.max_items in
      record v { ptr_arr = store v.ptr_arr h ptr; head = h; num_items = add32 v.num_items 1 }

  unfoldable pub add_head : Memory A → PtrVec A → A → Option A × PtrVec A
  add_head mem v ptr =
      let (r, w) = make_room mem v in if r == 0 then (some ptr, put_head w ptr) else (none, w)

  unfoldable pub rem_head : PtrVec A → Option A × PtrVec A
  rem_head v =
      let n = v.num_items - 1 in
      if v.num_items == 0 then (none, v) else (
        some (v.ptr_arr v.head),
        record v { num_items = n; head = if n == 0 then v.head else add32 v.head 1 % v.max_items },
      )

  unfoldable pub put_tail : PtrVec A → A → PtrVec A
  put_tail v ptr =
      let t = if v.num_items == 0 then v.tail else add32 v.tail 1 % v.max_items in
      record v { ptr_arr = store v.ptr_arr t ptr; tail = t; num_items = add32 v.num_items 1 }

  unfoldable pub add_tail : Memory A → PtrVec A → A → Option A × PtrVec A
  add_tail mem v ptr =
      let (r, w) = make_room mem v in if r == 0 then (some ptr, put_tail w ptr) else (none, w)

  unfoldable pub rem_tail : PtrVec A → Option A × PtrVec A
  rem_tail v =
      let n = v.num_items - 1 in
      if v.num_items == 0 then (none, v) else (
        some (v.ptr_arr v.tail),
        record v {
          num_items = n;
          tail = if n == 0 then v.tail else sub32 (add32 v.tail v.max_items) 1 % v.max_items;
        },
      )

  -- `PTRVEC_remove` once the index is known: the five cases of the code.
  unfoldable pub remove_at : PtrVec A → ℕ → PtrVec A
  remove_at v ndx =
      let n = v.num_items - 1 in
      if v.num_items == 1
      then record v { num_items = n; head = 0; tail = 0 }
      else if ndx == v.head
      then record v { num_items = n; head = add32 v.head 1 % v.max_items }
      else if ndx == v.tail
      then record v { num_items = n; tail = sub32 (add32 v.tail v.max_items) 1 % v.max_items }
      else if ltb ndx v.tail
      then record v {
        num_items = n;
        ptr_arr = memmove v.ptr_arr ndx (ndx + 1) (v.tail - ndx);
        tail = v.tail - 1;
      }
      else record v {
        num_items = n;
        ptr_arr = memmove v.ptr_arr (v.head + 1) v.head (ndx - v.head);
        head = add32 v.head 1;
      }

  -- Pointers are compared by `same`.
  module _ (same : A → A → Bool) where
    -- The loop of `PTRVEC_find`, with the rounds that are left and the counter.
    unfoldable pub find_from : PtrVec A → A → ℕ → ℕ → Option ℕ
    find_from v item zero i = none
    find_from v item (suc n) i =
        let rest = find_from v item n (i + 1) in
        if same (v.ptr_arr (slot v i)) item then some (slot v i) else rest

    -- The index in the array of the first slot that holds `item`.
    unfoldable pub find : PtrVec A → A → Option ℕ
    unfolding find_from
    find v item = find_from v item v.num_items 0

    unfoldable pub remove : PtrVec A → A → Option A × PtrVec A
    unfolding find remove_at
    remove v item = elim (find v item) [
      | none ↦ (none, v)
      | some ndx ↦ (some item, remove_at v ndx)
    ]

  -- The last loop of `PTRVEC_sort`, whose results are not looked at.
  unfoldable pub add_all : Memory A → PtrVec A → List A → PtrVec A
  unfolding add_tail
  add_all mem v [] = v
  add_all mem v (x ∷ xs) = add_all mem (add_tail mem v x).1 xs

  -- `qsort` with the caller's comparison is the argument `qsort`. Returns 0, or 1 for failure.
  unfoldable pub sort : (List A → List A) → Memory A → PtrVec A → ℕ × PtrVec A
  unfolding add_all loop_fwd reset
  sort qsort mem v =
      let sz = v.num_items * 8 % u32 in
      let items = qsort (loop_fwd v) in
      if v.num_items == 0
      then (0, v)
      else if not (ltb v.sort_buf_sz sz)
      then (0, add_all mem (reset v) items)
      else if not (mem.grants sz)
      then (1, record v { sort_buf_sz = 0 })
      else (0, add_all mem (reset (record v { sort_buf_sz = sz })) items)
