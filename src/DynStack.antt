-- ===== src/DynStack.antt =====
-- dynstack.c and dynstack.h: a stack of elements of `elsize` bytes in memory that doubles when it is
-- full. `malloc` and `realloc` answer as the argument `mem` says; an element is one value, and
-- `memcmp` is the argument `same`.
pub mod Stack
use ban2fail.Prelude.{
  ℕ, zero, suc, ◌+◌, ◌-◌, ◌*◌, ◌%◌, Bool, true, false, Option, none, some, List, [], ◌∷◌, ◌==◌,
  if◌then◌else◌, leb, min, store, listing, Memory, u32, add32,
}
use ban2fail.MsgQueue.{unless_stopped}
use ban2fail.Prelude.Int.{ℤ, pos, negsuc}

-- `DS`, with a `stk_ptr` that is not NULL; `room` is the number of bytes there.
pub record DynStack {ℓ} (A : Type ℓ) : Type ℓ where
  pub size : ℕ
  pub count : ℕ
  pub elsize : ℕ
  pub room : ℕ
  pub stk_ptr : ℕ → A

module _ {ℓ} {A : Type ℓ} where
  -- `DS_constructor`
  unfoldable pub construct : Memory A → ℕ → ℕ → Option (DynStack A)
  construct mem elmt_size num_elmts =
      if mem.grants (elmt_size * num_elmts % u32)
      then some (record {
        size = num_elmts;
        count = 0;
        elsize = elmt_size;
        room = elmt_size * num_elmts % u32;
        stk_ptr = mem.fresh;
      })
      else none

  unfoldable pub reset : DynStack A → DynStack A
  reset s = record s { count = 0 }

  -- `DS_sinit`: a stack that is there is emptied. The result, and the stack that is there afterwards.
  unfoldable pub sinit : Memory A → Option (DynStack A) → ℕ → ℕ → ℤ × Option (DynStack A)
  sinit mem (some s) elmt_size num_elmts = (pos 0, some (reset s))
  sinit mem none elmt_size num_elmts = elim (construct mem elmt_size num_elmts) [
    | none ↦ (pos 1, none)
    | some s ↦ (pos 0, some s)
  ]

  -- `DS_top`: what is copied to `dest_ptr` stands beside the result.
  unfoldable pub top : DynStack A → ℤ × Option A
  top s = if s.count == 0 then (negsuc 0, none) else (pos 0, some (s.stk_ptr (s.count - 1)))

  -- `DS_pop`, once DS_top has returned
  abbrev pub drop_copied : DynStack A → ℤ × Option A → (ℤ × Option A) × DynStack A
  drop_copied s (negsuc n, dest) = ((negsuc 0, dest), s)
  drop_copied s (pos n, dest) =
      if n == 0 then ((pos 0, dest), record s { count = s.count - 1 }) else ((negsuc 0, dest), s)

  unfoldable pub pop : DynStack A → (ℤ × Option A) × DynStack A
  pop s = drop_copied s (top s)

  -- `DS_push` once the size allows it. An element that ends behind the memory is not kept.
  unfoldable pub put : DynStack A → A → DynStack A
  put s src =
      let count = add32 s.count 1 in
      record s {
        count = count;
        stk_ptr =
            if leb (s.elsize * count) s.room then store s.stk_ptr (count - 1) src else s.stk_ptr;
      }

  -- The memory that `realloc` returns keeps the elements that both sizes hold, in bytes.
  unfoldable pub enlarge : Memory A → DynStack A → DynStack A
  enlarge mem s =
      let new_sz = s.size * 2 % u32 in
      record s {
        size = new_sz;
        room = s.elsize * new_sz % u32;
        stk_ptr = λ j.
            if leb (s.elsize * (j + 1)) (min s.room (s.elsize * new_sz % u32))
            then s.stk_ptr j
            else mem.fresh j;
      }

  unfoldable pub push : Memory A → DynStack A → A → ℤ × DynStack A
  push mem s src =
      if s.count == s.size
      then (if mem.grants (s.elsize * (s.size * 2 % u32) % u32)
          then (pos 0, put (enlarge mem s) src)
          else (negsuc 0, s))
      else (pos 0, put s src)

  -- The loop of `DS_entry_exists`, with `left` elements to go from the `i`-th on
  unfoldable pub exists_from : (A → A → Bool) → DynStack A → A → ℕ → ℕ → Bool
  exists_from same s target i zero = false
  exists_from same s target i (suc left) =
      let rest = exists_from same s target (i + 1) left in
      if same (s.stk_ptr i) target then true else rest

  unfoldable pub entry_exists : (A → A → Bool) → DynStack A → A → Bool
  entry_exists same s target = exists_from same s target 0 s.count

  -- The loop of `DS_visitAllEntries`, with `left` elements to go from the `i`-th on: `func` returns
  -- its result and what it makes of its data.
  unfoldable pub visit_from : {S : Type 0} → DynStack A → (A → S → ℤ × S) → ℕ → ℕ → S → ℤ × S
  visit_from s func i zero arg = (pos 0, arg)
  visit_from s func i (suc left) arg =
      unless_stopped (func (s.stk_ptr i) arg) (λ next. visit_from s func (i + 1) left next)

  unfoldable pub visit_all_entries : {S : Type 0} → DynStack A → (A → S → ℤ × S) → S → ℤ × S
  visit_all_entries s func arg = visit_from s func 0 s.count arg
