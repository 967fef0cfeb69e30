-- ===== src/PtrVec/Run.antt =====
-- Any sequence of calls at the ends of a PTRVEC, against the double ended queue.
use ban2fail.Prelude.{
  ℕ, ◌+◌, ◌≤◌, ◌<◌, ◌≡◌, ap, ap₂, ◌∙◌, refl, arith, inl, inr, true, List, [], ◌∷◌, Option, Memory,
  length, ◌*◌,
}
use ban2fail.PtrVec.Deque
use ban2fail.PtrVec.Deque.{Op, pop_front, pop_back}
use ban2fail.PtrVec.Ends.{
  max_count, length-loop_fwd, add_tail-refines, add_head-refines, rem_head-refines,
  rem_tail-refines,
}
use ban2fail.PtrVec.Ring.{IsValid}
use ban2fail.PtrVec.{PtrVec, loop_fwd, add_head, add_tail, rem_head, rem_tail}

module _ {ℓ} {A : Type ℓ} (mem : Memory A) where
  -- One call, with what it returns.
  pub step : PtrVec A → Op A → Option A × PtrVec A
  step v (Op.add_head x) = add_head mem v x
  step v (Op.add_tail x) = add_tail mem v x
  step v Op.rem_head = rem_head v
  step v Op.rem_tail = rem_tail v

  -- The calls of a client in order, with what each returns.
  pub run : PtrVec A → List (Op A) → List (Option A)
  unfolding step
  run v [] = []
  run v (op ∷ ops) = let (r, w) = step v op in r ∷ run w ops

  module _ (all : (n : ℕ) → mem.grants n ≡ true) where
    step-refines :
        {v : PtrVec A} (op : Op A)
        → IsValid v
        → v.num_items < max_count
        → let (r, w) = step v op in IsValid w × ((r, loop_fwd w) ≡ Deque.step (loop_fwd v) op)
    unfolding step Deque.step
    step-refines {v} (Op.add_head x) valid few = elim (add_head-refines mem valid few x) [
      | inl (r, same, full, refused) ↦ cc (all (v.max_items * 2 * 8))
      | inr (r, ok, items) ↦ rw (r, items) (ok, refl)
    ]
    step-refines {v} (Op.add_tail x) valid few = elim (add_tail-refines mem valid few x) [
      | inl (r, same, full, refused) ↦ cc (all (v.max_items * 2 * 8))
      | inr (r, ok, items) ↦ rw (r, items) (ok, refl)
    ]
    step-refines {v} Op.rem_head valid few = rem_head-refines valid
    step-refines {v} Op.rem_tail valid few = rem_tail-refines valid

    -- While memory is granted and a valid vector cannot come to hold more than 2^30 items, any
    -- sequence of insertions and removals at the two ends returns what the double ended queue of
    -- its items returns.
    pub run_refines :
        (ops : List (Op A)) {v : PtrVec A}
        → IsValid v
        → v.num_items + length ops ≤ max_count
        → run v ops ≡ Deque.run (loop_fwd v) ops
    unfolding run Deque.run
    run_refines [] valid few = refl
    run_refines (op ∷ ops) {v} valid few =
        let (ok, same) = step-refines op valid (omega arith) in
        ap₂ ◌∷◌ (ap (λ p. p.0) same) (
          run_refines ops ok (
            omega (
              arith,
              length-loop_fwd v,
              length-loop_fwd (step v op).1,
              Deque.length-step (loop_fwd v) op,
              ap (λ p. length p.1) same,
            ))
          ∙ ap (λ p. Deque.run p.1 ops) same)
