-- ===== src/Tests/Vectors.antt =====
-- A PTRVEC of four slots with three items, the first of which stands in the last slot.
use ban2fail.Prelude.{ℕ, ◌≡◌, refl, arith, ◌==◌, List, [], ◌∷◌, some, ◌⊎◌, ◌++◌, ample, length}
use ban2fail.PtrVec.Deque
use ban2fail.PtrVec.Deque.{Op, pop_front, pop_back, drop_first}
use ban2fail.PtrVec.Ends.{Refused, add_tail-refines}
use ban2fail.PtrVec.Remove.{Removed, remove-refines}
use ban2fail.PtrVec.Ring.{IsValid}
use ban2fail.PtrVec.Run.{run, run_refines}
use ban2fail.PtrVec.Sort.{Sorted, sort-Sorted}
use ban2fail.PtrVec.{PtrVec, loop_fwd, add_tail, remove, sort}

abbrev vec : PtrVec ℕ
vec = record { ptr_arr = λ i. i; max_items = 4; num_items = 3; head = 3; tail = 1; sort_buf_sz = 0 }

vec-IsValid : IsValid vec
vec-IsValid = record {
  roomy = omega arith;
  small = omega arith;
  fits = omega arith;
  head_in = omega arith;
  last = refl;
}

items : loop_fwd vec ≡ 3 ∷ 0 ∷ 1 ∷ []
unfolding loop_fwd
items = refl

abbrev calls : List (Op ℕ)
calls = Op.add_tail 7 ∷ Op.add_tail 8 ∷ Op.rem_head ∷ Op.add_head 9 ∷ Op.rem_tail ∷ Op.rem_head ∷ []

run_refines_example : run (ample 0) vec calls ≡ Deque.run (loop_fwd vec) calls
run_refines_example = run_refines (ample 0) (λ n. refl) calls vec-IsValid (omega arith)

answers : run (ample 0) vec calls ≡ some 7 ∷ some 8 ∷ some 3 ∷ some 9 ∷ some 8 ∷ some 9 ∷ []
unfolding Deque.run Deque.step pop_front pop_back loop_fwd
answers = run_refines_example

add_tail-refines_example :
    let (r, w) = add_tail (ample 0) vec 7 in
    Refused (ample 0) vec (r, w)
    ⊎ ((r ≡ some 7) × IsValid w × (loop_fwd w ≡ loop_fwd vec ++ (7 ∷ [])))
add_tail-refines_example = add_tail-refines (ample 0) vec-IsValid (omega arith) 7

remove-refines_example : Removed ◌==◌ vec 0 (remove ◌==◌ vec 0)
remove-refines_example = remove-refines ◌==◌ vec 0 vec-IsValid

abbrev swap : List ℕ → List ℕ
swap (a ∷ b ∷ l) = b ∷ a ∷ l
swap l = l

length-swap : (l : List ℕ) → length (swap l) ≡ length l
length-swap [] = refl
length-swap (a ∷ []) = refl
length-swap (a ∷ b ∷ l) = refl

sort-Sorted_example :
    let (r, w) = sort swap (ample 0) vec in Sorted (ample 0) swap length-swap vec r w
sort-Sorted_example = sort-Sorted (ample 0) swap length-swap vec vec-IsValid (omega arith)
