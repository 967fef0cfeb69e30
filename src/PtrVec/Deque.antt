-- ===== src/PtrVec/Deque.antt =====
-- What ptrvec.h promises: a list that gains and loses items at both ends, and from which the first
-- occurrence of an item can be taken.
use ban2fail.Prelude.{
  ◌+◌, ◌≤◌, ◌≡◌, refl, arith, length, length-append, List, [], ◌∷◌, ◌++◌, Option, some, none, Bool,
  if◌then◌else◌,
}

module _ {ℓ} {A : Type ℓ} where
  unfoldable pub pop_front : List A → Option A × List A
  pop_front [] = (none, [])
  pop_front (x ∷ xs) = (some x, xs)

  unfoldable pub pop_back : List A → Option A × List A
  pop_back [] = (none, [])
  pop_back (x ∷ []) = (some x, [])
  pop_back (x ∷ y ∷ r) = let (last, front) = pop_back (y ∷ r) in (last, x ∷ front)

  pub pop_back-snoc : (xs : List A) (x : A) → pop_back (xs ++ (x ∷ [])) ≡ (some x, xs)
  unfolding pop_back
  pop_back-snoc [] x = refl
  pop_back-snoc (y ∷ []) x = refl
  pop_back-snoc (y ∷ z ∷ r) x = rw (pop_back-snoc (z ∷ r) x)

  -- The first item that passes the test.
  unfoldable pub first : (A → Bool) → List A → Option A
  first p [] = none
  first p (x ∷ xs) = if p x then some x else first p xs

  -- The list without the first item that passes the test.
  unfoldable pub drop_first : (A → Bool) → List A → List A
  drop_first p [] = []
  drop_first p (x ∷ xs) = if p x then xs else x ∷ drop_first p xs

-- What a client can ask of the two ends, and what it gets.
pub data Op {ℓ} (A : Type ℓ) : Type ℓ where
  add_head add_tail : A → Op A
  rem_head rem_tail : Op A

module _ {ℓ} {A : Type ℓ} where
  unfoldable pub step : List A → Op A → Option A × List A
  unfolding pop_front pop_back
  step l (add_head x) = (some x, x ∷ l)
  step l (add_tail x) = (some x, l ++ (x ∷ []))
  step l rem_head = pop_front l
  step l rem_tail = pop_back l

  unfoldable pub run : List A → List (Op A) → List (Option A)
  unfolding step
  run l [] = []
  run l (op ∷ ops) = let (r, l') = step l op in r ∷ run l' ops

  pub length-pop_back : (xs : List A) → length (pop_back xs).1 ≤ length xs
  unfolding pop_back
  length-pop_back [] = omega arith
  length-pop_back (x ∷ []) = omega arith
  length-pop_back (x ∷ y ∷ r) = omega (arith, length-pop_back (y ∷ r))

  -- No operation adds more than one item.
  pub length-step : (l : List A) (op : Op A) → length (step l op).1 ≤ length l + 1
  unfolding step pop_front
  length-step l (add_head x) = omega arith
  length-step l (add_tail x) = omega (arith, length-append l (x ∷ []))
  length-step [] rem_head = omega arith
  length-step (x ∷ l) rem_head = omega arith
  length-step l rem_tail = omega (arith, length-pop_back l)
