-- ===== src/Tests/Queues.antt =====
-- A queue of three places, two of which are taken, and a stack of two elements that is full.
use ban2fail.DynStack.Stack
use ban2fail.DynStack.Stack.{
  entries, has, visit_all, visit_all_entries-visit_all, push-refines, pop-refines, entry_exists-has,
}
use ban2fail.DynStack.{DynStack, push, pop}
use ban2fail.MsgQueue.Fifo
use ban2fail.MsgQueue.Fifo.{
  messages, enqueue, dequeue, check_all, submit_msg-refines, extract_msg-refines,
  check_queue-check_all,
}
use ban2fail.MsgQueue.{MsgQueue, submit_msg, extract_msg}
use ban2fail.Prelude.Int.{ℤ, pos, negsuc}
use ban2fail.Prelude.{
  ℕ, ◌+◌, ◌≤◌, ◌≡◌, ◌⊎◌, refl, arith, ◌==◌, if◌then◌else◌, [], ◌∷◌, ◌++◌, some, none, ample,
}

abbrev queue : MsgQueue ℕ
queue = record { buff_ptr = λ i. i; msg_size = 4; num_items = 2; max_items = 3; head = 2; tail = 0 }

queue-IsValid : Fifo.IsValid queue
queue-IsValid = record {
  roomy = omega arith;
  small = omega arith;
  narrow = omega arith;
  fits = omega arith;
  head_in = omega arith;
  last = refl;
}

submit_msg-refines_example :
    Fifo.IsValid (submit_msg queue (λ k. k + 7)).1
    × (((submit_msg queue (λ k. k + 7)).0, messages (submit_msg queue (λ k. k + 7)).1)
        ≡ enqueue 3 (messages queue) (7 ∷ 8 ∷ 9 ∷ 10 ∷ []))
submit_msg-refines_example = submit_msg-refines queue-IsValid (λ k. k + 7)

extract_msg-refines_example :
    let (rtn, (msg, q)) = extract_msg queue in
    Fifo.IsValid q × ((rtn, (msg, messages q)) ≡ dequeue (messages queue))
extract_msg-refines_example = extract_msg-refines queue-IsValid

-- A check that counts messages and stops at a given one.
abbrev until_0 : ℕ → ℕ → ℤ × ℕ
until_0 msg seen = (if msg == 0 then negsuc 0 else pos 0, seen + 1)

abbrev stack : DynStack ℕ
stack = record { size = 2; count = 2; elsize = 4; room = 8; stk_ptr = λ i. i + 5 }

stack-IsValid : Stack.IsValid stack
stack-IsValid = record {
  roomy = omega arith;
  fits = omega arith;
  small = omega arith;
  held = omega arith;
  narrow = omega arith;
}

push-refines_example :
    ((push (ample 0) stack 9 ≡ (negsuc 0, stack)) × (stack.count ≡ stack.size))
    ⊎ (((push (ample 0) stack 9).0 ≡ pos 0)
        × (entries (push (ample 0) stack 9).1 ≡ entries stack ++ (9 ∷ []))
        × ((push (ample 0) stack 9).1.count ≡ 3)
        × ((push (ample 0) stack 9).1.count ≤ (push (ample 0) stack 9).1.size))
push-refines_example = push-refines (ample 0) stack stack-IsValid 9

pop-refines_example :
    ((pop stack ≡ ((negsuc 0, none), stack)) × (entries stack ≡ []))
    ⊎ ((x : ℕ) × ((pop stack).0 ≡ (pos 0, some x))
        × (entries stack ≡ entries (pop stack).1 ++ (x ∷ [])))
pop-refines_example = pop-refines stack
