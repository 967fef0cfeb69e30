-- ===== src/MsgQueue.antt =====
-- msgqueue.c: a queue of messages of one size, in a ring of `maxItems` places. The mutex, which each
-- operation holds from its first line to its last, is not in the model: calls of several threads
-- are a sequence of operations. `A` is the type of a byte; a message is the `msgSize` bytes from its
-- offset on, and offsets are numbers of 32 bits.
pub mod Fifo
use ban2fail.Prelude.{
  ℕ, zero, suc, ◌+◌, ◌-◌, ◌*◌, ◌%◌, Bool, Option, none, some, List, [], ◌∷◌, ◌==◌, if◌then◌else◌,
  memcpy, listing, Memory, u32, u64, add32,
}
use ban2fail.Prelude.Int.{ℤ, pos, negsuc}

-- `MSGQUEUE`
pub record MsgQueue {ℓ} (A : Type ℓ) : Type ℓ where
  pub buff_ptr : ℕ → A
  pub msg_size : ℕ
  pub num_items : ℕ
  pub max_items : ℕ
  pub head : ℕ
  pub tail : ℕ

-- `EOF`
abbrev pub eof : ℤ
eof = negsuc 0

-- `if ((rtn = (*check) (ptr, arg))) break;`
abbrev pub unless_stopped : {S : Type 0} → ℤ × S → (S → ℤ × S) → ℤ × S
unless_stopped (pos n, arg) rest = if n == 0 then rest arg else (pos n, arg)
unless_stopped (negsuc n, arg) rest = (negsuc n, arg)

module _ {ℓ} {A : Type ℓ} where
  -- `MSGQUEUE_constructor`; `none` for NULL.
  unfoldable pub construct : Memory A → ℕ → ℕ → Option (MsgQueue A)
  construct mem msg_size queue_len =
      if mem.grants (msg_size * queue_len % u64)
      then some (record {
        buff_ptr = mem.fresh;
        msg_size = msg_size % u32;
        num_items = 0;
        max_items = queue_len;
        head = 0;
        tail = 0;
      })
      else none

  -- Where a place of the ring begins, and the bytes that stand there
  abbrev pub offset : MsgQueue A → ℕ → ℕ
  offset q i = i * q.msg_size % u32

  abbrev pub msg_at : MsgQueue A → ℕ → List A
  msg_at q i = listing (λ k. q.buff_ptr (offset q i + k)) q.msg_size

  -- `MSGQUEUE_submitMsg` once there is room, with the bytes from `msgBuf` on
  unfoldable pub put_msg : MsgQueue A → (ℕ → A) → MsgQueue A
  put_msg q msg =
      let tail = if q.num_items == 0 then q.tail else add32 q.tail 1 % q.max_items in
      record q {
        tail = tail;
        buff_ptr = memcpy q.buff_ptr (offset q tail) msg q.msg_size;
        num_items = add32 q.num_items 1;
      }

  unfoldable pub submit_msg : MsgQueue A → (ℕ → A) → ℤ × MsgQueue A
  submit_msg q msg = if q.num_items == q.max_items then (eof, q) else (pos 0, put_msg q msg)

  -- `MSGQUEUE_extractMsg` once there is a message
  unfoldable pub take_msg : MsgQueue A → MsgQueue A
  take_msg q =
      let n = q.num_items - 1 in
      record q { num_items = n; head = if n == 0 then q.head else add32 q.head 1 % q.max_items }

  -- What is copied to `msgBuf` stands beside the result.
  unfoldable pub extract_msg : MsgQueue A → ℤ × (Option (List A) × MsgQueue A)
  extract_msg q =
      if q.num_items == 0 then (eof, (none, q)) else (pos 0, (some (msg_at q q.head), take_msg q))

  -- The loop of `MSGQUEUE_checkQueue`, with `left` places to go from the `i`-th on: `check` returns
  -- its result and what it makes of its argument.
  unfoldable pub check_from : {S : Type 0} → MsgQueue A → (List A → S → ℤ × S) → ℕ → ℕ → S → ℤ × S
  check_from q check i zero arg = (pos 0, arg)
  check_from q check i (suc left) arg =
      unless_stopped
        (check (msg_at q (if i == 0 then q.head else add32 q.head i % q.max_items)) arg)
        (λ arg₂. check_from q check (i + 1) left arg₂)

  unfoldable pub check_queue : {S : Type 0} → MsgQueue A → (List A → S → ℤ × S) → S → ℤ × S
  check_queue q check arg = check_from q check 0 q.num_items arg
