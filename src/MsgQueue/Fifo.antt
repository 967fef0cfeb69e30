-- ===== src/MsgQueue/Fifo.antt =====
-- A MSGQUEUE is a bounded queue: first in, first out.
use ban2fail.MsgQueue.{
  MsgQueue, offset, msg_at, eof, put_msg, submit_msg, take_msg, extract_msg, unless_stopped,
  check_from, check_queue,
}
use ban2fail.Prelude.{
  ℕ, zero, suc, ◌+◌, ◌-◌, ◌%◌, ◌^◌, ◌≤◌, ◌<◌, ◌≡◌, ◌⊎◌, ◌∙◌, ap, sym, refl, arith, true, false,
  ℕ_discrete, Option, none, some, List, [], ◌∷◌, ◌++◌, ◌==◌, if◌then◌else◌, length, memcpy, listing,
  listing_congr, listing-snoc, listing-cons, length-listing, memcpy_in, memcpy_out, ◌*◌, ◌≢◌, inl,
  inr, dec_lt, add32,
}
use ban2fail.Prelude.Int.{ℤ, pos}
use mathlib.Core.Path.{fun_ext}
use ban2fail.Prelude.Order.{mod_ring}

-- So that `head + maxItems` does not wrap, nor the offset of a place.
pub record IsValid {ℓ} {A : Type ℓ} (q : MsgQueue A) : Type 0 where
  pub roomy : 1 ≤ q.max_items
  pub small : q.max_items ≤ 2 ^ 31
  pub narrow : q.max_items * q.msg_size ≤ 2 ^ 32
  pub fits : q.num_items ≤ q.max_items
  pub head_in : q.head < q.max_items
  pub last : q.tail ≡ (q.head + (q.num_items - 1)) % q.max_items

module _ {ℓ} {A : Type ℓ} where
  abbrev pub place : MsgQueue A → ℕ → ℕ
  place q i = (q.head + i) % q.max_items

  -- The messages that are waiting, the oldest first.
  unfoldable pub messages : MsgQueue A → List (List A)
  messages q = listing (λ i. msg_at q (place q i)) q.num_items

  -- What is promised: a queue of at most `cap` messages.
  abbrev pub enqueue : ℕ → List A → A → ℤ × List A
  enqueue cap ms msg = if length ms == cap then (eof, ms) else (pos 0, ms ++ (msg ∷ []))

  abbrev pub dequeue : List A → ℤ × (Option A × List A)
  dequeue [] = (eof, (none, []))
  dequeue (m ∷ ms) = (pos 0, (some m, ms))

  -- A walk that ends with the first result that is not 0.
  abbrev pub check_all : {S : Type 0} → (A → S → ℤ × S) → List A → S → ℤ × S
  check_all check [] arg = (pos 0, arg)
  check_all check (m ∷ ms) arg = unless_stopped (check m arg) (λ arg₂. check_all check ms arg₂)

module _ {ℓ} {A : Type ℓ} {q : MsgQueue A} (valid : IsValid q) where
  pub length-messages : length (messages q) ≡ q.num_items
  unfolding messages
  length-messages = length-listing (λ i. msg_at q (place q i)) q.num_items

  tail_at :
      ((q.head + (q.num_items - 1) < q.max_items) × (q.tail ≡ q.head + (q.num_items - 1)))
      ⊎ ((q.max_items ≤ q.head + (q.num_items - 1))
          × (q.tail + q.max_items ≡ q.head + (q.num_items - 1)))
  tail_at = omega (
    arith,
    valid.last,
    valid.fits,
    valid.head_in,
    mod_ring (q.head + (q.num_items - 1)) q.max_items,
  )

  -- The places of the ring follow each other in the buffer.
  offset_plain : (i : ℕ) → i < q.max_items → offset q i ≡ i * q.msg_size
  offset_plain i h = elim (ℕ_discrete q.msg_size 0) [
    | yes e ↦ let nothing : i * q.msg_size ≡ 0 = rw e (omega arith) in omega arith
    | no ne ↦
        let below : (i + 1) * q.msg_size ≤ q.max_items * q.msg_size = grind arith in
        let next : (i + 1) * q.msg_size ≡ i * q.msg_size + q.msg_size = grind arith in
        omega (arith, valid.narrow)
  ]

  offset_before : (i j : ℕ) → i < j → j < q.max_items → offset q i + q.msg_size ≤ offset q j
  offset_before i j h l =
      let below : (i + 1) * q.msg_size ≤ j * q.msg_size = grind arith in
      let next : (i + 1) * q.msg_size ≡ i * q.msg_size + q.msg_size = grind arith in
      omega (arith, offset_plain i (omega arith), offset_plain j l)

  module _ (free : q.num_items < q.max_items) (msg : ℕ → A) where
    -- What `memcpy` to one place leaves at another, and there
    copied_beside :
        (t i : ℕ)
        → t < q.max_items
        → i < q.max_items
        → i ≢ t
        → listing (λ k. memcpy q.buff_ptr (offset q t) msg q.msg_size (offset q i + k)) q.msg_size
          ≡ msg_at q i
    copied_beside t i h l ne = listing_congr _ _ q.msg_size (λ k small.
        memcpy_out q.buff_ptr (offset q t) msg q.msg_size (offset q i + k) (elim (dec_lt i t) [
          | yes p ↦ inl (omega (arith, offset_before i t p h))
          | no p ↦ inr (omega (arith, offset_before t i (omega arith) l))
        ]))

    copied_to :
        (t i : ℕ)
        → i ≡ t
        → listing (λ k. memcpy q.buff_ptr (offset q t) msg q.msg_size (offset q i + k)) q.msg_size
          ≡ listing msg q.msg_size
    copied_to t i e =
        ap
          (λ j.
            listing (λ k. memcpy q.buff_ptr (offset q t) msg q.msg_size (offset q j + k))
              q.msg_size)
          e
        ∙ listing_congr _ _ q.msg_size (λ k h. memcpy_in q.buff_ptr (offset q t) msg q.msg_size k h)

    put_tail : (put_msg q msg).tail ≡ place q q.num_items
    unfolding put_msg
    put_tail = ground (
      arith,
      valid.head_in,
      valid.small,
      tail_at,
      mod_ring (q.head + q.num_items) q.max_items,
      mod_ring (q.tail + 1) q.max_items,
    )

    num_items-put_msg : (put_msg q msg).num_items ≡ suc q.num_items
    unfolding put_msg
    num_items-put_msg = omega (arith, valid.small)

    put_msg-IsValid : IsValid (put_msg q msg)
    unfolding put_msg
    put_msg-IsValid = record {
      roomy = valid.roomy;
      small = valid.small;
      narrow = valid.narrow;
      fits = rw num_items-put_msg free;
      head_in = valid.head_in;
      last = put_tail ∙ ap (λ (n : ℕ). (q.head + n) % q.max_items) (omega (arith, valid.small));
    }

    messages-put_msg : messages (put_msg q msg) ≡ messages q ++ (listing msg q.msg_size ∷ [])
    unfolding messages put_msg
    messages-put_msg =
        let t = (put_msg q msg).tail in
        listing-snoc (λ i. msg_at q (place q i)) (λ i. msg_at (put_msg q msg) (place q i))
          q.num_items (listing msg q.msg_size) _ num_items-put_msg
          (λ i h.
            let apart : place q i ≢ t = omega (
              arith,
              put_tail,
              valid.head_in,
              mod_ring (q.head + i) q.max_items,
              mod_ring (q.head + q.num_items) q.max_items,
            ) in
            copied_beside t (place q i) (omega (arith, put_tail, valid.roomy))
              (omega (arith, valid.roomy)) apart)
          (copied_to t (place q q.num_items) (sym put_tail))

  -- MSGQUEUE_submitMsg on a valid queue, whose places take up at most 2^32 bytes, does what the
  -- insertion into a bounded queue does: the msgSize bytes of the message are put behind the
  -- others, which keep theirs, or EOF is returned from a full queue. The queue stays valid.
  pub submit_msg-refines :
      (msg : ℕ → A)
      → IsValid (submit_msg q msg).1
        × (((submit_msg q msg).0, messages (submit_msg q msg).1)
            ≡ enqueue q.max_items (messages q) (listing msg q.msg_size))
  unfolding submit_msg
  submit_msg-refines msg = elim (ℕ_discrete q.num_items q.max_items) [
    | yes e ↦
        let t : (q.num_items == q.max_items) ≡ true = ground arith in
        rw (length-messages, t) (valid, refl)
    | no ne ↦
        let t : (q.num_items == q.max_items) ≡ false = ground arith in
        let free : q.num_items < q.max_items = omega (arith, valid.fits) in
        rw (length-messages, t)
          (put_msg-IsValid free msg, ap (λ ms. (pos 0, ms)) (messages-put_msg free msg))
  ]

  module _ (waiting : 0 < q.num_items) where
    head_next :
        ((q.num_items ≡ 1) × ((take_msg q).head ≡ q.head))
        ⊎ ((1 < q.num_items) × (q.head + 1 < q.max_items) × ((take_msg q).head ≡ q.head + 1))
        ⊎ ((1 < q.num_items) × (q.head + 1 ≡ q.max_items) × ((take_msg q).head ≡ 0))
    unfolding take_msg
    head_next =
        ground (arith, valid.head_in, valid.small, valid.fits, mod_ring (q.head + 1) q.max_items)

    take_msg-IsValid : IsValid (take_msg q)
    unfolding take_msg
    take_msg-IsValid = record {
      roomy = valid.roomy;
      small = valid.small;
      narrow = valid.narrow;
      fits = omega (arith, valid.fits);
      head_in = omega (arith, head_next, valid.head_in);
      last = omega (
        arith,
        head_next,
        tail_at,
        valid.head_in,
        valid.fits,
        mod_ring ((take_msg q).head + (q.num_items - 1 - 1)) q.max_items,
      );
    }

    messages-take_msg : messages q ≡ msg_at q q.head ∷ messages (take_msg q)
    unfolding messages take_msg
    messages-take_msg =
        listing-cons (λ i. msg_at q (place (take_msg q) i)) (λ i. msg_at q (place q i))
          (q.num_items - 1) (msg_at q q.head) q.num_items (omega arith)
          (ap (msg_at q) (omega (arith, valid.head_in, mod_ring (q.head + 0) q.max_items)))
          (λ i h. ap (msg_at q) (
            omega (
              arith,
              head_next,
              valid.head_in,
              valid.fits,
              mod_ring (q.head + suc i) q.max_items,
              mod_ring ((take_msg q).head + i) q.max_items,
            )))

  messages-empty : q.num_items ≡ 0 → messages q ≡ []
  unfolding messages
  messages-empty e = rw e

  -- MSGQUEUE_extractMsg on a valid queue takes the oldest message, or returns EOF from an empty
  -- queue. The queue stays valid.
  pub extract_msg-refines :
      let (rtn, (msg, q₂)) = extract_msg q in
      IsValid q₂ × ((rtn, (msg, messages q₂)) ≡ dequeue (messages q))
  unfolding extract_msg
  extract_msg-refines = elim (ℕ_discrete q.num_items 0) [
    | yes e ↦
        let t : (q.num_items == 0) ≡ true = ground arith in
        let none_left : messages q ≡ [] = messages-empty e in rw (t, none_left) (valid, refl)
    | no ne ↦
        let t : (q.num_items == 0) ≡ false = ground arith in
        let waiting : 0 < q.num_items = omega arith in
        rw (t, messages-take_msg waiting) (take_msg-IsValid waiting, refl)
  ]

  shift :
      (left i : ℕ)
      → listing (λ j. msg_at q (place q (i + 1 + j))) left
        ≡ listing (λ j. msg_at q (place q (i + suc j))) left
  shift left i = listing_congr _ _ left (λ j h. ap (λ n. msg_at q (place q n)) (omega arith))

  check_from-check_all :
      {S : Type 0} (check : List A → S → ℤ × S) (left i : ℕ) (arg : S)
      → i + left ≤ q.num_items
      → check_from q check i left arg
        ≡ check_all check (listing (λ j. msg_at q (place q (i + j))) left) arg
  unfolding check_from
  check_from-check_all check zero i arg h = refl
  check_from-check_all check (suc left) i arg h =
      let same : (if i == 0 then q.head else add32 q.head i % q.max_items) ≡ place q (i + 0) =
        ground (
          arith,
          valid.head_in,
          valid.small,
          valid.fits,
          mod_ring (q.head + 0) q.max_items,
          mod_ring (q.head + i) q.max_items,
        ) in
      ap
        (λ j.
          unless_stopped (check (msg_at q j) arg) (λ arg₂. check_from q check (i + 1) left arg₂))
        same
      ∙ ap (unless_stopped (check (msg_at q (place q (i + 0))) arg)) (
          fun_ext (λ arg₂.
            check_from-check_all check left (i + 1) arg₂ (omega arith)
            ∙ ap (λ l. check_all check l arg₂) (shift left i)))

  -- MSGQUEUE_checkQueue on a valid queue calls the check on the waiting messages, the oldest
  -- first, until it returns something other than 0, and returns that.
  pub check_queue-check_all :
      {S : Type 0} (check : List A → S → ℤ × S) (arg : S)
      → check_queue q check arg ≡ check_all check (messages q) arg
  unfolding check_queue messages
  check_queue-check_all check arg =
      check_from-check_all check q.num_items 0 arg (omega arith)
      ∙ ap (λ l. check_all check l arg)
          (listing_congr _ (λ i. msg_at q (place q i)) q.num_items
            (λ j h. ap (λ n. msg_at q (place q n)) (omega arith)))
