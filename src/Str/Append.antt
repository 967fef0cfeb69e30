-- ===== src/Str/Append.antt =====
-- STR_append: the loop ends, and the text is there or the error is reported.
use ban2fail.Prelude.{
  ℕ, zero, suc, ◌+◌, ◌*◌, ◌/◌, ◌%◌, ◌^◌, ◌≤◌, ◌<◌, ◌≡◌, ◌⊎◌, ◌∙◌, ap, refl, arith, inl, inr, Bool,
  false, Bool-cases, some, [], ◌∷◌, ◌++◌, leb, length, length-append, u64,
}
use ban2fail.Stdio.{Text}
use native.Mathlib.Nat.{mul-le-mul_left}
use ban2fail.Str.{Str, grow_from, growbuf, make_room, write, append, putc}

-- The text and its NUL fit, and a tenth of the size is at least one byte.
pub record IsValid (self : Str) : Type 0 where
  pub roomy : 10 ≤ self.sz
  pub small : self.sz < 2 ^ 59
  pub fits : length self.text < self.sz

tenth :
    (p sz : ℕ)
    → sz * 11 ≤ p
    → p ≤ sz * 20
    → 10 ≤ sz
    → sz < 2 ^ 59
    → (sz < p % u64 / 10) × (p % u64 / 10 ≤ sz * 2)
tenth p sz a b c d = omega arith

module _ (grants : ℕ → Bool) where
  -- Growth is by at least one byte and at most twofold.
  grow_from-grows :
      (left sz : ℕ)
      → left ≤ 10
      → 10 ≤ sz
      → sz < 2 ^ 59
      → let (rtn, new_sz) = grow_from grants left sz in
        ((rtn ≡ 0) × (sz < new_sz) × (new_sz ≤ sz * 2)) ⊎ ((rtn ≡ 1) × (new_sz ≡ sz))
  unfolding grow_from
  grow_from-grows zero sz l a b = inr (refl, refl)
  grow_from-grows (suc left) sz l a b =
      let new_sz = sz * (suc left + 10) % u64 / 10 in
      elim (Bool-cases (grants new_sz)) [
        | inl e ↦
            let t =
              tenth (sz * (suc left + 10)) sz
                (mul-le-mul_left {m = 11} {n = suc left + 10} sz (omega arith))
                (mul-le-mul_left {m = suc left + 10} {n = 20} sz (omega arith)) a b in
            rw e (inl (refl, t.0, t.1))
        | inr e ↦ rw e (grow_from-grows left sz (omega arith) a b)
      ]

  grow_from-refused :
      (left sz : ℕ) → (grow_from grants (suc left) sz).0 ≡ 1 → (n : ℕ) × (grants n ≡ false)
  unfolding grow_from
  grow_from-refused left sz h =
      let n = sz * (suc left + 10) % u64 / 10 in
      elim (Bool-cases (grants n)) [
        | inl e ↦ let k : 0 ≡ 1 = rw (e, grow_from) at h in absurd (omega (arith, k))
        | inr e ↦ (n, e)
      ]

  growbuf-refused : (self : Str) → (growbuf grants self).0 ≡ 1 → (n : ℕ) × (grants n ≡ false)
  unfolding growbuf
  growbuf-refused self h = grow_from-refused 9 self.sz h

  growbuf-grows :
      (self : Str)
      → IsValid self
      → let (rtn, w) = growbuf grants self in
        (w.text ≡ self.text)
        × (((rtn ≡ 0) × (self.sz < w.sz) × (w.sz ≤ self.sz * 2)) ⊎ ((rtn ≡ 1) × (w.sz ≡ self.sz)))
  unfolding growbuf
  growbuf-grows self valid =
      (refl, grow_from-grows 10 self.sz (omega arith) valid.roomy valid.small)

  -- What the loop leaves: room for `n` more bytes and one, or an error after a refusal.
  record Roomy (n : ℕ) (self : Str) (out : ℕ × Str) : Type 0 where
    valid : IsValid out.1
    same : out.1.text ≡ self.text
    larger : self.sz ≤ out.1.sz
    outcome :
        ((out.0 ≡ 0) × (length self.text + n < out.1.sz))
        ⊎ ((out.0 ≡ 1) × ((k : ℕ) × (grants k ≡ false)))

  make_room-Roomy :
      (fuel n : ℕ) (self : Str)
      → IsValid self
      → length self.text + n < 2 ^ 58
      → 1 ≤ fuel
      → length self.text + n + 2 ≤ self.sz + fuel
      → (out : ℕ × Str) × (make_room grants fuel n self ≡ some out) × Roomy n self out
  unfolding make_room
  make_room-Roomy zero n self valid few h k = absurd (omega arith)
  make_room-Roomy (suc fuel) n self valid few h k =
      elim (Bool-cases (leb self.sz (length self.text + n))) [
        | inr e ↦ rw e (
          (0, self),
          refl,
          record {
            valid = valid;
            same = refl;
            larger = omega arith;
            outcome = inl (refl, ground arith);
          },
        )
        | inl e ↦
            let tight : self.sz ≤ length self.text + n = ground arith in
            let (text, cases) = growbuf-grows self valid in
            let w = (growbuf grants self).1 in
            elim cases [
              | inr (r, size) ↦
                  rw (e, r)
                    (
                      (1, w),
                      refl,
                      record {
                        valid = record {
                          roomy = omega (arith, valid.roomy);
                          small = omega (arith, valid.small);
                          fits = rw text (omega (arith, valid.fits));
                        };
                        same = text;
                        larger = omega arith;
                        outcome = inr (refl, growbuf-refused self r);
                      },
                    )
              | inl (r, more, twice) ↦
                  let ok : IsValid w = record {
                    roomy = omega (arith, valid.roomy);
                    small = omega arith;
                    fits = rw text (omega (arith, valid.fits));
                  } in
                  let count : length w.text ≡ length self.text = ap length text in
                  let (out, run, rest) =
                    make_room-Roomy fuel n w ok (omega arith) (omega arith) (omega arith) in
                  rw (e, r)
                    (
                      out,
                      run,
                      record {
                        valid = rest.valid;
                        same = rest.same ∙ text;
                        larger = omega (arith, rest.larger);
                        outcome = elim rest.outcome [
                          | inl (z, room) ↦ inl (z, omega arith)
                          | inr p ↦ inr p
                        ];
                      },
                    )
            ]
      ]

  -- The outcomes of an appending.
  pub record Appended (self : Str) (str : Text) (out : ℕ × Str) : Type 0 where
    pub valid : IsValid out.1
    pub larger : self.sz ≤ out.1.sz
    pub outcome :
        ((out.0 ≡ 0) × (out.1.text ≡ self.text ++ str))
        ⊎ ((out.0 ≡ 1) × (out.1.text ≡ self.text) × ((k : ℕ) × (grants k ≡ false)))

  write-Appended :
      (fuel need : ℕ) (self : Str) (str : Text)
      → length str ≤ need
      → IsValid self
      → length self.text + need < 2 ^ 58
      → 1 ≤ fuel
      → length self.text + need + 2 ≤ self.sz + fuel
      → (out : ℕ × Str) × (write grants fuel need self str ≡ some out) × Appended self str out
  unfolding write
  write-Appended fuel need self str fits valid few h k =
      let (out, run, room) = make_room-Roomy fuel need self valid few h k in
      elim room.outcome [
        | inr (r, refused) ↦
            rw (run, write, r)
              (
                (1, out.1),
                refl,
                record {
                  valid = room.valid;
                  larger = room.larger;
                  outcome = inr (refl, room.same, refused);
                },
              )
        | inl (r, free) ↦
            let w = record out.1 { text = out.1.text ++ str } in
            rw (run, write, r)
              (
                (0, w),
                refl,
                record {
                  valid = record {
                    roomy = room.valid.roomy;
                    small = room.valid.small;
                    fits = omega (arith, length-append out.1.text str, ap length room.same);
                  };
                  larger = room.larger;
                  outcome = inl (refl, ap (λ t. t ++ str) room.same);
                },
              )
      ]

  -- STR_append on a valid buffer, whose text will stay below 2^57 bytes, ends within as many turns
  -- of its loop as bytes are missing: it puts the text behind the one that is there and returns 0,
  -- or it returns 1 after a refused allocation and leaves the text. The buffer stays valid.
  pub append-Appended :
      (fuel : ℕ) (self : Str) (str : Text)
      → IsValid self
      → length self.text + length str < 2 ^ 57
      → 1 ≤ fuel
      → length self.text + length str + 3 ≤ self.sz + fuel
      → (out : ℕ × Str) × (append grants fuel self str ≡ some out) × Appended self str out
  unfolding append
  append-Appended fuel self str valid few h k =
      write-Appended fuel (length str + 1) self str (omega arith) valid (omega arith) h
        (omega arith)

  pub putc-Appended :
      (fuel : ℕ) (self : Str) (c : ℕ)
      → IsValid self
      → length self.text < 2 ^ 57
      → 1 ≤ fuel
      → length self.text + 3 ≤ self.sz + fuel
      → (out : ℕ × Str) × (putc grants fuel self c ≡ some out) × Appended self (c ∷ []) out
  unfolding putc
  putc-Appended fuel self c valid few h k =
      write-Appended fuel 1 self (c ∷ []) (omega arith) valid (omega arith) h (omega arith)
