-- ===== src/Stdio/Digits.antt =====
-- What is printed is read back.
use ban2fail.Prelude.{
  ℕ, zero, suc, ◌+◌, ◌-◌, ◌*◌, ◌/◌, ◌%◌, ◌≤◌, ◌<◌, ◌≡◌, ◌∙◌, ap, sym, refl, arith, inl, inr, true,
  false, Bool-cases, ltb, ◌==◌, [], ◌∷◌, ◌++◌, append_assoc, some, none, u32, u64, All, length,
}
use ban2fail.Prelude.Int.{ℤ, pos, negsuc}
use ban2fail.Stdio.{
  Text, is_digit, is_space, print_digits, print_unsigned, print_signed, skip_space, read_digits,
  need_digits, read_sign, scan_unsigned, scan_signed, unsigned_value, signed_value, read_word,
  some_word, scan_word, get_line,
}

-- The text goes on with something that is no digit.
abbrev pub NoDigit : Text → Type 0
NoDigit [] = Unit
NoDigit (c ∷ cs) = is_digit c ≡ false

print-first :
    (fuel n : ℕ) (r : Text)
    → n < fuel
    → (c : ℕ) × (t : Text) × (print_digits fuel n ++ r ≡ c ∷ t) × (b'0' ≤ c) × (c ≤ b'9')
unfolding print_digits
print-first zero n r h = absurd (omega arith)
print-first (suc fuel) n r h = elim (Bool-cases (ltb n 10)) [
  | inl e ↦ rw e (b'0' + n, r, refl, omega arith, ground arith)
  | inr e ↦
      rw (e, append_assoc (print_digits fuel (n / 10)) ((b'0' + n % 10) ∷ []) r)
        (print-first fuel (n / 10) ((b'0' + n % 10) ∷ r) (ground arith))
]

read_digits-print :
    (fuel n : ℕ) (r : Text) → n < fuel → read_digits 0 (print_digits fuel n ++ r) ≡ read_digits n r
unfolding print_digits read_digits
read_digits-print zero n r h = absurd (omega arith)
read_digits-print (suc fuel) n r h = elim (Bool-cases (ltb n 10)) [
  | inl e ↦
      let d : is_digit (b'0' + n) ≡ true = ground arith in
      let v : 0 * 10 + (b'0' + n - b'0') ≡ n = omega arith in rw (e, d, v)
  | inr e ↦
      let d : is_digit (b'0' + n % 10) ≡ true = ground arith in
      let v : n / 10 * 10 + (b'0' + n % 10 - b'0') ≡ n = omega arith in
      rw (
        e,
        append_assoc (print_digits fuel (n / 10)) ((b'0' + n % 10) ∷ []) r,
        read_digits-print fuel (n / 10) ((b'0' + n % 10) ∷ r) (ground arith),
        d,
        v,
      )
]

read_digits-stop : (n : ℕ) (r : Text) → NoDigit r → read_digits n r ≡ (n, r)
unfolding read_digits
read_digits-stop n [] h = refl
read_digits-stop n (c ∷ r) h = rw h

need_digits-digit :
    (c : ℕ) (t : Text) → is_digit c ≡ true → need_digits (c ∷ t) ≡ some (read_digits 0 (c ∷ t))
unfolding need_digits
need_digits-digit c t h = rw h

-- In front of a printed number there is neither white space nor a sign.
starts :
    (n : ℕ) (r : Text)
    → read_sign (skip_space (print_unsigned n ++ r)) ≡ (false, print_unsigned n ++ r)
unfolding print_unsigned skip_space read_sign
starts n r =
    let (c, t, e, lo, hi) = print-first (n + 1) n r (omega arith) in
    let a : is_space c ≡ false = ground arith in
    let b : (c == b'-') ≡ false = ground arith in
    let d : (c == b'+') ≡ false = ground arith in rw (e, a, b, d)

need_digits-print :
    (n : ℕ) (r : Text) → NoDigit r → need_digits (print_unsigned n ++ r) ≡ some (n, r)
unfolding print_unsigned
need_digits-print n r h =
    let (c, t, e, lo, hi) = print-first (n + 1) n r (omega arith) in
    ap need_digits e
    ∙ need_digits-digit c t (ground arith)
    ∙ ap some (
        ap (read_digits 0) (sym e)
        ∙ read_digits-print (n + 1) n r (omega arith)
        ∙ read_digits-stop n r h)

-- `%u` reads back what `%u` printed of a value of 32 bits.
pub scan_unsigned-print :
    (n : ℕ) (r : Text) → n < u32 → NoDigit r → scan_unsigned (print_unsigned n ++ r) ≡ some (n, r)
unfolding scan_unsigned
scan_unsigned-print n r h d =
    ap unsigned_value (starts n r)
    ∙ rw (need_digits-print n r d, unsigned_value) (ap (λ v. some (v, r)) (omega arith))

pub scan_unsigned-space : (r : Text) → scan_unsigned (32 ∷ r) ≡ scan_unsigned r
unfolding scan_unsigned skip_space
scan_unsigned-space r = refl

abbrev pub IsInt64 : ℤ → Type 0
IsInt64 (pos n) = n < u64 / 2
IsInt64 (negsuc n) = n < u64 / 2

minus : (s : Text) → read_sign (skip_space (b'-' ∷ s)) ≡ (true, s)
unfolding read_sign skip_space
minus s = refl

-- `%lld` reads back what `%lld` printed of a value of 64 bits.
pub scan_signed-print :
    (z : ℤ) (r : Text) → IsInt64 z → NoDigit r → scan_signed (print_signed z ++ r) ≡ some (z, r)
unfolding scan_signed print_signed
scan_signed-print (pos n) r h d =
    ap signed_value (starts n r)
    ∙ rw (need_digits-print n r d, signed_value) (ap (λ v. some (pos v, r)) (omega arith))
scan_signed-print (negsuc n) r h d =
    let p : ltb 0 (n + 1) ≡ true = ground arith in
    ap signed_value (minus (print_unsigned (n + 1) ++ r))
    ∙ rw (need_digits-print (n + 1) r d, signed_value, p)
        (ap (λ v. some (negsuc v, r)) (omega arith))

pub scan_signed-space : (r : Text) → scan_signed (32 ∷ r) ≡ scan_signed r
unfolding scan_signed skip_space
scan_signed-space r = refl

-- A byte of a word.
abbrev pub InWord : ℕ → Type 0
InWord c = is_space c ≡ false

-- The text goes on with white space, or ends.
abbrev pub NoWord : Text → Type 0
NoWord [] = Unit
NoWord (c ∷ cs) = is_space c ≡ true

read_word-eq :
    (width : ℕ) (w r : Text)
    → All InWord w
    → length w ≤ width
    → NoWord r
    → read_word width (w ++ r) ≡ (w, r)
unfolding read_word
read_word-eq zero [] r a h n = refl
read_word-eq zero (c ∷ w) r a h n = absurd (omega arith)
read_word-eq (suc width) [] [] a h n = refl
read_word-eq (suc width) [] (c ∷ r) a h n = rw n
read_word-eq (suc width) (c ∷ w) r (a, as_) h n = rw (a, read_word-eq width w r as_ (omega arith) n)

-- `%s` reads a word of the width at most, behind one blank.
pub scan_word-word :
    (width c : ℕ) (w r : Text)
    → All InWord (c ∷ w)
    → suc (length w) ≤ width
    → NoWord r
    → scan_word width (32 ∷ c ∷ w ++ r) ≡ some (c ∷ w, r)
unfolding scan_word skip_space
scan_word-word width c w r a h n = rw (a.0) (ap some_word (read_word-eq width (c ∷ w) r a h n))

-- Only white space is no word.
pub scan_word-end : (width : ℕ) → scan_word width (32 ∷ 10 ∷ []) ≡ none
unfolding scan_word read_word skip_space
scan_word-end zero = refl
scan_word-end (suc width) = refl

-- `fgets` takes a line that it has room for, and leaves the rest.
pub get_line-line :
    (room : ℕ) (l r : Text)
    → All (λ c. (c == 10) ≡ false) l
    → length l < room
    → get_line room (l ++ (10 ∷ r)) ≡ (l ++ (10 ∷ []), r)
unfolding get_line
get_line-line zero l r a h = absurd (omega arith)
get_line-line (suc room) [] r a h = refl
get_line-line (suc room) (c ∷ l) r (a, as_) h = rw (a, get_line-line room l r as_ (omega arith))
