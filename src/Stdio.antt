-- ===== src/Stdio.antt =====
-- The parts of C's stdio that ban2fail writes and reads its cache files by: `%u`, `%lld` and `%s`
-- of printf and scanf, and fgets. Text is a list of bytes without 0.
pub mod Digits
use ban2fail.Prelude.{
  ℕ, zero, suc, ◌+◌, ◌-◌, ◌*◌, ◌/◌, ◌%◌, min, Bool, true, false, ◌&&◌, ◌||◌, Option, none, some,
  List, [], ◌∷◌, ◌++◌, ltb, leb, ◌==◌, if◌then◌else◌, u32, u64,
}
use ban2fail.Prelude.Int.{ℤ, pos, negsuc}

abbrev pub Text : Type 0
Text = List ℕ

abbrev pub is_digit : ℕ → Bool
is_digit c = leb b'0' c && leb c b'9'

-- `isspace`: blank, tab, newline, vertical tab, form feed, carriage return
abbrev pub is_space : ℕ → Bool
is_space c = c == 32 || (leb 9 c && leb c 13)

-- `%u`, with fuel for the digits.
unfoldable pub print_digits : ℕ → ℕ → Text
print_digits zero n = []
print_digits (suc fuel) n =
    let rest = print_digits fuel (n / 10) ++ ((b'0' + n % 10) ∷ []) in
    if ltb n 10 then (b'0' + n) ∷ [] else rest

unfoldable pub print_unsigned : ℕ → Text
unfolding print_digits
print_unsigned n = print_digits (n + 1) n

-- `%lld`
unfoldable pub print_signed : ℤ → Text
print_signed (pos n) = print_unsigned n
print_signed (negsuc n) = b'-' ∷ print_unsigned (n + 1)

unfoldable pub skip_space : Text → Text
skip_space [] = []
skip_space (c ∷ cs) = if is_space c then skip_space cs else c ∷ cs

-- The digits in front of the text, read onto `n`.
unfoldable pub read_digits : ℕ → Text → ℕ × Text
read_digits n [] = (n, [])
read_digits n (c ∷ cs) =
    let more = read_digits (n * 10 + (c - b'0')) cs in if is_digit c then more else (n, c ∷ cs)

unfoldable pub need_digits : Text → Option (ℕ × Text)
unfolding read_digits
need_digits [] = none
need_digits (c ∷ cs) = if is_digit c then some (read_digits 0 (c ∷ cs)) else none

-- A number with an optional sign behind white space: whether it is negative, and its digits.
unfoldable pub read_sign : Text → Bool × Text
read_sign [] = (false, [])
read_sign (c ∷ cs) =
    if c == b'-' then (true, cs) else if c == b'+' then (false, cs) else (false, c ∷ cs)

-- `%u`: the value is read as an `unsigned long`, which stops at its largest value, and cut to 32
-- bits; a sign is allowed and negates it.
unfoldable pub unsigned_value : Bool × Text → Option (ℕ × Text)
unsigned_value (negative, t) = elim (need_digits t) [
  | none ↦ none
  | some (n, rest) ↦
      some (if negative && ltb n u64 then (u64 - n) % u32 else min n (u64 - 1) % u32, rest)
]

unfoldable pub scan_unsigned : Text → Option (ℕ × Text)
unfolding unsigned_value
scan_unsigned s = unsigned_value (read_sign (skip_space s))

-- `%lld`: stops at the ends of the range of 64 bits.
unfoldable pub signed_value : Bool × Text → Option (ℤ × Text)
signed_value (negative, t) = elim (need_digits t) [
  | none ↦ none
  | some (n, rest) ↦ some (
    if negative && ltb 0 n then negsuc (min n (u64 / 2) - 1) else pos (min n (u64 / 2 - 1)),
    rest,
  )
]

unfoldable pub scan_signed : Text → Option (ℤ × Text)
unfolding signed_value
scan_signed s = signed_value (read_sign (skip_space s))

-- Up to `width` bytes that are no white space.
unfoldable pub read_word : ℕ → Text → Text × Text
read_word zero s = ([], s)
read_word (suc width) [] = ([], [])
read_word (suc width) (c ∷ cs) =
    let (w, rest) = read_word width cs in if is_space c then ([], c ∷ cs) else (c ∷ w, rest)

unfoldable pub some_word : Text × Text → Option (Text × Text)
some_word ([], rest) = none
some_word (c ∷ w, rest) = some (c ∷ w, rest)

-- `%<width>s`: there is no match of no bytes.
unfoldable pub scan_word : ℕ → Text → Option (Text × Text)
unfolding some_word
scan_word width s = some_word (read_word width (skip_space s))

-- `fgets(buf, room + 1, fh)`: the text up to and with the next newline, at most `room` bytes.
unfoldable pub get_line : ℕ → Text → Text × Text
get_line zero s = ([], s)
get_line (suc room) [] = ([], [])
get_line (suc room) (c ∷ cs) =
    let (l, rest) = get_line room cs in if c == 10 then (c ∷ [], cs) else (c ∷ l, rest)
