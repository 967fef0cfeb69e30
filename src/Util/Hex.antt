-- ===== src/Util/Hex.antt =====
-- Hexadecimal digits are read back as the bytes, and milliseconds come back from a timespec.
use ban2fail.Prelude.{
  ℕ, u32, ◌^◌, ◌+◌, ◌-◌, ◌*◌, ◌/◌, ◌%◌, ◌≤◌, ◌<◌, ◌≡◌, ◌⊎◌, ap₂, refl, arith, inl, inr, Bool-cases,
  none, some, List, [], ◌∷◌, ltb, leb, if◌then◌else◌, length, All,
}
use ban2fail.Stdio.{Text}
use ban2fail.Util.{hex_digit, print_hex, bytes_2_hex_str, timespec2ms, ms2timespec}

-- The value of a digit, and the bytes of a text of digits in pairs
abbrev pub digit_value : ℕ → ℕ
digit_value c = if ltb c b'a' then c - b'0' else c - b'a' + 10

unfoldable pub read_hex : Text → List ℕ
read_hex [] = []
read_hex (c ∷ []) = []
read_hex (c ∷ d ∷ cs) = (digit_value c * 16 + digit_value d) ∷ read_hex cs

digit_value-hex_digit : (d : ℕ) → d < 16 → digit_value (hex_digit d) ≡ d
digit_value-hex_digit d h = ground arith

read_hex-print_hex : (src : List ℕ) → All (λ b. b < 256) src → read_hex (print_hex src) ≡ src
unfolding read_hex print_hex
read_hex-print_hex [] h = refl
read_hex-print_hex (b ∷ src) (h, hs) =
    ap₂ ◌∷◌
      (rw
        (digit_value-hex_digit (b / 16) (omega arith), digit_value-hex_digit (b % 16) (omega arith))
        (omega arith))
      (read_hex-print_hex src hs)

length-print_hex : (src : List ℕ) → length (print_hex src) ≡ length src * 2
unfolding print_hex
length-print_hex [] = omega arith
length-print_hex (b ∷ src) = omega (arith, length-print_hex src)

-- For fewer than 2^31 bytes, bytes_2_hexStr returns NULL just if their digits and one byte more do
-- not fit into the buffer; otherwise it returns a text that fits, and whose digits, read in pairs,
-- are the bytes.
pub bytes_2_hex_str-read_hex :
    (rtn_sz : ℕ) (src : List ℕ)
    → All (λ b. b < 256) src
    → length src < 2 ^ 31
    → ((bytes_2_hex_str rtn_sz src ≡ none) × (rtn_sz ≤ length src * 2))
      ⊎ ((t : Text) × (bytes_2_hex_str rtn_sz src ≡ some t)
          × (length t < rtn_sz)
          × (read_hex t ≡ src))
unfolding bytes_2_hex_str
bytes_2_hex_str-read_hex rtn_sz src h small =
    let plain : length src * 2 % u32 ≡ length src * 2 = omega arith in
    elim (Bool-cases (leb rtn_sz (length src * 2))) [
      | inl e ↦ inl (rw (plain, e) refl, ground arith)
      | inr e ↦
          let n = length-print_hex src in
          let fits : length (print_hex src) < rtn_sz = ground arith in
          inr (print_hex src, rw (plain, e) refl, fits, read_hex-print_hex src h)
    ]

-- `timespec2ms` of `ms2timespec` is the number of milliseconds.
pub timespec2ms-ms2timespec : (ms : ℕ) → timespec2ms (ms2timespec ms) ≡ ms
unfolding timespec2ms ms2timespec
timespec2ms-ms2timespec ms = omega arith
