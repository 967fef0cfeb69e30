-- ===== src/Util.antt =====
-- util.c: names of bits and of enumerated values, bit strings, hexadecimal digits, indentation and
-- milliseconds. The text that they return is what stands in the buffers that they print into.
pub mod Bits
pub mod Hex
use Prim.Native.Nat.{bit_and, bit_or}
use ban2fail.Map.Keys.{key_eq}
use ban2fail.Prelude.Int.{ℤ, pos, negsuc}
use ban2fail.Prelude.{
  ℕ, zero, suc, ◌+◌, ◌*◌, ◌/◌, ◌%◌, ◌^◌, ◌-◌, Bool, Option, none, some, List, [], ◌∷◌, ◌++◌, ◌==◌,
  ltb, leb, if◌then◌else◌, length, u32,
}
use ban2fail.Stdio.{Text, skip_space}

-- `struct bitTuple`; an array of them is a list, without the terminating member.
pub record BitTuple : Type 0 where
  pub name : Text
  pub bit : ℕ

-- The loop of `bits2str`, with `offset` bytes printed before
unfoldable pub print_bits : ℕ → ℕ → List BitTuple → Text
print_bits bits offset [] = []
print_bits bits offset (t ∷ ts) =
    let bar = if offset == 0 then [] else b'|' ∷ [] in
    let printed = bar ++ (t.name ++ print_bits bits (offset + length bar + length t.name) ts) in
    let skipped = print_bits bits offset ts in if bit_and bits t.bit == 0 then skipped else printed

-- `bits2str`, in a buffer of 1024 bytes; `none` where what is printed does not fit, for it is written
-- behind the buffer then.
unfoldable pub bits2str : ℕ → List BitTuple → Option Text
unfolding print_bits
bits2str bits bt_arr =
    let buf = print_bits bits 0 bt_arr in if ltb (length buf) 1024 then some buf else none

-- `findBitTuple`
unfoldable pub find_bit_tuple : Text → List BitTuple → Option BitTuple
find_bit_tuple symbol [] = none
find_bit_tuple symbol (t ∷ ts) = if key_eq symbol t.name then some t else find_bit_tuple symbol ts

-- `%<width>[^|]`
unfoldable pub scan_set : ℕ → Text → Text × Text
scan_set zero s = ([], s)
scan_set (suc width) [] = ([], [])
scan_set (suc width) (c ∷ cs) =
    let (w, rest) = scan_set width cs in if c == b'|' then ([], c ∷ cs) else (c ∷ w, rest)

-- " | " of the format, and what is scanned behind it
unfoldable pub past_bar : (Text → List Text) → Text → List Text
past_bar scan [] = []
past_bar scan (c ∷ cs) = if c == b'|' then scan (skip_space cs) else []

-- The end of a conversion, which needs one character
unfoldable pub scanned : (Text → List Text) → Text × Text → List Text
unfolding past_bar
scanned scan ([], rest) = []
scanned scan (c ∷ w, rest) = (c ∷ w) ∷ past_bar scan (skip_space rest)

-- The call of `sscanf` in `str2bits`: what it puts into `symbolArr`
unfoldable pub scan_symbols : ℕ → Text → List Text
unfolding scanned scan_set
scan_symbols zero s = []
scan_symbols (suc n) s = scanned (λ (t : Text). scan_symbols n t) (scan_set 59 s)

-- The loop of `str2bits`: the result, and what is in `*rtnBuf`
unfoldable pub or_symbols : List BitTuple → List Text → ℕ → ℤ × ℕ
unfolding find_bit_tuple
or_symbols bt_arr [] bits = (pos 0, bits)
or_symbols bt_arr (s ∷ ss) bits = elim (find_bit_tuple s bt_arr) [
  | none ↦ (negsuc 0, bits)
  | some t ↦ or_symbols bt_arr ss (bit_or bits t.bit)
]

-- `str2bits`
unfoldable pub str2bits : Text → List BitTuple → ℤ × ℕ
unfolding or_symbols scan_symbols
str2bits [] bt_arr = (pos 0, 0)
str2bits (c ∷ cs) bt_arr = or_symbols bt_arr (scan_symbols 20 (c ∷ cs)) 0

-- `struct enumTuple`
pub record EnumTuple : Type 0 where
  pub name : Text
  pub enum_val : ℕ

-- `str2enum`
unfoldable pub str2enum : Text → List EnumTuple → Option EnumTuple
str2enum str [] = none
str2enum str (t ∷ ts) = if key_eq str t.name then some t else str2enum str ts

-- `enum2str`
unfoldable pub enum2str : ℕ → List EnumTuple → Option Text
enum2str enum_val [] = none
enum2str enum_val (t ∷ ts) = if enum_val == t.enum_val then some t.name else enum2str enum_val ts

-- `strbits`: the inner loop looks at the bits below `bit`.
unfoldable pub print_byte : ℕ → ℕ → Text
print_byte byte zero = []
print_byte byte (suc bit) = (if byte / 2 ^ bit % 2 == 0 then b'0' else b'1') ∷ print_byte byte bit

unfoldable pub strbits : ℕ → ℕ → Text
unfolding print_byte
strbits bits zero = []
strbits bits (suc n) = print_byte (bits / 2 ^ (8 * n) % 256) 7 ++ strbits bits n

-- "%02x"
abbrev pub hex_digit : ℕ → ℕ
hex_digit d = if ltb d 10 then b'0' + d else b'a' + (d - 10)

unfoldable pub print_hex : List ℕ → Text
print_hex [] = []
print_hex (byte ∷ src) = hex_digit (byte / 16) ∷ hex_digit (byte % 16) ∷ print_hex src

-- `bytes_2_hexStr`; `none` for NULL.
unfoldable pub bytes_2_hex_str : ℕ → List ℕ → Option Text
unfolding print_hex
bytes_2_hex_str rtn_sz src =
    if leb rtn_sz (length src * 2 % u32) then none else some (print_hex src)

-- `timespec2ms` and `ms2timespec`, of times that are not negative
unfoldable pub timespec2ms : ℕ × ℕ → ℕ
timespec2ms (tv_sec, tv_nsec) = tv_sec * 1000 + tv_nsec / 1000000

unfoldable pub ms2timespec : ℕ → ℕ × ℕ
ms2timespec ms = (ms / 1000, ms % 1000 * 1000000)

-- `indentStr`: the loop from `i` on, in a buffer of 128 bytes
unfoldable pub indent_from : ℕ → ℕ → Text → Text
indent_from i zero pfix = []
indent_from i (suc left) pfix =
    let more = indent_from (i + 1) left pfix in
    if ltb ((i + 1) * length pfix) 128 then pfix ++ more else []

unfoldable pub indent_str : ℕ → Text → Text
unfolding indent_from
indent_str lvl pfix = indent_from 0 lvl pfix
