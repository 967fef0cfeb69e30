-- ===== src/MaxOff/Config.antt =====
-- `MAXOFF_init` of maxoff.c from a configuration: what CFGMAP finds, and `sscanf` reads, of a block
-- MAX_OFFENSES.
pub mod Blocks
use ban2fail.CfgMap.Query.{to_int}
use ban2fail.CfgMap.{CfgMap, Tuple, num_tuples, find_tuples}
use ban2fail.MaxOff.{Limits, IpEntry, neither, address, cidr, init}
use ban2fail.Prelude.Int.{ℤ, pos}
use ban2fail.Prelude.{
  ℕ, zero, suc, Bool, true, false, ◌&&◌, ◌||◌, Option, none, some, List, [], ◌∷◌, ◌++◌, map, ◌==◌,
  leb, if◌then◌else◌,
}
use ban2fail.Stdio.{Text, scan_unsigned, scan_signed}
use ban2fail.StrMap.{StrMap}

-- `[0-9a-zA-Z:.]`
abbrev pub is_addr_char : ℕ → Bool
is_addr_char c =
    (leb b'0' c && leb c b'9')
    || (leb b'a' c && leb c b'z')
    || (leb b'A' c && leb c b'Z')
    || c == b':'
    || c == b'.'

-- The conversion, of at most `width` characters
unfoldable pub scan_addr : ℕ → Text → Text × Text
scan_addr zero s = ([], s)
scan_addr (suc width) [] = ([], [])
scan_addr (suc width) (c ∷ cs) =
    let (w, rest) = scan_addr width cs in if is_addr_char c then (c ∷ w, rest) else ([], c ∷ cs)

-- A dot of the format, and the number behind it
unfoldable pub dot_then : Text → Option (ℕ × Text)
dot_then [] = none
dot_then (c ∷ cs) = if c == b'.' then scan_unsigned cs else none

-- "%u.%u.%u.%u", for an address with a number of bits. Where it does not match, there is an error, or
-- an assertion ends the program.
unfoldable pub scan_quads : Text → ℕ → IpEntry
unfolding dot_then
scan_quads addr bits = elim (scan_unsigned addr) [
  | none ↦ neither
  | some (q1, r1) ↦ elim (dot_then r1) [
    | none ↦ neither
    | some (q2, r2) ↦ elim (dot_then r2) [
      | none ↦ neither
      | some (q3, r3) ↦ elim (dot_then r3) [
        | none ↦ neither
        | some (q4, r4) ↦ cidr addr bits q1 q2 q3 q4
      ]
    ]
  ]
]

-- "/%u" of the format: the address stands alone, or with a number of bits.
unfoldable pub scan_bits : Text → Text → IpEntry
unfolding scan_quads
scan_bits addr [] = address addr
scan_bits addr (c ∷ cs) =
    if c == b'/'
    then (elim (scan_unsigned cs) [
      | none ↦ address addr
      | some (bits, rest) ↦ scan_quads addr bits
    ])
    else address addr

unfoldable pub some_addr : Text × Text → IpEntry
unfolding scan_bits
some_addr ([], rest) = neither
some_addr (c ∷ w, rest) = scan_bits (c ∷ w) rest

-- `sscanf(tpl->value, "%42[0-9a-zA-Z:.]/%u", addr, &bits)`, and the quads
unfoldable pub scan_ip : Text → IpEntry
unfolding scan_addr some_addr
scan_ip v = some_addr (scan_addr 42 v)

-- `strrchr(pfix, '\\') + 1`; `none` where there is no backslash.
unfoldable pub after_last : Text → Option Text
after_last [] = none
after_last (c ∷ cs) = elim (after_last cs) [
  | none ↦ if c == b'\\' then some cs else none
  | some w ↦ some w
]

unfoldable pub allowed_of : Text → Option ℤ
unfolding after_last
allowed_of pfix = elim (after_last pfix) [
  | none ↦ none
  | some str ↦ elim (scan_signed str) [ none ↦ none | some (n, rest) ↦ some (to_int n) ]
]

abbrev pub ip_symbol : Text → Text
ip_symbol pfix = pfix ++ (b'\\' ∷ b'I' ∷ b'P' ∷ [])

abbrev pub country_symbol : Text → Text
country_symbol pfix = pfix ++ (b'\\' ∷ b'C' ∷ b'O' ∷ b'U' ∷ b'N' ∷ b'T' ∷ b'R' ∷ b'Y' ∷ [])

module _ {config : StrMap ℕ} {maps : StrMap ℤ} where
  -- `MAXOFF_init`; the lookups are done first here, and the state is the one after all of them.
  unfoldable pub init_block :
      CfgMap config → Text → Limits maps → Option (Limits maps) × CfgMap config
  unfolding scan_ip allowed_of init num_tuples find_tuples
  init_block h_cfgmap pfix s =
      let (arr_sz, c1) = num_tuples h_cfgmap in
      let (ips, c2) = find_tuples c1 (ip_symbol pfix) in
      let (countries, c3) = find_tuples c2 (country_symbol pfix) in
      (init (allowed_of pfix) (map (λ t. scan_ip t.value) ips) (map (λ t. t.value) countries) s, c3)
