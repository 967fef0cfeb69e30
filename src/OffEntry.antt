-- ===== src/OffEntry.antt =====
-- offEntry.c: the record of one address that offended, and its line in a cache file. The country of
-- an address comes from GeoIP and is the argument `country` (`none` for NULL). The dns part, which
-- PDNS_lookup fills in, is zero in a new entry and is not written to the cache.
pub mod Cache
pub mod Registry
pub mod Locate
pub mod Merge
use ban2fail.Prelude.{
  ℕ, zero, suc, ◌+◌, ◌%◌, Bool, Option, none, some, List, [], ◌∷◌, ◌++◌, ltb, if◌then◌else◌, take,
  max, u32, add32,
}
use ban2fail.Prelude.Int.{ℤ, pos, ltb_ℤ}
use ban2fail.Stdio.{
  Text, print_unsigned, print_signed, scan_unsigned, scan_signed, scan_word, get_line,
}

-- `OFFENTRY`
pub record OffEntry : Type 0 where
  pub count : ℕ
  pub severity : ℕ
  pub latest : ℤ
  pub addr : Text
  pub cntry : Text
  pub dns_flags : ℕ
  pub dns_name : Option Text

-- `common_constructor`
abbrev pub zeroed : OffEntry
zeroed = record {
  count = 0;
  severity = 0;
  latest = pos 0;
  addr = [];
  cntry = [];
  dns_flags = 0;
  dns_name = none;
}

-- `strncpy` into zeroed fields of 46 and 3 bytes.
unfoldable pub addr_constructor : (Text → Option Text) → Text → OffEntry
addr_constructor country addr =
    let a = take 45 addr in
    elim (country a) [
      | none ↦ record zeroed { addr = a }
      | some code ↦ record zeroed { addr = a; cntry = take 2 code }
    ]

-- The conversions of `sscanf` in order. The entry that has been filled so far goes from one to the
-- next; a failure before the fourth is an error, the country may be missing.
unfoldable pub cache_constructor : Text → Option OffEntry
cache_constructor line = elim (scan_unsigned line) [
  | none ↦ none
  | some (n, t) ↦ elim (scan_unsigned t) [
    | none ↦ none
    | some (sev, t₂) ↦ elim (scan_signed t₂) [
      | none ↦ none
      | some (ll, t₃) ↦ elim (scan_word 45 t₃) [
        | none ↦ none
        | some (a, t₄) ↦
            let e : OffEntry = record zeroed { count = n; severity = sev; latest = ll; addr = a } in
            elim (scan_word 2 t₄) [ none ↦ some e | some (c, t₅) ↦ some (record e { cntry = c }) ]
      ]
    ]
  ]
]

-- `OFFENTRY_register`
unfoldable pub register : OffEntry → ℕ → ℤ → OffEntry
register e severity when = record e {
  count = add32 e.count 1;
  severity = if ltb e.severity severity then severity else e.severity;
  latest = if ltb_ℤ e.latest when then when else e.latest;
}

-- The line that `OFFENTRY_cacheWrite` prints.
unfoldable pub cache_write : OffEntry → Text
cache_write e =
    print_unsigned e.count
    ++ (32
        ∷ (print_unsigned e.severity
            ++ (32 ∷ (print_signed e.latest ++ (32 ∷ (e.addr ++ (32 ∷ (e.cntry ++ (10 ∷ [])))))))))

-- `OFFENTRY_map_addr` once the entry of the address in the map is at hand: the counts of `self` are
-- added to it.
unfoldable pub absorb : OffEntry → OffEntry → OffEntry
absorb e self = record e {
  count = add32 e.count self.count;
  severity = if ltb e.severity self.severity then self.severity else e.severity;
  latest = if ltb_ℤ e.latest self.latest then self.latest else e.latest;
}

-- `OFFENTRY_offenseCount`
unfoldable pub offense_count : OffEntry → ℕ → ℕ
offense_count self sum = add32 sum self.count
