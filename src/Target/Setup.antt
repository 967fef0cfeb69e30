-- ===== src/Target/Setup.antt =====
-- target.c and timestamp.c: Target_init and TS_init, from the configuration. Compiling a regular
-- expression is the argument `compile`, `none` if it fails; strptime is an argument too.
use ban2fail.CfgMap.Query.{query_last_uint}
use ban2fail.CfgMap.{CfgMap, Tuple, num_tuples, find_tuples, find_last_value}
use ban2fail.Prelude.Int.{ℤ, pos, negsuc}
use ban2fail.Prelude.{
  ℕ, ◌%◌, not, Option, none, some, List, [], ◌∷◌, ◌++◌, ◌==◌, map, if◌then◌else◌,
}
use ban2fail.Stdio.{Text}
use ban2fail.StrMap.{StrMap}
use ban2fail.Target.{Regexec, Target, Tm, Ts}
use ban2fail.Util.{BitTuple, str2bits}

-- `snprintf(symBuf, len, "%s\\%s", pfix, name)`, whose buffer is long enough.
abbrev pub symbol : Text → Text → Text
symbol pfix name = pfix ++ (b'\\' ∷ name)

abbrev pub severity_name : Text
severity_name = b'S' ∷ b'E' ∷ b'V' ∷ b'E' ∷ b'R' ∷ b'I' ∷ b'T' ∷ b'Y' ∷ []

abbrev pub regex_name : Text
regex_name = b'R' ∷ b'E' ∷ b'G' ∷ b'E' ∷ b'X' ∷ []

abbrev pub strptime_name : Text
strptime_name = b'S' ∷ b'T' ∷ b'R' ∷ b'P' ∷ b'T' ∷ b'I' ∷ b'M' ∷ b'E' ∷ []

abbrev pub flags_name : Text
flags_name = b'F' ∷ b'L' ∷ b'A' ∷ b'G' ∷ b'S' ∷ []

-- `FlagsBitTupleArr`
abbrev pub flag_tuples : List BitTuple
flag_tuples =
    record {
      name = b'G' ∷ b'U' ∷ b'E' ∷ b'S' ∷ b'S' ∷ b'_' ∷ b'Y' ∷ b'E' ∷ b'A' ∷ b'R' ∷ [];
      bit = 1;
    }
    ∷ []

-- A target with the patterns that its regular expressions were compiled from
pub record Prepared : Type 0 where
  pub target : Target
  pub patterns : List Text

-- The loop over the patterns
unfoldable pub compile_all : (Text → Option Regexec) → List Text → Option (List Regexec)
compile_all compile [] = some []
compile_all compile (p ∷ ps) = elim (compile p) [
  | none ↦ none
  | some re ↦ elim (compile_all compile ps) [ none ↦ none | some res ↦ some (re ∷ res) ]
]

-- The target, if all its patterns compile
unfoldable pub prepare : (Text → Option Regexec) → ℕ → List Text → Option Prepared
unfolding compile_all
prepare compile severity patterns = elim (compile_all compile patterns) [
  | none ↦ none
  | some res ↦
      some (record { target = record { severity = severity; rx_arr = res }; patterns = patterns })
]

-- What TS_MD5_update reads, and the timestamp
pub record PreparedTs : Type 0 where
  pub ts : Ts
  pub pattern : Text
  pub strptime_fmt : Text
  pub flags : ℕ

-- The flags: 0 if there are none, `none` for an error of `str2bits`
abbrev pub flags_from : ℤ × ℕ → Option ℕ
flags_from (pos n, bits) = some bits
flags_from (negsuc n, bits) = none

unfoldable pub read_ts_flags : Option Text → Option ℕ
read_ts_flags none = some 0
read_ts_flags (some s) = flags_from (str2bits s flag_tuples)

-- What one call of `MD5_Update` is given: the bytes of a number, or of a string
pub data Hashed : Type 0 where
  number : ℕ → Hashed
  string : Text → Hashed

-- `Target_MD5_update`
unfoldable pub target_md5_update : Prepared → List Hashed
target_md5_update self = number self.target.severity ∷ map (λ (p : Text). string p) self.patterns

-- `TS_MD5_update`
unfoldable pub ts_md5_update : PreparedTs → List Hashed
ts_md5_update self = string self.pattern ∷ string self.strptime_fmt ∷ number self.flags ∷ []

module _ {maps : StrMap ℕ} (compile : Text → Option Regexec) where
  -- `Target_init`: `none` for an error
  unfoldable pub target_init : CfgMap maps → Text → Option Prepared × CfgMap maps
  unfolding num_tuples query_last_uint find_tuples prepare
  target_init h_map pfix =
      let (arr_sz, c1) = num_tuples h_map in
      let ((rc, severity), c2) = query_last_uint c1 0 (symbol pfix severity_name) in
      let (tuples, c3) = find_tuples c2 (symbol pfix regex_name) in
      if rc == 0
      then (prepare compile severity (map (λ (t : Tuple). t.value) tuples), c3)
      else (none, c2)

  -- The end of `TS_init`, with the pattern and the format at hand
  unfoldable pub finish_ts :
      (Text → Text → Tm)
      → CfgMap maps
      → Text
      → Text
      → Regexec
      → Text
      → Option PreparedTs × CfgMap maps
  unfolding find_last_value read_ts_flags
  finish_ts strptime h pfix pattern re fmt =
      let (flag_str, counted) = find_last_value h (symbol pfix flags_name) in
      elim (read_ts_flags flag_str) [
        | none ↦ (none, counted)
        | some flags ↦ (
          some (record {
            ts = record { re = re; strptime = strptime fmt; guess_yr = not (flags % 2 == 0) };
            pattern = pattern;
            strptime_fmt = fmt;
            flags = flags;
          }),
          counted,
        )
      ]

  -- `TS_init`
  unfoldable pub ts_init : (Text → Text → Tm) → CfgMap maps → Text → Option PreparedTs × CfgMap maps
  unfolding find_last_value finish_ts
  ts_init strptime h pfix =
      let (found, c1) = find_last_value h (symbol pfix regex_name) in
      elim found [
        | none ↦ (none, c1)
        | some pattern ↦ elim (compile pattern) [
          | none ↦ (none, c1)
          | some re ↦
              let (fmt, c2) = find_last_value c1 (symbol pfix strptime_name) in
              elim fmt [ none ↦ (none, c2) | some f ↦ finish_ts strptime c2 pfix pattern re f ]
        ]
      ]
