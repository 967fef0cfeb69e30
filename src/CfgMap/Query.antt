-- ===== src/CfgMap/Query.antt =====
-- The queries of cfgmap.c: a value looked up and read as a number, a flag, a name or a string. Each
-- answers with its result, what is in `*pRtn` then, and the configuration with its lookup counted.
pub mod Answers
use ban2fail.CfgMap.Scan.{extract_string}
use ban2fail.CfgMap.{CfgMap, find_single_value, find_last_value}
use ban2fail.Map.Keys.{key_eq}
use ban2fail.Prelude.Int.{ℤ, pos, negsuc}
use ban2fail.Prelude.{
  ℕ, suc, ◌+◌, ◌-◌, ◌*◌, ◌%◌, ◌^◌, Bool, true, false, not, ◌&&◌, ◌||◌, Option, none, some, List, [],
  ◌∷◌, ◌==◌, ltb, leb, if◌then◌else◌, length, u32,
}
use ban2fail.Stdio.{Text, scan_unsigned, scan_signed}
use ban2fail.StrMap.{StrMap}
use ban2fail.Util.{BitTuple, str2bits, EnumTuple, str2enum}

-- A missing value leaves the default.
abbrev pub answer {ℓ} : {A : Type ℓ} → Option Text → A → (Text → ℕ × A) → ℕ × A
answer none dflt read = (0, dflt)
answer (some v) dflt read = read v

-- `sscanf(val, "%u", pRtn)`
unfoldable pub read_uint : ℕ → Text → ℕ × ℕ
read_uint dflt v = elim (scan_unsigned v) [ none ↦ (1, dflt) | some (n, rest) ↦ (0, n) ]

-- The low 32 bits as an `int`
abbrev pub int_of : ℕ → ℤ
int_of m = if ltb m (2 ^ 31) then pos m else negsuc (u32 - 1 - m)

abbrev pub to_int : ℤ → ℤ
to_int (pos n) = int_of (n % u32)
to_int (negsuc n) = int_of (u32 - 1 - n % u32)

-- `sscanf(val, "%d", pRtn)`
unfoldable pub read_int : ℤ → Text → ℕ × ℤ
read_int dflt v = elim (scan_signed v) [ none ↦ (1, dflt) | some (n, rest) ↦ (0, to_int n) ]

abbrev yes_word : Text
yes_word = b'y' ∷ b'e' ∷ b's' ∷ []

abbrev true_word : Text
true_word = b't' ∷ b'r' ∷ b'u' ∷ b'e' ∷ []

abbrev no_word : Text
no_word = b'n' ∷ b'o' ∷ []

abbrev false_word : Text
false_word = b'f' ∷ b'a' ∷ b'l' ∷ b's' ∷ b'e' ∷ []

unfoldable pub read_bool : ℕ → Text → ℕ × ℕ
read_bool dflt v =
    if key_eq v yes_word || key_eq v true_word || key_eq v (b'1' ∷ [])
    then (0, 1)
    else if key_eq v no_word || key_eq v false_word || key_eq v (b'0' ∷ [])
    then (0, 0)
    else (1, dflt)

-- A name that is not in the list leaves the default, and is no error.
unfoldable pub read_enum : List EnumTuple → ℕ → Text → ℕ × ℕ
read_enum et_arr dflt v = elim (str2enum v et_arr) [ none ↦ (0, dflt) | some t ↦ (0, t.enum_val) ]

abbrev flags_of : ℕ → ℤ × ℕ → ℕ × ℕ
flags_of dflt (pos n, bits) = (0, bits % u32)
flags_of dflt (negsuc n, bits) = (1, dflt)

unfoldable pub read_flags : List BitTuple → ℕ → Text → ℕ × ℕ
read_flags bt_arr dflt v = flags_of dflt (str2bits v bt_arr)

-- The end of `sscanf(val, "%u:%u", &hr, &min)`, and the seconds
unfoldable pub read_minutes : ℕ → ℕ → Text → ℕ × ℕ
read_minutes dflt hr [] = (1, dflt)
read_minutes dflt hr (c ∷ cs) =
    if c == b':'
    then (elim (scan_unsigned cs) [
      | none ↦ (1, dflt)
      | some (min, rest) ↦ (0, (3600 * hr + 60 * min) % u32)
    ])
    else (1, dflt)

unfoldable pub read_time : ℕ → Text → ℕ × ℕ
unfolding read_minutes
read_time dflt v = elim (scan_unsigned v) [
  | none ↦ (1, dflt)
  | some (hr, rest) ↦ read_minutes dflt hr rest
]

-- `none` for NULL, and where `*pRtn` is not written.
unfoldable pub read_string : Text → ℕ × Option Text
read_string v = elim (extract_string v) [ none ↦ (1, none) | some (w, rest) ↦ (0, some w) ]

module _ {maps : StrMap ℕ} (self : CfgMap maps) where
  unfoldable pub query_uint : ℕ → Text → (ℕ × ℕ) × CfgMap maps
  unfolding find_single_value read_uint
  query_uint dflt symbol =
      let (v, counted) = find_single_value self symbol in (answer v dflt (read_uint dflt), counted)

  module _ {ℓ} {A : Type ℓ} (dflt : A) (read : Text → ℕ × A) (symbol : Text) where
    -- What the queries for the last value share
    unfoldable pub query_last : (ℕ × A) × CfgMap maps
    unfolding find_last_value
    query_last = let (v, counted) = find_last_value self symbol in (answer v dflt read, counted)

  unfoldable pub query_last_flags : ℕ → Text → List BitTuple → (ℕ × ℕ) × CfgMap maps
  unfolding query_last read_flags
  query_last_flags dflt symbol bt_arr = query_last dflt (read_flags bt_arr dflt) symbol

  unfoldable pub query_last_enum : ℕ → Text → List EnumTuple → (ℕ × ℕ) × CfgMap maps
  unfolding query_last read_enum
  query_last_enum dflt symbol et_arr = query_last dflt (read_enum et_arr dflt) symbol

  unfoldable pub query_last_bool : ℕ → Text → (ℕ × ℕ) × CfgMap maps
  unfolding query_last read_bool
  query_last_bool dflt symbol = query_last dflt (read_bool dflt) symbol

  unfoldable pub query_last_int : ℤ → Text → (ℕ × ℤ) × CfgMap maps
  unfolding query_last read_int
  query_last_int dflt symbol = query_last dflt (read_int dflt) symbol

  unfoldable pub query_last_uint : ℕ → Text → (ℕ × ℕ) × CfgMap maps
  unfolding query_last read_uint
  query_last_uint dflt symbol = query_last dflt (read_uint dflt) symbol

  unfoldable pub query_last_string : Option Text → Text → (ℕ × Option Text) × CfgMap maps
  unfolding query_last read_string
  query_last_string dflt symbol = query_last dflt read_string symbol

  unfoldable pub query_last_time_of_day : ℕ → Text → (ℕ × ℕ) × CfgMap maps
  unfolding query_last read_time
  query_last_time_of_day dflt symbol = query_last dflt (read_time dflt) symbol

-- `strrchr(path, '\\')`: the text before it.
unfoldable pub before_last : Text → Option Text
before_last [] = none
before_last (c ∷ cs) = elim (before_last cs) [
  | none ↦ if c == b'\\' then some [] else none
  | some w ↦ some (c ∷ w)
]

-- Up to the last backslash, or the whole path where that is its first character or missing
unfoldable pub up_to : Text → Option Text → Text
up_to path none = path
up_to path (some []) = path
up_to path (some (c ∷ w)) = c ∷ w

abbrev pub begins_path : Text → Bool
begins_path [] = false
begins_path (c ∷ cs) = c == b'\\'

-- `CFGMAP_obtain_prefix`: the result, and what is in `rtnBuf` if it is 0.
unfoldable pub obtain_prefix : ℕ → Text → ℤ × Option Text
unfolding before_last up_to
obtain_prefix buf_sz path =
    let pfix = up_to path (before_last path) in
    if not (begins_path path) || leb (length pfix) 1
    then (negsuc 1, none)
    else if leb buf_sz (length pfix)
    then (negsuc 0, none)
    else (pos 0, some pfix)
