-- ===== src/Tests/Config.antt =====
-- A configuration file, from its bytes to the answers of MAXOFF_allowed.
use ban2fail.CfgMap.Lines.{prefix, World, ok}
use ban2fail.CfgMap.Lookup.{assigned, tuple, find_tuples-values}
use ban2fail.CfgMap.Query.Answers.{queries-absent, obtain_prefix-full}
use ban2fail.CfgMap.Query.{
  query_uint, query_last_uint, query_last_int, query_last_bool, query_last_flags, query_last_enum,
  query_last_time_of_day, query_last_string, obtain_prefix,
}
use ban2fail.CfgMap.Reader.{Reader, file_constructor}
use ban2fail.CfgMap.Render.{
  Margin, Items, done, setting, block, blank, render, assigns, full, is_literal, lacks_cwd, IsName,
  IsTitle, IsValue, IsFile,
}
use ban2fail.CfgMap.RoundTrip.{file_constructor-find_last_value}
use ban2fail.CfgMap.Scan.{trim_end}
use ban2fail.CfgMap.Values.{values, values-none, construct-IsValid, append-IsValid}
use ban2fail.CfgMap.{CfgMap, construct, append, find_last_value, find_tuples}
use ban2fail.Map.AsStrMap.{as_str_map}
use ban2fail.Prelude.Int.{pos, negsuc}
use ban2fail.Prelude.{
  ℕ, ◌^◌, ◌≤◌, ◌≡◌, refl, arith, true, false, none, some, [], ◌∷◌, ◌++◌, length, last, map,
  replicate,
}
use ban2fail.Stdio.{Text}
use ban2fail.StrMap.{StrMap}

abbrev pub maps : StrMap ℕ
maps = as_str_map 0

-- "MAX_OFFENSES", "-1", "IP" and "::1"
abbrev pub max_offenses : Text
max_offenses = 77 ∷ 65 ∷ 88 ∷ 95 ∷ 79 ∷ 70 ∷ 70 ∷ 69 ∷ 78 ∷ 83 ∷ 69 ∷ 83 ∷ []

abbrev pub minus_one : Text
minus_one = 45 ∷ 49 ∷ []

abbrev pub ip : Text
ip = 73 ∷ 80 ∷ []

abbrev pub loopback : Text
loopback = 58 ∷ 58 ∷ 49 ∷ []

-- # a
--
-- MAX_OFFENSES -1 {
--    IP= ::1  # a
-- } # a
abbrev a_remark : Text
a_remark = 32 ∷ 97 ∷ []

abbrev alone : Margin
alone = record { indent = 0; behind = 0; remark = none }

abbrev pub items : Items
items =
    blank (record alone { remark = some a_remark })
      (blank alone (
        block alone max_offenses minus_one
          (setting (record { indent = 3; behind = 2; remark = some a_remark }) ip loopback done)
          (record alone { behind = 1; remark = some a_remark }) done))

abbrev pub world : World
world = record {
  open_file = λ name. some (render items);
  popen = λ cmd. none;
  dirname = λ name. name;
  misread = λ str. record { str = str; serial_no = 0 };
}

minus_one-IsTitle : IsTitle minus_one
unfolding is_literal lacks_cwd trim_end
minus_one-IsTitle = record {
  value = record {
    first = 45;
    others = 49 ∷ [];
    splits = refl;
    opens = refl;
    literal = refl;
    plain = refl;
    trimmed = refl;
    closes = refl;
  };
  no_index = refl;
}

loopback-IsValue : IsValue loopback
unfolding is_literal lacks_cwd trim_end
loopback-IsValue = record {
  first = 58;
  others = 58 ∷ 49 ∷ [];
  splits = refl;
  opens = refl;
  literal = refl;
  plain = refl;
  trimmed = refl;
  closes = refl;
}

max_offenses-IsName : IsName max_offenses
max_offenses-IsName = record {
  first = 77;
  others = 65 ∷ 88 ∷ 95 ∷ 79 ∷ 70 ∷ 70 ∷ 69 ∷ 78 ∷ 83 ∷ 69 ∷ 83 ∷ [];
  splits = refl;
  letters = ground arith;
}

ip-IsName : IsName ip
ip-IsName = record { first = 73; others = 80 ∷ []; splits = refl; letters = ground arith }

pub items-IsFile : IsFile [] items
unfolding prefix
items-IsFile = (
  (omega arith, (refl, (refl, tt))),
  (
    (omega arith, tt),
    (
      (max_offenses-IsName, minus_one-IsTitle, (omega arith, tt), omega arith),
      ((ip-IsName, loopback-IsValue, (omega arith, (refl, (refl, tt))), omega arith), tt),
      (omega arith, (refl, (refl, tt))),
      tt,
    ),
  ),
)

pub few : length (assigns [] items) ≤ 2 ^ 30
unfolding assigns
few = omega arith

file_constructor-find_last_value_example :
    (s : CfgMap maps) × (file_constructor world 1 ip ≡ ok s)
    × ((k : Text) → (find_last_value s k).0 ≡ last (assigned k (assigns [] items)))
file_constructor-find_last_value_example =
    file_constructor-find_last_value world 0 ip items items-IsFile refl few

-- An empty configuration, and one with a value.
queries-absent_example :
    ((query_uint (construct {maps = maps}) 7 ip).0 ≡ (0, 7))
    × ((query_last_uint (construct {maps = maps}) 7 ip).0 ≡ (0, 7))
    × ((query_last_int (construct {maps = maps}) (negsuc 0) ip).0 ≡ (0, negsuc 0))
    × ((query_last_bool (construct {maps = maps}) 7 ip).0 ≡ (0, 7))
    × ((query_last_flags (construct {maps = maps}) 7 ip []).0 ≡ (0, 7))
    × ((query_last_enum (construct {maps = maps}) 7 ip []).0 ≡ (0, 7))
    × ((query_last_time_of_day (construct {maps = maps}) 7 ip).0 ≡ (0, 7))
    × ((query_last_string (construct {maps = maps}) (some ip) ip).0 ≡ (0, some ip))
unfolding construct
queries-absent_example =
    queries-absent construct ip (values-none construct ip (maps.find_fresh ip)) 7 (negsuc 0)
      (some ip) [] []

find_tuples-values_example :
    (find_tuples (append (construct {maps = maps}) ip loopback) ip).0
    ≡ map (tuple ip) (values (append (construct {maps = maps}) ip loopback) ip)
find_tuples-values_example =
    find_tuples-values (append construct ip loopback) ip 0
      (append-IsValid 0 construct (construct-IsValid 1 (omega arith)) ip loopback)

obtain_prefix-full_example :
    obtain_prefix 100 (full (minus_one ∷ []) ip) ≡ (pos 0, some (92 ∷ minus_one))
unfolding prefix
obtain_prefix-full_example = obtain_prefix-full 100 minus_one [] ip (λ e. cc) (refl, (refl, tt))

-- A line of 1022 bytes and a backslash, before a letter
abbrev full_line : Reader maps
full_line = record {
  cfg = construct;
  buf = replicate 1022 97;
  in_comment = false;
  in_string = false;
  escaped = true;
}

abbrev overrun : Reader maps
overrun = record full_line { buf = replicate 1022 97 ++ (92 ∷ 98 ∷ []); escaped = false }
