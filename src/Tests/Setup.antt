-- ===== src/Tests/Setup.antt =====
-- The initialization functions, run on the configuration of Tests/Config; names of bits and digits.
use ban2fail.Ban2fail.Configure.{InitInfo, configure}
use ban2fail.Ban2fail.Inits.{Inits, calls_of, configure-Inits}
use ban2fail.CfgMap.Lines.{ok, prefix}
use ban2fail.CfgMap.Lookup.{
  assigned, append_all, append_all-strings, append_all-IsValid, append_all-few, strings,
}
use ban2fail.CfgMap.Reader.{file_constructor}
use ban2fail.CfgMap.Render.{assigns}
use ban2fail.CfgMap.{Value, CfgMap, construct}
use ban2fail.CfgMap.Values.{IsValid, values, construct-IsValid}
use ban2fail.LogType.Init.{dir_name, prefix_name, timestamp_name, target_name, read_proto}
use ban2fail.LogType.Read.{IsTarget, prepared_all, read_proto-prepared}
use ban2fail.Target.Setup.{symbol, severity_name, regex_name}
use ban2fail.Target.{Regexec, Tm}
use ban2fail.Map.AsStrMap.{as_str_map}
use ban2fail.Map.{same_bytes}
use ban2fail.MaxOff.Config.Blocks.{Answers, init_block-Keeps, file_constructor-allowed}
use ban2fail.MaxOff.Config.{init_block}
use ban2fail.MaxOff.{Limits}
use ban2fail.Prelude.Int.{ℤ, pos, negsuc}
use ban2fail.Prelude.{
  ℕ, ◌*◌, ◌≤◌, ◌<◌, ◌≡◌, ◌⊎◌, ap, last, u32, refl, arith, Option, none, some, List, [], ◌∷◌, length,
}
use ban2fail.Stdio.{Text, print_digits, print_unsigned, print_signed}
use ban2fail.StrMap.{StrMap}
use ban2fail.Tests.Config.{
  maps, max_offenses, minus_one, ip, loopback, items, world, items-IsFile, few,
}
use ban2fail.Util.Bits.{set_tuples, union, room, str2bits-bits2str}
use ban2fail.Util.Hex.{read_hex, bytes_2_hex_str-read_hex}
use ban2fail.Util.{BitTuple, bits2str, str2bits, find_bit_tuple, bytes_2_hex_str}

abbrev limits : StrMap ℤ
limits = as_str_map (pos 0)

abbrev country : Text → Option Text
country addr = none

abbrev start : Limits limits
start = record { cntry_map = limits.fresh; addr_map = limits.fresh }

file_constructor-allowed_example :
    (c : CfgMap maps) × (file_constructor world 1 ip ≡ ok c)
    × ((out : Limits limits) × ((init_block c (92 ∷ minus_one) start).0 ≡ some out)
        × Answers country (negsuc 0) (loopback ∷ []) [] start out)
unfolding assigned assigns same_bytes print_signed print_unsigned print_digits prefix
file_constructor-allowed_example =
    file_constructor-allowed maps limits country (negsuc 0) (omega arith) [] (loopback ∷ []) []
      start
      (record { some_char = λ e. cc; chars = (refl, (refl, (refl, tt))); short = omega arith }, tt)
      (limits.fits_fresh 1 (omega arith)) (limits.fits_fresh 0 (omega arith)) world 0 ip items
      items-IsFile refl few refl refl

-- MAX_OFFENSES of `S_initInfo_arr`
abbrev infos : List (InitInfo maps (Limits limits))
infos = record { sym_str = max_offenses; init_f = init_block } ∷ []

abbrev read : CfgMap maps
read = append_all construct (assigns [] items)

no_values : (vs : List Value) → strings vs ≡ [] → vs ≡ []
no_values [] e = refl
no_values (v ∷ vs) e = cc

configure-Inits_example :
    Inits read start (calls_of infos read [] infos) (configure infos 2 [] (read, start))
unfolding assigned assigns same_bytes prefix
configure-Inits_example =
    configure-Inits infos 0 [] read start ((λ h name s. init_block-Keeps h name s), tt)
      (
        rw (append_all-strings maps (assigns [] items) few (92 ∷ max_offenses))
            ((no_values _ (append_all-strings maps (assigns [] items) few _), tt), tt),
        tt,
      )

-- "A" and "BC"
abbrev bits : List BitTuple
bits = record { name = 65 ∷ []; bit = 1 } ∷ record { name = 66 ∷ 67 ∷ []; bit = 4 } ∷ []

str2bits-bits2str_example :
    (s : Text) × (bits2str 5 bits ≡ some s)
    × (str2bits s bits ≡ (pos 0, union (set_tuples 5 bits) 0))
unfolding find_bit_tuple same_bytes set_tuples room
str2bits-bits2str_example =
    str2bits-bits2str 5 bits
      (
        record {
          first = 65;
          others = [];
          splits = refl;
          solid = refl;
          no_bar = (refl, tt);
          short = omega arith;
        },
        (
          record {
            first = 66;
            others = 67 ∷ [];
            splits = refl;
            solid = refl;
            no_bar = (refl, (refl, tt));
            short = omega arith;
          },
          tt,
        ),
      )
      (refl, (refl, tt)) (omega arith) (omega arith)

abbrev bytes : List ℕ
bytes = 0 ∷ 171 ∷ 255 ∷ []

bytes_2_hex_str-read_hex_example :
    ((bytes_2_hex_str 7 bytes ≡ none) × (7 ≤ length bytes * 2))
    ⊎ ((t : Text) × (bytes_2_hex_str 7 bytes ≡ some t) × (length t < 7) × (read_hex t ≡ bytes))
bytes_2_hex_str-read_hex_example =
    bytes_2_hex_str-read_hex 7 bytes (omega arith, (omega arith, (omega arith, tt))) (omega arith)

-- A log type with one target
abbrev t_name : Text
t_name = b't' ∷ []

abbrev x_name : Text
x_name = b'x' ∷ []

abbrev described : List (Text × Text)
described =
    (symbol t_name dir_name, b'/' ∷ b'v' ∷ [])
    ∷ (symbol t_name prefix_name, b'a' ∷ [])
    ∷ (symbol t_name target_name, x_name)
    ∷ (symbol (symbol t_name x_name) severity_name, b'3' ∷ [])
    ∷ (symbol (symbol t_name x_name) regex_name, b'p' ∷ [])
    ∷ []

abbrev type_map : CfgMap maps
type_map = append_all construct described

abbrev compile : Text → Option Regexec
compile pattern = some (λ s. none)

abbrev strptime : Text → Text → Tm
strptime fmt date = record { tm_year = pos 0; tm_mon = 0; tm_rest = [] }

type_map-IsValid : IsValid 0 type_map
type_map-IsValid = append_all-IsValid 0 described construct (construct-IsValid 5 (omega arith))

type_map-few : (k : Text) → length (values type_map k) < u32
type_map-few k = append_all-few maps described (omega arith) k

says : (k : Text) → strings (values type_map k) ≡ assigned k described
says k = append_all-strings maps described (omega arith) k

x_target : IsTarget compile strptime type_map type_map-IsValid type_map-few (symbol t_name x_name)
unfolding assigned same_bytes print_unsigned print_digits
x_target = record {
  severity = 3;
  patterns = (b'p' ∷ []) ∷ [];
  res = (λ s. none) ∷ [];
  small = omega arith;
  number = ap last (says (symbol (symbol t_name x_name) severity_name));
  regexes = says (symbol (symbol t_name x_name) regex_name);
  compiled = (refl, tt);
}

read_proto-prepared_example :
    (read_proto compile strptime type_map t_name).0
    ≡ some (record {
      dir = b'/' ∷ b'v' ∷ [];
      pfix = b'a' ∷ [];
      ts = none;
      targets =
          prepared_all compile strptime type_map type_map-IsValid type_map-few t_name
            (x_name ∷ [])
            (x_target, tt);
    })
unfolding assigned same_bytes
read_proto-prepared_example =
    read_proto-prepared compile strptime type_map type_map-IsValid type_map-few t_name
      (b'/' ∷ b'v' ∷ []) (b'a' ∷ []) (x_name ∷ []) (x_target, tt)
      (ap last (says (symbol t_name dir_name))) (ap last (says (symbol t_name prefix_name)))
      (ap last (says (symbol t_name timestamp_name))) (says (symbol t_name target_name))
