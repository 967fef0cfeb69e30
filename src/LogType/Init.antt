-- ===== src/LogType/Init.antt =====
-- logType.c: LOGTYPE_init, which reads the description of a log type from the configuration and
-- makes the LOGTYPE. The MD5 sum of what the calls of MD5_Update are
-- given is an argument.
use ban2fail.CfgMap.{CfgMap, Tuple, num_tuples, find_tuples, find_last_value}
use ban2fail.LogFile.{LogFile, Proto}
use ban2fail.LogType.{Site, Disk, LogType, cache_name, proto_constructor}
use ban2fail.Prelude.Int.{ℤ, pos, negsuc}
use ban2fail.Prelude.{ℕ, Option, none, some, List, [], ◌∷◌, ◌++◌, map, if◌then◌else◌}
use ban2fail.Stdio.{Text}
use ban2fail.StrMap.{StrMap}
use ban2fail.Target.Setup.{
  Prepared, PreparedTs, Hashed, target_md5_update, ts_md5_update, symbol, target_init, ts_init,
}
use ban2fail.Target.{Regexec, Tm, Ts}

abbrev pub dir_name : Text
dir_name = b'D' ∷ b'I' ∷ b'R' ∷ []

abbrev pub prefix_name : Text
prefix_name = b'P' ∷ b'R' ∷ b'E' ∷ b'F' ∷ b'I' ∷ b'X' ∷ []

abbrev pub timestamp_name : Text
timestamp_name = b'T' ∷ b'I' ∷ b'M' ∷ b'E' ∷ b'S' ∷ b'T' ∷ b'A' ∷ b'M' ∷ b'P' ∷ []

abbrev pub target_name : Text
target_name = b'T' ∷ b'A' ∷ b'R' ∷ b'G' ∷ b'E' ∷ b'T' ∷ []

-- `struct logProtoType`
pub record LogProtoType : Type 0 where
  pub dir : Text
  pub pfix : Text
  pub ts : Option PreparedTs
  pub targets : List Prepared

-- `goto abort` leaves the rest out.
abbrev pub and_then {ℓ κ} :
    {A : Type ℓ} {B : Type ℓ} {S : Type κ} → Option A × S → (A → S → Option B × S) → Option B × S
and_then (none, s) f = (none, s)
and_then (some a, s) f = f a s

module _ {config : StrMap ℕ} (compile : Text → Option Regexec) (strptime : Text → Text → Tm) where
  -- "Get the TIMESTAMP entry", which may be missing
  unfoldable pub read_ts : CfgMap config → Text → Option (Option PreparedTs) × CfgMap config
  unfolding find_last_value ts_init
  read_ts h pfix =
      let (val, c) = find_last_value h (symbol pfix timestamp_name) in
      elim val [
        | none ↦ (some none, c)
        | some v ↦
            and_then (ts_init compile strptime c (symbol pfix v))
              (λ (t : PreparedTs) (d : CfgMap config). (some (some t), d))
      ]

  -- The loop over the targets
  unfoldable pub init_targets :
      Text → List Text → CfgMap config → Option (List Prepared) × CfgMap config
  unfolding target_init
  init_targets pfix [] c = (some [], c)
  init_targets pfix (v ∷ vs) c =
      and_then (target_init compile c (symbol pfix v)) (λ (t : Prepared) (d : CfgMap config).
        and_then (init_targets pfix vs d)
          (λ (ts : List Prepared) (e : CfgMap config). (some (t ∷ ts), e)))

  -- "Get all TARGET entries"
  unfoldable pub read_targets :
      Text → Text → Text → Option PreparedTs → CfgMap config → Option LogProtoType × CfgMap config
  unfolding find_tuples init_targets
  read_targets pfix dir file_pfix ts c =
      let (tuples, d) = find_tuples c (symbol pfix target_name) in
      and_then (init_targets pfix (map (λ (t : Tuple). t.value) tuples) d)
        (λ (targets : List Prepared) (e : CfgMap config).
          (some (record { dir = dir; pfix = file_pfix; ts = ts; targets = targets }), e))

  unfoldable pub read_time :
      Text → Text → Text → CfgMap config → Option LogProtoType × CfgMap config
  unfolding read_ts read_targets
  read_time pfix dir file_pfix c =
      and_then (read_ts c pfix)
        (λ (ts : Option PreparedTs) (d : CfgMap config). read_targets pfix dir file_pfix ts d)

  -- "Check for "prefix" symbol", and what follows
  unfoldable pub read_prefix : Text → Text → CfgMap config → Option LogProtoType × CfgMap config
  unfolding find_last_value read_time
  read_prefix pfix dir c =
      and_then (find_last_value c (symbol pfix prefix_name))
        (λ (file_pfix : Text) (d : CfgMap config). read_time pfix dir file_pfix d)

  -- `LOGTYPE_init`, up to the construction of the object
  unfoldable pub read_proto : CfgMap config → Text → Option LogProtoType × CfgMap config
  unfolding num_tuples find_last_value read_prefix
  read_proto h_map pfix =
      let (arr_sz, c) = num_tuples h_map in
      and_then (find_last_value c (symbol pfix dir_name))
        (λ (dir : Text) (d : CfgMap config). read_prefix pfix dir d)

-- "Compute md5sum of all patterns put together": the timestamp, then the targets
unfoldable pub hashed_targets : List Prepared → List Hashed
unfolding target_md5_update
hashed_targets [] = []
hashed_targets (t ∷ ts) = target_md5_update t ++ hashed_targets ts

unfoldable pub hashed : LogProtoType → List Hashed
unfolding ts_md5_update hashed_targets
hashed p = elim p.ts [
  | none ↦ hashed_targets p.targets
  | some t ↦ ts_md5_update t ++ hashed_targets p.targets
]

abbrev pub prepared_ts : Option PreparedTs → Option Ts
prepared_ts none = none
prepared_ts (some t) = some t.ts

-- What the loop over the lines reads of the description, and of `G`
abbrev pub proto_of : (Tm → ℤ) → Tm → (Text → Option Text) → LogProtoType → Proto
proto_of mktime begin_tm country p = record {
  targets = map (λ (t : Prepared). t.target) p.targets;
  ts = prepared_ts p.ts;
  mktime = mktime;
  begin_tm = begin_tm;
  country = country;
}

module _ {maps : StrMap ℕ} {files : StrMap (LogFile maps)} (types : StrMap (LogType files))
    (site : Site) (patterns_sum : List Hashed → Text) (proto_with : LogProtoType → Proto) where
  -- What `LOGTYPE_init` does with the description: the LOGTYPE is made and placed in
  -- `G.logType_map`, unless only names are printed. `none` where the program ends.
  unfoldable pub place : LogProtoType → Disk × types.T → Option (Disk × types.T)
  unfolding proto_constructor cache_name hashed
  place p (disk, m) =
      elim (proto_constructor files site (proto_with p) p.dir p.pfix (patterns_sum (hashed p))
        disk) [
          | none ↦ none
          | some (self, after) ↦ some (
            after,
            if site.print_names
                then m
                else types.add m (cache_name self.dir self.pfix self.patterns_md5sum) self,
          )
        ]

  -- `LOGTYPE_init`: its result is -1 if the description cannot be read.
  unfoldable pub type_init :
      {config : StrMap ℕ}
      → (Text → Option Regexec)
      → (Text → Text → Tm)
      → Text
      → CfgMap config × Disk × types.T
      → Option (ℤ × CfgMap config × Disk × types.T)
  unfolding read_proto place
  type_init compile strptime pfix (h_map, disk, m) =
      let (p, c) = read_proto compile strptime h_map pfix in
      elim p [
        | none ↦ some (negsuc 0, c, disk, m)
        | some proto ↦ elim (place proto (disk, m)) [
          | none ↦ none
          | some (after, placed) ↦ some (pos 0, c, after, placed)
        ]
      ]
