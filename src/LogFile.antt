-- ===== src/LogFile.antt =====
-- logFile.c: the offenses of one log file, by address. A line comes with its position in the file.
-- The database, the cache file and the reports by address are not in the model.
pub mod Cache
pub mod Hits
pub mod Kept
pub mod Restore
pub mod Printed
pub mod Count
use ban2fail.OffEntry.Registry.{Registry, modify, locate}
use ban2fail.OffEntry.{OffEntry, register, offense_count}
use ban2fail.Prelude.{
  ℕ, zero, suc, ◌+◌, ◌%◌, ◌^◌, Bool, true, false, Option, none, some, List, [], ◌∷◌, ◌++◌,
  if◌then◌else◌, length, store, u32, add32,
}
use ban2fail.Prelude.Int.{ℤ, pos}
use ban2fail.Stdio.{Text, is_space}
use ban2fail.StrMap.{StrMap}
use ban2fail.Target.{Target, scan, Tm, Ts, ts_scan}

-- "Get rid of trailing newline, spaces"
unfoldable pub strip : Text → Text
strip [] = []
strip (c ∷ cs) = elim (strip cs) [ [] ↦ if is_space c then [] else c ∷ [] | d ∷ ds ↦ c ∷ d ∷ ds ]

-- `struct obsv`: `len` is a `uint16_t`.
pub record Obsv : Type 0 where
  pub pos : ℕ
  pub len : ℕ

-- The MAP of `ObsvTpl` objects, whose stacks hold the observations in order.
pub record Observed (maps : StrMap ℕ) : Type 0 where
  pub stacks : ℕ → List Obsv
  pub next : ℕ
  pub index : maps.T

-- `addr.offEntry_map` and `addr.obsvTpl_map`
pub record LogFile (maps : StrMap ℕ) : Type 0 where
  pub off_entry : Registry maps
  pub obsv_tpl : Observed maps

-- What of `struct logProtoType` and of `G` the loop reads: `ts` is `none` if it is not prepared.
pub record Proto : Type 0 where
  pub targets : List Target
  pub ts : Option Ts
  pub mktime : Tm → ℤ
  pub begin_tm : Tm
  pub country : Text → Option Text

-- `when`: 0 if there is no date to be had.
unfoldable pub when_of : Proto → Text → ℤ
when_of proto lbuf = elim proto.ts [
  | none ↦ pos 0
  | some ts ↦ elim (ts_scan proto.mktime ts lbuf proto.begin_tm) [ none ↦ pos 0 | some t ↦ t ]
]

module _ {maps : StrMap ℕ} where
  -- `ObsvTpl_create`, `MAP_addStrKey` and `ObsvTpl_addObsv`
  unfoldable pub observe : Observed maps → Text → Obsv → Observed maps
  observe o addr obs = elim (maps.find o.index addr) [
    | none ↦ record {
      stacks = store o.stacks o.next (obs ∷ []);
      next = o.next + 1;
      index = maps.add o.index addr o.next;
    }
    | some p ↦ record o { stacks = store o.stacks p (o.stacks p ++ (obs ∷ [])) }
  ]

  -- The entry of the address is found or made, and the offense is registered.
  unfoldable pub offend : (Text → Option Text) → Text → ℕ → ℤ → Registry maps → Registry maps
  offend country addr severity when g =
      let (p, h) = locate country g addr in modify h p (λ e. register e severity when)

  -- The body of the loop over targets once an address has been scanned.
  unfoldable pub hit : Proto → ℕ → Text → Text → ℕ → LogFile maps → LogFile maps
  hit proto at lbuf addr severity self =
      let (p, h) = locate proto.country self.off_entry addr in
      record {
        off_entry = offend proto.country addr severity (when_of proto lbuf) self.off_entry;
        obsv_tpl =
            observe self.obsv_tpl (h.heap p).addr (record { pos = at; len = length lbuf % 2 ^ 16 });
      }

  unfoldable pub target_loop : Proto → ℕ → Text → List Target → LogFile maps → LogFile maps
  target_loop proto at lbuf [] self = self
  target_loop proto at lbuf (tg ∷ tgs) self =
      target_loop proto at lbuf tgs (elim (scan tg 128 lbuf) [
        | none ↦ self
        | some addr ↦ hit proto at lbuf addr tg.severity self
      ])

  -- The loop of `LOGFILE_log_constructor` over the lines of the file.
  unfoldable pub line_loop : Proto → List (ℕ × Text) → LogFile maps → LogFile maps
  line_loop proto [] self = self
  line_loop proto ((at, line) ∷ rest) self =
      line_loop proto rest (target_loop proto at (strip line) proto.targets self)

  -- `common_constructor`; what the memory for new objects holds does not matter.
  unfoldable pub common_constructor : (ℕ → OffEntry) → LogFile maps
  common_constructor heap = record {
    off_entry = record { heap = heap; next = 0; index = maps.fresh };
    obsv_tpl = record { stacks = λ i. []; next = 0; index = maps.fresh };
  }

  unfoldable pub log_constructor : (ℕ → OffEntry) → Proto → List (ℕ × Text) → LogFile maps
  log_constructor heap proto lines = line_loop proto lines (common_constructor heap)

-- The walk of `LOGFILE_offenseCount` over the entries, and the sum that it keeps: `cached` is
-- `NOFFENSES_CACHED_FLG`.
pub record Counted : Type 0 where
  pub cached : Bool
  pub n_offenses : ℕ

unfoldable pub sum_entries : List OffEntry → ℕ → ℕ
sum_entries [] sum = sum
sum_entries (e ∷ es) sum = sum_entries es (offense_count e sum)

unfoldable pub file_offense_count : List OffEntry → Counted → ℕ → Counted × ℕ
file_offense_count entries self sum =
    let counted =
      if self.cached
      then self
      else record { cached = true; n_offenses = sum_entries entries self.n_offenses } in
    (counted, add32 sum counted.n_offenses)
