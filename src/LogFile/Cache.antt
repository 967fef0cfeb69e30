-- ===== src/LogFile/Cache.antt =====
-- logFile.c: a LOGFILE written to its cache files and made from them again, LOGFILE_writeCache and
-- LOGFILE_cache_constructor. No report by address is asked for, so the database is not read here.
use ban2fail.LogFile.{LogFile, Obsv, Observed, common_constructor}
use ban2fail.OffEntry
use ban2fail.OffEntry.Registry.{Registry}
use ban2fail.OffEntry.{OffEntry, cache_write}
use ban2fail.Prelude.{
  ℕ, zero, suc, ◌+◌, Option, none, some, List, [], ◌∷◌, ◌++◌, map, length, store,
}
use ban2fail.Stdio.{Text, get_line}
use ban2fail.StrMap.{StrMap}

-- The observations of each address
abbrev pub Records : Type 0
Records = List (Text × List Obsv)

-- The walk of `OFFENTRY_cacheWrite` over the entries: it returns 0, so all are written.
unfoldable pub write_entries : List OffEntry → Text
write_entries [] = []
write_entries (e ∷ es) = cache_write e ++ write_entries es

-- A database is only opened if there are observations.
abbrev pub some_records : Records → Option Records
some_records [] = none
some_records (r ∷ rs) = some (r ∷ rs)

module _ {maps : StrMap ℕ} where
  -- What a walk over `addr.offEntry_map` meets
  unfoldable pub contents : Registry maps → List OffEntry
  contents g = map (λ (e : Text × ℕ). g.heap e.1) (maps.entries g.index)

  unfoldable pub records : Observed maps → Records
  records o = map (λ (e : Text × ℕ). (e.0, o.stacks e.1)) (maps.entries o.index)

  -- `LOGFILE_writeCache`: the cache file, and what is put into the database.
  unfoldable pub write_cache : LogFile maps → Text × Option Records
  unfolding write_entries contents records
  write_cache self = (write_entries (contents self.off_entry), some_records (records self.obsv_tpl))

  -- `MAP_addStrKey(map, e->addr, e)`
  unfoldable pub adopt : Registry maps → OffEntry → Registry maps
  adopt g e = record g {
    heap = store g.heap g.next e;
    next = g.next + 1;
    index = maps.add g.index e.addr g.next;
  }

  -- The loop over the lines; `none` where `assert(e)` fails. Each round takes a byte at least.
  unfoldable pub read_entries : ℕ → Text → Registry maps → Option (Registry maps)
  unfolding adopt
  read_entries fuel [] g = some g
  read_entries zero (c ∷ cs) g = none
  read_entries (suc fuel) (c ∷ cs) g =
      let (buf, rest) = get_line 255 (c ∷ cs) in
      elim (OffEntry.cache_constructor buf) [
        | none ↦ none
        | some e ↦ read_entries fuel rest (adopt g e)
      ]

  -- `LOGFILE_cache_constructor`
  unfoldable pub cache_constructor : (ℕ → OffEntry) → Text → Option (LogFile maps)
  unfolding read_entries common_constructor
  cache_constructor heap text =
      let self : LogFile maps = common_constructor heap in
      elim (read_entries (length text) text self.off_entry) [
        | none ↦ none
        | some g ↦ some (record self { off_entry = g })
      ]
