-- ===== src/OffEntry/Registry.antt =====
-- Entries behind a MAP from addresses: OFFENTRY_map_addr of offEntry.c, and the walk by which
-- LOGFILE_map_addr of logFile.c calls it. The MAP holds pointers; an entry that is found is changed
-- in place.
use ban2fail.OffEntry.{OffEntry, addr_constructor, absorb}
use ban2fail.Prelude.{ℕ, ◌+◌, Option, none, some, List, [], ◌∷◌, store}
use ban2fail.StrMap.{StrMap}
use ban2fail.Stdio.{Text}

-- The entries at their addresses in memory, where the next one goes, and the MAP.
pub record Registry (maps : StrMap ℕ) : Type 0 where
  pub heap : ℕ → OffEntry
  pub next : ℕ
  pub index : maps.T

module _ {maps : StrMap ℕ} where
  -- The entry that a pointer leads to is changed.
  abbrev pub modify : Registry maps → ℕ → (OffEntry → OffEntry) → Registry maps
  modify g p f = record g { heap = store g.heap p (f (g.heap p)) }

  -- `OFFENTRY_addr_create` and `MAP_addStrKey(map, e->addr, e)`
  unfoldable pub enter : (Text → Option Text) → Registry maps → Text → Registry maps
  enter country g addr =
      let e = addr_constructor country addr in
      record g {
        heap = store g.heap g.next e;
        next = g.next + 1;
        index = maps.add g.index e.addr g.next;
      }

  -- The pointer to the entry of the address, which is made if it is missing.
  unfoldable pub locate : (Text → Option Text) → Registry maps → Text → ℕ × Registry maps
  locate country g addr = elim (maps.find g.index addr) [
    | none ↦ (g.next, enter country g addr)
    | some p ↦ (p, g)
  ]

  -- `OFFENTRY_map_addr`
  unfoldable pub map_addr : (Text → Option Text) → OffEntry → Registry maps → Registry maps
  unfolding locate enter
  map_addr country self g =
      let (p, h) = locate country g self.addr in modify h p (λ e. absorb e self)

  -- `LOGFILE_map_addr`: the visitor always returns 0, so the walk takes all entries.
  unfoldable pub map_all : (Text → Option Text) → List OffEntry → Registry maps → Registry maps
  map_all country [] g = g
  map_all country (e ∷ es) g = map_all country es (map_addr country e g)

  -- What the MAP has under an address.
  unfoldable pub lookup : Registry maps → Text → Option OffEntry
  lookup g addr = elim (maps.find g.index addr) [ none ↦ none | some p ↦ some (g.heap p) ]
