-- ===== src/LogFile/Restore.antt =====
-- A LOGFILE that is made from its cache file has the entries of the one that was written.
use ban2fail.LogFile.Cache.{
  contents, write_entries, write_cache, adopt, read_entries, cache_constructor,
}
use ban2fail.LogFile.Printed.{get_line-cache_write}
use ban2fail.LogFile.{LogFile, common_constructor}
use ban2fail.Map.Keys.{key_eq}
use ban2fail.OffEntry
use ban2fail.OffEntry.Cache.{IsStorable, cache_constructor-cache_write}
use ban2fail.OffEntry.Locate.{lookup-find, lookup-none}
use ban2fail.OffEntry.Merge.{fresh_registry-IsValid}
use ban2fail.OffEntry.Registry.{Registry, lookup}
use ban2fail.OffEntry.{OffEntry, cache_write}
use ban2fail.Prelude.{
  ℕ, zero, suc, ◌≤◌, ◌<◌, ◌^◌, ◌≡◌, ◌∙◌, ap, sym, refl, arith, inl, inr, Bool-cases, true, false,
  Option-cases, if◌then◌else◌, Option, none, some, List, [], ◌∷◌, ◌++◌, map, length, length-map,
  length-append, All, store_eq, store_ne,
}
use ban2fail.Stdio.{Text, get_line, print_unsigned, print_signed}
use ban2fail.StrMap.{StrMap, assoc, or_else}

-- The first entry of an address
unfoldable pub first : Text → List OffEntry → Option OffEntry
first a [] = none
first a (e ∷ es) = if key_eq e.addr a then some e else first a es

cache_write-some : (e : OffEntry) (r : Text) → 1 ≤ length (cache_write e ++ r)
unfolding cache_write
cache_write-some e r = omega (
  arith,
  length-append (cache_write e) r,
  length-append (print_unsigned e.count) (
      32
      ∷ (print_unsigned e.severity
          ++ (32 ∷ (print_signed e.latest ++ (32 ∷ (e.addr ++ (32 ∷ (e.cntry ++ (10 ∷ []))))))))),
)

length-write_entries : (es : List OffEntry) → length es ≤ length (write_entries es)
unfolding write_entries
length-write_entries [] = omega arith
length-write_entries (e ∷ es) = omega (
  arith,
  length-write_entries es,
  cache_write-some e [],
  length-append (cache_write e) (write_entries es),
  length-append (cache_write e) [],
)

module _ {maps : StrMap ℕ} where
  unfoldable pub adopt_all : List OffEntry → Registry maps → Registry maps
  adopt_all [] g = g
  adopt_all (e ∷ es) g = adopt_all es (adopt g e)

  -- One round of the loop
  read_entries-round :
      (fuel : ℕ) (text buf rest : Text) (e : OffEntry) (g : Registry maps)
      → 1 ≤ length text
      → get_line 255 text ≡ (buf, rest)
      → OffEntry.cache_constructor buf ≡ some e
      → read_entries (suc fuel) text g ≡ read_entries fuel rest (adopt g e)
  unfolding read_entries
  read_entries-round fuel [] buf rest e g some_text line entry = absurd (omega arith)
  read_entries-round fuel (c ∷ cs) buf rest e g some_text line entry =
      rw (line, read_entries, entry)
        (ap (λ (r : Text × Text). read_entries fuel r.1 (adopt g e)) line)

  -- The loop reads one entry after the other.
  read_entries-write :
      (es : List OffEntry) (fuel : ℕ) (g : Registry maps)
      → All IsStorable es
      → length es ≤ fuel
      → read_entries fuel (write_entries es) g ≡ some (adopt_all es g)
  unfolding read_entries write_entries adopt_all
  read_entries-write [] fuel g s h = refl
  read_entries-write (e ∷ es) zero g (s, more) h = absurd (omega arith)
  read_entries-write (e ∷ es) (suc fuel) g (s, more) h =
      read_entries-round fuel (cache_write e ++ write_entries es) (cache_write e) (write_entries es)
        e g (cache_write-some e (write_entries es)) (get_line-cache_write e s (write_entries es))
        (cache_constructor-cache_write e s)
      ∙ read_entries-write es fuel (adopt g e) more (omega arith)

  -- Room for `n` more entries, and the pointers that the map has are older than the next one.
  record Room (n : ℕ) (g : Registry maps) : Type 0 where
    below : (a : Text) (p : ℕ) → maps.find g.index a ≡ some p → p < g.next
    fits : maps.Fits n g.index

  -- A new entry is found under its address, unless there was one before.
  module _ {n : ℕ} (g : Registry maps) (room : Room (suc n) g) (e : OffEntry) where
    find-adopt :
        (a : Text)
        → maps.find (adopt g e).index a ≡ (
            if key_eq e.addr a
            then some (or_else (maps.find g.index a) g.next)
            else maps.find g.index a)
    unfolding adopt
    find-adopt a = maps.find_add n g.index e.addr g.next a room.fits

    adopt-older :
        (a : Text) (p : ℕ)
        → maps.find g.index a ≡ some p
        → (maps.find (adopt g e).index a ≡ some p) × (lookup (adopt g e) a ≡ lookup g a)
    unfolding adopt
    adopt-older a p found =
        let same : maps.find (adopt g e).index a ≡ some p =
          find-adopt a
          ∙ elim (Bool-cases (key_eq e.addr a)) [ inl k ↦ rw (k, found) | inr k ↦ rw (k, found) ] in
        (
          same,
          lookup-find (adopt g e) a p same
              ∙ ap some (store_ne g.heap g.next p e (omega (arith, room.below a p found)))
              ∙ sym (lookup-find g a p found),
        )

    adopt-lookup :
        (a : Text)
        → lookup (adopt g e) a
          ≡ (if key_eq e.addr a then some (or_else (lookup g a) e) else lookup g a)
    unfolding adopt
    adopt-lookup a = elim (Option-cases (maps.find g.index a)) [
      | inl gone ↦ elim (Bool-cases (key_eq e.addr a)) [
        | inl k ↦ rw k (
            lookup-find (adopt g e) a g.next (find-adopt a ∙ rw (k, gone))
            ∙ ap some (store_eq g.heap g.next g.next e refl)
            ∙ sym (ap (λ o. some (or_else o e)) (lookup-none g a gone)))
        | inr k ↦
            rw k
              (lookup-none (adopt g e) a (find-adopt a ∙ rw (k, gone)) ∙ sym (lookup-none g a gone))
      ]
      | inr (p, found) ↦
          let old = lookup-find g a p found in
          (adopt-older a p found).1
          ∙ elim (Bool-cases (key_eq e.addr a)) [ inl k ↦ rw (k, old) | inr k ↦ rw k ]
    ]

    adopt-Room : Room n (adopt g e)
    unfolding adopt
    adopt-Room = record {
      below = λ a p found. elim (Option-cases (maps.find g.index a)) [
        | inl gone ↦ elim (Bool-cases (key_eq e.addr a)) [
          | inl k ↦
              let new : some g.next ≡ some p = sym (find-adopt a ∙ rw (k, gone)) ∙ found in
              let same : g.next ≡ p = cc in omega arith
          | inr k ↦ let no : none ≡ some p = sym (find-adopt a ∙ rw (k, gone)) ∙ found in absurd cc
        ]
        | inr (q, old) ↦
            let both : some q ≡ some p = sym (adopt-older a q old).0 ∙ found in
            let same : q ≡ p = cc in omega (arith, room.below a q old)
      ];
      fits = maps.fits_add n g.index e.addr g.next room.fits;
    }

  adopt_all-lookup :
      (es : List OffEntry) (g : Registry maps)
      → Room (length es) g
      → (a : Text)
      → lookup (adopt_all es g) a ≡ elim (lookup g a) [ none ↦ first a es | some e ↦ some e ]
  unfolding adopt_all first
  adopt_all-lookup [] g room a = elim (Option-cases (lookup g a)) [
    | inl e ↦ rw e
    | inr (o, e) ↦ rw e
  ]
  adopt_all-lookup (e ∷ es) g room a =
      adopt_all-lookup es (adopt g e) (adopt-Room g room e) a
      ∙ rw (adopt-lookup g room e a) (elim (Bool-cases (key_eq e.addr a)) [
        | inl k ↦ elim (Option-cases (lookup g a)) [
          | inl o ↦ let front : first a (e ∷ es) ≡ some e = rw (k, first) in rw (k, o) (sym front)
          | inr (o, f) ↦ rw (k, f)
        ]
        | inr k ↦
            let later : first a (e ∷ es) ≡ first a es = rw (k, first) in
            rw k (
              ap (λ (f : Option OffEntry). elim (lookup g a) [ none ↦ f | some o ↦ some o ])
                (sym later))
      ])

  -- Each entry stands under its own address, and fits a line of a cache file.
  abbrev pub IsKept : Registry maps → Type 0
  IsKept g =
      All (λ (e : Text × ℕ). ((g.heap e.1).addr ≡ e.0) × IsStorable (g.heap e.1))
        (maps.entries g.index)

  -- The two files have the same offenses on record, whatever the order of the entries.
  abbrev pub SameEntries : LogFile maps → LogFile maps → Type 0
  SameEntries f g = (a : Text) → lookup f.off_entry a ≡ lookup g.off_entry a

  module _ (g : Registry maps) (a : Text) where
    first-assoc :
        (es : List (Text × ℕ))
        → All (λ (e : Text × ℕ). ((g.heap e.1).addr ≡ e.0) × IsStorable (g.heap e.1)) es
        → first a (map (λ (e : Text × ℕ). g.heap e.1) es)
          ≡ elim (assoc a es) [ none ↦ none | some p ↦ some (g.heap p) ]
    unfolding first assoc
    first-assoc [] h = refl
    first-assoc ((k, p) ∷ es) ((named, s), hs) = elim (Bool-cases (key_eq k a)) [
      | inl t ↦
          let same : key_eq (g.heap p).addr a ≡ true = ap (λ n. key_eq n a) named ∙ t in
          rw (same, first, assoc, t)
      | inr t ↦
          let same : key_eq (g.heap p).addr a ≡ false = ap (λ n. key_eq n a) named ∙ t in
          rw (same, first, assoc, t) (first-assoc es hs)
    ]

    first-contents : (n : ℕ) → maps.Fits n g.index → IsKept g → first a (contents g) ≡ lookup g a
    unfolding contents lookup
    first-contents n fits kept =
        first-assoc (maps.entries g.index) kept
        ∙ ap (λ (o : Option ℕ). elim o [ none ↦ none | some p ↦ some (g.heap p) ])
            (sym (maps.find_entries n g.index a fits))

  kept-IsStorable :
      (g : Registry maps) (es : List (Text × ℕ))
      → All (λ (e : Text × ℕ). ((g.heap e.1).addr ≡ e.0) × IsStorable (g.heap e.1)) es
      → All IsStorable (map (λ (e : Text × ℕ). g.heap e.1) es)
  kept-IsStorable g [] h = tt
  kept-IsStorable g (e ∷ es) ((named, s), hs) = (s, kept-IsStorable g es hs)

  -- LOGFILE_cache_constructor makes from the cache file that LOGFILE_writeCache wrote a LOGFILE
  -- with the same entry under every address. There are at most 2^30 entries, each under its own
  -- address and such that its numbers, address and country fit the line of a cache file, and the
  -- map is one with room.
  pub cache_constructor-write_cache :
      (n : ℕ) (heap : ℕ → OffEntry) (self : LogFile maps)
      → maps.Fits n self.off_entry.index
      → IsKept self.off_entry
      → length (maps.entries self.off_entry.index) ≤ 2 ^ 30
      → (out : LogFile maps) × (cache_constructor heap (write_cache self).0 ≡ some out)
        × SameEntries out self
  unfolding cache_constructor write_cache common_constructor
  cache_constructor-write_cache n heap self fits kept few =
      let g = self.off_entry in
      let es = contents g in
      let start : Registry maps = record { heap = heap; next = 0; index = maps.fresh } in
      let count : length es ≡ length (maps.entries g.index) =
        length-map (maps.entries g.index) (λ (e : Text × ℕ). g.heap e.1) in
      let valid = fresh_registry-IsValid maps heap (length es) (omega (arith, count, few)) in
      let read =
        read_entries-write es (length (write_entries es)) start
          (kept-IsStorable g (maps.entries g.index) kept) (length-write_entries es) in
      let out : LogFile maps = record {
        off_entry = adopt_all es start;
        obsv_tpl = (common_constructor {maps = maps} heap).obsv_tpl;
      } in
      (
        out,
        rw (read, cache_constructor),
        λ a.
            adopt_all-lookup es start (record { below = valid.below; fits = valid.fits }) a
            ∙ rw (lookup-none start a (maps.find_fresh a)) (first-contents g a n fits kept),
      )
