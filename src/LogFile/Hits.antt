-- ===== src/LogFile/Hits.antt =====
-- What a log file is turned into: each address with the offenses that the targets find in the lines.
use ban2fail.LogFile.{
  LogFile, Proto, strip, when_of, offend, hit, target_loop, line_loop, common_constructor,
  log_constructor,
}
use ban2fail.Map.Keys.{key_eq, key_cases}
use ban2fail.OffEntry.Locate.{
  FitsField, IsValid, locate-Located, modify-IsValid, modify_self, modify_other,
}
use ban2fail.OffEntry.Merge.{fresh_registry-IsValid}
use ban2fail.OffEntry.Registry.{Registry, locate, lookup}
use ban2fail.OffEntry.{OffEntry, addr_constructor, register}
use ban2fail.Prelude.{
  ℕ, suc, ◌+◌, ◌%◌, ◌^◌, ◌≤◌, ◌<◌, ◌≡◌, ◌⊎◌, ◌∙◌, ap, subst, sym, refl, arith, inl, inr, Bool-cases,
  Option-cases, max, u32, ltb, if◌then◌else◌, Option, none, some, List, [], ◌∷◌, ◌++◌, length, take,
  All,
}
use ban2fail.Prelude.Int.{ℤ}
use ban2fail.Stdio.{Text}
use ban2fail.StrMap.{StrMap, or_else}
use ban2fail.Target.{Target, scan}

-- One offense: the address, the severity of the target and the time.
pub record Hit : Type 0 where
  pub addr : Text
  pub severity : ℕ
  pub when : ℤ

unfoldable pub hits_in : Proto → Text → List Target → List Hit
hits_in proto lbuf [] = []
hits_in proto lbuf (tg ∷ tgs) = elim (scan tg 128 lbuf) [
  | none ↦ hits_in proto lbuf tgs
  | some addr ↦
      record { addr = addr; severity = tg.severity; when = when_of proto lbuf }
      ∷ hits_in proto lbuf tgs
]

-- All the offenses of a file, in order.
unfoldable pub hits : Proto → List (ℕ × Text) → List Hit
hits proto [] = []
hits proto ((at, line) ∷ rest) = hits_in proto (strip line) proto.targets ++ hits proto rest

module _ {maps : StrMap ℕ} (country : Text → Option Text) where
  unfoldable pub offend_all : List Hit → Registry maps → Registry maps
  offend_all [] g = g
  offend_all (h ∷ hs) g = offend_all hs (offend country h.addr h.severity h.when g)

  offend_all-append :
      (hs ks : List Hit) (g : Registry maps)
      → offend_all (hs ++ ks) g ≡ offend_all ks (offend_all hs g)
  unfolding offend_all
  offend_all-append [] ks g = refl
  offend_all-append (h ∷ hs) ks g =
      offend_all-append hs ks (offend country h.addr h.severity h.when g)

-- The entry of an address after one hit more.
unfoldable pub count_hit : (Text → Option Text) → Text → Option OffEntry → Hit → Option OffEntry
count_hit country a o h =
    if key_eq h.addr a
    then some (register (or_else o (addr_constructor country a)) h.severity h.when)
    else o

unfoldable pub count_hits :
    (Text → Option Text) → Text → Option OffEntry → List Hit → Option OffEntry
count_hits country a o [] = o
count_hits country a o (h ∷ hs) = count_hits country a (count_hit country a o h) hs

module _ {maps : StrMap ℕ} (proto : Proto) where
  target_loop-hits :
      (at : ℕ) (lbuf : Text) (tgs : List Target) (self : LogFile maps)
      → (target_loop proto at lbuf tgs self).off_entry
        ≡ offend_all proto.country (hits_in proto lbuf tgs) self.off_entry
  unfolding target_loop hits_in offend_all hit
  target_loop-hits at lbuf [] self = refl
  target_loop-hits at lbuf (tg ∷ tgs) self = elim (Option-cases (scan tg 128 lbuf)) [
    | inl e ↦ rw (e, target_loop, hits_in) (target_loop-hits at lbuf tgs self)
    | inr (addr, e) ↦
        rw (e, target_loop, hits_in)
          (target_loop-hits at lbuf tgs (hit proto at lbuf addr tg.severity self))
  ]

  pub line_loop-hits :
      (lines : List (ℕ × Text)) (self : LogFile maps)
      → (line_loop proto lines self).off_entry
        ≡ offend_all proto.country (hits proto lines) self.off_entry
  unfolding line_loop hits offend_all
  line_loop-hits [] self = refl
  line_loop-hits ((at, line) ∷ rest) self =
      line_loop-hits rest (target_loop proto at (strip line) proto.targets self)
      ∙ ap (offend_all proto.country (hits proto rest))
          (target_loop-hits at (strip line) proto.targets self)
      ∙ sym (
          offend_all-append proto.country (hits_in proto (strip line) proto.targets)
            (hits proto rest) self.off_entry)

module _ {maps : StrMap ℕ} (country : Text → Option Text) where
  module _ {n : ℕ} (g : Registry maps) (valid : IsValid (suc n) g) (h : Hit)
      (fits : FitsField h.addr) where
    pub offend-IsValid : IsValid n (offend country h.addr h.severity h.when g)
    unfolding offend
    offend-IsValid =
        let l = locate-Located country n g valid h.addr fits in
        let (p, w) = locate country g h.addr in
        modify-IsValid w l.valid h.addr p l.found (λ e. register e h.severity h.when)

    offend-lookup :
        (a : Text)
        → lookup (offend country h.addr h.severity h.when g) a ≡ count_hit country a (lookup g a) h
    unfolding offend count_hit
    offend-lookup a =
        let l = locate-Located country n g valid h.addr fits in
        let (p, w) = locate country g h.addr in
        let f = λ (e : OffEntry). register e h.severity h.when in
        elim (key_cases h.addr a) [
          | inl (same, t) ↦ rw t (
              ap (lookup (offend country h.addr h.severity h.when g)) (sym same)
              ∙ modify_self w l.valid h.addr p l.found f
              ∙ ap (λ e. some (f e)) l.entry
              ∙ ap (λ b. some (f (or_else (lookup g b) (addr_constructor country b)))) same)
          | inr (ne, t, u) ↦ rw t (modify_other w l.valid h.addr p l.found f a ne ∙ l.others a ne)
        ]

  offend_all-lookup :
      (hs : List Hit) (g : Registry maps)
      → IsValid (length hs) g
      → All (λ h. FitsField h.addr) hs
      → (a : Text) → lookup (offend_all country hs g) a ≡ count_hits country a (lookup g a) hs
  unfolding offend_all count_hits
  offend_all-lookup [] g valid fits a = refl
  offend_all-lookup (h ∷ hs) g valid (fits, more) a =
      offend_all-lookup hs (offend country h.addr h.severity h.when g)
        (offend-IsValid g valid h fits) more a
      ∙ ap (λ o. count_hits country a o hs) (offend-lookup g valid h fits a)

-- How often an address offends, and how severely at most.
module _ (a : Text) where
  unfoldable pub n_hits : List Hit → ℕ
  n_hits [] = 0
  n_hits (h ∷ hs) = if key_eq h.addr a then suc (n_hits hs) else n_hits hs

  unfoldable pub worst_hit : List Hit → ℕ
  worst_hit [] = 0
  worst_hit (h ∷ hs) = if key_eq h.addr a then max h.severity (worst_hit hs) else worst_hit hs

  max_if : (m n : ℕ) → (if ltb m n then n else m) ≡ max m n
  max_if m n = ground arith

  count_hits-some :
      (country : Text → Option Text) (hs : List Hit) (m : OffEntry)
      → (out : OffEntry) × (count_hits country a (some m) hs ≡ some out)
        × (out.count % u32 ≡ (m.count + n_hits hs) % u32)
        × (out.severity ≡ max m.severity (worst_hit hs))
  unfolding count_hits count_hit n_hits worst_hit register
  count_hits-some country [] m = (m, refl, omega arith, omega arith)
  count_hits-some country (h ∷ hs) m = elim (Bool-cases (key_eq h.addr a)) [
    | inl t ↦
        let (out, run, count, severity) =
          count_hits-some country hs (register m h.severity h.when) in
        let worse = max_if m.severity h.severity in
        rw (t, count_hit) (out, run, omega (arith, count), severity ∙ rw worse (omega arith))
    | inr t ↦
        let (out, run, count, severity) = count_hits-some country hs m in
        rw (t, count_hit) (out, run, omega (arith, count), severity)
  ]

  -- What the map of a log file has under an address.
  pub Tallied : List Hit → Option OffEntry → Type 0
  Tallied hs o =
      ((n_hits hs ≡ 0) × (o ≡ none))
      ⊎ ((0 < n_hits hs)
          × ((out : OffEntry) × (o ≡ some out)
              × (out.count % u32 ≡ n_hits hs % u32)
              × (out.severity ≡ worst_hit hs)))

  first_entry :
      (country : Text → Option Text) (h : Hit)
      → ((register (addr_constructor country a) h.severity h.when).count ≡ 1)
        × ((register (addr_constructor country a) h.severity h.when).severity ≡ h.severity)
  unfolding register addr_constructor
  first_entry country h = elim (Option-cases (country (take 45 a))) [
    | inl e ↦ rw (e, addr_constructor) (refl, max_if 0 h.severity ∙ omega arith)
    | inr (c, e) ↦ rw (e, addr_constructor) (refl, max_if 0 h.severity ∙ omega arith)
  ]

  count_hits-Tallied :
      (country : Text → Option Text) (hs : List Hit) → Tallied hs (count_hits country a none hs)
  unfolding count_hits count_hit n_hits worst_hit Tallied
  count_hits-Tallied country [] = inl (refl, refl)
  count_hits-Tallied country (h ∷ hs) = elim (Bool-cases (key_eq h.addr a)) [
    | inl t ↦
        let e = register (addr_constructor country a) h.severity h.when in
        let (out, run, count, severity) = count_hits-some country hs e in
        let (one, sev) = first_entry country h in
        rw (t, count_hit, n_hits, worst_hit)
          (inr (
            omega arith,
            (out, run, omega (arith, count, one), severity ∙ ap (λ s. max s (worst_hit hs)) sev),
          ))
    | inr t ↦ rw (t, count_hit) (count_hits-Tallied country hs)
  ]

  lookup-fresh :
      (maps : StrMap ℕ) (heap : ℕ → OffEntry)
      → lookup (common_constructor {maps = maps} heap).off_entry a ≡ none
  unfolding lookup common_constructor
  lookup-fresh maps heap = rw (maps.find_fresh a, lookup)

  -- The map that LOGFILE_log_constructor makes of the lines of a file has nothing under an address
  -- that no target finds in any line, and under every other address one entry, with the number of
  -- the hits at 32 bits and the highest severity among them. There are at most 2^30 hits, all of
  -- addresses of at most 45 characters.
  pub log_constructor-Tallied :
      (maps : StrMap ℕ) (heap : ℕ → OffEntry) (proto : Proto) (lines : List (ℕ × Text))
      → length (hits proto lines) ≤ 2 ^ 30
      → All (λ h. FitsField h.addr) (hits proto lines)
      → Tallied
          (hits proto lines)
          (lookup (log_constructor {maps = maps} heap proto lines).off_entry a)
  unfolding log_constructor Tallied common_constructor
  log_constructor-Tallied maps heap proto lines few fits =
      subst (Tallied (hits proto lines))
        (sym (
          ap (λ g. lookup g a) (line_loop-hits proto lines (common_constructor heap))
          ∙ offend_all-lookup proto.country (hits proto lines) (common_constructor heap).off_entry
              (fresh_registry-IsValid maps heap (length (hits proto lines)) few) fits a
          ∙ ap (λ o. count_hits proto.country a o (hits proto lines)) (lookup-fresh maps heap)))
        (count_hits-Tallied proto.country (hits proto lines))
