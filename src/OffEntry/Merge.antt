-- ===== src/OffEntry/Merge.antt =====
-- The merged entry of each address: counts add up, the severity and the time are the largest.
use ban2fail.Map.Keys.{key_eq, key_cases}
use ban2fail.OffEntry.Locate.{
  FitsField, IsValid, locate-Located, modify-IsValid, modify_self, modify_other,
}
use ban2fail.OffEntry.Registry.{Registry, locate, map_addr, map_all, lookup}
use ban2fail.OffEntry.{OffEntry, addr_constructor, absorb}
use ban2fail.Prelude.{
  ℕ, suc, ◌+◌, ◌%◌, ◌^◌, ◌≤◌, ◌≡◌, ◌∙◌, ap, sym, refl, arith, inl, inr, Bool-cases, max, u32, ltb,
  if◌then◌else◌, Option, none, some, List, [], ◌∷◌, length, All,
}
use ban2fail.StrMap.{StrMap, or_else}
use ban2fail.Stdio.{Text}

module _ (country : Text → Option Text) (addr : Text) where
  -- The specification: the entry of `addr` after one more entry has been seen.
  unfoldable pub merge : Option OffEntry → OffEntry → Option OffEntry
  merge o e =
      if key_eq e.addr addr then some (absorb (or_else o (addr_constructor country addr)) e) else o

  unfoldable pub merge_all : Option OffEntry → List OffEntry → Option OffEntry
  merge_all o [] = o
  merge_all o (e ∷ es) = merge_all (merge o e) es

module _ {maps : StrMap ℕ} (country : Text → Option Text) where
  module _ {n : ℕ} (g : Registry maps) (valid : IsValid (suc n) g) (self : OffEntry)
      (fits : FitsField self.addr) where
    map_addr-IsValid : IsValid n (map_addr country self g)
    unfolding map_addr
    map_addr-IsValid =
        let l = locate-Located country n g valid self.addr fits in
        let (p, h) = locate country g self.addr in
        modify-IsValid h l.valid self.addr p l.found (λ e. absorb e self)

    map_addr-lookup :
        (a : Text) → lookup (map_addr country self g) a ≡ merge country a (lookup g a) self
    unfolding map_addr merge
    map_addr-lookup a =
        let l = locate-Located country n g valid self.addr fits in
        let (p, h) = locate country g self.addr in
        let f = λ (e : OffEntry). absorb e self in
        elim (key_cases self.addr a) [
          | inl (same, t) ↦ rw t (
              ap (lookup (map_addr country self g)) (sym same)
              ∙ modify_self h l.valid self.addr p l.found f
              ∙ ap (λ e. some (absorb e self)) l.entry
              ∙ ap (λ b. some (absorb (or_else (lookup g b) (addr_constructor country b)) self))
                  same)
          | inr (ne, t, u) ↦
              rw t (modify_other h l.valid self.addr p l.found f a ne ∙ l.others a ne)
        ]

  -- A walk of OFFENTRY_map_addr over entries leaves under each address of the map the merged entry
  -- of that address, starting from the one that was there. The map is valid and has room for the
  -- entries, whose addresses have at most 45 characters.
  pub map_all-lookup :
      (es : List OffEntry) (g : Registry maps)
      → IsValid (length es) g
      → All (λ e. FitsField e.addr) es
      → (a : Text) → lookup (map_all country es g) a ≡ merge_all country a (lookup g a) es
  unfolding map_all merge_all
  map_all-lookup [] g valid fits a = refl
  map_all-lookup (e ∷ es) g valid (fits, more) a =
      map_all-lookup es (map_addr country e g) (map_addr-IsValid g valid e fits) more a
      ∙ ap (λ o. merge_all country a o es) (map_addr-lookup g valid e fits a)

module _ (maps : StrMap ℕ) where
  -- No entry yet.
  abbrev pub fresh_registry : (ℕ → OffEntry) → Registry maps
  fresh_registry heap = record { heap = heap; next = 0; index = maps.fresh }

  pub fresh_registry-IsValid :
      (heap : ℕ → OffEntry) (n : ℕ) → n ≤ 2 ^ 30 → IsValid n (fresh_registry heap)
  fresh_registry-IsValid heap n h = record {
    below = λ a p e. let no : none ≡ some p = sym (maps.find_fresh a) ∙ e in absurd cc;
    apart = λ a b p e f. let no : none ≡ some p = sym (maps.find_fresh a) ∙ e in absurd cc;
    fits = maps.fits_fresh n h;
  }

-- The sum of the counts, and the largest severity, of the entries of an address.
module _ (addr : Text) where
  unfoldable pub total : List OffEntry → ℕ
  total [] = 0
  total (e ∷ es) = if key_eq e.addr addr then e.count + total es else total es

  unfoldable pub worst : List OffEntry → ℕ
  worst [] = 0
  worst (e ∷ es) = if key_eq e.addr addr then max e.severity (worst es) else worst es

  max_if : (a b : ℕ) → (if ltb a b then b else a) ≡ max a b
  max_if a b = ground arith

  -- The merged entry of an address that has an entry has the sum of the counts, at 32 bits, and
  -- the largest severity of the entries of that address.
  pub merge_all-totals :
      (country : Text → Option Text) (es : List OffEntry) (m : OffEntry)
      → (out : OffEntry) × (merge_all country addr (some m) es ≡ some out)
        × (out.count % u32 ≡ (m.count + total es) % u32)
        × (out.severity ≡ max m.severity (worst es))
  unfolding merge_all merge total worst absorb
  merge_all-totals country [] m = (m, refl, omega arith, omega arith)
  merge_all-totals country (e ∷ es) m = elim (Bool-cases (key_eq e.addr addr)) [
    | inl t ↦
        let (out, run, count, severity) = merge_all-totals country es (absorb m e) in
        let worse = max_if m.severity e.severity in
        rw (t, merge) (out, run, omega (arith, count), severity ∙ rw worse (omega arith))
    | inr t ↦
        let (out, run, count, severity) = merge_all-totals country es m in
        rw (t, merge) (out, run, omega (arith, count), severity)
  ]
