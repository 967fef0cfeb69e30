-- ===== src/IpTables/Missing.antt =====
-- IPTABLES_fill_in_missing: every address that is blocked gets an entry.
use ban2fail.IpTables.{fill_in_missing, fill_in_all}
use ban2fail.Map.Keys.{key_eq, key_cases}
use ban2fail.OffEntry.Locate.{
  FitsField, addr-addr_constructor, IsValid, Located, locate-Located, lookup-find,
}
use ban2fail.OffEntry.Registry.{Registry, enter, locate, lookup}
use ban2fail.OffEntry.{OffEntry, addr_constructor}
use ban2fail.Prelude.{
  ℕ, suc, ◌+◌, ◌≡◌, ◌∙◌, ap, sym, refl, inl, inr, Bool, true, false, ◌||◌, Option, some,
  Option-cases, store, if◌then◌else◌, List, [], ◌∷◌, length, All,
}
use ban2fail.Stdio.{Text}
use ban2fail.StrMap.{StrMap, or_else}

unfoldable pub listed : Text → List Text → Bool
listed a [] = false
listed a (x ∷ xs) = key_eq x a || listed a xs

-- What stands under an address once entries have been made for those in a list.
abbrev pub filled : (Text → Option Text) → Text → Bool → Option OffEntry → Option OffEntry
filled country a b o = if b then some (or_else o (addr_constructor country a)) else o

filled-step :
    (country : Text → Option Text) (b : Text) (here later : Bool) (o : Option OffEntry)
    → filled country b later (filled country b here o) ≡ filled country b (here || later) o
filled-step country b true true o = refl
filled-step country b true false o = refl
filled-step country b false later o = refl

module _ {maps : StrMap ℕ} (country : Text → Option Text) where
  fill_in_missing-locate :
      (a : Text) (g : Registry maps)
      → FitsField a
      → fill_in_missing country a g ≡ (locate country g a).1
  unfolding fill_in_missing locate enter
  fill_in_missing-locate a g fits = elim (Option-cases (maps.find g.index a)) [
    | inr (p, e) ↦ rw (e, fill_in_missing, locate)
    | inl e ↦
        rw (e, fill_in_missing, locate)
          (ap
            (λ k. record {
              heap = store g.heap g.next (addr_constructor country a);
              next = g.next + 1;
              index = maps.add g.index k g.next;
            })
            (sym (addr-addr_constructor country a fits)))
  ]

  module _ {n : ℕ} (a : Text) (g : Registry maps) (valid : IsValid (suc n) g)
      (fits : FitsField a) where
    made : Located country n g a (locate country g a)
    made = locate-Located country n g valid a fits

    fill_in_missing-IsValid : IsValid n (fill_in_missing country a g)
    fill_in_missing-IsValid = rw (fill_in_missing-locate a g fits) made.valid

    fill_in_missing-lookup :
        (b : Text)
        → lookup (fill_in_missing country a g) b ≡ filled country b (key_eq a b) (lookup g b)
    fill_in_missing-lookup b =
        ap (λ h. lookup h b) (fill_in_missing-locate a g fits) ∙ elim (key_cases a b) [
          | inl (same, t) ↦
              let (p, w) = locate country g a in
              rw t (
                ap (lookup w) (sym same)
                ∙ lookup-find w a p made.found
                ∙ ap some made.entry
                ∙ ap (λ c. some (or_else (lookup g c) (addr_constructor country c))) same)
          | inr (ne, t, u) ↦ rw t (made.others b ne)
        ]

  -- The walk of IPTABLES_fill_in_missing over the blocked addresses makes an entry without
  -- offenses for each of them that has none, and leaves all other entries. The map is valid and
  -- has room for the entries, and the addresses have at most 45 characters.
  pub fill_in_all-lookup :
      (addrs : List Text) (g : Registry maps)
      → IsValid (length addrs) g
      → All FitsField addrs
      → (b : Text)
      → lookup (fill_in_all country addrs g) b ≡ filled country b (listed b addrs) (lookup g b)
  unfolding fill_in_all listed
  fill_in_all-lookup [] g valid fits b = refl
  fill_in_all-lookup (a ∷ addrs) g valid (fit, fits) b =
      fill_in_all-lookup addrs (fill_in_missing country a g) (fill_in_missing-IsValid a g valid fit)
        fits b
      ∙ ap (filled country b (listed b addrs)) (fill_in_missing-lookup a g valid fit b)
      ∙ filled-step country b (key_eq a b) (listed b addrs) (lookup g b)
