-- ===== src/MaxOff/Allowed.antt =====
-- What MAXOFF_init enters, MAXOFF_allowed answers.
use Prim.Native.Nat.{bit_or}
use ban2fail.Map.Keys.{key_eq}
use ban2fail.MaxOff.{
  Limits, unknown, is_zero, address, n_addr, dotted, put_addr, allowed, put_ip, put_ips,
  put_countries, init,
}
use ban2fail.Prelude.{
  ℕ, zero, suc, ◌+◌, ◌-◌, ◌^◌, ◌≡◌, ◌∙◌, ap, ap₂, subst, sym, refl, Bool, true, false, ◌&&◌, ◌||◌,
  ◌==◌, if◌then◌else◌, Option, none, some, List, [], ◌∷◌, length, map, listing,
}
use ban2fail.Prelude.Int.{ℤ, pos}
use ban2fail.Stdio.{Text}
use ban2fail.StrMap.{StrMap, or_else}

unfoldable pub mem_text : Text → List Text → Bool
mem_text a [] = false
mem_text a (x ∷ xs) = key_eq x a || mem_text a xs

-- The answer that is already there counts; else a text of the list gets `n`.
abbrev pub joined : Option ℤ → Bool → ℤ → Option ℤ
joined (some m) b n = some m
joined none b n = if b then some n else none

joined_step :
    (o : Option ℤ) (here later : Bool) (n : ℤ)
    → joined (if here then some (or_else o n) else o) later n ≡ joined o (here || later) n
joined_step none true later n = refl
joined_step none false later n = refl
joined_step (some m) true later n = refl
joined_step (some m) false later n = refl

module _ {maps : StrMap ℤ} (n : ℤ) where
  put_addresses-find :
      (as_ : List Text) (s : Limits maps)
      → maps.Fits (length as_) s.addr_map
      → (out : Limits maps) × (put_ips n (map address as_) s ≡ some out)
        × (out.cntry_map ≡ s.cntry_map)
        × ((a : Text)
            → maps.find out.addr_map a ≡ joined (maps.find s.addr_map a) (mem_text a as_) n)
  unfolding put_ips put_ip mem_text
  put_addresses-find [] s fits = (s, refl, refl, λ a. same (maps.find s.addr_map a))
    where
      same : (o : Option ℤ) → o ≡ joined o false n
      same none = refl
      same (some m) = refl
  put_addresses-find (x ∷ xs) s fits =
      let t = put_addr s x n in
      let (out, run, kept, found) =
        put_addresses-find xs t (maps.fits_add (length xs) s.addr_map x n fits) in
      (
        out,
        run,
        kept,
        λ a.
            found a
            ∙ ap (λ o. joined o (mem_text a xs) n) (maps.find_add (length xs) s.addr_map x n a fits)
            ∙ joined_step (maps.find s.addr_map a) (key_eq x a) (mem_text a xs) n,
      )

  put_countries-find :
      (cs : List Text) (s : Limits maps)
      → maps.Fits (length cs) s.cntry_map
      → ((put_countries n cs s).addr_map ≡ s.addr_map)
        × ((c : Text)
            → maps.find (put_countries n cs s).cntry_map c
              ≡ joined (maps.find s.cntry_map c) (mem_text c cs) n)
  unfolding put_countries mem_text
  put_countries-find [] s fits = (refl, λ a. same (maps.find s.cntry_map a))
    where
      same : (o : Option ℤ) → o ≡ joined o false n
      same none = refl
      same (some m) = refl
  put_countries-find (x ∷ xs) s fits =
      let t = record s { cntry_map = maps.add s.cntry_map x n } in
      let (kept, found) =
        put_countries-find xs t (maps.fits_add (length xs) s.cntry_map x n fits) in
      (
        kept,
        λ a.
            found a
            ∙ ap (λ o. joined o (mem_text a xs) n)
                (maps.find_add (length xs) s.cntry_map x n a fits)
            ∙ joined_step (maps.find s.cntry_map a) (key_eq x a) (mem_text a xs) n,
      )

-- The answer for an address: its own number unless that is 0, else the one of its country.
unfoldable pub limit : Option ℤ → Option ℤ → ℤ
limit by_addr by_country =
    if is_zero (or_else by_addr (pos 0))
    then or_else by_country (pos 0)
    else or_else by_addr (pos 0)

module _ (maps : StrMap ℤ) (country : Text → Option Text) where
  -- MAXOFF_init for a number, single addresses and countries succeeds, and MAXOFF_allowed then
  -- answers for an address the number that was first entered for it, or, if that is 0 or missing,
  -- the one first entered for its country ("unknown" where there is none), or 0. The maps have
  -- room for the entries.
  pub init-allowed :
      (n : ℤ) (addrs countries : List Text) (s : Limits maps)
      → maps.Fits (length addrs) s.addr_map
      → maps.Fits (length countries) s.cntry_map
      → (out : Limits maps) × (init (some n) (map address addrs) countries s ≡ some out)
        × ((a : Text)
            → let c = or_else (country a) unknown in
              allowed country out a
              ≡ limit
                  (joined (maps.find s.addr_map a) (mem_text a addrs) n)
                  (joined (maps.find s.cntry_map c) (mem_text c countries) n))
  unfolding init allowed limit
  init-allowed n addrs countries s fits more =
      let (t, run, kept, found) = put_addresses-find n addrs s fits in
      let (same, looked) =
        put_countries-find n countries t (subst (maps.Fits (length countries)) (sym kept) more) in
      rw (run, init)
        (
          put_countries n countries t,
          refl,
          λ a.
              let c = or_else (country a) unknown in
              ap₂ limit (ap (λ m. maps.find m a) same ∙ found a)
                (looked c ∙ ap (λ m. joined (maps.find m c) (mem_text c countries) n) kept),
        )

unfoldable check_below : ℕ → Bool
check_below zero = true
check_below (suc k) = (n_addr (16 + k) + 1 == 2 ^ (16 - k)) && check_below k

-- The first `k` addresses of a subnet, as text
abbrev pub hosts : ℕ → ℕ → List Text
hosts net k = listing (λ i. dotted (bit_or net i)) k
