-- ===== src/OffEntry/Locate.antt =====
-- Finding or making the entry of an address, and changing it in place.
use ban2fail.Map.Keys.{key_eq, key_cases}
use ban2fail.OffEntry.Registry.{Registry, modify, enter, locate, lookup}
use ban2fail.OffEntry.{OffEntry, addr_constructor}
use ban2fail.Prelude.{
  ℕ, suc, ◌<◌, ◌≡◌, ◌≢◌, ◌⊎◌, ◌∙◌, ap, sym, refl, arith, inl, inr, Option-cases, if◌then◌else◌,
  Option, none, some, take, store_eq, store_ne,
}
use ban2fail.StrMap.{StrMap, or_else}
use ban2fail.Stdio.{Text}

-- An address that the field of 46 bytes holds.
abbrev pub FitsField : Text → Type 0
FitsField a = take 45 a ≡ a

-- A new entry stands under the address that was looked for.
pub addr-addr_constructor :
    (country : Text → Option Text) (a : Text) → FitsField a → (addr_constructor country a).addr ≡ a
unfolding addr_constructor
addr-addr_constructor country a h = elim (Option-cases (country (take 45 a))) [
  | inl e ↦ rw (e, addr_constructor) h
  | inr (c, e) ↦ rw (e, addr_constructor) h
]

module _ {maps : StrMap ℕ} where
  -- Two addresses have two entries, and there is room for `n` more.
  pub record IsValid (n : ℕ) (g : Registry maps) : Type 0 where
    pub below : (a : Text) (p : ℕ) → maps.find g.index a ≡ some p → p < g.next
    pub apart :
        (a b : Text) (p : ℕ) → maps.find g.index a ≡ some p → maps.find g.index b ≡ some p → a ≡ b
    pub fits : maps.Fits n g.index

  pub lookup-find :
      (g : Registry maps) (a : Text) (p : ℕ)
      → maps.find g.index a ≡ some p
      → lookup g a ≡ some (g.heap p)
  unfolding lookup
  lookup-find g a p e = rw (e, lookup)

  pub lookup-none : (g : Registry maps) (a : Text) → maps.find g.index a ≡ none → lookup g a ≡ none
  unfolding lookup
  lookup-none g a e = rw (e, lookup)

  -- A change through the pointer of `a` changes the entry of `a` and no other.
  module _ {n : ℕ} (g : Registry maps) (valid : IsValid n g) (a : Text) (p : ℕ)
      (found : maps.find g.index a ≡ some p) (f : OffEntry → OffEntry) where
    pub modify-IsValid : IsValid n (modify g p f)
    modify-IsValid = record { below = valid.below; apart = valid.apart; fits = valid.fits }

    pub modify_self : lookup (modify g p f) a ≡ some (f (g.heap p))
    modify_self =
        lookup-find (modify g p f) a p found ∙ ap some (store_eq g.heap p p (f (g.heap p)) refl)

    pub modify_other : (b : Text) → a ≢ b → lookup (modify g p f) b ≡ lookup g b
    modify_other b ne = elim (Option-cases (maps.find g.index b)) [
      | inl e ↦ lookup-none (modify g p f) b e ∙ sym (lookup-none g b e)
      | inr (q, e) ↦
          let apart : q ≢ p = λ s. ne (valid.apart a b p found (e ∙ ap some s)) in
          lookup-find (modify g p f) b q e
          ∙ ap some (store_ne g.heap p q (f (g.heap p)) apart)
          ∙ sym (lookup-find g b q e)
    ]

  -- The outcome of a search that makes the entry if it is missing.
  pub record Located (country : Text → Option Text) (n : ℕ) (g : Registry maps) (a : Text)
      (out : ℕ × Registry maps) : Type 0 where
    pub valid : IsValid n out.1
    pub found : maps.find out.1.index a ≡ some out.0
    pub entry : out.1.heap out.0 ≡ or_else (lookup g a) (addr_constructor country a)
    pub others : (b : Text) → a ≢ b → lookup out.1 b ≡ lookup g b

  module _ (country : Text → Option Text) (n : ℕ) (g : Registry maps) (valid : IsValid (suc n) g)
      (a : Text) (fits : FitsField a) where
    abbrev entered : Registry maps
    entered = enter country g a

    find-entered :
        (b : Text)
        → maps.find entered.index b ≡ (
            if key_eq a b then some (or_else (maps.find g.index b) g.next) else maps.find g.index b)
    unfolding enter
    find-entered b =
        ap (λ k. maps.find (maps.add g.index k g.next) b) (addr-addr_constructor country a fits)
        ∙ maps.find_add n g.index a g.next b valid.fits

    -- Of the addresses of the new table: the one that was entered has the new pointer.
    entered-cases :
        maps.find g.index a ≡ none
        → (b : Text)
        → ((a ≡ b) × (maps.find entered.index b ≡ some g.next))
          ⊎ ((a ≢ b) × (maps.find entered.index b ≡ maps.find g.index b))
    entered-cases e b = elim (key_cases a b) [
      | inl (same, t) ↦ inl (same, find-entered b ∙ rw (t, ap (maps.find g.index) (sym same) ∙ e))
      | inr (ne, t, u) ↦ inr (ne, find-entered b ∙ rw t)
    ]

    enter-Located : maps.find g.index a ≡ none → Located country n g a (g.next, entered)
    unfolding enter
    enter-Located e =
        let c = entered-cases e in
        record {
          valid = record {
            below = λ b q h. elim (c b) [
              | inl (s, f) ↦ let k : some g.next ≡ some q = sym f ∙ h in ground arith
              | inr (ne, f) ↦ omega (arith, valid.below b q (sym f ∙ h))
            ];
            apart = λ b d q h k. elim (c b) [
              | inl (s, f) ↦ elim (c d) [
                | inl (s', f') ↦ sym s ∙ s'
                | inr (ne', f') ↦ absurd (old_new q d (sym f ∙ h) (sym f' ∙ k))
              ]
              | inr (ne, f) ↦ elim (c d) [
                | inl (s', f') ↦ absurd (old_new q b (sym f' ∙ k) (sym f ∙ h))
                | inr (ne', f') ↦ valid.apart b d q (sym f ∙ h) (sym f' ∙ k)
              ]
            ];
            fits = maps.fits_add n g.index _ g.next valid.fits;
          };
          found = elim (c a) [ inl (s, f) ↦ f | inr (ne, f) ↦ absurd (ne refl) ];
          entry =
              store_eq g.heap g.next g.next (addr_constructor country a) refl
              ∙ sym (ap (λ o. or_else o (addr_constructor country a)) (lookup-none g a e));
          others = λ b ne. elim (c b) [
            | inl (s, f) ↦ absurd (ne s)
            | inr (ne', f) ↦ elim (Option-cases (maps.find g.index b)) [
              | inl h ↦ lookup-none entered b (f ∙ h) ∙ sym (lookup-none g b h)
              | inr (q, h) ↦
                  lookup-find entered b q (f ∙ h)
                  ∙ ap some (
                      store_ne g.heap g.next q (addr_constructor country a)
                        (omega (arith, valid.below b q h)))
                  ∙ sym (lookup-find g b q h)
            ]
          ];
        }
      where
        -- The new pointer was under no address before.
        old_new : (q : ℕ) (b : Text) → some g.next ≡ some q → maps.find g.index b ≡ some q → ⊥
        old_new q b e h = let k : g.next ≡ q = cc e in omega (arith, valid.below b q h)

    pub locate-Located : Located country n g a (locate country g a)
    unfolding locate
    locate-Located = elim (Option-cases (maps.find g.index a)) [
      | inl e ↦ rw (e, locate) (enter-Located e)
      | inr (p, e) ↦
          rw (e, locate)
            (record {
              valid = record {
                below = valid.below;
                apart = valid.apart;
                fits = maps.fits_less n g.index valid.fits;
              };
              found = e;
              entry = sym (ap (λ o. or_else o (addr_constructor country a)) (lookup-find g a p e));
              others = λ b ne. refl;
            })
    ]
