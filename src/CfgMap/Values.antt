-- ===== src/CfgMap/Values.antt =====
-- The values that stand under a symbol of the configuration, as `CFGMAP_append` puts them there.
use ban2fail.CfgMap.{
  Value, Entry, CfgMap, entry_constructor, append_value, construct, modify, create, obtain,
  remember, append,
}
use ban2fail.Map.Keys.{key_eq, key_cases}
use ban2fail.Prelude.{
  ℕ, suc, ◌^◌, ◌≤◌, ◌<◌, ◌≡◌, ◌≢◌, ◌⊎◌, ◌∙◌, ap, sym, refl, arith, inl, inr, Option-cases,
  if◌then◌else◌, none, some, List, [], ◌∷◌, ◌++◌, append-nil, store_eq, store_ne, add32, ℕ_discrete,
}
use ban2fail.Stdio.{Text}
use ban2fail.StrMap.{StrMap, or_else}

-- What an assignment adds to the values of its symbol; one without a value adds none.
abbrev pub gained : ℕ → Text → List Value
gained serial_no [] = []
gained serial_no (c ∷ cs) = record { str = c ∷ cs; serial_no = serial_no } ∷ []

module _ {maps : StrMap ℕ} where
  -- Two symbols have two entries, each knows its symbol, and there is room for `n` more.
  pub record IsValid (n : ℕ) (s : CfgMap maps) : Type 0 where
    pub below : (k : Text) (p : ℕ) → maps.find s.entry_map k ≡ some p → p < s.n_entries
    pub named : (k : Text) (p : ℕ) → maps.find s.entry_map k ≡ some p → (s.heap p).symbol ≡ k
    pub fits : maps.Fits n s.entry_map

  pub construct-IsValid : (n : ℕ) → n ≤ 2 ^ 30 → IsValid n (construct {maps = maps})
  unfolding construct
  construct-IsValid n h = record {
    below = λ k p e. let no : none ≡ some p = sym (maps.find_fresh k) ∙ e in absurd cc;
    named = λ k p e. let no : none ≡ some p = sym (maps.find_fresh k) ∙ e in absurd cc;
    fits = maps.fits_fresh n h;
  }

  -- The values under a symbol, in order.
  unfoldable pub values : CfgMap maps → Text → List Value
  values s k = elim (maps.find s.entry_map k) [ none ↦ [] | some p ↦ (s.heap p).value_lst ]

  pub values-find :
      (s : CfgMap maps) (k : Text) (p : ℕ)
      → maps.find s.entry_map k ≡ some p
      → values s k ≡ (s.heap p).value_lst
  unfolding values
  values-find s k p e = rw (e, values)

  pub values-none : (s : CfgMap maps) (k : Text) → maps.find s.entry_map k ≡ none → values s k ≡ []
  unfolding values
  values-none s k e = rw (e, values)

  -- A change of the entry of `a` that keeps its symbol.
  module _ {n : ℕ} (s : CfgMap maps) (valid : IsValid n s) (a : Text) (p : ℕ)
      (found : maps.find s.entry_map a ≡ some p) (f : Entry → Entry)
      (keeps : (f (s.heap p)).symbol ≡ (s.heap p).symbol) where
    symbol_modify : (q : ℕ) → ((modify s p f).heap q).symbol ≡ (s.heap q).symbol
    symbol_modify q = elim (eq_cases q) [
      | inl e ↦
          ap (λ x. x.symbol) (store_eq s.heap p q (f (s.heap p)) e)
          ∙ keeps
          ∙ ap (λ i. (s.heap i).symbol) (sym e)
      | inr e ↦ ap (λ x. x.symbol) (store_ne s.heap p q (f (s.heap p)) e)
    ]
      where
        eq_cases : (q : ℕ) → (q ≡ p) ⊎ (q ≢ p)
        eq_cases q = elim (ℕ_discrete q p) [ yes e ↦ inl e | no e ↦ inr e ]

    pub modify-IsValid : IsValid n (modify s p f)
    modify-IsValid = record {
      below = valid.below;
      named = λ k q e. symbol_modify q ∙ valid.named k q e;
      fits = valid.fits;
    }

    pub modify_self : values (modify s p f) a ≡ (f (s.heap p)).value_lst
    modify_self =
        values-find (modify s p f) a p found
        ∙ ap (λ x. x.value_lst) (store_eq s.heap p p (f (s.heap p)) refl)

    pub modify_other : (k : Text) → a ≢ k → values (modify s p f) k ≡ values s k
    modify_other k ne = elim (Option-cases (maps.find s.entry_map k)) [
      | inl e ↦ values-none (modify s p f) k e ∙ sym (values-none s k e)
      | inr (q, e) ↦
          let apart : q ≢ p = λ i. ne (
            sym (valid.named a p found)
            ∙ ap (λ j. (s.heap j).symbol) (sym i)
            ∙ valid.named k q e) in
          values-find (modify s p f) k q e
          ∙ ap (λ x. x.value_lst) (store_ne s.heap p q (f (s.heap p)) apart)
          ∙ sym (values-find s k q e)
    ]

  -- The outcome of `obtain`
  record Obtained (n : ℕ) (s : CfgMap maps) (a : Text) (out : ℕ × CfgMap maps) : Type 0 where
    valid : IsValid n out.1
    found : maps.find out.1.entry_map a ≡ some out.0
    same : (k : Text) → values out.1 k ≡ values s k
    seq : out.1.serial_no_seq ≡ s.serial_no_seq

  module _ (n : ℕ) (s : CfgMap maps) (valid : IsValid (suc n) s) (a : Text) where
    find-create :
        (k : Text)
        → maps.find (create s a).entry_map k ≡ (
            if key_eq a k
            then some (or_else (maps.find s.entry_map k) s.n_entries)
            else maps.find s.entry_map k)
    unfolding create
    find-create k = maps.find_add n s.entry_map a s.n_entries k valid.fits

    -- What a key leads to once the entry of `a`, which was missing, is there.
    data Leads (k : Text) : Type 0 where
      itself :
          a ≡ k
          → maps.find (create s a).entry_map k ≡ some s.n_entries
          → maps.find s.entry_map k ≡ none
          → Leads k
      other : a ≢ k → maps.find (create s a).entry_map k ≡ maps.find s.entry_map k → Leads k

    leads : maps.find s.entry_map a ≡ none → (k : Text) → Leads k
    leads missing k = elim (key_cases a k) [
      | inl (e, t) ↦
          let gone : maps.find s.entry_map k ≡ none =
            ap (maps.find s.entry_map) (sym e) ∙ missing in
          itself e (find-create k ∙ rw (t, gone) refl) gone
      | inr (ne, t, u) ↦ other ne (find-create k ∙ rw t refl)
    ]

    module _ (missing : maps.find s.entry_map a ≡ none) where
      create-below :
          (k : Text) (p : ℕ) → maps.find (create s a).entry_map k ≡ some p → p < suc s.n_entries
      unfolding create
      create-below k p e = elim (leads missing k) [
        | itself _ f _ ↦ let same : some s.n_entries ≡ some p = sym f ∙ e in ground arith
        | other _ f ↦ omega (arith, valid.below k p (sym f ∙ e))
      ]

      create-named :
          (k : Text) (p : ℕ)
          → maps.find (create s a).entry_map k ≡ some p
          → ((create s a).heap p).symbol ≡ k
      unfolding create entry_constructor
      create-named k p e = elim (leads missing k) [
        | itself i f _ ↦
            let both : some s.n_entries ≡ some p = sym f ∙ e in
            let same : p ≡ s.n_entries = cc in
            ap (λ x. x.symbol) (store_eq s.heap s.n_entries p (entry_constructor a) same) ∙ i
        | other _ f ↦
            let old : maps.find s.entry_map k ≡ some p = sym f ∙ e in
            let apart : p ≢ s.n_entries = λ i. omega (arith, valid.below k p old) in
            ap (λ x. x.symbol) (store_ne s.heap s.n_entries p (entry_constructor a) apart)
            ∙ valid.named k p old
      ]

      create-values : (k : Text) → values (create s a) k ≡ values s k
      unfolding create entry_constructor
      create-values k = elim (leads missing k) [
        | itself _ f gone ↦
            values-find (create s a) k s.n_entries f
            ∙ ap (λ x. x.value_lst)
                (store_eq s.heap s.n_entries s.n_entries (entry_constructor a) refl)
            ∙ sym (values-none s k gone)
        | other _ f ↦ elim (Option-cases (maps.find s.entry_map k)) [
          | inl e ↦ values-none (create s a) k (f ∙ e) ∙ sym (values-none s k e)
          | inr (q, e) ↦
              let apart : q ≢ s.n_entries = λ i. omega (arith, valid.below k q e) in
              values-find (create s a) k q (f ∙ e)
              ∙ ap (λ x. x.value_lst) (store_ne s.heap s.n_entries q (entry_constructor a) apart)
              ∙ sym (values-find s k q e)
        ]
      ]

    obtain-Obtained : Obtained n s a (obtain s a)
    unfolding obtain create
    obtain-Obtained = elim (Option-cases (maps.find s.entry_map a)) [
      | inl e ↦
          rw (e, obtain)
            (record {
              valid = record {
                below = create-below e;
                named = create-named e;
                fits = maps.fits_add n s.entry_map a s.n_entries valid.fits;
              };
              found = elim (leads e a) [ itself _ f _ ↦ f | other ne _ ↦ absurd (ne refl) ];
              same = create-values e;
              seq = refl;
            })
      | inr (p, e) ↦
          rw (e, obtain)
            (record {
              valid = record {
                below = valid.below;
                named = valid.named;
                fits = maps.fits_less n s.entry_map valid.fits;
              };
              found = e;
              same = λ k. refl;
              seq = refl;
            })
    ]

  module _ {n : ℕ} {s : CfgMap maps} {a : Text} {out : ℕ × CfgMap maps}
      (o : Obtained n s a out) where
    remember-IsValid : (v : Text) → IsValid n (remember out v)
    unfolding remember append_value
    remember-IsValid [] = o.valid
    remember-IsValid (c ∷ cs) =
        let f = append_value (c ∷ cs) (add32 out.1.serial_no_seq 1) in
        let w = modify-IsValid out.1 o.valid a out.0 o.found f refl in
        record { below = w.below; named = w.named; fits = w.fits }

    remember-values :
        (v k : Text)
        → values (remember out v) k
          ≡ (if key_eq a k then values s k ++ gained (add32 s.serial_no_seq 1) v else values s k)
    unfolding remember append_value values
    remember-values [] k = elim (key_cases a k) [
      | inl (e, t) ↦ rw t (o.same k ∙ sym (append-nil (values s k)))
      | inr (ne, t, u) ↦ rw t (o.same k)
    ]
    remember-values (c ∷ cs) k =
        let f = append_value (c ∷ cs) (add32 out.1.serial_no_seq 1) in
        elim (key_cases a k) [
          | inl (e, t) ↦ rw t (
              ap (values (modify out.1 out.0 f)) (sym e)
              ∙ modify_self out.1 o.valid a out.0 o.found f refl
              ∙ ap (λ l. l ++ gained (add32 out.1.serial_no_seq 1) (c ∷ cs))
                  (sym (values-find out.1 a out.0 o.found) ∙ o.same a ∙ ap (values s) e)
              ∙ ap (λ q. values s k ++ gained (add32 q 1) (c ∷ cs)) o.seq)
          | inr (ne, t, u) ↦
              rw t (modify_other out.1 o.valid a out.0 o.found f refl k ne ∙ o.same k)
        ]

  module _ (n : ℕ) (s : CfgMap maps) (valid : IsValid (suc n) s) (a v : Text) where
    pub append-IsValid : IsValid n (append s a v)
    unfolding append
    append-IsValid = remember-IsValid (obtain-Obtained n s valid a) v

    -- `CFGMAP_append` puts the value behind those of its symbol, with the next serial number.
    pub append-values :
        (k : Text)
        → values (append s a v) k
          ≡ (if key_eq a k then values s k ++ gained (add32 s.serial_no_seq 1) v else values s k)
    unfolding append
    append-values = remember-values (obtain-Obtained n s valid a) v
