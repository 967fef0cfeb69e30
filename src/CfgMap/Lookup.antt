-- ===== src/CfgMap/Lookup.antt =====
-- What the lookups of cfgmap.c answer after a list of assignments: the values assigned to the
-- symbol, in order.
use ban2fail.CfgMap.Values.{
  IsValid, values, values-find, values-none, gained, construct-IsValid, append-IsValid,
  append-values,
}
use ban2fail.CfgMap.{
  Value, Entry, Tuple, CfgMap, value, value_sn, num_values, single_of, last_of, load_tuples,
  tuples_of, construct, append, modify, find, find_single_value, find_last_value, find_tuples,
}
use ban2fail.Map.Keys.{key_eq, key_cases}
use ban2fail.Prelude.{
  ℕ, zero, suc, ◌+◌, ◌^◌, ◌≤◌, ◌<◌, ◌≡◌, ◌∙◌, ap, ap₂, subst, sym, refl, arith, inl, inr,
  Option-cases, if◌then◌else◌, Option, none, some, List, [], ◌∷◌, ◌++◌, append-nil, append_assoc,
  map, length, length-map, get_elem?, map-append, last, get_elem?-last, store_eq, add32, sub32, u32,
  ◌==◌, false,
}
use ban2fail.Stdio.{Text}
use ban2fail.StrMap.{StrMap}

-- A symbol and its value
abbrev pub Assignment : Type 0
Assignment = Text × Text

abbrev pub given : Text → List Text
given [] = []
given (c ∷ cs) = (c ∷ cs) ∷ []

-- The values that a list of assignments gives to a symbol.
unfoldable pub assigned : Text → List Assignment → List Text
assigned k [] = []
assigned k ((a, v) ∷ l) = if key_eq a k then given v ++ assigned k l else assigned k l

abbrev pub strings : List Value → List Text
strings vs = map (λ v. v.str) vs

strings-gained : (i : ℕ) (v : Text) → strings (gained i v) ≡ given v
strings-gained i [] = refl
strings-gained i (c ∷ cs) = refl

-- Lookups, by the values that stand under the symbol
value-strings : (e : Entry) (i : ℕ) → value e i ≡ get_elem? (strings e.value_lst) i
unfolding value
value-strings e i = go e.value_lst i
  where
    go :
        (vs : List Value) (i : ℕ)
        → (elim (get_elem? vs i) [ none ↦ none | some v ↦ some v.str ]) ≡ get_elem? (strings vs) i
    go [] i = refl
    go (v ∷ vs) zero = refl
    go (v ∷ vs) (suc i) = go vs i

-- The values of an entry that may be missing
abbrev pub entry_values : Option Entry → List Text
entry_values none = []
entry_values (some e) = strings e.value_lst

last_of-strings :
    (e : Entry) → length e.value_lst < u32 → last_of (some e) ≡ last (strings e.value_lst)
unfolding last_of num_values
last_of-strings e h = value-strings e (sub32 (length e.value_lst) 1) ∙ go e.value_lst h
  where
    go :
        (l : List Value)
        → length l < u32
        → get_elem? (strings l) (sub32 (length l) 1) ≡ last (strings l)
    go [] h = refl
    go (v ∷ l) h =
        let i : sub32 (suc (length l)) 1 ≡ length (strings l) =
          omega (arith, length-map l (λ w. w.str)) in
        rw i (get_elem?-last v.str (strings l))

-- The value of a list of one
abbrev pub only {ℓ} : {A : Type ℓ} → List A → Option A
only [] = none
only (x ∷ []) = some x
only (x ∷ y ∷ xs) = none

single_of-strings : (e : Entry) → single_of (some e) ≡ only (strings e.value_lst)
unfolding single_of num_values
single_of-strings e =
    ap (λ o. if length e.value_lst == 1 then o else none) (value-strings e 0) ∙ go e.value_lst
  where
    go :
        (l : List Value)
        → (if length l == 1 then get_elem? (strings l) 0 else none) ≡ only (strings l)
    go [] = refl
    go (v ∷ []) = refl
    go (v ∷ w ∷ l) = let many : (suc (suc (length l)) == 1) ≡ false = ground arith in rw many refl

abbrev pub tuple : Text → Value → Tuple
tuple k v = record { key = k; value = v.str; serial_no = v.serial_no }

load_tuples-from :
    (e : Entry) (i : ℕ) (l : List Value)
    → ((j : ℕ) → get_elem? e.value_lst (i + j) ≡ get_elem? l j)
    → load_tuples e i (length l) ≡ map (tuple e.symbol) l
unfolding load_tuples value_sn
load_tuples-from e i [] h = refl
load_tuples-from e i (v ∷ l) h =
    let here : get_elem? e.value_lst i ≡ some v = ap (get_elem? e.value_lst) (omega arith) ∙ h 0 in
    let rest =
      load_tuples-from e (i + 1) l (λ j. ap (get_elem? e.value_lst) (omega arith) ∙ h (suc j)) in
    rw (here, load_tuples) (ap (λ m. tuple e.symbol v ∷ m) rest)

load_tuples-map : (e : Entry) → load_tuples e 0 (num_values e) ≡ map (tuple e.symbol) e.value_lst
unfolding num_values
load_tuples-map e = load_tuples-from e 0 e.value_lst (λ j. ap (get_elem? e.value_lst) (omega arith))

module _ {maps : StrMap ℕ} where
  -- `CFGMAP_append` for each of a list of assignments
  unfoldable pub append_all : CfgMap maps → List Assignment → CfgMap maps
  append_all s [] = s
  append_all s ((a, v) ∷ l) = append_all (append s a v) l

  append_all-strings_from :
      (l : List Assignment) (s : CfgMap maps)
      → IsValid (length l) s
      → (k : Text) → strings (values (append_all s l) k) ≡ strings (values s k) ++ assigned k l
  unfolding append_all assigned
  append_all-strings_from [] s valid k = sym (append-nil (strings (values s k)))
  append_all-strings_from ((a, v) ∷ l) s valid k =
      append_all-strings_from l (append s a v) (append-IsValid (length l) s valid a v) k
      ∙ ap (λ vs. strings vs ++ assigned k l) (append-values (length l) s valid a v k)
      ∙ elim (key_cases a k) [
        | inl (e, t) ↦ rw t (
            ap (λ vs. vs ++ assigned k l)
              (map-append (λ w. w.str) (values s k) (gained (add32 s.serial_no_seq 1) v)
                ∙ ap (λ g. strings (values s k) ++ g) (strings-gained (add32 s.serial_no_seq 1) v))
            ∙ append_assoc (strings (values s k)) (given v) (assigned k l))
        | inr (ne, t, u) ↦ rw t refl
      ]

  module _ (s : CfgMap maps) (k : Text) where
    -- The entry that CFGMAP_find returns has the values of its symbol.
    data Found : Option Entry × CfgMap maps → Type 0 where
      absent : values s k ≡ [] → Found (none, s)
      present :
          (e : Entry) (t : CfgMap maps)
          → e.value_lst ≡ values s k
          → ((n : ℕ) → IsValid n s → e.symbol ≡ k)
          → Found (some e, t)

    find-Found : Found (find s k)
    unfolding find
    find-Found = elim (Option-cases (maps.find s.entry_map k)) [
      | inl e ↦ rw (e, find) (absent (values-none s k e))
      | inr (p, e) ↦
          let count = λ (x : Entry). record x { n_lookups = add32 x.n_lookups 1 } in
          let here = store_eq s.heap p p (count (s.heap p)) refl in
          rw (e, find)
            (present ((modify s p count).heap p) (modify s p count)
              (ap (λ x. x.value_lst) here ∙ sym (values-find s k p e))
              (λ n valid. ap (λ x. x.symbol) here ∙ valid.named k p e))
    ]

    Found-values :
        {out : Option Entry × CfgMap maps} → Found out → entry_values out.0 ≡ strings (values s k)
    Found-values (absent e) = rw e refl
    Found-values (present e t vs _) = ap strings vs

    -- The entry that is found has the values that stand under the symbol; there is none without any.
    pub find-values : entry_values (find s k).0 ≡ strings (values s k)
    find-values = Found-values find-Found

    Found-last :
        {out : Option Entry × CfgMap maps}
        → Found out
        → length (values s k) < u32
        → last_of out.0 ≡ last (strings (values s k))
    unfolding last_of
    Found-last (absent e) h = rw e refl
    Found-last (present e t vs _) h = last_of-strings e (rw vs h) ∙ ap (λ l. last (strings l)) vs

    -- CFGMAP_find_last_value answers with the last value of the symbol, if there are fewer than 2^32.
    pub find_last_value-last :
        length (values s k) < u32 → (find_last_value s k).0 ≡ last (strings (values s k))
    unfolding find_last_value
    find_last_value-last h = Found-last find-Found h

    Found-single :
        {out : Option Entry × CfgMap maps}
        → Found out
        → single_of out.0 ≡ only (strings (values s k))
    unfolding single_of
    Found-single (absent e) = rw e refl
    Found-single (present e t vs _) = single_of-strings e ∙ ap (λ l. only (strings l)) vs

    -- CFGMAP_find_single_value answers with the value of the symbol if it has just one.
    pub find_single_value-only : (find_single_value s k).0 ≡ only (strings (values s k))
    unfolding find_single_value
    find_single_value-only = Found-single find-Found

    Found-tuples :
        {out : Option Entry × CfgMap maps}
        → Found out
        → (n : ℕ) → IsValid n s
        → tuples_of out.0 ≡ map (tuple k) (values s k)
    unfolding tuples_of
    Found-tuples (absent e) n valid = rw e refl
    Found-tuples (present e t vs name) n valid =
        load_tuples-map e ∙ ap₂ (λ a l. map (tuple a) l) (name n valid) vs

    -- CFGMAP_find_tuples lists the values that stand under a symbol of a valid configuration, in
    -- order, each with the symbol and its serial number.
    pub find_tuples-values :
        (n : ℕ) → IsValid n s → (find_tuples s k).0 ≡ map (tuple k) (values s k)
    unfolding find_tuples
    find_tuples-values n valid = Found-tuples find-Found n valid

  pub append_all-IsValid :
      (n : ℕ) (l : List Assignment) (s : CfgMap maps)
      → IsValid (length l + n) s
      → IsValid n (append_all s l)
  unfolding append_all
  append_all-IsValid n [] s valid = subst (λ m. IsValid m s) (omega arith) valid
  append_all-IsValid n ((a, v) ∷ l) s valid =
      append_all-IsValid n l (append s a v)
        (append-IsValid (length l + n) s (subst (λ m. IsValid m s) (omega arith) valid) a v)

-- After assignments to an empty configuration, of which there are at most 2^30: the last value and
-- the only value of a symbol are those of the list.
module _ (maps : StrMap ℕ) (l : List Assignment) (few : length l ≤ 2 ^ 30) (k : Text) where
  pub append_all-strings :
      strings (values (append_all (construct {maps = maps}) l) k) ≡ assigned k l
  unfolding construct
  append_all-strings =
      append_all-strings_from l construct (construct-IsValid (length l) few) k
      ∙ ap (λ vs. strings vs ++ assigned k l) (values-none construct k (maps.find_fresh k))

  length-assigned : (l : List Assignment) → length (assigned k l) ≤ length l
  unfolding assigned
  length-assigned [] = omega arith
  length-assigned ((a, []) ∷ l) = ground (arith, length-assigned l)
  length-assigned ((a, c ∷ cs) ∷ l) = ground (arith, length-assigned l)

  pub append_all-few : length (values (append_all (construct {maps = maps}) l) k) < u32
  append_all-few =
      let s = append_all (construct {maps = maps}) l in
      omega (
        arith,
        length-map (values s k) (λ v. v.str),
        ap length append_all-strings,
        length-assigned l,
      )

  pub append_all-find_last_value :
      (find_last_value (append_all (construct {maps = maps}) l) k).0 ≡ last (assigned k l)
  append_all-find_last_value =
      find_last_value-last (append_all (construct {maps = maps}) l) k append_all-few
      ∙ ap last append_all-strings
