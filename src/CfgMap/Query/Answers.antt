-- ===== src/CfgMap/Query/Answers.antt =====
-- What the queries of cfgmap.c answer.
use ban2fail.CfgMap.Lines.{prefix}
use ban2fail.CfgMap.Lookup.{strings, only, find_last_value-last, find_single_value-only}
use ban2fail.CfgMap.Query.{
  answer, read_uint, query_uint, query_last, query_last_flags, query_last_enum, query_last_bool,
  query_last_int, query_last_uint, query_last_string, query_last_time_of_day, read_flags, read_enum,
  read_bool, read_int, read_string, read_time, before_last, up_to, obtain_prefix,
}
use ban2fail.CfgMap.Render.{full}
use ban2fail.CfgMap.Values.{values}
use ban2fail.CfgMap.{CfgMap}
use ban2fail.Prelude.Int.{ℤ, pos, negsuc}
use ban2fail.Prelude.{
  ℕ, ◌<◌, ◌≡◌, ◌≢◌, ◌∙◌, ap, sym, refl, arith, false, Option, none, some, last, List, [], ◌∷◌, ◌++◌,
  append-nil, ◌==◌, leb, if◌then◌else◌, length, u32, All,
}
use ban2fail.Stdio.Digits.{scan_unsigned-print}
use ban2fail.Stdio.{Text, print_unsigned, scan_unsigned}
use ban2fail.StrMap.{StrMap}
use ban2fail.Util.{BitTuple, EnumTuple}

module _ {maps : StrMap ℕ} (self : CfgMap maps) (k : Text) where
  pub query_last-answer {ℓ} :
      {A : Type ℓ} (dflt : A) (read : Text → ℕ × A)
      → length (values self k) < u32
      → (query_last self dflt read k).0 ≡ answer (last (strings (values self k))) dflt read
  unfolding query_last
  query_last-answer dflt read h = ap (λ o. answer o dflt read) (find_last_value-last self k h)

  query_last-absent {ℓ} :
      {A : Type ℓ} (dflt : A) (read : Text → ℕ × A)
      → values self k ≡ []
      → (query_last self dflt read k).0 ≡ (0, dflt)
  query_last-absent dflt read e =
      query_last-answer dflt read (rw e (omega arith))
      ∙ ap (λ l. answer (last (strings l)) dflt read) e

  -- For a symbol without a value each of the eight queries (CFGMAP_query_uint and those for the
  -- last unsigned, int, bool, flags, enum, time of day and string) returns 0 and leaves the
  -- default.
  pub queries-absent :
      values self k ≡ []
      → (uint : ℕ) (int : ℤ) (string : Option Text) (bt_arr : List BitTuple)
        (et_arr : List EnumTuple)
      → ((query_uint self uint k).0 ≡ (0, uint))
        × ((query_last_uint self uint k).0 ≡ (0, uint))
        × ((query_last_int self int k).0 ≡ (0, int))
        × ((query_last_bool self uint k).0 ≡ (0, uint))
        × ((query_last_flags self uint k bt_arr).0 ≡ (0, uint))
        × ((query_last_enum self uint k et_arr).0 ≡ (0, uint))
        × ((query_last_time_of_day self uint k).0 ≡ (0, uint))
        × ((query_last_string self string k).0 ≡ (0, string))
  unfolding query_uint query_last_uint query_last_int query_last_bool query_last_flags
      query_last_enum query_last_time_of_day query_last_string
  queries-absent e uint int string bt_arr et_arr = (
    ap (λ o. answer o uint (read_uint uint))
        (find_single_value-only self k ∙ ap (λ l. only (strings l)) e),
    query_last-absent uint (read_uint uint) e,
    query_last-absent int (read_int int) e,
    query_last-absent uint (read_bool uint) e,
    query_last-absent uint (read_flags bt_arr uint) e,
    query_last-absent uint (read_enum et_arr uint) e,
    query_last-absent uint (read_time uint) e,
    query_last-absent string read_string e,
  )

  -- A number that was printed into the configuration is read back from the last value.
  pub query_last_uint-print :
      (n dflt : ℕ)
      → n < u32
      → length (values self k) < u32
      → last (strings (values self k)) ≡ some (print_unsigned n)
      → (query_last_uint self dflt k).0 ≡ (0, n)
  unfolding query_last_uint read_uint
  query_last_uint-print n dflt h few e =
      query_last-answer dflt (read_uint dflt) few
      ∙ ap (λ o. answer o dflt (read_uint dflt)) e
      ∙ rw
          (
            (ap scan_unsigned (sym (append-nil (print_unsigned n)))
                ∙ scan_unsigned-print n [] h tt),
            read_uint,
          )
          refl

before_last-none : (s : Text) → All (λ c. (c == b'\\') ≡ false) s → before_last s ≡ none
unfolding before_last
before_last-none [] p = refl
before_last-none (c ∷ s) (p, ps) = rw (before_last-none s ps, before_last, p) refl

-- The last component of a path, without a backslash, is cut off.
before_last-append :
    (w s : Text) → All (λ c. (c == b'\\') ≡ false) s → before_last (w ++ (b'\\' ∷ s)) ≡ some w
unfolding before_last
before_last-append [] s p = rw (before_last-none s p) refl
before_last-append (c ∷ w) s p = rw (before_last-append w s p) refl

-- CFGMAP_obtain_prefix of a symbol within blocks, of which the outermost has a name that is not
-- empty and whose own name has no backslash, is what stands before that name and its backslash, or
-- EOF if this does not fit into the buffer with a byte behind it.
pub obtain_prefix-full :
    (buf_sz : ℕ) (p : Text) (ps : List Text) (s : Text)
    → p ≢ []
    → All (λ c. (c == b'\\') ≡ false) s
    → obtain_prefix buf_sz (full (p ∷ ps) s) ≡ (
        if leb buf_sz (length (prefix (p ∷ ps)))
        then (negsuc 0, none)
        else (pos 0, some (prefix (p ∷ ps))))
unfolding obtain_prefix prefix up_to
obtain_prefix-full buf_sz [] ps s ne h = absurd (ne refl)
obtain_prefix-full buf_sz (c ∷ p) ps s ne h =
    let e = before_last-append (prefix ((c ∷ p) ∷ ps)) s h in
    let long : leb (length (prefix ((c ∷ p) ∷ ps))) 1 ≡ false = ground arith in rw (e, long) refl
