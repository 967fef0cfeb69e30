-- ===== src/LogType/Read.antt =====
-- The description of a log type as LOGTYPE_init reads it from the configuration: every target with
-- its severity and its patterns, in order.
use ban2fail.CfgMap.Frame.{Keeps, Keeps-trans, find-Keeps, num_tuples-Keeps, find_tuples-Keeps}
use ban2fail.CfgMap.Lookup.{strings, tuple, find_tuples-values, find_last_value-last}
use ban2fail.CfgMap.Query.Answers.{query_last_uint-print}
use ban2fail.CfgMap.Query.{query_last, query_last_uint}
use ban2fail.CfgMap.Values.{IsValid, values}
use ban2fail.CfgMap.{CfgMap, Tuple, Value, num_tuples, find_tuples, find_last_value}
use ban2fail.LogType.Init.{
  LogProtoType, dir_name, prefix_name, timestamp_name, target_name, and_then, read_ts, init_targets,
  read_targets, read_time, read_prefix, read_proto,
}
use ban2fail.Prelude.{
  ℕ, ◌<◌, ◌≡◌, ◌∙◌, ap, ap₂, refl, Option, none, some, List, [], ◌∷◌, map, length, last, All, u32,
  ◌==◌, if◌then◌else◌,
}
use ban2fail.Stdio.{Text, print_unsigned}
use ban2fail.StrMap.{StrMap}
use ban2fail.Target.Setup.{
  Prepared, symbol, severity_name, regex_name, compile_all, prepare, target_init,
}
use ban2fail.Target.{Regexec, Tm}

values-tuples :
    (k : Text) (vs : List Value) → map (λ (t : Tuple). t.value) (map (tuple k) vs) ≡ strings vs
values-tuples k [] = refl
values-tuples k (v ∷ vs) = ap (λ l. v.str ∷ l) (values-tuples k vs)

-- The compiled patterns, one for each pattern, in the same places
abbrev pub AreCompiled : (Text → Option Regexec) → List Text → List Regexec → Type 0
AreCompiled compile [] [] = Unit
AreCompiled compile [] (r ∷ rs) = ⊥
AreCompiled compile (p ∷ ps) [] = ⊥
AreCompiled compile (p ∷ ps) (r ∷ rs) = (compile p ≡ some r) × AreCompiled compile ps rs

compile_all-AreCompiled :
    (compile : Text → Option Regexec) (ps : List Text) (rs : List Regexec)
    → AreCompiled compile ps rs
    → compile_all compile ps ≡ some rs
unfolding compile_all
compile_all-AreCompiled compile [] [] h = refl
compile_all-AreCompiled compile [] (r ∷ rs) h = absurd h
compile_all-AreCompiled compile (p ∷ ps) [] h = absurd h
compile_all-AreCompiled compile (p ∷ ps) (r ∷ rs) (h, hs) =
    rw (h, compile_all) (rw (compile_all-AreCompiled compile ps rs hs, compile_all) refl)

module _ {config : StrMap ℕ} where
  pub find_last_value-Keeps : (s : CfgMap config) (k : Text) → Keeps s (find_last_value s k).1
  unfolding find_last_value
  find_last_value-Keeps s k = find-Keeps s k

  pub query_last_uint-Keeps :
      (s : CfgMap config) (dflt : ℕ) (k : Text) → Keeps s (query_last_uint s dflt k).1
  unfolding query_last_uint query_last
  query_last_uint-Keeps s dflt k = find_last_value-Keeps s k

  -- What the configuration that was read first says, whatever has been looked up since
  module _ (h : CfgMap config) (valid : IsValid 0 h) (few : (k : Text) → length (values h k) < u32)
      (c : CfgMap config) (keeps : Keeps h c) where
    pub last_of-first : (k : Text) → (find_last_value c k).0 ≡ last (strings (values h k))
    last_of-first k =
        let same = keeps.same k in
        find_last_value-last c k (rw same (few k)) ∙ ap (λ vs. last (strings vs)) same

    pub tuples-first :
        (k : Text) → map (λ (t : Tuple). t.value) (find_tuples c k).0 ≡ strings (values h k)
    tuples-first k =
        ap (map (λ (t : Tuple). t.value)) (find_tuples-values c k 0 (keeps.valid 0 valid))
        ∙ values-tuples k (values c k)
        ∙ ap strings (keeps.same k)

    pub uint-first :
        (k : Text) (n : ℕ)
        → n < u32
        → last (strings (values h k)) ≡ some (print_unsigned n)
        → (query_last_uint c 0 k).0 ≡ (0, n)
    uint-first k n small e =
        let same = keeps.same k in
        query_last_uint-print c k n 0 small (rw same (few k))
          (ap (λ vs. last (strings vs)) same ∙ e)

module _ {config : StrMap ℕ} (compile : Text → Option Regexec) (strptime : Text → Text → Tm)
    (h : CfgMap config) (valid : IsValid 0 h) (few : (k : Text) → length (values h k) < u32) where
  -- A target whose severity and patterns stand under its name, with patterns that compile
  pub record IsTarget (name : Text) : Type 0 where
    pub severity : ℕ
    pub patterns : List Text
    pub res : List Regexec
    pub small : severity < u32
    pub number :
        last (strings (values h (symbol name severity_name))) ≡ some (print_unsigned severity)
    pub regexes : strings (values h (symbol name regex_name)) ≡ patterns
    pub compiled : AreCompiled compile patterns res

  abbrev pub prepared : (name : Text) → IsTarget name → Prepared
  prepared name t = record {
    target = record { severity = t.severity; rx_arr = t.res };
    patterns = t.patterns;
  }

  prepare-prepared :
      (name : Text) (t : IsTarget name)
      → prepare compile t.severity t.patterns ≡ some (prepared name t)
  unfolding prepare
  prepare-prepared name t =
      let e = compile_all-AreCompiled compile t.patterns t.res t.compiled in rw (e, prepare)

  target_init-prepared :
      (c : CfgMap config) (name : Text) (t : IsTarget name)
      → Keeps h c
      → (d : CfgMap config) × (target_init compile c name ≡ (some (prepared name t), d)) × Keeps h d
  unfolding target_init prepare
  target_init-prepared c name t keeps =
      let c1 = (num_tuples c).1 in
      let k1 = Keeps-trans h c c1 keeps (num_tuples-Keeps c) in
      let c2 = (query_last_uint c1 0 (symbol name severity_name)).1 in
      let k2 = Keeps-trans h c1 c2 k1 (query_last_uint-Keeps c1 0 (symbol name severity_name)) in
      let c3 = (find_tuples c2 (symbol name regex_name)).1 in
      let k3 = Keeps-trans h c2 c3 k2 (find_tuples-Keeps c2 (symbol name regex_name)) in
      let number =
        uint-first h valid few c1 k1 (symbol name severity_name) t.severity t.small t.number in
      let regexes = tuples-first h valid few c2 k2 (symbol name regex_name) ∙ t.regexes in
      let outcome : ℕ × ℕ → List Text → Option Prepared × CfgMap config =
        λ q v. if q.0 == 0 then (prepare compile q.1 v, c3) else (none, c2) in
      (c3, ap₂ outcome number regexes ∙ ap (λ p. (p, c3)) (prepare-prepared name t), k3)

  -- The targets of a list of names
  unfoldable pub prepared_all :
      (pfix : Text) (names : List Text) → All (λ n. IsTarget (symbol pfix n)) names → List Prepared
  prepared_all pfix [] ts = []
  prepared_all pfix (n ∷ ns) (t, ts) = prepared (symbol pfix n) t ∷ prepared_all pfix ns ts

  init_targets-prepared :
      (pfix : Text) (names : List Text) (ts : All (λ n. IsTarget (symbol pfix n)) names)
      (c : CfgMap config)
      → Keeps h c
      → (d : CfgMap config) × (init_targets compile strptime pfix names c
          ≡ (some (prepared_all pfix names ts), d))
        × Keeps h d
  unfolding init_targets prepared_all
  init_targets-prepared pfix [] ts c keeps = (c, refl, keeps)
  init_targets-prepared pfix (n ∷ ns) (t, ts) c keeps =
      let (d, one, k1) = target_init-prepared c (symbol pfix n) t keeps in
      let (e, rest, k2) = init_targets-prepared pfix ns ts d k1 in
      (e, rw (one, init_targets) (rw (rest, init_targets)), k2)

  read_ts-none :
      (c : CfgMap config) (pfix : Text)
      → Keeps h c
      → last (strings (values h (symbol pfix timestamp_name))) ≡ none
      → read_ts compile strptime c pfix
        ≡ (some none, (find_last_value c (symbol pfix timestamp_name)).1)
  unfolding read_ts
  read_ts-none c pfix keeps e =
      let none_there = last_of-first h valid few c keeps (symbol pfix timestamp_name) ∙ e in
      rw (none_there, read_ts)

  module _ (pfix dir file_pfix : Text) (names : List Text)
      (ts : All (λ n. IsTarget (symbol pfix n)) names) where
    abbrev described : LogProtoType
    described = record {
      dir = dir;
      pfix = file_pfix;
      ts = none;
      targets = prepared_all pfix names ts;
    }

    read_targets-prepared :
        (c : CfgMap config)
        → Keeps h c
        → strings (values h (symbol pfix target_name)) ≡ names
        → (read_targets compile strptime pfix dir file_pfix none c).0 ≡ some described
    unfolding read_targets
    read_targets-prepared c keeps n =
        let d = (find_tuples c (symbol pfix target_name)).1 in
        let kept = Keeps-trans h c d keeps (find_tuples-Keeps c (symbol pfix target_name)) in
        let (e, inits, k) = init_targets-prepared pfix names ts d kept in
        let found = tuples-first h valid few c keeps (symbol pfix target_name) ∙ n in
        rw (found, inits)

    read_time-prepared :
        (c : CfgMap config)
        → Keeps h c
        → last (strings (values h (symbol pfix timestamp_name))) ≡ none
        → strings (values h (symbol pfix target_name)) ≡ names
        → (read_time compile strptime pfix dir file_pfix c).0 ≡ some described
    unfolding read_time
    read_time-prepared c keeps t n =
        let d = (find_last_value c (symbol pfix timestamp_name)).1 in
        let kept = Keeps-trans h c d keeps (find_last_value-Keeps c (symbol pfix timestamp_name)) in
        rw (read_ts-none c pfix keeps t) (read_targets-prepared d kept n)

    read_prefix-prepared :
        (c : CfgMap config)
        → Keeps h c
        → last (strings (values h (symbol pfix prefix_name))) ≡ some file_pfix
        → last (strings (values h (symbol pfix timestamp_name))) ≡ none
        → strings (values h (symbol pfix target_name)) ≡ names
        → (read_prefix compile strptime pfix dir c).0 ≡ some described
    unfolding read_prefix
    read_prefix-prepared c keeps p t n =
        let d = (find_last_value c (symbol pfix prefix_name)).1 in
        let kept = Keeps-trans h c d keeps (find_last_value-Keeps c (symbol pfix prefix_name)) in
        let found = last_of-first h valid few c keeps (symbol pfix prefix_name) ∙ p in
        ap
          (λ (v : Option Text).
            (and_then (v, d) (λ f e. read_time compile strptime pfix dir f e)).0)
          found
        ∙ read_time-prepared d kept t n

    -- LOGTYPE_init reads from a valid configuration the last DIR and PREFIX of a log type without
    -- a TIMESTAMP, and all its targets in order, each with its severity, which is a number of 32
    -- bits, and with one compiled expression for each of its patterns, in their order. All the
    -- patterns compile, and no symbol has 2^32 values.
    pub read_proto-prepared :
        last (strings (values h (symbol pfix dir_name))) ≡ some dir
        → last (strings (values h (symbol pfix prefix_name))) ≡ some file_pfix
        → last (strings (values h (symbol pfix timestamp_name))) ≡ none
        → strings (values h (symbol pfix target_name)) ≡ names
        → (read_proto compile strptime h pfix).0 ≡ some described
    unfolding read_proto
    read_proto-prepared d p t n =
        let c = (num_tuples h).1 in
        let k = num_tuples-Keeps h in
        let e = (find_last_value c (symbol pfix dir_name)).1 in
        let kept = Keeps-trans h c e k (find_last_value-Keeps c (symbol pfix dir_name)) in
        let found = last_of-first h valid few c k (symbol pfix dir_name) ∙ d in
        ap (λ (v : Option Text). (and_then (v, e) (λ f x. read_prefix compile strptime pfix f x)).0)
          found
        ∙ read_prefix-prepared e kept p t n
