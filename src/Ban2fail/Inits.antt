-- ===== src/Ban2fail/Inits.antt =====
-- Which initialization functions `configure` of ban2fail.c calls, for blocks that hold no others.
use ban2fail.Ban2fail.Configure.{
  Configured, configured, refused, too_deep, named, InitInfo, State, ◌>>=◌, after_init,
  visit_values, visit_infos, configure,
}
use ban2fail.CfgMap.Frame.{Keeps, find-Keeps, Keeps-refl, Keeps-trans}
use ban2fail.CfgMap.Lookup.{strings, find-values}
use ban2fail.CfgMap.Values.{values}
use ban2fail.CfgMap.{CfgMap, find}
use ban2fail.Prelude.{
  ℕ, suc, ◌≡◌, ◌∙◌, ap, ap₂, refl, Option, none, some, List, [], ◌∷◌, ◌++◌, All, All-map,
}
use ban2fail.Stdio.{Text}
use ban2fail.StrMap.{StrMap}

-- An initialization function and the name that it is called with
abbrev pub Call : StrMap ℕ → Type 0 → Type 0
Call config S = InitInfo config S × Text

-- The calls are made in order, each on a configuration with the values of the first, until one fails.
pub data Inits {config : StrMap ℕ} {S : Type 0}
    : CfgMap config → S → List (Call config S) → Configured (State config S) → Type 0 where
  all_done : {h t : CfgMap config} {s : S} → Keeps h t → Inits h s [] (configured (t, s))
  fails :
      {h t u : CfgMap config} {s : S} {info : InitInfo config S} {name : Text}
      {cs : List (Call config S)}
      → Keeps h t
      → info.init_f t name s ≡ (none, u)
      → Inits h s ((info, name) ∷ cs) refused
  succeeds :
      {h t u : CfgMap config} {s r : S} {info : InitInfo config S} {name : Text}
      {cs : List (Call config S)} {out : Configured (State config S)}
      → Keeps h t
      → info.init_f t name s ≡ (some r, u)
      → Keeps t u
      → Inits u r cs out
      → Inits h s ((info, name) ∷ cs) out

module _ {config : StrMap ℕ} {S : Type 0} where
  Inits-weaken :
      {h t : CfgMap config} {s : S} {cs : List (Call config S)} {out : Configured (State config S)}
      → Keeps h t
      → Inits t s cs out
      → Inits h s cs out
  Inits-weaken k (all_done l) = all_done (Keeps-trans _ _ _ k l)
  Inits-weaken k (fails l e) = fails (Keeps-trans _ _ _ k l) e
  Inits-weaken k (succeeds l e m i) = succeeds (Keeps-trans _ _ _ k l) e m i

  -- What is there after the calls has the same values.
  Inits-Keeps :
      {h t : CfgMap config} {s r : S} {cs : List (Call config S)}
      → Inits h s cs (configured (t, r))
      → Keeps h t
  Inits-Keeps (all_done k) = k
  Inits-Keeps (succeeds k e m i) = Keeps-trans _ _ _ k (Keeps-trans _ _ _ m (Inits-Keeps i))

  Inits-append :
      {h t : CfgMap config} {s r : S} {cs ds : List (Call config S)}
      {out : Configured (State config S)}
      → Inits h s cs (configured (t, r))
      → Inits t r ds out
      → Inits h s (cs ++ ds) out
  Inits-append (all_done k) j = Inits-weaken k j
  Inits-append (succeeds k e m i) j = succeeds k e m (Inits-append i j)

  Inits-refused :
      {h : CfgMap config} {s : S} {cs : List (Call config S)} (ds : List (Call config S))
      → Inits h s cs refused
      → Inits h s (cs ++ ds) refused
  Inits-refused ds (fails k e) = fails k e
  Inits-refused ds (succeeds k e m i) = succeeds k e m (Inits-refused ds i)

  not-too_deep : {h : CfgMap config} {s : S} {cs : List (Call config S)} → ¬ (Inits h s cs too_deep)
  not-too_deep (succeeds k e m i) = not-too_deep i

  -- Calls, and what is done after them
  Inits-bind :
      {h : CfgMap config} {s : S} {cs ds : List (Call config S)} (o : Configured (State config S))
      (f : State config S → Configured (State config S))
      → Inits h s cs o
      → ((t : CfgMap config) (r : S) → Keeps h t → Inits t r ds (f (t, r)))
      → Inits h s (cs ++ ds) (o >>= f)
  Inits-bind (configured (t, r)) f i g = Inits-append i (g t r (Inits-Keeps i))
  Inits-bind refused f i g = Inits-refused _ i
  Inits-bind too_deep f i g = absurd (not-too_deep i)

  -- One call, and what is done after it
  after_init-Inits :
      (h : CfgMap config) (s : S) (info : InitInfo config S) (name : Text)
      {cs : List (Call config S)} (f : State config S → Configured (State config S))
      (r : Option S × CfgMap config)
      → info.init_f h name s ≡ r
      → Keeps h r.1
      → ((u : CfgMap config) (x : S) → Keeps h u → Inits u x cs (f (u, x)))
      → Inits h s ((info, name) ∷ cs) (after_init r >>= f)
  after_init-Inits h s info name f (none, u) e k g = fails (Keeps-refl h) e
  after_init-Inits h s info name f (some x, u) e k g = succeeds (Keeps-refl h) e k (g u x k)

  module _ (infos : List (InitInfo config S)) where
    -- Nothing stands under the symbols of a block that `configure` looks for.
    abbrev pub IsFlat : CfgMap config → Text → Type 0
    IsFlat h name =
        All (λ (info : InitInfo config S). values h (named name info.sym_str) ≡ []) infos

    -- An initialization function leaves the values of the configuration alone.
    abbrev pub KeepsValues : InitInfo config S → Type 0
    KeepsValues info = (h : CfgMap config) (name : Text) (s : S) → Keeps h (info.init_f h name s).1

    -- In a flat block there is nothing to do.
    abbrev Idle : (Text → State config S → Configured (State config S)) → Type 0
    Idle deeper =
        (h : CfgMap config) (name : Text) (s : S)
        → IsFlat h name
        → (t : CfgMap config) × (deeper name (h, s) ≡ configured (t, s)) × Keeps h t

    All-same :
        (h t : CfgMap config) (name : Text) (l : List (InitInfo config S))
        → Keeps h t
        → All (λ (info : InitInfo config S). values h (named name info.sym_str) ≡ []) l
        → All (λ (info : InitInfo config S). values t (named name info.sym_str) ≡ []) l
    All-same h t name [] k f = tt
    All-same h t name (info ∷ l) k (f, fs) =
        (k.same (named name info.sym_str) ∙ f, All-same h t name l k fs)

    visit_infos-idle :
        (deeper : Text → State config S → Configured (State config S)) (name : Text)
        (l : List (InitInfo config S)) (h : CfgMap config) (s : S)
        → All (λ (info : InitInfo config S). values h (named name info.sym_str) ≡ []) l
        → (t : CfgMap config) × (visit_infos deeper name l (h, s) ≡ configured (t, s)) × Keeps h t
    unfolding visit_infos visit_values
    visit_infos-idle deeper name [] h s f = (h, refl, Keeps-refl h)
    visit_infos-idle deeper name (info ∷ l) h s (f, fs) =
        let k = find-Keeps h (named name info.sym_str) in
        let u = (find h (named name info.sym_str)).1 in
        let (t, e, m) = visit_infos-idle deeper name l u s (All-same h u name l k fs) in
        let nothing = find-values h (named name info.sym_str) ∙ ap strings f in
        (
          t,
          ap
                (λ vs. visit_values deeper info name vs (u, s) >>= λ (st : State config S).
                  visit_infos deeper name l st)
                nothing
              ∙ e,
          Keeps-trans h u t k m,
        )

    configure-Idle : (fuel : ℕ) → Idle (λ name st. configure infos (suc fuel) name st)
    unfolding configure
    configure-Idle fuel h name s f =
        visit_infos-idle (λ x st. configure infos fuel x st) name infos h s f

    -- The calls for the values of a symbol, and those for all symbols
    abbrev pub calls_for : InitInfo config S → Text → List Text → List (Call config S)
    calls_for info pfix [] = []
    calls_for info pfix (v ∷ vs) = (info, named pfix v) ∷ calls_for info pfix vs

    abbrev pub calls_of : CfgMap config → Text → List (InitInfo config S) → List (Call config S)
    calls_of h pfix [] = []
    calls_of h pfix (info ∷ l) =
        calls_for info pfix (strings (values h (named pfix info.sym_str))) ++ calls_of h pfix l

    -- The blocks that stand under these symbols are flat.
    abbrev pub AllFlat : CfgMap config → Text → List (InitInfo config S) → Type 0
    AllFlat h pfix [] = Unit
    AllFlat h pfix (info ∷ l) =
        All (λ v. IsFlat h (named pfix v)) (strings (values h (named pfix info.sym_str)))
        × AllFlat h pfix l

    AllFlat-same :
        (h t : CfgMap config) (pfix : Text) (l : List (InitInfo config S))
        → Keeps h t
        → AllFlat h pfix l
        → AllFlat t pfix l
    AllFlat-same h t pfix [] k f = tt
    AllFlat-same h t pfix (info ∷ l) k (f, fs) = (
      rw (k.same (named pfix info.sym_str)) (
          All-map _ _ (strings (values h (named pfix info.sym_str)))
            (λ w g. All-same h t (named pfix w) infos k g) f),
      AllFlat-same h t pfix l k fs,
    )

    calls_of-same :
        (h t : CfgMap config) (pfix : Text) (l : List (InitInfo config S))
        → Keeps h t
        → calls_of t pfix l ≡ calls_of h pfix l
    calls_of-same h t pfix [] k = refl
    calls_of-same h t pfix (info ∷ l) k =
        ap₂ ◌++◌ (ap (λ vs. calls_for info pfix (strings vs)) (k.same (named pfix info.sym_str)))
          (calls_of-same h t pfix l k)

    module _ (deeper : Text → State config S → Configured (State config S)) (idle : Idle deeper)
        (pfix : Text) where
      visit_values-Inits :
          (info : InitInfo config S) (vs : List Text) (h : CfgMap config) (s : S)
          → KeepsValues info
          → All (λ v. IsFlat h (named pfix v)) vs
          → Inits h s (calls_for info pfix vs) (visit_values deeper info pfix vs (h, s))
      unfolding visit_values
      visit_values-Inits info [] h s keeps f = all_done (Keeps-refl h)
      visit_values-Inits info (v ∷ vs) h s keeps (f, fs) =
          after_init-Inits h s info (named pfix v) _ (info.init_f h (named pfix v) s) refl
            (keeps h (named pfix v) s)
            (λ u r k.
              let (t, e, m) = idle u (named pfix v) r (All-same h u (named pfix v) infos k f) in
              let later = visit_values-Inits info vs t r keeps (
                All-map _ _ vs (λ w g. All-same h t (named pfix w) infos (Keeps-trans h u t k m) g)
                  fs) in
              rw e (Inits-weaken m later))

      visit_infos-Inits :
          (l : List (InitInfo config S)) (h : CfgMap config) (s : S)
          → All KeepsValues l
          → AllFlat h pfix l
          → Inits h s (calls_of h pfix l) (visit_infos deeper pfix l (h, s))
      unfolding visit_infos
      visit_infos-Inits [] h s k f = all_done (Keeps-refl h)
      visit_infos-Inits (info ∷ l) h s (k, ks) (f, fs) =
          let k0 = find-Keeps h (named pfix info.sym_str) in
          let u = (find h (named pfix info.sym_str)).1 in
          let vs = strings (values h (named pfix info.sym_str)) in
          let first = Inits-weaken k0 (
            visit_values-Inits info vs u s k
              (All-map _ _ vs (λ w g. All-same h u (named pfix w) infos k0 g) f)) in
          rw (find-values h (named pfix info.sym_str)) (
            Inits-bind (visit_values deeper info pfix vs (u, s))
              (λ (st : State config S). visit_infos deeper pfix l st) first
              (λ t r m.
                rw (← calls_of-same h t pfix l m)
                  (visit_infos-Inits l t r ks (AllFlat-same h t pfix l m fs))))

    -- configure calls the initialization functions for the values of their symbols, in order, each
    -- on a configuration with the values of the first, until one fails, and needs a depth of two
    -- for it. The functions leave the values alone, and the blocks hold none of the symbols
    -- themselves.
    pub configure-Inits :
        (fuel : ℕ) (pfix : Text) (h : CfgMap config) (s : S)
        → All KeepsValues infos
        → AllFlat h pfix infos
        → Inits h s (calls_of h pfix infos) (configure infos (suc (suc fuel)) pfix (h, s))
    unfolding configure
    configure-Inits fuel pfix h s keeps flat =
        visit_infos-Inits (λ x st. configure infos (suc fuel) x st) (configure-Idle fuel) pfix infos
          h s keeps flat
