-- ===== src/Ban2fail/Configure.antt =====
-- `configure` of ban2fail.c: the initialization functions, called for the blocks of the configuration
-- and for those nested in them, `fuel` deep.
use ban2fail.CfgMap.Lookup.{entry_values}
use ban2fail.CfgMap.{CfgMap, find}
use ban2fail.Prelude.{ℕ, zero, suc, Option, none, some, List, [], ◌∷◌, ◌++◌, take}
use ban2fail.Stdio.{Text}
use ban2fail.StrMap.{StrMap}

-- What there is afterwards; an initialization function failed; or the blocks are nested too deeply.
pub data Configured (S : Type 0) : Type 0 where
  configured : S → Configured S
  refused : Configured S
  too_deep : Configured S

-- "%s\\%s" in a buffer of 1024 bytes; a prefix of NULL is empty.
abbrev pub named : Text → Text → Text
named pfix name = take 1023 (pfix ++ (b'\\' ∷ name))

-- A member of `S_initInfo_arr`. What `init_f` sets up is an `S`; `none` is a result that is not 0.
pub record InitInfo (config : StrMap ℕ) (S : Type 0) : Type 0 where
  pub sym_str : Text
  pub init_f : CfgMap config → Text → S → Option S × CfgMap config

-- The configuration, whose lookups are counted, and what the initialization functions have set up.
abbrev pub State : StrMap ℕ → Type 0 → Type 0
State config S = CfgMap config × S

infixl 5 ◌>>=◌
abbrev pub ◌>>=◌ : {A B : Type 0} → Configured A → (A → Configured B) → Configured B
configured a >>= f = f a
refused >>= f = refused
too_deep >>= f = too_deep

module _ {config : StrMap ℕ} {S : Type 0} where
  abbrev pub after_init : Option S × CfgMap config → Configured (State config S)
  after_init (none, h) = refused
  after_init (some s, h) = configured (h, s)

  -- The values of one symbol: the object is initialized, and `deeper` goes on with its name.
  unfoldable pub visit_values :
      (Text → State config S → Configured (State config S))
      → InitInfo config S
      → Text
      → List Text
      → State config S
      → Configured (State config S)
  visit_values deeper info pfix [] st = configured st
  visit_values deeper info pfix (v ∷ vs) (h, s) =
      after_init (info.init_f h (named pfix v) s) >>= λ (st : State config S).
      deeper (named pfix v) st >>= λ (st : State config S). visit_values deeper info pfix vs st

  -- The loop over `S_initInfo_arr`
  unfoldable pub visit_infos :
      (Text → State config S → Configured (State config S))
      → Text
      → List (InitInfo config S)
      → State config S
      → Configured (State config S)
  unfolding visit_values find
  visit_infos deeper pfix [] st = configured st
  visit_infos deeper pfix (info ∷ infos) (h, s) =
      let (e, counted) = find h (named pfix info.sym_str) in
      visit_values deeper info pfix (entry_values e) (counted, s) >>= λ (st : State config S).
      visit_infos deeper pfix infos st

  unfoldable pub configure :
      List (InitInfo config S) → ℕ → Text → State config S → Configured (State config S)
  unfolding visit_infos
  configure infos zero pfix st = too_deep
  configure infos (suc fuel) pfix st =
      visit_infos (λ (name : Text) (next : State config S). configure infos fuel name next) pfix
        infos st
