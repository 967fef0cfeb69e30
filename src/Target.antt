-- ===== src/Target.antt =====
-- target.c and timestamp.c: finding the address and the time in a line of a log file. A compiled
-- regular expression is the argument `regexec`, which returns where its first group begins and ends
-- (`none` for no match, or a group that took no part); strptime and mktime are arguments.
pub mod Setup
use ban2fail.Prelude.{
  ℕ, zero, suc, ◌-◌, Bool, Option, none, some, List, [], ◌∷◌, if◌then◌else◌, min, take, drop,
}
use ban2fail.Prelude.Int.{ℤ, pos, negsuc, ltb_ℤ}
use ban2fail.Stdio.{Text}

abbrev pub Regexec : Type 0
Regexec = Text → Option (ℕ × ℕ)

-- `strncpy(buf, str + rm_so, size-1)` and the NUL behind it
abbrev pub copied : ℕ → ℕ × ℕ → Text → Text
copied size (rm_so, rm_eo) str = take (min (rm_eo - rm_so) (size - 1)) (drop rm_so str)

-- `Target`
pub record Target : Type 0 where
  pub severity : ℕ
  pub rx_arr : List Regexec

-- The loop of `Target_scan`; `none` for EOF.
unfoldable pub scan_from : List Regexec → ℕ → Text → Option Text
scan_from [] buf_sz str = none
scan_from (rx ∷ rxs) buf_sz str = elim (rx str) [
  | none ↦ scan_from rxs buf_sz str
  | some group ↦ some (copied buf_sz group str)
]

unfoldable pub scan : Target → ℕ → Text → Option Text
scan tg buf_sz str = scan_from tg.rx_arr buf_sz str

-- The members of `struct tm` that TS_scan changes, and the rest.
pub record Tm : Type 0 where
  pub tm_year : ℤ
  pub tm_mon : ℕ
  pub tm_rest : Text

-- `TS`
pub record Ts : Type 0 where
  pub re : Regexec
  pub strptime : Text → Tm
  pub guess_yr : Bool

abbrev pred_ℤ : ℤ → ℤ
pred_ℤ (pos zero) = negsuc 0
pred_ℤ (pos (suc n)) = pos n
pred_ℤ (negsuc n) = negsuc (suc n)

unfoldable pub guess_year : Tm → Tm → Tm
guess_year ref tm = record tm {
  tm_year = if ltb_ℤ (pos ref.tm_mon) (pos tm.tm_mon) then pred_ℤ ref.tm_year else ref.tm_year;
}

-- `TS_scan`; `none` when no date is identified.
unfoldable pub ts_scan : (Tm → ℤ) → Ts → Text → Tm → Option ℤ
ts_scan mktime ts str ref = elim (ts.re str) [
  | none ↦ none
  | some group ↦
      let tm = ts.strptime (copied 128 group str) in
      some (mktime (if ts.guess_yr then guess_year ref tm else tm))
]
