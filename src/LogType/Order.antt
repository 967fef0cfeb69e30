-- ===== src/LogType/Order.antt =====
-- logType.c: the "natural" order of the names of log files, by the number of the file first.
use ban2fail.CfgMap.Query.{to_int}
use ban2fail.Map.Keys.{key_eq}
use ban2fail.Prelude.Int.{ℤ, pos, negsuc, ltb_ℤ}
use ban2fail.Prelude.{
  ℕ, ◌-◌, ◌/◌, min, ◌||◌, Option, none, some, [], ◌∷◌, ◌==◌, ltb, if◌then◌else◌, u64,
}
use ban2fail.Stdio.{Text, need_digits}

-- The sign of what `strcmp` returns
unfoldable pub strcmp : Text → Text → ℤ
strcmp [] [] = pos 0
strcmp [] (d ∷ ds) = negsuc 0
strcmp (c ∷ cs) [] = pos 1
strcmp (c ∷ cs) (d ∷ ds) =
    let rest = strcmp cs ds in if c == d then rest else if ltb c d then negsuc 0 else pos 1

-- `strrchr(path, '/')`, past the slash
unfoldable pub file_name : Text → Option Text
file_name [] = none
file_name (c ∷ cs) = elim (file_name cs) [
  | some w ↦ some w
  | none ↦ if c == b'/' then some cs else none
]

-- `([[:digit:]]+)(\.gz)?$` at the start of the text
unfoldable pub number_at : Text → Option ℕ
number_at t = elim (need_digits t) [
  | none ↦ none
  | some (n, rest) ↦
      if key_eq rest [] || key_eq rest (b'.' ∷ b'g' ∷ b'z' ∷ []) then some n else none
]

-- The first match of `\.([[:digit:]]+)(\.gz)?$`
unfoldable pub match_number : Text → Option ℕ
unfolding number_at
match_number [] = none
match_number (c ∷ cs) =
    let later = match_number cs in
    if c == b'.' then (elim (number_at cs) [ none ↦ later | some n ↦ some n ]) else later

-- `num[i]`: -1 if there is no number; `%d` stops at the largest `long` and keeps 32 bits.
unfoldable pub log_number : Text → ℤ
unfolding match_number file_name
log_number path = elim (file_name path) [
  | none ↦ negsuc 0
  | some fname ↦ elim (match_number fname) [
    | none ↦ negsuc 0
    | some n ↦ to_int (pos (min n (u64 / 2 - 1)))
  ]
]

unfoldable pub cmp_pvsort : Text → Text → ℤ
unfolding log_number strcmp
cmp_pvsort a b =
    if ltb_ℤ (log_number a) (log_number b)
    then negsuc 0
    else if ltb_ℤ (log_number b) (log_number a)
    then pos 1
    else strcmp a b
