-- ===== src/LogFile/Count.antt =====
-- LOGFILE_offenseCount: the sum over the entries, which is worked out once.
use ban2fail.LogFile.{Counted, sum_entries, file_offense_count}
use ban2fail.OffEntry.{OffEntry, offense_count}
use ban2fail.Prelude.{ℕ, ◌+◌, ◌%◌, ◌≡◌, refl, arith, false, List, [], ◌∷◌, u32, add32}

unfoldable pub counts : List OffEntry → ℕ
counts [] = 0
counts (e ∷ es) = e.count + counts es

sum_entries-counts :
    (es : List OffEntry) (sum : ℕ) → sum_entries es sum % u32 ≡ (sum + counts es) % u32
unfolding sum_entries counts offense_count
sum_entries-counts [] sum = omega arith
sum_entries-counts (e ∷ es) sum = omega (arith, sum_entries-counts es (add32 sum e.count))

abbrev pub uncounted : Counted
uncounted = record { cached = false; n_offenses = 0 }

-- LOGFILE_offenseCount on a new LOGFILE adds the sum of the counts of its entries, at 32 bits, to
-- the number that it is given, and every later call adds the same sum, whatever the entries are
-- then.
pub file_offense_count-counts :
    (es later : List OffEntry) (sum next : ℕ)
    → let (self, out) = file_offense_count es uncounted sum in
      let (again, more) = file_offense_count later self next in
      (out ≡ (sum + counts es) % u32) × (more ≡ (next + counts es) % u32) × (again ≡ self)
unfolding file_offense_count
file_offense_count-counts es later sum next =
    let e = sum_entries-counts es 0 in (omega (arith, e), omega (arith, e), refl)
