-- ===== src/Tests/Entries.antt =====
-- Two addresses that offend, from the lines of a log file to the commands of iptables.
use ban2fail.Ban2fail.Decide.{
  deserves_block, blocked_after, process_all-decides, process_all-Absent,
}
use ban2fail.Ban2fail.{nothing_to_do, process_all, count_qsort, latest_qsort}
use ban2fail.IpTables.Control.{Controlled, IsOrdered, control_addresses-Controlled}
use ban2fail.IpTables.Missing.{listed, filled, fill_in_all-lookup}
use ban2fail.IpTables.{fill_in_all, Command, append_rule, has_colon, addr_cmp, control_addresses}
use ban2fail.LogFile.Count.{counts, uncounted, file_offense_count-counts}
use ban2fail.LogFile.Hits.{Tallied, hits, hits_in, log_constructor-Tallied}
use ban2fail.LogFile.{file_offense_count, Proto, strip, log_constructor}
use ban2fail.Map.{same_bytes}
use ban2fail.Map.AsStrMap.{as_str_map}
use ban2fail.MaxOff.Allowed.{limit, joined, mem_text, init-allowed}
use ban2fail.MaxOff.{Limits, address, unknown, allowed, init}
use ban2fail.OffEntry.Locate.{FitsField}
use ban2fail.OffEntry.Merge.{
  merge_all, total, worst, fresh_registry, fresh_registry-IsValid, map_all-lookup, merge_all-totals,
}
use ban2fail.OffEntry.Registry.{map_all, lookup}
use ban2fail.OffEntry.{OffEntry, zeroed}
use ban2fail.Prelude.Int.{ℤ, pos, ◌≤ℤ◌}
use ban2fail.Prelude.{
  ℕ, ◌+◌, ◌%◌, ◌^◌, ◌≤◌, ◌≡◌, refl, arith, Bool, false, max, u32, length, map, List, [], ◌∷◌, ◌++◌,
  Option, some, none, All,
}
use ban2fail.Stdio.{Text}
use ban2fail.StrMap.{StrMap, or_else}
use ban2fail.Target.{scan, scan_from}
use mathlib.Core.List.Perm

-- "1.2", "3.4" and "::5"
abbrev addr_a : Text
addr_a = 49 ∷ 46 ∷ 50 ∷ []

abbrev addr_b : Text
addr_b = 51 ∷ 46 ∷ 52 ∷ []

abbrev addr_c : Text
addr_c = 58 ∷ 58 ∷ 53 ∷ []

abbrev offender : Text → ℕ → OffEntry
offender addr n = record zeroed { count = n; severity = n; latest = pos 7; addr = addr }

abbrev country : Text → Option Text
country addr = some (85 ∷ 83 ∷ [])

abbrev maps : StrMap ℕ
maps = as_str_map 0

abbrev entries : List OffEntry
entries = offender addr_a 3 ∷ offender addr_b 1 ∷ offender addr_a 4 ∷ []

-- Addresses that are blocked now, and numbers that are allowed.
abbrev is_blocked : Text → Bool
is_blocked addr = false

abbrev two : Text → ℤ
two addr = pos 2

process_all-decides_example :
    blocked_after is_blocked
      (process_all is_blocked two (offender addr_b 1 ∷ offender addr_a 3 ∷ []) nothing_to_do)
      addr_a
    ≡ deserves_block (pos 2) 3
unfolding same_bytes
process_all-decides_example =
    process_all-decides is_blocked two (offender addr_b 1 ∷ []) (offender addr_a 3) [] (refl, tt) tt

process_all-Absent_example :
    blocked_after is_blocked (process_all is_blocked two entries nothing_to_do) addr_c ≡ false
unfolding same_bytes
process_all-Absent_example =
    process_all-Absent is_blocked two entries addr_c (refl, (refl, (refl, tt)))

newer : latest_qsort (offender addr_a 4) (offender addr_a 3) ≤ℤ pos 0
unfolding latest_qsort count_qsort
newer = omega arith

more : latest_qsort (offender addr_a 3) (offender addr_b 1) ≤ℤ pos 0
unfolding latest_qsort count_qsort
more = omega arith

map_all-lookup_example :
    lookup (map_all country entries (fresh_registry maps (λ i. zeroed))) addr_a
    ≡ merge_all country addr_a (lookup (fresh_registry maps (λ i. zeroed)) addr_a) entries
map_all-lookup_example =
    map_all-lookup country entries (fresh_registry maps (λ i. zeroed))
      (fresh_registry-IsValid maps (λ i. zeroed) 3 (omega arith)) (refl, (refl, (refl, tt))) addr_a

merge_all-totals_example :
    (out : OffEntry) × (merge_all country addr_a (some (offender addr_a 2)) entries ≡ some out)
    × (out.count % u32 ≡ (2 + total addr_a entries) % u32)
    × (out.severity ≡ max 2 (worst addr_a entries))
merge_all-totals_example = merge_all-totals addr_a country entries (offender addr_a 2)

abbrev start : Limits (as_str_map (pos 0))
start = record { cntry_map = (as_str_map (pos 0)).fresh; addr_map = (as_str_map (pos 0)).fresh }

init-allowed_example :
    (out : Limits (as_str_map (pos 0))) × (init (some (pos 5)) (map address (addr_a ∷ [])) [] start
      ≡ some out)
    × ((a : Text)
        → let c = or_else (country a) unknown in
          allowed country out a
          ≡ limit
              (joined
                ((as_str_map (pos 0)).find start.addr_map a)
                (mem_text a (addr_a ∷ []))
                (pos 5))
              (joined ((as_str_map (pos 0)).find start.cntry_map c) (mem_text c []) (pos 5)))
init-allowed_example =
    init-allowed (as_str_map (pos 0)) country (pos 5) (addr_a ∷ []) [] start
      ((as_str_map (pos 0)).fits_fresh 1 (omega arith))
      ((as_str_map (pos 0)).fits_fresh 0 (omega arith))

abbrev never : List Command → Command → Bool
never ran c = false

abbrev vec : List Text
vec = addr_a ∷ addr_b ∷ addr_c ∷ []

ordered : IsOrdered vec
unfolding IsOrdered addr_cmp has_colon
ordered = ((omega arith, (omega arith, tt)), ((omega arith, tt), (tt, tt)))

control_addresses-Controlled_example :
    Controlled never append_rule vec (control_addresses never (λ cmp l. l) append_rule vec)
control_addresses-Controlled_example =
    control_addresses-Controlled never (λ cmp l. l) append_rule vec (Perm.refl vec) ordered

-- A target that finds the address in the first three bytes of any line.
abbrev proto : Proto
proto = record {
  targets = record { severity = 2; rx_arr = (λ s. some (0, 3)) ∷ [] } ∷ [];
  ts = none;
  mktime = λ tm. pos 0;
  begin_tm = record { tm_year = pos 0; tm_mon = 0; tm_rest = [] };
  country = country;
}

abbrev lines : List (ℕ × Text)
lines = (0, addr_a) ∷ (10, addr_b) ∷ (20, addr_a ++ (32 ∷ [])) ∷ []

fits : All (λ h. FitsField h.addr) (hits proto lines)
unfolding hits hits_in strip scan scan_from
fits = (refl, (refl, (refl, tt)))

few : length (hits proto lines) ≤ 2 ^ 30
unfolding hits hits_in strip scan scan_from
few = omega arith

log_constructor-Tallied_example :
    Tallied addr_a
      (hits proto lines)
      (lookup (log_constructor {maps = maps} (λ i. zeroed) proto lines).off_entry addr_a)
log_constructor-Tallied_example =
    log_constructor-Tallied addr_a maps (λ i. zeroed) proto lines few fits

fill_in_all-lookup_example :
    lookup (fill_in_all country (addr_c ∷ addr_a ∷ []) (fresh_registry maps (λ i. zeroed))) addr_a
    ≡ filled country addr_a
        (listed addr_a (addr_c ∷ addr_a ∷ []))
        (lookup (fresh_registry maps (λ i. zeroed)) addr_a)
fill_in_all-lookup_example =
    fill_in_all-lookup country (addr_c ∷ addr_a ∷ []) (fresh_registry maps (λ i. zeroed))
      (fresh_registry-IsValid maps (λ i. zeroed) 2 (omega arith)) (refl, (refl, tt)) addr_a

file_offense_count-counts_example :
    let (self, out) = file_offense_count entries uncounted 10 in
    let (again, more) = file_offense_count [] self 20 in
    (out ≡ (10 + counts entries) % u32) × (more ≡ (20 + counts entries) % u32) × (again ≡ self)
file_offense_count-counts_example = file_offense_count-counts entries [] 10 20
