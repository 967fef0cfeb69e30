-- ===== src/Ban2fail.antt =====
-- ban2fail.c: what main decides for each address, and the comparisons by which it sorts.
pub mod Decide
pub mod Configure
pub mod Inits
use ban2fail.OffEntry.{OffEntry}
use ban2fail.Prelude.{
  ℕ, zero, suc, ◌+◌, ◌-◌, Bool, true, false, not, ◌&&◌, ◌||◌, List, [], ◌∷◌, ◌++◌, ltb, leb, ◌==◌,
  if◌then◌else◌, u32,
}
use ban2fail.Prelude.Int.{ℤ, pos, negsuc, ltb_ℤ}
use ban2fail.Stdio.{Text}

-- An `int` in a comparison with an `unsigned`
abbrev pub as_unsigned : ℤ → ℕ
as_unsigned (pos n) = n
as_unsigned (negsuc n) = u32 - suc n

abbrev pub is_minus_one : ℤ → Bool
is_minus_one (pos n) = false
is_minus_one (negsuc n) = n == 0

-- The bits of `flags` in the loop over OFFENTRY objects
pub record Flags : Type 0 where
  pub blocked : Bool
  pub whitelist : Bool
  pub unjust_block : Bool
  pub would_block : Bool

unfoldable pub flags_of : Bool → ℤ → OffEntry → Flags
flags_of blocked n_allowed e =
    let whitelist = is_minus_one n_allowed in
    record {
      blocked = blocked;
      whitelist = whitelist;
      unjust_block = (whitelist || leb e.count (as_unsigned n_allowed)) && blocked;
      would_block = not blocked && (not whitelist && ltb (as_unsigned n_allowed) e.count);
    }

-- `S.toBlock_vec` and `S.toUnblock_vec`, as the sequences of their addresses
pub record Todo : Type 0 where
  pub to_block : List Text
  pub to_unblock : List Text

abbrev pub nothing_to_do : Todo
nothing_to_do = record { to_block = []; to_unblock = [] }

module _ (is_currently_blocked : Text → Bool) (allowed : Text → ℤ) where
  -- One turn of the loop, less the listing
  unfoldable pub process : OffEntry → Todo → Todo
  process e todo =
      let flags = flags_of (is_currently_blocked e.addr) (allowed e.addr) e in
      record {
        to_block = if flags.would_block then todo.to_block ++ (e.addr ∷ []) else todo.to_block;
        to_unblock =
            if flags.unjust_block then todo.to_unblock ++ (e.addr ∷ []) else todo.to_unblock;
      }

  unfoldable pub process_all : List OffEntry → Todo → Todo
  process_all [] todo = todo
  process_all (e ∷ es) todo = process_all es (process e todo)

-- `logentry_count_qsort`
unfoldable pub count_qsort : OffEntry → OffEntry → ℤ
count_qsort le1 le2 =
    if ltb le2.count le1.count then negsuc 0 else (if ltb le1.count le2.count then pos 1 else pos 0)

-- `logentry_latest_qsort`
unfoldable pub latest_qsort : OffEntry → OffEntry → ℤ
latest_qsort le1 le2 =
    if ltb_ℤ le2.latest le1.latest
    then negsuc 0
    else (if ltb_ℤ le1.latest le2.latest then pos 1 else count_qsort le1 le2)
