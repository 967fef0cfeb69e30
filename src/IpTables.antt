-- ===== src/IpTables.antt =====
-- iptables.c: the addresses that iptables blocks, and the commands that block and unblock them.
-- The children of this process are not in the model: `fails ran c` says whether command `c` exits
-- with an error once the commands `ran` have been run. Of the PTRVEC of addresses, which
-- PtrVec.Ends shows to be a sequence, only the addresses in order are kept.
pub mod Batches
pub mod Control
pub mod Missing
use ban2fail.OffEntry.Registry.{Registry}
use ban2fail.OffEntry.{addr_constructor}
use ban2fail.Prelude.{
  ℕ, suc, ◌+◌, Bool, true, false, not, ◌||◌, Option, none, some, List, [], ◌∷◌, ◌++◌, ltb, ◌==◌,
  if◌then◌else◌, store,
}
use ban2fail.Prelude.Int.{ℤ, pos, negsuc}
use ban2fail.Stdio.{Text}
use ban2fail.StrMap.{StrMap}

-- `IPTABLES_MAX_ADDR`
abbrev pub max_addr : ℕ
max_addr = 9000

-- argv[0], as the macros `IPTABLES` and `IP6TABLES` give it
pub data Program : Type 0 where
  iptables : Program
  ip6tables : Program

pub data Flag : Type 0 where
  -- "-A"
  append_rule : Flag
  -- "-D"
  delete_rule : Flag

-- What of `argv` changes from one command to the next: argv[0], argv[1] and argv[4].
pub record Command : Type 0 where
  pub program : Program
  pub flag : Flag
  pub source : Text

-- `strchr(addr, ':')`
unfoldable pub has_colon : Text → Bool
has_colon [] = false
has_colon (c ∷ cs) = (c == 58) || has_colon cs

-- The list of addresses in the string buffer.
pub record Batch : Type 0 where
  pub addr_sb : Text
  pub naddr : ℕ

abbrev pub no_batch : Batch
no_batch = record { addr_sb = []; naddr = 0 }

unfoldable pub put_addr : Batch → Text → Batch
put_addr b addr = record {
  addr_sb = (if b.naddr == 0 then b.addr_sb else b.addr_sb ++ (44 ∷ [])) ++ addr;
  naddr = b.naddr + 1;
}

-- The way out: the commands that were run, and what goes on if none of them failed.
pub data Outcome (A : Type 0) : Type 0 where
  aborted : List Command → Outcome A
  went : List Command → A → Outcome A

module _ (fails : List Command → Command → Bool) (flag : Flag) where
  -- `run_command`; what follows it goes on from the commands that have been run.
  unfoldable pub run_command :
      {A : Type 0} → List Command → Command → (List Command → Outcome A) → Outcome A
  run_command ran c rest = if fails ran c then aborted (ran ++ (c ∷ [])) else rest (ran ++ (c ∷ []))

  unfoldable pub issue :
      {A : Type 0} → Program → List Command → Batch → (List Command → Outcome A) → Outcome A
  issue program ran b rest =
      run_command ran (record { program = program; flag = flag; source = b.addr_sb }) rest

  -- The loop over ipv4 addresses. It ends with the address that ended it, and the ones behind that.
  unfoldable pub ip4_loop : List Text → Batch → List Command → Outcome (Option Text × List Text)
  ip4_loop [] b ran =
      let leave = λ (r : List Command). went r (none, []) in
      if b.naddr == 0 then leave ran else issue iptables ran b leave
  ip4_loop (addr ∷ vec) b ran =
      let leave = λ (r : List Command). went r (some addr, vec) in
      let b₂ = put_addr b addr in
      let filled = ip4_loop vec b₂ ran in
      let next = λ (r : List Command). ip4_loop vec no_batch r in
      if has_colon addr
      then (if b.naddr == 0 then leave ran else issue iptables ran b leave)
      else (if ltb b₂.naddr max_addr then filled else issue iptables ran b₂ next)

  abbrev put_found : Batch → Option Text → Batch
  put_found b none = b
  put_found b (some addr) = put_addr b addr

  -- The loop over ipv6 addresses: `found` is the address at hand.
  unfoldable pub ip6_loop : Option Text → List Text → Batch → List Command → Outcome Unit
  ip6_loop found [] b ran =
      let b₂ = put_found b found in
      let leave = λ (r : List Command). went r tt in
      if b₂.naddr == 0 then leave ran else issue ip6tables ran b₂ leave
  ip6_loop found (addr ∷ vec) b ran =
      let b₂ = put_found b found in
      let filled = ip6_loop (some addr) vec b₂ ran in
      let next = λ (r : List Command). ip6_loop (some addr) vec no_batch r in
      if b₂.naddr == 0
      then filled
      else (if ltb b₂.naddr max_addr then filled else issue ip6tables ran b₂ next)

  -- `_control_addresses` once the vector has been sorted.
  unfoldable pub control_sorted : List Text → Outcome Unit
  control_sorted vec = elim (ip4_loop vec no_batch []) [
    | aborted ran ↦ aborted ran
    | went ran (addr, rest) ↦ ip6_loop addr rest no_batch ran
  ]

-- `addrCmp_pvsort`, the comparison with which the vector is sorted
unfoldable pub addr_cmp : Text → Text → ℤ
addr_cmp addr1 addr2 =
    if has_colon addr2
    then (if has_colon addr1 then pos 0 else negsuc 0)
    else (if has_colon addr1 then pos 1 else pos 0)

-- `_control_addresses`, with the order that PTRVEC_sort makes of the vector by a comparison
unfoldable pub control_addresses :
    (fails : List Command → Command → Bool)
    → (pvsort : (Text → Text → ℤ) → List Text → List Text) → Flag
    → List Text
    → Outcome Unit
control_addresses fails pvsort flag vec = control_sorted fails flag (pvsort addr_cmp vec)

-- `rtn`
unfoldable pub status : Outcome Unit → ℤ
status (aborted ran) = negsuc 0
status (went ran u) = pos 0

module _ {maps : StrMap ℕ} where
  -- `fill_in_missing`, the visitor of `IPTABLES_fill_in_missing`: the map of the caller gets an entry
  -- for a blocked address that it lacks.
  unfoldable pub fill_in_missing : (Text → Option Text) → Text → Registry maps → Registry maps
  fill_in_missing country blocked_addr g = elim (maps.find g.index blocked_addr) [
    | some p ↦ g
    | none ↦ record g {
      heap = store g.heap g.next (addr_constructor country blocked_addr);
      next = g.next + 1;
      index = maps.add g.index blocked_addr g.next;
    }
  ]

  -- The walk of `IPTABLES_fill_in_missing` over the blocked addresses.
  unfoldable pub fill_in_all : (Text → Option Text) → List Text → Registry maps → Registry maps
  fill_in_all country [] g = g
  fill_in_all country (a ∷ addrs) g = fill_in_all country addrs (fill_in_missing country a g)
