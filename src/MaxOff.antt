-- ===== src/MaxOff.antt =====
-- maxoff.c: how many offenses an address or a country may have. The numbers stand in MAPs in place
-- of pointers: 0 is what a MAP answers for a missing key. The country of an address is the argument
-- `country`. What CFGMAP and sscanf make of an entry of the configuration is its argument.
pub mod Allowed
pub mod Config
use Prim.Native.Nat.{bit_or, bit_and}
use ban2fail.Prelude.{
  ℕ, zero, suc, ◌+◌, ◌-◌, ◌*◌, ◌/◌, ◌%◌, ◌^◌, Bool, true, false, Option, none, some, List, [], ◌∷◌,
  ◌++◌, ◌==◌, ltb, if◌then◌else◌, u32,
}
use ban2fail.IpTables.{has_colon}
use ban2fail.Prelude.Int.{ℤ, pos, negsuc}
use ban2fail.Stdio.{Text, print_unsigned}
use ban2fail.StrMap.{StrMap, or_else}

-- `S`
pub record Limits (maps : StrMap ℤ) : Type 0 where
  pub cntry_map : maps.T
  pub addr_map : maps.T

abbrev pub unknown : Text
unknown = 117 ∷ 110 ∷ 107 ∷ 110 ∷ 111 ∷ 119 ∷ 110 ∷ []

abbrev pub is_zero : ℤ → Bool
is_zero (pos n) = n == 0
is_zero (negsuc n) = false

-- An entry of "\\IP", as `sscanf` reads it: no address, an address, or an address and a number of
-- bits; the four numbers are those of "%u.%u.%u.%u".
pub data IpEntry : Type 0 where
  neither : IpEntry
  address : Text → IpEntry
  cidr : Text → ℕ → ℕ → ℕ → ℕ → ℕ → IpEntry

-- `baddr`, `mask`, `net` and `nAddr`; a shift by 32 or more has no meaning in C.
unfoldable pub baddr_of : ℕ → ℕ → ℕ → ℕ → ℕ
baddr_of q1 q2 q3 q4 =
    bit_or (bit_or (bit_or (q1 * 2 ^ 24 % u32) (q2 * 2 ^ 16 % u32)) (q3 * 2 ^ 8 % u32)) q4

unfoldable pub net_of : ℕ → ℕ → ℕ
net_of baddr bits = bit_and baddr ((u32 - 1) * 2 ^ (32 - bits) % u32)

unfoldable pub n_addr : ℕ → ℕ
n_addr bits = (u32 - 1) / 2 ^ bits

-- "%u.%u.%u.%u"
unfoldable pub dotted : ℕ → Text
dotted baddr =
    print_unsigned (baddr / 2 ^ 24)
    ++ (46
        ∷ (print_unsigned (baddr / 2 ^ 16 % 2 ^ 8)
            ++ (46
                ∷ (print_unsigned (baddr / 2 ^ 8 % 2 ^ 8)
                    ++ (46 ∷ print_unsigned (baddr % 2 ^ 8))))))

module _ {maps : StrMap ℤ} where
  -- `MAXOFF_allowed`
  unfoldable pub allowed : (Text → Option Text) → Limits maps → Text → ℤ
  allowed country s addr =
      let by_addr = or_else (maps.find s.addr_map addr) (pos 0) in
      let cntry = or_else (country addr) unknown in
      if is_zero by_addr then or_else (maps.find s.cntry_map cntry) (pos 0) else by_addr

  abbrev pub put_addr : Limits maps → Text → ℤ → Limits maps
  put_addr s addr n_allowed = record s { addr_map = maps.add s.addr_map addr n_allowed }

  -- The addresses of a subnet, `left` of them from the `i`-th on
  unfoldable pub put_subnet : ℕ → ℕ → ℕ → ℤ → Limits maps → Limits maps
  put_subnet net zero i n_allowed s = s
  put_subnet net (suc left) i n_allowed s =
      put_subnet net left (i + 1) n_allowed (put_addr s (dotted (bit_or net i)) n_allowed)

  -- The body of the loop over "\\IP" entries; `none` where it aborts.
  unfoldable pub put_ip : ℤ → IpEntry → Limits maps → Option (Limits maps)
  put_ip n_allowed neither s = none
  put_ip n_allowed (address addr) s = some (put_addr s addr n_allowed)
  put_ip n_allowed (cidr addr bits q1 q2 q3 q4) s =
      if has_colon addr
      then none
      else (if ltb bits 16
          then none
          else some (put_subnet (net_of (baddr_of q1 q2 q3 q4) bits) (n_addr bits) 0 n_allowed s))

  unfoldable pub put_ips : ℤ → List IpEntry → Limits maps → Option (Limits maps)
  put_ips n_allowed [] s = some s
  put_ips n_allowed (e ∷ es) s = elim (put_ip n_allowed e s) [
    | none ↦ none
    | some t ↦ put_ips n_allowed es t
  ]

  unfoldable pub put_countries : ℤ → List Text → Limits maps → Limits maps
  put_countries n_allowed [] s = s
  put_countries n_allowed (c ∷ cs) s =
      put_countries n_allowed cs (record s { cntry_map = maps.add s.cntry_map c n_allowed })

  -- `MAXOFF_init` for one number of the configuration; `none` is -1.
  unfoldable pub init : Option ℤ → List IpEntry → List Text → Limits maps → Option (Limits maps)
  init none ips countries s = none
  init (some n_allowed) ips countries s = elim (put_ips n_allowed ips s) [
    | none ↦ none
    | some t ↦ some (put_countries n_allowed countries t)
  ]
