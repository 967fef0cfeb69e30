-- ===== src/MaxOff/Config/Blocks.antt =====
-- A block MAX_OFFENSES of a configuration file decides what MAXOFF_allowed answers.
use ban2fail.CfgMap.Lookup.{
  strings, tuple, assigned, append_all, find_tuples-values, append_all-strings, append_all-IsValid,
}
use ban2fail.CfgMap.Frame.{Keeps, Keeps-trans, num_tuples-Keeps, find_tuples-Keeps}
use ban2fail.CfgMap.Lines.{World, ok}
use ban2fail.CfgMap.Reader.{file_constructor}
use ban2fail.CfgMap.Render.{Items, render, assigns, IsFile}
use ban2fail.CfgMap.RoundTrip.{file_constructor-render}
use ban2fail.CfgMap.Values.{IsValid, values, construct-IsValid}
use ban2fail.CfgMap.{CfgMap, Value, Tuple, construct, num_tuples, find_tuples}
use ban2fail.MaxOff.Allowed.{limit, joined, mem_text, init-allowed}
use ban2fail.MaxOff.Config.{
  is_addr_char, scan_addr, scan_ip, some_addr, scan_bits, after_last, allowed_of, ip_symbol,
  country_symbol, init_block,
}
use ban2fail.MaxOff.{Limits, address, unknown, allowed}
use ban2fail.CfgMap.Query.{to_int}
use ban2fail.Prelude.Int.{ℤ, pos, negsuc}
use ban2fail.Prelude.{
  ℕ, zero, suc, ◌+◌, ◌%◌, ◌^◌, ◌≤◌, ◌<◌, ◌≡◌, ◌≢◌, ◌∙◌, ap, ap₂, subst, sym, refl, arith, inl, inr,
  true, false, Bool-cases, Option, none, some, List, [], ◌∷◌, ◌++◌, append-nil, map, ◌==◌, length,
  All, All-append, ltb, ◌/◌,
}
use ban2fail.Stdio.Digits.{IsInt64, scan_signed-print}
use ban2fail.Stdio.{Text, print_digits, print_unsigned, print_signed, scan_signed}
use ban2fail.StrMap.{StrMap, or_else}

-- An address, as the format of `sscanf` takes it
pub record IsAddress (a : Text) : Type 0 where
  pub some_char : a ≢ []
  pub chars : All (λ c. is_addr_char c ≡ true) a
  pub short : length a ≤ 42

scan_addr-address :
    (width : ℕ) (a : Text)
    → All (λ c. is_addr_char c ≡ true) a
    → length a ≤ width
    → scan_addr width a ≡ (a, [])
unfolding scan_addr
scan_addr-address zero [] h l = refl
scan_addr-address (suc width) [] h l = refl
scan_addr-address zero (c ∷ a) h l = absurd (omega arith)
scan_addr-address (suc width) (c ∷ a) (h, hs) l =
    rw (scan_addr-address width a hs (omega arith), h) refl

scan_ip-address : (a : Text) → IsAddress a → scan_ip a ≡ address a
unfolding scan_ip some_addr scan_bits
scan_ip-address a h = rw (scan_addr-address 42 a h.chars h.short) (whole a h.some_char)
  where
    whole : (a : Text) → a ≢ [] → some_addr (a, []) ≡ address a
    whole [] ne = absurd (ne refl)
    whole (c ∷ a) ne = refl

-- The name of the block is the number.
abbrev pub IsInt32 : ℤ → Type 0
IsInt32 (pos n) = n < 2 ^ 31
IsInt32 (negsuc n) = n < 2 ^ 31

to_int_self : (z : ℤ) → IsInt32 z → to_int z ≡ z
to_int_self (pos n) h = ground arith
to_int_self (negsuc n) h = ground arith

abbrev NoBackslash : Text → Type 0
NoBackslash t = All (λ c. (c == b'\\') ≡ false) t

after_last-none : (s : Text) → NoBackslash s → after_last s ≡ none
unfolding after_last
after_last-none [] p = refl
after_last-none (c ∷ s) (p, ps) = rw (after_last-none s ps, after_last, p) refl

after_last-append : (w s : Text) → NoBackslash s → after_last (w ++ (b'\\' ∷ s)) ≡ some s
unfolding after_last
after_last-append [] s p = rw (after_last-none s p) refl
after_last-append (c ∷ w) s p = rw (after_last-append w s p) refl

NoBackslash-print_digits : (fuel n : ℕ) → NoBackslash (print_digits fuel n)
unfolding print_digits
NoBackslash-print_digits zero n = tt
NoBackslash-print_digits (suc fuel) n = elim (Bool-cases (ltb n 10)) [
  | inl e ↦ rw e (ground arith, tt)
  | inr e ↦ rw e (
      All-append _ (print_digits fuel (n / 10)) ((b'0' + n % 10) ∷ [])
        (NoBackslash-print_digits fuel (n / 10)) (ground arith, tt))
]

NoBackslash-print_signed : (z : ℤ) → NoBackslash (print_signed z)
unfolding print_signed print_unsigned
NoBackslash-print_signed (pos n) = NoBackslash-print_digits (n + 1) n
NoBackslash-print_signed (negsuc n) = (refl, NoBackslash-print_digits (n + 1 + 1) (n + 1))

allowed_of-print :
    (w : Text) (z : ℤ) → IsInt32 z → allowed_of (w ++ (b'\\' ∷ print_signed z)) ≡ some z
unfolding allowed_of
allowed_of-print w z h =
    rw
      (
        after_last-append w (print_signed z) (NoBackslash-print_signed z),
        allowed_of,
        ap scan_signed (sym (append-nil (print_signed z))) ∙ scan_signed-print z [] (wide z h) tt,
      )
      (ap some (to_int_self z h))
  where
    wide : (z : ℤ) → IsInt32 z → IsInt64 z
    wide (pos n) h = omega arith
    wide (negsuc n) h = omega arith

scan_ips-addresses :
    (k : Text) (vs : List Value) (addrs : List Text)
    → strings vs ≡ addrs
    → All IsAddress addrs
    → map (λ (t : Tuple). scan_ip t.value) (map (tuple k) vs) ≡ map address addrs
scan_ips-addresses k vs addrs e h = rw (← e) (go vs (subst (All IsAddress) (sym e) h))
  where
    go :
        (vs : List Value)
        → All IsAddress (strings vs)
        → map (λ (t : Tuple). scan_ip t.value) (map (tuple k) vs) ≡ map address (strings vs)
    go [] h = refl
    go (v ∷ vs) (h, hs) = ap₂ ◌∷◌ (scan_ip-address v.str h) (go vs hs)

values-tuples :
    (k : Text) (vs : List Value) → map (λ (t : Tuple). t.value) (map (tuple k) vs) ≡ strings vs
values-tuples k [] = refl
values-tuples k (v ∷ vs) = ap (λ l. v.str ∷ l) (values-tuples k vs)

-- The number that a block allows, by address or by country
abbrev pub Answers :
    {maps : StrMap ℤ}
    → (Text → Option Text)
    → ℤ
    → List Text
    → List Text
    → Limits maps
    → Limits maps
    → Type 0
Answers {maps = maps} country z addrs countries s out =
    (a : Text)
    → let c = or_else (country a) unknown in
      allowed country out a
      ≡ limit (joined (maps.find s.addr_map a) (mem_text a addrs) z)
          (joined (maps.find s.cntry_map c) (mem_text c countries) z)

module _ (config : StrMap ℕ) (maps : StrMap ℤ) (country : Text → Option Text) (z : ℤ)
    (int : IsInt32 z) (w : Text) (addrs countries : List Text) (s : Limits maps)
    (addresses : All IsAddress addrs) (fits : maps.Fits (length addrs) s.addr_map)
    (more : maps.Fits (length countries) s.cntry_map) where
  abbrev pfix : Text
  pfix = w ++ (b'\\' ∷ print_signed z)

  -- `MAXOFF_init` of a block whose name is a number enters the addresses and countries that stand
  -- under it: MAXOFF_allowed answers with this number for them, unless another was there before.
  pub init_block-allowed :
      (h : CfgMap config) (n : ℕ)
      → IsValid n h
      → strings (values h (ip_symbol pfix)) ≡ addrs
      → strings (values h (country_symbol pfix)) ≡ countries
      → (out : Limits maps) × ((init_block h pfix s).0 ≡ some out)
        × Answers country z addrs countries s out
  unfolding init_block
  init_block-allowed h n valid ips cs =
      let c1 = (num_tuples h).1 in
      let k1 = num_tuples-Keeps h in
      let c2 = (find_tuples c1 (ip_symbol pfix)).1 in
      let k2 = find_tuples-Keeps c1 (ip_symbol pfix) in
      let found = find_tuples-values c1 (ip_symbol pfix) n (k1.valid n valid) in
      let looked = find_tuples-values c2 (country_symbol pfix) n (k2.valid n (k1.valid n valid)) in
      let entries : map (λ (t : Tuple). scan_ip t.value) (find_tuples c1 (ip_symbol pfix)).0
          ≡ map address addrs =
        ap (map (λ (t : Tuple). scan_ip t.value)) found
        ∙ scan_ips-addresses (ip_symbol pfix) (values c1 (ip_symbol pfix)) addrs
            (ap strings (k1.same (ip_symbol pfix)) ∙ ips) addresses in
      let codes : map (λ (t : Tuple). t.value) (find_tuples c2 (country_symbol pfix)).0
          ≡ countries =
        ap (map (λ (t : Tuple). t.value)) looked
        ∙ values-tuples (country_symbol pfix) (values c2 (country_symbol pfix))
        ∙ ap strings (k2.same (country_symbol pfix) ∙ k1.same (country_symbol pfix))
        ∙ cs in
      let (out, run, answers) = init-allowed maps country z addrs countries s fits more in
      (out, rw (entries, codes, allowed_of-print w z int) run, answers)

  -- From the file to the answers: after a configuration file that assigns the addresses and countries
  -- to the block has been read, `MAXOFF_init` makes MAXOFF_allowed answer with its number.
  module _ (world : World) (fuel : ℕ) (fname : Text) (i : Items) (file : IsFile [] i)
      (here : world.open_file fname ≡ some (render i)) (few : length (assigns [] i) ≤ 2 ^ 30) where
    -- From the file to the answers: when CFGMAP_file_constructor reads a file of settings, nested
    -- blocks, blank lines and remarks, laid out as Render writes them (one blank within `SYMBOL=
    -- value` and within `SYMBOL name {`, any blanks in front of a line and behind it, a remark on
    -- any line), whose lines and symbols fit into their buffers and whose values stand for
    -- themselves, with at most 2^30 assignments, MAXOFF_init succeeds on the block with the name
    -- of a number of 32 bits, and MAXOFF_allowed then answers with this number for the addresses
    -- that the file assigns to IP in that block, or by its COUNTRY entries, unless another number
    -- was there before. The addresses have 1 to 42 characters of the kind that the code reads, and
    -- the maps have room.
    pub file_constructor-allowed :
        assigned (ip_symbol pfix) (assigns [] i) ≡ addrs
        → assigned (country_symbol pfix) (assigns [] i) ≡ countries
        → (c : CfgMap config) × (file_constructor world (suc fuel) fname ≡ ok c)
          × ((out : Limits maps) × ((init_block c pfix s).0 ≡ some out)
              × Answers country z addrs countries s out)
    file_constructor-allowed ips cs =
        let l = assigns [] i in
        let valid =
          append_all-IsValid 0 l (construct {maps = config})
            (construct-IsValid (length l + 0) (omega arith)) in
        (
          append_all construct l,
          file_constructor-render world fuel fname i file here,
          init_block-allowed (append_all construct l) 0 valid
              (append_all-strings config l few (ip_symbol pfix) ∙ ips)
              (append_all-strings config l few (country_symbol pfix) ∙ cs),
        )

-- `MAXOFF_init` leaves the values of the configuration alone.
pub init_block-Keeps :
    {config : StrMap ℕ} {maps : StrMap ℤ} (h : CfgMap config) (pfix : Text) (s : Limits maps)
    → Keeps h (init_block h pfix s).1
unfolding init_block
init_block-Keeps h pfix s =
    let c1 = (num_tuples h).1 in
    let c2 = (find_tuples c1 (ip_symbol pfix)).1 in
    Keeps-trans h c1 _ (num_tuples-Keeps h) (
      Keeps-trans c1 c2 _ (find_tuples-Keeps c1 (ip_symbol pfix))
        (find_tuples-Keeps c2 (country_symbol pfix)))
