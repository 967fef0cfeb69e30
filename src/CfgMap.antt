-- ===== src/CfgMap.antt =====
-- cfgmap.c and cfgmap.h: the entries of the configuration, each a symbol with its values, and what
-- looks them up. The vectors of values and of open blocks are lists: PtrVec shows that a PTRVEC is
-- one. The entries are objects behind the pointers of a MAP with the symbols as keys; walks over
-- that MAP are sums and lists here, in the order in which the entries were made.
pub mod Values
pub mod Lookup
pub mod Scan
pub mod Lines
pub mod Reader
pub mod Render
pub mod Chars
pub mod Scans
pub mod Pairs
pub mod Effects
pub mod Within
pub mod RoundTrip
pub mod Frame
pub mod Bounds
pub mod Query
use ban2fail.Prelude.{
  ℕ, zero, suc, ◌+◌, ◌-◌, Bool, true, false, Option, none, some, List, [], ◌∷◌, ◌++◌, map, ◌==◌,
  if◌then◌else◌, length, get_elem?, store, listing, add32, sub32,
}
use ban2fail.Stdio.{Text}
use ban2fail.StrMap.{StrMap, or_else}

-- `VALUE`
pub record Value : Type 0 where
  pub str : Text
  pub serial_no : ℕ

-- `CFGMAP_ENTRY`
pub record Entry : Type 0 where
  pub symbol : Text
  pub n_lookups : ℕ
  pub value_lst : List Value

-- `CFGMAP`: `entry_map` leads to the entries below `n_entries` in `heap`, `tuples_known` is
-- CFGMAP_NTUPLES_KNOWN_FLG.
pub record CfgMap (maps : StrMap ℕ) : Type 0 where
  pub entry_map : maps.T
  pub heap : ℕ → Entry
  pub n_entries : ℕ
  pub tuples_known : Bool
  pub n_tuples : ℕ
  pub recurs_lvl : ℕ
  pub curly_block_lst : List Text
  pub serial_no_seq : ℕ

-- `CFGMAP_ENTRY_constructor`
unfoldable pub entry_constructor : Text → Entry
entry_constructor symbol = record { symbol = symbol; n_lookups = 0; value_lst = [] }

-- `CFGMAP_ENTRY_append_value`
unfoldable pub append_value : Text → ℕ → Entry → Entry
append_value val_str serial_no e = record e {
  value_lst = e.value_lst ++ (record { str = val_str; serial_no = serial_no } ∷ []);
}

-- `CFGMAP_ENTRY_numValues`
unfoldable pub num_values : Entry → ℕ
num_values e = length e.value_lst

-- `CFGMAP_ENTRY_value_sn`, with the serial number beside the string; `none` for NULL.
unfoldable pub value_sn : Entry → ℕ → Option Value
value_sn e ndx = get_elem? e.value_lst ndx

-- `CFGMAP_ENTRY_value`
unfoldable pub value : Entry → ℕ → Option Text
value e ndx = elim (get_elem? e.value_lst ndx) [ none ↦ none | some v ↦ some v.str ]

-- `struct CFGMAP_tuple`
pub record Tuple : Type 0 where
  pub key : Text
  pub value : Text
  pub serial_no : ℕ

-- What `CFGMAP_find_single_value` and `CFGMAP_find_last_value` make of the entry that is found.
unfoldable pub single_of : Option Entry → Option Text
unfolding num_values value
single_of none = none
single_of (some e) = if num_values e == 1 then value e 0 else none

unfoldable pub last_of : Option Entry → Option Text
unfolding num_values value
last_of none = none
last_of (some e) = value e (sub32 (num_values e) 1)

-- The loop of `CFGMAP_find_tuples` over the indices from `i` on, `left` of them
unfoldable pub load_tuples : Entry → ℕ → ℕ → List Tuple
unfolding value_sn
load_tuples e i zero = []
load_tuples e i (suc left) = elim (value_sn e i) [
  | none ↦ load_tuples e (i + 1) left
  | some v ↦
      record { key = e.symbol; value = v.str; serial_no = v.serial_no } ∷ load_tuples e (i + 1) left
]

-- What `CFGMAP_find_tuples` makes of the entry that is found
unfoldable pub tuples_of : Option Entry → List Tuple
unfolding load_tuples num_values
tuples_of none = []
tuples_of (some e) = load_tuples e 0 (num_values e)

-- `count_tuples`, over the entries
unfoldable pub count_tuples : List Entry → ℕ → ℕ
unfolding num_values
count_tuples [] count = count
count_tuples (e ∷ es) count = count_tuples es (add32 count (num_values e))

-- `unused_load_arr`, over the entries
unfoldable pub unused_load_arr : List Entry → List Entry
unused_load_arr [] = []
unused_load_arr (e ∷ es) = if e.n_lookups == 0 then e ∷ unused_load_arr es else unused_load_arr es

module _ {maps : StrMap ℕ} where
  -- `CFGMAP_constructor`, with an object that stands for what is not allocated
  unfoldable pub construct : CfgMap maps
  construct = record {
    entry_map = maps.fresh;
    heap = λ p. record { symbol = []; n_lookups = 0; value_lst = [] };
    n_entries = 0;
    tuples_known = false;
    n_tuples = 0;
    recurs_lvl = 0;
    curly_block_lst = [];
    serial_no_seq = 0;
  }

  -- A change of an entry through its pointer
  abbrev pub modify : CfgMap maps → ℕ → (Entry → Entry) → CfgMap maps
  modify self p f = record self { heap = store self.heap p (f (self.heap p)) }

  -- `CFGMAP_ENTRY_create` and `MAP_addKey`
  unfoldable pub create : CfgMap maps → Text → CfgMap maps
  unfolding entry_constructor
  create self symbol = record self {
    entry_map = maps.add self.entry_map symbol self.n_entries;
    heap = store self.heap self.n_entries (entry_constructor symbol);
    n_entries = suc self.n_entries;
  }

  -- The entry of a symbol, made if it is missing
  unfoldable pub obtain : CfgMap maps → Text → ℕ × CfgMap maps
  unfolding create
  obtain self symbol = elim (maps.find self.entry_map symbol) [
    | none ↦ (self.n_entries, create self symbol)
    | some p ↦ (p, self)
  ]

  -- The rest of `CFGMAP_append`, once there is an entry
  unfoldable pub remember : ℕ × CfgMap maps → Text → CfgMap maps
  unfolding append_value
  remember (p, self) [] = self
  remember (p, self) (c ∷ cs) =
      let serial_no = add32 self.serial_no_seq 1 in
      record (modify self p (append_value (c ∷ cs) serial_no)) {
        tuples_known = false;
        serial_no_seq = serial_no;
      }

  -- `CFGMAP_append`; memory is granted, and it returns 0.
  unfoldable pub append : CfgMap maps → Text → Text → CfgMap maps
  unfolding obtain remember
  append self symbol value = remember (obtain self symbol) value

  -- `CFGMAP_find`
  unfoldable pub find : CfgMap maps → Text → Option Entry × CfgMap maps
  find self symbol = elim (maps.find self.entry_map symbol) [
    | none ↦ (none, self)
    | some p ↦
        let counted = modify self p (λ e. record e { n_lookups = add32 e.n_lookups 1 }) in
        (some (counted.heap p), counted)
  ]

  -- `CFGMAP_find_single_value`
  unfoldable pub find_single_value : CfgMap maps → Text → Option Text × CfgMap maps
  unfolding find single_of
  find_single_value self symbol = let (e, counted) = find self symbol in (single_of e, counted)

  -- `CFGMAP_find_last_value`
  unfoldable pub find_last_value : CfgMap maps → Text → Option Text × CfgMap maps
  unfolding find last_of
  find_last_value self symbol = let (e, counted) = find self symbol in (last_of e, counted)

  -- `CFGMAP_find_tuples`
  unfoldable pub find_tuples : CfgMap maps → Text → List Tuple × CfgMap maps
  unfolding find tuples_of
  find_tuples self symbol = let (e, counted) = find self symbol in (tuples_of e, counted)

  -- The entries that were made
  unfoldable pub all_entries : CfgMap maps → List Entry
  all_entries self = listing self.heap self.n_entries

  -- `CFGMAP_numTuples`
  unfoldable pub num_tuples : CfgMap maps → ℕ × CfgMap maps
  unfolding count_tuples all_entries
  num_tuples self =
      if self.tuples_known
      then (self.n_tuples, self)
      else (let n = count_tuples (all_entries self) self.n_tuples in
          (n, record self { n_tuples = n; tuples_known = true }))

  -- `CFGMAP_numUnused_symbols`
  unfoldable pub num_unused_symbols : CfgMap maps → ℕ
  unfolding unused_load_arr all_entries
  num_unused_symbols self = length (unused_load_arr (all_entries self))

  -- `CFGMAP_numEntries`
  unfoldable pub num_entries : CfgMap maps → ℕ
  num_entries self = self.n_entries
