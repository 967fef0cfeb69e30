-- ===== src/CfgMap/Lines.antt =====
-- The lines of a configuration file, as `_CFGMAP_fh_read` of cfgmap.c acts on them. What the system
-- answers is in `World`: the contents of a file that can be opened, what a shell command prints, and
-- `dirname`.
use ban2fail.CfgMap.Scan.{
  but_last, last_char, starts_with, substitute, split_symbol, trim_end, extract_string, past_equals,
}
use ban2fail.CfgMap.{Value, CfgMap, num_values, modify, append}
use ban2fail.Prelude.{
  ℕ, zero, suc, ◌+◌, Bool, true, false, Option, none, some, List, [], ◌∷◌, ◌++◌, ◌==◌, ltb, leb,
  if◌then◌else◌, length, drop,
}
use ban2fail.Stdio.{Text, skip_space, scan_unsigned}
use ban2fail.StrMap.{StrMap}

-- `misread` is the VALUE that a pointer to a string shows when it is taken for one.
pub record World : Type 0 where
  pub open_file : Text → Option Text
  pub popen : Text → Option Text
  pub dirname : Text → Text
  pub misread : Text → Value

pub data Reason : Type 0 where
  line_overflow unterminated_string unmatched_brace unterminated_brace cannot_open : Reason
  index_missing symbol_overrun no_symbol out_of_range ambiguous : Reason
  -- These end the program, or leave what the language defines.
  assertion undefined too_deep : Reason

-- A value; an error, with what is there then; or the end of the program.
pub data Outcome {ℓ} (S : Type 0) (A : Type ℓ) : Type ℓ where
  ok : A → Outcome S A
  failed : S → Reason → Outcome S A
  crashed : Reason → Outcome S A

infixl 5 ◌>>=◌
abbrev pub ◌>>=◌ {ℓ κ} :
    {S : Type 0} {A : Type ℓ} {B : Type κ} → Outcome S A → (A → Outcome S B) → Outcome S B
ok a >>= f = f a
failed s why >>= f = failed s why
crashed why >>= f = crashed why

-- The ancestors of a symbol, each behind a backslash.
unfoldable pub prefix : List Text → Text
prefix [] = []
prefix (p ∷ ps) = b'\\' ∷ (p ++ prefix ps)

abbrev pub symbol_size : ℕ
symbol_size = 2048

-- One value is replaced and keeps its serial number.
unfoldable pub revalue : List Value → ℕ → Text → List Value
revalue [] i str = []
revalue (v ∷ vs) zero str = record v { str = str } ∷ vs
revalue (v ∷ vs) (suc i) str = v ∷ revalue vs i str

module _ {maps : StrMap ℕ} where
  -- `PTRVEC_remTail(&self->curlyBlock_lst)` at a brace
  unfoldable pub close_block : CfgMap maps → Outcome (CfgMap maps) (CfgMap maps)
  close_block self = elim self.curly_block_lst [
    | [] ↦ failed self unmatched_brace
    | p ∷ ps ↦ ok (record self { curly_block_lst = but_last (p ∷ ps) })
  ]

  -- `sscanf(valStr, "[ %u ]%n", &ndx, &n)` behind the bracket: `n` is set only at the second one.
  unfoldable pub scan_index : CfgMap maps → Text → Outcome (CfgMap maps) (ℕ × Text)
  scan_index self str = elim (scan_unsigned str) [
    | none ↦ failed self index_missing
    | some (ndx, rest) ↦ elim (skip_space rest) [
      | [] ↦ crashed undefined
      | c ∷ cs ↦ if c == b']' then ok (ndx, cs) else crashed undefined
    ]
  ]

  -- The index, if there is one, and the value, from what stands behind the symbol.
  unfoldable pub split_value : CfgMap maps → Text → Outcome (CfgMap maps) (Option ℕ × Text)
  unfolding scan_index past_equals
  split_value self rest = elim (skip_space rest) [
    | [] ↦ ok (none, [])
    | c ∷ cs ↦
        if c == b'['
        then (scan_index self cs >>= λ (x : ℕ × Text). ok (some x.0, past_equals (skip_space x.1)))
        else ok (none, past_equals (c ∷ cs))
  ]

  -- The contents of `symBuf`, below the blocks that are open
  unfoldable pub symbol_under : CfgMap maps → List Text → Text → Outcome (CfgMap maps) Text
  unfolding prefix
  symbol_under self [] symbol = ok (b'\\' ∷ symbol)
  symbol_under self (p ∷ ps) symbol =
      let pfix = prefix (p ∷ ps) ++ (b'\\' ∷ []) in
      if leb symbol_size (length pfix)
      then crashed undefined
      else if leb symbol_size (length pfix + length symbol)
      then failed self symbol_overrun
      else ok (pfix ++ symbol)

  unfoldable pub full_symbol : CfgMap maps → Text → Outcome (CfgMap maps) Text
  unfolding symbol_under
  full_symbol self symbol = symbol_under self self.curly_block_lst symbol

  -- `REPLACE_STATE`; a value that is not indexed is replaced by a string where a VALUE belongs.
  unfoldable pub replace_value :
      (Text → Value) → CfgMap maps → Option ℕ → Text → Text → Outcome (CfgMap maps) (CfgMap maps)
  unfolding num_values revalue
  replace_value misread self ndx symbol val_str = elim (maps.find self.entry_map (drop 1 symbol)) [
    | none ↦ failed self no_symbol
    | some p ↦ elim ndx [
      | some i ↦
          if ltb i (num_values (self.heap p))
          then ok (modify self p (λ e. record e { value_lst = revalue e.value_lst i val_str }))
          else failed self out_of_range
      | none ↦
          if num_values (self.heap p) == 1
          then ok (modify self p (λ e. record e { value_lst = misread val_str ∷ [] }))
          else failed self ambiguous
    ]
  ]

  -- A symbol and its value are added, and a block is opened behind a brace.
  unfoldable pub add_pair :
      CfgMap maps → Bool → Option ℕ → Text → Text → Outcome (CfgMap maps) (CfgMap maps)
  add_pair self begin (some i) symbol val_str = crashed assertion
  add_pair self begin none symbol val_str =
      let added = append self symbol val_str in
      ok (
        if begin
        then record added { curly_block_lst = added.curly_block_lst ++ (val_str ∷ []) }
        else added)

  unfoldable pub read_pair :
      (Text → Value) → CfgMap maps → Bool → Bool → Text → Outcome (CfgMap maps) (CfgMap maps)
  unfolding split_symbol split_value full_symbol replace_value add_pair
  read_pair misread self replace begin str =
      let (name, rest) = split_symbol str in
      split_value self rest >>= λ (x : Option ℕ × Text).
      full_symbol self name >>= λ (symbol : Text).
      if replace
      then replace_value misread self x.0 symbol x.1
      else add_pair self begin x.0 symbol x.1

  -- A line that is no directive, by its first character
  unfoldable pub read_entry :
      (Text → Value) → CfgMap maps → Bool → Text → Outcome (CfgMap maps) (CfgMap maps)
  unfolding read_pair close_block
  read_entry misread self begin [] = read_pair misread self false begin []
  read_entry misread self begin (c ∷ cs) =
      if c == b'@'
      then read_pair misread self true begin (skip_space cs)
      else if c == b'}'
      then close_block self
      else read_pair misread self false begin (c ∷ cs)

  module _ (world : World) (cwd : Text)
      (include : Text → CfgMap maps → Outcome (CfgMap maps) (CfgMap maps))
      (shell : Text → CfgMap maps → Outcome (CfgMap maps) (CfgMap maps)) where
    -- ".include" and ".shell", or an entry; `begin` is CURLY_BEGIN_STATE.
    unfoldable pub read_directive : CfgMap maps → Bool → Text → Outcome (CfgMap maps) (CfgMap maps)
    unfolding starts_with extract_string read_entry
    read_directive self begin str =
        if starts_with (b'.' ∷ b'i' ∷ b'n' ∷ b'c' ∷ b'l' ∷ b'u' ∷ b'd' ∷ b'e' ∷ []) str
        then (elim (extract_string (drop 8 str)) [
          | none ↦ crashed assertion
          | some (fname, rest) ↦ include fname self
        ])
        else (if starts_with (b'.' ∷ b's' ∷ b'h' ∷ b'e' ∷ b'l' ∷ b'l' ∷ []) str
            then (elim (world.popen (skip_space (drop 6 str))) [
              | none ↦ failed self cannot_open
              | some text ↦ shell text self
            ])
            else read_entry world.misread self begin str)

    -- A line that is not empty, by its last character
    unfoldable pub read_line : CfgMap maps → Text → Outcome (CfgMap maps) (CfgMap maps)
    unfolding read_directive close_block
    read_line self str =
        if last_char str == b'{'
        then read_directive self true (trim_end (but_last str))
        else if last_char str == b'}'
        then (close_block self >>= λ (closed : CfgMap maps).
            if length str == 1 then ok closed else read_directive closed false str)
        else read_directive self false str

    -- The contents of `lineBuf`
    unfoldable pub process_line : CfgMap maps → Text → Outcome (CfgMap maps) (CfgMap maps)
    unfolding substitute trim_end read_line
    process_line self line = elim (substitute cwd 0 0 (skip_space (trim_end line))) [
      | [] ↦ ok self
      | c ∷ cs ↦ read_line self (c ∷ cs)
    ]
