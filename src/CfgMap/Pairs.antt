-- ===== src/CfgMap/Pairs.antt =====
-- A symbol and its value, as the reader of configuration files takes them out of a line.
use ban2fail.CfgMap.Lines.{
  ok, symbol_under, prefix, symbol_size, split_value, full_symbol, add_pair, read_pair,
}
use ban2fail.CfgMap.Render.{IsName, IsValue, IsTitle, full}
use ban2fail.CfgMap.Scan.{past_equals, trim_end, ends_symbol}
use ban2fail.CfgMap.Scans.{skip_space-solid, trim_end-append, split_symbol-name}
use ban2fail.CfgMap.{Value, CfgMap, append}
use ban2fail.Prelude.{
  ℕ, ◌+◌, ◌<◌, ◌≡◌, ◌∙◌, ap, sym, refl, arith, Bool, true, false, ◌==◌, leb, if◌then◌else◌, none,
  List, [], ◌∷◌, ◌++◌, append_assoc, length, length-append,
}
use ban2fail.Stdio.{Text, skip_space}
use ban2fail.StrMap.{StrMap}

-- White space before a value is passed over.
skip_space-value : (v : Text) → IsValue v → skip_space v ≡ v
skip_space-value v h =
    rw h.splits (skip_space-solid h.first h.others (let o = h.opens in ground arith))

past_equals-value : (v : Text) → IsValue v → past_equals v ≡ v
unfolding past_equals
past_equals-value v h =
    let ne : (h.first == b'=') ≡ false = (let o = h.opens in ground arith) in
    rw h.splits (rw ne (skip_space-solid h.first h.others (let o = h.opens in ground arith)))

pub trim_end-value :
    (s : Text) (d : ℕ) (v : Text) → IsValue v → trim_end (s ++ (d ∷ v)) ≡ s ++ (d ∷ v)
trim_end-value s d v h =
    let shape : s ++ (d ∷ v) ≡ (s ++ (d ∷ [])) ++ (h.first ∷ h.others) =
      ap (λ x. s ++ (d ∷ x)) h.splits ∙ sym (append_assoc s (d ∷ []) (h.first ∷ h.others)) in
    ap trim_end shape
    ∙ trim_end-append (s ++ (d ∷ [])) h.first h.others
        (ap trim_end (sym h.splits) ∙ h.trimmed ∙ h.splits)
    ∙ sym shape

module _ {maps : StrMap ℕ} (self : CfgMap maps) where
  pub split_value-equals :
      (v : Text) → IsValue v → split_value self (b'=' ∷ b' ' ∷ v) ≡ ok (none, v)
  unfolding split_value skip_space past_equals
  split_value-equals v h = ap (λ t. ok (none, t)) (skip_space-value v h)

  pub split_value-solid :
      (rest : Text) (c : ℕ) (cs : Text)
      → skip_space rest ≡ c ∷ cs
      → (c == b'[') ≡ false
      → split_value self rest ≡ ok (none, past_equals (c ∷ cs))
  unfolding split_value
  split_value-solid rest c cs e ne = rw (e, split_value, ne) refl

  pub split_value-blank : (v : Text) → IsTitle v → split_value self (b' ' ∷ v) ≡ ok (none, v)
  unfolding skip_space
  split_value-blank v title =
      let h = title.value in
      split_value-solid (b' ' ∷ v) h.first h.others (skip_space-value v h ∙ h.splits) title.no_index
      ∙ ap (λ t. ok (none, t)) (ap past_equals (sym h.splits) ∙ past_equals-value v h)

  symbol_under-full :
      (ps : List Text) (s : Text)
      → length (full ps s) < symbol_size
      → symbol_under self ps s ≡ ok (full ps s)
  unfolding symbol_under prefix
  symbol_under-full [] s h = refl
  symbol_under-full (p ∷ ps) s h =
      let pfix = prefix (p ∷ ps) in
      let n = length-append pfix (b'\\' ∷ s) in
      let m = length-append pfix (b'\\' ∷ []) in
      let t : leb symbol_size (length (pfix ++ (b'\\' ∷ []))) ≡ false = ground arith in
      let u : leb symbol_size (length (pfix ++ (b'\\' ∷ [])) + length s) ≡ false = ground arith in
      rw (t, u) (ap ok (append_assoc pfix (b'\\' ∷ []) s))

  abbrev pub after : Bool → Text → Text → CfgMap maps
  after begin s v =
      let added = append self (full self.curly_block_lst s) v in
      if begin then record added { curly_block_lst = added.curly_block_lst ++ (v ∷ []) } else added

  module _ (misread : Text → Value) (begin : Bool) (s : Text) (name : IsName s)
      (room : length (full self.curly_block_lst s) < symbol_size) where
    pub read_pair-after :
        (d : ℕ) (t v : Text)
        → ends_symbol d ≡ true
        → split_value self (d ∷ t) ≡ ok (none, v)
        → read_pair misread self false begin (s ++ (d ∷ t)) ≡ ok (after begin s v)
    unfolding read_pair full_symbol add_pair
    read_pair-after d t v ends e =
        rw
          (
            split_symbol-name s d t name.letters ends,
            e,
            symbol_under-full self.curly_block_lst s room,
          )
          refl
