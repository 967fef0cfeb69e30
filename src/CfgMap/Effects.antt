-- ===== src/CfgMap/Effects.antt =====
-- What the lines of a configuration file do: a setting and the head of a block assign, a brace closes.
use ban2fail.CfgMap.Pairs.{
  trim_end-value, split_value-equals, split_value-blank, after, read_pair-after,
}
use ban2fail.CfgMap.Lines.{
  World, Outcome, ok, ◌>>=◌, symbol_size, close_block, split_value, read_pair, read_entry,
  read_directive, read_line, process_line,
}
use ban2fail.CfgMap.Render.{
  is_name, IsName, IsValue, IsTitle, setting_line, block_line, full, lacks_cwd,
}
use ban2fail.CfgMap.Scan.{starts_with, trim_end, last_char, but_last, substitute, ends_symbol}
use ban2fail.CfgMap.Scans.{
  skip_space-solid, trim_end-append, trim_end-blank, last_char-append, but_last-append,
  substitute-plain, lacks_cwd-cons, lacks_cwd_name, lacks_cwd-blank,
}
use ban2fail.CfgMap.{CfgMap}
use ban2fail.Prelude.{
  ℕ, ◌<◌, ◌≡◌, ◌∙◌, ap, sym, subst, refl, arith, Bool, true, false, ◌==◌, none, [], ◌∷◌, ◌++◌,
  append_assoc, length, All,
}
use ban2fail.Stdio.{Text, skip_space}
use ban2fail.StrMap.{StrMap}

module _ {maps : StrMap ℕ} (world : World) (cwd : Text)
    (include shell : Text → CfgMap maps → Outcome (CfgMap maps) (CfgMap maps))
    (self : CfgMap maps) where
  -- A line that begins with a letter is no directive.
  read_directive-letter :
      (begin : Bool) (c : ℕ) (cs : Text)
      → is_name c ≡ true
      → read_directive world cwd include shell self begin (c ∷ cs)
        ≡ read_pair world.misread self false begin (c ∷ cs)
  unfolding read_directive read_entry starts_with
  read_directive-letter begin c cs h =
      let dot : (b'.' == c) ≡ false = ground arith in
      let at : (c == b'@') ≡ false = ground arith in
      let brace : (c == b'}') ≡ false = ground arith in rw (dot, at, brace) refl

  -- A line that begins with a letter and ends in no white space is acted on as it stands.
  process_line-solid :
      (t : Text) (c : ℕ) (cs : Text)
      → is_name c ≡ true
      → t ≡ c ∷ cs
      → trim_end t ≡ t
      → lacks_cwd t ≡ true
      → length t < 1023
      → process_line world cwd include shell self t ≡ read_line world cwd include shell self t
  unfolding process_line
  process_line-solid t c cs letter e trimmed plain k =
      let solid : skip_space (trim_end t) ≡ t =
        ap skip_space (trimmed ∙ e) ∙ skip_space-solid c cs (ground arith) ∙ sym e in
      let copied : substitute cwd 0 0 (skip_space (trim_end t)) ≡ c ∷ cs =
        ap (substitute cwd 0 0) solid ∙ substitute-plain cwd t 0 plain (omega arith) ∙ e in
      rw (copied, process_line) (ap (read_line world cwd include shell self) (sym e))

  module _ (s : Text) (name : IsName s)
      (room : length (full self.curly_block_lst s) < symbol_size) where
    letter : is_name name.first ≡ true
    letter = (subst (All (λ c. is_name c ≡ true)) name.splits name.letters).0

    read_directive-after :
        (begin : Bool) (d : ℕ) (t v : Text)
        → ends_symbol d ≡ true
        → split_value self (d ∷ t) ≡ ok (none, v)
        → read_directive world cwd include shell self begin (s ++ (d ∷ t))
          ≡ ok (after self begin s v)
    read_directive-after begin d t v ends e =
        let shape : s ++ (d ∷ t) ≡ name.first ∷ (name.others ++ (d ∷ t)) =
          ap (λ x. x ++ (d ∷ t)) name.splits in
        ap (read_directive world cwd include shell self begin) shape
        ∙ read_directive-letter begin name.first (name.others ++ (d ∷ t)) letter
        ∙ ap (read_pair world.misread self false begin) (sym shape)
        ∙ read_pair-after self world.misread begin s name room d t v ends e

    read_line-setting :
        (v : Text)
        → IsValue v
        → read_line world cwd include shell self (setting_line s v) ≡ ok (after self false s v)
    unfolding read_line
    read_line-setting v h =
        let z : last_char (setting_line s v) ≡ last_char v =
          last_char-append s b'=' (b' ' ∷ v)
          ∙ ap (λ x. last_char (b'=' ∷ b' ' ∷ x)) h.splits
          ∙ ap last_char (sym h.splits) in
        let o : (last_char (setting_line s v) == b'{') ≡ false =
          (let c = h.closes in ground arith) in
        let c : (last_char (setting_line s v) == b'}') ≡ false =
          (let c = h.closes in ground arith) in
        rw (o, c) (read_directive-after false b'=' (b' ' ∷ v) v refl (split_value-equals self v h))

    read_line-block :
        (n : Text)
        → IsTitle n
        → read_line world cwd include shell self (block_line s n) ≡ ok (after self true s n)
    unfolding read_line trim_end
    read_line-block n h =
        let head = s ++ (b' ' ∷ n) in
        let z : last_char (block_line s n) ≡ b'{' = last_char-append head b' ' (b'{' ∷ []) in
        let o : (last_char (block_line s n) == b'{') ≡ true = ground arith in
        let cut : but_last (block_line s n) ≡ head ++ (b' ' ∷ []) =
          ap but_last (sym (append_assoc head (b' ' ∷ []) (b'{' ∷ [])))
          ∙ but_last-append (head ++ (b' ' ∷ [])) b'{' in
        rw o (
          ap (λ x. read_directive world cwd include shell self true (trim_end x)) cut
          ∙ ap (read_directive world cwd include shell self true)
              (trim_end-blank head ∙ trim_end-value s b' ' n h.value)
          ∙ read_directive-after true b' ' n n refl (split_value-blank self n h))

    -- The whole of a line, as it stands in the buffer.
    pub process_line-setting :
        (v : Text)
        → IsValue v
        → length (setting_line s v) < 1023
        → process_line world cwd include shell self (setting_line s v) ≡ ok (after self false s v)
    unfolding process_line
    process_line-setting v h k =
        process_line-solid (setting_line s v) name.first (name.others ++ (b'=' ∷ b' ' ∷ v)) letter
          (ap (λ x. x ++ (b'=' ∷ b' ' ∷ v)) name.splits)
          (ap trim_end (sym (append_assoc s (b'=' ∷ []) (b' ' ∷ v)))
            ∙ trim_end-value (s ++ (b'=' ∷ [])) b' ' v h
            ∙ append_assoc s (b'=' ∷ []) (b' ' ∷ v))
          (lacks_cwd_name s (b'=' ∷ b' ' ∷ v) name.letters
            (lacks_cwd-cons b'=' (b' ' ∷ v) refl (lacks_cwd-cons b' ' v refl h.plain)))
          k
        ∙ read_line-setting v h

    pub process_line-block :
        (n : Text)
        → IsTitle n
        → length (block_line s n) < 1023
        → process_line world cwd include shell self (block_line s n) ≡ ok (after self true s n)
    unfolding process_line lacks_cwd
    process_line-block n h k =
        let head = s ++ (b' ' ∷ n) in
        process_line-solid (block_line s n) name.first
          ((name.others ++ (b' ' ∷ n)) ++ (b' ' ∷ b'{' ∷ [])) letter
          (ap (λ x. (x ++ (b' ' ∷ n)) ++ (b' ' ∷ b'{' ∷ [])) name.splits)
          (ap trim_end (sym (append_assoc head (b' ' ∷ []) (b'{' ∷ [])))
            ∙ trim_end-append (head ++ (b' ' ∷ [])) b'{' [] refl
            ∙ append_assoc head (b' ' ∷ []) (b'{' ∷ []))
          (lacks_cwd-blank head (b'{' ∷ [])
            (lacks_cwd_name s (b' ' ∷ n) name.letters (lacks_cwd-cons b' ' n refl h.value.plain))
            refl)
          k
        ∙ read_line-block n h

  pub process_line-brace :
      process_line world cwd include shell self (b'}' ∷ [])
      ≡ (close_block self >>= λ (q : CfgMap maps). ok q)
  unfolding process_line read_line substitute trim_end skip_space starts_with
  process_line-brace = refl

  pub process_line-nil : process_line world cwd include shell self [] ≡ ok self
  unfolding process_line substitute trim_end skip_space
  process_line-nil = refl
