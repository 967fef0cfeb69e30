-- ===== src/CfgMap/Chars.antt =====
-- The state machine of the reader over the pieces of a line, with any `rest` behind them.
use ban2fail.CfgMap.Bounds.{length-read_char}
use ban2fail.CfgMap.Lines.{Outcome, ok, failed, crashed, ◌>>=◌}
use ban2fail.CfgMap.Reader.{
  Reader, fresh_line, plain_char, read_char, check, written, end_line, step, run,
}
use ban2fail.CfgMap.Render.{is_literal, IsRemark, noted}
use ban2fail.CfgMap.Scan.{is_print, line_size}
use ban2fail.CfgMap.{CfgMap}
use ban2fail.Prelude.{
  ℕ, ◌+◌, ◌≤◌, ◌<◌, Option, none, some, ◌≡◌, ◌∙◌, ap, sym, refl, arith, inl, inr, Bool, true, false,
  not, ◌&&◌, Bool-cases, ◌==◌, leb, [], ◌∷◌, ◌++◌, append-nil, append_assoc, length, length-append,
  All,
}
use ban2fail.Stdio.{Text}
use ban2fail.StrMap.{StrMap}

module _ {maps : StrMap ℕ} (line : CfgMap maps → Text → Outcome (CfgMap maps) (CfgMap maps)) where
  -- A state between the characters of a line, outside strings and comments.
  abbrev pub at : CfgMap maps → Text → Bool → Reader maps
  at s b e = record { cfg = s; buf = b; in_comment = false; in_string = false; escaped = e }

  -- Text that is within the buffer when it has been written.
  written-ok : (r : Reader maps) → length r.buf ≤ 1024 → written r ≡ ok r
  unfolding written
  written-ok r h = let t : leb (length r.buf) line_size ≡ true = ground arith in rw t refl

  run-at :
      (s : CfgMap maps) (b : Text) (e : Bool) (c : ℕ) (rest : Text)
      → length b < 1023
      → (c == 10) ≡ false
      → run line (at s b e) (c ∷ rest) ≡ run line (read_char (at s b e) c) rest
  unfolding run step check
  run-at s b e c rest h ne =
      let t : (length b + 1 == line_size) ≡ false = ground arith in
      let w = written-ok (read_char (at s b e) c) (omega (arith, length-read_char (at s b e) c)) in
      rw (t, ne, w) refl

  -- The backslash that has been read and is not in the buffer yet.
  abbrev pending : Bool → Text → Text
  pending true v = b'\\' ∷ v
  pending false v = v

  abbrev is_plain : ℕ → Bool
  is_plain c = is_print c && not (c == b'#') && not (c == b'"')

  read_char-escaped :
      (s : CfgMap maps) (b : Text) (c : ℕ)
      → is_plain c ≡ true
      → read_char (at s b true) c ≡ at s (b ++ (b'\\' ∷ c ∷ [])) false
  unfolding read_char plain_char
  read_char-escaped s b c h = ground arith

  read_char-backslash :
      (s : CfgMap maps) (b : Text) (c : ℕ)
      → (c == b'\\') ≡ true
      → read_char (at s b false) c ≡ at s b true
  unfolding read_char plain_char
  read_char-backslash s b c h = ground arith

  read_char-plain :
      (s : CfgMap maps) (b : Text) (c : ℕ)
      → is_plain c ≡ true
      → (c == b'\\') ≡ false
      → read_char (at s b false) c ≡ at s (b ++ (c ∷ [])) false
  unfolding read_char plain_char
  read_char-plain s b c h ne = ground arith

  run-literal :
      (s : CfgMap maps) (v b : Text) (e : Bool) (rest : Text)
      → is_literal e v ≡ true
      → length b + length (pending e v) < 1023
      → run line (at s b e) (v ++ rest) ≡ run line (at s (b ++ pending e v) false) rest
  unfolding is_literal
  run-literal s [] b true rest l h = cc
  run-literal s [] b false rest l h = ap (λ t. run line (at s t false) rest) (sym (append-nil b))
  run-literal s (c ∷ cs) b true rest l h =
      let p : is_plain c ≡ true = ground arith in
      let m : is_literal false cs ≡ true = ground arith in
      run-at s b true c (cs ++ rest) (omega arith) (ground arith)
      ∙ ap (λ r. run line r (cs ++ rest)) (read_char-escaped s b c p)
      ∙ run-literal s cs (b ++ (b'\\' ∷ c ∷ [])) false rest m
          (omega (arith, length-append b (b'\\' ∷ c ∷ [])))
      ∙ ap (λ t. run line (at s t false) rest) (append_assoc b (b'\\' ∷ c ∷ []) cs)
  run-literal s (c ∷ cs) b false rest l h = elim (Bool-cases (c == b'\\')) [
    | inl e ↦
        let m : is_literal true cs ≡ true = ground arith in
        let i : c ≡ b'\\' = ground arith in
        run-at s b false c (cs ++ rest) (omega arith) (ground arith)
        ∙ ap (λ r. run line r (cs ++ rest)) (read_char-backslash s b c e)
        ∙ run-literal s cs b true rest m (omega arith)
        ∙ ap (λ x. run line (at s (b ++ (x ∷ cs)) false) rest) (sym i)
    | inr e ↦
        let p : is_plain c ≡ true = ground arith in
        let m : is_literal false cs ≡ true = ground arith in
        run-at s b false c (cs ++ rest) (omega arith) (ground arith)
        ∙ ap (λ r. run line r (cs ++ rest)) (read_char-plain s b c p e)
        ∙ run-literal s cs (b ++ (c ∷ [])) false rest m (omega (arith, length-append b (c ∷ [])))
        ∙ ap (λ t. run line (at s t false) rest) (append_assoc b (c ∷ []) cs)
  ]

  -- The end of a line hands over what is in the buffer.
  run-end :
      (s : CfgMap maps) (b rest : Text) (comment : Bool)
      → length b < 1023
      → run line (record (at s b false) { in_comment = comment }) (10 ∷ rest)
        ≡ (line s b >>= λ (q : CfgMap maps). run line (fresh_line q) rest)
  unfolding run step check end_line
  run-end s b rest comment h =
      let t : (length b + 1 == line_size) ≡ false = ground arith in
      let u : leb line_size (length b) ≡ false = ground arith in rw (t, u) (bind_ok (line s b))
    where
      bind_ok :
          (o : Outcome (CfgMap maps) (CfgMap maps))
          → (o >>= (λ (q : CfgMap maps). ok (fresh_line q)) >>= λ (q : Reader maps).
              run line q rest)
            ≡ (o >>= λ (q : CfgMap maps). run line (fresh_line q) rest)
      bind_ok (ok q) = refl
      bind_ok (failed q why) = refl
      bind_ok (crashed why) = refl

  -- Within a remark
  abbrev in_remark : CfgMap maps → Text → Reader maps
  in_remark s b = record (at s b false) { in_comment = true }

  read_char-in_remark :
      (s : CfgMap maps) (b : Text) (c : ℕ) → read_char (in_remark s b) c ≡ in_remark s b
  unfolding read_char
  read_char-in_remark s b c =
      let t : (c == b'\\' && false && true) ≡ false = ground arith in
      elim (Bool-cases (is_print c)) [ inl p ↦ rw (p, t) refl | inr p ↦ rw p refl ]

  run-in_remark :
      (s : CfgMap maps) (b t rest : Text)
      → length b < 1023
      → All (λ c. (c == 10) ≡ false) t
      → run line (in_remark s b) (t ++ rest) ≡ run line (in_remark s b) rest
  unfolding run step check
  run-in_remark s b [] rest h p = refl
  run-in_remark s b (c ∷ cs) rest h (ne, ps) =
      let t : (length b + 1 == line_size) ≡ false = ground arith in
      let w = written-ok (in_remark s b) (omega arith) in
      rw (t, ne, read_char-in_remark s b c, w) (run-in_remark s b cs rest h ps)

  -- A line of literal text, with or without a remark, is acted on as it stands before the remark.
  pub run_line :
      (s : CfgMap maps) (t : Text) (o : Option Text) (rest : Text)
      → is_literal false t ≡ true
      → length t < 1023
      → IsRemark o
      → run line (fresh_line s) (t ++ (noted o ++ (10 ∷ rest)))
        ≡ (line s t >>= λ (q : CfgMap maps). run line (fresh_line q) rest)
  unfolding fresh_line read_char plain_char
  run_line s t none rest l h p =
      run-literal s t [] false (10 ∷ rest) l (omega arith) ∙ run-end s t rest false h
  run_line s t (some r) rest l h p =
      run-literal s t [] false (b'#' ∷ (r ++ (10 ∷ rest))) l (omega arith)
      ∙ run-at s t false b'#' (r ++ (10 ∷ rest)) h refl
      ∙ run-in_remark s t r (10 ∷ rest) h p
      ∙ run-end s t rest true h
