-- ===== src/CfgMap/Reader.antt =====
-- The reader of configuration files: the state machine of `_CFGMAP_fh_read` of cfgmap.c over the bytes
-- of a file, and the files that it includes, `fuel` deep.
use ban2fail.CfgMap.Lines.{
  World, Outcome, ok, failed, crashed, ◌>>=◌, line_overflow, unterminated_string,
  unterminated_brace, cannot_open, undefined, too_deep, process_line,
}
use ban2fail.CfgMap.Scan.{line_size, is_print}
use ban2fail.CfgMap.{CfgMap, construct}
use ban2fail.Prelude.{
  ℕ, zero, suc, ◌+◌, Bool, true, false, not, ◌&&◌, Option, none, some, [], ◌∷◌, ◌++◌, ◌==◌, leb,
  if◌then◌else◌, length, take, add32, sub32,
}
use ban2fail.Stdio.{Text}
use ban2fail.StrMap.{StrMap}

-- `lineBuf` up to `currLen`, and the flags of `stateFlags` that outlast a character.
pub record Reader (maps : StrMap ℕ) : Type 0 where
  pub cfg : CfgMap maps
  pub buf : Text
  pub in_comment : Bool
  pub in_string : Bool
  pub escaped : Bool

-- The directory of a file, in buffers of PATH_MAX bytes
abbrev pub directory : World → Text → Text
directory world fname = take 4095 (world.dirname (take 4095 fname))

module _ {maps : StrMap ℕ} where
  unfoldable pub fresh_line : CfgMap maps → Reader maps
  fresh_line cfg = record {
    cfg = cfg;
    buf = [];
    in_comment = false;
    in_string = false;
    escaped = false;
  }

  abbrev pub push : Reader maps → Text → Reader maps
  push r cs = record r { buf = r.buf ++ cs; escaped = false }

  -- A character within a quoted string, and one in no special state
  unfoldable pub string_char : Reader maps → ℕ → Reader maps
  string_char r c =
      push (if c == b'"' && not r.escaped then record r { in_string = false } else r) (c ∷ [])

  unfoldable pub plain_char : Reader maps → ℕ → Reader maps
  plain_char r c =
      if c == b'#'
      then (if r.escaped then push r (c ∷ []) else record r { in_comment = true })
      else if c == b'"'
      then push (if r.escaped then r else record r { in_string = true }) (c ∷ [])
      else if r.escaped
      then push r (b'\\' ∷ c ∷ [])
      else push r (c ∷ [])

  -- A character that does not end the line
  unfoldable pub read_char : Reader maps → ℕ → Reader maps
  unfolding string_char plain_char
  read_char r c =
      if not (is_print c)
      then r
      else if c == b'\\' && not r.in_comment && not r.escaped
      then record r { escaped = true }
      else if r.in_comment
      then r
      else if r.in_string
      then string_char r c
      else plain_char r c

  -- The check for overflow
  unfoldable pub check : Reader maps → Outcome (CfgMap maps) (Reader maps)
  check r = if length r.buf + 1 == line_size then failed r.cfg line_overflow else ok r

  -- What has been written is in the buffer, or behind its end.
  unfoldable pub written : Reader maps → Outcome (CfgMap maps) (Reader maps)
  written r = if leb (length r.buf) line_size then ok r else crashed undefined

  module _ (line : CfgMap maps → Text → Outcome (CfgMap maps) (CfgMap maps)) where
    -- The end of a line or of the file, where a 0 is put behind the line
    unfoldable pub end_line : Reader maps → Outcome (CfgMap maps) (CfgMap maps)
    end_line r =
        if r.in_string
        then failed r.cfg unterminated_string
        else if leb line_size (length r.buf)
        then crashed undefined
        else line r.cfg r.buf

    unfoldable pub step : Reader maps → ℕ → Outcome (CfgMap maps) (Reader maps)
    unfolding check written end_line read_char fresh_line
    step r c = check r >>= λ (q : Reader maps).
        if c == 10
        then (end_line q >>= λ (s : CfgMap maps). ok (fresh_line s))
        else written (read_char q c)

    -- The loop over the characters
    unfoldable pub run : Reader maps → Text → Outcome (CfgMap maps) (CfgMap maps)
    unfolding step check end_line
    run r [] = check r >>= λ (q : Reader maps). end_line q
    run r (c ∷ cs) = step r c >>= λ (q : Reader maps). run q cs

  -- The end of the file; in the outermost one, no block may be open.
  unfoldable pub leave : CfgMap maps → Outcome (CfgMap maps) (CfgMap maps)
  leave s =
      let t = record s { recurs_lvl = sub32 s.recurs_lvl 1 } in
      if t.recurs_lvl == 0 && not (length t.curly_block_lst == 0)
      then failed t unterminated_brace
      else ok t

  -- `fopen`, and what is done with the contents
  abbrev pub if_opened :
      Option Text
      → CfgMap maps
      → (Text → Outcome (CfgMap maps) (CfgMap maps))
      → Outcome (CfgMap maps) (CfgMap maps)
  if_opened none s read = failed s cannot_open
  if_opened (some text) s read = read text

  module _ (world : World) where
    -- `_CFGMAP_fh_read`; a file is one level deeper than the file that includes it.
    unfoldable pub fh_read : ℕ → Text → Text → CfgMap maps → Outcome (CfgMap maps) (CfgMap maps)
    unfolding run process_line leave fresh_line
    fh_read zero fname text self = crashed too_deep
    fh_read (suc fuel) fname text self =
        let include = λ (name : Text) (s : CfgMap maps).
          if_opened (world.open_file name) s (λ (t : Text). fh_read fuel name t s) in
        let shell = λ (t : Text) (s : CfgMap maps). fh_read fuel fname t s in
        run (process_line world (directory world fname) include shell)
          (fresh_line (record self { recurs_lvl = add32 self.recurs_lvl 1 })) text
        >>= λ (s : CfgMap maps). leave s

    -- `CFGMAP_file_read`
    unfoldable pub file_read : ℕ → Text → CfgMap maps → Outcome (CfgMap maps) (CfgMap maps)
    unfolding fh_read
    file_read fuel fname self =
        if_opened (world.open_file fname) self (λ (text : Text). fh_read fuel fname text self)

    -- `CFGMAP_file_constructor`
    unfoldable pub file_constructor : ℕ → Text → Outcome (CfgMap maps) (CfgMap maps)
    unfolding file_read construct
    file_constructor fuel fname = file_read fuel fname construct
