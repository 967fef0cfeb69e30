-- ===== src/CfgMap/Bounds.antt =====
-- The line buffer of the reader of configuration files has 1024 bytes, and this is when it is overrun.
use ban2fail.CfgMap.Lines.{Outcome, ok, crashed, undefined}
use ban2fail.CfgMap.Reader.{Reader, string_char, plain_char, read_char, written, step}
use ban2fail.CfgMap.Scan.{line_size, is_print}
use ban2fail.CfgMap.{CfgMap}
use ban2fail.Prelude.{
  ℕ, Bool, not, ◌&&◌, ◌+◌, ◌≤◌, ◌<◌, ◌≡◌, ◌⊎◌, refl, arith, true, false, ◌==◌, leb, [], ◌∷◌, length,
  length-append,
}
use ban2fail.Stdio.{Text}
use ban2fail.StrMap.{StrMap}

-- A character that is written: it prints, and is neither a backslash nor `#`.
abbrev pub is_written : ℕ → Bool
is_written d = is_print d && not (d == b'\\') && not (d == b'#')

module _ {maps : StrMap ℕ} where
  -- A state within a line, outside strings and remarks, behind no backslash
  abbrev IsCalm : Reader maps → Type 0
  IsCalm r = (r.escaped ≡ false) × (r.in_comment ≡ false) × (r.in_string ≡ false)

  -- How far a character fills the buffer: two bytes, and only behind a backslash.
  pub length-read_char :
      (r : Reader maps) (c : ℕ)
      → (length (read_char r c).buf ≤ length r.buf + 1)
        ⊎ ((r.escaped ≡ true)
            × (length (read_char r c).buf ≡ length r.buf + 2)
            × IsCalm (read_char r c))
  unfolding read_char string_char plain_char
  length-read_char r c =
      let one = length-append r.buf (c ∷ []) in
      let two = length-append r.buf (b'\\' ∷ c ∷ []) in ground arith

  written-over : (x : Reader maps) → 1024 < length x.buf → written x ≡ crashed undefined
  unfolding written
  written-over x h = let t : leb (length x.buf) line_size ≡ false = ground arith in rw t refl

  module _ (line : CfgMap maps → Text → Outcome (CfgMap maps) (CfgMap maps)) where
    -- What a full buffer leads to: a character that is written is written behind it, and so is the 0
    -- at the end of the line; a character that does not print is passed over.
    abbrev pub IsFull : Reader maps → Type 0
    IsFull q =
        (length q.buf ≡ 1024)
        × (step line q 10 ≡ crashed undefined)
        × ((d : ℕ) → is_written d ≡ true → step line q d ≡ crashed undefined)
        × ((d : ℕ) → is_print d ≡ false → (d == 10) ≡ false → step line q d ≡ ok q)
