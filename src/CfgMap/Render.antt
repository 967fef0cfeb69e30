-- ===== src/CfgMap/Render.antt =====
-- Configuration files with a layout that ban2fail.cfg keeps to: lines `SYMBOL= value`, blocks from a
-- line `SYMBOL name {` to a line `}`, and blank lines, with one blank where these show one. Any line
-- may have blanks in front and behind, and then a remark from `#` on. What such a file assigns is what
-- cfgmap.h promises of nested symbols.
use ban2fail.CfgMap.Lines.{prefix}
use ban2fail.CfgMap.Lookup.{Assignment}
use ban2fail.CfgMap.Scan.{is_print, last_char, starts_with, trim_end}
use ban2fail.Prelude.{
  ℕ, ◌<◌, ◌≡◌, Bool, true, false, not, ◌&&◌, ◌||◌, List, [], ◌∷◌, ◌++◌, ◌==◌, leb, length, All,
  Option, none, some, replicate,
}
use ban2fail.Stdio.{Text, is_space}

-- What stands around the text of a line: the numbers of blanks, and a remark
pub record Margin : Type 0 where
  pub indent : ℕ
  pub behind : ℕ
  pub remark : Option Text

-- The second margin of a block is the one of its last line.
pub data Items : Type 0 where
  done : Items
  setting : Margin → Text → Text → Items → Items
  block : Margin → Text → Text → Items → Margin → Items → Items
  blank : Margin → Items → Items

-- Lines, without their ends
abbrev pub setting_line : Text → Text → Text
setting_line s v = s ++ (b'=' ∷ b' ' ∷ v)

abbrev pub block_line : Text → Text → Text
block_line s n = (s ++ (b' ' ∷ n)) ++ (b' ' ∷ b'{' ∷ [])

-- A line up to its remark, and the remark
abbrev pub spaces : ℕ → Text
spaces n = replicate n b' '

abbrev pub spaced : Margin → Text → Text
spaced m t = spaces m.indent ++ (t ++ spaces m.behind)

abbrev pub noted : Option Text → Text
noted none = []
noted (some t) = b'#' ∷ t

abbrev pub put_line : Margin → Text → Text → Text
put_line m t rest = spaced m t ++ (noted m.remark ++ (10 ∷ rest))

unfoldable pub render : Items → Text
render done = []
render (setting m s v rest) = put_line m (setting_line s v) (render rest)
render (block m s n body close rest) =
    put_line m (block_line s n) (render body ++ put_line close (b'}' ∷ []) (render rest))
render (blank m rest) = put_line m [] (render rest)

-- The symbol behind its ancestors
abbrev pub full : List Text → Text → Text
full ps s = prefix ps ++ (b'\\' ∷ s)

-- What the file assigns, in order: the name of a block is the value of its symbol.
unfoldable pub assigns : List Text → Items → List Assignment
unfolding prefix
assigns ps done = []
assigns ps (setting m s v rest) = (full ps s, v) ∷ assigns ps rest
assigns ps (block m s n body close rest) =
    (full ps s, n) ∷ (assigns (ps ++ (n ∷ [])) body ++ assigns ps rest)
assigns ps (blank m rest) = assigns ps rest

-- Letters, digits and `_`
abbrev pub is_name : ℕ → Bool
is_name c =
    (leb b'a' c && leb c b'z')
    || (leb b'A' c && leb c b'Z')
    || (leb b'0' c && leb c b'9')
    || c == b'_'

-- Printable text without `#` and `"`, where a backslash stands before one more character.
unfoldable pub is_literal : Bool → Text → Bool
is_literal escaped [] = not escaped
is_literal true (c ∷ cs) = is_print c && not (c == b'#') && not (c == b'"') && is_literal false cs
is_literal false (c ∷ cs) =
    is_print c && not (c == b'#') && not (c == b'"') && is_literal (c == b'\\') cs

abbrev pub cwd_mark : Text
cwd_mark = b'$' ∷ b'C' ∷ b'W' ∷ b'D' ∷ []

-- "$CWD" stands nowhere in the text.
unfoldable pub lacks_cwd : Text → Bool
unfolding starts_with
lacks_cwd [] = true
lacks_cwd (c ∷ cs) = not (starts_with cwd_mark (c ∷ cs)) && lacks_cwd cs

-- A value that stands in its line for itself
pub record IsValue (v : Text) : Type 0 where
  pub first : ℕ
  pub others : Text
  pub splits : v ≡ first ∷ others
  pub opens : (is_space first || first == b'=') ≡ false
  pub literal : is_literal false v ≡ true
  pub plain : lacks_cwd v ≡ true
  pub trimmed : trim_end v ≡ v
  pub closes : (last_char v == b'{' || last_char v == b'}') ≡ false

-- A value that names a block, where a bracket in front would be an index.
pub record IsTitle (n : Text) : Type 0 where
  pub value : IsValue n
  pub no_index : (value.first == b'[') ≡ false

pub record IsName (s : Text) : Type 0 where
  pub first : ℕ
  pub others : Text
  pub splits : s ≡ first ∷ others
  pub letters : All (λ c. is_name c ≡ true) s

abbrev pub IsRemark : Option Text → Type 0
IsRemark none = Unit
IsRemark (some t) = All (λ c. (c == 10) ≡ false) t

-- A line that fits into the buffer of the reader, with a remark that ends with the line
abbrev pub IsLine : Margin → Text → Type 0
IsLine m t = (length (spaced m t) < 1023) × IsRemark m.remark

-- A file whose lines fit into the buffer of the reader, and its symbols into theirs.
abbrev pub IsFile : List Text → Items → Type 0
IsFile ps done = Unit
IsFile ps (setting m s v rest) =
    (IsName s × IsValue v × IsLine m (setting_line s v) × (length (full ps s) < 2048))
    × IsFile ps rest
IsFile ps (block m s n body close rest) =
    (IsName s × IsTitle n × IsLine m (block_line s n) × (length (full ps s) < 2048))
    × IsFile (ps ++ (n ∷ [])) body
    × IsLine close (b'}' ∷ [])
    × IsFile ps rest
IsFile ps (blank m rest) = IsLine m [] × IsFile ps rest
