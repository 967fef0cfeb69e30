-- ===== src/CfgMap/Scan.antt =====
-- What the reader of configuration files does with the text of a line: the string functions of util.c
-- and of the C library that it calls, its substitutions, and `str_extract_string` of cfgmap.c.
use ban2fail.Prelude.{
  ℕ, zero, suc, ◌+◌, ◌-◌, Bool, true, false, not, ◌&&◌, ◌||◌, Option, none, some, List, [], ◌∷◌,
  ◌++◌, ◌==◌, ltb, leb, if◌then◌else◌, length, take,
}
use ban2fail.Stdio.{Text, is_space, skip_space}

abbrev pub line_size : ℕ
line_size = 1024

-- `isprint` in the C locale
abbrev pub is_print : ℕ → Bool
is_print c = leb 32 c && leb c 126

-- White space in front of what is left of a text is cut off with it.
abbrev pub put_kept : ℕ → Text → Text
put_kept c [] = if is_space c then [] else c ∷ []
put_kept c (d ∷ ds) = c ∷ d ∷ ds

-- `trimend`
unfoldable pub trim_end : Text → Text
trim_end [] = []
trim_end (c ∷ cs) = put_kept c (trim_end cs)

-- `!strncmp(str, word, strlen(word))`
unfoldable pub starts_with : Text → Text → Bool
starts_with [] str = true
starts_with (w ∷ ws) [] = false
starts_with (w ∷ ws) (c ∷ cs) = w == c && starts_with ws cs

-- The last character, 0 for none, and the text before it.
abbrev pub last_char : Text → ℕ
last_char [] = 0
last_char (c ∷ []) = c
last_char (c ∷ d ∷ cs) = last_char (d ∷ cs)

abbrev pub but_last {ℓ} : {A : Type ℓ} → List A → List A
but_last [] = []
but_last (c ∷ []) = []
but_last (c ∷ d ∷ cs) = c ∷ but_last (d ∷ cs)

-- The loop of substitutions, with `skip` characters of "$CWD" still to pass over and `n_copied`
-- characters in the buffer.
unfoldable pub substitute : Text → ℕ → ℕ → Text → Text
unfolding starts_with
substitute cwd skip n_copied [] = []
substitute cwd (suc skip) n_copied (c ∷ cs) = substitute cwd skip n_copied cs
substitute cwd zero n_copied (c ∷ cs) =
    let put = take (line_size - n_copied - 1) cwd in
    let passed = substitute cwd 3 (n_copied + length put) cs in
    let copied = substitute cwd 0 (n_copied + 1) cs in
    if not (ltb (n_copied + 1) line_size)
    then []
    else if starts_with (b'$' ∷ b'C' ∷ b'W' ∷ b'D' ∷ []) (c ∷ cs)
    then put ++ passed
    else c ∷ copied

-- `strcspn(str, " \t=[")`: the symbol, and what stands behind it.
abbrev pub ends_symbol : ℕ → Bool
ends_symbol c = c == b' ' || c == b'\t' || c == b'=' || c == b'['

unfoldable pub split_symbol : Text → Text × Text
split_symbol [] = ([], [])
split_symbol (c ∷ cs) =
    let (symbol, rest) = split_symbol cs in
    if ends_symbol c then ([], c ∷ cs) else (c ∷ symbol, rest)

-- The string up to the quote, and what stands behind it; the string up to white space.
unfoldable pub to_quote : Text → Option (Text × Text)
to_quote [] = none
to_quote (c ∷ cs) =
    let more = to_quote cs in
    if c == b'"'
    then some ([], cs)
    else (elim more [ none ↦ none | some (w, rest) ↦ some (c ∷ w, rest) ])

unfoldable pub to_space : Text → Text × Text
to_space [] = ([], [])
to_space (c ∷ cs) =
    let (w, rest) = to_space cs in if is_space c then ([], c ∷ cs) else (c ∷ w, rest)

-- `str_extract_string`: the string and where the pointer is then; `none` for 1.
unfoldable pub extract_string : Text → Option (Text × Text)
unfolding to_quote to_space
extract_string str = elim (skip_space str) [
  | [] ↦ some ([], [])
  | c ∷ cs ↦ if c == b'"' then to_quote cs else some (to_space (c ∷ cs))
]

-- Past `=` and white space
unfoldable pub past_equals : Text → Text
past_equals [] = []
past_equals (c ∷ cs) = if c == b'=' then skip_space cs else skip_space (c ∷ cs)
