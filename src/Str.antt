-- ===== src/Str.antt =====
-- str.c: a buffer for text that grows as text is appended, and the encoders for XML and URLs.
-- `realloc` answers as the argument `grants` says. The bytes up to the NUL are `text`, and `len` is
-- their number.
pub mod Append
pub mod Encode
use ban2fail.Prelude.{
  ℕ, zero, suc, ◌+◌, ◌*◌, ◌/◌, ◌%◌, Bool, Option, none, some, List, [], ◌∷◌, ◌++◌, leb, ◌==◌,
  if◌then◌else◌, length, u64,
}
use ban2fail.Stdio.{Text}

-- `STR`
pub record Str : Type 0 where
  pub sz : ℕ
  pub text : Text

-- `STR_reset`
unfoldable pub reset : Str → Str
reset self = record self { text = [] }

-- `STR_constructor`; `none` for NULL.
unfoldable pub construct : (ℕ → Bool) → ℕ → Option Str
construct grants sz_hint =
    if grants sz_hint then some (record { sz = sz_hint; text = [] }) else none

-- `STR_sinit`: the result, and the buffer that is there afterwards.
unfoldable pub sinit : (ℕ → Bool) → Option Str → ℕ → ℕ × Option Str
sinit grants (some self) sz_hint = (0, some (reset self))
sinit grants none sz_hint = elim (construct grants sz_hint) [
  | none ↦ (1, none)
  | some self ↦ (0, some self)
]

module _ (grants : ℕ → Bool) where
  -- The loop of `growbuf`: `left` is `i - 10`. The result and the new size.
  unfoldable pub grow_from : ℕ → ℕ → ℕ × ℕ
  grow_from zero sz = (1, sz)
  grow_from (suc left) sz =
      let new_sz = sz * (suc left + 10) % u64 / 10 in
      let rest = grow_from left sz in if grants new_sz then (0, new_sz) else rest

  unfoldable pub growbuf : Str → ℕ × Str
  growbuf self = let (rtn, sz) = grow_from 10 self.sz in (rtn, record self { sz = sz })

  -- `while(self->len + need >= self->sz)`, in at most `fuel` turns: `none` if they do not do.
  unfoldable pub make_room : ℕ → ℕ → Str → Option (ℕ × Str)
  make_room zero need self = none
  make_room (suc fuel) need self =
      let (rtn, grown) = growbuf self in
      let next = make_room fuel need grown in
      if leb self.sz (length self.text + need)
      then (if rtn == 0 then next else some (1, grown))
      else some (0, self)

  -- The loop, and the copy behind it
  unfoldable pub write : ℕ → ℕ → Str → Text → Option (ℕ × Str)
  write fuel need self str = elim (make_room fuel need self) [
    | none ↦ none
    | some (rtn, room) ↦
        some (if rtn == 0 then (0, record room { text = room.text ++ str }) else (1, room))
  ]

  -- `STR_append`
  unfoldable pub append : ℕ → Str → Text → Option (ℕ × Str)
  append fuel self str = write fuel (length str + 1) self str

  -- `STR_putc`
  unfoldable pub putc : ℕ → Str → ℕ → Option (ℕ × Str)
  putc fuel self c = write fuel 1 self (c ∷ [])

  -- `if(str) ... else ...`, the end of a turn in the encoders
  unfoldable pub put_special : ℕ → Str → ℕ → Option Text → Option (ℕ × Str)
  put_special fuel self c none = putc fuel self c
  put_special fuel self c (some str) = append fuel self str

  -- The loop of the encoders; what `append` and `putc` return is not looked at.
  unfoldable pub encode : (ℕ → Option Text) → ℕ → Str → Text → Option Str
  encode special fuel self [] = some self
  encode special fuel self (c ∷ cs) = elim (put_special fuel self c (special c)) [
    | none ↦ none
    | some (rtn, next) ↦ encode special fuel next cs
  ]

-- The `switch` of `STR_XMLencode`
unfoldable pub xml_special : ℕ → Option Text
xml_special c =
    if c == 34
    then some (38 ∷ 113 ∷ 117 ∷ 111 ∷ 116 ∷ 59 ∷ [])
    else if c == 39
    then some (38 ∷ 97 ∷ 112 ∷ 111 ∷ 115 ∷ 59 ∷ [])
    else if c == 60
    then some (38 ∷ 108 ∷ 116 ∷ 59 ∷ [])
    else if c == 62
    then some (38 ∷ 103 ∷ 116 ∷ 59 ∷ [])
    else if c == 38
    then some (38 ∷ 97 ∷ 109 ∷ 112 ∷ 59 ∷ [])
    else none

-- `STR_XMLencode` of a text that is not NULL
unfoldable pub xml_encode : (ℕ → Bool) → ℕ → Str → Text → Option Str
xml_encode grants fuel self src = encode grants xml_special fuel self src
