-- ===== src/Tests/Texts.antt =====
-- A buffer of twelve bytes that has to grow.
use ban2fail.Prelude.{ℕ, ◌≡◌, refl, arith, Bool, true, some, [], ◌∷◌, ◌++◌, length, All}
use ban2fail.Stdio.{Text}
use ban2fail.Str.Append.{IsValid, Appended, append-Appended}
use ban2fail.Str.Encode.{encoded, IsPlain, xml_encode-IsPlain}
use ban2fail.Str.{Str, append, xml_special, xml_encode}

abbrev granted : ℕ → Bool
granted n = true

abbrev buffer : Str
buffer = record { sz = 12; text = 97 ∷ 98 ∷ [] }

buffer-IsValid : IsValid buffer
buffer-IsValid = record { roomy = omega arith; small = omega arith; fits = omega arith }

abbrev long : Text
long = 1 ∷ 2 ∷ 3 ∷ 4 ∷ 5 ∷ 6 ∷ 7 ∷ 8 ∷ 9 ∷ 10 ∷ 11 ∷ 12 ∷ 13 ∷ 14 ∷ []

append-Appended_example :
    (out : ℕ × Str) × (append granted 9 buffer long ≡ some out) × Appended granted buffer long out
append-Appended_example =
    append-Appended granted 9 buffer long buffer-IsValid (omega arith) (omega arith) (omega arith)

-- "<a>"
abbrev src : Text
src = 60 ∷ 97 ∷ 62 ∷ []

shorter : length (encoded xml_special src) ≡ 9
unfolding encoded xml_special
shorter = refl

xml_encode-IsPlain_example :
    (out : Str) × (xml_encode granted 9 buffer src ≡ some out)
    × (out.text ≡ buffer.text ++ encoded xml_special src)
    × All IsPlain (encoded xml_special src)
xml_encode-IsPlain_example =
    xml_encode-IsPlain granted 9 src buffer (λ n. refl) buffer-IsValid (omega (arith, shorter))
      (omega arith) (omega (arith, shorter))
