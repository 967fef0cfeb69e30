-- ===== src/Str/Encode.antt =====
-- STR_XMLencode: what is appended, and that it is safe.
use ban2fail.Prelude.{
  ℕ, ◌+◌, ◌^◌, ◌≤◌, ◌<◌, ◌≡◌, ◌≢◌, ◌∙◌, ap, subst, sym, refl, arith, inl, inr, Bool, true, false,
  Bool-cases, Option, none, some, [], ◌∷◌, ◌++◌, append-nil, append_assoc, ◌==◌, length,
  length-append, All, All-append,
}
use ban2fail.Stdio.{Text}
use ban2fail.Str.Append.{IsValid, Appended, append-Appended, putc-Appended}
use ban2fail.Str.{Str, put_special, encode, xml_special, xml_encode}

-- The text that stands for a character.
abbrev pub coded : (ℕ → Option Text) → ℕ → Text
coded special c = elim (special c) [ none ↦ c ∷ [] | some str ↦ str ]

unfoldable pub encoded : (ℕ → Option Text) → Text → Text
encoded special [] = []
encoded special (c ∷ cs) = coded special c ++ encoded special cs

module _ (grants : ℕ → Bool) (all : (n : ℕ) → grants n ≡ true) (special : ℕ → Option Text) where
  put_coded :
      (fuel c : ℕ) (self : Str)
      → IsValid self
      → length self.text + length (coded special c) < 2 ^ 57
      → 1 ≤ fuel
      → length self.text + length (coded special c) + 3 ≤ self.sz + fuel
      → (out : ℕ × Str) × (put_special grants fuel self c (special c) ≡ some out)
        × Appended grants self (coded special c) out
  unfolding put_special
  put_coded fuel c self valid = go (special c)
    where
      go :
          (o : Option Text)
          → let str : Text = elim o [ none ↦ c ∷ [] | some s ↦ s ] in
            length self.text + length str < 2 ^ 57
            → 1 ≤ fuel
            → length self.text + length str + 3 ≤ self.sz + fuel
            → (out : ℕ × Str) × (put_special grants fuel self c o ≡ some out)
              × Appended grants self str out
      go none few h k = putc-Appended grants fuel self c valid (omega arith) h (omega arith)
      go (some str) few h k = append-Appended grants fuel self str valid few h k

  encode-encoded :
      (fuel : ℕ) (src : Text) (self : Str)
      → IsValid self
      → length self.text + length (encoded special src) < 2 ^ 57
      → 1 ≤ fuel
      → length self.text + length (encoded special src) + 3 ≤ self.sz + fuel
      → (out : Str) × (encode grants special fuel self src ≡ some out)
        × IsValid out
        × (out.text ≡ self.text ++ encoded special src)
  unfolding encode encoded
  encode-encoded fuel [] self valid few h k = (self, refl, valid, sym (append-nil self.text))
  encode-encoded fuel (c ∷ cs) self valid few h k =
      let str = coded special c in
      let split = length-append str (encoded special cs) in
      let (out, run, a) = put_coded fuel c self valid (omega arith) h (omega arith) in
      elim a.outcome [
        | inr (r, same, (n, refused)) ↦
            let never : true ≡ false = sym (all n) ∙ refused in absurd cc
        | inl (r, text) ↦
            let size = ap length text ∙ length-append self.text str in
            let (w, rest, ok, more) =
              encode-encoded fuel cs out.1 a.valid (omega arith) h (omega (arith, a.larger)) in
            rw (run, encode)
              (
                w,
                rest,
                ok,
                more
                    ∙ ap (λ t. t ++ encoded special cs) text
                    ∙ append_assoc self.text str (encoded special cs),
              )
      ]

-- A character that has no meaning in XML text or in a quoted attribute.
abbrev pub IsPlain : ℕ → Type 0
IsPlain c = (c ≢ 34) × ((c ≢ 39) × ((c ≢ 60) × (c ≢ 62)))

from_special :
    (c : ℕ) (str : Text)
    → xml_special c ≡ some str
    → All IsPlain str
    → All IsPlain (coded xml_special c)
from_special c str e p = subst (λ o. All IsPlain (elim o [ none ↦ c ∷ [] | some s ↦ s ])) (sym e) p

from_none : (c : ℕ) → xml_special c ≡ none → IsPlain c → All IsPlain (coded xml_special c)
from_none c e p = subst (λ o. All IsPlain (elim o [ none ↦ c ∷ [] | some s ↦ s ])) (sym e) (p, tt)

ne_of : (c k : ℕ) → (c == k) ≡ false → c ≢ k
ne_of c k h = ground arith

coded-IsPlain : (c : ℕ) → All IsPlain (coded xml_special c)
unfolding xml_special
coded-IsPlain c = elim (Bool-cases (c == 34)) [
  | inl a ↦ from_special c (38 ∷ 113 ∷ 117 ∷ 111 ∷ 116 ∷ 59 ∷ []) (rw a) (
    (omega arith, (omega arith, (omega arith, omega arith))),
    (
      (omega arith, (omega arith, (omega arith, omega arith))),
      (
        (omega arith, (omega arith, (omega arith, omega arith))),
        (
          (omega arith, (omega arith, (omega arith, omega arith))),
          (
            (omega arith, (omega arith, (omega arith, omega arith))),
            ((omega arith, (omega arith, (omega arith, omega arith))), tt),
          ),
        ),
      ),
    ),
  )
  | inr a ↦ elim (Bool-cases (c == 39)) [
    | inl b ↦ from_special c (38 ∷ 97 ∷ 112 ∷ 111 ∷ 115 ∷ 59 ∷ []) (rw (a, b)) (
      (omega arith, (omega arith, (omega arith, omega arith))),
      (
        (omega arith, (omega arith, (omega arith, omega arith))),
        (
          (omega arith, (omega arith, (omega arith, omega arith))),
          (
            (omega arith, (omega arith, (omega arith, omega arith))),
            (
              (omega arith, (omega arith, (omega arith, omega arith))),
              ((omega arith, (omega arith, (omega arith, omega arith))), tt),
            ),
          ),
        ),
      ),
    )
    | inr b ↦ elim (Bool-cases (c == 60)) [
      | inl d ↦ from_special c (38 ∷ 108 ∷ 116 ∷ 59 ∷ []) (rw (a, b, d)) (
        (omega arith, (omega arith, (omega arith, omega arith))),
        (
          (omega arith, (omega arith, (omega arith, omega arith))),
          (
            (omega arith, (omega arith, (omega arith, omega arith))),
            ((omega arith, (omega arith, (omega arith, omega arith))), tt),
          ),
        ),
      )
      | inr d ↦ elim (Bool-cases (c == 62)) [
        | inl f ↦ from_special c (38 ∷ 103 ∷ 116 ∷ 59 ∷ []) (rw (a, b, d, f)) (
          (omega arith, (omega arith, (omega arith, omega arith))),
          (
            (omega arith, (omega arith, (omega arith, omega arith))),
            (
              (omega arith, (omega arith, (omega arith, omega arith))),
              ((omega arith, (omega arith, (omega arith, omega arith))), tt),
            ),
          ),
        )
        | inr f ↦ elim (Bool-cases (c == 38)) [
          | inl g ↦ from_special c (38 ∷ 97 ∷ 109 ∷ 112 ∷ 59 ∷ []) (rw (a, b, d, f, g)) (
            (omega arith, (omega arith, (omega arith, omega arith))),
            (
              (omega arith, (omega arith, (omega arith, omega arith))),
              (
                (omega arith, (omega arith, (omega arith, omega arith))),
                (
                  (omega arith, (omega arith, (omega arith, omega arith))),
                  ((omega arith, (omega arith, (omega arith, omega arith))), tt),
                ),
              ),
            ),
          )
          | inr g ↦
              from_none c (rw (a, b, d, f, g))
                (ne_of c 34 a, (ne_of c 39 b, (ne_of c 60 d, ne_of c 62 f)))
        ]
      ]
    ]
  ]
]

xml-IsPlain : (src : Text) → All IsPlain (encoded xml_special src)
unfolding encoded
xml-IsPlain [] = tt
xml-IsPlain (c ∷ cs) =
    All-append IsPlain (coded xml_special c) (encoded xml_special cs) (coded-IsPlain c)
      (xml-IsPlain cs)

-- While memory is granted and the text stays below 2^57 bytes, STR_XMLencode on a valid buffer
-- ends and appends the encoded text, in which there is no quote, no apostrophe and no angle
-- bracket.
pub xml_encode-IsPlain :
    (grants : ℕ → Bool) (fuel : ℕ) (src : Text) (self : Str)
    → ((n : ℕ) → grants n ≡ true)
    → IsValid self
    → length self.text + length (encoded xml_special src) < 2 ^ 57
    → 1 ≤ fuel
    → length self.text + length (encoded xml_special src) + 3 ≤ self.sz + fuel
    → (out : Str) × (xml_encode grants fuel self src ≡ some out)
      × (out.text ≡ self.text ++ encoded xml_special src)
      × All IsPlain (encoded xml_special src)
unfolding xml_encode
xml_encode-IsPlain grants fuel src self all valid few h k =
    let (out, run, ok, text) = encode-encoded grants all xml_special fuel src self valid few h k in
    (out, run, text, xml-IsPlain src)
