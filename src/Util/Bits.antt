-- ===== src/Util/Bits.antt =====
-- The names of bits are read back: `str2bits` of what `bits2str` prints, and the like for enumerated
-- values.
use Prim.Native.Nat.{bit_and, bit_or}
use ban2fail.Prelude.Int.{pos}
use ban2fail.Prelude.{
  ℕ, zero, suc, ◌+◌, ◌≤◌, ◌≡◌, ◌∙◌, ap, ap₂, map, sym, refl, arith, inl, inr, false, Bool-cases,
  some, List, [], ◌∷◌, ◌++◌, ◌==◌, if◌then◌else◌, length, length-append, ltb, true, ◌<◌, All,
}
use ban2fail.Stdio.{Text, is_space, skip_space}
use ban2fail.Util.{
  BitTuple, print_bits, bits2str, find_bit_tuple, scan_set, past_bar, scanned, scan_symbols,
  or_symbols, str2bits,
}

-- The tuples of which a bit is set.
unfoldable pub set_tuples : ℕ → List BitTuple → List BitTuple
set_tuples bits [] = []
set_tuples bits (t ∷ ts) =
    if bit_and bits t.bit == 0 then set_tuples bits ts else t ∷ set_tuples bits ts

-- All bits of these
unfoldable pub union : List BitTuple → ℕ → ℕ
union [] bits = bits
union (t ∷ ts) bits = union ts (bit_or bits t.bit)

-- A name that stands for itself in a list of names.
pub record IsSymbol (s : Text) : Type 0 where
  pub first : ℕ
  pub others : Text
  pub splits : s ≡ first ∷ others
  pub solid : is_space first ≡ false
  pub no_bar : All (λ c. (c == b'|') ≡ false) s
  pub short : length s ≤ 59

-- The names, with a bar before each, or before each but the first.
unfoldable tail_names : List BitTuple → Text
tail_names [] = []
tail_names (t ∷ ts) = b'|' ∷ (t.name ++ tail_names ts)

unfoldable names : List BitTuple → Text
unfolding tail_names
names [] = []
names (t ∷ ts) = t.name ++ tail_names ts

-- The bytes that the names take in a buffer, with a bar or the 0 at the end behind each.
unfoldable pub room : List BitTuple → ℕ
room [] = 0
room (t ∷ ts) = length t.name + 1 + room ts

abbrev pub AreSymbols : List BitTuple → Type 0
AreSymbols ts = All (λ (t : BitTuple). IsSymbol t.name) ts

AreSymbols-set_tuples :
    (bits : ℕ) (ts : List BitTuple) → AreSymbols ts → AreSymbols (set_tuples bits ts)
unfolding set_tuples
AreSymbols-set_tuples bits [] h = tt
AreSymbols-set_tuples bits (t ∷ ts) (h, hs) = elim (Bool-cases (bit_and bits t.bit == 0)) [
  | inl e ↦ rw e (AreSymbols-set_tuples bits ts hs)
  | inr e ↦ rw e (h, AreSymbols-set_tuples bits ts hs)
]

print_bits-tail_names :
    (bits n : ℕ) (ts : List BitTuple) → print_bits bits (suc n) ts ≡ tail_names (set_tuples bits ts)
unfolding print_bits set_tuples tail_names
print_bits-tail_names bits n [] = refl
print_bits-tail_names bits n (t ∷ ts) = elim (Bool-cases (bit_and bits t.bit == 0)) [
  | inl e ↦ rw e (print_bits-tail_names bits n ts)
  | inr e ↦
      let start : (suc n == 0) ≡ false = ground arith in
      let next : suc n + 1 + length t.name ≡ suc (n + 1 + length t.name) = omega arith in
      rw (e, start)
        (ap (λ x. b'|' ∷ (t.name ++ x))
          (ap (λ k. print_bits bits k ts) next
            ∙ print_bits-tail_names bits (n + 1 + length t.name) ts))
]

print_bits-names :
    (bits : ℕ) (ts : List BitTuple)
    → AreSymbols ts
    → print_bits bits 0 ts ≡ names (set_tuples bits ts)
unfolding print_bits set_tuples names
print_bits-names bits [] h = refl
print_bits-names bits (t ∷ ts) (h, hs) = elim (Bool-cases (bit_and bits t.bit == 0)) [
  | inl e ↦ rw e (print_bits-names bits ts hs)
  | inr e ↦
      let next : 0 + 0 + length t.name ≡ suc (length h.others) =
        omega (arith, ap length h.splits) in
      rw e (
        ap (λ x. t.name ++ x)
          (ap (λ k. print_bits bits k ts) next ∙ print_bits-tail_names bits (length h.others) ts))
]

length-tail_names : (ts : List BitTuple) → length (tail_names ts) ≡ room ts
unfolding tail_names room
length-tail_names [] = refl
length-tail_names (t ∷ ts) =
    omega (arith, length-append t.name (tail_names ts), length-tail_names ts)

length-names : (ts : List BitTuple) → room ts ≤ 1024 → length (names ts) < 1024
unfolding names room
length-names [] h = omega arith
length-names (t ∷ ts) h = omega (arith, length-append t.name (tail_names ts), length-tail_names ts)

bits2str-names :
    (bits : ℕ) (ts : List BitTuple)
    → AreSymbols ts
    → room (set_tuples bits ts) ≤ 1024
    → bits2str bits ts ≡ some (names (set_tuples bits ts))
unfolding bits2str
bits2str-names bits ts h k =
    let t : ltb (length (names (set_tuples bits ts))) 1024 ≡ true =
      (let fits = length-names (set_tuples bits ts) k in ground arith) in
    rw (print_bits-names bits ts h, t) refl

scan_set-word :
    (width : ℕ) (w : Text) (ts : List BitTuple)
    → All (λ c. (c == b'|') ≡ false) w
    → length w ≤ width
    → scan_set width (w ++ tail_names ts) ≡ (w, tail_names ts)
unfolding scan_set tail_names
scan_set-word zero [] ts p l = refl
scan_set-word (suc width) [] [] p l = refl
scan_set-word (suc width) [] (t ∷ ts) p l = refl
scan_set-word zero (c ∷ w) ts p l = absurd (omega arith)
scan_set-word (suc width) (c ∷ w) ts (p, ps) l =
    rw (scan_set-word width w ts ps (omega arith), p) refl

skip_space-name :
    (t : BitTuple) (rest : Text) → IsSymbol t.name → skip_space (t.name ++ rest) ≡ t.name ++ rest
unfolding skip_space
skip_space-name t rest h =
    ap (λ x. skip_space (x ++ rest)) h.splits
    ∙ (let e = h.solid in rw e refl)
    ∙ ap (λ x. x ++ rest) (sym h.splits)

past_bar-names :
    (n : ℕ) (ts : List BitTuple)
    → AreSymbols ts
    → scan_symbols n (names ts) ≡ map (λ t. t.name) ts
    → past_bar (λ (x : Text). scan_symbols n x) (skip_space (tail_names ts)) ≡ map (λ t. t.name) ts
unfolding past_bar skip_space tail_names names
past_bar-names n [] h e = refl
past_bar-names n (t ∷ ts) (h, hs) e = ap (scan_symbols n) (skip_space-name t (tail_names ts) h) ∙ e

-- The format reads back the names, up to as many as it has conversions.
scan_symbols-names :
    (n : ℕ) (ts : List BitTuple)
    → AreSymbols ts
    → length ts ≤ n
    → scan_symbols n (names ts) ≡ map (λ t. t.name) ts
unfolding scan_symbols names scan_set
scan_symbols-names zero [] h l = refl
scan_symbols-names (suc n) [] h l = refl
scan_symbols-names zero (t ∷ ts) h l = absurd (omega arith)
scan_symbols-names (suc n) (t ∷ ts) (h, hs) l =
    ap (scanned (λ (x : Text). scan_symbols n x))
      (scan_set-word 59 t.name ts h.no_bar h.short ∙ ap (λ w. (w, tail_names ts)) h.splits)
    ∙ ap₂ ◌∷◌ (sym h.splits) (past_bar-names n ts hs (scan_symbols-names n ts hs (omega arith)))

-- Each name leads to the tuple that it is the name of.
abbrev pub AreFound : List BitTuple → List BitTuple → Type 0
AreFound bt_arr ts = All (λ (t : BitTuple). find_bit_tuple t.name bt_arr ≡ some t) ts

or_symbols-union :
    (bt_arr ts : List BitTuple) (bits : ℕ)
    → AreFound bt_arr ts
    → or_symbols bt_arr (map (λ t. t.name) ts) bits ≡ (pos 0, union ts bits)
unfolding or_symbols union
or_symbols-union bt_arr [] bits h = refl
or_symbols-union bt_arr (t ∷ ts) bits (h, hs) =
    rw (h, or_symbols) (or_symbols-union bt_arr ts (bit_or bits t.bit) hs)

AreFound-set_tuples :
    (bt_arr : List BitTuple) (bits : ℕ) (ts : List BitTuple)
    → AreFound bt_arr ts
    → AreFound bt_arr (set_tuples bits ts)
unfolding set_tuples
AreFound-set_tuples bt_arr bits [] h = tt
AreFound-set_tuples bt_arr bits (t ∷ ts) (h, hs) = elim (Bool-cases (bit_and bits t.bit == 0)) [
  | inl e ↦ rw e (AreFound-set_tuples bt_arr bits ts hs)
  | inr e ↦ rw e (h, AreFound-set_tuples bt_arr bits ts hs)
]

str2bits-or_symbols :
    (str : Text) (bt_arr : List BitTuple)
    → str2bits str bt_arr ≡ or_symbols bt_arr (scan_symbols 20 str) 0
unfolding str2bits or_symbols scan_symbols scan_set scanned
str2bits-or_symbols [] bt_arr = refl
str2bits-or_symbols (c ∷ cs) bt_arr = refl

-- bits2str prints a text within its buffer, and str2bits reads it: it returns 0 and the union of
-- the tuples of which a bit is set. At most 20 tuples have one, and their names, with one more
-- byte each, take up at most 1024 bytes; each name leads to its tuple, has 1 to 59 characters,
-- none of them a bar, and does not begin with white space.
pub str2bits-bits2str :
    (bits : ℕ) (bt_arr : List BitTuple)
    → AreSymbols bt_arr
    → AreFound bt_arr bt_arr
    → length (set_tuples bits bt_arr) ≤ 20
    → room (set_tuples bits bt_arr) ≤ 1024
    → (s : Text) × (bits2str bits bt_arr ≡ some s)
      × (str2bits s bt_arr ≡ (pos 0, union (set_tuples bits bt_arr) 0))
str2bits-bits2str bits bt_arr symbols found few fits =
    let named = AreSymbols-set_tuples bits bt_arr symbols in
    (
      names (set_tuples bits bt_arr),
      bits2str-names bits bt_arr symbols fits,
      str2bits-or_symbols (names (set_tuples bits bt_arr)) bt_arr
          ∙ ap (λ l. or_symbols bt_arr l 0)
              (scan_symbols-names 20 (set_tuples bits bt_arr) named few)
          ∙ or_symbols-union bt_arr (set_tuples bits bt_arr) 0
              (AreFound-set_tuples bt_arr bits bt_arr found),
    )
