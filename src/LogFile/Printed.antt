-- ===== src/LogFile/Printed.antt =====
-- The line of an entry in a cache file: short enough for the buffer that it is read into, and with
-- one newline, at the end.
use ban2fail.OffEntry.Cache.{IsStorable}
use ban2fail.OffEntry.{OffEntry, cache_write}
use ban2fail.Prelude.Int.{ℤ, pos, negsuc}
use ban2fail.Prelude.{
  ℕ, zero, suc, ◌+◌, ◌*◌, ◌/◌, ◌%◌, ◌^◌, ◌≤◌, ◌<◌, ◌≡◌, ◌∙◌, ap, sym, refl, arith, inl, inr,
  Bool-cases, false, ltb, ◌==◌, [], ◌∷◌, ◌++◌, append_assoc, append-nil, true, length,
  length-append, All, All-append, All-map,
}
use ban2fail.Stdio.Digits.{IsInt64, InWord, get_line-line}
use ban2fail.Stdio.{Text, print_digits, print_unsigned, print_signed, get_line}

-- A byte that does not end a line
abbrev pub InLine : ℕ → Type 0
InLine c = (c == 10) ≡ false

digits-InLine : (fuel n : ℕ) → All InLine (print_digits fuel n)
unfolding print_digits
digits-InLine zero n = tt
digits-InLine (suc fuel) n = elim (Bool-cases (ltb n 10)) [
  | inl e ↦ rw e (ground arith, tt)
  | inr e ↦ rw e (
      All-append InLine (print_digits fuel (n / 10)) ((b'0' + n % 10) ∷ [])
        (digits-InLine fuel (n / 10)) (ground arith, tt))
]

length-print_digits : (fuel k n : ℕ) → n < 10 ^ suc k → length (print_digits fuel n) ≤ suc k
unfolding print_digits
length-print_digits zero k n h = omega arith
length-print_digits (suc fuel) zero n h =
    let e : ltb n 10 ≡ true = ground arith in rw e (omega arith)
length-print_digits (suc fuel) (suc k) n h = elim (Bool-cases (ltb n 10)) [
  | inl e ↦ rw e (omega arith)
  | inr e ↦
      let power : 10 ^ suc (suc k) ≡ 10 * 10 ^ suc k = omega arith in
      let tenth : n / 10 < 10 ^ suc k = omega (arith, h, power) in
      rw e (
        omega (
          arith,
          length-print_digits fuel k (n / 10) tenth,
          length-append (print_digits fuel (n / 10)) ((b'0' + n % 10) ∷ []),
        ))
]

unsigned-InLine : (n : ℕ) → All InLine (print_unsigned n)
unfolding print_unsigned
unsigned-InLine n = digits-InLine (n + 1) n

signed-InLine : (z : ℤ) → All InLine (print_signed z)
unfolding print_signed
signed-InLine (pos n) = unsigned-InLine n
signed-InLine (negsuc n) = (refl, unsigned-InLine (n + 1))

length-print_unsigned : (k n : ℕ) → n < 10 ^ suc k → length (print_unsigned n) ≤ suc k
unfolding print_unsigned
length-print_unsigned k n h = length-print_digits (n + 1) k n h

length-print_signed : (z : ℤ) → IsInt64 z → length (print_signed z) ≤ 20
unfolding print_signed
length-print_signed (pos n) h = omega (arith, length-print_unsigned 18 n (omega arith))
length-print_signed (negsuc n) h = omega (arith, length-print_unsigned 18 (n + 1) (omega arith))

word-InLine : (w : Text) → All InWord w → All InLine w
word-InLine w h = All-map InWord InLine w (λ c s. ground arith) h

-- The line without its newline
abbrev fields : OffEntry → Text
fields e =
    print_unsigned e.count
    ++ (32
        ∷ (print_unsigned e.severity
            ++ (32 ∷ (print_signed e.latest ++ (32 ∷ (e.addr ++ (32 ∷ e.cntry)))))))

cache_write-fields : (e : OffEntry) (r : Text) → cache_write e ++ r ≡ fields e ++ (10 ∷ r)
unfolding cache_write
cache_write-fields e r = simp append_assoc

module _ (e : OffEntry) (s : IsStorable e) where
  fields-InLine : All InLine (fields e)
  fields-InLine = All-append InLine (print_unsigned e.count) _ (unsigned-InLine e.count) (
    refl,
    All-append InLine (print_unsigned e.severity) _ (unsigned-InLine e.severity) (
      refl,
      All-append InLine (print_signed e.latest) _ (signed-InLine e.latest) (
        refl,
        All-append InLine e.addr _ (word-InLine e.addr s.addr_word)
            (refl, word-InLine e.cntry s.cntry_word),
      ),
    ),
  )

  length-fields : length (fields e) < 255
  length-fields = omega (
    arith,
    length-append (print_unsigned e.count) (
        32
        ∷ (print_unsigned e.severity
            ++ (32 ∷ (print_signed e.latest ++ (32 ∷ (e.addr ++ (32 ∷ e.cntry))))))),
    length-append (print_unsigned e.severity)
        (32 ∷ (print_signed e.latest ++ (32 ∷ (e.addr ++ (32 ∷ e.cntry))))),
    length-append (print_signed e.latest) (32 ∷ (e.addr ++ (32 ∷ e.cntry))),
    length-append e.addr (32 ∷ e.cntry),
    length-print_unsigned 9 e.count (omega (arith, s.count)),
    length-print_unsigned 9 e.severity (omega (arith, s.severity)),
    length-print_signed e.latest s.latest,
    s.addr_fits,
    s.cntry_fits,
  )

  -- fgets reads the line of the entry whole.
  pub get_line-cache_write : (r : Text) → get_line 255 (cache_write e ++ r) ≡ (cache_write e, r)
  get_line-cache_write r =
      ap (get_line 255) (cache_write-fields e r)
      ∙ get_line-line 255 (fields e) r fields-InLine length-fields
      ∙ ap (λ l. (l, r)) (sym (cache_write-fields e []) ∙ append-nil (cache_write e))
