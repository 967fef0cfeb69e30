-- ===== src/OffEntry/Cache.antt =====
-- An entry is read back from the line that it was written as.
use ban2fail.Prelude.{
  ℕ, ◌≤◌, ◌<◌, ◌≡◌, ◌∙◌, sym, refl, arith, [], ◌∷◌, ◌++◌, some, none, All, length, u32,
}
use ban2fail.OffEntry.{OffEntry, zeroed, cache_constructor, cache_write}
use ban2fail.Stdio.{Text, print_unsigned, print_signed, scan_unsigned, scan_signed, scan_word}
use ban2fail.Stdio.Digits.{
  IsInt64, InWord, scan_unsigned-print, scan_unsigned-space, scan_signed-print, scan_signed-space,
  scan_word-word, scan_word-end,
}

-- What the fields hold of an entry whose address was read from a log: machine words, an address of
-- 1 to 45 bytes and a country of at most 2, without white space, and nothing from the dns yet.
pub record IsStorable (e : OffEntry) : Type 0 where
  pub count : e.count < u32
  pub severity : e.severity < u32
  pub latest : IsInt64 e.latest
  pub addr_some : 1 ≤ length e.addr
  pub addr_fits : length e.addr ≤ 45
  pub addr_word : All InWord e.addr
  pub cntry_fits : length e.cntry ≤ 2
  pub cntry_word : All InWord e.cntry
  pub dns_flags : e.dns_flags ≡ 0
  pub dns_name : e.dns_name ≡ none

word-scan :
    (width : ℕ) (w r : Text)
    → 1 ≤ length w
    → length w ≤ width
    → All InWord w
    → scan_word width (32 ∷ (w ++ (32 ∷ r))) ≡ some (w, 32 ∷ r)
word-scan width [] r a b h = absurd (omega arith)
word-scan width (c ∷ w) r a b h = scan_word-word width c w (32 ∷ r) h b refl

-- A missing country leaves the field empty.
last-scan :
    (e : OffEntry) (w : Text)
    → e.cntry ≡ []
    → length w ≤ 2
    → All InWord w
    → elim (scan_word 2 (32 ∷ (w ++ (10 ∷ [])))) [
      | none ↦ some e
      | some (c, t) ↦ some (record e { cntry = c })
    ]
      ≡ some (record e { cntry = w })
last-scan e [] z a h = rw (scan_word-end 2) (λ i. some (record e { cntry = z i }))
last-scan e (c ∷ w) z a h = rw (scan_word-word 2 c w (10 ∷ []) h a refl)

-- OFFENTRY_cache_constructor reads back the very entry whose line OFFENTRY_cacheWrite wrote, also
-- where the country is not known, if the numbers fit their C types, the address is a word of 1 to
-- 45 characters, the country one of at most 2, and the dns part is empty.
pub cache_constructor-cache_write :
    (e : OffEntry) → IsStorable e → cache_constructor (cache_write e) ≡ some e
unfolding cache_constructor cache_write
cache_constructor-cache_write e s =
    let t₄ = 32 ∷ (e.cntry ++ (10 ∷ [])) in
    let t₃ = 32 ∷ (e.addr ++ t₄) in
    let t₂ = 32 ∷ (print_signed e.latest ++ t₃) in
    let t₁ = 32 ∷ (print_unsigned e.severity ++ t₂) in
    let one = scan_unsigned-print e.count t₁ s.count refl in
    let two : scan_unsigned t₁ ≡ some (e.severity, t₂) =
      scan_unsigned-space (print_unsigned e.severity ++ t₂)
      ∙ scan_unsigned-print e.severity t₂ s.severity refl in
    let three : scan_signed t₂ ≡ some (e.latest, t₃) =
      scan_signed-space (print_signed e.latest ++ t₃)
      ∙ scan_signed-print e.latest t₃ s.latest refl in
    let four = word-scan 45 e.addr (e.cntry ++ (10 ∷ [])) s.addr_some s.addr_fits s.addr_word in
    let bare : OffEntry = record zeroed {
      count = e.count;
      severity = e.severity;
      latest = e.latest;
      addr = e.addr;
    } in
    rw (one, cache_constructor, two, three, four)
      (last-scan bare e.cntry refl s.cntry_fits s.cntry_word ∙ λ i.
        some (record e { dns_flags = sym s.dns_flags i; dns_name = sym s.dns_name i }))
