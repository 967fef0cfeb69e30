-- ===== src/LogFile/Kept.antt =====
-- What LOGFILE_log_constructor makes of a log file can be written to a cache file and read back.
use ban2fail.LogFile.Hits.{Hit, hits, offend_all, offend-IsValid, line_loop-hits}
use ban2fail.LogFile.Restore.{IsKept}
use ban2fail.LogFile.{LogFile, Proto, offend, common_constructor, log_constructor}
use ban2fail.OffEntry.Cache.{IsStorable}
use ban2fail.OffEntry.Locate.{FitsField, IsValid}
use ban2fail.OffEntry.Merge.{fresh_registry-IsValid}
use ban2fail.OffEntry.Registry.{Registry, modify, enter, locate}
use ban2fail.OffEntry.{OffEntry, addr_constructor, register}
use ban2fail.Prelude.Int.{ℤ, ltb_ℤ}
use ban2fail.Prelude.{
  ℕ, zero, suc, ◌+◌, ◌≤◌, ◌<◌, ◌^◌, ◌≡◌, ◌∙◌, ap, subst, sym, refl, arith, inl, inr, Bool-cases,
  true, false, Option-cases, Option, some, List, [], ◌∷◌, length, take, length-take, All, All-map,
  u32, ◌==◌,
}
use ban2fail.Stdio.Digits.{IsInt64, InWord}
use ban2fail.Stdio.{Text}
use ban2fail.StrMap.{StrMap}

-- An offense with an address that is a word of 1 to 45 bytes, and numbers that fit their C types
pub record IsPlain (h : Hit) : Type 0 where
  pub addr_some : 1 ≤ length h.addr
  pub addr_fits : length h.addr ≤ 45
  pub addr_word : All InWord h.addr
  pub severity : h.severity < u32
  pub when : IsInt64 h.when

-- The codes of the countries are words.
abbrev pub GivesWords : (Text → Option Text) → Type 0
GivesWords country = (a code : Text) → country a ≡ some code → All InWord code

take-All : (P : ℕ → Type 0) (n : ℕ) (l : Text) → All P l → All P (take n l)
take-All P zero l h = tt
take-All P (suc n) [] h = tt
take-All P (suc n) (c ∷ l) (p, h) = (p, take-All P n l h)

pub take-all : (n : ℕ) (l : Text) → length l ≤ n → take n l ≡ l
take-all zero [] h = refl
take-all zero (c ∷ l) h = absurd (omega arith)
take-all (suc n) [] h = refl
take-all (suc n) (c ∷ l) h = ap (λ t. c ∷ t) (take-all n l (omega arith))

addr_constructor-IsStorable :
    (country : Text → Option Text) (a : Text)
    → GivesWords country
    → 1 ≤ length a
    → length a ≤ 45
    → All InWord a
    → IsStorable (addr_constructor country a)
unfolding addr_constructor
addr_constructor-IsStorable country a words long short word =
    let same = take-all 45 a short in
    elim (Option-cases (country (take 45 a))) [
      | inl e ↦
          rw (e, addr_constructor)
            (record {
              count = omega arith;
              severity = omega arith;
              latest = omega arith;
              addr_some = rw same long;
              addr_fits = rw same short;
              addr_word = rw same word;
              cntry_fits = omega arith;
              cntry_word = tt;
              dns_flags = refl;
              dns_name = refl;
            })
      | inr (c, e) ↦
          rw (e, addr_constructor)
            (record {
              count = omega arith;
              severity = omega arith;
              latest = omega arith;
              addr_some = rw same long;
              addr_fits = rw same short;
              addr_word = rw same word;
              cntry_fits = omega (arith, length-take 2 c);
              cntry_word = take-All InWord 2 c (words (take 45 a) c e);
              dns_flags = refl;
              dns_name = refl;
            })
    ]

register-IsStorable :
    (e : OffEntry) (severity : ℕ) (when : ℤ)
    → IsStorable e
    → severity < u32
    → IsInt64 when
    → IsStorable (register e severity when)
unfolding register
register-IsStorable e severity when s small time = record {
  count = omega arith;
  severity = ground (arith, s.severity);
  latest = elim (Bool-cases (ltb_ℤ e.latest when)) [ inl t ↦ rw t time | inr t ↦ rw t s.latest ];
  addr_some = s.addr_some;
  addr_fits = s.addr_fits;
  addr_word = s.addr_word;
  cntry_fits = s.cntry_fits;
  cntry_word = s.cntry_word;
  dns_flags = s.dns_flags;
  dns_name = s.dns_name;
}

module _ {maps : StrMap ℕ} (country : Text → Option Text) (words : GivesWords country) where
  -- The entry that a pointer of the map leads to
  record Sound (g : Registry maps) (e : Text × ℕ) : Type 0 where
    old : e.1 < g.next
    named : (g.heap e.1).addr ≡ e.0
    storable : IsStorable (g.heap e.1)

  abbrev AllSound : Registry maps → Type 0
  AllSound g = All (Sound g) (maps.entries g.index)

  modify-Sound :
      (g : Registry maps) (h : Hit)
      → IsPlain h
      → (p : ℕ) → AllSound g
      → AllSound (modify g p (λ e. register e h.severity h.when))
  unfolding register
  modify-Sound g h plain p all =
      let f = λ (e : OffEntry). register e h.severity h.when in
      All-map (Sound g) (Sound (modify g p f)) (maps.entries g.index)
        (λ e s. elim (Bool-cases (e.1 == p)) [
          | inl t ↦
              let q : e.1 ≡ p = ground arith in
              record {
                old = s.old;
                named = rw t (ap (λ i. (g.heap i).addr) (sym q) ∙ s.named);
                storable = rw t (
                    register-IsStorable (g.heap p) h.severity h.when
                      (subst (λ i. IsStorable (g.heap i)) q s.storable) plain.severity plain.when);
              }
          | inr t ↦ record { old = s.old; named = rw t s.named; storable = rw t s.storable }
        ])
        all

  module _ {n : ℕ} (g : Registry maps) (valid : IsValid (suc n) g) (h : Hit)
      (plain : IsPlain h) where
    abbrev held : FitsField h.addr
    held = take-all 45 h.addr plain.addr_fits

    enter-Sound : AllSound g → AllSound (enter country g h.addr)
    unfolding enter
    enter-Sound all =
        maps.all_add n g.index _ g.next (Sound (enter country g h.addr)) valid.fits
          (All-map (Sound g) (Sound (enter country g h.addr)) (maps.entries g.index)
            (λ e s.
              let t : (e.1 == g.next) ≡ false = ground (arith, s.old) in
              record {
                old = omega (arith, s.old);
                named = rw t s.named;
                storable = rw t s.storable;
              })
            all)
          (let t : (g.next == g.next) ≡ true = ground arith in
            record {
              old = omega arith;
              named = rw t refl;
              storable = rw t (
                  addr_constructor-IsStorable country h.addr words plain.addr_some plain.addr_fits
                    plain.addr_word);
            })

    offend-Sound : AllSound g → AllSound (offend country h.addr h.severity h.when g)
    unfolding offend locate
    offend-Sound all = elim (Option-cases (maps.find g.index h.addr)) [
      | inl e ↦
          rw (e, offend, locate)
            (modify-Sound (enter country g h.addr) h plain g.next (enter-Sound all))
      | inr (p, e) ↦ rw (e, offend, locate) (modify-Sound g h plain p all)
    ]

  offend-count :
      {n : ℕ} (g : Registry maps) (h : Hit)
      → IsValid (suc n) g
      → length (maps.entries (offend country h.addr h.severity h.when g).index)
        ≤ suc (length (maps.entries g.index))
  unfolding offend locate enter
  offend-count {n} g h valid = elim (Option-cases (maps.find g.index h.addr)) [
    | inl e ↦
        rw (e, offend, locate)
          (omega (
            arith,
            maps.count_add n g.index (addr_constructor country h.addr).addr g.next valid.fits,
          ))
    | inr (p, e) ↦ rw (e, offend, locate) (omega arith)
  ]

  -- What the map has once a file has been scanned
  record Scanned (bound : ℕ) (g : Registry maps) : Type 0 where
    fits : maps.Fits 0 g.index
    few : length (maps.entries g.index) ≤ bound
    sound : AllSound g

  offend_all-Scanned :
      (hs : List Hit) (g : Registry maps)
      → IsValid (length hs) g
      → All IsPlain hs
      → (bound : ℕ) → length (maps.entries g.index) + length hs ≤ bound
      → AllSound g
      → Scanned bound (offend_all country hs g)
  unfolding offend_all
  offend_all-Scanned [] g valid plain bound few all = record {
    fits = valid.fits;
    few = omega (arith, few);
    sound = all;
  }
  offend_all-Scanned (h ∷ hs) g valid (p, plain) bound few all =
      offend_all-Scanned hs (offend country h.addr h.severity h.when g)
        (offend-IsValid country g valid h (take-all 45 h.addr p.addr_fits)) plain bound
        (omega (arith, few, offend-count g h valid)) (offend-Sound g valid h p all)

-- A LOGFILE that can be written to the cache and made from it again
pub record IsStored {maps : StrMap ℕ} (self : LogFile maps) : Type 0 where
  pub fits : maps.Fits 0 self.off_entry.index
  pub few : length (maps.entries self.off_entry.index) ≤ 2 ^ 30
  pub kept : IsKept self.off_entry

-- A file of at most 2^30 hits, all plain, can be kept in the cache.
pub log_constructor-IsStored :
    (maps : StrMap ℕ) (heap : ℕ → OffEntry) (proto : Proto) (lines : List (ℕ × Text))
    → GivesWords proto.country
    → length (hits proto lines) ≤ 2 ^ 30
    → All IsPlain (hits proto lines)
    → IsStored (log_constructor {maps = maps} heap proto lines)
unfolding log_constructor common_constructor
log_constructor-IsStored maps heap proto lines words few plain =
    let start = (common_constructor {maps = maps} heap).off_entry in
    let none_yet : AllSound proto.country words start = rw maps.entries_fresh tt in
    let empty : length (maps.entries maps.fresh) ≡ 0 = ap length maps.entries_fresh in
    let s =
      offend_all-Scanned proto.country words (hits proto lines) start
        (fresh_registry-IsValid maps heap (length (hits proto lines)) few) plain (2 ^ 30)
        (omega (arith, few, empty)) none_yet in
    let same = line_loop-hits proto lines (common_constructor {maps = maps} heap) in
    record {
      fits = rw same s.fits;
      few = rw same s.few;
      kept = rw same (All-map _ _ _ (λ e s. (s.named, s.storable)) s.sound);
    }
