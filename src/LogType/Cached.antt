-- ===== src/LogType/Cached.antt =====
-- The cache of a log type does not change what is found: a file that is in the cache gives the
-- offenses that scanning it would give, and what is written is right for the next run.
use ban2fail.LogFile.Cache.{Records, write_cache}
use ban2fail.LogFile.Kept.{IsStored, take-all}
use ban2fail.LogFile.Restore.{SameEntries, cache_constructor-write_cache}
use ban2fail.LogFile.{LogFile, Proto, log_constructor}
use ban2fail.LogType.{
  Site, CacheFile, kept, CacheDir, in_dir, db_name, put_file, put_records, put_database, made,
  access, store_cache, from_cache, obtain,
}
use ban2fail.Map.Keys.{key_eq, key_cases, eq_of_key_eq}
use ban2fail.Prelude.{
  ℕ, ◌-◌, ◌≤◌, ◌≡◌, ◌∙◌, ap, sym, refl, arith, inl, inr, Bool-cases, Option-cases, false,
  if◌then◌else◌, Option, none, some, List, [], ◌∷◌, length, length-append,
}
use ban2fail.Stdio.{Text}
use ban2fail.StrMap.{StrMap, assoc}

pub assoc-put_file {ℓ} :
    {A : Type ℓ} (name k : Text) (f : A) (d : List (Text × A))
    → assoc k (put_file name f d) ≡ (if key_eq name k then some f else assoc k d)
unfolding assoc put_file
assoc-put_file name k f [] = refl
assoc-put_file name k f ((n, g) ∷ d) = elim (key_cases n name) [
  | inl (same, t) ↦ rw t (elim (Bool-cases (key_eq name k)) [
    | inl b ↦ rw (b, assoc)
    | inr b ↦ let b' : key_eq n k ≡ false = ap (λ m. key_eq m k) same ∙ b in rw (b, assoc, b')
  ])
  | inr (ne, t, u) ↦ rw t (elim (Bool-cases (key_eq n k)) [
    | inl b ↦
        let b' : key_eq name k ≡ false = ap (key_eq name) (sym (eq_of_key_eq n k b)) ∙ u in
        rw (b, assoc, b')
    | inr b ↦ rw (b, assoc) (assoc-put_file name k f d)
  ])
]

module _ (maps : StrMap ℕ) (site : Site) (proto : Proto) (dname : Text) (Seen : Text → Type 0) where
  -- What scanning a file gives
  abbrev pub scanned : Text → LogFile maps
  scanned content = log_constructor site.heap proto (site.lines content)

  -- The sums tell the files apart that are seen, and have 32 digits; the paths fit.
  pub record Sums : Type 0 where
    pub apart : (c e : Text) → Seen c → Seen e → site.md5 c ≡ site.md5 e → c ≡ e
    pub digits : (c : Text) → length (site.md5 c) ≡ 32
    pub room : length dname ≤ 4059

  -- What the directory has under the sum of a file is what would be written for that file.
  abbrev pub Coherent : CacheDir → Type 0
  Coherent d =
      (c : Text)
      → Seen c
      → (file : CacheFile) → assoc (site.md5 c) d ≡ some file
      → file ≡ kept (write_cache (scanned c)).0

  abbrev pub CoherentCache : Option CacheDir → Type 0
  CoherentCache none = Unit
  CoherentCache (some d) = Coherent d

  module _ (sums : Sums) where
    in_dir-sum : (c : Text) → in_dir dname (site.md5 c) ≡ site.md5 c
    in_dir-sum c =
        take-all (4094 - length dname) (site.md5 c) (omega (arith, sums.digits c, sums.room))

    in_dir-db_name : (c : Text) → in_dir dname (db_name (site.md5 c)) ≡ db_name (site.md5 c)
    in_dir-db_name c = take-all (4094 - length dname) (db_name (site.md5 c)) (
        omega
          (arith, length-append (site.md5 c) (b'.' ∷ b'd' ∷ b'b' ∷ []), sums.digits c, sums.room))

    -- The name of a database is no sum.
    db_name-apart : (c e : Text) → key_eq (db_name (site.md5 c)) (site.md5 e) ≡ false
    db_name-apart c e = elim (key_cases (db_name (site.md5 c)) (site.md5 e)) [
      | inl (same, t) ↦
          let len : length (db_name (site.md5 c)) ≡ length (site.md5 e) = ap length same in
          absurd (
            omega (
              arith,
              len,
              length-append (site.md5 c) (b'.' ∷ b'd' ∷ b'b' ∷ []),
              sums.digits c,
              sums.digits e,
            ))
      | inr (ne, t, u) ↦ t
    ]

    assoc-put_database :
        (c e : Text) (new : Option Records) (d : CacheDir)
        → assoc (site.md5 e) (put_database (db_name (site.md5 c)) new d) ≡ assoc (site.md5 e) d
    unfolding put_database
    assoc-put_database c e none d = refl
    assoc-put_database c e (some new) d =
        assoc-put_file (db_name (site.md5 c)) (site.md5 e)
          (put_records new (assoc (db_name (site.md5 c)) d)) d
        ∙ rw (db_name-apart c e)

    store_cache-Coherent :
        (c : Text) (d : CacheDir)
        → Seen c
        → Coherent d
        → Coherent (store_cache site proto dname (site.md5 c) (scanned c) d)
    unfolding store_cache
    store_cache-Coherent c d seen coherent e also file found =
        let name = site.md5 c in
        let look : assoc (site.md5 e) (store_cache site proto dname name (scanned c) d) ≡ (
            if key_eq name (site.md5 e)
            then some (kept (write_cache (scanned c)).0)
            else assoc (site.md5 e) d) =
          (ap
              (λ n. assoc (site.md5 e) (
                put_database n (write_cache (scanned c)).1
                  (put_file name (kept (write_cache (scanned c)).0) d)))
              (in_dir-db_name c)
            ∙ assoc-put_database c e (write_cache (scanned c)).1
                (put_file name (kept (write_cache (scanned c)).0) d)
            ∙ assoc-put_file name (site.md5 e) (kept (write_cache (scanned c)).0) d) in
        elim (key_cases name (site.md5 e)) [
          | inl (same, t) ↦
              let c_e : c ≡ e = sums.apart c e seen also same in
              let both : some (kept (write_cache (scanned c)).0) ≡ some file =
                sym (look ∙ rw t) ∙ found in
              let one : kept (write_cache (scanned c)).0 ≡ file = cc in
              sym one ∙ ap (λ x. kept (write_cache (scanned x)).0) c_e
          | inr (ne, t, u) ↦ coherent e also file (sym (look ∙ rw t) ∙ found)
        ]

    obtain-gone :
        (name c : Text) (d : Option CacheDir)
        → access name d ≡ none
        → obtain site proto dname name c d
          ≡ some (scanned c, some (store_cache site proto dname name (scanned c) (made d)))
    unfolding obtain
    obtain-gone name c d gone = rw (gone, obtain)

    obtain-there :
        (name c : Text) (d : Option CacheDir) (file : CacheFile) (f : LogFile maps)
        → access name d ≡ some file
        → from_cache site proto dname file ≡ some f
        → obtain site proto dname name c d ≡ some (f, d)
    unfolding obtain
    obtain-there name c d file f there read = rw (there, obtain, read)

    -- The name that the path has room for is the sum.
    obtain-in_dir :
        (c : Text) (d : Option CacheDir)
        → obtain {maps = maps} site proto dname (in_dir dname (site.md5 c)) c d
          ≡ obtain site proto dname (site.md5 c) c d
    obtain-in_dir c d = ap (λ n. obtain site proto dname n c d) (in_dir-sum c)

    -- What is obtained for a file, and the cache directory then
    abbrev pub Obtained : Text → Option CacheDir → Type 0
    Obtained c d =
        (f : LogFile maps) × (next : CacheDir) × (obtain site proto dname
            (in_dir dname (site.md5 c)) c d
          ≡ some (f, some next))
        × Coherent next
        × SameEntries f (scanned c)

    obtain-hit :
        (c : Text) (d : CacheDir)
        → Seen c
        → IsStored (scanned c)
        → Coherent d
        → (file : CacheFile) → assoc (site.md5 c) d ≡ some file
        → Obtained c (some d)
    unfolding obtain from_cache
    obtain-hit c d seen stored coherent file found =
        let text = (write_cache (scanned c)).0 in
        let (out, run, same) =
          cache_constructor-write_cache 0 site.heap (scanned c) stored.fits stored.kept
            stored.few in
        let whole : from_cache site proto dname file ≡ some out =
          ap (from_cache site proto dname) (coherent c seen file found) ∙ run in
        (
          out,
          d,
          obtain-in_dir c (some d) ∙ obtain-there (site.md5 c) c (some d) file out found whole,
          coherent,
          same,
        )

    pub obtain-scanned :
        (c : Text) (d : Option CacheDir)
        → Seen c
        → IsStored (scanned c)
        → CoherentCache d
        → Obtained c d
    unfolding assoc
    obtain-scanned c none seen stored coherent = (
      scanned c,
      store_cache site proto dname (site.md5 c) (scanned c) [],
      obtain-in_dir c none ∙ obtain-gone (site.md5 c) c none refl,
      store_cache-Coherent c [] seen
          (λ e also file found. let no : none ≡ some file = found in absurd cc),
      λ a. refl,
    )
    obtain-scanned c (some d) seen stored coherent = elim (Option-cases (assoc (site.md5 c) d)) [
      | inl gone ↦ (
        scanned c,
        store_cache site proto dname (site.md5 c) (scanned c) d,
        obtain-in_dir c (some d) ∙ obtain-gone (site.md5 c) c (some d) gone,
        store_cache-Coherent c d seen coherent,
        λ a. refl,
      )
      | inr (file, found) ↦ obtain-hit c d seen stored coherent file found
    ]
