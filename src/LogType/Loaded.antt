-- ===== src/LogType/Loaded.antt =====
-- LOGTYPE_proto_constructor loads every log file once, from the cache or by scanning it, and both
-- give the same offenses.
use ban2fail.LogFile.Kept.{IsStored}
use ban2fail.LogFile.Restore.{SameEntries}
use ban2fail.LogFile.{LogFile, Proto}
use ban2fail.LogType.Cached.{scanned, Sums, CoherentCache, obtain-scanned}
use ban2fail.LogType.{Site, CacheDir, load_file, load_all}
use ban2fail.Map.Keys.{key_eq, key_eq_refl, key_cases}
use ban2fail.Prelude.{
  ℕ, suc, ◌+◌, ◌≤◌, ◌≡◌, ◌⊎◌, ◌∙◌, subst, sym, refl, arith, inl, inr, Bool-cases, Option-cases,
  false, ◌==◌, Option, none, some, List, [], ◌∷◌, length, All,
}
use ban2fail.Stdio.{Text}
use ban2fail.StrMap.{StrMap, or_else}

-- There is a cache directory, or a log file to make it for.
abbrev pub Opens : Option CacheDir → List Text → Type 0
Opens (some d) paths = Unit
Opens none paths = 1 ≤ length paths

module _ (maps : StrMap ℕ) (files : StrMap (LogFile maps)) (site : Site) (proto : Proto)
    (dname : Text) (Seen : Text → Type 0) where
  -- A log file that can be read, and whose offenses fit a cache file
  pub record Readable (read : Text → Option Text) (path : Text) : Type 0 where
    pub content : Text
    pub there : read path ≡ some content
    pub seen : Seen content
    pub stored : IsStored (scanned maps site proto dname Seen content)

  -- The map has, under the sum of each file that is seen, what scanning that file gives.
  abbrev pub Right : files.T → Type 0
  Right m =
      (c : Text)
      → Seen c
      → (f : LogFile maps) → files.find m (site.md5 c) ≡ some f
      → SameEntries f (scanned maps site proto dname Seen c)

  -- The state between two rounds
  pub record IsGood (n : ℕ) (d : Option CacheDir) (m : files.T) : Type 0 where
    pub coherent : CoherentCache maps site proto dname Seen d
    pub right : Right m
    pub fits : files.Fits n m

  -- What is under a sum stays there.
  abbrev pub Stays : files.T → files.T → Type 0
  Stays m w = (k : Text) (f : LogFile maps) → files.find m k ≡ some f → files.find w k ≡ some f

  -- The file has been loaded.
  abbrev Has : files.T → Text → Type 0
  Has m c = (f : LogFile maps) × (files.find m (site.md5 c) ≡ some f)

  -- A path whose file is in the map, with the offenses of a scan
  pub record Loaded (read : Text → Option Text) (m : files.T) (path : Text) : Type 0 where
    pub content : Text
    pub there : read path ≡ some content
    pub file : LogFile maps
    pub found : files.find m (site.md5 content) ≡ some file
    pub same : SameEntries file (scanned maps site proto dname Seen content)

  module _ {n : ℕ} (m : files.T) (fits : files.Fits (suc n) m) (k : Text) (f : LogFile maps) where
    add-Stays : Stays m (files.add m k f)
    add-Stays j g found =
        files.find_add n m k f j fits
        ∙ elim (Bool-cases (key_eq k j)) [ inl t ↦ rw (t, found) | inr t ↦ rw (t, found) ]

    add-found :
        (g : LogFile maps) (j : Text)
        → files.find (files.add m k f) j ≡ some g
        → (files.find m j ≡ some g) ⊎ ((k ≡ j) × (f ≡ g))
    add-found g j found = elim (key_cases k j) [
      | inl (same, t) ↦ elim (Option-cases (files.find m j)) [
        | inl gone ↦
            let both : some f ≡ some g =
              sym (files.find_add n m k f j fits ∙ rw (t, gone)) ∙ found in
            let one : f ≡ g = cc in inr (same, one)
        | inr (h, there) ↦ inl (there ∙ sym (add-Stays j h there) ∙ found)
      ]
      | inr (ne, t, u) ↦ inl (sym (files.find_add n m k f j fits ∙ rw t) ∙ found)
    ]

    add-Has : (g : LogFile maps) × (files.find (files.add m k f) k ≡ some g)
    add-Has =
        let t = key_eq_refl k in (or_else (files.find m k) f, files.find_add n m k f k fits ∙ rw t)

  module _ (sums : Sums maps site proto dname Seen) where
    -- One round
    load_file-IsGood :
        (n : ℕ) (c : Text) (d : Option CacheDir) (m : files.T)
        → Seen c
        → IsStored (scanned maps site proto dname Seen c)
        → IsGood (suc n) d m
        → (next : CacheDir) × (w : files.T) × (load_file site proto dname files c (d, m)
            ≡ some (some next, w))
          × IsGood n (some next) w
          × Stays m w
          × Has w c
    unfolding load_file
    load_file-IsGood n c d m seen stored good =
        let (f, next, run, coherent, same) =
          obtain-scanned maps site proto dname Seen sums c d seen stored good.coherent in
        let w = files.add m (site.md5 c) f in
        let short : (length dname + 1 + length (site.md5 c) == 4096) ≡ false =
          ground (arith, sums.digits c, sums.room) in
        let right : Right w = λ e also g found.
          elim (add-found m good.fits (site.md5 c) f g (site.md5 e) found) [
            | inl old ↦ good.right e also g old
            | inr (sum, one) ↦
                let c_e : c ≡ e = sums.apart c e seen also sum in
                let two : SameEntries g (scanned maps site proto dname Seen c) =
                  subst (λ h. SameEntries h (scanned maps site proto dname Seen c)) one same in
                subst (λ x. SameEntries g (scanned maps site proto dname Seen x)) c_e two
          ] in
        (
          next,
          w,
          rw (short, run),
          record {
            coherent = coherent;
            right = right;
            fits = files.fits_add n m (site.md5 c) f good.fits;
          },
          add-Stays m good.fits (site.md5 c) f,
          add-Has m good.fits (site.md5 c) f,
        )

    module _ (read : Text → Option Text) where
      -- All is well with what `load_all` makes of a state.
      abbrev pub AllLoaded : List Text → Option CacheDir → files.T → Type 0
      AllLoaded paths d m =
          (next : CacheDir) × (w : files.T) × (load_all site proto dname files read paths (d, m)
            ≡ some (some next, w))
          × IsGood 0 (some next) w
          × Stays m w
          × All (Loaded read w) paths

      load_all-cons :
          (path : Text) (paths : List Text) (d : Option CacheDir) (m : files.T)
          → Readable read path
          → IsGood (suc (length paths)) d m
          → ((e : CacheDir) (w : files.T)
              → IsGood (length paths) (some e) w
              → AllLoaded paths (some e) w)
          → AllLoaded (path ∷ paths) d m
      unfolding load_all
      load_all-cons path paths d m r good further =
          let (d1, m1, run, good1, stays1, (f, has)) =
            load_file-IsGood (length paths) r.content d m r.seen r.stored good in
          let (d2, m2, more, good2, stays2, all) = further d1 m1 good1 in
          let there = r.there in
          let kept = stays2 (site.md5 r.content) f has in
          (
            d2,
            m2,
            rw (there, load_all, run) more,
            good2,
            λ k g e. stays2 k g (stays1 k g e),
            (
              record {
                content = r.content;
                there = r.there;
                file = f;
                found = kept;
                same = good2.right r.content r.seen f kept;
              },
              all,
            ),
          )

      load_all-IsGood :
          (paths : List Text) (d : CacheDir) (m : files.T)
          → All (Readable read) paths
          → IsGood (length paths) (some d) m
          → AllLoaded paths (some d) m
      unfolding load_all
      load_all-IsGood [] d m readable good = (d, m, refl, good, λ k f e. e, tt)
      load_all-IsGood (path ∷ paths) d m (r, readable) good =
          load_all-cons path paths (some d) m r good (λ e w g. load_all-IsGood paths e w readable g)

      -- There is a cache directory, or a log file to make it for.
      pub load_all-AllLoaded :
          (paths : List Text) (d : Option CacheDir) (m : files.T)
          → Opens d paths
          → All (Readable read) paths
          → IsGood (length paths) d m
          → AllLoaded paths d m
      load_all-AllLoaded paths (some d) m opens readable good =
          load_all-IsGood paths d m readable good
      load_all-AllLoaded [] none m opens readable good = absurd (omega arith)
      load_all-AllLoaded (path ∷ paths) none m opens (r, readable) good =
          load_all-cons path paths none m r good (λ e w g. load_all-IsGood paths e w readable g)
