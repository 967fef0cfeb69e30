-- ===== src/LogType/Construct.antt =====
-- LOGTYPE_proto_constructor as a whole: the files that are loaded, and the cache that is left.
use ban2fail.LogFile.{LogFile, Proto}
use ban2fail.LogType.Cached.{Sums, CoherentCache}
use ban2fail.LogType.Clean.{clean_up-kept}
use ban2fail.LogType.Loaded.{Readable, Loaded, IsGood, Opens, load_all-AllLoaded}
use ban2fail.LogType.Order.{cmp_pvsort}
use ban2fail.LogType.{
  Site, CacheDir, Disk, LogType, log_names, open_log, load_all, clean_up, cache_path,
  proto_constructor,
}
use ban2fail.Prelude.{ℕ, ◌≤◌, ◌^◌, ◌≡◌, ◌∙◌, sym, refl, false, none, some, List, length, All}
use ban2fail.Stdio.{Text}
use ban2fail.StrMap.{StrMap}

module _ (maps : StrMap ℕ) (files : StrMap (LogFile maps)) (site : Site) (proto : Proto)
    (dir pfix patterns_md5sum : Text) (Seen : Text → Type 0) where
  abbrev pub dname : Text
  dname = cache_path site.cache_dir dir pfix patterns_md5sum

  -- The paths of the log files, in the order in which they are loaded
  abbrev pub paths_of : Disk → List Text
  paths_of disk = site.qsort cmp_pvsort (log_names dir pfix disk.log_dir)

  -- What the constructor makes of a disk
  pub record Constructed (disk : Disk) (self : LogType files) (after : Disk) : Type 0 where
    pub run : proto_constructor files site proto dir pfix patterns_md5sum disk ≡ some (self, after)
    pub loaded :
        All
          (Loaded maps files site proto dname Seen (open_log dir disk.log_dir) self.file_map)
          (paths_of disk)
    pub coherent : CoherentCache maps site proto dname Seen after.cache
    pub untouched : after.log_dir ≡ disk.log_dir

  proto_constructor-run :
      (disk : Disk) (d : CacheDir) (m : files.T)
      → site.print_names ≡ false
      → load_all site proto dname files
          (open_log dir disk.log_dir)
          (paths_of disk)
          (disk.cache, files.fresh)
        ≡ some (some d, m)
      → proto_constructor files site proto dir pfix patterns_md5sum disk
        ≡ some (
          record { dir = dir; pfix = pfix; patterns_md5sum = patterns_md5sum; file_map = m },
          record disk { cache = some (clean_up files dname m d d) },
        )
  unfolding proto_constructor
  proto_constructor-run disk d m names run = rw (names, run)

  -- LOGTYPE_proto_constructor ends with a LOGTYPE whose file_map has, under the MD5 sum of each
  -- log file that qsort puts in order, a LOGFILE with the offenses that scanning this file gives,
  -- whether it was scanned or made from the cache. The cache directory is again one where the file
  -- under the sum of a log file is what would be written for it, as it must be at the start, and
  -- the log directory is as before. The sums have 32 digits and tell apart the log files that are
  -- seen, the path of the cache directory has at most 4059 bytes, there are at most 2^30 log
  -- files, all of which can be read and hold hits that fit a cache file, and there is one at least
  -- or else a cache directory.
  pub proto_constructor-Constructed :
      (disk : Disk)
      → Sums maps site proto dname Seen
      → site.print_names ≡ false
      → length (paths_of disk) ≤ 2 ^ 30
      → Opens disk.cache (paths_of disk)
      → CoherentCache maps site proto dname Seen disk.cache
      → All (Readable maps files site proto dname Seen (open_log dir disk.log_dir)) (paths_of disk)
      → (self : LogType files) × (after : Disk) × Constructed disk self after
  unfolding proto_constructor
  proto_constructor-Constructed disk sums names few opens coherent readable =
      let start : IsGood maps files site proto dname Seen (length (paths_of disk)) disk.cache
          files.fresh =
        record {
          coherent = coherent;
          right = λ c seen f found.
              let no : none ≡ some f = sym (files.find_fresh (site.md5 c)) ∙ found in absurd cc;
          fits = files.fits_fresh (length (paths_of disk)) few;
        } in
      let (next, m, run, good, stays, all) =
        load_all-AllLoaded maps files site proto dname Seen sums (open_log dir disk.log_dir)
          (paths_of disk) disk.cache files.fresh opens readable start in
      let self : LogType files = record {
        dir = dir;
        pfix = pfix;
        patterns_md5sum = patterns_md5sum;
        file_map = m;
      } in
      let left : CacheDir = clean_up files dname m next next in
      (
        self,
        record disk { cache = some left },
        record {
          run = proto_constructor-run disk next m names run;
          loaded = all;
          coherent = λ c seen file found.
              good.coherent c seen file
                (clean_up-kept maps files dname m (site.md5 c) file next next found);
          untouched = refl;
        },
      )
