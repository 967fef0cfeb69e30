-- ===== src/LogType.antt =====
-- logType.c: the log files of one type, whose offenses are kept in a cache directory under the MD5
-- sum of each file. The log directory and the cache directory are lists of names with their
-- contents; a step that ends the program returns `none`. What is only printed is not in the model,
-- and no report by address is asked for.
pub mod Addresses
pub mod Order
pub mod Cached
pub mod Clean
pub mod Init
pub mod Read
pub mod Loaded
pub mod Construct
use ban2fail.LogFile.Cache.{Records, cache_constructor, write_cache}
use ban2fail.LogFile.{LogFile, Proto, log_constructor}
use ban2fail.LogType.Order.{cmp_pvsort}
use ban2fail.Map.Keys.{key_eq}
use ban2fail.OffEntry.{OffEntry}
use ban2fail.Prelude.{
  ℕ, zero, suc, ◌+◌, ◌-◌, Bool, true, false, not, ◌&&◌, Option, none, some, List, [], ◌∷◌, ◌++◌,
  map, ◌==◌, leb, if◌then◌else◌, length, take,
}
use ban2fail.Prelude.Int.{ℤ}
use ban2fail.Stdio.{Text}
use ban2fail.StrMap.{StrMap, assoc}

-- A file of a cache directory
pub data CacheFile : Type 0 where
  kept : Text → CacheFile
  database : Records → CacheFile

abbrev pub CacheDir : Type 0
CacheDir = List (Text × CacheFile)

-- What the constructor reads of `G` (`print_names` is GLB_PRINT_LOGFILE_NAMES_FLG), and what it
-- asks of libraries: the MD5 sum of a file in hexadecimal, the lines of a file that may be
-- compressed, `qsort`, and memory for entries.
pub record Site : Type 0 where
  pub cache_dir : Text
  pub print_names : Bool
  pub md5 : Text → Text
  pub lines : Text → List (ℕ × Text)
  pub qsort : (Text → Text → ℤ) → List Text → List Text
  pub heap : ℕ → OffEntry

pub record Disk : Type 0 where
  pub log_dir : List (Text × Text)
  pub cache : Option CacheDir

-- `LOGTYPE_cacheName`
unfoldable pub cache_name : Text → Text → Text → Text
cache_name dir pfix patterns_md5sum =
    map (λ c. if c == b'/' then b':' else c) dir ++ (b';' ∷ (pfix ++ (b';' ∷ patterns_md5sum)))

-- `strncmp(pfix, name, pfix_len)` is 0
unfoldable pub starts_with : Text → Text → Bool
starts_with [] name = true
starts_with (c ∷ cs) [] = false
starts_with (c ∷ cs) (d ∷ ds) = c == d && starts_with cs ds

abbrev pub is_candidate : Text → Text → Bool
is_candidate pfix name =
    not (key_eq name (b'.' ∷ [])) && not (key_eq name (b'.' ∷ b'.' ∷ [])) && starts_with pfix name

-- `snprintf(LogFname, sizeof(LogFname), "%s/%s", dir, name)`
abbrev pub path_of : Text → Text → Text
path_of dir name = take 4095 (dir ++ (b'/' ∷ name))

-- The loop over the log directory, which fills the vector
unfoldable pub log_names : Text → Text → List (Text × Text) → List Text
log_names dir pfix [] = []
log_names dir pfix ((name, content) ∷ rest) =
    if is_candidate pfix name
    then path_of dir name ∷ log_names dir pfix rest
    else log_names dir pfix rest

-- The content of a file of the log directory, by its path
unfoldable pub open_log : Text → List (Text × Text) → Text → Option Text
open_log dir [] path = none
open_log dir ((name, content) ∷ rest) path =
    if key_eq (dir ++ (b'/' ∷ name)) path then some content else open_log dir rest path

-- The name in the cache directory that a path of at most 4095 bytes has room for. The path of the
-- directory itself, `dname`, has fewer than 4094.
abbrev pub in_dir : Text → Text → Text
in_dir dname name = take (4094 - length dname) name

abbrev pub db_name : Text → Text
db_name name = name ++ (b'.' ∷ b'd' ∷ b'b' ∷ [])

-- A file is written, whether it was there or not.
unfoldable pub put_file {ℓ} : {A : Type ℓ} → Text → A → List (Text × A) → List (Text × A)
put_file name f [] = (name, f) ∷ []
put_file name f ((n, g) ∷ d) =
    let rest = put_file name f d in if key_eq n name then (name, f) ∷ d else (n, g) ∷ rest

unfoldable pub unlink {ℓ} : {A : Type ℓ} → Text → List (Text × A) → List (Text × A)
unlink name [] = []
unlink name ((n, g) ∷ d) = let rest = unlink name d in if key_eq n name then rest else (n, g) ∷ rest

-- Records are put into a database that may be there; of two under a key the first counts.
abbrev pub put_records : Records → Option CacheFile → CacheFile
put_records new none = database new
put_records new (some (kept text)) = database new
put_records new (some (database old)) = database (new ++ old)

unfoldable pub put_database : Text → Option Records → CacheDir → CacheDir
unfolding put_file assoc
put_database name none d = d
put_database name (some new) d = put_file name (put_records new (assoc name d)) d

-- The directory once it has been made
abbrev pub made : Option CacheDir → CacheDir
made none = []
made (some d) = d

-- What the cache directory has under a name
abbrev pub access : Text → Option CacheDir → Option CacheFile
access name none = none
access name (some d) = assoc name d

module _ {maps : StrMap ℕ} (site : Site) (proto : Proto) (dname : Text) where
  -- The files that LOGFILE_writeCache writes
  unfoldable pub store_cache : Text → LogFile maps → CacheDir → CacheDir
  unfolding put_file put_database write_cache
  store_cache name f d =
      let (text, new) = write_cache f in
      put_database (in_dir dname (db_name name)) new (put_file name (kept text) d)

  -- `LOGFILE_cache_create`. No name of a database is a sum.
  unfoldable pub from_cache : CacheFile → Option (LogFile maps)
  unfolding cache_constructor
  from_cache (kept text) = cache_constructor site.heap text
  from_cache (database r) = none

  -- "Use the cache, if available", or scan the log file and write the cache.
  unfoldable pub obtain : Text → Text → Option CacheDir → Option (LogFile maps × Option CacheDir)
  unfolding store_cache from_cache log_constructor
  obtain name content d = elim (access name d) [
    | some file ↦ elim (from_cache file) [ none ↦ none | some f ↦ some (f, d) ]
    | none ↦
        let f = log_constructor site.heap proto (site.lines content) in
        some (f, some (store_cache name f (made d)))
  ]

  module _ (files : StrMap (LogFile maps)) where
    -- One round of the loop over the log files, with the content of the file
    unfoldable pub load_file : Text → Option CacheDir × files.T → Option (Option CacheDir × files.T)
    unfolding obtain
    load_file content (d, m) =
        let sum = site.md5 content in
        if length dname + 1 + length sum == 4096
        then none
        else elim (obtain (in_dir dname sum) content d) [
          | none ↦ none
          | some (f, next) ↦ some (next, files.add m sum f)
        ]

    unfoldable pub load_all :
        (Text → Option Text)
        → List Text
        → Option CacheDir × files.T
        → Option (Option CacheDir × files.T)
    unfolding load_file
    load_all read [] s = some s
    load_all read (path ∷ paths) s = elim (read path) [
      | none ↦ none
      | some content ↦ elim (load_file content s) [
        | none ↦ none
        | some next ↦ load_all read paths next
      ]
    ]

module _ {maps : StrMap ℕ} (files : StrMap (LogFile maps)) (dname : Text) where
  -- `MAP_findItem(&file_map, d_name, MD5SUM_SZ)`: a shorter name is no sum.
  unfoldable pub is_used : files.T → Text → Bool
  is_used m name =
      leb 32 (length name) && elim (files.find m (take 32 name)) [ none ↦ false | some f ↦ true ]

  -- "clean up unused cache files": the loop over the names that the directory has at its start
  unfoldable pub clean_up : files.T → CacheDir → CacheDir → CacheDir
  unfolding is_used unlink
  clean_up m [] d = d
  clean_up m ((name, file) ∷ rest) d =
      clean_up m rest (if is_used m name then d else unlink (in_dir dname name) d)

-- `LOGTYPE`
pub record LogType {maps : StrMap ℕ} (files : StrMap (LogFile maps)) : Type 0 where
  pub dir : Text
  pub pfix : Text
  pub patterns_md5sum : Text
  pub file_map : files.T

-- The path of the cache directory of a type
unfoldable pub cache_path : Text → Text → Text → Text → Text
unfolding cache_name
cache_path cache_dir dir pfix patterns_md5sum =
    take 4095 (cache_dir ++ (b'/' ∷ cache_name dir pfix patterns_md5sum))

module _ {maps : StrMap ℕ} (files : StrMap (LogFile maps)) (site : Site) (proto : Proto)
    (dir pfix patterns_md5sum : Text) where
  -- `LOGTYPE_proto_constructor`, given the MD5 sum of all patterns. When only names are printed
  -- the sum is not worked out.
  unfoldable pub proto_constructor : Disk → Option (LogType files × Disk)
  unfolding log_names open_log load_all clean_up cmp_pvsort cache_path
  proto_constructor disk =
      let self : LogType files = record {
        dir = dir;
        pfix = pfix;
        patterns_md5sum = [];
        file_map = files.fresh;
      } in
      let dname = cache_path site.cache_dir dir pfix patterns_md5sum in
      let paths = site.qsort cmp_pvsort (log_names dir pfix disk.log_dir) in
      let loaded =
        load_all site proto dname files (open_log dir disk.log_dir) paths
          (disk.cache, files.fresh) in
      if site.print_names then some (self, disk) else elim loaded [
        | none ↦ none
        | some (none, m) ↦ none
        | some (some d, m) ↦ some (
          record self { patterns_md5sum = patterns_md5sum; file_map = m },
          record disk { cache = some (clean_up files dname m d d) },
        )
      ]
