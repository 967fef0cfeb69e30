-- ===== src/Tests/Logs.antt =====
-- A log file that is in the cache, and a cache directory that is cleaned up.
use ban2fail.LogFile.Cache.{write_cache, cache_constructor}
use ban2fail.LogFile.Hits.{hits, hits_in}
use ban2fail.LogFile.Kept.{IsPlain, GivesWords, IsStored, log_constructor-IsStored}
use ban2fail.LogFile.Restore.{SameEntries, cache_constructor-write_cache}
use ban2fail.LogFile.{LogFile, Proto, strip, when_of, log_constructor}
use ban2fail.LogType.Cached.{Sums, CoherentCache}
use ban2fail.LogType.Construct.{Constructed, dname, paths_of, proto_constructor-Constructed}
use ban2fail.LogType.Loaded.{Readable}
use ban2fail.LogType.{
  Site, kept, CacheDir, Disk, LogType, cache_name, cache_path, starts_with, log_names, open_log,
}
use ban2fail.Map.{same_bytes}
use ban2fail.Map.AsStrMap.{as_str_map}
use ban2fail.OffEntry.{OffEntry, zeroed}
use ban2fail.Prelude.Int.{pos}
use ban2fail.Prelude.{
  ℕ, ◌≤◌, ◌^◌, ◌≡◌, ◌∙◌, subst, sym, refl, arith, false, Option, some, none, List, [], ◌∷◌, All,
  length,
}
use ban2fail.Stdio.Digits.{InWord}
use ban2fail.Stdio.{Text}
use ban2fail.StrMap.{StrMap, assoc}
use ban2fail.Target.{scan, scan_from}

abbrev maps : StrMap ℕ
maps = as_str_map 0

abbrev heap : ℕ → OffEntry
heap i = zeroed

abbrev country : Text → Option Text
country addr = some (85 ∷ 83 ∷ [])

-- A target that finds the address in the first three bytes of any line.
abbrev proto : Proto
proto = record {
  targets = record { severity = 2; rx_arr = (λ s. some (0, 3)) ∷ [] } ∷ [];
  ts = none;
  mktime = λ tm. pos 0;
  begin_tm = record { tm_year = pos 0; tm_mon = 0; tm_rest = [] };
  country = country;
}

-- "1.2" twice, and "3.4"
abbrev lines : List (ℕ × Text)
lines = (0, 49 ∷ 46 ∷ 50 ∷ []) ∷ (4, 51 ∷ 46 ∷ 52 ∷ []) ∷ (8, 49 ∷ 46 ∷ 50 ∷ 32 ∷ []) ∷ []

words : GivesWords country
words addr code e =
    let same : 85 ∷ 83 ∷ [] ≡ code = cc in subst (All InWord) same (refl, (refl, tt))

few : length (hits proto lines) ≤ 2 ^ 30
unfolding hits hits_in strip scan scan_from
few = omega arith

plain : All IsPlain (hits proto lines)
unfolding hits hits_in strip scan scan_from when_of
plain = (one 49 50 refl refl, (one 51 52 refl refl, (one 49 50 refl refl, tt)))
  where
    one :
        (c d : ℕ)
        → InWord c
        → InWord d
        → IsPlain (record { addr = c ∷ 46 ∷ d ∷ []; severity = 2; when = pos 0 })
    one c d h k = record {
      addr_some = omega arith;
      addr_fits = omega arith;
      addr_word = (h, (refl, (k, tt)));
      severity = omega arith;
      when = omega arith;
    }

abbrev log_file : LogFile maps
log_file = log_constructor heap proto lines

stored : IsStored log_file
stored = log_constructor-IsStored maps heap proto lines words few plain

cache_constructor-write_cache_example :
    (out : LogFile maps) × (cache_constructor heap (write_cache log_file).0 ≡ some out)
    × SameEntries out log_file
cache_constructor-write_cache_example =
    cache_constructor-write_cache 0 heap log_file stored.fits stored.kept stored.few

abbrev files : StrMap (LogFile maps)
files = as_str_map log_file

-- 32 digits
abbrev sum : Text
sum =
    let eight : Text → Text = λ t. 48 ∷ 49 ∷ 50 ∷ 51 ∷ 52 ∷ 53 ∷ 54 ∷ 55 ∷ t in
    eight (eight (eight (eight [])))

abbrev site : Site
site = record {
  cache_dir = b'c' ∷ [];
  print_names = false;
  md5 = λ content. sum;
  lines = λ content. lines;
  qsort = λ cmp names. names;
  heap = heap;
}

abbrev content : Text
content = b'x' ∷ []

abbrev Seen : Text → Type 0
Seen c = c ≡ content

abbrev dir : Text
dir = b'd' ∷ []

abbrev pfix : Text
pfix = b'a' ∷ []

-- The log file "a" is in the cache, "b" is of another type, and "old" is left from before.
abbrev cached : CacheDir
cached = (sum, kept (write_cache log_file).0) ∷ (b'o' ∷ b'l' ∷ b'd' ∷ [], kept []) ∷ []

abbrev disk : Disk
disk = record { log_dir = (b'a' ∷ [], content) ∷ (b'b' ∷ [], []) ∷ []; cache = some cached }

abbrev path : Text
path = dname maps files site proto dir pfix [] Seen

sums : Sums maps site proto path Seen
unfolding cache_path cache_name
sums = record {
  apart = λ c e seen also same. seen ∙ sym also;
  digits = λ c. refl;
  room = omega arith;
}

coherent : CoherentCache maps site proto path Seen disk.cache
unfolding assoc same_bytes
coherent c seen file found = let same : kept (write_cache log_file).0 ≡ file = cc in sym same

one_path : length (paths_of maps files site proto dir pfix [] Seen disk) ≤ 2 ^ 30
unfolding log_names starts_with same_bytes
one_path = omega arith

readable :
    All
      (Readable maps files site proto path Seen (open_log dir disk.log_dir))
      (paths_of maps files site proto dir pfix [] Seen disk)
unfolding log_names starts_with open_log same_bytes
readable = (record { content = content; there = refl; seen = refl; stored = stored }, tt)

proto_constructor-Constructed_example :
    (self : LogType files) × (after : Disk) × Constructed maps files site proto dir pfix [] Seen
      disk self after
proto_constructor-Constructed_example =
    proto_constructor-Constructed maps files site proto dir pfix [] Seen disk sums refl one_path tt
      coherent readable

abbrev loaded : (as_str_map log_file).T
loaded = files.add files.fresh sum log_file
