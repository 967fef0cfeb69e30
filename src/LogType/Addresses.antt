-- ===== src/LogType/Addresses.antt =====
-- logFile.c and logType.c: the entries of all log files of a type, merged by address, and the
-- number of the addresses.
use ban2fail.LogFile.Cache.{contents}
use ban2fail.LogFile.{LogFile}
use ban2fail.LogType.{LogType}
use ban2fail.OffEntry.Locate.{FitsField, IsValid}
use ban2fail.OffEntry.Merge.{fresh_registry, merge_all, map_all-lookup}
use ban2fail.OffEntry.Registry.{Registry, map_all, lookup}
use ban2fail.OffEntry.{OffEntry}
use ban2fail.Prelude.{
  ℕ, ◌≡◌, ◌∙◌, ap, sym, refl, Option, List, [], ◌∷◌, ◌++◌, map, length, All, add32,
}
use ban2fail.Stdio.{Text}
use ban2fail.StrMap.{StrMap}

module _ {maps : StrMap ℕ} where
  -- `LOGFILE_map_addr`
  unfoldable pub file_map_addr : (Text → Option Text) → LogFile maps → Registry maps → Registry maps
  unfolding contents map_all
  file_map_addr country self g = map_all country (contents self.off_entry) g

  -- `LOGFILE_addressCount`
  unfoldable pub file_address_count : LogFile maps → ℕ → ℕ
  file_address_count self sum = add32 sum (length (maps.entries self.off_entry.index))

  -- The walk of `LOGTYPE_map_addr` over the log files
  unfoldable pub map_files :
      (Text → Option Text) → List (LogFile maps) → Registry maps → Registry maps
  unfolding file_map_addr
  map_files country [] g = g
  map_files country (f ∷ fs) g = map_files country fs (file_map_addr country f g)

  module _ {files : StrMap (LogFile maps)} where
    -- The log files in the order of a walk over `file_map`
    unfoldable pub log_files : LogType files → List (LogFile maps)
    log_files self = map (λ (e : Text × LogFile maps). e.1) (files.entries self.file_map)

    -- `LOGTYPE_map_addr`
    unfoldable pub type_map_addr :
        (Text → Option Text) → LogType files → Registry maps → Registry maps
    unfolding map_files log_files
    type_map_addr country self g = map_files country (log_files self) g

    -- `LOGTYPE_addressCount`: the map is empty at first, and emptied again.
    unfoldable pub type_address_count : (ℕ → OffEntry) → (Text → Option Text) → LogType files → ℕ
    unfolding type_map_addr
    type_address_count heap country self =
        length (maps.entries (type_map_addr country self (fresh_registry maps heap)).index)

  -- All the entries of the files
  unfoldable pub all_contents : List (LogFile maps) → List OffEntry
  all_contents [] = []
  all_contents (f ∷ fs) = contents f.off_entry ++ all_contents fs

  map_all-append :
      (country : Text → Option Text) (es ds : List OffEntry) (g : Registry maps)
      → map_all country (es ++ ds) g ≡ map_all country ds (map_all country es g)
  unfolding map_all
  map_all-append country [] ds g = refl
  map_all-append country (e ∷ es) ds g = map_all-append country es ds _

  map_files-map_all :
      (country : Text → Option Text) (fs : List (LogFile maps)) (g : Registry maps)
      → map_files country fs g ≡ map_all country (all_contents fs) g
  unfolding map_files file_map_addr all_contents map_all
  map_files-map_all country [] g = refl
  map_files-map_all country (f ∷ fs) g =
      map_files-map_all country fs (file_map_addr country f g)
      ∙ sym (map_all-append country (contents f.off_entry) (all_contents fs) g)

  -- LOGTYPE_map_addr leaves under each address of the map the merged entry of the address in all
  -- log files of the type.
  pub type_map_addr-lookup :
      {files : StrMap (LogFile maps)} (country : Text → Option Text) (self : LogType files)
      (g : Registry maps)
      → IsValid (length (all_contents (log_files self))) g
      → All (λ e. FitsField e.addr) (all_contents (log_files self))
      → (a : Text)
      → lookup (type_map_addr country self g) a
        ≡ merge_all country a (lookup g a) (all_contents (log_files self))
  unfolding type_map_addr
  type_map_addr-lookup country self g valid fits a =
      ap (λ h. lookup h a) (map_files-map_all country (log_files self) g)
      ∙ map_all-lookup country (all_contents (log_files self)) g valid fits a
