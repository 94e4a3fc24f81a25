-- ===== src/ZipArchive.antt =====
-- libs/archive-rw/ZipArchive.cpp, the archive as the rest of ALLVM sees it, on top of the archive
-- library.
mod Listing
pub mod Allexe
mod Examples
use allvm_tools.Archive.Naming.{file_rename}
use allvm_tools.Archive.Replacing.{file_replace, file_add}
use allvm_tools.Run.{Result, ok, err}
use allvm_tools.Flags.{Flags, no_flags}
use allvm_tools.Archive.Settings.{archive_set_prefixdata}
use allvm_tools.Archive.{get_num_entries, Room, Archive}
use allvm_tools.Archive.Stat.{stat_index, Stat}
use allvm_tools.Base.{
  ℕ, true, ◌++◌, suc, same_bytes, ◌+◌, none, ◌∷◌, if◌then◌else◌, zero, some, [], false, List, Bool,
  Option, not,
}

-- `class ZipArchive`
pub record ZipArchive : Type 0 where
  pub archive : Archive
  pub files : List (List ℕ)
  pub write_buffers : List (List ℕ)

-- ZIP_FL_ENC_UTF_8
abbrev pub utf_8 : Flags
utf_8 = record no_flags { enc_utf_8 = true }

-- What the surroundings give an operation: memory, `zip_source_stat`, and what memory holds that is
-- read without having been set: a `statinfo` that zip_stat_index left alone, and the byte in front of an
-- empty name.
pub record Surroundings : Type 0 where
  pub room : Room
  pub source_stat : ℕ → Option Stat
  pub statinfo : Stat
  pub before : ℕ

-- `zip_stat_index` with the result that its caller does not look at.
unfoldable pub stat_info : Surroundings → Archive → ℕ → Stat × Archive
unfolding stat_index
stat_info env za index =
    let (r, za') = stat_index env.source_stat env.room za index no_flags env.statinfo.flags in
    elim r [ ok st ↦ (st, za') | err c ↦ (env.statinfo, za') ]

-- The loop of `ZipArchive::open`, for the `n` entries from `i` on. A name of NULL, which a `std::string`
-- cannot be made of, is taken for an empty one.
unfoldable pub list_from : Surroundings → ℕ → ℕ → Archive → List (List ℕ) × Archive
unfolding stat_info
list_from env zero i za = ([], za)
list_from env (suc n) i za =
    let (st, za') = stat_info env za i in
    let (rest, za'') = list_from env n (i + 1) za' in
    (elim st.name as (λ _. List ℕ) [ none ↦ [] | some name ↦ name ] ∷ rest, za'')

-- `ZipArchive::open`, given what `zip_open` returned; `none` is NULL, and the error that comes of it.
unfoldable pub open_archive : Surroundings → Option Archive → Option ZipArchive
unfolding list_from get_num_entries
open_archive env none = none
open_archive env (some za) =
    let (files, za') = list_from env (get_num_entries za no_flags) 0 za in
    some (record { archive = za'; files = files; write_buffers = [] })

-- The search of `ZipArchive::getEntry` for a name; `none` ends in nullptr.
unfoldable pub find_file : List (List ℕ) → List ℕ → ℕ → Option ℕ
find_file [] name i = none
find_file (f ∷ fs) name i =
    let rest = find_file fs name (i + 1) in if same_bytes f name then some i else rest

-- `ZipArchive::getEntryCRC` and `ZipArchive::getEntryUncompressedSize`
unfoldable pub get_entry_crc : Surroundings → ZipArchive → ℕ → ℕ
unfolding stat_info
get_entry_crc env z index = (stat_info env z.archive index).0.crc

unfoldable pub get_entry_uncompressed_size : Surroundings → ZipArchive → ℕ → ℕ
unfolding stat_info
get_entry_uncompressed_size env z index = (stat_info env z.archive index).0.size

abbrev pub is_ok {ℓ} : {A : Type ℓ} → Result A → Bool
is_ok (ok a) = true
is_ok (err c) = false

-- The calls of `ZipArchive::writeBufferToEntry` on the archive, for an entry that there is. In C++ the
-- result 0 of `zip_file_rename`, its success, is the truth value false.
unfoldable pub write_existing : Surroundings → Archive → ℕ → ℕ → List ℕ → Bool × Archive
unfolding file_replace file_rename
write_existing env za idx src [] =
    let (r, za') = file_replace env.room za idx (some src) utf_8 in (is_ok r, za')
write_existing env za idx src (c ∷ cs) =
    let (r, za') = file_replace env.room za idx (some src) utf_8 in
    let (r', za'') = file_rename env.room env.before env.before za' idx (some (c ∷ cs)) utf_8 in
    if is_ok r then (not (is_ok r'), za'') else (false, za')

-- `ZipArchive::writeBufferToEntry`: `made` is what `zip_source_buffer` gives, an index of `none` is
-- ZIP_INDEX_LAST, and a name is what its first NUL ends.
unfoldable pub write_buffer_to_entry :
    Surroundings → Option ℕ → ZipArchive → Option ℕ → List ℕ → List ℕ → Bool × ZipArchive
unfolding file_add write_existing
write_buffer_to_entry env none z idx buf name = (false, z)
write_buffer_to_entry env (some src) z none buf name =
    let (r, za) = file_add env.room z.archive (some name) (some src) utf_8 in
    (is_ok r, record z { archive = za; write_buffers = z.write_buffers ++ (buf ∷ []) })
write_buffer_to_entry env (some src) z (some idx) buf name =
    let (r, za) = write_existing env z.archive idx src name in
    (r, record z { archive = za; write_buffers = z.write_buffers ++ (buf ∷ []) })

-- `ZipArchive::updateEntry` and `ZipArchive::addEntry`
unfoldable pub update_entry :
    Surroundings → Option ℕ → ZipArchive → ℕ → List ℕ → List ℕ → Bool × ZipArchive
unfolding write_buffer_to_entry
update_entry env made z idx buf name = write_buffer_to_entry env made z (some idx) buf name

unfoldable pub add_entry :
    Surroundings → Option ℕ → ZipArchive → List ℕ → List ℕ → Bool × ZipArchive
unfolding write_buffer_to_entry
add_entry env made z buf name =
    write_buffer_to_entry env made (record z { files = z.files ++ (name ∷ []) }) none buf name

-- `ZipArchive::setPrefixStr`
unfoldable pub set_prefix_str : Surroundings → ZipArchive → List ℕ → Bool × ZipArchive
unfolding archive_set_prefixdata
set_prefix_str env z prefix =
    let (r, za) = archive_set_prefixdata env.room z.archive (some prefix) in
    (is_ok r, record z { archive = za })
