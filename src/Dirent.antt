-- ===== src/Dirent.antt =====
-- libs/archive-rw/zip_dirent.c: the record of a directory entry, and the version that it needs of a
-- reader.
pub mod WinzipAes
pub mod Zip64
pub mod Sizes
pub mod Exact
pub mod Time
pub mod Aes
mod Examples
use allvm_tools.ExtraField.{ExtraField}
use allvm_tools.Flags.{no_flags, Flags}
use allvm_tools.Str.{Str}
use allvm_tools.Base.{
  not, Option, replicate, none, if◌then◌else◌, ltb, ◌&&◌, same_bytes, take, drop, get_or, ◌==◌,
  List, true, ◌∷◌, ℕ, [], ◌||◌, ◌*◌, leb, Bool, ◌-◌, some, false, ◌^◌, ◌+◌, ◌%◌,
}

-- `struct zip_dirent`; NULL is `none`, or `[]` for the extra fields. The compression method is the
-- 32-bit word of the signed number.
pub record Dirent : Type 0 where
  pub changed : ℕ
  pub local_extra_fields_read : Bool
  pub cloned : Bool
  pub crc_valid : Bool
  pub version_madeby : ℕ
  pub version_needed : ℕ
  pub bitflags : ℕ
  pub comp_method : ℕ
  pub last_mod : ℕ
  pub crc : ℕ
  pub comp_size : ℕ
  pub uncomp_size : ℕ
  pub filename : Option Str
  pub extra_fields : List ExtraField
  pub comment : Option Str
  pub disk_number : ℕ
  pub int_attrib : ℕ
  pub ext_attrib : ℕ
  pub offset : ℕ
  pub compression_level : ℕ
  pub encryption_method : ℕ
  pub password : Option (List ℕ)

-- ZIP_UINT32_MAX; ZIP_CM_*; ZIP_EM_*
abbrev pub u32_max : ℕ
u32_max = 2 ^ 32 - 1

abbrev pub cm_default : ℕ
cm_default = 2 ^ 32 - 1

abbrev pub cm_deflate : ℕ
cm_deflate = 8

abbrev pub cm_bzip2 : ℕ
cm_bzip2 = 12

abbrev pub cm_lzma : ℕ
cm_lzma = 14

abbrev pub cm_winzip_aes : ℕ
cm_winzip_aes = 99

abbrev pub em_none : ℕ
em_none = 0

abbrev pub em_trad_pkware : ℕ
em_trad_pkware = 1

abbrev pub em_aes_128 : ℕ
em_aes_128 = 0x0101

abbrev pub em_aes_192 : ℕ
em_aes_192 = 0x0102

abbrev pub em_aes_256 : ℕ
em_aes_256 = 0x0103

-- `_zip_dirent_init`. ZIP_OPSYS_DEFAULT is 3, and the attributes are 0100666 shifted by 16.
unfoldable pub init : Dirent
init = record {
  changed = 0;
  local_extra_fields_read = false;
  cloned = false;
  crc_valid = true;
  version_madeby = 63 + 3 * 2 ^ 8;
  version_needed = 10;
  bitflags = 0;
  comp_method = cm_default;
  last_mod = 0;
  crc = 0;
  comp_size = 0;
  uncomp_size = 0;
  filename = none;
  extra_fields = [];
  comment = none;
  disk_number = 0;
  int_attrib = 0;
  ext_attrib = 0x81b6 * 2 ^ 16;
  offset = 0;
  compression_level = 0;
  encryption_method = em_none;
  password = none;
}

-- `_zip_dirent_new` and `_zip_dirent_clone`; `room` says whether `malloc` succeeds.
unfoldable pub new : Bool → Option Dirent
new room = if room then some init else none

unfoldable pub clone : Bool → Option Dirent → Option Dirent
clone room sde =
    let tde : Dirent = elim sde [ none ↦ init | some de ↦ de ] in
    if room then some (record tde { changed = 0; cloned = true }) else none

-- `_zip_dirent_needs_zip64`
unfoldable pub needs_zip64 : Dirent → Flags → Bool
needs_zip64 de flags =
    leb u32_max de.uncomp_size
    || leb u32_max de.comp_size
    || (flags.central && leb u32_max de.offset)

-- Whether the name ends in a slash.
unfoldable pub is_directory : Option Str → Bool
is_directory none = false
is_directory (some s) = ltb 0 s.length && get_or s.raw (s.length - 1) 0 == 47

-- `_zip_dirent_set_version_needed`
unfoldable pub set_version_needed : Dirent → Bool → Dirent
unfolding needs_zip64 is_directory
set_version_needed de force_zip64 =
    let needs : ℕ → Dirent = λ v. record de { version_needed = v } in
    if de.comp_method == cm_lzma
    then needs 63
    else if de.comp_method == cm_bzip2
    then needs 46
    else if force_zip64 || needs_zip64 de no_flags
    then needs 45
    else if de.comp_method == cm_deflate || de.encryption_method == em_trad_pkware
    then needs 20
    else if is_directory de.filename
    then needs 20
    else needs 10
