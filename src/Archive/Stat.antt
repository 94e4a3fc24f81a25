-- ===== src/Archive/Stat.antt =====
-- zip_stat_index.c, zip_stat.c and zip_stat_init.c of libs/archive-rw.
use allvm_tools.Run.{er_changed}
use allvm_tools.Dirent.{Dirent, em_none}
use allvm_tools.Archive.{
  get_dirent, get_name, Room, Archive, Flags, Outcome, err, ok, entry_at, name_locate,
}
use allvm_tools.Base.{
  ℕ, true, ◌-◌, none, ◌||◌, if◌then◌else◌, ◌%◌, some, false, ◌^◌, List, Bool, Option,
}

-- `struct zip_stat`; the bits of `valid` are its fields ending in `_set`, a name of `none` is NULL.
pub record Stat : Type 0 where
  pub name : Option (List ℕ)
  pub index : ℕ
  pub size : ℕ
  pub comp_size : ℕ
  pub mtime : ℕ
  pub crc : ℕ
  pub comp_method : ℕ
  pub encryption_method : ℕ
  pub flags : ℕ
  pub name_set : Bool
  pub index_set : Bool
  pub size_set : Bool
  pub comp_size_set : Bool
  pub mtime_set : Bool
  pub crc_set : Bool
  pub comp_method_set : Bool
  pub encryption_method_set : Bool
  pub flags_set : Bool

-- `zip_stat_init`; the flags keep what the memory held, and -1 is the 64-bit word.
unfoldable pub stat_init : ℕ → Stat
stat_init junk = record {
  name = none;
  index = 2 ^ 64 - 1;
  size = 0;
  comp_size = 0;
  mtime = 2 ^ 64 - 1;
  crc = 0;
  comp_method = 0;
  encryption_method = em_none;
  flags = junk;
  name_set = false;
  index_set = false;
  size_set = false;
  comp_size_set = false;
  mtime_set = false;
  crc_set = false;
  comp_method_set = false;
  encryption_method_set = false;
  flags_set = false;
}

-- `_zip_stat_merge`
unfoldable pub stat_merge : Stat → Stat → Stat
stat_merge dst src = record {
  name = dst.name;
  index = if src.index_set then src.index else dst.index;
  size = if src.size_set then src.size else dst.size;
  comp_size = if src.comp_size_set then src.comp_size else dst.comp_size;
  mtime = if src.mtime_set then src.mtime else dst.mtime;
  crc = if src.crc_set then src.crc else dst.crc;
  comp_method = if src.comp_method_set then src.comp_method else dst.comp_method;
  encryption_method =
      if src.encryption_method_set then src.encryption_method else dst.encryption_method;
  flags = if src.flags_set then src.flags else dst.flags;
  name_set = dst.name_set || src.name_set;
  index_set = dst.index_set || src.index_set;
  size_set = dst.size_set || src.size_set;
  comp_size_set = dst.comp_size_set || src.comp_size_set;
  mtime_set = dst.mtime_set || src.mtime_set;
  crc_set = dst.crc_set || src.crc_set;
  comp_method_set = dst.comp_method_set || src.comp_method_set;
  encryption_method_set = dst.encryption_method_set || src.encryption_method_set;
  flags_set = dst.flags_set || src.flags_set;
}

-- The fields that an entry without a new source has from its directory entry.
unfoldable pub stat_dirent : Dirent → ℕ → Stat
unfolding stat_init
stat_dirent de junk = record (stat_init junk) {
  crc = de.crc;
  size = de.uncomp_size;
  mtime = de.last_mod;
  comp_size = de.comp_size;
  comp_method = de.comp_method % 2 ^ 16;
  encryption_method = de.encryption_method;
  size_set = true;
  comp_size_set = true;
  mtime_set = true;
  crc_set = de.crc_valid;
  comp_method_set = true;
  encryption_method_set = true;
}

module _ (source_stat : ℕ → Option Stat) where
  -- `zip_stat_index`. `source_stat` is `zip_source_stat`; `junk` is what the caller's memory holds.
  unfoldable pub stat_index : Room → Archive → ℕ → Flags → ℕ → Outcome Stat
  unfolding get_dirent get_name stat_dirent
  stat_index room za index flags junk = elim (get_dirent za index flags) [
    | err c ↦ (err c, za)
    | ok (original, de) ↦
        let (r, za') = get_name room za index flags in
        let named : List ℕ → Stat → Outcome Stat = λ name st. (
          ok (record st { index = index; name = some name; index_set = true; name_set = true }),
          za',
        ) in
        elim r [
          | err c ↦ (err c, za')
          | ok name ↦
              let unchanged = named name (stat_dirent de junk) in
              if flags.unchanged then unchanged else elim (entry_at za index).source [
                | none ↦ unchanged
                | some src ↦ elim (source_stat src) [
                  | none ↦ (err er_changed, za')
                  | some st ↦ named name st
                ]
              ]
        ]
  ]

  -- `zip_stat`
  unfoldable pub stat : Room → Archive → Option (List ℕ) → Flags → ℕ → Outcome Stat
  unfolding name_locate stat_index
  stat room za fname flags junk =
      let (found, za') = name_locate room za fname flags in
      elim found [ err c ↦ (err c, za') | ok idx ↦ stat_index room za' idx flags junk ]
