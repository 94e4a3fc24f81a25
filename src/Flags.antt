-- ===== src/Flags.antt =====
-- `zip_flags_t` (libs/archive-rw/zip.h): the bits of a flag word that the modelled code tests.
use allvm_tools.Base.{true, ◌&&◌, Bool, false, ◌||◌}

pub record Flags : Type 0 where
  pub nocase : Bool
  pub nodir : Bool
  pub unchanged : Bool
  pub enc_raw : Bool
  pub enc_strict : Bool
  pub on_local : Bool
  pub central : Bool
  pub force_zip64 : Bool
  pub enc_utf_8 : Bool
  pub enc_cp437 : Bool
  pub overwrite : Bool

abbrev pub no_flags : Flags
no_flags = record {
  nocase = false;
  nodir = false;
  unchanged = false;
  enc_raw = false;
  enc_strict = false;
  on_local = false;
  central = false;
  force_zip64 = false;
  enc_utf_8 = false;
  enc_cp437 = false;
  overwrite = false;
}

-- `(a & b & ZIP_EF_BOTH) != 0`
abbrev pub shares : Flags → Flags → Bool
shares a b = (a.on_local && b.on_local) || (a.central && b.central)

-- ZIP_EF_LOCAL, ZIP_EF_CENTRAL, ZIP_EF_BOTH
abbrev pub ef_local : Flags
ef_local = record no_flags { on_local = true }

abbrev pub ef_central : Flags
ef_central = record no_flags { central = true }

abbrev pub ef_both : Flags
ef_both = record no_flags { on_local = true; central = true }
