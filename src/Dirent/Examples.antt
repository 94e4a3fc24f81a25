-- ===== src/Dirent/Examples.antt =====
-- The theorems on directory entries at concrete inputs, and tests.
use allvm_tools.Dirent.Time.{u2d_time, d2u_time, u2d_time-d2u_time}
use allvm_tools.Dirent.Exact.{process_zip64-exact}
use allvm_tools.Dirent.Sizes.{central_header, process_zip64-add_zip64, header_with}
use allvm_tools.Dirent.Zip64.{zip64_data, process_zip64, add_zip64}
use allvm_tools.Run.{ok, err, er_incons}
use allvm_tools.Flags.{ef_central}
use allvm_tools.ExtraField.{ExtraField}
use allvm_tools.Dirent.{Dirent, em_aes_256, needs_zip64}
use allvm_tools.Base.{List, ◌-◌, ◌^◌, true, arith, refl, false, some, none, ◌≡◌, [], ℕ}

-- An entry for AES-256 over deflate.
abbrev secret : Dirent
secret = record {
  changed = 0;
  local_extra_fields_read = false;
  cloned = false;
  crc_valid = true;
  version_madeby = 0;
  version_needed = 10;
  bitflags = 0;
  comp_method = 8;
  last_mod = 0;
  crc = 0;
  comp_size = 40;
  uncomp_size = 50;
  filename = none;
  extra_fields = [];
  comment = none;
  disk_number = 0;
  int_attrib = 0;
  ext_attrib = 0;
  offset = 0;
  compression_level = 0;
  encryption_method = em_aes_256;
  password = none;
}

-- An entry of more than four gigabytes, far into the archive.
abbrev huge : Dirent
huge = record secret { uncomp_size = 5000000000; comp_size = 70000; offset = 6000000000 }

process_zip64-add_zip64_example :
    (fields : List ExtraField) × (mem' : ℕ) × (add_zip64 huge ef_central [] 3 ≡ ok (fields, mem'))
    × (let disk = header_with huge secret fields in
        process_zip64 true false disk
        ≡ ok (record disk { uncomp_size = 5000000000; comp_size = 70000; offset = 6000000000 }))
process_zip64-add_zip64_example =
    process_zip64-add_zip64 huge secret [] 3 (omega arith) (omega arith, omega arith, omega arith)
      (omega arith) (omega arith) (omega arith) (omega arith)

abbrev exact : Dirent
exact = record secret { uncomp_size = 2 ^ 32 - 1 }

process_zip64-exact_example :
    (needs_zip64 exact ef_central ≡ true)
    × (zip64_data exact ef_central ≡ some [])
    × (process_zip64 true false (central_header exact secret [] []) ≡ err er_incons)
process_zip64-exact_example =
    process_zip64-exact exact secret [] refl (omega arith) (omega arith) (omega arith)

-- A C library for which times are calendar dates.
u2d_time-d2u_time_example :
    u2d_time (λ tm. tm) (λ tm. tm) (d2u_time (λ tm. tm) (λ tm. tm) 0x6c32 0x4a21) ≡ (0x6c32, 0x4a21)
u2d_time-d2u_time_example =
    u2d_time-d2u_time (λ tm. tm) (λ tm. tm) 0x6c32 0x4a21 (omega arith) (omega arith) refl
