-- ===== src/Dirent/Aes.antt =====
-- The WinZip AES field, written and read back.
use allvm_tools.Buffer.{Buffer}
use allvm_tools.Run.{ok}
use allvm_tools.ExtraField.{ExtraField}
use allvm_tools.Flags.{Flags}
use allvm_tools.Dirent.{Dirent}
use allvm_tools.Base.{◌/◌, [], ◌%◌, false, ℕ, List, ◌^◌, true, ◌∷◌}
use allvm_tools.Buffer

abbrev aes_bytes : Dirent → List ℕ
aes_bytes de =
    let cm = de.comp_method % 2 ^ 16 in
    2 ∷ 0 ∷ 65 ∷ 69 ∷ de.encryption_method % 2 ^ 8 ∷ cm % 2 ^ 8 ∷ cm / 2 ^ 8 % 2 ^ 8 ∷ []

-- The buffer that reads the field.
abbrev field_buffer : List ℕ → Buffer
field_buffer bytes = record { ok = true; free_data = false; bytes = bytes; size = 7; offset = 0 }
