-- ===== src/Dirent/WinzipAes.antt =====
-- The WinZip AES field of an entry: `_zip_dirent_process_winzip_aes`, and the part of
-- `_zip_dirent_write` that makes it.
use allvm_tools.Flags.{ef_both}
use allvm_tools.ExtraField.{get_by_id, ef_winzip_aes}
use allvm_tools.Run.{Result, err, er_encrnotsupp, ok, er_incons, er_internal}
use allvm_tools.Dirent.{em_aes_128, em_aes_192, em_aes_256, cm_winzip_aes, Dirent}
use allvm_tools.Buffer.{Buffer, put_16, put, get_16, get, put_8, get_8}
use allvm_tools.Base.{
  Option, ◌||◌, if◌then◌else◌, [], true, ℕ, some, replicate, drop, Bool, same_bytes, ◌==◌, not, ◌∷◌,
  take, none, ltb, ◌^◌, false, ◌%◌, List,
}
use allvm_tools.Buffer

-- The version of a WinZip AES field: whether the CRC is valid, or `none` for an unknown version.
unfoldable pub aes_version : ℕ → ℕ → Option Bool
aes_version version uncomp_size =
    if version == 1
    then some true
    else if version == 2
    then some (not (ltb uncomp_size 20))
    else none

unfoldable pub aes_mode : ℕ → Option ℕ
aes_mode mode =
    if mode == 1
    then some em_aes_128
    else if mode == 2
    then some em_aes_192
    else if mode == 3
    then some em_aes_256
    else none

-- The bytes at which `_zip_buffer_get` points; `none` is NULL.
abbrev pub got : Option ℕ × Buffer → ℕ → List ℕ
got (none, b) n = []
got (some at, b) n = take n (drop at b.bytes)

-- `_zip_dirent_process_winzip_aes` on the field's buffer: `ef_len` is the length of the field.
unfoldable pub read_winzip_aes : Dirent → ℕ → Buffer → Result Dirent
unfolding aes_version aes_mode
read_winzip_aes de ef_len b =
    let (version, b₁) = get_16 b in
    let vendor = get b₁ 2 in
    let (mode, b₃) = get_8 vendor.1 in
    elim (aes_version version de.uncomp_size) [
      | none ↦ err er_encrnotsupp
      | some crc_valid ↦
          if not (same_bytes (got vendor 2) (65 ∷ 69 ∷ []))
          then err er_encrnotsupp
          else elim (aes_mode mode) [
            | none ↦ err er_encrnotsupp
            | some enc_method ↦
                if not (ef_len == 7)
                then err er_incons
                else ok (record de {
                  crc_valid = crc_valid;
                  encryption_method = enc_method;
                  comp_method = (get_16 b₃).0;
                })
          ]
    ]

-- `_zip_dirent_process_winzip_aes`; `room` says whether `malloc` in `_zip_buffer_new` succeeds.
unfoldable pub process_winzip_aes : Bool → Dirent → Result Dirent
process_winzip_aes room de =
    let field = get_by_id de.extra_fields ef_winzip_aes 0 ef_both in
    if not (de.comp_method == cm_winzip_aes) then ok de else elim field [
      | err e ↦ err er_incons
      | ok (ef_len, ef) ↦
          if ltb ef_len 7 then err er_incons else elim (Buffer.new none room (some ef) ef_len) [
            | none ↦ err er_internal
            | some b ↦ read_winzip_aes de ef_len b
          ]
    ]

-- `is_winzip_aes` of `_zip_dirent_write`
unfoldable pub is_winzip_aes : Dirent → Bool
is_winzip_aes de =
    de.encryption_method == em_aes_128
    || de.encryption_method == em_aes_192
    || de.encryption_method == em_aes_256

-- The bytes of the field that `_zip_dirent_write` makes, in its buffer; `none` is
-- ZIP_ER_INTERNAL.
unfoldable pub winzip_aes_data : Dirent → Option (List ℕ)
winzip_aes_data de =
    let scratch : Buffer = record {
      ok = true;
      free_data = false;
      bytes = replicate 7 0;
      size = 7;
      offset = 0;
    } in
    let b₁ = (put_16 scratch 2).1 in
    let b₂ = (put b₁ (65 ∷ 69 ∷ [])).1 in
    let b₃ = (put_8 b₂ (de.encryption_method % 2 ^ 8)).1 in
    let b₄ = (put_16 b₃ (de.comp_method % 2 ^ 16)).1 in if b₄.ok then some b₄.bytes else none
