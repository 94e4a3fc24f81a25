-- ===== src/Dirent/Zip64.antt =====
-- The ZIP64 field of an entry: the parts of `_zip_dirent_write` that store sizes and the offset, and the
-- part of `_zip_dirent_read` that reads them.
use allvm_tools.ExtraField.{new, get_by_id, ef_zip64}
use allvm_tools.Run.{
  Result, ok, err, er_incons, er_memory, Run, malloc, ◌>>◌, throw, er_internal, ◌>>=◌, return,
}
use allvm_tools.Flags.{Flags, ef_local, ef_central, ef_both}
use allvm_tools.Buffer.{Buffer, get_64, put_64, current_offset, skip, get_32, eof}
use allvm_tools.Dirent.{Dirent, u32_max, needs_zip64, ExtraField}
use allvm_tools.Base.{
  true, not, Option, ◌==◌, ◌^◌, ◌-◌, if◌then◌else◌, none, take, ℕ, leb, ◌&&◌, List, ltb, false,
  ◌||◌, replicate, some, Bool, ◌∷◌, length,
}
use allvm_tools.Buffer

abbrev pub exceeds : ℕ → Bool
exceeds v = ltb u32_max v

-- `_zip_buffer_put_64` if the value does not fit in its 32-bit word.
abbrev put_large : Buffer → ℕ → Buffer
put_large b v = if leb u32_max v then (put_64 b v).1 else b

-- The bytes of the ZIP64 field that `_zip_dirent_write`, behind its test for ZIP64, makes in its buffer
-- of EFZIP64SIZE bytes; `none` is ZIP_ER_INTERNAL.
unfoldable pub zip64_data : Dirent → Flags → Option (List ℕ)
zip64_data de flags =
    let b : Buffer = record {
      ok = true;
      free_data = false;
      bytes = replicate 28 0;
      size = 28;
      offset = 0;
    } in
    let sizes = flags.force_zip64 || exceeds de.comp_size || exceeds de.uncomp_size in
    let filled : Buffer =
      if flags.on_local
      then (if sizes then (put_64 (put_64 b de.uncomp_size).1 de.comp_size).1 else b)
      else if sizes || exceeds de.offset
      then put_large (put_large (put_large b de.uncomp_size) de.comp_size) de.offset
      else b in
    if filled.ok then some (take (current_offset filled) filled.bytes) else none

-- `is_zip64`
unfoldable pub wants_zip64 : Dirent → Flags → Bool
unfolding needs_zip64
wants_zip64 de flags = (flags.on_local && flags.force_zip64) || needs_zip64 de flags

-- The part of `_zip_dirent_write` that makes the ZIP64 field, which goes before the other ones. Where
-- `_zip_ef_new` fails, whose result the source does not test, this has its error.
unfoldable pub add_zip64 : Dirent → Flags → List ExtraField → Run (List ExtraField)
unfolding wants_zip64 zip64_data
add_zip64 de flags rest mem =
    let made = malloc >> elim (zip64_data de flags) as (λ _. Run (List ExtraField)) [
      | none ↦ throw er_internal
      | some bytes ↦ new ef_zip64 (length bytes) bytes ef_both >>= λ ef64. return (ef64 ∷ rest)
    ] in
    if wants_zip64 de flags then made mem else ok (rest, mem)

-- The 32-bit word that a header has for a value.
unfoldable pub word : ℕ → ℕ
word v = if ltb v u32_max then v else u32_max

-- The words for the compressed and the uncompressed size.
unfoldable pub size_words : Dirent → Flags → ℕ × ℕ
size_words de flags =
    if flags.on_local && (leb u32_max de.comp_size || leb u32_max de.uncomp_size)
    then (u32_max, u32_max)
    else (word de.comp_size, word de.uncomp_size)

-- A value of the field, if the header's word says that it is there.
unfoldable pub large : Bool → ℕ → Buffer → ℕ × Buffer
large there v b = if there then get_64 b else (v, b)

-- The part of `_zip_dirent_read` that reads the ZIP64 field's buffer.
unfoldable pub read_zip64 : Bool → Dirent → Buffer → Result Dirent
read_zip64 on_local de b =
    let (uncomp, b₁) =
      if de.uncomp_size == u32_max
      then get_64 b
      else (de.uncomp_size, if on_local then (skip b 8).1 else b) in
    let (comp, b₂) = large (de.comp_size == u32_max) de.comp_size b₁ in
    let (offset, b₃) = large (not on_local && de.offset == u32_max) de.offset b₂ in
    let (disk, b₄) : ℕ × Buffer =
      if not on_local && de.disk_number == 2 ^ 16 - 1 then get_32 b₃ else (de.disk_number, b₃) in
    if eof b₄
    then ok
        (record de { uncomp_size = uncomp; comp_size = comp; offset = offset; disk_number = disk })
    else err er_incons

-- The part of `_zip_dirent_read` from the test for ZIP64 on; `room` is `malloc` in `_zip_buffer_new`.
unfoldable pub process_zip64 : Bool → Bool → Dirent → Result Dirent
process_zip64 room on_local de =
    let wanted = de.uncomp_size == u32_max || de.comp_size == u32_max || de.offset == u32_max in
    if not wanted
    then ok de
    else elim (get_by_id de.extra_fields ef_zip64 0 (if on_local then ef_local else ef_central)) [
      | err e ↦ err e
      | ok (got_len, ef) ↦ elim (Buffer.new none room (some ef) got_len) [
        | none ↦ err er_memory
        | some b ↦ read_zip64 on_local de b
      ]
    ]
