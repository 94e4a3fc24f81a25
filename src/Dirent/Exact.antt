-- ===== src/Dirent/Exact.antt =====
-- An entry whose size is exactly 0xffffffff.
use allvm_tools.Dirent.Zip64.{
  exceeds, read_zip64, large, process_zip64, size_words, word, zip64_data,
}
use allvm_tools.Dirent.Sizes.{central_header}
use allvm_tools.Flags.{ef_central}
use allvm_tools.Run.{err, er_incons}
use allvm_tools.ExtraField.{get_by_id, get_from, ExtraField}
use allvm_tools.Buffer.{get_64, get, eof, current_offset}
use allvm_tools.Dirent.{needs_zip64, Dirent, u32_max}
use allvm_tools.Base.{arith, ◌<◌, ◌-◌, refl, ◌≡◌, ◌==◌, true, some, List, false, ◌^◌, []}
use allvm_tools.Buffer

read_zip64-empty :
    (disk : Dirent)
    → (disk.uncomp_size == u32_max) ≡ true
    → (disk.comp_size == u32_max) ≡ false
    → (disk.offset == u32_max) ≡ false
    → (disk.disk_number == 2 ^ 16 - 1) ≡ false
    → read_zip64 false disk
        (record { ok = true; free_data = false; bytes = []; size = 0; offset = 0 })
      ≡ err er_incons
unfolding read_zip64 large get_64 get eof
read_zip64-empty disk p q r s = rw (p, q, r, s)

-- For an uncompressed size of exactly 0xffffffff, with the other values below it, `_zip_dirent_write`
-- takes a ZIP64 field to be needed but makes it empty, and `_zip_dirent_read` refuses the central header
-- with it as inconsistent.
pub process_zip64-exact :
    (de on_disk : Dirent) (rest : List ExtraField)
    → de.uncomp_size ≡ u32_max
    → de.comp_size < u32_max
    → de.offset < u32_max
    → on_disk.disk_number < 2 ^ 16 - 1
    → (needs_zip64 de ef_central ≡ true)
      × (zip64_data de ef_central ≡ some [])
      × (process_zip64 true false (central_header de on_disk [] rest) ≡ err er_incons)
unfolding zip64_data needs_zip64 process_zip64 get_by_id get_from Buffer.new size_words
    current_offset
process_zip64-exact de on_disk rest exact c o few =
    let u : (word de.uncomp_size == u32_max) ≡ true = rw exact (unfold word in refl) in
    let c' : (word de.comp_size == u32_max) ≡ false = unfold word in ground arith in
    let o' : (word de.offset == u32_max) ≡ false = unfold word in ground arith in
    let cx : exceeds de.comp_size ≡ false = ground arith in
    let ox : exceeds de.offset ≡ false = ground arith in
    (
      rw exact,
      rw (cx, ox, exact),
      rw u (read_zip64-empty (central_header de on_disk [] rest) u c' o' (ground arith)),
    )
