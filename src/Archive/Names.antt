-- ===== src/Archive/Names.antt =====
-- zip_add_entry.c, zip_entry.c and zip_unchange_data.c (libs/archive-rw), and the strings that names and
-- comments are made of.
use allvm_tools.Run.{er_ok}
use allvm_tools.Utf8.{guess_encoding, enc_unknown, same_encoding, enc_utf8_guessed, enc_utf8_known}
use allvm_tools.Archive.{
  has_bit, Flags, clear_bit, Str, Outcome, entry_at, set_entry, Result, comp_method_bit, nentry, ok,
  err, er_memory, Room, entry_init, Archive,
}
use allvm_tools.Str.{string_new}
use allvm_tools.Dirent.{Dirent}
use allvm_tools.Base.{
  ℕ, List, false, length, ◌==◌, [], ◌++◌, some, ◌||◌, ◌∷◌, ltb, ◌%◌, ◌*◌, Option, ◌^◌, leb, ◌+◌,
  none, ◌-◌, ◌&&◌, if◌then◌else◌,
}

-- `_zip_add_entry`. The source's test for an overflow compares the sizes, which are below 2^64.
unfoldable pub add_entry : Room → Archive → Outcome ℕ
unfolding entry_init
add_entry room za =
    let additional =
      let twice = 2 * za.nentry_alloc in
      if ltb twice 16 then 16 else if ltb 1024 twice then 1024 else twice in
    let appended : ℕ → Outcome ℕ = λ alloc.
      (ok (nentry za), record za { entry = za.entry ++ (entry_init ∷ []); nentry_alloc = alloc }) in
    if leb za.nentry_alloc (nentry za + 1)
    then (if room.entries then appended (za.nentry_alloc + additional) else (err er_memory, za))
    else appended za.nentry_alloc

-- Assignments to the changes of an entry that drop a bit of `changed`, and the changes with the last.
abbrev pub drop_bit : Dirent → ℕ → Option Dirent
drop_bit de k =
    let w = clear_bit de.changed k in if w == 0 then none else some (record de { changed = w })

-- ZIP_CM_REPLACED_DEFAULT as a 32-bit word.
abbrev pub cm_replaced_default : ℕ
cm_replaced_default = 2 ^ 32 - 2

unfoldable pub unreplaced : Option Dirent → Option Dirent
unfolding has_bit clear_bit
unreplaced none = none
unreplaced (some de) =
    if has_bit de.changed comp_method_bit && de.comp_method == cm_replaced_default
    then drop_bit de comp_method_bit
    else some de

-- `zip_source_free` of what is not NULL.
abbrev pub source_free : Option ℕ → Archive → Archive
source_free none za = za
source_free (some src) za = record za { released = src ∷ za.released }

-- `_zip_unchange_data` on an entry of the archive.
unfoldable pub unchange_data : Archive → ℕ → Archive
unfolding unreplaced
unchange_data za idx =
    let e = entry_at za idx in
    source_free e.source (
      set_entry za idx
        (record e { changes = unreplaced e.changes; source = none; deleted = false }))

-- A string made of given bytes, as `_zip_set_name` and `zip_file_set_comment` do it: a guessed UTF-8
-- is then taken for known.
unfoldable pub make_string : Room → List ℕ → ℕ → Flags → Result (Option Str)
unfolding string_new guess_encoding
make_string room given n flags =
    let (code, made) = string_new room.string room.raw given n flags in
    elim made [
      | none ↦ err (elim code [ none ↦ er_ok | some e ↦ e ])
      | some s ↦
          let (guess, left) = guess_encoding s.raw s.encoding enc_unknown in
          ok (
            some (
              if flags.enc_utf_8 || flags.enc_cp437 then s else record s {
                encoding = if same_encoding guess enc_utf8_guessed then enc_utf8_known else left;
              }))
    ]

-- The start of `_zip_set_name`: the new string, `none` for NULL. `strlen` goes through a
-- `zip_uint16_t`.
unfoldable pub make_name : Room → Option (List ℕ) → Flags → Result (Option Str)
unfolding make_string
make_name room none flags = ok none
make_name room (some []) flags = ok none
make_name room (some (c ∷ cs)) flags = make_string room (c ∷ cs) (length (c ∷ cs) % 2 ^ 16) flags
