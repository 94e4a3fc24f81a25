-- ===== src/Archive/Attributes.antt =====
-- What the directory entries of an archive say beside names and data: zip_file_set_mtime.c,
-- zip_file_set_comment.c, zip_file_get_comment.c, zip_set_file_compression.c,
-- zip_file_set_external_attributes.c and zip_file_get_external_attributes.c (libs/archive-rw).
use allvm_tools.Run.{er_compnotsupp, er_rdonly}
use allvm_tools.Flags.{no_flags}
use allvm_tools.Archive.Names.{make_string}
use allvm_tools.Str.{equal, string_get}
use allvm_tools.Archive.{
  Room, Outcome, Flags, clear_bit, nentry, Str, attributes_bit, last_mod_bit, err, ok, Result,
  er_inval, er_memory, comment_bit, comp_method_bit, set_entry, entry_at, Archive, get_dirent,
  set_bit, Entry,
}
use allvm_tools.Dirent.{Dirent, clone, cm_default}
use allvm_tools.Base.{
  ℕ, List, ◌&&◌, if◌then◌else◌, Bool, leb, ◌/◌, some, ltb, none, ◌==◌, Option, ◌*◌, not, ◌||◌, ◌^◌,
  ◌%◌, zero, ◌+◌, suc,
}

-- What every one of the functions on entries does with the changes: a new value is stored in them,
-- `none` for a clone that fails; a value that is the original one makes them lose the bit.
abbrev pub store_change : Bool → Entry → ℕ → (Dirent → Dirent) → Option Entry
store_change room e k f =
    let stored = λ (de : Dirent).
      some (record e {
        changes = let d = f de in some (record d { changed = set_bit d.changed k });
      }) in
    elim e.changes [
      | some de ↦ stored de
      | none ↦ elim (clone room e.orig) [ none ↦ none | some de ↦ stored de ]
    ]

abbrev pub forget_change : Entry → ℕ → (Dirent → Dirent) → Entry
forget_change e k f = record e {
  changes = elim e.changes [
    | none ↦ none
    | some de ↦
        let w = clear_bit de.changed k in
        if w == 0 then none else some (f (record de { changed = w }))
  ];
}

abbrev pub put_entry : Archive → ℕ → Option Entry → Outcome (Unit {0})
put_entry za idx none = (err er_memory, za)
put_entry za idx (some e) = (ok tt, set_entry za idx e)

-- `zip_file_set_mtime`
unfoldable pub set_mtime_entry : Bool → Entry → ℕ → Option Entry
unfolding set_bit clear_bit clone
set_mtime_entry room e mtime =
    let stored = store_change room e last_mod_bit (λ de. record de { last_mod = mtime }) in
    elim e.orig [
      | none ↦ stored
      | some o ↦
          if o.last_mod == mtime then some (forget_change e last_mod_bit (λ de. de)) else stored
    ]

unfoldable pub file_set_mtime : Room → Archive → ℕ → ℕ → Outcome (Unit {0})
unfolding get_dirent set_mtime_entry
file_set_mtime room za idx mtime = elim (get_dirent za idx no_flags) [
  | err c ↦ (err c, za)
  | ok de ↦
      if za.ch_flags
      then (err er_rdonly, za)
      else put_entry za idx (set_mtime_entry room.clone (entry_at za idx) mtime)
]

-- `zip_set_file_compression`; `supported` is `zip_compression_method_supported` for writing.
unfoldable pub set_compression_entry : Bool → Entry → ℕ → ℕ → Option Entry
unfolding set_bit clear_bit clone
set_compression_entry room e method level =
    let old_method = elim e.orig as (λ _. ℕ) [ none ↦ cm_default | some o ↦ o.comp_method ] in
    if method == old_method
    then some (forget_change e comp_method_bit (λ de. record de { compression_level = 0 }))
    else store_change room e comp_method_bit
        (λ de. record de { comp_method = method; compression_level = level })

unfoldable pub set_file_compression : (ℕ → Bool) → Room → Archive → ℕ → ℕ → ℕ → Outcome (Unit {0})
unfolding set_compression_entry
set_file_compression supported room za idx method level =
    if leb (nentry za) idx || ltb 9 level
    then (err er_inval, za)
    else if za.ch_flags
    then (err er_rdonly, za)
    else if not (supported method)
    then (err er_compnotsupp, za)
    else put_entry za idx (set_compression_entry room.clone (entry_at za idx) method level)

-- `zip_file_set_external_attributes`. ZIP_OPSYS_DEFAULT is 3, and ZIP_EXT_ATTRIB_DEFAULT is 0100666
-- shifted by 16.
abbrev with_attributes : ℕ → ℕ → Dirent → Dirent
with_attributes opsys attributes de = record de {
  version_madeby = opsys * 2 ^ 8 + de.version_madeby % 2 ^ 8;
  ext_attrib = attributes;
}

unfoldable pub set_attributes_entry : Bool → Entry → ℕ → ℕ → Option Entry
unfolding set_bit clear_bit clone
set_attributes_entry room e opsys attributes =
    let old_opsys = elim e.orig as (λ _. ℕ) [
      | none ↦ 3
      | some o ↦ o.version_madeby / 2 ^ 8 % 2 ^ 8
    ] in
    let old_attributes = elim e.orig as (λ _. ℕ) [
      | none ↦ 0x81b6 * 2 ^ 16
      | some o ↦ o.ext_attrib
    ] in
    if (opsys == old_opsys) && (attributes == old_attributes)
    then some (forget_change e attributes_bit (with_attributes old_opsys old_attributes))
    else store_change room e attributes_bit (with_attributes opsys attributes)

unfoldable pub file_set_external_attributes : Room → Archive → ℕ → ℕ → ℕ → Outcome (Unit {0})
unfolding get_dirent set_attributes_entry
file_set_external_attributes room za idx opsys attributes = elim (get_dirent za idx no_flags) [
  | err c ↦ (err c, za)
  | ok de ↦
      if za.ch_flags
      then (err er_rdonly, za)
      else put_entry za idx (set_attributes_entry room.clone (entry_at za idx) opsys attributes)
]

-- `zip_file_get_external_attributes`
unfoldable pub file_get_external_attributes : Archive → ℕ → Flags → Result (ℕ × ℕ)
unfolding get_dirent
file_get_external_attributes za idx flags = elim (get_dirent za idx flags) [
  | err c ↦ err c
  | ok (original, de) ↦ ok (de.version_madeby / 2 ^ 8 % 2 ^ 8, de.ext_attrib)
]

-- `zip_file_set_comment`. The comment that the changes share with the original is taken to stay.
unfoldable pub set_comment_entry : Bool → Entry → Option Str → Option Entry
unfolding equal set_bit clear_bit clone
set_comment_entry room e cstr =
    let cleared : Option Dirent = elim e.changes as (λ _. Option Dirent) [
      | none ↦ none
      | some de ↦ some (record de { comment = none; changed = clear_bit de.changed comment_bit })
    ] in
    let e' = record e { changes = cleared } in
    let dropped = elim cleared as (λ _. Option Dirent) [
      | none ↦ none
      | some de ↦ if de.changed == 0 then none else some de
    ] in
    let original = elim e.orig as (λ _. Option Str) [ none ↦ none | some o ↦ o.comment ] in
    if equal original cstr
    then some (record e { changes = dropped })
    else (store_change room e' comment_bit (λ de. record de { comment = cstr }))

-- A comment of `none` is NULL; the length is that of the list.
unfoldable pub file_set_comment :
    Room → Archive → ℕ → Option (List ℕ) → ℕ → Flags → Outcome (Unit {0})
unfolding get_dirent set_comment_entry make_string
file_set_comment room za idx comment len flags = elim (get_dirent za idx no_flags) [
  | err c ↦ (err c, za)
  | ok de ↦
      if za.ch_flags then (err er_rdonly, za) else elim (make_comment room comment len flags) [
        | err c ↦ (err c, za)
        | ok cstr ↦ put_entry za idx (set_comment_entry room.clone (entry_at za idx) cstr)
      ]
]
  where
    make_comment : Room → Option (List ℕ) → ℕ → Flags → Result (Option Str)
    make_comment room comment zero flags = ok none
    make_comment room none (suc n) flags = err er_inval
    make_comment room (some text) (suc n) flags = make_string room text (suc n) flags

-- `zip_file_get_comment`: the bytes up to the length, and the archive with the comment as it was
-- guessed and converted.
unfoldable pub file_get_comment : Room → Archive → ℕ → Flags → Outcome (List ℕ × ℕ)
unfolding get_dirent string_get
file_get_comment room za idx flags = elim (get_dirent za idx flags) [
  | err c ↦ (err c, za)
  | ok (original, de) ↦
      let (text, s) = string_get room.text de.comment flags in
      let e = entry_at za idx in
      let read = some (record de { comment = s }) in
      let za' =
        set_entry za idx
          (if original then record e { orig = read } else record e { changes = read }) in
      elim text [ none ↦ (err er_memory, za') | some t ↦ (ok t, za') ]
]
