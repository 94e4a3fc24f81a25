-- ===== src/Archive/Encryption.antt =====
-- zip_file_set_encryption.c and zip_dir_add.c of libs/archive-rw.
use allvm_tools.Run.{er_rdonly, er_encrnotsupp}
use allvm_tools.Archive.Names.{source_free}
use allvm_tools.Archive.Updates.{delete_entry}
use allvm_tools.Archive.Attributes.{file_set_external_attributes, put_entry}
use allvm_tools.Archive.{
  Room, set_bit, Entry, Outcome, clear_bit, Archive, err, nentry, er_inval, Flags, ok, er_memory,
  entry_at, has_bit,
}
use allvm_tools.Archive.Replacing.{replace_entry}
use allvm_tools.Archive.Naming.{ends_in_slash}
use allvm_tools.Dirent.{clone, em_none, Dirent}
use allvm_tools.Base.{
  ℕ, if◌then◌else◌, none, some, Option, List, ◌==◌, ◌&&◌, ◌∷◌, Bool, [], not, leb, ◌++◌, ◌^◌, ◌*◌,
}

abbrev encryption_bit : ℕ
encryption_bit = 6

abbrev password_bit : ℕ
password_bit = 7

abbrev old_password : Option Dirent → Option (List ℕ)
old_password none = none
old_password (some o) = o.password

-- The changes lose a password that was set.
abbrev without_password : Option Dirent → Dirent → Dirent
without_password orig de =
    if has_bit de.changed password_bit
    then record de { password = old_password orig; changed = clear_bit de.changed password_bit }
    else de

-- The branch that goes back to the original method.
unfoldable pub forget_encryption : Option Dirent → Option Dirent → Option Dirent
unfolding has_bit clear_bit
forget_encryption orig none = none
forget_encryption orig (some de) =
    let d = without_password orig de in
    let w = clear_bit d.changed encryption_bit in
    if w == 0 then none else some (record d { changed = w })

-- The other branch, on the changes of the entry.
unfoldable pub with_encryption : Option Dirent → ℕ → Option (List ℕ) → Dirent → Dirent
unfolding has_bit set_bit clear_bit
with_encryption orig method (some password) de = record de {
  encryption_method = method;
  password = some password;
  changed = set_bit (set_bit de.changed encryption_bit) password_bit;
}
with_encryption orig method none de =
    without_password orig
      (record de { encryption_method = method; changed = set_bit de.changed encryption_bit })

-- `zip_file_set_encryption` behind its checks: the changes, `none` for an allocation that fails.
unfoldable pub set_encryption_entry : Room → Entry → ℕ → Option (List ℕ) → Option Entry
unfolding clone forget_encryption with_encryption
set_encryption_entry room e method password =
    let old_method = elim e.orig as (λ _. ℕ) [ none ↦ em_none | some o ↦ o.encryption_method ] in
    let set_changes : Dirent → Option Entry =
      λ de. some (record e { changes = some (with_encryption e.orig method password de) }) in
    let stored : Option Entry = elim e.changes [
      | some de ↦ set_changes de
      | none ↦ elim (clone room.clone e.orig) [ none ↦ none | some de ↦ set_changes de ]
    ] in
    elim password [
      | none ↦
          if method == old_method
          then some (record e { changes = forget_encryption e.orig e.changes })
          else stored
      | some p ↦ if room.dup then stored else none
    ]

-- `zip_file_set_encryption`; `implemented` is `_zip_get_encryption_implementation` for encoding.
unfoldable pub file_set_encryption :
    (ℕ → Bool) → Room → Archive → ℕ → ℕ → Option (List ℕ) → Outcome (Unit {0})
unfolding set_encryption_entry
file_set_encryption implemented room za idx method password =
    if leb (nentry za) idx
    then (err er_inval, za)
    else if za.ch_flags
    then (err er_rdonly, za)
    else if not (method == em_none) && not (implemented method)
    then (err er_encrnotsupp, za)
    else put_entry za idx (set_encryption_entry room (entry_at za idx) method password)

-- `zip_dir_add` from the call of `_zip_file_replace` on, and from its start. `made` is what
-- `zip_source_buffer` gives, `before` the byte in front of an empty name; ZIP_OPSYS_DEFAULT is 3, and the
-- attributes are 0040777 shifted by 16.
abbrev pub added_dir : Room → ℕ → Outcome ℕ → Outcome ℕ
added_dir room src (err c, za) = (err c, source_free (some src) za)
added_dir room src (ok idx, za) =
    let (r, za') = file_set_external_attributes room za idx 3 (0x41ff * 2 ^ 16) in
    elim r [ ok u ↦ (ok idx, za') | err c ↦ (err c, (delete_entry room za' idx).1) ]

unfoldable pub dir_add : Room → Option ℕ → ℕ → Archive → Option (List ℕ) → Flags → Outcome ℕ
unfolding ends_in_slash replace_entry file_set_external_attributes delete_entry
dir_add room made before za none flags =
    if za.ch_flags then (err er_rdonly, za) else (err er_inval, za)
dir_add room made before za (some name) flags =
    let slashed = ends_in_slash before name in
    let name' = if slashed then name else name ++ (47 ∷ []) in
    if za.ch_flags
    then (err er_rdonly, za)
    else if not slashed && not room.dup
    then (err er_memory, za)
    else elim made [
      | none ↦ (err er_memory, za)
      | some src ↦ added_dir room src (replace_entry room za none (some name') src flags)
    ]
