-- ===== src/Archive/Replacing.antt =====
-- zip_file_replace.c and zip_file_add.c (libs/archive-rw): an entry gets new data, or is new.
use allvm_tools.Run.{er_rdonly}
use allvm_tools.Archive.{
  has_bit, set_bit, Outcome, err, nentry, entry_at, ok, er_memory, er_inval, set_entry, Dirent,
  comp_method_bit, Room, name_locate, Entry, Archive,
}
use allvm_tools.Flags.{Flags}
use allvm_tools.Archive.Names.{add_entry, cm_replaced_default, unchange_data}
use allvm_tools.Archive.Naming.{set_name}
use allvm_tools.Dirent.{clone}
use allvm_tools.Base.{ℕ, List, take, leb, some, Bool, ◌==◌, none, Option, if◌then◌else◌}

-- The entry that `_zip_file_replace` is to write; an index of `none` is ZIP_UINT64_MAX.
abbrev pub found_or_added : Room → Outcome ℕ → Outcome ℕ
found_or_added room (ok i, za) = (ok i, za)
found_or_added room (err c, za) = add_entry room za

unfoldable pub target : Room → Archive → Option ℕ → Option (List ℕ) → Flags → Outcome ℕ
unfolding name_locate add_entry
target room za (some i) name flags = (ok i, za)
target room za none name flags =
    if flags.overwrite
    then found_or_added room (name_locate room za name flags)
    else add_entry room za

-- The end of `_zip_file_replace`, on an entry with the given original and changes: its changes say that
-- the data are replaced; `none` for a clone that fails.
abbrev pub replaced : Dirent → Dirent
replaced de = record de {
  comp_method = cm_replaced_default;
  changed = set_bit de.changed comp_method_bit;
}

unfoldable pub replaced_changes : Bool → Option Dirent → Option Dirent → Option (Option Dirent)
unfolding has_bit set_bit clone
replaced_changes room none changes = some changes
replaced_changes room (some o) (some de) =
    some (some (if has_bit de.changed comp_method_bit then de else replaced de))
replaced_changes room (some o) none = elim (clone room (some o)) [
  | none ↦ none
  | some de ↦ some (some (replaced de))
]

abbrev pub mark_replaced : Room → Entry → Option Entry
mark_replaced room e = elim (replaced_changes room.clone e.orig e.changes) [
  | none ↦ none
  | some changes ↦ some (record e { changes = changes })
]

abbrev pub put_source : Archive → ℕ → ℕ → Option Entry → Outcome ℕ
put_source za idx src none = (err er_memory, za)
put_source za idx src (some e) = (ok idx, set_entry za idx (record e { source = some src }))

unfoldable pub replace_data : Room → Archive → ℕ → ℕ → Outcome ℕ
unfolding unchange_data replaced_changes
replace_data room za idx src =
    let za' = unchange_data za idx in put_source za' idx src (mark_replaced room (entry_at za' idx))

-- `_zip_file_replace`: its call of `_zip_set_name`; from there on, where an entry that was new goes again
-- when its name cannot be set; from the target on; and from its start.
abbrev pub set_given_name : Room → Archive → ℕ → Option (List ℕ) → Flags → Outcome (Unit {0})
set_given_name room za i none flags = (ok tt, za)
set_given_name room za i (some n) flags = set_name room za i (some n) flags

abbrev pub replace_named : Room → ℕ → ℕ → ℕ → Outcome (Unit {0}) → Outcome ℕ
replace_named room prev i src (ok u, za) = replace_data room za i src
replace_named room prev i src (err c, za) =
    let finalized = unchange_data za i in
    if nentry za == prev
    then (err c, za)
    else (err c, record finalized { entry = take prev finalized.entry })

abbrev pub replace_target : Room → ℕ → Option (List ℕ) → ℕ → Flags → Outcome ℕ → Outcome ℕ
replace_target room prev name src flags (err c, za) = (err c, za)
replace_target room prev name src flags (ok i, za) =
    replace_named room prev i src (set_given_name room za i name flags)

unfoldable pub replace_entry : Room → Archive → Option ℕ → Option (List ℕ) → ℕ → Flags → Outcome ℕ
unfolding target set_name replace_data unchange_data
replace_entry room za idx name src flags =
    if za.ch_flags
    then (err er_rdonly, za)
    else (replace_target room (nentry za) name src flags (target room za idx name flags))

-- `zip_file_replace` (`zip_replace`) and `zip_file_add` (`zip_add`); `none` is NULL.
abbrev pub without_index : Outcome ℕ → Outcome (Unit {0})
without_index (ok i, za) = (ok tt, za)
without_index (err c, za) = (err c, za)

unfoldable pub file_replace : Room → Archive → ℕ → Option ℕ → Flags → Outcome (Unit {0})
unfolding replace_entry
file_replace room za idx none flags = (err er_inval, za)
file_replace room za idx (some src) flags =
    if leb (nentry za) idx
    then (err er_inval, za)
    else without_index (replace_entry room za (some idx) none src flags)

unfoldable pub file_add : Room → Archive → Option (List ℕ) → Option ℕ → Flags → Outcome ℕ
unfolding replace_entry
file_add room za none source flags = (err er_inval, za)
file_add room za (some name) none flags = (err er_inval, za)
file_add room za (some name) (some src) flags = replace_entry room za none (some name) src flags
