-- ===== src/Archive/Naming.antt =====
-- zip_set_name.c and zip_file_rename.c (libs/archive-rw): an entry gets a name, and the table of names
-- follows.
use allvm_tools.Archive.Names.{make_name}
use allvm_tools.Run.{er_rdonly, er_exists}
use allvm_tools.Flags.{no_flags}
use allvm_tools.Hash.Remove.{delete}
use allvm_tools.Archive.{
  has_bit, set_bit, Flags, clear_bit, Str, Outcome, entry_at, Hash, Result, filename_bit, nentry,
  ok, err, set_filename, er_memory, er_inval, same_bool, Room, get_name, name_locate, get_c_string,
  Entry, Archive,
}
use allvm_tools.Str.{equal}
use allvm_tools.Hash.Insert.{add}
use allvm_tools.Dirent.{Dirent, clone}
use allvm_tools.Base.{
  ℕ, List, false, true, length, Bool, ◌==◌, [], some, ◌||◌, ◌∷◌, ltb, set, Option, ◌^◌, leb, none,
  ◌-◌, not, if◌then◌else◌,
}

-- The end of `_zip_set_name`: the changes of an entry with the given original take the name over.
-- `same` is `same_as_orig`.
unfoldable pub taken_over : Option Dirent → Option Dirent → Bool → Option Str → Option Dirent
unfolding has_bit set_bit clear_bit
taken_over orig none same str = none
taken_over orig (some de) false str =
    some (record de { filename = str; changed = set_bit de.changed filename_bit })
taken_over none (some de) true str = some de
taken_over (some o) (some de) true str =
    let w = clear_bit de.changed filename_bit in
    if not (has_bit de.changed filename_bit)
    then some de
    else if w == 0
    then none
    else some (record de { filename = o.filename; changed = w })

-- The parts of `_zip_set_name` behind its checks, on the entry and the table of names. First, an entry
-- that is to differ from its original gets changes; `none` for a clone that fails.
unfoldable pub changes_for : Bool → Option Dirent → Option Dirent → Bool → Option (Option Dirent)
unfolding clone
changes_for room orig changes true = some changes
changes_for room orig (some de) false = some (some de)
changes_for room orig none false = elim (clone room orig) [ none ↦ none | some de ↦ some (some de) ]

-- The new name, read from the original directory entry or from the new string.
unfoldable pub new_name :
    Room → Entry → Bool → Option Str → Option Dirent → Option (List ℕ) × (Entry × Option Str)
unfolding get_c_string
new_name room e true str (some o) =
    let (text, s) = get_c_string room.text o.filename no_flags in
    (text, (set_filename e true o s, str))
new_name room e same str orig =
    let (text, s) = get_c_string room.text str no_flags in (text, (e, s))

-- The old name of an entry with the given original and changes, and the entry in which it was read;
-- NULL is `some none`, and `none` a failure.
unfoldable pub read_old :
    Room → Entry → Bool → Dirent → Option Str → Option (Option (List ℕ)) × Entry
unfolding get_c_string
read_old room e original de none = (some none, e)
read_old room e original de (some f) =
    let (text, s) = get_c_string room.text (some f) no_flags in
    (elim text [ none ↦ none | some name ↦ some (some name) ], set_filename e original de s)

unfoldable pub old_name :
    Room → Entry → Option Dirent → Option Dirent → Option (Option (List ℕ)) × Entry
unfolding read_old
old_name room e orig (some de) = read_old room e false de de.filename
old_name room e (some o) none = read_old room e true o o.filename
old_name room e none none = (some none, e)

-- The table takes the new name, and drops the old one.
unfoldable pub move_name : Room → ℕ → List ℕ → Option (List ℕ) → Hash → Result (Unit {0}) × Hash
unfolding add delete
move_name room idx new old names =
    let (r, added) = add room.add names (some new) idx no_flags in
    elim r [
      | err c ↦ (err c, added)
      | ok u ↦ (ok tt, elim old [ none ↦ added | some o ↦ (delete room.shrink added (some o)).1 ])
    ]

abbrev pub same_as_orig : Option Dirent → Option Str → Bool
same_as_orig none str = false
same_as_orig (some o) str = equal o.filename str

-- From the calls of `_zip_hash_add` and `_zip_hash_delete` on, from the reading of the old name on,
-- from that of the new one on, and from the start.
abbrev pub Renamed : Type 0
Renamed = Result (Unit {0}) × (Entry × Hash)

abbrev pub rename_moved : Bool → Option Str → Entry → Result (Unit {0}) × Hash → Renamed
rename_moved same str e (err c, names) = (err c, (e, names))
rename_moved same str e (ok u, names) =
    (ok tt, (record e { changes = taken_over e.orig e.changes same str }, names))

abbrev pub rename_from :
    Room → ℕ → Bool → Hash → List ℕ → Option Str → Option (Option (List ℕ)) × Entry → Renamed
rename_from room idx same names new str (none, e) = (err er_memory, (e, names))
rename_from room idx same names new str (some old, e) =
    rename_moved same str e (move_name room idx new old names)

abbrev pub rename_to : Room → ℕ → Bool → Hash → Option (List ℕ) × (Entry × Option Str) → Renamed
rename_to room idx same names (none, (e, str)) = (err er_memory, (e, names))
rename_to room idx same names (some new, (e, str)) =
    rename_from room idx same names new str (old_name room e e.orig e.changes)

abbrev pub rename_with :
    Room → ℕ → Bool → Option Str → Entry → Hash → Option (Option Dirent) → Renamed
rename_with room idx same str e names none = (err er_memory, (e, names))
rename_with room idx same str e names (some changes) =
    rename_to room idx same names (new_name room (record e { changes = changes }) same str e.orig)

unfoldable pub rename_entry : Room → ℕ → Option Str → Entry → Hash → Renamed
unfolding equal changes_for new_name old_name move_name taken_over
rename_entry room idx str e names =
    let same = same_as_orig e.orig str in
    rename_with room idx same str e names (changes_for room.clone e.orig e.changes same)

-- `_zip_set_name`: from the search for the new name on, from the new string on, and from its start; a
-- name of `none` is NULL.
abbrev pub name_found : Room → ℕ → Option Str → Outcome ℕ → Outcome (Unit {0})
name_found room idx str (ok i, za) = if i == idx then (ok tt, za) else (err er_exists, za)
name_found room idx str (err c, za) =
    let (r, (e, names)) = rename_entry room idx str (entry_at za idx) za.names in
    (r, record za { entry = set za.entry idx e; names = names })

abbrev pub name_made :
    Room → Archive → ℕ → Option (List ℕ) → Result (Option Str) → Outcome (Unit {0})
name_made room za idx name (err c) = (err c, za)
name_made room za idx name (ok str) = name_found room idx str (name_locate room za name no_flags)

unfoldable pub set_name : Room → Archive → ℕ → Option (List ℕ) → Flags → Outcome (Unit {0})
unfolding make_name name_locate rename_entry
set_name room za idx name flags =
    if leb (nentry za) idx
    then (err er_inval, za)
    else if za.ch_flags
    then (err er_rdonly, za)
    else name_made room za idx name (make_name room name flags)

-- `name[strlen(name) - 1] == '/'`; `before` is the byte in front of an empty name.
unfoldable pub ends_in_slash : ℕ → List ℕ → Bool
ends_in_slash before [] = before == 47
ends_in_slash before (c ∷ cs) = ends_in_slash c cs

-- `zip_file_rename`; `zip_rename` is a call of it without flags.
unfoldable pub file_rename :
    Room → ℕ → ℕ → Archive → ℕ → Option (List ℕ) → Flags → Outcome (Unit {0})
unfolding get_name ends_in_slash set_name
file_rename room before_old before_new za idx name flags =
    let too_long = elim name as (λ _. Bool) [
      | none ↦ false
      | some n ↦ ltb (2 ^ 16 - 1) (length n)
    ] in
    let (old, za') = get_name room za idx no_flags in
    if leb (nentry za) idx || too_long
    then (err er_inval, za)
    else if za.ch_flags
    then (err er_rdonly, za)
    else elim old [
      | err c ↦ (err c, za')
      | ok o ↦
          let new_is_dir = elim name as (λ _. Bool) [
            | none ↦ false
            | some n ↦ ends_in_slash before_new n
          ] in
          if same_bool new_is_dir (ends_in_slash before_old o)
          then set_name room za' idx name flags
          else (err er_inval, za')
    ]
