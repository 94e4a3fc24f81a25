-- ===== src/Archive.antt =====
-- The archive of libs/archive-rw/zipint.h and its entries: what their directory entries, their names
-- and their number are (zip_get_name.c, zip_name_locate.c, zip_get_num_entries.c, zip_stat_index.c
-- and their like). A source is a number.
pub mod Names
pub mod Naming
pub mod Updates
pub mod Replacing
pub mod Attributes
pub mod Settings
pub mod Encryption
pub mod Stat
mod Text
pub mod Inv
pub mod Moves
mod Rename
mod TakeOver
pub mod Renamed
pub mod SetName
pub mod FileRename
pub mod Delete
pub mod Deleted
mod Neutral
mod Replace
pub mod Added
pub mod FileReplace
pub mod Locate
pub mod Sample
mod Examples
pub mod Times
use allvm_tools.Dirent.{Dirent}
use allvm_tools.Str.{Str, string_get}
use allvm_tools.Hash.{lookup, Hash}
use allvm_tools.Run.{Result, err, er_noent, er_inval, ok, er_opnotsupp, er_memory, er_deleted}
use allvm_tools.Hash.Insert.{Memory}
use allvm_tools.Flags.{Flags}
use allvm_tools.Base.{
  ℕ, List, false, true, length, Bool, ◌==◌, [], same_bytes, some, ◌/◌, ◌||◌, ◌∷◌, ltb, set, ◌%◌,
  Option, ◌^◌, leb, ◌+◌, zero, none, suc, ◌-◌, map, ◌&&◌, not, get_or, if◌then◌else◌,
}

-- ZIP_DIRENT_*: the bits of `changed`, by their place.
abbrev pub comp_method_bit : ℕ
comp_method_bit = 0

abbrev pub filename_bit : ℕ
filename_bit = 1

abbrev pub comment_bit : ℕ
comment_bit = 2

abbrev pub attributes_bit : ℕ
attributes_bit = 4

abbrev pub last_mod_bit : ℕ
last_mod_bit = 5

-- `word & (1 << k)`, `word | (1 << k)` and `word & ~(1 << k)`
unfoldable pub has_bit : ℕ → ℕ → Bool
has_bit word k = word / 2 ^ k % 2 == 1

unfoldable pub set_bit : ℕ → ℕ → ℕ
unfolding has_bit
set_bit word k = if has_bit word k then word else word + 2 ^ k

unfoldable pub clear_bit : ℕ → ℕ → ℕ
unfolding has_bit
clear_bit word k = if has_bit word k then word - 2 ^ k else word

abbrev pub same_bool : Bool → Bool → Bool
same_bool a b = if a then b else not b

-- `struct zip_entry`; NULL is `none`.
pub record Entry : Type 0 where
  pub orig : Option Dirent
  pub changes : Option Dirent
  pub source : Option ℕ
  pub deleted : Bool

-- `_zip_entry_init`
unfoldable pub entry_init : Entry
entry_init = record { orig = none; changes = none; source = none; deleted = false }

-- `struct zip`, as far as its entries go. The flag words are the bit ZIP_AFL_RDONLY, which is the only
-- one; `entry` has `nentry` elements; `released` has the sources that zip_source_free was called on,
-- the last one first.
pub record Archive : Type 0 where
  pub flags : Bool
  pub ch_flags : Bool
  pub comment_orig : Option Str
  pub comment_changes : Option Str
  pub comment_changed : Bool
  pub entry : List Entry
  pub nentry_alloc : ℕ
  pub names : Hash
  pub default_password : Option (List ℕ)
  pub prefixdata : Option (List ℕ)
  pub released : List ℕ

-- What the allocations of an operation give: those of a string (the structure and its bytes) and of
-- its conversion, that of a clone of a directory entry, those of the table of names when a name is
-- added and when one is deleted, that of the array of entries, and `strdup`.
pub record Room : Type 0 where
  pub string : Bool
  pub raw : Bool
  pub text : Option (List ℕ)
  pub clone : Bool
  pub add : Memory
  pub shrink : Bool
  pub entries : Bool
  pub dup : Bool

-- An operation returns its result, the error being the one that it sets (ZIP_ER_OK if it fails
-- without setting one), and the archive.
abbrev pub Outcome {ℓ} : Type ℓ → Type ℓ
Outcome A = Result A × Archive

abbrev pub nentry : Archive → ℕ
nentry za = length za.entry

-- `za->entry[idx]`, which every use guards by `idx < za->nentry`.
abbrev pub entry_at : Archive → ℕ → Entry
entry_at za idx = get_or za.entry idx entry_init

abbrev pub set_entry : Archive → ℕ → Entry → Archive
set_entry za idx e = record za { entry = set za.entry idx e }

-- `_zip_get_dirent` on an entry: whether it is the original one, and the directory entry.
unfoldable pub entry_dirent : Entry → Flags → Result (Bool × Dirent)
entry_dirent e flags =
    let original = elim e.orig as (λ _. Result (Bool × Dirent)) [
      | none ↦ err er_inval
      | some de ↦ if e.deleted && not flags.unchanged then err er_deleted else ok (true, de)
    ] in
    if flags.unchanged
    then original
    else elim e.changes [ none ↦ original | some de ↦ ok (false, de) ]

-- `_zip_get_dirent`
unfoldable pub get_dirent : Archive → ℕ → Flags → Result (Bool × Dirent)
unfolding entry_dirent
get_dirent za idx flags =
    if leb (nentry za) idx then err er_inval else entry_dirent (entry_at za idx) flags

-- A string as C reads it: the bytes before the first NUL.
unfoldable pub c_string : List ℕ → List ℕ
c_string [] = []
c_string (c ∷ cs) = let rest = c ∷ c_string cs in if c == 0 then [] else rest

-- `_zip_string_get` where its length is not asked for: the C string, or NULL, and the string with
-- what was guessed and converted.
unfoldable pub get_c_string : Option (List ℕ) → Option Str → Flags → Option (List ℕ) × Option Str
unfolding string_get c_string
get_c_string room s flags =
    let (text, s') = string_get room s flags in
    (elim text [ none ↦ none | some (bytes, n) ↦ some (c_string bytes) ], s')

-- The strings of an entry are changed where they stand: in the original directory entry, or in the
-- changed one. A name that the two share is guessed and converted in each of them.
abbrev pub set_filename : Entry → Bool → Dirent → Option Str → Entry
set_filename e true de s = record e { orig = some (record de { filename = s }) }
set_filename e false de s = record e { changes = some (record de { filename = s }) }

-- `_zip_get_name` and `zip_get_name`
unfoldable pub get_name : Room → Archive → ℕ → Flags → Outcome (List ℕ)
unfolding get_dirent get_c_string
get_name room za idx flags = elim (get_dirent za idx flags) [
  | err c ↦ (err c, za)
  | ok (original, de) ↦
      let (text, s) = get_c_string room.text de.filename flags in
      let za' = set_entry za idx (set_filename (entry_at za idx) original de s) in
      elim text [ none ↦ (err er_memory, za') | some name ↦ (ok name, za') ]
]

-- The test of the loop of `_zip_name_locate`: what follows the last slash of a name, and `strcasecmp`
-- on ASCII.
unfoldable pub base_name : List ℕ → Option (List ℕ)
base_name [] = none
base_name (c ∷ cs) =
    let rest = base_name cs in
    elim rest [ some name ↦ some name | none ↦ if c == 47 then some cs else none ]

abbrev pub lower : ℕ → ℕ
lower c = if leb 65 c && leb c 90 then c + 32 else c

unfoldable pub matches : List ℕ → List ℕ → Flags → Bool
unfolding base_name
matches fname fn flags =
    let fn' = if flags.nodir then get_or_else (base_name fn) fn else fn in
    if flags.nocase then same_bytes (map lower fname) (map lower fn') else same_bytes fname fn'
  where
    get_or_else : Option (List ℕ) → List ℕ → List ℕ
    get_or_else none d = d
    get_or_else (some a) d = a

-- The loop, for the `n` entries from `i` on.
unfoldable pub locate_from : Room → List ℕ → Flags → ℕ → ℕ → Archive → Outcome ℕ
unfolding get_name matches
locate_from room fname flags zero i za = (err er_noent, za)
locate_from room fname flags (suc n) i za =
    let (r, za') = get_name room za i flags in
    let rest = locate_from room fname flags n (i + 1) za' in
    elim r [ err c ↦ rest | ok fn ↦ if matches fname fn flags then (ok i, za') else rest ]

-- `_zip_name_locate` and `zip_name_locate`; a name of `none` is NULL.
unfoldable pub name_locate : Room → Archive → Option (List ℕ) → Flags → Outcome ℕ
unfolding locate_from lookup
name_locate room za none flags = (err er_inval, za)
name_locate room za (some fname) flags =
    if flags.nocase || flags.nodir || flags.enc_cp437
    then locate_from room fname flags (nentry za) 0 za
    else (lookup za.names (some fname) flags, za)

-- `zip_get_num_entries`: with ZIP_FL_UNCHANGED, up to the last entry that has an original.
unfoldable pub num_originals : List Entry → ℕ
num_originals [] = 0
num_originals (e ∷ es) =
    let n = num_originals es in if ltb 0 n then n + 1 else elim e.orig [ none ↦ 0 | some de ↦ 1 ]

unfoldable pub get_num_entries : Archive → Flags → ℕ
unfolding num_originals
get_num_entries za flags = if flags.unchanged then num_originals za.entry else nentry za

-- `zip_get_num_files`
unfoldable pub get_num_files : Archive → Result ℕ
get_num_files za = if ltb (2 ^ 31 - 1) (nentry za) then err er_opnotsupp else ok (nentry za)
