-- ===== src/ExtraField.antt =====
-- libs/archive-rw/zip_extra_field.c: the extra fields of a directory entry. The chain through `next`
-- is a list; a function that relinks it returns the new list.
pub mod Wire
pub mod Format
pub mod Rounds
pub mod Complete
pub mod Sound
pub mod Lookup
pub mod Merge
pub mod Write
pub mod Internal
mod Examples
use allvm_tools.Run.{Run, Result, malloc, return, ◌>>=◌, err, ◌>>◌, er_noent, ok}
use allvm_tools.Flags.{Flags, shares}
use allvm_tools.Base.{
  ℕ, none, ◌&&◌, ◌==◌, ◌++◌, ltb, ◌^◌, ◌+◌, [], some, List, Option, ◌%◌, not, same_bytes, take, ◌∷◌,
  ◌-◌, Bool, if◌then◌else◌, ◌||◌,
}

-- `struct zip_extra_field`; `size` counts the bytes of `bytes` (`data` in the source).
pub record ExtraField : Type 0 where
  pub flags : Flags
  pub id : ℕ
  pub size : ℕ
  pub bytes : List ℕ

-- ZIP_EXTRA_FIELD_ALL
abbrev pub all_fields : ℕ
all_fields = 2 ^ 16 - 1

abbrev pub ef_utf_8_comment : ℕ
ef_utf_8_comment = 0x6375

abbrev pub ef_utf_8_name : ℕ
ef_utf_8_name = 0x7075

abbrev pub ef_winzip_aes : ℕ
ef_winzip_aes = 0x9901

abbrev pub ef_zip64 : ℕ
ef_zip64 = 0x0001

-- ZIP_EF_IS_INTERNAL
unfoldable pub is_internal : ℕ → Bool
is_internal id =
    id == ef_utf_8_comment || id == ef_utf_8_name || id == ef_winzip_aes || id == ef_zip64

-- `_zip_memdup` of a positive length.
abbrev pub memdup : List ℕ → ℕ → Run (List ℕ)
memdup src n = do malloc; return (take n src)

-- `_zip_ef_new`
unfoldable pub new : ℕ → ℕ → List ℕ → Flags → Run ExtraField
new id size src flags = malloc >> (if size == 0 then return [] else memdup src size) >>= λ bytes.
    return (record { flags = flags; id = id; size = size; bytes = bytes })

-- `_zip_ef_clone`
unfoldable pub clone : List ExtraField → Run (List ExtraField)
unfolding new
clone [] = return []
clone (ef ∷ rest) =
    new ef.id ef.size ef.bytes ef.flags >>= λ def. clone rest >>= λ defs. return (def ∷ defs)

-- `_zip_ef_size`
unfoldable pub size_from : ℕ → Flags → List ExtraField → ℕ
size_from size flags [] = size
size_from size flags (ef ∷ rest) =
    size_from (if shares ef.flags flags then (size + 4 + ef.size) % 2 ^ 16 else size) flags rest

unfoldable pub size_of : List ExtraField → Flags → ℕ
unfolding size_from
size_of efs flags = size_from 0 flags efs

-- `_zip_ef_remove_internal`
unfoldable pub remove_internal : List ExtraField → List ExtraField
remove_internal [] = []
remove_internal (ef ∷ rest) =
    let kept = remove_internal rest in if is_internal ef.id then kept else ef ∷ kept

-- `_zip_ef_get_by_id`, from the `i`-th match on. A field of size 0 gives an empty block.
unfoldable pub get_from : ℕ → List ExtraField → ℕ → ℕ → Flags → Option (ℕ × List ℕ)
get_from i [] id idx flags = none
get_from i (ef ∷ rest) id idx flags =
    let later = get_from (i + 1) rest id idx flags in
    let other = get_from i rest id idx flags in
    if ef.id == id && shares ef.flags flags
    then if ltb i idx then later else some (ef.size, if ltb 0 ef.size then ef.bytes else [])
    else other

unfoldable pub get_by_id : List ExtraField → ℕ → ℕ → Flags → Result (ℕ × List ℕ)
unfolding get_from
get_by_id efs id idx flags = elim (get_from 0 efs id idx flags) [
  | none ↦ err er_noent
  | some found ↦ ok found
]

-- `ef->flags &= ~(flags & ZIP_EF_BOTH)`
unfoldable pub clear : ExtraField → Flags → ExtraField
clear ef flags = record ef {
  flags = record ef.flags {
    on_local = ef.flags.on_local && not flags.on_local;
    central = ef.flags.central && not flags.central;
  };
}

abbrev pub selects : ExtraField → ℕ → Flags → Bool
selects ef id flags = shares ef.flags flags && (ef.id == id || id == all_fields)

-- What one round of the loop of `_zip_ef_delete_by_id` does to `ef`: it is unlinked or kept, perhaps
-- with fewer flags, and the loop goes on with a count of matches, or stops.
pub data Fate : Type 0 where
  drop_on drop_stop : Fate
  keep_on : ExtraField → ℕ → Fate
  keep_stop : ExtraField → Fate

-- `i++; if (i > id_idx) break;`
abbrev pub counted : ExtraField → ℕ → ℕ → Fate
counted ef i idx = if ltb idx (i + 1) then keep_stop ef else keep_on ef (i + 1)

unfoldable pub fate : ℕ → ExtraField → ℕ → ℕ → Flags → Fate
unfolding clear
fate i ef id idx flags =
    let cleared = clear ef flags in
    if selects ef id flags
    then if idx == all_fields || i == idx
      then if cleared.flags.on_local || cleared.flags.central
        then counted cleared i idx
        else if idx == all_fields
        then drop_on
        else drop_stop
      else counted ef i idx
    else keep_on ef i

-- `_zip_ef_delete_by_id`: the loop, with the count of matches that were passed. Where `drop_stop`
-- ends it, `idx` is `i`, so that the count passes `idx`.
unfoldable pub delete_from : ℕ → List ExtraField → ℕ → ℕ → Flags → List ExtraField
delete_from i [] id idx flags = []
delete_from i (ef ∷ rest) id idx flags = elim (fate i ef id idx flags) [
  | drop_on ↦ delete_from i rest id idx flags
  | drop_stop ↦ rest
  | keep_on ef' i' ↦ ef' ∷ delete_from i' rest id idx flags
  | keep_stop ef' ↦ ef' ∷ rest
]

unfoldable pub delete_by_id : List ExtraField → ℕ → ℕ → Flags → List ExtraField
delete_by_id efs id idx flags = delete_from 0 efs id idx flags

-- The loop over `tt` in `_zip_ef_merge`: the first duplicate takes on the flags, if there is one.
abbrev pub duplicates : ExtraField → ExtraField → Bool
duplicates tt from =
    tt.id == from.id
    && tt.size == from.size
    && (tt.size == 0 || same_bytes (take tt.size tt.bytes) (take tt.size from.bytes))

unfoldable pub mark : ExtraField → ExtraField → ExtraField
mark tt from = record tt {
  flags = record tt.flags {
    on_local = tt.flags.on_local || from.flags.on_local;
    central = tt.flags.central || from.flags.central;
  };
}

unfoldable pub absorb : List ExtraField → ExtraField → Option (List ExtraField)
unfolding mark
absorb [] from = none
absorb (tt ∷ rest) from =
    let later = absorb rest from in
    if duplicates tt from
    then some (mark tt from ∷ rest)
    else elim later [ none ↦ none | some rest' ↦ some (tt ∷ rest') ]

unfoldable pub merge_into : List ExtraField → List ExtraField → List ExtraField
unfolding absorb
merge_into to [] = to
merge_into to (from ∷ rest) =
    merge_into (elim (absorb to from) [ none ↦ to ++ (from ∷ []) | some to' ↦ to' ]) rest

-- `_zip_ef_merge`
unfoldable pub merge : List ExtraField → List ExtraField → List ExtraField
unfolding merge_into
merge [] from = from
merge (ef ∷ to) from = merge_into (ef ∷ to) from
