-- ===== src/Archive/Updates.antt =====
-- Deleting and restoring entries: zip_delete.c, zip_unchange.c, zip_unchange_all.c and
-- zip_unchange_archive.c (libs/archive-rw).
use allvm_tools.Run.{er_rdonly, er_exists}
use allvm_tools.Hash.Insert.{add}
use allvm_tools.Archive.{
  has_bit, filename_bit, Outcome, err, nentry, entry_at, ok, er_inval, set_entry, Result, Hash,
  Room, get_name, name_locate, Entry, Archive,
}
use allvm_tools.Flags.{Flags, no_flags}
use allvm_tools.Archive.Names.{unchange_data}
use allvm_tools.Hash.Remove.{revert, delete}
use allvm_tools.Base.{
  ℕ, List, leb, false, ◌+◌, true, some, ◌&&◌, Bool, zero, ◌==◌, not, none, suc, Option,
  if◌then◌else◌,
}

abbrev unchanged_flag : Flags
unchanged_flag = record no_flags { unchanged = true }

-- The part of `_zip_unchange` behind the checks of the original name: the names change places in the
-- table.
unfoldable pub restore_name : Room → Archive → ℕ → Option (List ℕ) → Outcome (Unit {0})
unfolding get_name add delete
restore_name room za idx orig_name =
    let (changed, za') = get_name room za idx no_flags in
    elim changed [
      | err c ↦ (err c, za')
      | ok changed_name ↦
          let (r, added) = elim orig_name as (λ _. Result (Unit {0}) × Hash) [
            | none ↦ (ok tt, za'.names)
            | some name ↦ add room.add za'.names (some name) idx no_flags
          ] in
          elim r [
            | err c ↦ (err c, record za' { names = added })
            | ok u ↦
                let (r', deleted) = delete room.shrink added (some changed_name) in
                elim r' [
                  | ok u' ↦ (ok tt, record za' { names = deleted })
                  | err c ↦ (err c, record za' { names = (delete room.shrink deleted orig_name).1 })
                ]
          ]
    ]

-- The branch of `_zip_unchange` for an entry whose name is changed.
unfoldable pub unchange_name : Room → Archive → ℕ → Outcome (Unit {0})
unfolding get_name name_locate restore_name
unchange_name room za idx = elim (entry_at za idx).orig [
  | none ↦ restore_name room za idx none
  | some o ↦
      let (orig, za') = get_name room za idx unchanged_flag in
      elim orig [
        | err c ↦ (err c, za')
        | ok name ↦
            let (found, za'') = name_locate room za' (some name) no_flags in
            elim found [
              | err c ↦ restore_name room za'' idx (some name)
              | ok i ↦
                  if i == idx then restore_name room za'' idx (some name) else (err er_exists, za'')
            ]
      ]
]

abbrev name_changed : Entry → Bool
name_changed e = elim e.changes [ none ↦ false | some de ↦ has_bit de.changed filename_bit ]

-- `_zip_unchange`; `zip_unchange` is a call of it without duplicates.
unfoldable pub unchange : Room → Archive → ℕ → Bool → Outcome (Unit {0})
unfolding has_bit unchange_name unchange_data
unchange room za idx allow_duplicates =
    let (r, za') =
      if not allow_duplicates && name_changed (entry_at za idx)
      then unchange_name room za idx
      else (ok tt, za) in
    if leb (nentry za) idx then (err er_inval, za) else elim r [
      | err c ↦ (err c, za')
      | ok u ↦ (
        ok tt,
        unchange_data (set_entry za' idx (record (entry_at za' idx) { changes = none })) idx,
      )
    ]

-- `zip_delete`: from the restored entry on, from the table of names on, from the name on, and from its
-- start.
abbrev pub mark_deleted : ℕ → Outcome (Unit {0}) → Outcome (Unit {0})
mark_deleted idx (err c, za) = (err c, za)
mark_deleted idx (ok u, za) =
    (ok tt, set_entry za idx (record (entry_at za idx) { deleted = true }))

abbrev pub delete_named : Room → ℕ → Archive → Result (Unit {0}) × Hash → Outcome (Unit {0})
delete_named room idx za (err c, names) = (err c, record za { names = names })
delete_named room idx za (ok u, names) =
    mark_deleted idx (unchange room (record za { names = names }) idx true)

abbrev pub delete_called : Room → ℕ → Outcome (List ℕ) → Outcome (Unit {0})
delete_called room idx (err c, za) = (err c, za)
delete_called room idx (ok n, za) = delete_named room idx za (delete room.shrink za.names (some n))

unfoldable pub delete_entry : Room → Archive → ℕ → Outcome (Unit {0})
unfolding get_name delete unchange
delete_entry room za idx =
    if leb (nentry za) idx
    then (err er_inval, za)
    else if za.ch_flags
    then (err er_rdonly, za)
    else delete_called room idx (get_name room za idx no_flags)

-- `zip_unchange_archive`
unfoldable pub unchange_archive : Archive → Archive
unchange_archive za = record za {
  comment_changes = if za.comment_changed then none else za.comment_changes;
  comment_changed = false;
  ch_flags = za.flags;
}

-- `zip_unchange_all`. Its loop, for the `n` entries from `i` on, cannot fail; `room` is the `calloc`
-- of the table.
unfoldable pub unchange_from : Room → ℕ → ℕ → Archive → Archive
unfolding unchange
unchange_from room zero i za = za
unchange_from room (suc n) i za = unchange_from room n (i + 1) (unchange room za i true).1

unfoldable pub unchange_all : Room → Archive → Outcome (Unit {0})
unfolding revert unchange_from unchange_archive
unchange_all room za =
    let (r, names) = revert room.shrink za.names in
    let za' = record za { names = names } in
    elim r [
      | err c ↦ (err c, za')
      | ok u ↦ (ok tt, unchange_archive (unchange_from room (nentry za) 0 za'))
    ]
