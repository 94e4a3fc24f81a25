-- ===== src/Archive/Settings.antt =====
-- The archive's own comment, flags, password and prefix: zip_set_archive_flag.c,
-- zip_get_archive_flag.c, zip_set_archive_comment.c, zip_get_archive_comment.c,
-- zip_set_default_password.c, _zip_changed of zip_close.c and zip_archive_set_prefixdata of zip_open.c
-- (libs/archive-rw).
use allvm_tools.Run.{Code, er_changed, er_ok, er_rdonly}
use allvm_tools.Flags.{no_flags}
use allvm_tools.Hash.Insert.{is_some}
use allvm_tools.Utf8.{guess_encoding, enc_unknown, same_encoding, enc_cp437}
use allvm_tools.Str.{string_new, equal, string_get}
use allvm_tools.Archive.{
  Room, Outcome, Flags, same_bool, Str, err, ok, er_inval, er_memory, Archive, Entry,
}
use allvm_tools.Base.{
  ℕ, List, if◌then◌else◌, Bool, some, [], none, ◌==◌, ◌∷◌, Option, not, ◌||◌, false,
}

-- `_zip_changed` without a place for the survivors, and `zip_set_archive_flag` for ZIP_AFL_RDONLY.
unfoldable pub any_changed : List Entry → Bool
any_changed [] = false
any_changed (e ∷ es) =
    let rest = any_changed es in
    let changes = elim e.changes as (λ _. Bool) [
      | none ↦ false
      | some de ↦ not (de.changed == 0)
    ] in
    is_some e.source || e.deleted || changes || rest

unfoldable pub is_changed : Archive → Bool
unfolding any_changed
is_changed za = za.comment_changed || not (same_bool za.ch_flags za.flags) || any_changed za.entry

unfoldable pub set_archive_flag : Archive → Bool → Outcome (Unit {0})
unfolding is_changed
set_archive_flag za value =
    if same_bool value za.ch_flags
    then (ok tt, za)
    else if za.ch_flags
    then (err er_rdonly, za)
    else if is_changed za
    then (err er_changed, za)
    else (ok tt, record za { ch_flags = value })

-- `zip_get_archive_flag`
unfoldable pub get_archive_flag : Archive → Flags → Bool
get_archive_flag za flags = if flags.unchanged then za.flags else za.ch_flags

-- `zip_set_archive_comment`
unfoldable pub set_archive_comment : Room → Archive → Option (List ℕ) → ℕ → Outcome (Unit {0})
unfolding string_new guess_encoding equal
set_archive_comment room za comment len =
    let take_over = λ (cstr : Option Str).
      let same = equal za.comment_orig cstr in
      record za { comment_changes = if same then none else cstr; comment_changed = not same } in
    let store : Option Code × Option Str → Outcome (Unit {0}) = λ made. elim made.1 [
      | none ↦ (err (elim made.0 [ none ↦ er_ok | some c ↦ c ]), za)
      | some s ↦
          let (guess, left) = guess_encoding s.raw s.encoding enc_unknown in
          if same_encoding guess enc_cp437
          then (err er_inval, za)
          else (ok tt, take_over (some (record s { encoding = left })))
    ] in
    if za.ch_flags
    then (err er_rdonly, za)
    else if len == 0
    then (ok tt, take_over none)
    else (elim comment [
      | none ↦ (err er_inval, za)
      | some text ↦ store (string_new room.string room.raw text len no_flags)
    ])

-- `zip_get_archive_comment`, as the bytes up to the length.
unfoldable pub get_archive_comment : Room → Archive → Flags → Outcome (List ℕ × ℕ)
unfolding string_get
get_archive_comment room za flags =
    let answer : Option (List ℕ × ℕ) → Archive → Outcome (List ℕ × ℕ) =
      λ text za'. elim text [ none ↦ (err er_memory, za') | some t ↦ (ok t, za') ] in
    let (text, s) = string_get room.text za.comment_orig flags in
    let original = answer text (record za { comment_orig = s }) in
    if flags.unchanged then original else elim za.comment_changes [
      | none ↦ original
      | some c ↦
          let (text', s') = string_get room.text (some c) flags in
          answer text' (record za { comment_changes = s' })
    ]

-- `zip_set_default_password` and `zip_archive_set_prefixdata`; `none` is NULL.
unfoldable pub set_default_password : Room → Archive → Option (List ℕ) → Outcome (Unit {0})
set_default_password room za none = (ok tt, record za { default_password = none })
set_default_password room za (some passwd) =
    if room.dup
    then (ok tt, record za { default_password = some passwd })
    else (err er_memory, record za { default_password = none })

unfoldable pub archive_set_prefixdata : Room → Archive → Option (List ℕ) → Outcome (Unit {0})
archive_set_prefixdata room za none = (ok tt, record za { prefixdata = none })
archive_set_prefixdata room za (some prefix) =
    if room.dup then (ok tt, record za { prefixdata = some prefix }) else (err er_memory, za)
