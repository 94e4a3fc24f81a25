-- ===== src/Archive/Times.antt =====
-- What `zip_file_set_mtime` does to the time of an entry.
use allvm_tools.Run.{er_rdonly}
use allvm_tools.Archive.{
  clear_bit, last_mod_bit, Entry, Room, Archive, Result, Outcome, err, entry_at, ok, er_memory,
}
use allvm_tools.Dirent.{Dirent, clone}
use allvm_tools.Base.{
  ℕ, some, Option, ◌≡◌, ◌==◌, if◌then◌else◌, none, ◌&&◌, Bool, false, not, true, ◌⊎◌, ◌≢◌,
}

-- The time of an entry: that of its changes, or else the original one.
abbrev pub time_of : Option Dirent → Option Dirent → Option ℕ
time_of orig (some de) = some de.last_mod
time_of none none = none
time_of (some o) none = some o.last_mod

-- The time is the original one, and the entry has other changes.
abbrev pub is_kept : Option Dirent → Option Dirent → ℕ → Bool
is_kept (some o) (some de) mtime =
    (o.last_mod == mtime) && not (clear_bit de.changed last_mod_bit == 0)
is_kept orig changes mtime = false

abbrev Timed : Option Dirent → Option Dirent → ℕ → Option Entry → Type 0
Timed orig changes mtime e =
    (e' : Entry)
    → e ≡ some e'
    → time_of e'.orig e'.changes
      ≡ (if is_kept orig changes mtime then time_of orig changes else some mtime)

module _ (source : Option ℕ) (deleted : Bool) where
  abbrev at : Option Dirent → Option Dirent → Entry
  at orig changes = record { orig = orig; changes = changes; source = source; deleted = deleted }

-- What setting a time leaves where it may be set: no memory for a clone and the archive as it was, or
-- the entry with the time, and no other entry changed.
abbrev pub Retimed : Room → Archive → ℕ → ℕ → Outcome (Unit {0}) → Type 0
Retimed room za idx mtime (r, za') =
    let e = entry_at za idx in
    let e' = entry_at za' idx in
    ((room.clone ≡ false) × (r ≡ err er_memory) × (za' ≡ za))
    ⊎ ((r ≡ ok tt)
        × (time_of e'.orig e'.changes
            ≡ (if is_kept e.orig e.changes mtime then time_of e.orig e.changes else some mtime))
        × ((i : ℕ) → i ≢ idx → entry_at za' i ≡ entry_at za i))

-- All of it, by what looking the entry up gives.
abbrev pub TimeSet : Room → Archive → ℕ → ℕ → Result (Bool × Dirent) → Outcome (Unit {0}) → Type 0
TimeSet room za idx mtime (err c) p = p ≡ (err c, za)
TimeSet room za idx mtime (ok d) p =
    (za.ch_flags ≡ true → p ≡ (err er_rdonly, za))
    × (za.ch_flags ≡ false → Retimed room za idx mtime p)
