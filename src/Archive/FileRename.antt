-- ===== src/Archive/FileRename.antt =====
-- `zip_get_name` and `zip_file_rename` on well-formed archives.
use allvm_tools.Run.{er_rdonly, Code}
use allvm_tools.Archive.SetName.{Kept, unchanged-Kept, set_name-Kept, Given}
use allvm_tools.Archive.Naming.{file_rename, ends_in_slash, set_name}
use allvm_tools.Archive.Moves.{no_some, Roomy}
use allvm_tools.Archive.Text.{Reads}
use allvm_tools.Flags.{no_flags}
use allvm_tools.Archive.{
  Entry, Archive, Dirent, Result, err, Outcome, get_name, Flags, ok, entry_at, nentry, set_filename,
  Str, set_entry, er_memory, entry_init, same_bool, er_inval, Room, entry_dirent, get_dirent,
}
use allvm_tools.Archive.Inv.{
  IsValid, EntryOk, get_name-read_name, read_name, set-get_or, current, Named,
}
use allvm_tools.Base.{
  ℕ, ◌<◌, some, refl, true, Option, none, List, subst, false, sym, Bool, ◌≡◌, length, arith, leb,
  ap, ◌||◌, ◌∷◌, ◌-◌, if◌then◌else◌, ◌∙◌, if-cases, ◌^◌, ltb, ◌+◌, ◌⊎◌, inr, ◌≢◌, inl,
}

-- A name can be read from an entry that is not deleted only, and reading it changes nothing.
abbrev ReadOk : Room → Archive → ℕ → Outcome (List ℕ) → Type 0
ReadOk room za i (r, za') =
    (za' ≡ za) × ((n : List ℕ) → r ≡ ok n → ((entry_at za i).deleted ≡ false) × (i < nentry za))

abbrev DirentOk : Entry → Result (Bool × Dirent) → Type 0
DirentOk e (err c) = Unit {0}
DirentOk e (ok (original, de)) =
    (e.deleted ≡ false)
    × (t : List ℕ) × Reads de.filename t
    × (set_filename e original de de.filename ≡ e)

entry_dirent-DirentOk :
    (orig changes : Option Dirent) (source : Option ℕ) (deleted : Bool)
    → let e : Entry = record {
      orig = orig;
      changes = changes;
      source = source;
      deleted = deleted;
    } in
      EntryOk e → DirentOk e (entry_dirent e no_flags)
unfolding entry_dirent
entry_dirent-DirentOk orig (some de) source true valid = absurd (no_some (sym (valid.live refl)))
entry_dirent-DirentOk orig (some de) source false valid =
    (refl, valid.changes_reads.0, valid.changes_reads.1, refl)
entry_dirent-DirentOk none none source deleted valid = tt
entry_dirent-DirentOk (some o) none source true valid = tt
entry_dirent-DirentOk (some o) none source false valid =
    (refl, valid.orig_reads.0, valid.orig_reads.1, refl)

read_name-ReadOk :
    (room : Room) (za : Archive) (i : ℕ) (r : Result (Bool × Dirent))
    → i < nentry za
    → DirentOk (entry_at za i) r
    → ReadOk room za i (read_name room za i r)
read_name-ReadOk room za i (err c) lt dirent = (refl, λ n h. cc)
read_name-ReadOk room za i (ok (original, de)) lt (live, t, reads, back) =
    let e = entry_at za i in
    subst
      (λ (p : Option (List ℕ) × Option Str). ReadOk room za i (
        let za' = set_entry za i (set_filename e original de p.1) in
        elim p.0 as (λ _. Outcome (List ℕ)) [ none ↦ (err er_memory, za') | some n ↦ (ok n, za') ]))
      (sym (reads room.text))
      (
        ap (set_entry za i) back
            ∙ ap (λ es. record za { entry = es }) (set-get_or za.entry i entry_init),
        λ n h. (live, lt),
      )

pub get_name-ReadOk :
    (room : Room) (za : Archive) (i : ℕ)
    → IsValid za
    → ReadOk room za i (get_name room za i no_flags)
unfolding get_dirent
get_name-ReadOk room za i v =
    let e = entry_at za i in
    subst (ReadOk room za i) (sym (get_name-read_name room za i)) (
      if-cases (λ (r : Result (Bool × Dirent)). ReadOk room za i (read_name room za i r))
        (leb (nentry za) i) _ _ (λ out. (refl, λ n h. cc))
        (λ inside.
          read_name-ReadOk room za i (entry_dirent e no_flags) (ground arith)
            (entry_dirent-DirentOk e.orig e.changes e.source e.deleted (v.entries i))))

-- `zip_file_rename` in the terms of `_zip_set_name`.
pub file_rename-Kept :
    (room : Room) (za : Archive) (idx c : ℕ) (cs : List ℕ) (flags : Flags)
    (before_old before_new : ℕ)
    → Roomy room
    → IsValid za
    → za.names.nentries + 1 < 2 ^ 64
    → idx < 2 ^ 63
    → Kept room idx
        (c ∷ cs)
        flags
        za
        (file_rename room before_old before_new za idx (some (c ∷ cs)) flags)
unfolding file_rename
file_rename-Kept room za idx c cs flags before_old before_new all v bound fits =
    let (r, za') = get_name room za idx no_flags in
    let (same, live) = get_name-ReadOk room za idx v in
    let too_long = ltb (2 ^ 16 - 1) (length (c ∷ cs)) in
    if-cases (Kept room idx (c ∷ cs) flags za) (leb (nentry za) idx || too_long) _ _
      (λ e. unchanged-Kept room idx (c ∷ cs) flags za er_inval v)
      (λ inside.
        if-cases (Kept room idx (c ∷ cs) flags za) za.ch_flags _ _
          (λ e. unchanged-Kept room idx (c ∷ cs) flags za er_rdonly v)
          (λ writable.
            subst
              (λ (x : Archive).
                Kept room idx (c ∷ cs) flags za (elim r as (λ _. Outcome (Unit {0})) [
                  | err k ↦ (err k, x)
                  | ok o ↦
                      if same_bool (ends_in_slash before_new (c ∷ cs)) (ends_in_slash before_old o)
                      then set_name room x idx (some (c ∷ cs)) flags
                      else (err er_inval, x)
                ]))
              (sym same) (go r (λ n h. (live n h).0))))
  where
    go :
        (r : Result (List ℕ))
        → ((n : List ℕ) → r ≡ ok n → (entry_at za idx).deleted ≡ false)
        → Kept room idx (c ∷ cs) flags za (elim r as (λ _. Outcome (Unit {0})) [
          | err k ↦ (err k, za)
          | ok o ↦
              if same_bool (ends_in_slash before_new (c ∷ cs)) (ends_in_slash before_old o)
              then set_name room za idx (some (c ∷ cs)) flags
              else (err er_inval, za)
        ])
    go (err k) live = unchanged-Kept room idx (c ∷ cs) flags za k v
    go (ok o) live =
        if-cases (Kept room idx (c ∷ cs) flags za)
          (same_bool (ends_in_slash before_new (c ∷ cs)) (ends_in_slash before_old o)) _ _
          (λ e. set_name-Kept room za idx all v bound fits c cs flags (live o refl))
          (λ e. unchanged-Kept room idx (c ∷ cs) flags za er_inval v)

-- What a renaming leaves: a well-formed archive with as many entries, all others as they were. If it
-- succeeds, the entry has the given name, and is located by it unless it had that name before; or the
-- names are located as before.
abbrev pub NameKept : Room → ℕ → List ℕ → Flags → Archive → Outcome (Unit {0}) → Type 0
NameKept room idx name flags za (r, za') =
    IsValid za'
    × (nentry za' ≡ nentry za)
    × ((i : ℕ) → i ≢ idx → entry_at za' i ≡ entry_at za i)
    × (((r ≡ ok tt)
          × (t : List ℕ) × Given room name flags (entry_at za idx).orig t
          × Named (entry_at za' idx) t
          × (Named (entry_at za idx) t ⊎ (current za'.names t ≡ some idx)))
        ⊎ ((c : Code) × (r ≡ err c) × ((n : List ℕ) → current za'.names n ≡ current za.names n)))

Kept-NameKept :
    (room : Room) (idx : ℕ) (name : List ℕ) (flags : Flags) (za : Archive) (p : Outcome (Unit {0}))
    → Kept room idx name flags za p
    → NameKept room idx name flags za p
Kept-NameKept room idx name flags za (ok u, za') (v, len, kept, others, arrived) =
    let (t, given, named, how) = arrived refl in (v, len, others, inl (refl, t, given, named, how))
Kept-NameKept room idx name flags za (err c, za') (v, len, kept, others, arrived) =
    (v, len, others, inr (c, refl, kept c refl))

-- With memory, and room in the table, `zip_file_rename` to a name that is neither NULL nor empty leaves
-- a well-formed archive well formed, with as many entries and no other entry changed. If it succeeds,
-- the entry has the given name, as its string is read, and is located by it unless it had that name
-- before; if it fails, the names are located as before.
pub file_rename-NameKept :
    (room : Room) (za : Archive) (idx c : ℕ) (cs : List ℕ) (flags : Flags)
    (before_old before_new : ℕ)
    → Roomy room
    → IsValid za
    → za.names.nentries + 1 < 2 ^ 64
    → idx < 2 ^ 63
    → NameKept room idx
        (c ∷ cs)
        flags
        za
        (file_rename room before_old before_new za idx (some (c ∷ cs)) flags)
file_rename-NameKept room za idx c cs flags before_old before_new all v bound fits =
    Kept-NameKept room idx (c ∷ cs) flags za
      (file_rename room before_old before_new za idx (some (c ∷ cs)) flags)
      (file_rename-Kept room za idx c cs flags before_old before_new all v bound fits)
