-- ===== src/Archive/Renamed.antt =====
-- A renamed entry and the table of names, in step.
use allvm_tools.Str.{equal}
use allvm_tools.Archive.Naming.{
  taken_over, Renamed, rename_entry, same_as_orig, changes_for, rename_from, rename_with, rename_to,
  rename_moved, new_name, old_name, move_name,
}
use allvm_tools.Archive.Moves.{some-injective, move_name-Moved, Roomy, Moved, no_some}
use allvm_tools.Archive.Rename.{
  old_name-OldName, new_name-NewName, alive, Called, Prepared, OldName, NewName,
  changes_for-Prepared, Said,
}
use allvm_tools.Archive.TakeOver.{taken_over-TakenOver}
use allvm_tools.Archive.Inv.{EntryOk, current, filename_of, Named}
use allvm_tools.Run.{Code}
use allvm_tools.Archive.{Room, Dirent, Str, Entry, Result, err, ok, er_memory}
use allvm_tools.Hash.{Hash}
use allvm_tools.Base.{
  ℕ, none, some, ◌<◌, ◌^◌, false, true_ne_false, Bool, refl, inr, Bool-cases, ◌∙◌, ap, ◌≢◌, subst,
  Option, true, ◌≡◌, List, sym, ==_iff, ◌==◌, ◌⊎◌, inl, ◌+◌, Option-cases,
}
use allvm_tools.Hash.Inv

-- What a renaming of an entry leaves, whatever it returns: a name is located as before at another
-- entry, or it is the name that this entry now has.
abbrev pub RenamedOk : ℕ → Hash → Renamed → Type 0
RenamedOk idx names (r, (e, names')) =
    Inv.IsValid names'
    × EntryOk e
    × ((name : List ℕ) (i : ℕ)
        → current names' name ≡ some i
        → ((i ≢ idx) × (current names name ≡ some i)) ⊎ ((i ≡ idx) × Named e name))
    × ((c : Code) → r ≡ err c → (name : List ℕ) → current names' name ≡ current names name)

-- After a success, the entry has the name that was given; the table locates it by that name, unless it
-- had that name before.
abbrev pub Reached : Room → Option Dirent → Bool → Str → Entry → ℕ → Renamed → Type 0
Reached room orig same s before idx (r, (e, names')) =
    r ≡ ok tt
    → (t : List ℕ) × Said room orig same s t
      × Named e t
      × (Named before t ⊎ (current names' t ≡ some idx))

abbrev pub RenamedTo : Room → Option Dirent → Bool → Str → Entry → ℕ → Hash → Renamed → Type 0
RenamedTo room orig same s before idx names p =
    RenamedOk idx names p × Reached room orig same s before idx p

equal-some :
    (orig : Option Dirent) (s : Str)
    → same_as_orig orig (some s) ≡ true
    → (f : Str) × (filename_of orig ≡ some f)
unfolding equal
equal-some none s h = cc
equal-some (some o) s h = elim (Option-cases o.filename) [
  | inl null ↦ absurd (true_ne_false h (ap (λ f. equal f (some s)) null))
  | inr (f, is) ↦ (f, is)
]

module _ (room : Room) (idx : ℕ) (names : Hash) (v : Inv.IsValid names) (all : Roomy room)
    (bound : names.nentries + 1 < 2 ^ 64) (fits : idx < 2 ^ 63) (source : Option ℕ)
    (orig : Option Dirent) (s₀ : Str) (before : Entry) where
  -- Nothing changed in the table.
  unmoved :
      (c : Code) (e : Entry) (names' : Hash)
      → EntryOk e
      → Inv.IsValid names'
      → ((name : List ℕ) → current names' name ≡ current names name)
      → ((name : List ℕ) → current names name ≡ some idx → Named e name)
      → RenamedOk idx names (err c, (e, names'))
  unmoved c e names' valid v' kept here = (
    v',
    valid,
    λ name i at.
        let at' = sym (kept name) ∙ at in
        elim (Bool-cases (i == idx)) [
          | inl same ↦ let is = (==_iff i idx).0 same in inr (is, here name (at' ∙ ap some is))
          | inr other ↦ inl (λ is. true_ne_false ((==_iff i idx).1 is) other, at')
        ],
    λ c' e'. kept,
  )

  rename_moved-RenamedTo :
      (changes : Option Dirent) (same : Bool) (str : Option Str) (new : List ℕ)
      (old : Option (List ℕ)) (p : Result (Unit {0}) × Hash)
      → EntryOk (alive source orig changes)
      → (same ≡ false → (de : Dirent) × (changes ≡ some de))
      → Called orig same str new
      → Said room orig same s₀ new
      → ((name : List ℕ) → current names name ≡ some idx → Named (alive source orig changes) name)
      → ((name : List ℕ) → Named (alive source orig changes) name → old ≡ some name)
      → ((name : List ℕ) → old ≡ some name → Named before name)
      → Moved idx new old names p
      → RenamedTo room orig same s₀ before idx names
          (rename_moved same str (alive source orig changes) p)
  rename_moved-RenamedTo changes same str new old (err c, names') valid some_changes called said
        here was had (v', inl (c', e, kept)) =
      (unmoved c (alive source orig changes) names' valid v' kept here, λ h. cc)
  rename_moved-RenamedTo changes same str new old (ok u, names') valid some_changes called said here
        was had (v', inl (c', e, kept)) =
      cc
  rename_moved-RenamedTo changes same str new old (err c, names') valid some_changes called said
        here was had (v', inr (e, moved, there)) =
      cc
  rename_moved-RenamedTo changes same str new old (ok u, names') valid some_changes called said here
        was had (v', inr (e, moved, there)) =
      let (valid', named) =
        taken_over-TakenOver source orig changes same str new valid some_changes called in
      let e' = alive source orig (taken_over orig changes same str) in
      (
        (
          v',
          valid',
          λ name i at.
              let (not_old, how) = moved name i at in
              elim how [
                | inl (is_new, is) ↦ inr (is, subst (Named e') (sym is_new) named)
                | inr located ↦
                    inl (λ is. not_old (was name (here name (located ∙ ap some is))), located)
              ],
          λ c' e'. cc,
        ),
        λ h. (
          new,
          said,
          named,
          elim there [ inl is_old ↦ inl (had new is_old) | inr placed ↦ inr placed ],
        ),
      )

  rename_from-RenamedTo :
      (changes : Option Dirent) (same : Bool) (str : Option Str) (new : List ℕ)
      (p : Option (Option (List ℕ)) × Entry)
      → EntryOk (alive source orig changes)
      → (same ≡ false → (de : Dirent) × (changes ≡ some de))
      → Called orig same str new
      → Said room orig same s₀ new
      → ((name : List ℕ) → current names name ≡ some idx → Named (alive source orig changes) name)
      → ((name : List ℕ) → Named (alive source orig changes) name → Named before name)
      → OldName (alive source orig changes) p
      → RenamedTo room orig same s₀ before idx names (rename_from room idx same names new str p)
  rename_from-RenamedTo changes same str new (none, e') valid some_changes called said here had
        (o, is, back, was, named) =
      absurd (no_some is)
  rename_from-RenamedTo changes same str new (some old, e') valid some_changes called said here had
        (o, is, back, was, named) =
      subst
        (λ e.
          RenamedTo room orig same s₀ before idx names
            (rename_from room idx same names new str (some old, e)))
        (sym back)
        (rename_moved-RenamedTo changes same str new old (move_name room idx new old names) valid
          some_changes called said here (λ name n. some-injective is ∙ was name n)
          (λ name h. had name (named name (sym (some-injective is) ∙ h)))
          (move_name-Moved room new old idx names v all bound fits))

  rename_to-RenamedTo :
      (changes : Option Dirent) (same : Bool) (p : Option (List ℕ) × (Entry × Option Str))
      → EntryOk (alive source orig changes)
      → (same ≡ false → (de : Dirent) × (changes ≡ some de))
      → ((name : List ℕ) → current names name ≡ some idx → Named (alive source orig changes) name)
      → ((name : List ℕ) → Named (alive source orig changes) name → Named before name)
      → NewName room orig same s₀ (alive source orig changes) p
      → RenamedTo room orig same s₀ before idx names (rename_to room idx same names p)
  rename_to-RenamedTo changes same (none, (e', str)) valid some_changes here had (back, called) =
      subst (λ e. RenamedTo room orig same s₀ before idx names (err er_memory, (e, names)))
        (sym back)
        (unmoved er_memory (alive source orig changes) names valid v (λ name. refl) here, λ h. cc)
  rename_to-RenamedTo changes same (some new, (e', str)) valid some_changes here had
        (back, called) =
      subst
        (λ e.
          RenamedTo room orig same s₀ before idx names
            (rename_to room idx same names (some new, (e, str))))
        (sym back)
        (rename_from-RenamedTo changes same str new
          (old_name room (alive source orig changes) orig changes) valid some_changes
          (called new refl).0 (called new refl).1 here had
          (old_name-OldName room source orig changes valid))

  rename_with-RenamedTo :
      (changes : Option Dirent) (same : Bool) (made : Option (Option Dirent))
      → EntryOk (alive source orig changes)
      → ((name : List ℕ) → current names name ≡ some idx → Named (alive source orig changes) name)
      → ((name : List ℕ) → Named (alive source orig changes) name → Named before name)
      → (same ≡ true → (f : Str) × (filename_of orig ≡ some f))
      → ((changes' : Option Dirent)
          → made ≡ some changes'
          → Prepared source orig same changes changes')
      → RenamedTo room orig same s₀ before idx names
          (rename_with room idx same (some s₀) (alive source orig changes) names made)
  rename_with-RenamedTo changes same none valid here had named prepared =
      (unmoved er_memory (alive source orig changes) names valid v (λ name. refl) here, λ h. cc)
  rename_with-RenamedTo changes same (some changes') valid here had named prepared =
      let (valid', kept, back, some_changes) = prepared changes' refl in
      let e = alive source orig changes' in
      rename_to-RenamedTo changes' same (new_name room e same (some s₀) orig) valid' some_changes
        (λ name at. kept name (here name at)) (λ name n. had name (back name n))
        (new_name-NewName room source orig changes' same s₀ valid' named)

-- With memory, a renaming of an entry that is not deleted keeps the table of names in step with it.
pub rename_entry-RenamedTo :
    (room : Room) (idx : ℕ) (names : Hash)
    → Inv.IsValid names
    → Roomy room
    → names.nentries + 1 < 2 ^ 64
    → idx < 2 ^ 63
    → (source : Option ℕ) (orig changes : Option Dirent) (s : Str)
    → EntryOk (alive source orig changes)
    → ((name : List ℕ) → current names name ≡ some idx → Named (alive source orig changes) name)
    → RenamedTo room orig
        (same_as_orig orig (some s))
        s
        (alive source orig changes)
        idx
        names
        (rename_entry room idx (some s) (alive source orig changes) names)
unfolding rename_entry
rename_entry-RenamedTo room idx names v all bound fits source orig changes s valid here =
    let same = same_as_orig orig (some s) in
    rename_with-RenamedTo room idx names v all bound fits source orig s (alive source orig changes)
      changes same (changes_for room.clone orig changes same) valid here (λ name n. n)
      (equal-some orig s)
      (λ changes'. changes_for-Prepared source room.clone orig changes same changes' valid)
