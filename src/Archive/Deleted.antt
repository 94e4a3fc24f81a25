-- ===== src/Archive/Deleted.antt =====
-- What `zip_delete` leaves of a well-formed archive.
use allvm_tools.Archive.SetName.{renamed-IsValid, ok-injective}
use allvm_tools.Archive.FileRename.{get_name-ReadOk}
use allvm_tools.Hash.Delete.{delete-refines}
use allvm_tools.Flags.{no_flags}
use allvm_tools.Archive.Delete.{unchange-entry, set-set, delete-RenamedOk, same-IsValid}
use allvm_tools.Hash.Remove.{delete}
use allvm_tools.Archive.Moves.{no_some, current-delete}
use allvm_tools.Archive.Renamed.{RenamedOk}
use allvm_tools.Run.{Code, er_rdonly}
use allvm_tools.Archive.{
  Room, nentry, Result, Hash, Outcome, err, ok, er_inval, entry_at, get_name, set_entry, entry_init,
  Entry, Archive,
}
use allvm_tools.Archive.Updates.{delete_entry, mark_deleted, delete_called, delete_named, unchange}
use allvm_tools.Archive.Inv.{IsValid, Named, current, shown, get_name-Named}
use allvm_tools.Base.{
  ℕ, false, Bool-cases, inr, ap, some, inl, sym, true, set, same_bytes, subst, none,
  get_or-set_self, get_or, length-set, ◌≡◌, ◌<◌, length, arith, List, if-cases, ◌∙◌, ◌≢◌, leb, refl,
  ◌⊎◌,
}
use allvm_tools.Hash.Inv

-- What `zip_delete` leaves: a well-formed archive with as many entries; after a success, no name is
-- located at the entry, and it has none.
abbrev pub Removed : Archive → ℕ → Outcome (Unit {0}) → Type 0
Removed za idx (r, za') =
    IsValid za'
    × (nentry za' ≡ nentry za)
    × (r ≡ ok tt
        → ((name : List ℕ)
            → (current za'.names name ≢ some idx) × (Named (entry_at za' idx) name → ⊥)))

failed-Removed : (za : Archive) (idx : ℕ) (c : Code) → IsValid za → Removed za idx (err c, za)
failed-Removed za idx c v = (v, refl, λ h. cc)

no_name : (name : List ℕ) (e : Entry) → e.changes ≡ none → e.deleted ≡ true → Named e name → ⊥
no_name name e bare gone (s, is, reads) =
    no_some
      (sym (ap (λ d. shown e.changes d e.orig) gone ∙ ap (λ c. shown c true e.orig) bare) ∙ is)

-- The last step, on an archive whose entry was restored.
mark_deleted-Removed :
    (za : Archive) (idx : ℕ) (names : Hash) (p : Outcome (Unit {0})) (e : Entry)
    → IsValid za
    → idx < nentry za
    → e.changes ≡ none
    → RenamedOk idx za.names (ok tt, (record e { deleted = true }, names))
    → p.0 ≡ ok tt
    → p.1.entry ≡ set za.entry idx e
    → p.1.names ≡ names
    → Removed za idx (mark_deleted idx p)
mark_deleted-Removed za idx names (err c, x) e v lt bare done fine es ns = cc
mark_deleted-Removed za idx names (ok u, x) e v lt bare done fine es ns =
    let gone = record e { deleted = true } in
    let final = set_entry x idx (record (entry_at x idx) { deleted = true }) in
    let at = get_or-set_self za.entry idx e entry_init lt in
    let entries : final.entry ≡ set za.entry idx gone =
      ap (λ xs. set xs idx (record (get_or xs idx entry_init) { deleted = true })) es
      ∙ ap (λ y. set (set za.entry idx e) idx (record y { deleted = true })) at
      ∙ set-set za.entry idx e gone in
    let valid : IsValid final =
      same-IsValid (record za { entry = set za.entry idx gone; names = names }) final entries ns
        (renamed-IsValid za idx (ok tt, (gone, names)) v lt done) in
    let at' : entry_at final idx ≡ gone =
      ap (λ xs. get_or xs idx entry_init) entries
      ∙ get_or-set_self za.entry idx gone entry_init lt in
    let unnamed = λ (name : List ℕ) (n : Named (entry_at final idx) name).
      no_name name (entry_at final idx) (ap (λ y. y.changes) at' ∙ bare) (ap (λ y. y.deleted) at')
        n in
    (
      valid,
      ap length entries ∙ length-set za.entry idx gone,
      λ h name. (λ located. unnamed name (valid.located name idx located).1, unnamed name),
    )

delete_named-Removed :
    (room : Room) (za : Archive) (idx : ℕ) (n : List ℕ) (r : Result (Unit {0})) (names : Hash)
    → IsValid za
    → idx < nentry za
    → RenamedOk idx za.names
        (ok tt, (record (entry_at za idx) { changes = none; source = none; deleted = true }, names))
    → Inv.IsValid names
    → ((name : List ℕ) (i : ℕ) → current names name ≡ some i → current za.names name ≡ some i)
    → Removed za idx (delete_named room idx za (r, names))
delete_named-Removed room za idx n (err c) names v lt done v' fewer = (
  record {
    table = v';
    entries = v.entries;
    located = λ name i at. v.located name i (fewer name i at);
  },
  refl,
  λ h. cc,
)
delete_named-Removed room za idx n (ok u) names v lt done v' fewer =
    let za2 = record za { names = names } in
    let (fine, es, ns) = unchange-entry room za2 idx lt in
    mark_deleted-Removed za idx names (unchange room za2 idx true)
      (record (entry_at za idx) { changes = none; source = none; deleted = false }) v lt refl done
      fine es ns

delete_called-Removed :
    (room : Room) (za : Archive) (idx : ℕ) (r : Result (List ℕ))
    → room.shrink ≡ true
    → IsValid za
    → idx < nentry za
    → ((n : List ℕ) → r ≡ ok n → (name : List ℕ) → Named (entry_at za idx) name → name ≡ n)
    → Removed za idx (delete_called room idx (r, za))
delete_called-Removed room za idx (err c) shrinks v lt unique = failed-Removed za idx c v
delete_called-Removed room za idx (ok n) shrinks v lt unique =
    let p = delete true za.names (some n) in
    subst (λ b. Removed za idx (delete_named room idx za (delete b za.names (some n))))
      (sym shrinks)
      (delete_named-Removed room za idx n p.0 p.1 v lt (delete-RenamedOk za idx n v (unique n refl))
        (delete-refines za.names v.table n).0
        (λ name i at. elim (Bool-cases (same_bytes name n)) [
          | inl same ↦
              absurd (no_some (sym (current-delete za.names v.table n name ∙ rw same refl) ∙ at))
          | inr other ↦ sym (current-delete za.names v.table n name ∙ rw other refl) ∙ at
        ]))

-- `zip_delete` from its start.
pub delete_entry-Removed :
    (room : Room) (za : Archive) (idx : ℕ)
    → room.shrink ≡ true
    → IsValid za
    → Removed za idx (delete_entry room za idx)
unfolding delete_entry
delete_entry-Removed room za idx shrinks v =
    if-cases (Removed za idx) (leb (nentry za) idx) _ _ (λ out. failed-Removed za idx er_inval v)
      (λ inside.
        let lt : idx < nentry za = ground arith in
        if-cases (Removed za idx) za.ch_flags _ _ (λ rdonly. failed-Removed za idx er_rdonly v)
          (λ writable.
            let p = get_name room za idx no_flags in
            let (same, live) = get_name-ReadOk room za idx v in
            subst (λ x. Removed za idx (delete_called room idx (p.0, x))) (sym same)
              (delete_called-Removed room za idx p.0 shrinks v lt (λ n h name named.
                ok-injective
                  (sym (ap (λ q. q.0) (get_name-Named room za idx name lt named)) ∙ h)))))

-- What a deletion leaves: a well-formed archive with as many entries; it fails, or no name is located at
-- the entry any more, and it has none.
abbrev pub Dropped : Archive → ℕ → Outcome (Unit {0}) → Type 0
Dropped za idx (r, za') =
    IsValid za'
    × (nentry za' ≡ nentry za)
    × (((c : Code) × (r ≡ err c))
        ⊎ ((name : List ℕ)
            → (current za'.names name ≢ some idx) × (Named (entry_at za' idx) name → ⊥)))

-- `zip_delete` on a well-formed archive, with memory for a smaller table, leaves a well-formed archive
-- with as many entries; it fails, or no name is located at the entry any more, and it has no name.
pub delete_entry-Dropped :
    (room : Room) (za : Archive) (idx : ℕ)
    → room.shrink ≡ true
    → IsValid za
    → Dropped za idx (delete_entry room za idx)
delete_entry-Dropped room za idx shrinks v =
    let p = delete_entry room za idx in
    let (v', len, gone) = delete_entry-Removed room za idx shrinks v in (v', len, split p.0 gone)
  where
    split : {P : Type 0} (r : Result (Unit {0})) → (r ≡ ok tt → P) → ((c : Code) × (r ≡ err c)) ⊎ P
    split (ok u) h = inr (h refl)
    split (err c) h = inl (c, refl)
