-- ===== src/Archive/Delete.antt =====
-- The steps of `zip_delete` on well-formed archives.

use allvm_tools.Archive.Moves.{no_some, current-delete}
use allvm_tools.Archive.Text.{Reads-none}
use allvm_tools.Hash.Delete.{delete-refines}
use allvm_tools.Hash.Remove.{delete}
use allvm_tools.Archive.Renamed.{RenamedOk}
use allvm_tools.Archive.Updates.{unchange}
use allvm_tools.Archive.{Entry, entry_at, Hash, Room, set_entry, nentry, ok, entry_init, Archive}
use allvm_tools.Archive.Names.{unchange_data, unreplaced, source_free}
use allvm_tools.Archive.Inv.{IsValid, Named}
use allvm_tools.Base.{
  ℕ, none, sym, suc, inr, inl, zero, ◌≡◌, ◌∷◌, set, List, refl, subst, false, [], ap, leb, ◌<◌,
  get_or-set_self, true_ne_false, same_bytes_iff, ◌∙◌, arith, Bool-cases, same_bytes, Option, true,
  some,
}

pub set-set {ℓ} : {A : Type ℓ} (xs : List A) (i : ℕ) (a b : A) → set (set xs i a) i b ≡ set xs i b
set-set [] i a b = refl
set-set (x ∷ xs) zero a b = refl
set-set (x ∷ xs) (suc i) a b = ap (λ ys. x ∷ ys) (set-set xs i a b)

-- The invariant is about the entries and the table.
pub same-IsValid :
    (za za' : Archive) → za'.entry ≡ za.entry → za'.names ≡ za.names → IsValid za → IsValid za'
same-IsValid za za' es ns v =
    let over : List Entry → Hash → Archive = λ es' ns'. record za' { entry = es'; names = ns' } in
    subst (λ es'. IsValid (over es' za'.names)) (sym es)
      (subst (λ ns'. IsValid (over za.entry ns')) (sym ns)
        (record { table = v.table; entries = v.entries; located = v.located }))

-- `_zip_unchange_data` on the list of entries.
abbrev pub emptied : Entry → Entry
emptied e = record e { changes = unreplaced e.changes; source = none; deleted = false }

pub unchange_data-entry :
    (za : Archive) (i : ℕ)
    → ((unchange_data za i).entry ≡ set za.entry i (emptied (entry_at za i)))
      × ((unchange_data za i).names ≡ za.names)
unfolding unchange_data
unchange_data-entry za i = free (entry_at za i).source (set_entry za i (emptied (entry_at za i)))
  where
    free :
        (src : Option ℕ) (x : Archive)
        → ((source_free src x).entry ≡ x.entry) × ((source_free src x).names ≡ x.names)
    free none x = (refl, refl)
    free (some src) x = (refl, refl)

-- `_zip_unchange` on an entry whose duplicates are allowed.
pub unchange-entry :
    (room : Room) (za : Archive) (i : ℕ)
    → i < nentry za
    → let (r, za') = unchange room za i true in
      (r ≡ ok tt)
      × (za'.entry
          ≡ set za.entry i
              (record (entry_at za i) { changes = none; source = none; deleted = false }))
      × (za'.names ≡ za.names)
unfolding unchange unreplaced
unchange-entry room za i lt =
    let inside : leb (nentry za) i ≡ false = ground arith in
    let e = record (entry_at za i) { changes = none } in
    let za1 = set_entry za i e in
    let (es, ns) = unchange_data-entry za1 i in
    let at = get_or-set_self za.entry i e entry_init lt in
    rw (unchange, inside)
      (refl, es ∙ ap (λ x. set za1.entry i (emptied x)) at ∙ set-set za.entry i e (emptied e), ns)

-- The deletion of a name from the table.
pub delete-RenamedOk :
    (za : Archive) (idx : ℕ) (n : List ℕ)
    → IsValid za
    → ((name : List ℕ) → Named (entry_at za idx) name → name ≡ n)
    → RenamedOk idx za.names (
      ok tt,
      (
        record (entry_at za idx) { changes = none; source = none; deleted = true },
        (delete true za.names (some n)).1,
      ),
    )
delete-RenamedOk za idx n v unique =
    let e = entry_at za idx in
    (
      (delete-refines za.names v.table n).0,
      record {
        orig_reads = (v.entries idx).orig_reads;
        changes_reads = ([], Reads-none);
        live = λ h. refl;
        kept = λ de h off. cc;
      },
      λ name i at. elim (Bool-cases (same_bytes name n)) [
        | inl same ↦
            absurd (no_some (sym (current-delete za.names v.table n name ∙ rw same refl) ∙ at))
        | inr other ↦
            let before = sym (current-delete za.names v.table n name ∙ rw other refl) ∙ at in
            inl (
              λ is.
                  true_ne_false
                    ((same_bytes_iff name n).1
                      (unique name (v.located name idx (before ∙ ap some is)).1))
                    other,
              before,
            )
      ],
      λ c h. cc,
    )
