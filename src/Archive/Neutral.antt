-- ===== src/Archive/Neutral.antt =====
-- Changes to an archive that leave the names of its entries alone: `_zip_add_entry`,
-- `_zip_unchange_data` and the mark of replaced data.
use allvm_tools.Archive.Moves.{no_some}
use allvm_tools.Archive.Text.{Reads, Reads-none}
use allvm_tools.Archive.Names.{unreplaced, cm_replaced_default}
use allvm_tools.Archive.Rename.{alive}
use allvm_tools.Archive.SetName.{renamed-IsValid}
use allvm_tools.Archive.Delete.{emptied}
use allvm_tools.Archive.{
  has_bit, nentry, set_bit, clear_bit, entry_at, comp_method_bit, set_entry, filename_bit, ok,
  Archive, Entry,
}
use allvm_tools.Dirent.{Dirent}
use allvm_tools.Archive.Inv.{IsValid, EntryOk, Named, filename_of}
use allvm_tools.Base.{
  ℕ, ap, inr, Bool, Option, true_ne_false, ◌∙◌, ◌≡◌, refl, ◌<◌, ◌==◌, Bool-cases, List, some,
  ==_iff, inl, if-cases, false, ◌%◌, arith, none, ◌≢◌, [], ◌&&◌, true, sym,
}

-- An entry whose name stays.
abbrev pub SameName : Entry → Entry → Type 0
SameName e e' = EntryOk e' × ((t : List ℕ) → Named e t → Named e' t)

pub neutral-IsValid :
    (za : Archive) (idx : ℕ) (e : Entry)
    → IsValid za
    → idx < nentry za
    → SameName (entry_at za idx) e
    → IsValid (set_entry za idx e)
neutral-IsValid za idx e v lt (valid, same) =
    renamed-IsValid za idx (ok tt, (e, za.names)) v lt
      (
        v.table,
        valid,
        λ name i at. elim (Bool-cases (i == idx)) [
          | inl here ↦
              let is = (==_iff i idx).0 here in
              inr (is, same name (v.located name idx (at ∙ ap some is)).1)
          | inr other ↦ inl (λ is. true_ne_false ((==_iff i idx).1 is) other, at)
        ],
        λ c h name. refl,
      )

-- Setting and clearing the bit of the compression method leaves that of the name.
pub set_bit-filename :
    (w : ℕ) → has_bit (set_bit w comp_method_bit) filename_bit ≡ has_bit w filename_bit
unfolding has_bit set_bit
set_bit-filename w = elim (Bool-cases (has_bit w comp_method_bit)) [
  | inl on ↦ rw on refl
  | inr off ↦ let even : w % 2 ≢ 1 = ground arith in rw off (ap (λ n. n == 1) (omega arith))
]

clear_bit-filename :
    (w : ℕ) → has_bit (clear_bit w comp_method_bit) filename_bit ≡ has_bit w filename_bit
unfolding has_bit clear_bit
clear_bit-filename w = elim (Bool-cases (has_bit w comp_method_bit)) [
  | inl on ↦ let odd : w % 2 ≡ 1 = ground arith in rw on (ap (λ n. n == 1) (omega arith))
  | inr off ↦ rw off refl
]

abbrev pub changed_of : Option Dirent → ℕ
changed_of none = 0
changed_of (some d) = d.changed

abbrev Emptied : Option Dirent → Option Dirent → Option Dirent → Type 0
Emptied orig changes changes' = SameName (alive none orig changes) (alive none orig changes')

unreplaced-Emptied :
    (orig : Option Dirent) (de : Dirent)
    → EntryOk (alive none orig (some de))
    → Emptied orig (some de) (unreplaced (some de))
unfolding unreplaced has_bit
unreplaced-Emptied orig de valid =
    let P = Emptied orig (some de) in
    let w = clear_bit de.changed comp_method_bit in
    if-cases P (has_bit de.changed comp_method_bit && de.comp_method == cm_replaced_default) _ _
      (λ replaced_before.
        if-cases P (w == 0) _ _
          (λ empty.
            let off : has_bit de.changed filename_bit ≡ false =
              sym (clear_bit-filename de.changed)
              ∙ ap (λ x. has_bit x filename_bit) ((==_iff w 0).0 empty) in
            (
              record {
                orig_reads = valid.orig_reads;
                changes_reads = ([], Reads-none);
                live = λ h. cc;
                kept = λ d h. cc;
              },
              λ t (s, is, reads). (s, sym (valid.kept de refl off) ∙ is, reads),
            ))
          (λ more. (
            record {
              orig_reads = valid.orig_reads;
              changes_reads = valid.changes_reads;
              live = λ h. cc;
              kept = λ d h off.
                  sym (ap filename_of h)
                  ∙ valid.kept de refl (
                      sym (clear_bit-filename de.changed)
                      ∙ ap (λ x. has_bit (changed_of x) filename_bit) h
                      ∙ off);
            },
            λ t n. n,
          )))
      (λ other. (valid, λ t n. n))

bare :
    (orig : Option Dirent)
    → (t : List ℕ) × Reads (filename_of orig) t
    → EntryOk (alive none orig none)
bare orig reads = record {
  orig_reads = reads;
  changes_reads = ([], Reads-none);
  live = λ h. refl;
  kept = λ d h. cc;
}

-- An entry after `_zip_unchange_data`.
pub emptied-SameName :
    (orig changes : Option Dirent) (source : Option ℕ) (deleted : Bool)
    → let e : Entry = record {
      orig = orig;
      changes = changes;
      source = source;
      deleted = deleted;
    } in
      EntryOk e → SameName e (emptied e)
unfolding unreplaced
emptied-SameName orig none source true valid = (bare orig valid.orig_reads, λ t (s, is, reads). cc)
emptied-SameName orig none source false valid = (bare orig valid.orig_reads, λ t n. n)
emptied-SameName orig (some de) source true valid = absurd (no_some (sym (valid.live refl)))
emptied-SameName orig (some de) source false valid = unreplaced-Emptied orig de (record {
  orig_reads = valid.orig_reads;
  changes_reads = valid.changes_reads;
  live = valid.live;
  kept = valid.kept;
})
