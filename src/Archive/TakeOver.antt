-- ===== src/Archive/TakeOver.antt =====
-- The entry that `_zip_set_name` leaves.
use allvm_tools.Archive.Rename.{alive, Called, has_bit-set_bit}
use allvm_tools.Archive.Moves.{no_some}
use allvm_tools.Archive.Text.{Reads, Reads-none}
use allvm_tools.Archive.Inv.{EntryOk, Named, filename_of}
use allvm_tools.Archive.Naming.{taken_over}
use allvm_tools.Dirent.{Dirent}
use allvm_tools.Archive.{has_bit, clear_bit, Str, filename_bit}
use allvm_tools.Base.{
  ℕ, ◌≡◌, true, Bool, Option, none, List, some, false, ap, sym, subst, ◌∙◌, refl, arith, [], ◌==◌,
  not, if-cases,
}

-- The entry takes the name over.
abbrev pub TakenOver : Option ℕ → Option Dirent → List ℕ → Option Dirent → Type 0
TakenOver source orig t changes =
    EntryOk (alive source orig changes) × Named (alive source orig changes) t

pub taken_over-TakenOver :
    (source : Option ℕ) (orig changes : Option Dirent) (same : Bool) (str : Option Str) (t : List ℕ)
    → EntryOk (alive source orig changes)
    → (same ≡ false → (de : Dirent) × (changes ≡ some de))
    → Called orig same str t
    → TakenOver source orig t (taken_over orig changes same str)
unfolding taken_over
taken_over-TakenOver source orig none false str t valid some_changes called =
    absurd (no_some ((some_changes refl).1))
taken_over-TakenOver source orig (some de) false str t valid some_changes (s, is, reads) = (
  record {
    orig_reads = valid.orig_reads;
    changes_reads = (t, subst (λ x. Reads x t) (sym is) reads);
    live = λ e. cc;
    kept = λ d h off.
        absurd (
          on_off (ap (λ x. has_bit (changed_of x) filename_bit) h) (has_bit-set_bit de.changed)
            off);
  },
  (s, is, reads),
)
  where
    changed_of : Option Dirent → ℕ
    changed_of none = 0
    changed_of (some d) = d.changed

    on_off : {a b : Bool} → a ≡ b → a ≡ true → b ≡ false → ⊥
    on_off p q r = cc
taken_over-TakenOver source orig none true str t valid some_changes (s, is, reads) =
    (valid, (s, is, reads))
taken_over-TakenOver source none (some de) true str t valid some_changes (s, is, reads) = cc
taken_over-TakenOver source (some o) (some de) true str t valid some_changes (s, is, reads) =
    let original : TakenOver source (some o) t none = (
      record {
        orig_reads = valid.orig_reads;
        changes_reads = ([], Reads-none);
        live = λ e. cc;
        kept = λ d h off. cc;
      },
      (s, is, reads),
    ) in
    let w = clear_bit de.changed filename_bit in
    let P = TakenOver source (some o) t in
    if-cases P (not (has_bit de.changed filename_bit)) _ _
      (λ off. (valid, (s, valid.kept de refl (ground arith) ∙ is, reads)))
      (λ on.
        if-cases P (w == 0) _ _ (λ empty. original)
          (λ more. (
            record {
              orig_reads = valid.orig_reads;
              changes_reads = valid.orig_reads;
              live = λ e. cc;
              kept = λ d h off. sym (ap filename_of h);
            },
            (s, is, reads),
          )))
