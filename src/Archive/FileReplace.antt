-- ===== src/Archive/FileReplace.antt =====
-- `zip_file_replace` on well-formed archives.
use allvm_tools.Archive.Replace.{Replaced, replace_data-Replaced, HasSource}
use allvm_tools.Run.{er_rdonly}
use allvm_tools.Archive.Replacing.{file_replace, replace_entry, target, without_index, replace_data}
use allvm_tools.Archive.{Archive, Outcome, nentry, Room, err, Flags, er_inval, ok, Result}
use allvm_tools.Archive.Inv.{IsValid}
use allvm_tools.Base.{ℕ, refl, some, true, arith, ◌≡◌, if◌then◌else◌, leb, false, ◌<◌, Bool}

-- What it leaves: a well-formed archive, with as many entries and the same table of names; it succeeds
-- exactly for an entry of an archive that may be written, which then has the source.
abbrev pub FileReplaced : Archive → ℕ → ℕ → Outcome (Unit {0}) → Type 0
FileReplaced za idx src (r, za') =
    IsValid za'
    × (nentry za' ≡ nentry za)
    × (za'.names ≡ za.names)
    × (r ≡ (
        if leb (nentry za) idx then err er_inval else if za.ch_flags then err er_rdonly else ok tt))
    × (r ≡ ok tt → HasSource za idx src za')

-- With memory for a clone, `zip_file_replace` with a source keeps a well-formed archive well formed,
-- with as many entries and the same table of names; it succeeds exactly for an entry of an archive that
-- is not read-only. That entry then has the source and its original directory entry, and is not deleted;
-- if it has an original, its changes are marked as ones of the compression method; and no other entry
-- has changed.
pub file_replace-FileReplaced :
    (room : Room) (za : Archive) (idx src : ℕ) (flags : Flags)
    → room.clone ≡ true
    → IsValid za
    → FileReplaced za idx src (file_replace room za idx (some src) flags)
unfolding file_replace replace_entry target
file_replace-FileReplaced room za idx src flags clones v =
    let inval : Result (Unit {0}) = err er_inval in
    both (leb (nentry za) idx) inval (if za.ch_flags then err er_rdonly else ok tt) (inval, za) _
      (λ out. (v, refl, refl, refl, λ h. cc)) (λ inside. written za.ch_flags (ground arith))
  where
    Holds : Result (Unit {0}) → Outcome (Unit {0}) → Type 0
    Holds expected (r, za') =
        IsValid za'
        × (nentry za' ≡ nentry za)
        × (za'.names ≡ za.names)
        × (r ≡ expected)
        × (r ≡ ok tt → HasSource za idx src za')

    both :
        (b : Bool) (x x' : Result (Unit {0})) (y y' : Outcome (Unit {0}))
        → (b ≡ true → Holds x y)
        → (b ≡ false → Holds x' y')
        → Holds (if b then x else x') (if b then y else y')
    both true x x' y y' on_true on_false = on_true refl
    both false x x' y y' on_true on_false = on_false refl

    done :
        (p : Outcome ℕ)
        → Replaced za idx src p
        → IsValid (without_index p).1
          × (nentry (without_index p).1 ≡ nentry za)
          × ((without_index p).1.names ≡ za.names)
          × ((without_index p).0 ≡ ok tt)
          × ((without_index p).0 ≡ ok tt → HasSource za idx src (without_index p).1)
    done (ok i, x) (vx, e, len, names, has) = (vx, len, names, refl, λ h. has)
    done (err c, x) (vx, e, len, names, has) = cc

    written :
        (b : Bool)
        → idx < nentry za
        → Holds
            (if b then err er_rdonly else ok tt)
            (without_index (if b then (err er_rdonly, za) else replace_data room za idx src))
    written true lt = (v, refl, refl, refl, λ h. cc)
    written false lt =
        done (replace_data room za idx src) (replace_data-Replaced room za idx src clones v lt)
