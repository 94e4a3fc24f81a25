-- ===== src/ZipArchive/Listing.antt =====
-- What the list of names of an archive says of its entries.
use allvm_tools.Archive.FileRename.{file_rename-Kept}
use allvm_tools.Archive.FileReplace.{file_replace-FileReplaced}
use allvm_tools.Run.{Code}
use allvm_tools.Hash.{Hash}
use allvm_tools.Archive.Moves.{Roomy}
use allvm_tools.Archive.Added.{Appended, file_add-Appended}
use allvm_tools.Archive.{nentry, Outcome, Archive, Room}
use allvm_tools.ZipArchive.{
  add_entry, write_buffer_to_entry, Surroundings, is_ok, file_add, ok, err, utf_8, write_existing,
  update_entry, Result, file_replace, file_rename, ZipArchive, Flags,
}
use allvm_tools.Archive.Inv.{IsValid, current}
use allvm_tools.Base.{
  ℕ, inr, refl, ◌^◌, some, Bool, ◌<◌, List, [], ◌≡◌, if◌then◌else◌, ◌+◌, ◌∷◌, ◌++◌, length,
  length-append, Option, none, inl, true, subst, sym, not, ◌∙◌, ap, if-cases, ◌⊎◌, false,
}

-- An addition from the archive library's call on, in step with its entries or not.
abbrev pub Listed : ZipArchive → Bool × ZipArchive → Type 0
Listed z (done, z') =
    IsValid z'.archive
    × (length z'.files ≡ length z.files + 1)
    × (nentry z'.archive ≡ (if done then nentry z.archive + 1 else nentry z.archive))

listed :
    (room : Room) (given : List ℕ) (flags : Flags) (src : ℕ) (z : ZipArchive) (buf name : List ℕ)
    (p : Outcome ℕ)
    → Appended room given flags src z.archive p
    → Listed z (
      is_ok p.0,
      record {
        archive = p.1;
        files = z.files ++ (name ∷ []);
        write_buffers = z.write_buffers ++ (buf ∷ []);
      },
    )
listed room given flags src z buf name (ok n, za)
      (v, before, inl (e, grown, source, t, made, at, named)) =
    (v, length-append z.files (name ∷ []), grown)
listed room given flags src z buf name (ok n, za) (v, before, inr (c, e, same, names)) = cc
listed room given flags src z buf name (err c, za)
      (v, before, inl (e, grown, source, t, made, at, named)) =
    cc
listed room given flags src z buf name (err c, za) (v, before, inr (c', e, same, names)) =
    (v, length-append z.files (name ∷ []), same)

-- With memory, and room in the table, `ZipArchive::addEntry` of a name that is not empty keeps the
-- archive well formed. Its list of names gets one name longer whatever it returns, and its archive one
-- entry longer exactly if it returns true.
pub add_entry-Listed :
    (env : Surroundings) (made : Option ℕ) (z : ZipArchive) (buf : List ℕ) (c : ℕ) (cs : List ℕ)
    → Roomy env.room
    → IsValid z.archive
    → z.archive.names.nentries + 1 < 2 ^ 64
    → nentry z.archive < 2 ^ 63
    → Listed z (add_entry env made z buf (c ∷ cs))
unfolding add_entry write_buffer_to_entry
add_entry-Listed env none z buf c cs all v bound fits =
    (v, length-append z.files ((c ∷ cs) ∷ []), refl)
add_entry-Listed env (some src) z buf c cs all v bound fits =
    listed env.room (c ∷ cs) utf_8 src z buf (c ∷ cs)
      (file_add env.room z.archive (some (c ∷ cs)) (some src) utf_8)
      (file_add-Appended env.room z.archive c cs src utf_8 all v refl bound fits)

-- An update with a new name, with what a positive answer means for the names.
abbrev Unmoved : Archive → Bool × Archive → Type 0
Unmoved za (done, za') =
    IsValid za'
    × (nentry za' ≡ nentry za)
    × (done ≡ true → (name : List ℕ) → current za'.names name ≡ current za.names name)

write_existing-Unmoved :
    (env : Surroundings) (za : Archive) (idx src c : ℕ) (cs : List ℕ)
    → Roomy env.room
    → IsValid za
    → za.names.nentries + 1 < 2 ^ 64
    → idx < 2 ^ 63
    → Unmoved za (write_existing env za idx src (c ∷ cs))
unfolding write_existing
write_existing-Unmoved env za idx src c cs all v bound fits =
    let p = file_replace env.room za idx (some src) utf_8 in
    let (v1, len1, names, code, source) =
      file_replace-FileReplaced env.room za idx src utf_8 (ap (λ m. m.clone) (all.2)) v in
    let q = file_rename env.room env.before env.before p.1 idx (some (c ∷ cs)) utf_8 in
    let (v2, len2, kept, others, arrived) =
      file_rename-Kept env.room p.1 idx c cs utf_8 env.before env.before all v1
        (subst (λ h. h.nentries + 1 < 2 ^ 64) (sym names) bound) fits in
    if-cases (Unmoved za) (is_ok p.0) _ _
      (λ replaced. (
        v2,
        len2 ∙ len1,
        λ h name. failed q.1.names p.1.names q.0 h kept name ∙ ap (λ t. current t name) names,
      ))
      (λ refused. (v1, len1, λ h. cc))
  where
    failed :
        (A B : Hash) (r : Result (Unit {0}))
        → not (is_ok r) ≡ true
        → ((c : Code) → r ≡ err c → (name : List ℕ) → current A name ≡ current B name)
        → (name : List ℕ) → current A name ≡ current B name
    failed A B (ok u) h kept = cc
    failed A B (err c) h kept = kept c refl

-- What an update with a new name leaves: a well-formed archive with as many entries; the answer is
-- false, or the names are located as before.
abbrev pub Unrenamed : Archive → Bool × Archive → Type 0
Unrenamed za (done, za') =
    IsValid za'
    × (nentry za' ≡ nentry za)
    × ((done ≡ false) ⊎ ((name : List ℕ) → current za'.names name ≡ current za.names name))

-- `ZipArchive::updateEntry` with a new name that is not empty, on a well-formed archive, with memory and
-- room in the table: the archive stays well formed, with as many entries; the answer is false, or the
-- names are located as before.
pub update_entry-Unrenamed :
    (env : Surroundings) (made : Option ℕ) (z : ZipArchive) (idx : ℕ) (buf : List ℕ) (c : ℕ)
    (cs : List ℕ)
    → Roomy env.room
    → IsValid z.archive
    → z.archive.names.nentries + 1 < 2 ^ 64
    → idx < 2 ^ 63
    → let (done, z') = update_entry env made z idx buf (c ∷ cs) in
      Unrenamed z.archive (done, z'.archive)
unfolding update_entry write_buffer_to_entry
update_entry-Unrenamed env none z idx buf c cs all v bound fits = (v, refl, inl refl)
update_entry-Unrenamed env (some src) z idx buf c cs all v bound fits =
    let p = write_existing env z.archive idx src (c ∷ cs) in
    let (v', len, kept) = write_existing-Unmoved env z.archive idx src c cs all v bound fits in
    (v', len, answered p.0 kept)
  where
    answered : {P : Type 0} (done : Bool) → (done ≡ true → P) → (done ≡ false) ⊎ P
    answered true h = inr (h refl)
    answered false h = inl refl
