-- ===== src/ZipArchive/Allexe/Main.antt =====
-- What an allexe that opens is.
use allvm_tools.Archive.Settings.{archive_set_prefixdata}
use allvm_tools.Archive.{Outcome}
use allvm_tools.ZipArchive.Allexe.{
  Error, get_num_modules, get_module_name, allexe_main, shebang, open_found, open_prefixed,
  open_allexe,
}
use allvm_tools.ZipArchive.{
  set_prefix_str, Surroundings, ZipArchive, archive_set_prefixdata, Archive, open_archive, is_ok,
}
use allvm_tools.Base.{
  ℕ, ◌≡◌, some, ◌⊎◌, Option, inr, List, true, inl, Bool-cases, ltb, none, same_bytes, ◌&&◌, not,
  Bool, same_bytes_iff, refl, arith, if-cases,
}

-- The first module of an allexe is its main one, and its prefix starts alley.
abbrev pub Opened : List ℕ → Error ⊎ ZipArchive → Type 0
Opened path (inl e) = Unit {0}
Opened path (inr a) =
    (a.archive.prefixdata ≡ some (shebang path))
    × ((get_num_modules a ≡ 0) ⊎ (get_module_name a 0 ≡ allexe_main))

-- The prefix is what it was set to.
abbrev Prefixed : List ℕ → Bool × ZipArchive → Type 0
Prefixed prefix (done, z) = done ≡ true → z.archive.prefixdata ≡ some prefix

set_prefix_str-Prefixed :
    (env : Surroundings) (z : ZipArchive) (prefix : List ℕ)
    → Prefixed prefix (set_prefix_str env z prefix)
unfolding set_prefix_str archive_set_prefixdata
set_prefix_str-Prefixed env z prefix =
    if-cases (λ (p : Outcome (Unit {0})). Prefixed prefix (is_ok p.0, record z { archive = p.1 }))
      env.room.dup _ _ (λ memory h. refl) (λ full h. cc)

open_prefixed-Opened :
    (path : List ℕ) (p : Bool × ZipArchive)
    → Prefixed (shebang path) p
    → Opened path (open_prefixed p)
unfolding get_num_modules
open_prefixed-Opened path (done, a) prefixed =
    let P = Opened path in
    let some_modules = ltb 0 (get_num_modules a) in
    let first = same_bytes (get_module_name a 0) allexe_main in
    if-cases P (not done) _ _ (λ h. tt)
      (λ h.
        if-cases P (some_modules && not first) _ _ (λ h'. tt)
          (λ h'. (
            prefixed (ground arith),
            elim (Bool-cases some_modules) [
              | inl more ↦ inr ((same_bytes_iff (get_module_name a 0) allexe_main).0 (ground arith))
              | inr empty ↦ inl (ground arith)
            ],
          )))

-- Whatever was in the file, `Allexe::open` succeeds only with an archive that has no modules or has
-- "main.bc" as its first one, and whose prefix is "#!", the path of alley and a newline.
pub open_allexe-Opened :
    (env : Surroundings) (opened : Option Archive) (path : List ℕ)
    → Opened path (open_allexe env opened path)
unfolding open_allexe
open_allexe-Opened env opened path = found (open_archive env opened)
  where
    found : (o : Option ZipArchive) → Opened path (open_found env path o)
    found none = tt
    found (some z) =
        open_prefixed-Opened path (set_prefix_str env z (shebang path))
          (set_prefix_str-Prefixed env z (shebang path))
