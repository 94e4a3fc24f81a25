-- ===== src/ZipArchive/Allexe.antt =====
-- libs/all/Allexe.cpp, the container of modules. An allexe is its archive; a module of LLVM is what
-- writing it as bitcode gives, and its name.
pub mod Main
use allvm_tools.ZipArchive.{
  Surroundings, Archive, set_prefix_str, add_entry, ZipArchive, update_entry, open_archive,
}
use allvm_tools.Base.{
  ℕ, none, inr, [], ◌&&◌, Option, ◌∷◌, ◌⊎◌, Bool, if◌then◌else◌, List, length, not, ◌++◌, inl, ltb,
  some, get_or, ◌==◌, same_bytes,
}

-- ALLEXE_MAIN, "main.bc"
abbrev pub allexe_main : List ℕ
allexe_main = 109 ∷ 97 ∷ 105 ∷ 110 ∷ 46 ∷ 98 ∷ 99 ∷ []

-- The errors, by their messages.
pub data Error : Type 0 where
  unknown_reason unable_to_set_prefix invalid_allexe empty_or_invalid : Error
  error_adding error_updating unable_to_open not_bitcode : Error

-- `Allexe::getNumModules` and `Allexe::getModuleName`
unfoldable pub get_num_modules : ZipArchive → ℕ
get_num_modules a = length a.files

unfoldable pub get_module_name : ZipArchive → ℕ → List ℕ
get_module_name a idx = get_or a.files idx []

-- `Allexe::open`, from the prefix on, and from its start; `alley_path` is `RP.AlleyPath`, and "#!" and a
-- newline go around it.
abbrev pub open_prefixed : Bool × ZipArchive → Error ⊎ ZipArchive
open_prefixed (done, a) =
    if not done
    then inl unable_to_set_prefix
    else if ltb 0 (get_num_modules a) && not (same_bytes (get_module_name a 0) allexe_main)
    then inl invalid_allexe
    else inr a

abbrev pub shebang : List ℕ → List ℕ
shebang alley_path = 35 ∷ 33 ∷ (alley_path ++ (10 ∷ []))

abbrev pub open_found : Surroundings → List ℕ → Option ZipArchive → Error ⊎ ZipArchive
open_found env alley_path none = inl unknown_reason
open_found env alley_path (some z) = open_prefixed (set_prefix_str env z (shebang alley_path))

unfoldable pub open_allexe : Surroundings → Option Archive → List ℕ → Error ⊎ ZipArchive
unfolding open_archive set_prefix_str get_num_modules get_module_name
open_allexe env opened alley_path = open_found env alley_path (open_archive env opened)

-- `Allexe::openForReading`
unfoldable pub open_for_reading : Surroundings → Option Archive → List ℕ → Error ⊎ ZipArchive
unfolding open_allexe get_num_modules
open_for_reading env opened alley_path = elim (open_allexe env opened alley_path) [
  | inl e ↦ inl e
  | inr a ↦ if get_num_modules a == 0 then inl empty_or_invalid else inr a
]

-- `Allexe::updateModule` and the two functions `Allexe::addModule`: an error, or `none`, and the allexe.
-- `made` is what `zip_source_buffer` gives.
unfoldable pub update_module :
    Surroundings → Option ℕ → ZipArchive → ℕ → List ℕ → Option Error × ZipArchive
unfolding update_entry
update_module env made a idx bitcode =
    let (done, a') = update_entry env made a idx bitcode [] in
    (if done then none else some error_updating, a')

unfoldable pub add_buffer :
    Surroundings → Option ℕ → ZipArchive → List ℕ → List ℕ → Option Error × ZipArchive
unfolding add_entry
add_buffer env made a bitcode name =
    let (done, a') = add_entry env made a bitcode name in
    (if done then none else some error_adding, a')

abbrev pub name_or : List ℕ → List ℕ → List ℕ
name_or [] name = name
name_or (c ∷ cs) name = c ∷ cs

unfoldable pub add_module :
    Surroundings → Option ℕ → ZipArchive → List ℕ → List ℕ → List ℕ → Option Error × ZipArchive
unfolding add_buffer
add_module env made a bitcode own_name module_name =
    add_buffer env made a bitcode (name_or module_name own_name)

-- `file` is what `MemoryBuffer::getFile` gives, and `is_bitcode` is LLVM's test.
module _ (is_bitcode : List ℕ → Bool) where
  unfoldable pub add_file :
      Surroundings
      → Option ℕ
      → ZipArchive
      → Option (List ℕ)
      → List ℕ
      → List ℕ
      → Option Error × ZipArchive
  unfolding add_buffer
  add_file env made a none filename module_name = (some unable_to_open, a)
  add_file env made a (some bytes) filename module_name =
      if is_bitcode bytes
      then add_buffer env made a bytes (name_or module_name filename)
      else (some not_bitcode, a)
