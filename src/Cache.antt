-- ===== src/Cache.antt =====
-- libs/Cache/JITCache.cpp and libs/Cache/StaticBinaryCache.cpp: where the code that was compiled for a
-- module is kept. The files are a function from paths to contents.
pub mod Paths
mod Examples
use allvm_tools.Base.{
  ℕ, same_bytes, ◌==◌, drop, Option, if◌then◌else◌, ◌&&◌, Bool, inl, inr, ◌⊎◌, some, List, [], ◌++◌,
  ◌∷◌, take, true, none,
}

-- "allexe:"
abbrev pub prefix : List ℕ
prefix = 97 ∷ 108 ∷ 108 ∷ 101 ∷ 120 ∷ 101 ∷ 58 ∷ []

-- The constructors: a trailing slash for the directory.
unfoldable pub ends_in_slash : List ℕ → Bool
ends_in_slash [] = true
ends_in_slash (c ∷ []) = c == 47
ends_in_slash (c ∷ d ∷ cs) = ends_in_slash (d ∷ cs)

unfoldable pub cache_dir : List ℕ → List ℕ
unfolding ends_in_slash
cache_dir dir = if ends_in_slash dir then dir else dir ++ (47 ∷ [])

-- What stands before the last dot; `none` if `rfind` gives npos.
unfoldable pub before_last_dot : List ℕ → Option (List ℕ)
before_last_dot [] = none
before_last_dot (c ∷ cs) =
    let rest = before_last_dot cs in
    elim rest [ some stem ↦ some (c ∷ stem) | none ↦ if c == 46 then some [] else none ]

-- The file of a module: none for an identifier without the prefix, and an exception of
-- `std::string::replace` for a path without a dot.
pub data Filename : Type 0 where
  refused out_of_range : Filename
  at : List ℕ → Filename

abbrev pub replace_extension : List ℕ → Option (List ℕ) → Filename
replace_extension extension none = out_of_range
replace_extension extension (some stem) = at (stem ++ extension)

-- `getCacheFilename`, with the extension that it puts: ".o" in a JITCache, nothing in a
-- StaticBinaryCache.
unfoldable pub get_cache_filename : List ℕ → List ℕ → List ℕ → Filename
unfolding before_last_dot
get_cache_filename extension dir id =
    if same_bytes (take 7 id) prefix
    then replace_extension extension (before_last_dot (dir ++ drop 7 id))
    else refused

abbrev pub object_extension : List ℕ
object_extension = 46 ∷ 111 ∷ []

abbrev pub Files : Type 0
Files = List ℕ → Option (List ℕ)

-- `JITCache::getObject`; `none` is NULL, and an exception is `inl`.
abbrev pub read_file : Files → Filename → Unit {0} ⊎ Option (List ℕ)
read_file files refused = inr none
read_file files out_of_range = inl tt
read_file files (at path) = inr (files path)

unfoldable pub get_object : Files → List ℕ → List ℕ → Unit {0} ⊎ Option (List ℕ)
unfolding get_cache_filename
get_object files dir id = read_file files (get_cache_filename object_extension dir id)

-- `JITCache::notifyObjectCompiled`; `opens` says whether the file can be opened for writing.
abbrev pub write_file : Bool → List ℕ → Files → Filename → Unit {0} ⊎ Files
write_file opens object files refused = inr files
write_file opens object files out_of_range = inl tt
write_file opens object files (at path) =
    inr (λ p. if opens && same_bytes p path then some object else files p)

unfoldable pub notify_object_compiled : Bool → Files → List ℕ → List ℕ → List ℕ → Unit {0} ⊎ Files
unfolding get_cache_filename
notify_object_compiled opens files dir id object =
    write_file opens object files (get_cache_filename object_extension dir id)

-- `generateName`: `hex` is LLVM's `utohexstr`, and `filename` is `sys::path::filename`, `none` where
-- `sys::path::has_filename` says no.
module _ (hex : ℕ → List ℕ) (filename : List ℕ → Option (List ℕ)) where
  abbrev pub readable_name : List ℕ → List ℕ
  readable_name name = elim (filename name) [ none ↦ name | some part ↦ part ]

  unfoldable pub generate_name : List ℕ → ℕ → List ℕ
  generate_name name crc = prefix ++ (hex crc ++ (45 ∷ readable_name name))

  -- `StaticBinaryCache::generateName`: `crc32` is zlib's, and the options are serialized; `none` is
  -- NULL.
  unfoldable pub generate_static_name : (ℕ → List ℕ → ℕ) → List ℕ → ℕ → Option (List ℕ) → List ℕ
  unfolding generate_name
  generate_static_name crc32 name crc none = generate_name name crc
  generate_static_name crc32 name crc (some options) = generate_name name (crc32 crc options)
