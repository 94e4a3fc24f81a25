-- ===== src/Cache/Examples.antt =====
-- The theorems on the caches at concrete inputs, and tests. The numerals have one digit.
use allvm_tools.Cache.Paths.{get_cache_filename-shared, get_object-notify_object_compiled}
use allvm_tools.Cache.{
  Files, before_last_dot, object_extension, notify_object_compiled, generate_name, at, get_object,
  get_cache_filename,
}
use allvm_tools.Base.{
  ℕ, ◌∷◌, ap, [], refl, arith, List, ◌≡◌, some, ◌+◌, true, inr, Option, ◌≢◌, none, ◌++◌,
}

abbrev digit : ℕ → List ℕ
digit n = (48 + n) ∷ []

abbrev whole : List ℕ → Option (List ℕ)
whole name = none

-- "/u/.cache/", "a.bc", "b.bc", and "a" and "b"
abbrev dir : List ℕ
dir = 47 ∷ 117 ∷ 47 ∷ 46 ∷ 99 ∷ 97 ∷ 99 ∷ 104 ∷ 101 ∷ 47 ∷ []

abbrev a_bc : List ℕ
a_bc = 97 ∷ 46 ∷ 98 ∷ 99 ∷ []

abbrev b_bc : List ℕ
b_bc = 98 ∷ 46 ∷ 98 ∷ 99 ∷ []

abbrev a_only : List ℕ
a_only = 97 ∷ []

abbrev b_only : List ℕ
b_only = 98 ∷ []

abbrev no_files : Files
no_files path = none

abbrev first : List ℕ → ℕ
first [] = 0
first (c ∷ cs) = c

digits_differ : digit 1 ≢ digit 2
digits_differ e = omega (arith, ap first e)

get_object-notify_object_compiled_example :
    (files' : Files) × (notify_object_compiled true no_files dir
        (generate_name digit whole a_bc 1)
        (7 ∷ [])
      ≡ inr files')
    × (get_object files' dir (generate_name digit whole a_bc 1) ≡ inr (some (7 ∷ [])))
    × (get_object files' dir (generate_name digit whole b_bc 2)
        ≡ get_object no_files dir (generate_name digit whole b_bc 2))
get_object-notify_object_compiled_example =
    get_object-notify_object_compiled digit whole no_files dir a_bc b_bc a_only b_only (7 ∷ []) 1 2
      (98 ∷ 99 ∷ [], refl, refl) (98 ∷ 99 ∷ [], refl, refl) refl refl digits_differ

-- "/u/" and "cache/"
get_cache_filename-shared_example :
    get_cache_filename object_extension dir (generate_name digit whole a_only 1)
    ≡ at ((47 ∷ 117 ∷ 47 ∷ []) ++ object_extension)
get_cache_filename-shared_example =
    get_cache_filename-shared digit whole object_extension (47 ∷ 117 ∷ 47 ∷ [])
      (99 ∷ 97 ∷ 99 ∷ 104 ∷ 101 ∷ 47 ∷ []) a_only 1 refl refl

-- The file of "1-a" in "/u/.cache/" is "/u/.o".
shared_file :
    get_cache_filename object_extension dir (generate_name digit whole a_only 1)
    ≡ at (47 ∷ 117 ∷ 47 ∷ 46 ∷ 111 ∷ [])
unfolding get_cache_filename before_last_dot generate_name
shared_file = refl
