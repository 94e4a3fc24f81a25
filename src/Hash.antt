-- ===== src/Hash.antt =====
-- libs/archive-rw/zip_hash.c: the table from file names to indices of archive entries.
pub mod Chain
pub mod Rehash
pub mod Resize
pub mod Inv
pub mod Replace
pub mod Entries
pub mod Store
pub mod Map
pub mod Add
pub mod Delete
pub mod Revert
pub mod Failure
pub mod Reserve
mod Examples
pub mod Insert
pub mod Remove
pub mod Capacity
use allvm_tools.Run.{Result, ok, err, er_memory, er_inval, er_exists, er_noent}
use allvm_tools.Flags.{Flags}
use allvm_tools.Base.{
  not, leb, ◌&&◌, replicate, some, true, [], ℕ, ◌+◌, Option, Bool, ◌∷◌, ◌%◌, zero, ltb, ◌^◌,
  if◌then◌else◌, get_or, set, ◌/◌, false, ◌-◌, ◌||◌, same_bytes, ◌*◌, ◌==◌, suc, List, none,
}

-- `struct zip_hash_entry`, whose `next` is the rest of the list it stands in. A name is the bytes
-- before its NUL; an index of `none` is -1.
pub record Entry : Type 0 where
  pub name : List ℕ
  pub orig_index : Option ℕ
  pub current_index : Option ℕ
  pub hash_value : ℕ

-- `struct zip_hash`; `table` is empty for NULL.
pub record Hash : Type 0 where
  pub table_size : ℕ
  pub nentries : ℕ
  pub table : List (List Entry)

-- HASH_MIN_SIZE, HASH_MAX_SIZE
abbrev pub min_size : ℕ
min_size = 256

abbrev pub max_size : ℕ
max_size = 0x80000000

-- The tests on the fill, which the source computes with doubles. They are exact: a table's size is a
-- power of two, so that `size * .75` has no error and `size * .01` is not nearer to an integer than
-- 1/100.
unfoldable pub overfull : Hash → Bool
overfull h = ltb (h.table_size * 3) (h.nentries * 4)

unfoldable pub underfull : ℕ → ℕ → Bool
underfull nentries size = ltb (nentries * 100) size

unfoldable pub hash_from : ℕ → List ℕ → ℕ
hash_from value [] = value
hash_from value (c ∷ cs) = hash_from ((value * 33 + c) % 2 ^ 32) cs

unfoldable pub hash_string : List ℕ → ℕ
unfolding hash_from
hash_string name = hash_from 5381 name

abbrev pub bucket : List (List Entry) → ℕ → List Entry
bucket table i = get_or table i []

-- `entry->next = table[i]; table[i] = entry`
abbrev pub push : List (List Entry) → ℕ → Entry → List (List Entry)
push table i e = set table i (e ∷ bucket table i)

-- The inner loop of `hash_resize`, and the outer one.
unfoldable pub rehash_chain : ℕ → List (List Entry) → List Entry → List (List Entry)
rehash_chain new_size new_table [] = new_table
rehash_chain new_size new_table (e ∷ es) =
    rehash_chain new_size (push new_table (e.hash_value % new_size) e) es

unfoldable pub rehash : ℕ → List (List Entry) → List (List Entry) → List (List Entry)
unfolding rehash_chain
rehash new_size new_table [] = new_table
rehash new_size new_table (b ∷ bs) = rehash new_size (rehash_chain new_size new_table b) bs

-- `hash_resize`: `room` says whether `calloc` succeeds; `false` comes with ZIP_ER_MEMORY.
unfoldable pub resize : Bool → Hash → ℕ → Bool × Hash
unfolding rehash
resize room h new_size =
    let fresh = replicate new_size [] in
    if new_size == h.table_size then (true, h) else if not room then (false, h) else (
      true,
      record h {
        table = if ltb 0 h.nentries then rehash new_size fresh h.table else fresh;
        table_size = new_size;
      },
    )

-- `_zip_hash_new`
unfoldable pub new : Hash
new = record { table_size = 0; nentries = 0; table = [] }

-- The test of `_zip_hash_add` and `_zip_hash_delete` on an entry.
abbrev pub is_named : ℕ → List ℕ → Entry → Bool
is_named hash_value name e = (e.hash_value == hash_value) && same_bytes name e.name

unfoldable pub find_entry : ℕ → List ℕ → List Entry → Option Entry
find_entry hash_value name [] = none
find_entry hash_value name (e ∷ es) =
    let rest = find_entry hash_value name es in if is_named hash_value name e then some e else rest

-- Assignments to the members of the entry that a pointer points to, which is the one that
-- `find_entry` finds.
unfoldable pub at_entry : ℕ → List ℕ → (Entry → Entry) → List Entry → List Entry
at_entry hash_value name f [] = []
at_entry hash_value name f (e ∷ es) =
    let rest = e ∷ at_entry hash_value name f es in
    if is_named hash_value name e then f e ∷ es else rest

abbrev pub set_bucket : Hash → ℕ → List Entry → Hash
set_bucket h i es = record h { table = set h.table i es }

-- The loop of `_zip_hash_lookup`, which compares names only.
unfoldable pub find_name : List ℕ → List Entry → Option Entry
find_name name [] = none
find_name name (e ∷ es) =
    let rest = find_name name es in if same_bytes name e.name then some e else rest

-- The index that the flags ask for.
abbrev pub index_of : Flags → Entry → Option ℕ
index_of flags e = if flags.unchanged then e.orig_index else e.current_index

-- `_zip_hash_lookup`
unfoldable pub lookup : Hash → Option (List ℕ) → Flags → Result ℕ
lookup h none flags = err er_inval
lookup h (some name) flags =
    if ltb 0 h.nentries
    then elim (find_name name (bucket h.table (hash_string name % h.table_size))) [
      | none ↦ err er_noent
      | some e ↦ elim (index_of flags e) [ none ↦ err er_noent | some i ↦ ok i ]
    ]
    else err er_noent
