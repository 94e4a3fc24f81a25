-- ===== src/Hash/Remove.antt =====
-- `_zip_hash_delete` and `_zip_hash_revert`.
use allvm_tools.Run.{Result, ok, err, er_inval, er_memory, er_noent}
use allvm_tools.Hash.{
  find_entry, hash_string, min_size, resize, is_named, Hash, bucket, set_bucket, at_entry, Entry,
  underfull,
}
use allvm_tools.Base.{
  ◌&&◌, ℕ, none, zero, if◌then◌else◌, Option, ◌%◌, Bool, ◌/◌, suc, ◌∷◌, ◌+◌, ◌-◌, some, [], set,
  ltb, List,
}

unfoldable pub remove_entry : ℕ → List ℕ → List Entry → List Entry
remove_entry hash_value name [] = []
remove_entry hash_value name (e ∷ es) =
    let rest = e ∷ remove_entry hash_value name es in
    if is_named hash_value name e then es else rest

abbrev pub clear_current : Entry → Entry
clear_current e = record e { current_index = none }

-- The part of `_zip_hash_delete` that frees an entry; `room` is the `calloc` of the resize.
unfoldable pub unlink : Bool → Hash → List ℕ → Result (Unit {0}) × Hash
unfolding underfull resize hash_string remove_entry
unlink room h name =
    let hv = hash_string name in
    let i = hv % h.table_size in
    let h' = record h {
      table = set h.table i (remove_entry hv name (bucket h.table i));
      nentries = h.nentries - 1;
    } in
    let (shrunk, h'') = resize room h' (h.table_size / 2) in
    if underfull h'.nentries h.table_size && ltb min_size h.table_size
    then (if shrunk then (ok tt, h'') else (err er_memory, h''))
    else (ok tt, h')

-- `_zip_hash_delete` from the end of its loop on: the entry that it found, or `none` for NULL.
unfoldable pub delete_found : Bool → Hash → List ℕ → Option Entry → Result (Unit {0}) × Hash
delete_found room h name none = (err er_noent, h)
delete_found room h name (some e) =
    let hv = hash_string name in
    let i = hv % h.table_size in
    elim e.orig_index [
      | none ↦ unlink room h name
      | some o ↦ (ok tt, set_bucket h i (at_entry hv name clear_current (bucket h.table i)))
    ]

-- `_zip_hash_delete`
unfoldable pub delete : Bool → Hash → Option (List ℕ) → Result (Unit {0}) × Hash
delete room h none = (err er_inval, h)
delete room h (some name) =
    let hv = hash_string name in
    let entry = find_entry hv name (bucket h.table (hv % h.table_size)) in
    if ltb 0 h.nentries then delete_found room h name entry else (err er_noent, h)

-- The inner loop of `_zip_hash_revert`: the chain, and how many entries it freed.
unfoldable pub revert_chain : List Entry → List Entry × ℕ
revert_chain [] = ([], 0)
revert_chain (e ∷ es) =
    let (rest, freed) = revert_chain es in
    elim e.orig_index [
      | none ↦ (rest, freed + 1)
      | some o ↦ (record e { current_index = some o } ∷ rest, freed)
    ]

unfoldable pub revert_table : List (List Entry) → List (List Entry) × ℕ
unfolding revert_chain
revert_table [] = ([], 0)
revert_table (b ∷ bs) =
    let (b', n) = revert_chain b in let (bs', m) = revert_table bs in (b' ∷ bs', n + m)

-- The loop that halves the size, which is a 32-bit number: 32 rounds are enough.
unfoldable pub shrink_loop : ℕ → ℕ → ℕ → ℕ
unfolding underfull
shrink_loop zero nentries size = size
shrink_loop (suc fuel) nentries size =
    let smaller = shrink_loop fuel nentries (size / 2) in
    if underfull nentries size && ltb min_size size then smaller else size

-- `_zip_hash_revert`
unfoldable pub revert : Bool → Hash → Result (Unit {0}) × Hash
unfolding underfull resize revert_table shrink_loop
revert room h =
    let (table', freed) = revert_table h.table in
    let h' = record h { table = table'; nentries = h.nentries - freed } in
    let (shrunk, h'') = resize room h' (shrink_loop 32 h'.nentries (h.table_size / 2)) in
    if underfull h'.nentries h.table_size && ltb min_size h.table_size
    then (if shrunk then (ok tt, h'') else (err er_memory, h''))
    else (ok tt, h')
