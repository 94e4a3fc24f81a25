-- ===== src/Hash/Insert.antt =====
-- `_zip_hash_add`.
use allvm_tools.Run.{Result, err, er_inval, er_memory, er_exists, ok}
use allvm_tools.Hash.{
  resize, Entry, Hash, set_bucket, bucket, push, min_size, max_size, at_entry, overfull, find_entry,
  hash_string,
}
use allvm_tools.Flags.{Flags}
use allvm_tools.Base.{
  true, ◌%◌, not, some, ltb, ℕ, ◌==◌, ◌||◌, ◌+◌, none, Option, List, ◌&&◌, ◌^◌, if◌then◌else◌,
  false, Bool, ◌-◌, ◌*◌,
}

abbrev pub is_some {ℓ} : {A : Type ℓ} → Option A → Bool
is_some none = false
is_some (some a) = true

-- The assignments at the end of `_zip_hash_add`.
abbrev pub stamp : ℕ → Flags → Entry → Entry
stamp index flags e = record e {
  orig_index = if flags.unchanged then some index else e.orig_index;
  current_index = some index;
}

-- What `malloc` and the two calls of `calloc` in `_zip_hash_add` give, in the order of the source;
-- `junk` is what the memory of a new entry holds.
pub record Memory : Type 0 where
  pub first_table : Bool
  pub entry : Bool
  pub larger_table : Bool
  pub junk : Option ℕ

abbrev is_taken : Flags → Entry → Bool
is_taken flags e = (flags.unchanged && is_some e.orig_index) || is_some e.current_index

-- The entry is in the table; the values are stored in it.
unfoldable pub store : Hash → List ℕ → ℕ → Flags → Hash
store h name index flags =
    let hv = hash_string name in
    let i = hv % h.table_size in
    set_bucket h i (at_entry hv name (stamp index flags) (bucket h.table i))

-- The part that makes a new entry, and then doubles a table that is too full.
unfoldable pub insert : Memory → Hash → List ℕ → Result (Unit {0}) × Hash
unfolding overfull resize hash_string
insert memory h name =
    let hv = hash_string name in
    let e : Entry = record {
      name = name;
      orig_index = none;
      current_index = memory.junk;
      hash_value = hv;
    } in
    let h' = record h {
      table = push h.table (hv % h.table_size) e;
      nentries = (h.nentries + 1) % 2 ^ 64;
    } in
    let (grown, h'') = resize memory.larger_table h' (h.table_size * 2 % 2 ^ 32) in
    if not memory.entry
    then (err er_memory, h)
    else if overfull h' && ltb h.table_size max_size
    then (if grown then (ok tt, h'') else (err er_memory, h''))
    else (ok tt, h')

-- `_zip_hash_add` from the end of its loop on: the entry that the loop found, or `none` for NULL.
unfoldable pub add_found :
    Memory → Hash → List ℕ → ℕ → Flags → Option Entry → Result (Unit {0}) × Hash
add_found memory h name index flags (some e) =
    if is_taken flags e then (err er_exists, h) else (ok tt, store h name index flags)
add_found memory h name index flags none =
    let (r, h') = insert memory h name in
    elim r [ ok u ↦ (ok tt, store h' name index flags) | err c ↦ (err c, h') ]

-- From the computation of the hash value on.
unfoldable pub add_to : Memory → Hash → List ℕ → ℕ → Flags → Result (Unit {0}) × Hash
add_to memory h name index flags =
    let hv = hash_string name in
    add_found memory h name index flags (find_entry hv name (bucket h.table (hv % h.table_size)))

-- `_zip_hash_add`; a name of `none` is NULL. `ok` is the return value `true`.
unfoldable pub add : Memory → Hash → Option (List ℕ) → ℕ → Flags → Result (Unit {0}) × Hash
unfolding resize add_to
add memory h none index flags = (err er_inval, h)
add memory h (some name) index flags =
    let (made, h') = resize memory.first_table h min_size in
    if ltb (2 ^ 63 - 1) index
    then (err er_inval, h)
    else if h.table_size == 0
    then (if made then add_to memory h' name index flags else (err er_memory, h'))
    else add_to memory h name index flags
