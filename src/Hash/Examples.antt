-- ===== src/Hash/Examples.antt =====
-- The theorems on the table of names at concrete inputs, and tests.
use allvm_tools.Hash.Reserve.{reserve_capacity-refines, EnoughFor}
use allvm_tools.Hash.Revert.{Restored, revert-refines}
use allvm_tools.Flags.{no_flags}
use allvm_tools.Hash.Failure.{no_larger, new-IsValid, with_fresh, add-failed}
use allvm_tools.Hash.Remove.{
  delete, delete_found, unlink, remove_entry, revert, revert_table, revert_chain, shrink_loop,
}
use allvm_tools.Run.{ok, err, er_exists, er_noent, er_memory}
use allvm_tools.Hash.Map.{roomy, indices}
use allvm_tools.Hash.Rehash.{found}
use allvm_tools.Hash.Capacity.{reserve_capacity, round_up, bit_or, size_for_capacity}
use allvm_tools.Hash.Chain.{count, Placed}
use allvm_tools.Hash.Add.{Added, add-refines}
use allvm_tools.Hash.Delete.{Deleted, delete-refines}
use allvm_tools.Hash.Insert.{add, add_to, add_found, insert, store}
use allvm_tools.Base.{
  ℕ, ◌≤◌, [], All, zero, none, refl, suc, ◌≡◌, ◌%◌, ◌∷◌, some, true, arith, List,
}
use allvm_tools.Hash.Inv.{IsValid, total}
use allvm_tools.Hash.{
  new, lookup, Hash, resize, hash_string, bucket, rehash, rehash_chain, hash_from, find_entry,
  at_entry, overfull, underfull, find_name,
}

program : Unit {0}
unfolding add add_to add_found insert store resize rehash rehash_chain hash_string hash_from
    find_entry at_entry overfull underfull find_name lookup delete delete_found unlink remove_entry
    revert revert_table revert_chain shrink_loop new reserve_capacity size_for_capacity round_up
    bit_or
program = tt

abbrev boot : List ℕ
boot = 98 ∷ 111 ∷ 111 ∷ 116 ∷ []

abbrev main : List ℕ
main = 109 ∷ 97 ∷ 105 ∷ 110 ∷ []

-- An empty table and one with an entry.
abbrev one_name : Hash
one_name = (add (roomy none) new (some boot) 7 no_flags).1

one_name-IsValid : IsValid one_name
one_name-IsValid =
    (add-refines none boot 7 no_flags new new-IsValid (unfold new in omega arith) (omega arith)).0

one_entry : one_name.nentries ≡ 1
unfolding program
one_entry = refl

add-refines_example :
    Added one_name main 8 no_flags (add (roomy none) one_name (some main) 8 no_flags)
add-refines_example =
    add-refines none main 8 no_flags one_name one_name-IsValid (omega (arith, one_entry))
      (omega arith)

delete-refines_example : Deleted one_name boot (delete true one_name (some boot))
delete-refines_example = delete-refines one_name one_name-IsValid boot

reserve_capacity-refines_example :
    let (r, h') = reserve_capacity true one_name 300 in
    IsValid h'
    × ((name : List ℕ) → found h' name ≡ found one_name name)
    × (true ≡ true → (r ≡ ok tt) × EnoughFor 300 h'.table_size)
reserve_capacity-refines_example =
    reserve_capacity-refines true one_name 300 (omega arith) one_name-IsValid

capacity-300 : size_for_capacity 300 ≡ 512
unfolding program
capacity-300 = refl

lookup-found : lookup one_name (some boot) no_flags ≡ ok 7
unfolding program
lookup-found = refl

lookup-absent : lookup one_name (some main) no_flags ≡ err er_noent
unfolding program
lookup-absent = refl

add-exists : (add (roomy none) one_name (some boot) 9 no_flags).0 ≡ err er_exists
unfolding program
add-exists = refl

delete-gone : lookup (delete true one_name (some boot)).1 (some boot) no_flags ≡ err er_noent
unfolding program
delete-gone = refl

-- A table of one bucket, which a single entry fills to more than three quarters.
abbrev tiny : Hash
tiny = record { table_size = 1; nentries = 0; table = [] ∷ [] }

tiny-Placed : (i : ℕ) → All (Placed 1 i) (bucket tiny.table i)
tiny-Placed zero = tt
tiny-Placed (suc i) = tt

tiny_count : (name : List ℕ) (i : ℕ) → count name (bucket tiny.table i) ≤ 1
unfolding count
tiny_count name zero = omega arith
tiny_count name (suc i) = omega arith

tiny-IsValid : IsValid tiny
tiny-IsValid = record {
  sized = refl;
  placed = tiny-Placed;
  single = λ name. tiny_count name (hash_string name % 1);
  counted = unfold total in refl;
}

tiny-absent : found tiny boot ≡ none
unfolding program
tiny-absent = refl

add-failed_example :
    (add (no_larger (some 99)) tiny (some boot) 7 no_flags
      ≡ (err er_memory, with_fresh (some 99) boot tiny))
    × (indices (with_fresh (some 99) boot tiny) boot ≡ (none, some 99))
add-failed_example =
    add-failed (some 99) boot tiny 7 no_flags tiny-IsValid (omega arith) (omega arith) (omega arith)
      (omega arith) (omega arith) tiny-absent

revert-refines_example : Restored one_name (revert true one_name)
revert-refines_example = revert-refines one_name one_name-IsValid
