-- ===== src/ZipArchive/Examples.antt =====
-- The theorems on the archive of ALLVM and on allexes at concrete inputs, and tests.
use allvm_tools.Hash.{
  lookup, new, resize, rehash, rehash_chain, find_entry, at_entry, find_name, hash_string,
  hash_from, overfull, underfull,
}
use allvm_tools.Archive.Settings.{archive_set_prefixdata}
use allvm_tools.ZipArchive.Allexe.Main.{Opened, open_allexe-Opened}
use allvm_tools.Archive.Names.{
  add_entry as append_entry, unchange_data, unreplaced, make_name, make_string,
}
use allvm_tools.Archive.Naming.{
  taken_over, changes_for, new_name, read_old, old_name, move_name, rename_entry, set_name,
  file_rename, ends_in_slash,
}
use allvm_tools.Archive.Stat.{stat_init, stat_index, stat_dirent}
use allvm_tools.ZipArchive.Allexe.{
  allexe_main, shebang, get_module_name, get_num_modules, open_allexe,
}
use allvm_tools.ZipArchive.Listing.{Listed, Unrenamed, add_entry-Listed, update_entry-Unrenamed}
use allvm_tools.Archive.Sample.{all_room, empty_archive, all_room-Roomy, empty_archive-IsValid}
use allvm_tools.Archive.{
  has_bit, set_bit, clear_bit, entry_init, entry_dirent, get_dirent, c_string, get_c_string,
  get_name, name_locate, get_num_entries,
}
use allvm_tools.Archive.Updates.{unchange, unchange_name, restore_name, delete_entry}
use allvm_tools.Archive.Replacing.{
  target, replaced_changes, replace_data, replace_entry, file_replace, file_add,
}
use allvm_tools.Str.{string_new, equal, expected_of, get_text, converts, string_get}
use allvm_tools.Utf8.{guess_encoding, following, continues, cp437_to_utf8, scan, is_plain}
use allvm_tools.Dirent.{clone, init}
use allvm_tools.Hash.Insert.{add, add_to, add_found, insert, store}
use allvm_tools.Hash.Remove.{delete, delete_found, unlink, remove_entry}
use allvm_tools.Archive.Inv.{IsValid}
use allvm_tools.ZipArchive.{
  add_entry, update_entry, Surroundings, ZipArchive, write_buffer_to_entry, stat_info, no_flags,
  write_existing, ok, set_prefix_str, open_archive, list_from, archive_set_prefixdata,
}
use allvm_tools.Base.{ℕ, ◌≡◌, List, ◌∷◌, inr, [], arith, some, false, refl}

all_code : Unit {0}
unfolding append_entry unchange_data unreplaced has_bit set_bit clear_bit make_name make_string
    taken_over changes_for new_name read_old old_name move_name rename_entry set_name file_rename
    ends_in_slash entry_init entry_dirent get_dirent c_string get_c_string get_name name_locate
    unchange unchange_name restore_name delete_entry target replaced_changes replace_data
    replace_entry file_replace file_add lookup string_new guess_encoding equal clone init new
    expected_of following continues cp437_to_utf8 add add_to add_found insert store delete
    delete_found unlink remove_entry resize rehash rehash_chain find_entry at_entry find_name
    hash_string hash_from overfull underfull get_text converts scan is_plain string_get
    write_buffer_to_entry write_existing update_entry add_entry set_prefix_str open_archive
    list_from stat_info stat_index stat_dirent stat_init archive_set_prefixdata open_allexe
    get_num_modules get_module_name get_num_entries
all_code = tt

abbrev env : Surroundings
env = record {
  room = all_room;
  source_stat = λ src. some (stat_init 0);
  statinfo = stat_init 0;
  before = 0;
}

abbrev empty : ZipArchive
empty = record { archive = empty_archive; files = []; write_buffers = [] }

abbrev bitcode : List ℕ
bitcode = 66 ∷ 67 ∷ []

add_entry-Listed_example : Listed empty (add_entry env (some 7) empty bitcode allexe_main)
add_entry-Listed_example =
    add_entry-Listed env (some 7) empty bitcode 109 (97 ∷ 105 ∷ 110 ∷ 46 ∷ 98 ∷ 99 ∷ [])
      all_room-Roomy empty_archive-IsValid (unfold new in omega arith) (omega arith)

abbrev one_module : ZipArchive
one_module = (add_entry env (some 7) empty bitcode allexe_main).1

one_module-IsValid : IsValid one_module.archive
one_module-IsValid = add_entry-Listed_example.0

one_name : one_module.archive.names.nentries ≡ 1
unfolding all_code
one_name = refl

-- "boot.bc"
abbrev boot : List ℕ
boot = 98 ∷ 111 ∷ 111 ∷ 116 ∷ 46 ∷ 98 ∷ 99 ∷ []

update_entry-Unrenamed_example :
    let (done, z') = update_entry env (some 8) one_module 0 bitcode boot in
    Unrenamed one_module.archive (done, z'.archive)
update_entry-Unrenamed_example =
    update_entry-Unrenamed env (some 8) one_module 0 bitcode 98
      (111 ∷ 111 ∷ 116 ∷ 46 ∷ 98 ∷ 99 ∷ []) all_room-Roomy one_module-IsValid
      (omega (arith, one_name)) (omega arith)

-- The renaming works, and the answer is false.
renamed_answer : (update_entry env (some 8) one_module 0 bitcode boot).0 ≡ false
unfolding all_code
renamed_answer = refl

renamed_name :
    (get_name all_room (update_entry env (some 8) one_module 0 bitcode boot).1.archive 0 no_flags).0
    ≡ ok boot
unfolding all_code
renamed_name = refl

-- A second module of the same name is refused, but listed.
refused : (add_entry env (some 8) one_module bitcode allexe_main).0 ≡ false
unfolding all_code
refused = refl

refused_listed : get_num_modules (add_entry env (some 8) one_module bitcode allexe_main).1 ≡ 2
unfolding all_code
refused_listed = refl

-- "/bin/alley"
abbrev alley : List ℕ
alley = 47 ∷ 98 ∷ 105 ∷ 110 ∷ 47 ∷ 97 ∷ 108 ∷ 108 ∷ 101 ∷ 121 ∷ []

open_allexe-Opened_example : Opened alley (open_allexe env (some one_module.archive) alley)
open_allexe-Opened_example = open_allexe-Opened env (some one_module.archive) alley

opened_modules :
    open_allexe env (some one_module.archive) alley
    ≡ inr (record one_module {
      archive = record one_module.archive { prefixdata = some (shebang alley) };
      write_buffers = [];
    })
unfolding all_code
opened_modules = refl
