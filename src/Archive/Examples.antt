-- ===== src/Archive/Examples.antt =====
-- The theorems on archives at concrete inputs, and tests.
use allvm_tools.Hash.{
  resize, rehash, rehash_chain, find_entry, at_entry, find_name, hash_string, hash_from, overfull,
  underfull, lookup, new,
}
use allvm_tools.Hash.Insert.{add_to, add_found, insert, store, add}
use allvm_tools.Hash.Remove.{delete, delete_found, unlink, remove_entry}
use allvm_tools.Str.{get_text, converts, string_get, string_new, equal, expected_of}
use allvm_tools.Utf8.{
  scan, is_plain, enc_ascii, guess_encoding, following, continues, cp437_to_utf8,
}
use allvm_tools.Archive.FileRename.{file_rename-NameKept, NameKept}
use allvm_tools.Archive.Names.{add_entry, unchange_data, unreplaced, make_name, make_string}
use allvm_tools.Archive.Naming.{
  rename_entry, set_name, file_rename, ends_in_slash, taken_over, changes_for, new_name, read_old,
  old_name, move_name,
}
use allvm_tools.Archive.Locate.{get_name-name_locate}
use allvm_tools.Archive.Deleted.{delete_entry-Dropped, Dropped}
use allvm_tools.Dirent.{init, clone}
use allvm_tools.Archive.FileReplace.{FileReplaced, file_replace-FileReplaced}
use allvm_tools.Archive.Sample.{all_room, all_room-Roomy, empty_archive-IsValid, empty_archive}
use allvm_tools.Archive.Attributes.{set_mtime_entry}
use allvm_tools.Flags.{no_flags}
use allvm_tools.Hash.Map.{roomy}
use allvm_tools.Archive.Updates.{unchange, delete_entry, unchange_name, restore_name}
use allvm_tools.Archive.Replacing.{
  file_add, file_replace, target, replaced_changes, replace_data, replace_entry,
}
use allvm_tools.Archive.{
  Dirent, name_locate, get_name, ok, set_bit, has_bit, clear_bit, err, er_noent, entry_dirent,
  get_dirent, c_string, get_c_string, lookup, entry_init, Archive,
}
use allvm_tools.Archive.Added.{Appended, file_add-Appended}
use allvm_tools.Archive.Inv.{IsValid}
use allvm_tools.Base.{ℕ, ◌∷◌, none, arith, false, [], refl, true, List, some, ◌≡◌}

program : Unit {0}
unfolding add_entry unchange_data unreplaced has_bit set_bit clear_bit make_name make_string
    taken_over changes_for new_name read_old old_name move_name rename_entry set_name file_rename
    ends_in_slash entry_init entry_dirent get_dirent c_string get_c_string get_name name_locate
    unchange unchange_name restore_name delete_entry target replaced_changes replace_data
    replace_entry file_replace file_add lookup string_new guess_encoding equal clone init new
    expected_of following continues cp437_to_utf8 add add_to add_found insert store delete
    delete_found unlink remove_entry resize rehash rehash_chain find_entry at_entry find_name
    hash_string hash_from overfull underfull get_text converts scan is_plain string_get
program = tt

-- "main"
abbrev main : List ℕ
main = 109 ∷ 97 ∷ 105 ∷ 110 ∷ []

file_add-Appended_example :
    Appended all_room main no_flags 7 empty_archive
      (file_add all_room empty_archive (some main) (some 7) no_flags)
file_add-Appended_example =
    file_add-Appended all_room empty_archive 109 (97 ∷ 105 ∷ 110 ∷ []) 7 no_flags all_room-Roomy
      empty_archive-IsValid refl (unfold new in omega arith) (omega arith)

abbrev one_entry : Archive
one_entry = (file_add all_room empty_archive (some main) (some 7) no_flags).1

one_entry-IsValid : IsValid one_entry
one_entry-IsValid = file_add-Appended_example.0

one_name : one_entry.names.nentries ≡ 1
unfolding program
one_name = refl

-- "boot"
abbrev boot : List ℕ
boot = 98 ∷ 111 ∷ 111 ∷ 116 ∷ []

file_rename-NameKept_example :
    NameKept all_room 0 boot no_flags one_entry
      (file_rename all_room 0 0 one_entry 0 (some boot) no_flags)
file_rename-NameKept_example =
    file_rename-NameKept all_room one_entry 0 98 (111 ∷ 111 ∷ 116 ∷ []) no_flags 0 0 all_room-Roomy
      one_entry-IsValid (omega (arith, one_name)) (omega arith)

delete_entry-Dropped_example : Dropped one_entry 0 (delete_entry all_room one_entry 0)
delete_entry-Dropped_example = delete_entry-Dropped all_room one_entry 0 refl one_entry-IsValid

file_replace-FileReplaced_example :
    FileReplaced one_entry 0 8 (file_replace all_room one_entry 0 (some 8) no_flags)
file_replace-FileReplaced_example =
    file_replace-FileReplaced all_room one_entry 0 8 no_flags refl one_entry-IsValid

main_located : name_locate all_room one_entry (some main) no_flags ≡ (ok 0, one_entry)
unfolding program
main_located = refl

get_name-name_locate_example : get_name all_room one_entry 0 no_flags ≡ (ok main, one_entry)
get_name-name_locate_example =
    get_name-name_locate all_room all_room one_entry one_entry main 0 one_entry-IsValid main_located

-- An entry whose time and attributes were changed.
abbrev changed_entry : Dirent
changed_entry = record init { changed = 48; last_mod = 5 }

-- Its time stays when it is set back to the original one, 0.
stale_time :
    set_mtime_entry true
      (record { orig = some init; changes = some changed_entry; source = none; deleted = false })
      0
    ≡ some (record {
      orig = some init;
      changes = some (record changed_entry { changed = 16 });
      source = none;
      deleted = false;
    })
unfolding set_mtime_entry set_bit clear_bit has_bit init clone
stale_time = refl

-- An archive that was opened with the entry "main". When its entry was deleted and taken back, it has
-- the name again, but the table does not locate it.
abbrev opened_archive : Archive
opened_archive = record empty_archive {
  entry =
      record entry_init {
        orig = some (record init {
          filename = some (record {
            raw = main;
            length = 4;
            encoding = enc_ascii;
            converted = none;
            converted_length = 0;
          });
        });
      }
      ∷ [];
  names = (add (roomy none) new (some main) 0 (record no_flags { unchanged = true })).1;
}

abbrev restored : Archive
restored = (unchange all_room (delete_entry all_room opened_archive 0).1 0 false).1

opened_located : (name_locate all_room opened_archive (some main) no_flags).0 ≡ ok 0
unfolding program
opened_located = refl

restored_named : (get_name all_room restored 0 no_flags).0 ≡ ok main
unfolding program
restored_named = refl

restored_unlocated : (name_locate all_room restored (some main) no_flags).0 ≡ err er_noent
unfolding program
restored_unlocated = refl

-- A name of NULL stays located at an entry that is then given another.
abbrev named_again : Archive
named_again =
    (set_name all_room (set_name all_room one_entry 0 none no_flags).1 0 (some boot) no_flags).1

named_again_name : (get_name all_room named_again 0 no_flags).0 ≡ ok boot
unfolding program
named_again_name = refl

null_located : (name_locate all_room named_again (some []) no_flags).0 ≡ ok 0
unfolding program
null_located = refl
