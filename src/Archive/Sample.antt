-- ===== src/Archive/Sample.antt =====
-- An archive and memory for examples.
use allvm_tools.Hash.Failure.{new-IsValid}
use allvm_tools.Hash.Map.{roomy}
use allvm_tools.Hash.Chain.{count}
use allvm_tools.Archive.{entry_init, get_c_string, Room, Archive}
use allvm_tools.Archive.Moves.{Roomy, no_some}
use allvm_tools.Archive.Inv.{IsValid}
use allvm_tools.Hash.{new, find_name}
use allvm_tools.Base.{none, false, true, [], refl, some}

-- An archive without entries, and memory for all that is done.
abbrev pub empty_archive : Archive
empty_archive = record {
  flags = false;
  ch_flags = false;
  comment_orig = none;
  comment_changes = none;
  comment_changed = false;
  entry = [];
  nentry_alloc = 0;
  names = new;
  default_password = none;
  prefixdata = none;
  released = [];
}

abbrev pub all_room : Room
all_room = record {
  string = true;
  raw = true;
  text = some [];
  clone = true;
  add = roomy none;
  shrink = true;
  entries = true;
  dup = true;
}

pub all_room-Roomy : Roomy all_room
all_room-Roomy = (none, [], refl)

pub empty_archive-IsValid : IsValid empty_archive
unfolding entry_init new count get_c_string find_name
empty_archive-IsValid = record {
  table = new-IsValid;
  entries = λ i. record {
    orig_reads = ([], λ room. refl);
    changes_reads = ([], λ room. refl);
    live = λ h. refl;
    kept = λ de h. cc;
  };
  located = λ name i at. absurd (no_some at);
}
