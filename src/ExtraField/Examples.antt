-- ===== src/ExtraField/Examples.antt =====
-- The theorems on extra fields at concrete inputs, and tests.

use allvm_tools.ExtraField.Complete.{parse-encode}
use allvm_tools.ExtraField.Sound.{parse_sound}
use allvm_tools.Flags.{ef_local, ef_central}
use allvm_tools.ExtraField.Write.{collect, parse-write}
use allvm_tools.Run.{ok, err, er_incons}
use allvm_tools.ExtraField.{
  ExtraField, delete_by_id, new, delete_from, fate, clone, merge, get_by_id,
}
use allvm_tools.ExtraField.Merge.{carries, merge-carries, Stored}
use allvm_tools.ExtraField.Wire.{write, parse_fields, padding_fits, write_loop, parse}
use allvm_tools.ExtraField.Format.{encode_all, IsField}
use allvm_tools.Base.{
  ℕ, arith, replicate, List, ◌<◌, [], length, All, ◌||◌, ◌≡◌, refl, ◌∷◌, ◌++◌, true,
}
use allvm_tools.Buffer

-- A field with two bytes and one with none, as in a central header.
abbrev pair : List ExtraField
pair =
    record { flags = ef_central; id = 0x5455; size = 2; bytes = 3 ∷ 9 ∷ [] }
    ∷ record { flags = ef_central; id = 0x0001; size = 0; bytes = [] }
    ∷ []

pair-IsField : All (IsField ef_central) pair
pair-IsField = (
  record {
    id_16 = omega arith;
    size_16 = omega arith;
    stored = refl;
    octets = omega arith;
    read_with = refl;
  },
  (
    record {
      id_16 = omega arith;
      size_16 = omega arith;
      stored = refl;
      octets = tt;
      read_with = refl;
    },
    tt,
  ),
)

pair-Stored : All Stored pair
pair-Stored = (refl, (refl, tt))

abbrev wire : List ℕ
wire = 0x55 ∷ 0x54 ∷ 2 ∷ 0 ∷ 3 ∷ 9 ∷ 1 ∷ 0 ∷ 0 ∷ 0 ∷ 0 ∷ []

parse-encode_example :
    (mem' : ℕ) × (parse
        (encode_all pair ++ replicate 1 0)
        (length (encode_all pair ++ replicate 1 0))
        ef_central
        9
      ≡ ok (pair, mem'))
parse-encode_example =
    parse-encode pair ef_central 1 9 pair-IsField (omega arith) (omega arith) (omega arith)

program : Unit {0}
unfolding parse parse_fields padding_fits Buffer.new Buffer.get_16 Buffer.get Buffer.left Buffer.eof
    new write write_loop Buffer.set_offset Buffer.put_16 get_by_id delete_by_id delete_from merge
    clone fate
program = tt

parse-wire : parse wire 11 ef_central 9 ≡ ok (pair, 5)
unfolding program
parse-wire = refl

parse_garbage : parse (wire ++ (7 ∷ [])) 12 ef_central 9 ≡ err er_incons
unfolding program
parse_garbage = refl

parse_sound_example :
    (n : ℕ) × (n < 4) × (wire ≡ encode_all pair ++ replicate n 0) × All (IsField ef_central) pair
parse_sound_example =
    parse_sound wire ef_central 9 {efs = pair} {mem' = 5} (omega arith) (omega arith) parse-wire

parse-write_example :
    (out : List ℕ) × (mem' : ℕ) × (write collect true [] pair ef_central ≡ ok out)
    × (parse out (length out) ef_central 5 ≡ ok (pair, mem'))
parse-write_example = parse-write pair ef_central 5 pair-IsField refl (omega arith) (omega arith)

write-pair : write collect true [] pair ef_central ≡ ok (encode_all pair)
unfolding program
write-pair = refl

abbrev local_copy : List ExtraField
local_copy = record { flags = ef_local; id = 0x5455; size = 2; bytes = 3 ∷ 9 ∷ [] } ∷ []

local_copy-Stored : All Stored local_copy
local_copy-Stored = (refl, tt)

merge-carries_example :
    carries (merge pair local_copy) 0x5455 (3 ∷ 9 ∷ []) ef_local
    ≡ (carries pair 0x5455 (3 ∷ 9 ∷ []) ef_local || carries local_copy 0x5455 (3 ∷ 9 ∷ []) ef_local)
merge-carries_example =
    merge-carries 0x5455 (3 ∷ 9 ∷ []) ef_local pair local_copy pair-Stored local_copy-Stored

merge_marks : length (merge pair local_copy) ≡ 2
unfolding program
merge_marks = refl
