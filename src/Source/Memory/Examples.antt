-- ===== src/Source/Memory/Examples.antt =====
-- Sources in memory on concrete bytes.
use allvm_tools.Source.Memory.Refine.{seek_from_start, read-write, write_buffer-refines}
use allvm_tools.Source.Memory.Find.{find_fragment-finds}
use allvm_tools.Source.Memory.Growth.{write_buffer}
use allvm_tools.Source.Memory.{
  Buffer, find_loop, fill, read, open_buffer, read_left, read_fragments, new_empty, seek_buffer,
  new_buffer, find_fragment,
}
use allvm_tools.Source.Memory.Writes.{WroteTo}
use allvm_tools.Source.Memory.Seeks.{Sought, seek_buffer-refines}
use allvm_tools.Source.Memory.Reads.{IsValid, contents, read-contents}
use allvm_tools.Source.Memory.Places.{At}
use allvm_tools.Source.{from_end, Seek, Reply}
use allvm_tools.Source.Memory.Starts.{new_buffer-refines}
use allvm_tools.Base.{ℕ, some, refl, ◌≡◌, List, ◌∷◌, [], none, true, ◌<◌, arith, Option}

abbrev five : Buffer
five = record {
  fragments = (1 ∷ 2 ∷ 3 ∷ []) ∷ (4 ∷ 5 ∷ []) ∷ [];
  fragment_offsets = 0 ∷ 3 ∷ 5 ∷ [];
  fragments_capacity = 2;
  size = 5;
  offset = 1;
  current_fragment = 0;
}

five-IsValid : IsValid five
five-IsValid = record {
  sums = (refl, (refl, refl));
  fits = omega arith;
  cells_there = refl;
  within_capacity = omega arith;
  few = omega arith;
  bounded = omega arith;
  inside = omega arith;
  here = omega arith;
}

abbrev filler : ℕ → ℕ
filler _ = 9

abbrev two_zeros : ℕ → List ℕ
two_zeros _ = 0 ∷ 0 ∷ []

read-contents_example :
    (t : Buffer) × (read five 3 ≡ some (some (3, 2 ∷ 3 ∷ 4 ∷ []), t))
    × (t.offset ≡ 4)
    × (contents t ≡ 1 ∷ 2 ∷ 3 ∷ 4 ∷ 5 ∷ [])
    × IsValid t
read-contents_example = read-contents five 3 (omega arith) five-IsValid

find_fragment-finds_example :
    (i : ℕ) × (find_fragment five 3 ≡ some i) × (i < 2) × At five.fragments i 3
find_fragment-finds_example = find_fragment-finds five 3 five-IsValid (omega arith) (omega arith)

abbrev two_back : Seek
two_back = record { negative = true; distance = 2; whence = from_end }

seek_buffer-refines_example : Sought five (seek_buffer five two_back) (some 3)
seek_buffer-refines_example =
    seek_buffer-refines five two_back five-IsValid (omega arith) (omega arith) (omega arith)

write_buffer-refines_example :
    (t : Buffer) × (write_buffer 2 filler two_zeros true 9 five (6 ∷ 7 ∷ 8 ∷ 6 ∷ 7 ∷ 8 ∷ [])
      ≡ some (some (6, []), t))
    × WroteTo five (6 ∷ 7 ∷ 8 ∷ 6 ∷ 7 ∷ 8 ∷ []) t
write_buffer-refines_example =
    write_buffer-refines 2 filler two_zeros (omega arith) (λ _. refl) 9 five
      (6 ∷ 7 ∷ 8 ∷ 6 ∷ 7 ∷ 8 ∷ []) five-IsValid (omega arith) (omega arith) (omega arith)

read-write_example :
    (t : Buffer) × (u : Buffer) × (w : Buffer) × (write_buffer 2 filler two_zeros true 9 five
        (6 ∷ 7 ∷ 8 ∷ 6 ∷ 7 ∷ 8 ∷ [])
      ≡ some (some (6, []), t))
    × (seek_buffer t (seek_from_start 1) ≡ some (some (0, []), u))
    × (read u 6 ≡ some (some (6, 6 ∷ 7 ∷ 8 ∷ 6 ∷ 7 ∷ 8 ∷ []), w))
read-write_example =
    read-write 2 filler two_zeros (omega arith) (λ _. refl) 9 five (6 ∷ 7 ∷ 8 ∷ 6 ∷ 7 ∷ 8 ∷ [])
      five-IsValid (omega arith) (omega arith) (omega arith) (omega arith)

-- A search in a buffer without fragments reads outside of the array.
find_nothing :
    elim (new_empty true true filler) as (λ _. Option ℕ) [
      | none ↦ some 0
      | some b ↦ find_fragment b 0
    ]
    ≡ none
unfolding new_empty find_fragment find_loop
find_nothing = refl

-- A fragment of length 0 leaves the offset of the next one as it was in new memory, and a read then
-- goes outside of the fragment.
skipped_fragment :
    elim (new_buffer true true filler ((none, 0) ∷ (some (7 ∷ []), 1) ∷ []))
      as (λ _. Option (Reply × Buffer)) [
        | none ↦ some (none, five)
        | some b ↦ read (open_buffer b) 1
      ]
    ≡ none
unfolding new_buffer fill open_buffer read read_left read_fragments
skipped_fragment = refl

new_buffer-refines_example :
    (b : Buffer) × (new_buffer true true filler ((some (7 ∷ 8 ∷ []), 2) ∷ (some (9 ∷ []), 1) ∷ [])
      ≡ some b)
    × (contents (open_buffer b) ≡ 7 ∷ 8 ∷ 9 ∷ [])
    × ((open_buffer b).offset ≡ 0)
    × IsValid (open_buffer b)
new_buffer-refines_example =
    new_buffer-refines filler ((7 ∷ 8 ∷ []) ∷ (9 ∷ []) ∷ []) (omega arith, (omega arith, tt))
      (omega arith) (omega arith)
