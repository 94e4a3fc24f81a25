-- ===== src/Source/Memory/Refine.antt =====
-- A source in memory refines an array of bytes with a place in it.
use allvm_tools.Source.Memory.Seeks.{target, Sought, seek_buffer-refines}
use allvm_tools.Source.Memory.Needs.{make_room-Roomier}
use allvm_tools.Source.Memory.Places.{total}
use allvm_tools.Source.Memory.{Buffer, seek_buffer, read}
use allvm_tools.Source.Memory.Growth.{write_buffer, make_room, write_here, overwrite}
use allvm_tools.Source.Memory.Writes.{WroteTo, write_here-WroteTo}
use allvm_tools.Source.Memory.Reads.{IsValid, contents, length-contents, read-contents}
use allvm_tools.Source.{from_start, Seek, Reply}
use allvm_tools.Base.{
  ℕ, ◌^◌, arith, ◌<◌, drop, [], ◌%◌, some, false, ◌≡◌, ap, List, ltb, ◌+◌, Option, ◌-◌, length, ◌≤◌,
  take, true, ◌∙◌, subst, ◌++◌, drop-append, sym, take-append, length-take, append_assoc,
  length-append, refl, length-drop, ◌∷◌,
}

module _ (fragment_size : ℕ) (junk : ℕ → ℕ) (fresh : ℕ → List ℕ) where
  write_buffer-some :
      (blocks : ℕ) (b b' : Buffer) (bytes : List ℕ) (r : Option (Reply × Buffer))
      → ltb ((b.offset + length bytes + fragment_size - 1) % 2 ^ 64) (length bytes) ≡ false
      → make_room fragment_size junk fresh true blocks b (length bytes) ≡ some (true, b')
      → write_here b' bytes ≡ r
      → write_buffer fragment_size junk fresh true blocks b bytes ≡ r
  unfolding write_buffer
  write_buffer-some blocks b b' bytes r fits room e = rw (write_buffer, fits, room) e

  -- A write to a well-formed buffer replaces the bytes of its contents from the offset on, and goes on
  -- past their end, moves the offset behind them, and leaves the buffer well-formed, whatever new
  -- memory holds. New fragments are of one size, above 0; the allocations succeed, and the size, the
  -- capacity and the length of the data with a fragment are below 2^63.
  pub write_buffer-refines :
      0 < fragment_size
      → ((i : ℕ) → length (fresh i) ≡ fragment_size)
      → (blocks : ℕ) (b : Buffer) (bytes : List ℕ) → IsValid b
      → length bytes + fragment_size ≤ blocks
      → b.fragments_capacity + length bytes + fragment_size < 2 ^ 63
      → total b.fragments + length bytes + fragment_size < 2 ^ 63
      → (t : Buffer) × (write_buffer fragment_size junk fresh true blocks b bytes
          ≡ some (some (length bytes, []), t))
        × WroteTo b bytes t
  write_buffer-refines pos fresh-length blocks b bytes v mem cap_small small =
      let len = length bytes in
      let inside = v.inside in
      let fits = v.fits in
      let (b', roomy, (same, offset', size', v'), room) =
        make_room-Roomier fragment_size junk fresh pos fresh-length blocks b len v mem cap_small
          small in
      let (t, run, (bytes', after, valid)) =
        write_here-WroteTo b' bytes v' (omega (arith, offset')) in
      let no_wrap : ltb ((b.offset + len + fragment_size - 1) % 2 ^ 64) len ≡ false =
        ground arith in
      (
        t,
        write_buffer-some blocks b b' bytes (some (some (len, []), t)) no_wrap roomy run,
        (
          bytes'
              ∙ ap (λ l. overwrite l b'.offset bytes) same
              ∙ ap (λ k. overwrite (contents b) k bytes) offset',
          omega (arith, after, offset'),
          valid,
        ),
      )

-- A seek to a place from the start.
abbrev pub seek_from_start : ℕ → Seek
seek_from_start place = record { negative = false; distance = place; whence = from_start }

read_back :
    (c bytes : List ℕ) (offset : ℕ)
    → offset ≤ length c
    → take (length bytes) (drop offset (overwrite c offset bytes)) ≡ bytes
read_back c bytes offset le =
    let a = take offset c in
    let rest = drop (offset + length bytes) c in
    let e : length a ≡ offset = omega (arith, length-take offset c) in
    ap (λ l. take (length bytes) (drop offset l)) (append_assoc a bytes rest)
    ∙ ap (λ k. take (length bytes) (drop k (a ++ (bytes ++ rest)))) (sym e)
    ∙ ap (take (length bytes)) (drop-append a (bytes ++ rest))
    ∙ take-append bytes rest

some_fragments : (xss : List (List ℕ)) → 0 < total xss → 0 < length xss
some_fragments [] h = h
some_fragments (xs ∷ xss) h = omega arith

seek_there :
    (t : Buffer) (place : ℕ)
    → place ≤ t.size
    → target from_start t.offset t.size (seek_from_start place) ≡ some place
seek_there t place le =
    let e : 0 + place ≡ place = omega arith in
    let fits : ltb t.size place ≡ false = ground arith in rw (e, fits) refl

size_after :
    (b t : Buffer) (bytes : List ℕ) → IsValid b → WroteTo b bytes t → t.size ≤ b.size + length bytes
size_after b t bytes v (same, after, valid) =
    let c = contents b in
    let k = b.offset + length bytes in
    let size_t = sym (length-contents t valid) ∙ ap (λ l. length l) same in
    omega (
      arith,
      size_t,
      length-append (take b.offset c ++ bytes) (drop k c),
      length-append (take b.offset c) bytes,
      length-take b.offset c,
      length-drop k c,
      length-contents b v,
    )

seek_and_read :
    (b t : Buffer) (bytes : List ℕ)
    → IsValid b
    → WroteTo b bytes t
    → 0 < length bytes
    → b.size + length bytes < 2 ^ 63
    → (u : Buffer) × (w : Buffer) × (seek_buffer t (seek_from_start b.offset)
        ≡ some (some (0, []), u))
      × (read u (length bytes) ≡ some (some (length bytes, bytes), w))
seek_and_read b t bytes v (same, after, valid) some_bytes small =
    let len = length bytes in
    let inside = v.inside in
    let inside' = valid.inside in
    let fits' = valid.fits in
    let size' = size_after b t bytes v (same, after, valid) in
    let args = seek_from_start b.offset in
    let fragments' = some_fragments t.fragments (omega arith) in
    let (u, sought, at, same', valid') =
      subst (Sought t (seek_buffer t args)) (seek_there t b.offset (omega arith))
        (seek_buffer-refines t args valid fragments' (omega arith) (omega arith)) in
    let bytes' : take len (drop u.offset (contents u)) ≡ bytes =
      ap (λ k. take len (drop k (contents u))) at
      ∙ ap (λ l. take len (drop b.offset l)) (same' ∙ same)
      ∙ read_back (contents b) bytes b.offset (omega (arith, length-contents b v)) in
    let (w, got, moved', same'', valid'') = read-contents u len (omega arith) valid' in
    (u, w, sought, subst (λ l. read u len ≡ some (some (length l, l), w)) bytes' got)

-- Data of at least one byte that are written to a well-formed buffer are read back from the place that
-- they were written at, after a seek to it. There is memory: for the new fragments, which have a size
-- above 0, and for as many blocks as the data have bytes and a fragment has; and the capacity and the
-- length of the buffer, with the bytes of the data and of a fragment, are below 2 ^ 63.
pub read-write :
    (fragment_size : ℕ) (junk : ℕ → ℕ) (fresh : ℕ → List ℕ)
    → 0 < fragment_size
    → ((i : ℕ) → length (fresh i) ≡ fragment_size)
    → (blocks : ℕ) (b : Buffer) (bytes : List ℕ) → IsValid b
    → length bytes + fragment_size ≤ blocks
    → b.fragments_capacity + length bytes + fragment_size < 2 ^ 63
    → total b.fragments + length bytes + fragment_size < 2 ^ 63
    → 0 < length bytes
    → (t : Buffer) × (u : Buffer) × (w : Buffer) × (write_buffer fragment_size junk fresh true
          blocks b bytes
        ≡ some (some (length bytes, []), t))
      × (seek_buffer t (seek_from_start b.offset) ≡ some (some (0, []), u))
      × (read u (length bytes) ≡ some (some (length bytes, bytes), w))
read-write fragment_size junk fresh pos fresh-length blocks b bytes v mem cap_small small
      some_bytes =
    let fits = v.fits in
    let (t, written, wrote) =
      write_buffer-refines fragment_size junk fresh pos fresh-length blocks b bytes v mem cap_small
        small in
    let (u, w, sought, got) = seek_and_read b t bytes v wrote some_bytes (omega arith) in
    (t, u, w, written, sought, got)
