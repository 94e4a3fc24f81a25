-- ===== src/Source/Memory/Growth.antt =====
-- Writing to a source in memory (libs/archive-rw/zip_source_buffer.c): the buffer grows by fragments of
-- one size. The parameters are that size, WRITE_FRAGMENT_SIZE, and what new memory holds.
use allvm_tools.Source.Memory.{Buffer, Reply, cells, minus}
use allvm_tools.Base.{
  ℕ, ◌^◌, length, min, ◌==◌, Bool, ◌++◌, ◌*◌, none, false, ◌+◌, if◌then◌else◌, ◌-◌, true, get_elem?,
  [], ◌%◌, List, ◌∷◌, ltb, set, ◌/◌, drop, Option, zero, some, take, suc,
}

-- `memcpy` into `xs` from `start` on.
abbrev pub overwrite {ℓ} : {A : Type ℓ} → List A → ℕ → List A → List A
overwrite xs start vs = take start xs ++ vs ++ drop (start + length vs) xs

-- The loop that doubles a capacity; each round adds to it, so the capacity that is needed is fuel
-- enough.
unfoldable pub double : ℕ → ℕ → ℕ → ℕ
double zero capacity needed = capacity
double (suc fuel) capacity needed =
    let twice = double fuel ((capacity * 2) % 2 ^ 64) needed in
    if ltb capacity needed then twice else capacity

-- The loop of `buffer_write`, over the fragments from number `i` on, the first of them from `start` on:
-- the fragments after it, and the one that is current then.
unfoldable pub write_fragments : List (List ℕ) → ℕ → ℕ → List ℕ → Option (List (List ℕ) × ℕ)
write_fragments fs i start [] = some (fs, i)
write_fragments [] i start (v ∷ vs) = none
write_fragments (f ∷ fs) i start (v ∷ vs) =
    let left = min (length (v ∷ vs)) (length f - start) in
    let f' = overwrite f start (take left (v ∷ vs)) in
    let rest = write_fragments fs (suc i) 0 (drop left (v ∷ vs)) in
    if ltb (length f) start
    then none
    else if left == length f - start
    then elim rest [ none ↦ none | some (more, j) ↦ some (f' ∷ more, j) ]
    else some (f' ∷ fs, i)

-- The last part of `buffer_write`, where there is room.
unfoldable pub write_here : Buffer → List ℕ → Option (Reply × Buffer)
write_here b bytes =
    let i = b.current_fragment in
    let written : Option (List (List ℕ) × ℕ) = elim (get_elem? b.fragment_offsets i) [
      | none ↦ none
      | some at ↦ write_fragments (drop i b.fragments) i (minus b.offset at) bytes
    ] in
    let after = (b.offset + length bytes) % 2 ^ 64 in
    elim written [
      | none ↦ none
      | some (more, j) ↦ some (
        some (length bytes, []),
        record b {
          fragments = take i b.fragments ++ more;
          offset = after;
          current_fragment = j;
          size = if ltb b.size after then after else b.size;
        },
      )
    ]

module _ (fragment_size : ℕ) (junk : ℕ → ℕ) (fresh : ℕ → List ℕ) where
  -- `buffer_grow_fragments`; `alloc` says whether both calls of realloc succeed.
  unfoldable pub grow_fragments : Bool → Buffer → ℕ → Option Buffer
  grow_fragments alloc b capacity =
      if ltb capacity b.fragments_capacity
      then some b
      else if alloc
      then some (record b {
        fragment_offsets =
            b.fragment_offsets
            ++ cells junk (b.fragments_capacity + 1) (capacity - b.fragments_capacity);
        fragments_capacity = capacity;
      })
      else none

  -- The loop that adds fragments; `blocks` is the number of calls of malloc that still succeed.
  unfoldable pub add_fragments : ℕ → ℕ → Buffer → ℕ → Bool × Buffer
  add_fragments zero blocks b capacity = (true, b)
  add_fragments (suc count) zero b capacity = (false, b)
  add_fragments (suc count) (suc blocks) b capacity =
      let capacity' = (capacity + fragment_size) % 2 ^ 64 in
      add_fragments count blocks
        (record b {
          fragments = b.fragments ++ fresh (length b.fragments) ∷ [];
          fragment_offsets = set b.fragment_offsets (length b.fragments + 1) capacity';
        })
        capacity'

  -- The part of `buffer_write` that makes room for `len` bytes: whether it did.
  unfoldable pub make_room : Bool → ℕ → Buffer → ℕ → Option (Bool × Buffer)
  make_room alloc blocks b len =
      let n = length b.fragments in
      elim (get_elem? b.fragment_offsets n) [
        | none ↦ none
        | some capacity ↦
            let missing = minus len (minus capacity b.offset) in
            let needed = n + (missing + fragment_size - 1) / fragment_size in
            let first = if b.fragments_capacity == 0 then 16 else b.fragments_capacity in
            let grown =
              if ltb b.fragments_capacity needed
              then grow_fragments alloc b (double needed first needed)
              else some b in
            let roomy : Bool × Buffer = elim grown [
              | none ↦ (false, b)
              | some b' ↦ add_fragments (needed - n) blocks b' capacity
            ] in
            if ltb capacity (b.offset + len) then some roomy else some (true, b)
      ]

  -- `buffer_write`
  unfoldable pub write_buffer : Bool → ℕ → Buffer → List ℕ → Option (Reply × Buffer)
  write_buffer alloc blocks b bytes =
      let len = length bytes in
      let written : Option (Reply × Buffer) = elim (make_room alloc blocks b len) [
        | none ↦ none
        | some (done, b') ↦
            let result = write_here b' bytes in if done then result else some (none, b')
      ] in
      if ltb ((b.offset + len + fragment_size - 1) % 2 ^ 64) len then some (none, b) else written
