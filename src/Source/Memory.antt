-- ===== src/Source/Memory.antt =====
-- libs/archive-rw/zip_source_buffer.c: a source in memory, whose bytes lie in fragments. A read outside
-- of an array is `none`.
mod Places
mod Reads
mod Find
mod Seeks
mod Growth
mod Overwrites
mod Lengths
mod Writes
mod Room
mod Needs
mod Refine
mod Starts
mod Examples
use allvm_tools.Source.{from_start, from_current, from_end, elsewhere, Seek, Reply}
use allvm_tools.Base.{
  ℕ, min, length, suc, ◌^◌, ◌/◌, none, ◌+◌, Bool, get_elem?, some, [], Option, ◌==◌, take, set, ◌-◌,
  if◌then◌else◌, drop, ◌++◌, ◌&&◌, ltb, ◌||◌, ◌∷◌, List, ◌%◌, zero, not,
}

-- `struct buffer`, less the fields that say which fragments are freed with it and which are shared.
-- The first `nfragments` fragments are a list, each with as many bytes as its `length` says, and
-- `fragment_offsets` has a cell more than `fragments_capacity`.
pub record Buffer : Type 0 where
  pub fragments : List (List ℕ)
  pub fragment_offsets : List ℕ
  pub fragments_capacity : ℕ
  pub size : ℕ
  pub offset : ℕ
  pub current_fragment : ℕ

-- What a new array holds from cell `k` on; what memory holds before it is written is `junk`.
abbrev pub cells : (ℕ → ℕ) → ℕ → ℕ → List ℕ
cells junk k zero = []
cells junk k (suc n) = junk k ∷ cells junk (suc k) n

-- `buffer_new` with no fragments; `alloc` and `alloc'` say whether its allocations succeed. It does not
-- set `current_fragment`.
unfoldable pub new_empty : Bool → Bool → (ℕ → ℕ) → Option Buffer
new_empty alloc alloc' junk =
    if alloc && alloc'
    then some (record {
      fragments = [];
      fragment_offsets = 0 ∷ [];
      fragments_capacity = 0;
      size = 0;
      offset = 0;
      current_fragment = junk 0;
    })
    else none

-- ZIP_SOURCE_OPEN in `read_data`
unfoldable pub open_buffer : Buffer → Buffer
open_buffer b = record b { offset = 0; current_fragment = 0 }

-- The loop of `buffer_new` over the fragments, from number `i` on: the fragments that are kept, the
-- offsets, and the size. A fragment of length 0 is left out, and its cell is left as it is. The data
-- of a fragment is NULL if it is `none`, and its length the second part.
unfoldable pub fill :
    List (Option (List ℕ) × ℕ) → ℕ → ℕ → List ℕ → Option (List (List ℕ) × List ℕ × ℕ)
fill [] i offset cells = some ([], cells, offset)
fill ((data', len) ∷ given) i offset cells =
    let skipped = fill given (suc i) offset cells in
    let kept = fill given (suc i) ((offset + len) % 2 ^ 64) (set cells i offset) in
    if len == 0 then skipped else elim data' [
      | none ↦ none
      | some bytes ↦ elim kept [
        | none ↦ none
        | some (frags, cells', offset') ↦ some (take len bytes ∷ frags, cells', offset')
      ]
    ]

-- `buffer_new` of some fragments.
unfoldable pub new_buffer : Bool → Bool → (ℕ → ℕ) → List (Option (List ℕ) × ℕ) → Option Buffer
new_buffer alloc alloc' junk given =
    let n = length given in
    if not (alloc && alloc') then none else elim (fill given 0 0 (cells junk 0 (n + 1))) [
      | none ↦ none
      | some (frags, offsets, total) ↦ some (record {
        fragments = frags;
        fragment_offsets = set offsets n total;
        fragments_capacity = n;
        size = total;
        offset = 0;
        current_fragment = junk 0;
      })
    ]

-- The loop of `buffer_find_fragment`; each round narrows `low` and `high` by one at least.
unfoldable pub find_loop : ℕ → Buffer → ℕ → ℕ → ℕ → Option ℕ
find_loop zero b target low high = none
find_loop (suc fuel) b target low high =
    let mid = (high - low) / 2 + low in
    let lower = find_loop fuel b target low ((mid + (2 ^ 64 - 1)) % 2 ^ 64) in
    let upper = find_loop fuel b target (mid + 1) high in
    let above : Option ℕ = elim (get_elem? b.fragment_offsets (mid + 1)) [
      | none ↦ none
      | some next ↦ if ltb target next then some mid else upper
    ] in
    let here : Option ℕ = elim (get_elem? b.fragment_offsets mid) [
      | none ↦ none
      | some start ↦
          if ltb target start then lower else if mid == length b.fragments then some mid else above
    ] in
    if ltb low high then here else some low

-- `buffer_find_fragment`
unfoldable pub find_fragment : Buffer → ℕ → Option ℕ
find_fragment b target =
    find_loop (length b.fragments + 1) b target 0 ((length b.fragments + (2 ^ 64 - 1)) % 2 ^ 64)

-- `a - b` on zip_uint64_t
abbrev pub minus : ℕ → ℕ → ℕ
minus a b = (a + (2 ^ 64 - b)) % 2 ^ 64

-- The loop of `buffer_read`, over the fragments from number `i` on, the first of them from `start` on:
-- the bytes, and the fragment that is current after them. If a round does not get to the end of its
-- fragment, it has read all that was left to read, and the loop ends.
unfoldable pub read_fragments : List (List ℕ) → ℕ → ℕ → ℕ → Option (List ℕ × ℕ)
read_fragments fs i start zero = some ([], i)
read_fragments [] i start (suc n) = none
read_fragments (f ∷ fs) i start (suc n) =
    let left = min (suc n) (length f - start) in
    let bytes = take left (drop start f) in
    let rest = read_fragments fs (suc i) 0 (suc n - left) in
    if ltb (length f) start
    then none
    else if left == length f - start
    then elim rest [ none ↦ none | some (more, j) ↦ some (bytes ++ more, j) ]
    else some (bytes, i)

-- `buffer_read`, of bytes that are left.
unfoldable pub read_left : Buffer → ℕ → Option (Reply × Buffer)
read_left b n =
    let got : Option (List ℕ × ℕ) = elim (get_elem? b.fragment_offsets b.current_fragment) [
      | none ↦ none
      | some at ↦
          read_fragments (drop b.current_fragment b.fragments) b.current_fragment
            (minus b.offset at) n
    ] in
    if n == 0
    then some (some (0, []), b)
    else if ltb (2 ^ 63 - 1) n
    then some (none, b)
    else elim got [
      | none ↦ none
      | some (bytes, i) ↦
          some
            (some (n, bytes), record b { offset = (b.offset + n) % 2 ^ 64; current_fragment = i })
    ]

unfoldable pub read : Buffer → ℕ → Option (Reply × Buffer)
read b len = read_left b (min len (minus b.size b.offset))

-- `zip_source_seek_compute_offset`: a negative offset is its two's complement.
abbrev pub moved : Seek → ℕ → ℕ
moved args base =
    (base + (if args.negative then 2 ^ 64 - args.distance else args.distance)) % 2 ^ 64

unfoldable pub compute_offset : ℕ → ℕ → Seek → Option ℕ
compute_offset offset len args =
    let base : Option ℕ = elim args.whence [
      | from_start ↦ some 0
      | from_current ↦ some offset
      | from_end ↦ some len
      | elsewhere ↦ none
    ] in
    elim base [
      | none ↦ none
      | some b ↦
          let place = moved args b in
          if ltb (2 ^ 63 - 1) place || ltb len place then none else some place
    ]

-- `buffer_seek`
unfoldable pub seek_buffer : Buffer → Seek → Option (Reply × Buffer)
seek_buffer b args = elim (compute_offset b.offset b.size args) [
  | none ↦ some (none, b)
  | some place ↦ elim (find_fragment b place) [
    | none ↦ none
    | some i ↦ some (some (0, []), record b { offset = place; current_fragment = i })
  ]
]
