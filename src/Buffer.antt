-- ===== src/Buffer.antt =====
-- libs/archive-rw/zip_buffer.c: a bounded cursor over bytes, whose failures are sticky.
pub mod Inv
pub mod Words
pub mod Cursor
pub mod At
mod Examples
use allvm_tools.Base.{
  ℕ, ◌+◌, ◌-◌, ◌*◌, ◌/◌, ◌%◌, ◌^◌, Bool, true, false, not, ◌&&◌, ◌||◌, Option, none, some, List, [],
  ◌∷◌, length, get_or, take, drop, write_at, ltb, ◌==◌, if◌then◌else◌,
}

-- `struct zip_buffer`. `bytes` is the memory behind `data`.
pub record Buffer : Type 0 where
  pub ok : Bool
  pub free_data : Bool
  pub bytes : List ℕ
  pub size : ℕ
  pub offset : ℕ

abbrev pub u64 : ℕ
u64 = 2 ^ 64

-- `_zip_buffer_new`: `store` is what `malloc(size)` gave, and is read only if no data is given;
-- `room` says whether the structure itself could be allocated.
unfoldable pub new : Option (List ℕ) → Bool → Option (List ℕ) → ℕ → Option Buffer
new store room given size = elim given [
  | none ↦ elim store [
    | none ↦ none
    | some fresh ↦
        if room
        then some (record { ok = true; free_data = true; bytes = fresh; size = size; offset = 0 })
        else none
  ]
  | some bytes ↦
      if room
      then some (record { ok = true; free_data = false; bytes = bytes; size = size; offset = 0 })
      else none
]

unfoldable pub eof : Buffer → Bool
eof b = b.ok && b.offset == b.size

unfoldable pub left : Buffer → ℕ
left b = if b.ok then b.size - b.offset else 0

unfoldable pub current_offset : Buffer → ℕ
current_offset b = if b.ok then b.offset else 0

abbrev pub fail : Buffer → Buffer
fail b = record b { ok = false }

-- The pointer that `_zip_buffer_peek` returns is an index into `bytes`; `none` is NULL.
unfoldable pub peek : Buffer → ℕ → Option ℕ × Buffer
peek b n =
    let sum = (b.offset + n) % u64 in
    if not b.ok || ltb sum n || ltb b.size sum then (none, fail b) else (some b.offset, b)

unfoldable pub get : Buffer → ℕ → Option ℕ × Buffer
unfolding peek
get b n =
    let (p, b') = peek b n in
    elim p [ none ↦ (none, b') | some at ↦ (some at, record b' { offset = (b'.offset + n) % u64 }) ]

abbrev pub byte : Buffer → ℕ → ℕ
byte b i = get_or b.bytes i 0

unfoldable pub get_8 : Buffer → ℕ × Buffer
unfolding get
get_8 b = let (p, b') = get b 1 in elim p [ none ↦ (0, b') | some at ↦ (byte b' (at + 0), b') ]

unfoldable pub get_16 : Buffer → ℕ × Buffer
unfolding get
get_16 b =
    let (p, b') = get b 2 in
    elim p [
      | none ↦ (0, b')
      | some at ↦ ((byte b' (at + 0) + byte b' (at + 1) * 2 ^ 8) % 2 ^ 16, b')
    ]

unfoldable pub get_32 : Buffer → ℕ × Buffer
unfolding get
get_32 b =
    let (p, b') = get b 4 in
    elim p [
      | none ↦ (0, b')
      | some at ↦ (
        (((byte b' (at + 3) * 2 ^ 8 + byte b' (at + 2)) * 2 ^ 8 + byte b' (at + 1)) * 2 ^ 8
              + byte b' (at + 0))
            % 2 ^ 32,
        b',
      )
    ]

unfoldable pub get_64 : Buffer → ℕ × Buffer
unfolding get
get_64 b =
    let (p, b') = get b 8 in
    elim p [
      | none ↦ (0, b')
      | some at ↦ (
        (byte b' (at + 7) * 2 ^ 56
              + byte b' (at + 6) * 2 ^ 48
              + byte b' (at + 5) * 2 ^ 40
              + byte b' (at + 4) * 2 ^ 32
              + byte b' (at + 3) * 2 ^ 24
              + byte b' (at + 2) * 2 ^ 16
              + byte b' (at + 1) * 2 ^ 8
              + byte b' (at + 0))
            % u64,
        b',
      )
    ]

-- `_zip_buffer_read`: the bytes that it copies out stand beside their number.
unfoldable pub read : Buffer → ℕ → (ℕ × List ℕ) × Buffer
unfolding left get
read b n =
    let k = if ltb (left b) n then left b else n in
    let (p, b') = get b k in
    elim p [ none ↦ ((k, []), b') | some at ↦ ((k, take k (drop at b'.bytes)), b') ]

-- `memcpy(dst, src, length)` and the assignments `data[k] = …`; `false` is the return value -1.
unfoldable pub put : Buffer → List ℕ → Bool × Buffer
unfolding get
put b src =
    let (p, b') = get b (length src) in
    elim p [ none ↦ (false, b') | some at ↦ (true, record b' { bytes = write_at b'.bytes at src }) ]

unfoldable pub put_8 : Buffer → ℕ → Bool × Buffer
unfolding put
put_8 b i = put b (i ∷ [])

unfoldable pub put_16 : Buffer → ℕ → Bool × Buffer
unfolding put
put_16 b i = put b (i % 2 ^ 8 ∷ i / 2 ^ 8 % 2 ^ 8 ∷ [])

unfoldable pub put_32 : Buffer → ℕ → Bool × Buffer
unfolding put
put_32 b i = put b (i % 2 ^ 8 ∷ i / 2 ^ 8 % 2 ^ 8 ∷ i / 2 ^ 16 % 2 ^ 8 ∷ i / 2 ^ 24 % 2 ^ 8 ∷ [])

unfoldable pub put_64 : Buffer → ℕ → Bool × Buffer
unfolding put
put_64 b i = put b (
    i % 2 ^ 8
    ∷ i / 2 ^ 8 % 2 ^ 8
    ∷ i / 2 ^ 16 % 2 ^ 8
    ∷ i / 2 ^ 24 % 2 ^ 8
    ∷ i / 2 ^ 32 % 2 ^ 8
    ∷ i / 2 ^ 40 % 2 ^ 8
    ∷ i / 2 ^ 48 % 2 ^ 8
    ∷ i / 2 ^ 56 % 2 ^ 8
    ∷ [])

unfoldable pub set_offset : Buffer → ℕ → Bool × Buffer
set_offset b o =
    if ltb b.size o then (false, fail b) else (true, record b { ok = true; offset = o })

unfoldable pub skip : Buffer → ℕ → Bool × Buffer
unfolding set_offset
skip b n =
    let o = (b.offset + n) % u64 in if ltb o b.offset then (false, fail b) else set_offset b o
