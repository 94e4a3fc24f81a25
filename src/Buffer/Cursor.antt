-- ===== src/Buffer/Cursor.antt =====
-- What a client sees of a `zip_buffer_t`: the bytes still to come, or a failure.
use allvm_tools.Buffer.Inv.{IsValid}
use allvm_tools.Buffer.{Buffer, get_16, get_8, read, get_32, get_64, left}
use allvm_tools.Base.{
  Option, take, ◌∷◌, ◌+◌, drop, ◌*◌, ◌<◌, ◌≡◌, length, suc, ap, arith, get_or, drop-cons, ◌∙◌,
  if◌then◌else◌, some, ltb, [], Octets-get_or, none, length-drop, drop-drop, min, drop-length_le,
  take-length_le, ◌-◌, Octets, ◌^◌, ◌≤◌, List, ℕ,
}

-- `none` once a call has failed.
abbrev pub Stream : Type 0
Stream = Option (List ℕ)

unfoldable pub view : Buffer → Stream
view b = if b.ok then some (drop b.offset b.bytes) else none

-- The number that a list of digits stands for, the least significant first.
abbrev pub little_endian : List ℕ → ℕ
little_endian [] = 0
little_endian (x ∷ xs) = x + 256 * little_endian xs

-- The next `n` bytes as a number; too few are a failure, which gives 0 and lasts.
unfoldable pub fetch : ℕ → Stream → ℕ × Stream
fetch n none = (0, none)
fetch n (some xs) =
    if ltb (length xs) n then (0, none) else (little_endian (take n xs), some (drop n xs))

module _ (xs : List ℕ) (o : ℕ) where
  digit :
      (k n : ℕ)
      → o + k < length xs
      → little_endian (take (suc n) (drop (o + k) xs))
        ≡ get_or xs (o + k) 0 + 256 * little_endian (take n (drop (o + suc k) xs))
  digit k n h =
      let e : suc (o + k) ≡ o + suc k = omega arith in
      ap (λ l. little_endian (take (suc n) l)) (drop-cons (o + k) xs 0 h)
      ∙ ap (λ j. get_or xs (o + k) 0 + 256 * little_endian (take n (drop j xs))) e

  origin : (n : ℕ) → take n (drop o xs) ≡ take n (drop (o + 0) xs)
  origin n = let e : o ≡ o + 0 = omega arith in ap (λ j. take n (drop j xs)) e

abbrev pub seen : ℕ × Buffer → ℕ × Stream
seen (w, b) = (w, view b)

-- The eight digits of a 64-bit word, in the order in which `get_64` adds them.
digits_64 :
    (xs : List ℕ) (o : ℕ)
    → o + 8 ≤ length xs
    → little_endian (take 8 (drop o xs))
      ≡ get_or xs (o + 7) 0 * 2 ^ 56
        + get_or xs (o + 6) 0 * 2 ^ 48
        + get_or xs (o + 5) 0 * 2 ^ 40
        + get_or xs (o + 4) 0 * 2 ^ 32
        + get_or xs (o + 3) 0 * 2 ^ 24
        + get_or xs (o + 2) 0 * 2 ^ 16
        + get_or xs (o + 1) 0 * 2 ^ 8
        + get_or xs (o + 0) 0
digits_64 xs o h =
    origin_64
    ∙ omega (
      arith,
      digit xs o 0 7 (omega arith),
      digit xs o 1 6 (omega arith),
      digit xs o 2 5 (omega arith),
      digit xs o 3 4 (omega arith),
      digit xs o 4 3 (omega arith),
      digit xs o 5 2 (omega arith),
      digit xs o 6 1 (omega arith),
      digit xs o 7 0 (omega arith),
    )
  where
    origin_64 : little_endian (take 8 (drop o xs)) ≡ little_endian (take 8 (drop (o + 0) xs))
    origin_64 = ap little_endian (origin xs o 8)

digits_64_lt :
    (xs : List ℕ) (o : ℕ)
    → Octets xs
    → get_or xs (o + 7) 0 * 2 ^ 56
        + get_or xs (o + 6) 0 * 2 ^ 48
        + get_or xs (o + 5) 0 * 2 ^ 40
        + get_or xs (o + 4) 0 * 2 ^ 32
        + get_or xs (o + 3) 0 * 2 ^ 24
        + get_or xs (o + 2) 0 * 2 ^ 16
        + get_or xs (o + 1) 0 * 2 ^ 8
        + get_or xs (o + 0) 0
      < 2 ^ 64
digits_64_lt xs o t = omega (
  arith,
  Octets-get_or xs (o + 0) t,
  Octets-get_or xs (o + 1) t,
  Octets-get_or xs (o + 2) t,
  Octets-get_or xs (o + 3) t,
  Octets-get_or xs (o + 4) t,
  Octets-get_or xs (o + 5) t,
  Octets-get_or xs (o + 6) t,
  Octets-get_or xs (o + 7) t,
)

module _ {b : Buffer} (v : IsValid b) where
  fetch_8 : seen (get_8 b) ≡ fetch 1 (view b)
  unfolding view fetch get_8
  fetch_8 = ground (
    arith,
    digit b.bytes b.offset 0 0,
    origin b.bytes b.offset 1,
    drop-drop 1 b.offset b.bytes,
    length-drop b.offset b.bytes,
    Octets-get_or b.bytes (b.offset + 0) v.octets,
  )

  fetch_16 : seen (get_16 b) ≡ fetch 2 (view b)
  unfolding view fetch get_16
  fetch_16 = ground (
    arith,
    digit b.bytes b.offset 0 1,
    digit b.bytes b.offset 1 0,
    origin b.bytes b.offset 2,
    drop-drop 2 b.offset b.bytes,
    length-drop b.offset b.bytes,
    Octets-get_or b.bytes (b.offset + 0) v.octets,
    Octets-get_or b.bytes (b.offset + 1) v.octets,
  )

  fetch_32 : seen (get_32 b) ≡ fetch 4 (view b)
  unfolding view fetch get_32
  fetch_32 = ground (
    arith,
    digit b.bytes b.offset 0 3,
    digit b.bytes b.offset 1 2,
    digit b.bytes b.offset 2 1,
    digit b.bytes b.offset 3 0,
    origin b.bytes b.offset 4,
    drop-drop 4 b.offset b.bytes,
    length-drop b.offset b.bytes,
    Octets-get_or b.bytes (b.offset + 0) v.octets,
    Octets-get_or b.bytes (b.offset + 1) v.octets,
    Octets-get_or b.bytes (b.offset + 2) v.octets,
    Octets-get_or b.bytes (b.offset + 3) v.octets,
  )

  fetch_64 : seen (get_64 b) ≡ fetch 8 (view b)
  unfolding view fetch get_64
  fetch_64 = ground (
    arith,
    digits_64 b.bytes b.offset,
    digits_64_lt b.bytes b.offset v.octets,
    drop-drop 8 b.offset b.bytes,
    length-drop b.offset b.bytes,
  )

-- The four word reads of a valid buffer, each against the bytes still to come: enough of them give
-- the little-endian number and move on; too few give 0 and leave a failure.
pub get-refines :
    {b : Buffer}
    → IsValid b
    → (seen (get_8 b) ≡ fetch 1 (view b))
      × (seen (get_16 b) ≡ fetch 2 (view b))
      × (seen (get_32 b) ≡ fetch 4 (view b))
      × (seen (get_64 b) ≡ fetch 8 (view b))
get-refines v = (fetch_8 v, fetch_16 v, fetch_32 v, fetch_64 v)

-- The next `n` bytes, or as many as there are.
unfoldable pub fetch_bytes : ℕ → Stream → (ℕ × List ℕ) × Stream
fetch_bytes n none = ((0, []), none)
fetch_bytes n (some xs) = ((min n (length xs), take n xs), some (drop n xs))

-- `read` gives the next `n` bytes, or as many as are left, and passes over them.
pub read-refines :
    {b : Buffer} (n : ℕ)
    → IsValid b
    → let (out, after) = read b n in (out, view after) ≡ fetch_bytes n (view b)
unfolding view fetch_bytes read left
read-refines {b} n v = ground (
  arith,
  drop-drop n b.offset b.bytes,
  length-drop b.offset b.bytes,
  take-length_le (drop b.offset b.bytes) n,
  drop-length_le (drop b.offset b.bytes) n,
  drop-drop (b.size - b.offset) b.offset b.bytes,
)
