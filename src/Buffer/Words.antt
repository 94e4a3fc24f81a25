-- ===== src/Buffer/Words.antt =====
-- Little-endian words in a `zip_buffer_t`: what is put is what is got.
use allvm_tools.Base.{
  ℕ, ◌+◌, ◌/◌, ◌%◌, ◌^◌, ◌≤◌, ◌<◌, ◌≡◌, arith, Bool, true, List, [], ◌∷◌, length, get_or, write_at,
  get_or-write_at, ◌*◌,
}
use allvm_tools.Buffer.{
  Buffer, get_8, get_16, get_32, get_64, put, put_8, put_16, put_32, put_64, set_offset,
}
use allvm_tools.Buffer.Inv.{IsValid}

-- A put of `n` bytes has room.
abbrev pub Room : ℕ → Buffer → Type 0
Room n b = IsValid b × (b.ok ≡ true) × (b.offset + n ≤ b.size)

-- The buffer after `src` was written at the offset.
abbrev pub written : Buffer → List ℕ → Buffer
written b src = record b { bytes = write_at b.bytes b.offset src; offset = b.offset + length src }

put-eq : {b : Buffer} (src : List ℕ) → Room (length src) b → put b src ≡ (true, written b src)
unfolding put
put-eq src r = ground arith

back :
    {b : Buffer} (src : List ℕ)
    → Room (length src) b
    → set_offset (written b src) b.offset
      ≡ (true, record b { bytes = write_at b.bytes b.offset src })
unfolding set_offset
back src r = ground arith

module _ {b : Buffer} (src : List ℕ) (r : Room (length src) b) where
  stored :
      (k : ℕ)
      → k < length src
      → get_or (write_at b.bytes b.offset src) (b.offset + k) 0 ≡ get_or src k 0
  stored k h = get_or-write_at b.bytes b.offset src k 0 (omega arith) h

-- Put, go back, get: the value and the buffer as the put left it.
abbrev pub RoundTrip : Buffer → (Buffer → ℕ → Bool × Buffer) → (Buffer → ℕ × Buffer) → ℕ → Type 0
RoundTrip b put_value get_value i =
    let (s, after) = put_value b i in
    let (t, again) = set_offset after b.offset in
    (s ≡ true) × (t ≡ true) × (get_value again ≡ (i, after))

module _ (b : Buffer) (i : ℕ) where
  get-put_8 : Room 1 b → i < 2 ^ 8 → RoundTrip b put_8 get_8 i
  unfolding put_8 get_8
  get-put_8 r h =
      let src : List ℕ = i ∷ [] in ground (arith, put-eq src r, back src r, stored src r 0)

  get-put_16 : Room 2 b → i < 2 ^ 16 → RoundTrip b put_16 get_16 i
  unfolding put_16 get_16
  get-put_16 r h =
      let src : List ℕ = i % 2 ^ 8 ∷ i / 2 ^ 8 % 2 ^ 8 ∷ [] in
      ground (arith, put-eq src r, back src r, stored src r 0, stored src r 1)

  get-put_32 : Room 4 b → i < 2 ^ 32 → RoundTrip b put_32 get_32 i
  unfolding put_32 get_32
  get-put_32 r h =
      let src : List ℕ =
        i % 2 ^ 8 ∷ i / 2 ^ 8 % 2 ^ 8 ∷ i / 2 ^ 16 % 2 ^ 8 ∷ i / 2 ^ 24 % 2 ^ 8 ∷ [] in
      ground (
        arith,
        put-eq src r,
        back src r,
        stored src r 0,
        stored src r 1,
        stored src r 2,
        stored src r 3,
      )

  get-put_64 : Room 8 b → i < 2 ^ 64 → RoundTrip b put_64 get_64 i
  unfolding put_64 get_64
  get-put_64 r h =
      let src : List ℕ =
        i % 2 ^ 8
        ∷ i / 2 ^ 8 % 2 ^ 8
        ∷ i / 2 ^ 16 % 2 ^ 8
        ∷ i / 2 ^ 24 % 2 ^ 8
        ∷ i / 2 ^ 32 % 2 ^ 8
        ∷ i / 2 ^ 40 % 2 ^ 8
        ∷ i / 2 ^ 48 % 2 ^ 8
        ∷ i / 2 ^ 56 % 2 ^ 8
        ∷ [] in
      ground (
        arith,
        put-eq src r,
        back src r,
        stored src r 0,
        stored src r 1,
        stored src r 2,
        stored src r 3,
        stored src r 4,
        stored src r 5,
        stored src r 6,
        stored src r 7,
      )

pub data Width : Type 0 where
  w8 w16 w32 w64 : Width

abbrev pub octets_of : Width → ℕ
octets_of w8 = 1
octets_of w16 = 2
octets_of w32 = 4
octets_of w64 = 8

abbrev pub put_word : Width → Buffer → ℕ → Bool × Buffer
put_word w8 = put_8
put_word w16 = put_16
put_word w32 = put_32
put_word w64 = put_64

abbrev pub get_word : Width → Buffer → ℕ × Buffer
get_word w8 = get_8
get_word w16 = get_16
get_word w32 = get_32
get_word w64 = get_64

-- For each width: where the word has room, `put` succeeds, going back to the old offset succeeds,
-- and `get` then returns the word and leaves the buffer as `put` left it.
pub get-put :
    (w : Width) (b : Buffer) (i : ℕ)
    → Room (octets_of w) b
    → i < 2 ^ (8 * octets_of w)
    → RoundTrip b (put_word w) (get_word w) i
get-put w8 = get-put_8
get-put w16 = get-put_16
get-put w32 = get-put_32
get-put w64 = get-put_64
