-- ===== src/Buffer/Inv.antt =====
-- The representation invariant of `zip_buffer_t`, and the calls that a client can make.
use allvm_tools.Base.{
  ℕ, ◌≤◌, ◌<◌, ◌≡◌, arith, List, length, length-write_at, Octets, Octets-write_at, [], ◌^◌, ◌%◌,
  ◌∷◌, ◌/◌, false, leb, true, if◌then◌else◌, ◌+◌,
}
use allvm_tools.Buffer.{
  Buffer, u64, peek, get, get_8, get_16, get_32, get_64, read, put, put_8, put_16, put_32, put_64,
  set_offset, skip, left,
}

pub record IsValid (b : Buffer) : Type 0 where
  pub stored : length b.bytes ≡ b.size
  pub fits : b.size < u64
  pub inside : b.offset ≤ b.size
  pub octets : Octets b.bytes

pub data Call : Type 0 where
  call_peek call_get call_read call_set_offset call_skip : ℕ → Call
  call_get_8 call_get_16 call_get_32 call_get_64 : Call
  call_put : List ℕ → Call
  call_put_8 call_put_16 call_put_32 call_put_64 : ℕ → Call

-- The state after one call.
unfoldable pub step : Call → Buffer → Buffer
step (call_peek n) b = (peek b n).1
step (call_get n) b = (get b n).1
step (call_read n) b = (read b n).1
step (call_set_offset o) b = (set_offset b o).1
step (call_skip n) b = (skip b n).1
step call_get_8 b = (get_8 b).1
step call_get_16 b = (get_16 b).1
step call_get_32 b = (get_32 b).1
step call_get_64 b = (get_64 b).1
step (call_put src) b = (put b src).1
step (call_put_8 i) b = (put_8 b i).1
step (call_put_16 i) b = (put_16 b i).1
step (call_put_32 i) b = (put_32 b i).1
step (call_put_64 i) b = (put_64 b i).1

-- The arguments have their C types: sizes fit `zip_uint64_t`, and what is stored are octets.
abbrev pub Fits : Call → Type 0
Fits (call_peek n) = n < u64
Fits (call_get n) = n < u64
Fits (call_put src) = (length src < u64) × Octets src
Fits (call_put_8 i) = i < 256
Fits _ = Unit {0}

module _ {b : Buffer} (v : IsValid b) where
  pub put-IsValid : (src : List ℕ) → length src < u64 → Octets src → IsValid (put b src).1
  unfolding put
  put-IsValid src h o =
      ground (
        arith,
        length-write_at b.bytes b.offset src,
        Octets-write_at b.bytes b.offset src o v.octets,
      )

  pub get-IsValid : (n : ℕ) → n < u64 → IsValid (get b n).1
  unfolding get
  get-IsValid n h = ground arith

pub step-IsValid : (c : Call) {b : Buffer} → Fits c → IsValid b → IsValid (step c b)
unfolding step get_8 get_16 get_32 get_64 read put_8 put_16 put_32 put_64 set_offset skip left
step-IsValid (call_peek n) f v = ground arith
step-IsValid (call_get n) f v = get-IsValid v n f
step-IsValid (call_read n) f v = ground arith
step-IsValid (call_set_offset o) f v = ground arith
step-IsValid (call_skip n) f v = ground arith
step-IsValid call_get_8 f v = ground arith
step-IsValid call_get_16 f v = ground arith
step-IsValid call_get_32 f v = ground arith
step-IsValid call_get_64 f v = ground arith
step-IsValid (call_put src) f v = put-IsValid v src f.0 f.1
step-IsValid (call_put_8 i) f v = ground (arith, put-IsValid v (i ∷ []))
step-IsValid (call_put_16 i) f v =
    put-IsValid v (i % 2 ^ 8 ∷ i / 2 ^ 8 % 2 ^ 8 ∷ []) (omega arith) (omega arith)
step-IsValid (call_put_32 i) f v =
    put-IsValid v (i % 2 ^ 8 ∷ i / 2 ^ 8 % 2 ^ 8 ∷ i / 2 ^ 16 % 2 ^ 8 ∷ i / 2 ^ 24 % 2 ^ 8 ∷ [])
      (omega arith) (omega arith)
step-IsValid (call_put_64 i) f v =
    put-IsValid v
      (i % 2 ^ 8
        ∷ i / 2 ^ 8 % 2 ^ 8
        ∷ i / 2 ^ 16 % 2 ^ 8
        ∷ i / 2 ^ 24 % 2 ^ 8
        ∷ i / 2 ^ 32 % 2 ^ 8
        ∷ i / 2 ^ 40 % 2 ^ 8
        ∷ i / 2 ^ 48 % 2 ^ 8
        ∷ i / 2 ^ 56 % 2 ^ 8
        ∷ [])
      (omega arith) (omega arith)

-- The calls that store bytes.
abbrev pub Stores : Call → Type 0
Stores (call_put src) = Unit {0}
Stores (call_put_8 i) = Unit {0}
Stores (call_put_16 i) = Unit {0}
Stores (call_put_32 i) = Unit {0}
Stores (call_put_64 i) = Unit {0}
Stores _ = ⊥

-- The buffers before and after a call.
abbrev pub SameRoom : Call → Buffer → Buffer → Type 0
SameRoom c b b' =
    (b'.size ≡ b.size) × (length b'.bytes ≡ length b.bytes) × (¬ Stores c → b'.bytes ≡ b.bytes)

put-SameRoom :
    (b : Buffer) (src : List ℕ)
    → ((put b src).1.size ≡ b.size) × (length (put b src).1.bytes ≡ length b.bytes)
unfolding put
put-SameRoom b src = ground (arith, length-write_at b.bytes b.offset src)

step-SameRoom : (c : Call) (b : Buffer) → SameRoom c b (step c b)
unfolding step get_8 get_16 get_32 get_64 get peek read put_8 put_16 put_32 put_64 set_offset skip
    left
step-SameRoom (call_peek n) b = ground arith
step-SameRoom (call_get n) b = ground arith
step-SameRoom (call_read n) b = ground arith
step-SameRoom (call_set_offset o) b = ground arith
step-SameRoom (call_skip n) b = ground arith
step-SameRoom call_get_8 b = ground arith
step-SameRoom call_get_16 b = ground arith
step-SameRoom call_get_32 b = ground arith
step-SameRoom call_get_64 b = ground arith
step-SameRoom (call_put src) b =
    let (size, len) = put-SameRoom b src in (size, len, λ no. absurd (no tt))
step-SameRoom (call_put_8 i) b =
    let (size, len) = put-SameRoom b (i ∷ []) in (size, len, λ no. absurd (no tt))
step-SameRoom (call_put_16 i) b =
    let (size, len) = put-SameRoom b (i % 2 ^ 8 ∷ i / 2 ^ 8 % 2 ^ 8 ∷ []) in
    (size, len, λ no. absurd (no tt))
step-SameRoom (call_put_32 i) b =
    let (size, len) =
      put-SameRoom b
        (i % 2 ^ 8 ∷ i / 2 ^ 8 % 2 ^ 8 ∷ i / 2 ^ 16 % 2 ^ 8 ∷ i / 2 ^ 24 % 2 ^ 8 ∷ []) in
    (size, len, λ no. absurd (no tt))
step-SameRoom (call_put_64 i) b =
    let (size, len) = put-SameRoom b (
      i % 2 ^ 8
      ∷ i / 2 ^ 8 % 2 ^ 8
      ∷ i / 2 ^ 16 % 2 ^ 8
      ∷ i / 2 ^ 24 % 2 ^ 8
      ∷ i / 2 ^ 32 % 2 ^ 8
      ∷ i / 2 ^ 40 % 2 ^ 8
      ∷ i / 2 ^ 48 % 2 ^ 8
      ∷ i / 2 ^ 56 % 2 ^ 8
      ∷ []) in
    (size, len, λ no. absurd (no tt))

-- Every call of the buffer, whatever its outcome, keeps it valid, with the offset within the size, for
-- every length that a `zip_uint64_t` can hold; the size and the number of stored bytes stay as they
-- were, and a call that stores nothing leaves the bytes.
pub step-Kept :
    (c : Call) {b : Buffer} → Fits c → IsValid b → IsValid (step c b) × SameRoom c b (step c b)
step-Kept c {b} f v = (step-IsValid c f v, step-SameRoom c b)

-- The calls that can end a failure.
abbrev pub Seeks : Call → Type 0
Seeks (call_set_offset o) = Unit {0}
Seeks (call_skip n) = Unit {0}
Seeks _ = ⊥

-- After a failure no call but `set_offset` and `skip` changes the buffer: it stays failed, at its
-- offset, with its bytes.
pub step-failed : (c : Call) (b : Buffer) → b.ok ≡ false → ¬ Seeks c → step c b ≡ b
unfolding step get_8 get_16 get_32 get_64 read put_8 put_16 put_32 put_64 left get put peek
step-failed (call_set_offset o) b e plain = absurd (plain tt)
step-failed (call_skip n) b e plain = absurd (plain tt)
step-failed (call_peek n) b e plain = ground arith
step-failed _ b e plain = ground arith

-- `skip` moves to the sum of the offset and `n` exactly when that lies within the size, also where
-- the addition of 64-bit numbers wraps; else it fails and moves nowhere.
pub skip-exact :
    {b : Buffer} (n : ℕ)
    → IsValid b
    → n < u64
    → skip b n ≡ (
        if leb (b.offset + n) b.size
        then (true, record b { ok = true; offset = b.offset + n })
        else (false, record b { ok = false }))
unfolding skip set_offset
skip-exact n v h = ground arith
