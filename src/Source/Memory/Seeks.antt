-- ===== src/Source/Memory/Seeks.antt =====
-- `buffer_seek` against signed arithmetic on places.
use allvm_tools.Source.Memory.Find.{find_fragment-finds}
use allvm_tools.Source.Memory.{moved, Buffer, seek_buffer, compute_offset, find_fragment}
use allvm_tools.Source.Memory.Reads.{IsValid, contents}
use allvm_tools.Source.{from_start, from_current, from_end, elsewhere, Seek, Whence, Reply}
use allvm_tools.Base.{
  ℕ, ◌≡◌, ◌≤◌, ◌^◌, ◌<◌, Bool-cases, ◌%◌, if◌then◌else◌, false, ◌-◌, inl, arith, inr, none, some,
  ◌||◌, ◌+◌, true, Option, refl, ltb, [], length, ◌∙◌,
}

-- The place at a signed distance of another, if it lies within `len` bytes.
abbrev pub within : ℕ → Seek → ℕ → Option ℕ
within len args b =
    if args.negative
    then (if ltb b args.distance then none else some (b - args.distance))
    else (if ltb len (b + args.distance) then none else some (b + args.distance))

-- The place that a seek asks for, if there is one.
abbrev pub target : Whence → ℕ → ℕ → Seek → Option ℕ
target from_start offset len args = within len args 0
target from_current offset len args = within len args offset
target from_end offset len args = within len args len
target elsewhere offset len args = none

moved-eq :
    (len : ℕ) (args : Seek) (b : ℕ)
    → len < 2 ^ 63
    → args.distance < 2 ^ 63
    → b ≤ len
    → (let place = moved args b in
        if ltb (2 ^ 63 - 1) place || ltb len place then none else some place)
      ≡ within len args b
moved-eq len args b small near le = elim (Bool-cases args.negative) [
  | inl back ↦ elim (Bool-cases (ltb b args.distance)) [
    | inl out ↦
        let big : ltb (2 ^ 63 - 1) ((b + (2 ^ 64 - args.distance)) % 2 ^ 64) ≡ true =
          ground arith in
        rw (back, out, big) refl
    | inr in_range ↦
        let e : (b + (2 ^ 64 - args.distance)) % 2 ^ 64 ≡ b - args.distance = ground arith in
        let fits : (ltb (2 ^ 63 - 1) (b - args.distance) || ltb len (b - args.distance)) ≡ false =
          ground arith in
        rw (back, in_range, e, fits) refl
  ]
  | inr forth ↦
      let e : (b + args.distance) % 2 ^ 64 ≡ b + args.distance = omega arith in
      elim (Bool-cases (ltb len (b + args.distance))) [
        | inl out ↦
            let big : (ltb (2 ^ 63 - 1) (b + args.distance) || ltb len (b + args.distance)) ≡ true =
              ground arith in
            rw (forth, e, big, out) refl
        | inr in_range ↦
            let fits : (ltb (2 ^ 63 - 1) (b + args.distance) || ltb len (b + args.distance))
                ≡ false =
              ground arith in
            rw (forth, e, fits, in_range) refl
      ]
]

within-le :
    (len : ℕ) (args : Seek) (b place : ℕ) → b ≤ len → within len args b ≡ some place → place ≤ len
within-le len args b place le e = ground arith

compute_offset-eq :
    (offset len : ℕ) (args : Seek)
    → len < 2 ^ 63
    → args.distance < 2 ^ 63
    → offset ≤ len
    → compute_offset offset len args ≡ target args.whence offset len args
unfolding compute_offset
compute_offset-eq offset len args small near le = go args.whence refl
  where
    go :
        (w : Whence)
        → args.whence ≡ w
        → compute_offset offset len args ≡ target args.whence offset len args
    go from_start e = rw e (moved-eq len args 0 small near (omega arith))
    go from_current e = rw e (moved-eq len args offset small near le)
    go from_end e = rw e (moved-eq len args len small near (omega arith))
    go elsewhere e = rw e refl

target-le :
    (w : Whence) (offset len : ℕ) (args : Seek) (place : ℕ)
    → offset ≤ len
    → target w offset len args ≡ some place
    → place ≤ len
target-le from_start offset len args place le e = within-le len args 0 place (omega arith) e
target-le from_current offset len args place le e = within-le len args offset place le e
target-le from_end offset len args place le e = within-le len args len place (omega arith) e
target-le elsewhere offset len args place le e = cc

-- What a seek leaves, if it is to move to a place, or cannot.
abbrev pub Sought : Buffer → Option (Reply × Buffer) → Option ℕ → Type 0
Sought b r none = r ≡ some (none, b)
Sought b r (some place) =
    (t : Buffer) × (r ≡ some (some (0, []), t))
    × (t.offset ≡ place)
    × (contents t ≡ contents b)
    × IsValid t

seek_buffer-none :
    (b : Buffer) (args : Seek)
    → compute_offset b.offset b.size args ≡ none
    → seek_buffer b args ≡ some (none, b)
unfolding seek_buffer
seek_buffer-none b args e = rw (seek_buffer, e) refl

seek_buffer-some :
    (b : Buffer) (args : Seek) (place i : ℕ)
    → compute_offset b.offset b.size args ≡ some place
    → find_fragment b place ≡ some i
    → seek_buffer b args ≡ some (some (0, []), record b { offset = place; current_fragment = i })
unfolding seek_buffer
seek_buffer-some b args place i e e' = rw (seek_buffer, e, e') refl

-- A seek in a well-formed buffer with a fragment at least moves to the place that it asks for, counted
-- from the start, the offset or the end, if that lies within the buffer, and else fails and changes
-- nothing; it leaves the buffer well-formed, with the same contents. Sizes and distances are below
-- 2^63.
pub seek_buffer-refines :
    (b : Buffer) (args : Seek)
    → IsValid b
    → 0 < length b.fragments
    → b.size < 2 ^ 63
    → args.distance < 2 ^ 63
    → Sought b (seek_buffer b args) (target args.whence b.offset b.size args)
seek_buffer-refines b args v some_fragments small near =
    go (target args.whence b.offset b.size args) refl
  where
    eq : compute_offset b.offset b.size args ≡ target args.whence b.offset b.size args
    eq = compute_offset-eq b.offset b.size args small near v.inside

    go :
        (o : Option ℕ)
        → target args.whence b.offset b.size args ≡ o
        → Sought b (seek_buffer b args) o
    go none e = seek_buffer-none b args (eq ∙ e)
    go (some place) e =
        let fits = target-le args.whence b.offset b.size args place v.inside e in
        let (i, found, lt, at) = find_fragment-finds b place v some_fragments fits in
        (
          record b { offset = place; current_fragment = i },
          seek_buffer-some b args place i (eq ∙ e) found,
          refl,
          refl,
          record {
            sums = v.sums;
            fits = v.fits;
            cells_there = v.cells_there;
            within_capacity = v.within_capacity;
            few = v.few;
            bounded = v.bounded;
            inside = fits;
            here = at;
          },
        )
