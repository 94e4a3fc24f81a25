-- ===== src/Source/Memory/Reads.antt =====
-- `buffer_read` against the bytes of all fragments.
use allvm_tools.Source.Memory.Places.{
  concat, At, total, length-concat, At-le, Sums-get_elem?, concat-drop, At-drop, total-drop,
  At-shift, Sums,
}
use allvm_tools.Source.Memory.{Buffer, read, read_left, read_fragments, minus}
use allvm_tools.Base.{
  ℕ, inl, Bool-cases, subst, ◌<◌, inr, take, ◌+◌, arith, drop, min, ltb, ◌==◌, some, List, ◌≡◌,
  length, ◌-◌, ◌≤◌, [], ◌^◌, ap, suc, zero, ==_iff, ◌∷◌, length-drop, false, drop-append_le,
  take-eq_of_length, ◌∙◌, sym, ◌++◌, refl, take-append_ge, take-append_le, drop-drop, length-take,
  take-take, drop-take, ◌%◌, get_elem?,
}

-- A well-formed buffer.
pub record IsValid (b : Buffer) : Type 0 where
  pub sums : Sums b.fragments b.fragment_offsets 0
  pub fits : b.size ≤ total b.fragments
  pub cells_there : length b.fragment_offsets ≡ b.fragments_capacity + 1
  pub within_capacity : length b.fragments ≤ b.fragments_capacity
  pub few : length b.fragments < 2 ^ 64
  pub bounded : total b.fragments < 2 ^ 64
  pub inside : b.offset ≤ b.size
  pub here : At b.fragments b.current_fragment b.offset

-- The bytes of a buffer.
abbrev pub contents : Buffer → List ℕ
contents b = take b.size (concat b.fragments)

pub minus_le : (a b : ℕ) → b ≤ a → a < 2 ^ 64 → minus a b ≡ a - b
minus_le a b le lt = omega arith

pub At-start : (fs : List (List ℕ)) → At fs 0 0
At-start [] = refl
At-start (f ∷ fs) = omega arith

-- A round that reads the rest of its fragment, and one that does not.
whole_round :
    (f more : List ℕ) (start n : ℕ)
    → start ≤ length f
    → length f - start ≤ n
    → take (length f - start) (drop start f) ++ take (n - (length f - start)) more
      ≡ take n (drop start (f ++ more))
whole_round f more start n inside enough =
    let tail = drop start f in
    let len = length-drop start f in
    let all = take-eq_of_length (length f - start) tail len in
    let joined = take-append_ge tail more n (omega (arith, len)) in
    ap (λ l. l ++ take (n - (length f - start)) more) all
    ∙ ap (λ k. tail ++ take (n - k) more) (sym len)
    ∙ sym joined
    ∙ ap (take n) (sym (drop-append_le f more start inside))

part_round :
    (f more : List ℕ) (start n : ℕ)
    → start ≤ length f
    → n ≤ length f - start
    → take n (drop start f) ≡ take n (drop start (f ++ more))
part_round f more start n inside enough = sym (
    ap (take n) (drop-append_le f more start inside)
    ∙ take-append_le (drop start f) more n (omega (arith, length-drop start f)))

pub read_fragments_lem :
    (fs : List (List ℕ)) (i start n : ℕ)
    → At fs 0 start
    → start + n ≤ total fs
    → (j : ℕ) × (read_fragments fs i start n ≡ some (take n (drop start (concat fs)), i + j))
      × At fs j (start + n)
unfolding read_fragments
read_fragments_lem fs i start zero h room =
    let e : i ≡ i + 0 = omega arith in
    let e' : start ≡ start + 0 = omega arith in (0, ap (λ k. some ([], k)) e, subst (At fs 0) e' h)
read_fragments_lem [] i start (suc n) h room = absurd (omega arith)
read_fragments_lem (f ∷ fs) i start (suc n) h room =
    let room_here = length f - start in
    let left = min (suc n) room_here in
    let inside : ltb (length f) start ≡ false = ground arith in
    elim (Bool-cases (left == room_here)) [
      | inl whole ↦
          let all : left ≡ room_here = (==_iff left room_here).0 whole in
          let m = suc n - left in
          let (j, rest, at) = read_fragments_lem fs (suc i) 0 m (At-start fs) (omega arith) in
          let joined : take left (drop start f) ++ take m (concat fs)
              ≡ take (suc n) (drop start (f ++ concat fs)) =
            rw all (whole_round f (concat fs) start (suc n) h (omega arith)) in
          let e : suc i + j ≡ i + suc j = omega arith in
          let e' : 0 + m ≡ start + suc n - length f = omega arith in
          (
            suc j,
            rw (inside, whole, rest)
                (ap (λ l. some (l, suc i + j)) joined
                  ∙ ap (λ k. some (take (suc n) (drop start (f ++ concat fs)), k)) e),
            (omega arith, subst (At fs j) e' at),
          )
      | inr part ↦
          let partly : left ≡ suc n = ground (arith, ==_iff left room_here) in
          let e : i ≡ i + 0 = omega arith in
          (
            0,
            rw (inside, part, partly)
                (ap (λ l. some (l, i)) (part_round f (concat fs) start (suc n) h (omega arith))
                  ∙ ap (λ k. some (take (suc n) (drop start (f ++ concat fs)), k)) e),
            omega arith,
          )
    ]

-- The bytes from the offset on, as the loop finds them.
from_here :
    (b : Buffer) (len : ℕ)
    → IsValid b
    → let at = total (take b.current_fragment b.fragments) in
      take
        (min len (b.size - b.offset))
        (drop (b.offset - at) (concat (drop b.current_fragment b.fragments)))
      ≡ take len (drop b.offset (contents b))
from_here b len v =
    let i = b.current_fragment in
    let at = total (take i b.fragments) in
    let all = concat b.fragments in
    let le = (At-le b.fragments i b.offset v.here).1 in
    let e : at + (b.offset - at) ≡ b.offset = omega arith in
    ap (take (min len (b.size - b.offset))) (
      ap (drop (b.offset - at)) (concat-drop b.fragments i)
      ∙ drop-drop (b.offset - at) at all
      ∙ ap (λ k. drop k all) e)
    ∙ sym (take-take len (b.size - b.offset) (drop b.offset all))
    ∙ ap (take len) (sym (drop-take b.offset b.size all))

pub length-contents : (b : Buffer) → IsValid b → length (contents b) ≡ b.size
length-contents b v =
    let fits = v.fits in
    omega (arith, length-take b.size (concat b.fragments), length-concat b.fragments)

length-next :
    (b : Buffer) (len : ℕ)
    → IsValid b
    → length (take len (drop b.offset (contents b))) ≡ min len (b.size - b.offset)
length-next b len v =
    length-take len (drop b.offset (contents b))
    ∙ ap (min len)
        (length-drop b.offset (contents b) ∙ ap (λ k. k - b.offset) (length-contents b v))

-- The run of a read that meets no failure.
read_left-some :
    (b : Buffer) (n at start j : ℕ) (bytes : List ℕ)
    → (n == 0) ≡ false
    → ltb (2 ^ 63 - 1) n ≡ false
    → get_elem? b.fragment_offsets b.current_fragment ≡ some at
    → minus b.offset at ≡ start
    → read_fragments (drop b.current_fragment b.fragments) b.current_fragment start n
      ≡ some (bytes, j)
    → read_left b n
      ≡ some (some (n, bytes), record b { offset = (b.offset + n) % 2 ^ 64; current_fragment = j })
unfolding read_left
read_left-some b n at start j bytes some_bytes in_range cell place got =
    rw (some_bytes, in_range, cell, place, got) refl

read_left_lem :
    (b : Buffer) (n : ℕ)
    → n ≤ b.size - b.offset
    → n < 2 ^ 63
    → IsValid b
    → let at = total (take b.current_fragment b.fragments) in
      let bytes = take n (drop (b.offset - at) (concat (drop b.current_fragment b.fragments))) in
      (t : Buffer) × (read_left b n ≡ some (some (n, bytes), t))
      × (t.offset ≡ b.offset + n)
      × (contents t ≡ contents b)
      × IsValid t
unfolding read_left
read_left_lem b zero le small v = (b, refl, omega arith, refl, v)
read_left_lem b (suc m) le small v =
    let n = suc m in
    let i = b.current_fragment in
    let at = total (take i b.fragments) in
    let fits = v.fits in
    let bounded = v.bounded in
    let (i_le, before) = At-le b.fragments i b.offset v.here in
    let some_bytes : (n == 0) ≡ false = ground arith in
    let in_range : ltb (2 ^ 63 - 1) n ≡ false = ground arith in
    let no_base : 0 + at ≡ at = omega arith in
    let cell = Sums-get_elem? b.fragments b.fragment_offsets 0 i v.sums i_le ∙ ap some no_base in
    let start : minus b.offset at ≡ b.offset - at = minus_le b.offset at before (omega arith) in
    let (j, got, at') =
      read_fragments_lem (drop i b.fragments) i (b.offset - at) n
        (At-drop b.fragments i b.offset v.here) (omega (arith, total-drop b.fragments i)) in
    let fit : (b.offset + n) % 2 ^ 64 ≡ b.offset + n = omega arith in
    let sum : at + (b.offset - at + n) ≡ b.offset + n = omega arith in
    let t = record b { offset = (b.offset + n) % 2 ^ 64; current_fragment = i + j } in
    (
      t,
      read_left-some b n at (b.offset - at) (i + j)
          (take n (drop (b.offset - at) (concat (drop i b.fragments)))) some_bytes in_range cell
          start got,
      fit,
      refl,
      record {
        sums = v.sums;
        fits = fits;
        cells_there = v.cells_there;
        within_capacity = v.within_capacity;
        few = v.few;
        bounded = bounded;
        inside = omega (arith, fit);
        here =
            subst (At b.fragments (i + j)) (sum ∙ sym fit)
              (At-shift b.fragments i j (b.offset - at + n) i_le at');
      },
    )

-- A read of `len` bytes from a well-formed buffer gives the next `len` bytes of its contents from the
-- offset on, or all that are left if there are less, reads no byte outside of the fragments, moves the
-- offset behind them, and leaves the buffer well-formed with the same contents; `len` is below 2^63.
pub read-contents :
    (b : Buffer) (len : ℕ)
    → len < 2 ^ 63
    → IsValid b
    → let bytes = take len (drop b.offset (contents b)) in
      (t : Buffer) × (read b len ≡ some (some (length bytes, bytes), t))
      × (t.offset ≡ b.offset + length bytes)
      × (contents t ≡ contents b)
      × IsValid t
unfolding read
read-contents b len small v =
    let fits = v.fits in
    let bounded = v.bounded in
    let n = min len (b.size - b.offset) in
    let rest : minus b.size b.offset ≡ b.size - b.offset =
      minus_le b.size b.offset v.inside (omega arith) in
    let (t, got, moved, same, valid) = read_left_lem b n (omega arith) (omega arith) v in
    let count = length-next b len v in
    (
      t,
      ap (λ r. read_left b (min len r)) rest
          ∙ got
          ∙ ap (λ l. some (some (n, l), t)) (from_here b len v)
          ∙ ap (λ k. some (some (k, take len (drop b.offset (contents b))), t)) (sym count),
      omega (arith, moved, count),
      same,
      valid,
    )
