-- ===== src/Source/Memory/Writes.antt =====
-- `buffer_write` against the bytes of all fragments.
use allvm_tools.Source.Memory.{Buffer, minus}
use allvm_tools.Source.Memory.Overwrites.{
  overwrite-append_ge, length-overwrite, overwrite-append_le, overwrite-drop, take-overwrite,
}
use allvm_tools.Source.Memory.Lengths.{
  SameLengths, SameLengths-refl, concat-append, concat-take, SameLengths-drop, total-eq, length-eq,
  Sums-SameLengths, At-SameLengths,
}
use allvm_tools.Source.Memory.Growth.{write_fragments, overwrite, write_here}
use allvm_tools.Source.Memory.Places.{
  concat, At, total, At-le, Sums-get_elem?, At-drop, concat-drop, total-drop, length-concat,
  At-shift,
}
use allvm_tools.Source.Memory.Reads.{At-start, IsValid, contents, minus_le}
use allvm_tools.Base.{
  ℕ, List, min, ◌≤◌, false, inl, true, Bool-cases, ◌∷◌, Option, ltb, take, ◌≡◌, arith, suc, ◌+◌,
  ◌-◌, ◌==◌, [], inr, drop, length, refl, some, take-append-drop, subst, ==_iff, length-drop, sym,
  take-eq_of_length, ap, length-take, ◌∙◌, ◌++◌, append-nil, if◌then◌else◌, get_elem?, ◌%◌, ◌^◌,
}

-- What the loop does to the fragments.
abbrev Written : List (List ℕ) → ℕ → ℕ → List ℕ → Option (List (List ℕ) × ℕ) → Type 0
Written fs i start vs o =
    (fs' : List (List ℕ)) × (j : ℕ) × (o ≡ some (fs', i + j))
    × (concat fs' ≡ overwrite (concat fs) start vs)
    × SameLengths fs fs'
    × At fs j (start + length vs)

module _ (f : List ℕ) (fs : List (List ℕ)) (i start v : ℕ) (vs : List ℕ) where
  -- The branches of a round.
  abbrev left : ℕ
  left = min (length (v ∷ vs)) (length f - start)

  write_fragments-whole :
      (more : List (List ℕ)) (j : ℕ)
      → ltb (length f) start ≡ false
      → (left == length f - start) ≡ true
      → write_fragments fs (suc i) 0 (drop left (v ∷ vs)) ≡ some (more, j)
      → write_fragments (f ∷ fs) i start (v ∷ vs)
        ≡ some (overwrite f start (take left (v ∷ vs)) ∷ more, j)
  unfolding write_fragments
  write_fragments-whole more j inside whole rest = rw (inside, whole, rest) refl

  write_fragments-part :
      ltb (length f) start ≡ false
      → (left == length f - start) ≡ false
      → write_fragments (f ∷ fs) i start (v ∷ vs)
        ≡ some (overwrite f start (take left (v ∷ vs)) ∷ fs, i)
  unfolding write_fragments
  write_fragments-part inside part = rw (inside, part) refl

write_fragments-Written :
    (fs : List (List ℕ)) (i start : ℕ) (vs : List ℕ)
    → At fs 0 start
    → start + length vs ≤ total fs
    → Written fs i start vs (write_fragments fs i start vs)
unfolding write_fragments
write_fragments-Written fs i start [] h room =
    let all = concat fs in
    let e : i ≡ i + 0 = omega arith in
    let e' : start ≡ start + 0 = omega arith in
    (
      fs,
      0,
      ap (λ k. some (fs, k)) e,
      sym (
          ap (λ l. l ++ drop (start + 0) all) (append-nil (take start all))
          ∙ ap (λ k. take start all ++ drop k all) (sym e')
          ∙ take-append-drop start all),
      SameLengths-refl fs,
      subst (At fs 0) e' h,
    )
write_fragments-Written [] i start (v ∷ vs) h room = absurd (omega arith)
write_fragments-Written (f ∷ fs) i start (v ∷ vs) h room =
    let inside : ltb (length f) start ≡ false = ground arith in
    let ls = v ∷ vs in
    let l = left f fs i start v vs in
    let room_here = length f - start in
    let count = length-take l ls in
    elim (Bool-cases (l == room_here)) [
      | inl whole ↦
          let all : l ≡ room_here = (==_iff l room_here).0 whole in
          let rest = length-drop l ls in
          let (more, j, got, bytes, same, at) =
            write_fragments-Written fs (suc i) 0 (drop l ls) (At-start fs) (omega (arith, rest)) in
          let f' = overwrite f start (take l ls) in
          let e : suc i + j ≡ i + suc j = omega arith in
          let e' : 0 + length (drop l ls) ≡ start + length ls - length f = omega (arith, rest) in
          (
            f' ∷ more,
            suc j,
            write_fragments-whole f fs i start v vs more (suc i + j) inside whole got
                ∙ ap (λ k. some (f' ∷ more, k)) e,
            ap (λ g. f' ++ g) bytes
                ∙ ap (λ m. overwrite f start (take m ls) ++ overwrite (concat fs) 0 (drop m ls)) all
                ∙ overwrite-append_ge f (concat fs) ls start h (omega arith),
            (sym (length-overwrite f (take l ls) start (omega (arith, count))), same),
            (omega arith, subst (At fs j) e' at),
          )
      | inr part ↦
          let partly : l ≡ length ls = ground (arith, ==_iff l room_here) in
          let e : i ≡ i + 0 = omega arith in
          (
            overwrite f start (take l ls) ∷ fs,
            0,
            write_fragments-part f fs i start v vs inside part
                ∙ ap (λ k. some (overwrite f start (take l ls) ∷ fs, k)) e,
            ap (λ m. overwrite f start m ++ concat fs) (take-eq_of_length l ls (sym partly))
                ∙ overwrite-append_le f (concat fs) ls start (omega arith),
            (
              sym (length-overwrite f (take l ls) start (omega (arith, count))),
              SameLengths-refl fs,
            ),
            omega arith,
          )
    ]

write_here-some :
    (b : Buffer) (bytes : List ℕ) (at start j after : ℕ) (more : List (List ℕ))
    → get_elem? b.fragment_offsets b.current_fragment ≡ some at
    → minus b.offset at ≡ start
    → (b.offset + length bytes) % 2 ^ 64 ≡ after
    → write_fragments (drop b.current_fragment b.fragments) b.current_fragment start bytes
      ≡ some (more, j)
    → write_here b bytes
      ≡ some (
        some (length bytes, []),
        record b {
          fragments = take b.current_fragment b.fragments ++ more;
          offset = after;
          current_fragment = j;
          size = if ltb b.size after then after else b.size;
        },
      )
unfolding write_here
write_here-some b bytes at start j after more cell place fit got =
    rw (write_here, cell, place, got, fit) refl

-- The bytes of all fragments after a write to those from the current one on.
written_bytes :
    (b : Buffer) (bytes : List ℕ) (more : List (List ℕ))
    → IsValid b
    → let i = b.current_fragment in
      let at = total (take i b.fragments) in
      concat more ≡ overwrite (concat (drop i b.fragments)) (b.offset - at) bytes
      → concat (take i b.fragments ++ more) ≡ overwrite (concat b.fragments) b.offset bytes
written_bytes b bytes more v e =
    let i = b.current_fragment in
    let at = total (take i b.fragments) in
    let all = concat b.fragments in
    let before = (At-le b.fragments i b.offset v.here).1 in
    let sum : at + (b.offset - at) ≡ b.offset = omega arith in
    concat-append (take i b.fragments) more
    ∙ ap (λ l. l ++ concat more) (concat-take b.fragments i)
    ∙ ap (λ l. take at all ++ l)
        (e ∙ ap (λ l. overwrite l (b.offset - at) bytes) (concat-drop b.fragments i))
    ∙ overwrite-drop all bytes at (b.offset - at)
    ∙ ap (λ k. overwrite all k bytes) sum

-- What a write is to leave.
abbrev pub WroteTo : Buffer → List ℕ → Buffer → Type 0
WroteTo b bytes t =
    (contents t ≡ overwrite (contents b) b.offset bytes)
    × (t.offset ≡ b.offset + length bytes)
    × IsValid t

pub write_here-WroteTo :
    (b : Buffer) (bytes : List ℕ)
    → IsValid b
    → b.offset + length bytes ≤ total b.fragments
    → (t : Buffer) × (write_here b bytes ≡ some (some (length bytes, []), t)) × WroteTo b bytes t
write_here-WroteTo b bytes v room =
    let i = b.current_fragment in
    let at = total (take i b.fragments) in
    let k = b.offset + length bytes in
    let fits = v.fits in
    let bounded = v.bounded in
    let inside = v.inside in
    let (i_le, before) = At-le b.fragments i b.offset v.here in
    let no_base : 0 + at ≡ at = omega arith in
    let cell = Sums-get_elem? b.fragments b.fragment_offsets 0 i v.sums i_le ∙ ap some no_base in
    let place : minus b.offset at ≡ b.offset - at = minus_le b.offset at before (omega arith) in
    let fit : k % 2 ^ 64 ≡ k = omega arith in
    let (more, j, got, joined, same, at') =
      write_fragments-Written (drop i b.fragments) i (b.offset - at) bytes
        (At-drop b.fragments i b.offset v.here) (omega (arith, total-drop b.fragments i)) in
    let lengths = SameLengths-drop b.fragments more i same in
    let size' = if ltb b.size k then k else b.size in
    let fragments' = take i b.fragments ++ more in
    let total' = total-eq b.fragments fragments' lengths in
    let count = length-eq b.fragments fragments' lengths in
    let sum : at + (b.offset - at + length bytes) ≡ k = omega arith in
    let t = record b {
      fragments = fragments';
      offset = k;
      current_fragment = i + j;
      size = size';
    } in
    (
      t,
      write_here-some b bytes at (b.offset - at) (i + j) k more cell place fit got,
      (
        ap (take size') (written_bytes b bytes more v joined)
            ∙ take-overwrite (concat b.fragments) bytes b.offset b.size size' inside
                (omega (arith, length-concat b.fragments)) (ground arith) (ground arith),
        refl,
        record {
          sums = Sums-SameLengths b.fragments fragments' b.fragment_offsets 0 lengths v.sums;
          fits = ground (arith, total');
          cells_there = v.cells_there;
          within_capacity = omega (arith, count, v.within_capacity);
          few = omega (arith, count, v.few);
          bounded = omega (arith, total');
          inside = ground arith;
          here = At-SameLengths b.fragments fragments' (i + j) k lengths (
              subst (At b.fragments (i + j)) sum
                (At-shift b.fragments i j (b.offset - at + length bytes) i_le at'));
        },
      ),
    )
