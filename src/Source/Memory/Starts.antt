-- ===== src/Source/Memory/Starts.antt =====
-- `buffer_new`, and the opening of what it makes.
use allvm_tools.Source.Memory.Room.{length-cells}
use allvm_tools.Source.Memory.{fill, new_buffer, open_buffer, cells, Buffer}
use allvm_tools.Source.Memory.Reads.{IsValid, contents, At-start}
use allvm_tools.Source.Memory.Places.{total, Sums, concat, length-concat}
use allvm_tools.Base.{
  ℕ, ◌==◌, set, Option, List, ◌<◌, ◌∷◌, length, ◌^◌, ◌≡◌, some, false, take-length, [], All, ◌+◌,
  refl, ◌++◌, ◌%◌, length-append, suc, ap, arith, subst, ◌∙◌, true, sym, length-set,
  take-eq_of_length, append_assoc,
}

-- Fragments of the given bytes, as the caller describes them.
abbrev pub described : List (List ℕ) → List (Option (List ℕ) × ℕ)
described [] = []
described (d ∷ ds) = (some d, length d) ∷ described ds

length-described : (ds : List (List ℕ)) → length (described ds) ≡ length ds
length-described [] = refl
length-described (d ∷ ds) = ap suc (length-described ds)

set-append :
    (xs : List ℕ) (y : ℕ) (ys : List ℕ) (v : ℕ)
    → set (xs ++ y ∷ ys) (length xs) v ≡ (xs ++ v ∷ []) ++ ys
set-append [] y ys v = refl
set-append (x ∷ xs) y ys v = ap (λ l. x ∷ l) (set-append xs y ys v)

-- A step of the loop that keeps its fragment.
fill-kept :
    (d : List ℕ) (given : List (Option (List ℕ) × ℕ)) (i offset last : ℕ) (cells cells' : List ℕ)
    (frags : List (List ℕ))
    → (length d == 0) ≡ false
    → fill given (suc i) ((offset + length d) % 2 ^ 64) (set cells i offset)
      ≡ some (frags, cells', last)
    → fill ((some d, length d) ∷ given) i offset cells ≡ some (d ∷ frags, cells', last)
unfolding fill
fill-kept d given i offset last cells cells' frags kept rest =
    rw (kept, rest) (ap (λ l. some (l ∷ frags, cells', last)) (take-length d))

-- The offsets that the loop stores after those of earlier fragments.
fill-described :
    (ds : List (List ℕ)) (pre rest : List ℕ) (offset : ℕ)
    → All (λ d. 0 < length d) ds
    → offset + total ds < 2 ^ 64
    → length ds < length rest
    → (rest' : List ℕ) × (fill (described ds) (length pre) offset (pre ++ rest)
        ≡ some (ds, pre ++ rest', offset + total ds))
      × (length rest' ≡ length rest)
      × Sums ds (set rest' (length ds) (offset + total ds)) offset
unfolding fill
fill-described [] pre [] offset kept small room = absurd (omega arith)
fill-described [] pre (r ∷ rest) offset kept small room =
    let e : offset ≡ offset + 0 = omega arith in
    (r ∷ rest, ap (λ k. some ([], pre ++ r ∷ rest, k)) e, refl, omega arith)
fill-described (d ∷ ds) pre [] offset kept small room = absurd (omega arith)
fill-described (d ∷ ds) pre (r ∷ rest) offset (some_bytes, kept) small room =
    let next = (offset + length d) % 2 ^ 64 in
    let fit : next ≡ offset + length d = omega arith in
    let (rest', run, count, sums) =
      fill-described ds (pre ++ offset ∷ []) rest next kept (omega (arith, fit)) (omega arith) in
    let e : length (pre ++ offset ∷ []) ≡ suc (length pre) =
      omega (arith, length-append pre (offset ∷ [])) in
    let e' : next + total ds ≡ offset + (length d + total ds) = omega (arith, fit) in
    let bytes : (length d == 0) ≡ false = ground arith in
    (
      offset ∷ rest',
      fill-kept d (described ds) (length pre) offset (offset + (length d + total ds))
          (pre ++ r ∷ rest) (pre ++ offset ∷ rest') ds bytes
          (ap (fill (described ds) (suc (length pre)) next) (set-append pre r rest offset)
            ∙ ap (λ i. fill (described ds) i next ((pre ++ offset ∷ []) ++ rest)) (sym e)
            ∙ run
            ∙ ap (λ l. some (ds, l, next + total ds)) (append_assoc pre (offset ∷ []) rest')
            ∙ ap (λ k. some (ds, pre ++ offset ∷ rest', k)) e'),
      ap suc count,
      (
        refl,
        subst (Sums ds (set rest' (length ds) (offset + (length d + total ds)))) fit
            (subst (λ k. Sums ds (set rest' (length ds) k) next) e' sums),
      ),
    )

new_buffer-some :
    (junk : ℕ → ℕ) (given : List (Option (List ℕ) × ℕ)) (frags : List (List ℕ)) (offsets : List ℕ)
    (last : ℕ)
    → fill given 0 0 (cells junk 0 (length given + 1)) ≡ some (frags, offsets, last)
    → new_buffer true true junk given
      ≡ some (record {
        fragments = frags;
        fragment_offsets = set offsets (length given) last;
        fragments_capacity = length given;
        size = last;
        offset = 0;
        current_fragment = junk 0;
      })
unfolding new_buffer
new_buffer-some junk given frags offsets last e = rw (new_buffer, e) refl

-- A buffer that is made of fragments of some bytes each, below 2^64 together, and then opened is
-- well-formed, has the bytes of all fragments, and starts at the first, whatever new memory holds.
pub new_buffer-refines :
    (junk : ℕ → ℕ) (ds : List (List ℕ))
    → All (λ d. 0 < length d) ds
    → total ds < 2 ^ 64
    → length ds < 2 ^ 64
    → (b : Buffer) × (new_buffer true true junk (described ds) ≡ some b)
      × (contents (open_buffer b) ≡ concat ds)
      × ((open_buffer b).offset ≡ 0)
      × IsValid (open_buffer b)
unfolding open_buffer
new_buffer-refines junk ds kept small few =
    let given = described ds in
    let n = length given in
    let same = length-described ds in
    let room = length-cells junk 0 (n + 1) in
    let (offsets, run, count, sums) =
      fill-described ds [] (cells junk 0 (n + 1)) 0 kept (omega arith)
        (omega (arith, room, same)) in
    let last = 0 + total ds in
    (
      record {
        fragments = ds;
        fragment_offsets = set offsets n last;
        fragments_capacity = n;
        size = last;
        offset = 0;
        current_fragment = junk 0;
      },
      new_buffer-some junk given ds offsets last run,
      take-eq_of_length last (concat ds) (omega (arith, length-concat ds)),
      refl,
      record {
        sums = subst (λ k. Sums ds (set offsets k last) 0) (sym same) sums;
        fits = omega arith;
        cells_there = length-set offsets n last ∙ count ∙ room;
        within_capacity = omega (arith, same);
        few = few;
        bounded = small;
        inside = omega arith;
        here = At-start ds;
      },
    )
