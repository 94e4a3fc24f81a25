-- ===== src/Source/Memory/Room.antt =====
-- The steps by which `buffer_write` makes room: a larger array, and new fragments.
use allvm_tools.Source.Memory.Lengths.{total-added, Sums-added, At-added, concat-append, Sums-more}
use allvm_tools.Source.Memory.Places.{length-concat, Sums, concat, total}
use native.Mathlib.Nat.{suc-mul, zero-mul}
use allvm_tools.Source.Memory.{Buffer, cells}
use allvm_tools.Source.Memory.Growth.{add_fragments, double, grow_fragments}
use allvm_tools.Source.Memory.Reads.{IsValid, contents}
use allvm_tools.Base.{
  ℕ, ◌-◌, refl, length-append, List, ltb, ◌∙◌, [], some, Bool-cases, ap, ◌+◌, ◌∷◌, set, suc, false,
  zero, ◌<◌, ◌%◌, ◌^◌, sym, ◌≤◌, arith, length, ◌≡◌, inl, length-set, ◌*◌, inr, true, subst, ◌++◌,
  take, take-append_le,
}

-- A doubled capacity is enough.
pub double-ge :
    (fuel capacity needed : ℕ)
    → 0 < capacity
    → needed ≤ capacity + fuel
    → needed < 2 ^ 63
    → (needed ≤ double fuel capacity needed) × (capacity ≤ double fuel capacity needed)
unfolding double
double-ge zero capacity needed pos enough small = (omega arith, omega arith)
double-ge (suc fuel) capacity needed pos enough small = elim (Bool-cases (ltb capacity needed)) [
  | inr there ↦ rw there (ground arith, omega arith)
  | inl less ↦
      let fit : (capacity * 2) % 2 ^ 64 ≡ capacity * 2 = ground arith in
      let (ge, more) = double-ge fuel (capacity * 2) needed (omega arith) (omega arith) small in
      rw (less, fit) (ge, omega arith)
]

pub length-cells : (junk : ℕ → ℕ) (k n : ℕ) → length (cells junk k n) ≡ n
length-cells junk k zero = refl
length-cells junk k (suc n) = ap suc (length-cells junk (suc k) n)

-- A buffer with more room and the same bytes.
abbrev pub Roomier : Buffer → Buffer → Type 0
Roomier b t = (contents t ≡ contents b) × (t.offset ≡ b.offset) × (t.size ≡ b.size) × IsValid t

module _ (fragment_size : ℕ) (junk : ℕ → ℕ) (fresh : ℕ → List ℕ) (pos : 0 < fragment_size)
    (fresh-length : (i : ℕ) → length (fresh i) ≡ fragment_size) where
  -- The bytes of some new fragments.
  abbrev pub extra : ℕ → ℕ
  extra zero = 0
  extra (suc n) = extra n + fragment_size

  pub extra-mul : (n : ℕ) → extra n ≡ n * fragment_size
  extra-mul zero = sym (zero-mul fragment_size)
  extra-mul (suc n) = omega (arith, extra-mul n, suc-mul n fragment_size)

  pub extra-ge : (n : ℕ) → n ≤ extra n
  extra-ge zero = omega arith
  extra-ge (suc n) = omega (arith, extra-ge n)

  pub grow_fragments-Roomier :
      (b : Buffer) (capacity : ℕ)
      → IsValid b
      → b.fragments_capacity ≤ capacity
      → (t : Buffer) × (grow_fragments fragment_size junk fresh true b capacity ≡ some t)
        × Roomier b t
        × (t.fragments ≡ b.fragments)
        × (t.fragments_capacity ≡ capacity)
  unfolding grow_fragments
  grow_fragments-Roomier b capacity v le =
      let more = cells junk (b.fragments_capacity + 1) (capacity - b.fragments_capacity) in
      let shrinks : ltb capacity b.fragments_capacity ≡ false = ground arith in
      let count = length-append b.fragment_offsets more in
      let count' = length-cells junk (b.fragments_capacity + 1) (capacity - b.fragments_capacity) in
      (
        record b { fragment_offsets = b.fragment_offsets ++ more; fragments_capacity = capacity },
        rw shrinks refl,
        (
          refl,
          refl,
          refl,
          record {
            sums = Sums-more b.fragments b.fragment_offsets more 0 v.sums;
            fits = v.fits;
            cells_there = omega (arith, count, count', v.cells_there);
            within_capacity = omega (arith, v.within_capacity);
            few = v.few;
            bounded = v.bounded;
            inside = v.inside;
            here = v.here;
          },
        ),
        refl,
        refl,
      )

  pub add_fragments-Roomier :
      (count blocks : ℕ) (b : Buffer) (capacity : ℕ)
      → IsValid b
      → capacity ≡ total b.fragments
      → count ≤ blocks
      → total b.fragments + extra count < 2 ^ 64
      → length b.fragments + count ≤ b.fragments_capacity
      → length b.fragments + count < 2 ^ 64
      → (t : Buffer) × (add_fragments fragment_size junk fresh count blocks b capacity ≡ (true, t))
        × Roomier b t
        × (total t.fragments ≡ total b.fragments + extra count)
  unfolding add_fragments
  add_fragments-Roomier zero blocks b capacity v e le small room cap_small =
      (b, refl, (refl, refl, refl, v), omega arith)
  add_fragments-Roomier (suc count) zero b capacity v e le small room cap_small =
      absurd (omega arith)
  add_fragments-Roomier (suc count) (suc blocks) b capacity v e le small room cap_small =
      let x = fresh (length b.fragments) in
      let n = length b.fragments in
      let size_x = fresh-length n in
      let fs = b.fragments ++ x ∷ [] in
      let bytes = total-added b.fragments x in
      let fit : (capacity + fragment_size) % 2 ^ 64 ≡ 0 + total b.fragments + length x =
        omega (arith, size_x) in
      let b' = record b {
        fragments = fs;
        fragment_offsets = set b.fragment_offsets (n + 1) ((capacity + fragment_size) % 2 ^ 64);
      } in
      let v' : IsValid b' = record {
        sums =
            subst (λ o. Sums fs (set b.fragment_offsets (n + 1) o) 0) (sym fit)
              (Sums-added b.fragments x b.fragment_offsets 0 v.sums (omega (arith, v.cells_there)));
        fits = omega (arith, bytes, v.fits);
        cells_there =
            length-set b.fragment_offsets (n + 1) ((capacity + fragment_size) % 2 ^ 64)
            ∙ v.cells_there;
        within_capacity = omega (arith, length-append b.fragments (x ∷ []));
        few = omega (arith, length-append b.fragments (x ∷ []));
        bounded = omega (arith, bytes, size_x);
        inside = v.inside;
        here = At-added b.fragments x b.current_fragment b.offset v.here;
      } in
      let (t, run, (bytes', offset', size', valid), total') =
        add_fragments-Roomier count blocks b' ((capacity + fragment_size) % 2 ^ 64) v'
          (omega (arith, fit, bytes)) (omega arith) (omega (arith, bytes, size_x))
          (omega (arith, length-append b.fragments (x ∷ [])))
          (omega (arith, length-append b.fragments (x ∷ []))) in
      (
        t,
        run,
        (
          bytes'
              ∙ ap (take b.size) (concat-append b.fragments (x ∷ []))
              ∙ take-append_le (concat b.fragments) (concat (x ∷ [])) b.size
                  (omega (arith, length-concat b.fragments, v.fits)),
          offset',
          size',
          valid,
        ),
        omega (arith, total', bytes, size_x),
      )
