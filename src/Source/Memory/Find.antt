-- ===== src/Source/Memory/Find.antt =====
-- The search for the fragment of a place, and seeking.
use allvm_tools.Source.Memory.Reads.{IsValid}
use allvm_tools.Source.Memory.Places.{Sums, total, At, Sums-get_elem?, At-of_starts, take-all}
use allvm_tools.Source.Memory.{Buffer, find_loop, find_fragment}
use allvm_tools.Base.{
  ℕ, arith, inr, Option, ◌^◌, false, ltb, inl, get_elem?, ◌%◌, take, refl, suc, ◌≤◌, Bool-cases,
  ◌≡◌, ap, ◌-◌, true, ◌==◌, ◌∙◌, ◌+◌, sym, ◌/◌, subst, length, some, ◌<◌, zero, ==_iff,
}

module _ (b : Buffer) (p : ℕ) where
  abbrev middle : ℕ → ℕ → ℕ
  middle low high = (high - low) / 2 + low

  -- The branches of a round.
  find_loop-lower :
      (fuel low high x : ℕ)
      → ltb low high ≡ true
      → get_elem? b.fragment_offsets (middle low high) ≡ some x
      → ltb p x ≡ true
      → find_loop (suc fuel) b p low high
        ≡ find_loop fuel b p low ((middle low high + (2 ^ 64 - 1)) % 2 ^ 64)
  unfolding find_loop
  find_loop-lower fuel low high x more cell below = rw (more, cell, below) refl

  find_loop-here :
      (fuel low high x y : ℕ)
      → ltb low high ≡ true
      → get_elem? b.fragment_offsets (middle low high) ≡ some x
      → ltb p x ≡ false
      → (middle low high == length b.fragments) ≡ false
      → get_elem? b.fragment_offsets (middle low high + 1) ≡ some y
      → ltb p y ≡ true
      → find_loop (suc fuel) b p low high ≡ some (middle low high)
  unfolding find_loop
  find_loop-here fuel low high x y more cell above inside next below =
      rw (more, cell, above, inside, next, below) refl

  find_loop-upper :
      (fuel low high x y : ℕ)
      → ltb low high ≡ true
      → get_elem? b.fragment_offsets (middle low high) ≡ some x
      → ltb p x ≡ false
      → (middle low high == length b.fragments) ≡ false
      → get_elem? b.fragment_offsets (middle low high + 1) ≡ some y
      → ltb p y ≡ false
      → find_loop (suc fuel) b p low high ≡ find_loop fuel b p (middle low high + 1) high
  unfolding find_loop
  find_loop-upper fuel low high x y more cell above inside next over =
      rw (more, cell, above, inside, next, over) refl

  find_loop-done :
      (fuel low high : ℕ) → ltb low high ≡ false → find_loop (suc fuel) b p low high ≡ some low
  unfolding find_loop
  find_loop-done fuel low high over = rw over refl

  abbrev start : ℕ → ℕ
  start i = total (take i b.fragments)

  abbrev Found : Option ℕ → Type 0
  Found o = (i : ℕ) × (o ≡ some i) × (i < length b.fragments) × At b.fragments i p

  find_loop-Found :
      (fuel low high : ℕ)
      → Sums b.fragments b.fragment_offsets 0
      → length b.fragments < 2 ^ 64
      → high < low + fuel
      → low ≤ high
      → high < length b.fragments
      → start low ≤ p
      → p ≤ start (suc high)
      → Found (find_loop fuel b p low high)
  find_loop-Found zero low high sums few enough le lt lo hi = absurd (omega arith)
  find_loop-Found (suc fuel) low high sums few enough le lt lo hi =
      let mid = middle low high in
      let no_base : (n : ℕ) → 0 + n ≡ n = λ n. omega arith in
      let cell =
        Sums-get_elem? b.fragments b.fragment_offsets 0 mid sums (omega arith)
        ∙ ap some (no_base (start mid)) in
      let next =
        Sums-get_elem? b.fragments b.fragment_offsets 0 (mid + 1) sums (omega arith)
        ∙ ap some (no_base (start (mid + 1))) in
      elim (Bool-cases (ltb low high)) [
        | inr over ↦ subst Found (sym (find_loop-done fuel low high over)) (
            let e : high ≡ low = ground arith in
            (
              low,
              refl,
              omega arith,
              At-of_starts b.fragments low p (omega arith) lo
                  (omega (arith, ap (λ k. start (suc k)) e)),
            ))
        | inl more ↦ elim (Bool-cases (ltb p (start mid))) [
          | inl below ↦
              let not_low : low < mid = elim (Bool-cases (mid == low)) [
                | inl same ↦ absurd (ground (arith, ap start ((==_iff mid low).0 same)))
                | inr apart ↦ ground (arith, ==_iff mid low)
              ] in
              let e : (mid + (2 ^ 64 - 1)) % 2 ^ 64 ≡ mid - 1 = omega arith in
              subst Found
                (sym (
                  find_loop-lower fuel low high (start mid) more cell below
                  ∙ ap (find_loop fuel b p low) e))
                (find_loop-Found fuel low (mid - 1) sums few (omega arith) (omega arith)
                  (omega arith) lo
                  (let e : suc (mid - 1) ≡ mid = omega arith in ground (arith, ap start e)))
          | inr above ↦
              let inner : (mid == length b.fragments) ≡ false =
                ground (arith, ==_iff mid (length b.fragments)) in
              let e : mid + 1 ≡ suc mid = omega arith in
              elim (Bool-cases (ltb p (start (mid + 1)))) [
                | inl below ↦
                    subst Found
                      (sym (
                        find_loop-here fuel low high (start mid) (start (mid + 1)) more cell above
                          inner next below))
                      (
                        mid,
                        refl,
                        ground arith,
                        At-of_starts b.fragments mid p (ground arith) (ground arith)
                            (ground (arith, ap start e)),
                      )
                | inr over ↦
                    subst Found
                      (sym (
                        find_loop-upper fuel low high (start mid) (start (mid + 1)) more cell above
                          inner next over))
                      (find_loop-Found fuel (mid + 1) high sums few (ground arith) (ground arith) lt
                        (ground arith) hi)
              ]
        ]
      ]

-- In a well-formed buffer with a fragment at least, the search ends, reads only cells of the array of
-- offsets, and finds a fragment that a place within the buffer lies in, or just after.
pub find_fragment-finds :
    (b : Buffer) (place : ℕ)
    → IsValid b
    → 0 < length b.fragments
    → place ≤ b.size
    → (i : ℕ) × (find_fragment b place ≡ some i) × (i < length b.fragments) × At b.fragments i place
unfolding find_fragment
find_fragment-finds b place v some_fragments inside =
    let n = length b.fragments in
    let few = v.few in
    let fits = v.fits in
    let last : (n + (2 ^ 64 - 1)) % 2 ^ 64 ≡ n - 1 = omega arith in
    let all : suc (n - 1) ≡ n = omega arith in
    let (i, e, lt, at) =
      find_loop-Found b place (n + 1) 0 (n - 1) v.sums few (omega arith) (omega arith) (omega arith)
        (omega arith) (omega (arith, ap total (take-all b.fragments (suc (n - 1)) all))) in
    (i, ap (find_loop (n + 1) b place 0) last ∙ e, lt, at)
