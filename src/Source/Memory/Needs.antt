-- ===== src/Source/Memory/Needs.antt =====
-- The room that `buffer_write` makes.
use allvm_tools.Source.Memory.Room.{
  extra, extra-mul, extra-ge, double-ge, Roomier, grow_fragments-Roomier, add_fragments-Roomier,
}
use allvm_tools.Source.Memory.Places.{Sums-get_elem?, take-all, total}
use native.Mathlib.Nat.{lt-div-mul-add, div-mul-le_self}
use allvm_tools.Source.Memory.{Buffer, minus}
use allvm_tools.Source.Memory.Growth.{add_fragments, make_room, double, grow_fragments}
use allvm_tools.Source.Memory.Reads.{IsValid, minus_le}
use allvm_tools.Base.{
  ℕ, ◌-◌, refl, List, ltb, ◌∙◌, some, Bool-cases, ap, ◌+◌, false, ◌<◌, ◌^◌, sym, ◌≤◌, arith, length,
  ◌≡◌, inl, inr, true, if◌then◌else◌, ◌==◌, take, get_elem?, ◌/◌, Bool, Option,
}

module _ (fragment_size : ℕ) (junk : ℕ → ℕ) (fresh : ℕ → List ℕ) (pos : 0 < fragment_size)
    (fresh-length : (i : ℕ) → length (fresh i) ≡ fragment_size) where
  -- The equations of `make_room`.
  make_room-there :
      (alloc : Bool) (blocks : ℕ) (b : Buffer) (len capacity : ℕ)
      → get_elem? b.fragment_offsets (length b.fragments) ≡ some capacity
      → ltb capacity (b.offset + len) ≡ false
      → make_room fragment_size junk fresh alloc blocks b len ≡ some (true, b)
  unfolding make_room
  make_room-there alloc blocks b len capacity cell there = rw (make_room, cell, there) refl

  abbrev missing : Buffer → ℕ → ℕ → ℕ
  missing b len capacity = (minus len (minus capacity b.offset) + fragment_size - 1) / fragment_size

  abbrev needs : Buffer → ℕ → ℕ → ℕ
  needs b len capacity = length b.fragments + missing b len capacity

  abbrev first_capacity : Buffer → ℕ
  first_capacity b = if b.fragments_capacity == 0 then 16 else b.fragments_capacity

  make_room-within :
      (alloc : Bool) (blocks : ℕ) (b : Buffer) (len capacity : ℕ)
      → get_elem? b.fragment_offsets (length b.fragments) ≡ some capacity
      → ltb capacity (b.offset + len) ≡ true
      → ltb b.fragments_capacity (needs b len capacity) ≡ false
      → make_room fragment_size junk fresh alloc blocks b len
        ≡ some (
            add_fragments fragment_size junk fresh
              (needs b len capacity - length b.fragments)
              blocks
              b
              capacity)
  unfolding make_room
  make_room-within alloc blocks b len capacity cell less fits =
      rw (make_room, cell, less, fits) refl

  make_room-grown :
      (alloc : Bool) (blocks : ℕ) (b t : Buffer) (len capacity : ℕ)
      → get_elem? b.fragment_offsets (length b.fragments) ≡ some capacity
      → ltb capacity (b.offset + len) ≡ true
      → ltb b.fragments_capacity (needs b len capacity) ≡ true
      → grow_fragments fragment_size junk fresh alloc b
          (double (needs b len capacity) (first_capacity b) (needs b len capacity))
        ≡ some t
      → make_room fragment_size junk fresh alloc blocks b len
        ≡ some (
            add_fragments fragment_size junk fresh
              (needs b len capacity - length b.fragments)
              blocks
              t
              capacity)
  unfolding make_room
  make_room-grown alloc blocks b t len capacity cell less full grown =
      rw (make_room, cell, less, full, grown) refl

  -- How much is missing, in fragments and in bytes.
  missing-covers :
      (m : ℕ)
      → let n = (m + fragment_size - 1) / fragment_size in
        (m ≤ extra fragment_size junk fresh pos fresh-length n)
        × (extra fragment_size junk fresh pos fresh-length n ≤ m + fragment_size - 1)
        × (n ≤ m + fragment_size - 1)
  missing-covers m =
      let n = (m + fragment_size - 1) / fragment_size in
      let above = lt-div-mul-add {a = m + fragment_size - 1} {b = fragment_size} pos in
      let below = div-mul-le_self (m + fragment_size - 1) fragment_size in
      let e = extra-mul fragment_size junk fresh pos fresh-length n in
      let ge = extra-ge fragment_size junk fresh pos fresh-length n in
      (omega arith, omega arith, omega arith)

  -- Fragments that are added to a buffer which may have grown.
  room_added :
      (count blocks len : ℕ) (b b' : Buffer) (r : Option (Bool × Buffer))
      → r ≡ some (add_fragments fragment_size junk fresh count blocks b' (total b'.fragments))
      → Roomier b b'
      → count ≤ blocks
      → total b'.fragments + extra fragment_size junk fresh pos fresh-length count < 2 ^ 64
      → length b'.fragments + count ≤ b'.fragments_capacity
      → length b'.fragments + count < 2 ^ 64
      → b.offset + len ≤ total b'.fragments + extra fragment_size junk fresh pos fresh-length count
      → (t : Buffer) × (r ≡ some (true, t)) × Roomier b t × (b.offset + len ≤ total t.fragments)
  room_added count blocks len b b' r e (bytes, offset, size, v) mem small cap_small few covers =
      let (t, run, (bytes', offset', size', v'), total') =
        add_fragments-Roomier fragment_size junk fresh pos fresh-length count blocks b'
          (total b'.fragments) v refl mem small cap_small few in
      (
        t,
        e ∙ ap some run,
        (bytes' ∙ bytes, offset' ∙ offset, size' ∙ size, v'),
        omega (arith, total'),
      )

  pub make_room-Roomier :
      (blocks : ℕ) (b : Buffer) (len : ℕ)
      → IsValid b
      → len + fragment_size ≤ blocks
      → b.fragments_capacity + len + fragment_size < 2 ^ 63
      → total b.fragments + len + fragment_size < 2 ^ 63
      → (t : Buffer) × (make_room fragment_size junk fresh true blocks b len ≡ some (true, t))
        × Roomier b t
        × (b.offset + len ≤ total t.fragments)
  make_room-Roomier blocks b len v mem cap_small small =
      let n = length b.fragments in
      let capacity = total b.fragments in
      let within_cap = v.within_capacity in
      let fits = v.fits in
      let inside = v.inside in
      let e : 0 + total (take n b.fragments) ≡ capacity =
        omega (arith, ap total (take-all b.fragments n refl)) in
      let cell =
        Sums-get_elem? b.fragments b.fragment_offsets 0 n v.sums (omega arith) ∙ ap some e in
      let count = missing b len capacity in
      let (covers, few, less_count) = missing-covers (minus len (minus capacity b.offset)) in
      let added : needs b len capacity - n ≡ count = omega arith in
      elim (Bool-cases (ltb capacity (b.offset + len))) [
        | inr there ↦ (
          b,
          make_room-there true blocks b len capacity cell there,
          (refl, refl, refl, v),
          ground arith,
        )
        | inl less ↦
            let bounded = v.bounded in
            let short : minus len (minus capacity b.offset) ≡ len - (capacity - b.offset) =
              ap (minus len) (minus_le capacity b.offset (omega arith) bounded)
              ∙ minus_le len (capacity - b.offset) (ground arith) (omega arith) in
            elim (Bool-cases (ltb b.fragments_capacity (needs b len capacity))) [
              | inr enough ↦
                  room_added count blocks len b b
                    (make_room fragment_size junk fresh true blocks b len)
                    (make_room-within true blocks b len capacity cell less enough
                      ∙ ap (λ k. some (add_fragments fragment_size junk fresh k blocks b capacity))
                          added)
                    (refl, refl, refl, v) (omega arith) (omega arith) (ground arith) (omega arith)
                    (omega arith)
              | inl full ↦
                  let first = first_capacity b in
                  let needed = needs b len capacity in
                  let (ge, more) =
                    double-ge needed first needed (ground arith) (omega arith) (omega arith) in
                  let from_old : b.fragments_capacity ≤ first = ground arith in
                  let (b', grown, roomier, same, cap') =
                    grow_fragments-Roomier fragment_size junk fresh pos fresh-length b
                      (double needed first needed) v (omega arith) in
                  let same_n = ap (λ l. length l) same in
                  let same_total = ap (λ l. total l) same in
                  let run : make_room fragment_size junk fresh true blocks b len
                      ≡ some (
                          add_fragments fragment_size junk fresh count blocks b'
                            (total b'.fragments)) =
                    make_room-grown true blocks b b' len capacity cell less full grown
                    ∙ ap (λ k. some (add_fragments fragment_size junk fresh k blocks b' capacity))
                        added
                    ∙ ap (λ k. some (add_fragments fragment_size junk fresh count blocks b' k))
                        (sym same_total) in
                  room_added count blocks len b b'
                    (make_room fragment_size junk fresh true blocks b len) run roomier (omega arith)
                    (omega (arith, same_total)) (omega (arith, same_n, cap'))
                    (omega (arith, same_n)) (omega (arith, same_total))
            ]
      ]
