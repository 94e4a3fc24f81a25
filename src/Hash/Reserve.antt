-- ===== src/Hash/Reserve.antt =====
-- `_zip_hash_reserve_capacity` on well-formed tables.
use allvm_tools.Hash.Map.{resize-table_size, resize-room}
use allvm_tools.Run.{ok}
use allvm_tools.Hash.Rehash.{found}
use allvm_tools.Hash.{Hash, resize, max_size}
use allvm_tools.Hash.Capacity.{size_for_capacity, smear, bit_or, round_up, reserve_capacity}
use allvm_tools.Base.{
  suc, false, leb→le, arith, ◌==◌, inr, ◌<◌, zero, if◌then◌else◌, ◌*◌, leb, ◌^◌, ltb, ◌-◌, List,
  ◌/◌, ◌≤◌, Bool-cases, ◌≡◌, true, ◌+◌, refl, ◌%◌, ℕ, Bool, inl, ◌⊎◌,
}
use allvm_tools.Hash.Inv.{IsValid, resize-refines}

bit_or-bound : (w a b m : ℕ) → a < 2 ^ m → b < 2 ^ m → bit_or w a b < 2 ^ m
unfolding bit_or
bit_or-bound zero a b m p q = omega arith
bit_or-bound (suc w) a b zero p q = ground (arith, bit_or-bound w (a / 2) (b / 2) zero)
bit_or-bound (suc w) a b (suc m) p q = ground (arith, bit_or-bound w (a / 2) (b / 2) m)

round_up-bound : (v : ℕ) → v < 2 ^ 31 → (0 < round_up v) × (round_up v ≤ 2 ^ 31)
unfolding round_up
round_up-bound v h =
    let a = smear v 1 in
    let b = smear a 2 in
    let c = smear b 4 in
    let d = smear c 8 in
    let a31 = bit_or-bound 32 v (v / 2 ^ 1) 31 h (omega arith) in
    let b31 = bit_or-bound 32 a (a / 2 ^ 2) 31 a31 (omega arith) in
    let c31 = bit_or-bound 32 b (b / 2 ^ 4) 31 b31 (omega arith) in
    let d31 = bit_or-bound 32 c (c / 2 ^ 8) 31 c31 (omega arith) in
    let e31 = bit_or-bound 32 d (d / 2 ^ 16) 31 d31 (omega arith) in (omega arith, omega arith)

size_for_capacity-bound :
    (capacity : ℕ)
    → 0 < capacity
    → (0 < size_for_capacity capacity) × (size_for_capacity capacity ≤ max_size)
unfolding size_for_capacity
size_for_capacity-bound capacity pos =
    let needed = capacity * 4 / 3 in
    let v = if ltb (2 ^ 32 - 1) needed then 2 ^ 32 - 1 else needed in
    let one : 0 < v = ground arith in
    elim (Bool-cases (ltb max_size v)) [
      | inl over ↦ rw over (omega arith, omega arith)
      | inr fits ↦
          let below : (v + 2 ^ 32 - 1) % 2 ^ 32 < 2 ^ 31 = ground arith in
          rw fits (round_up-bound ((v + 2 ^ 32 - 1) % 2 ^ 32) below)
    ]

bit_or-above : (w a b : ℕ) → a < 2 ^ w → a ≤ bit_or w a b
unfolding bit_or
bit_or-above zero a b h = omega arith
bit_or-above (suc w) a b h = ground (arith, bit_or-above w (a / 2) (b / 2))

round_up-above : (v : ℕ) → v < 2 ^ 31 → v < round_up v
unfolding round_up
round_up-above v h =
    let a = smear v 1 in
    let b = smear a 2 in
    let c = smear b 4 in
    let d = smear c 8 in
    let a31 = bit_or-bound 32 v (v / 2 ^ 1) 31 h (omega arith) in
    let b31 = bit_or-bound 32 a (a / 2 ^ 2) 31 a31 (omega arith) in
    let c31 = bit_or-bound 32 b (b / 2 ^ 4) 31 b31 (omega arith) in
    let d31 = bit_or-bound 32 c (c / 2 ^ 8) 31 c31 (omega arith) in
    let e31 = bit_or-bound 32 d (d / 2 ^ 16) 31 d31 (omega arith) in
    omega (
      arith,
      e31,
      bit_or-above 32 v (v / 2 ^ 1) (omega arith),
      bit_or-above 32 a (a / 2 ^ 2) (omega arith),
      bit_or-above 32 b (b / 2 ^ 4) (omega arith),
      bit_or-above 32 c (c / 2 ^ 8) (omega arith),
      bit_or-above 32 d (d / 2 ^ 16) (omega arith),
    )

-- The size is enough for the capacity, or the largest one.
abbrev pub EnoughFor : ℕ → ℕ → Type 0
EnoughFor capacity size = (capacity * 4 / 3 ≤ size) ⊎ (max_size ≤ size)

size_for_capacity-EnoughFor :
    (capacity : ℕ) → 0 < capacity → EnoughFor capacity (size_for_capacity capacity)
unfolding size_for_capacity
size_for_capacity-EnoughFor capacity pos =
    let needed = capacity * 4 / 3 in
    let v = if ltb (2 ^ 32 - 1) needed then 2 ^ 32 - 1 else needed in
    elim (Bool-cases (ltb max_size v)) [
      | inl over ↦ rw over (inr (omega arith))
      | inr fits ↦
          let same : v ≡ needed = ground arith in
          let below : (v + 2 ^ 32 - 1) % 2 ^ 32 < 2 ^ 31 = ground arith in
          let back : (v + 2 ^ 32 - 1) % 2 ^ 32 + 1 ≡ v = ground arith in
          let above = round_up-above ((v + 2 ^ 32 - 1) % 2 ^ 32) below in
          rw fits (inl (omega (arith, same, back, above)))
    ]

EnoughFor-le :
    (capacity size size' : ℕ) → size ≤ size' → EnoughFor capacity size → EnoughFor capacity size'
EnoughFor-le capacity size size' le (inl enough) = inl (omega arith)
EnoughFor-le capacity size size' le (inr largest) = inr (omega arith)

-- On a well-formed table, for a capacity that is not 0, `_zip_hash_reserve_capacity` keeps what the
-- table holds for every name and leaves it well formed, with or without memory; with memory it succeeds,
-- and the table has a size of four thirds of the capacity, rounded down, at least, or the largest one.
pub reserve_capacity-refines :
    (room : Bool) (h : Hash) (capacity : ℕ)
    → 0 < capacity
    → IsValid h
    → let (r, h') = reserve_capacity room h capacity in
      IsValid h'
      × ((name : List ℕ) → found h' name ≡ found h name)
      × (room ≡ true → (r ≡ ok tt) × EnoughFor capacity h'.table_size)
unfolding reserve_capacity
reserve_capacity-refines room h capacity pos v =
    let n = size_for_capacity capacity in
    let enough = size_for_capacity-EnoughFor capacity pos in
    let nonzero : (capacity == 0) ≡ false = ground arith in
    elim (Bool-cases (leb n h.table_size)) [
      | inl wide ↦
          rw (nonzero, wide)
            (
              v,
              λ name. refl,
              λ _. (refl, EnoughFor-le capacity n h.table_size (leb→le n h.table_size wide) enough),
            )
      | inr small ↦
          let (v', kept) = resize-refines room h n (size_for_capacity-bound capacity pos).0 v in
          elim (Bool-cases (resize room h n).0) [
            | inl made ↦
                rw (nonzero, small, made)
                  (v', kept, λ all. (refl, rw (all, resize-table_size h n) enough))
            | inr failed ↦
                rw (nonzero, small, failed)
                  (
                    v',
                    kept,
                    λ all. let clash : true ≡ false = rw (all, resize-room h n) at failed in cc,
                  )
          ]
    ]
