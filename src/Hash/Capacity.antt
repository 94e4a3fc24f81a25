-- ===== src/Hash/Capacity.antt =====
-- `_zip_hash_reserve_capacity` and the table size for a number of entries.
use allvm_tools.Run.{Result, ok, err, er_memory}
use allvm_tools.Hash.{resize, Hash, max_size}
use allvm_tools.Base.{
  ◌^◌, ℕ, zero, if◌then◌else◌, leb, ◌%◌, Bool, ◌/◌, suc, ◌+◌, ◌-◌, ◌*◌, ltb, ◌==◌,
}

-- `a | b` on numbers of the given width.
unfoldable pub bit_or : ℕ → ℕ → ℕ → ℕ
bit_or zero a b = 0
bit_or (suc w) a b =
    let rest = bit_or w (a / 2) (b / 2) in (if a % 2 == 0 then b % 2 else 1) + 2 * rest

-- `v |= v >> k`
abbrev pub smear : ℕ → ℕ → ℕ
smear v k = bit_or 32 v (v / 2 ^ k)

-- The steps from `v--` to `v++` of `size_for_capacity`, after the first.
unfoldable pub round_up : ℕ → ℕ
unfolding bit_or
round_up v = (smear (smear (smear (smear (smear v 1) 2) 4) 8) 16 + 1) % 2 ^ 32

-- `size_for_capacity`. The quotient by .75 is rounded to a double, from which the conversion to an
-- integer takes the part before the point: below 2^32 that is the quotient of integers.
unfoldable pub size_for_capacity : ℕ → ℕ
size_for_capacity capacity =
    let needed = capacity * 4 / 3 in
    let v = if ltb (2 ^ 32 - 1) needed then 2 ^ 32 - 1 else needed in
    if ltb max_size v then max_size else round_up ((v + 2 ^ 32 - 1) % 2 ^ 32)

-- `_zip_hash_reserve_capacity`
unfoldable pub reserve_capacity : Bool → Hash → ℕ → Result (Unit {0}) × Hash
reserve_capacity room h capacity =
    let new_size = size_for_capacity capacity in
    let (made, h') = resize room h new_size in
    if capacity == 0
    then (ok tt, h)
    else if leb new_size h.table_size
    then (ok tt, h)
    else if made
    then (ok tt, h')
    else (err er_memory, h')
