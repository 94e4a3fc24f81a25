-- ===== src/ExtraField/Rounds.antt =====
-- One round of the loop of `_zip_ef_parse`, and the check of the padding after it.
use allvm_tools.Run.{ok, err, ◌>>=◌, return, er_incons}
use allvm_tools.Buffer.At.{At, get-At, left-At, ok-At, get_16-At, Octets-At, get-At_short}
use allvm_tools.Buffer.{Buffer, left, eof}
use allvm_tools.Flags.{Flags}
use allvm_tools.ExtraField.{new, ExtraField}
use allvm_tools.ExtraField.Wire.{padding_fits, parse_fields}
use allvm_tools.Base.{
  ℕ, ltb, ◌==◌, true, suc, length-replicate, ◌∙◌, replicate, ◌&&◌, ◌≡◌, ◌≤◌, zero, ◌*◌, leb, refl,
  drop, take-length, same_bytes, arith, [], length, ◌+◌, ◌∷◌, same_bytes_iff, take, List, ◌<◌,
}

-- With two allocations left `_zip_ef_new` succeeds, and copies `size` bytes.
pub new-eq :
    (id size : ℕ) (src : List ℕ) (flags : Flags) (mem : ℕ)
    → 2 ≤ mem
    → (mem' : ℕ) × (new id size src flags mem
        ≡ ok (record { flags = flags; id = id; size = size; bytes = take size src }, mem'))
      × (mem ≤ mem' + 2)
unfolding new
new-eq id zero src flags (suc mem) h = (mem, refl, omega arith)
new-eq id (suc size) src flags (suc (suc mem)) h = (mem, ground arith, omega arith)
new-eq id size src flags mem h = absurd (omega arith)

-- What `_zip_ef_new` returns if it does.
pub new-inv :
    (id size : ℕ) (src : List ℕ) (flags : Flags) (mem : ℕ) {ef : ExtraField} {mem' : ℕ}
    → new id size src flags mem ≡ ok (ef, mem')
    → ef ≡ record { flags = flags; id = id; size = size; bytes = take size src }
unfolding new
new-inv id size src flags zero e = ground arith
new-inv id zero src flags (suc mem) e = ground arith
new-inv id (suc size) src flags (suc zero) e = ground arith
new-inv id (suc size) src flags (suc (suc mem)) e = ground arith

module _ (fuel : ℕ) (flags : Flags) (mem : ℕ) {b : Buffer} where
  -- Four bytes are left.
  pub more : (xs : List ℕ) → At b xs → 4 ≤ length xs → (b.ok && leb 4 (left b)) ≡ true
  more xs p h = ground (arith, left-At p, ok-At p)

  -- Fewer than four bytes end the loop.
  pub stop :
      (xs : List ℕ)
      → At b xs
      → length xs < 4
      → parse_fields (suc fuel) b flags mem ≡ ok (([], b), mem)
  unfolding parse_fields
  stop xs p h = ground (arith, left-At p)

  module _ (w x y z : ℕ) (r : List ℕ) (p : At b (w ∷ x ∷ y ∷ z ∷ r)) where
    -- A round that finds the field's bytes.
    pub round :
        y + 256 * z ≤ length r
        → (b' : Buffer) × At b' (drop (y + 256 * z) r)
          × (parse_fields (suc fuel) b flags mem
              ≡ (new (w + 256 * x) (y + 256 * z) r flags >>= λ ef.
                    parse_fields fuel b' flags >>= λ q. return (ef ∷ q.0, q.1))
                  mem)
    unfolding parse_fields
    round h =
        let (b₁, e₁, p₁) = get_16-At w x (y ∷ z ∷ r) p in
        let (b₂, e₂, p₂) = get_16-At y z r p₁ in
        let (at, b₃, e₃, block, p₃) = get-At (y + 256 * z) r p₂ h in
        (b₃, p₃, simp (more _ p (omega arith), e₁, e₂, e₃, block))

    -- A round that does not.
    pub round_short : length r < y + 256 * z → parse_fields (suc fuel) b flags mem ≡ err er_incons
    unfolding parse_fields
    round_short h =
        let (b₁, e₁, p₁) = get_16-At w x (y ∷ z ∷ r) p in
        let (b₂, e₂, p₂) = get_16-At y z r p₁ in
        let o = Octets-At p in
        rw (more _ p (omega arith), e₁, e₂, get-At_short (y + 256 * z) r p₂ h (omega arith))

pub eof-At : (xs : List ℕ) {b : Buffer} → At b xs → eof b ≡ (length xs == 0)
unfolding eof left
eof-At xs {b} p = let v = p.valid in let l = left-At p in ground (arith, ok-At p)

-- What the check after the loop accepts: at most three bytes, all zero.
pub padding-At :
    (xs : List ℕ) {b : Buffer}
    → At b xs
    → padding_fits b ≡ (ltb (length xs) 4 && same_bytes xs (replicate (length xs) 0))
unfolding padding_fits
padding-At [] p = rw (eof-At [] p)
padding-At (x ∷ xs) {b} p =
    let (at, b', e, block, _) = get-At (length (x ∷ xs)) (x ∷ xs) p (omega arith) in
    simp (eof-At (x ∷ xs) p, left-At p, e, block, take-length) (ground arith)

pub padding-replicate : (n : ℕ) {b : Buffer} → n < 4 → At b (replicate n 0) → padding_fits b ≡ true
padding-replicate n h p =
    padding-At (replicate n 0) p
    ∙ ground (
      arith,
      (same_bytes_iff (replicate n 0) (replicate n 0)).1 refl,
      length-replicate {A = ℕ} n 0,
    )

pub padding-inv :
    (xs : List ℕ) {b : Buffer} → At b xs → padding_fits b ≡ true → xs ≡ replicate (length xs) 0
padding-inv xs p e =
    (same_bytes_iff xs (replicate (length xs) 0)).0 (ground (arith, padding-At xs p))
