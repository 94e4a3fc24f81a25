-- ===== src/ExtraField/Format.antt =====
-- The wire format of extra fields: id and size, little-endian, and the bytes.
use allvm_tools.ExtraField.{ExtraField}
use allvm_tools.Flags.{Flags}
use allvm_tools.Base.{
  ℕ, All, suc, ◌%◌, replicate, ◌≡◌, ◌≤◌, zero, Octets-append, ◌++◌, ◌^◌, ◌/◌, arith, [], length,
  ◌∷◌, Octets, length-append, List, ◌<◌,
}

-- A field on the wire.
abbrev pub encode : ExtraField → List ℕ
encode ef =
    ef.id % 2 ^ 8 ∷ ef.id / 2 ^ 8 % 2 ^ 8 ∷ ef.size % 2 ^ 8 ∷ ef.size / 2 ^ 8 % 2 ^ 8 ∷ ef.bytes

abbrev pub encode_all : List ExtraField → List ℕ
encode_all [] = []
encode_all (ef ∷ efs) = encode ef ++ encode_all efs

-- Members have their C types, the size is that of the bytes, and the field was read with `flags`.
pub record IsField (flags : Flags) (ef : ExtraField) : Type 0 where
  pub id_16 : ef.id < 2 ^ 16
  pub size_16 : ef.size < 2 ^ 16
  pub stored : length ef.bytes ≡ ef.size
  pub octets : Octets ef.bytes
  pub read_with : ef.flags ≡ flags

pub Octets-encode_all :
    (flags : Flags) (efs : List ExtraField) → All (IsField flags) efs → Octets (encode_all efs)
Octets-encode_all flags [] w = tt
Octets-encode_all flags (ef ∷ efs) w =
    let digits : Octets (encode ef) =
      (omega arith, (omega arith, (omega arith, (omega arith, w.0.octets)))) in
    Octets-append (encode ef) (encode_all efs) digits (Octets-encode_all flags efs w.1)

pub length-encode_all : (efs : List ExtraField) → length efs ≤ length (encode_all efs)
length-encode_all [] = omega arith
length-encode_all (ef ∷ efs) =
    omega (arith, length-append ef.bytes (encode_all efs), length-encode_all efs)

pub Octets-replicate : (n : ℕ) → Octets (replicate n 0)
Octets-replicate zero = tt
Octets-replicate (suc n) = (omega arith, Octets-replicate n)
