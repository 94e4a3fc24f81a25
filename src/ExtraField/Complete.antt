-- ===== src/ExtraField/Complete.antt =====
-- `_zip_ef_parse` reads back what is in the wire format.
use allvm_tools.ExtraField.Rounds.{stop, round, new-eq, padding-replicate}
use allvm_tools.Run.{ok, >>=-ok}
use allvm_tools.Buffer.At.{At, At-new}
use allvm_tools.ExtraField.Wire.{parse, parse_fields, padding_fits}
use allvm_tools.Buffer.{Buffer}
use allvm_tools.ExtraField.Format.{
  IsField, encode_all, Octets-encode_all, Octets-replicate, length-encode_all,
}
use allvm_tools.ExtraField.{ExtraField, new}
use allvm_tools.Flags.{Flags}
use allvm_tools.Base.{
  ℕ, All, true, suc, append_assoc, length-replicate, ◌%◌, ◌∙◌, replicate, subst, take-append, ◌≡◌,
  ◌≤◌, zero, Octets-append, ◌*◌, drop-append, refl, drop, ◌++◌, ◌^◌, ◌/◌, arith, [], length, ◌+◌,
  ◌∷◌, length-append, take, ap, some, none, List, ◌<◌,
}
use allvm_tools.Buffer

-- The loop reads back encoded fields, and stops before what follows them.
fields-encode :
    (efs : List ExtraField) (flags : Flags) (pad : List ℕ) (fuel mem : ℕ) {b : Buffer}
    → All (IsField flags) efs
    → length pad < 4
    → length efs < fuel
    → 2 * length efs ≤ mem
    → At b (encode_all efs ++ pad)
    → (b' : Buffer) × (mem' : ℕ) × (parse_fields fuel b flags mem ≡ ok ((efs, b'), mem'))
      × At b' pad
fields-encode [] flags pad (suc fuel) mem {b} w h f m p = (b, mem, stop fuel flags mem pad p h, p)
fields-encode (ef ∷ efs) flags pad (suc fuel) mem {b} w h f m p =
    let v = w.0 in
    let r : List ℕ = (ef.bytes ++ encode_all efs) ++ pad in
    let size : ℕ = ef.size % 2 ^ 8 + 256 * (ef.size / 2 ^ 8 % 2 ^ 8) in
    let id : ℕ = ef.id % 2 ^ 8 + 256 * (ef.id / 2 ^ 8 % 2 ^ 8) in
    let sized : size ≡ length ef.bytes = omega arith in
    let split : r ≡ ef.bytes ++ (encode_all efs ++ pad) =
      append_assoc ef.bytes (encode_all efs) pad in
    let block : take size r ≡ ef.bytes =
      rw (sized, split) (take-append ef.bytes (encode_all efs ++ pad)) in
    let after : drop size r ≡ encode_all efs ++ pad =
      rw (sized, split) (drop-append ef.bytes (encode_all efs ++ pad)) in
    let fit : size ≤ length r =
      rw split (omega (arith, length-append ef.bytes (encode_all efs ++ pad))) in
    let (b₁, p₁, e₁) = round fuel flags mem _ _ _ _ r p fit in
    let (mem₁, made, left_over) = new-eq id size r flags mem (omega arith) in
    let whole : record { flags = flags; id = id; size = size; bytes = take size r } ≡ ef =
      ground (arith, block) in
    let (b₂, mem₂, e₂, p₂) =
      fields-encode efs flags pad fuel mem₁ w.1 h (omega arith) (omega arith)
        (subst (At b₁) after p₁) in
    (
      b₂,
      mem₂,
      e₁
          ∙ >>=-ok (new id size r flags) _ (made ∙ ap (λ f. ok (f, mem₁)) whole)
          ∙ >>=-ok (parse_fields fuel b₁ flags) _ e₂,
      p₂,
    )
fields-encode efs flags pad zero mem w h f m p = absurd (omega arith)

module _ (src : List ℕ) (len : ℕ) (flags : Flags) (mem : ℕ) {b : Buffer} where
  parse-eq :
      {b' : Buffer} {efs : List ExtraField} {mem' : ℕ}
      → Buffer.new none true (some src) len ≡ some b
      → parse_fields (suc len) b flags mem ≡ ok ((efs, b'), mem')
      → padding_fits b' ≡ true
      → parse src len flags (suc mem) ≡ ok (efs, mem')
  unfolding parse
  parse-eq made read fits = ground arith

-- Encoded fields, and at most three zero bytes of padding, are parsed back to those fields, if
-- memory suffices (`_zip_ef_parse` then cannot fail).
pub parse-encode :
    (efs : List ExtraField) (flags : Flags) (n mem : ℕ)
    → All (IsField flags) efs
    → n < 4
    → length (encode_all efs) + n < 2 ^ 16
    → 2 * length efs + 1 ≤ mem
    → let wire = encode_all efs ++ replicate n 0 in
      (mem' : ℕ) × (parse wire (length wire) flags mem ≡ ok (efs, mem'))
parse-encode efs flags n zero w small short room = absurd (omega arith)
parse-encode efs flags n (suc mem) w small short room =
    let wire = encode_all efs ++ replicate n 0 in
    let total = length-append (encode_all efs) (replicate n 0) in
    let pad : length {A = ℕ} (replicate n 0) ≡ n = length-replicate n 0 in
    let (b, made, p) =
      At-new wire (length wire) refl (omega arith)
        (Octets-append _ _ (Octets-encode_all flags efs w) (Octets-replicate n)) in
    let (b', mem', e, p') =
      fields-encode efs flags (replicate n 0) (suc (length wire)) mem w (omega arith)
        (omega (arith, length-encode_all efs)) (omega arith) p in
    (mem', parse-eq wire (length wire) flags mem made e (padding-replicate n small p'))
