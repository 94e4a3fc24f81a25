-- ===== src/ExtraField/Sound.antt =====
-- What `_zip_ef_parse` accepts is in the wire format.
use allvm_tools.ExtraField.Rounds.{round_short, padding-inv, round, stop, new-inv}
use allvm_tools.ExtraField.Format.{encode_all, encode, IsField}
use allvm_tools.Run.{ok, Result, >>=-inv, err}
use allvm_tools.Buffer.At.{At, Octets-At, At-new}
use allvm_tools.ExtraField.{ExtraField, new}
use allvm_tools.Buffer.{Buffer}
use allvm_tools.ExtraField.Wire.{parse_fields, parse, padding_fits}
use allvm_tools.Flags.{Flags}
use native.Mathlib.Decide.{dec_lt}
use allvm_tools.Base.{
  ℕ, All, true, suc, append_assoc, length-take, Octets-take, ◌∙◌, sym, replicate, subst, ◌≡◌, ◌≤◌,
  zero, ◌≢◌, ◌*◌, refl, drop, ◌++◌, ◌^◌, arith, [], length, ◌+◌, ◌∷◌, take-append-drop, Octets, ap,
  some, none, List, ◌<◌,
}
use allvm_tools.Buffer

dry :
    (b : Buffer) (flags : Flags) (mem : ℕ) {r : (List ExtraField × Buffer) × ℕ}
    → parse_fields zero b flags mem ≢ ok r
unfolding parse_fields
dry b flags mem e = cc

module _ (src : List ℕ) (len : ℕ) (flags : Flags) where
  no_memory : {r : List ExtraField × ℕ} → parse src len flags zero ≢ ok r
  unfolding parse
  no_memory e = cc

  parse-inv :
      (mem : ℕ) {b : Buffer} {efs : List ExtraField} {mem' : ℕ}
      → Buffer.new none true (some src) len ≡ some b
      → parse src len flags (suc mem) ≡ ok (efs, mem')
      → (b' : Buffer) × (parse_fields (suc len) b flags mem ≡ ok ((efs, b'), mem'))
        × (padding_fits b' ≡ true)
  unfolding parse
  parse-inv mem {b} {efs} {mem'} made e = go (parse_fields (suc len) b flags mem) refl
    where
      go :
          (r : Result ((List ExtraField × Buffer) × ℕ))
          → parse_fields (suc len) b flags mem ≡ r
          → (b' : Buffer) × (parse_fields (suc len) b flags mem ≡ ok ((efs, b'), mem'))
            × (padding_fits b' ≡ true)
      go (err c) read = absurd (ground arith)
      go (ok ((efs₁, b'), mem₁)) read = (b', ground arith, ground arith)

-- The bytes `xs` are fields, read with `flags`, and what the buffer stands before.
abbrev Read : Flags → List ℕ → List ExtraField × Buffer → Type 0
Read flags xs (efs, b') =
    (rest : List ℕ) × (xs ≡ encode_all efs ++ rest)
    × All (IsField flags) efs
    × At b' rest
    × (length rest < 4)

IsField-inv :
    (flags : Flags) (mem w x y z : ℕ) (r : List ℕ) {ef : ExtraField} {mem' : ℕ}
    → Octets (w ∷ x ∷ y ∷ z ∷ r)
    → y + 256 * z ≤ length r
    → new (w + 256 * x) (y + 256 * z) r flags mem ≡ ok (ef, mem')
    → (w ∷ x ∷ y ∷ z ∷ r ≡ encode ef ++ drop (y + 256 * z) r) × IsField flags ef
IsField-inv flags mem w x y z r {ef} {mem'} o h e =
    let size : ℕ = y + 256 * z in
    let f = new-inv (w + 256 * x) size r flags mem e in
    rw (f, take-append-drop size r)
      (
        ground arith,
        record {
          id_16 = omega arith;
          size_16 = omega arith;
          stored = length-take size r ∙ omega arith;
          octets = Octets-take size r o.1.1.1.1;
          read_with = refl;
        },
      )

module _ (flags : Flags) (mem w x y z : ℕ) (r : List ℕ) where
  extend :
      {ef : ExtraField} {mem₁ : ℕ} (q₁ q : List ExtraField × Buffer)
      → Octets (w ∷ x ∷ y ∷ z ∷ r)
      → y + 256 * z ≤ length r
      → new (w + 256 * x) (y + 256 * z) r flags mem ≡ ok (ef, mem₁)
      → Read flags (drop (y + 256 * z) r) q₁
      → (ef ∷ q₁.0, q₁.1) ≡ q
      → Read flags (w ∷ x ∷ y ∷ z ∷ r) q
  extend {ef} (efs, b₁) q o h made (rest, split, fields, p, short) same =
      let (joined, field) = IsField-inv flags mem w x y z r o h made in
      subst (Read flags (w ∷ x ∷ y ∷ z ∷ r)) same (
        rest,
        joined
            ∙ ap (λ l. encode ef ++ l) split
            ∙ sym (append_assoc (encode ef) (encode_all efs) rest),
        (field, fields),
        p,
        short,
      )

-- What the loop has read, when it ends without an error.
fields_sound :
    (flags : Flags) (fuel mem : ℕ) (xs : List ℕ) {b : Buffer} (q : List ExtraField × Buffer)
    {mem' : ℕ}
    → At b xs
    → parse_fields fuel b flags mem ≡ ok (q, mem')
    → Read flags xs q
fields_sound flags zero mem xs {b} q {mem'} p e = absurd (dry b flags mem e)
fields_sound flags (suc fuel) mem (w ∷ x ∷ y ∷ z ∷ r) q p e =
    let size : ℕ = y + 256 * z in
    let o = Octets-At p in
    elim (dec_lt (length r) size) [
      | yes short ↦ cc (round_short fuel flags mem w x y z r p short)
      | no long ↦
          let fit : size ≤ length r = omega arith in
          let (b₁, p₁, e₁) = round fuel flags mem w x y z r p fit in
          let (ef, mem₁, made, e₂) = >>=-inv (new (w + 256 * x) size r flags) _ (sym e₁ ∙ e) in
          let (q₁, mem₂, e₃, last) = >>=-inv (parse_fields fuel b₁ flags) _ e₂ in
          extend flags mem w x y z r q₁ q o fit made
            (fields_sound flags fuel mem₁ (drop size r) q₁ p₁ e₃) (cc last)
    ]
fields_sound flags (suc fuel) mem xs {b} q p e =
    let same : ([], b) ≡ q = cc (stop fuel flags mem xs p (omega arith)) in
    subst (Read flags xs) same (xs, refl, tt, p, omega arith)

-- Whatever `_zip_ef_parse` accepts is a row of fields and at most three zero bytes of padding, and
-- the fields that it returns are those.
pub parse_sound :
    (src : List ℕ) (flags : Flags) (mem : ℕ) {efs : List ExtraField} {mem' : ℕ}
    → Octets src
    → length src < 2 ^ 16
    → parse src (length src) flags mem ≡ ok (efs, mem')
    → (n : ℕ) × (n < 4) × (src ≡ encode_all efs ++ replicate n 0) × All (IsField flags) efs
parse_sound src flags zero o h e = absurd (no_memory src (length src) flags e)
parse_sound src flags (suc mem) {efs} {mem'} o h e =
    let (b, made, p) = At-new src (length src) refl (omega arith) o in
    let (b', e₁, fits) = parse-inv src (length src) flags mem made e in
    let (rest, split, fields, p', short) =
      fields_sound flags (suc (length src)) mem src (efs, b') p e₁ in
    let zero_rest = padding-inv rest p' fits in
    (length rest, short, split ∙ ap (λ l. encode_all efs ++ l) zero_rest, fields)
