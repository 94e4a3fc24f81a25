-- ===== src/ExtraField/Write.antt =====
-- `_zip_ef_write` and `_zip_ef_size`: the fields that belong in a header, in the wire format.
use allvm_tools.ExtraField.Complete.{parse-encode}
use allvm_tools.ExtraField.Format.{encode_all, IsField}
use allvm_tools.ExtraField.Wire.{write_loop, write, parse}
use allvm_tools.ExtraField.Merge.{Stored}
use allvm_tools.Flags.{Flags, shares}
use allvm_tools.Buffer.{put_16, set_offset, put, get, peek, Buffer}
use allvm_tools.Run.{Result, ok}
use allvm_tools.ExtraField.{ExtraField, size_from, size_of}
use allvm_tools.Base.{
  ℕ, ◌/◌, ◌++◌, take, if◌then◌else◌, ◌^◌, [], ◌≡◌, ◌%◌, true, List, ◌∷◌, inl, take-eq_of_length,
  arith, inr, Bool, Bool-cases, refl, false, eq-nil_of_length, All, append-nil, ltb, ◌≤◌, ◌*◌, ap,
  length-append, ◌<◌, ◌∙◌, ◌+◌, ◌||◌, append_assoc, length, subst,
}
use allvm_tools.Buffer

-- The fields that `flags` names.
unfoldable pub selected : List ExtraField → Flags → List ExtraField
selected [] flags = []
selected (ef ∷ efs) flags =
    let rest = selected efs flags in if shares ef.flags flags then ef ∷ rest else rest

-- A sink that takes every byte, for `_zip_write`.
abbrev pub collect : List ℕ → List ℕ → Result (List ℕ)
collect bytes out = ok (out ++ bytes)

-- The four-byte buffer of `_zip_ef_write`.
abbrev scratch : Bool → ℕ → ℕ → ℕ → ℕ → ℕ → Buffer
scratch good offset b₀ b₁ b₂ b₃ = record {
  ok = good;
  free_data = false;
  bytes = b₀ ∷ b₁ ∷ b₂ ∷ b₃ ∷ [];
  size = 4;
  offset = offset;
}

module _ (good : Bool) (offset b₀ b₁ b₂ b₃ : ℕ) where
  -- An id and a size fill it, whatever was in it.
  refill :
      (id size : ℕ)
      → (put_16 (put_16 (set_offset (scratch good offset b₀ b₁ b₂ b₃) 0).1 id).1 size).1
        ≡ scratch true 4 (id % 2 ^ 8) (id / 2 ^ 8 % 2 ^ 8) (size % 2 ^ 8) (size / 2 ^ 8 % 2 ^ 8)
  unfolding put_16 set_offset
  refill id size = refl

  -- The block behind the header, which is not sent if it is empty.
  send_block :
      (ef : ExtraField) (out : List ℕ)
      → Stored ef
      → (if ltb 0 ef.size then collect (take ef.size ef.bytes) out else ok out)
        ≡ ok (out ++ ef.bytes)
  send_block ef out s = elim (Bool-cases (ltb 0 ef.size)) [
    | inl more ↦ rw (more, take-eq_of_length ef.size ef.bytes s)
    | inr none_left ↦ rw (none_left, eq-nil_of_length ef.bytes (ground arith), append-nil)
  ]

write_loop-collect :
    (efs : List ExtraField) (flags : Flags) (out : List ℕ) (good : Bool) (offset b₀ b₁ b₂ b₃ : ℕ)
    → All Stored efs
    → write_loop collect (scratch good offset b₀ b₁ b₂ b₃) out efs flags
      ≡ ok (out ++ encode_all (selected efs flags))
unfolding write_loop selected
write_loop-collect [] flags out good offset b₀ b₁ b₂ b₃ s = rw append-nil
write_loop-collect (ef ∷ efs) flags out good offset b₀ b₁ b₂ b₃ s =
    elim (Bool-cases (shares ef.flags flags)) [
      | inr skipped ↦ rw skipped (write_loop-collect efs flags out good offset b₀ b₁ b₂ b₃ s.1)
      | inl sent ↦
          let w₀ : ℕ = ef.id % 2 ^ 8 in
          let w₁ : ℕ = ef.id / 2 ^ 8 % 2 ^ 8 in
          let w₂ : ℕ = ef.size % 2 ^ 8 in
          let w₃ : ℕ = ef.size / 2 ^ 8 % 2 ^ 8 in
          let next = refill good offset b₀ b₁ b₂ b₃ ef.id ef.size in
          let head = w₀ ∷ w₁ ∷ w₂ ∷ w₃ ∷ [] in
          let later = selected efs flags in
          let ih = λ (sent_so_far : List ℕ).
            write_loop-collect efs flags sent_so_far true 4 w₀ w₁ w₂ w₃ s.1 in
          elim (Bool-cases (ltb 0 ef.size)) [
            | inl more ↦
                rw (sent, next, more, take-eq_of_length ef.size ef.bytes s.0, next)
                  (ih ((out ++ head) ++ ef.bytes)
                    ∙ ap (λ l. ok l)
                        (append_assoc (out ++ head) ef.bytes (encode_all later)
                          ∙ append_assoc out head (ef.bytes ++ encode_all later)))
            | inr none_left ↦
                let empty = eq-nil_of_length ef.bytes (ground arith) in
                rw (sent, next, none_left, next)
                  (ih (out ++ head)
                    ∙ ap (λ l. ok l) (append_assoc out head (encode_all later) ∙ rw empty refl))
          ]
    ]

-- With memory, into a sink that takes all bytes, `_zip_ef_write` writes the fields that `flags` names, in order,
-- in the wire format.
pub write-collect :
    (efs : List ExtraField) (flags : Flags) (out : List ℕ)
    → All Stored efs
    → write collect true out efs flags ≡ ok (out ++ encode_all (selected efs flags))
unfolding write Buffer.new
write-collect efs flags out s = write_loop-collect efs flags out true 0 0 0 0 0 s

size_from-eq :
    (n : ℕ) (flags : Flags) (efs : List ExtraField)
    → n < 2 ^ 16
    → All Stored efs
    → size_from n flags efs ≡ (n + length (encode_all (selected efs flags))) % 2 ^ 16
unfolding size_from selected
size_from-eq n flags [] h s = omega arith
size_from-eq n flags (ef ∷ efs) h s = elim (Bool-cases (shares ef.flags flags)) [
  | inl sent ↦ rw sent (
      omega (
        arith,
        size_from-eq ((n + 4 + ef.size) % 2 ^ 16) flags efs (omega arith) s.1,
        length-append ef.bytes (encode_all (selected efs flags)),
        s.0,
      ))
  | inr skipped ↦ rw skipped (size_from-eq n flags efs h s.1)
]

-- `_zip_ef_size` is the number of bytes that `_zip_ef_write` sends, modulo 2 ^ 16.
pub size_of-write :
    (efs : List ExtraField) (flags : Flags) {out : List ℕ}
    → All Stored efs
    → write collect true [] efs flags ≡ ok out
    → size_of efs flags ≡ length out % 2 ^ 16
unfolding size_of
size_of-write efs flags {out} s e =
    let same : encode_all (selected efs flags) ≡ out = cc (write-collect efs flags [] s) in
    size_from-eq 0 flags efs (omega arith) s ∙ rw same (omega arith)

selected-IsField :
    (efs : List ExtraField) (flags : Flags)
    → All (IsField flags) efs
    → (flags.on_local || flags.central) ≡ true
    → selected efs flags ≡ efs
unfolding selected
selected-IsField [] flags w shown = refl
selected-IsField (ef ∷ efs) flags w shown =
    let same : ef.flags ≡ flags = w.0.read_with in
    let sent : shares ef.flags flags ≡ true = ground arith in
    rw sent (ap (λ l. ef ∷ l) (selected-IsField efs flags w.1 shown))

All-Stored : (efs : List ExtraField) (flags : Flags) → All (IsField flags) efs → All Stored efs
All-Stored [] flags w = tt
All-Stored (ef ∷ efs) flags w = (w.0.stored, All-Stored efs flags w.1)

-- With memory, writing fields that were all read with `flags` (for one header at least) and that take
-- less than 2 ^ 16 bytes to a source that takes every byte succeeds, and parsing what was written with
-- those flags gives the same fields.
pub parse-write :
    (efs : List ExtraField) (flags : Flags) (mem : ℕ)
    → All (IsField flags) efs
    → (flags.on_local || flags.central) ≡ true
    → length (encode_all efs) < 2 ^ 16
    → 2 * length efs + 1 ≤ mem
    → (out : List ℕ) × (mem' : ℕ) × (write collect true [] efs flags ≡ ok out)
      × (parse out (length out) flags mem ≡ ok (efs, mem'))
parse-write efs flags mem w shown short room =
    let all = selected-IsField efs flags w shown in
    let sent = write-collect efs flags [] (All-Stored efs flags w) in
    let (mem', parsed) = parse-encode efs flags 0 mem w (omega arith) (omega arith) room in
    let bare : encode_all efs ++ [] ≡ encode_all efs = append-nil (encode_all efs) in
    (
      encode_all efs,
      mem',
      sent ∙ ap (λ l. ok (encode_all l)) all,
      subst (λ l. parse l (length l) flags mem ≡ ok (efs, mem')) bare parsed,
    )
