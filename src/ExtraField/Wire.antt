-- ===== src/ExtraField/Wire.antt =====
-- Extra fields as bytes: `_zip_ef_parse` and `_zip_ef_write`.
use allvm_tools.ExtraField.{ExtraField, new, err}
use allvm_tools.Run.{
  Run, throw, er_internal, er_incons, er_memory, malloc, Result, ◌>>=◌, return, ok, er_ok,
}
use allvm_tools.Flags.{Flags, shares}
use allvm_tools.Buffer.{Buffer, left, get, eof, get_16, set_offset, put_16}
use allvm_tools.Base.{
  ℕ, leb, none, ◌&&◌, false, zero, ltb, replicate, [], suc, some, true, List, same_bytes, take, ◌∷◌,
  drop, Bool, if◌then◌else◌, ◌||◌,
}
use allvm_tools.Buffer

-- The loop of `_zip_ef_parse`. A round reads four bytes at least, so `fuel` above the number of
-- bytes left is never used up.
unfoldable pub parse_fields : ℕ → Buffer → Flags → Run (List ExtraField × Buffer)
parse_fields zero b flags mem = throw er_internal mem
parse_fields (suc fuel) b flags mem =
    let (fid, b₁) = get_16 b in
    let (flen, b₂) = get_16 b₁ in
    let (p, b₃) = get b₂ flen in
    let round : Result ((List ExtraField × Buffer) × ℕ) = elim p [
      | none ↦ err er_incons
      | some at ↦
          (new fid flen (drop at b₃.bytes) flags >>= λ ef.
          parse_fields fuel b₃ flags >>= λ r. return (ef ∷ r.0, r.1))
            mem
    ] in
    if b.ok && leb 4 (left b) then round else ok (([], b), mem)

-- The check of what stands behind the last field: at most three zero bytes.
unfoldable pub padding_fits : Buffer → Bool
padding_fits b =
    let glen = left b in
    let (p, b') = get b glen in
    eof b || elim p [
      | none ↦ false
      | some at ↦ ltb glen 4 && same_bytes (take glen (drop at b'.bytes)) (replicate glen 0)
    ]

-- `_zip_ef_parse` of `len` bytes at `src`.
unfoldable pub parse : List ℕ → ℕ → Flags → Run (List ExtraField)
parse src len flags mem = elim (malloc mem) [
  | err e ↦ err e
  | ok (_, mem₁) ↦ elim (Buffer.new none true (some src) len) [
    | none ↦ err er_memory
    | some b ↦ elim (parse_fields (suc len) b flags mem₁) [
      | err e ↦ err e
      | ok ((efs, b'), mem₂) ↦ if padding_fits b' then ok (efs, mem₂) else err er_incons
    ]
  ]
]

-- `_zip_ef_write`: `emit` is `_zip_write` of the bytes to the archive's source, which is passed on;
-- `room` is `malloc` in `_zip_buffer_new`, whose failure sets no error.
-- The four-byte array `b` is the buffer's memory throughout the loop.
module _ {ℓ} {S : Type ℓ} (emit : List ℕ → S → Result S) where
  unfoldable pub write_loop : Buffer → S → List ExtraField → Flags → Result S
  write_loop b s [] flags = ok s
  write_loop b s (ef ∷ rest) flags =
      let b₁ = (set_offset b 0).1 in
      let b₂ = (put_16 b₁ ef.id).1 in
      let b₃ = (put_16 b₂ ef.size).1 in
      let send : Result S = elim (emit (take 4 b₃.bytes) s) [
        | err e ↦ err e
        | ok s₁ ↦ elim (if ltb 0 ef.size then emit (take ef.size ef.bytes) s₁ else ok s₁) [
          | err e ↦ err e
          | ok s₂ ↦ write_loop b₃ s₂ rest flags
        ]
      ] in
      let skipped = write_loop b s rest flags in
      if shares ef.flags flags then (if b₃.ok then send else err er_internal) else skipped

  unfoldable pub write : Bool → S → List ExtraField → Flags → Result S
  write room s efs flags =
      let scratch : List ℕ = 0 ∷ 0 ∷ 0 ∷ 0 ∷ [] in
      elim (Buffer.new none room (some scratch) 4) [
        | none ↦ err er_ok
        | some b ↦ write_loop b s efs flags
      ]
