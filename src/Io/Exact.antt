-- ===== src/Io/Exact.antt =====
-- Whole reads of a source that reads from a sequence of bytes.
use allvm_tools.Io.{Source, Code, blank, er_eof}
use allvm_tools.Source.Calls.Stream.{Stream, Readable}
use allvm_tools.Base.{
  ℕ, ltb, List, if◌then◌else◌, ◌≡◌, some, drop, Bool, ◌++◌, length, none, ◌∷◌, [], map, take,
  Option,
}

-- What a whole read of `len` bytes is to give: all of them or nothing.
abbrev pub Whole {ℓ} :
    {U : Type ℓ}
    → (U → List ℕ)
    → Source U
    → ℕ
    → Bool
    → Option (List ℕ)
    → Option Code
    → Source U
    → Type 0
Whole rest s len nulp data' e t =
    let bytes = take len (rest s.ud) in
    let short = ltb (length (rest s.ud)) len in
    (data' ≡ (if short then none else some (if nulp then map blank bytes ++ 0 ∷ [] else bytes)))
    × (e ≡ (if short then some er_eof else none))
    × (rest t.ud ≡ drop len (rest s.ud))
    × Readable rest t
