-- ===== src/ExtraField/Merge.antt =====
-- `_zip_ef_merge`, `_zip_ef_remove_internal` and `_zip_ef_clone`: which fields a list carries.
use allvm_tools.ExtraField.{ExtraField, mark, duplicates, absorb, merge, merge_into}
use allvm_tools.Flags.{Flags, shares}
use allvm_tools.Base.{
  ℕ, [], ◌||◌, length, ◌≡◌, ◌∷◌, ◌&&◌, List, false, true, ◌==◌, same_bytes, ◌++◌, arith, Bool, refl,
  some, inl, take-eq_of_length, inr, eq-nil_of_length, sym, Bool-cases, ◌∙◌, All, take,
  same_bytes_iff, Option-cases, subst, none, ◌≢◌,
}

-- A field stores `size` bytes.
abbrev pub Stored : ExtraField → Type 0
Stored ef = length ef.bytes ≡ ef.size

abbrev matches : ExtraField → ℕ → List ℕ → Flags → Bool
matches ef id bytes flags = ef.id == id && same_bytes ef.bytes bytes && shares ef.flags flags

absorb-nil : (from : ExtraField) {to : List ExtraField} → absorb [] from ≢ some to
unfolding absorb
absorb-nil from e = cc

-- Some field of the list has this id and these bytes, in a header that `flags` names.
unfoldable pub carries : List ExtraField → ℕ → List ℕ → Flags → Bool
carries [] id bytes flags = false
carries (ef ∷ rest) id bytes flags = matches ef id bytes flags || carries rest id bytes flags

duplicates-inv :
    (tt from : ExtraField)
    → Stored tt
    → Stored from
    → duplicates tt from ≡ true
    → (tt.id ≡ from.id) × (tt.bytes ≡ from.bytes)
duplicates-inv tt from s s' d = elim (Bool-cases (tt.size == 0)) [
  | inl empty ↦ (
    ground arith,
    eq-nil_of_length tt.bytes (ground arith) ∙ sym (eq-nil_of_length from.bytes (ground arith)),
  )
  | inr some_bytes ↦
      let n = tt.size in
      let same : same_bytes (take n tt.bytes) (take n from.bytes) ≡ true = ground arith in
      let block : take n tt.bytes ≡ take n from.bytes =
        (same_bytes_iff (take n tt.bytes) (take n from.bytes)).0 same in
      (
        ground arith,
        sym (take-eq_of_length n tt.bytes s)
            ∙ block
            ∙ take-eq_of_length n from.bytes (ground arith),
      )
]

All-append : (xs ys : List ExtraField) → All Stored xs → All Stored ys → All Stored (xs ++ ys)
All-append [] ys s t = t
All-append (x ∷ xs) ys s t = (s.0, All-append xs ys s.1 t)

mark-Stored : (tt from : ExtraField) → Stored tt → Stored (mark tt from)
unfolding mark
mark-Stored tt from s = s

module _ (tt₁ : ExtraField) (to : List ExtraField) (from : ExtraField) where
  absorb-here : duplicates tt₁ from ≡ true → absorb (tt₁ ∷ to) from ≡ some (mark tt₁ from ∷ to)
  unfolding absorb
  absorb-here d = rw d

  absorb-nowhere :
      duplicates tt₁ from ≡ false → absorb to from ≡ none → absorb (tt₁ ∷ to) from ≡ none
  unfolding absorb
  absorb-nowhere d e = rw (d, e)

  absorb-later :
      {to₁ : List ExtraField}
      → duplicates tt₁ from ≡ false
      → absorb to from ≡ some to₁
      → absorb (tt₁ ∷ to) from ≡ some (tt₁ ∷ to₁)
  unfolding absorb
  absorb-later d e = rw (d, e)

module _ (id : ℕ) (bytes : List ℕ) (flags : Flags) where
  carries-append :
      (xs ys : List ExtraField)
      → carries (xs ++ ys) id bytes flags ≡ (carries xs id bytes flags || carries ys id bytes flags)
  unfolding carries
  carries-append [] ys = refl
  carries-append (x ∷ xs) ys = ground (arith, carries-append xs ys)

  -- A duplicate stands for the field that it takes the flags of.
  matches-mark :
      (tt from : ExtraField)
      → Stored tt
      → Stored from
      → duplicates tt from ≡ true
      → matches (mark tt from) id bytes flags
        ≡ (matches tt id bytes flags || matches from id bytes flags)
  unfolding mark
  matches-mark tt from s s' d =
      let same = duplicates-inv tt from s s' d in ground (arith, same.0, same.1)

  or_right : (a b c : Bool) → ((a || b) || c) ≡ ((a || c) || b)
  or_right true b c = refl
  or_right false true true = refl
  or_right false true false = refl
  or_right false false true = refl
  or_right false false false = refl

  or_assoc : (a b c : Bool) → (a || (b || c)) ≡ ((a || b) || c)
  or_assoc true b c = refl
  or_assoc false b c = refl

  -- Where a duplicate is found, its list carries what it did and the field.
  carries-absorb :
      (to : List ExtraField) (from : ExtraField) (to' : List ExtraField)
      → All Stored to
      → Stored from
      → absorb to from ≡ some to'
      → (carries to' id bytes flags ≡ (carries to id bytes flags || matches from id bytes flags))
        × All Stored to'
  unfolding carries
  carries-absorb [] from to' s s' e = absurd (absorb-nil from e)
  carries-absorb (tt₁ ∷ to) from to' s s' e = elim (Bool-cases (duplicates tt₁ from)) [
    | inl d ↦
        let found : mark tt₁ from ∷ to ≡ to' = cc (absorb-here tt₁ to from d) in
        subst
          (λ l.
            (carries l id bytes flags
              ≡ (carries (tt₁ ∷ to) id bytes flags || matches from id bytes flags))
            × All Stored l)
          found
          (
            rw (matches-mark tt₁ from s.0 s' d) (
                or_right (matches tt₁ id bytes flags) (matches from id bytes flags)
                  (carries to id bytes flags)),
            (mark-Stored tt₁ from s.0, s.1),
          )
    | inr d ↦ elim (Option-cases (absorb to from)) [
      | inl nowhere ↦ absurd (cc (absorb-nowhere tt₁ to from d nowhere))
      | inr (to₁, e₁) ↦
          let found : tt₁ ∷ to₁ ≡ to' = cc (absorb-later tt₁ to from d e₁) in
          let ih = carries-absorb to from to₁ s.1 s' e₁ in
          subst
            (λ l.
              (carries l id bytes flags
                ≡ (carries (tt₁ ∷ to) id bytes flags || matches from id bytes flags))
              × All Stored l)
            found
            (
              rw ih.0 (
                  or_assoc (matches tt₁ id bytes flags) (carries to id bytes flags)
                    (matches from id bytes flags)),
              (s.0, ih.1),
            )
    ]
  ]

  merge_into-carries :
      (to from : List ExtraField)
      → All Stored to
      → All Stored from
      → carries (merge_into to from) id bytes flags
        ≡ (carries to id bytes flags || carries from id bytes flags)
  unfolding merge_into carries
  merge_into-carries to [] s s' = ground arith
  merge_into-carries to (f ∷ from) s s' = elim (Option-cases (absorb to f)) [
    | inl nowhere ↦ rw nowhere (
        merge_into-carries (to ++ (f ∷ [])) from (All-append to (f ∷ []) s (s'.0, tt)) s'.1
        ∙ rw (carries-append to (f ∷ [])) (ground arith))
    | inr (to₁, e) ↦
        let (seen, s₁) = carries-absorb to f to₁ s s'.0 e in
        rw e (merge_into-carries to₁ from s₁ s'.1 ∙ rw seen (ground arith))
  ]

  -- A merge carries a field, in the headers that `flags` names, just where one of the lists does:
  -- no field is lost and none is made up, whether or not it was a duplicate.
  pub merge-carries :
      (to from : List ExtraField)
      → All Stored to
      → All Stored from
      → carries (merge to from) id bytes flags
        ≡ (carries to id bytes flags || carries from id bytes flags)
  unfolding merge carries
  merge-carries [] from s s' = refl
  merge-carries (ef ∷ to) from s s' = merge_into-carries (ef ∷ to) from s s'
