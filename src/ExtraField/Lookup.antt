-- ===== src/ExtraField/Lookup.antt =====
-- `_zip_ef_get_by_id` after `_zip_ef_delete_by_id`, `_zip_ef_merge` and `_zip_ef_remove_internal`.
use allvm_tools.Run.{err, er_noent}
use allvm_tools.ExtraField.{
  get_by_id, delete_by_id, delete_from, all_fields, fate, Fate, selects, keep_on, keep_stop,
  drop_on, drop_stop, counted, get_from, ExtraField, clear,
}
use allvm_tools.Flags.{Flags, shares}
use allvm_tools.Base.{
  ℕ, [], List, refl, not, ◌≢◌, ◌≡◌, ◌+◌, arith, length, false, ◌<◌, ◌∷◌, ◌||◌, ◌&&◌, none, ◌^◌, ◌≤◌,
  ◌==◌, inl, Bool-cases, inr, ltb, ◌⊎◌, if◌then◌else◌, sym, ◌∙◌, Bool, true,
}

-- `flags` asks for no header that `within` does not name.
abbrev pub Covered : Flags → Flags → Type 0
Covered flags within =
    ((flags.on_local && not within.on_local) ≡ false)
    × ((flags.central && not within.central) ≡ false)

shares-clear :
    (ef : ExtraField) (flags within : Flags)
    → Covered flags within
    → shares (clear ef within).flags flags ≡ false
unfolding clear
shares-clear ef flags within c = ground arith

-- A field that went is visible through no header that was named.
shares-cleared_out :
    (ef : ExtraField) (flags within : Flags)
    → ((clear ef within).flags.on_local || (clear ef within).flags.central) ≡ false
    → shares (clear ef within).flags flags ≡ false
shares-cleared_out ef flags within c = ground arith

-- What `fate` makes of a field is not found, and the loop goes on.
abbrev Hides : Flags → ℕ → ℕ → Fate → Type 0
Hides flags id i drop_on = Unit
Hides flags id i drop_stop = ⊥
Hides flags id i (keep_on ef j) = ((ef.id == id && shares ef.flags flags) ≡ false) × (j ≤ i + 1)
Hides flags id i (keep_stop ef) = ⊥

fate-Hides :
    (i : ℕ) (ef : ExtraField) (id : ℕ) (flags within : Flags)
    → Covered flags within
    → i + 1 < 2 ^ 16
    → Hides flags id i (fate i ef id all_fields within)
unfolding fate clear
fate-Hides i ef id flags within c h = elim (Bool-cases (selects ef id within)) [
  | inr left ↦ rw left (ground arith)
  | inl chosen ↦
      let f = (clear ef within).flags in
      rw chosen (elim (Bool-cases (f.on_local || f.central)) [
        | inr gone ↦ rw gone tt
        | inl some_left ↦
            let on : ltb all_fields (i + 1) ≡ false = ground arith in
            rw (some_left, on) (ground (arith, shares-clear ef flags within c))
      ])
]

get_from-deleted :
    (i j : ℕ) (efs : List ExtraField) (id idx : ℕ) (flags within : Flags)
    → Covered flags within
    → j + length efs < 2 ^ 16
    → get_from i (delete_from j efs id all_fields within) id idx flags ≡ none
unfolding delete_from get_from
get_from-deleted i j [] id idx flags within c h = refl
get_from-deleted i j (ef ∷ efs) id idx flags within c h =
    go (fate j ef id all_fields within) (fate-Hides j ef id flags within c (omega arith))
      (λ k le. get_from-deleted i k efs id idx flags within c (omega arith))
  where
    go :
        (v : Fate)
        → Hides flags id j v
        → ((k : ℕ)
            → k ≤ j + 1
            → get_from i (delete_from k efs id all_fields within) id idx flags ≡ none)
        → get_from i
            (elim v as (λ _. List ExtraField) [
              | drop_on ↦ delete_from j efs id all_fields within
              | drop_stop ↦ efs
              | keep_on ef' i' ↦ ef' ∷ delete_from i' efs id all_fields within
              | keep_stop ef' ↦ ef' ∷ efs
            ])
            id
            idx
            flags
          ≡ none
    go drop_on hides ih = ih j (omega arith)
    go drop_stop hides ih = absurd hides
    go (keep_on ef' i') hides ih = rw hides.0 (ih i' hides.1)
    go (keep_stop ef') hides ih = absurd hides

-- After all fields with an id were deleted from some headers, none is found there.
pub get_by_id-delete_by_id :
    (efs : List ExtraField) (id idx : ℕ) (flags within : Flags)
    → Covered flags within
    → length efs < 2 ^ 16
    → get_by_id (delete_by_id efs id all_fields within) id idx flags ≡ err er_noent
unfolding get_by_id delete_by_id
get_by_id-delete_by_id efs id idx flags within c h =
    rw (get_by_id, get_from-deleted 0 0 efs id idx flags within c (omega arith))

-- A field that stays has its id, and one that is taken out or stops the loop has the id `id`.
abbrev Concerns : ExtraField → ℕ → Fate → Type 0
Concerns ef id drop_on = ef.id ≡ id
Concerns ef id drop_stop = ef.id ≡ id
Concerns ef id (keep_on ef' i') = (ef'.id ≡ ef.id) × ((ef.id ≡ id) ⊎ (ef' ≡ ef))
Concerns ef id (keep_stop ef') = (ef'.id ≡ ef.id) × (ef.id ≡ id)

Concerns-if :
    (ef : ExtraField) (id : ℕ) (t : Bool) (u v : Fate)
    → Concerns ef id u
    → Concerns ef id v
    → Concerns ef id (if t then u else v)
Concerns-if ef id true u v p q = p
Concerns-if ef id false u v p q = q

fate-Concerns :
    (i : ℕ) (ef : ExtraField) (id idx : ℕ) (within : Flags)
    → id ≢ all_fields
    → Concerns ef id (fate i ef id idx within)
unfolding fate clear
fate-Concerns i ef id idx within one = elim (Bool-cases (selects ef id within)) [
  | inr left ↦ rw left (refl, inr refl)
  | inl chosen ↦
      let same : ef.id ≡ id = ground arith in
      let c = clear ef within in
      let ends : Fate = if idx == all_fields then drop_on else drop_stop in
      rw chosen (
        Concerns-if ef id (idx == all_fields || i == idx)
          (if c.flags.on_local || c.flags.central then counted c i idx else ends) (counted ef i idx)
          (Concerns-if ef id (c.flags.on_local || c.flags.central) (counted c i idx) ends
            (Concerns-if ef id (ltb idx (i + 1)) (keep_stop c) (keep_on c (i + 1)) (refl, same)
              (refl, inl same))
            (Concerns-if ef id (idx == all_fields) drop_on drop_stop same same))
          (Concerns-if ef id (ltb idx (i + 1)) (keep_stop ef) (keep_on ef (i + 1)) (refl, same)
            (refl, inl same)))
]

module _ (other idx : ℕ) (flags : Flags) where
  skip :
      (i : ℕ) (ef : ExtraField) (efs : List ExtraField)
      → ef.id ≢ other
      → get_from i (ef ∷ efs) other idx flags ≡ get_from i efs other idx flags
  unfolding get_from
  skip i ef efs ne = ground arith

  get_from-cons :
      (i : ℕ) (ef : ExtraField) (xs ys : List ExtraField)
      → ((k : ℕ) → get_from k xs other idx flags ≡ get_from k ys other idx flags)
      → get_from i (ef ∷ xs) other idx flags ≡ get_from i (ef ∷ ys) other idx flags
  unfolding get_from
  get_from-cons i ef xs ys h = rw (h i, h (i + 1))

  module _ (id at : ℕ) (within : Flags) where
    get_from-kept :
        (i j : ℕ) (efs : List ExtraField)
        → other ≢ id
        → id ≢ all_fields
        → get_from i (delete_from j efs id at within) other idx flags
          ≡ get_from i efs other idx flags
    unfolding delete_from
    get_from-kept i j [] ne one = refl
    get_from-kept i j (ef ∷ efs) ne one =
        go (fate j ef id at within) (fate-Concerns j ef id at within one)
          (λ k l. get_from-kept k l efs ne one)
      where
        go :
            (v : Fate)
            → Concerns ef id v
            → ((k l : ℕ)
                → get_from k (delete_from l efs id at within) other idx flags
                  ≡ get_from k efs other idx flags)
            → get_from i
                (elim v as (λ _. List ExtraField) [
                  | drop_on ↦ delete_from j efs id at within
                  | drop_stop ↦ efs
                  | keep_on ef' i' ↦ ef' ∷ delete_from i' efs id at within
                  | keep_stop ef' ↦ ef' ∷ efs
                ])
                other
                idx
                flags
              ≡ get_from i (ef ∷ efs) other idx flags
        go drop_on c ih = ih i j ∙ sym (skip i ef efs (ground arith))
        go drop_stop c ih = sym (skip i ef efs (ground arith))
        go (keep_stop ef') c ih = skip i ef' efs (ground arith) ∙ sym (skip i ef efs (ground arith))
        go (keep_on ef' i') (same, inl e) ih =
            skip i ef' _ (ground arith) ∙ ih i i' ∙ sym (skip i ef efs (ground arith))
        go (keep_on ef' i') (same, inr e) ih = rw e (get_from-cons i ef _ _ (λ k. ih k i'))

    -- Deleting fields of one id, at any index, leaves the lookups of every other id as they were.
    pub get_by_id-delete_by_id_ne :
        (efs : List ExtraField)
        → other ≢ id
        → id ≢ all_fields
        → get_by_id (delete_by_id efs id at within) other idx flags ≡ get_by_id efs other idx flags
    unfolding get_by_id delete_by_id
    get_by_id-delete_by_id_ne efs ne one = rw (get_by_id, get_from-kept 0 0 efs ne one)
