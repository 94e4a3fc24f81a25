-- ===== src/ExtraField/Internal.antt =====
-- `_zip_ef_remove_internal` hides the fields that the library manages itself; `_zip_ef_clone` copies.
use allvm_tools.ExtraField.Rounds.{new-eq}
use allvm_tools.Run.{err, er_noent, ok, >>=-ok}
use allvm_tools.ExtraField.Merge.{Stored}
use allvm_tools.Flags.{Flags}
use allvm_tools.ExtraField.{
  get_from, remove_internal, ExtraField, is_internal, get_by_id, clone, new,
}
use allvm_tools.Base.{
  ℕ, [], ◌∷◌, none, ◌≡◌, if◌then◌else◌, List, arith, length, take, ◌*◌, ap, take-eq_of_length, ◌∙◌,
  refl, ◌≤◌, ◌+◌, All,
}

get_from-remove_internal :
    (i : ℕ) (efs : List ExtraField) (id idx : ℕ) (flags : Flags)
    → get_from i (remove_internal efs) id idx flags
      ≡ (if is_internal id then none else get_from i efs id idx flags)
unfolding get_from remove_internal
get_from-remove_internal i [] id idx flags = ground arith
get_from-remove_internal i (ef ∷ efs) id idx flags = ground (
  arith,
  get_from-remove_internal i efs id idx flags,
  get_from-remove_internal (i + 1) efs id idx flags,
)

-- After `_zip_ef_remove_internal` an internal id is not found, and every other lookup is as before.
pub get_by_id-remove_internal :
    (efs : List ExtraField) (id idx : ℕ) (flags : Flags)
    → get_by_id (remove_internal efs) id idx flags
      ≡ (if is_internal id then err er_noent else get_by_id efs id idx flags)
unfolding get_by_id
get_by_id-remove_internal efs id idx flags =
    ground (arith, get_from-remove_internal 0 efs id idx flags)

-- With two allocations for each field `_zip_ef_clone` gives an equal list; it fails only for want
-- of memory.
pub clone-eq :
    (efs : List ExtraField) (mem : ℕ)
    → All Stored efs
    → 2 * length efs ≤ mem
    → (mem' : ℕ) × (clone efs mem ≡ ok (efs, mem')) × (mem ≤ mem' + 2 * length efs)
unfolding clone
clone-eq [] mem s h = (mem, refl, omega arith)
clone-eq (ef ∷ efs) mem s h =
    let (mem₁, made, used) = new-eq ef.id ef.size ef.bytes ef.flags mem (omega arith) in
    let (mem₂, rest, used') = clone-eq efs mem₁ s.1 (omega arith) in
    let bytes : take ef.size ef.bytes ≡ ef.bytes = take-eq_of_length ef.size ef.bytes s.0 in
    (
      mem₂,
      >>=-ok (new ef.id ef.size ef.bytes ef.flags) _
            (made ∙ ap (λ b. ok (record ef { bytes = b }, mem₁)) bytes)
          ∙ >>=-ok (clone efs) _ rest,
      omega arith,
    )
