-- ===== src/Archive/Moves.antt =====
-- A name that takes the place of another in the table of names.
use allvm_tools.Hash.Add.{taken, given_index, add-refines}
use allvm_tools.Archive.Naming.{move_name}
use allvm_tools.Hash.Delete.{delete-refines}
use allvm_tools.Flags.{no_flags}
use allvm_tools.Hash.Remove.{delete}
use allvm_tools.Run.{Code, er_exists}
use allvm_tools.Archive.Inv.{current}
use allvm_tools.Hash.Map.{roomy, indices}
use allvm_tools.Hash.Insert.{add}
use allvm_tools.Archive.{Room, Result, err, ok}
use allvm_tools.Hash.{Hash}
use allvm_tools.Base.{
  ℕ, ◌≡◌, none, true, some, same_bytes, ◌≢◌, List, Option, ◌<◌, ◌+◌, if◌then◌else◌, ◌^◌, ◌⊎◌, inl,
  not, refl, ◌&&◌, Bool-cases, ◌∙◌, inr, false, ap, Bool, same_bytes_iff, sym, subst,
}
use allvm_tools.Hash.Inv

-- What the table holds after a new name was put in for `idx`, and the old one taken out.
abbrev pub Moved : ℕ → List ℕ → Option (List ℕ) → Hash → Result (Unit {0}) × Hash → Type 0
Moved idx new old names (r, names') =
    Inv.IsValid names'
    × (((c : Code) × (r ≡ err c) × ((name : List ℕ) → current names' name ≡ current names name))
        ⊎ ((r ≡ ok tt)
            × ((name : List ℕ) (i : ℕ)
                → current names' name ≡ some i
                → (old ≢ some name) × (((name ≡ new) × (i ≡ idx)) ⊎ (current names name ≡ some i)))
            × ((old ≡ some new) ⊎ (current names' new ≡ some idx))))

-- The room of an operation that has all the memory it asks for.
abbrev pub Roomy : Room → Type 0
Roomy room =
    (junk : Option ℕ) × (fresh : List ℕ) × (room ≡ record {
      string = true;
      raw = true;
      text = some fresh;
      clone = true;
      add = roomy junk;
      shrink = true;
      entries = true;
      dup = true;
    })

pub some-injective {ℓ} : {A : Type ℓ} {a b : A} → some a ≡ some b → a ≡ b
some-injective e = cc

pub no_some {ℓ} : {A : Type ℓ} {a : A} → ◌≡◌ {A = Option A} none (some a) → ⊥
no_some e = cc

-- The removal of the old name, behind the call that puts the new one in.
abbrev then_delete : Option (List ℕ) → Result (Unit {0}) × Hash → Result (Unit {0}) × Hash
then_delete old (err c, added) = (err c, added)
then_delete none (ok u, added) = (ok tt, added)
then_delete (some o) (ok u, added) = (ok tt, (delete true added (some o)).1)

module _ (names : Hash) (v : Inv.IsValid names) where
  -- The table after `_zip_hash_delete`, whatever it returned.
  pub current-delete :
      (old name : List ℕ)
      → current (delete true names (some old)).1 name
        ≡ (if same_bytes name old then none else current names name)
  current-delete old name = elim (Bool-cases (same_bytes name old)) [
    | inl same ↦ ap (λ p. p.1) ((delete-refines names v old).2 name) ∙ rw same refl
    | inr other ↦ ap (λ p. p.1) ((delete-refines names v old).2 name) ∙ rw other refl
  ]

  -- The table after `_zip_hash_add` without flags.
  current-add :
      (junk : Option ℕ) (new : List ℕ) (idx : ℕ)
      → names.nentries + 1 < 2 ^ 64
      → idx < 2 ^ 63
      → Moved idx new none names (add (roomy junk) names (some new) idx no_flags)
  current-add junk new idx bound fits =
      let (v', result, updated) = add-refines junk new idx no_flags names v bound fits in
      let names' = (add (roomy junk) names (some new) idx no_flags).1 in
      elim (Bool-cases (taken no_flags (indices names new))) [
        | inl exists ↦ (
          v',
          inl (
            er_exists,
            result ∙ rw exists refl,
            λ name. ap (λ p. p.1) (updated name) ∙ unchanged name (same_bytes name new) exists,
          ),
        )
        | inr free ↦ (
          v',
          inr (
            result ∙ rw free refl,
            λ name i at. (
              λ e. cc,
              elim (Bool-cases (same_bytes name new)) [
                | inl same ↦ inl (
                  (same_bytes_iff name new).0 same,
                  some-injective (sym at ∙ ap (λ p. p.1) (updated name) ∙ rw (same, free) refl),
                )
                | inr other ↦ inr (sym (ap (λ p. p.1) (updated name) ∙ rw other refl) ∙ at)
              ],
            ),
            inr (ap (λ p. p.1) (updated new) ∙ rw ((same_bytes_iff new new).1 refl, free) refl),
          ),
        )
      ]
    where
      unchanged :
          (name : List ℕ) (b : Bool)
          → taken no_flags (indices names new) ≡ true
          → (if b && not (taken no_flags (indices names new))
              then given_index idx no_flags (indices names name)
              else indices names name).1
            ≡ current names name
      unchanged name true exists = rw exists refl
      unchanged name false exists = refl

-- The two together.
then_delete-Moved :
    (names : Hash) (new : List ℕ) (idx : ℕ) (old : Option (List ℕ)) (p : Result (Unit {0}) × Hash)
    → Moved idx new none names p
    → Moved idx new old names (then_delete old p)
then_delete-Moved names new idx old (err c, added) (v', inl (c', e, kept)) = (v', inl (c', e, kept))
then_delete-Moved names new idx old (err c, added) (v', inr (e, moved, there)) = cc
then_delete-Moved names new idx none (ok u, added) m = m
then_delete-Moved names new idx (some o) (ok u, added) (v', inl (c', e, kept)) = cc
then_delete-Moved names new idx (some o) (ok u, added) (v', inr (e, moved, there)) = (
  (delete-refines added v' o).0,
  inr (
    refl,
    λ name i at. elim (Bool-cases (same_bytes name o)) [
      | inl same ↦ absurd (no_some (sym (current-delete added v' o name ∙ rw same refl) ∙ at))
      | inr other ↦ (
        λ is.
            not_same
              (ap (λ x. same_bytes name x) (some-injective is) ∙ (same_bytes_iff name name).1 refl)
              other,
        (moved name i (sym (current-delete added v' o name ∙ rw other refl) ∙ at)).1,
      )
    ],
    elim there [
      | inl never ↦ absurd (no_some never)
      | inr placed ↦ elim (Bool-cases (same_bytes new o)) [
        | inl same ↦ inl (ap some (sym ((same_bytes_iff new o).0 same)))
        | inr other ↦ inr (current-delete added v' o new ∙ rw other refl ∙ placed)
      ]
    ],
  ),
)
  where
    not_same : {b : Bool} → b ≡ true → b ≡ false → ⊥
    not_same p q = cc

move_name-then_delete :
    (room : Room) (new : List ℕ) (old : Option (List ℕ)) (idx : ℕ) (names : Hash)
    → room.shrink ≡ true
    → move_name room idx new old names
      ≡ then_delete old (add room.add names (some new) idx no_flags)
unfolding move_name
move_name-then_delete room new old idx names shrinks =
    let p = add room.add names (some new) idx no_flags in rw shrinks (go old p.0 p.1)
  where
    go :
        (old : Option (List ℕ)) (r : Result (Unit {0})) (added : Hash)
        → ◌≡◌ {A = Result (Unit {0}) × Hash}
            (elim r as (λ _. Result (Unit {0}) × Hash) [
              | err c ↦ (err c, added)
              | ok u ↦ (ok tt, elim old [ none ↦ added | some o ↦ (delete true added (some o)).1 ])
            ])
            (then_delete old (r, added))
    go old (err c) added = refl
    go none (ok u) added = refl
    go (some o) (ok u) added = refl

-- With memory, a renaming in the table leaves the old name without an index, gives the new one the
-- entry's unless it is the old one, and touches no other; if it fails, nothing is changed.
pub move_name-Moved :
    (room : Room) (new : List ℕ) (old : Option (List ℕ)) (idx : ℕ) (names : Hash)
    → Inv.IsValid names
    → Roomy room
    → names.nentries + 1 < 2 ^ 64
    → idx < 2 ^ 63
    → Moved idx new old names (move_name room idx new old names)
move_name-Moved room new old idx names v (junk, fresh, all) bound fits =
    let added = current-add names v junk new idx bound fits in
    subst (Moved idx new old names)
      (sym (move_name-then_delete room new old idx names (ap (λ m. m.shrink) all)))
      (then_delete-Moved names new idx old (add room.add names (some new) idx no_flags) (
        subst (λ m. Moved idx new none names (add m names (some new) idx no_flags))
          (sym (ap (λ m. m.add) all)) added))
