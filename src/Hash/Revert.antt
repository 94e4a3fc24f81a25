-- ===== src/Hash/Revert.antt =====
-- `_zip_hash_revert` on the map of names.
use allvm_tools.Hash.Rehash.{found}
use allvm_tools.Hash.Map.{indices_of, Outcome, resized_or, indices, resize-room}
use allvm_tools.Hash.Chain.{count, Placed}
use allvm_tools.Hash.{Entry, find_name, Hash, bucket, underfull, ok, hash_string, min_size, resize}
use allvm_tools.Hash.Remove.{revert_chain, shrink_loop, revert, revert_table}
use allvm_tools.Hash.Inv.{IsValid, total, resize-refines}
use allvm_tools.Base.{
  ℕ, inr, length, some, arith, ◌≡◌, refl, All, Option-cases, ◌+◌, Option, Bool-cases, same_bytes,
  [], ◌∷◌, inl, none, List, ◌≤◌, suc, ◌-◌, ◌/◌, subst, ltb, ◌∙◌, ◌<◌, true, ap, ◌&&◌, sym, zero,
  ◌%◌,
}

-- An entry as it was in the archive; one that was not there goes.
abbrev reverted : Option Entry → Option Entry
reverted none = none
reverted (some e) = elim e.orig_index [
  | none ↦ none
  | some o ↦ some (record e { current_index = some o })
]

find_name-absent : (name : List ℕ) (es : List Entry) → count name es ≡ 0 → find_name name es ≡ none
unfolding count find_name
find_name-absent name [] h = refl
find_name-absent name (e ∷ es) h = elim (Bool-cases (same_bytes name e.name)) [
  | inl same ↦ absurd (ground arith)
  | inr other ↦ rw other (find_name-absent name es (ground arith))
]

-- What the inner loop does to a chain.
abbrev Reverted : ℕ → ℕ → List ℕ → List Entry → List Entry × ℕ → Type 0
Reverted size i name es (es', freed) =
    (length es' + freed ≡ length es)
    × (count name es' ≤ count name es)
    × (All (Placed size i) es → All (Placed size i) es')
    × (count name es ≤ 1 → find_name name es' ≡ reverted (find_name name es))

revert_chain-Reverted :
    (size i : ℕ) (name : List ℕ) (es : List Entry) → Reverted size i name es (revert_chain es)
unfolding revert_chain count find_name
revert_chain-Reverted size i name [] = (refl, omega arith, λ p. p, λ h. refl)
revert_chain-Reverted size i name (e ∷ es) =
    let (len, fewer, placed, found') = revert_chain-Reverted size i name es in
    elim (Option-cases e.orig_index) [
      | inl bare ↦ elim (Bool-cases (same_bytes name e.name)) [
        | inl same ↦
            rw (bare, same)
              (
                omega arith,
                omega arith,
                λ p. placed p.1,
                λ h. found' (omega arith) ∙ ap reverted (find_name-absent name es (omega arith)),
              )
        | inr other ↦
            rw (bare, other) (omega arith, omega arith, λ p. placed p.1, λ h. found' (omega arith))
      ]
      | inr (o, orig) ↦ elim (Bool-cases (same_bytes name e.name)) [
        | inl same ↦ rw (orig, same) (omega arith, omega arith, λ p. (p.0, placed p.1), λ h. refl)
        | inr other ↦
            rw (orig, other)
              (omega arith, omega arith, λ p. (p.0, placed p.1), λ h. found' (omega arith))
      ]
    ]

-- The same for the whole table.
bucket-revert :
    (t : List (List Entry)) (i : ℕ) → bucket (revert_table t).0 i ≡ (revert_chain (bucket t i)).0
unfolding revert_table revert_chain
bucket-revert [] i = refl
bucket-revert (b ∷ t) zero = refl
bucket-revert (b ∷ t) (suc i) = bucket-revert t i

total-revert :
    (t : List (List Entry))
    → let (t', freed) = revert_table t in (total t' + freed ≡ total t) × (length t' ≡ length t)
unfolding revert_table total
total-revert [] = (omega arith, refl)
total-revert (b ∷ t) =
    let (sum, len) = total-revert t in
    let (len', fewer, placed, found') = revert_chain-Reverted 0 0 [] b in (omega arith, ap suc len)

shrink_loop-pos : (fuel nentries size : ℕ) → 0 < size → 0 < shrink_loop fuel nentries size
unfolding shrink_loop
shrink_loop-pos zero nentries size pos = pos
shrink_loop-pos (suc fuel) nentries size pos =
    elim (Bool-cases (underfull nentries size && ltb min_size size)) [
      | inl halve ↦
          let large : min_size < size = ground arith in
          rw halve (shrink_loop-pos fuel nentries (size / 2) (omega arith))
      | inr enough ↦ rw enough pos
    ]

-- What a revert is to leave: for each name the original index, also as the current one.
abbrev pub Restored : Hash → Outcome → Type 0
Restored h (r, h') =
    (r ≡ ok tt)
    × IsValid h'
    × ((name : List ℕ) → indices h' name ≡ ((indices h name).0, (indices h name).0))

indices-reverted :
    (o : Option Entry) → indices_of (reverted o) ≡ ((indices_of o).0, (indices_of o).0)
indices-reverted none = refl
indices-reverted (some e) = elim (Option-cases e.orig_index) [
  | inl bare ↦ rw bare refl
  | inr (o, orig) ↦ rw orig (ap (λ x. (x, some o)) orig)
]

reverted_table :
    (h : Hash)
    → IsValid h
    → let (table', freed) = revert_table h.table in
      let h' = record h { table = table'; nentries = h.nentries - freed } in Restored h (ok tt, h')
reverted_table h v =
    let (table', freed) = revert_table h.table in
    let (sum, len) = total-revert h.table in
    let chain =
      λ (i : ℕ) (name : List ℕ). revert_chain-Reverted h.table_size i name (bucket h.table i) in
    let place = λ (name : List ℕ). hash_string name % h.table_size in
    (
      refl,
      record {
        sized = len ∙ v.sized;
        placed = λ i.
            subst (λ l. All (Placed h.table_size i) l) (sym (bucket-revert h.table i))
              ((chain i []).2 (v.placed i));
        single = λ name.
            subst (λ l. count name l ≤ 1) (sym (bucket-revert h.table (place name)))
              (omega (arith, (chain (place name) name).1, v.single name));
        counted = omega (arith, sum, v.counted);
      },
      λ name.
          ap (λ l. indices_of (find_name name l)) (bucket-revert h.table (place name))
          ∙ ap indices_of ((chain (place name) name).3 (v.single name))
          ∙ indices-reverted (found h name),
    )

-- On a well-formed table, with memory for a smaller one, `_zip_hash_revert` succeeds; afterwards each
-- name has its original index as the current one, and a name without original index has none. The
-- table stays well formed, also when its size is halved.
pub revert-refines : (h : Hash) → IsValid h → Restored h (revert true h)
unfolding revert
revert-refines h v =
    let (table', freed) = revert_table h.table in
    let h' = record h { table = table'; nentries = h.nentries - freed } in
    let (ok', v', restored) = reverted_table h v in
    let n = shrink_loop 32 h'.nentries (h.table_size / 2) in
    resized_or (Restored h) (underfull h'.nentries h.table_size && ltb min_size h.table_size)
      (resize true h' n).0 h' (resize true h' n).1 (resize-room h' n)
      (λ t.
        let large : min_size < h.table_size = ground arith in
        let (v'', kept) =
          resize-refines true h' n (shrink_loop-pos 32 h'.nentries (h.table_size / 2) (omega arith))
            v' in
        (refl, v'', λ name. ap indices_of (kept name) ∙ restored name))
      (refl, v', restored)
