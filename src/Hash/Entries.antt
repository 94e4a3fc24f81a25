-- ===== src/Hash/Entries.antt =====
-- What the operations on a single entry do to the chain that it stands in.
use allvm_tools.Hash.Remove.{remove_entry}
use allvm_tools.Hash.Chain.{count, Placed}
use allvm_tools.Hash.{Entry, hash_string, at_entry, find_name, is_named}
use allvm_tools.Base.{
  refl, ◌+◌, subst, suc, ◌≢◌, ◌≤◌, ap, Bool-cases, inl, true, ◌==◌, if◌then◌else◌, inr,
  same_bytes_iff, sym, [], ◌∙◌, Bool, All, ◌∷◌, Option, length, ◌≡◌, List, ◌%◌, arith, false, none,
  ℕ, same_bytes, ==_iff, some, ◌&&◌,
}

abbrev pub on_found : (Entry → Entry) → Option Entry → Option Entry
on_found f none = none
on_found f (some e) = some (f e)

-- The test of an entry that stands in its bucket.
is_named-Placed :
    (name : List ℕ) (e : Entry)
    → e.hash_value ≡ hash_string e.name
    → is_named (hash_string name) name e ≡ same_bytes name e.name
is_named-Placed name e h = elim (Bool-cases (same_bytes name e.name)) [
  | inl same ↦
      let hv : e.hash_value ≡ hash_string name =
        h ∙ ap hash_string (sym ((same_bytes_iff name e.name).0 same)) in
      rw (same, (==_iff e.hash_value (hash_string name)).1 hv)
  | inr other ↦ rw other (and_false (e.hash_value == hash_string name))
]
  where
    and_false : (t : Bool) → (t && false) ≡ false
    and_false true = refl
    and_false false = refl

same_bytes_trans :
    (name name' : List ℕ) (e : Entry)
    → same_bytes name e.name ≡ true
    → same_bytes name' e.name ≡ same_bytes name' name
same_bytes_trans name name' e same =
    ap (same_bytes name') (sym ((same_bytes_iff name e.name).0 same))

module _ (name : List ℕ) (size i : ℕ) where
  module _ (f : Entry → Entry)
      (keeps : (e : Entry) → ((f e).name ≡ e.name) × ((f e).hash_value ≡ e.hash_value)) where
    on_none : (t : Bool) → none ≡ (if t then on_found f none else none)
    on_none true = refl
    on_none false = refl

    head :
        (t : Bool) (e : Entry) (o : Option Entry)
        → (if t then some (f e) else o)
          ≡ (if t then on_found f (if t then some e else o) else if t then some e else o)
    head true e o = refl
    head false e o = refl

    -- `t`: the name is this entry's; `u`: it is the one that the operation is given.
    behind :
        (t u : Bool) (e : Entry) (o o' : Option Entry)
        → (u ≡ true → t ≡ false)
        → o' ≡ (if u then on_found f o else o)
        → (if t then some e else o')
          ≡ (if u then on_found f (if t then some e else o) else if t then some e else o)
    behind t true e o o' h eq = rw (h refl) eq
    behind t false e o o' h eq = ap (λ p. if t then some e else p) eq

    kept_hash :
        (e : Entry) → e.hash_value ≡ hash_string e.name → (f e).hash_value ≡ hash_string (f e).name
    kept_hash e h = (keeps e).1 ∙ h ∙ ap hash_string (sym (keeps e).0)

    -- How a chain differs from the one before.
    abbrev pub Changed : List ℕ → List Entry → List Entry → Type 0
    Changed name' es es' =
        (find_name name' es'
          ≡ (if same_bytes name' name then on_found f (find_name name' es) else find_name name' es))
        × (count name' es' ≡ count name' es)
        × (length es' ≡ length es)
        × All (Placed size i) es'

    pub at_entry_lem :
        (name' : List ℕ) (es : List Entry)
        → All (Placed size i) es
        → Changed name' es (at_entry (hash_string name) name f es)
    unfolding at_entry find_name count
    at_entry_lem name' [] p = (on_none (same_bytes name' name), refl, refl, tt)
    at_entry_lem name' (e ∷ es) p =
        let rest = at_entry_lem name' es p.1 in
        let test = is_named-Placed name e p.0.0 in
        let o = find_name name' es in
        let t = same_bytes name' name in
        elim (Bool-cases (same_bytes name e.name)) [
          | inl same ↦
              let hit = same_bytes_trans name name' e same in
              let hit' = ap (same_bytes name') (keeps e).0 ∙ hit in
              let taken : at_entry (hash_string name) name f (e ∷ es) ≡ f e ∷ es =
                rw (test, same) in
              subst (Changed name' (e ∷ es)) (sym taken) (
                ap (λ u. if u then some (f e) else o) hit'
                    ∙ head t e o
                    ∙ ap
                        (λ u.
                          if t
                          then on_found f (if u then some e else o)
                          else if u
                          then some e
                          else o)
                        (sym hit),
                ap (λ u. (if u then 1 else 0) + count name' es) (hit' ∙ sym hit),
                refl,
                ((kept_hash e p.0.0, ap (λ k. k % size) (keeps e).1 ∙ p.0.1), p.1),
              )
          | inr other ↦
              let es' = at_entry (hash_string name) name f es in
              let apart : t ≡ true → same_bytes name' e.name ≡ false =
                λ eq. ap (λ l. same_bytes l e.name) ((same_bytes_iff name' name).0 eq) ∙ other in
              let passed : at_entry (hash_string name) name f (e ∷ es) ≡ e ∷ es' =
                rw (test, other) in
              subst (Changed name' (e ∷ es)) (sym passed) (
                behind (same_bytes name' e.name) t e o (find_name name' es') apart rest.0,
                omega (arith, rest.1),
                omega (arith, rest.2),
                (p.0, rest.3),
              )
        ]

  -- A chain without the entry, which stood in it and was single.
  abbrev pub Without : List ℕ → List Entry → List Entry → Type 0
  Without name' es es' =
      (count name es ≤ 1
        → find_name name' es' ≡ (if same_bytes name' name then none else find_name name' es))
      × (count name' es' ≤ count name' es)
      × (find_name name es ≢ none → suc (length es') ≡ length es)
      × All (Placed size i) es'

  -- No entry with the name.
  find_name-absent : (es : List Entry) → count name es ≡ 0 → find_name name es ≡ none
  unfolding find_name count
  find_name-absent [] h = refl
  find_name-absent (e ∷ es) h = elim (Bool-cases (same_bytes name e.name)) [
    | inl same ↦ absurd (ground arith)
    | inr other ↦ rw other (find_name-absent es (ground arith))
  ]

  if_either : (t : Bool) {o : Option Entry} → o ≡ (if t then o else o)
  if_either true = refl
  if_either false = refl

  behind_gone :
      (t u : Bool) (e : Entry) (o o' : Option Entry)
      → (u ≡ true → t ≡ false)
      → o' ≡ (if u then none else o)
      → (if t then some e else o') ≡ (if u then none else if t then some e else o)
  behind_gone t true e o o' h eq = rw (h refl) eq
  behind_gone t false e o o' h eq = ap (λ p. if t then some e else p) eq

  pub remove_entry_lem :
      (name' : List ℕ) (es : List Entry)
      → All (Placed size i) es
      → Without name' es (remove_entry (hash_string name) name es)
  unfolding remove_entry find_name count
  remove_entry_lem name' [] p =
      (λ _. if_either (same_bytes name' name), omega arith, λ h. absurd (h refl), tt)
  remove_entry_lem name' (e ∷ es) p =
      let rest = remove_entry_lem name' es p.1 in
      let test = is_named-Placed name e p.0.0 in
      let es' = remove_entry (hash_string name) name es in
      elim (Bool-cases (same_bytes name e.name)) [
        | inl same ↦
            let taken : remove_entry (hash_string name) name (e ∷ es) ≡ es = rw (test, same) in
            let single : count name (e ∷ es) ≤ 1 → find_name name es ≡ none =
              λ one. find_name-absent es (ground arith) in
            subst (Without name' (e ∷ es)) (sym taken) (
              λ one. elim (Bool-cases (same_bytes name' name)) [
                | inl hit ↦
                    rw hit
                      (ap (λ n. find_name n es) ((same_bytes_iff name' name).0 hit) ∙ single one)
                | inr off ↦ rw (off, same_bytes_trans name name' e same, off)
              ],
              omega arith,
              λ _. refl,
              p.1,
            )
        | inr other ↦
            let passed : remove_entry (hash_string name) name (e ∷ es) ≡ e ∷ es' =
              rw (test, other) in
            subst (Without name' (e ∷ es)) (sym passed) (
              λ one.
                  behind_gone (same_bytes name' e.name) (same_bytes name' name) e
                    (find_name name' es) (find_name name' es')
                    (λ eq. ap (λ l. same_bytes l e.name) ((same_bytes_iff name' name).0 eq) ∙ other)
                    (rest.0 (ground arith)),
              omega (arith, rest.1),
              λ h. omega (arith, rest.2 (λ eq. h (rw (other, eq)))),
              (p.0, rest.3),
            )
      ]
