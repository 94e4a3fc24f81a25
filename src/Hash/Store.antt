-- ===== src/Hash/Store.antt =====
-- The steps of `_zip_hash_add`: a new entry, and the values stored in an entry.
use allvm_tools.Hash.Replace.{replaced-IsValid, bucket-single, found-replaced}
use allvm_tools.Hash.Entries.{on_found, at_entry_lem}
use allvm_tools.Hash.Rehash.{found}
use allvm_tools.Hash.Chain.{count}
use allvm_tools.Hash.{Hash, hash_string, find_name, Entry, set_bucket, push, at_entry, bucket}
use allvm_tools.Base.{
  if◌then◌else◌, false, Option, ◌≤◌, ℕ, none, same_bytes_iff, refl, same_bytes, inr, ◌∷◌, ◌≢◌, ◌<◌,
  ◌∙◌, subst, arith, ap, ◌≡◌, sym, inl, [], List, some, Bool-cases, ◌%◌, ◌+◌,
}
use native.Mathlib.Nat.{mod-lt}
use allvm_tools.Hash.Inv.{IsValid}

-- What the table holds for each name, after a change for one of them.
abbrev pub UpdatedBy : Hash → Hash → List ℕ → (Option Entry → Option Entry) → Type 0
UpdatedBy h h' name f =
    (name' : List ℕ)
    → found h' name' ≡ (if same_bytes name' name then f (found h name') else found h name')

-- A change for one name leaves what belongs to another bucket.
pub elsewhere :
    (h : Hash) (name : List ℕ) (f : Option Entry → Option Entry) (name' : List ℕ) (o : Option Entry)
    → hash_string name % h.table_size ≢ hash_string name' % h.table_size
    → (if same_bytes name' name then f o else o) ≡ o
elsewhere h name f name' o ne = elim (Bool-cases (same_bytes name' name)) [
  | inl same ↦
      absurd
        (ne (ap (λ n. hash_string n % h.table_size) (sym ((same_bytes_iff name' name).0 same))))
  | inr other ↦ rw other
]

module _ (h : Hash) (v : IsValid h) (name : List ℕ) (pos : 0 < h.table_size) where
  abbrev place : ℕ
  place = hash_string name % h.table_size

  -- Assignments to an entry that keep its name.
  pub at_entry-refines :
      (f : Entry → Entry)
      → ((e : Entry) → ((f e).name ≡ e.name) × ((f e).hash_value ≡ e.hash_value))
      → let h' = set_bucket h place (at_entry (hash_string name) name f (bucket h.table place)) in
        IsValid h' × UpdatedBy h h' name (on_found f)
  at_entry-refines f keeps =
      let b = bucket h.table place in
      let change =
        λ (name' : List ℕ). at_entry_lem name h.table_size place f keeps name' b (v.placed place) in
      let b' = at_entry (hash_string name) name f b in
      let lt = mod-lt (hash_string name) pos in
      (
        replaced-IsValid h v place h.nentries b' lt (change name).3
            (λ name'. omega (arith, (change name').1, bucket-single h v place name'))
            (omega (arith, (change name).2)),
        found-replaced h v place h.nentries b'
            (λ name' o. if same_bytes name' name then on_found f o else o) lt
            (λ name'. (change name').0) (elsewhere h name (on_found f)),
      )

  count-absent : (es : List Entry) → find_name name es ≡ none → count name es ≡ 0
  unfolding find_name count
  count-absent [] eq = refl
  count-absent (e ∷ es) eq = elim (Bool-cases (same_bytes name e.name)) [
    | inl same ↦ absurd (ground arith)
    | inr other ↦ rw other (omega (arith, count-absent es (ground arith)))
  ]

  count-skip :
      (name' : List ℕ) (e : Entry) (es : List Entry)
      → same_bytes name' e.name ≡ false
      → count name' (e ∷ es) ≡ count name' es
  unfolding count
  count-skip name' e es other = rw other (omega arith)

  -- A new entry for a name without one.
  pub push-refines :
      (e : Entry)
      → e.name ≡ name
      → e.hash_value ≡ hash_string name
      → found h name ≡ none
      → let h' = record h { table = push h.table place e; nentries = h.nentries + 1 } in
        IsValid h' × UpdatedBy h h' name (λ _. some e)
  push-refines e named hv fresh =
      let b = bucket h.table place in
      let lt = mod-lt (hash_string name) pos in
      let tested = λ (name' : List ℕ). ap (same_bytes name') named in
      (
        replaced-IsValid h v place (h.nentries + 1) (e ∷ b) lt
            ((hv ∙ ap hash_string (sym named), ap (λ k. k % h.table_size) hv), v.placed place)
            (λ name'. elim (Bool-cases (same_bytes name' name)) [
              | inl same ↦
                  let gone = count-absent b fresh in
                  subst (λ n. count n (e ∷ b) ≤ 1) (sym ((same_bytes_iff name' name).0 same))
                    (unfold count in ground (arith, gone))
              | inr other ↦ omega (
                arith,
                bucket-single h v place name',
                count-skip name' e b (tested name' ∙ other),
              )
            ])
            (omega arith),
        found-replaced h v place (h.nentries + 1) (e ∷ b)
            (λ name' o. if same_bytes name' name then some e else o) lt
            (λ name'. unfold find_name in rw (tested name')) (elsewhere h name (λ _. some e)),
      )
