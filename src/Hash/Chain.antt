-- ===== src/Hash/Chain.antt =====
-- Chains of entries under the moves of `hash_resize`.
use allvm_tools.Hash.{Entry, bucket, hash_string, find_name}
use allvm_tools.Base.{
  [], Bool-cases, refl, inl, ◌≤◌, List, some, inr, All, ◌≢◌, ap, suc, arith, same_bytes_iff, Option,
  ℕ, none, same_bytes, ◌%◌, ◌+◌, if◌then◌else◌, sym, ◌∷◌, ◌∙◌, zero, ◌≡◌,
}

-- An entry that stands in the bucket `i` of a table of `size`.
abbrev pub Placed : ℕ → ℕ → Entry → Type 0
Placed size i e = (e.hash_value ≡ hash_string e.name) × (e.hash_value % size ≡ i)

-- How many entries have a name.
unfoldable pub count : List ℕ → List Entry → ℕ
count name [] = 0
count name (e ∷ es) = (if same_bytes name e.name then 1 else 0) + count name es

-- The last entry of a name, or `base`.
unfoldable pub last_name : List ℕ → List Entry → Option Entry → Option Entry
last_name name [] base = base
last_name name (e ∷ es) base = last_name name es (if same_bytes name e.name then some e else base)

unfoldable pub last_in : List ℕ → List (List Entry) → Option Entry → Option Entry
last_in name [] base = base
last_in name (b ∷ bs) base = last_in name bs (last_name name b base)

last_name-absent :
    (name : List ℕ) (es : List Entry) (base : Option Entry)
    → count name es ≡ 0
    → last_name name es base ≡ base
unfolding count last_name
last_name-absent name [] base h = refl
last_name-absent name (e ∷ es) base h = elim (Bool-cases (same_bytes name e.name)) [
  | inl same ↦ absurd (ground arith)
  | inr other ↦ rw other (last_name-absent name es base (ground arith))
]

pub last_name-eq :
    (name : List ℕ) (es : List Entry)
    → count name es ≤ 1
    → last_name name es none ≡ find_name name es
unfolding count last_name find_name
last_name-eq name [] h = refl
last_name-eq name (e ∷ es) h = elim (Bool-cases (same_bytes name e.name)) [
  | inl same ↦ rw same (last_name-absent name es (some e) (ground arith))
  | inr other ↦ rw other (last_name-eq name es (ground arith))
]

-- Only one bucket has the name.
pub last_in-eq :
    (name : List ℕ) (bs : List (List Entry)) (k : ℕ) (base : Option Entry)
    → ((j : ℕ) → j ≢ k → count name (bucket bs j) ≡ 0)
    → last_in name bs base ≡ last_name name (bucket bs k) base
unfolding last_in
last_in-eq name [] k base h = unfold last_name in refl
last_in-eq name (b ∷ bs) zero base h = go bs (last_name name b base) (λ j. h (suc j) (omega arith))
  where
    go :
        (cs : List (List Entry)) (acc : Option Entry)
        → ((j : ℕ) → count name (bucket cs j) ≡ 0)
        → last_in name cs acc ≡ acc
    go [] acc f = refl
    go (c ∷ cs) acc f =
        go cs (last_name name c acc) (λ j. f (suc j)) ∙ last_name-absent name c acc (f 0)
last_in-eq name (b ∷ bs) (suc k) base h =
    ap (λ o. last_in name bs o) (last_name-absent name b base (h 0 (omega arith)))
    ∙ last_in-eq name bs k base (λ j ne. h (suc j) (omega arith))

-- Entries of another bucket do not have the name.
pub count-Placed :
    (name : List ℕ) (size i : ℕ) (es : List Entry)
    → All (Placed size i) es
    → i ≢ hash_string name % size
    → count name es ≡ 0
unfolding count
count-Placed name size i [] p ne = refl
count-Placed name size i (e ∷ es) p ne = elim (Bool-cases (same_bytes name e.name)) [
  | inl same ↦
      let here = (same_bytes_iff name e.name).0 same in
      absurd (ne (sym p.0.1 ∙ ap (λ h. h % size) (p.0.0 ∙ ap hash_string (sym here))))
  | inr other ↦ rw other (omega (arith, count-Placed name size i es p.1 ne))
]
