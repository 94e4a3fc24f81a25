-- ===== src/Hash/Replace.antt =====
-- A table with one bucket replaced, as by the operations on an entry.
use allvm_tools.Hash.Rehash.{found}
use allvm_tools.Hash.Inv.{IsValid, total-set}
use allvm_tools.Hash.Chain.{Placed, count, count-Placed}
use allvm_tools.Hash.{Hash, find_name, Entry, hash_string, bucket, find_entry}
use allvm_tools.Base.{
  ℕ, ◌∷◌, true, ◌≡◌, ◌==◌, ◌∙◌, Bool-cases, length-set, same_bytes, sym, length, subst, inl, ◌<◌,
  some, List, same_bytes_iff, refl, ◌&&◌, false, [], Option, ap, get_or-set_ne, inr, ◌%◌,
  if◌then◌else◌, All, Bool, ◌≢◌, ◌≤◌, get_or-set_self, set, arith, ==_iff, ◌+◌,
}

-- The chain has each name once, whichever bucket it is.
pub bucket-single :
    (h : Hash) (v : IsValid h) (i : ℕ) (name : List ℕ) → count name (bucket h.table i) ≤ 1
bucket-single h v i name = elim (Bool-cases (i == hash_string name % h.table_size)) [
  | inl here ↦
      subst (λ j. count name (bucket h.table j) ≤ 1)
        (sym ((==_iff i (hash_string name % h.table_size)).0 here)) (v.single name)
  | inr other ↦
      let ne : i ≢ hash_string name % h.table_size = ground arith in
      omega (arith, count-Placed name h.table_size i (bucket h.table i) (v.placed i) ne)
]

-- In a bucket, the hash value and the name find what the name finds.
pub find_entry-eq :
    (name : List ℕ) (size i : ℕ) (es : List Entry)
    → All (Placed size i) es
    → find_entry (hash_string name) name es ≡ find_name name es
unfolding find_entry find_name
find_entry-eq name size i [] p = refl
find_entry-eq name size i (e ∷ es) p = elim (Bool-cases (same_bytes name e.name)) [
  | inl same ↦
      let hv : e.hash_value ≡ hash_string name =
        p.0.0 ∙ ap hash_string (sym ((same_bytes_iff name e.name).0 same)) in
      let eq : (e.hash_value == hash_string name) ≡ true =
        (==_iff e.hash_value (hash_string name)).1 hv in
      rw (same, eq)
  | inr other ↦
      rw other (if_none (e.hash_value == hash_string name) (find_entry-eq name size i es p.1))
]
  where
    if_none : (t : Bool) {o o' : Option Entry} → o ≡ o' → (if (t && false) then some e else o) ≡ o'
    if_none true eq = eq
    if_none false eq = eq

module _ (h : Hash) (v : IsValid h) (i nentries' : ℕ) (b : List Entry) where
  abbrev pub replaced : Hash
  replaced = record h { table = set h.table i b; nentries = nentries' }

  pub replaced-IsValid :
      i < h.table_size
      → All (Placed h.table_size i) b
      → ((name : List ℕ) → count name b ≤ 1)
      → nentries' + length (bucket h.table i) ≡ h.nentries + length b
      → IsValid replaced
  replaced-IsValid lt p one sum =
      let at = get_or-set_self h.table i b [] (subst (λ n. i < n) (sym v.sized) lt) in
      record {
        sized = length-set h.table i b ∙ v.sized;
        placed = λ j. elim (Bool-cases (i == j)) [
          | inl same ↦
              subst (λ k. All (Placed h.table_size k) (bucket (set h.table i b) k))
                ((==_iff i j).0 same) (subst (λ l. All (Placed h.table_size i) l) (sym at) p)
          | inr other ↦
              let ne : i ≢ j = ground arith in
              subst (λ l. All (Placed h.table_size j) l) (sym (get_or-set_ne h.table i j b [] ne))
                (v.placed j)
        ];
        single = λ name.
            let k = hash_string name % h.table_size in
            elim (Bool-cases (i == k)) [
              | inl same ↦
                  subst (λ j. count name (bucket (set h.table i b) j) ≤ 1) ((==_iff i k).0 same)
                    (subst (λ l. count name l ≤ 1) (sym at) (one name))
              | inr other ↦
                  let ne : i ≢ k = ground arith in
                  subst (λ l. count name l ≤ 1) (sym (get_or-set_ne h.table i k b [] ne))
                    (v.single name)
            ];
        counted =
            omega
              (arith, sum, v.counted, total-set h.table i b (subst (λ n. i < n) (sym v.sized) lt));
      }

  -- What the new table holds.
  pub found-replaced :
      (g : List ℕ → Option Entry → Option Entry)
      → i < h.table_size
      → ((name : List ℕ) → find_name name b ≡ g name (find_name name (bucket h.table i)))
      → ((name : List ℕ) (o : Option Entry) → i ≢ hash_string name % h.table_size → g name o ≡ o)
      → (name : List ℕ) → found replaced name ≡ g name (found h name)
  found-replaced g lt inside outside name =
      let k = hash_string name % h.table_size in
      elim (Bool-cases (i == k)) [
        | inl same ↦
            subst
              (λ j.
                find_name name (bucket (set h.table i b) j)
                ≡ g name (find_name name (bucket h.table j)))
              ((==_iff i k).0 same)
              (ap (find_name name)
                  (get_or-set_self h.table i b [] (subst (λ n. i < n) (sym v.sized) lt))
                ∙ inside name)
        | inr other ↦
            let ne : i ≢ k = ground arith in
            ap (find_name name) (get_or-set_ne h.table i k b [] ne)
            ∙ sym (outside name (found h name) ne)
      ]
