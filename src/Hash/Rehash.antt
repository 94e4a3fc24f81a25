-- ===== src/Hash/Rehash.antt =====
-- `hash_resize` keeps what is found under each name, and the table well formed.
use allvm_tools.Hash.Chain.{Placed, count, last_name}
use allvm_tools.Hash.{Hash, hash_string, find_name, bucket, push, rehash_chain, Entry}
use allvm_tools.Base.{
  same_bytes, subst, length-set, ◌≡◌, get_or-set_self, sym, get_or-set_ne, some, if◌then◌else◌,
  ◌==◌, List, Option, arith, length, ==_iff, ℕ, ◌∙◌, All, same_bytes_iff, true, refl, ◌<◌, ◌∷◌, ◌%◌,
  ◌+◌, Bool-cases, inl, ◌≢◌, [], ap, inr,
}
use native.Mathlib.Nat.{mod-lt}

-- What the table holds for a name.
abbrev pub found : Hash → List ℕ → Option Entry
found h name = find_name name (bucket h.table (hash_string name % h.table_size))

-- What a push at its place does to a chain where a name is looked for.
pub bucket-push {ℓ} :
    {B : Type ℓ} (f : List Entry → B) (g : B → B) (t : List (List Entry)) (i k : ℕ) (e : Entry)
    → i < length t
    → (i ≡ k → f (e ∷ bucket t k) ≡ g (f (bucket t k)))
    → (i ≢ k → g (f (bucket t k)) ≡ f (bucket t k))
    → f (bucket (push t i e) k) ≡ g (f (bucket t k))
bucket-push f g t i k e lt here there = elim (Bool-cases (i == k)) [
  | inl same ↦
      let eq : i ≡ k = (==_iff i k).0 same in
      ap (λ j. f (bucket (push t i e) j)) (sym eq)
      ∙ ap f (get_or-set_self t i (e ∷ bucket t i) [] lt)
      ∙ ap (λ j. f (e ∷ bucket t j)) eq
      ∙ here eq
  | inr other ↦
      let ne : i ≢ k = ground arith in
      ap f (get_or-set_ne t i k (e ∷ bucket t i) [] ne) ∙ sym (there ne)
]

-- The bucket that a name belongs to.
hash-named :
    (e : Entry) (name : List ℕ)
    → e.hash_value ≡ hash_string e.name
    → same_bytes name e.name ≡ true
    → e.hash_value ≡ hash_string name
hash-named e name h same = h ∙ ap hash_string (sym ((same_bytes_iff name e.name).0 same))

module _ (n : ℕ) (name : List ℕ) where
  abbrev pub here : List (List Entry) → List Entry
  here t = bucket t (hash_string name % n)

  find_name-push :
      (t : List (List Entry)) (e : Entry)
      → e.hash_value ≡ hash_string e.name
      → e.hash_value % n < length t
      → find_name name (here (push t (e.hash_value % n) e))
        ≡ (if same_bytes name e.name then some e else find_name name (here t))
  find_name-push t e h lt =
      bucket-push (find_name name) (λ o. if same_bytes name e.name then some e else o) t
        (e.hash_value % n) (hash_string name % n) e lt (λ _. unfold find_name in refl)
        (λ ne. elim (Bool-cases (same_bytes name e.name)) [
          | inl same ↦ absurd (ne (ap (λ v. v % n) (hash-named e name h same)))
          | inr other ↦ rw other
        ])

  count-push :
      (t : List (List Entry)) (e : Entry)
      → e.hash_value ≡ hash_string e.name
      → e.hash_value % n < length t
      → count name (here (push t (e.hash_value % n) e))
        ≡ (if same_bytes name e.name then 1 else 0) + count name (here t)
  count-push t e h lt =
      bucket-push (count name) (λ c. (if same_bytes name e.name then 1 else 0) + c) t
        (e.hash_value % n) (hash_string name % n) e lt (λ _. unfold count in refl)
        (λ ne. elim (Bool-cases (same_bytes name e.name)) [
          | inl same ↦ absurd (ne (ap (λ v. v % n) (hash-named e name h same)))
          | inr other ↦ rw other (omega arith)
        ])

  -- A chain that moves, and then all of them.
  module _ (pos : 0 < n) where
    pub find_name-rehash_chain :
        (es : List Entry) (t : List (List Entry)) (size i : ℕ)
        → All (Placed size i) es
        → length t ≡ n
        → find_name name (here (rehash_chain n t es)) ≡ last_name name es (find_name name (here t))
    unfolding rehash_chain last_name
    find_name-rehash_chain [] t size i p len = refl
    find_name-rehash_chain (e ∷ es) t size i p len =
        let k = e.hash_value % n in
        find_name-rehash_chain es (push t k e) size i p.1 (length-set t k (e ∷ bucket t k) ∙ len)
        ∙ ap (λ o. last_name name es o)
            (find_name-push t e p.0.0 (subst (λ l. k < l) (sym len) (mod-lt e.hash_value pos)))

    pub count-rehash_chain :
        (es : List Entry) (t : List (List Entry)) (size i : ℕ)
        → All (Placed size i) es
        → length t ≡ n
        → count name (here (rehash_chain n t es)) ≡ count name es + count name (here t)
    unfolding rehash_chain count
    count-rehash_chain [] t size i p len = omega arith
    count-rehash_chain (e ∷ es) t size i p len =
        let k = e.hash_value % n in
        let rest =
          count-rehash_chain es (push t k e) size i p.1 (length-set t k (e ∷ bucket t k) ∙ len) in
        let one = count-push t e p.0.0 (subst (λ l. k < l) (sym len) (mod-lt e.hash_value pos)) in
        omega (arith, rest, one)
