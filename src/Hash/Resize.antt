-- ===== src/Hash/Resize.antt =====
-- A resized table holds for each name what it held, and is well formed.
use allvm_tools.Hash.Rehash.{here, find_name-rehash_chain, count-rehash_chain}
use allvm_tools.Hash.Chain.{Placed, count-Placed, last_in-eq, last_name-eq, last_in, count}
use allvm_tools.Hash.{rehash, hash_string, bucket, push, find_name, rehash_chain, Entry}
use allvm_tools.Base.{
  subst, replicate, length-replicate, ◌≤◌, none, inl, ◌<◌, suc, ◌≢◌, All, refl, length-set,
  get_or-set_self, [], Bool-cases, zero, ◌∙◌, sym, ap, get_or-set_ne, length, ◌==◌, List, ==_iff,
  ◌%◌, arith, ◌+◌, ◌∷◌, inr, ◌≡◌, ℕ,
}
use native.Mathlib.Nat.{mod-lt}

pub bucket-fresh : (n j : ℕ) → bucket (replicate n []) j ≡ []
bucket-fresh zero j = refl
bucket-fresh (suc n) zero = refl
bucket-fresh (suc n) (suc j) = bucket-fresh n j

pub fresh-Placed : (n size j : ℕ) → All (Placed size j) (bucket (replicate n []) j)
fresh-Placed n size j = subst (λ l. All (Placed size j) l) (sym (bucket-fresh n j)) tt

count_in : List ℕ → List (List Entry) → ℕ
count_in name [] = 0
count_in name (b ∷ bs) = count name b + count_in name bs

count_in-eq :
    (name : List ℕ) (bs : List (List Entry)) (k : ℕ)
    → ((j : ℕ) → j ≢ k → count name (bucket bs j) ≡ 0)
    → count_in name bs ≡ count name (bucket bs k)
unfolding count_in
count_in-eq name [] k h = unfold count in refl
count_in-eq name (b ∷ bs) zero h = omega (arith, none_left bs (λ j. h (suc j) (omega arith)))
  where
    none_left :
        (cs : List (List Entry)) → ((j : ℕ) → count name (bucket cs j) ≡ 0) → count_in name cs ≡ 0
    none_left [] f = refl
    none_left (c ∷ cs) f = omega (arith, f 0, none_left cs (λ j. f (suc j)))
count_in-eq name (b ∷ bs) (suc k) h =
    omega
      (arith, h 0 (omega arith), count_in-eq name bs k (λ j ne. h (suc j) (λ e. ne (omega arith))))

module _ (n : ℕ) (pos : 0 < n) where
  push-Placed :
      (t : List (List Entry)) (e : Entry)
      → e.hash_value ≡ hash_string e.name
      → length t ≡ n
      → ((j : ℕ) → All (Placed n j) (bucket t j))
      → (j : ℕ) → All (Placed n j) (bucket (push t (e.hash_value % n) e) j)
  push-Placed t e h len p j =
      let k = e.hash_value % n in
      let lt : k < length t = subst (λ l. k < l) (sym len) (mod-lt e.hash_value pos) in
      elim (Bool-cases (k == j)) [
        | inl same ↦
            let eq : k ≡ j = (==_iff k j).0 same in
            subst (λ i. All (Placed n i) (bucket (push t k e) i)) eq
              (subst (λ l. All (Placed n k) l) (sym (get_or-set_self t k (e ∷ bucket t k) [] lt))
                ((h, refl), p k))
        | inr other ↦
            let ne : k ≢ j = ground arith in
            subst (λ l. All (Placed n j) l) (sym (get_or-set_ne t k j (e ∷ bucket t k) [] ne)) (p j)
      ]

  rehash_chain-Placed :
      (es : List Entry) (t : List (List Entry)) (size i : ℕ)
      → All (Placed size i) es
      → length t ≡ n
      → ((j : ℕ) → All (Placed n j) (bucket t j))
      → (length (rehash_chain n t es) ≡ n)
        × ((j : ℕ) → All (Placed n j) (bucket (rehash_chain n t es) j))
  unfolding rehash_chain
  rehash_chain-Placed [] t size i q len p = (len, p)
  rehash_chain-Placed (e ∷ es) t size i q len p =
      let k = e.hash_value % n in
      rehash_chain-Placed es (push t k e) size i q.1 (length-set t k (e ∷ bucket t k) ∙ len)
        (push-Placed t e q.0.0 len p)

  pub rehash-Placed :
      (bs t : List (List Entry)) (size : ℕ) (index : ℕ → ℕ)
      → ((j : ℕ) → All (Placed size (index j)) (bucket bs j))
      → length t ≡ n
      → ((j : ℕ) → All (Placed n j) (bucket t j))
      → (length (rehash n t bs) ≡ n) × ((j : ℕ) → All (Placed n j) (bucket (rehash n t bs) j))
  unfolding rehash
  rehash-Placed [] t size index q len p = (len, p)
  rehash-Placed (b ∷ bs) t size index q len p =
      let (len', p') = rehash_chain-Placed b t size (index 0) (q 0) len p in
      rehash-Placed bs (rehash_chain n t b) size (λ j. index (suc j)) (λ j. q (suc j)) len' p'

  module _ (name : List ℕ) where
    find_name-rehash :
        (bs t : List (List Entry)) (size : ℕ) (index : ℕ → ℕ)
        → ((j : ℕ) → All (Placed size (index j)) (bucket bs j))
        → length t ≡ n
        → ((j : ℕ) → All (Placed n j) (bucket t j))
        → (find_name name (here n name (rehash n t bs))
            ≡ last_in name bs (find_name name (here n name t)))
          × (count name (here n name (rehash n t bs))
              ≡ count_in name bs + count name (here n name t))
    unfolding rehash last_in count_in
    find_name-rehash [] t size index q len p = (refl, omega arith)
    find_name-rehash (b ∷ bs) t size index q len p =
        let (len', p') = rehash_chain-Placed b t size (index 0) (q 0) len p in
        let t' = rehash_chain n t b in
        let (rest, counted) =
          find_name-rehash bs t' size (λ j. index (suc j)) (λ j. q (suc j)) len' p' in
        (
          rest
              ∙ ap (λ o. last_in name bs o)
                  (find_name-rehash_chain n name pos b t size (index 0) (q 0) len),
          omega (arith, counted, count-rehash_chain n name pos b t size (index 0) (q 0) len),
        )

    -- What a rehashed table holds, when the old one is in order.
    pub find_name-rehash_fresh :
        (bs : List (List Entry)) (size : ℕ)
        → ((j : ℕ) → All (Placed size j) (bucket bs j))
        → count name (here size name bs) ≤ 1
        → (find_name name (here n name (rehash n (replicate n []) bs))
            ≡ find_name name (here size name bs))
          × (count name (here n name (rehash n (replicate n []) bs)) ≤ 1)
    unfolding find_name count
    find_name-rehash_fresh bs size q one =
        let fresh = replicate n [] in
        let k = hash_string name % size in
        let elsewhere : (j : ℕ) → j ≢ k → count name (bucket bs j) ≡ 0 =
          λ j ne. count-Placed name size j (bucket bs j) (q j) ne in
        let (found', counted) =
          find_name-rehash bs fresh size (λ j. j) q (length-replicate n [])
            (λ j. fresh-Placed n n j) in
        (
          found'
              ∙ ap (λ l. last_in name bs (find_name name l)) (bucket-fresh n (hash_string name % n))
              ∙ last_in-eq name bs k none elsewhere
              ∙ last_name-eq name (bucket bs k) one,
          omega (
            arith,
            counted,
            count_in-eq name bs k elsewhere,
            ap (count name) (bucket-fresh n (hash_string name % n)),
          ),
        )
