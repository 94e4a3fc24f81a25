-- ===== src/Hash/Inv.antt =====
-- Well-formed tables, and `hash_resize` on them.
use allvm_tools.Hash.Resize.{rehash-Placed, find_name-rehash_fresh, fresh-Placed}
use allvm_tools.Hash.Chain.{Placed, count}
use allvm_tools.Hash.Rehash.{found, here}
use allvm_tools.Hash.{rehash_chain, push, bucket, resize, Hash, rehash, Entry}
use allvm_tools.Base.{
  refl, ltb, false, not, if◌then◌else◌, Bool, true, inr, Bool-cases, ◌==◌, inl, length, ◌<◌, ◌≡◌, ℕ,
  [], All, set, ◌≤◌, sym, ◌∙◌, zero, length-set, ◌+◌, length-replicate, ◌%◌, subst, List, arith,
  ◌∷◌, suc, replicate,
}
use native.Mathlib.Nat.{mod-lt}

unfoldable pub total : List (List Entry) → ℕ
total [] = 0
total (b ∷ bs) = length b + total bs

-- The table has `table_size` buckets, entries stand where their hash value says, each name has one
-- entry at most, and `nentries` counts the entries.
pub record IsValid (h : Hash) : Type 0 where
  pub sized : length h.table ≡ h.table_size
  pub placed : (i : ℕ) → All (Placed h.table_size i) (bucket h.table i)
  pub single : (name : List ℕ) → count name (here h.table_size name h.table) ≤ 1
  pub counted : h.nentries ≡ total h.table

pub total-set :
    (t : List (List Entry)) (i : ℕ) (b : List Entry)
    → i < length t
    → total (set t i b) + length (bucket t i) ≡ total t + length b
unfolding total
total-set [] i b lt = absurd (omega arith)
total-set (x ∷ t) zero b lt = omega arith
total-set (x ∷ t) (suc i) b lt = omega (arith, total-set t i b (omega arith))

pub total-bucket : (t : List (List Entry)) (i : ℕ) → length (bucket t i) ≤ total t
unfolding total
total-bucket [] i = omega arith
total-bucket (x ∷ t) zero = omega arith
total-bucket (x ∷ t) (suc i) = omega (arith, total-bucket t i)

total-push :
    (t : List (List Entry)) (i : ℕ) (e : Entry) → i < length t → total (push t i e) ≡ suc (total t)
total-push t i e lt = omega (arith, total-set t i (e ∷ bucket t i) lt)

total-rehash_chain :
    (n : ℕ) (pos : 0 < n) (es : List Entry) (t : List (List Entry))
    → length t ≡ n
    → (total (rehash_chain n t es) ≡ length es + total t) × (length (rehash_chain n t es) ≡ n)
unfolding rehash_chain
total-rehash_chain n pos [] t len = (omega arith, len)
total-rehash_chain n pos (e ∷ es) t len =
    let k = e.hash_value % n in
    let lt : k < length t = subst (λ l. k < l) (sym len) (mod-lt e.hash_value pos) in
    let (sum, len') =
      total-rehash_chain n pos es (push t k e) (length-set t k (e ∷ bucket t k) ∙ len) in
    (omega (arith, sum, total-push t k e lt), len')

total-rehash :
    (n : ℕ) (pos : 0 < n) (bs t : List (List Entry))
    → length t ≡ n
    → total (rehash n t bs) ≡ total bs + total t
unfolding rehash total
total-rehash n pos [] t len = omega arith
total-rehash n pos (b ∷ bs) t len =
    let (sum, len') = total-rehash_chain n pos b t len in
    omega (arith, sum, total-rehash n pos bs (rehash_chain n t b) len')

total-fresh : (n : ℕ) → total (replicate n []) ≡ 0
unfolding total
total-fresh zero = refl
total-fresh (suc n) = omega (arith, total-fresh n)

-- A table of the new size with the entries moved: the table of a resize that allocates.
moved-IsValid :
    (h : Hash) (n : ℕ)
    → 0 < n
    → IsValid h
    → (h' : Hash) → h'.table_size ≡ n
    → h'.nentries ≡ h.nentries
    → h'.table ≡ rehash n (replicate n []) h.table
    → IsValid h' × ((name : List ℕ) → found h' name ≡ found h name)
moved-IsValid h n pos v h' s c t =
    let fresh = replicate n [] in
    let (sized', placed') =
      rehash-Placed n pos h.table fresh h.table_size (λ j. j) v.placed (length-replicate n [])
        (fresh-Placed n n) in
    (
      record {
        sized = rw (t, s, sized');
        placed = λ i. rw (t, s) (placed' i);
        single = λ name.
            rw (t, s)
              (find_name-rehash_fresh n pos name h.table h.table_size v.placed (v.single name)).1;
        counted =
            rw (t, c, v.counted)
              (omega
                (arith, total-rehash n pos h.table fresh (length-replicate n []), total-fresh n));
      },
      λ name.
          rw (t, s)
            (find_name-rehash_fresh n pos name h.table h.table_size v.placed (v.single name)).0,
    )

rehash-empty : (n : ℕ) (bs t : List (List Entry)) → total bs ≡ 0 → rehash n t bs ≡ t
unfolding total rehash rehash_chain
rehash-empty n [] t h = refl
rehash-empty n ([] ∷ bs) t h = rehash-empty n bs t (omega arith)
rehash-empty n ((e ∷ es) ∷ bs) t h = absurd (omega arith)

either :
    (P : Hash → Type 0) (same room : Bool) (h h' : Hash)
    → P h
    → P h'
    → P (
        let r : Bool × Hash =
          if same then (true, h) else if not room then (false, h) else (true, h') in
        r.1)
either P true room h h' p q = p
either P false true h h' p q = q
either P false false h h' p q = p

-- A resize keeps a well-formed table well formed, and what it holds for every name, whether or not
-- the new table can be allocated.
pub resize-refines :
    (room : Bool) (h : Hash) (n : ℕ)
    → 0 < n
    → IsValid h
    → let h' = (resize room h n).1 in IsValid h' × ((name : List ℕ) → found h' name ≡ found h name)
unfolding resize
resize-refines room h n pos v =
    let fresh = replicate n [] in
    let same : Hash → Type 0 =
      λ h'. IsValid h' × ((name : List ℕ) → found h' name ≡ found h name) in
    let table' = if ltb 0 h.nentries then rehash n fresh h.table else fresh in
    let moved : table' ≡ rehash n fresh h.table = elim (Bool-cases (ltb 0 h.nentries)) [
      | inl some_entries ↦ rw some_entries
      | inr no_entries ↦
          rw no_entries (sym (rehash-empty n h.table fresh (ground (arith, v.counted))))
    ] in
    let h'' : Hash = record h { table = table'; table_size = n } in
    either same (n == h.table_size) room h h'' (v, λ name. refl)
      (moved-IsValid h n pos v h'' refl refl moved)
