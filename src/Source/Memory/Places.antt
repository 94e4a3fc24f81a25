-- ===== src/Source/Memory/Places.antt =====
-- Places in a list of fragments.
use allvm_tools.Base.{
  ℕ, suc, arith, ◌++◌, List, get_elem?, ◌+◌, zero, ◌∷◌, length-append, ◌≡◌, some, ◌≤◌, sym, ap, ◌-◌,
  ◌∙◌, length, subst, take, refl, drop, [], drop-append_ge, take-length, ◌<◌,
}

abbrev pub concat {ℓ} : {A : Type ℓ} → List (List A) → List A
concat [] = []
concat (xs ∷ xss) = xs ++ concat xss

abbrev pub total {ℓ} : {A : Type ℓ} → List (List A) → ℕ
total [] = 0
total (xs ∷ xss) = length xs + total xss

-- Byte `p` of all bytes lies in fragment `i`, or just after it; past the fragments there is no byte.
abbrev pub At {ℓ} : {A : Type ℓ} → List (List A) → ℕ → ℕ → Type 0
At [] zero p = p ≡ 0
At [] (suc i) p = ⊥
At (xs ∷ xss) zero p = p ≤ length xs
At (xs ∷ xss) (suc i) p = (length xs ≤ p) × At xss i (p - length xs)

-- `os` has the offset of each fragment, and that of the end.
abbrev pub Sums {ℓ} : {A : Type ℓ} → List (List A) → List ℕ → ℕ → Type 0
Sums xss [] p = ⊥
Sums [] (o ∷ os) p = o ≡ p
Sums (xs ∷ xss) (o ∷ os) p = (o ≡ p) × Sums xss os (p + length xs)

module _ {ℓ} {A : Type ℓ} where
  pub length-concat : (xss : List (List A)) → length (concat xss) ≡ total xss
  length-concat [] = refl
  length-concat (xs ∷ xss) = omega (arith, length-append xs (concat xss), length-concat xss)

  pub Sums-get_elem? :
      (xss : List (List A)) (os : List ℕ) (p i : ℕ)
      → Sums xss os p
      → i ≤ length xss
      → get_elem? os i ≡ some (p + total (take i xss))
  Sums-get_elem? xss [] p i h le = absurd h
  Sums-get_elem? [] (o ∷ os) p zero h le = let e : o ≡ p + 0 = omega (arith, h) in ap some e
  Sums-get_elem? [] (o ∷ os) p (suc i) h le = absurd (omega arith)
  Sums-get_elem? (xs ∷ xss) (o ∷ os) p zero h le =
      let e : o ≡ p + 0 = omega (arith, h.0) in ap some e
  Sums-get_elem? (xs ∷ xss) (o ∷ os) p (suc i) h le =
      let e : p + length xs + total (take i xss) ≡ p + (length xs + total (take i xss)) =
        omega arith in
      Sums-get_elem? xss os (p + length xs) i h.1 (omega arith) ∙ ap some e

  -- The fragments from the current one on.
  pub At-le :
      (xss : List (List A)) (i p : ℕ) → At xss i p → (i ≤ length xss) × (total (take i xss) ≤ p)
  At-le [] zero p h = (omega arith, omega arith)
  At-le [] (suc i) p h = absurd h
  At-le (xs ∷ xss) zero p h = (omega arith, omega arith)
  At-le (xs ∷ xss) (suc i) p h =
      let ih = At-le xss i (p - length xs) h.1 in (omega (arith, ih.0), omega (arith, ih.1, h.0))

  pub At-drop :
      (xss : List (List A)) (i p : ℕ) → At xss i p → At (drop i xss) 0 (p - total (take i xss))
  At-drop [] zero p h = omega (arith, h)
  At-drop [] (suc i) p h = absurd h
  At-drop (xs ∷ xss) zero p h = omega (arith, h)
  At-drop (xs ∷ xss) (suc i) p h =
      let e : p - length xs - total (take i xss) ≡ p - (length xs + total (take i xss)) =
        omega arith in
      subst (At (drop i xss) 0) e (At-drop xss i (p - length xs) h.1)

  pub At-shift :
      (xss : List (List A)) (i j q : ℕ)
      → i ≤ length xss
      → At (drop i xss) j q
      → At xss (i + j) (total (take i xss) + q)
  At-shift xss zero j q le h =
      let e : 0 + j ≡ j = omega arith in let e' : 0 + q ≡ q = omega arith in rw (e, e') h
  At-shift [] (suc i) j q le h = absurd (omega arith)
  At-shift (xs ∷ xss) (suc i) j q le h =
      let e : suc i + j ≡ suc (i + j) = omega arith in
      let e' : total (take i xss) + q ≡ length xs + total (take i xss) + q - length xs =
        omega arith in
      rw e (omega arith, subst (At xss (i + j)) e' (At-shift xss i j q (omega arith) h))

  pub concat-drop :
      (xss : List (List A)) (i : ℕ) → concat (drop i xss) ≡ drop (total (take i xss)) (concat xss)
  concat-drop xss zero = refl
  concat-drop [] (suc i) = refl
  concat-drop (xs ∷ xss) (suc i) =
      let n = total (take i xss) in
      concat-drop xss i
      ∙ sym (
          drop-append_ge xs (concat xss) (length xs + n) (omega arith)
          ∙ (let e : length xs + n - length xs ≡ n = omega arith in
              ap (λ k. drop k (concat xss)) e))

  pub total-drop :
      (xss : List (List A)) (i : ℕ) → total (take i xss) + total (drop i xss) ≡ total xss
  total-drop xss zero = omega arith
  total-drop [] (suc i) = refl
  total-drop (xs ∷ xss) (suc i) = omega (arith, total-drop xss i)

  pub At-of_starts :
      (xss : List (List A)) (i p : ℕ)
      → i < length xss
      → total (take i xss) ≤ p
      → p ≤ total (take (suc i) xss)
      → At xss i p
  At-of_starts [] i p lt lo hi = absurd (omega arith)
  At-of_starts (xs ∷ xss) zero p lt lo hi = omega arith
  At-of_starts (xs ∷ xss) (suc i) p lt lo hi =
      (omega arith, At-of_starts xss i (p - length xs) (omega arith) (omega arith) (omega arith))

  pub take-all : (xss : List A) (n : ℕ) → n ≡ length xss → take n xss ≡ xss
  take-all xss n e = ap (λ k. take k xss) e ∙ take-length xss
