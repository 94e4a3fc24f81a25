-- ===== src/Source/Memory/Lengths.antt =====
-- Fragments whose bytes change and whose lengths do not, and fragments that are added.
use allvm_tools.Source.Memory.Places.{concat, total, At, Sums}
use allvm_tools.Base.{
  ℕ, ◌≡◌, sym, ◌++◌, set, ◌∙◌, ap, ◌∷◌, take, subst, ◌+◌, ◌<◌, append_assoc, length, drop, ◌-◌, suc,
  List, arith, zero, refl, [], take-append_ge,
}

abbrev pub SameLengths {ℓ} : {A : Type ℓ} → List (List A) → List (List A) → Type 0
SameLengths [] [] = Unit {0}
SameLengths [] (y ∷ ys) = ⊥
SameLengths (x ∷ xs) [] = ⊥
SameLengths (x ∷ xs) (y ∷ ys) = (length x ≡ length y) × SameLengths xs ys

module _ {ℓ} {A : Type ℓ} where
  pub SameLengths-refl : (xss : List (List A)) → SameLengths xss xss
  SameLengths-refl [] = tt
  SameLengths-refl (x ∷ xss) = (refl, SameLengths-refl xss)

  pub total-eq : (xss yss : List (List A)) → SameLengths xss yss → total xss ≡ total yss
  total-eq [] [] h = refl
  total-eq [] (y ∷ yss) h = absurd h
  total-eq (x ∷ xss) [] h = absurd h
  total-eq (x ∷ xss) (y ∷ yss) h = omega (arith, h.0, total-eq xss yss h.1)

  pub length-eq : (xss yss : List (List A)) → SameLengths xss yss → length xss ≡ length yss
  length-eq [] [] h = refl
  length-eq [] (y ∷ yss) h = absurd h
  length-eq (x ∷ xss) [] h = absurd h
  length-eq (x ∷ xss) (y ∷ yss) h = ap suc (length-eq xss yss h.1)

  pub At-SameLengths :
      (xss yss : List (List A)) (i p : ℕ) → SameLengths xss yss → At xss i p → At yss i p
  At-SameLengths [] [] i p h at = at
  At-SameLengths [] (y ∷ yss) i p h at = absurd h
  At-SameLengths (x ∷ xss) [] i p h at = absurd h
  At-SameLengths (x ∷ xss) (y ∷ yss) zero p h at = omega (arith, h.0, at)
  At-SameLengths (x ∷ xss) (y ∷ yss) (suc i) p h at = (
    omega (arith, h.0, at.0),
    subst (λ n. At yss i (p - n)) h.0 (At-SameLengths xss yss i (p - length x) h.1 at.1),
  )

  pub Sums-SameLengths :
      (xss yss : List (List A)) (os : List ℕ) (p : ℕ)
      → SameLengths xss yss
      → Sums xss os p
      → Sums yss os p
  Sums-SameLengths xss yss [] p h sums = absurd sums
  Sums-SameLengths [] [] (o ∷ os) p h sums = sums
  Sums-SameLengths [] (y ∷ yss) (o ∷ os) p h sums = absurd h
  Sums-SameLengths (x ∷ xss) [] (o ∷ os) p h sums = absurd h
  Sums-SameLengths (x ∷ xss) (y ∷ yss) (o ∷ os) p h sums = (
    sums.0,
    subst (λ n. Sums yss os (p + n)) h.0 (Sums-SameLengths xss yss os (p + length x) h.1 sums.1),
  )

  -- The fragments before number `i`, unchanged.
  pub SameLengths-drop :
      (xss yss : List (List A)) (i : ℕ)
      → SameLengths (drop i xss) yss
      → SameLengths xss (take i xss ++ yss)
  SameLengths-drop xss yss zero h = h
  SameLengths-drop [] yss (suc i) h = h
  SameLengths-drop (x ∷ xss) yss (suc i) h = (refl, SameLengths-drop xss yss i h)

  pub concat-append : (xss yss : List (List A)) → concat (xss ++ yss) ≡ concat xss ++ concat yss
  concat-append [] yss = refl
  concat-append (x ∷ xss) yss =
      ap (λ l. x ++ l) (concat-append xss yss) ∙ sym (append_assoc x (concat xss) (concat yss))

  pub concat-take :
      (xss : List (List A)) (i : ℕ) → concat (take i xss) ≡ take (total (take i xss)) (concat xss)
  concat-take xss zero = refl
  concat-take [] (suc i) = refl
  concat-take (x ∷ xss) (suc i) =
      let n = total (take i xss) in
      let e : length x + n - length x ≡ n = omega arith in
      ap (λ l. x ++ l) (concat-take xss i ∙ sym (ap (λ k. take k (concat xss)) e))
      ∙ sym (take-append_ge x (concat xss) (length x + n) (omega arith))

  -- A fragment that is added at the end.
  pub total-added :
      (xss : List (List A)) (x : List A) → total (xss ++ x ∷ []) ≡ total xss + length x
  total-added [] x = omega arith
  total-added (y ∷ xss) x = omega (arith, total-added xss x)

  pub At-added : (xss : List (List A)) (x : List A) (i p : ℕ) → At xss i p → At (xss ++ x ∷ []) i p
  At-added [] x zero p h = omega (arith, h)
  At-added [] x (suc i) p h = absurd h
  At-added (y ∷ xss) x zero p h = h
  At-added (y ∷ xss) x (suc i) p h = (h.0, At-added xss x i (p - length y) h.1)

  pub Sums-added :
      (xss : List (List A)) (x : List A) (os : List ℕ) (p : ℕ)
      → Sums xss os p
      → length xss + 1 < length os
      → Sums (xss ++ x ∷ []) (set os (length xss + 1) (p + total xss + length x)) p
  Sums-added xss x [] p h room = absurd h
  Sums-added [] x (o ∷ []) p h room = absurd (omega arith)
  Sums-added [] x (o ∷ o' ∷ os) p h room = (h, omega arith)
  Sums-added (y ∷ xss) x (o ∷ os) p h room =
      let e : p + length y + total xss + length x ≡ p + (length y + total xss) + length x =
        omega arith in
      let e' : suc (length xss) + 1 ≡ suc (length xss + 1) = omega arith in
      subst
        (λ k. Sums ((y ∷ xss) ++ x ∷ []) (set (o ∷ os) k (p + (length y + total xss) + length x)) p)
        (sym e')
        (
          h.0,
          subst (λ n. Sums (xss ++ x ∷ []) (set os (length xss + 1) n) (p + length y)) e
              (Sums-added xss x os (p + length y) h.1 (omega arith)),
        )

  pub Sums-more :
      (xss : List (List A)) (os more : List ℕ) (p : ℕ) → Sums xss os p → Sums xss (os ++ more) p
  Sums-more xss [] more p h = absurd h
  Sums-more [] (o ∷ os) more p h = h
  Sums-more (x ∷ xss) (o ∷ os) more p h = (h.0, Sums-more xss os more (p + length x) h.1)
