-- ===== src/Base/Splits.antt =====
-- Taking from lists that are joined.
use allvm_tools.Base.Lists.{length, take, drop}
use mathlib.Core.List.{List, [], ◌∷◌, ◌++◌}
use mathlib.Core.Path.{◌≡◌, refl, ap, ◌∙◌, sym}
use Prim.Native.Nat.{ℕ, zero, suc, ◌+◌, ◌-◌, ◌≤◌, min}
use native.Mathlib.Omega.{arith}

module _ {ℓ} {A : Type ℓ} where
  pub take-append_ge :
      (xs ys : List A) (n : ℕ) → length xs ≤ n → take n (xs ++ ys) ≡ xs ++ take (n - length xs) ys
  take-append_ge [] ys n h = let e : n ≡ n - 0 = omega arith in ap (λ k. take k ys) e
  take-append_ge (x ∷ xs) ys zero h = elim h [ ]
  take-append_ge (x ∷ xs) ys (suc n) h =
      let e : n - length xs ≡ suc n - suc (length xs) = omega arith in
      ap (λ l. x ∷ l) (take-append_ge xs ys n (omega arith) ∙ ap (λ k. xs ++ take k ys) e)

  pub drop-append_ge :
      (xs ys : List A) (n : ℕ) → length xs ≤ n → drop n (xs ++ ys) ≡ drop (n - length xs) ys
  drop-append_ge [] ys n h = let e : n ≡ n - 0 = omega arith in ap (λ k. drop k ys) e
  drop-append_ge (x ∷ xs) ys zero h = elim h [ ]
  drop-append_ge (x ∷ xs) ys (suc n) h =
      let e : n - length xs ≡ suc n - suc (length xs) = omega arith in
      drop-append_ge xs ys n (omega arith) ∙ ap (λ k. drop k ys) e

  pub take-nil : (n : ℕ) → take {A = A} n [] ≡ []
  take-nil zero = refl
  take-nil (suc n) = refl

  pub drop-nil : (n : ℕ) → drop {A = A} n [] ≡ []
  drop-nil zero = refl
  drop-nil (suc n) = refl

  pub take_add : (m n : ℕ) (xs : List A) → take (m + n) xs ≡ take m xs ++ take n (drop m xs)
  take_add zero n xs = let e : zero + n ≡ n = omega arith in ap (λ k. take k xs) e
  take_add (suc m) n [] = take-nil (suc m + n) ∙ (let e = take-nil n in rw e refl)
  take_add (suc m) n (x ∷ xs) =
      let e : suc m + n ≡ suc (m + n) = omega arith in
      ap (λ k. take k (x ∷ xs)) e ∙ ap (λ l. x ∷ l) (take_add m n xs)

  pub take-append_le : (xs ys : List A) (n : ℕ) → n ≤ length xs → take n (xs ++ ys) ≡ take n xs
  take-append_le xs ys zero h = refl
  take-append_le [] ys (suc n) h = elim h [ ]
  take-append_le (x ∷ xs) ys (suc n) h = ap (λ l. x ∷ l) (take-append_le xs ys n (omega arith))

  pub drop-append_le :
      (xs ys : List A) (n : ℕ) → n ≤ length xs → drop n (xs ++ ys) ≡ drop n xs ++ ys
  drop-append_le xs ys zero h = refl
  drop-append_le [] ys (suc n) h = elim h [ ]
  drop-append_le (x ∷ xs) ys (suc n) h = drop-append_le xs ys n (omega arith)

  pub take-take : (m n : ℕ) (xs : List A) → take m (take n xs) ≡ take (min m n) xs
  take-take zero n xs = let e : zero ≡ min zero n = omega arith in ap (λ k. take k xs) e
  take-take (suc m) zero xs = let e : zero ≡ min (suc m) zero = omega arith in ap (λ k. take k xs) e
  take-take (suc m) (suc n) [] = sym (take-nil (min (suc m) (suc n)))
  take-take (suc m) (suc n) (x ∷ xs) =
      let e : suc (min m n) ≡ min (suc m) (suc n) = omega arith in
      ap (λ l. x ∷ l) (take-take m n xs) ∙ ap (λ k. take k (x ∷ xs)) e

  pub drop-take : (m n : ℕ) (xs : List A) → drop m (take n xs) ≡ take (n - m) (drop m xs)
  drop-take zero n xs = let e : n ≡ n - zero = omega arith in ap (λ k. take k xs) e
  drop-take (suc m) zero xs =
      let e : zero ≡ zero - suc m = omega arith in ap (λ k. take k (drop (suc m) xs)) e
  drop-take (suc m) (suc n) [] = sym (take-nil (suc n - suc m))
  drop-take (suc m) (suc n) (x ∷ xs) =
      let e : n - m ≡ suc n - suc m = omega arith in
      drop-take m n xs ∙ ap (λ k. take k (drop m xs)) e
