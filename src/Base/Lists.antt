-- ===== src/Base/Lists.antt =====
-- Lists measured and indexed by native numbers, under the library's names.
use allvm_tools.Base.Tests.{◌==◌}
use mathlib.Core.Bool.{Bool, true, false, ◌&&◌}
use mathlib.Core.Logic.{◌↔◌, ◌≢◌}
use Prim.Native.Nat.{ℕ, zero, suc, ◌+◌, ◌-◌, ◌≤◌, ◌<◌, min}
use mathlib.Core.Path.{◌≡◌, refl, ap, sym, ◌∙◌}
use mathlib.Core.List.{List, [], ◌∷◌, ◌++◌, map}
use mathlib.Core.Option.{Option, none, some}
use native.Mathlib.Omega.{arith}

module _ {ℓ} {A : Type ℓ} where
  abbrev pub length : List A → ℕ
  length [] = 0
  length (x ∷ xs) = suc (length xs)

  abbrev pub get_elem? : List A → ℕ → Option A
  get_elem? [] i = none
  get_elem? (x ∷ xs) zero = some x
  get_elem? (x ∷ xs) (suc i) = get_elem? xs i

  -- A write out of bounds changes nothing.
  abbrev pub set : List A → ℕ → A → List A
  set [] i v = []
  set (x ∷ xs) zero v = v ∷ xs
  set (x ∷ xs) (suc i) v = x ∷ set xs i v

  pub length-append : (xs ys : List A) → length (xs ++ ys) ≡ length xs + length ys
  length-append [] ys = omega arith
  length-append (x ∷ xs) ys = omega (arith, length-append xs ys)

module _ {ℓ} {A : Type ℓ} where
  pub length-set : (xs : List A) (i : ℕ) (v : A) → length (set xs i v) ≡ length xs
  length-set [] i v = refl
  length-set (x ∷ xs) zero v = refl
  length-set (x ∷ xs) (suc i) v = ap suc (length-set xs i v)

  pub get_elem?-set_self :
      (xs : List A) (i : ℕ) (v : A) → i < length xs → get_elem? (set xs i v) i ≡ some v
  get_elem?-set_self [] i v h = elim h [ ]
  get_elem?-set_self (x ∷ xs) zero v h = refl
  get_elem?-set_self (x ∷ xs) (suc i) v h = get_elem?-set_self xs i v (omega arith)

  pub get_elem?-set_ne :
      (xs : List A) {i j : ℕ} (v : A) → i ≢ j → get_elem? (set xs i v) j ≡ get_elem? xs j
  get_elem?-set_ne [] v h = refl
  get_elem?-set_ne (x ∷ xs) {i = zero} {j = zero} v h = absurd (h refl)
  get_elem?-set_ne (x ∷ xs) {i = zero} {j = suc j} v h = refl
  get_elem?-set_ne (x ∷ xs) {i = suc i} {j = zero} v h = refl
  get_elem?-set_ne (x ∷ xs) {i = suc i} {j = suc j} v h = get_elem?-set_ne xs v (λ e. h (ap suc e))

module _ {ℓ} {A : Type ℓ} where
  abbrev pub get_or : List A → ℕ → A → A
  get_or [] i d = d
  get_or (x ∷ xs) zero d = x
  get_or (x ∷ xs) (suc i) d = get_or xs i d

  abbrev pub take : ℕ → List A → List A
  take zero xs = []
  take (suc n) [] = []
  take (suc n) (x ∷ xs) = x ∷ take n xs

  abbrev pub drop : ℕ → List A → List A
  drop zero xs = xs
  drop (suc n) [] = []
  drop (suc n) (x ∷ xs) = drop n xs

  abbrev pub replicate : ℕ → A → List A
  replicate zero a = []
  replicate (suc n) a = a ∷ replicate n a

  pub take-append-drop : (n : ℕ) (xs : List A) → take n xs ++ drop n xs ≡ xs
  take-append-drop zero xs = refl
  take-append-drop (suc n) [] = refl
  take-append-drop (suc n) (x ∷ xs) = rw (take-append-drop n xs)

  pub length-take : (n : ℕ) (xs : List A) → length (take n xs) ≡ min n (length xs)
  length-take zero xs = omega arith
  length-take (suc n) [] = omega arith
  length-take (suc n) (x ∷ xs) = omega (arith, length-take n xs)

  pub length-drop : (n : ℕ) (xs : List A) → length (drop n xs) ≡ length xs - n
  length-drop zero xs = omega arith
  length-drop (suc n) [] = omega arith
  length-drop (suc n) (x ∷ xs) = omega (arith, length-drop n xs)

  pub length-replicate : (n : ℕ) (a : A) → length (replicate n a) ≡ n
  length-replicate zero a = refl
  length-replicate (suc n) a = ap suc (length-replicate n a)

  pub length-map {κ} : {B : Type κ} (xs : List A) (f : A → B) → length (map f xs) ≡ length xs
  length-map [] f = refl
  length-map (x ∷ xs) f = ap suc (length-map xs f)

module _ {ℓ} {A : Type ℓ} where
  -- `dst[p] = x₀; dst[p + 1] = x₁; ...`
  abbrev pub write_at : List A → ℕ → List A → List A
  write_at xs p [] = xs
  write_at xs p (v ∷ vs) = write_at (set xs p v) (suc p) vs

  pub length-write_at : (xs : List A) (p : ℕ) (vs : List A) → length (write_at xs p vs) ≡ length xs
  length-write_at xs p [] = refl
  length-write_at xs p (v ∷ vs) = length-write_at (set xs p v) (suc p) vs ∙ length-set xs p v

  pub get_or-set_self :
      (xs : List A) (i : ℕ) (v d : A) → i < length xs → get_or (set xs i v) i d ≡ v
  get_or-set_self [] i v d h = elim h [ ]
  get_or-set_self (x ∷ xs) zero v d h = refl
  get_or-set_self (x ∷ xs) (suc i) v d h = get_or-set_self xs i v d (omega arith)

  pub get_or-set_ne :
      (xs : List A) (i j : ℕ) (v d : A) → i ≢ j → get_or (set xs i v) j d ≡ get_or xs j d
  get_or-set_ne [] i j v d h = refl
  get_or-set_ne (x ∷ xs) zero zero v d h = absurd (h refl)
  get_or-set_ne (x ∷ xs) zero (suc j) v d h = refl
  get_or-set_ne (x ∷ xs) (suc i) zero v d h = refl
  get_or-set_ne (x ∷ xs) (suc i) (suc j) v d h = get_or-set_ne xs i j v d (λ e. h (ap suc e))

  -- A write leaves what lies before it.
  pub get_or-write_at_before :
      (xs : List A) (p : ℕ) (vs : List A) (j : ℕ) (d : A)
      → j < p
      → get_or (write_at xs p vs) j d ≡ get_or xs j d
  get_or-write_at_before xs p [] j d h = refl
  get_or-write_at_before xs p (v ∷ vs) j d h =
      get_or-write_at_before (set xs p v) (suc p) vs j d (omega arith)
      ∙ get_or-set_ne xs p j v d (omega arith)

  -- A write in bounds is read back.
  pub get_or-write_at :
      (xs : List A) (p : ℕ) (vs : List A) (k : ℕ) (d : A)
      → p + length vs ≤ length xs
      → k < length vs
      → get_or (write_at xs p vs) (p + k) d ≡ get_or vs k d
  get_or-write_at xs p [] k d room h = elim h [ ]
  get_or-write_at xs p (v ∷ vs) zero d room h =
      ap (λ i. get_or (write_at (set xs p v) (suc p) vs) i d) (omega arith)
      ∙ get_or-write_at_before (set xs p v) (suc p) vs p d (omega arith)
      ∙ get_or-set_self xs p v d (omega arith)
  get_or-write_at xs p (v ∷ vs) (suc k) d room h =
      ap (λ i. get_or (write_at (set xs p v) (suc p) vs) i d) (omega arith)
      ∙ get_or-write_at (set xs p v) (suc p) vs k d (omega (arith, length-set xs p v)) (omega arith)

abbrev pub Octets : List ℕ → Type 0
Octets [] = Unit {0}
Octets (x ∷ xs) = (x < 256) × Octets xs

pub Octets-get_or : (xs : List ℕ) (i : ℕ) → Octets xs → get_or xs i 0 < 256
Octets-get_or [] i h = omega arith
Octets-get_or (x ∷ xs) zero h = h.0
Octets-get_or (x ∷ xs) (suc i) h = Octets-get_or xs i h.1

pub Octets-set : (xs : List ℕ) (i v : ℕ) → v < 256 → Octets xs → Octets (set xs i v)
Octets-set [] i v lt h = tt
Octets-set (x ∷ xs) zero v lt h = (lt, h.1)
Octets-set (x ∷ xs) (suc i) v lt h = (h.0, Octets-set xs i v lt h.1)

pub Octets-write_at :
    (xs : List ℕ) (p : ℕ) (vs : List ℕ) → Octets vs → Octets xs → Octets (write_at xs p vs)
Octets-write_at xs p [] hv h = h
Octets-write_at xs p (v ∷ vs) hv h =
    Octets-write_at (set xs p v) (suc p) vs hv.1 (Octets-set xs p v hv.0 h)

module _ {ℓ} {A : Type ℓ} where
  pub drop-drop : (m n : ℕ) (xs : List A) → drop m (drop n xs) ≡ drop (n + m) xs
  drop-drop m zero xs = let e : m ≡ zero + m = omega arith in ap (λ k. drop k xs) e
  drop-drop zero (suc n) [] = let e : suc n ≡ suc n + zero = omega arith in ap (λ k. drop k []) e
  drop-drop (suc m) (suc n) [] =
      let e : suc (n + suc m) ≡ suc n + suc m = omega arith in ap (λ k. drop k []) e
  drop-drop m (suc n) (x ∷ xs) =
      let e : suc (n + m) ≡ suc n + m = omega arith in
      drop-drop m n xs ∙ ap (λ k. drop k (x ∷ xs)) e

  -- The part of a list from an index inside it.
  pub drop-cons :
      (i : ℕ) (xs : List A) (d : A) → i < length xs → drop i xs ≡ get_or xs i d ∷ drop (suc i) xs
  drop-cons zero [] d h = elim h [ ]
  drop-cons (suc i) [] d h = elim h [ ]
  drop-cons zero (x ∷ xs) d h = refl
  drop-cons (suc i) (x ∷ xs) d h = drop-cons i xs d (omega arith)

  pub take-length_le : (xs : List A) (n : ℕ) → length xs ≤ n → take n xs ≡ take (length xs) xs
  take-length_le [] zero h = refl
  take-length_le [] (suc n) h = refl
  take-length_le (x ∷ xs) zero h = elim h [ ]
  take-length_le (x ∷ xs) (suc n) h = ap (λ l. x ∷ l) (take-length_le xs n (omega arith))

  pub drop-length_le : (xs : List A) (n : ℕ) → length xs ≤ n → drop n xs ≡ drop (length xs) xs
  drop-length_le [] zero h = refl
  drop-length_le [] (suc n) h = refl
  drop-length_le (x ∷ xs) zero h = elim h [ ]
  drop-length_le (x ∷ xs) (suc n) h = drop-length_le xs n (omega arith)

-- `memcmp(a, b, n) == 0` on the blocks of `n` bytes.
abbrev pub same_bytes : List ℕ → List ℕ → Bool
same_bytes [] [] = true
same_bytes (x ∷ xs) (y ∷ ys) = x == y && same_bytes xs ys
same_bytes _ _ = false

pub same_bytes_iff : (xs ys : List ℕ) → (same_bytes xs ys ≡ true) ↔ (xs ≡ ys)
same_bytes_iff [] [] = (λ _. refl, λ _. refl)
same_bytes_iff (x ∷ xs) [] = ground arith
same_bytes_iff [] (y ∷ ys) = ground arith
same_bytes_iff (x ∷ xs) (y ∷ ys) = ground (arith, same_bytes_iff xs ys)

pub Octets-drop : (n : ℕ) (xs : List ℕ) → Octets xs → Octets (drop n xs)
Octets-drop zero xs o = o
Octets-drop (suc n) [] o = o
Octets-drop (suc n) (x ∷ xs) o = Octets-drop n xs o.1

pub Octets-take : (n : ℕ) (xs : List ℕ) → Octets xs → Octets (take n xs)
Octets-take zero xs o = tt
Octets-take (suc n) [] o = o
Octets-take (suc n) (x ∷ xs) o = (o.0, Octets-take n xs o.1)

module _ {ℓ} {A : Type ℓ} where
  pub take-append : (xs ys : List A) → take (length xs) (xs ++ ys) ≡ xs
  take-append [] ys = refl
  take-append (x ∷ xs) ys = ap (λ l. x ∷ l) (take-append xs ys)

  pub drop-append : (xs ys : List A) → drop (length xs) (xs ++ ys) ≡ ys
  drop-append [] ys = refl
  drop-append (x ∷ xs) ys = drop-append xs ys

-- Every element satisfies `P`.
abbrev pub All {ℓ κ} : {A : Type ℓ} → (A → Type κ) → List A → Type κ
All P [] = Unit
All P (x ∷ xs) = P x × All P xs

pub Octets-append : (xs ys : List ℕ) → Octets xs → Octets ys → Octets (xs ++ ys)
Octets-append [] ys o p = p
Octets-append (x ∷ xs) ys o p = (o.0, Octets-append xs ys o.1 p)

pub take-length {ℓ} : {A : Type ℓ} (xs : List A) → take (length xs) xs ≡ xs
take-length [] = refl
take-length (x ∷ xs) = ap (λ l. x ∷ l) (take-length xs)

pub take-eq_of_length {ℓ} : {A : Type ℓ} (n : ℕ) (xs : List A) → length xs ≡ n → take n xs ≡ xs
take-eq_of_length n xs e = ap (λ k. take k xs) (sym e) ∙ take-length xs

pub eq-nil_of_length {ℓ} : {A : Type ℓ} (xs : List A) → length xs ≡ 0 → xs ≡ []
eq-nil_of_length [] e = refl
eq-nil_of_length (x ∷ xs) e = absurd (omega arith)
