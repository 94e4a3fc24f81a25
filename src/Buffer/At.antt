-- ===== src/Buffer/At.antt =====
-- A buffer that stands before given bytes, and what the reads do there.
use allvm_tools.Buffer.Inv.{IsValid, step-IsValid, call_get_16, step}
use allvm_tools.Buffer.{Buffer, get_16, left, peek, u64, get, new}
use allvm_tools.Buffer.Cursor.{fetch, view, seen, get-refines}
use allvm_tools.Base.{
  ℕ, drop, ap, refl, false, length-drop, none, ◌<◌, ◌+◌, arith, some, List, ◌≡◌, Octets,
  Octets-drop, true, ◌*◌, ◌≤◌, length, ◌∷◌, drop-drop, ◌∙◌, subst,
}

-- The buffer has not failed, and `xs` is what it has still to read.
pub record At (b : Buffer) (xs : List ℕ) : Type 0 where
  pub valid : IsValid b
  pub here : view b ≡ some xs

pub At-new :
    (xs : List ℕ) (n : ℕ)
    → length xs ≡ n
    → n < u64
    → Octets xs
    → (b : Buffer) × (new none true (some xs) n ≡ some b) × At b xs
unfolding new view
At-new xs n e h o = (
  record { ok = true; free_data = false; bytes = xs; size = n; offset = 0 },
  refl,
  record { valid = record { stored = e; fits = h; inside = omega arith; octets = o }; here = refl },
)

module _ {b : Buffer} {xs : List ℕ} (p : At b xs) where
  pub ok-At : b.ok ≡ true
  unfolding view
  ok-At = let here = p.here in ground arith

  pub drop-At : drop b.offset b.bytes ≡ xs
  unfolding view
  drop-At = let here = p.here in ground arith

  pub left-At : left b ≡ length xs
  unfolding left
  left-At =
      let v = p.valid in ground (arith, ok-At, length-drop b.offset b.bytes, ap length drop-At)

  pub Octets-At : Octets xs
  Octets-At = subst Octets drop-At (Octets-drop b.offset b.bytes p.valid.octets)

-- The bytes of a word at the cursor are its digits.
pub get_16-At :
    {b : Buffer} (x y : ℕ) (r : List ℕ)
    → At b (x ∷ y ∷ r)
    → (b' : Buffer) × (get_16 b ≡ (x + 256 * y, b')) × At b' r
unfolding fetch step
get_16-At {b} x y r p =
    let e : seen (get_16 b) ≡ (x + 256 * y, some r) =
      (get-refines p.valid).1 ∙ rw p.here (ground arith) in
    (
      (get_16 b).1,
      ground (arith, ap (λ q. q.0) e),
      record { valid = step-IsValid call_get_16 tt p.valid; here = ap (λ q. q.1) e },
    )

-- A block in bounds is pointed to, and passed over.
pub get-At :
    {b : Buffer} (n : ℕ) (xs : List ℕ)
    → At b xs
    → n ≤ length xs
    → (at : ℕ) × (b' : Buffer) × (get b n ≡ (some at, b'))
      × (drop at b'.bytes ≡ xs)
      × At b' (drop n xs)
unfolding get peek view left
get-At {b} n xs p h = (
  b.offset,
  record b { offset = b.offset + n },
  let v = p.valid in ground (arith, left-At p, ok-At p),
  drop-At p,
  record {
    valid = let v = p.valid in ground (arith, left-At p, ok-At p);
    here = ground (arith, ok-At p, drop-drop n b.offset b.bytes, ap (drop n) (drop-At p));
  },
)

-- A block out of bounds gives NULL.
pub get-At_short :
    {b : Buffer} (n : ℕ) (xs : List ℕ) → At b xs → length xs < n → n < u64 → (get b n).0 ≡ none
unfolding get peek left
get-At_short n xs p h k = let v = p.valid in ground (arith, left-At p, ok-At p)
