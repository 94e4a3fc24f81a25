-- ===== src/Utf8/Convert.antt =====
-- `_zip_cp437_to_utf8`: the text that it writes, that it fills its buffer exactly, and that the text is
-- UTF-8.
use allvm_tools.Utf8.Guess.{
  utf8_ok, utf8_ok-plain, utf8_ok-lead, all_plain, guess_encoding-eq-verdict,
}
use allvm_tools.Utf8.{
  fill_utf8, unicode_of, unicode_to_utf8_len, cp437_to_unicode, continues, cp437_to_utf8, is_plain,
  following, guess_encoding, enc_unknown, enc_ascii, enc_utf8_guessed, unicode_to_utf8,
  utf8_buffer_len,
}
use allvm_tools.Base.{
  ℕ, List, ◌++◌, ◌∷◌, [], ◌+◌, refl, ◌≡◌, length, ◌≤◌, write_at, append-nil, arith, ap, set, drop,
  length-append, ◌==◌, not, append_assoc, inl, ◌∙◌, sym, eq-nil_of_length, none, ◌&&◌, ◌-◌, ◌<◌,
  length-drop, some, inr, true, zero, false, drop-drop, drop-cons, get_or, suc, Option-cases, Bool,
  Bool-cases, ◌||◌, if◌then◌else◌, All, ◌^◌, ◌%◌, ◌*◌,
}

-- The converted text.
unfoldable pub utf8_text : List ℕ → List ℕ
utf8_text [] = []
utf8_text (c ∷ cs) = unicode_to_utf8 (unicode_of c) ++ utf8_text cs

length-unicode_to_utf8 : (c : ℕ) → length (unicode_to_utf8 c) ≡ unicode_to_utf8_len c
unfolding unicode_to_utf8 unicode_to_utf8_len
length-unicode_to_utf8 c = ground arith

unicode_to_utf8_len-bound : (c : ℕ) → unicode_to_utf8_len c ≤ 4
unfolding unicode_to_utf8_len
unicode_to_utf8_len-bound c = ground arith

length-utf8_text :
    (cs : List ℕ)
    → 4 * length cs + 1 < 2 ^ 32
    → (utf8_buffer_len cs ≡ length (utf8_text cs) + 1) × (length (utf8_text cs) ≤ 4 * length cs)
unfolding utf8_buffer_len utf8_text
length-utf8_text [] h = (refl, omega arith)
length-utf8_text (c ∷ cs) h =
    let (size, bound) = length-utf8_text cs (omega arith) in
    let one = unicode_to_utf8_len-bound (unicode_of c) in
    let total = length-append (unicode_to_utf8 (unicode_of c)) (utf8_text cs) in
    let here = length-unicode_to_utf8 (unicode_of c) in (omega arith, omega arith)

set-append :
    (pre : List ℕ) (x : ℕ) (xs : List ℕ) (v : ℕ)
    → set (pre ++ (x ∷ xs)) (length pre) v ≡ pre ++ (v ∷ xs)
set-append [] x xs v = refl
set-append (p ∷ pre) x xs v = ap (λ l. p ∷ l) (set-append pre x xs v)

-- A write at the end of a part that stays.
write_at-append :
    (pre xs vs : List ℕ)
    → length vs ≤ length xs
    → write_at (pre ++ xs) (length pre) vs ≡ (pre ++ vs) ++ drop (length vs) xs
write_at-append pre xs [] h = rw append-nil
write_at-append pre [] (v ∷ vs) h = absurd (omega arith)
write_at-append pre (x ∷ xs) (v ∷ vs) h =
    let one : List ℕ = v ∷ [] in
    let longer : suc (length pre) ≡ length (pre ++ one) = omega (arith, length-append pre one) in
    ap (λ l. write_at l (suc (length pre)) vs)
      (set-append pre x xs v ∙ sym (append_assoc pre one xs))
    ∙ ap (λ k. write_at ((pre ++ one) ++ xs) k vs) longer
    ∙ write_at-append (pre ++ one) xs vs (omega arith)
    ∙ ap (λ l. l ++ drop (length vs) xs) (append_assoc pre one vs)

fill_utf8-append :
    (cs pre xs : List ℕ)
    → length (utf8_text cs) ≤ length xs
    → length pre + length (utf8_text cs) < 2 ^ 32
    → fill_utf8 (pre ++ xs) (length pre) cs
      ≡ (pre ++ utf8_text cs) ++ drop (length (utf8_text cs)) xs
unfolding fill_utf8 utf8_text
fill_utf8-append [] pre xs h small = rw append-nil
fill_utf8-append (c ∷ cs) pre xs h small =
    let u = unicode_to_utf8 (unicode_of c) in
    let t = utf8_text cs in
    let total = length-append u t in
    let next : (length pre + length u) % 2 ^ 32 ≡ length (pre ++ u) =
      omega (arith, length-append pre u) in
    ap (λ l. fill_utf8 l ((length pre + length u) % 2 ^ 32) cs)
      (write_at-append pre xs u (omega arith))
    ∙ ap (λ k. fill_utf8 ((pre ++ u) ++ drop (length u) xs) k cs) next
    ∙ fill_utf8-append cs (pre ++ u) (drop (length u) xs) (omega (arith, length-drop (length u) xs))
        (omega (arith, length-append pre u))
    ∙ rw (append_assoc pre u t, drop-drop (length t) (length u) xs, total)

last_byte :
    (t xs : List ℕ) (v : ℕ)
    → length xs ≡ length t + 1
    → set (t ++ drop (length t) xs) (length t) v ≡ t ++ (v ∷ [])
last_byte t xs v h =
    let d : ℕ = get_or xs (length t) 0 in
    let after : drop (suc (length t)) xs ≡ [] =
      eq-nil_of_length (drop (suc (length t)) xs)
        (omega (arith, length-drop (suc (length t)) xs)) in
    rw (drop-cons (length t) xs 0 (omega arith), after) (set-append t d [] v)

-- For a name whose length, times four, is below 2 ^ 32 - 1, and with memory of the size that the first
-- loop computes, `_zip_cp437_to_utf8` fills that memory exactly with the converted text and a NUL,
-- whatever it held, and returns the length of the text.
pub cp437_to_utf8-eq :
    (c : ℕ) (cs fresh : List ℕ)
    → 4 * length (c ∷ cs) + 1 < 2 ^ 32
    → length fresh ≡ utf8_buffer_len (c ∷ cs)
    → let t = utf8_text (c ∷ cs) in
      cp437_to_utf8 (some fresh) (c ∷ cs) ≡ some (t ++ (0 ∷ []), length t)
unfolding cp437_to_utf8
cp437_to_utf8-eq c cs fresh short h =
    let t = utf8_text (c ∷ cs) in
    let (size, bound) = length-utf8_text (c ∷ cs) short in
    let n : (utf8_buffer_len (c ∷ cs) + 2 ^ 32 - 1) % 2 ^ 32 ≡ length t = omega arith in
    let filled = fill_utf8-append (c ∷ cs) [] fresh (omega arith) (omega arith) in
    rw (n, filled, last_byte t fresh 0 (omega arith))

-- One character: a plain byte, or a lead byte and its continuation bytes.
is_unit : List ℕ → Bool
is_unit [] = false
is_unit (x ∷ xs) =
    (is_plain x && length xs == 0)
    || (not (is_plain x)
        && elim (following x) [ none ↦ false | some n ↦ length xs == n && continues n xs ])

continues-append :
    (n : ℕ) (xs ys : List ℕ)
    → length xs ≡ n
    → continues n xs ≡ true
    → utf8_ok n (xs ++ ys) ≡ utf8_ok 0 ys
unfolding continues utf8_ok
continues-append zero [] ys h e = refl
continues-append zero (x ∷ xs) ys h e = absurd (omega arith)
continues-append (suc n) [] ys h e = absurd (omega arith)
continues-append (suc n) (x ∷ xs) ys h e = ground (arith, continues-append n xs ys)

utf8_ok-unit : (us ys : List ℕ) → is_unit us ≡ true → utf8_ok 0 (us ++ ys) ≡ utf8_ok 0 ys
unfolding is_unit
utf8_ok-unit [] ys e = cc
utf8_ok-unit (x ∷ xs) ys e = elim (Bool-cases (is_plain x)) [
  | inl plain ↦
      let nil : xs ≡ [] = eq-nil_of_length xs (ground arith) in
      utf8_ok-plain x (xs ++ ys) plain ∙ rw nil
  | inr long ↦ elim (Option-cases (following x)) [
    | inl bad ↦ absurd (ground arith)
    | inr (n, lead) ↦
        utf8_ok-lead x (xs ++ ys) long lead ∙ continues-append n xs ys (ground arith) (ground arith)
  ]
]

all_below : ℕ → (ℕ → Bool) → Bool
all_below zero p = true
all_below (suc n) p = p n && all_below n p

all_below_elim : (n : ℕ) (p : ℕ → Bool) (x : ℕ) → all_below n p ≡ true → x < n → p x ≡ true
unfolding all_below
all_below_elim zero p x h lt = absurd (omega arith)
all_below_elim (suc n) p x h lt = ground (arith, all_below_elim n p x)

-- Every byte of Code Page 437 but 0 becomes one character.
table-units : all_below 256 (λ c. c == 0 || is_unit (unicode_to_utf8 (unicode_of c))) ≡ true
unfolding all_below is_unit unicode_to_utf8 cp437_to_unicode is_plain following continues
table-units = refl

byte-unit : (c : ℕ) → 0 < c → c < 256 → is_unit (unicode_to_utf8 (unicode_of c)) ≡ true
byte-unit c pos lt =
    let entry =
      all_below_elim 256 (λ d. d == 0 || is_unit (unicode_to_utf8 (unicode_of d))) c table-units
        lt in
    let other : (c == 0) ≡ false = ground arith in rw other at entry

pub utf8_ok-utf8_text :
    (cs : List ℕ) → All (λ c. (0 < c) × (c < 256)) cs → utf8_ok 0 (utf8_text cs) ≡ true
unfolding utf8_text
utf8_ok-utf8_text [] h = unfold utf8_ok in refl
utf8_ok-utf8_text (c ∷ cs) h =
    utf8_ok-unit (unicode_to_utf8 (unicode_of c)) (utf8_text cs) (byte-unit c h.0.0 h.0.1)
    ∙ utf8_ok-utf8_text cs h.1

-- The text that a Code Page 437 name without NULs is converted to is guessed to be UTF-8, or ASCII if
-- all its bytes are plain: it is never taken for Code Page 437 again.
pub guess_encoding-utf8_text :
    (cs : List ℕ)
    → All (λ c. (0 < c) × (c < 256)) cs
    → (guess_encoding (utf8_text cs) enc_unknown enc_unknown).0
      ≡ (if all_plain (utf8_text cs) then enc_ascii else enc_utf8_guessed)
guess_encoding-utf8_text cs h =
    ap (λ p. p.0) (guess_encoding-eq-verdict (utf8_text cs)) ∙ rw (utf8_ok-utf8_text cs h)
