-- ===== src/Utf8/Guess.antt =====
-- `_zip_guess_encoding` against a grammar of UTF-8 read byte by byte.
use allvm_tools.Utf8.{
  continues, enc_unknown, following, enc_utf8_guessed, is_continue, enc_cp437, enc_ascii, is_plain,
  guess_encoding, Encoding, scan,
}
use allvm_tools.Base.{
  ℕ, inr, suc, inl, Bool-cases, length, ◌&&◌, not, true, none, ◌≤◌, [], ltb, refl, ◌==◌,
  if◌then◌else◌, zero, Option-cases, some, List, ◌≡◌, arith, false, ◌∷◌, Bool, drop, length-drop,
  ◌∙◌, leb, ◌||◌, Option,
}

-- The forms of UTF-8, by the ranges of bytes: an ASCII byte that text has; a byte from 0xc0 to 0xdf, from
-- 0xe0 to 0xef, or from 0xf0 to 0xf7, followed by one, two or three from 0x80 to 0xbf. Overlong forms,
-- surrogates and code points above 0x10ffff have such forms too.
abbrev pub between : ℕ → ℕ → ℕ → Bool
between low high c = leb low c && leb c high

unfoldable pub text_byte : ℕ → Bool
text_byte c = between 0x20 0x7f c || between 9 10 c || c == 13

unfoldable pub tail_length : ℕ → Option ℕ
tail_length c =
    if between 0xc0 0xdf c
    then some 1
    else if between 0xe0 0xef c
    then some 2
    else if between 0xf0 0xf7 c
    then some 3
    else none

-- `pending` bytes are still to come of a character.
unfoldable pub utf8_form : ℕ → List ℕ → Bool
utf8_form pending [] = pending == 0
utf8_form zero (x ∷ xs) = elim (text_byte x) [
  | true ↦ utf8_form 0 xs
  | false ↦ elim (tail_length x) [ none ↦ false | some n ↦ utf8_form n xs ]
]
utf8_form (suc pending) (x ∷ xs) = between 0x80 0xbf x && utf8_form pending xs

unfoldable pub all_text : List ℕ → Bool
all_text [] = true
all_text (x ∷ xs) = text_byte x && all_text xs

-- What the forms say of the encoding.
abbrev pub encoding_of : List ℕ → Encoding
encoding_of xs =
    if utf8_form 0 xs then if all_text xs then enc_ascii else enc_utf8_guessed else enc_cp437

-- The same forms in the terms of the code.
unfoldable pub utf8_ok : ℕ → List ℕ → Bool
utf8_ok pending [] = pending == 0
utf8_ok zero (x ∷ xs) = elim (is_plain x) [
  | true ↦ utf8_ok 0 xs
  | false ↦ elim (following x) [ none ↦ false | some n ↦ utf8_ok n xs ]
]
utf8_ok (suc pending) (x ∷ xs) = is_continue x && utf8_ok pending xs

unfoldable pub all_plain : List ℕ → Bool
all_plain [] = true
all_plain (x ∷ xs) = is_plain x && all_plain xs

text_byte-is_plain : (c : ℕ) → text_byte c ≡ is_plain c
unfolding text_byte is_plain
text_byte-is_plain c = ground arith

tail_length-following : (c : ℕ) → tail_length c ≡ following c
unfolding tail_length following
tail_length-following c = ground arith

between-is_continue : (c : ℕ) → between 0x80 0xbf c ≡ is_continue c
unfolding is_continue
between-is_continue c = ground arith

pub utf8_form-utf8_ok : (n : ℕ) (xs : List ℕ) → utf8_form n xs ≡ utf8_ok n xs
unfolding utf8_form utf8_ok
utf8_form-utf8_ok n [] = refl
utf8_form-utf8_ok zero (x ∷ xs) =
    let plain = text_byte-is_plain x in
    let lead = tail_length-following x in
    elim (Bool-cases (is_plain x)) [
      | inl passed ↦ ground (arith, plain, utf8_form-utf8_ok 0 xs)
      | inr long ↦ elim (Option-cases (following x)) [
        | inl bad ↦ ground (arith, plain, lead)
        | inr (n, some_bytes) ↦ ground (arith, plain, lead, utf8_form-utf8_ok n xs)
      ]
    ]
utf8_form-utf8_ok (suc n) (x ∷ xs) = ground (arith, between-is_continue x, utf8_form-utf8_ok n xs)

pub all_text-all_plain : (xs : List ℕ) → all_text xs ≡ all_plain xs
unfolding all_text all_plain
all_text-all_plain [] = refl
all_text-all_plain (x ∷ xs) = rw (text_byte-is_plain x, all_text-all_plain xs)

-- What the grammar says of the encoding.
abbrev pub verdict : Encoding → List ℕ → Encoding
verdict enc xs = if utf8_ok 0 xs then if all_plain xs then enc else enc_utf8_guessed else enc_cp437

utf8_ok-pending :
    (n : ℕ) (xs : List ℕ)
    → utf8_ok n xs ≡ (not (ltb (length xs) n) && (continues n xs && utf8_ok 0 (drop n xs)))
unfolding utf8_ok continues
utf8_ok-pending zero xs = ground arith
utf8_ok-pending (suc n) [] = ground arith
utf8_ok-pending (suc n) (x ∷ xs) = ground (arith, utf8_ok-pending n xs)

if_same : (t : Bool) (e : Encoding) → (if t then e else e) ≡ e
if_same true e = refl
if_same false e = refl

-- A lead byte that asks for `n` more.
after_lead :
    (n : ℕ) (xs : List ℕ) (later : Encoding)
    → later ≡ verdict enc_utf8_guessed (drop n xs)
    → (if ltb (length xs) n then enc_cp437 else if continues n xs then later else enc_cp437)
      ≡ (if utf8_ok n xs then enc_utf8_guessed else enc_cp437)
after_lead n xs later e =
    rw (utf8_ok-pending n xs, e, if_same (all_plain (drop n xs)) enc_utf8_guessed)
      (elim (ltb (length xs) n)
        as (λ t.
          (if t
            then enc_cp437
            else if continues n xs
            then (if utf8_ok 0 (drop n xs) then enc_utf8_guessed else enc_cp437)
            else enc_cp437)
          ≡ (if (not t && (continues n xs && utf8_ok 0 (drop n xs)))
              then enc_utf8_guessed
              else enc_cp437)) [
                | true ↦ refl
                | false ↦
                    elim (continues n xs)
                      as (λ t.
                        (if t
                          then (if utf8_ok 0 (drop n xs) then enc_utf8_guessed else enc_cp437)
                          else enc_cp437)
                        ≡ (if (t && utf8_ok 0 (drop n xs)) then enc_utf8_guessed else enc_cp437)) [
                          | true ↦ refl
                          | false ↦ refl
                        ]
              ])

module _ (x : ℕ) (xs : List ℕ) where
  pub utf8_ok-plain : is_plain x ≡ true → utf8_ok 0 (x ∷ xs) ≡ utf8_ok 0 xs
  unfolding utf8_ok
  utf8_ok-plain e = ground arith

  pub utf8_ok-lead :
      {n : ℕ} → is_plain x ≡ false → following x ≡ some n → utf8_ok 0 (x ∷ xs) ≡ utf8_ok n xs
  unfolding utf8_ok
  utf8_ok-lead e f = ground arith

  utf8_ok-bad : is_plain x ≡ false → following x ≡ none → utf8_ok 0 (x ∷ xs) ≡ false
  unfolding utf8_ok
  utf8_ok-bad e f = ground arith

  module _ (fuel : ℕ) (enc : Encoding) where
    scan-plain : is_plain x ≡ true → scan (suc fuel) enc (x ∷ xs) ≡ scan fuel enc xs
    unfolding scan
    scan-plain e = rw e

    scan-lead :
        {n : ℕ}
        → is_plain x ≡ false
        → following x ≡ some n
        → scan (suc fuel) enc (x ∷ xs) ≡ (
            if ltb (length xs) n
            then enc_cp437
            else if continues n xs
            then scan fuel enc_utf8_guessed (drop n xs)
            else enc_cp437)
    unfolding scan
    scan-lead e f = rw (e, f)

    scan-bad : is_plain x ≡ false → following x ≡ none → scan (suc fuel) enc (x ∷ xs) ≡ enc_cp437
    unfolding scan
    scan-bad e f = rw (e, f)

-- With fuel for every byte the loop gives the grammar's verdict.
pub scan-eq-verdict :
    (fuel : ℕ) (enc : Encoding) (xs : List ℕ) → length xs ≤ fuel → scan fuel enc xs ≡ verdict enc xs
unfolding all_plain
scan-eq-verdict fuel enc [] h = unfold scan utf8_ok in refl
scan-eq-verdict zero enc (x ∷ xs) h = absurd (omega arith)
scan-eq-verdict (suc fuel) enc (x ∷ xs) h = elim (Bool-cases (is_plain x)) [
  | inl plain ↦
      scan-plain x xs fuel enc plain
      ∙ scan-eq-verdict fuel enc xs (omega arith)
      ∙ rw (utf8_ok-plain x xs plain, plain)
  | inr long ↦ elim (Option-cases (following x)) [
    | inl bad ↦ scan-bad x xs fuel enc long bad ∙ rw (utf8_ok-bad x xs long bad)
    | inr (n, lead) ↦
        let rest =
          scan-eq-verdict fuel enc_utf8_guessed (drop n xs) (omega (arith, length-drop n xs)) in
        scan-lead x xs fuel enc long lead
        ∙ after_lead n xs (scan fuel enc_utf8_guessed (drop n xs)) rest
        ∙ rw (utf8_ok-lead x xs long lead, long)
  ]
]

pub guess_encoding-eq-verdict :
    (raw : List ℕ)
    → guess_encoding raw enc_unknown enc_unknown ≡ (verdict enc_ascii raw, verdict enc_ascii raw)
unfolding guess_encoding
guess_encoding-eq-verdict raw = rw (scan-eq-verdict (length raw) enc_ascii raw (omega arith))

-- An encoding that is guessed with nothing known or expected, by the ranges of bytes: ASCII for text in
-- ASCII bytes, UTF-8 for other text in which each lead byte has the continuation bytes that its length
-- asks for, and Code Page 437 for the rest. Overlong forms, surrogates and code points above 0x10ffff
-- pass for UTF-8.
pub guess_encoding-eq-encoding_of :
    (raw : List ℕ) → guess_encoding raw enc_unknown enc_unknown ≡ (encoding_of raw, encoding_of raw)
guess_encoding-eq-encoding_of raw =
    rw (utf8_form-utf8_ok 0 raw, all_text-all_plain raw) (guess_encoding-eq-verdict raw)
