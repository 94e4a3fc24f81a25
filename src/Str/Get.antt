-- ===== src/Str/Get.antt =====
-- `_zip_string_get` gives UTF-8.
use allvm_tools.Utf8.Convert.{utf8_text, cp437_to_utf8-eq, utf8_ok-utf8_text}
use allvm_tools.Flags.{no_flags}
use allvm_tools.Utf8.{
  enc_unknown, enc_ascii, utf8_buffer_len, enc_cp437, cp437_to_utf8, Encoding, same_encoding,
  enc_utf8_guessed,
}
use allvm_tools.Utf8.Guess.{
  utf8_ok, verdict, guess_encoding-eq-verdict, all_plain, utf8_form, utf8_form-utf8_ok,
}
use allvm_tools.Str.{Str, converts, get_text}
use allvm_tools.Base.{
  sym, subst, [], ◌∷◌, inr, ◌≡◌, ◌++◌, length, All, some, inl, true, take-append, take, ap,
  Bool-cases, refl, if◌then◌else◌, Option, false, take-length, List, ℕ, ◌<◌, none, ◌∙◌, ◌^◌, arith,
}

-- A string as `_zip_string_new` makes it.
abbrev pub unread : List ℕ → Str
unread raw = record {
  raw = raw;
  length = length raw;
  encoding = enc_unknown;
  converted = none;
  converted_length = 0;
}

-- The three ways through `_zip_string_get` for such a string.
module _ (raw : List ℕ) (store : Option (List ℕ)) where
  read_as : Encoding → Str
  read_as e = record (unread raw) { encoding = e }

  get_text-plain :
      (e : Encoding)
      → verdict enc_ascii raw ≡ e
      → converts no_flags e ≡ false
      → same_encoding e enc_unknown ≡ false
      → (get_text store (unread raw) no_flags ≡ (some (raw, length raw), read_as e))
        × ((later : Option (List ℕ))
            → (get_text later (read_as e) no_flags).0 ≡ some (raw, length raw))
  unfolding get_text read_as
  get_text-plain e eq straight known =
      (rw (guess_encoding-eq-verdict raw, eq, straight), λ later. rw (known, straight))

  converted_str : List ℕ → ℕ → Str
  converted_str text n = record (unread raw) {
    encoding = enc_cp437;
    converted = some text;
    converted_length = n;
  }

  get_text-converted :
      (text : List ℕ) (n : ℕ)
      → verdict enc_ascii raw ≡ enc_cp437
      → cp437_to_utf8 store raw ≡ some (text, n)
      → (get_text store (unread raw) no_flags ≡ (some (text, n), converted_str text n))
        × ((later : Option (List ℕ))
            → (get_text later (converted_str text n) no_flags).0 ≡ some (text, n))
  unfolding get_text converted_str converts
  get_text-converted text n eq conv =
      let guess = guess_encoding-eq-verdict raw in
      let after : Encoding → Option (List ℕ × ℕ) × Str =
        λ e. (some (text, n), record (converted_str text n) { encoding = e }) in
      (rw (guess, eq, conv) (ap after (ap (λ p. p.1) guess ∙ eq)), λ later. refl)

-- What a read returns, and that the next read returns the same whatever memory there is.
abbrev pub ReadAs : List ℕ → Option (List ℕ × ℕ) × Str → Type 0
ReadAs raw (result, s') =
    (out : List ℕ) × (n : ℕ) × (result ≡ some (out, n))
    × (utf8_form 0 (take n out) ≡ true)
    × (take n out ≡ (if utf8_form 0 raw then raw else utf8_text raw))
    × ((later : Option (List ℕ)) → (get_text later s' no_flags).0 ≡ result)

-- With memory for a conversion, the text of a new string of less than 2 ^ 16 bytes, none of them NUL,
-- comes out in the forms of UTF-8 under the default flags: as it is if it has them, and else converted
-- from Code Page 437. Read again, with or without memory, it is the same. The forms are lead bytes with
-- the number of continuation bytes that they ask for: overlong ones, surrogates and code points above
-- 0x10ffff are not told apart.
pub get_text-utf8 :
    (c : ℕ) (cs fresh : List ℕ)
    → All (λ b. (0 < b) × (b < 256)) (c ∷ cs)
    → length (c ∷ cs) < 2 ^ 16
    → length fresh ≡ utf8_buffer_len (c ∷ cs)
    → ReadAs (c ∷ cs) (get_text (some fresh) (unread (c ∷ cs)) no_flags)
get_text-utf8 c cs fresh octets short size =
    let raw = c ∷ cs in
    let whole = take-length raw in
    let text = utf8_text raw in
    let form = utf8_form-utf8_ok 0 raw in
    elim (Bool-cases (utf8_ok 0 raw)) [
      | inl good ↦
          let straight =
            λ (e : Encoding) (p : verdict enc_ascii raw ≡ e) (q : converts no_flags e ≡ false)
                (r : same_encoding e enc_unknown ≡ false).
              let (eq, again) = get_text-plain raw (some fresh) e p q r in
              subst (ReadAs raw) (sym eq) (
                raw,
                length raw,
                refl,
                ap (utf8_form 0) whole ∙ form ∙ good,
                rw (form, good) whole,
                again,
              ) in
          elim (Bool-cases (all_plain raw)) [
            | inl plain ↦ straight enc_ascii (rw (good, plain)) (unfold converts in refl) refl
            | inr mixed ↦
                straight enc_utf8_guessed (rw (good, mixed)) (unfold converts in refl) refl
          ]
      | inr bad ↦
          let cut = take-append text (0 ∷ []) in
          let (eq, again) =
            get_text-converted raw (some fresh) (text ++ (0 ∷ [])) (length text) (rw bad)
              (cp437_to_utf8-eq c cs fresh (omega arith) size) in
          subst (ReadAs raw) (sym eq) (
            text ++ (0 ∷ []),
            length text,
            refl,
            ap (utf8_form 0) cut ∙ utf8_form-utf8_ok 0 text ∙ utf8_ok-utf8_text raw octets,
            rw (form, bad) cut,
            again,
          )
    ]
