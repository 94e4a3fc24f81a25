-- ===== src/Utf8/Examples.antt =====
-- The theorems on encodings at concrete inputs, and tests.
use allvm_tools.Utf8.Guess.{encoding_of, guess_encoding-eq-encoding_of}
use allvm_tools.Utf8.Convert.{utf8_text, cp437_to_utf8-eq}
use allvm_tools.Utf8.{
  utf8_buffer_len, enc_unknown, scan, enc_utf8_guessed, is_plain, enc_cp437, following, continues,
  fill_utf8, unicode_to_utf8_len, unicode_to_utf8, cp437_to_unicode, guess_encoding, cp437_to_utf8,
}
use allvm_tools.Base.{length, some, ◌++◌, ◌∷◌, ℕ, List, refl, replicate, ◌≡◌, [], arith}

-- "Ä." in UTF-8.
abbrev umlaut : List ℕ
umlaut = 0xc3 ∷ 0x84 ∷ 0x2e ∷ []

guess_encoding-eq-encoding_of_example :
    guess_encoding umlaut enc_unknown enc_unknown ≡ (encoding_of umlaut, encoding_of umlaut)
guess_encoding-eq-encoding_of_example = guess_encoding-eq-encoding_of umlaut

program : Unit {0}
unfolding guess_encoding scan is_plain following continues cp437_to_utf8 utf8_buffer_len fill_utf8
    unicode_to_utf8_len unicode_to_utf8 cp437_to_unicode utf8_text
program = tt

guess-umlaut : guess_encoding umlaut enc_unknown enc_unknown ≡ (enc_utf8_guessed, enc_utf8_guessed)
unfolding program
guess-umlaut = refl

guess_cut : guess_encoding (0xc3 ∷ []) enc_unknown enc_unknown ≡ (enc_cp437, enc_cp437)
unfolding program
guess_cut = refl

-- The same text in Code Page 437.
abbrev umlaut_437 : List ℕ
umlaut_437 = 0x8e ∷ 0x2e ∷ []

convert-umlaut : cp437_to_utf8 (some (replicate 4 7)) umlaut_437 ≡ some (umlaut ++ (0 ∷ []), 3)
unfolding program
convert-umlaut = refl

enough : 4 ≡ utf8_buffer_len umlaut_437
unfolding program
enough = refl

cp437_to_utf8-eq_example :
    cp437_to_utf8 (some (replicate 4 7)) umlaut_437
    ≡ some (utf8_text umlaut_437 ++ (0 ∷ []), length (utf8_text umlaut_437))
cp437_to_utf8-eq_example = cp437_to_utf8-eq 0x8e (0x2e ∷ []) (replicate 4 7) (omega arith) enough
