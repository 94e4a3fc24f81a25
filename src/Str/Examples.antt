-- ===== src/Str/Examples.antt =====
-- The theorems on strings at concrete inputs, and tests.
use allvm_tools.Run.{er_inval}
use allvm_tools.Flags.{no_flags}
use allvm_tools.Str.{string_new, get_text, expected_of}
use allvm_tools.Str.Get.{ReadAs, unread, get_text-utf8}
use allvm_tools.Utf8.{
  utf8_buffer_len, unicode_to_utf8_len, guess_encoding, cp437_to_unicode, scan, is_plain, following,
  continues,
}
use allvm_tools.Base.{some, [], refl, replicate, ◌∷◌, List, ℕ, true, arith, ◌≡◌, none}

-- "Ä" in Code Page 437.
abbrev umlaut : List ℕ
umlaut = 0x8e ∷ []

enough : 3 ≡ utf8_buffer_len umlaut
unfolding utf8_buffer_len unicode_to_utf8_len cp437_to_unicode
enough = refl

get_text-utf8_example : ReadAs umlaut (get_text (some (replicate 3 0)) (unread umlaut) no_flags)
get_text-utf8_example =
    get_text-utf8 0x8e [] (replicate 3 0) ((omega arith, omega arith), tt) (omega arith) enough

new_invalid :
    string_new true true umlaut 1 (record no_flags { enc_utf_8 = true }) ≡ (some er_inval, none)
unfolding string_new expected_of guess_encoding scan is_plain following continues
new_invalid = refl
