-- ===== src/Str.antt =====
-- libs/archive-rw/zip_string.c: names and comments, with their encodings.
pub mod Get
mod Examples
use allvm_tools.Run.{Code, er_inval, er_memory}
use allvm_tools.Flags.{Flags}
use allvm_tools.Utf8.{
  Encoding, enc_utf8_known, same_encoding, enc_cp437, enc_ascii, enc_unknown, guess_encoding,
  cp437_to_utf8, enc_error,
}
use allvm_tools.Base.{
  false, ◌==◌, ◌&&◌, same_bytes, if◌then◌else◌, [], some, List, Option, ℕ, ◌||◌, true, Bool, none,
  not, take,
}

-- `struct zip_string`. `raw` is the memory behind `raw` up to the NUL that follows the text; `converted`
-- is what `_zip_cp437_to_utf8` gave, with its NUL.
pub record Str : Type 0 where
  pub raw : List ℕ
  pub length : ℕ
  pub encoding : Encoding
  pub converted : Option (List ℕ)
  pub converted_length : ℕ

-- `_zip_string_equal`; `none` is NULL. `memcmp` reads the first `length` bytes.
unfoldable pub equal : Option Str → Option Str → Bool
equal none none = true
equal (some a) none = false
equal none (some b) = false
equal (some a) (some b) =
    (a.length == b.length) && same_bytes (take a.length a.raw) (take a.length b.raw)

-- `_zip_string_length`
unfoldable pub string_length : Option Str → ℕ
string_length none = 0
string_length (some s) = s.length

-- The switch of `_zip_string_new` on the flags of ZIP_FL_ENCODING_ALL.
unfoldable pub expected_of : Flags → Option Encoding
expected_of flags =
    if flags.enc_utf_8
    then (if flags.enc_cp437 then none else some enc_utf8_known)
    else if flags.enc_cp437
    then some enc_cp437
    else some enc_unknown

-- `_zip_string_new`: the error that it sets, and the string, `none` for NULL. `room` and `raw_room` say
-- whether its two calls of `malloc` succeed; `given` is what `raw` points to, of `n` bytes at least.
unfoldable pub string_new : Bool → Bool → List ℕ → ℕ → Flags → Option Code × Option Str
string_new room raw_room given n flags = elim (expected_of flags) [
  | none ↦ if n == 0 then (none, none) else (some er_inval, none)
  | some expected ↦
      let raw = take n given in
      let s : Encoding → Str = λ e. record {
        raw = raw;
        length = n;
        encoding = e;
        converted = none;
        converted_length = 0;
      } in
      let (code, left) = guess_encoding raw enc_unknown expected in
      if n == 0
      then (none, none)
      else if not room
      then (some er_memory, none)
      else if not raw_room
      then (none, none)
      else if same_encoding expected enc_unknown
      then (none, some (s enc_unknown))
      else if same_encoding code enc_error
      then (some er_inval, none)
      else (none, some (s left))
]

-- The part of `_zip_string_get` after the guess: whether it gives the converted text.
unfoldable pub converts : Flags → Encoding → Bool
converts flags e =
    (flags.enc_strict && not (same_encoding e enc_ascii) && not (same_encoding e enc_utf8_known))
    || same_encoding e enc_cp437

-- The text as `_zip_string_get` returns it, up to its length, and the string afterwards; `none` is
-- NULL. `store` is what `malloc` gives the conversion.
unfoldable pub get_text : Option (List ℕ) → Str → Flags → Option (List ℕ × ℕ) × Str
get_text store s flags =
    let guessed =
      if same_encoding s.encoding enc_unknown
      then (guess_encoding s.raw s.encoding enc_unknown).1
      else s.encoding in
    let s' = record s { encoding = guessed } in
    let convert = elim s.converted as (λ _. Option (List ℕ × ℕ) × Str) [
      | some text ↦ (some (text, s.converted_length), s')
      | none ↦ elim (cp437_to_utf8 store s.raw) [
        | none ↦ (none, s')
        | some (text, len) ↦
            (some (text, len), record s' { converted = some text; converted_length = len })
      ]
    ] in
    if flags.enc_raw
    then (some (s.raw, s.length), s)
    else if converts flags guessed
    then convert
    else (some (s.raw, s.length), s')

-- `_zip_string_get`; a string of `none` is NULL, for which it returns "".
unfoldable pub string_get : Option (List ℕ) → Option Str → Flags → Option (List ℕ × ℕ) × Option Str
string_get store none flags = (some ([], 0), none)
string_get store (some s) flags = let (text, s') = get_text store s flags in (text, some s')
