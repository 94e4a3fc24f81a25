-- ===== src/Utf8.antt =====
-- libs/archive-rw/zip_utf-8.c: guessing the encoding of a name, and Code Page 437 to UTF-8.
pub mod Guess
pub mod Convert
mod Examples
use allvm_tools.Base.{
  ℕ, ltb, [], suc, write_at, not, drop, false, List, some, ◌/◌, Option, ◌||◌, length, ◌%◌, get_or,
  ◌+◌, zero, ◌^◌, ◌==◌, ◌∷◌, set, ◌&&◌, if◌then◌else◌, none, ◌-◌, true, Bool,
}

-- `zip_encoding_type_t`
pub data Encoding : Type 0 where
  enc_unknown enc_ascii enc_utf8_known enc_utf8_guessed enc_cp437 enc_error : Encoding

-- `==` on encodings, by their numbers.
abbrev pub rank : Encoding → ℕ
rank enc_unknown = 0
rank enc_ascii = 1
rank enc_utf8_known = 2
rank enc_utf8_guessed = 3
rank enc_cp437 = 4
rank enc_error = 5

abbrev pub same_encoding : Encoding → Encoding → Bool
same_encoding a b = rank a == rank b

-- The bytes that `_zip_guess_encoding` passes over.
unfoldable pub is_plain : ℕ → Bool
is_plain c = (ltb 31 c && ltb c 128) || c == 13 || c == 10 || c == 9

-- `(c & UTF_8_LEN_n_MASK) == UTF_8_LEN_n_MATCH`: the top three, four or five bits of the byte. The
-- number of bytes that follow.
unfoldable pub following : ℕ → Option ℕ
following c =
    if c / 2 ^ 5 == 6
    then some 1
    else if c / 2 ^ 4 == 14
    then some 2
    else if c / 2 ^ 3 == 30
    then some 3
    else none

-- `(c & UTF_8_CONTINUE_MASK) == UTF_8_CONTINUE_MATCH`
unfoldable pub is_continue : ℕ → Bool
is_continue c = c / 2 ^ 6 == 2

-- The loop over `j`: the next `n` bytes.
unfoldable pub continues : ℕ → List ℕ → Bool
unfolding is_continue
continues zero xs = true
continues (suc n) [] = false
continues (suc n) (x ∷ xs) = is_continue x && continues n xs

-- The loop over `i`, on the bytes from `i` on. Each round passes a byte, so `fuel` of their number is
-- enough; `i + ulen >= length` reads: fewer than `ulen` bytes stand behind this one.
unfoldable pub scan : ℕ → Encoding → List ℕ → Encoding
scan fuel enc [] = enc
scan zero enc (x ∷ xs) = enc_error
scan (suc fuel) enc (x ∷ xs) =
    let plain = scan fuel enc xs in
    let long = elim (following x) as (λ _. Encoding) [
      | none ↦ enc_cp437
      | some n ↦
          let rest = scan fuel enc_utf8_guessed (drop n xs) in
          if ltb (length xs) n then enc_cp437 else if continues n xs then rest else enc_cp437
    ] in
    if is_plain x then plain else long

-- `_zip_guess_encoding` of a string with the given bytes and encoding: what it returns, and the
-- encoding that it leaves in the string.
unfoldable pub guess_encoding : List ℕ → Encoding → Encoding → Encoding × Encoding
guess_encoding raw known expected =
    let enc = if same_encoding known enc_unknown then scan (length raw) enc_ascii raw else known in
    let enc' =
      if same_encoding expected enc_utf8_known && same_encoding enc enc_utf8_guessed
      then enc_utf8_known
      else enc in
    if same_encoding expected enc_unknown
    then (enc, enc)
    else if not (same_encoding expected enc') && not (same_encoding enc' enc_ascii)
    then (enc_error, enc')
    else (enc', enc')

-- `_zip_unicode_to_utf8_len`
unfoldable pub unicode_to_utf8_len : ℕ → ℕ
unicode_to_utf8_len codepoint =
    if ltb codepoint 0x80
    then 1
    else if ltb codepoint 0x800
    then 2
    else if ltb codepoint 0x10000
    then 3
    else 4

-- `_zip_unicode_to_utf8`: the bytes that it writes, whose number it returns. `MATCH | field` is a sum,
-- as the field lies in the bits that are clear in the match.
unfoldable pub unicode_to_utf8 : ℕ → List ℕ
unicode_to_utf8 c =
    if ltb c 0x80
    then c % 2 ^ 8 ∷ []
    else if ltb c 0x800
    then (0xc0 + c / 2 ^ 6 % 2 ^ 5) ∷ (0x80 + c % 2 ^ 6) ∷ []
    else if ltb c 0x10000
    then (0xe0 + c / 2 ^ 12 % 2 ^ 4) ∷ (0x80 + c / 2 ^ 6 % 2 ^ 6) ∷ (0x80 + c % 2 ^ 6) ∷ []
    else (0xf0 + c / 2 ^ 18 % 2 ^ 3)
      ∷ (0x80 + c / 2 ^ 12 % 2 ^ 6)
      ∷ (0x80 + c / 2 ^ 6 % 2 ^ 6)
      ∷ (0x80 + c % 2 ^ 6)
      ∷ []

unfoldable pub cp437_to_unicode : List ℕ
cp437_to_unicode =
    0x0000 ∷ 0x263a ∷ 0x263b ∷ 0x2665 ∷ 0x2666 ∷ 0x2663 ∷ 0x2660 ∷ 0x2022 ∷ 0x25d8 ∷ 0x25cb ∷ 0x25d9
    ∷ 0x2642 ∷ 0x2640 ∷ 0x266a ∷ 0x266b ∷ 0x263c ∷ 0x25ba ∷ 0x25c4 ∷ 0x2195 ∷ 0x203c ∷ 0x00b6
    ∷ 0x00a7 ∷ 0x25ac ∷ 0x21a8 ∷ 0x2191 ∷ 0x2193 ∷ 0x2192 ∷ 0x2190 ∷ 0x221f ∷ 0x2194 ∷ 0x25b2
    ∷ 0x25bc ∷ 0x0020 ∷ 0x0021 ∷ 0x0022 ∷ 0x0023 ∷ 0x0024 ∷ 0x0025 ∷ 0x0026 ∷ 0x0027 ∷ 0x0028
    ∷ 0x0029 ∷ 0x002a ∷ 0x002b ∷ 0x002c ∷ 0x002d ∷ 0x002e ∷ 0x002f ∷ 0x0030 ∷ 0x0031 ∷ 0x0032
    ∷ 0x0033 ∷ 0x0034 ∷ 0x0035 ∷ 0x0036 ∷ 0x0037 ∷ 0x0038 ∷ 0x0039 ∷ 0x003a ∷ 0x003b ∷ 0x003c
    ∷ 0x003d ∷ 0x003e ∷ 0x003f ∷ 0x0040 ∷ 0x0041 ∷ 0x0042 ∷ 0x0043 ∷ 0x0044 ∷ 0x0045 ∷ 0x0046
    ∷ 0x0047 ∷ 0x0048 ∷ 0x0049 ∷ 0x004a ∷ 0x004b ∷ 0x004c ∷ 0x004d ∷ 0x004e ∷ 0x004f ∷ 0x0050
    ∷ 0x0051 ∷ 0x0052 ∷ 0x0053 ∷ 0x0054 ∷ 0x0055 ∷ 0x0056 ∷ 0x0057 ∷ 0x0058 ∷ 0x0059 ∷ 0x005a
    ∷ 0x005b ∷ 0x005c ∷ 0x005d ∷ 0x005e ∷ 0x005f ∷ 0x0060 ∷ 0x0061 ∷ 0x0062 ∷ 0x0063 ∷ 0x0064
    ∷ 0x0065 ∷ 0x0066 ∷ 0x0067 ∷ 0x0068 ∷ 0x0069 ∷ 0x006a ∷ 0x006b ∷ 0x006c ∷ 0x006d ∷ 0x006e
    ∷ 0x006f ∷ 0x0070 ∷ 0x0071 ∷ 0x0072 ∷ 0x0073 ∷ 0x0074 ∷ 0x0075 ∷ 0x0076 ∷ 0x0077 ∷ 0x0078
    ∷ 0x0079 ∷ 0x007a ∷ 0x007b ∷ 0x007c ∷ 0x007d ∷ 0x007e ∷ 0x2302 ∷ 0x00c7 ∷ 0x00fc ∷ 0x00e9
    ∷ 0x00e2 ∷ 0x00e4 ∷ 0x00e0 ∷ 0x00e5 ∷ 0x00e7 ∷ 0x00ea ∷ 0x00eb ∷ 0x00e8 ∷ 0x00ef ∷ 0x00ee
    ∷ 0x00ec ∷ 0x00c4 ∷ 0x00c5 ∷ 0x00c9 ∷ 0x00e6 ∷ 0x00c6 ∷ 0x00f4 ∷ 0x00f6 ∷ 0x00f2 ∷ 0x00fb
    ∷ 0x00f9 ∷ 0x00ff ∷ 0x00d6 ∷ 0x00dc ∷ 0x00a2 ∷ 0x00a3 ∷ 0x00a5 ∷ 0x20a7 ∷ 0x0192 ∷ 0x00e1
    ∷ 0x00ed ∷ 0x00f3 ∷ 0x00fa ∷ 0x00f1 ∷ 0x00d1 ∷ 0x00aa ∷ 0x00ba ∷ 0x00bf ∷ 0x2310 ∷ 0x00ac
    ∷ 0x00bd ∷ 0x00bc ∷ 0x00a1 ∷ 0x00ab ∷ 0x00bb ∷ 0x2591 ∷ 0x2592 ∷ 0x2593 ∷ 0x2502 ∷ 0x2524
    ∷ 0x2561 ∷ 0x2562 ∷ 0x2556 ∷ 0x2555 ∷ 0x2563 ∷ 0x2551 ∷ 0x2557 ∷ 0x255d ∷ 0x255c ∷ 0x255b
    ∷ 0x2510 ∷ 0x2514 ∷ 0x2534 ∷ 0x252c ∷ 0x251c ∷ 0x2500 ∷ 0x253c ∷ 0x255e ∷ 0x255f ∷ 0x255a
    ∷ 0x2554 ∷ 0x2569 ∷ 0x2566 ∷ 0x2560 ∷ 0x2550 ∷ 0x256c ∷ 0x2567 ∷ 0x2568 ∷ 0x2564 ∷ 0x2565
    ∷ 0x2559 ∷ 0x2558 ∷ 0x2552 ∷ 0x2553 ∷ 0x256b ∷ 0x256a ∷ 0x2518 ∷ 0x250c ∷ 0x2588 ∷ 0x2584
    ∷ 0x258c ∷ 0x2590 ∷ 0x2580 ∷ 0x03b1 ∷ 0x00df ∷ 0x0393 ∷ 0x03c0 ∷ 0x03a3 ∷ 0x03c3 ∷ 0x00b5
    ∷ 0x03c4 ∷ 0x03a6 ∷ 0x0398 ∷ 0x03a9 ∷ 0x03b4 ∷ 0x221e ∷ 0x03c6 ∷ 0x03b5 ∷ 0x2229 ∷ 0x2261
    ∷ 0x00b1 ∷ 0x2265 ∷ 0x2264 ∷ 0x2320 ∷ 0x2321 ∷ 0x00f7 ∷ 0x2248 ∷ 0x00b0 ∷ 0x2219 ∷ 0x00b7
    ∷ 0x221a ∷ 0x207f ∷ 0x00b2 ∷ 0x25a0 ∷ 0x00a0 ∷ []

-- `_cp437_to_unicode[c]`
abbrev pub unicode_of : ℕ → ℕ
unicode_of c = get_or cp437_to_unicode c 0

-- The first loop of `_zip_cp437_to_utf8`: the size of the buffer, with the final NUL, a sum of 32 bits.
unfoldable pub utf8_buffer_len : List ℕ → ℕ
utf8_buffer_len [] = 1
utf8_buffer_len (c ∷ cs) = (unicode_to_utf8_len (unicode_of c) + utf8_buffer_len cs) % 2 ^ 32

-- Its second loop, on the buffer that `malloc` gave, from `offset` on.
unfoldable pub fill_utf8 : List ℕ → ℕ → List ℕ → List ℕ
fill_utf8 buf offset [] = buf
fill_utf8 buf offset (c ∷ cs) =
    let bytes = unicode_to_utf8 (unicode_of c) in
    fill_utf8 (write_at buf offset bytes) ((offset + length bytes) % 2 ^ 32) cs

-- `_zip_cp437_to_utf8`: the buffer and the length without the NUL. `store` is what `malloc` gave;
-- `none` is NULL, with ZIP_ER_MEMORY unless the string is empty.
unfoldable pub cp437_to_utf8 : Option (List ℕ) → List ℕ → Option (List ℕ × ℕ)
cp437_to_utf8 store [] = none
cp437_to_utf8 store (c ∷ cs) =
    let last = (utf8_buffer_len (c ∷ cs) + 2 ^ 32 - 1) % 2 ^ 32 in
    elim store [ none ↦ none | some fresh ↦ some (set (fill_utf8 fresh 0 (c ∷ cs)) last 0, last) ]
