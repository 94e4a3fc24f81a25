-- ===== src/Archive/Text.antt =====
-- Names that are read again: `_zip_string_get` gives the same text and leaves the string as it is.
use allvm_tools.Str.{string_get, Str, converts, get_text}
use allvm_tools.Archive.{get_c_string, string_get, c_string}
use allvm_tools.Flags.{no_flags}
use allvm_tools.Utf8.{
  Encoding, same_encoding, guess_encoding, enc_unknown, enc_cp437, scan, cp437_to_utf8, enc_ascii,
}
use allvm_tools.Base.{
  ℕ, none, ap, List, ◌∙◌, ◌≡◌, sym, some, Option, inr, length, inl, Bool-cases, refl, arith,
  if◌then◌else◌, Option-cases, subst, false, true, Bool, [],
}

-- A string that reads as the name `t`, with or without memory, and is not changed by it.
abbrev pub Reads : Option Str → List ℕ → Type 0
Reads s t = (room : Option (List ℕ)) → get_c_string room s no_flags ≡ (some t, s)

pub Reads-none : Reads none []
unfolding get_c_string string_get
Reads-none room = refl

-- Two texts of one string are the same.
pub Reads-unique : (s : Option Str) (t u : List ℕ) → Reads s t → Reads s u → t ≡ u
Reads-unique s t u p q = some-injective (ap (λ x. x.0) (sym (p none) ∙ q none))
  where
    some-injective : {a b : List ℕ} → some a ≡ some b → a ≡ b
    some-injective e = cc

-- The encoding that a read settles on.
abbrev settle : List ℕ → Encoding → Encoding
settle raw e = if same_encoding e enc_unknown then scan (length raw) enc_ascii raw else e

settle-again : (raw : List ℕ) (e : Encoding) → settle raw (settle raw e) ≡ settle raw e
settle-again raw e = elim (Bool-cases (same_encoding e enc_unknown)) [
  | inl unknown ↦
      let again : settle raw (scan (length raw) enc_ascii raw) ≡ scan (length raw) enc_ascii raw =
        ground arith in
      rw unknown again
  | inr known ↦ rw (known, known) refl
]

-- The read with the encoding settled.
abbrev read_settled : Option (List ℕ) → Str → Encoding → Option (List ℕ × ℕ) × Str
read_settled room s e =
    let s' = record s { encoding = e } in
    if same_encoding e enc_cp437
    then elim s.converted as (λ _. Option (List ℕ × ℕ) × Str) [
      | some text ↦ (some (text, s.converted_length), s')
      | none ↦ elim (cp437_to_utf8 room s.raw) [
        | none ↦ (none, s')
        | some (text, len) ↦
            (some (text, len), record s' { converted = some text; converted_length = len })
      ]
    ]
    else (some (s.raw, s.length), s')

abbrev guessed : List ℕ → Encoding → Encoding
guessed raw e = if same_encoding e enc_unknown then (guess_encoding raw e enc_unknown).1 else e

guessed-eq-settle : (raw : List ℕ) (e : Encoding) → guessed raw e ≡ settle raw e
guessed-eq-settle raw e = elim (Bool-cases (same_encoding e enc_unknown)) [
  | inl unknown ↦ unfold guess_encoding in ground arith
  | inr known ↦ rw known refl
]

get_text-guessed :
    (room : Option (List ℕ)) (s : Str)
    → get_text room s no_flags ≡ read_settled room s (guessed s.raw s.encoding)
unfolding get_text converts
get_text-guessed room s = refl

get_text-eq :
    (room : Option (List ℕ)) (s : Str)
    → get_text room s no_flags ≡ read_settled room s (settle s.raw s.encoding)
get_text-eq room s =
    get_text-guessed room s ∙ ap (read_settled room s) (guessed-eq-settle s.raw s.encoding)

-- A read with a settled encoding leaves a string whose reads give what it gave.
abbrev read_by :
    Bool → Option (List ℕ) → Option (List ℕ × ℕ) → Str → Encoding → Option (List ℕ × ℕ) × Str
read_by false converted made s e = (some (s.raw, s.length), record s { encoding = e })
read_by true (some text) made s e = (some (text, s.converted_length), record s { encoding = e })
read_by true none none s e = (none, record s { encoding = e })
read_by true none (some (text, n)) s e =
    (some (text, n), record s { encoding = e; converted = some text; converted_length = n })

read_elim-eq :
    (b : Bool) (converted : Option (List ℕ)) (made : Option (List ℕ × ℕ)) (s : Str) (e : Encoding)
    → (let s' = record s { encoding = e } in
        if b
        then elim converted as (λ _. Option (List ℕ × ℕ) × Str) [
          | some text ↦ (some (text, s.converted_length), s')
          | none ↦ elim made [
            | none ↦ (none, s')
            | some (text, len) ↦
                (some (text, len), record s' { converted = some text; converted_length = len })
          ]
        ]
        else (some (s.raw, s.length), s'))
      ≡ read_by b converted made s e
read_elim-eq false converted made s e = refl
read_elim-eq true (some text) made s e = refl
read_elim-eq true none none s e = refl
read_elim-eq true none (some (text, n)) s e = refl

read_settled-eq :
    (room : Option (List ℕ)) (s : Str) (e : Encoding)
    → read_settled room s e
      ≡ read_by (same_encoding e enc_cp437) s.converted (cp437_to_utf8 room s.raw) s e
read_settled-eq room s e =
    read_elim-eq (same_encoding e enc_cp437) s.converted (cp437_to_utf8 room s.raw) s e

abbrev Again : Option (List ℕ) → Option (List ℕ × ℕ) × Str → Type 0
Again later (o, s) =
    read_by (same_encoding (settle s.raw s.encoding) enc_cp437) s.converted
      (cp437_to_utf8 later s.raw) s (settle s.raw s.encoding)
    ≡ (o, s)

read_by-Again :
    (b : Bool) (converted : Option (List ℕ)) (made : Option (List ℕ × ℕ)) (s s' : Str)
    (e : Encoding) (r : List ℕ × ℕ) (later : Option (List ℕ))
    → same_encoding e enc_cp437 ≡ b
    → s.converted ≡ converted
    → settle s.raw e ≡ e
    → read_by b converted made s e ≡ (some r, s')
    → Again later (some r, s')
read_by-Again false converted made s s' e r later way had fixed h =
    subst (Again later) h (rw (fixed, way) refl)
read_by-Again true (some text) made s s' e r later way had fixed h =
    subst (Again later) h (rw (fixed, way, had) refl)
read_by-Again true none none s s' e r later way had fixed h = absurd (no_some (ap (λ p. p.0) h))
  where
    no_some : {a : List ℕ × ℕ} → ◌≡◌ {A = Option (List ℕ × ℕ)} none (some a) → ⊥
    no_some q = cc
read_by-Again true none (some (text, n)) s s' e r later way had fixed h =
    subst (Again later) h (rw (fixed, way) refl)

-- What a string is read as the first time, it is read as again.
pub get_text-again :
    (room : Option (List ℕ)) (s s' : Str) (r : List ℕ × ℕ)
    → get_text room s no_flags ≡ (some r, s')
    → (later : Option (List ℕ)) → get_text later s' no_flags ≡ (some r, s')
get_text-again room s s' r read later =
    let e = settle s.raw s.encoding in
    let e' = settle s'.raw s'.encoding in
    get_text-eq later s'
    ∙ read_settled-eq later s' e'
    ∙ read_by-Again (same_encoding e enc_cp437) s.converted (cp437_to_utf8 room s.raw) s s' e r
        later refl refl (settle-again s.raw s.encoding)
        (sym (read_settled-eq room s e) ∙ sym (get_text-eq room s) ∙ read)

abbrev pub as_c_string : Option (List ℕ × ℕ) → Option (List ℕ)
as_c_string none = none
as_c_string (some (bytes, n)) = some (c_string bytes)

as_c_string-eq :
    (o : Option (List ℕ × ℕ))
    → elim o as (λ _. Option (List ℕ)) [ none ↦ none | some (bytes, n) ↦ some (c_string bytes) ]
      ≡ as_c_string o
as_c_string-eq none = refl
as_c_string-eq (some (bytes, n)) = refl

pub get_c_string-eq :
    (room : Option (List ℕ)) (s : Str)
    → get_c_string room (some s) no_flags
      ≡ (as_c_string (get_text room s no_flags).0, some (get_text room s no_flags).1)
unfolding get_c_string string_get
get_c_string-eq room s =
    ap (λ o. (o, some (get_text room s no_flags).1)) (as_c_string-eq (get_text room s no_flags).0)

-- What a read gave is what every later read gives.
pub get_c_string-Reads :
    (room : Option (List ℕ)) (s s' : Option Str) (t : List ℕ)
    → get_c_string room s no_flags ≡ (some t, s')
    → Reads s' t
unfolding get_c_string string_get
get_c_string-Reads room none s' t h later = subst (λ p. get_c_string later p.1 no_flags ≡ p) h refl
get_c_string-Reads room (some s) s' t h later =
    let s1 = (get_text room s no_flags).1 in
    let h' = sym (get_c_string-eq room s) ∙ h in
    elim (Option-cases (get_text room s no_flags).0) [
      | inl failed ↦ absurd (no_some (sym (ap as_c_string failed) ∙ ap (λ p. p.0) h'))
      | inr (r, read) ↦
          let again = get_text-again room s s1 r (ap (λ o. (o, s1)) read) later in
          let h'' : (some (c_string r.0), some s1) ≡ (some t, s') =
            sym (ap (λ o. (as_c_string o, some s1)) read) ∙ h' in
          subst (λ p. get_c_string later p.1 no_flags ≡ p) h''
            (get_c_string-eq later s1 ∙ ap (λ (o, u). (as_c_string o, some u)) again)
    ]
  where
    no_some : {a : List ℕ} → ◌≡◌ {A = Option (List ℕ)} none (some a) → ⊥
    no_some q = cc
