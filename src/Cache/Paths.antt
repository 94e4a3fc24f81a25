-- ===== src/Cache/Paths.antt =====
-- The paths of the files that compiled code is kept in.
use allvm_tools.Cache.{
  before_last_dot, object_extension, readable_name, get_cache_filename, get_object, generate_name,
  notify_object_compiled, Files, at, replace_extension, write_file, read_file,
}
use allvm_tools.Base.{
  ℕ, arith, List, ◌||◌, [], refl, ◌++◌, inr, false, ◌==◌, ◌≡◌, inl, some, Bool-cases, Bool, ◌∷◌,
  ◌∙◌, ap, true, Option, sym, ◌≢◌, if◌then◌else◌, same_bytes, same_bytes_iff, ==_iff, true_ne_false,
}

abbrev pub has_dot : List ℕ → Bool
has_dot [] = false
has_dot (c ∷ cs) = c == 46 || has_dot cs

dotless-head :
    (c : ℕ) (cs : List ℕ) → has_dot (c ∷ cs) ≡ false → ((c == 46) ≡ false) × (has_dot cs ≡ false)
dotless-head c cs h = elim (Bool-cases (c == 46)) [
  | inl dot ↦ absurd (ground arith)
  | inr other ↦ (other, ground arith)
]

-- What follows without a dot is passed over.
before_last_dot-append :
    (a b : List ℕ) → has_dot b ≡ false → before_last_dot (a ++ b) ≡ before_last_dot a
unfolding before_last_dot
before_last_dot-append [] [] h = refl
before_last_dot-append [] (c ∷ cs) h =
    let (other, rest) = dotless-head c cs h in rw (before_last_dot-append [] cs rest, other) refl
before_last_dot-append (x ∷ a) b h = rw (before_last_dot-append a b h) refl

before_last_dot-dot : (a b : List ℕ) → has_dot b ≡ false → before_last_dot (a ++ (46 ∷ b)) ≡ some a
unfolding before_last_dot
before_last_dot-dot [] b h = rw (before_last_dot-append [] b h) refl
before_last_dot-dot (x ∷ a) b h = rw (before_last_dot-dot a b h) refl

abbrev pub has_dash : List ℕ → Bool
has_dash [] = false
has_dash (c ∷ cs) = c == 45 || has_dash cs

abbrev head_of : List ℕ → ℕ
head_of [] = 0
head_of (c ∷ cs) = c

abbrev tail_of : List ℕ → List ℕ
tail_of [] = []
tail_of (c ∷ cs) = cs

or_false : (x y : Bool) → (x || y) ≡ false → (x ≡ false) × (y ≡ false)
or_false true y h = cc
or_false false y h = (refl, h)

dash_head : (c : ℕ) → 45 ≡ c → (c == 45) ≡ false → ⊥
dash_head c is other = true_ne_false ((==_iff c 45).1 (sym is)) other

-- A text before a dash is known from the whole.
dash-injective :
    (a b s t : List ℕ)
    → has_dash a ≡ false
    → has_dash b ≡ false
    → a ++ (45 ∷ s) ≡ b ++ (45 ∷ t)
    → a ≡ b
dash-injective [] [] s t p q e = refl
dash-injective [] (c ∷ b) s t p q e =
    absurd (dash_head c (ap head_of e) (or_false (c == 45) (has_dash b) q).0)
dash-injective (c ∷ a) [] s t p q e =
    absurd (dash_head c (ap head_of (sym e)) (or_false (c == 45) (has_dash a) p).0)
dash-injective (c ∷ a) (d ∷ b) s t p q e =
    ap (λ k. k ∷ a) (ap head_of e)
    ∙ ap (λ l. d ∷ l)
        (dash-injective a b s t (or_false (c == 45) (has_dash a) p).1
          (or_false (d == 45) (has_dash b) q).1 (ap tail_of e))

append-injective : (a s t : List ℕ) → a ++ s ≡ a ++ t → s ≡ t
append-injective [] s t e = e
append-injective (c ∷ a) s t e = append-injective a s t (ap tail_of e)

regroup_numeral : (h s r : List ℕ) → h ++ (45 ∷ (s ++ r)) ≡ (h ++ (45 ∷ s)) ++ r
regroup_numeral [] s r = refl
regroup_numeral (c ∷ h) s r = ap (λ l. c ∷ l) (regroup_numeral h s r)

regroup_path : (d h s r : List ℕ) → d ++ (h ++ (45 ∷ (s ++ r))) ≡ (d ++ (h ++ (45 ∷ s))) ++ r
regroup_path [] h s r = regroup_numeral h s r
regroup_path (c ∷ d) h s r = ap (λ l. c ∷ l) (regroup_path d h s r)

module _ (hex : ℕ → List ℕ) (filename : List ℕ → Option (List ℕ)) where
  -- The name of the module has an extension.
  abbrev pub HasStem : List ℕ → List ℕ → Type 0
  HasStem name stem =
      (e : List ℕ) × (has_dot e ≡ false) × (readable_name hex filename name ≡ stem ++ (46 ∷ e))

  abbrev path_of : List ℕ → ℕ → List ℕ → List ℕ
  path_of dir crc stem = dir ++ (hex crc ++ (45 ∷ (stem ++ object_extension)))

  object_path :
      (dir name stem : List ℕ) (crc : ℕ)
      → HasStem name stem
      → get_cache_filename object_extension dir (generate_name hex filename name crc)
        ≡ at (path_of dir crc stem)
  unfolding get_cache_filename generate_name
  object_path dir name stem crc (e, dotless, is) =
      let base = dir ++ (hex crc ++ (45 ∷ stem)) in
      ap (λ n. replace_extension object_extension (before_last_dot (dir ++ (hex crc ++ (45 ∷ n)))))
        is
      ∙ ap (λ q. replace_extension object_extension (before_last_dot q))
          (regroup_path dir (hex crc) stem (46 ∷ e))
      ∙ ap (replace_extension object_extension) (before_last_dot-dot base e dotless)
      ∙ ap at (sym (regroup_path dir (hex crc) stem object_extension))

  -- Compiled code that is written for a module whose name has an extension is read back for it. For a
  -- module with another checksum, whose name has an extension too, what is read stays the same. The
  -- numerals of the two checksums differ and have no dash, and the file can be opened.
  pub get_object-notify_object_compiled :
      (files : Files) (dir name name' stem stem' object : List ℕ) (crc crc' : ℕ)
      → HasStem name stem
      → HasStem name' stem'
      → has_dash (hex crc) ≡ false
      → has_dash (hex crc') ≡ false
      → hex crc ≢ hex crc'
      → (files' : Files) × (notify_object_compiled true files dir
            (generate_name hex filename name crc)
            object
          ≡ inr files')
        × (get_object files' dir (generate_name hex filename name crc) ≡ inr (some object))
        × (get_object files' dir (generate_name hex filename name' crc')
            ≡ get_object files dir (generate_name hex filename name' crc'))
  unfolding get_object notify_object_compiled
  get_object-notify_object_compiled files dir name name' stem stem' object crc crc' named named'
        plain plain' ne =
      let path = path_of dir crc stem in
      let path' = path_of dir crc' stem' in
      let kept : Files = λ q. if same_bytes q path then some object else files q in
      let here = object_path dir name stem crc named in
      let there = object_path dir name' stem' crc' named' in
      let again : kept path ≡ some object = rw ((same_bytes_iff path path).1 refl) refl in
      let other : kept path' ≡ files path' = elim (Bool-cases (same_bytes path' path)) [
        | inl same ↦ absurd (
            ne (
              sym (
                dash-injective (hex crc') (hex crc) (stem' ++ object_extension)
                  (stem ++ object_extension) plain' plain
                  (append-injective dir _ _ ((same_bytes_iff path' path).0 same)))))
        | inr differ ↦ rw differ refl
      ] in
      (
        kept,
        ap (write_file true object files) here,
        ap (read_file kept) here ∙ ap inr again,
        ap (read_file kept) there ∙ ap inr other ∙ sym (ap (read_file files) there),
      )

  -- If the path of the cache's directory has a dot, every module whose name and checksum are written
  -- without one gets the same file, whatever they are: the path up to the last dot of the directory,
  -- with the extension.
  pub get_cache_filename-shared :
      (extension stem e name : List ℕ) (crc : ℕ)
      → has_dot e ≡ false
      → has_dot (hex crc ++ (45 ∷ readable_name hex filename name)) ≡ false
      → get_cache_filename extension (stem ++ (46 ∷ e)) (generate_name hex filename name crc)
        ≡ at (stem ++ extension)
  unfolding get_cache_filename generate_name
  get_cache_filename-shared extension stem e name crc dotless h =
      ap (replace_extension extension)
        (before_last_dot-append (stem ++ (46 ∷ e)) _ h ∙ before_last_dot-dot stem e dotless)
