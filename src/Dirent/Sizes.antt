-- ===== src/Dirent/Sizes.antt =====
-- The sizes and the offset of an entry through a central header and its ZIP64 field.
use allvm_tools.ExtraField.{new, ExtraField, get_by_id, get_from, ef_zip64}
use allvm_tools.Run.{ok, Result, >>=-ok, return}
use allvm_tools.Flags.{ef_central, ef_both}
use allvm_tools.Dirent.{u32_max, Dirent, needs_zip64}
use allvm_tools.Buffer.{put_64, eof, put, get_64, get, current_offset, Buffer}
use allvm_tools.Dirent.Zip64.{
  large, zip64_data, read_zip64, word, process_zip64, exceeds, size_words, add_zip64, wants_zip64,
}
use allvm_tools.Base.{
  some, leb, ◌==◌, ◌||◌, ◌≢◌, inl, inr, Bool-cases, ◌-◌, ◌∙◌, ℕ, arith, ◌/◌, false, ◌≡◌, length,
  take, ◌*◌, ◌++◌, if◌then◌else◌, ◌+◌, ◌^◌, Bool, refl, ◌<◌, [], ◌∷◌, replicate, ◌%◌, List, true,
  none, take-length, ap, ◌≤◌, suc, zero, sym, eq-nil_of_length, ==_iff,
}
use allvm_tools.Buffer

-- The eight bytes of a value, if they are there.
abbrev part : Bool → ℕ → List ℕ
part false v = []
part true v =
    v % 2 ^ 8
    ∷ v / 2 ^ 8 % 2 ^ 8
    ∷ v / 2 ^ 16 % 2 ^ 8
    ∷ v / 2 ^ 24 % 2 ^ 8
    ∷ v / 2 ^ 32 % 2 ^ 8
    ∷ v / 2 ^ 40 % 2 ^ 8
    ∷ v / 2 ^ 48 % 2 ^ 8
    ∷ v / 2 ^ 56 % 2 ^ 8
    ∷ []

abbrev payload : Bool → Bool → Bool → ℕ → ℕ → ℕ → List ℕ
payload x y z u c o = part x u ++ part y c ++ part z o

abbrev scratch : Buffer
scratch = record { ok = true; free_data = false; bytes = replicate 28 0; size = 28; offset = 0 }

abbrev put_if : Bool → Buffer → ℕ → Buffer
put_if t b v = if t then (put_64 b v).1 else b

-- The three values put into the buffer.
filled-eq :
    (x y z : Bool) (u c o : ℕ)
    → let b = put_if z (put_if y (put_if x scratch u) c) o in
      (if b.ok then some (take (current_offset b) b.bytes) else none) ≡ some (payload x y z u c o)
unfolding put_64 put get current_offset
filled-eq false false false u c o = refl
filled-eq false false true u c o = refl
filled-eq false true false u c o = refl
filled-eq false true true u c o = refl
filled-eq true false false u c o = refl
filled-eq true false true u c o = refl
filled-eq true true false u c o = refl
filled-eq true true true u c o = refl

abbrev value : ℕ → ℕ
value v =
    (v / 2 ^ 56 % 2 ^ 8 * 2 ^ 56
      + v / 2 ^ 48 % 2 ^ 8 * 2 ^ 48
      + v / 2 ^ 40 % 2 ^ 8 * 2 ^ 40
      + v / 2 ^ 32 % 2 ^ 8 * 2 ^ 32
      + v / 2 ^ 24 % 2 ^ 8 * 2 ^ 24
      + v / 2 ^ 16 % 2 ^ 8 * 2 ^ 16
      + v / 2 ^ 8 % 2 ^ 8 * 2 ^ 8
      + v % 2 ^ 8)
    % 2 ^ 64

value-eq : (v : ℕ) → v < 2 ^ 64 → value v ≡ v
value-eq v h = omega arith

abbrev reader : List ℕ → Buffer
reader bytes = record {
  ok = true;
  free_data = false;
  bytes = bytes;
  size = length bytes;
  offset = 0;
}

-- The three values read back; `u'`, `c'` and `o'` are the words of the header.
abbrev Read : Bool → Bool → Bool → ℕ → ℕ → ℕ → ℕ → ℕ → ℕ → Type 0
Read x y z u c o u' c' o' =
    let r₁ = large x u' (reader (payload x y z u c o)) in
    let r₂ = large y c' r₁.1 in
    let r₃ = large z o' r₂.1 in
    (r₁.0 ≡ (if x then value u else u'))
    × (r₂.0 ≡ (if y then value c else c'))
    × (r₃.0 ≡ (if z then value o else o'))
    × (eof r₃.1 ≡ true)

large-Read : (x y z : Bool) (u c o u' c' o' : ℕ) → Read x y z u c o u' c' o'
unfolding large get_64 get eof
large-Read false false false u c o u' c' o' = (refl, refl, refl, refl)
large-Read false false true u c o u' c' o' = (refl, refl, refl, refl)
large-Read false true false u c o u' c' o' = (refl, refl, refl, refl)
large-Read false true true u c o u' c' o' = (refl, refl, refl, refl)
large-Read true false false u c o u' c' o' = (refl, refl, refl, refl)
large-Read true false true u c o u' c' o' = (refl, refl, refl, refl)
large-Read true true false u c o u' c' o' = (refl, refl, refl, refl)
large-Read true true true u c o u' c' o' = (refl, refl, refl, refl)

-- `_zip_dirent_read` on such a field, where the words of the header say which values are in it.
read_zip64-eq :
    (x y z : Bool) (u c o : ℕ) (disk : Dirent)
    → (disk.uncomp_size == u32_max) ≡ x
    → (disk.comp_size == u32_max) ≡ y
    → (disk.offset == u32_max) ≡ z
    → (disk.disk_number == 2 ^ 16 - 1) ≡ false
    → read_zip64 false disk (reader (payload x y z u c o))
      ≡ ok (record disk {
        uncomp_size = if x then value u else disk.uncomp_size;
        comp_size = if y then value c else disk.comp_size;
        offset = if z then value o else disk.offset;
      })
unfolding read_zip64 large get_64 get eof
read_zip64-eq false false false u c o disk p q r s = rw (p, q, r, s)
read_zip64-eq false false true u c o disk p q r s = rw (p, q, r, s)
read_zip64-eq false true false u c o disk p q r s = rw (p, q, r, s)
read_zip64-eq false true true u c o disk p q r s = rw (p, q, r, s)
read_zip64-eq true false false u c o disk p q r s = rw (p, q, r, s)
read_zip64-eq true false true u c o disk p q r s = rw (p, q, r, s)
read_zip64-eq true true false u c o disk p q r s = rw (p, q, r, s)
read_zip64-eq true true true u c o disk p q r s = rw (p, q, r, s)

word-full : (v : ℕ) → (word v == u32_max) ≡ leb u32_max v
unfolding word
word-full v = ground arith

word-back : (v : ℕ) → v < 2 ^ 64 → (if leb u32_max v then value v else word v) ≡ v
unfolding word
word-back v h = elim (Bool-cases (leb u32_max v)) [
  | inl full ↦ rw full (value-eq v h)
  | inr fits ↦ rw fits (ground arith)
]

zip64_data-eq :
    (de : Dirent)
    → de.uncomp_size ≢ u32_max
    → de.comp_size ≢ u32_max
    → de.offset ≢ u32_max
    → zip64_data de ef_central
      ≡ some (
          payload
            (leb u32_max de.uncomp_size)
            (leb u32_max de.comp_size)
            (leb u32_max de.offset)
            de.uncomp_size
            de.comp_size
            de.offset)
unfolding zip64_data
zip64_data-eq de p q r =
    let done =
      filled-eq (leb u32_max de.uncomp_size) (leb u32_max de.comp_size) (leb u32_max de.offset)
        de.uncomp_size de.comp_size de.offset in
    elim (Bool-cases ((exceeds de.comp_size || exceeds de.uncomp_size) || exceeds de.offset)) [
      | inl some_large ↦ rw some_large done
      | inr all_fit ↦
          let u : leb u32_max de.uncomp_size ≡ false = ground arith in
          let c : leb u32_max de.comp_size ≡ false = ground arith in
          let o : leb u32_max de.offset ≡ false = ground arith in
          rw (all_fit, u, c, o) (filled-eq false false false 0 0 0)
    ]

-- The entry as its central header has it, with the ZIP64 field before other fields.
abbrev pub central_header : Dirent → Dirent → List ℕ → List ExtraField → Dirent
central_header de on_disk bytes rest =
    let (comp, uncomp) = size_words de ef_central in
    record on_disk {
      comp_size = comp;
      uncomp_size = uncomp;
      offset = word de.offset;
      extra_fields =
          record { flags = ef_both; id = ef_zip64; size = length bytes; bytes = bytes } ∷ rest;
    }

abbrev header : Bool → Bool → Bool → ℕ → ℕ → ℕ → Dirent → List ExtraField → Dirent
header x y z u c o on_disk rest =
    let bytes = payload x y z u c o in
    record on_disk {
      comp_size = word c;
      uncomp_size = word u;
      offset = word o;
      extra_fields =
          record { flags = ef_both; id = ef_zip64; size = length bytes; bytes = bytes } ∷ rest;
    }

-- The field is found and read, or the words need none.
found_field :
    (x y z : Bool) (u c o : ℕ) (on_disk : Dirent) (rest : List ExtraField)
    → (word u == u32_max) ≡ x
    → (word c == u32_max) ≡ y
    → (word o == u32_max) ≡ z
    → (on_disk.disk_number == 2 ^ 16 - 1) ≡ false
    → let disk = header x y z u c o on_disk rest in
      process_zip64 true false disk
      ≡ ok (record disk {
        uncomp_size = if x then value u else word u;
        comp_size = if y then value c else word c;
        offset = if z then value o else word o;
      })
unfolding process_zip64 get_by_id get_from Buffer.new
found_field false false false u c o on_disk rest p q r s = rw (p, q, r)
found_field false false true u c o on_disk rest p q r s =
    rw (p, q, r)
      (read_zip64-eq false false true u c o (header false false true u c o on_disk rest) p q r s)
found_field false true false u c o on_disk rest p q r s =
    rw (p, q)
      (read_zip64-eq false true false u c o (header false true false u c o on_disk rest) p q r s)
found_field false true true u c o on_disk rest p q r s =
    rw (p, q)
      (read_zip64-eq false true true u c o (header false true true u c o on_disk rest) p q r s)
found_field true false false u c o on_disk rest p q r s =
    rw p (read_zip64-eq true false false u c o (header true false false u c o on_disk rest) p q r s)
found_field true false true u c o on_disk rest p q r s =
    rw p (read_zip64-eq true false true u c o (header true false true u c o on_disk rest) p q r s)
found_field true true false u c o on_disk rest p q r s =
    rw p (read_zip64-eq true true false u c o (header true true false u c o on_disk rest) p q r s)
found_field true true true u c o on_disk rest p q r s =
    rw p (read_zip64-eq true true true u c o (header true true true u c o on_disk rest) p q r s)

zip64_data-back :
    (de on_disk : Dirent) (rest : List ExtraField)
    → (de.uncomp_size < 2 ^ 64) × (de.comp_size < 2 ^ 64) × (de.offset < 2 ^ 64)
    → de.uncomp_size ≢ u32_max
    → de.comp_size ≢ u32_max
    → de.offset ≢ u32_max
    → on_disk.disk_number < 2 ^ 16 - 1
    → (bytes : List ℕ) × (zip64_data de ef_central ≡ some bytes)
      × (let disk = central_header de on_disk bytes rest in
          process_zip64 true false disk
          ≡ ok (record disk {
            uncomp_size = de.uncomp_size;
            comp_size = de.comp_size;
            offset = de.offset;
          }))
unfolding size_words
zip64_data-back de on_disk rest bounds p q r few = (
  payload (leb u32_max de.uncomp_size) (leb u32_max de.comp_size) (leb u32_max de.offset)
      de.uncomp_size de.comp_size de.offset,
  zip64_data-eq de p q r,
  found_field (leb u32_max de.uncomp_size) (leb u32_max de.comp_size) (leb u32_max de.offset)
        de.uncomp_size de.comp_size de.offset on_disk rest (word-full de.uncomp_size)
        (word-full de.comp_size) (word-full de.offset) (ground arith)
      ∙ rw (
        word-back de.uncomp_size bounds.0,
        word-back de.comp_size bounds.1,
        word-back de.offset bounds.2,
      ),
)

-- The entry as its central header has it, with the given fields.
abbrev pub header_with : Dirent → Dirent → List ExtraField → Dirent
header_with de on_disk fields =
    let (comp, uncomp) = size_words de ef_central in
    record on_disk {
      comp_size = comp;
      uncomp_size = uncomp;
      offset = word de.offset;
      extra_fields = fields;
    }

new-eq :
    (bytes : List ℕ) (mem : ℕ)
    → (mem' : ℕ) × (new ef_zip64 (length bytes) bytes ef_both (suc (suc mem))
        ≡ ok (record { flags = ef_both; id = ef_zip64; size = length bytes; bytes = bytes }, mem'))
unfolding new
new-eq bytes mem = elim (Bool-cases (length bytes == 0)) [
  | inl empty ↦ (
    suc mem,
    rw empty (ap filled (sym (eq-nil_of_length bytes ((==_iff (length bytes) 0).0 empty)))),
  )
  | inr some_bytes ↦ (mem, rw (some_bytes, take-length bytes) refl)
]
  where
    filled : List ℕ → Result (ExtraField × ℕ)
    filled l =
        ok (record { flags = ef_both; id = ef_zip64; size = length bytes; bytes = l }, suc mem)

word-small : (v : ℕ) → leb u32_max v ≡ false → (word v ≡ v) × ((word v == u32_max) ≡ false)
unfolding word
word-small v h = ground arith

header_with-unread :
    (de on_disk : Dirent) (rest : List ExtraField)
    → wants_zip64 de ef_central ≡ false
    → process_zip64 true false (header_with de on_disk rest)
      ≡ ok (record (header_with de on_disk rest) {
        uncomp_size = de.uncomp_size;
        comp_size = de.comp_size;
        offset = de.offset;
      })
unfolding wants_zip64 needs_zip64 process_zip64 size_words
header_with-unread de on_disk rest h =
    let (u, u') = word-small de.uncomp_size (ground arith) in
    let (c, c') = word-small de.comp_size (ground arith) in
    let (o, o') = word-small de.offset (ground arith) in rw (u', c', o') (rw (u, c, o))

-- The sizes and the offset of an entry, the sizes below 2 ^ 64, the offset at most ZIP_INT64_MAX, and none of
-- them exactly 0xffffffff, come back from the words of a central header and the fields that
-- `_zip_dirent_write` gives it, with a ZIP64 field if one is needed, for a header whose number of the
-- disk is below 0xffff, and with memory.
pub process_zip64-add_zip64 :
    (de on_disk : Dirent) (rest : List ExtraField) (mem : ℕ)
    → 3 ≤ mem
    → (de.uncomp_size < 2 ^ 64) × (de.comp_size < 2 ^ 64) × (de.offset < 2 ^ 63)
    → de.uncomp_size ≢ u32_max
    → de.comp_size ≢ u32_max
    → de.offset ≢ u32_max
    → on_disk.disk_number < 2 ^ 16 - 1
    → (fields : List ExtraField) × (mem' : ℕ) × (add_zip64 de ef_central rest mem
        ≡ ok (fields, mem'))
      × (let disk = header_with de on_disk fields in
          process_zip64 true false disk
          ≡ ok (record disk {
            uncomp_size = de.uncomp_size;
            comp_size = de.comp_size;
            offset = de.offset;
          }))
unfolding add_zip64 wants_zip64 needs_zip64
process_zip64-add_zip64 de on_disk rest (suc (suc (suc mem))) room bounds p q r few =
    elim (Bool-cases (wants_zip64 de ef_central)) [
      | inl wanted ↦
          let (bytes, made, back) =
            zip64_data-back de on_disk rest (bounds.0, bounds.1, omega (arith, bounds.2)) p q r
              few in
          let (mem', field) = new-eq bytes mem in
          (
            record { flags = ef_both; id = ef_zip64; size = length bytes; bytes = bytes } ∷ rest,
            mem',
            rw (wanted, made)
                (>>=-ok (new ef_zip64 (length bytes) bytes ef_both) (λ ef64. return (ef64 ∷ rest))
                  field),
            back,
          )
      | inr unwanted ↦
          (rest, suc (suc (suc mem)), rw unwanted, header_with-unread de on_disk rest unwanted)
    ]
process_zip64-add_zip64 de on_disk rest zero room bounds p q r few = absurd (omega arith)
process_zip64-add_zip64 de on_disk rest (suc zero) room bounds p q r few = absurd (omega arith)
process_zip64-add_zip64 de on_disk rest (suc (suc zero)) room bounds p q r few =
    absurd (omega arith)
