-- ===== src/Archive/Inv.antt =====
-- Well-formed archives: the table of names locates entries by the names that they have.
use allvm_tools.Flags.{no_flags}
use allvm_tools.Archive.Text.{Reads, Reads-unique}
use allvm_tools.Hash.Map.{indices}
use allvm_tools.Archive.{
  entry_dirent, Str, entry_at, has_bit, nentry, filename_bit, ok, get_name, get_dirent, Room,
  Result, set_filename, Outcome, get_c_string, err, set_entry, er_memory, entry_init, Archive,
  Entry,
}
use allvm_tools.Hash.{Hash}
use allvm_tools.Dirent.{Dirent}
use allvm_tools.Base.{
  ℕ, some, true, ◌≡◌, ◌<◌, none, Option, Bool, List, false, leb, arith, subst, ◌∙◌, sym, zero, refl,
  set, ◌∷◌, [], ap, get_or, suc,
}
use allvm_tools.Hash.Inv

abbrev pub filename_of : Option Dirent → Option Str
filename_of none = none
filename_of (some de) = de.filename

-- The names of an entry have been read before; a deleted one has no changes; and changes of anything
-- else leave the name.
pub record EntryOk (e : Entry) : Type 0 where
  pub orig_reads : (t : List ℕ) × Reads (filename_of e.orig) t
  pub changes_reads : (t : List ℕ) × Reads (filename_of e.changes) t
  pub live : e.deleted ≡ true → e.changes ≡ none
  pub kept :
      (de : Dirent)
      → e.changes ≡ some de
      → has_bit de.changed filename_bit ≡ false
      → de.filename ≡ filename_of e.orig

-- The string that is the name of an entry, from its changes, whether it is deleted, and its original;
-- NULL for a deleted entry.
abbrev pub shown : Option Dirent → Bool → Option Dirent → Option Str
shown (some de) deleted orig = de.filename
shown none true orig = none
shown none false orig = filename_of orig

-- The entry has a name, and it is `t`.
abbrev pub Named : Entry → List ℕ → Type 0
Named e t = (s : Str) × (shown e.changes e.deleted e.orig ≡ some s) × Reads (some s) t

-- The current index of a name.
abbrev pub current : Hash → List ℕ → Option ℕ
current names name = (indices names name).1

pub record IsValid (za : Archive) : Type 0 where
  pub table : Inv.IsValid za.names
  pub entries : (i : ℕ) → EntryOk (entry_at za i)
  pub located :
      (name : List ℕ) (i : ℕ)
      → current za.names name ≡ some i
      → (i < nentry za) × Named (entry_at za i) name

-- Names are unique.
pub Named-unique : (e : Entry) (t u : List ℕ) → Named e t → Named e u → t ≡ u
Named-unique e t u (s, is, reads) (s', is', reads') =
    Reads-unique (some s) t u reads (subst (λ x. Reads x u) (sym is' ∙ is) reads')

-- The directory entry that has the name, and that writing the name back changes nothing.
abbrev Shows : Entry → Str → Type 0
Shows e s =
    (original : Bool) × (de : Dirent) × (entry_dirent e no_flags ≡ ok (original, de))
    × (de.filename ≡ some s)
    × (set_filename e original de de.filename ≡ e)

shown-Shows :
    (orig changes : Option Dirent) (source : Option ℕ) (deleted : Bool) (s : Str)
    → shown changes deleted orig ≡ some s
    → Shows (record { orig = orig; changes = changes; source = source; deleted = deleted }) s
unfolding entry_dirent
shown-Shows orig (some de) source deleted s is = (false, de, refl, is, refl)
shown-Shows orig none source true s is = cc
shown-Shows none none source false s is = cc
shown-Shows (some o) none source false s is = (true, o, refl, is, refl)

pub set-get_or {ℓ} : {A : Type ℓ} (xs : List A) (i : ℕ) (d : A) → set xs i (get_or xs i d) ≡ xs
set-get_or [] i d = refl
set-get_or (x ∷ xs) zero d = refl
set-get_or (x ∷ xs) (suc i) d = ap (λ ys. x ∷ ys) (set-get_or xs i d)

-- `_zip_get_name` behind `_zip_get_dirent`.
abbrev pub read_name : Room → Archive → ℕ → Result (Bool × Dirent) → Outcome (List ℕ)
read_name room za i (err c) = (err c, za)
read_name room za i (ok (original, de)) =
    let (text, s) = get_c_string room.text de.filename no_flags in
    let za' = set_entry za i (set_filename (entry_at za i) original de s) in
    elim text [ none ↦ (err er_memory, za') | some name ↦ (ok name, za') ]

pub get_name-read_name :
    (room : Room) (za : Archive) (i : ℕ)
    → get_name room za i no_flags ≡ read_name room za i (get_dirent za i no_flags)
unfolding get_name
get_name-read_name room za i =
    elim (get_dirent za i no_flags)
      as (λ r.
        (elim r as (λ _. Outcome (List ℕ)) [
          | err c ↦ (err c, za)
          | ok (original, de) ↦
              let (text, s) = get_c_string room.text de.filename no_flags in
              let za' = set_entry za i (set_filename (entry_at za i) original de s) in
              elim text [ none ↦ (err er_memory, za') | some name ↦ (ok name, za') ]
        ])
        ≡ read_name room za i r) [ err c ↦ refl | ok p ↦ refl ]

-- The name of an entry is what `_zip_get_name` gives, and it changes nothing.
pub get_name-Named :
    (room : Room) (za : Archive) (i : ℕ) (t : List ℕ)
    → i < nentry za
    → Named (entry_at za i) t
    → get_name room za i no_flags ≡ (ok t, za)
unfolding get_dirent
get_name-Named room za i t lt (s, is, reads) =
    let e = entry_at za i in
    let inside : leb (nentry za) i ≡ false = ground arith in
    let (original, de, at, name, back) = shown-Shows e.orig e.changes e.source e.deleted s is in
    let looked : get_dirent za i no_flags ≡ ok (original, de) = rw (get_dirent, inside) at in
    let read : get_c_string room.text de.filename no_flags ≡ (some t, de.filename) =
      subst (λ f. get_c_string room.text f no_flags ≡ (some t, f)) (sym name) (reads room.text) in
    get_name-read_name room za i
    ∙ ap (read_name room za i) looked
    ∙ ap
        (λ (p : Option (List ℕ) × Option Str).
          let za' = set_entry za i (set_filename e original de p.1) in
          elim p.0 as (λ _. Outcome (List ℕ)) [
            | none ↦ (err er_memory, za')
            | some n ↦ (ok n, za')
          ])
        read
    ∙ ap (λ e'. (ok t, set_entry za i e')) back
    ∙ ap (λ es. (ok t, record za { entry = es })) (set-get_or za.entry i entry_init)
