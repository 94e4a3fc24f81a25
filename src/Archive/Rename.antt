-- ===== src/Archive/Rename.antt =====
-- `_zip_set_name` keeps the table of names in step with the entries.

use allvm_tools.Str.{get_text}
use allvm_tools.Flags.{no_flags}
use allvm_tools.Archive.Moves.{some-injective, no_some}
use allvm_tools.Archive.Text.{Reads, get_c_string-Reads, get_c_string-eq}
use allvm_tools.Archive.Inv.{EntryOk, Named, filename_of, shown, Named-unique}
use allvm_tools.Archive.Naming.{changes_for, old_name, read_old, new_name}
use allvm_tools.Dirent.{Dirent, clone, init}
use allvm_tools.Archive.{
  has_bit, clear_bit, Str, Entry, set_bit, filename_bit, get_c_string, Room, set_filename,
}
use allvm_tools.Base.{
  ℕ, ◌≡◌, true, Bool, Option, none, List, some, false, Bool-cases, ap, inr, sym, subst, ◌∙◌, inl,
  refl, ◌/◌, arith, ◌≢◌, ◌%◌,
}

pub has_bit-set_bit : (w : ℕ) → has_bit (set_bit w filename_bit) filename_bit ≡ true
unfolding has_bit set_bit
has_bit-set_bit w = elim (Bool-cases (has_bit w filename_bit)) [
  | inl on ↦ rw on on
  | inr off ↦ rw off (let low : w / 2 % 2 ≢ 1 = ground arith in ground arith)
]

has_bit-clear_bit : (w : ℕ) → has_bit (clear_bit w filename_bit) filename_bit ≡ false
unfolding has_bit clear_bit
has_bit-clear_bit w = elim (Bool-cases (has_bit w filename_bit)) [
  | inl on ↦ rw on (let high : w / 2 % 2 ≡ 1 = ground arith in ground arith)
  | inr off ↦ rw off off
]

-- An entry that is not deleted.
abbrev pub alive : Option ℕ → Option Dirent → Option Dirent → Entry
alive source orig changes = record {
  orig = orig;
  changes = changes;
  source = source;
  deleted = false;
}

-- The changes that are made for a new name say nothing new.
abbrev pub Prepared : Option ℕ → Option Dirent → Bool → Option Dirent → Option Dirent → Type 0
Prepared source orig same changes changes' =
    EntryOk (alive source orig changes')
    × ((t : List ℕ) → Named (alive source orig changes) t → Named (alive source orig changes') t)
    × ((t : List ℕ) → Named (alive source orig changes') t → Named (alive source orig changes) t)
    × (same ≡ false → (de : Dirent) × (changes' ≡ some de))

pub changes_for-Prepared :
    (source : Option ℕ) (room : Bool) (orig changes : Option Dirent) (same : Bool)
    (changes' : Option Dirent)
    → EntryOk (alive source orig changes)
    → changes_for room orig changes same ≡ some changes'
    → Prepared source orig same changes changes'
unfolding changes_for clone init
changes_for-Prepared source room orig changes true changes' valid h =
    subst (Prepared source orig true changes) (some-injective h)
      (valid, λ t n. n, λ t n. n, λ e. cc)
changes_for-Prepared source room orig (some de) false changes' valid h =
    subst (Prepared source orig false (some de)) (some-injective h)
      (valid, λ t n. n, λ t n. n, λ e. (de, refl))
changes_for-Prepared source true none none false changes' valid h =
    subst (Prepared source none false none) (some-injective h) (
      record {
        orig_reads = valid.orig_reads;
        changes_reads = valid.orig_reads;
        live = λ e. cc;
        kept = λ de is e. sym (ap filename_of is);
      },
      λ t (s, is, reads). cc,
      λ t (s, is, reads). cc,
      λ e. (_, refl),
    )
changes_for-Prepared source true (some o) none false changes' valid h =
    subst (Prepared source (some o) false none) (some-injective h) (
      record {
        orig_reads = valid.orig_reads;
        changes_reads = valid.orig_reads;
        live = λ e. cc;
        kept = λ de is e. sym (ap filename_of is);
      },
      λ t n. n,
      λ t n. n,
      λ e. (_, refl),
    )
changes_for-Prepared source false orig none false changes' valid h = absurd (no_some h)

-- What the entry is to be called: the original name, or the new one.
abbrev pub Called : Option Dirent → Bool → Option Str → List ℕ → Type 0
Called orig true str t = (s : Str) × (filename_of orig ≡ some s) × Reads (some s) t
Called orig false str t = (s : Str) × (str ≡ some s) × Reads (some s) t

-- The text of the name that is given: of the original one if the new string is equal to it.
abbrev pub Said : Room → Option Dirent → Bool → Str → List ℕ → Type 0
Said room orig true s t = (get_c_string room.text (filename_of orig) no_flags).0 ≡ some t
Said room orig false s t = (get_c_string room.text (some s) no_flags).0 ≡ some t

-- Where the new name is read.
abbrev pub NewName :
    Room → Option Dirent → Bool → Str → Entry → Option (List ℕ) × (Entry × Option Str) → Type 0
NewName room orig same s e (new, (e', str)) =
    (e' ≡ e) × ((t : List ℕ) → new ≡ some t → Called orig same str t × Said room orig same s t)

get_c_string-some :
    (room : Option (List ℕ)) (s : Str)
    → (s' : Str) × ((get_c_string room (some s) no_flags).1 ≡ some s')
get_c_string-some room s = ((get_text room s no_flags).1, ap (λ p. p.1) (get_c_string-eq room s))

new_name-given :
    (room : Room) (e : Entry) (s : Str) (orig : Option Dirent)
    → new_name room e false (some s) orig ≡ (
      (get_c_string room.text (some s) no_flags).0,
      (e, (get_c_string room.text (some s) no_flags).1),
    )
unfolding new_name
new_name-given room e s orig = refl

pub new_name-NewName :
    (room : Room) (source : Option ℕ) (orig changes : Option Dirent) (same : Bool) (s : Str)
    → EntryOk (alive source orig changes)
    → (same ≡ true → (f : Str) × (filename_of orig ≡ some f))
    → NewName room orig same s
        (alive source orig changes)
        (new_name room (alive source orig changes) same (some s) orig)
unfolding new_name
new_name-NewName room source orig changes false s valid named =
    let e = alive source orig changes in
    let p = get_c_string room.text (some s) no_flags in
    let (s', is) = get_c_string-some room.text s in
    subst (NewName room orig false s e) (sym (new_name-given room e s orig)) (
      refl,
      λ t read. (
        (
          s',
          is,
          subst (λ x. Reads x t) is
              (get_c_string-Reads room.text (some s) p.1 t (ap (λ o. (o, p.1)) read)),
        ),
        read,
      ),
    )
new_name-NewName room source none changes true s valid named =
    let (f, is) = named refl in absurd (no_some is)
new_name-NewName room source (some o) changes true s valid named =
    let (f, is) = named refl in
    let (t, reads) = valid.orig_reads in
    let e = alive source (some o) changes in
    subst
      (λ (p : Option (List ℕ) × Option Str).
        NewName room (some o) true s e (p.0, (set_filename e true o p.1, some s)))
      (sym (reads room.text))
      (
        refl,
        λ t' h. (
          (f, is, subst (Reads (some f)) (some-injective h) (subst (λ x. Reads x t) is reads)),
          ap (λ q. q.0) (reads room.text) ∙ h,
        ),
      )

-- The old name.
abbrev pub OldName : Entry → Option (Option (List ℕ)) × Entry → Type 0
OldName e (old, e') =
    (o : Option (List ℕ)) × (old ≡ some o)
    × (e' ≡ e)
    × ((t : List ℕ) → Named e t → o ≡ some t)
    × ((t : List ℕ) → o ≡ some t → Named e t)

read_old-OldName :
    (room : Room) (e : Entry) (original : Bool) (de : Dirent) (f : Option Str) (t : List ℕ)
    → shown e.changes e.deleted e.orig ≡ f
    → Reads f t
    → set_filename e original de f ≡ e
    → OldName e (read_old room e original de f)
unfolding read_old
read_old-OldName room e original de none t is reads back =
    (none, refl, refl, λ u (s, is', reads'). absurd (no_some (sym is ∙ is')), λ u h. cc)
read_old-OldName room e original de (some f) t is reads back =
    subst
      (λ (p : Option (List ℕ) × Option Str). OldName e (
        elim p.0 as (λ _. Option (Option (List ℕ))) [ none ↦ none | some name ↦ some (some name) ],
        set_filename e original de p.1,
      ))
      (sym (reads room.text))
      (
        some t,
        refl,
        back,
        λ u named. ap some (Named-unique e t u (f, is, reads) named),
        λ u h. (f, is, subst (Reads (some f)) (some-injective h) reads),
      )

pub old_name-OldName :
    (room : Room) (source : Option ℕ) (orig changes : Option Dirent)
    → EntryOk (alive source orig changes)
    → OldName (alive source orig changes) (old_name room (alive source orig changes) orig changes)
unfolding old_name
old_name-OldName room source orig (some de) valid =
    read_old-OldName room (alive source orig (some de)) false de de.filename valid.changes_reads.0
      refl valid.changes_reads.1 refl
old_name-OldName room source (some o) none valid =
    read_old-OldName room (alive source (some o) none) true o o.filename valid.orig_reads.0 refl
      valid.orig_reads.1 refl
old_name-OldName room source none none valid =
    (none, refl, refl, λ u (s, is', reads'). absurd (no_some is'), λ u h. cc)
