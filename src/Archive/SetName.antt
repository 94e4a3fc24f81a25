-- ===== src/Archive/SetName.antt =====
-- `_zip_set_name` and `zip_file_rename` on well-formed archives.
use allvm_tools.Archive.Rename.{Said}
use allvm_tools.Hash.Delete.{lookup-eq}
use allvm_tools.Utf8.{guess_encoding, enc_unknown, same_encoding, enc_utf8_guessed, enc_utf8_known}
use allvm_tools.Run.{Code, er_ok, er_exists, er_rdonly}
use allvm_tools.Archive.{
  Outcome, er_inval, Room, Flags, nentry, Str, ok, name_locate, Result, entry_at, entry_init, Entry,
  err, lookup, Archive, er_noent, Dirent,
}
use allvm_tools.Archive.Inv.{IsValid, current, EntryOk, Named}
use allvm_tools.Flags.{no_flags}
use allvm_tools.Str.{string_new}
use allvm_tools.Archive.Renamed.{RenamedOk, RenamedTo, rename_entry-RenamedTo}
use allvm_tools.Archive.Moves.{Roomy, no_some}
use allvm_tools.Archive.Names.{make_name, make_string}
use allvm_tools.Archive.Naming.{
  Renamed, set_name, name_made, name_found, rename_entry, same_as_orig,
}
use allvm_tools.Base.{
  ℕ, inr, ◌%◌, if-cases, ◌∷◌, ◌∙◌, inl, none, some, get_or, Bool-cases, false, get_or-set_self,
  length-set, true_ne_false, get_or-set_ne, length, leb, ◌==◌, ap, ◌^◌, ◌<◌, sym, List, ◌≢◌, ◌≡◌,
  ◌+◌, refl, Option, set, ==_iff, subst, arith, ◌||◌, if◌then◌else◌, Bool, ◌⊎◌,
}

-- The archive after a renaming of one of its entries.
pub renamed-IsValid :
    (za : Archive) (idx : ℕ) (p : Renamed)
    → IsValid za
    → idx < nentry za
    → RenamedOk idx za.names p
    → IsValid (record za { entry = set za.entry idx p.1.0; names = p.1.1 })
renamed-IsValid za idx (r, (e, names')) v lt (v', valid, moved, kept) = record {
  table = v';
  entries = λ i. elim (Bool-cases (i == idx)) [
    | inl same ↦ subst EntryOk (sym (at_self i ((==_iff i idx).0 same))) valid
    | inr other ↦
        subst EntryOk (sym (at_other i (λ is. true_ne_false ((==_iff i idx).1 is) other)))
          (v.entries i)
  ];
  located = λ name i at. elim (moved name i at) [
    | inl (ne, before) ↦
        let (lt', named) = v.located name i before in
        (subst (λ n. i < n) (sym len) lt', subst (λ x. Named x name) (sym (at_other i ne)) named)
    | inr (is, named) ↦ (
      subst (λ n. i < n) (sym len) (subst (λ k. k < nentry za) (sym is) lt),
      subst (λ x. Named x name) (sym (at_self i is)) named,
    )
  ];
}
  where
    len : length (set za.entry idx e) ≡ nentry za
    len = length-set za.entry idx e

    at_self : (i : ℕ) → i ≡ idx → get_or (set za.entry idx e) i entry_init ≡ e
    at_self i is =
        ap (λ k. get_or (set za.entry idx e) k entry_init) is
        ∙ get_or-set_self za.entry idx e entry_init lt

    at_other : (i : ℕ) → i ≢ idx → get_or (set za.entry idx e) i entry_init ≡ entry_at za i
    at_other i ne = get_or-set_ne za.entry idx i e entry_init (λ is. ne (sym is))

pub ok-injective {ℓ} : {A : Type ℓ} {a b : A} → ok a ≡ ok b → a ≡ b
ok-injective e = cc

make_name-some :
    (room : Room) (c : ℕ) (cs : List ℕ) (flags : Flags) (str : Option Str)
    → make_name room (some (c ∷ cs)) flags ≡ ok str
    → (s : Str) × (str ≡ some s)
unfolding make_name make_string
make_name-some room c cs flags str h =
    let (code, made) = string_new room.string room.raw (c ∷ cs) (length (c ∷ cs) % 2 ^ 16) flags in
    go code made h
  where
    go :
        (code : Option Code) (made : Option Str)
        → elim made as (λ _. Result (Option Str)) [
          | none ↦ err (elim code as (λ _. Code) [ none ↦ er_ok | some e ↦ e ])
          | some s ↦
              let (guess, left) = guess_encoding s.raw s.encoding enc_unknown in
              ok (
                some (
                  if flags.enc_utf_8 || flags.enc_cp437 then s else record s {
                    encoding =
                        if same_encoding guess enc_utf8_guessed then enc_utf8_known else left;
                  }))
        ]
          ≡ ok str
        → (s : Str) × (str ≡ some s)
    go code none h = cc
    go code (some s) h = (_, sym (ok-injective h))

-- The name that an entry with the given original gets: the one that is given, or what the string that
-- `_zip_set_name` makes of it is read as, or the original name if that string is equal to it.
abbrev pub Given : Room → List ℕ → Flags → Option Dirent → List ℕ → Type 0
Given room name flags orig t =
    (t ≡ name)
    ⊎ ((s : Str) × (make_name room (some name) flags ≡ ok (some s))
        × Said room orig (same_as_orig orig (some s)) s t)

-- After a success, the entry has the name that was given, and the table locates it by that name, unless
-- the entry had it before.
abbrev pub Arrived : Room → ℕ → List ℕ → Flags → Archive → Outcome (Unit {0}) → Type 0
Arrived room idx name flags za (r, za') =
    r ≡ ok tt
    → (t : List ℕ) × Given room name flags (entry_at za idx).orig t
      × Named (entry_at za' idx) t
      × (Named (entry_at za idx) t ⊎ (current za'.names t ≡ some idx))

-- What naming an entry leaves: a well-formed archive with as many entries, all others as they were, and
-- no change in the table if it fails.
abbrev pub Kept : Room → ℕ → List ℕ → Flags → Archive → Outcome (Unit {0}) → Type 0
Kept room idx name flags za (r, za') =
    IsValid za'
    × (nentry za' ≡ nentry za)
    × ((c : Code) → r ≡ err c → (name : List ℕ) → current za'.names name ≡ current za.names name)
    × ((i : ℕ) → i ≢ idx → entry_at za' i ≡ entry_at za i)
    × Arrived room idx name flags za (r, za')

pub unchanged-Kept :
    (room : Room) (idx : ℕ) (name : List ℕ) (flags : Flags) (za : Archive) (c : Code)
    → IsValid za
    → Kept room idx name flags za (err c, za)
unchanged-Kept room idx name flags za c v = (v, refl, λ c e name. refl, λ i ne. refl, λ h. cc)

pub located_at :
    (p : Option ℕ) (i : ℕ)
    → elim p as (λ _. Result ℕ) [ none ↦ err er_noent | some k ↦ ok k ] ≡ ok i
    → p ≡ some i
located_at none i h = cc
located_at (some k) i h = ap some (ok-injective h)

module _ (room : Room) (za : Archive) (idx : ℕ) (all : Roomy room) (v : IsValid za)
    (bound : za.names.nentries + 1 < 2 ^ 64) (fits : idx < 2 ^ 63) (given : List ℕ)
    (flags : Flags) where
  name_found-Kept :
      (s : Str) (l : Result ℕ)
      → idx < nentry za
      → (entry_at za idx).deleted ≡ false
      → make_name room (some given) flags ≡ ok (some s)
      → ((i : ℕ) → l ≡ ok i → current za.names given ≡ some i)
      → Kept room idx given flags za (name_found room idx (some s) (l, za))
  name_found-Kept s (ok i) lt live made there =
      if-cases (Kept room idx given flags za) (i == idx) _ _
        (λ same.
          let at = there i refl ∙ ap some ((==_iff i idx).0 same) in
          let named = (v.located given idx at).1 in
          (v, refl, λ c e name. refl, λ i ne. refl, λ h. (given, inl refl, named, inr at)))
        (λ e. unchanged-Kept room idx given flags za er_exists v)
  name_found-Kept s (err c) lt live made there =
      let e = entry_at za idx in
      let revived : Bool → Entry =
        λ d. record { orig = e.orig; changes = e.changes; source = e.source; deleted = d } in
      let p = rename_entry room idx (some s) e za.names in
      let same = same_as_orig e.orig (some s) in
      let (done, reached) : RenamedTo room e.orig same s e idx za.names p =
        subst
          (λ d.
            RenamedTo room e.orig same s (revived d) idx za.names
              (rename_entry room idx (some s) (revived d) za.names))
          (sym live)
          (rename_entry-RenamedTo room idx za.names v.table all bound fits e.source e.orig e.changes
            s (subst (λ d. EntryOk (revived d)) live (v.entries idx))
            (λ name at. subst (λ d. Named (revived d) name) live (v.located name idx at).1)) in
      (
        renamed-IsValid za idx p v lt done,
        length-set za.entry idx p.1.0,
        done.3,
        λ i ne. get_or-set_ne za.entry idx i p.1.0 entry_init (λ is. ne (sym is)),
        λ h.
            let (t, said, named, how) = reached h in
            (
              t,
              inr (s, made, said),
              subst (λ x. Named x t) (sym (get_or-set_self za.entry idx p.1.0 entry_init lt)) named,
              how,
            ),
      )

module _ (room : Room) (za : Archive) (idx : ℕ) (all : Roomy room) (v : IsValid za)
    (bound : za.names.nentries + 1 < 2 ^ 64) (fits : idx < 2 ^ 63) where
  -- With memory, and room in the table, a name that is given to an entry that is not deleted leaves a
  -- well-formed archive well formed, whether the call succeeds or not, and the entry gets it.
  pub set_name-Kept :
      (c : ℕ) (cs : List ℕ) (flags : Flags)
      → (entry_at za idx).deleted ≡ false
      → Kept room idx (c ∷ cs) flags za (set_name room za idx (some (c ∷ cs)) flags)
  unfolding set_name name_locate
  set_name-Kept c cs flags live =
      let P = Kept room idx (c ∷ cs) flags za in
      if-cases P (leb (nentry za) idx) _ _
        (λ out. unchanged-Kept room idx (c ∷ cs) flags za er_inval v)
        (λ inside.
          if-cases P za.ch_flags _ _
            (λ rdonly. unchanged-Kept room idx (c ∷ cs) flags za er_rdonly v)
            (λ writable.
              go (make_name room (some (c ∷ cs)) flags) (make_name-some room c cs flags)
                (λ str h. h) (ground arith)))
    where
      go :
          (made : Result (Option Str))
          → ((str : Option Str)
              → make_name room (some (c ∷ cs)) flags ≡ ok str
              → (s : Str) × (str ≡ some s))
          → ((str : Option Str) → made ≡ ok str → make_name room (some (c ∷ cs)) flags ≡ ok str)
          → idx < nentry za
          → Kept room idx (c ∷ cs) flags za (name_made room za idx (some (c ∷ cs)) made)
      go (err c') given back lt = unchanged-Kept room idx (c ∷ cs) flags za c' v
      go (ok none) given back lt = absurd (no_some ((given none (back none refl)).1))
      go (ok (some s)) given back lt =
          name_found-Kept room za idx all v bound fits (c ∷ cs) flags s
            (lookup za.names (some (c ∷ cs)) no_flags) lt live (back (some s) refl)
            (λ i h.
              located_at (current za.names (c ∷ cs)) i
                (sym (lookup-eq za.names v.table (c ∷ cs) no_flags) ∙ h))
