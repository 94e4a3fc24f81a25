-- ===== src/Archive/Added.antt =====
-- `zip_file_add` on well-formed archives.
use allvm_tools.Archive.Moves.{Roomy}
use allvm_tools.Archive.Neutral.{emptied-SameName, neutral-IsValid}
use allvm_tools.Archive.Delete.{unchange_data-entry, same-IsValid, emptied}
use allvm_tools.Run.{Code, er_rdonly}
use allvm_tools.Archive.Replace.{replace_data-Replaced}
use allvm_tools.Archive.Replacing.{
  replace_named, file_add, replace_entry, target, replace_target, found_or_added, replace_data,
}
use allvm_tools.Archive.Text.{Reads-none}
use allvm_tools.Archive.SetName.{Kept, set_name-Kept, Given, Arrived}
use allvm_tools.Archive.Names.{add_entry, unchange_data}
use allvm_tools.Archive.Naming.{set_name}
use allvm_tools.Archive.{
  Archive, entry_init, nentry, Outcome, Room, ok, err, entry_at, set_entry, Flags, name_locate,
}
use allvm_tools.Archive.Inv.{IsValid, EntryOk, current, Named}
use allvm_tools.Base.{
  ℕ, suc, some, refl, List, take, if-cases, sym, true, inr, length, ◌≡◌, subst, ap, leb, [],
  Bool-cases, get_or, ◌≤◌, ltb, ◌++◌, ◌<◌, ltb→lt, zero, ◌+◌, inl, arith, ◌∷◌, length-set, ◌==◌,
  ◌⊎◌, length-take, length-append, ◌∙◌, true_ne_false, if◌then◌else◌, ◌^◌, false, get_or-set_ne,
  ◌≢◌, none,
}

get_or-snoc {ℓ} :
    {A : Type ℓ} (xs : List A) (i : ℕ) (d : A) → get_or (xs ++ (d ∷ [])) i d ≡ get_or xs i d
get_or-snoc [] zero d = refl
get_or-snoc [] (suc i) d = refl
get_or-snoc (x ∷ xs) zero d = refl
get_or-snoc (x ∷ xs) (suc i) d = get_or-snoc xs i d

get_or-length {ℓ} : {A : Type ℓ} (xs : List A) (d : A) → get_or xs (length xs) d ≡ d
get_or-length [] d = refl
get_or-length (x ∷ xs) d = get_or-length xs d

get_or-take_lt {ℓ} :
    {A : Type ℓ} (n : ℕ) (xs : List A) (i : ℕ) (d : A)
    → i < n
    → get_or (take n xs) i d ≡ get_or xs i d
get_or-take_lt zero xs i d lt = absurd (omega arith)
get_or-take_lt (suc n) [] i d lt = refl
get_or-take_lt (suc n) (x ∷ xs) zero d lt = refl
get_or-take_lt (suc n) (x ∷ xs) (suc i) d lt = get_or-take_lt n xs i d (omega arith)

get_or-take_ge {ℓ} :
    {A : Type ℓ} (n : ℕ) (xs : List A) (i : ℕ) (d : A) → n ≤ i → get_or (take n xs) i d ≡ d
get_or-take_ge zero xs i d le = refl
get_or-take_ge (suc n) [] i d le = refl
get_or-take_ge (suc n) (x ∷ xs) zero d le = absurd (omega arith)
get_or-take_ge (suc n) (x ∷ xs) (suc i) d le = get_or-take_ge n xs i d (omega arith)

-- An archive with a new entry at its end.
abbrev extended : ℕ → Archive → Archive
extended alloc za = record za { entry = za.entry ++ (entry_init ∷ []); nentry_alloc = alloc }

extended-IsValid : (alloc : ℕ) (za : Archive) → IsValid za → IsValid (extended alloc za)
extended-IsValid alloc za v = record {
  table = v.table;
  entries = λ i. subst EntryOk (sym (get_or-snoc za.entry i entry_init)) (v.entries i);
  located = λ name i at.
      let (lt, named) = v.located name i at in
      (
        omega (arith, lt, length-append za.entry (entry_init ∷ [])),
        subst (λ e. Named e name) (sym (get_or-snoc za.entry i entry_init)) named,
      );
}

add_entry-extended :
    (room : Room) (za : Archive)
    → room.entries ≡ true
    → (alloc : ℕ) × (add_entry room za ≡ (ok (nentry za), extended alloc za))
unfolding add_entry
add_entry-extended room za memory =
    let P : Outcome ℕ → Type 0 = λ p. (alloc : ℕ) × (p ≡ (ok (nentry za), extended alloc za)) in
    if-cases P (leb za.nentry_alloc (nentry za + 1)) _ _
      (λ full.
        if-cases P room.entries _ _ (λ yes. (_, refl))
          (λ no_room. absurd (true_ne_false memory no_room)))
      (λ roomy. (za.nentry_alloc, refl))

init-EntryOk : EntryOk entry_init
unfolding entry_init
init-EntryOk = record {
  orig_reads = ([], Reads-none);
  changes_reads = ([], Reads-none);
  live = λ h. refl;
  kept = λ d h. cc;
}

-- An archive that loses the entries from the `n`-th on, none of which is located.
truncated-IsValid :
    (za : Archive) (n : ℕ)
    → IsValid za
    → n ≤ nentry za
    → ((name : List ℕ) (i : ℕ) → current za.names name ≡ some i → i < n)
    → IsValid (record za { entry = take n za.entry })
truncated-IsValid za n v le below = record {
  table = v.table;
  entries = λ i. elim (Bool-cases (ltb i n)) [
    | inl lt ↦
        subst EntryOk (sym (get_or-take_lt n za.entry i entry_init (ltb→lt i n lt))) (v.entries i)
    | inr ge ↦
        subst EntryOk (sym (get_or-take_ge n za.entry i entry_init (ground arith))) init-EntryOk
  ];
  located = λ name i at.
      let lt = below name i at in
      (
        omega (arith, lt, le, length-take n za.entry),
        subst (λ e. Named e name) (sym (get_or-take_lt n za.entry i entry_init lt))
            (v.located name i at).1,
      );
}

-- What adding an entry leaves of a well-formed archive: a well-formed one, in which all entries are as
-- before. After a success it has the entry as its last one, with the source, and the name that was
-- given, which locates it; after a failure, no more entries, and the names located as before.
abbrev pub Appended : Room → List ℕ → Flags → ℕ → Archive → Outcome ℕ → Type 0
Appended room name flags src za (r, za') =
    let n = nentry za in
    IsValid za'
    × ((i : ℕ) → i < n → entry_at za' i ≡ entry_at za i)
    × (((r ≡ ok n)
          × (nentry za' ≡ n + 1)
          × ((entry_at za' n).source ≡ some src)
          × (t : List ℕ) × Given room name flags none t
          × (current za'.names t ≡ some n)
          × Named (entry_at za' n) t)
        ⊎ ((c : Code) × (r ≡ err c)
            × (nentry za' ≡ n)
            × ((name : List ℕ) → current za'.names name ≡ current za.names name)))

module _ (room : Room) (za : Archive) (src alloc : ℕ) (v : IsValid za) (name : List ℕ)
    (flags : Flags) where
  new_entry : entry_at (extended alloc za) (nentry za) ≡ entry_init
  new_entry = get_or-snoc za.entry (nentry za) entry_init ∙ get_or-length za.entry entry_init

  init_unnamed : (t : List ℕ) → Named entry_init t → ⊥
  unfolding entry_init
  init_unnamed t (s, is, reads) = cc

  old_entry :
      (x : Archive)
      → ((i : ℕ) → i ≢ nentry za → entry_at x i ≡ entry_at (extended alloc za) i)
      → (i : ℕ) → i < nentry za
      → entry_at x i ≡ entry_at za i
  old_entry x others i lt = others i (omega arith) ∙ get_or-snoc za.entry i entry_init

  -- The new name is located.
  placed :
      (x : Archive)
      → Arrived room (nentry za) name flags (extended alloc za) (ok tt, x)
      → (t : List ℕ) × Given room name flags none t × (current x.names t ≡ some (nentry za))
  unfolding entry_init
  placed x arrived =
      let (t, given, named, how) = arrived refl in
      (
        t,
        subst (λ o. Given room name flags o t) (ap (λ e. e.orig) new_entry) given,
        elim how [
          | inl before ↦ absurd (init_unnamed t (subst (λ e. Named e t) new_entry before))
          | inr at ↦ at
        ],
      )

  replace_named-Appended :
      (p : Outcome (Unit {0}))
      → room.clone ≡ true
      → Kept room (nentry za) name flags (extended alloc za) p
      → Appended room name flags src za (replace_named room (nentry za) (nentry za) src p)
  replace_named-Appended (ok u, x) clones (vx, len, kept, others, arrived) =
      let n = nentry za in
      let len' : nentry x ≡ n + 1 = omega (arith, len, length-append za.entry (entry_init ∷ [])) in
      let (v', done, same, names, (has, live, orig, says, others')) =
        replace_data-Replaced room x n src clones vx (omega (arith, len')) in
      let x' = (replace_data room x n src).1 in
      let (t, given, at) = placed x arrived in
      let at' : current x'.names t ≡ some n = ap (λ h. current h t) names ∙ at in
      (
        v',
        λ i lt. others' i (omega arith) ∙ old_entry x others i lt,
        inl (done, same ∙ len', has, t, given, at', (v'.located t n at').1),
      )
  replace_named-Appended (err c, x) clones (vx, len, kept, others, arrived) =
      let n = nentry za in
      let len' : nentry x ≡ n + 1 = omega (arith, len, length-append za.entry (entry_init ∷ [])) in
      let lt : n < nentry x = omega (arith, len') in
      let y = unchange_data x n in
      let (es, ns) = unchange_data-entry x n in
      let e = entry_at x n in
      let vy : IsValid y = same-IsValid (set_entry x n (emptied e)) y es ns (
        neutral-IsValid x n (emptied e) vx lt
          (emptied-SameName e.orig e.changes e.source e.deleted (vx.entries n))) in
      let len'' : nentry y ≡ n + 1 = ap length es ∙ length-set x.entry n (emptied e) ∙ len' in
      let same = λ (name : List ℕ). ap (λ h. current h name) ns ∙ kept c refl name in
      let before = λ (i : ℕ) (below : i < n).
        get_or-take_lt n y.entry i entry_init below
        ∙ ap (λ l. get_or l i entry_init) es
        ∙ get_or-set_ne x.entry n i (emptied e) entry_init (λ is. omega (arith, is, below))
        ∙ old_entry x others i below in
      if-cases (Appended room name flags src za) (nentry x == n) _ _
        (λ eq. absurd (ground (arith, len')))
        (λ grown. (
          truncated-IsValid y n vy (omega (arith, len''))
              (λ name k at. (v.located name k (sym (same name) ∙ at)).0),
          before,
          inr (c, refl, omega (arith, len'', length-take n y.entry), same),
        ))

-- With memory, and room in the table, `zip_file_add` without ZIP_FL_OVERWRITE, for a name that is
-- neither NULL nor empty, leaves a well-formed archive well formed, with the entries that it had as they
-- were. If it succeeds, there is one entry more, whose index it returns, which has the source, and is
-- located by the name that it has, the given one as its string is read. If it fails, there are as many
-- entries and the names located as before.
pub file_add-Appended :
    (room : Room) (za : Archive) (c : ℕ) (cs : List ℕ) (src : ℕ) (flags : Flags)
    → Roomy room
    → IsValid za
    → flags.overwrite ≡ false
    → za.names.nentries + 1 < 2 ^ 64
    → nentry za < 2 ^ 63
    → Appended room (c ∷ cs) flags src za (file_add room za (some (c ∷ cs)) (some src) flags)
unfolding file_add replace_entry target
file_add-Appended room za c cs src flags all v appends bound fits =
    let (alloc, added) = add_entry-extended room za (ap (λ m. m.entries) (all.2)) in
    let v1 = extended-IsValid alloc za v in
    let n = nentry za in
    let P = Appended room (c ∷ cs) flags src za in
    let live : (entry_at (extended alloc za) n).deleted ≡ false =
      ap (λ e. e.deleted) (get_or-snoc za.entry n entry_init ∙ get_or-length za.entry entry_init) in
    if-cases P za.ch_flags _ _
      (λ rdonly. (v, λ i lt. refl, inr (er_rdonly, refl, refl, λ name. refl)))
      (λ writable.
        subst
          (λ b. P (
            replace_target room n (some (c ∷ cs)) src flags (
              if b
              then found_or_added room (name_locate room za (some (c ∷ cs)) flags)
              else add_entry room za)))
          (sym appends)
          (subst (λ t. P (replace_target room n (some (c ∷ cs)) src flags t)) (sym added)
            (replace_named-Appended room za src alloc v (c ∷ cs) flags
              (set_name room (extended alloc za) n (some (c ∷ cs)) flags)
              (ap (λ m. m.clone) (all.2))
              (set_name-Kept room (extended alloc za) n all v1 bound fits c cs flags live))))
