-- ===== src/Hash/Delete.antt =====
-- `_zip_hash_delete` and `_zip_hash_lookup` on the map of names.
use allvm_tools.Hash.Replace.{replaced-IsValid, bucket-single, found-replaced, find_entry-eq}
use allvm_tools.Hash.Entries.{remove_entry_lem}
use allvm_tools.Hash.Store.{UpdatedBy, elsewhere, at_entry-refines}
use allvm_tools.Run.{ok, err, er_noent}
use allvm_tools.Hash.Remove.{remove_entry, delete, unlink, delete_found, clear_current}
use allvm_tools.Flags.{Flags}
use allvm_tools.Hash.Insert.{is_some}
use allvm_tools.Hash.Map.{Outcome, indices, resized_or, resize-room, indices_of}
use allvm_tools.Hash.Rehash.{found}
use allvm_tools.Hash.{
  Hash, lookup, Entry, hash_string, bucket, set_bucket, at_entry, underfull, min_size, resize,
  find_name,
}
use allvm_tools.Base.{
  Option-cases, ap, ◌&&◌, ◌∙◌, ◌/◌, same_bytes_iff, sym, subst, Bool, same_bytes, ◌∷◌, none, inl,
  ◌%◌, length, arith, if◌then◌else◌, inr, [], ℕ, true, ◌-◌, ◌<◌, ltb, Bool-cases, false, List,
  Option, refl, set, some, ◌≡◌,
}
use native.Mathlib.Nat.{mod-lt}
use allvm_tools.Hash.Inv.{IsValid, total, total-bucket, resize-refines}

has_bucket : (t : List (List Entry)) → 0 < total t → 0 < length t
unfolding total
has_bucket [] h = absurd (omega arith)
has_bucket (b ∷ t) h = omega arith

find_name-nil : (name : List ℕ) (es : List Entry) → length es ≡ 0 → find_name name es ≡ none
unfolding find_name
find_name-nil name [] h = refl
find_name-nil name (e ∷ es) h = absurd (omega arith)

module _ (h : Hash) (v : IsValid h) (name : List ℕ) where
  -- A table without entries holds nothing.
  found-empty : ltb 0 h.nentries ≡ false → found h name ≡ none
  found-empty empty =
      let i = hash_string name % h.table_size in
      find_name-nil name (bucket h.table i) (ground (arith, v.counted, total-bucket h.table i))

  table_size-pos : ltb 0 h.nentries ≡ true → 0 < h.table_size
  table_size-pos full =
      let some_entry : 0 < total h.table = ground (arith, v.counted) in
      omega (arith, has_bucket h.table some_entry, v.sized)

  -- The table gives the index that the flags ask for, original or current, and ZIP_ER_NOENT if the
  -- name has none.
  pub lookup-eq :
      (flags : Flags)
      → lookup h (some name) flags ≡ (
          let p = indices h name in
          elim (if flags.unchanged then p.0 else p.1) [ none ↦ err er_noent | some i ↦ ok i ])
  unfolding lookup
  lookup-eq flags = elim (Bool-cases (ltb 0 h.nentries)) [
    | inl full ↦ elim (Option-cases (found h name)) [
      | inl absent ↦ rw (full, absent, if_none flags.unchanged)
      | inr (e, present) ↦ rw (full, present)
    ]
    | inr empty ↦ rw (empty, found-empty empty, if_none flags.unchanged)
  ]
    where
      if_none : (t : Bool) → ◌≡◌ {A = Option ℕ} (if t then none else none) none
      if_none true = refl
      if_none false = refl

-- What removing a name does: it clears the current index, or fails for a name without entry.
abbrev pub Deleted : Hash → List ℕ → Outcome → Type 0
Deleted h name (r, h') =
    IsValid h'
    × (r ≡ (if is_some (found h name) then ok tt else err er_noent))
    × ((name' : List ℕ)
        → indices h' name'
          ≡ (if same_bytes name' name then ((indices h name').0, none) else indices h name'))

module _ (h : Hash) (v : IsValid h) (name : List ℕ) where
  unlinked :
      {e : Entry}
      → 0 < h.table_size
      → found h name ≡ some e
      → let i = hash_string name % h.table_size in
        let h' = record h {
          table = set h.table i (remove_entry (hash_string name) name (bucket h.table i));
          nentries = h.nentries - 1;
        } in
        IsValid h' × UpdatedBy h h' name (λ _. none)
  unlinked pos present =
      let i = hash_string name % h.table_size in
      let b = bucket h.table i in
      let b' = remove_entry (hash_string name) name b in
      let gone = λ (name' : List ℕ). remove_entry_lem name h.table_size i name' b (v.placed i) in
      let lt = mod-lt (hash_string name) pos in
      let shorter = (gone name).2 (λ eq. cc) in
      (
        replaced-IsValid h v i (h.nentries - 1) b' lt (gone name).3
            (λ name'. omega (arith, (gone name').1, bucket-single h v i name'))
            (omega (arith, shorter, v.counted, total-bucket h.table i)),
        found-replaced h v i (h.nentries - 1) b'
            (λ name' o. if same_bytes name' name then none else o) lt
            (λ name'. (gone name').0 (bucket-single h v i name)) (elsewhere h name (λ _. none)),
      )

  unlink-refines :
      {e : Entry}
      → 0 < h.table_size
      → found h name ≡ some e
      → e.orig_index ≡ none
      → Deleted h name (unlink true h name)
  unfolding unlink
  unlink-refines {e} pos present bare =
      let i = hash_string name % h.table_size in
      let h' = record h {
        table = set h.table i (remove_entry (hash_string name) name (bucket h.table i));
        nentries = h.nentries - 1;
      } in
      let n = h.table_size / 2 in
      let (v', updated) = unlinked pos present in
      let indices' : (name' : List ℕ)
          → indices h' name'
            ≡ (if same_bytes name' name then ((indices h name').0, none) else indices h name') =
        λ name'. elim (Bool-cases (same_bytes name' name)) [
          | inl same ↦
              let here = ap (found h) ((same_bytes_iff name' name).0 same) ∙ present in
              rw (updated name', same, here, bare)
          | inr other ↦ rw (updated name', other)
        ] in
      resized_or (Deleted h name) (underfull h'.nentries h.table_size && ltb min_size h.table_size)
        (resize true h' n).0 h' (resize true h' n).1 (resize-room h' n)
        (λ t.
          let large : min_size < h.table_size = ground arith in
          let (v'', kept) = resize-refines true h' n (omega arith) v' in
          (v'', rw present, λ name'. ap indices_of (kept name') ∙ indices' name'))
        (v', rw present, indices')

  cleared :
      {e : Entry} {o : ℕ}
      → 0 < h.table_size
      → found h name ≡ some e
      → e.orig_index ≡ some o
      → let i = hash_string name % h.table_size in
        Deleted h name (
          ok tt,
          set_bucket h i (at_entry (hash_string name) name clear_current (bucket h.table i)),
        )
  cleared {e} {o} pos present orig =
      let (v', updated) = at_entry-refines h v name pos clear_current (λ e'. (refl, refl)) in
      (
        v',
        rw present,
        λ name'. elim (Bool-cases (same_bytes name' name)) [
          | inl same ↦
              let here = ap (found h) ((same_bytes_iff name' name).0 same) ∙ present in
              rw (updated name', same, here)
          | inr other ↦ rw (updated name', other)
        ],
      )

  nothing : found h name ≡ none → Deleted h name (err er_noent, h)
  nothing absent = (
    v,
    rw absent,
    λ name'. elim (Bool-cases (same_bytes name' name)) [
      | inl same ↦
          let here = ap (found h) ((same_bytes_iff name' name).0 same) ∙ absent in rw (same, here)
      | inr other ↦ rw other
    ],
  )

  -- On a well-formed table, with memory for a smaller one, `_zip_hash_delete` succeeds exactly if the
  -- name has an entry; it clears the name's current index, keeps its original one and every index of
  -- the other names, and leaves the table well formed, also when it is halved.
  pub delete-refines : Deleted h name (delete true h (some name))
  unfolding delete delete_found
  delete-refines = elim (Bool-cases (ltb 0 h.nentries)) [
    | inl full ↦
        let pos = table_size-pos h v name full in
        let i = hash_string name % h.table_size in
        let looked = find_entry-eq name h.table_size i (bucket h.table i) (v.placed i) in
        let result = λ (o : Option Entry). Deleted h name (delete_found true h name o) in
        rw full (
          subst result (sym looked) (elim (Option-cases (found h name)) [
            | inl absent ↦ subst result (sym absent) (nothing absent)
            | inr (e, present) ↦ subst result (sym present) (elim (Option-cases e.orig_index) [
              | inl bare ↦ rw bare (unlink-refines pos present bare)
              | inr (o, orig) ↦ rw orig (cleared pos present orig)
            ])
          ]))
    | inr empty ↦ rw empty (nothing (found-empty h v name empty))
  ]
