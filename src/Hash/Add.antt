-- ===== src/Hash/Add.antt =====
-- `_zip_hash_add` as an assignment to the map of names.
use allvm_tools.Hash.Rehash.{found}
use allvm_tools.Hash.Replace.{find_entry-eq}
use allvm_tools.Hash.Entries.{on_found}
use allvm_tools.Run.{err, er_exists, ok}
use allvm_tools.Hash.Store.{UpdatedBy, at_entry-refines}
use allvm_tools.Hash.Insert.{store, stamp, insert, Memory, add_found, add, is_some, add_to}
use allvm_tools.Hash.Map.{
  Outcome, indices, roomy, insert-refines, indices_of, fresh, resize-table_size, resize-room,
  resize-nentries,
}
use allvm_tools.Hash.{Hash, hash_string, bucket, Entry, find_entry, resize, min_size}
use allvm_tools.Flags.{Flags}
use allvm_tools.Base.{
  if◌then◌else◌, none, ◌∙◌, subst, ap, sym, same_bytes_iff, ◌==◌, ◌-◌, arith, ltb, some, true,
  Option-cases, List, ℕ, false, refl, inr, ◌||◌, ◌<◌, Bool-cases, same_bytes, not, ◌&&◌, Bool, ◌≡◌,
  inl, ◌+◌, ◌%◌, ◌^◌, Option,
}
use allvm_tools.Hash.Inv.{IsValid, resize-refines}

-- The test for an entry that exists.
abbrev pub taken : Flags → Option ℕ × Option ℕ → Bool
taken flags p = (flags.unchanged && is_some p.0) || is_some p.1

abbrev pub given_index : ℕ → Flags → Option ℕ × Option ℕ → Option ℕ × Option ℕ
given_index index flags p = (if flags.unchanged then some index else p.0, some index)

-- What adding a name does: if the name is taken it fails and changes nothing, else it succeeds and
-- gives the name the index.
abbrev pub Added : Hash → List ℕ → ℕ → Flags → Outcome → Type 0
Added h name index flags (r, h') =
    let exists = taken flags (indices h name) in
    IsValid h'
    × (r ≡ (if exists then err er_exists else ok tt))
    × ((name' : List ℕ)
        → indices h' name' ≡ (
            if same_bytes name' name && not exists
            then given_index index flags (indices h name')
            else indices h name'))

and_none : (t : Bool) → ((t && false) || false) ≡ false
and_none true = refl
and_none false = refl

module _ (junk : Option ℕ) (name : List ℕ) (index : ℕ) (flags : Flags) where
  stored :
      (h : Hash)
      → IsValid h
      → 0 < h.table_size
      → IsValid (store h name index flags)
        × UpdatedBy h (store h name index flags) name (on_found (stamp index flags))
  unfolding store
  stored h v pos = at_entry-refines h v name pos (stamp index flags) (λ e. (refl, refl))

  -- The three ways through `_zip_hash_add`.
  module _ (memory : Memory) (h : Hash) (v : IsValid h) where
    looked :
        find_entry (hash_string name) name (bucket h.table (hash_string name % h.table_size))
        ≡ found h name
    looked =
        let i = hash_string name % h.table_size in
        find_entry-eq name h.table_size i (bucket h.table i) (v.placed i)

    add_to-new :
        found h name ≡ none
        → (insert memory h name).0 ≡ ok tt
        → add_to memory h name index flags
          ≡ (ok tt, store (insert memory h name).1 name index flags)
    unfolding add_to add_found
    add_to-new absent good =
        ap (add_found memory h name index flags) (looked ∙ absent) ∙ rw (add_found, good)

    module _ {e : Entry} (present : found h name ≡ some e) where
      add_to-taken :
          taken flags (indices_of (some e)) ≡ true
          → add_to memory h name index flags ≡ (err er_exists, h)
      unfolding add_to add_found
      add_to-taken exists = ap (add_found memory h name index flags) (looked ∙ present) ∙ rw exists

      add_to-free :
          taken flags (indices_of (some e)) ≡ false
          → add_to memory h name index flags ≡ (ok tt, store h name index flags)
      unfolding add_to add_found
      add_to-free free = ap (add_found memory h name index flags) (looked ∙ present) ∙ rw free

  -- What a chain of changes to the entry of the name means for the indices.
  assigned :
      (h h' : Hash) (o : Option Entry)
      → taken flags (indices h name) ≡ false
      → UpdatedBy h h' name (λ _. o)
      → indices_of o ≡ given_index index flags (indices h name)
      → (name' : List ℕ)
      → indices h' name' ≡ (
          if same_bytes name' name && not (taken flags (indices h name))
          then given_index index flags (indices h name')
          else indices h name')
  assigned h h' o free updated eq name' = elim (Bool-cases (same_bytes name' name)) [
    | inl same ↦
        let n = (same_bytes_iff name' name).0 same in
        rw (updated name', same, free)
          (eq ∙ ap (λ m. given_index index flags (indices h m)) (sym n))
    | inr other ↦ rw (updated name', other)
  ]

  twice :
      (t : Bool) (o p : Option Entry) (e : Entry)
      → p ≡ (if t then some e else o)
      → (if t then on_found (stamp index flags) p else p)
        ≡ (if t then some (stamp index flags e) else o)
  twice true o p e eq = rw eq
  twice false o p e eq = eq

  here_only :
      (h : Hash) (e : Entry) (name' : List ℕ)
      → found h name ≡ some e
      → (if same_bytes name' name
          then on_found (stamp index flags) (found h name')
          else found h name')
        ≡ (if same_bytes name' name then some (stamp index flags e) else found h name')
  here_only h e name' present = elim (Bool-cases (same_bytes name' name)) [
    | inl same ↦ rw (same, ap (found h) ((same_bytes_iff name' name).0 same), present)
    | inr other ↦ rw other
  ]

  and_not : (t : Bool) (p q : Option ℕ × Option ℕ) → p ≡ (if t && not true then q else p)
  and_not true p q = refl
  and_not false p q = refl

  add_to-refines :
      (h : Hash)
      → IsValid h
      → 0 < h.table_size
      → h.nentries + 1 < 2 ^ 64
      → Added h name index flags (add_to (roomy junk) h name index flags)
  add_to-refines h v pos bound =
      let done = Added h name index flags in
      elim (Option-cases (found h name)) [
        | inl absent ↦
            let (good, v', pos', updated) = insert-refines junk name h v pos bound absent in
            let h' = (insert (roomy junk) h name).1 in
            let (v'', updated') = stored h' v' pos' in
            let free : taken flags (indices h name) ≡ false =
              rw absent (and_none flags.unchanged) in
            let o = some (stamp index flags (fresh junk name)) in
            subst done (sym (add_to-new (roomy junk) h v absent good)) (
              v'',
              rw free,
              assigned h (store h' name index flags) o free
                  (λ name'.
                    updated' name'
                    ∙ twice (same_bytes name' name) (found h name') (found h' name')
                        (fresh junk name) (updated name'))
                  (rw absent),
            )
        | inr (e, present) ↦
            let (v'', updated) = stored h v pos in
            elim (Bool-cases (taken flags (indices_of (some e)))) [
              | inl exists ↦
                  let full : taken flags (indices h name) ≡ true = rw present exists in
                  subst done (sym (add_to-taken (roomy junk) h v present exists)) (
                    v,
                    rw full,
                    λ name'. rw full (
                        and_not (same_bytes name' name) (indices h name')
                          (given_index index flags (indices h name'))),
                  )
              | inr free' ↦
                  let free : taken flags (indices h name) ≡ false = rw present free' in
                  subst done (sym (add_to-free (roomy junk) h v present free')) (
                    v'',
                    rw free,
                    assigned h (store h name index flags) (some (stamp index flags e)) free
                        (λ name'. updated name' ∙ here_only h e name' present) (rw present),
                  )
            ]
      ]

-- On a well-formed table, with memory and an index that fits in 63 bits, `_zip_hash_add` fails with
-- ZIP_ER_EXISTS and changes nothing exactly if the name has a current index, or if the flags say
-- unchanged and it has an original one; otherwise it succeeds, the name has the index, and no other
-- name's indices change. The table stays well formed, also when it is doubled.
pub add-refines :
    (junk : Option ℕ) (name : List ℕ) (index : ℕ) (flags : Flags) (h : Hash)
    → IsValid h
    → h.nentries + 1 < 2 ^ 64
    → index < 2 ^ 63
    → Added h name index flags (add (roomy junk) h (some name) index flags)
unfolding add
add-refines junk name index flags h v bound fits =
    let small : ltb (2 ^ 63 - 1) index ≡ false = ground arith in
    let done = add_to-refines junk name index flags in
    elim (Bool-cases (h.table_size == 0)) [
      | inl empty ↦
          let h' = (resize true h min_size).1 in
          let (v', kept) = resize-refines true h min_size (omega arith) v in
          let pos : 0 < h'.table_size = omega (arith, resize-table_size h min_size) in
          let same = kept name in
          rw (small, empty, resize-room h min_size)
            (from_same junk name index flags h h' kept (add_to (roomy junk) h' name index flags)
              (done h' v' pos (ground (arith, resize-nentries h min_size))))
      | inr other ↦ rw (small, other) (done h v (ground arith) bound)
    ]
  where
    from_same :
        (junk : Option ℕ) (name : List ℕ) (index : ℕ) (flags : Flags) (h h' : Hash)
        → ((name' : List ℕ) → found h' name' ≡ found h name')
        → (o : Outcome) → Added h' name index flags o
        → Added h name index flags o
    from_same junk name index flags h h' kept (r, h'') (v, code, now) = (
      v,
      rw (kept name) at code,
      λ name'. let later = now name' in rw (kept name, kept name') at later,
    )
