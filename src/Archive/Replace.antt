-- ===== src/Archive/Replace.antt =====
-- `_zip_file_replace` on an entry of a well-formed archive.
use allvm_tools.Archive.Delete.{unchange_data-entry, emptied, same-IsValid}
use allvm_tools.Archive.Names.{unchange_data}
use allvm_tools.Archive.Moves.{some-injective, no_some}
use allvm_tools.Archive.Rename.{alive}
use allvm_tools.Archive.Neutral.{
  SameName, set_bit-filename, changed_of, emptied-SameName, neutral-IsValid,
}
use allvm_tools.Archive.{
  Archive, Room, Outcome, has_bit, ok, nentry, entry_at, filename_bit, comp_method_bit, set_entry,
  Entry, entry_init, set_bit,
}
use allvm_tools.Archive.Replacing.{
  replaced_changes, replaced, mark_replaced, put_source, replace_data,
}
use allvm_tools.Dirent.{Dirent, clone}
use allvm_tools.Archive.Inv.{IsValid, EntryOk, filename_of}
use allvm_tools.Base.{
  ℕ, if-cases, ◌<◌, Option, subst, ◌≡◌, sym, ap, false, true, Bool, some, ◌∙◌, none, refl, length,
  length-set, get_or, get_or-set_self, get_or-set_ne, arith, inl, ◌≢◌, Bool-cases, inr, set, ◌%◌,
}

-- The mark of replaced data leaves the name.
abbrev Marked : Option ℕ → Option Dirent → Option Dirent → Option Dirent → Type 0
Marked source orig changes changes' =
    SameName (alive none orig changes) (alive source orig changes')

has_bit-replaced :
    (de : Dirent) → has_bit (replaced de).changed filename_bit ≡ has_bit de.changed filename_bit
has_bit-replaced de = set_bit-filename de.changed

moved :
    {source : Option ℕ} {orig changes : Option Dirent}
    → EntryOk (alive none orig changes)
    → EntryOk (alive source orig changes)
moved v = record {
  orig_reads = v.orig_reads;
  changes_reads = v.changes_reads;
  live = v.live;
  kept = v.kept;
}

replaced_changes-Marked :
    (room : Bool) (source : Option ℕ) (orig changes changes' : Option Dirent)
    → EntryOk (alive none orig changes)
    → replaced_changes room orig changes ≡ some changes'
    → Marked source orig changes changes'
unfolding replaced_changes clone has_bit
replaced_changes-Marked room source none changes changes' valid h =
    subst (Marked source none changes) (some-injective h) (moved valid, λ t n. n)
replaced_changes-Marked room source (some o) (some de) changes' valid h =
    subst (Marked source (some o) (some de)) (some-injective h) (
      if-cases (λ d. Marked source (some o) (some de) (some d)) (has_bit de.changed comp_method_bit)
        _ _ (λ on. (moved valid, λ t n. n))
        (λ off. (
          record {
            orig_reads = valid.orig_reads;
            changes_reads = valid.changes_reads;
            live = λ k. cc;
            kept = λ d k off'.
                sym (ap filename_of k)
                ∙ valid.kept de refl (
                    sym (has_bit-replaced de)
                    ∙ ap (λ x. has_bit (changed_of x) filename_bit) k
                    ∙ off');
          },
          λ t n. n,
        )))
replaced_changes-Marked true source (some o) none changes' valid h =
    subst (Marked source (some o) none) (some-injective h) (
      record {
        orig_reads = valid.orig_reads;
        changes_reads = valid.orig_reads;
        live = λ k. cc;
        kept = λ d k off. sym (ap filename_of k);
      },
      λ t n. n,
    )
replaced_changes-Marked false source (some o) none changes' valid h = absurd (no_some h)

-- With memory for a clone, the mark can be set.
replaced_changes-some :
    (orig changes : Option Dirent)
    → (changes' : Option Dirent) × (replaced_changes true orig changes ≡ some changes')
unfolding replaced_changes clone
replaced_changes-some none changes = (changes, refl)
replaced_changes-some (some o) (some de) = (_, refl)
replaced_changes-some (some o) none = (_, refl)

-- The mark and the source, on an entry that is not deleted.
marked-SameName :
    (e : Entry) (src : ℕ) (changes' : Option Dirent)
    → e.deleted ≡ false
    → EntryOk e
    → replaced_changes true e.orig e.changes ≡ some changes'
    → SameName e (record e { changes = changes'; source = some src })
marked-SameName e src changes' live valid h =
    let at : Bool → Entry =
      λ d. record { orig = e.orig; changes = e.changes; source = e.source; deleted = d } in
    let done : EntryOk (at false) → SameName (at false) (alive (some src) e.orig changes') = λ v.
      replaced_changes-Marked true (some src) e.orig e.changes changes'
        (record {
          orig_reads = v.orig_reads;
          changes_reads = v.changes_reads;
          live = v.live;
          kept = v.kept;
        })
        h in
    subst
      (λ d.
        EntryOk (at d)
        → SameName (at d)
            (record { orig = e.orig; changes = changes'; source = some src; deleted = d }))
      (sym live) done valid

has_bit-comp_method : (w : ℕ) → has_bit (set_bit w comp_method_bit) comp_method_bit ≡ true
unfolding has_bit set_bit
has_bit-comp_method w = elim (Bool-cases (has_bit w comp_method_bit)) [
  | inl on ↦ rw on on
  | inr off ↦ rw off (let even : w % 2 ≢ 1 = ground arith in ground arith)
]

-- The changes of an entry with an original say that its data are replaced.
abbrev pub SaysReplaced : Option Dirent → Option Dirent → Type 0
SaysReplaced none changes = Unit {0}
SaysReplaced (some o) changes =
    (de : Dirent) × (changes ≡ some de) × (has_bit de.changed comp_method_bit ≡ true)

replaced_changes-SaysReplaced :
    (orig changes changes' : Option Dirent)
    → replaced_changes true orig changes ≡ some changes'
    → SaysReplaced orig changes'
unfolding replaced_changes clone
replaced_changes-SaysReplaced none changes changes' h = tt
replaced_changes-SaysReplaced (some o) (some de) changes' h =
    subst (SaysReplaced (some o)) (some-injective h) (
      if-cases (λ d. SaysReplaced (some o) (some d)) (has_bit de.changed comp_method_bit) _ _
        (λ on. (de, refl, on)) (λ off. (replaced de, refl, has_bit-comp_method de.changed)))
replaced_changes-SaysReplaced (some o) none changes' h =
    subst (SaysReplaced (some o)) (some-injective h) (_, refl, has_bit-comp_method 0)

-- An entry has new data: it has the source and is not deleted, its changes say so, and no other entry
-- is touched.
abbrev pub HasSource : Archive → ℕ → ℕ → Archive → Type 0
HasSource za idx src za' =
    ((entry_at za' idx).source ≡ some src)
    × ((entry_at za' idx).deleted ≡ false)
    × ((entry_at za' idx).orig ≡ (entry_at za idx).orig)
    × SaysReplaced (entry_at za' idx).orig (entry_at za' idx).changes
    × ((i : ℕ) → i ≢ idx → entry_at za' i ≡ entry_at za i)

-- `_zip_file_replace` behind the name: with memory for a clone it succeeds with the entry's index and
-- leaves a well-formed archive well formed, with as many entries and the same table of names, and the
-- source in the entry.
abbrev pub Replaced : Archive → ℕ → ℕ → Outcome ℕ → Type 0
Replaced za idx src (r, za') =
    IsValid za'
    × (r ≡ ok idx)
    × (nentry za' ≡ nentry za)
    × (za'.names ≡ za.names)
    × HasSource za idx src za'

pub replace_data-Replaced :
    (room : Room) (za : Archive) (idx src : ℕ)
    → room.clone ≡ true
    → IsValid za
    → idx < nentry za
    → Replaced za idx src (replace_data room za idx src)
unfolding replace_data
replace_data-Replaced room za idx src clones v lt =
    let e = entry_at za idx in
    let za1 = unchange_data za idx in
    let (es, ns) = unchange_data-entry za idx in
    let after = set_entry za idx (emptied e) in
    let same = emptied-SameName e.orig e.changes e.source e.deleted (v.entries idx) in
    let v1 : IsValid za1 =
      same-IsValid after za1 es ns (neutral-IsValid za idx (emptied e) v lt same) in
    let e1 = entry_at za1 idx in
    let lt1 : idx < nentry za1 =
      subst (λ n. idx < n) (sym (ap length es ∙ length-set za.entry idx (emptied e))) lt in
    let at : e1 ≡ emptied e =
      ap (λ xs. get_or xs idx entry_init) es
      ∙ get_or-set_self za.entry idx (emptied e) entry_init lt in
    let (changes', is) = replaced_changes-some e1.orig e1.changes in
    let e2 = record e1 { changes = changes'; source = some src } in
    let new : get_or (set za1.entry idx e2) idx entry_init ≡ e2 =
      get_or-set_self za1.entry idx e2 entry_init lt1 in
    let marks : mark_replaced room e1 ≡ some (record e1 { changes = changes' }) =
      ap (λ b. marked e1 (replaced_changes b e1.orig e1.changes)) clones ∙ ap (marked e1) is in
    subst (λ m. Replaced za idx src (put_source za1 idx src m)) (sym marks)
      (
        neutral-IsValid za1 idx e2 v1 lt1
            (marked-SameName e1 src changes' (ap (λ y. y.deleted) at) (v1.entries idx) is),
        refl,
        length-set za1.entry idx e2 ∙ ap length es ∙ length-set za.entry idx (emptied e),
        ns,
        (
          ap (λ y. y.source) new,
          ap (λ y. y.deleted) new ∙ ap (λ y. y.deleted) at,
          ap (λ y. y.orig) new ∙ ap (λ y. y.orig) at,
          subst (λ y. SaysReplaced y.orig y.changes) (sym new)
              (replaced_changes-SaysReplaced e1.orig e1.changes changes' is),
          λ i ne.
              get_or-set_ne za1.entry idx i e2 entry_init (λ k. ne (sym k))
              ∙ ap (λ xs. get_or xs i entry_init) es
              ∙ get_or-set_ne za.entry idx i (emptied e) entry_init (λ k. ne (sym k)),
        ),
      )
  where
    marked : Entry → Option (Option Dirent) → Option Entry
    marked x o = elim o [ none ↦ none | some changes ↦ some (record x { changes = changes }) ]
