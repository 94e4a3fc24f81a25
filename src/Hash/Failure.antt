-- ===== src/Hash/Failure.antt =====
-- `_zip_hash_add` when the larger table cannot be allocated.
use allvm_tools.Hash.Store.{push-refines}
use allvm_tools.Hash.Replace.{find_entry-eq}
use allvm_tools.Hash.Rehash.{found}
use allvm_tools.Flags.{Flags}
use allvm_tools.Run.{err, er_memory}
use allvm_tools.Hash.Map.{fresh, indices, indices_of}
use allvm_tools.Hash.Chain.{count}
use allvm_tools.Hash.{Hash, resize, push, hash_string, overfull, max_size, bucket, new}
use allvm_tools.Hash.Insert.{Memory, insert, add, add_to, add_found}
use allvm_tools.Base.{
  ltb, ap, ◌-◌, same_bytes_iff, ◌==◌, none, some, ◌∙◌, ◌^◌, List, ◌<◌, ◌*◌, arith, ℕ, Option, ◌≡◌,
  false, true, ◌≢◌, refl, ◌+◌, ◌%◌,
}
use native.Mathlib.Nat.{mod-eq_of_lt}
use allvm_tools.Hash.Inv.{IsValid, total}

pub new-IsValid : IsValid new
unfolding new total count
new-IsValid = record {
  sized = refl;
  placed = λ i. tt;
  single = λ name. omega arith;
  counted = refl;
}

-- Memory that runs out when the table is doubled; `junk` is what a new entry's memory holds.
abbrev pub no_larger : Option ℕ → Memory
no_larger junk = record { first_table = true; entry = true; larger_table = false; junk = junk }

module _ (junk : Option ℕ) (name : List ℕ) (h : Hash) where
  abbrev pub with_fresh : Hash
  with_fresh = record h {
    table = push h.table (hash_string name % h.table_size) (fresh junk name);
    nentries = h.nentries + 1;
  }

  resize-fails : (g : Hash) (n : ℕ) → n ≢ g.table_size → resize false g n ≡ (false, g)
  unfolding resize
  resize-fails g n ne = ground arith

  insert-fails :
      0 < h.table_size
      → h.table_size < max_size
      → h.nentries + 1 < 2 ^ 64
      → h.table_size * 3 < (h.nentries + 1) * 4
      → insert (no_larger junk) h name ≡ (err er_memory, with_fresh)
  unfolding insert overfull
  insert-fails pos small bound full =
      let n = h.table_size * 2 % 2 ^ 32 in
      let failed = resize-fails with_fresh n (omega arith) in
      let over : ltb (h.table_size * 3) ((h.nentries + 1) * 4) ≡ true = ground arith in
      let below : ltb h.table_size max_size ≡ true = ground arith in
      rw (mod-eq_of_lt bound, over, below, failed)

  found-fails :
      (index : ℕ) (flags : Flags) {h' : Hash}
      → insert (no_larger junk) h name ≡ (err er_memory, h')
      → add_found (no_larger junk) h name index flags none ≡ (err er_memory, h')
  unfolding add_found
  found-fails index flags failed =
      let code : (insert (no_larger junk) h name).0 ≡ err er_memory = ap (λ p. p.0) failed in
      rw (add_found, code) (ap (λ p. (err er_memory, p.1)) failed)

  -- When the table must be doubled for a new name and the larger one cannot be allocated,
  -- `_zip_hash_add` fails with ZIP_ER_MEMORY but leaves the name in the table, without original index
  -- and with what the entry's memory held as its current index.
  pub add-failed :
      (index : ℕ) (flags : Flags)
      → IsValid h
      → 0 < h.table_size
      → h.table_size < max_size
      → h.nentries + 1 < 2 ^ 64
      → h.table_size * 3 < (h.nentries + 1) * 4
      → index < 2 ^ 63
      → found h name ≡ none
      → (add (no_larger junk) h (some name) index flags ≡ (err er_memory, with_fresh))
        × (indices with_fresh name ≡ (none, junk))
  unfolding add add_to
  add-failed index flags v pos small bound full fits absent =
      let i = hash_string name % h.table_size in
      let looked = find_entry-eq name h.table_size i (bucket h.table i) (v.placed i) in
      let unfit : ltb (2 ^ 63 - 1) index ≡ false = ground arith in
      let sized : (h.table_size == 0) ≡ false = ground arith in
      let self = (same_bytes_iff name name).1 refl in
      let (v', updated) = push-refines h v name pos (fresh junk name) refl refl absent in
      (
        rw (unfit, sized)
            (ap (add_found (no_larger junk) h name index flags) (looked ∙ absent)
              ∙ found-fails index flags (insert-fails pos small bound full)),
        ap indices_of (updated name) ∙ rw self,
      )
