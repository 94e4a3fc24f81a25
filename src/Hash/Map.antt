-- ===== src/Hash/Map.antt =====
-- The table as a map from names to pairs of indices, on which `_zip_hash_add` and `_zip_hash_delete`
-- are assignments.
use allvm_tools.Hash.Store.{UpdatedBy, push-refines}
use allvm_tools.Hash.Rehash.{found}
use allvm_tools.Hash.Insert.{insert, Memory}
use allvm_tools.Hash.{Entry, hash_string, push, overfull, max_size, resize, Hash}
use allvm_tools.Run.{Result, ok, err, er_memory}
use allvm_tools.Base.{
  true, ◌≡◌, ◌<◌, ltb, ◌^◌, false, ◌%◌, refl, ℕ, Option, subst, ◌∙◌, some, ◌+◌, if◌then◌else◌, ◌*◌,
  Bool, arith, ◌&&◌, none, sym, List,
}
use native.Mathlib.Nat.{mod-eq_of_lt}
use allvm_tools.Hash.Inv.{IsValid, resize-refines}

-- The original and the current index of a name; a name without entry has neither.
abbrev pub indices_of : Option Entry → Option ℕ × Option ℕ
indices_of none = (none, none)
indices_of (some e) = (e.orig_index, e.current_index)

abbrev pub indices : Hash → List ℕ → Option ℕ × Option ℕ
indices h name = indices_of (found h name)

-- All memory that `_zip_hash_add` asks for is there.
abbrev pub roomy : Option ℕ → Memory
roomy junk = record { first_table = true; entry = true; larger_table = true; junk = junk }

abbrev pub Outcome : Type 0
Outcome = Result (Unit {0}) × Hash

-- The end of an operation that resizes the table if `t`.
pub resized_or :
    (P : Outcome → Type 0) (t grown : Bool) (h' h'' : Hash)
    → grown ≡ true
    → (t ≡ true → P (ok tt, h''))
    → P (ok tt, h')
    → P (if t then (if grown then (ok tt, h'') else (err er_memory, h'')) else (ok tt, h'))
resized_or P true true h' h'' g p q = p refl
resized_or P false grown h' h'' g p q = q
resized_or P true false h' h'' g p q = cc

pub resize-room : (h : Hash) (n : ℕ) → (resize true h n).0 ≡ true
unfolding resize
resize-room h n = ground arith

pub resize-table_size : (h : Hash) (n : ℕ) → (resize true h n).1.table_size ≡ n
unfolding resize
resize-table_size h n = ground arith

pub resize-nentries : (h : Hash) (n : ℕ) → (resize true h n).1.nentries ≡ h.nentries
unfolding resize
resize-nentries h n = ground arith

module _ (junk : Option ℕ) (name : List ℕ) where
  abbrev pub fresh : Entry
  fresh = record {
    name = name;
    orig_index = none;
    current_index = junk;
    hash_value = hash_string name;
  }

  abbrev pub Inserted : Hash → Outcome → Type 0
  Inserted h (r, h') =
      (r ≡ ok tt) × IsValid h' × (0 < h'.table_size) × UpdatedBy h h' name (λ _. some fresh)

  pub insert-refines :
      (h : Hash)
      → IsValid h
      → 0 < h.table_size
      → h.nentries + 1 < 2 ^ 64
      → found h name ≡ none
      → Inserted h (insert (roomy junk) h name)
  unfolding insert
  insert-refines h v pos bound absent =
      let place = hash_string name % h.table_size in
      let grown : ℕ → Hash = λ m. record h { table = push h.table place fresh; nentries = m } in
      let n = h.table_size * 2 % 2 ^ 32 in
      let (v', updated) = push-refines h v name pos fresh refl refl absent in
      let h' = grown (h.nentries + 1) in
      subst
        (λ m.
          let g = grown m in
          Inserted h (
            if overfull g && ltb h.table_size max_size
            then (if (resize true g n).0
                then (ok tt, (resize true g n).1)
                else (err er_memory, (resize true g n).1))
            else (ok tt, g)))
        (sym (mod-eq_of_lt bound))
        (resized_or (Inserted h) (overfull h' && ltb h.table_size max_size) (resize true h' n).0 h'
          (resize true h' n).1 (resize-room h' n)
          (λ t.
            let small : h.table_size < max_size = ground arith in
            let pos' : 0 < n = omega arith in
            let (v'', kept) = resize-refines true h' n pos' v' in
            (
              refl,
              v'',
              subst (λ k. 0 < k) (sym (resize-table_size h' n)) pos',
              λ name'. kept name' ∙ updated name',
            ))
          (refl, v', pos, updated))
