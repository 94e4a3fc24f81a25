-- ===== src/Source/Calls/States.antt =====
-- The write state of a source: what each function does to it, whatever the callback replies.
use allvm_tools.Source.Calls.{is_writing}
use allvm_tools.Base.{some, ◌⊎◌, false, true, [], ◌≡◌, none}
use allvm_tools.Source.{
  Source, Callback, Reply, write_closed, write_removed, write_failed, same_state, write_open,
}

module _ {ℓ} {U : Type ℓ} (cb : Callback U) where
  abbrev Stays : Source U → Source U → Type 0
  Stays s t = t.write_state ≡ s.write_state

  -- The state after a call that begins, commits or removes.
  abbrev pub Begun : Source U → Reply × Source U → Type 0
  Begun s (r, t) =
      ((r ≡ none) × (t.write_state ≡ s.write_state))
      ⊎ ((r ≡ some (0, [])) × (is_writing s ≡ false) × (t.write_state ≡ write_open))

  abbrev pub Committed : Source U → Reply × Source U → Type 0
  Committed s (r, t) =
      ((r ≡ none)
        × ((t.write_state ≡ s.write_state)
            ⊎ ((is_writing s ≡ true) × (t.write_state ≡ write_failed))))
      ⊎ ((r ≡ some (0, [])) × (is_writing s ≡ true) × (t.write_state ≡ write_closed))

  abbrev pub Removed : Source U → Reply × Source U → Type 0
  Removed s (r, t) =
      ((r ≡ none) × ((t.write_state ≡ s.write_state) ⊎ (t.write_state ≡ write_closed)))
      ⊎ ((r ≡ some (0, [])) × (t.write_state ≡ write_removed))

  abbrev pub RolledBack : Source U → Source U → Type 0
  RolledBack s t =
      ((is_writing s ≡ false)
        × (same_state s.write_state write_failed ≡ false)
        × (t.write_state ≡ s.write_state))
      ⊎ (t.write_state ≡ write_closed)
