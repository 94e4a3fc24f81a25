-- ===== src/Source/Calls.antt =====
-- The functions on a source: `_zip_source_call` and the calls of the archive.
pub mod Stream
pub mod States
use allvm_tools.Source.{
  Callback, Reply, Seek, Whence, same_state, Request, write_failed, write_open, read_bytes,
  open_read, elsewhere, seek, seek_write, write_removed, close_read, commit_write, write_closed,
  remove, write_bytes, rollback_write, tell_write, tell, from_start, begin_write,
  begin_write_cloning, Below, Source,
}
use allvm_tools.Run.{Code, er_internal, er_ok, er_inval, er_opnotsupp, er_deleted, er_inuse}
use allvm_tools.Base.{
  if◌then◌else◌, ◌∷◌, Option, some, [], zero, true, ◌||◌, ℕ, suc, List, take, Bool, ◌++◌, length,
  false, ltb, ◌&&◌, ◌^◌, none, ◌-◌, ◌==◌, ◌+◌, not, ◌%◌,
}

abbrev pub is_reading {ℓ} : {U : Type ℓ} → Source U → Bool
is_reading s = ltb 0 s.open_count

abbrev pub is_writing {ℓ} : {U : Type ℓ} → Source U → Bool
is_writing s = same_state s.write_state write_open

-- A call that returns -1 with an error.
abbrev pub fail {ℓ} : {U : Type ℓ} → Code → Source U → Reply × Source U
fail e s = (none, record s { error = e })

abbrev pub done {ℓ} : {U : Type ℓ} → Source U → Reply × Source U
done s = (some (0, []), s)

module _ {ℓ} {U : Type ℓ} (cb : Callback U) where
  -- The call with ZIP_SOURCE_ERROR after a failure.
  unfoldable pub fetch_error : Source U → Source U
  fetch_error s =
      let (e, u) = cb.last_error s.ud in
      if cb.supports_error
      then (elim e [
        | none ↦ record s { ud = u; error = er_internal }
        | some code ↦ record s { ud = u; error = code }
      ])
      else record s { error = er_internal }

  -- `_zip_source_call`
  unfoldable pub call : Source U → Request → Reply × Source U
  call s req =
      let (reply, u) = cb.answer req s.ud in
      let s' = record s { ud = u } in
      if not (cb.supports req)
      then fail er_opnotsupp s
      else elim reply [ none ↦ (none, fetch_error s') | some r ↦ (some r, s') ]

  -- The last part of `zip_source_close`: the source below, and before it ZIP_SOURCE_CLOSE.
  unfoldable pub close_below : Option (Below U) → Source U → Source U
  close_below none s = s
  close_below (some lower) s =
      let (e, u) = lower.close_lower s.ud in
      elim e [ none ↦ record s { ud = u } | some code ↦ record s { ud = u; error = er_internal } ]

  unfoldable pub close_last : Source U → Source U
  close_last s = close_below cb.below (call s close_read).1

  -- `zip_source_close`
  unfoldable pub close : Source U → Reply × Source U
  close s =
      let s' = record s { open_count = s.open_count - 1 } in
      if not (is_reading s)
      then fail er_inval s
      else if s'.open_count == 0
      then done (close_last s')
      else done s'

  abbrev pub opened : Source U → Source U
  opened s = record s {
    eof = false;
    had_read_error = false;
    error = er_ok;
    open_count = (s.open_count + 1) % 2 ^ 32;
  }

  -- The part of `zip_source_open` that sends ZIP_SOURCE_OPEN, and closes the source below if that
  -- fails.
  unfoldable pub undo_lower : Option (Below U) → Source U → Source U
  undo_lower none s = s
  undo_lower (some lower) s = record s { ud = (lower.close_lower s.ud).1 }

  unfoldable pub open_layer : Source U → Reply × Source U
  open_layer s =
      let (r, s') = call s open_read in
      elim r [ none ↦ (none, undo_lower cb.below s') | some _ ↦ done (opened s') ]

  -- The part that opens the source below first.
  unfoldable pub open_first : Option (Below U) → Source U → Reply × Source U
  open_first none s = open_layer s
  open_first (some lower) s =
      let (e, u) = lower.open_lower s.ud in
      elim e [
        | none ↦ open_layer (record s { ud = u })
        | some code ↦ fail code (record s { ud = u })
      ]

  -- `zip_source_open`
  unfoldable pub open_source : Source U → Reply × Source U
  open_source s =
      let first = open_first cb.below s in
      if s.source_closed
      then (none, s)
      else if same_state s.write_state write_removed
      then fail er_deleted s
      else if is_reading s
      then (if cb.supports (seek (record { negative = false; distance = 0; whence = from_start }))
          then done (opened s)
          else fail er_inuse s)
      else first

  -- The loop of `zip_source_read`, from `bytes_read` on, and what it has stored. A round reads a byte at
  -- least or ends the loop, so `fuel` of the bytes to read is enough.
  unfoldable pub read_loop : ℕ → Source U → ℕ → ℕ → List ℕ → Reply × Source U
  read_loop zero s want bytes_read acc = (some (bytes_read, acc), s)
  read_loop (suc fuel) s want bytes_read acc =
      let (r, s') = call s (read_bytes (want - bytes_read)) in
      let failed : Reply × Source U =
        let s'' = record s' { had_read_error = true } in
        if bytes_read == 0 then (none, s'') else (some (bytes_read, acc), s'') in
      let next : Reply × Source U = elim r [
        | none ↦ failed
        | some (n, bytes) ↦
            let rest = read_loop fuel s' want (bytes_read + n) (acc ++ take n bytes) in
            if n == 0 then (some (bytes_read, acc), record s' { eof = true }) else rest
      ] in
      if ltb bytes_read want then next else (some (bytes_read, acc), s)

  -- `zip_source_read`; `given` says whether there is memory for the data.
  unfoldable pub read : Source U → Bool → ℕ → Reply × Source U
  read s given len =
      let loop = read_loop len s len 0 [] in
      if s.source_closed
      then (none, s)
      else if not (is_reading s) || ltb (2 ^ 63 - 1) len || (ltb 0 len && not given)
      then fail er_inval s
      else if s.had_read_error
      then (none, s)
      else if s.eof
      then done s
      else if len == 0
      then done s
      else loop

  abbrev pub is_place : Whence → Bool
  is_place elsewhere = false
  is_place w = true

  -- `zip_source_seek`, `zip_source_tell`
  unfoldable pub seek_to : Source U → Seek → Reply × Source U
  seek_to s args =
      let (r, s') = call s (seek args) in
      if s.source_closed
      then (none, s)
      else if not (is_reading s) || not (is_place args.whence)
      then fail er_inval s
      else elim r [ none ↦ (none, s') | some _ ↦ done (record s' { eof = false }) ]

  unfoldable pub tell_position : Source U → Reply × Source U
  tell_position s =
      if s.source_closed
      then (none, s)
      else if not (is_reading s)
      then fail er_inval s
      else call s tell

  -- `zip_source_begin_write`, and `zip_source_begin_write_cloning` for the other request.
  unfoldable pub begin : Source U → Request → Reply × Source U
  begin s req =
      let (r, s') = call s req in
      if is_writing s
      then fail er_inval s
      else elim r [ none ↦ (none, s') | some _ ↦ done (record s' { write_state = write_open }) ]

  -- `zip_source_commit_write`, after the source is closed for reading.
  unfoldable pub commit_closed : Source U → Reply × Source U
  commit_closed s =
      let (r, s') = call s commit_write in
      elim r [
        | none ↦ (none, record s' { write_state = write_failed })
        | some _ ↦ done (record s' { write_state = write_closed })
      ]

  unfoldable pub commit : Source U → Reply × Source U
  commit s =
      let (r, s') = close s in
      if not (is_writing s)
      then fail er_inval s
      else if ltb 1 s.open_count
      then fail er_inuse s
      else if is_reading s
      then (elim r [ none ↦ (none, s') | some _ ↦ commit_closed s' ])
      else commit_closed s

  -- `zip_source_rollback_write`
  unfoldable pub rollback : Source U → Source U
  rollback s =
      if not (is_writing s) && not (same_state s.write_state write_failed)
      then s
      else record (call s rollback_write).1 { write_state = write_closed }

  -- `zip_source_write`, `zip_source_seek_write`, `zip_source_tell_write`
  unfoldable pub write : Source U → List ℕ → Reply × Source U
  write s bytes =
      if not (is_writing s) || ltb (2 ^ 63 - 1) (length bytes)
      then fail er_inval s
      else call s (write_bytes bytes)

  unfoldable pub seek_write_to : Source U → Seek → Reply × Source U
  seek_write_to s args =
      let (r, s') = call s (seek_write args) in
      if not (is_writing s) || not (is_place args.whence)
      then fail er_inval s
      else elim r [ none ↦ (none, s') | some _ ↦ done s' ]

  unfoldable pub tell_write_position : Source U → Reply × Source U
  tell_write_position s = if not (is_writing s) then fail er_inval s else call s tell_write

  -- `zip_source_remove`, after the source is closed for reading, and as a whole.
  unfoldable pub remove_closed : Source U → Reply × Source U
  remove_closed s =
      let back = if not (same_state s.write_state write_closed) then rollback s else s in
      let (r, s') = call back remove in
      elim r [ none ↦ (none, s') | some _ ↦ done (record s' { write_state = write_removed }) ]

  unfoldable pub remove_source : Source U → Reply × Source U
  remove_source s =
      let (r, s') = close s in
      if same_state s.write_state write_removed
      then done s
      else if is_reading s
      then (elim r [ none ↦ (none, s') | some _ ↦ remove_closed s' ])
      else remove_closed s

-- `zip_source_keep`
unfoldable pub keep {ℓ} : {U : Type ℓ} → Source U → Source U
keep s = record s { refcount = (s.refcount + 1) % 2 ^ 32 }

-- The functions as one: what the archive may ask of a source.
pub data Action : Type 0 where
  opening closing telling beginning committing rolling_back telling_write removing keeping : Action
  reading : Bool → ℕ → Action
  seeking seeking_write : Seek → Action
  cloning : ℕ → Action
  writing : List ℕ → Action

unfoldable pub act {ℓ} : {U : Type ℓ} → Callback U → Source U → Action → Reply × Source U
act cb s opening = open_source cb s
act cb s closing = close cb s
act cb s (reading given len) = read cb s given len
act cb s (seeking args) = seek_to cb s args
act cb s telling = tell_position cb s
act cb s beginning = begin cb s begin_write
act cb s (cloning offset) = begin cb s (begin_write_cloning offset)
act cb s committing = commit cb s
act cb s rolling_back = done (rollback cb s)
act cb s (writing bytes) = write cb s bytes
act cb s (seeking_write args) = seek_write_to cb s args
act cb s telling_write = tell_write_position cb s
act cb s removing = remove_source cb s
act cb s keeping = done (keep s)
