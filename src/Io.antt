-- ===== src/Io.antt =====
-- libs/archive-rw/zip_io_util.c: whole reads and writes of a source, and of a buffer in its place, and
-- what the buffer and the strings do with a source.
mod Exact
mod Examples
use allvm_tools.Flags.{no_flags}
use allvm_tools.Run.{Code, ok, err, er_write, er_internal, er_memory, er_eof, Result}
use allvm_tools.Str.{Str, string_new}
use allvm_tools.Source.Calls.{read, write}
use allvm_tools.Buffer.{Buffer, get, new}
use allvm_tools.Source.{Callback, Source}
use allvm_tools.Base.{
  ℕ, ◌==◌, ◌^◌, ltb, true, ◌∷◌, Bool, List, ◌-◌, not, drop, some, take, if◌then◌else◌, [], ◌&&◌,
  ◌++◌, map, length, none, Option, ◌%◌,
}

-- A NUL in a string is replaced by a space.
abbrev pub blank : ℕ → ℕ
blank c = if c == 0 then 32 else c

module _ {ℓ} {U : Type ℓ} (cb : Callback U) where
  -- `_zip_read`
  unfoldable pub read_exactly : Source U → ℕ → Result (List ℕ) × Source U
  read_exactly s len =
      let (r, s') = read cb s true len in
      if ltb (2 ^ 63 - 1) len then (err er_internal, s) else elim r [
        | none ↦ (err s'.error, s')
        | some (n, bytes) ↦ if ltb n len then (err er_eof, s') else (ok bytes, s')
      ]

  -- `_zip_read_data`: the data, `none` for NULL, and the error that it sets. `alloc` says whether there
  -- is memory; the buffer comes first, if there is one.
  unfoldable pub read_data :
      Bool
      → Option Buffer
      → Source U
      → ℕ
      → Bool
      → Option (List ℕ) × Option Code × Option Buffer × Source U
  read_data alloc buffer s len nulp =
      let finish : List ℕ → List ℕ = λ r. if nulp then map blank r ++ 0 ∷ [] else r in
      let (r, s') = read_exactly s len in
      let from_source : Option (List ℕ) × Option Code × Option Buffer × Source U = elim r [
        | ok bytes ↦ (some (finish bytes), none, buffer, s')
        | err e ↦ (none, some e, buffer, s')
      ] in
      let read_it : Option (List ℕ) × Option Code × Option Buffer × Source U = elim buffer [
        | none ↦ from_source
        | some b ↦
            let (p, b') = get b len in
            elim p [
              | none ↦ (none, some er_memory, some b', s)
              | some at ↦ (some (finish (take len (drop at b.bytes))), none, some b', s)
            ]
      ] in
      if len == 0 && not nulp
      then (none, none, buffer, s)
      else if not alloc
      then (none, some er_memory, buffer, s)
      else read_it

  -- `_zip_read_string`; `room` and `raw_room` are for the string.
  unfoldable pub read_string :
      Bool
      → Bool
      → Bool
      → Option Buffer
      → Source U
      → ℕ
      → Bool
      → Option Str × Option Code × Option Buffer × Source U
  read_string alloc room raw_room buffer s len nulp =
      let (data', e, buffer', s') = read_data alloc buffer s len nulp in
      elim data' [
        | none ↦ (none, e, buffer', s')
        | some raw ↦
            let (e', str) = string_new room raw_room raw len no_flags in (str, e', buffer', s')
      ]

  -- `_zip_write`
  unfoldable pub write_exactly : Source U → List ℕ → Option Code × Source U
  write_exactly s bytes =
      let (r, s') = write cb s bytes in
      elim r [
        | none ↦ (some s'.error, s')
        | some (n, _) ↦ if not (n == length bytes) then (some er_write, s') else (none, s')
      ]

  -- `_zip_buffer_new_from_source`, with the arguments of `_zip_buffer_new`: the buffer, `none` for
  -- NULL, and the error that it sets.
  unfoldable pub new_from_source :
      Option (List ℕ)
      → Bool
      → Option (List ℕ)
      → Source U
      → ℕ
      → Option Buffer × Option Code × Source U
  new_from_source store room given s size =
      let (r, s') = read_exactly s size in
      elim (new store room given size) [
        | none ↦ (none, some er_memory, s)
        | some b ↦ elim r [
          | err e ↦ (none, some e, s')
          | ok bytes ↦ (some (record b { bytes = bytes ++ drop size b.bytes }), none, s')
        ]
      ]

  -- `_zip_string_write` of a string, `none` for NULL.
  unfoldable pub string_write : Source U → Option Str → Option Code × Source U
  string_write s none = (none, s)
  string_write s (some str) = write_exactly s (take str.length str.raw)

-- `_zip_string_crc32`, by zlib's `crc32`, whose data are `none` for NULL.
unfoldable pub string_crc32 : (ℕ → Option (List ℕ) → ℕ) → Option Str → ℕ
string_crc32 crc32 none = crc32 0 none % 2 ^ 32
string_crc32 crc32 (some s) = crc32 (crc32 0 none % 2 ^ 32) (some (take s.length s.raw)) % 2 ^ 32
