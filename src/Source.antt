-- ===== src/Source.antt =====
-- libs/archive-rw/zip_source_*.c: a source of bytes, which the archive opens, reads and writes by
-- sending commands to a callback.
pub mod Calls
mod Memory
mod Examples
use allvm_tools.Run.{Code, er_ok}
use allvm_tools.Base.{ℕ, List, Option, some, none, Bool, false, true, ◌==◌}

-- `zip_source_args_seek_t`: an offset that may be negative, and a place that it counts from; any other
-- number than these three is `elsewhere`.
pub data Whence : Type 0 where
  from_start from_current from_end elsewhere : Whence

pub record Seek : Type 0 where
  pub negative : Bool
  pub distance : ℕ
  pub whence : Whence

-- `zip_source_cmd_t` with the arguments that each command is sent with. ERROR and SUPPORTS are
-- functions of their own below.
pub data Request : Type 0 where
  open_read close_read stat free_source tell begin_write commit_write rollback_write : Request
  tell_write remove compression_flags : Request
  read_bytes begin_write_cloning : ℕ → Request
  write_bytes : List ℕ → Request
  seek seek_write : Seek → Request

-- `zip_source_write_state_t`
pub data WriteState : Type 0 where
  write_closed write_open write_failed write_removed : WriteState

-- `==` on write states, by their numbers.
abbrev pub state_number : WriteState → ℕ
state_number write_closed = 0
state_number write_open = 1
state_number write_failed = 2
state_number write_removed = 3

abbrev pub same_state : WriteState → WriteState → Bool
same_state a b = state_number a == state_number b

-- What a command gives: `none` is a negative number, and else a number and the bytes that it stores.
abbrev pub Reply : Type 0
Reply = Option (ℕ × List ℕ)

-- The callback, over its user data; ZIP_SOURCE_ERROR is `last_error`, and `supports` has the bits of
-- the commands. For a layered source (`src->src != NULL`), the data holds the source below too, and
-- `below` has `zip_source_open` and `zip_source_close` of that source, with the error that they leave.
pub record Below {ℓ} (U : Type ℓ) : Type ℓ where
  pub open_lower : U → Option Code × U
  pub close_lower : U → Option Code × U

pub record Callback {ℓ} (U : Type ℓ) : Type ℓ where
  pub supports : Request → Bool
  pub supports_error : Bool
  pub answer : Request → U → Reply × U
  pub last_error : U → Option Code × U
  pub below : Option (Below U)

-- `struct zip_source`, less the callback.
pub record Source {ℓ} (U : Type ℓ) : Type ℓ where
  pub ud : U
  pub error : Code
  pub open_count : ℕ
  pub write_state : WriteState
  pub source_closed : Bool
  pub refcount : ℕ
  pub eof : Bool
  pub had_read_error : Bool

-- `_zip_source_new`, with the user data that its callers set.
unfoldable pub new_source {ℓ} : {U : Type ℓ} → U → Source U
new_source u = record {
  ud = u;
  error = er_ok;
  open_count = 0;
  write_state = write_closed;
  source_closed = false;
  refcount = 1;
  eof = false;
  had_read_error = false;
}
