-- ===== src/Io/Examples.antt =====
-- Whole reads of a source that gives two bytes at a time.
use allvm_tools.Run.{er_inval, er_ok}
use allvm_tools.Source.{Source, Reply, read_bytes, write_closed, Callback, Request}
use allvm_tools.Source.Calls.Stream.{Stream}
use allvm_tools.Base.{ℕ, none, ◌∷◌, take, true, drop, List, some, false, length, [], min}

abbrev answer_pairs : Request → List ℕ → Reply × List ℕ
answer_pairs (read_bytes n) u =
    let bytes = take (min n 2) u in (some (length bytes, bytes), drop (min n 2) u)
answer_pairs other u = (none, u)

abbrev pairs : Callback (List ℕ)
pairs = record {
  supports = λ _. true;
  supports_error = true;
  answer = answer_pairs;
  last_error = λ u. (some er_inval, u);
  below = none;
}

abbrev text_source : Source (List ℕ)
text_source = record {
  ud = 97 ∷ 0 ∷ 98 ∷ 99 ∷ [];
  error = er_ok;
  open_count = 1;
  write_state = write_closed;
  source_closed = false;
  refcount = 1;
  eof = false;
  had_read_error = false;
}
