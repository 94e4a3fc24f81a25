-- ===== src/Source/Examples.antt =====
-- A callback that watches the order of the commands, and reads two bytes at a time.
use allvm_tools.Source.Calls.Stream.{Stream, read-takes, Readable}
use allvm_tools.Run.{er_inval}
use allvm_tools.Source.Calls.{read}
use allvm_tools.Source.{
  Reply, read_bytes, er_ok, write_bytes, write_closed, open_read, close_read, begin_write,
  commit_write, rollback_write, remove, Source, Request, Callback, write_open,
}
use allvm_tools.Base.{
  ℕ, arith, ◌≡◌, ◌||◌, some, length, not, none, false, [], take, true, Bool, drop, min, refl, List,
  ◌∷◌, sym, length-take, eq-nil_of_length, take-append-drop,
}

record Watch : Type 0 where
  is_open : Bool
  is_written : Bool
  wrong : Bool
  left : List ℕ

abbrev fine : Watch → Reply × Watch
fine u = (some (0, []), u)

abbrev answer_watch : Request → Watch → Reply × Watch
answer_watch open_read u = fine (record u { is_open = true; wrong = u.wrong || u.is_open })
answer_watch close_read u = fine (record u { is_open = false; wrong = u.wrong || not u.is_open })
answer_watch (read_bytes n) u =
    let bytes = take (min n 2) u.left in
    (
      some (length bytes, bytes),
      record u { left = drop (min n 2) u.left; wrong = u.wrong || not u.is_open },
    )
answer_watch begin_write u = fine (record u { is_written = true; wrong = u.wrong || u.is_written })
answer_watch (write_bytes bytes) u =
    (some (length bytes, []), record u { wrong = u.wrong || not u.is_written })
answer_watch commit_write u =
    fine (record u { is_written = false; wrong = u.wrong || not u.is_written })
answer_watch rollback_write u = fine (record u { is_written = false })
answer_watch remove u = fine (record u { wrong = u.wrong || u.is_written })
answer_watch other u = (none, u)

abbrev watching : Callback Watch
watching = record {
  supports = λ _. true;
  supports_error = true;
  answer = answer_watch;
  last_error = λ u. (some er_inval, u);
  below = none;
}

abbrev start : Watch
start = record { is_open = false; is_written = false; wrong = false; left = 1 ∷ 2 ∷ 3 ∷ 4 ∷ 5 ∷ [] }

watching-Stream : Stream watching (λ u. u.left)
watching-Stream = record {
  supports_read = λ n. refl;
  gives = λ n u pos. (
    omega (arith, length-take (min n 2) u.left),
    λ none_given. eq-nil_of_length u.left (omega (arith, length-take (min n 2) u.left, none_given)),
    refl,
    sym (take-append-drop (min n 2) u.left),
  );
}

abbrev opened_watch : Source Watch
opened_watch = record {
  ud = record start { is_open = true };
  error = er_ok;
  open_count = 1;
  write_state = write_closed;
  source_closed = false;
  refcount = 1;
  eof = false;
  had_read_error = false;
}

read-takes_example :
    let (r, t) = read watching opened_watch true 3 in
    (r ≡ some (3, 1 ∷ 2 ∷ 3 ∷ [])) × (t.ud.left ≡ 4 ∷ 5 ∷ []) × Readable (λ u. u.left) t
read-takes_example =
    read-takes watching (λ u. u.left) watching-Stream opened_watch 3 (omega arith)
      (refl, refl, refl, λ e. cc)

-- The same source while it is written.
abbrev written_watch : Source Watch
written_watch = record opened_watch { write_state = write_open }
