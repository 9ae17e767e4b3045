-- ===== src/SequentialFile.antt =====
-- amkv/util/sequential_file.cc: a file that is read once from its start. The kernel's answers to
-- `::read` are a list of events; behind its end every read gets all that it asks for, as far as the
-- file goes.
use am_kv.Prelude.{ap, ◌≡◌, ℕ, min, String, List, [], ◌∷◌, Bytes, take, drop}
use am_kv.Status.{Status, ErrorCode, make_status, status_ok}

pub data ReadEvent : Type 0 where
  transferred : ℕ → ReadEvent
  interrupted read_failed : ReadEvent

pub record PosixSequentialFile : Type 0 where
  pub filename : String
  pub rest : Bytes
  pub events : List ReadEvent

-- The status, what `*result` is set to (nothing, if the status is an error) and the file.
pub read_loop : ℕ → String → Bytes → List ReadEvent → Status × Bytes × PosixSequentialFile
read_loop n name rest [] =
    (status_ok, take n rest, record { filename = name; rest = drop n rest; events = [] })
read_loop n name rest (transferred k ∷ es) = (
  status_ok,
  take (min k n) rest,
  record { filename = name; rest = drop (min k n) rest; events = es },
)
read_loop n name rest (interrupted ∷ es) = read_loop n name rest es
read_loop n name rest (read_failed ∷ es) =
    (make_status ErrorCode.not_found name, [], record { filename = name; rest = rest; events = es })

unfoldable pub read : ℕ → PosixSequentialFile → Status × Bytes × PosixSequentialFile
unfolding read_loop
read n f = read_loop n f.filename f.rest f.events

-- A read when the kernel has no surprise left.
pub read_quiet :
    (n : ℕ) (f : PosixSequentialFile)
    → f.events ≡ []
    → read n f ≡ (
      status_ok,
      take n f.rest,
      record { filename = f.filename; rest = drop n f.rest; events = [] },
    )
unfolding read
read_quiet n f e = ap (λ es. read_loop n f.filename f.rest es) e
