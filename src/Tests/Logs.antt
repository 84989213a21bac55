-- ===== src/Tests/Logs.antt =====
-- internal/logfile at concrete inputs.
use iceclimber.Common.{◌+◌, ◌*◌, ◌≤◌, ◌≡◌, ◌≢◌, All, refl, true, none, List, [], ◌∷◌, length, arith}
use iceclimber.Common.Text.{codes}
use iceclimber.Logfile.{
  Generations, closed, here, elsewhere, Writer, new_writer, Calls, Call, run, append, ensure_open,
  append_opened, append_rotated, rotate_if_needed, rotate_locked, rotate_files, is_small,
  oldest_removed, shift_down, try_rename, rename_file, set_file, reopen, write,
}
use iceclimber.Logfile.Kept.{history, Kept}
use iceclimber.Logfile.Appended.{all_written, run-Kept}
use iceclimber.Logfile.Bounded.{Small}
use iceclimber.Logfile.Sized.{Modest, run-Sized}

abbrev writer : Writer
writer = record { max_bytes = 3; keep = 2 }

abbrev works : Calls
works = record {
  opens = true;
  stats = true;
  stats_again = true;
  locks = true;
  truncates = true;
  removes = true;
  renames = λ _. true;
  stops = none;
}

abbrev empty : Generations
empty _ = none

abbrev three : List Call
three =
    record { calls = works; handle = closed; bytes = codes "abc" }
    ∷ record { calls = works; handle = here; bytes = codes "def" }
    ∷ record { calls = works; handle = closed; bytes = codes "ghi" }
    ∷ []

run-Kept_example :
    Kept 2 empty (run writer three empty).1 (all_written three (run writer three empty).0)
run-Kept_example =
    run-Kept writer three empty (omega arith) ((λ i e. e), ((λ i e. e), ((λ i e. e), tt)))

run-Sized_example :
    Small (3 + 3) (run writer three empty).1
    × (length (history 2 (run writer three empty).1) ≤ 2 * (3 + 3))
run-Sized_example = run-Sized writer 3 three empty modest (λ i. omega arith)
  where
    not_moved : (closed ≢ elsewhere) × (here ≢ elsewhere)
    not_moved = ((λ e. cc), (λ e. cc))

    modest : All (Modest writer 3) three
    modest =
        ((not_moved.0, omega arith), ((not_moved.1, omega arith), ((not_moved.0, omega arith), tt)))

-- The third record makes the log give up the first one.
rotated : history 2 (run writer three empty).1 ≡ codes "defghi"
unfolding run append ensure_open append_opened append_rotated rotate_if_needed rotate_locked
    rotate_files is_small oldest_removed shift_down try_rename rename_file set_file reopen write
rotated = refl

-- The defaults of a configuration that says nothing keep one generation.
default_keep : (new_writer 0 0).keep ≡ 1
unfolding new_writer
default_keep = refl
