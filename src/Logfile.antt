-- ===== src/Logfile.antt =====
-- internal/logfile/logfile.go: one Writer of a rotating log. Generation 0 is the file at the path
-- itself, generation n the file path.n. The calls of other processes come between its own.
pub mod Shifted
pub mod Kept
pub mod Prepared
pub mod Appended
pub mod Bounded
pub mod Sized
use iceclimber.Common.{
  ℕ, zero, suc, ◌+◌, ◌-◌, ◌*◌, ◌^◌, Bool, true, false, not, ◌&&◌, Option, none, some, List, [], ◌∷◌,
  ◌++◌, length, take, ltb, leb, ◌==◌, if◌then◌else◌,
}
use iceclimber.Common.Text.{Text}

-- What the files hold.
abbrev pub Generations : Type 0
Generations = ℕ → Option Text

-- w.f: closed, the file at the path, or a file that is not there any more
pub data Handle : Type 0 where
  closed here elsewhere : Handle

pub record Writer : Type 0 where
  pub max_bytes : ℕ
  pub keep : ℕ

-- DefaultMaxBytes, and the least number of generations
unfoldable pub new_writer : ℕ → ℕ → Writer
new_writer max_bytes keep = record {
  max_bytes = if max_bytes == 0 then 8 * 2 ^ 20 else max_bytes;
  keep = if ltb keep 1 then 1 else keep;
}

-- Which system calls of an Append succeed. The second look at the size is `stats_again`, `renames i`
-- is the rename of generation i, and `stops` is where a write stops that does not go through.
pub record Calls : Type 0 where
  pub opens : Bool
  pub stats : Bool
  pub stats_again : Bool
  pub locks : Bool
  pub truncates : Bool
  pub removes : Bool
  pub renames : ℕ → Bool
  pub stops : Option ℕ

pub record LogState : Type 0 where
  pub files : Generations
  pub handle : Handle

pub data LogError : Type 0 where
  not_opened no_stat no_lock not_truncated not_renamed not_written : LogError

-- An error or none, and the state.
abbrev pub Done : Type 0
Done = Option LogError × LogState

abbrev pub bytes_of : Option Text → Text
bytes_of none = []
bytes_of (some s) = s

unfoldable pub set_file : ℕ → Option Text → Generations → Generations
set_file i v g k = if k == i then v else g k

-- os.Rename of a file that may be missing
unfoldable pub rename_file : ℕ → ℕ → Generations → Generations
unfolding set_file
rename_file i j g = elim (g i) [ none ↦ g | some s ↦ set_file j (some s) (set_file i none g) ]

-- os.OpenFile with O_CREATE
unfoldable pub ensure_open : Calls → LogState → Done
unfolding set_file
ensure_open c st = elim st.handle [
  | closed ↦
      if c.opens
      then (
        none,
        record { files = set_file 0 (some (bytes_of (st.files 0))) st.files; handle = here },
      )
      else (some not_opened, st)
  | _ ↦ (none, st)
]

unfoldable pub reopen : Calls → LogState → Done
unfolding ensure_open
reopen c st = ensure_open c (record st { handle = closed })

-- `_ = os.Rename(path.i, path.(i+1))`
unfoldable pub try_rename : Calls → ℕ → Generations → Generations
unfolding rename_file
try_rename c i g = if c.renames i then rename_file i (suc i) g else g

-- the renames from i = n down to 1
unfoldable pub shift_down : Calls → ℕ → Generations → Generations
unfolding try_rename
shift_down c zero g = g
shift_down c (suc n) g = shift_down c n (try_rename c (suc n) g)

module _ (w : Writer) where
  -- os.Stat finds a file below the cap
  unfoldable pub is_small : Calls → Generations → Bool
  is_small c g = c.stats_again && elim (g 0) [ none ↦ false | some s ↦ ltb (length s) w.max_bytes ]

  unfoldable pub oldest_removed : Calls → Generations → Generations
  unfolding set_file
  oldest_removed c g = if c.removes then set_file (w.keep - 1) none g else g

  -- the path is started over
  unfoldable pub truncate : Generations → Generations
  unfolding set_file
  truncate g = elim (g 0) [ none ↦ g | some _ ↦ set_file 0 (some []) g ]

  -- behind the lock and the second look at the size
  unfoldable pub rotate_files : Calls → LogState → Done
  unfolding reopen truncate oldest_removed shift_down rename_file
  rotate_files c st =
      if leb w.keep 1
      then (if c.truncates
          then reopen c (record st { files = truncate st.files })
          else (some not_truncated, st))
      else (let g = shift_down c (w.keep - 2) (oldest_removed c st.files) in
          if c.renames 0
          then reopen c (record st { files = rename_file 0 1 g })
          else (some not_renamed, record st { files = g }))

  unfoldable pub rotate_locked : Calls → LogState → Done
  unfolding is_small reopen rotate_files
  rotate_locked c st =
      if c.locks
      then (if is_small c st.files then reopen c st else rotate_files c st)
      else (some no_lock, st)

  unfoldable pub rotate_if_needed : Calls → LogState → Done
  unfolding reopen rotate_locked
  rotate_if_needed c st =
      if c.stats
      then elim (st.files 0) [
        | none ↦ reopen c st
        | some s ↦ elim st.handle [
          | here ↦ if ltb (length s) w.max_bytes then (none, st) else rotate_locked c st
          | _ ↦ reopen c st
        ]
      ]
      else (some no_stat, st)

  -- w.f.Write. What goes to a file without a name is lost.
  unfoldable pub write : Calls → Text → LogState → Done
  unfolding set_file
  write c b st = elim st.handle [
    | here ↦ elim c.stops [
      | none ↦ (none, record st { files = set_file 0 (some (bytes_of (st.files 0) ++ b)) st.files })
      | some n ↦ (
        some not_written,
        record st { files = set_file 0 (some (bytes_of (st.files 0) ++ take n b)) st.files },
      )
    ]
    | _ ↦ (none, st)
  ]

  unfoldable pub append_rotated : Calls → Text → Done → Done
  unfolding write
  append_rotated c b (some e, st) = (some e, st)
  append_rotated c b (none, st) = write c b st

  unfoldable pub append_opened : Calls → Text → Done → Done
  unfolding rotate_if_needed append_rotated
  append_opened c b (some e, st) = (some e, st)
  append_opened c b (none, st) = append_rotated c b (rotate_if_needed c st)

  -- Append of a Writer with a path
  unfoldable pub append : Calls → Text → LogState → Done
  unfolding ensure_open append_opened
  append c b st = append_opened c b (ensure_open c st)

-- An Append of any process, with the handle that it has.
pub record Call : Type 0 where
  pub calls : Calls
  pub handle : Handle
  pub bytes : Text

-- The calls of the processes that share a log, one behind the other, and what each returns.
unfoldable pub run : Writer → List Call → Generations → List (Option LogError) × Generations
unfolding append
run w [] g = ([], g)
run w (c ∷ cs) g =
    let (e, st) = append w c.calls c.bytes (record { files = g; handle = c.handle }) in
    let (es, g') = run w cs st.files in (e ∷ es, g')
