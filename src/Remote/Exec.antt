-- ===== src/Remote/Exec.antt =====
-- ExecFS of internal/remotefs/exec.go: a file system over commands for a shell.
pub mod Commands
pub mod Reading
use iceclimber.Common.{
  ℕ, ◌+◌, ◌<◌, Bool, true, false, Option, none, some, List, [], ◌∷◌, ◌++◌, map, length, drop, ltb,
  leb, ◌==◌, if◌then◌else◌,
}
use iceclimber.Common.Result.{Result, ok, err}
use iceclimber.Common.Text.{
  Text, codes, text_eq, contains, ascii_lower, split, trim_space, trim_right_byte,
}
use iceclimber.Remote.Shell.{shell_quote}
use iceclimber.Common.Boxes.{text_lt}

-- remote.Result
pub record RunResult : Type 0 where
  pub stdout : Text
  pub stderr : Text
  pub exit_code : ℕ

-- remote.Runner: a command with its input, none for an error of the transport. `World` is what
-- commands read and change.
pub record Runner : Type 1 where
  pub World : Type 0
  pub run : Text → Text → World → Option RunResult × World

-- strconv's FormatInt and ParseInt, and the octal form of a mode.
pub record Numbers : Type 0 where
  pub itoa : ℕ → Text
  pub parse_int : Text → Option ℕ
  pub octal : ℕ → Text

pub data ExecError : Type 0 where
  not_connected not_exist : ExecError
  bad_size : Text → ExecError
  exited : ℕ → Text → ExecError

unfoldable pub status_err : RunResult → ExecError
unfolding contains ascii_lower trim_space
status_err res =
    if contains (ascii_lower res.stderr) (codes "no such file")
    then not_exist
    else exited res.exit_code (trim_space res.stderr)

-- the output of a command that exits with 0
unfoldable pub stdout_of : Option RunResult → Result ExecError Text
unfolding status_err
stdout_of none = err not_connected
stdout_of (some res) = if res.exit_code == 0 then ok res.stdout else err (status_err res)

unfoldable pub check : Option RunResult → Option ExecError
unfolding status_err
check none = some not_connected
check (some res) = if res.exit_code == 0 then none else some (status_err res)

-- The commands.
unfoldable pub mkdir_command : Text → Text
unfolding shell_quote
mkdir_command path = codes "mkdir -p " ++ shell_quote path

unfoldable pub write_command : Text → Text
unfolding shell_quote
write_command path = codes "cat > " ++ shell_quote path

unfoldable pub read_command : Text → Text
unfolding shell_quote
read_command path = codes "cat " ++ shell_quote path

unfoldable pub size_command : Text → Text
unfolding shell_quote
size_command path = codes "wc -c < " ++ shell_quote path

unfoldable pub list_command : Text → Text
unfolding shell_quote
list_command dir = codes "ls -1 " ++ shell_quote dir

unfoldable pub rename_command : Text → Text → Text
unfolding shell_quote
rename_command from to = codes "mv " ++ (shell_quote from ++ (codes " " ++ shell_quote to))

unfoldable pub symlink_command : Text → Text → Text
unfolding shell_quote
symlink_command target link =
    codes "ln -sfn " ++ (shell_quote target ++ (codes " " ++ shell_quote link))

unfoldable pub untar_command : Text → Text
unfolding shell_quote
untar_command target = codes "tar -xf - -C " ++ shell_quote target

unfoldable pub remove_command : Text → Text
unfolding shell_quote
remove_command path = codes "rm -rf " ++ shell_quote path

-- splitLines
unfoldable pub split_lines : Text → List Text
unfolding trim_right_byte text_eq split
split_lines b =
    let s = trim_right_byte b b'\n' in
    if text_eq s [] then [] else map (λ part. trim_right_byte part b'\r') (split b'\n' s)

-- sort.Strings
unfoldable pub insert_sorted : Text → List Text → List Text
unfolding text_lt
insert_sorted t [] = t ∷ []
insert_sorted t (x ∷ xs) =
    let rest = insert_sorted t xs in if text_lt x t then x ∷ rest else t ∷ x ∷ xs

unfoldable pub sort_strings : List Text → List Text
unfolding insert_sorted
sort_strings [] = []
sort_strings (x ∷ xs) = insert_sorted x (sort_strings xs)

module _ (n : Numbers) where
  unfoldable pub tail_command : ℕ → Text → Text
  unfolding shell_quote
  tail_command from path = codes "tail -c +" ++ (n.itoa from ++ (codes " " ++ shell_quote path))

  unfoldable pub chmod_command : ℕ → Text → Text
  unfolding shell_quote
  chmod_command mode path = codes "chmod " ++ (n.octal mode ++ (codes " " ++ shell_quote path))

module _ (r : Runner) where
  -- A command without a result: an error or none, and the world after it.
  abbrev pub Action : Type 0
  Action = r.World → Option ExecError × r.World

  abbrev pub Query : Type 0 → Type 0
  Query A = r.World → Result ExecError A × r.World

  unfoldable pub perform : Text → Text → Action
  unfolding check
  perform command input w = let (res, w') = r.run command input w in (check res, w')

  unfoldable pub ask : Text → Query Text
  unfolding stdout_of
  ask command w = let (res, w') = r.run command [] w in (stdout_of res, w')

  unfoldable pub mkdir : Text → Action
  unfolding perform mkdir_command
  mkdir path = perform (mkdir_command path) []

  unfoldable pub exec_write : Text → Text → Action
  unfolding perform write_command
  exec_write path bytes = perform (write_command path) bytes

  unfoldable pub exec_read : Text → Query Text
  unfolding ask read_command
  exec_read path = ask (read_command path)

  unfoldable pub exec_rename : Text → Text → Action
  unfolding perform rename_command
  exec_rename from to = perform (rename_command from to) []

  unfoldable pub exec_symlink : Text → Text → Action
  unfolding perform symlink_command
  exec_symlink target link = perform (symlink_command target link) []

  unfoldable pub exec_remove_all : Text → Action
  unfolding perform remove_command
  exec_remove_all path = perform (remove_command path) []

  unfoldable pub exec_list : Text → Query (List Text)
  unfolding ask list_command sort_strings split_lines
  exec_list dir w =
      let (out, w') = ask (list_command dir) w in
      (elim out [ err e ↦ err e | ok s ↦ ok (sort_strings (split_lines s)) ], w')

  -- none for a nil error: the directory is made first
  unfoldable pub push_tar : Text → Text → Action
  unfolding mkdir perform untar_command
  push_tar archive target w =
      let (made, w') = mkdir target w in
      elim made [ some e ↦ (some e, w') | none ↦ perform (untar_command target) archive w' ]

  module _ (n : Numbers) where
    unfoldable pub exec_chmod : ℕ → Text → Action
    unfolding perform chmod_command
    exec_chmod mode path = perform (chmod_command n mode path) []

    -- the part of ReadFrom behind the size
    unfoldable pub read_tail : Text → ℕ → ℕ → Query (Text × ℕ)
    unfolding ask tail_command
    read_tail path start size w =
        if leb size start
        then (ok ([], size), w)
        else (let (out, w') = ask (tail_command n (start + 1) path) w in
            (elim out [ err e ↦ err e | ok s ↦ ok (s, start + length s) ], w'))

    unfoldable pub read_sized : Text → ℕ → Text → Query (Text × ℕ)
    unfolding read_tail trim_space
    read_sized path off out w = elim (n.parse_int (trim_space out)) [
      | none ↦ (err (bad_size out), w)
      | some size ↦ read_tail path (if ltb size off then 0 else off) size w
    ]

    unfoldable pub read_from : Text → ℕ → Query (Text × ℕ)
    unfolding ask size_command read_sized
    read_from path off w =
        let (out, w') = ask (size_command path) w in
        elim out [ err e ↦ (err e, w') | ok s ↦ read_sized path off s w' ]
