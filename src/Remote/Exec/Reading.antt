-- ===== src/Remote/Exec/Reading.antt =====
-- ReadFrom of internal/remotefs/exec.go.
use iceclimber.Common.{
  ℕ, ◌+◌, ◌≤◌, ◌≡◌, refl, ap, ◌∙◌, inl, inr, true, some, [], ◌++◌, length, drop, ltb, leb, arith,
  length-drop, drop_zero_of_length, if◌then◌else◌, Bool-cases,
}
use iceclimber.Common.Result.{Result, ok, err}
use iceclimber.Common.Text.{Text, codes, trim_space}
use iceclimber.Remote.Exec.{
  RunResult, Runner, Numbers, ExecError, size_command, tail_command, ask, read_tail, read_sized,
  read_from,
}

abbrev pub answer : Text → RunResult
answer s = record { stdout = s; stderr = []; exit_code = 0 }

-- The file at a path, as `wc -c` and `tail -c +N` show it while nothing changes.
pub record Holds (r : Runner) (n : Numbers) (path text : Text) (w : r.World) : Type 0 where
  pub sized :
      r.run (size_command path) [] w ≡ (some (answer (n.itoa (length text) ++ codes "\n")), w)
  pub counted : n.parse_int (trim_space (n.itoa (length text) ++ codes "\n")) ≡ some (length text)
  pub tailed : (k : ℕ) → r.run (tail_command n (k + 1) path) [] w ≡ (some (answer (drop k text)), w)

-- where ReadFrom starts: at the offset, or at the start of a file that shrank
abbrev pub start_of : ℕ → ℕ → ℕ
start_of size off = if ltb size off then 0 else off

module _ (r : Runner) (n : Numbers) (path text : Text) (w : r.World)
    (h : Holds r n path text w) where
  end_of : (k : ℕ) → k ≤ length text → k + length (drop k text) ≡ length text
  end_of k room = let e = length-drop k text in omega arith

  ended : (k : ℕ) → k ≤ length text → leb (length text) k ≡ true → drop k text ≡ []
  ended k room e =
      let size = length-drop k text in
      let low : length text ≤ k = ground arith in drop_zero_of_length (drop k text) (omega arith)

  read_tail-Holds :
      (k : ℕ)
      → k ≤ length text
      → read_tail r n path k (length text) w ≡ (ok (drop k text, length text), w)
  read_tail-Holds k room = elim (Bool-cases (leb (length text) k)) [
    | inl e ↦ unfold read_tail in rw (e, ended k room e)
    | inr e ↦
        unfold read_tail ask in
        rw (e, h.tailed k) (ap (λ m. (pair_ok (drop k text) m, w)) (end_of k room))
  ]
    where
      pair_ok : Text → ℕ → Result ExecError (Text × ℕ)
      pair_ok s m = ok (s, m)

  start_of-le : (off : ℕ) → start_of (length text) off ≤ length text
  start_of-le off = ground arith

  read_sized-Holds :
      (off : ℕ)
      → read_sized r n path off (n.itoa (length text) ++ codes "\n") w
        ≡ (ok (drop (start_of (length text) off) text, length text), w)
  read_sized-Holds off =
      unfold read_sized in
      rw (h.counted, read_sized) (read_tail-Holds (start_of (length text) off) (start_of-le off))

  -- ReadFrom gives the file from the offset on, or the whole file if it has shrunk below the
  -- offset, and the end of the file as the next offset. (While `wc -c` and `tail -c` show the
  -- file as it is, and the size that is printed is read back.)
  pub read_from-Holds :
      (off : ℕ)
      → read_from r n path off w ≡ (ok (drop (start_of (length text) off) text, length text), w)
  read_from-Holds off = opened ∙ ap continue asked ∙ read_sized-Holds off
    where
      continue : Result ExecError Text × r.World → Result ExecError (Text × ℕ) × r.World
      continue (out, w') = elim out [ err e ↦ (err e, w') | ok s ↦ read_sized r n path off s w' ]

      opened : read_from r n path off w ≡ continue (ask r (size_command path) w)
      opened = unfold read_from in refl

      asked : ask r (size_command path) w ≡ (ok (n.itoa (length text) ++ codes "\n"), w)
      asked = unfold ask in rw h.sized
