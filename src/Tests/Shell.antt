-- ===== src/Tests/Shell.antt =====
-- internal/remote/shell.go and internal/remotefs/exec.go at concrete inputs.
use iceclimber.Common.{
  ℕ, zero, suc, ◌+◌, ◌-◌, ◌≡◌, refl, ap, subst, ◌∙◌, Option, none, some, List, [], ◌∷◌, ◌++◌, All,
  length, drop, arith,
}
use iceclimber.Common.Result.{ok}
use iceclimber.Common.Text.{Text, codes, trim_space, is_space}
use iceclimber.Remote.Shell.{
  shell_quote, escape_quotes, Token, word, op, class, letter, read_line, tokens,
}
use iceclimber.Remote.Exec.{
  RunResult, Runner, Numbers, mkdir_command, write_command, read_command, size_command,
  list_command, rename_command, symlink_command, untar_command, remove_command, tail_command,
  chmod_command, read_from,
}
use iceclimber.Remote.Line.{IsPlain}
use iceclimber.Remote.Exec.Commands.{Reads, argument, commands-Reads}
use iceclimber.Remote.Exec.Reading.{answer, Holds, start_of, read_from-Holds}

abbrev odd : Text
odd = codes "a'b; rm $HOME"

quoted_apostrophe : shell_quote (codes "a'b") ≡ codes "'a'\\''b'"
unfolding shell_quote escape_quotes
quoted_apostrophe = refl

-- A number printed in strokes.
abbrev ones : ℕ → Text
ones zero = []
ones (suc k) = b'1' ∷ ones k

abbrev strokes : Numbers
strokes = record { itoa = ones; parse_int = λ s. some (length s); octal = ones }

one-letter : class b'1' ≡ letter
unfolding class
one-letter = refl

ones-letters : (k : ℕ) → All (λ c. class c ≡ letter) (ones k)
ones-letters zero = tt
ones-letters (suc k) = (one-letter, ones-letters k)

ones-IsPlain : (k : ℕ) → IsPlain (ones (suc k))
ones-IsPlain k = ((λ e. let n = ap length e in absurd (omega arith)), ones-letters (suc k))

ones_more-IsPlain : (k : ℕ) → IsPlain (ones (k + 1))
ones_more-IsPlain k =
    let e : suc k ≡ k + 1 = omega arith in subst (λ n. IsPlain (ones n)) e (ones-IsPlain k)

length-ones : (k : ℕ) → length (ones k) ≡ k
length-ones zero = refl
length-ones (suc k) = let e = length-ones k in omega arith

commands-Reads_example :
    (Reads (mkdir_command odd) (argument "mkdir" ∷ argument "-p" ∷ word odd ∷ [])
      × Reads (write_command odd) (argument "cat" ∷ op b'>' ∷ word odd ∷ [])
      × Reads (read_command odd) (argument "cat" ∷ word odd ∷ [])
      × Reads (size_command odd) (argument "wc" ∷ argument "-c" ∷ op b'<' ∷ word odd ∷ [])
      × Reads (list_command odd) (argument "ls" ∷ argument "-1" ∷ word odd ∷ [])
      × Reads
          (untar_command odd)
          (argument "tar" ∷ argument "-xf" ∷ argument "-" ∷ argument "-C" ∷ word odd ∷ [])
      × Reads (remove_command odd) (argument "rm" ∷ argument "-rf" ∷ word odd ∷ []))
    × (Reads (rename_command odd odd) (argument "mv" ∷ word odd ∷ word odd ∷ [])
        × Reads
            (symlink_command odd odd)
            (argument "ln" ∷ argument "-sfn" ∷ word odd ∷ word odd ∷ []))
    × (Reads
          (tail_command strokes 3 odd)
          (argument "tail" ∷ argument "-c" ∷ argument "+111" ∷ word odd ∷ [])
        × Reads (chmod_command strokes 3 odd) (argument "chmod" ∷ argument "111" ∷ word odd ∷ []))
commands-Reads_example = commands-Reads strokes 3 odd odd (ones-IsPlain 2) (ones-IsPlain 2)

-- A remote host with one file, which answers `wc -c < p` and `tail -c +N p`.
abbrev reply : Text → Option (List Token) → Option RunResult
reply w (some (word _ ∷ word _ ∷ op _ ∷ word _ ∷ [])) =
    some (answer (ones (length w) ++ codes "\n"))
reply w (some (word _ ∷ word _ ∷ word k ∷ word _ ∷ [])) = some (answer (drop (length k - 2) w))
reply _ _ = none

abbrev host : Runner
host = record { World = Text; run = λ command _ w. (reply w (tokens command), w) }

abbrev log : Text
log = codes "one\ntwo"

strokes_counted : trim_space (ones 7 ++ codes "\n") ≡ ones 7
unfolding trim_space is_space
strokes_counted = refl

log-Holds : Holds host strokes odd log log
log-Holds = record {
  sized = ap (λ t. (reply log t, log)) size_read;
  counted = ap (λ t. some (length t)) strokes_counted;
  tailed = λ k.
      ap (λ t. (reply log t, log)) (tail_read k)
      ∙ ap (λ m. (some (answer (drop m log)), log)) (behind k);
}
  where
    size_read : Reads (size_command odd) (argument "wc" ∷ argument "-c" ∷ op b'<' ∷ word odd ∷ [])
    size_read = unfold tokens size_command shell_quote escape_quotes read_line class in refl

    tail_read :
        (k : ℕ)
        → Reads
            (tail_command strokes (k + 1) odd)
            (argument "tail" ∷ argument "-c" ∷ word (codes "+" ++ ones (k + 1)) ∷ word odd ∷ [])
    tail_read k =
        (commands-Reads strokes (k + 1) odd odd (ones_more-IsPlain k) (ones_more-IsPlain k)).2.0

    behind : (k : ℕ) → length (codes "+" ++ ones (k + 1)) - 2 ≡ k
    behind k = let e = length-ones (k + 1) in omega arith

read_from-Holds_example :
    read_from host strokes odd 4 log ≡ (ok (drop (start_of (length log) 4) log, length log), log)
read_from-Holds_example = read_from-Holds host strokes odd log log log-Holds 4
