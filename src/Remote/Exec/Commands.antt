-- ===== src/Remote/Exec/Commands.antt =====
-- What a shell is told by the commands of internal/remotefs/exec.go.
use iceclimber.Common.{ℕ, ◌≡◌, ap, ◌∙◌, none, some, List, [], ◌∷◌, ◌++◌}
use Prim.Native.String.{String}
use iceclimber.Common.Text.{Text, codes}
use iceclimber.Remote.Shell.{shell_quote, Token, word, op, plain, flush, after, read_line, tokens}
use iceclimber.Remote.Line.{IsPlain, shell_quote-OneWord, plain-OneWord, read_line-letters, parted}
use iceclimber.Remote.Exec.{
  Numbers, mkdir_command, write_command, read_command, size_command, list_command, rename_command,
  symlink_command, untar_command, remove_command, tail_command, chmod_command,
}

quote_last : (s : Text) → read_line plain none (shell_quote s) ≡ some (word s ∷ [])
quote_last s = (shell_quote-OneWord s).last

two_quotes :
    (s t : Text)
    → read_line plain none (shell_quote s ++ (codes " " ++ shell_quote t))
      ≡ some (word s ∷ word t ∷ [])
two_quotes s t =
    (shell_quote-OneWord s).before (shell_quote t) ∙ ap (after (flush (some s))) (quote_last t)

-- A line is read as these tokens.
abbrev pub Reads : Text → List Token → Type 0
Reads line ts = tokens line ≡ some ts

abbrev pub argument : String → Token
argument s = word (codes s)

-- The commands that name a path.
pub path_commands-Reads :
    (p : Text)
    → Reads (mkdir_command p) (argument "mkdir" ∷ argument "-p" ∷ word p ∷ [])
      × Reads (write_command p) (argument "cat" ∷ op b'>' ∷ word p ∷ [])
      × Reads (read_command p) (argument "cat" ∷ word p ∷ [])
      × Reads (size_command p) (argument "wc" ∷ argument "-c" ∷ op b'<' ∷ word p ∷ [])
      × Reads (list_command p) (argument "ls" ∷ argument "-1" ∷ word p ∷ [])
      × Reads
          (untar_command p)
          (argument "tar" ∷ argument "-xf" ∷ argument "-" ∷ argument "-C" ∷ word p ∷ [])
      × Reads (remove_command p) (argument "rm" ∷ argument "-rf" ∷ word p ∷ [])
unfolding tokens mkdir_command write_command read_command size_command list_command untar_command
    remove_command
path_commands-Reads p = (
  rw (quote_last p),
  rw (quote_last p),
  rw (quote_last p),
  rw (quote_last p),
  rw (quote_last p),
  rw (quote_last p),
  rw (quote_last p),
)

pair_commands-Reads :
    (p q : Text)
    → Reads (rename_command p q) (argument "mv" ∷ word p ∷ word q ∷ [])
      × Reads (symlink_command p q) (argument "ln" ∷ argument "-sfn" ∷ word p ∷ word q ∷ [])
unfolding tokens rename_command symlink_command
pair_commands-Reads p q = (rw (two_quotes p q), rw (two_quotes p q))

-- A number behind letters, and by itself.
read_behind :
    (w s rest : Text)
    → IsPlain s
    → read_line plain (some w) (s ++ (codes " " ++ rest))
      ≡ after (flush (some (w ++ s))) (read_line plain none rest)
read_behind w s rest h = read_line-letters w s (codes " " ++ rest) h.1 ∙ parted (w ++ s) rest

module _ (n : Numbers) where
  number_commands-Reads :
      (k : ℕ) (p : Text)
      → IsPlain (n.itoa k)
      → IsPlain (n.octal k)
      → Reads
          (tail_command n k p)
          (argument "tail" ∷ argument "-c" ∷ word (codes "+" ++ n.itoa k) ∷ word p ∷ [])
        × Reads (chmod_command n k p) (argument "chmod" ∷ word (n.octal k) ∷ word p ∷ [])
  unfolding tokens tail_command chmod_command
  number_commands-Reads k p h h' = (
    rw (read_behind (codes "+") (n.itoa k) (shell_quote p) h, quote_last p),
    rw ((plain-OneWord (n.octal k) h').before (shell_quote p), quote_last p),
  )

  -- Whatever the paths are, the shell reads each command of ExecFS as its program and options, the
  -- operators that are meant, and each path as one word that is the path: nothing of a path is
  -- taken for an operator, an expansion or a second word. (Numbers are printed as letters of a
  -- word.)
  pub commands-Reads :
      (k : ℕ) (p q : Text)
      → IsPlain (n.itoa k)
      → IsPlain (n.octal k)
      → (Reads (mkdir_command p) (argument "mkdir" ∷ argument "-p" ∷ word p ∷ [])
          × Reads (write_command p) (argument "cat" ∷ op b'>' ∷ word p ∷ [])
          × Reads (read_command p) (argument "cat" ∷ word p ∷ [])
          × Reads (size_command p) (argument "wc" ∷ argument "-c" ∷ op b'<' ∷ word p ∷ [])
          × Reads (list_command p) (argument "ls" ∷ argument "-1" ∷ word p ∷ [])
          × Reads
              (untar_command p)
              (argument "tar" ∷ argument "-xf" ∷ argument "-" ∷ argument "-C" ∷ word p ∷ [])
          × Reads (remove_command p) (argument "rm" ∷ argument "-rf" ∷ word p ∷ []))
        × (Reads (rename_command p q) (argument "mv" ∷ word p ∷ word q ∷ [])
            × Reads (symlink_command p q) (argument "ln" ∷ argument "-sfn" ∷ word p ∷ word q ∷ []))
        × (Reads
              (tail_command n k p)
              (argument "tail" ∷ argument "-c" ∷ word (codes "+" ++ n.itoa k) ∷ word p ∷ [])
            × Reads (chmod_command n k p) (argument "chmod" ∷ word (n.octal k) ∷ word p ∷ []))
  commands-Reads k p q h h' =
      (path_commands-Reads p, pair_commands-Reads p q, number_commands-Reads k p h h')
