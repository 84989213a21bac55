-- ===== src/Remote/Shell.antt =====
-- ShellQuote of internal/remote/shell.go, and how a POSIX shell reads a line of words, quotes and
-- operators.
use iceclimber.Common.{
  ℕ, true, false, ◌||◌, Option, none, some, List, [], ◌∷◌, ◌++◌, ◌==◌, if◌then◌else◌,
}
use iceclimber.Common.Text.{Text, codes}

-- strings.ReplaceAll(s, "'", `'\''`)
unfoldable pub escape_quotes : Text → Text
escape_quotes [] = []
escape_quotes (c ∷ s) =
    let rest = escape_quotes s in if c == b'\'' then codes "'\\''" ++ rest else c ∷ rest

unfoldable pub shell_quote : Text → Text
unfolding escape_quotes
shell_quote s = codes "'" ++ (escape_quotes s ++ codes "'")

-- A line as the shell reads it: words, and operators such as `<`.
pub data Token : Type 0 where
  word : Text → Token
  op : ℕ → Token

pub data Class : Type 0 where
  quote backslash blank operator special letter : Class

-- What a byte is outside of quotes. `special` is what a shell would expand.
unfoldable pub class : ℕ → Class
class c =
    if c == b'\''
    then quote
    else if c == b'\\'
    then backslash
    else if c == b' ' || c == 9
    then blank
    else if c == b'<'
        || c == b'>'
        || c == b'|'
        || c == b'&'
        || c == b';'
        || c == b'('
        || c == b')'
        || c == 10
    then operator
    else if c == b'$'
        || c == b'`'
        || c == b'"'
        || c == b'*'
        || c == b'?'
        || c == b'['
        || c == b'#'
        || c == b'~'
    then special
    else letter

pub data Mode : Type 0 where
  plain quoted escaped : Mode

-- the word that is being read, if one has begun
abbrev pub begun : Option Text → Text
begun none = []
begun (some w) = w

abbrev pub flush : Option Text → List Token → List Token
flush none ts = ts
flush (some w) ts = word w ∷ ts

abbrev pub after : (List Token → List Token) → Option (List Token) → Option (List Token)
after f none = none
after f (some ts) = some (f ts)

-- The tokens of a line, none for a line that ends in a quote or that the shell would expand.
unfoldable pub read_line : Mode → Option Text → Text → Option (List Token)
unfolding class
read_line plain w [] = some (flush w [])
read_line quoted w [] = none
read_line escaped w [] = none
read_line plain w (c ∷ s) = elim (class c) [
  | quote ↦ read_line quoted (some (begun w)) s
  | backslash ↦ read_line escaped (some (begun w)) s
  | blank ↦ after (flush w) (read_line plain none s)
  | operator ↦ after (λ ts. flush w (op c ∷ ts)) (read_line plain none s)
  | special ↦ none
  | letter ↦ read_line plain (some (begun w ++ c ∷ [])) s
]
read_line quoted w (c ∷ s) = elim (c == b'\'') [
  | true ↦ read_line plain w s
  | false ↦ read_line quoted (some (begun w ++ c ∷ [])) s
]
read_line escaped w (c ∷ s) = read_line plain (some (begun w ++ c ∷ [])) s

unfoldable pub tokens : Text → Option (List Token)
unfolding read_line
tokens s = read_line plain none s
