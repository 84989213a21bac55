-- ===== src/Remote/Words.antt =====
-- A shell reads back what ShellQuote has quoted, whatever it is.
use iceclimber.Common.{
  ◌≡◌, ℕ, refl, sym, ap, ◌∙◌, inl, inr, Bool, true, false, Option, some, List, [], ◌∷◌, ◌++◌, ◌==◌,
  ==_iff, append_assoc, append-nil, Bool-cases,
}
use iceclimber.Common.Text.{Text, codes}
use iceclimber.Remote.Shell.{escape_quotes, shell_quote, Token, plain, quoted, begun, read_line}

escape_quotes-quote : (s : Text) → escape_quotes (b'\'' ∷ s) ≡ codes "'\\''" ++ escape_quotes s
unfolding escape_quotes
escape_quotes-quote s = refl

escape_quotes-other :
    (c : ℕ) (s : Text) → (c == b'\'') ≡ false → escape_quotes (c ∷ s) ≡ c ∷ escape_quotes s
unfolding escape_quotes
escape_quotes-other c s e = rw e

-- Behind a quoted letter, a quoted quote, and the end of the quotes.
read_line-quoted :
    (w : Text) (c : ℕ) (s : Text)
    → (c == b'\'') ≡ false
    → read_line quoted (some w) (c ∷ s) ≡ read_line quoted (some (w ++ c ∷ [])) s
unfolding read_line
read_line-quoted w c s e = ap branch e
  where
    branch : Bool → Option (List Token)
    branch b = elim b [
      | true ↦ read_line plain (some w) s
      | false ↦ read_line quoted (some (w ++ c ∷ [])) s
    ]

read_line-quoted_quote :
    (w s : Text)
    → read_line quoted (some w) (codes "'\\''" ++ s) ≡ read_line quoted (some (w ++ b'\'' ∷ [])) s
unfolding read_line
read_line-quoted_quote w s = refl

read_line-end : (w s : Text) → read_line quoted (some w) (b'\'' ∷ s) ≡ read_line plain (some w) s
unfolding read_line
read_line-end w s = refl

read_line-escape_quotes :
    (w s rest : Text)
    → read_line quoted (some w) (escape_quotes s ++ b'\'' ∷ rest)
      ≡ read_line plain (some (w ++ s)) rest
read_line-escape_quotes w [] rest =
    unfold escape_quotes in
    read_line-end w rest ∙ ap (λ t. read_line plain (some t) rest) (sym (append-nil w))
read_line-escape_quotes w (c ∷ s) rest = elim (Bool-cases (c == b'\'')) [
  | inl e ↦
      let q : c ≡ b'\'' = (==_iff c b'\'').0 e in
      rw (q, escape_quotes-quote s)
        (read_line-quoted_quote w (escape_quotes s ++ b'\'' ∷ rest)
          ∙ next b'\'' (read_line-escape_quotes (w ++ b'\'' ∷ []) s rest))
  | inr e ↦ rw (escape_quotes-other c s e) (
      read_line-quoted w c (escape_quotes s ++ b'\'' ∷ rest) e
      ∙ next c (read_line-escape_quotes (w ++ c ∷ []) s rest))
]
  where
    next :
        (d : ℕ)
        → read_line quoted (some (w ++ d ∷ [])) (escape_quotes s ++ b'\'' ∷ rest)
          ≡ read_line plain (some ((w ++ d ∷ []) ++ s)) rest
        → read_line quoted (some (w ++ d ∷ [])) (escape_quotes s ++ b'\'' ∷ rest)
          ≡ read_line plain (some (w ++ d ∷ s)) rest
    next d ih = ih ∙ ap (λ t. read_line plain (some t) rest) (append_assoc w (d ∷ []) s)

-- A quoted text is read as part of one word, which is the text: nothing of it is taken for an
-- operator, an expansion or the end of the word.
pub read_line-shell_quote :
    (w : Option Text) (s rest : Text)
    → read_line plain w (shell_quote s ++ rest) ≡ read_line plain (some (begun w ++ s)) rest
unfolding shell_quote
read_line-shell_quote w s rest =
    opened w
    ∙ ap (read_line quoted (some (begun w))) (append_assoc (escape_quotes s) (codes "'") rest)
    ∙ read_line-escape_quotes (begun w) s rest
  where
    opened :
        (w : Option Text)
        → read_line plain w (codes "'" ++ ((escape_quotes s ++ codes "'") ++ rest))
          ≡ read_line quoted (some (begun w)) ((escape_quotes s ++ codes "'") ++ rest)
    opened w = unfold read_line in refl
