-- ===== src/Remote/Line.antt =====
-- Commands that are words with blanks between them, strings.Join(args, " "), as a shell reads them.
use mathlib.Core.Bool.{false≢true}
use iceclimber.Common.{
  Bool, true, false, ◌&&◌, &&_iff, ℕ, ◌≡◌, ◌≢◌, refl, sym, ap, ◌∙◌, Option, none, some, List, [],
  ◌∷◌, ◌++◌, All, map, append-nil, append_assoc,
}
use iceclimber.Common.Text.{Text, codes}
use iceclimber.Remote.Shell.{
  shell_quote, Token, word, op, Class, quote, backslash, blank, operator, special, letter, class,
  plain, quoted, escaped, begun, flush, after, read_line, tokens,
}
use iceclimber.Remote.Words.{read_line-shell_quote}

unfoldable pub join_words : List Text → Text
join_words [] = []
join_words (a ∷ []) = a
join_words (a ∷ args) = a ++ (codes " " ++ join_words args)

-- A part of a line that is read as one word of its own.
pub record OneWord (a w : Text) : Type 0 where
  pub last : read_line plain none a ≡ some (word w ∷ [])
  pub before :
      (rest : Text)
      → read_line plain none (a ++ (codes " " ++ rest))
        ≡ after (flush (some w)) (read_line plain none rest)

-- Parts that are read as these words.
pub data Words : List Text → List Text → Type 0 where
  done : Words [] []
  next :
      {a w : Text} {args ws : List Text} → OneWord a w → Words args ws → Words (a ∷ args) (w ∷ ws)

ended : (s : Text) → read_line plain (some s) [] ≡ some (word s ∷ [])
ended s = unfold read_line in refl

pub parted :
    (s rest : Text)
    → read_line plain (some s) (codes " " ++ rest)
      ≡ after (flush (some s)) (read_line plain none rest)
parted s rest = unfold read_line in refl

pub shell_quote-OneWord : (s : Text) → OneWord (shell_quote s) s
shell_quote-OneWord s = record {
  last =
      ap (read_line plain none) (sym (append-nil (shell_quote s)))
      ∙ read_line-shell_quote none s []
      ∙ ended s;
  before = λ rest. read_line-shell_quote none s (codes " " ++ rest) ∙ parted s rest;
}

-- Letters are read as themselves.
pub read_line-letter :
    (w : Option Text) (c : ℕ) (s : Text)
    → class c ≡ letter
    → read_line plain w (c ∷ s) ≡ read_line plain (some (begun w ++ c ∷ [])) s
unfolding read_line
read_line-letter w c s h = ap branch h
  where
    branch : Class → Option (List Token)
    branch k = elim k [
      | quote ↦ read_line quoted (some (begun w)) s
      | backslash ↦ read_line escaped (some (begun w)) s
      | blank ↦ after (flush w) (read_line plain none s)
      | operator ↦ after (λ ts. flush w (op c ∷ ts)) (read_line plain none s)
      | special ↦ none
      | letter ↦ read_line plain (some (begun w ++ c ∷ [])) s
    ]

pub read_line-letters :
    (w s rest : Text)
    → All (λ c. class c ≡ letter) s
    → read_line plain (some w) (s ++ rest) ≡ read_line plain (some (w ++ s)) rest
read_line-letters w [] rest h = ap (λ t. read_line plain (some t) rest) (sym (append-nil w))
read_line-letters w (c ∷ s) rest h =
    read_line-letter (some w) c (s ++ rest) h.0
    ∙ read_line-letters (w ++ c ∷ []) s rest h.1
    ∙ ap (λ t. read_line plain (some t) rest) (append_assoc w (c ∷ []) s)

-- A text without anything that means something to the shell.
abbrev pub IsPlain : Text → Type 0
IsPlain s = (s ≢ []) × All (λ c. class c ≡ letter) s

pub plain-OneWord : (s : Text) → IsPlain s → OneWord s s
plain-OneWord [] h = absurd (h.0 refl)
plain-OneWord (c ∷ s) h = record {
  last = ap (read_line plain none) (sym (append-nil (c ∷ s))) ∙ read [] ∙ ended (c ∷ s);
  before = λ rest. read (codes " " ++ rest) ∙ parted (c ∷ s) rest;
}
  where
    read :
        (rest : Text) → read_line plain none ((c ∷ s) ++ rest) ≡ read_line plain (some (c ∷ s)) rest
    read rest = read_line-letter none c (s ++ rest) h.1.0 ∙ read_line-letters (c ∷ []) s rest h.1.1

abbrev is_letter : ℕ → Bool
is_letter c = elim (class c) [ letter ↦ true | _ ↦ false ]

abbrev letters : Text → Bool
letters [] = true
letters (c ∷ s) = is_letter c && letters s

abbrev pub is_plain : Text → Bool
is_plain [] = false
is_plain (c ∷ s) = letters (c ∷ s)

class-letter : (c : ℕ) → is_letter c ≡ true → class c ≡ letter
class-letter c h = go (class c) h
  where
    go : (k : Class) → ◌≡◌ {A = Bool} (elim k [ letter ↦ true | _ ↦ false ]) true → k ≡ letter
    go quote g = absurd (false≢true g)
    go backslash g = absurd (false≢true g)
    go blank g = absurd (false≢true g)
    go operator g = absurd (false≢true g)
    go special g = absurd (false≢true g)
    go letter g = refl

letters-class : (s : Text) → letters s ≡ true → All (λ c. class c ≡ letter) s
letters-class [] h = tt
letters-class (c ∷ s) h =
    let (a, b) = (&&_iff (is_letter c) (letters s)).0 h in (class-letter c a, letters-class s b)

pub is_plain-OneWord : (s : Text) → is_plain s ≡ true → OneWord s s
is_plain-OneWord [] h = absurd (false≢true h)
is_plain-OneWord (c ∷ s) h = plain-OneWord (c ∷ s) ((λ e. cc), letters-class (c ∷ s) h)

-- Words with blanks between them are read as the words.
pub tokens-join_words :
    (args ws : List Text) → Words args ws → tokens (join_words args) ≡ some (map word ws)
unfolding tokens join_words
tokens-join_words _ _ done = unfold read_line in refl
tokens-join_words _ _ (next h done) = h.last
tokens-join_words _ _ (next {w} h (next {a} {w = v} {args} {ws} g hs)) =
    h.before (join_words (a ∷ args))
    ∙ ap (after (flush (some w))) (tokens-join_words (a ∷ args) (v ∷ ws) (next g hs))

pub Words-append :
    {args bs vs ws : List Text} → Words args vs → Words bs ws → Words (args ++ bs) (vs ++ ws)
Words-append done g = g
Words-append (next a h) g = next a (Words-append h g)

pub shell_quote-Words : (ws : List Text) → Words (map shell_quote ws) ws
shell_quote-Words [] = done
shell_quote-Words (w ∷ ws) = next (shell_quote-OneWord w) (shell_quote-Words ws)
