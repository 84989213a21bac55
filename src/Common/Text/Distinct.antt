-- ===== src/Common/Text/Distinct.antt =====
-- Sets of texts as lists.
use iceclimber.Common.Lists.{All}
use iceclimber.Common.Tests.{if◌then◌else◌, Bool-cases}
use iceclimber.Common.Text.Equal.{Text, text_eq, text_eq_iff}
use mathlib.Core.Bool.{Bool, true, false, false≢true}
use mathlib.Core.List.{List, [], ◌∷◌, ◌++◌}
use mathlib.Core.Logic.{◌≢◌, inl, inr}
use mathlib.Core.Path.{◌≡◌, sym, ◌∙◌}

unfoldable pub has_text : Text → List Text → Bool
unfolding text_eq
has_text k [] = false
has_text k (x ∷ xs) = if text_eq x k then true else has_text k xs

-- No text stands twice in the list.
abbrev pub Distinct : List Text → Type 0
Distinct [] = Unit
Distinct (x ∷ xs) = All (λ y. y ≢ x) xs × Distinct xs

pub All-of_has_text : (k : Text) (xs : List Text) → has_text k xs ≡ false → All (λ y. y ≢ k) xs
unfolding has_text
All-of_has_text k [] h = tt
All-of_has_text k (x ∷ xs) h = elim (Bool-cases (text_eq x k)) [
  | inl e ↦ absurd (false≢true (sym (rw e at h)))
  | inr e ↦ (λ q. false≢true (sym e ∙ (text_eq_iff x k).1 q), All-of_has_text k xs (rw e at h))
]

All-append_mid :
    (P : Text → Type 0) (xs ys : List Text) (y : Text) → All P (xs ++ y ∷ ys) → All P (xs ++ ys)
All-append_mid P [] ys y h = h.1
All-append_mid P (x ∷ xs) ys y h = (h.0, All-append_mid P xs ys y h.1)

pub All-mid : (P : Text → Type 0) (xs ys : List Text) (y : Text) → All P (xs ++ y ∷ ys) → P y
All-mid P [] ys y h = h.0
All-mid P (x ∷ xs) ys y h = All-mid P xs ys y h.1

pub Distinct-mid : (xs ys : List Text) (y : Text) → Distinct (xs ++ y ∷ ys) → Distinct (xs ++ ys)
Distinct-mid [] ys y h = h.1
Distinct-mid (x ∷ xs) ys y h = (All-append_mid _ xs ys y h.0, Distinct-mid xs ys y h.1)
