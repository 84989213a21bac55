-- ===== src/Common/Fields.antt =====
-- strings.Fields
use iceclimber.Common.Tests.{if◌then◌else◌}
use iceclimber.Common.Lists.{All}
use iceclimber.Common.Slash.{non_empty}
use iceclimber.Common.Text.{Text, is_space, cons_head}
use mathlib.Core.Bool.{true, false}
use mathlib.Core.List.{List, [], ◌∷◌, ◌++◌}
use mathlib.Core.Path.{◌≡◌, refl, ap}
use Prim.Native.Nat.{ℕ}

unfoldable pub split_space : Text → List Text
unfolding is_space
split_space [] = [] ∷ []
split_space (c ∷ s) = if is_space c then [] ∷ split_space s else cons_head c (split_space s)

unfoldable pub fields : Text → List Text
unfolding split_space non_empty
fields s = non_empty (split_space s)

split_space-before :
    (s rest : Text) (b : ℕ)
    → All (λ c. is_space c ≡ false) s
    → is_space b ≡ true
    → split_space (s ++ b ∷ rest) ≡ s ∷ split_space rest
unfolding split_space
split_space-before [] rest b h e = rw e
split_space-before (c ∷ s) rest b h e = rw (h.0, split_space-before s rest b h.1 e) refl

-- A text without space in front of one is the first field.
pub fields-first :
    (c : ℕ) (s rest : Text) (b : ℕ)
    → All (λ d. is_space d ≡ false) (c ∷ s)
    → is_space b ≡ true
    → fields ((c ∷ s) ++ b ∷ rest) ≡ (c ∷ s) ∷ fields rest
fields-first c s rest b h e =
    unfold fields non_empty in ap non_empty (split_space-before (c ∷ s) rest b h e)
