-- ===== src/Common/Text/Space.antt =====
-- strings.TrimSpace, TrimRight, Trim and ToLower on ASCII bytes.
use Prim.Native.Nat.{ℕ, ◌+◌}
use mathlib.Core.Bool.{Bool, false, ◌&&◌, ◌||◌}
use mathlib.Core.List.{[], ◌∷◌, map, reverse}
use iceclimber.Common.Tests.{◌==◌, leb, if◌then◌else◌}
use iceclimber.Common.Text.Equal.{Text}

-- '\t', '\n', '\v', '\f', '\r', ' '
unfoldable pub is_space : ℕ → Bool
is_space c = (leb 9 c && leb c 13) || c == b' '

unfoldable pub drop_while : (ℕ → Bool) → Text → Text
drop_while p [] = []
drop_while p (c ∷ s) = if p c then drop_while p s else c ∷ s

unfoldable pub trim_right : (ℕ → Bool) → Text → Text
unfolding drop_while
trim_right p s = reverse (drop_while p (reverse s))

unfoldable pub trim_space : Text → Text
unfolding trim_right is_space
trim_space s = trim_right is_space (drop_while is_space s)

-- strings.TrimRight(s, c) and strings.Trim(s, c) for one byte c
unfoldable pub trim_right_byte : Text → ℕ → Text
unfolding trim_right
trim_right_byte s c = trim_right (λ x. x == c) s

unfoldable pub trim_byte : Text → ℕ → Text
unfolding trim_right
trim_byte s c = trim_right (λ x. x == c) (drop_while (λ x. x == c) s)

-- strings.ContainsAny(s, " \t")
unfoldable pub contains_blank : Text → Bool
contains_blank [] = false
contains_blank (c ∷ s) = c == b' ' || c == 9 || contains_blank s

lower_byte : ℕ → ℕ
lower_byte c = if leb b'A' c && leb c b'Z' then c + 32 else c

unfoldable pub ascii_lower : Text → Text
unfolding lower_byte
ascii_lower = map lower_byte
