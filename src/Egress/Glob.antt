-- ===== src/Egress/Glob.antt =====
-- globMatch of internal/egress/rewrite.go.
pub mod Language
pub mod Correct
use iceclimber.Common.{
  ℕ, ◌+◌, ◌-◌, Bool, true, false, Option, none, some, List, [], ◌∷◌, length, take, drop,
  if◌then◌else◌,
}
use iceclimber.Common.Text.{Text, text_eq, has_prefix, has_suffix, split, index}

-- parts[len(parts)-1] of first ∷ rest
unfoldable pub last_part : Text → List Text → Text
last_part first [] = first
last_part first (next ∷ rest) = last_part next rest

-- the parts of first ∷ rest before the last one
unfoldable pub mid_parts : Text → List Text → List Text
mid_parts first [] = []
mid_parts first (next ∷ rest) = first ∷ mid_parts next rest

-- the loop over parts[1 : len(parts)-1]
unfoldable pub find_mids : List Text → Text → Bool
unfolding index
find_mids [] s = true
find_mids (mid ∷ mids) s = elim (index s mid) [
  | none ↦ false
  | some i ↦ find_mids mids (drop (i + length mid) s)
]

-- globMatch after the first part, for the parts next ∷ rest
unfoldable pub match_tail : Text → List Text → Text → Bool
unfolding has_suffix last_part mid_parts find_mids
match_tail next rest s =
    let last = last_part next rest in
    if has_suffix s last
    then find_mids (mid_parts next rest) (take (length s - length last) s)
    else false

unfoldable pub match_parts : Text → List Text → Text → Bool
unfolding text_eq has_prefix match_tail
match_parts pattern (first ∷ next ∷ rest) s =
    if has_prefix s first then match_tail next rest (drop (length first) s) else false
match_parts pattern _ s = text_eq pattern s

unfoldable pub glob_match : Text → Text → Bool
unfolding match_parts split
glob_match pattern s = match_parts pattern (split b'*' pattern) s
