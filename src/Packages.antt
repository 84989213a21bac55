-- ===== src/Packages.antt =====
-- internal/pkg: the extra arguments of a package request (extraargs.go) and texts (text.go).
pub mod Accepted
use iceclimber.Common.{
  ℕ, ◌-◌, Bool, true, false, not, ◌&&◌, Option, none, some, List, [], ◌∷◌, ◌++◌, take, drop, length,
  ltb, if◌then◌else◌,
}
use iceclimber.Common.Text.{
  Text, codes, text_eq, has_prefix, index_byte, split, trim_right_byte, trim_space,
}

pub record FlagSpec : Type 0 where
  pub takes_value : Bool

-- the map of allowed flags
abbrev pub Allowed : Type 0
Allowed = Text → Option FlagSpec

pub data ArgError : Type 0 where
  unexpected : Text → ArgError
  not_allowed : Text → ArgError
  no_value : Text → ArgError

-- the token before its '='
unfoldable pub flag_name : Text → Text
unfolding index_byte
flag_name tok = elim (index_byte tok b'=') [ none ↦ tok | some eq ↦ take eq tok ]

unfoldable pub inline_value : Text → Bool
unfolding index_byte
inline_value tok = elim (index_byte tok b'=') [ none ↦ false | some eq ↦ true ]

-- What one round of the loop finds: an error, a token by itself, or a flag before its value.
pub data Finding : Type 0 where
  bad : ArgError → Finding
  alone : Finding
  wants_value : Text → Finding

unfoldable pub look_at : Allowed → Text → Finding
unfolding has_prefix flag_name inline_value
look_at allow tok =
    if not (has_prefix tok (codes "-"))
    then bad (unexpected tok)
    else elim (allow (flag_name tok)) [
      | none ↦ bad (not_allowed (flag_name tok))
      | some spec ↦
          if spec.takes_value && not (inline_value tok) then wants_value (flag_name tok) else alone
    ]

-- `none` for a nil error
unfoldable pub validate_extra_args : Allowed → List Text → Option ArgError
unfolding look_at
validate_extra_args allow [] = none
validate_extra_args allow (tok ∷ []) = elim (look_at allow tok) [
  | bad e ↦ some e
  | alone ↦ none
  | wants_value n ↦ some (no_value n)
]
validate_extra_args allow (tok ∷ value ∷ args) = elim (look_at allow tok) [
  | bad e ↦ some e
  | alone ↦ validate_extra_args allow (value ∷ args)
  | wants_value n ↦ validate_extra_args allow args
]

unfoldable pub one_of : Text → List Text → Bool
unfolding text_eq
one_of t [] = false
one_of t (n ∷ names) = if text_eq t n then true else one_of t names

unfoldable pub extra_args_have_flag : List Text → List Text → Bool
unfolding flag_name one_of
extra_args_have_flag [] names = false
extra_args_have_flag (a ∷ args) names =
    if one_of (flag_name a) names then true else extra_args_have_flag args names

-- strings.Join(lines, "\n")
unfoldable pub join_lines : List Text → Text
join_lines [] = []
join_lines (l ∷ []) = l
join_lines (l ∷ ls) = l ++ b'\n' ∷ join_lines ls

unfoldable pub last_lines : Text → ℕ → Text
unfolding split trim_right_byte trim_space join_lines
last_lines b n =
    let lines = split b'\n' (trim_right_byte b b'\n') in
    trim_space (join_lines (if ltb n (length lines) then drop (length lines - n) lines else lines))

unfoldable pub first_non_empty : List Text → Text
unfolding text_eq trim_space
first_non_empty [] = []
first_non_empty (s ∷ ss) = if not (text_eq (trim_space s) []) then s else first_non_empty ss
