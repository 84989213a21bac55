-- ===== src/Egress/Validate.antt =====
-- internal/egress/validate.go
use iceclimber.Common.{◌||◌, ◌&&◌, not, Option, none, some, [], ◌+◌, take, drop, if◌then◌else◌}
use iceclimber.Common.Text.{
  Text, codes, text_eq, has_prefix, index, contains, trim_space, contains_blank,
}

pub data PatternError : Type 0 where
  empty : PatternError
  has_whitespace : Text → PatternError
  looks_like_url : Text → Text → PatternError
  has_path : Text → PatternError
  not_a_url_glob : Text → PatternError

-- p[i+3:] behind the first "://"
unfoldable pub after_scheme : Text → Text
unfolding index
after_scheme p = elim (index p (codes "://")) [ none ↦ p | some i ↦ drop (i + 3) p ]

unfoldable pub host_part : Text → Text
unfolding after_scheme index
host_part p = let q = after_scheme p in elim (index q (codes "/")) [ none ↦ q | some i ↦ take i q ]

-- `none` for a nil error
unfoldable pub validate_host_pattern : Text → Option PatternError
unfolding text_eq trim_space contains_blank contains host_part
validate_host_pattern p =
    if text_eq (trim_space p) []
    then some empty
    else if not (text_eq p (trim_space p)) || contains_blank p
    then some (has_whitespace p)
    else if contains p (codes "://")
    then some (looks_like_url p (host_part p))
    else if contains p (codes "/")
    then some (has_path p)
    else none

unfoldable pub validate_url_glob : Text → Option PatternError
unfolding text_eq trim_space contains_blank has_prefix
validate_url_glob p =
    if text_eq (trim_space p) []
    then some empty
    else if not (text_eq p (trim_space p)) || contains_blank p
    then some (has_whitespace p)
    else if not (has_prefix p (codes "http://"))
        && (not (has_prefix p (codes "https://")) && not (has_prefix p (codes "*")))
    then some (not_a_url_glob p)
    else none
