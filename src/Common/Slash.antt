-- ===== src/Common/Slash.antt =====
-- package path: Clean, Base, Dir and Join, on slash-separated text.
pub mod Components
use iceclimber.Common.Tests.{◌==◌, if◌then◌else◌}
use iceclimber.Common.Text.{Text, codes, text_eq, split, trim_right_byte, last_index_byte}
use iceclimber.Common.Lists.{take}
use mathlib.Core.Option.{none, some}
use Prim.Native.Nat.{◌+◌}
use mathlib.Core.Bool.{Bool, ◌||◌}
use mathlib.Core.List.{List, [], ◌∷◌, ◌++◌, reverse}

abbrev pub dot : Text
dot = codes "."

abbrev pub dot_dot : Text
dot_dot = codes ".."

-- strings.Join(parts, "/")
unfoldable pub join_slash : List Text → Text
join_slash [] = []
join_slash (w ∷ []) = w
join_slash (w ∷ ws) = w ++ b'/' ∷ join_slash ws

-- What ".." does to the elements kept so far, the last one first.
unfoldable pub step_up : Bool → List Text → List Text
unfolding text_eq
step_up rooted [] = if rooted then [] else dot_dot ∷ []
step_up rooted (w ∷ kept) = if text_eq w dot_dot then dot_dot ∷ w ∷ kept else kept

unfoldable pub clean_step : Bool → List Text → Text → List Text
unfolding step_up text_eq
clean_step rooted kept w =
    if text_eq w [] || text_eq w dot
    then kept
    else if text_eq w dot_dot
    then step_up rooted kept
    else w ∷ kept

unfoldable pub clean_elements : Bool → List Text → List Text → List Text
unfolding clean_step
clean_elements rooted kept [] = kept
clean_elements rooted kept (w ∷ ws) = clean_elements rooted (clean_step rooted kept w) ws

-- path.Clean
unfoldable pub clean : Text → Text
unfolding clean_elements join_slash split
clean [] = dot
clean (c ∷ p) =
    let rooted = c == b'/' in
    let body = join_slash (reverse (clean_elements rooted [] (split b'/' (c ∷ p)))) in
    if rooted then b'/' ∷ body else if text_eq body [] then dot else body

unfoldable pub last_of : Text → List Text → Text
last_of w [] = w
last_of w (v ∷ ws) = last_of v ws

-- the text behind the last slash
unfoldable pub after_slash : List Text → Text
unfolding last_of
after_slash [] = []
after_slash (w ∷ ws) = last_of w ws

-- path.Base
unfoldable pub base : Text → Text
unfolding text_eq trim_right_byte after_slash split
base p =
    if text_eq p []
    then codes "."
    else (let stripped = trim_right_byte p b'/' in
        if text_eq stripped [] then codes "/" else after_slash (split b'/' stripped))

-- path.Dir
unfoldable pub dir : Text → Text
unfolding last_index_byte clean
dir p = elim (last_index_byte p b'/') [ none ↦ clean [] | some i ↦ clean (take (i + 1) p) ]

unfoldable pub non_empty : List Text → List Text
non_empty [] = []
non_empty ([] ∷ ws) = non_empty ws
non_empty ((c ∷ w) ∷ ws) = (c ∷ w) ∷ non_empty ws

-- path.Join
unfoldable pub join : List Text → Text
unfolding non_empty join_slash clean
join parts = elim (non_empty parts) [ [] ↦ [] | w ∷ ws ↦ clean (join_slash (w ∷ ws)) ]
