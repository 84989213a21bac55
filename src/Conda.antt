-- ===== src/Conda.antt =====
-- internal/conda: the records of a solve, and the names that relay.go makes of them.
pub mod Solve
pub mod Channel
pub mod Command
pub mod Report
pub mod Push
use iceclimber.Common.{
  ℕ, ◌+◌, Bool, true, false, not, ◌||◌, Option, none, some, List, [], ◌∷◌, ◌++◌, take,
  if◌then◌else◌,
}
use iceclimber.Common.Text.{Text, codes, text_eq, index, contains_byte}
use iceclimber.Common.Slash.{base, dir}

-- condaRecord
pub record CondaRecord : Type 0 where
  pub name : Text
  pub version : Text
  pub build : Text
  pub build_number : ℕ
  pub subdir : Text
  pub fn : Text
  pub url : Text
  pub depends : List Text
  pub constrains : List Text
  pub md5 : Text
  pub sha256 : Text
  pub size : ℕ
  pub license : Text
  pub timestamp : ℕ

-- fn
unfoldable pub fn_of : CondaRecord → Text
unfolding text_eq base
fn_of r =
    if not (text_eq r.fn [])
    then base r.fn
    else if not (text_eq r.url [])
    then base r.url
    else r.name ++ (codes "-" ++ (r.version ++ (codes "-" ++ (r.build ++ codes ".conda"))))

-- subdir
unfoldable pub subdir_of : CondaRecord → Text
unfolding text_eq base dir
subdir_of r =
    if not (text_eq r.subdir [])
    then base r.subdir
    else if not (text_eq r.url [])
    then base (dir r.url)
    else codes "noarch"

-- safePathComponent without an error
unfoldable pub safe_path_component : Text → Bool
unfolding text_eq contains_byte
safe_path_component s = not (
    text_eq s []
    || text_eq s (codes ".")
    || text_eq s (codes "..")
    || contains_byte s b'/'
    || contains_byte s b'\\')

unfoldable pub scheme_of : Text → Text
unfolding index
scheme_of u = elim (index u (codes "://")) [ none ↦ [] | some i ↦ take i u ]

unfoldable pub conda_subdir : Text → Text
unfolding text_eq
conda_subdir arch =
    if text_eq arch (codes "arm64") || text_eq arch (codes "aarch64")
    then codes "linux-aarch64"
    else codes "linux-64"
