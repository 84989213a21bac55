-- ===== src/Conda/Command.antt =====
-- The commands of internal/conda: condaSpec and installCmd (conda.go), offlineEnvCmd and
-- controllerChannelArgs (relay.go).
pub mod Read
use iceclimber.Common.{
  Bool, true, false, not, ◌||◌, Option, none, some, List, [], ◌∷◌, ◌++◌, map, ◌==◌, if◌then◌else◌,
}
use iceclimber.Common.Text.{Text, codes, text_eq, contains_byte, has_prefix}
use iceclimber.Remote.Shell.{shell_quote}
use iceclimber.Remote.Line.{join_words}

-- pkg.Spec
pub record Spec : Type 0 where
  pub name : Text
  pub version : Text

unfoldable pub conda_spec : Spec → Text
unfolding contains_byte
conda_spec s = elim s.version [
  | [] ↦ s.name
  | c ∷ v ↦
      if contains_byte (codes "<>=!~") c
      then s.name ++ s.version
      else s.name ++ (codes "=" ++ s.version)
]

unfoldable pub quoted_specs : List Spec → List Text
unfolding conda_spec shell_quote
quoted_specs [] = []
quoted_specs (s ∷ specs) = shell_quote (conda_spec s) ∷ quoted_specs specs

unfoldable pub quoted_extra_args : List Text → List Text
unfolding shell_quote
quoted_extra_args extra = map shell_quote extra

unfoldable pub install_cmd : Text → Text → List Text → List Spec → Text
unfolding join_words shell_quote quoted_extra_args quoted_specs
install_cmd conda_bin env_prefix extra specs = join_words (
    shell_quote conda_bin
    ∷ codes "install"
    ∷ codes "-y"
    ∷ codes "--json"
    ∷ codes "-p"
    ∷ shell_quote env_prefix
    ∷ (quoted_extra_args extra ++ quoted_specs specs))

unfoldable pub verb : Bool → Text
verb env_exists = if env_exists then codes "install" else codes "create"

-- python=<minor>, for a fresh environment
unfoldable pub python_arg : Text → Bool → List Text
unfolding shell_quote
python_arg minor env_exists = if env_exists then [] else shell_quote (codes "python=" ++ minor) ∷ []

unfoldable pub offline_env_cmd : Text → Text → Text → Text → List Spec → Bool → Text
unfolding join_words shell_quote verb python_arg quoted_specs
offline_env_cmd conda_bin prefix chan_url minor specs env_exists = join_words (
    shell_quote conda_bin
    ∷ verb env_exists
    ∷ codes "-y"
    ∷ codes "--json"
    ∷ codes "-p"
    ∷ shell_quote prefix
    ∷ codes "--offline"
    ∷ codes "--override-channels"
    ∷ codes "--solver"
    ∷ codes "classic"
    ∷ codes "-c"
    ∷ shell_quote chan_url
    ∷ (python_arg minor env_exists ++ quoted_specs specs))

unfoldable pub is_inline_channel : Text → Bool
unfolding has_prefix
is_inline_channel a = has_prefix a (codes "-c=") || has_prefix a (codes "--channel=")

unfoldable pub is_channel_flag : Text → Bool
unfolding text_eq
is_channel_flag a = text_eq a (codes "-c") || text_eq a (codes "--channel")

unfoldable pub is_kept_alone : Text → Bool
unfolding is_inline_channel text_eq
is_kept_alone a = is_inline_channel a || text_eq a (codes "--override-channels")

unfoldable pub controller_channel_args : List Text → List Text
unfolding is_channel_flag is_kept_alone
controller_channel_args [] = []
controller_channel_args (a ∷ []) =
    if is_channel_flag a then [] else if is_kept_alone a then a ∷ [] else []
controller_channel_args (a ∷ value ∷ args) =
    let past = controller_channel_args args in
    let next = controller_channel_args (value ∷ args) in
    if is_channel_flag a then a ∷ value ∷ past else if is_kept_alone a then a ∷ next else next
