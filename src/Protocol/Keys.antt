-- ===== src/Protocol/Keys.antt =====
-- resourceKey, runtimeFamily and firstNonEmpty of internal/protocol/dispatch.go.
use iceclimber.Common.{Bool, false, ◌||◌, List, [], ◌∷◌, ◌++◌, if◌then◌else◌}
use iceclimber.Common.Text.{Text, codes, text_eq}

-- The fields that json.Unmarshal fills in the local struct; those it cannot fill stay empty.
pub record KeyFields : Type 0 where
  pub req_type : Text
  pub version : Text
  pub python_version : Text
  pub node_version : Text
  pub java_version : Text
  pub project : Text
  pub file : Text
  pub name : Text

unfoldable pub one_of : Text → List Text → Bool
unfolding text_eq
one_of t [] = false
one_of t (v ∷ vs) = text_eq t v || one_of t vs

unfoldable pub runtime_family : Text → Text
unfolding one_of
runtime_family t =
    if one_of t (codes "python.install" ∷ codes "pip.install" ∷ [])
    then codes "python"
    else if one_of t (codes "node.install" ∷ codes "npm.install" ∷ [])
    then codes "node"
    else if one_of t (codes "java.install" ∷ codes "maven.install" ∷ codes "maven.build" ∷ [])
    then codes "java"
    else if one_of t (codes "conda.install" ∷ [])
    then codes "conda"
    else if one_of t (codes "tool.install" ∷ [])
    then codes "tool"
    else []

unfoldable pub first_non_empty : List Text → Text
unfolding text_eq
first_non_empty [] = []
first_non_empty (v ∷ vals) = if text_eq v [] then first_non_empty vals else v

-- the most specific target that the params name
unfoldable pub target : KeyFields → Text
unfolding first_non_empty
target p = first_non_empty (
    p.name ∷ p.project ∷ p.file ∷ p.version ∷ p.python_version ∷ p.node_version ∷ p.java_version
    ∷ [])

unfoldable pub resource_key : KeyFields → Text
unfolding runtime_family target text_eq
resource_key p =
    let fam = runtime_family p.req_type in if text_eq fam [] then [] else fam ++ b':' ∷ target p
