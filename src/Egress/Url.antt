-- ===== src/Egress/Url.antt =====
-- Canonical, canonHost, hostOf, hostMatch, HostGlob and applyRewrite of internal/egress/rewrite.go.
-- The packages net/url (Parse) and strings (ToLower) are a parameter: a record of functions.
pub mod Paths
pub mod Laws
use iceclimber.Common.{
  ℕ, ◌-◌, ◌+◌, Bool, true, false, not, ◌&&◌, Option, none, some, List, [], ◌∷◌, ◌++◌, length, drop,
  if◌then◌else◌,
}
use iceclimber.Common.Result.{Result, ok, err}
use iceclimber.Common.Slash.{clean}
use iceclimber.Common.Text.{Text, codes, text_eq, has_prefix, has_suffix, trim_prefix, trim_suffix}
use iceclimber.Egress.Glob.{glob_match}

-- The fields of a parsed url.URL that the package reads; `hostname` is u.Hostname().
pub record Url : Type 0 where
  pub scheme : Text
  pub host : Text
  pub hostname : Text
  pub path : Text
  pub raw_query : Text

-- url.Parse, with `none` for its error, and strings.ToLower.
pub record UrlLib : Type 0 where
  pub parse : Text → Option Url
  pub lower : Text → Text

pub data Venue : Type 0 where
  sandbox controller : Venue

pub data UrlError : Type 0 where
  invalid_url no_host : UrlError

pub record Rewrite : Type 0 where
  pub match : Text
  pub rewrite_to : Text
  pub venue : Text

unfoldable pub norm_venue : Text → Venue
unfolding text_eq
norm_venue v = if text_eq v (codes "sandbox") then sandbox else controller

-- none for (_, false)
unfoldable pub apply_rewrite : Rewrite → Text → Option Text
unfolding has_suffix has_prefix text_eq trim_suffix
apply_rewrite rw raw =
    if not (has_suffix rw.match (codes "*"))
    then (if text_eq raw rw.match then some rw.rewrite_to else none)
    else (let prefix = trim_suffix rw.match (codes "*") in
        if not (has_prefix raw prefix)
        then none
        else some (trim_suffix rw.rewrite_to (codes "*") ++ drop (length prefix) raw))

-- the scheme, or the default
unfoldable pub scheme_of : Url → Text
unfolding text_eq
scheme_of u = if text_eq u.scheme [] then codes "https" else u.scheme

-- the path with dot segments and doubled slashes collapsed, a trailing slash kept
unfoldable pub canon_path : Text → Text
unfolding clean text_eq has_suffix trim_prefix
canon_path p =
    let cleaned = clean (b'/' ∷ trim_prefix p (codes "/")) in
    let rooted = if text_eq cleaned (codes ".") then codes "/" else cleaned in
    if has_suffix p (codes "/") && not (has_suffix rooted (codes "/"))
    then rooted ++ codes "/"
    else rooted

module _ (lib : UrlLib) where
  unfoldable pub canon_host : Url → Text
  unfolding trim_suffix
  canon_host u = trim_suffix (lib.lower u.hostname) (codes ".")

  unfoldable pub canonical_url : Url → Text
  unfolding scheme_of canon_host canon_path text_eq
  canonical_url u =
      let out = scheme_of u ++ (codes "://" ++ (canon_host u ++ canon_path u.path)) in
      if text_eq u.raw_query [] then out else out ++ b'?' ∷ u.raw_query

  unfoldable pub canonical : Text → Text
  unfolding canonical_url text_eq
  canonical raw = elim (lib.parse raw) [
    | none ↦ raw
    | some u ↦ if text_eq u.host [] then raw else canonical_url u
  ]

  unfoldable pub host_of : Text → Result UrlError Text
  unfolding canon_host text_eq
  host_of raw = elim (lib.parse raw) [
    | none ↦ err invalid_url
    | some u ↦ if text_eq u.hostname [] then err no_host else ok (canon_host u)
  ]

  unfoldable pub host_match : Text → Text → Bool
  unfolding glob_match
  host_match pattern host = glob_match (lib.lower pattern) host

  unfoldable pub host_glob : Text → Text
  unfolding scheme_of canon_host text_eq
  host_glob raw = elim (lib.parse raw) [
    | none ↦ raw
    | some u ↦
        if text_eq u.host []
        then raw
        else scheme_of u ++ (codes "://" ++ (canon_host u ++ codes "/*"))
  ]
