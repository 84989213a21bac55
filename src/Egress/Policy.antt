-- ===== src/Egress/Policy.antt =====
-- internal/egress/policy.go: venue selection and the gate.
pub mod Decisions
use iceclimber.Common.{Bool, true, false, ◌||◌, Option, none, some, List, [], ◌∷◌, if◌then◌else◌}
use iceclimber.Common.Result.{Result, ok, err}
use iceclimber.Common.Text.{Text, codes, text_eq}
use iceclimber.Egress.Glob.{glob_match}
use iceclimber.Egress.Url.{
  UrlLib, Venue, controller, UrlError, Rewrite, norm_venue, apply_rewrite, canonical, host_of,
  host_match,
}
use iceclimber.Egress.Store.Files.{File, Json}
use iceclimber.Egress.Store.Rules.{RuleSet, load_rules}

pub record AllowedDomain : Type 0 where
  pub pattern : Text
  pub reachable_from : Text

pub data Decision : Type 0 where
  allow hold deny : Decision

-- The store is a File, read at each decision.
pub record Policy : Type 0 where
  pub allowed : List AllowedDomain
  pub rewrites : List Rewrite
  pub unlisted : Text

unfoldable pub new_policy : List AllowedDomain → List Rewrite → Text → Policy
unfolding text_eq
new_policy allowed rewrites unlisted = record {
  allowed = allowed;
  rewrites = rewrites;
  unlisted = if text_eq unlisted [] then codes "gate" else unlisted;
}

-- Decision.String
unfoldable pub label : Decision → Text
label allow = codes "allow"
label deny = codes "denied"
label hold = codes "held"

pub record Resolution : Type 0 where
  pub url : Text
  pub venue : Venue
  pub rewritten : Bool

module _ (lib : UrlLib) where
  -- the first loop of Resolve
  unfoldable pub first_rewrite : List Rewrite → Text → Option Resolution
  unfolding apply_rewrite norm_venue canonical
  first_rewrite [] raw = none
  first_rewrite (rw ∷ rws) raw = elim (apply_rewrite rw raw) [
    | some nu ↦
        some (record { url = canonical lib nu; venue = norm_venue rw.venue; rewritten = true })
    | none ↦ first_rewrite rws raw
  ]

  -- the second loop of Resolve
  unfoldable pub first_venue : List AllowedDomain → Text → Venue
  unfolding host_match norm_venue
  first_venue [] host = controller
  first_venue (ad ∷ ads) host =
      if host_match lib ad.pattern host then norm_venue ad.reachable_from else first_venue ads host

  unfoldable pub resolve_canonical : Policy → Text → Result UrlError Resolution
  unfolding first_rewrite first_venue host_of
  resolve_canonical p raw = elim (first_rewrite p.rewrites raw) [
    | some r ↦ ok r
    | none ↦ elim (host_of lib raw) [
      | err e ↦ err e
      | ok host ↦ ok (record { url = raw; venue = first_venue p.allowed host; rewritten = false })
    ]
  ]

  unfoldable pub resolve : Policy → Text → Result UrlError Resolution
  unfolding resolve_canonical canonical
  resolve p raw = resolve_canonical p (canonical lib raw)

  unfoldable pub any_host : List AllowedDomain → Text → Bool
  unfolding host_match
  any_host [] host = false
  any_host (ad ∷ ads) host = if host_match lib ad.pattern host then true else any_host ads host

  unfoldable pub config_allowed : Policy → Text → Bool
  unfolding any_host host_of
  config_allowed p raw = elim (host_of lib raw) [
    | err _ ↦ false
    | ok host ↦ any_host p.allowed host
  ]

  unfoldable pub matches_any : List Text → Text → Bool
  unfolding glob_match canonical
  matches_any [] url = false
  matches_any (r ∷ patterns) url =
      if glob_match (canonical lib r) url then true else matches_any patterns url

  unfoldable pub decide_rules : Policy → RuleSet → Text → Decision
  unfolding matches_any text_eq
  decide_rules p r url =
      if matches_any r.deny url
      then deny
      else if matches_any r.allow url
      then allow
      else if text_eq p.unlisted (codes "deny")
      then deny
      else hold

  module _ (json : Json RuleSet) where
    unfoldable pub store_denied : File → Text → Bool
    unfolding matches_any canonical
    store_denied f url = elim (load_rules json f) [
      | err _ ↦ true
      | ok r ↦ matches_any r.deny (canonical lib url)
    ]

    unfoldable pub decide : Policy → File → Text → Decision
    unfolding decide_rules canonical
    decide p f url = elim (load_rules json f) [
      | err _ ↦ deny
      | ok r ↦ decide_rules p r (canonical lib url)
    ]
