-- ===== src/Config.antt =====
-- internal/config/config.go: the checks of a loaded configuration and the settings that it gives.
-- The fields that neither reads are left out, and a map is the list of its entries, in the order in
-- which they come. time.ParseDuration is a parameter; ToLower and EqualFold are modelled on ASCII.
pub mod Checked
use iceclimber.Common.{
  ℕ, zero, suc, ◌+◌, Bool, true, false, not, ◌&&◌, ◌||◌, Option, none, some, List, [], ◌∷◌, ◌++◌,
  length, ltb, ◌==◌, if◌then◌else◌,
}
use iceclimber.Common.Result.{then_check, error_if, first_error}
use iceclimber.Common.Text.{Text, codes, text_eq, has_prefix, ascii_lower, split}
use iceclimber.Egress.Validate.{PatternError, validate_host_pattern}
use iceclimber.Egress.Policy.{AllowedDomain}

-- A Go int: a natural number, or one below -1 by as much.
pub data ℤ : Type 0 where
  pos negsuc : ℕ → ℤ

unfoldable pub is_negative : ℤ → Bool
is_negative (pos n) = false
is_negative (negsuc n) = true

abbrev pub Map : Type 0 → Type 0
Map A = List (Text × A)

unfoldable pub map_get : {A : Type 0} → Text → Map A → Option A
unfolding text_eq
map_get k [] = none
map_get k ((j, v) ∷ m) = if text_eq j k then some v else map_get k m

pub record RuntimePinAsset : Type 0 where
  pub url : Text
  pub sha256 : Text

pub record RuntimePin : Type 0 where
  pub full : Text
  pub platforms : Map RuntimePinAsset

-- by language, then by the requested version
abbrev pub Pins : Type 0
Pins = Map (Map RuntimePin)

pub record RuntimePref : Type 0 where
  pub source : Text
  pub env_manager : Text

pub record Config : Type 0 where
  pub sandbox_id : Text
  pub ssh_host : Text
  pub python : RuntimePref
  pub node : RuntimePref
  pub java : RuntimePref
  pub egress_mode : Text
  pub egress_proxy_port : ℤ
  pub maildir_retention : Text
  pub dispatch_concurrency : ℤ
  pub log_max_bytes : ℤ
  pub log_keep : ℤ
  pub allowed_domains : List AllowedDomain
  pub runtime_pins : Pins

pub data ConfigError : Type 0 where
  missing : List Text → ConfigError
  dash_host wrong_sandbox bad_source python_only bad_env_manager bad_egress_mode : ConfigError
  bad_port bad_retention bad_concurrency bad_log_max_bytes bad_log_keep : ConfigError
  bad_domain : PatternError → ConfigError
  bad_platform_key unverifiable_pin : Text → ConfigError

unfoldable pub concurrency : Config → ℕ
concurrency c = elim c.dispatch_concurrency [ negsuc n ↦ 1 | pos n ↦ if n == 0 then 4 else n ]

unfoldable pub egress_relay : Config → Bool
unfolding text_eq ascii_lower
egress_relay c = text_eq (ascii_lower c.egress_mode) (codes "relay")

unfoldable pub egress_proxy : Config → Bool
unfolding text_eq ascii_lower
egress_proxy c = not (text_eq (ascii_lower c.egress_mode) (codes "relay"))

unfoldable pub egress_port : Config → ℕ
egress_port c = elim c.egress_proxy_port [ negsuc n ↦ 18080 | pos n ↦ if ltb 0 n then n else 18080 ]

unfoldable pub pinned_full : RuntimePin → Text → Text
unfolding text_eq
pinned_full pin version = if text_eq pin.full [] then version else pin.full

unfoldable pub pin_platform : RuntimePin → Text → Text → Option (Text × Text × Text)
unfolding map_get pinned_full
pin_platform pin version key = elim (map_get key pin.platforms) [
  | none ↦ none
  | some a ↦ some (a.url, a.sha256, pinned_full pin version)
]

unfoldable pub pin_version : Map RuntimePin → Text → Text → Option (Text × Text × Text)
unfolding map_get pin_platform
pin_version by_version version key = elim (map_get version by_version) [
  | none ↦ none
  | some pin ↦ pin_platform pin version key
]

-- URL, sha256 and full version
unfoldable pub lookup_runtime_pin :
    Pins → Text → Text → Text → Text → Text → Option (Text × Text × Text)
unfolding map_get pin_version
lookup_runtime_pin pins lang version os arch libc = elim (map_get lang pins) [
  | none ↦ none
  | some by_version ↦
      pin_version by_version version (os ++ (codes "/" ++ (arch ++ (codes "/" ++ libc))))
]

unfoldable pub missing_fields : Config → List Text
unfolding text_eq
missing_fields c =
    (if text_eq c.sandbox_id [] then codes "sandbox_id" ∷ [] else [])
    ++ (if text_eq c.ssh_host [] then codes "ssh.host" ∷ [] else [])

unfoldable pub check_missing : List Text → Option ConfigError
check_missing [] = none
check_missing (f ∷ fields) = some (missing (f ∷ fields))

unfoldable pub one_of : Text → List Text → Bool
unfolding text_eq
one_of t [] = false
one_of t (s ∷ ss) = text_eq t s || one_of t ss

unfoldable pub check_runtime : Bool → RuntimePref → Option ConfigError
unfolding then_check error_if one_of text_eq
check_runtime is_python p =
    then_check
      (error_if (not (one_of p.source ([] ∷ codes "managed" ∷ codes "system" ∷ []))) bad_source)
      (if one_of p.env_manager ([] ∷ codes "venv" ∷ codes "conda" ∷ [])
        then error_if (not (text_eq p.env_manager []) && not is_python) python_only
        else some bad_env_manager)

unfoldable pub check_domains : List AllowedDomain → Option ConfigError
unfolding validate_host_pattern
check_domains [] = none
check_domains (d ∷ ds) = elim (validate_host_pattern d.pattern) [
  | some e ↦ some (bad_domain e)
  | none ↦ check_domains ds
]

unfoldable pub check_asset : Text → RuntimePinAsset → Option ConfigError
unfolding then_check error_if split text_eq
check_asset key a =
    then_check (error_if (not (length (split b'/' key) == 3)) (bad_platform_key key))
      (error_if (text_eq a.url [] || text_eq a.sha256 []) (unverifiable_pin key))

unfoldable pub check_entries :
    {A : Type 0} → (Text → A → Option ConfigError) → Map A → Option ConfigError
unfolding then_check
check_entries check [] = none
check_entries check ((k, v) ∷ m) = then_check (check k v) (check_entries check m)

unfoldable pub check_pin : Text → RuntimePin → Option ConfigError
unfolding check_entries check_asset
check_pin version pin = check_entries check_asset pin.platforms

unfoldable pub check_pins : Pins → Option ConfigError
unfolding check_entries check_pin
check_pins pins = check_entries (λ _ by_version. check_entries check_pin by_version) pins

unfoldable pub bad_port_number : ℤ → Bool
bad_port_number (pos n) = ltb 65535 n
bad_port_number (negsuc n) = true

module _ (parse_duration : Text → Option ℤ) where
  -- in nanoseconds
  unfoldable pub retention : Config → ℤ
  unfolding text_eq
  retention c =
      if text_eq c.maildir_retention []
      then pos 3600000000000
      else elim (parse_duration c.maildir_retention) [ none ↦ pos 3600000000000 | some d ↦ d ]

  unfoldable pub check_retention : Text → Option ConfigError
  unfolding text_eq
  check_retention s =
      if text_eq s []
      then none
      else elim (parse_duration s) [ none ↦ some bad_retention | some _ ↦ none ]

  -- what validate looks at, in its order
  unfoldable pub config_checks : Text → Config → List (Option ConfigError)
  unfolding error_if missing_fields check_missing has_prefix text_eq check_runtime one_of
      ascii_lower bad_port_number check_retention is_negative check_domains check_pins
  config_checks select c =
      check_missing (missing_fields c)
      ∷ error_if (has_prefix c.ssh_host (codes "-")) dash_host
      ∷ error_if (not (text_eq select []) && not (text_eq select c.sandbox_id)) wrong_sandbox
      ∷ check_runtime true c.python
      ∷ check_runtime false c.node
      ∷ check_runtime false c.java
      ∷ error_if
          (not (one_of (ascii_lower c.egress_mode) ([] ∷ codes "relay" ∷ codes "proxy" ∷ [])))
          bad_egress_mode
      ∷ error_if (bad_port_number c.egress_proxy_port) bad_port
      ∷ check_retention c.maildir_retention
      ∷ error_if (is_negative c.dispatch_concurrency) bad_concurrency
      ∷ error_if (is_negative c.log_max_bytes) bad_log_max_bytes
      ∷ error_if (is_negative c.log_keep) bad_log_keep
      ∷ check_domains c.allowed_domains
      ∷ check_pins c.runtime_pins
      ∷ []

  -- validate: none for a nil error
  unfoldable pub validate_config : Text → Config → Option ConfigError
  unfolding first_error config_checks
  validate_config select c = first_error (config_checks select c)
