-- ===== src/Tests/Settings.antt =====
-- internal/config at concrete inputs.
use iceclimber.Common.{List, ◌≡◌, refl, Option, none, some, [], ◌∷◌, if◌then◌else◌}
use iceclimber.Common.Result.{first_error, error_if, then_check}
use iceclimber.Common.Text.{
  index_byte, Text, codes, text_eq, has_prefix, ascii_lower, split, trim_space, contains_blank,
  contains, index,
}
use iceclimber.Egress.Validate.{validate_host_pattern, host_part, after_scheme}
use iceclimber.Config.{
  ℤ, pos, Config, RuntimePref, validate_config, config_checks, missing_fields, check_missing,
  check_runtime, one_of, bad_port_number, check_retention, is_negative, check_domains, check_pins,
  check_entries, check_pin, check_asset,
}
use iceclimber.Remote.Resolve.{
  ResolveInput, ssh_args, proxy_argv, jump_argv, jump_option, hops_before, last_hop, join_commas,
  option, parse_ssh_g, read_settings, read_setting, set_value, is_none, parsed_port,
}
use iceclimber.Remote.Resolve.Asked.{ForHost, ssh_args-ForHost}
use iceclimber.Tests.Status.{tallies}
use iceclimber.Config.Checked.{Settled, validate_config-Settled}

abbrev hour : Text → Option ℤ
hour s = if text_eq s (codes "1h") then some (pos 3600000000000) else none

abbrev unset : RuntimePref
unset = record { source = []; env_manager = [] }

abbrev small : Config
small = record {
  sandbox_id = codes "box";
  ssh_host = codes "h";
  python = record { source = codes "system"; env_manager = codes "venv" };
  node = unset;
  java = unset;
  egress_mode = codes "relay";
  egress_proxy_port = pos 0;
  maildir_retention = codes "1h";
  dispatch_concurrency = pos 0;
  log_max_bytes = pos 0;
  log_keep = pos 0;
  allowed_domains = record { pattern = codes "*.org"; reachable_from = codes "sandbox" } ∷ [];
  runtime_pins =
      (
        codes "node",
        (
          codes "24",
          record {
            full = codes "24.1.0";
            platforms =
                (codes "linux/arm64/musl", record { url = codes "https://x"; sha256 = codes "aa" })
                ∷ [];
          },
        )
            ∷ [],
      )
      ∷ [];
}

small_accepted : validate_config hour (codes "box") small ≡ none
unfolding validate_config config_checks first_error error_if then_check missing_fields check_missing
    check_runtime one_of bad_port_number check_retention is_negative check_domains check_pins
    check_entries check_pin check_asset text_eq has_prefix ascii_lower split trim_space
    contains_blank contains index validate_host_pattern host_part after_scheme
small_accepted = refl

validate_config-Settled_example : Settled hour small
validate_config-Settled_example = validate_config-Settled hour (codes "box") small small_accepted

-- The configured host with a port, a user that looks like an option, and no files.
abbrev asked : ResolveInput
asked = record {
  alias = codes "h";
  port = 2;
  user = codes "-oProxyCommand=x";
  identity_file = [];
  known_hosts = [];
  config_file = [];
}

ssh_args-ForHost_example :
    (args : List Text) × (ssh_args tallies asked ≡ codes "-G" ∷ args) × ForHost (codes "h") args
ssh_args-ForHost_example =
    ssh_args-ForHost tallies hour (codes "box") small asked small_accepted refl

-- A host behind two others.
jumps :
    proxy_argv tallies
      (codes "ssh")
      []
      (parse_ssh_g tallies (codes "hostname h\nport 1\nproxyjump a,b\nproxycommand none\n"))
    ≡ codes "ssh" ∷ codes "-J" ∷ codes "a" ∷ codes "-W" ∷ codes "h:1" ∷ codes "b" ∷ []
unfolding proxy_argv jump_argv jump_option hops_before last_hop join_commas option parse_ssh_g
    read_settings read_setting set_value is_none parsed_port trim_space index_byte split text_eq
    ascii_lower
jumps = refl
