-- ===== src/Remote/Resolve/Asked.antt =====
-- How ssh reads the arguments of internal/remote/sshconfig.go.
use iceclimber.Common.{
  ℕ, ◌≡◌, refl, ap, ◌∙◌, Bool, true, false, Option, none, List, [], ◌∷◌, ◌++◌, ltb, if◌then◌else◌,
}
use iceclimber.Common.Text.{Text, codes, text_eq, has_prefix}
use iceclimber.Config.{ℤ, Config, validate_config}
use iceclimber.Config.Checked.{validate_config-Settled}
use iceclimber.Remote.Exec.{Numbers}
use iceclimber.Remote.Resolve.{ResolveInput, option, port_option, ssh_args}

-- The options of ssh that are used, each of which takes a value.
pub data Takes : Text → Type 0 where
  config_flag : Takes (codes "-F")
  port_flag : Takes (codes "-p")
  login_flag : Takes (codes "-l")
  setting_flag : Takes (codes "-o")

-- Arguments that ssh reads as options with their values, and then the host.
pub data ForHost (host : Text) : List Text → Type 0 where
  only_host : has_prefix host (codes "-") ≡ false → ForHost host (host ∷ [])
  with_option :
      {flag : Text} {args : List Text} (value : Text)
      → Takes flag
      → ForHost host args
      → ForHost host (flag ∷ value ∷ args)

module _ (host : Text) where
  option-ForHost :
      (flag prefix value : Text) (args : List Text)
      → Takes flag
      → ForHost host args
      → ForHost host (option flag prefix value ++ args)
  unfolding option
  option-ForHost flag prefix value args t h = go (text_eq value [])
    where
      go : (b : Bool) → ForHost host ((if b then [] else flag ∷ (prefix ++ value) ∷ []) ++ args)
      go true = h
      go false = with_option (prefix ++ value) t h

  port-ForHost :
      (n : Numbers) (port : ℕ) (args : List Text)
      → ForHost host args
      → ForHost host (port_option n port ++ args)
  unfolding port_option
  port-ForHost n port args h = go (ltb 0 port)
    where
      go : (b : Bool) → ForHost host ((if b then codes "-p" ∷ n.itoa port ∷ [] else []) ++ args)
      go true = with_option (n.itoa port) port_flag h
      go false = h

-- For the host of a configuration that validate accepts, ssh -G reads its arguments as options with
-- their values and then the host, whatever the port, the user and the files are: no value of the
-- configuration becomes an option of its own.
pub ssh_args-ForHost :
    (n : Numbers) (parse_duration : Text → Option ℤ) (select : Text) (c : Config) (i : ResolveInput)
    → validate_config parse_duration select c ≡ none
    → i.alias ≡ c.ssh_host
    → (args : List Text) × (ssh_args n i ≡ codes "-G" ∷ args) × ForHost i.alias args
unfolding ssh_args
ssh_args-ForHost n parse_duration select c i accepted same =
    let settled = validate_config-Settled parse_duration select c accepted in
    let plain : has_prefix i.alias (codes "-") ≡ false =
      ap (λ h. has_prefix h (codes "-")) same ∙ settled.no_option in
    (
      _,
      refl,
      option-ForHost i.alias (codes "-F") [] i.config_file _ config_flag (
          port-ForHost i.alias n i.port _ (
            option-ForHost i.alias (codes "-l") [] i.user _ login_flag (
              option-ForHost i.alias (codes "-o") (codes "IdentityFile=") i.identity_file _
                setting_flag
                (option-ForHost i.alias (codes "-o") (codes "UserKnownHostsFile=") i.known_hosts _
                  setting_flag (only_host plain))))),
    )
