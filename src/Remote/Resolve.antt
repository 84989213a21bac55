-- ===== src/Remote/Resolve.antt =====
-- internal/remote/sshconfig.go: what OpenSSH is asked about a host, what its answer says, and the
-- command that reaches the host by way of others. Running ssh is left out, as is a line of more than
-- a mebibyte, at which the scanner stops. strconv is a parameter.
pub mod Asked
use iceclimber.Common.{
  ℕ, ◌+◌, Bool, true, false, not, ◌||◌, Option, none, some, List, [], ◌∷◌, ◌++◌, take, drop, ltb,
  if◌then◌else◌,
}
use iceclimber.Common.Text.{Text, codes, text_eq, index_byte, split, trim_space, ascii_lower}
use iceclimber.Common.Fields.{fields}
use iceclimber.Remote.Exec.{Numbers}

-- resolveInput
pub record ResolveInput : Type 0 where
  pub alias : Text
  pub port : ℕ
  pub user : Text
  pub identity_file : Text
  pub known_hosts : Text
  pub config_file : Text

-- resolvedSSH
pub record ResolvedSsh : Type 0 where
  pub host_name : Text
  pub port : ℕ
  pub user : Text
  pub identity_files : List Text
  pub proxy_jump : Text
  pub proxy_command : Text
  pub known_hosts_files : List Text

-- a flag and its value, if there is one
unfoldable pub option : Text → Text → Text → List Text
unfolding text_eq
option flag prefix value = if text_eq value [] then [] else flag ∷ (prefix ++ value) ∷ []

-- isNone
unfoldable pub is_none : Text → Bool
unfolding text_eq ascii_lower
is_none s = text_eq s [] || text_eq (ascii_lower s) (codes "none")

unfoldable pub files_in : List Text → List Text
unfolding is_none
files_in [] = []
files_in (f ∷ fs) = if is_none f then files_in fs else f ∷ files_in fs

-- strings.Join(hops, ",")
unfoldable pub join_commas : List Text → Text
join_commas [] = []
join_commas (h ∷ []) = h
join_commas (h ∷ hops) = h ++ b',' ∷ join_commas hops

-- the hops but the last one, and the last one
unfoldable pub hops_before : Text → List Text → List Text
hops_before h [] = []
hops_before h (k ∷ hops) = h ∷ hops_before k hops

unfoldable pub last_hop : Text → List Text → Text
last_hop h [] = h
last_hop h (k ∷ hops) = last_hop k hops

unfoldable pub jump_option : List Text → List Text
unfolding join_commas
jump_option [] = []
jump_option (h ∷ hops) = codes "-J" ∷ join_commas (h ∷ hops) ∷ []

unfoldable pub jump_argv : Text → Text → Text → List Text → List Text
unfolding option jump_option hops_before last_hop trim_space
jump_argv ssh_bin config_file dest [] = []
jump_argv ssh_bin config_file dest (h ∷ hops) =
    ssh_bin
    ∷ (option (codes "-F") [] config_file
        ++ (jump_option (hops_before h hops)
            ++ codes "-W" ∷ dest ∷ trim_space (last_hop h hops) ∷ []))

module _ (n : Numbers) where
  unfoldable pub port_option : ℕ → List Text
  port_option port = if ltb 0 port then codes "-p" ∷ n.itoa port ∷ [] else []

  -- args
  unfoldable pub ssh_args : ResolveInput → List Text
  unfolding option port_option
  ssh_args i =
      codes "-G"
      ∷ (option (codes "-F") [] i.config_file
          ++ (port_option i.port
              ++ (option (codes "-l") [] i.user
                  ++ (option (codes "-o") (codes "IdentityFile=") i.identity_file
                      ++ (option (codes "-o") (codes "UserKnownHostsFile=") i.known_hosts
                          ++ i.alias ∷ [])))))

  unfoldable pub parsed_port : ℕ → Option ℕ → ℕ
  parsed_port old none = old
  parsed_port old (some p) = p

  -- one line's key, in lower case, and its value
  unfoldable pub set_value : Text → Text → ResolvedSsh → ResolvedSsh
  unfolding text_eq is_none parsed_port files_in fields
  set_value key val r =
      if text_eq key (codes "hostname")
      then record r { host_name = val }
      else if text_eq key (codes "port")
      then record r { port = parsed_port r.port (n.parse_int val) }
      else if text_eq key (codes "user")
      then record r { user = val }
      else if text_eq key (codes "identityfile")
      then (if text_eq val []
          then r
          else record r { identity_files = r.identity_files ++ val ∷ [] })
      else if text_eq key (codes "proxyjump")
      then (if is_none val then r else record r { proxy_jump = val })
      else if text_eq key (codes "proxycommand")
      then (if is_none val then r else record r { proxy_command = val })
      else if text_eq key (codes "userknownhostsfile")
      then record r { known_hosts_files = r.known_hosts_files ++ files_in (fields val) }
      else r

  unfoldable pub read_setting : Text → ResolvedSsh → ResolvedSsh
  unfolding index_byte trim_space ascii_lower set_value
  read_setting line r =
      let t = trim_space line in
      elim (index_byte t b' ') [
        | none ↦ r
        | some i ↦ set_value (ascii_lower (take i t)) (trim_space (drop (i + 1) t)) r
      ]

  unfoldable pub read_settings : List Text → ResolvedSsh → ResolvedSsh
  unfolding read_setting
  read_settings [] r = r
  read_settings (line ∷ lines) r = read_settings lines (read_setting line r)

  -- parseSSHGOutput
  unfoldable pub parse_ssh_g : Text → ResolvedSsh
  unfolding read_settings split
  parse_ssh_g out = read_settings (split b'\n' out) (record {
    host_name = [];
    port = 0;
    user = [];
    identity_files = [];
    proxy_jump = [];
    proxy_command = [];
    known_hosts_files = [];
  })

  -- proxyArgv: empty for a direct dial
  unfoldable pub proxy_argv : Text → Text → ResolvedSsh → List Text
  unfolding text_eq jump_argv split
  proxy_argv ssh_bin config_file r =
      if not (text_eq r.proxy_jump [])
      then jump_argv ssh_bin config_file (r.host_name ++ b':' ∷ n.itoa r.port)
          (split b',' r.proxy_jump)
      else if not (text_eq r.proxy_command [])
      then codes "/bin/sh" ∷ codes "-c" ∷ r.proxy_command ∷ []
      else []
