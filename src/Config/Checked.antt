-- ===== src/Config/Checked.antt =====
-- What an accepted configuration of internal/config/config.go can be relied on for.
use mathlib.Core.Bool.{false≢true}
use iceclimber.Common.{
  ℕ, ◌≤◌, ◌≡◌, ◌≢◌, ◌⊎◌, refl, sym, ap, ◌∙◌, inl, inr, Bool, true, false, ◌||◌, Option, none, some,
  List, [], ◌∷◌, ◌++◌, ltb, ◌==◌, arith, All, Bool-cases, Option-cases, if◌then◌else◌,
}
use iceclimber.Common.Result.{then_check-none, error_if-none, first_error-none}
use iceclimber.Common.Text.{Text, codes, text_eq, text_eq_iff, has_prefix}
use iceclimber.Egress.Validate.{validate_host_pattern}
use iceclimber.Egress.Policy.{AllowedDomain}
use iceclimber.Config.{
  ℤ, pos, negsuc, Map, map_get, RuntimePinAsset, RuntimePin, Pins, Config, ConfigError, concurrency,
  egress_port, retention, pinned_full, pin_platform, pin_version, lookup_runtime_pin,
  missing_fields, check_missing, check_domains, check_asset, check_entries, check_pin, check_pins,
  bad_port_number, check_retention, config_checks, validate_config,
}

-- An entry that is found has passed the check.
map_get-checked :
    {A : Type 0} (check : Text → A → Option ConfigError) (k : Text) (m : Map A) (v : A)
    → check_entries check m ≡ none
    → map_get k m ≡ some v
    → (j : Text) × (check j v ≡ none)
unfolding map_get check_entries
map_get-checked check k [] v h e = absurd (cc)
map_get-checked check k ((j, u) ∷ m) v h e =
    let (a, b) = then_check-none (check j u) (check_entries check m) h in
    elim (Bool-cases (text_eq j k)) [
      | inl q ↦ (j, ap (check j) (inner (rw q at e)) ∙ a)
      | inr q ↦ map_get-checked check k m v b (rw q at e)
    ]
  where
    inner : {A : Type 0} {x y : A} → some x ≡ some y → y ≡ x
    inner e = cc

check_asset-verifiable :
    (key : Text) (a : RuntimePinAsset) → check_asset key a ≡ none → (a.url ≢ []) × (a.sha256 ≢ [])
unfolding check_asset
check_asset-verifiable key a h =
    let (_, unverifiable) = then_check-none _ _ h in
    go (text_eq a.url []) (text_eq a.sha256 []) (text_eq_iff a.url []).1 (text_eq_iff a.sha256 []).1
      (error_if-none _ _ unverifiable)
  where
    go :
        (b d : Bool)
        → (a.url ≡ [] → b ≡ true)
        → (a.sha256 ≡ [] → d ≡ true)
        → (b || d) ≡ false
        → (a.url ≢ []) × (a.sha256 ≢ [])
    go true d x y e = absurd (false≢true (sym e))
    go false true x y e = absurd (false≢true (sym e))
    go false false x y e = ((λ q. false≢true (x q)), (λ q. false≢true (y q)))

-- The three lookups of LookupRuntimePin.
abbrev Verifiable : Option (Text × Text × Text) → Type 0
Verifiable o = (url sha256 full : Text) → o ≡ some (url, sha256, full) → (url ≢ []) × (sha256 ≢ [])

pin_platform-Verifiable :
    (pin : RuntimePin) (version key v : Text)
    → check_pin v pin ≡ none
    → Verifiable (pin_platform pin version key)
unfolding pin_platform check_pin
pin_platform-Verifiable pin version key v h = go (map_get key pin.platforms) refl
  where
    go :
        (o : Option RuntimePinAsset)
        → map_get key pin.platforms ≡ o
        → Verifiable
            (elim o [ none ↦ none | some a ↦ some (a.url, a.sha256, pinned_full pin version) ])
    go none e url sha256 full q = absurd (cc)
    go (some a) e url sha256 full q =
        let (j, checked) = map_get-checked check_asset key pin.platforms a h e in
        let (x, y) = check_asset-verifiable j a checked in
        let u : a.url ≡ url = cc in
        let t : a.sha256 ≡ sha256 = cc in ((λ z. x (u ∙ z)), (λ z. y (t ∙ z)))

pin_version-Verifiable :
    (by_version : Map RuntimePin) (version key : Text)
    → check_entries check_pin by_version ≡ none
    → Verifiable (pin_version by_version version key)
unfolding pin_version
pin_version-Verifiable by_version version key h = go (map_get version by_version) refl
  where
    go :
        (o : Option RuntimePin)
        → map_get version by_version ≡ o
        → Verifiable (elim o [ none ↦ none | some pin ↦ pin_platform pin version key ])
    go none e url sha256 full = λ q. absurd (cc)
    go (some pin) e url sha256 full =
        let (v, checked) = map_get-checked check_pin version by_version pin h e in
        pin_platform-Verifiable pin version key v checked url sha256 full

lookup-Verifiable :
    (pins : Pins) (lang version os arch libc : Text)
    → check_pins pins ≡ none
    → Verifiable (lookup_runtime_pin pins lang version os arch libc)
unfolding lookup_runtime_pin check_pins
lookup-Verifiable pins lang version os arch libc h = go (map_get lang pins) refl
  where
    key : Text
    key = os ++ (codes "/" ++ (arch ++ (codes "/" ++ libc)))

    go :
        (o : Option (Map RuntimePin))
        → map_get lang pins ≡ o
        → Verifiable (elim o [ none ↦ none | some by_version ↦ pin_version by_version version key ])
    go none e url sha256 full = λ q. absurd (cc)
    go (some by_version) e url sha256 full =
        let (j, checked) =
          map_get-checked (λ _ m. check_entries check_pin m) lang pins by_version h e in
        pin_version-Verifiable by_version version key checked url sha256 full

check_domains-valid :
    (ds : List AllowedDomain)
    → check_domains ds ≡ none
    → All (λ (d : AllowedDomain). validate_host_pattern d.pattern ≡ none) ds
unfolding check_domains
check_domains-valid [] h = tt
check_domains-valid (d ∷ ds) h = elim (Option-cases (validate_host_pattern d.pattern)) [
  | inl e ↦ (e, check_domains-valid ds (rw (e, check_domains) at h))
  | inr (x, e) ↦ absurd (failed (rw (e, check_domains) at h))
]
  where
    failed : {e : ConfigError} → some e ≢ none
    failed q = cc

-- What an accepted configuration can be relied on for.
pub record Settled (parse_duration : Text → Option ℤ) (c : Config) : Type 0 where
  pub named : (c.sandbox_id ≢ []) × (c.ssh_host ≢ [])
  pub no_option : has_prefix c.ssh_host (codes "-") ≡ false
  pub port : (1 ≤ egress_port c) × (egress_port c ≤ 65535)
  pub workers : 1 ≤ concurrency c
  pub window :
      (c.maildir_retention ≡ [])
      ⊎ (parse_duration c.maildir_retention ≡ some (retention parse_duration c))
  pub domains :
      All (λ (d : AllowedDomain). validate_host_pattern d.pattern ≡ none) c.allowed_domains
  pub pins :
      (lang version os arch libc url sha256 full : Text)
      → lookup_runtime_pin c.runtime_pins lang version os arch libc ≡ some (url, sha256, full)
      → (url ≢ []) × (sha256 ≢ [])

named-fields :
    (c : Config) → check_missing (missing_fields c) ≡ none → (c.sandbox_id ≢ []) × (c.ssh_host ≢ [])
unfolding missing_fields check_missing
named-fields c =
    go (text_eq c.sandbox_id []) (text_eq c.ssh_host []) (text_eq_iff c.sandbox_id []).1
      (text_eq_iff c.ssh_host []).1
  where
    go :
        (b d : Bool)
        → (c.sandbox_id ≡ [] → b ≡ true)
        → (c.ssh_host ≡ [] → d ≡ true)
        → check_missing (
            (if b then codes "sandbox_id" ∷ [] else [])
            ++ (if d then codes "ssh.host" ∷ [] else []))
          ≡ none
        → (c.sandbox_id ≢ []) × (c.ssh_host ≢ [])
    go true d x y h = absurd (cc)
    go false true x y h = absurd (cc)
    go false false x y h = ((λ q. false≢true (x q)), (λ q. false≢true (y q)))

concurrency-positive : (c : Config) → 1 ≤ concurrency c
unfolding concurrency
concurrency-positive c = go c.dispatch_concurrency
  where
    go : (n : ℤ) → 1 ≤ (elim n [ negsuc n ↦ 1 | pos n ↦ if n == 0 then 4 else n ])
    go (pos n) = ground arith
    go (negsuc n) = omega arith

egress_port-range :
    (c : Config)
    → bad_port_number c.egress_proxy_port ≡ false
    → (1 ≤ egress_port c) × (egress_port c ≤ 65535)
unfolding egress_port bad_port_number
egress_port-range c = go c.egress_proxy_port
  where
    port_of : ℤ → ℕ
    port_of n = elim n [ negsuc n ↦ 18080 | pos n ↦ if ltb 0 n then n else 18080 ]

    go : (n : ℤ) → bad_port_number n ≡ false → (1 ≤ port_of n) × (port_of n ≤ 65535)
    go (pos n) h = ground arith
    go (negsuc n) h = (omega arith, omega arith)

module _ (parse_duration : Text → Option ℤ) where
  retention-parsed :
      (c : Config)
      → check_retention parse_duration c.maildir_retention ≡ none
      → (c.maildir_retention ≡ [])
        ⊎ (parse_duration c.maildir_retention ≡ some (retention parse_duration c))
  unfolding check_retention retention
  retention-parsed c h = elim (Bool-cases (text_eq c.maildir_retention [])) [
    | inl e ↦ inl ((text_eq_iff c.maildir_retention []).0 e)
    | inr e ↦ elim (Option-cases (parse_duration c.maildir_retention)) [
      | inl n ↦ absurd (failed (rw (e, check_retention, n) at h))
      | inr (d, n) ↦ inr (n ∙ ap some (sym (given d e n)))
    ]
  ]
    where
      failed : {e : ConfigError} → some e ≢ none
      failed q = cc

      given :
          (d : ℤ)
          → text_eq c.maildir_retention [] ≡ false
          → parse_duration c.maildir_retention ≡ some d
          → retention parse_duration c ≡ d
      given d e n = rw (e, retention, n)

  -- A configuration that validate accepts has a sandbox id and a host that is no option of ssh; its
  -- proxy port is between 1 and 65535; its retention, if there is one, is the duration that is
  -- written in it, which may be negative; its allowed domains are host patterns; and every runtime
  -- pin that LookupRuntimePin finds in it has a URL and a hash. Its pool has a worker, as it has for
  -- every configuration.
  pub validate_config-Settled :
      (select : Text) (c : Config)
      → validate_config parse_duration select c ≡ none
      → Settled parse_duration c
  unfolding validate_config config_checks
  validate_config-Settled select c h0 =
      let (a1, (a2, (_, (_, (_, (_, (_, (a8, (a9, (_, (_, (_, (a13, (a14, _)))))))))))))) =
        first_error-none (config_checks parse_duration select c) h0 in
      record {
        named = named-fields c a1;
        no_option = error_if-none _ _ a2;
        port = egress_port-range c (error_if-none _ _ a8);
        workers = concurrency-positive c;
        window = retention-parsed c a9;
        domains = check_domains-valid c.allowed_domains a13;
        pins = λ lang version os arch libc.
            lookup-Verifiable c.runtime_pins lang version os arch libc a14;
      }
