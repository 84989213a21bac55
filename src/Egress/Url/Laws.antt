-- ===== src/Egress/Url/Laws.antt =====
-- Canonical of internal/egress/rewrite.go: spellings of one target have one form.
use iceclimber.Common.{
  ◌≡◌, ◌≢◌, ◌⊎◌, inl, inr, sym, ap, ◌∙◌, Bool, true, some, [], ◌++◌, if◌then◌else◌,
}
use iceclimber.Common.Result.{ok, err}
use iceclimber.Common.Text.{
  Text, codes, text_eq, text_eq_ne, text_eq_iff, has_suffix, split, trim_suffix, trim_suffix-append,
  trim_suffix-none,
}
use iceclimber.Egress.Url.{Url, UrlLib, canon_host, scheme_of, canonical_url, canonical}
use iceclimber.Egress.Url.Paths.{Noise, canon_path-Noise}
use iceclimber.Egress.Store.Files.{File, Json}
use iceclimber.Egress.Store.Rules.{RuleSet, load_rules}
use iceclimber.Egress.Policy.{
  Policy, Decision, deny, decide_rules, matches_any, decide, store_denied,
}

-- A scheme that is given as https, or not at all.
abbrev Https : Text → Type 0
Https t = (t ≡ []) ⊎ (t ≡ codes "https")

abbrev SameScheme : Text → Text → Type 0
SameScheme a b = (a ≡ b) ⊎ (Https a × Https b)

-- The second name does not end in a dot, and the first one is that name with a dot behind it.
abbrev Dotted : Text → Text → Type 0
Dotted a b = (a ≡ b ++ codes ".") × ((t : Text) → b ≢ t ++ codes ".")

abbrev SameName : Text → Text → Type 0
SameName a b = (a ≡ b) ⊎ Dotted a b ⊎ Dotted b a

without_dot : (a b : Text) → SameName a b → trim_suffix a (codes ".") ≡ trim_suffix b (codes ".")
without_dot a b (inl e) = ap (λ t. trim_suffix t (codes ".")) e
without_dot a b (inr (inl (e, bare))) =
    ap (λ t. trim_suffix t (codes ".")) e
    ∙ trim_suffix-append b (codes ".")
    ∙ sym (trim_suffix-none b (codes ".") bare)
without_dot a b (inr (inr (e, bare))) =
    trim_suffix-none a (codes ".") bare
    ∙ sym (trim_suffix-append a (codes "."))
    ∙ ap (λ t. trim_suffix t (codes ".")) (sym e)

Https-scheme : (u : Url) → Https u.scheme → scheme_of u ≡ codes "https"
unfolding scheme_of text_eq
Https-scheme u (inl e) = given u.scheme e
  where
    given : (t : Text) → t ≡ [] → (if text_eq t [] then codes "https" else t) ≡ codes "https"
    given t q = let same = (text_eq_iff t []).1 q in rw same
Https-scheme u (inr e) = ap (λ t. if text_eq t [] then codes "https" else t) e

SameScheme-of : (u v : Url) → SameScheme u.scheme v.scheme → scheme_of u ≡ scheme_of v
SameScheme-of u v (inl e) =
    unfold scheme_of in ap (λ s. if text_eq s [] then codes "https" else s) e
SameScheme-of u v (inr (a, b)) = Https-scheme u a ∙ sym (Https-scheme v b)

module _ (lib : UrlLib) where
  -- Two parsed URLs that an upstream takes for one: https or one scheme, the host name up to case,
  -- the port and a dot at its end, the path up to noise, one query. (The host name of a parsed URL
  -- is without its port.)
  pub record SameTarget (u v : Url) : Type 0 where
    pub u_host : u.host ≢ []
    pub v_host : v.host ≢ []
    pub schemes : SameScheme u.scheme v.scheme
    pub hosts : SameName (lib.lower u.hostname) (lib.lower v.hostname)
    pub noise : Noise (split b'/' u.path) (split b'/' v.path)
    pub last_slash : has_suffix u.path (codes "/") ≡ has_suffix v.path (codes "/")
    pub query : u.raw_query ≡ v.raw_query

  canonical_parsed :
      (raw : Text) (u : Url)
      → lib.parse raw ≡ some u
      → u.host ≢ []
      → canonical lib raw ≡ canonical_url lib u
  canonical_parsed raw u e h =
      let n = text_eq_ne u.host [] h in unfold canonical in rw (e, canonical) (rw n)

  canonical_url-SameTarget :
      (u v : Url) → SameTarget u v → canonical_url lib u ≡ canonical_url lib v
  unfolding canonical_url
  canonical_url-SameTarget u v s =
      let host : canon_host lib u ≡ canon_host lib v =
        unfold canon_host in without_dot (lib.lower u.hostname) (lib.lower v.hostname) s.hosts in
      let path = canon_path-Noise u.path v.path s.noise s.last_slash in
      cc (SameScheme-of u v s.schemes, host, s.query, path)

  -- Canonical gives one form to two URLs of one target.
  pub canonical-SameTarget :
      (raw raw' : Text) (u v : Url)
      → lib.parse raw ≡ some u
      → lib.parse raw' ≡ some v
      → SameTarget u v
      → canonical lib raw ≡ canonical lib raw'
  canonical-SameTarget raw raw' u v e e' s =
      canonical_parsed raw u e s.u_host
      ∙ canonical_url-SameTarget u v s
      ∙ sym (canonical_parsed raw' v e' s.v_host)

  abbrev decide_canonical : Json RuleSet → Policy → File → Text → Decision
  decide_canonical json p f c = elim (load_rules json f) [
    | err _ ↦ deny
    | ok r ↦ decide_rules lib p r c
  ]

  abbrev denied_canonical : Json RuleSet → File → Text → Bool
  denied_canonical json f c = elim (load_rules json f) [
    | err _ ↦ true
    | ok r ↦ matches_any lib r.deny c
  ]

  -- Whatever the rules are, Decide and StoreDenied answer the same for two URLs that differ only in
  -- the port, in the case of the host name, in one dot at its end, in https being written out, and in
  -- dot segments and doubled slashes of the path.
  pub decide-SameTarget :
      (json : Json RuleSet) (p : Policy) (f : File) (raw raw' : Text) (u v : Url)
      → lib.parse raw ≡ some u
      → lib.parse raw' ≡ some v
      → SameTarget u v
      → (decide lib json p f raw ≡ decide lib json p f raw')
        × (store_denied lib json f raw ≡ store_denied lib json f raw')
  decide-SameTarget json p f raw raw' u v e e' s =
      let q = canonical-SameTarget raw raw' u v e e' s in
      (
        unfold decide in ap (decide_canonical json p f) q,
        unfold store_denied in ap (denied_canonical json f) q,
      )
