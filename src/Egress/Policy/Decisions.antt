-- ===== src/Egress/Policy/Decisions.antt =====
-- What Policy.Decide, StoreDenied and ConfigAllowed of internal/egress/policy.go answer.
use iceclimber.Common.{
  ◌≡◌, ◌≢◌, refl, sym, ◌∙◌, ◌↔◌, subst, ◌⊎◌, inl, inr, Bool, true, false, List, [], ◌∷◌, arith,
  if◌then◌else◌, Bool-cases, AnyOf,
}
use iceclimber.Common.Result.{Result, ok, err}
use iceclimber.Common.Text.{Text, codes, text_eq, text_eq_iff}
use iceclimber.Egress.Glob.{glob_match}
use iceclimber.Egress.Glob.Language.{Matches}
use iceclimber.Egress.Glob.Correct.{glob_match_iff}
use iceclimber.Egress.Url.{UrlLib, canonical}
use mathlib.Core.Bool.{false≢true}
use iceclimber.Egress.Validate.{PatternError}
use iceclimber.Egress.Store.Files.{File, Json, StoreError}
use iceclimber.Egress.Store.Rules.{RuleSet, load_rules}
use iceclimber.Egress.Policy.{
  Policy, Decision, allow, hold, deny, matches_any, store_denied, decide_rules, decide,
}

module _ (lib : UrlLib) where
  -- Some rule, in canonical form, stands for the URL.
  abbrev pub Covered : List Text → Text → Type 0
  Covered rules url = AnyOf (λ r. Matches (canonical lib r) url) rules

  matches_any→Covered :
      (rules : List Text) (url : Text) → matches_any lib rules url ≡ true → Covered rules url
  unfolding matches_any
  matches_any→Covered [] url h = absurd (cc)
  matches_any→Covered (r ∷ rules) url h = elim (Bool-cases (glob_match (canonical lib r) url)) [
    | inl e ↦ inl ((glob_match_iff (canonical lib r) url).0 e)
    | inr e ↦ inr (matches_any→Covered rules url (rw e at h))
  ]

  Covered→matches_any :
      (rules : List Text) (url : Text) → Covered rules url → matches_any lib rules url ≡ true
  unfolding matches_any
  Covered→matches_any [] url c = absurd c
  Covered→matches_any (r ∷ rules) url (inl m) = rw ((glob_match_iff (canonical lib r) url).1 m)
  Covered→matches_any (r ∷ rules) url (inr c) =
      let ih = Covered→matches_any rules url c in ground arith

  pub matches_any_iff :
      (rules : List Text) (url : Text) → (matches_any lib rules url ≡ true) ↔ Covered rules url
  matches_any_iff rules url = (matches_any→Covered rules url, Covered→matches_any rules url)

  -- When the gate answers what, for rules that could be read.
  abbrev pub Verdict : Policy → RuleSet → Text → Decision → Type 0
  Verdict p r url deny =
      Covered r.deny url ⊎ ((¬ Covered r.allow url) × (p.unlisted ≡ codes "deny"))
  Verdict p r url allow = (¬ Covered r.deny url) × Covered r.allow url
  Verdict p r url hold =
      (¬ Covered r.deny url) × (¬ Covered r.allow url) × (p.unlisted ≢ codes "deny")

  -- The tests of Decide, read in the language of globs.
  deny_iff :
      (rules : List Text) (url : Text) (b : Bool)
      → matches_any lib rules url ≡ b
      → (b ≡ true) ↔ Covered rules url
  deny_iff rules url b e =
      (λ h. (matches_any_iff rules url).0 (e ∙ h), λ c. sym e ∙ (matches_any_iff rules url).1 c)

  Verdict-of :
      (p : Policy) (r : RuleSet) (url : Text) (d a u : Bool)
      → (d ≡ true) ↔ Covered r.deny url
      → (a ≡ true) ↔ Covered r.allow url
      → (u ≡ true) ↔ (p.unlisted ≡ codes "deny")
      → Verdict p r url (if d then deny else if a then allow else if u then deny else hold)
  Verdict-of p r url true a u hd ha hu = inl (hd.0 refl)
  Verdict-of p r url false true u hd ha hu = (λ c. false≢true (hd.1 c), ha.0 refl)
  Verdict-of p r url false false true hd ha hu = inr (λ c. false≢true (ha.1 c), hu.0 refl)
  Verdict-of p r url false false false hd ha hu =
      (λ c. false≢true (hd.1 c), λ c. false≢true (ha.1 c), λ c. false≢true (hu.1 c))

  decide_rules-Verdict :
      (p : Policy) (r : RuleSet) (url : Text) → Verdict p r url (decide_rules lib p r url)
  unfolding decide_rules
  decide_rules-Verdict p r url =
      Verdict-of p r url (matches_any lib r.deny url) (matches_any lib r.allow url)
        (text_eq p.unlisted (codes "deny")) (matches_any_iff r.deny url)
        (matches_any_iff r.allow url) (text_eq_iff p.unlisted (codes "deny"))

  -- No two answers are right.
  Verdict-unique :
      (p : Policy) (r : RuleSet) (url : Text) (d e : Decision)
      → Verdict p r url d
      → Verdict p r url e
      → d ≡ e
  Verdict-unique p r url allow allow v w = refl
  Verdict-unique p r url hold hold v w = refl
  Verdict-unique p r url deny deny v w = refl
  Verdict-unique p r url allow hold v w = absurd (w.1 v.1)
  Verdict-unique p r url hold allow v w = absurd (v.1 w.1)
  Verdict-unique p r url allow deny v (inl c) = absurd (v.0 c)
  Verdict-unique p r url allow deny v (inr c) = absurd (c.0 v.1)
  Verdict-unique p r url deny allow (inl c) w = absurd (w.0 c)
  Verdict-unique p r url deny allow (inr c) w = absurd (c.0 w.1)
  Verdict-unique p r url hold deny v (inl c) = absurd (v.0 c)
  Verdict-unique p r url hold deny v (inr c) = absurd (v.2 c.1)
  Verdict-unique p r url deny hold (inl c) w = absurd (w.0 c)
  Verdict-unique p r url deny hold (inr c) w = absurd (w.2 c.1)

  pub decide_rules_iff :
      (p : Policy) (r : RuleSet) (url : Text) (d : Decision)
      → (decide_rules lib p r url ≡ d) ↔ Verdict p r url d
  decide_rules_iff p r url d = (
    λ e. subst (Verdict p r url) e (decide_rules-Verdict p r url),
    λ v. Verdict-unique p r url _ d (decide_rules-Verdict p r url) v,
  )

  module _ (json : Json RuleSet) where
    -- The gate: closed if the rules cannot be read, and the verdict on the canonical URL if they can.
    abbrev pub Gate : Policy → File → Text → Decision → Type 0
    Gate p f url d = elim (load_rules json f) [
      | err _ ↦ d ≡ deny
      | ok r ↦ Verdict p r (canonical lib url) d
    ]

    gate_of_load :
        (p : Policy) (f : File) (url : Text) (d : Decision)
        (l : Result (StoreError PatternError) RuleSet)
        → (elim l [ err _ ↦ deny | ok r ↦ decide_rules lib p r (canonical lib url) ] ≡ d)
          ↔ elim l [ err _ ↦ d ≡ deny | ok r ↦ Verdict p r (canonical lib url) d ]
    gate_of_load p f url d (err e) = (λ h. sym h, λ h. sym h)
    gate_of_load p f url d (ok r) = decide_rules_iff p r (canonical lib url) d

    -- Decide answers `d` exactly if the gate says so: with unreadable rules only deny; else deny
    -- where a deny rule covers the canonical URL, or no allow rule does and the unlisted policy is
    -- "deny"; allow where an allow rule covers it and no deny rule does; hold in all other cases.
    pub decide_iff :
        (p : Policy) (f : File) (url : Text) (d : Decision)
        → (decide lib json p f url ≡ d) ↔ Gate p f url d
    unfolding decide
    decide_iff p f url d = gate_of_load p f url d (load_rules json f)

    -- StoreDenied is at most as strict as Decide: what it denies, Decide denies.
    pub store_denied-decide :
        (p : Policy) (f : File) (url : Text)
        → store_denied lib json f url ≡ true
        → decide lib json p f url ≡ deny
    unfolding store_denied decide decide_rules
    store_denied-decide p f url h = ground arith
