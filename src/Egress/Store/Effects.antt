-- ===== src/Egress/Store/Effects.antt =====
-- What AddDeny, AddAllow, RemoveAllow and RemoveDeny do to the gate.
use iceclimber.Common.{
  ◌≡◌, refl, sym, ap, subst, ◌∙◌, inl, inr, true, false, Option, none, some, List, [], ◌∷◌, arith,
  Bool-cases, AnyOf,
}
use iceclimber.Common.Result.{ok, err, ok-injective}
use iceclimber.Common.Text.{Text, text_eq, text_eq_iff, text_eq_refl}
use iceclimber.Egress.Glob.Language.{Matches, Matches-self}
use iceclimber.Egress.Url.{UrlLib, canonical}
use iceclimber.Egress.Validate.{PatternError, validate_url_glob}
use iceclimber.Egress.Store.Files.{File, Json, Env}
use iceclimber.Egress.Store.Rules.{
  RuleSet, load_rules, remove_str, append_new, has_str, append_unique, allow_rule, deny_rule,
  add_allow, add_deny, remove_allow, forget_allow_rule,
}
use iceclimber.Egress.Store.Atomic.{mutate-ok}
use iceclimber.Egress.Policy.{Policy, deny, decide}
use iceclimber.Egress.Policy.Decisions.{Covered, Gate, decide_iff}

AnyOf-of_has_str :
    (P : Text → Type 0) (x : Text) → P x → (ys : List Text) → has_str ys x ≡ true → AnyOf P ys
unfolding has_str
AnyOf-of_has_str P x h [] e = absurd (cc)
AnyOf-of_has_str P x h (y ∷ ys) e = elim (Bool-cases (text_eq y x)) [
  | inl q ↦ inl (subst P (sym ((text_eq_iff y x).0 q)) h)
  | inr q ↦ inr (AnyOf-of_has_str P x h ys (rw q at e))
]

AnyOf-append_new :
    (P : Text → Type 0) (x : Text) → P x → (ys : List Text) → AnyOf P (append_new ys x)
unfolding append_new
AnyOf-append_new P x h [] = inl h
AnyOf-append_new P x h (y ∷ ys) = inr (AnyOf-append_new P x h ys)

-- The stored rule is among the rules afterwards.
AnyOf-append_unique :
    (P : Text → Type 0) (xs : List Text) (x : Text) → P x → AnyOf P (append_unique xs x)
unfolding append_unique
AnyOf-append_unique P xs x h = elim (Bool-cases (has_str xs x)) [
  | inl e ↦ rw e (AnyOf-of_has_str P x h xs e)
  | inr e ↦ rw e (AnyOf-append_new P x h xs)
]

remove_str_absent : (xs : List Text) (x : Text) → has_str xs x ≡ false → remove_str xs x ≡ xs
unfolding remove_str has_str
remove_str_absent [] x h = refl
remove_str_absent (v ∷ xs) x h = ground (arith, remove_str_absent xs x)

remove_str-append_new :
    (xs : List Text) (x : Text) → remove_str (append_new xs x) x ≡ remove_str xs x
unfolding remove_str append_new
remove_str-append_new [] x = ground (arith, text_eq_refl x)
remove_str-append_new (v ∷ xs) x = ground (arith, remove_str-append_new xs x)

-- Forgetting a rule that was not there before it was added gives the old list.
remove_str-append_unique :
    (xs : List Text) (x : Text) → has_str xs x ≡ false → remove_str (append_unique xs x) x ≡ xs
unfolding append_unique
remove_str-append_unique xs x h = rw h (remove_str-append_new xs x ∙ remove_str_absent xs x h)

module _ (lib : UrlLib) (json : Json RuleSet) where
  deny_rule-inv :
      (pattern : Text) (r r' : RuleSet)
      → deny_rule json lib pattern r ≡ ok r'
      → r' ≡ record r { deny = append_unique r.deny (canonical lib pattern) }
  deny_rule-inv pattern r r' h =
      go (validate_url_glob (canonical lib pattern)) (unfold deny_rule in h)
    where
      go :
          (v : Option PatternError)
          → elim v [
            | some e ↦ err e
            | none ↦ ok (record r { deny = append_unique r.deny (canonical lib pattern) })
          ]
            ≡ ok r'
          → r' ≡ record r { deny = append_unique r.deny (canonical lib pattern) }
      go none k = cc
      go (some e) k = absurd (cc)

  allow_rule-inv :
      (pattern : Text) (r r' : RuleSet)
      → allow_rule json lib pattern r ≡ ok r'
      → r' ≡ record r { allow = append_unique r.allow (canonical lib pattern) }
  allow_rule-inv pattern r r' h =
      go (validate_url_glob (canonical lib pattern)) (unfold allow_rule in h)
    where
      go :
          (v : Option PatternError)
          → elim v [
            | some e ↦ err e
            | none ↦ ok (record r { allow = append_unique r.allow (canonical lib pattern) })
          ]
            ≡ ok r'
          → r' ≡ record r { allow = append_unique r.allow (canonical lib pattern) }
      go none k = cc
      go (some e) k = absurd (cc)

  add_deny-ok :
      (env : Env) (pattern : Text) (f f' : File)
      → add_deny json lib env pattern f ≡ (none, f')
      → (r : RuleSet) × (load_rules json f ≡ ok r)
        × (json.Faithful (record r { deny = append_unique r.deny (canonical lib pattern) })
            → load_rules json f'
              ≡ ok (record r { deny = append_unique r.deny (canonical lib pattern) }))
  add_deny-ok env pattern f f' h =
      let (r, r', l, a, w, t) =
        mutate-ok json env (deny_rule json lib pattern) f f' (unfold add_deny in h) in
      let q = deny_rule-inv pattern r r' a in
      (r, l, subst (λ x. json.Faithful x → load_rules json f' ≡ ok x) q w)

  -- After AddDeny reported no error, Decide denies every URL whose canonical form matches the stored
  -- rule as the gate reads it, which is the given pattern made canonical twice (once by AddDeny and
  -- once more when it is matched): under every policy, and whatever allow rules there are. (The rules
  -- must be encodable as JSON.)
  pub add_deny-decide :
      (env : Env) (pattern url : Text) (f f' : File) (p : Policy)
      → add_deny json lib env pattern f ≡ (none, f')
      → ((r : RuleSet)
          → load_rules json f ≡ ok r
          → json.Faithful (record r { deny = append_unique r.deny (canonical lib pattern) }))
      → Matches (canonical lib (canonical lib pattern)) (canonical lib url)
      → decide lib json p f' url ≡ deny
  add_deny-decide env pattern url f f' p added faithful m =
      let (r, l, w) = add_deny-ok env pattern f f' added in
      let covered : Covered lib (append_unique r.deny (canonical lib pattern)) (canonical lib url) =
        AnyOf-append_unique (λ x. Matches (canonical lib x) (canonical lib url)) r.deny
          (canonical lib pattern) m in
      (decide_iff lib json p f' url deny).1 (rw (w (faithful r l), Gate) (inl covered))

  -- So the URL that was given to AddDeny is itself denied, if its canonical form is one already.
  pub add_deny-decide_self :
      (env : Env) (url : Text) (f f' : File) (p : Policy)
      → add_deny json lib env url f ≡ (none, f')
      → ((r : RuleSet)
          → load_rules json f ≡ ok r
          → json.Faithful (record r { deny = append_unique r.deny (canonical lib url) }))
      → canonical lib (canonical lib url) ≡ canonical lib url
      → decide lib json p f' url ≡ deny
  add_deny-decide_self env url f f' p added faithful idem =
      add_deny-decide env url url f f' p added faithful
        (subst (λ c. Matches c (canonical lib url)) (sym idem) (Matches-self (canonical lib url)))

  -- RemoveAllow takes back an AddAllow: if both report no error and the rule was not there before,
  -- the rules read afterwards are the rules read before. (They must be encodable as JSON.)
  pub remove_allow-add_allow :
      (env env' : Env) (pattern : Text) (f g h : File) (r : RuleSet)
      → load_rules json f ≡ ok r
      → has_str r.allow (canonical lib pattern) ≡ false
      → add_allow json lib env pattern f ≡ (none, g)
      → remove_allow json lib env' pattern g ≡ (none, h)
      → json.Faithful (record r { allow = append_unique r.allow (canonical lib pattern) })
      → json.Faithful r
      → load_rules json h ≡ ok r
  remove_allow-add_allow env env' pattern f g h r loaded fresh added removed fit fit_old =
      let (r₁, r₂, l, a, w, _) =
        mutate-ok json env (allow_rule json lib pattern) f g (unfold add_allow in added) in
      let (r₃, r₄, l', a', w', _) =
        mutate-ok json env' (forget_allow_rule json lib pattern) g h
          (unfold remove_allow in removed) in
      let same : r₁ ≡ r = ok-injective (sym l ∙ loaded) in
      let q : r₂ ≡ with_rule r = allow_rule-inv pattern r₁ r₂ a ∙ ap with_rule same in
      let back : r₃ ≡ with_rule r =
        ok-injective (sym l' ∙ w (subst json.Faithful (sym q) fit)) ∙ q in
      let forgot : r₄ ≡ without r₃ = ok-injective (sym a' ∙ unfold forget_allow_rule in refl) in
      let final : r₄ ≡ r = forgot ∙ ap without back ∙ old in
      w' (subst json.Faithful (sym final) fit_old) ∙ ap ok final
    where
      with_rule : RuleSet → RuleSet
      with_rule x = record x { allow = append_unique x.allow (canonical lib pattern) }

      without : RuleSet → RuleSet
      without x = record x { allow = remove_str x.allow (canonical lib pattern) }

      old : without (with_rule r) ≡ r
      old =
          ap (λ xs. record r { allow = xs })
            (remove_str-append_unique r.allow (canonical lib pattern) fresh)
