-- ===== src/Protocol/Drain/Emptied.antt =====
-- A pass of drainNew (internal/protocol/dispatch.go) that submits nothing, as a whole.
use mathlib.Core.Bool.{false≢true}
use iceclimber.Common.{
  ℕ, suc, ◌≤◌, ◌<◌, ◌≡◌, sym, ap, subst, ◌∙◌, ◌⊎◌, inl, inr, true, false, none, some, List, [], ◌∷◌,
  arith, Bool-cases, Option-cases,
}
use iceclimber.Common.Result.{Result, ok, ok-injective}
use iceclimber.Common.Text.{Text, text_eq, text_eq_iff}
use iceclimber.Common.Boxes.{listed, listed-names, is_some}
use iceclimber.Protocol.Names.{valid_request_name}
use iceclimber.Protocol.Keys.{KeyFields}
use iceclimber.Protocol.Mail.{outbox_new, FsError, list}
use iceclimber.Protocol.Mail.Laws.{file}
use iceclimber.Protocol.Dispatch.{Server}
use iceclimber.Protocol.Dispatch.Recovery.{list-ok}
use iceclimber.Protocol.Drain.{
  Work, Choice, on_link, Verdict, went_on, sent, stopped, consider, choice_of, rest_of, continue,
  drain_names, drain_new,
}
use iceclimber.Protocol.Drain.Onward.{bind_inv, on_link-ok}
use iceclimber.Protocol.Drain.Onward.Loop.{drain_names-Round}
use iceclimber.Protocol.Drain.Guards.{Idle}
use iceclimber.Protocol.Drain.Cleared.{consider-Quiet}
use iceclimber.Protocol.Drain.Unstarted.{Quiet}

-- No request of these names is in outbox/new.
abbrev pub Cleared : List Text → Work → Type 0
Cleared names w =
    (k : Text)
    → listed k names ≡ true
    → valid_request_name k ≡ true
    → file w.link.tree outbox_new k ≡ none

abbrev pub Failing : Work → Type 0
Failing w = (e : FsError) × (w.failure ≡ some e)

module _ (s : Server) (fields : Text → KeyFields) (cap : ℕ) where
  -- The count of submitted requests only grows.
  drain_names_grows :
      (cs : List Choice) (names : List Text) (n m : ℕ) (w w' : Work)
      → drain_names s fields cap cs names n w ≡ (ok m, w')
      → n ≤ m
  drain_names_grows cs [] n m w w' h =
      let q : ◌≡◌ {A = Result FsError ℕ × Work} (ok n, w) (ok m, w') = unfold drain_names in h in
      let e : n ≡ m = ok-injective (ap (λ (r : Result FsError ℕ × Work). r.0) q) in omega arith
  drain_names_grows cs (name ∷ names) n m w w' h =
      let (v, w₁, _, q) =
        bind_inv (consider s fields cap (choice_of cs) name)
          (continue (drain_names s fields cap (rest_of cs) names) n) m w w'
          (unfold drain_names in h) in
      by_verdict v w₁ (λ i. drain_names_grows (rest_of cs) names i m w₁ w') q
    where
      by_verdict :
          (v : Verdict) (w₁ : Work)
          → ((i : ℕ) → drain_names s fields cap (rest_of cs) names i w₁ ≡ (ok m, w') → i ≤ m)
          → continue (drain_names s fields cap (rest_of cs) names) n v w₁ ≡ (ok m, w')
          → n ≤ m
      by_verdict went_on w₁ ih q = ih n (unfold continue in q)
      by_verdict sent w₁ ih q = let k = ih (suc n) (unfold continue in q) in omega arith
      by_verdict stopped w₁ ih q =
          let q' : ◌≡◌ {A = Result FsError ℕ × Work} (ok n, w₁) (ok m, w') = unfold continue in q in
          let e : n ≡ m = ok-injective (ap (λ (r : Result FsError ℕ × Work). r.0) q') in omega arith

  drain_names-Cleared :
      (cs : List Choice) (names : List Text) (n m : ℕ) (w w' : Work)
      → Idle w
      → drain_names s fields cap cs names n w ≡ (ok m, w')
      → (n < m) ⊎ Failing w' ⊎ ((w'.jobs ≡ []) × Cleared names w')
  drain_names-Cleared cs [] n m w w' (e, d) h =
      let q : ◌≡◌ {A = Result FsError ℕ × Work} (ok n, w) (ok m, w') = unfold drain_names in h in
      inr (
        inr (
          ap (λ (r : Result FsError ℕ × Work). r.1.jobs) (sym q) ∙ e,
          λ k no_name. absurd (false≢true (unfold listed in no_name)),
        ))
  drain_names-Cleared cs (name ∷ names) n m w w' (e, d) h =
      let (v, w₁, p, q) =
        bind_inv (consider s fields cap (choice_of cs) name)
          (continue (drain_names s fields cap (rest_of cs) names) n) m w w'
          (unfold drain_names in h) in
      by_verdict v w₁ (consider-Quiet s fields cap (choice_of cs) name w w₁ v (e, d) p)
        (λ i. drain_names-Cleared (rest_of cs) names n m w₁ w' i) q
    where
      listed_tail : (k : Text) → text_eq name k ≡ false → listed k (name ∷ names) ≡ listed k names
      listed_tail k f = unfold listed in rw f

      by_verdict :
          (v : Verdict) (w₁ : Work)
          → Quiet name w w₁ v
          → (Idle w₁
              → drain_names s fields cap (rest_of cs) names n w₁ ≡ (ok m, w')
              → (n < m) ⊎ Failing w' ⊎ ((w'.jobs ≡ []) × Cleared names w'))
          → continue (drain_names s fields cap (rest_of cs) names) n v w₁ ≡ (ok m, w')
          → (n < m) ⊎ Failing w' ⊎ ((w'.jobs ≡ []) × Cleared (name ∷ names) w')
      by_verdict sent w₁ quiet ih q = inl (
          let k = drain_names_grows (rest_of cs) names (suc n) m w₁ w' (unfold continue in q) in
          omega arith)
      by_verdict stopped w₁ (inl z) ih q = absurd (cc)
      by_verdict stopped w₁ (inr (inl (x, _, f))) ih q =
          let q' : ◌≡◌ {A = Result FsError ℕ × Work} (ok n, w₁) (ok m, w') = unfold continue in q in
          inr (inl (x, ap (λ (r : Result FsError ℕ × Work). r.1.failure) (sym q') ∙ f))
      by_verdict stopped w₁ (inr (inr (z, _, _, _, _))) ih q = absurd (cc)
      by_verdict went_on w₁ (inl z) ih q = absurd (cc)
      by_verdict went_on w₁ (inr (inl (x, z, _))) ih q = absurd (cc)
      by_verdict went_on w₁ (inr (inr (_, jobs, drainer, _, gone))) ih q =
          let q' : drain_names s fields cap (rest_of cs) names n w₁ ≡ (ok m, w') =
            unfold continue in q in
          elim (ih (jobs, drainer ∙ d) q') [
            | inl lt ↦ inl lt
            | inr (inl f) ↦ inr (inl f)
            | inr (inr (none_run, rest)) ↦
                inr (inr (none_run, λ k there valid. at k there valid rest q'))
          ]
        where
          at :
              (k : Text)
              → listed k (name ∷ names) ≡ true
              → valid_request_name k ≡ true
              → Cleared names w'
              → drain_names s fields cap (rest_of cs) names n w₁ ≡ (ok m, w')
              → file w'.link.tree outbox_new k ≡ none
          at k there valid rest q' = elim (Bool-cases (text_eq name k)) [
            | inl f ↦
                let same : name ≡ k = (text_eq_iff name k).0 f in
                let (o, _) = drain_names-Round s fields cap (rest_of cs) names n m w₁ w' q' in
                o.gone k (
                  subst (λ x. file w₁.link.tree outbox_new x ≡ none) same
                    (gone (subst (λ x. valid_request_name x ≡ true) (sym same) valid)))
            | inr f ↦ rest k (sym (listed_tail k f) ∙ there) valid
          ]

  -- A pass that starts with no worker and submits nothing: a worker has failed, or outbox/new has no
  -- request left.
  pub drain_new-Cleared :
      (cs : List Choice) (w w' : Work)
      → Idle w
      → drain_new s fields cap cs w ≡ (ok 0, w')
      → Failing w'
        ⊎ ((w'.jobs ≡ [])
            × ((k : Text) → valid_request_name k ≡ true → file w'.link.tree outbox_new k ≡ none))
  drain_new-Cleared cs w w' (e, d) h =
      let (ns, w₁, p, q) =
        bind_inv (on_link (list outbox_new)) (λ found. drain_names s fields cap cs found 0) 0 w w'
          (unfold drain_new in h) in
      let (l, p', r) = on_link-ok (list outbox_new) ns w w₁ p in
      let (n, t) = list-ok outbox_new w.link l ns p' in
      let q' : drain_names s fields cap cs ns 0 (record w { link = l }) ≡ (ok 0, w') = rw r at q in
      let (o, _) = drain_names-Round s fields cap cs ns 0 0 (record w { link = l }) w' q' in
      elim (drain_names-Cleared cs ns 0 0 (record w { link = l }) w' (e, d) q') [
        | inl lt ↦ absurd (omega arith)
        | inr (inl f) ↦ inl f
        | inr (inr (none_run, clear)) ↦ inr (
          none_run,
          λ k valid. elim (Option-cases (file l.tree outbox_new k)) [
            | inl absent ↦ o.gone k absent
            | inr (b, there) ↦
                clear k
                  (ap (listed k) n
                    ∙ listed-names k (w.link.tree outbox_new)
                    ∙ ap (λ t'. is_some (file t' outbox_new k)) (sym t)
                    ∙ ap is_some there)
                  valid
          ],
        )
      ]
