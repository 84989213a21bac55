-- ===== src/Protocol/Drain/Onward/Loop.antt =====
-- A pass of drainNew (internal/protocol/dispatch.go) keeps every request tracked, and each request that
-- is submitted leaves outbox/new.
use iceclimber.Common.{ℕ, suc, ◌+◌, ◌≤◌, ◌≡◌, refl, sym, ap, subst, List, [], ◌∷◌, arith}
use iceclimber.Common.Result.{Result, ok, ok-injective}
use iceclimber.Common.Text.{Text}
use iceclimber.Protocol.Keys.{KeyFields}
use iceclimber.Protocol.Mail.{outbox_new, FsError, list}
use iceclimber.Protocol.Dispatch.{Server}
use iceclimber.Protocol.Dispatch.Recovery.{list-ok}
use iceclimber.Protocol.Drain.{
  Work, Choice, on_link, Verdict, went_on, sent, stopped, consider, choice_of, rest_of, continue,
  drain_names, drain_new,
}
use iceclimber.Protocol.Drain.Onward.{
  queued, Onward, Onward-refl, Onward-trans, Onward-same, bind_inv, on_link-ok,
}
use iceclimber.Protocol.Drain.Onward.Rounds.{consider-Round}
use iceclimber.Protocol.Drain.Onward.Launch.{cost}

module _ (s : Server) (fields : Text → KeyFields) (cap : ℕ) where
  pub drain_names-Round :
      (cs : List Choice) (names : List Text) (n m : ℕ) (w w' : Work)
      → drain_names s fields cap cs names n w ≡ (ok m, w')
      → Onward w w' × (m + queued w' ≤ n + queued w)
  drain_names-Round cs [] n m w w' h =
      let q : ◌≡◌ {A = Result FsError ℕ × Work} (ok n, w) (ok m, w') = unfold drain_names in h in
      let e : n ≡ m = ok-injective (ap (λ (r : Result FsError ℕ × Work). r.0) q) in
      rw (sym (ap (λ (r : Result FsError ℕ × Work). r.1) q)) (Onward-refl w, omega arith)
  drain_names-Round cs (name ∷ names) n m w w' h =
      let (v, w₁, e, q) =
        bind_inv (consider s fields cap (choice_of cs) name)
          (continue (drain_names s fields cap (rest_of cs) names) n) m w w'
          (unfold drain_names in h) in
      let (o, c) = consider-Round s fields cap (choice_of cs) name w w₁ v e in
      let (o', c') = by_verdict v w₁ (λ i. drain_names-Round (rest_of cs) names i m w₁ w') q in
      (Onward-trans o o', omega arith)
    where
      by_verdict :
          (v : Verdict) (w₁ : Work)
          → ((i : ℕ)
              → drain_names s fields cap (rest_of cs) names i w₁ ≡ (ok m, w')
              → Onward w₁ w' × (m + queued w' ≤ i + queued w₁))
          → continue (drain_names s fields cap (rest_of cs) names) n v w₁ ≡ (ok m, w')
          → Onward w₁ w' × (m + queued w' ≤ cost v + n + queued w₁)
      by_verdict went_on w₁ ih q = let (o, c) = ih n (unfold continue in q) in (o, omega arith)
      by_verdict sent w₁ ih q = let (o, c) = ih (suc n) (unfold continue in q) in (o, omega arith)
      by_verdict stopped w₁ ih q =
          let q' : ◌≡◌ {A = Result FsError ℕ × Work} (ok n, w₁) (ok m, w') = unfold continue in q in
          let e : n ≡ m = ok-injective (ap (λ (r : Result FsError ℕ × Work). r.0) q') in
          rw (sym (ap (λ (r : Result FsError ℕ × Work). r.1) q')) (Onward-refl w₁, omega arith)

  -- A pass that submits m requests takes at least m files out of outbox/new, and loses track of none.
  pub drain_new-Round :
      (cs : List Choice) (m : ℕ) (w w' : Work)
      → drain_new s fields cap cs w ≡ (ok m, w')
      → Onward w w' × (m + queued w' ≤ queued w)
  drain_new-Round cs m w w' h =
      let (ns, w₁, e, q) =
        bind_inv (on_link (list outbox_new)) (λ names. drain_names s fields cap cs names 0) m w w'
          (unfold drain_new in h) in
      let (l, p, r) = on_link-ok (list outbox_new) ns w w₁ e in
      let (_, t) = list-ok outbox_new w.link l ns p in
      let (o, c) = drain_names-Round cs ns 0 m w₁ w' q in
      let o' = subst (Onward w) (sym r) (Onward-same w (record w { link = l }) refl refl t) in
      (Onward-trans o' o, omega arith)
