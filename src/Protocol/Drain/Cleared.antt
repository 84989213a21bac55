-- ===== src/Protocol/Drain/Cleared.antt =====
-- A pass of drainNew (internal/protocol/dispatch.go) that starts with no worker and submits nothing
-- has cleared outbox/new of requests.
use mathlib.Core.Bool.{false≢true}
use iceclimber.Common.{
  ℕ, ◌≡◌, refl, sym, ap, subst, ◌∙◌, ◌⊎◌, inl, inr, Bool, true, false, not, ◌||◌, none, [],
}
use iceclimber.Common.Result.{Result, ok, ok-injective}
use iceclimber.Common.Text.{Text, text_eq_refl}
use iceclimber.Common.Boxes.{lookup-remove}
use iceclimber.Protocol.Names.{valid_request_name}
use iceclimber.Protocol.Keys.{KeyFields}
use iceclimber.Protocol.Mail.{outbox_new, outbox, FsError, Link, read_file, pick_up}
use iceclimber.Protocol.Mail.Laws.{file}
use iceclimber.Protocol.Dispatch.{Server, response_exists}
use iceclimber.Protocol.Pool.{has_key}
use iceclimber.Protocol.Drain.{
  Work, Choice, pure, on_link, Verdict, went_on, reserve_and_send, unless_answered, unless_skipped,
  consider,
}
use iceclimber.Protocol.Drain.Pickup.{Failed, Moved, pick_up-cases}
use iceclimber.Protocol.Drain.Onward.{bind_inv, on_link-ok}
use iceclimber.Protocol.Drain.Guards.{Idle}
use iceclimber.Protocol.Drain.Unstarted.{Quiet, finish_all_idle, reserve_and_send-Quiet}

module _ (s : Server) (fields : Text → KeyFields) (cap : ℕ) where
  answered-Quiet :
      (c : Choice) (name : Text) (w w' : Work) (v : Verdict)
      → w.jobs ≡ []
      → unless_answered s fields cap true c name w ≡ (ok v, w')
      → Quiet name w w' v
  answered-Quiet c name w w' v e h =
      let (u, w₁, p, q) =
        bind_inv (on_link (pick_up outbox name)) (λ _. pure went_on) v w w'
          (unfold unless_answered in h) in
      let (l, p', r) = on_link-ok (pick_up outbox name) u w w₁ p in
      rw (sym (ap (λ (x : Result FsError Verdict × Work). x.1) q) ∙ r) (
        inr (
          inr (
            sym (ok-injective (ap (λ (x : Result FsError Verdict × Work). x.0) q)),
            e,
            refl,
            refl,
            λ _.
                taken l (
                  subst (λ x. Failed w.link x ⊎ Moved name w.link x) p'
                    (pick_up-cases name w.link)),
          )))
    where
      taken :
          (l : Link)
          → Failed w.link (ok tt, l) ⊎ Moved name w.link (ok tt, l)
          → file l.tree outbox_new name ≡ none
      taken l (inl (x, z)) = absurd (cc)
      taken l (inr (b, _, _, out, _, _)) =
          rw out (lookup-remove name name (w.link.tree outbox_new) ∙ rw (text_eq_refl name))

  unanswered-Quiet :
      (c : Choice) (name : Text) (w w' : Work) (v : Verdict)
      → Idle w
      → unless_answered s fields cap false c name w ≡ (ok v, w')
      → Quiet name w w' v
  unanswered-Quiet c name w w' v (e, d) h =
      let (body, w₁, p, q) =
        bind_inv (on_link (read_file outbox_new name)) (reserve_and_send s fields cap c name) v w w'
          (unfold unless_answered in h) in
      let (l, p', r) = on_link-ok (read_file outbox_new name) body w w₁ p in
      reserve_and_send-Quiet s fields cap c name body (record w { link = l }) w' v (e, d)
        (rw r at q)

  unless_skipped-Quiet :
      (skip : Bool) (c : Choice) (name : Text) (w w' : Work) (v : Verdict)
      → Idle w
      → (skip ≡ true → valid_request_name name ≡ false)
      → unless_skipped s fields cap skip c name w ≡ (ok v, w')
      → Quiet name w w' v
  unless_skipped-Quiet true c name w w' v (e, d) bad h =
      let q : ◌≡◌ {A = Result FsError Verdict × Work} (ok went_on, w) (ok v, w') =
        unfold unless_skipped in h in
      rw (sym (ap (λ (x : Result FsError Verdict × Work). x.1) q)) (
        inr (
          inr (
            sym (ok-injective (ap (λ (x : Result FsError Verdict × Work). x.0) q)),
            e,
            refl,
            refl,
            λ ok_name. absurd (false≢true (sym (bad refl) ∙ ok_name)),
          )))
  unless_skipped-Quiet false c name w w' v (e, d) bad h =
      let (b, w₁, p, q) =
        bind_inv (on_link (response_exists s name))
          (λ answered. unless_answered s fields cap answered c name) v w w'
          (unfold unless_skipped in h) in
      let (l, p', r) = on_link-ok (response_exists s name) b w w₁ p in by_answer l b (rw r at q)
    where
      by_answer :
          (l : Link) (b : Bool)
          → unless_answered s fields cap b c name (record w { link = l }) ≡ (ok v, w')
          → Quiet name w w' v
      by_answer l true q = answered-Quiet c name (record w { link = l }) w' v e q
      by_answer l false q = unanswered-Quiet c name (record w { link = l }) w' v (e, d) q

  pub consider-Quiet :
      (c : Choice) (name : Text) (w w' : Work) (v : Verdict)
      → Idle w
      → consider s fields cap c name w ≡ (ok v, w')
      → Quiet name w w' v
  consider-Quiet c name w w' v (e, d) h =
      unless_skipped-Quiet (not (valid_request_name name) || has_key name w.drainer.inflight) c name
        w w' v (e, d) invalid
        (sym (
            ap
              (λ x.
                unless_skipped s fields cap
                  (not (valid_request_name name) || has_key name x.drainer.inflight) c name x)
              (finish_all_idle s fields cap c.finishing w e))
          ∙ unfold consider in h)
    where
      invalid :
          (not (valid_request_name name) || has_key name w.drainer.inflight) ≡ true
          → valid_request_name name ≡ false
      invalid q =
          go (valid_request_name name)
            (ap (λ x. not (valid_request_name name) || has_key name x.inflight) (sym d) ∙ q)
        where
          go : (a : Bool) → (not a || has_key name []) ≡ true → a ≡ false
          go true z = absurd (unfold has_key in cc)
          go false z = refl
