-- ===== src/Protocol/Drain/Onward/Rounds.antt =====
-- A round of drainNew (internal/protocol/dispatch.go) keeps every request tracked, and a request that
-- is submitted leaves outbox/new.
use iceclimber.Common.{
  ℕ, ◌≡◌, refl, sym, ap, subst, ◌∙◌, ◌⊎◌, inl, inr, Bool, true, false, not, ◌||◌, Option, none,
  some,
}
use iceclimber.Common.Result.{Result, ok, ok-injective}
use iceclimber.Common.Text.{Text}
use iceclimber.Common.Boxes.{is_some}
use iceclimber.Protocol.Names.{valid_request_name}
use iceclimber.Protocol.Keys.{KeyFields, resource_key}
use iceclimber.Protocol.Mail.{
  outbox_new, inbox_new, inbox_cur, outbox, FsError, Link, read_file, pick_up,
}
use iceclimber.Protocol.Mail.Laws.{file}
use iceclimber.Protocol.Dispatch.{Server, response_exists}
use iceclimber.Protocol.Dispatch.Recovery.{Answered, tree-read_file, response_exists-ok}
use iceclimber.Protocol.Pool.{has_key, reserve, Drainer}
use iceclimber.Protocol.Drain.{
  Job, Work, Choice, pure, on_link, finish_all, Verdict, went_on, sent, acquire, reserve_and_send,
  unless_answered, unless_skipped, consider, calm,
}
use iceclimber.Protocol.Drain.Pickup.{Failed, Moved, pick_up-cases}
use iceclimber.Protocol.Drain.Onward.{
  Tracked, Onward, Onward-refl, Onward-same, bind_inv, on_link-ok,
}
use iceclimber.Protocol.Drain.Onward.Finish.{finish_all-Onward}
use iceclimber.Protocol.Drain.Onward.Launch.{
  Round, Round-after, Round-still, pick_up-Onward, same_answers, acquire-Round,
}

module _ (s : Server) (fields : Text → KeyFields) (cap : ℕ) where
  reserve_and_send-Round :
      (c : Choice) (name body : Text) (w w' : Work) (v : Verdict)
      → reserve_and_send s fields cap c name body w ≡ (ok v, w')
      → Round v w w'
  reserve_and_send-Round c name body w w' v h =
      go (reserve name j.worker.key w.drainer) (unfold reserve_and_send in h)
    where
      j : Job
      j = record { worker = record { name = name; key = resource_key (fields body) }; body = body }

      go :
          (o : Option Drainer)
          → (elim o as (λ _. Result FsError Verdict × Work) [
            | none ↦ (ok went_on, w)
            | some d ↦ acquire s fields cap c j (record w { drainer = d })
          ])
            ≡ (ok v, w')
          → Round v w w'
      go none q = rw (sym (ap (λ (r : Result FsError Verdict × Work). r.1) q)) (
          subst (λ x. Round x w w)
            (ok-injective (ap (λ (r : Result FsError Verdict × Work). r.0) q))
            (Round-still went_on refl (Onward-refl w)))
      go (some d) q =
          Round-after v (Onward-same w (record w { drainer = d }) refl refl refl)
            (acquire-Round s fields cap c j (record w { drainer = d }) w' v q)

  Answered-Round :
      (name : Text) (w w' : Work) (v : Verdict)
      → Answered w.link.tree name
      → unless_answered s fields cap true calm name w ≡ (ok v, w')
      → Round v w w'
  Answered-Round name w w' v a h =
      let (u, w₁, e, q) =
        bind_inv (on_link (pick_up outbox name)) (λ _. pure went_on) v w w'
          (unfold unless_answered in h) in
      let (l, p, r) = on_link-ok (pick_up outbox name) u w w₁ e in
      let (o, n) =
        taken l
          (subst (λ x. Failed w.link x ⊎ Moved name w.link x) p (pick_up-cases name w.link)) in
      rw (sym (ap (λ (x : Result FsError Verdict × Work). x.1) q) ∙ r) (
        subst (λ x. Round x w (record w { link = l }))
          (ok-injective (ap (λ (x : Result FsError Verdict × Work). x.0) q))
          (Round-still went_on refl o))
    where
      taken :
          (l : Link)
          → Failed w.link (ok tt, l) ⊎ Moved name w.link (ok tt, l)
          → Round sent w (record w { link = l })
      taken l (inl (x, z)) = absurd (cc)
      taken l (inr (b, _, found, out, new, cur)) =
          pick_up-Onward name w (record w { link = l }) b found out others refl
            (inr (inl (same_answers w.link.tree l.tree name new cur a)))
        where
          others :
              (k : Text)
              → Tracked k w
              → (is_some (file w.link.tree outbox_new k) ≡ true) ⊎ Tracked k (record w { link = l })
          others k (inl there) = inl there
          others k (inr (inl b)) = inr (inr (inl (same_answers w.link.tree l.tree k new cur b)))
          others k (inr (inr (inl runs))) = inr (inr (inr (inl runs)))
          others k (inr (inr (inr f))) = inr (inr (inr (inr f)))

  unanswered-Round :
      (c : Choice) (name : Text) (w w' : Work) (v : Verdict)
      → unless_answered s fields cap false c name w ≡ (ok v, w')
      → Round v w w'
  unanswered-Round c name w w' v h =
      let (body, w₁, e, q) =
        bind_inv (on_link (read_file outbox_new name)) (reserve_and_send s fields cap c name) v w w'
          (unfold unless_answered in h) in
      let (l, p, r) = on_link-ok (read_file outbox_new name) body w w₁ e in
      let t : l.tree ≡ w.link.tree =
        ap (λ (x : Result FsError Text × Link). x.1.tree) (sym p)
        ∙ tree-read_file outbox_new name w.link in
      Round-after v (subst (Onward w) (sym r) (Onward-same w (record w { link = l }) refl refl t))
        (reserve_and_send-Round c name body w₁ w' v q)

  unless_skipped-Round :
      (skip : Bool) (c : Choice) (name : Text) (w w' : Work) (v : Verdict)
      → unless_skipped s fields cap skip c name w ≡ (ok v, w')
      → Round v w w'
  unless_skipped-Round true c name w w' v h =
      let q : ◌≡◌ {A = Result FsError Verdict × Work} (ok went_on, w) (ok v, w') =
        unfold unless_skipped in h in
      rw (sym (ap (λ (r : Result FsError Verdict × Work). r.1) q)) (
        subst (λ x. Round x w w) (ok-injective (ap (λ (r : Result FsError Verdict × Work). r.0) q))
          (Round-still went_on refl (Onward-refl w)))
  unless_skipped-Round false c name w w' v h =
      let (b, w₁, e, q) =
        bind_inv (on_link (response_exists s name))
          (λ answered. unless_answered s fields cap answered c name) v w w'
          (unfold unless_skipped in h) in
      let (l, p, r) = on_link-ok (response_exists s name) b w w₁ e in
      let (t, a) = response_exists-ok s name b w.link l p in
      Round-after v (subst (Onward w) (sym r) (Onward-same w (record w { link = l }) refl refl t))
        (by_answer w₁ b (a ∙ sym (rw r (rw t))) q)
    where
      by_answer :
          (w₁ : Work) (b : Bool)
          → b ≡ (
              is_some (file w₁.link.tree inbox_new name)
              || is_some (file w₁.link.tree inbox_cur name))
          → unless_answered s fields cap b c name w₁ ≡ (ok v, w')
          → Round v w₁ w'
      by_answer w₁ true a q = Answered-Round name w₁ w' v (sym a) (unfold unless_answered in q)
      by_answer w₁ false a q = unanswered-Round c name w₁ w' v q

  pub consider-Round :
      (c : Choice) (name : Text) (w w' : Work) (v : Verdict)
      → consider s fields cap c name w ≡ (ok v, w')
      → Round v w w'
  consider-Round c name w w' v h =
      let w₁ = finish_all s fields cap c.finishing w in
      Round-after v (finish_all-Onward s fields cap c.finishing w) (
        unless_skipped-Round (not (valid_request_name name) || has_key name w₁.drainer.inflight) c
          name w₁ w' v (unfold consider in h))
