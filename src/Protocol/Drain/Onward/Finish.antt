-- ===== src/Protocol/Drain/Onward/Finish.antt =====
-- A worker that finishes (internal/protocol/dispatch.go) keeps every request tracked.
use iceclimber.Common.{
  ℕ, zero, suc, ◌≡◌, subst, inl, inr, List, [], ◌∷◌, ◌++◌, arith, length, AnyOf, ltb, Option-cases,
  Bool-cases,
}
use iceclimber.Common.Text.{Text}
use iceclimber.Protocol.Keys.{KeyFields}
use iceclimber.Protocol.Dispatch.{Server, service_cur_data}
use iceclimber.Protocol.Dispatch.Recovery.{Answered}
use iceclimber.Protocol.Dispatch.Queued.{service_cur_data-Untouched}
use iceclimber.Protocol.Drain.{
  Job, Work, Choice, pull, finish_job, finish_at, finish_all, finish_rest, wait_all, wait_slot,
}
use iceclimber.Protocol.Drain.Onward.{Tracked, Onward, Onward-refl, Onward-trans}
use iceclimber.Protocol.Drain.Onward.Service.{
  pull-split, AnyOf-mid, service-Answered, service-done, fail-some,
}

module _ (s : Server) (fields : Text → KeyFields) (cap : ℕ) where
  finish_job-keeps :
      (before after : List Job) (j : Job) (w : Work) (k : Text)
      → w.jobs ≡ before ++ j ∷ after
      → Tracked k w
      → Tracked k (finish_job s fields cap (before, j, after) w)
  unfolding finish_job
  finish_job-keeps before after j w k e (inl new) =
      inl (rw (service_cur_data-Untouched s j.worker.name j.body w.link) new)
  finish_job-keeps before after j w k e (inr (inl a)) =
      inr (inl (service-Answered s j.worker.name j.body w.link k a))
  finish_job-keeps before after j w k e (inr (inr (inl runs))) =
      elim (AnyOf-mid (λ x. x.worker.name ≡ k) before after j
        (subst (AnyOf (λ (x : Job). x.worker.name ≡ k)) e runs)) [
          | inl q ↦ elim (service-done s j.worker.name j.body w) [
            | inl a ↦
                inr (
                  inl
                    (subst (Answered (service_cur_data s j.worker.name j.body w.link).1.tree) q a))
            | inr f ↦ inr (inr (inr f))
          ]
          | inr p ↦ inr (inr (inl p))
        ]
  finish_job-keeps before after j w k e (inr (inr (inr (x, f)))) =
      inr (inr (inr (x, rw f (fail-some (service_cur_data s j.worker.name j.body w.link).0 x))))

  finish_job-Onward :
      (before after : List Job) (j : Job) (w : Work)
      → w.jobs ≡ before ++ j ∷ after
      → Onward w (finish_job s fields cap (before, j, after) w)
  finish_job-Onward before after j w e =
      let t = service_cur_data-Untouched s j.worker.name j.body w.link in
      record {
        less = unfold finish_job in rw t (omega arith);
        gone = λ k h. unfold finish_job in rw t h;
        keeps = λ k. finish_job-keeps before after j w k e;
        fails = λ x f.
            unfold finish_job in
            rw f (fail-some (service_cur_data s j.worker.name j.body w.link).0 x);
      }

  pub finish_at-Onward : (i : ℕ) (w : Work) → Onward w (finish_at s fields cap i w)
  finish_at-Onward i w = elim (Option-cases (pull i w.jobs)) [
    | inl e ↦ unfold finish_at in rw (e, finish_at) (Onward-refl w)
    | inr ((before, j, after), e) ↦
        unfold finish_at in
        rw (e, finish_at)
          (finish_job-Onward before after j w (pull-split i w.jobs before after j e))
  ]

  pub finish_all-Onward : (is : List ℕ) (w : Work) → Onward w (finish_all s fields cap is w)
  unfolding finish_all
  finish_all-Onward [] w = Onward-refl w
  finish_all-Onward (i ∷ is) w =
      Onward-trans (finish_at-Onward i w) (finish_all-Onward is (finish_at s fields cap i w))

  finish_rest-Onward : (n : ℕ) (w : Work) → Onward w (finish_rest s fields cap n w)
  unfolding finish_rest
  finish_rest-Onward zero w = Onward-refl w
  finish_rest-Onward (suc n) w =
      Onward-trans (finish_at-Onward 0 w) (finish_rest-Onward n (finish_at s fields cap 0 w))

  pub wait_all-Onward : (is : List ℕ) (w : Work) → Onward w (wait_all s fields cap is w)
  unfolding wait_all
  wait_all-Onward is w = Onward-trans (finish_all-Onward is w) (
      finish_rest-Onward (length (finish_all s fields cap is w).jobs)
        (finish_all s fields cap is w))

  pub wait_slot-Onward : (c : Choice) (w : Work) → Onward w (wait_slot s fields cap c w)
  unfolding wait_slot
  wait_slot-Onward c w = elim (Bool-cases (ltb (length w.jobs) cap)) [
    | inl e ↦ rw e (Onward-refl w)
    | inr e ↦ rw e (finish_at-Onward c.frees w)
  ]
