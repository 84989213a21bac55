-- ===== src/Protocol/Drain/Unstarted.antt =====
-- A round of drainNew (internal/protocol/dispatch.go) with no worker: a request that is not answered is
-- submitted, unless a failure stops the pass.
use iceclimber.Common.{
  ℕ, ◌≡◌, ◌≢◌, refl, sym, ap, ◌∙◌, ◌⊎◌, inl, inr, Bool, true, false, Option, none, some, List, [],
  ◌∷◌, ltb, length, Option-cases, Bool-cases,
}
use iceclimber.Common.Result.{Result, ok, err, ok-injective}
use iceclimber.Common.Text.{Text, text_eq}
use iceclimber.Protocol.Names.{valid_request_name}
use iceclimber.Protocol.Keys.{KeyFields, resource_key}
use iceclimber.Protocol.Mail.{outbox_new, outbox, FsError, Link, pick_up}
use iceclimber.Protocol.Mail.Laws.{file}
use iceclimber.Protocol.Dispatch.{Server}
use iceclimber.Protocol.Pool.{reserve, Drainer, new_drainer}
use iceclimber.Protocol.Drain.{
  Job, Work, Choice, pull, finish_at, finish_all, Verdict, went_on, sent, stopped, give_up,
  launch_with, launch, notices_failure, wait_slot, acquire, reserve_and_send,
}
use iceclimber.Protocol.Drain.Guards.{Idle}

-- After a round with no worker: it submitted its request; or it was stopped by a failure; or it has
-- no worker still, and its request is not in outbox/new.
abbrev pub Quiet : Text → Work → Work → Verdict → Type 0
Quiet name w w' v =
    (v ≡ sent)
    ⊎ ((e : FsError) × (v ≡ stopped) × (w'.failure ≡ some e))
    ⊎ ((v ≡ went_on)
        × (w'.jobs ≡ [])
        × (w'.drainer ≡ w.drainer)
        × (w'.failure ≡ w.failure)
        × (valid_request_name name ≡ true → file w'.link.tree outbox_new name ≡ none))

module _ (s : Server) (fields : Text → KeyFields) (cap : ℕ) where
  pub finish_at_idle : (i : ℕ) (w : Work) → w.jobs ≡ [] → finish_at s fields cap i w ≡ w
  finish_at_idle i w e = elim (Option-cases (pull i w.jobs)) [
    | inl f ↦ unfold finish_at in rw (f, finish_at)
    | inr (found, f) ↦ absurd (nothing i found (sym (ap (pull i) e) ∙ f))
  ]
    where
      nothing : (i : ℕ) (found : List Job × Job × List Job) → pull i [] ≡ some found → ⊥
      nothing i found q = unfold pull in cc

  pub finish_all_idle : (is : List ℕ) (w : Work) → w.jobs ≡ [] → finish_all s fields cap is w ≡ w
  unfolding finish_all
  finish_all_idle [] w e = refl
  finish_all_idle (i ∷ is) w e =
      ap (finish_all s fields cap is) (finish_at_idle i w e) ∙ finish_all_idle is w e

  wait_slot_idle : (c : Choice) (w : Work) → w.jobs ≡ [] → wait_slot s fields cap c w ≡ w
  unfolding wait_slot
  wait_slot_idle c w e = elim (Bool-cases (ltb (length w.jobs) cap)) [
    | inl f ↦ rw f
    | inr f ↦ rw f (finish_at_idle c.frees w e)
  ]

  launch-sent : (j : Job) (w w' : Work) (v : Verdict) → launch j w ≡ (ok v, w') → v ≡ sent
  unfolding launch
  launch-sent j w w' v h = go (pick_up outbox j.worker.name w.link) h
    where
      go : (r : Result {0, 0} FsError Unit × Link) → launch_with r j w ≡ (ok v, w') → v ≡ sent
      go (ok u, l) q =
          unfold launch_with in
          sym (
            ok-injective
              (ap (λ (r : Result FsError Verdict × Work). r.0) (unfold launch_with in q)))
      go (err e, l) q = absurd (unfold launch_with in cc)

  -- With no failure there is nothing to notice, and the request is submitted.
  acquire-sent :
      (c : Choice) (j : Job) (w w' : Work) (v : Verdict)
      → w.jobs ≡ []
      → acquire s fields cap c j w ≡ (ok v, w')
      → (v ≡ sent) ⊎ ((e : FsError) × (v ≡ stopped) × (w'.failure ≡ some e))
  unfolding acquire give_up
  acquire-sent c j w w' v e h = elim (Bool-cases (notices_failure c w)) [
    | inl f ↦
        let (x, g) = noticed c w.failure (unfold notices_failure in f) in
        let kept : w'.failure ≡ w.failure =
          sym (ap (λ (r : Result FsError Verdict × Work). r.1.failure) (rw f at h)) in
        inr (
          x,
          sym (ok-injective (ap (λ (r : Result FsError Verdict × Work). r.0) (rw f at h))),
          kept ∙ g,
        )
    | inr f ↦
        let f' : notices_failure c (wait_slot s fields cap c w) ≡ false =
          ap (notices_failure c) (wait_slot_idle c w e) ∙ f in
        inl (launch-sent j (wait_slot s fields cap c w) w' v (rw (f, f') at h))
  ]
    where
      noticed :
          (c : Choice) (o : Option FsError)
          → (elim o as (λ _. Bool) [ none ↦ false | some _ ↦ c.notices ]) ≡ true
          → (x : FsError) × (o ≡ some x)
      noticed c none q = absurd (cc)
      noticed c (some x) q = (x, refl)

  pub reserve_and_send-Quiet :
      (c : Choice) (name body : Text) (w w' : Work) (v : Verdict)
      → Idle w
      → reserve_and_send s fields cap c name body w ≡ (ok v, w')
      → Quiet name w w' v
  reserve_and_send-Quiet c name body w w' v (none_run, free) h =
      go (reserve name key w.drainer) (ap (reserve name key) free) (unfold reserve_and_send in h)
    where
      key : Text
      key = resource_key (fields body)

      j : Job
      j = record { worker = record { name = name; key = key }; body = body }

      taken : reserve name key new_drainer ≢ none
      taken q = elim (Bool-cases (text_eq key [])) [
        | inl e ↦ absurd (unfold reserve in cc (rw (e, reserve) at q))
        | inr e ↦ absurd (unfold reserve in cc (rw (e, reserve) at q))
      ]

      go :
          (o : Option Drainer)
          → o ≡ reserve name key new_drainer
          → (elim o as (λ _. Result FsError Verdict × Work) [
            | none ↦ (ok went_on, w)
            | some d ↦ acquire s fields cap c j (record w { drainer = d })
          ])
            ≡ (ok v, w')
          → Quiet name w w' v
      go none e q = absurd (taken (sym e))
      go (some d) e q = elim (acquire-sent c j (record w { drainer = d }) w' v none_run q) [
        | inl a ↦ inl a
        | inr a ↦ inr (inl a)
      ]
