-- ===== src/Protocol/Drain/Onward/Launch.antt =====
-- A reserved request that gets a slot (internal/protocol/dispatch.go) leaves outbox/new.
use iceclimber.Common.{
  ℕ, ◌+◌, ◌≤◌, ◌≡◌, refl, sym, ap, subst, ◌∙◌, ◌⊎◌, inl, inr, true, none, some, ◌∷◌, arith,
  if◌then◌else◌, Bool-cases,
}
use iceclimber.Common.Result.{Result, ok, err, ok-injective}
use iceclimber.Common.Text.{Text, text_eq, text_eq_iff}
use iceclimber.Common.Boxes.{is_some, lookup-remove, remove}
use iceclimber.Protocol.Keys.{KeyFields}
use iceclimber.Protocol.Mail.{
  outbox_new, inbox_new, inbox_cur, outbox, FsError, Tree, Link, pick_up,
}
use iceclimber.Protocol.Mail.Laws.{file}
use iceclimber.Protocol.Dispatch.{Server}
use iceclimber.Protocol.Dispatch.Recovery.{Answered}
use iceclimber.Protocol.Drain.{
  Job, Work, Choice, Verdict, went_on, sent, stopped, give_up, launch_with, launch, notices_failure,
  wait_slot, acquire,
}
use iceclimber.Protocol.Drain.Pickup.{Failed, Moved, pick_up-cases}
use iceclimber.Protocol.Drain.Onward.{
  queued, Tracked, Onward, Onward-trans, Onward-same, length-remove_found,
}
use iceclimber.Protocol.Drain.Onward.Finish.{wait_slot-Onward}

abbrev pub cost : Verdict → ℕ
cost sent = 1
cost went_on = 0
cost stopped = 0

abbrev pub Round : Verdict → Work → Work → Type 0
Round v w w' = Onward w w' × (cost v + queued w' ≤ queued w)

pub Round-after : {u w w' : Work} (v : Verdict) → Onward u w → Round v w w' → Round v u w'
Round-after v a (b, n) = (Onward-trans a b, omega arith)

pub Round-still : {w w' : Work} (v : Verdict) → cost v ≡ 0 → Onward w w' → Round v w w'
Round-still v e o = (o, rw e (omega arith))

-- A pickup of `name` moves it to the jobs, or its request is answered.
pub pick_up-Onward :
    (name : Text) (w w' : Work) (s : Text)
    → file w.link.tree outbox_new name ≡ some s
    → w'.link.tree outbox_new ≡ remove name (w.link.tree outbox_new)
    → ((k : Text) → Tracked k w → (is_some (file w.link.tree outbox_new k) ≡ true) ⊎ Tracked k w')
    → w'.failure ≡ w.failure
    → Tracked name w'
    → Round sent w w'
pick_up-Onward name w w' s found out others same this = (
  record {
    less =
        let m = length-remove_found name s (w.link.tree outbox_new) found in rw out (omega arith);
    gone = λ k h. rw out (lookup-remove name k (w.link.tree outbox_new) ∙ absent k h);
    keeps = λ k h. elim (others k h) [
      | inl there ↦ elim (Bool-cases (text_eq name k)) [
        | inl e ↦ subst (λ n. Tracked n w') ((text_eq_iff name k).0 e) this
        | inr e ↦
            inl (rw out (ap is_some (lookup-remove name k (w.link.tree outbox_new)) ∙ rw e there))
      ]
      | inr t ↦ t
    ];
    fails = λ e h. same ∙ h;
  },
  let m = length-remove_found name s (w.link.tree outbox_new) found in rw out m,
)
  where
    absent :
        (k : Text)
        → file w.link.tree outbox_new k ≡ none
        → (if text_eq name k then none else file w.link.tree outbox_new k) ≡ none
    absent k h = elim (Bool-cases (text_eq name k)) [ inl e ↦ rw e | inr e ↦ rw e h ]

pub same_answers :
    (t t' : Tree) (k : Text)
    → t' inbox_new ≡ t inbox_new
    → t' inbox_cur ≡ t inbox_cur
    → Answered t k
    → Answered t' k
same_answers t t' k a b h = rw (a, b) h

launch_with-Round :
    (j : Job) (w w' : Work) (v : Verdict) (r : Result {0, 0} FsError Unit × Link)
    → Failed w.link r ⊎ Moved j.worker.name w.link r
    → launch_with r j w ≡ (ok v, w')
    → Round v w w'
unfolding launch_with
launch_with-Round j w w' v (ok u, l) (inl (e, q)) h = absurd (cc)
launch_with-Round j w w' v (err x, l) picked h = absurd (cc)
launch_with-Round j w w' v (ok u, l) (inr (s, _, found, out, new, cur)) h =
    rw (sym (ap (λ (r : Result FsError Verdict × Work). r.1) h)) (
      subst (λ x. Round x w (record w { jobs = j ∷ w.jobs; link = l }))
        (ok-injective (ap (λ (r : Result FsError Verdict × Work). r.0) h))
        (pick_up-Onward j.worker.name w (record w { jobs = j ∷ w.jobs; link = l }) s found out
          others refl (inr (inr (inl (inl refl))))))
  where
    others :
        (k : Text)
        → Tracked k w
        → (is_some (file w.link.tree outbox_new k) ≡ true)
          ⊎ Tracked k (record w { jobs = j ∷ w.jobs; link = l })
    others k (inl there) = inl there
    others k (inr (inl a)) = inr (inr (inl (same_answers w.link.tree l.tree k new cur a)))
    others k (inr (inr (inl runs))) = inr (inr (inr (inl (inr runs))))
    others k (inr (inr (inr f))) = inr (inr (inr (inr f)))

module _ (s : Server) (fields : Text → KeyFields) (cap : ℕ) where
  launch-Round : (j : Job) (w w' : Work) (v : Verdict) → launch j w ≡ (ok v, w') → Round v w w'
  unfolding launch
  launch-Round j w w' v h =
      launch_with-Round j w w' v (pick_up outbox j.worker.name w.link)
        (pick_up-cases j.worker.name w.link) h

  give_up-Round : (j : Job) (w w' : Work) (v : Verdict) → give_up j w ≡ (ok v, w') → Round v w w'
  unfolding give_up
  give_up-Round j w w' v h = rw (sym (ap (λ (r : Result FsError Verdict × Work). r.1) h)) (
      subst (λ x. Round x w (give_up j w).1)
        (ok-injective (ap (λ (r : Result FsError Verdict × Work). r.0) h))
        (Round-still stopped refl (Onward-same w (give_up j w).1 refl refl refl)))

  pub acquire-Round :
      (c : Choice) (j : Job) (w w' : Work) (v : Verdict)
      → acquire s fields cap c j w ≡ (ok v, w')
      → Round v w w'
  unfolding acquire
  acquire-Round c j w w' v h = elim (Bool-cases (notices_failure c w)) [
    | inl e ↦ give_up-Round j w w' v (rw e at h)
    | inr e ↦
        let w₁ = wait_slot s fields cap c w in
        elim (Bool-cases (notices_failure c w₁)) [
          | inl f ↦
              Round-after v (wait_slot-Onward s fields cap c w)
                (give_up-Round j w₁ w' v (rw (e, f) at h))
          | inr f ↦
              Round-after v (wait_slot-Onward s fields cap c w)
                (launch-Round j w₁ w' v (rw (e, f) at h))
        ]
  ]
