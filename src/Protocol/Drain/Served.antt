-- ===== src/Protocol/Drain/Served.antt =====
-- What RunOnce (internal/protocol/dispatch.go) has done when it returns no error.
use mathlib.Core.Bool.{false≢true}
use iceclimber.Common.{
  ℕ, zero, suc, ◌≡◌, refl, sym, ap, subst, ◌∙◌, inl, inr, true, Option, none, some, [], AnyOf,
}
use iceclimber.Common.Result.{Result, ok, err}
use iceclimber.Common.Text.{Text}
use iceclimber.Common.Boxes.{is_some, lookup}
use iceclimber.Protocol.Names.{valid_request_name}
use iceclimber.Protocol.Keys.{KeyFields}
use iceclimber.Protocol.Mail.{outbox_new, FsError, Link, ◌>>◌}
use iceclimber.Protocol.Mail.Laws.{file}
use iceclimber.Protocol.Mail.Untouched.{Leaves-bind}
use iceclimber.Protocol.Dispatch.{Server, gc, recover}
use iceclimber.Protocol.Dispatch.Recovery.{Answered}
use iceclimber.Protocol.Dispatch.Queued.{gc-Untouched, recover-Untouched}
use iceclimber.Protocol.Pool.{pool_size}
use iceclimber.Protocol.Drain.{Job, Work, drain_new, err_or}
use iceclimber.Protocol.Drain.Passes.{
  Pass, pass, settle, after_pass, end_with, new_work, passes, drain_after, run_once,
}
use iceclimber.Protocol.Drain.Onward.{Tracked, Onward}
use iceclimber.Protocol.Drain.Onward.Finish.{wait_all-Onward}
use iceclimber.Protocol.Drain.Onward.Loop.{drain_new-Round}
use iceclimber.Protocol.Drain.Guards.{
  Guards, Pooled, Idle-Pooled, pool_size_pos, Idle, wait_all-Idle,
}
use iceclimber.Protocol.Drain.Guards.Rounds.{drain_new-Pooled}
use iceclimber.Protocol.Drain.Emptied.{drain_new-Cleared}

err_or-ok :
    (f : Option FsError) (r : Result {0, 0} FsError Unit) (u : Unit {0})
    → err_or f r ≡ ok u
    → (f ≡ none) × (r ≡ ok u)
unfolding err_or
err_or-ok none r u h = (refl, h)
err_or-ok (some e) r u h = absurd (cc)

pair-inner :
    {A B : Type 0} {a a' : A} {b b' : B}
    → ◌≡◌ {A = Option (A × B)} (some (a, b)) (some (a', b'))
    → (a ≡ a') × (b ≡ b')
pair-inner {A} {B} {a} {a'} {b} {b'} h = (ap first h, ap second h)
  where
    first : Option (A × B) → A
    first none = a
    first (some (x, y)) = x

    second : Option (A × B) → B
    second none = b
    second (some (x, y)) = y

-- What an ending without an error says of the state that it leaves.
end_with-ok :
    (r : Result {0, 0} FsError Unit) (v w' : Work) (u : Unit {0})
    → end_with r v ≡ some (ok u, w')
    → (v ≡ w') × (v.failure ≡ none) × (r ≡ ok u)
end_with-ok r v w' u h =
    let (e, same) = pair-inner h in
    let (calm, passed) = err_or-ok v.failure r u e in (same, calm, passed)

module _ (s : Server) (fields : Text → KeyFields) (concurrency : ℕ) (schedule : ℕ → Pass) where
  drained-Guards :
      (k : ℕ) (w v : Work) (r : Result FsError ℕ)
      → Idle w
      → drain_new s fields (pool_size concurrency) (schedule k).choices w ≡ (r, v)
      → Guards [] v
  drained-Guards k w v r idle p =
      (subst (λ (x : Result FsError ℕ × Work). Pooled (pool_size concurrency) x.1) p
        (drain_new-Pooled s fields (pool_size concurrency) (pool_size_pos concurrency)
          (schedule k).choices w (Idle-Pooled (pool_size concurrency) w idle))).0

  abbrev Answers : Text → Work → Type 0
  Answers name w = (file w.link.tree outbox_new name ≡ none) × Answered w.link.tree name

  -- The last pass has submitted nothing: the tracked request is answered.
  last-Served :
      (k : ℕ) (w v : Work) (name : Text)
      → Idle w
      → Tracked name w
      → valid_request_name name ≡ true
      → drain_new s fields (pool_size concurrency) (schedule k).choices w ≡ (ok 0, v)
      → (settle s fields concurrency schedule k v).failure ≡ none
      → Answers name (settle s fields concurrency schedule k v)
  last-Served k w v name idle tracked valid p calm =
      elim (drain_new-Cleared s fields (pool_size concurrency) (schedule k).choices w v idle p) [
        | inl (x, f) ↦ absurd (let g = later.fails x f in cc)
        | inr (_, clear) ↦
            let gone = later.gone name (clear name valid) in (gone, by_case gone kept)
      ]
    where
      after : Work
      after = settle s fields concurrency schedule k v

      later : Onward v after
      later = wait_all-Onward s fields (pool_size concurrency) (schedule k).last v

      kept : Tracked name after
      kept = later.keeps name (
          (drain_new-Round s fields (pool_size concurrency) (schedule k).choices 0 w v p).0.keeps
            name tracked)

      none_run : after.jobs ≡ []
      none_run =
          (wait_all-Idle s fields (pool_size concurrency) (schedule k).last v
            (drained-Guards k w v _ idle p)).0

      by_case :
          file after.link.tree outbox_new name ≡ none
          → Tracked name after
          → Answered after.link.tree name
      by_case gone (inl there) = absurd (false≢true (sym (ap is_some gone) ∙ there))
      by_case gone (inr (inl a)) = a
      by_case gone (inr (inr (inl runs))) =
          absurd (subst (AnyOf (λ (j : Job). j.worker.name ≡ name)) none_run runs)
      by_case gone (inr (inr (inr (x, f)))) = absurd (cc)

  passes-Served :
      (fuel k : ℕ) (w w' : Work) (u : Unit {0}) (name : Text)
      → Idle w
      → Tracked name w
      → valid_request_name name ≡ true
      → passes s fields concurrency schedule fuel k w ≡ some (ok u, w')
      → Answers name w'
  unfolding passes
  passes-Served zero k w w' u name idle tracked valid h = absurd (cc)
  passes-Served (suc fuel) k w w' u name idle tracked valid h =
      go (pass s fields concurrency schedule k w) refl
        (λ v i t. passes-Served fuel (suc k) v w' u name i t valid) h
    where
      go :
          (r : Result FsError ℕ × Work)
          → drain_new s fields (pool_size concurrency) (schedule k).choices w ≡ r
          → ((v : Work)
              → Idle v
              → Tracked name v
              → passes s fields concurrency schedule fuel (suc k) v ≡ some (ok u, w')
              → Answers name w')
          → after_pass s fields concurrency schedule
              (passes s fields concurrency schedule fuel (suc k))
              k
              r
            ≡ some (ok u, w')
          → Answers name w'
      go (err x, v) p ih q =
          let (_, _, z) = end_with-ok (err x) (settle s fields concurrency schedule k v) w' u q in
          absurd (cc)
      go (ok zero, v) p ih q =
          let (same, calm, _) =
            end_with-ok (ok tt) (settle s fields concurrency schedule k v) w' u q in
          subst (Answers name) same (last-Served k w v name idle tracked valid p calm)
      go (ok (suc m), v) p ih q =
          let (o, _) =
            drain_new-Round s fields (pool_size concurrency) (schedule k).choices (suc m) w v p in
          let o' = wait_all-Onward s fields (pool_size concurrency) (schedule k).last v in
          ih (settle s fields concurrency schedule k v)
            (wait_all-Idle s fields (pool_size concurrency) (schedule k).last v
              (drained-Guards k w v _ idle p))
            (o'.keeps name (o.keeps name tracked)) q

  drain_after-Served :
      (fuel : ℕ) (r : Result {0, 0} FsError Unit × Link) (w' : Work) (u : Unit {0}) (name : Text)
      → is_some (file r.1.tree outbox_new name) ≡ true
      → valid_request_name name ≡ true
      → drain_after s fields concurrency schedule fuel r ≡ some (ok u, w')
      → Answers name w'
  unfolding drain_after
  drain_after-Served fuel (err e, l) w' u name there valid h =
      let (z, _) = pair-inner h in absurd (cc)
  drain_after-Served fuel (ok v, l) w' u name there valid h =
      passes-Served fuel 0 (new_work l) w' u name (refl, refl) (inl there) valid h

  -- When RunOnce returns no error, every file that was in outbox/new when it was called, under a name
  -- that validRequestName accepts, has been taken out of outbox/new and has its response in the inbox:
  -- those that wait for a busy key are served in a later pass, in whatever order the workers finish.
  pub run_once-Served :
      (fuel retention : ℕ) (l : Link) (w' : Work) (u : Unit {0}) (name : Text)
      → is_some (file l.tree outbox_new name) ≡ true
      → valid_request_name name ≡ true
      → run_once s fields concurrency schedule fuel retention l ≡ some (ok u, w')
      → (file w'.link.tree outbox_new name ≡ none) × Answered w'.link.tree name
  unfolding run_once
  run_once-Served fuel retention l w' u name there valid h =
      let t : (((gc s retention >> recover s) l).1.tree outbox_new) ≡ l.tree outbox_new =
        Leaves-bind outbox_new (gc s retention) (λ _. recover s) (gc-Untouched s retention)
          (λ _. recover-Untouched s) l in
      drain_after-Served fuel ((gc s retention >> recover s) l) w' u name
        (ap (λ b. is_some (lookup name b)) t ∙ there) valid h
