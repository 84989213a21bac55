-- ===== src/Protocol/Drain/Ends.antt =====
-- The loop of RunOnce (internal/protocol/dispatch.go) ends.
use iceclimber.Common.{ℕ, zero, suc, ◌<◌, ◌≡◌, refl, ap, some, arith, length}
use iceclimber.Common.Result.{Result, ok, err}
use iceclimber.Common.Text.{Text}
use iceclimber.Protocol.Keys.{KeyFields}
use iceclimber.Protocol.Mail.{outbox_new, FsError, Link, ◌>>◌}
use iceclimber.Protocol.Mail.Untouched.{Leaves-bind}
use iceclimber.Protocol.Dispatch.{Server, gc, recover}
use iceclimber.Protocol.Dispatch.Queued.{gc-Untouched, recover-Untouched}
use iceclimber.Protocol.Pool.{pool_size}
use iceclimber.Protocol.Drain.{Work, drain_new}
use iceclimber.Protocol.Drain.Passes.{
  Pass, Ended, pass, settle, after_pass, new_work, passes, drain_after, run_once,
}
use iceclimber.Protocol.Drain.Onward.{queued}
use iceclimber.Protocol.Drain.Onward.Finish.{wait_all-Onward}
use iceclimber.Protocol.Drain.Onward.Loop.{drain_new-Round}

abbrev pub Ends : Ended → Type 0
Ends o = (r : Result {0, 0} FsError Unit × Work) × (o ≡ some r)

module _ (s : Server) (fields : Text → KeyFields) (concurrency : ℕ) (schedule : ℕ → Pass) where
  passes-Ends :
      (fuel k : ℕ) (w : Work)
      → queued w < fuel
      → Ends (passes s fields concurrency schedule fuel k w)
  unfolding passes
  passes-Ends zero k w h = absurd (omega arith)
  passes-Ends (suc fuel) k w h =
      go (pass s fields concurrency schedule k w) refl (λ w' lt. passes-Ends fuel (suc k) w' lt)
    where
      go :
          (r : Result FsError ℕ × Work)
          → drain_new s fields (pool_size concurrency) (schedule k).choices w ≡ r
          → ((w' : Work)
              → queued w' < fuel
              → Ends (passes s fields concurrency schedule fuel (suc k) w'))
          → Ends (
              after_pass s fields concurrency schedule
                (passes s fields concurrency schedule fuel (suc k))
                k
                r)
      go (err e, w') p ih = (_, refl)
      go (ok zero, w') p ih = (_, refl)
      go (ok (suc m), w') p ih =
          let (o, n) =
            drain_new-Round s fields (pool_size concurrency) (schedule k).choices (suc m) w w' p in
          let o' = wait_all-Onward s fields (pool_size concurrency) (schedule k).last w' in
          ih (settle s fields concurrency schedule k w') (let less = o'.less in omega arith)

  drain_after-Ends :
      (fuel : ℕ) (r : Result {0, 0} FsError Unit × Link)
      → length (r.1.tree outbox_new) < fuel
      → Ends (drain_after s fields concurrency schedule fuel r)
  unfolding drain_after
  drain_after-Ends fuel (err e, l) h = ((err e, new_work l), refl)
  drain_after-Ends fuel (ok u, l) h = passes-Ends fuel 0 (new_work l) h

  -- While nobody but the host's own drain and workers writes to the tree, so that no request arrives
  -- in outbox/new during the call, RunOnce ends: its loop makes at most one pass more than there are
  -- files in outbox/new when it is called, whatever calls fail and in whatever order the workers
  -- finish.
  pub run_once-Ends :
      (fuel retention : ℕ) (l : Link)
      → length (l.tree outbox_new) < fuel
      → (r : Result {0, 0} FsError Unit × Work) × (run_once s fields concurrency schedule fuel
            retention l
          ≡ some r)
  unfolding run_once
  run_once-Ends fuel retention l h =
      let t : (((gc s retention >> recover s) l).1.tree outbox_new) ≡ l.tree outbox_new =
        Leaves-bind outbox_new (gc s retention) (λ _. recover s) (gc-Untouched s retention)
          (λ _. recover-Untouched s) l in
      drain_after-Ends fuel ((gc s retention >> recover s) l)
        (let e = ap (λ b. length b) t in omega arith)
