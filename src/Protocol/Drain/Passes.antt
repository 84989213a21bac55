-- ===== src/Protocol/Drain/Passes.antt =====
-- RunOnce of internal/protocol/dispatch.go. Its loop takes fuel; `none` means that the fuel ran out.
use iceclimber.Common.{ℕ, zero, suc, Option, none, some, []}
use iceclimber.Common.Result.{Result, ok, err}
use iceclimber.Common.Text.{Text}
use iceclimber.Common.{List}
use iceclimber.Protocol.Keys.{KeyFields}
use iceclimber.Protocol.Mail.{FsError, Link, ◌>>◌}
use iceclimber.Protocol.Dispatch.{Server, gc, recover}
use iceclimber.Protocol.Pool.{new_drainer, pool_size}
use iceclimber.Protocol.Drain.{Work, Choice, wait_all, err_or, drain_new}

-- The choices of a pass, and the order in which wg.Wait sees the workers finish.
pub record Pass : Type 0 where
  pub choices : List Choice
  pub last : List ℕ

abbrev pub Ended : Type 0
Ended = Option (Result {0, 0} FsError Unit × Work)

-- newDrainer
abbrev pub new_work : Link → Work
new_work l = record { drainer = new_drainer; jobs = []; failure = none; link = l }

abbrev pub end_with : Result {0, 0} FsError Unit → Work → Ended
end_with r w = some (err_or w.failure r, w)

module _ (s : Server) (fields : Text → KeyFields) (concurrency : ℕ) (schedule : ℕ → Pass) where
  abbrev pub pass : ℕ → Work → Result FsError ℕ × Work
  pass k = drain_new s fields (pool_size concurrency) (schedule k).choices

  abbrev pub settle : ℕ → Work → Work
  settle k = wait_all s fields (pool_size concurrency) (schedule k).last

  -- What follows a pass: the loop ends with the wait, or goes on after it.
  abbrev pub after_pass : (Work → Ended) → ℕ → Result FsError ℕ × Work → Ended
  after_pass go_on k (err e, w) = end_with (err e) (settle k w)
  after_pass go_on k (ok zero, w) = end_with (ok tt) (settle k w)
  after_pass go_on k (ok (suc n), w) = go_on (settle k w)

  -- The loop, from its pass number k.
  unfoldable pub passes : ℕ → ℕ → Work → Ended
  unfolding drain_new wait_all err_or
  passes zero k w = none
  passes (suc fuel) k w = after_pass (passes fuel (suc k)) k (pass k w)

  unfoldable pub drain_after : ℕ → Result {0, 0} FsError Unit × Link → Ended
  unfolding passes
  drain_after fuel (err e, l) = some (err e, new_work l)
  drain_after fuel (ok _, l) = passes fuel 0 (new_work l)

  unfoldable pub run_once : ℕ → ℕ → Link → Ended
  unfolding drain_after gc recover
  run_once fuel retention l = drain_after fuel ((gc s retention >> recover s) l)
