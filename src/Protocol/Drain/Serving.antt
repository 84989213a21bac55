-- ===== src/Protocol/Drain/Serving.antt =====
-- Serve of internal/protocol/dispatch.go without its heartbeat: recovery, and then cycles of gc and
-- drainNew over one pool of workers. What a select may take is a choice.
pub mod Manned
use iceclimber.Common.{ℕ, Bool, true, false, Option, none, some, List, [], ◌∷◌, if◌then◌else◌}
use iceclimber.Common.Result.{Result, ok, err}
use iceclimber.Common.Text.{Text}
use iceclimber.Protocol.Keys.{KeyFields}
use iceclimber.Protocol.Mail.{FsError, Link}
use iceclimber.Protocol.Dispatch.{Server, gc, recover}
use iceclimber.Protocol.Pool.{pool_size}
use iceclimber.Protocol.Drain.{
  Work, Choice, Act, ◌>>=◌, ◌>>◌, pure, on_link, finish_all, wait_all, drain_new,
}
use iceclimber.Protocol.Drain.Passes.{new_work}

-- One cycle: the choices of its drain, the workers that finish before the next tick, whether the
-- context of the caller is done by then, and, where the session ends in this cycle, the order in
-- which the workers finish.
pub record Cycle : Type 0 where
  pub choices : List Choice
  pub meanwhile : List ℕ
  pub is_done : Bool
  pub last : List ℕ

pub data Reason : Type 0 where
  failed : FsError → Reason
  context_done : Reason

-- The session goes on after the cycles, or it has returned.
pub data Session : Type 0 where
  serving : Work → Session
  returned : Reason → Work → Session

-- errOr of an error of the drain
unfoldable pub reason_of : FsError → Option FsError → Reason
reason_of e none = failed e
reason_of e (some worker) = failed worker

module _ (s : Server) (fields : Text → KeyFields) (concurrency retention : ℕ) where
  -- the deferred cancel and wg.Wait
  unfoldable pub leave : Reason → Cycle → Work → Session
  unfolding wait_all
  leave r c w = returned r (wait_all s fields (pool_size concurrency) c.last w)

  unfoldable pub cycle_act : Cycle → Act ℕ
  unfolding on_link gc drain_new
  cycle_act c = on_link (gc s retention) >> drain_new s fields (pool_size concurrency) c.choices

  -- The select after a drain. An error in errCh that is passed over here for the tick is the one that
  -- the next cycle finds.
  unfoldable pub after_drain : (Work → Session) → Cycle → Result FsError ℕ × Work → Session
  unfolding leave reason_of finish_all
  after_drain go_on c (err e, w) = leave (reason_of e w.failure) c w
  after_drain go_on c (ok n, w) =
      let w' = finish_all s fields (pool_size concurrency) c.meanwhile w in
      if c.is_done then leave context_done c w' else go_on w'

  -- The check of workCtx at the top of the loop.
  unfoldable pub start_cycle : (Work → Session) → Cycle → Option FsError → Work → Session
  unfolding leave after_drain cycle_act
  start_cycle go_on c (some e) w = leave (failed e) c w
  start_cycle go_on c none w = after_drain go_on c (cycle_act c w)

  unfoldable pub serve_cycles : List Cycle → Work → Session
  unfolding start_cycle
  serve_cycles [] w = serving w
  serve_cycles (c ∷ cs) w = start_cycle (serve_cycles cs) c w.failure w

  unfoldable pub serve_after : List Cycle → Result {0, 0} FsError Unit × Link → Session
  unfolding serve_cycles
  serve_after cs (err e, l) = returned (failed e) (new_work l)
  serve_after cs (ok _, l) = serve_cycles cs (new_work l)

  unfoldable pub serve : List Cycle → Link → Session
  unfolding recover serve_after
  serve cs l = serve_after cs (recover s l)
