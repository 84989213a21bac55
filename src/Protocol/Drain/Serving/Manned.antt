-- ===== src/Protocol/Drain/Serving/Manned.antt =====
-- The workers of a session of Serve (internal/protocol/dispatch.go).
use iceclimber.Common.{ℕ, refl, inl, inr, Option, none, some, List, [], ◌∷◌, Bool-cases}
use iceclimber.Common.Result.{Result, ok, err}
use iceclimber.Common.Text.{Text}
use iceclimber.Protocol.Keys.{KeyFields}
use iceclimber.Protocol.Mail.{FsError, Link}
use iceclimber.Protocol.Dispatch.{Server, gc, recover}
use iceclimber.Protocol.Pool.{pool_size}
use iceclimber.Protocol.Drain.{Work, on_link, drain_new, finish_all}
use iceclimber.Protocol.Drain.Passes.{new_work}
use iceclimber.Protocol.Drain.Guards.{
  Pooled, Idle, Idle-Pooled, pool_size_pos, wait_all-Idle, finish_all-Guards, finish_all-length,
}
use iceclimber.Protocol.Drain.Guards.Rounds.{Turns-bind, on_link-Pooled, drain_new-Pooled}
use iceclimber.Protocol.Drain.Serving.{
  Cycle, Reason, failed, Session, serving, returned, leave, reason_of, cycle_act, after_drain,
  start_cycle, serve_cycles, serve_after, serve,
}

-- A session that goes on has its guards and at most `cap` workers; one that has returned has no
-- worker, and no guard.
abbrev pub Manned : ℕ → Session → Type 0
Manned cap (serving w) = Pooled cap w
Manned cap (returned r w) = Idle w

module _ (s : Server) (fields : Text → KeyFields) (concurrency retention : ℕ) where
  abbrev cap : ℕ
  cap = pool_size concurrency

  leave-Manned :
      (r : Reason) (c : Cycle) (w : Work)
      → Pooled cap w
      → Manned cap (leave s fields concurrency retention r c w)
  unfolding leave
  leave-Manned r c w g = wait_all-Idle s fields cap c.last w g.0

  cycle_act-Pooled :
      (c : Cycle) (w : Work)
      → Pooled cap w
      → Pooled cap (cycle_act s fields concurrency retention c w).1
  unfolding cycle_act
  cycle_act-Pooled c =
      Turns-bind (Pooled cap) (Pooled cap) (Pooled cap) (on_link (gc s retention))
        (λ _. drain_new s fields cap c.choices) (on_link-Pooled cap (gc s retention)) (λ w g. g)
        (λ _. drain_new-Pooled s fields cap (pool_size_pos concurrency) c.choices)

  after_drain-Manned :
      (go_on : Work → Session) (c : Cycle) (r : Result FsError ℕ × Work)
      → ((w : Work) → Pooled cap w → Manned cap (go_on w))
      → Pooled cap r.1
      → Manned cap (after_drain s fields concurrency retention go_on c r)
  unfolding after_drain
  after_drain-Manned go_on c (err e, w) next g = leave-Manned (reason_of e w.failure) c w g
  after_drain-Manned go_on c (ok n, w) next g = elim (Bool-cases c.is_done) [
    | inl e ↦ rw e (leave-Manned Reason.context_done c w' g')
    | inr e ↦ rw e (next w' g')
  ]
    where
      w' : Work
      w' = finish_all s fields cap c.meanwhile w

      g' : Pooled cap w'
      g' = (
        finish_all-Guards s fields cap c.meanwhile w g.0,
        finish_all-length s fields cap c.meanwhile w g.1,
      )

  start_cycle-Manned :
      (go_on : Work → Session) (c : Cycle) (f : Option FsError) (w : Work)
      → ((v : Work) → Pooled cap v → Manned cap (go_on v))
      → Pooled cap w
      → Manned cap (start_cycle s fields concurrency retention go_on c f w)
  unfolding start_cycle
  start_cycle-Manned go_on c none w next g =
      after_drain-Manned go_on c (cycle_act s fields concurrency retention c w) next
        (cycle_act-Pooled c w g)
  start_cycle-Manned go_on c (some e) w next g = leave-Manned (failed e) c w g

  serve_cycles-Manned :
      (cs : List Cycle) (w : Work)
      → Pooled cap w
      → Manned cap (serve_cycles s fields concurrency retention cs w)
  unfolding serve_cycles
  serve_cycles-Manned [] w g = g
  serve_cycles-Manned (c ∷ cs) w g =
      start_cycle-Manned (serve_cycles s fields concurrency retention cs) c w.failure w
        (λ v. serve_cycles-Manned cs v) g

  -- After any cycles of a session, at most as many workers run as the pool has slots, no two of them
  -- have the same name or the same resource key (an empty one is none), and the guards hold exactly
  -- what runs. When the session returns, for whatever reason, no worker is left, and no guard.
  pub serve-Manned :
      (cs : List Cycle) (l : Link)
      → Manned (pool_size concurrency) (serve s fields concurrency retention cs l)
  unfolding serve
  serve-Manned cs l = go (recover s l)
    where
      go :
          (r : Result {0, 0} FsError Unit × Link)
          → Manned (pool_size concurrency) (serve_after s fields concurrency retention cs r)
      go (err e, l') = unfold serve_after in (refl, refl)
      go (ok u, l') =
          unfold serve_after in
          serve_cycles-Manned cs (new_work l') (Idle-Pooled cap (new_work l') (refl, refl))
