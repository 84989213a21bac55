-- ===== src/Protocol/Drain.antt =====
-- internal/protocol/dispatch.go: drainNew with its workers, and RunOnce. A schedule says which
-- workers finish when, and which case a select takes that could take both. A worker's calls are made
-- at once, when it finishes. Nobody else writes to the tree meanwhile, the context of the caller is
-- not cancelled, and how resourceKey reads a request is a parameter.
pub mod Passes
pub mod Pickup
pub mod Onward
pub mod Ends
pub mod Guards
pub mod Unstarted
pub mod Cleared
pub mod Emptied
pub mod Served
pub mod Serving
use iceclimber.Common.{
  ℕ, zero, suc, Bool, true, false, not, ◌||◌, Option, none, some, List, [], ◌∷◌, ◌++◌,
  if◌then◌else◌, ltb, length,
}
use iceclimber.Common.Result.{Result, ok, err}
use iceclimber.Common.Text.{Text}
use iceclimber.Protocol.Names.{valid_request_name}
use iceclimber.Protocol.Keys.{KeyFields, resource_key}
use iceclimber.Protocol.Mail.{outbox_new, outbox, FsError, Link, Call, list, read_file, pick_up}
use iceclimber.Protocol.Dispatch.{Server, service_cur_data, response_exists}
use iceclimber.Protocol.Pool.{Drainer, has_key, reserve, release, Worker}

-- A handler that runs: it holds a slot of `sem`.
pub record Job : Type 0 where
  pub worker : Worker
  pub body : Text

-- `failure` is the error in errCh, if workCtx is cancelled.
pub record Work : Type 0 where
  pub drainer : Drainer
  pub jobs : List Job
  pub failure : Option FsError
  pub link : Link

-- What happens around one name: the workers that finish before it (by their places among those that
-- run, the last one if there are not so many), the worker that frees a slot when all are taken, and
-- whether a cancelled pool is noticed in the select.
pub record Choice : Type 0 where
  pub finishing : List ℕ
  pub frees : ℕ
  pub notices : Bool

abbrev pub calm : Choice
calm = record { finishing = []; frees = 0; notices = false }

abbrev pub Act : Type 0 → Type 0
Act A = Work → Result FsError A × Work

infixl 5 ◌>>=◌ ◌>>◌
abbrev pub ◌>>=◌ : {A B : Type 0} → Act A → (A → Act B) → Act B
◌>>=◌ m f w = let (r, w') = m w in elim r [ ok a ↦ f a w' | err e ↦ (err e, w') ]

abbrev pub ◌>>◌ : {B : Type 0} → Act Unit → Act B → Act B
m >> k = m >>= λ _. k

abbrev pub pure : {A : Type 0} → A → Act A
pure a w = (ok a, w)

unfoldable pub on_link : {A : Type 0} → Call A → Act A
on_link m w = let (r, l) = m w.link in (r, record w { link = l })

unfoldable pub pull : ℕ → List Job → Option (List Job × Job × List Job)
pull i [] = none
pull zero (j ∷ js) = some ([], j, js)
pull (suc i) (j ∷ js) = elim (pull i js) [
  | none ↦ some ([], j, js)
  | some (before, x, after) ↦ some (j ∷ before, x, after)
]

-- fail: the first error stays in errCh
unfoldable pub fail : {A : Type 0} → Result FsError A → Option FsError → Option FsError
fail (ok a) old = old
fail (err e) none = some e
fail (err e) (some old) = some old

-- errOr
unfoldable pub err_or : Option FsError → Result {0, 0} FsError Unit → Result {0, 0} FsError Unit
err_or none r = r
err_or (some e) r = err e

pub data Verdict : Type 0 where
  went_on sent stopped : Verdict

unfoldable pub give_up : Job → Act Verdict
unfolding release
give_up j w = (ok stopped, record w { drainer = release j.worker.name j.worker.key w.drainer })

unfoldable pub launch_with : Result {0, 0} FsError Unit × Link → Job → Act Verdict
unfolding release
launch_with (ok _, l) j w = (ok sent, record w { jobs = j ∷ w.jobs; link = l })
launch_with (err e, l) j w =
    (err e, record w { drainer = release j.worker.name j.worker.key w.drainer; link = l })

unfoldable pub launch : Job → Act Verdict
unfolding launch_with pick_up
launch j w = launch_with (pick_up outbox j.worker.name w.link) j w

unfoldable pub notices_failure : Choice → Work → Bool
notices_failure c w = elim w.failure [ none ↦ false | some _ ↦ c.notices ]

unfoldable pub choice_of : List Choice → Choice
choice_of [] = calm
choice_of (c ∷ cs) = c

unfoldable pub rest_of : List Choice → List Choice
rest_of [] = []
rest_of (c ∷ cs) = cs

-- What follows a round, where `later` are the rounds to come.
unfoldable pub continue : (ℕ → Act ℕ) → ℕ → Verdict → Act ℕ
continue later n went_on = later n
continue later n sent = later (suc n)
continue later n stopped = pure n

module _ (s : Server) (fields : Text → KeyFields) (cap : ℕ) where
  -- The worker's goroutine: serviceCurData, fail, release.
  unfoldable pub finish_job : List Job × Job × List Job → Work → Work
  unfolding service_cur_data fail release
  finish_job (before, j, after) w =
      let (r, l) = service_cur_data s j.worker.name j.body w.link in
      record {
        drainer = release j.worker.name j.worker.key w.drainer;
        jobs = before ++ after;
        failure = fail r w.failure;
        link = l;
      }

  unfoldable pub finish_at : ℕ → Work → Work
  unfolding pull finish_job
  finish_at i w = elim (pull i w.jobs) [ none ↦ w | some found ↦ finish_job found w ]

  unfoldable pub finish_all : List ℕ → Work → Work
  unfolding finish_at
  finish_all [] w = w
  finish_all (i ∷ is) w = finish_all is (finish_at i w)

  unfoldable pub finish_rest : ℕ → Work → Work
  unfolding finish_at
  finish_rest zero w = w
  finish_rest (suc n) w = finish_rest n (finish_at 0 w)

  -- dr.wg.Wait(): all workers finish, in some order
  unfoldable pub wait_all : List ℕ → Work → Work
  unfolding finish_all finish_rest
  wait_all is w = let w' = finish_all is w in finish_rest (length w'.jobs) w'

  unfoldable pub wait_slot : Choice → Work → Work
  unfolding finish_at
  wait_slot c w = if ltb (length w.jobs) cap then w else finish_at c.frees w

  -- the select, and what follows it
  unfoldable pub acquire : Choice → Job → Act Verdict
  unfolding notices_failure wait_slot give_up launch
  acquire c j w =
      if notices_failure c w
      then give_up j w
      else let w' = wait_slot c w in if notices_failure c w' then give_up j w' else launch j w'

  unfoldable pub reserve_and_send : Choice → Text → Text → Act Verdict
  unfolding resource_key reserve acquire
  reserve_and_send c name body w =
      let j : Job = record {
        worker = record { name = name; key = resource_key (fields body) };
        body = body;
      } in
      elim (reserve name j.worker.key w.drainer) [
        | none ↦ (ok went_on, w)
        | some d ↦ acquire c j (record w { drainer = d })
      ]

  unfoldable pub unless_answered : Bool → Choice → Text → Act Verdict
  unfolding on_link pick_up read_file reserve_and_send
  unless_answered true c name = do on_link (pick_up outbox name); pure went_on
  unless_answered false c name = do
    body ← on_link (read_file outbox_new name)
    reserve_and_send c name body

  unfoldable pub unless_skipped : Bool → Choice → Text → Act Verdict
  unfolding on_link response_exists unless_answered
  unless_skipped true c name = pure went_on
  unless_skipped false c name = do
    answered ← on_link (response_exists s name)
    unless_answered answered c name

  -- One round of the loop.
  unfoldable pub consider : Choice → Text → Act Verdict
  unfolding finish_all unless_skipped valid_request_name has_key
  consider c name w =
      let w' = finish_all c.finishing w in
      unless_skipped (not (valid_request_name name) || has_key name w'.drainer.inflight) c name w'

  -- The result is the number of requests that were submitted, with those `n` of the rounds before.
  unfoldable pub drain_names : List Choice → List Text → ℕ → Act ℕ
  unfolding consider choice_of rest_of continue
  drain_names cs [] n = pure n
  drain_names cs (name ∷ names) n = do
    verdict ← consider (choice_of cs) name
    continue (drain_names (rest_of cs) names) n verdict

  unfoldable pub drain_new : List Choice → Act ℕ
  unfolding on_link list drain_names
  drain_new cs = do names ← on_link (list outbox_new); drain_names cs names 0
