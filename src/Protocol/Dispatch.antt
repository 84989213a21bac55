-- ===== src/Protocol/Dispatch.antt =====
-- internal/protocol/dispatch.go, the sequential part: dispatch, serviceCurData, responseExists,
-- recover and gc. Handlers, the gate and the JSON of requests and responses are parameters.
pub mod Replies
pub mod Queued
pub mod Reading
pub mod Recovery
pub mod Collection
pub mod Collected
use iceclimber.Common.{
  ℕ, ◌+◌, ◌≡◌, Bool, true, false, not, ◌||◌, Option, none, some, List, [], ◌∷◌, if◌then◌else◌, ltb,
  ◌==◌,
}
use iceclimber.Common.Result.{Result, ok, err}
use iceclimber.Common.Text.{Text, codes}
use iceclimber.Protocol.Names.{valid_request_name, id_from_name}
use iceclimber.Common.Boxes.{listed}
use iceclimber.Protocol.Mail.{
  outbox_new, outbox_cur, inbox_new, inbox_cur, inbox, FsError, unencodable, Call, list, read_file,
  remove_all, deliver, pick_up, ◌>>=◌, ◌>>◌, pure, ignore, caught,
}

pub record Request : Type 0 where
  pub id : Text
  pub req_type : Text
  pub params : Text

pub data Status : Type 0 where
  status_ok status_error needs_clarification : Status

-- `completed_at` is none for the zero time; `code` is that of the error block.
pub record Response : Type 0 where
  pub id : Text
  pub status : Status
  pub completed_at : Option ℕ
  pub code : Option Text
  pub body : Text

-- What a Dispatcher is given. A handler answers none if it panics; the gate answers none for a nil
-- error; `now` is the clock.
pub record Server : Type 0 where
  pub parse_request : Text → Option Request
  pub encode : Response → Option Text
  pub parse_response : Text → Option Response
  pub registry : Text → Option (Request → Option Response)
  pub gate : Option (Request → Option Text)
  pub now : ℕ

-- wire.Errf
unfoldable pub errf : ℕ → Text → Text → Text → Response
errf now id code message = record {
  id = id;
  status = status_error;
  completed_at = some now;
  code = some code;
  body = message;
}

module _ (s : Server) where
  -- the deferred recover around the handler
  unfoldable pub run_handler : (Request → Option Response) → Request → Response
  unfolding errf
  run_handler h req = elim (h req) [
    | none ↦ errf s.now req.id (codes "handler_panic") (codes "handler panicked")
    | some r ↦ r
  ]

  unfoldable pub through_gate :
      Option (Request → Option Text) → (Request → Option Response) → Request → Response
  unfolding run_handler errf
  through_gate none h req = run_handler h req
  through_gate (some gate) h req = elim (gate req) [
    | some e ↦ errf s.now req.id (codes "operator_denied") e
    | none ↦ run_handler h req
  ]

  unfoldable pub dispatch : Text → Text → Response
  unfolding through_gate errf id_from_name
  dispatch name data_ = elim (s.parse_request data_) [
    | none ↦ errf s.now (id_from_name name) (codes "malformed_request") (codes "parse request")
    | some req ↦ elim (s.registry req.req_type) [
      | none ↦ errf s.now req.id (codes "unknown_type") (codes "no handler")
      | some h ↦ through_gate s.gate h req
    ]
  ]

  unfoldable pub stamp_completed : Response → Response
  stamp_completed r = elim r.completed_at [
    | none ↦ record r { completed_at = some s.now }
    | some _ ↦ r
  ]

  unfoldable pub deliver_response : Text → Response → Call Response
  unfolding deliver
  deliver_response name resp = elim (s.encode resp) [
    | none ↦ λ l. (err unencodable, l)
    | some bytes ↦ deliver inbox name bytes >> pure resp
  ]

  -- The result is the response that the observer is given.
  unfoldable pub service_cur_data : Text → Text → Call Response
  unfolding deliver_response stamp_completed dispatch
  service_cur_data name data_ = deliver_response name (stamp_completed (dispatch name data_))

  unfoldable pub service_cur : Text → Call Response
  unfolding read_file service_cur_data
  service_cur name = do data_ ← read_file outbox_cur name; service_cur_data name data_

  unfoldable pub listed_in_cur : Text → Bool → Call Bool
  unfolding list listed
  listed_in_cur name true = pure true
  listed_in_cur name false = do cur ← list inbox_cur; pure (listed name cur)

  unfoldable pub response_exists : Text → Call Bool
  unfolding list listed listed_in_cur
  response_exists name = do new ← list inbox_new; listed_in_cur name (listed name new)

  unfoldable pub answer_unless : Bool → Text → Call Unit
  unfolding service_cur
  answer_unless true name = pure tt
  answer_unless false name = do sent ← service_cur name; pure tt

  unfoldable pub recover_names : List Text → Call Unit
  unfolding response_exists answer_unless
  recover_names [] = pure tt
  recover_names (name ∷ ns) = do
    answered ← response_exists name
    answer_unless answered name
    recover_names ns

  unfoldable pub recover : Call Unit
  unfolding list recover_names
  recover = do ns ← list outbox_cur; recover_names ns

  unfoldable pub prune_pair : Text → Call Unit
  unfolding remove_all ignore
  prune_pair name = do ignore (remove_all outbox_cur name); ignore (remove_all inbox_cur name)

  -- the pass over collected responses
  unfoldable pub prune_collected : List Text → Call Unit
  unfolding prune_pair valid_request_name
  prune_collected [] = pure tt
  prune_collected (name ∷ ns) =
      if valid_request_name name then prune_pair name >> prune_collected ns else prune_collected ns

  -- a dated response from before the cutoff, now - retention
  unfoldable pub abandoned : ℕ → Option Text → Bool
  abandoned retention none = false
  abandoned retention (some bytes) = elim (s.parse_response bytes) [
    | none ↦ false
    | some r ↦ elim r.completed_at [ none ↦ false | some t ↦ not (ltb s.now (t + retention)) ]
  ]

  unfoldable pub reap : Text → Call Unit
  unfolding remove_all ignore
  reap name = do ignore (remove_all inbox_new name); ignore (remove_all outbox_cur name)

  unfoldable pub reap_if : Bool → Text → Call Unit
  unfolding reap
  reap_if true name = reap name
  reap_if false name = pure tt

  -- the pass over uncollected responses
  unfoldable pub reap_abandoned : ℕ → List Text → Call Unit
  unfolding read_file caught abandoned reap_if valid_request_name
  reap_abandoned retention [] = pure tt
  reap_abandoned retention (name ∷ ns) =
      if valid_request_name name
      then (do
        found ← caught (read_file inbox_new name)
        reap_if (abandoned retention found) name
        reap_abandoned retention ns)
      else reap_abandoned retention ns

  unfoldable pub sweep : (List Text → Call Unit) → Option (List Text) → Call Unit
  sweep pass none = pure tt
  sweep pass (some ns) = pass ns

  unfoldable pub sweep_uncollected : ℕ → Call Unit
  unfolding list caught sweep reap_abandoned
  sweep_uncollected retention =
      if retention == 0
      then pure tt
      else (do uncollected ← caught (list inbox_new); sweep (reap_abandoned retention) uncollected)

  unfoldable pub gc : ℕ → Call Unit
  unfolding list caught sweep prune_collected sweep_uncollected
  gc retention = do
    collected ← caught (list inbox_cur)
    sweep prune_collected collected
    sweep_uncollected retention
