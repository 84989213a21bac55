-- ===== src/Tests/Drain.antt =====
-- internal/protocol: RunOnce and Serve on an outbox of two requests for one interpreter, and the blobs
-- of a root.
use iceclimber.Common.{ℕ, ◌≡◌, refl, Bool, false, List, none, some, [], ◌∷◌, ◌++◌, true, arith}
use iceclimber.Common.Result.{Result, ok, err}
use iceclimber.Common.Text.{Text, codes, text_eq, contains_byte}
use iceclimber.Common.Slash.{join}
use iceclimber.Common.Slash.Components.{Component, path_of}
use iceclimber.Protocol.Layout.{blob_ref, blob_path}
use iceclimber.Protocol.Layout.Blobs.{blob_ref-path}
use iceclimber.Common.Boxes.{listed, lookup, names, put, remove, is_some}
use iceclimber.Protocol.Keys.{KeyFields}
use iceclimber.Protocol.Mail.{outbox_new, FsError, Link}
use iceclimber.Protocol.Mail.Laws.{file}
use iceclimber.Protocol.Names.{valid_request_name}
use iceclimber.Protocol.Pool.{pool_size}
use iceclimber.Protocol.Dispatch.{dispatch}
use iceclimber.Protocol.Dispatch.Recovery.{Answered}
use iceclimber.Protocol.Drain.{Work}
use iceclimber.Protocol.Drain.Passes.{Pass, Ended, new_work, run_once}
use iceclimber.Protocol.Drain.Ends.{run_once-Ends}
use iceclimber.Protocol.Drain.Served.{run_once-Served}
use iceclimber.Protocol.Drain.Serving.{Cycle, serve}
use iceclimber.Protocol.Drain.Serving.Manned.{Manned, serve-Manned}
use iceclimber.Tests.Wire.{server, request_text}

-- All requests are for the interpreter 3.12.
abbrev one_target : Text → KeyFields
one_target _ = record {
  req_type = codes "python.install";
  version = codes "3.12";
  python_version = [];
  node_version = [];
  java_version = [];
  project = [];
  file = [];
  name = [];
}

abbrev second_name : Text
second_name = codes "r2.json"

abbrev two_requests : Link
two_requests = record {
  tree = λ f. elim f [
    | outbox_new ↦
        (codes "r1.json", request_text (codes "r1") (codes "meta/echo"))
        ∷ (second_name, request_text (codes "r2") (codes "meta/echo"))
        ∷ []
    | _ ↦ []
  ];
  fates = [];
}

-- No worker finishes before the pass is over.
abbrev slow : ℕ → Pass
slow _ = record { choices = []; last = [] }

run_once-Ends_example :
    (r : Result {0, 0} FsError Unit × Work) × (run_once server one_target 4 slow 3 0 two_requests
      ≡ some r)
run_once-Ends_example = run_once-Ends server one_target 4 slow 3 0 two_requests (omega arith)

abbrev state_of : Ended → Work
state_of none = new_work two_requests
state_of (some (_, w)) = w

abbrev served : Work
served = state_of (run_once server one_target 4 slow 3 0 two_requests)

abbrev passed : Ended → Bool
passed (some (ok _, _)) = true
passed _ = false

passed-ok : (o : Ended) → passed o ≡ true → o ≡ some (ok tt, state_of o)
passed-ok none h = absurd (cc)
passed-ok (some (ok tt, w)) h = refl
passed-ok (some (err e, w)) h = absurd (cc)

-- The second request waits for the key of the first one: it is served in the second pass.
run_passes : passed (run_once server one_target 4 slow 3 0 two_requests) ≡ true
unfolding run_once names lookup pool_size remove put text_eq dispatch listed
run_passes = refl

runs : run_once server one_target 4 slow 3 0 two_requests ≡ some (ok tt, served)
runs = passed-ok (run_once server one_target 4 slow 3 0 two_requests) run_passes

queued_second : is_some (file two_requests.tree outbox_new second_name) ≡ true
unfolding lookup text_eq
queued_second = refl

run_once-Served_example :
    (file served.link.tree outbox_new second_name ≡ none) × Answered served.link.tree second_name
unfolding valid_request_name
run_once-Served_example =
    run_once-Served server one_target 4 slow 3 0 two_requests served tt second_name queued_second
      refl runs

-- Both requests want one key: the first starts in the first cycle of a session, and the context is done in the
-- second cycle.
abbrev two_cycles : List Cycle
two_cycles =
    record { choices = []; meanwhile = []; is_done = false; last = [] }
    ∷ record { choices = []; meanwhile = 0 ∷ []; is_done = true; last = [] }
    ∷ []

serve-Manned_example : Manned (pool_size 2) (serve server one_target 2 1000 two_cycles two_requests)
serve-Manned_example = serve-Manned server one_target 2 1000 two_cycles two_requests

opt-Component : Component (codes "opt")
opt-Component = record {
  not_empty = λ e. cc;
  not_dot = λ e. cc;
  not_dot_dot = λ e. cc;
  no_slash = unfold contains_byte in refl;
}

-- the root /opt, written with and without a slash at its end
blob_ref-path_example :
    (blob_ref (path_of (codes "opt" ∷ [])) (codes "opt") ≡ codes "protocol/blobs/opt")
    × (join (path_of (codes "opt" ∷ []) ∷ blob_ref (path_of (codes "opt" ∷ [])) (codes "opt") ∷ [])
        ≡ blob_path (path_of (codes "opt" ∷ [])) (codes "opt"))
    × (blob_path (path_of (codes "opt" ∷ []) ++ codes "/") (codes "opt")
        ≡ blob_path (path_of (codes "opt" ∷ [])) (codes "opt"))
    × (blob_ref (path_of (codes "opt" ∷ []) ++ codes "/") (codes "opt")
        ≡ blob_path (path_of (codes "opt" ∷ [])) (codes "opt"))
blob_ref-path_example =
    blob_ref-path (codes "opt") [] (codes "opt") (opt-Component, tt) opt-Component
