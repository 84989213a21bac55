-- ===== src/Tests/Wire.antt =====
-- A concrete server for internal/protocol/dispatch.go: length-prefixed requests and responses, and
-- one handler that echoes the parameters.
use iceclimber.Common.{
  ℕ, zero, suc, ◌≡◌, Option, none, some, [], ◌∷◌, ◌++◌, take, drop, length, if◌then◌else◌,
}
use iceclimber.Common.Text.{Text, codes, text_eq}
use iceclimber.Protocol.Dispatch.{
  Request, Response, Status, status_ok, status_error, needs_clarification, Server,
}

pub some-inner : {A : Type 0} {x y : A} → some x ≡ some y → x ≡ y
some-inner e = cc

abbrev pub put_part : Text → Text → Text
put_part t rest = length t ∷ (t ++ rest)

abbrev pub take_part : Text → Text × Text
take_part [] = ([], [])
take_part (n ∷ rest) = (take n rest, drop n rest)

abbrev status_no : Status → ℕ
status_no status_ok = 0
status_no status_error = 1
status_no needs_clarification = 2

abbrev status_at : ℕ → Status
status_at zero = status_ok
status_at (suc zero) = status_error
status_at (suc (suc n)) = needs_clarification

abbrev time_no : Option ℕ → ℕ
time_no none = 0
time_no (some t) = suc t

abbrev time_at : ℕ → Option ℕ
time_at zero = none
time_at (suc t) = some t

abbrev code_text : Option Text → Text
code_text none = []
code_text (some c) = 1 ∷ c

abbrev code_at : Text → Option Text
code_at [] = none
code_at (n ∷ c) = some c

abbrev pub encode : Response → Text
encode r =
    status_no r.status ∷ time_no r.completed_at ∷ put_part r.id (put_part (code_text r.code) r.body)

abbrev parse_parts : ℕ → ℕ → Text × Text → Option Response
parse_parts n t (id, rest) =
    let (code, body) = take_part rest in
    some (record {
      id = id;
      status = status_at n;
      completed_at = time_at t;
      code = code_at code;
      body = body;
    })

abbrev parse_response : Text → Option Response
parse_response (n ∷ t ∷ rest) = parse_parts n t (take_part rest)
parse_response _ = none

abbrev pub parse_request : Text → Option Request
parse_request s =
    let (id, rest) = take_part s in
    let (req_type, params) = take_part rest in
    if text_eq id [] then none else some (record { id = id; req_type = req_type; params = params })

abbrev pub echo : Request → Option Response
echo q =
    some
      (record { id = q.id; status = status_ok; completed_at = none; code = none; body = q.params })

abbrev pub request_text : Text → Text → Text
request_text id req_type = put_part id (put_part req_type (codes "{}"))

abbrev pub server : Server
server = record {
  parse_request = parse_request;
  encode = λ r. some (encode r);
  parse_response = parse_response;
  registry = λ t. if text_eq t (codes "meta/echo") then some echo else none;
  gate = none;
  now = 1000;
}
