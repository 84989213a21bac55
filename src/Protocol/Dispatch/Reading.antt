-- ===== src/Protocol/Dispatch/Reading.antt =====
-- ReadResponse and AckResponse of internal/protocol/maildir.go.
use iceclimber.Common.{◌≡◌, refl, ap, ◌∙◌, ◌⊎◌, inl, inr, Option, none, some}
use iceclimber.Common.Result.{Result, ok, err}
use iceclimber.Common.Text.{Text}
use iceclimber.Common.Boxes.{lookup}
use iceclimber.Protocol.Mail.{
  inbox_new, inbox, FsError, transport, missing, Tree, Link, Call, read_file, pick_up, ◌>>=◌,
}
use iceclimber.Protocol.Mail.Laws.{file, attempt-cases, bind_ok, bind_err}
use iceclimber.Protocol.Dispatch.{Response, Server, service_cur_data}
use iceclimber.Protocol.Dispatch.Replies.{service_cur_data-Delivered}

-- `none` is a response that cannot be parsed.
unfoldable pub read_response : Server → Text → Call (Option Response)
unfolding read_file
read_response s name = do bytes ← read_file inbox_new name; λ l. (ok (s.parse_response bytes), l)

unfoldable pub ack_response : Text → Call Unit
unfolding pick_up
ack_response name = pick_up inbox name

read_file-found :
    (name b : Text) (l : Link)
    → file l.tree inbox_new name ≡ some b
    → ((read_file inbox_new name l).0 ≡ err transport) ⊎ ((read_file inbox_new name l).0 ≡ ok b)
unfolding read_file
read_file-found name b l h =
    elim (attempt-cases
      (λ (t : Tree). (elim (lookup name (t inbox_new)) [ none ↦ err missing | some s ↦ ok s ], t))
      l) [ inl (l', e, _) ↦ inl (ap (λ r. r.0) e) | inr e ↦ inr (ap (λ r. r.0) e ∙ ap given h) ]
  where
    given : Option Text → Result FsError Text
    given o = elim o [ none ↦ err missing | some s ↦ ok s ]

-- After serviceCurData has sent a response, ReadResponse gives what the bytes of its encoding parse
-- to, unless the link drops the read or its answer.
pub read_response-service_cur_data :
    (s : Server) (name data_ : Text) (resp : Response) (l l' : Link)
    → service_cur_data s name data_ l ≡ (ok resp, l')
    → ((read_response s name l').0 ≡ err transport)
      ⊎ ((bytes : Text) × (s.encode resp ≡ some bytes)
          × ((read_response s name l').0 ≡ ok (s.parse_response bytes)))
unfolding read_response
read_response-service_cur_data s name data_ resp l l' h =
    let (_, _, (b, at, encoded, _)) = service_cur_data-Delivered s name data_ resp l l' h in
    go b encoded (read_file inbox_new name l') refl (read_file-found name b l' at)
  where
    parse : Text → Call (Option Response)
    parse bytes l₁ = (ok (s.parse_response bytes), l₁)

    go :
        (b : Text)
        → s.encode resp ≡ some b
        → (r : Result FsError Text × Link) → read_file inbox_new name l' ≡ r
        → (r.0 ≡ err transport) ⊎ (r.0 ≡ ok b)
        → ((read_response s name l').0 ≡ err transport)
          ⊎ ((bytes : Text) × (s.encode resp ≡ some bytes)
              × ((read_response s name l').0 ≡ ok (s.parse_response bytes)))
    go b encoded (r, l₁) e (inl q) = inl (
        ap (λ x. x.0)
          (bind_err (read_file inbox_new name) parse transport l' l₁ (e ∙ ap (λ z. (z, l₁)) q)))
    go b encoded (r, l₁) e (inr q) = inr (
      b,
      encoded,
      ap (λ x. x.0) (bind_ok (read_file inbox_new name) parse b l' l₁ (e ∙ ap (λ z. (z, l₁)) q)),
    )
