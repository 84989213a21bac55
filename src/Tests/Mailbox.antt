-- ===== src/Tests/Mailbox.antt =====
-- internal/protocol: deliveries, recovery and the sweep of the maildir.
use iceclimber.Common.{ℕ, ◌≡◌, refl, some, [], ◌∷◌, true, false, ◌⊎◌}
use iceclimber.Common.Text.{Text, codes, text_eq}
use iceclimber.Common.Result.{ok, err}
use iceclimber.Common.Boxes.{lookup, is_some, put, names}
use iceclimber.Protocol.Mail.{
  outbox_cur, inbox_new, inbox_cur, inbox, inbox_tmp, passes, unanswered, Link, deliver, transport,
  Folder, FsError, same_folder,
}
use iceclimber.Protocol.Mail.Laws.{file, delivered, deliver_atomic}
use iceclimber.Protocol.Dispatch.{
  Response, dispatch, service_cur_data, stamp_completed, recover, abandoned, gc,
}
use iceclimber.Protocol.Dispatch.Replies.{service_cur_data-Delivered, Delivered}
use iceclimber.Protocol.Dispatch.Reading.{read_response, read_response-service_cur_data}
use iceclimber.Protocol.Dispatch.Collected.{gc_keeps}
use iceclimber.Protocol.Dispatch.Recovery.{recover_answers, Answered}
use iceclimber.Tests.Wire.{encode, server, request_text}

abbrev name : Text
name = codes "r1.json"

abbrev stranded : Link
stranded = record {
  tree = λ f. elim f [
    | outbox_cur ↦ (name, request_text (codes "r1") (codes "meta/echo")) ∷ []
    | _ ↦ []
  ];
  fates = [];
}

abbrev dropped : Link
dropped = record { tree = stranded.tree; fates = passes ∷ unanswered ∷ [] }

-- the answer to the rename of a delivery is lost
deliver_atomic_example :
    ((g : Folder) (k : Text)
      → same_folder inbox_tmp g ≡ false
      → file (deliver inbox name (codes "x") dropped).1.tree g k
        ≡ delivered inbox_new name (codes "x") dropped.tree g k)
    ⊎ ((x : FsError) × ((deliver inbox name (codes "x") dropped).0 ≡ err x)
        × ((g : Folder) (k : Text)
            → same_folder inbox_tmp g ≡ false
            → file (deliver inbox name (codes "x") dropped).1.tree g k ≡ file dropped.tree g k))
deliver_atomic_example = deliver_atomic inbox name (codes "x") dropped

reported : (deliver inbox name (codes "x") dropped).0 ≡ err transport
unfolding deliver lookup put
reported = refl

arrived : file (deliver inbox name (codes "x") dropped).1.tree inbox_new name ≡ some (codes "x")
unfolding deliver lookup put text_eq
arrived = refl

abbrev data_ : Text
data_ = request_text (codes "r1") (codes "meta/echo")

abbrev serviced : Response
serviced = stamp_completed server (dispatch server name data_)

service_runs :
    service_cur_data server name data_ stranded
    ≡ (ok serviced, (service_cur_data server name data_ stranded).1)
unfolding service_cur_data lookup put
service_runs = refl

service_cur_data-Delivered_example :
    (serviced ≡ stamp_completed server (dispatch server name data_))
    × ((t : ℕ) × (serviced.completed_at ≡ some t))
    × Delivered server name serviced stranded (service_cur_data server name data_ stranded).1
service_cur_data-Delivered_example =
    service_cur_data-Delivered server name data_ serviced stranded
      (service_cur_data server name data_ stranded).1 service_runs

read_response-service_cur_data_example :
    ((read_response server name (service_cur_data server name data_ stranded).1).0 ≡ err transport)
    ⊎ ((bytes : Text) × (server.encode serviced ≡ some bytes)
        × ((read_response server name (service_cur_data server name data_ stranded).1).0
            ≡ ok (server.parse_response bytes)))
read_response-service_cur_data_example =
    read_response-service_cur_data server name data_ serviced stranded
      (service_cur_data server name data_ stranded).1 service_runs

abbrev recovered : Link
recovered = (recover server stranded).1

recover_runs : recover server stranded ≡ (ok tt, recovered)
unfolding recover text_eq names lookup put
recover_runs = refl

recover_answers_example :
    (is_some (file stranded.tree outbox_cur name) ≡ true → Answered recovered.tree name)
    × (Answered stranded.tree name
        → (file recovered.tree inbox_new name ≡ file stranded.tree inbox_new name)
          × (file recovered.tree inbox_cur name ≡ file stranded.tree inbox_cur name))
recover_answers_example = recover_answers server stranded recovered tt name recover_runs

-- The response to r1 is one that nobody has collected: it is 900 ticks old.
abbrev waiting : Link
waiting = record {
  tree = λ f. elim f [
    | inbox_new ↦ (name, encode (record serviced { completed_at = some 100 })) ∷ []
    | outbox_cur ↦ (name, data_) ∷ []
    | _ ↦ []
  ];
  fates = [];
}

not_abandoned : abandoned server 1000 (file waiting.tree inbox_new name) ≡ false
unfolding abandoned lookup text_eq dispatch
not_abandoned = refl

gc_keeps_example :
    file (gc server 1000 waiting).1.tree outbox_cur name ≡ file waiting.tree outbox_cur name
unfolding lookup
gc_keeps_example = gc_keeps server 1000 waiting name outbox_cur refl not_abandoned
