-- ===== src/Protocol/Dispatch/Queued.antt =====
-- Servicing, recovery and collection of internal/protocol/dispatch.go leave outbox/new alone.
use iceclimber.Common.{
  ℕ, refl, inl, inr, Bool, true, false, Option, none, some, List, [], ◌∷◌, ◌==◌, Bool-cases,
  Option-cases,
}
use iceclimber.Common.Text.{Text}
use iceclimber.Common.Boxes.{listed}
use iceclimber.Protocol.Names.{valid_request_name}
use iceclimber.Protocol.Mail.{
  outbox_new, outbox_cur, inbox_new, inbox_cur, inbox, list, read_file, remove_all, deliver, ignore,
  caught, pure, Call, ◌>>◌,
}
use iceclimber.Protocol.Mail.Untouched.{
  Leaves, Leaves-bind, Leaves-list, Leaves-read_file, Leaves-remove_all, Leaves-ignore,
  Leaves-caught, Leaves-deliver,
}
use iceclimber.Protocol.Dispatch.{
  Response, Server, dispatch, stamp_completed, deliver_response, service_cur_data, service_cur,
  listed_in_cur, response_exists, answer_unless, recover_names, recover, prune_pair,
  prune_collected, abandoned, reap, reap_if, reap_abandoned, sweep, sweep_uncollected, gc,
}

abbrev Untouched : {A : Type 0} → Call A → Type 0
Untouched m = Leaves outbox_new m

module _ (s : Server) where
  deliver_response-Untouched :
      (name : Text) (resp : Response) → Untouched (deliver_response s name resp)
  deliver_response-Untouched name resp = elim (Option-cases (s.encode resp)) [
    | inl e ↦ unfold deliver_response in rw (e, deliver_response) (λ l. refl)
    | inr (bytes, e) ↦
        unfold deliver_response in
        rw (e, deliver_response)
          (Leaves-bind outbox_new (deliver inbox name bytes) (λ _. pure resp)
            (Leaves-deliver outbox_new inbox name bytes refl refl) (λ _ l. refl))
  ]

  pub service_cur_data-Untouched : (name data_ : Text) → Untouched (service_cur_data s name data_)
  unfolding service_cur_data
  service_cur_data-Untouched name data_ =
      deliver_response-Untouched name (stamp_completed s (dispatch s name data_))

  service_cur-Untouched : (name : Text) → Untouched (service_cur s name)
  unfolding service_cur
  service_cur-Untouched name =
      Leaves-bind outbox_new (read_file outbox_cur name) (service_cur_data s name)
        (Leaves-read_file outbox_new outbox_cur name) (service_cur_data-Untouched name)

  listed_in_cur-Untouched : (name : Text) (b : Bool) → Untouched (listed_in_cur s name b)
  unfolding listed_in_cur
  listed_in_cur-Untouched name true = λ l. refl
  listed_in_cur-Untouched name false =
      Leaves-bind outbox_new (list inbox_cur) (λ cur. pure (listed name cur))
        (Leaves-list outbox_new inbox_cur) (λ _ l. refl)

  pub response_exists-Untouched : (name : Text) → Untouched (response_exists s name)
  unfolding response_exists
  response_exists-Untouched name =
      Leaves-bind outbox_new (list inbox_new) (λ new. listed_in_cur s name (listed name new))
        (Leaves-list outbox_new inbox_new) (λ new. listed_in_cur-Untouched name (listed name new))

  answer_unless-Untouched : (b : Bool) (name : Text) → Untouched (answer_unless s b name)
  unfolding answer_unless
  answer_unless-Untouched true name = λ l. refl
  answer_unless-Untouched false name =
      Leaves-bind outbox_new (service_cur s name) (λ _. pure tt) (service_cur-Untouched name)
        (λ _ l. refl)

  recover_names-Untouched : (ns : List Text) → Untouched (recover_names s ns)
  unfolding recover_names
  recover_names-Untouched [] = λ l. refl
  recover_names-Untouched (name ∷ ns) =
      Leaves-bind outbox_new (response_exists s name)
        (λ answered. answer_unless s answered name >> recover_names s ns)
        (response_exists-Untouched name)
        (λ answered.
          Leaves-bind outbox_new (answer_unless s answered name) (λ _. recover_names s ns)
            (answer_unless-Untouched answered name) (λ _. recover_names-Untouched ns))

  pub recover-Untouched : Untouched (recover s)
  unfolding recover
  recover-Untouched =
      Leaves-bind outbox_new (list outbox_cur) (recover_names s) (Leaves-list outbox_new outbox_cur)
        recover_names-Untouched

  prune_pair-Untouched : (name : Text) → Untouched (prune_pair s name)
  unfolding prune_pair
  prune_pair-Untouched name =
      Leaves-bind outbox_new (ignore (remove_all outbox_cur name))
        (λ _. ignore (remove_all inbox_cur name))
        (Leaves-ignore outbox_new (remove_all outbox_cur name)
          (Leaves-remove_all outbox_new outbox_cur name refl))
        (λ _.
          Leaves-ignore outbox_new (remove_all inbox_cur name)
            (Leaves-remove_all outbox_new inbox_cur name refl))

  prune_collected-Untouched : (ns : List Text) → Untouched (prune_collected s ns)
  unfolding prune_collected
  prune_collected-Untouched [] = λ l. refl
  prune_collected-Untouched (name ∷ ns) = elim (Bool-cases (valid_request_name name)) [
    | inl e ↦ rw e (
        Leaves-bind outbox_new (prune_pair s name) (λ _. prune_collected s ns)
          (prune_pair-Untouched name) (λ _. prune_collected-Untouched ns))
    | inr e ↦ rw e (prune_collected-Untouched ns)
  ]

  reap_if-Untouched : (b : Bool) (name : Text) → Untouched (reap_if s b name)
  unfolding reap_if reap
  reap_if-Untouched false name = λ l. refl
  reap_if-Untouched true name =
      Leaves-bind outbox_new (ignore (remove_all inbox_new name))
        (λ _. ignore (remove_all outbox_cur name))
        (Leaves-ignore outbox_new (remove_all inbox_new name)
          (Leaves-remove_all outbox_new inbox_new name refl))
        (λ _.
          Leaves-ignore outbox_new (remove_all outbox_cur name)
            (Leaves-remove_all outbox_new outbox_cur name refl))

  reap_abandoned-Untouched :
      (retention : ℕ) (ns : List Text) → Untouched (reap_abandoned s retention ns)
  unfolding reap_abandoned
  reap_abandoned-Untouched retention [] = λ l. refl
  reap_abandoned-Untouched retention (name ∷ ns) = elim (Bool-cases (valid_request_name name)) [
    | inl e ↦ rw e (
        Leaves-bind outbox_new (caught (read_file inbox_new name))
          (λ found. reap_if s (abandoned s retention found) name >> reap_abandoned s retention ns)
          (Leaves-caught outbox_new (read_file inbox_new name)
            (Leaves-read_file outbox_new inbox_new name))
          (λ found.
            Leaves-bind outbox_new (reap_if s (abandoned s retention found) name)
              (λ _. reap_abandoned s retention ns)
              (reap_if-Untouched (abandoned s retention found) name)
              (λ _. reap_abandoned-Untouched retention ns)))
    | inr e ↦ rw e (reap_abandoned-Untouched retention ns)
  ]

  sweep-Untouched :
      (pass : List Text → Call Unit) (found : Option (List Text))
      → ((ns : List Text) → Untouched (pass ns))
      → Untouched (sweep s pass found)
  unfolding sweep
  sweep-Untouched pass none h = λ l. refl
  sweep-Untouched pass (some ns) h = h ns

  sweep_uncollected-Untouched : (retention : ℕ) → Untouched (sweep_uncollected s retention)
  unfolding sweep_uncollected
  sweep_uncollected-Untouched retention = elim (Bool-cases (retention == 0)) [
    | inl e ↦ rw e (λ l. refl)
    | inr e ↦ rw e (
        Leaves-bind outbox_new (caught (list inbox_new)) (sweep s (reap_abandoned s retention))
          (Leaves-caught outbox_new (list inbox_new) (Leaves-list outbox_new inbox_new))
          (λ found.
            sweep-Untouched (reap_abandoned s retention) found
              (reap_abandoned-Untouched retention)))
  ]

  pub gc-Untouched : (retention : ℕ) → Untouched (gc s retention)
  unfolding gc
  gc-Untouched retention =
      Leaves-bind outbox_new (caught (list inbox_cur))
        (λ collected. sweep s (prune_collected s) collected >> sweep_uncollected s retention)
        (Leaves-caught outbox_new (list inbox_cur) (Leaves-list outbox_new inbox_cur))
        (λ collected.
          Leaves-bind outbox_new (sweep s (prune_collected s) collected)
            (λ _. sweep_uncollected s retention)
            (sweep-Untouched (prune_collected s) collected prune_collected-Untouched)
            (λ _. sweep_uncollected-Untouched retention))
