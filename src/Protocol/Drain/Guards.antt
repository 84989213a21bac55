-- ===== src/Protocol/Drain/Guards.antt =====
-- The guards of the drainer (internal/protocol/dispatch.go) are those of the workers that run, in
-- every pass, and nothing is left of them when all workers have finished.
pub mod Rounds
use mathlib.Core.List.{map, map-append, append_assoc}
use mathlib.Core.Bool.{false≢true}
use iceclimber.Common.{
  ℕ, zero, suc, ◌≤◌, ◌<◌, ◌-◌, length-append, ◌≡◌, refl, sym, ap, subst, ◌∙◌, inl, inr, Bool, true,
  false, not, ◌||◌, Option, none, some, List, [], ◌∷◌, ◌++◌, arith, ltb, length, Option-cases,
  Bool-cases,
}
use iceclimber.Common.Result.{Result, ok, err}
use iceclimber.Common.Text.{Text}
use iceclimber.Protocol.Names.{valid_request_name}
use iceclimber.Protocol.Keys.{KeyFields, resource_key}
use iceclimber.Protocol.Mail.{outbox_new, outbox, FsError, Link, Call, list, read_file, pick_up}
use iceclimber.Protocol.Dispatch.{Server, service_cur_data, response_exists}
use iceclimber.Protocol.Pool.{has_key, reserve, release, Drainer, new_drainer, pool_size, Worker}
use iceclimber.Protocol.Pool.Guarded.{Guarded, keys_of, reserve-Guarded, release-Guarded}
use iceclimber.Protocol.Drain.{
  Job, Work, Choice, Act, ◌>>=◌, ◌>>◌, pure, on_link, pull, finish_job, finish_at, finish_all,
  finish_rest, wait_all, Verdict, went_on, sent, stopped, give_up, launch_with, launch,
  notices_failure, wait_slot, acquire, reserve_and_send, unless_answered, unless_skipped, consider,
  choice_of, rest_of, continue, drain_names, drain_new,
}
use iceclimber.Protocol.Drain.Onward.Service.{pull-split, pull-none}

abbrev pub workers_of : List Job → List Worker
workers_of = map (λ (j : Job). j.worker)

-- The guards hold the running workers, and those of `more` besides.
abbrev pub Guards : List Worker → Work → Type 0
Guards more w = Guarded w.drainer (more ++ workers_of w.jobs)

-- The guards hold the running workers, and there are at most `cap` of them.
abbrev pub Pooled : ℕ → Work → Type 0
Pooled cap w = Guards [] w × (length w.jobs ≤ cap)

abbrev pub Idle : Work → Type 0
Idle w = (w.jobs ≡ []) × (w.drainer ≡ new_drainer)

Guards-Idle : (w : Work) → Guards [] w → w.jobs ≡ [] → Idle w
Guards-Idle w g e =
    let g' = subst (λ (js : List Job). Guarded w.drainer (workers_of js)) e g in
    let names = g'.names in let keys = g'.keys in (e, unfold keys_of in cc (names, keys))

pub Idle-Pooled : (cap : ℕ) (w : Work) → Idle w → Pooled cap w
Idle-Pooled cap w (e, d) =
    subst (λ js. Guarded w.drainer (workers_of js) × (length js ≤ cap)) (sym e)
      (
        subst (λ x. Guarded x []) (sym d)
            record {
              names = refl;
              keys = unfold keys_of in refl;
              names-Distinct = tt;
              keys-Distinct = unfold keys_of in tt;
            },
        omega arith,
      )

pub pool_size_pos : (n : ℕ) → 0 < pool_size n
unfolding pool_size
pool_size_pos zero = omega arith
pool_size_pos (suc n) = omega arith

launch_with-Guards :
    (r : Result {0, 0} FsError Unit × Link) (j : Job) (w : Work)
    → Guards (j.worker ∷ []) w
    → Guards [] (launch_with r j w).1
unfolding launch_with
launch_with-Guards (ok u, l) j w g = g
launch_with-Guards (err e, l) j w g = release-Guarded [] (workers_of w.jobs) j.worker w.drainer g

module _ (s : Server) (fields : Text → KeyFields) (cap : ℕ) where
  finish_job-Guards :
      (more : List Worker) (before after : List Job) (j : Job) (w : Work)
      → w.jobs ≡ before ++ j ∷ after
      → Guards more w
      → Guards more (finish_job s fields cap (before, j, after) w)
  unfolding finish_job
  finish_job-Guards more before after j w e g =
      subst (Guarded (release j.worker.name j.worker.key w.drainer)) (sym (joined after)) (
        release-Guarded (more ++ workers_of before) (workers_of after) j.worker w.drainer
          (subst (Guarded w.drainer) (ap (λ js. more ++ workers_of js) e ∙ joined (j ∷ after)) g))
    where
      joined :
          (js : List Job)
          → more ++ workers_of (before ++ js) ≡ (more ++ workers_of before) ++ workers_of js
      joined js =
          ap (λ ws. more ++ ws) (map-append (λ (x : Job). x.worker) before js)
          ∙ sym (append_assoc more (workers_of before) (workers_of js))

  finish_at-Guards :
      (more : List Worker) (i : ℕ) (w : Work)
      → Guards more w
      → Guards more (finish_at s fields cap i w)
  finish_at-Guards more i w g = elim (Option-cases (pull i w.jobs)) [
    | inl e ↦ unfold finish_at in rw (e, finish_at) g
    | inr ((before, j, after), e) ↦
        unfold finish_at in
        rw (e, finish_at)
          (finish_job-Guards more before after j w (pull-split i w.jobs before after j e) g)
  ]

  -- A worker that finishes makes room.
  finish_at-length :
      (n i : ℕ) (w : Work) → length w.jobs ≤ suc n → length (finish_at s fields cap i w).jobs ≤ n
  finish_at-length n i w h = elim (Option-cases (pull i w.jobs)) [
    | inl e ↦
        unfold finish_at in
        rw (e, finish_at) (let none_left = ap length (pull-none i w.jobs e) in omega arith)
    | inr ((before, j, after), e) ↦
        let split = ap length (pull-split i w.jobs before after j e) in
        unfold finish_at in
        rw (e, finish_at)
          (unfold finish_job in
            omega (arith, length-append before (j ∷ after), length-append before after))
  ]

  pub finish_all-length :
      (is : List ℕ) (w : Work)
      → length w.jobs ≤ cap
      → length (finish_all s fields cap is w).jobs ≤ cap
  unfolding finish_all
  finish_all-length [] w h = h
  finish_all-length (i ∷ is) w h =
      finish_all-length is (finish_at s fields cap i w)
        (let less = finish_at-length cap i w (omega arith) in less)

  pub finish_all-Guards :
      (is : List ℕ) (w : Work) → Guards [] w → Guards [] (finish_all s fields cap is w)
  unfolding finish_all
  finish_all-Guards [] w g = g
  finish_all-Guards (i ∷ is) w g =
      finish_all-Guards is (finish_at s fields cap i w) (finish_at-Guards [] i w g)

  finish_rest-Guards : (n : ℕ) (w : Work) → Guards [] w → Guards [] (finish_rest s fields cap n w)
  unfolding finish_rest
  finish_rest-Guards zero w g = g
  finish_rest-Guards (suc n) w g =
      finish_rest-Guards n (finish_at s fields cap 0 w) (finish_at-Guards [] 0 w g)

  finish_rest-jobs :
      (n : ℕ) (w : Work) → length w.jobs ≤ n → (finish_rest s fields cap n w).jobs ≡ []
  unfolding finish_rest finish_at finish_job pull
  finish_rest-jobs n w h = by_jobs n w.jobs w.drainer w.failure w.link h
    where
      by_jobs :
          (n : ℕ) (js : List Job) (d : Drainer) (f : Option FsError) (l : Link)
          → length js ≤ n
          → (finish_rest s fields cap n
              (record { drainer = d; jobs = js; failure = f; link = l })).jobs
            ≡ []
      by_jobs zero [] d f l h = refl
      by_jobs zero (j ∷ js) d f l h = absurd (omega arith)
      by_jobs (suc n) [] d f l h = by_jobs n [] d f l (omega arith)
      by_jobs (suc n) (j ∷ js) d f l h =
          let w : Work =
            finish_at s fields cap 0
              (record { drainer = d; jobs = j ∷ js; failure = f; link = l }) in
          by_jobs n js w.drainer w.failure w.link (omega arith)

  -- When all workers have finished, nothing is reserved.
  pub wait_all-Idle : (is : List ℕ) (w : Work) → Guards [] w → Idle (wait_all s fields cap is w)
  unfolding wait_all
  wait_all-Idle is w g =
      let w' = finish_all s fields cap is w in
      Guards-Idle (finish_rest s fields cap (length w'.jobs) w')
        (finish_rest-Guards (length w'.jobs) w' (finish_all-Guards is w g))
        (finish_rest-jobs (length w'.jobs) w' (omega arith))

  wait_slot-Guards :
      (more : List Worker) (c : Choice) (w : Work)
      → Guards more w
      → Guards more (wait_slot s fields cap c w)
  unfolding wait_slot
  wait_slot-Guards more c w g = elim (Bool-cases (ltb (length w.jobs) cap)) [
    | inl e ↦ rw e g
    | inr e ↦ rw e (finish_at-Guards more c.frees w g)
  ]

  -- After the wait a slot is free.
  wait_slot-length :
      (c : Choice) (w : Work)
      → 0 < cap
      → length w.jobs ≤ cap
      → length (wait_slot s fields cap c w).jobs < cap
  unfolding wait_slot
  wait_slot-length c w pos h = elim (Bool-cases (ltb (length w.jobs) cap)) [
    | inl e ↦ rw e (ground arith)
    | inr e ↦ rw e (let less = finish_at-length (cap - 1) c.frees w (omega arith) in omega arith)
  ]

  pub acquire-length :
      (c : Choice) (j : Job) (w : Work)
      → 0 < cap
      → length w.jobs ≤ cap
      → length (acquire s fields cap c j w).1.jobs ≤ cap
  unfolding acquire give_up launch
  acquire-length c j w pos h = elim (Bool-cases (notices_failure c w)) [
    | inl e ↦ rw e h
    | inr e ↦
        let w₁ = wait_slot s fields cap c w in
        let room = wait_slot-length c w pos h in
        elim (Bool-cases (notices_failure c w₁)) [
          | inl f ↦ rw (e, f) (omega arith)
          | inr f ↦ rw (e, f) (launched (pick_up outbox j.worker.name w₁.link) w₁ room)
        ]
  ]
    where
      launched :
          (r : Result {0, 0} FsError Unit × Link) (v : Work)
          → length v.jobs < cap
          → length (launch_with r j v).1.jobs ≤ cap
      launched (ok u, l) v room = unfold launch_with in omega arith
      launched (err e, l) v room = unfold launch_with in omega arith

  pub acquire-Guards :
      (c : Choice) (j : Job) (w : Work)
      → Guards (j.worker ∷ []) w
      → Guards [] (acquire s fields cap c j w).1
  unfolding acquire give_up launch
  acquire-Guards c j w g = elim (Bool-cases (notices_failure c w)) [
    | inl e ↦ rw e (release-Guarded [] (workers_of w.jobs) j.worker w.drainer g)
    | inr e ↦
        let w₁ = wait_slot s fields cap c w in
        let g₁ = wait_slot-Guards (j.worker ∷ []) c w g in
        elim (Bool-cases (notices_failure c w₁)) [
          | inl f ↦ rw (e, f) (release-Guarded [] (workers_of w₁.jobs) j.worker w₁.drainer g₁)
          | inr f ↦ rw (e, f) (launch_with-Guards (pick_up outbox j.worker.name w₁.link) j w₁ g₁)
        ]
  ]
