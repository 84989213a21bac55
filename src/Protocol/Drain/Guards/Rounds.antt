-- ===== src/Protocol/Drain/Guards/Rounds.antt =====
-- The guards of the drainer through a pass of drainNew (internal/protocol/dispatch.go).
use iceclimber.Common.{
  ℕ, suc, ◌<◌, ◌≡◌, refl, inl, inr, Bool, true, false, not, ◌||◌, Option, none, some, List, [], ◌∷◌,
  Bool-cases,
}
use iceclimber.Common.Result.{Result, ok, err}
use iceclimber.Common.Text.{Text}
use iceclimber.Protocol.Names.{valid_request_name}
use iceclimber.Protocol.Keys.{KeyFields, resource_key}
use iceclimber.Protocol.Mail.{outbox_new, outbox, FsError, Call, list, read_file, pick_up}
use iceclimber.Protocol.Dispatch.{Server, response_exists}
use iceclimber.Protocol.Pool.{has_key, reserve, Drainer}
use iceclimber.Protocol.Pool.Guarded.{reserve-Guarded}
use iceclimber.Protocol.Drain.{
  Job, Work, Choice, Act, ◌>>=◌, pure, on_link, finish_all, Verdict, went_on, sent, stopped,
  acquire, reserve_and_send, unless_answered, unless_skipped, consider, choice_of, rest_of,
  continue, drain_names, drain_new,
}
use iceclimber.Protocol.Drain.Guards.{
  Pooled, workers_of, finish_all-Guards, finish_all-length, acquire-Guards, acquire-length,
}

-- An act that turns P into Q, also where it fails.
abbrev pub Turns : {A : Type 0} → (Work → Type 0) → (Work → Type 0) → Act A → Type 0
Turns P Q m = (w : Work) → P w → Q (m w).1

pub Turns-bind :
    {A B : Type 0} (P Q R : Work → Type 0) (m : Act A) (f : A → Act B)
    → Turns P Q m
    → ((w : Work) → Q w → R w)
    → ((a : A) → Turns Q R (f a))
    → Turns P R (m >>= f)
Turns-bind {A} {B} P Q R m f h weaken next w p = go (m w).0 (m w).1 (h w p)
  where
    go :
        (r : Result FsError A) (w' : Work)
        → Q w'
        → R (elim r as (λ _. Result FsError B × Work) [ ok a ↦ f a w' | err e ↦ (err e, w') ]).1
    go (ok a) w' q = next a w' q
    go (err e) w' q = weaken w' q

abbrev Free : ℕ → Text → Work → Type 0
Free cap name w = Pooled cap w × (has_key name w.drainer.inflight ≡ false)

pub on_link-Pooled :
    {A : Type 0} (cap : ℕ) (m : Call A) → Turns (Pooled cap) (Pooled cap) (on_link m)
unfolding on_link
on_link-Pooled cap m w g = g

on_link-Free :
    {A : Type 0} (cap : ℕ) (name : Text) (m : Call A)
    → Turns (Free cap name) (Free cap name) (on_link m)
unfolding on_link
on_link-Free cap name m w g = g

module _ (s : Server) (fields : Text → KeyFields) (cap : ℕ) (some_slot : 0 < cap) where
  reserve_and_send-Pooled :
      (c : Choice) (name body : Text)
      → Turns (Free cap name) (Pooled cap) (reserve_and_send s fields cap c name body)
  unfolding reserve_and_send
  reserve_and_send-Pooled c name body w (g, free) = go (reserve name j.worker.key w.drainer) refl
    where
      j : Job
      j = record { worker = record { name = name; key = resource_key (fields body) }; body = body }

      go :
          (o : Option Drainer)
          → reserve name j.worker.key w.drainer ≡ o
          → Pooled cap
              (elim o as (λ _. Result FsError Verdict × Work) [
                | none ↦ (ok went_on, w)
                | some d ↦ acquire s fields cap c j (record w { drainer = d })
              ]).1
      go none e = g
      go (some d) e = (
        acquire-Guards s fields cap c j (record w { drainer = d })
            (reserve-Guarded name j.worker.key w.drainer d (workers_of w.jobs) g.0 free e),
        acquire-length s fields cap c j (record w { drainer = d }) some_slot g.1,
      )

  unless_answered-Pooled :
      (answered : Bool) (c : Choice) (name : Text)
      → Turns (Free cap name) (Pooled cap) (unless_answered s fields cap answered c name)
  unfolding unless_answered
  unless_answered-Pooled true c name =
      Turns-bind (Free cap name) (Free cap name) (Pooled cap) (on_link (pick_up outbox name))
        (λ _. pure went_on) (on_link-Free cap name (pick_up outbox name)) (λ w g. g.0)
        (λ _ w g. g.0)
  unless_answered-Pooled false c name =
      Turns-bind (Free cap name) (Free cap name) (Pooled cap) (on_link (read_file outbox_new name))
        (reserve_and_send s fields cap c name) (on_link-Free cap name (read_file outbox_new name))
        (λ w g. g.0) (reserve_and_send-Pooled c name)

  unless_skipped-Pooled :
      (c : Choice) (name : Text)
      → Turns (Free cap name) (Pooled cap) (unless_skipped s fields cap false c name)
  unfolding unless_skipped
  unless_skipped-Pooled c name =
      Turns-bind (Free cap name) (Free cap name) (Pooled cap) (on_link (response_exists s name))
        (λ answered. unless_answered s fields cap answered c name)
        (on_link-Free cap name (response_exists s name)) (λ w g. g.0)
        (λ answered. unless_answered-Pooled answered c name)

  consider-Pooled :
      (c : Choice) (name : Text) → Turns (Pooled cap) (Pooled cap) (consider s fields cap c name)
  unfolding consider
  consider-Pooled c name w g =
      let w₁ = finish_all s fields cap c.finishing w in
      let g₁ : Pooled cap w₁ = (
        finish_all-Guards s fields cap c.finishing w g.0,
        finish_all-length s fields cap c.finishing w g.1,
      ) in
      elim (Bool-cases (not (valid_request_name name) || has_key name w₁.drainer.inflight)) [
        | inl e ↦ rw e (unfold unless_skipped in g₁)
        | inr e ↦ rw e (
            unless_skipped-Pooled c name w₁
              (g₁, right (not (valid_request_name name)) (has_key name w₁.drainer.inflight) e))
      ]
    where
      right : (a b : Bool) → (a || b) ≡ false → b ≡ false
      right true b h = absurd (cc)
      right false b h = h

  drain_names-Pooled :
      (cs : List Choice) (names : List Text) (n : ℕ)
      → Turns (Pooled cap) (Pooled cap) (drain_names s fields cap cs names n)
  unfolding drain_names
  drain_names-Pooled [] [] n = λ w g. g
  drain_names-Pooled (c ∷ cs) [] n = λ w g. g
  drain_names-Pooled cs (name ∷ names) n =
      Turns-bind (Pooled cap) (Pooled cap) (Pooled cap) (consider s fields cap (choice_of cs) name)
        (continue (drain_names s fields cap (rest_of cs) names) n)
        (consider-Pooled (choice_of cs) name) (λ w g. g)
        (by_verdict (drain_names-Pooled (rest_of cs) names))
    where
      by_verdict :
          ((i : ℕ)
            → Turns (Pooled cap) (Pooled cap) (drain_names s fields cap (rest_of cs) names i))
          → (v : Verdict)
          → Turns
              (Pooled cap)
              (Pooled cap)
              (continue (drain_names s fields cap (rest_of cs) names) n v)
      by_verdict ih went_on = unfold continue in ih n
      by_verdict ih sent = unfold continue in ih (suc n)
      by_verdict ih stopped = unfold continue in λ w g. g

  -- In a pass the guards stay those of the workers that run, also where the pass fails.
  pub drain_new-Pooled :
      (cs : List Choice) (w : Work) → Pooled cap w → Pooled cap (drain_new s fields cap cs w).1
  unfolding drain_new
  drain_new-Pooled cs =
      Turns-bind (Pooled cap) (Pooled cap) (Pooled cap) (on_link (list outbox_new))
        (λ names. drain_names s fields cap cs names 0) (on_link-Pooled cap (list outbox_new))
        (λ w g. g) (λ names. drain_names-Pooled cs names 0)
