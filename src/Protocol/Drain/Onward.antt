-- ===== src/Protocol/Drain/Onward.antt =====
-- What the rounds of drainNew (internal/protocol/dispatch.go) keep track of: the files in outbox/new,
-- the answers in the inbox, and the handlers that run.
pub mod Service
pub mod Finish
pub mod Launch
pub mod Rounds
pub mod Loop
use iceclimber.Common.{
  ◌≤◌, ◌+◌, ◌≡◌, refl, sym, ap, ◌∙◌, ◌⊎◌, inl, inr, ℕ, Bool, true, ◌||◌, Option, none, some, List,
  [], ◌∷◌, arith, length, AnyOf, Bool-cases,
}
use iceclimber.Common.Result.{Result, ok, err}
use iceclimber.Common.Text.{Text, text_eq}
use iceclimber.Common.Boxes.{Box, lookup, remove, is_some}
use iceclimber.Protocol.Mail.{outbox_new, inbox_new, inbox_cur, FsError, Tree, Link, Call}
use iceclimber.Protocol.Mail.Laws.{file}
use iceclimber.Protocol.Dispatch.Recovery.{Answered}
use iceclimber.Protocol.Drain.{Job, Work, Act, ◌>>=◌, on_link}

-- The number of files in outbox/new.
abbrev pub queued : Work → ℕ
queued w = length (w.link.tree outbox_new)

-- A request is still queued, answered, or being serviced, or a worker has failed.
abbrev pub Tracked : Text → Work → Type 0
Tracked k w =
    (is_some (file w.link.tree outbox_new k) ≡ true)
    ⊎ Answered w.link.tree k
    ⊎ AnyOf (λ (j : Job). j.worker.name ≡ k) w.jobs
    ⊎ ((e : FsError) × (w.failure ≡ some e))

pub record Onward (w w' : Work) : Type 0 where
  pub less : queued w' ≤ queued w
  pub gone :
      (k : Text) → file w.link.tree outbox_new k ≡ none → file w'.link.tree outbox_new k ≡ none
  pub keeps : (k : Text) → Tracked k w → Tracked k w'
  pub fails : (e : FsError) → w.failure ≡ some e → w'.failure ≡ some e

pub Onward-refl : (w : Work) → Onward w w
Onward-refl w = record { less = omega arith; gone = λ k h. h; keeps = λ k h. h; fails = λ e h. h }

pub Onward-trans : {u v w : Work} → Onward u v → Onward v w → Onward u w
Onward-trans a b = record {
  less = omega arith;
  gone = λ k h. b.gone k (a.gone k h);
  keeps = λ k h. b.keeps k (a.keeps k h);
  fails = λ e h. b.fails e (a.fails e h);
}

-- Another drainer, and a link with the same tree.
pub Onward-same :
    (w w' : Work)
    → w'.jobs ≡ w.jobs
    → w'.failure ≡ w.failure
    → w'.link.tree ≡ w.link.tree
    → Onward w w'
Onward-same w w' j f t = record {
  less = rw t (omega arith);
  gone = λ k h. rw t h;
  keeps = λ k h. rw (j, f, t) h;
  fails = λ e h. rw f h;
}

pub length-remove : (k : Text) (b : Box) → length (remove k b) ≤ length b
unfolding remove
length-remove k [] = omega arith
length-remove k ((j, w) ∷ m) = elim (Bool-cases (text_eq j k)) [
  | inl e ↦ rw e (let ih = length-remove k m in omega arith)
  | inr e ↦ rw e (let ih = length-remove k m in omega arith)
]

pub length-remove_found :
    (k s : Text) (b : Box) → lookup k b ≡ some s → 1 + length (remove k b) ≤ length b
unfolding remove lookup
length-remove_found k s [] h = absurd (cc)
length-remove_found k s ((j, w) ∷ m) h = elim (Bool-cases (text_eq j k)) [
  | inl e ↦ rw e (let ih = length-remove k m in omega arith)
  | inr e ↦ rw e (let ih = length-remove_found k s m (rw e at h) in omega arith)
]

-- A block that passed: its first act passed, and then the rest.
pub bind_inv :
    {A B : Type 0} (m : Act A) (f : A → Act B) (b : B) (w w' : Work)
    → (m >>= f) w ≡ (ok b, w')
    → (a : A) × (w₁ : Work) × (m w ≡ (ok a, w₁)) × (f a w₁ ≡ (ok b, w'))
bind_inv {A} {B} m f b w w' h = go (m w) refl h
  where
    go :
        (r : Result FsError A × Work)
        → m w ≡ r
        → (elim r.0 as (λ _. Result FsError B × Work) [ ok a ↦ f a r.1 | err e ↦ (err e, r.1) ])
          ≡ (ok b, w')
        → (a : A) × (w₁ : Work) × (m w ≡ (ok a, w₁)) × (f a w₁ ≡ (ok b, w'))
    go (ok a, w₁) e q = (a, w₁, e, q)
    go (err x, w₁) e q = absurd (cc)

pub on_link-ok :
    {A : Type 0} (m : Call A) (a : A) (w w' : Work)
    → on_link m w ≡ (ok a, w')
    → (l : Link) × (m w.link ≡ (ok a, l)) × (w' ≡ record w { link = l })
unfolding on_link
on_link-ok {A} m a w w' h = (
  (m w.link).1,
  ap (λ x. (x, (m w.link).1)) (ap (λ (r : Result FsError A × Work). r.0) h),
  ap (λ (r : Result FsError A × Work). r.1) (sym h),
)
