-- ===== src/Protocol/Drain/Onward/Service.antt =====
-- What a worker does to the tree when it finishes: serviceCurData of internal/protocol/dispatch.go.
use iceclimber.Common.{
  ℕ, zero, suc, ◌≡◌, refl, ◌⊎◌, inl, inr, Bool, true, false, ◌||◌, Option, none, some, List, [],
  ◌∷◌, ◌++◌, arith, AnyOf, Option-cases,
}
use iceclimber.Common.Result.{Result, ok, err}
use iceclimber.Common.Text.{Text}
use iceclimber.Common.Boxes.{is_some}
use iceclimber.Protocol.Mail.{
  Folder, inbox_tmp, inbox_new, inbox_cur, inbox, same_folder, FsError, Link, deliver, pure, ◌>>◌,
}
use iceclimber.Protocol.Mail.Laws.{file, deliver-present, bind_ok, bind_err}
use iceclimber.Protocol.Dispatch.{
  Response, Server, dispatch, stamp_completed, deliver_response, service_cur_data,
}
use iceclimber.Protocol.Dispatch.Replies.{service_cur_data-Delivered}
use iceclimber.Protocol.Dispatch.Recovery.{Answered}
use iceclimber.Protocol.Drain.{Job, Work, pull, fail}

pub pull-none : (i : ℕ) (js : List Job) → pull i js ≡ none → js ≡ []
unfolding pull
pull-none i [] h = refl
pull-none zero (j ∷ js) h = absurd (cc)
pull-none (suc i) (j ∷ js) h = go (pull i js) h
  where
    go :
        (o : Option (List Job × Job × List Job))
        → (elim o as (λ _. Option (List Job × Job × List Job)) [
          | none ↦ some ([], j, js)
          | some (b, y, a) ↦ some (j ∷ b, y, a)
        ])
          ≡ none
        → j ∷ js ≡ []
    go none q = absurd (cc)
    go (some (b, y, a)) q = absurd (cc)

-- The place of the pulled job.
pub pull-split :
    (i : ℕ) (js before after : List Job) (j : Job)
    → pull i js ≡ some (before, j, after)
    → js ≡ before ++ j ∷ after
unfolding pull
pull-split i [] before after j h = absurd (cc)
pull-split zero (x ∷ js) before after j h = cc
pull-split (suc i) (x ∷ js) before after j h =
    go (λ b a y. pull-split i js b a y) (pull i js) refl h
  where
    go :
        ((b a : List Job) (y : Job) → pull i js ≡ some (b, y, a) → js ≡ b ++ y ∷ a)
        → (o : Option (List Job × Job × List Job)) → pull i js ≡ o
        → (elim o as (λ _. Option (List Job × Job × List Job)) [
          | none ↦ some ([], x, js)
          | some (b, y, a) ↦ some (x ∷ b, y, a)
        ])
          ≡ some (before, j, after)
        → x ∷ js ≡ before ++ j ∷ after
    go ih none e q = let none_left : js ≡ [] = pull-none i js e in cc
    go ih (some (b, y, a)) e q = let r = ih b a y e in cc

pub AnyOf-mid :
    (P : Job → Type 0) (before after : List Job) (j : Job)
    → AnyOf P (before ++ j ∷ after)
    → P j ⊎ AnyOf P (before ++ after)
AnyOf-mid P [] after j h = h
AnyOf-mid P (b ∷ before) after j (inl p) = inr (inl p)
AnyOf-mid P (b ∷ before) after j (inr h) = elim (AnyOf-mid P before after j h) [
  | inl p ↦ inl p
  | inr p ↦ inr (inr p)
]

module _ (s : Server) where
  service-keeps :
      (name body : Text) (l : Link) (g : Folder) (k : Text)
      → same_folder inbox_tmp g ≡ false
      → is_some (file l.tree g k) ≡ true
      → is_some (file (service_cur_data s name body l).1.tree g k) ≡ true
  unfolding service_cur_data
  service-keeps name body l g k t h =
      let resp = stamp_completed s (dispatch s name body) in
      elim (Option-cases (s.encode resp)) [
        | inl e ↦ unfold deliver_response in rw (e, deliver_response) h
        | inr (bytes, e) ↦
            unfold deliver_response in
            rw (e, deliver_response)
              (after bytes (deliver inbox name bytes l) refl
                (deliver-present inbox name bytes l g k t h))
      ]
    where
      after :
          (bytes : Text) (r : Result {0, 0} FsError Unit × Link)
          → deliver inbox name bytes l ≡ r
          → is_some (file r.1.tree g k) ≡ true
          → is_some (
              file
                ((deliver inbox name bytes >> pure (stamp_completed s (dispatch s name body)))
                  l).1.tree
                g
                k)
            ≡ true
      after bytes (ok u, l') e q =
          rw
            (bind_ok (deliver inbox name bytes)
              (λ _. pure (stamp_completed s (dispatch s name body))) u l l' e)
            q
      after bytes (err x, l') e q =
          rw
            (bind_err (deliver inbox name bytes)
              (λ _. pure (stamp_completed s (dispatch s name body))) x l l' e)
            q

  either :
      (a b c d : Bool)
      → (a ≡ true → c ≡ true)
      → (b ≡ true → d ≡ true)
      → (a || b) ≡ true
      → (c || d) ≡ true
  either a b c d f g h = ground arith

  pub service-Answered :
      (name body : Text) (l : Link) (k : Text)
      → Answered l.tree k
      → Answered (service_cur_data s name body l).1.tree k
  service-Answered name body l k h =
      either _ _ _ _ (service-keeps name body l inbox_new k refl)
        (service-keeps name body l inbox_cur k refl) h

  -- The request of a worker that finishes is answered, or the pool has failed.
  pub service-done :
      (name body : Text) (w : Work)
      → Answered (service_cur_data s name body w.link).1.tree name
        ⊎ ((e : FsError) × (fail (service_cur_data s name body w.link).0 w.failure ≡ some e))
  service-done name body w = go (service_cur_data s name body w.link) refl w.failure
    where
      go :
          (r : Result FsError Response × Link)
          → service_cur_data s name body w.link ≡ r
          → (old : Option FsError)
          → Answered r.1.tree name ⊎ ((e : FsError) × (fail r.0 old ≡ some e))
      go (ok resp, l') e old =
          let (_, _, (bytes, at, _, _)) = service_cur_data-Delivered s name body resp w.link l' e in
          inl (rw at)
      go (err x, l') e none = inr (x, unfold fail in refl)
      go (err x, l') e (some y) = inr (y, unfold fail in refl)

pub fail-some : {A : Type 0} (r : Result FsError A) (e : FsError) → fail r (some e) ≡ some e
unfolding fail
fail-some (ok a) e = refl
fail-some (err x) e = refl
