-- ===== src/Protocol/Dispatch/Replies.antt =====
-- What serviceCurData of internal/protocol/dispatch.go delivers.
use iceclimber.Common.{
  ◌≡◌, refl, sym, ap, subst, ◌∙◌, ◌⊎◌, inl, inr, ℕ, false, none, some, if◌then◌else◌, Option-cases,
  Bool-cases,
}
use iceclimber.Common.Result.{Result, ok, err, ok-injective}
use iceclimber.Common.Text.{Text, text_eq, text_eq_refl}
use iceclimber.Protocol.Mail.{
  Folder, inbox_tmp, inbox_new, inbox, same_folder, FsError, unencodable, Link, deliver, pure, ◌>>◌,
}
use iceclimber.Protocol.Mail.Laws.{file, delivered, deliver-ok, bind_ok, bind_err}
use iceclimber.Protocol.Dispatch.{
  Response, Server, dispatch, stamp_completed, deliver_response, service_cur_data,
}

module _ (s : Server) where
  stamped : (r : Response) → (t : ℕ) × ((stamp_completed s r).completed_at ≡ some t)
  stamped r = elim (Option-cases r.completed_at) [
    | inl e ↦ (s.now, unfold stamp_completed in rw (e, stamp_completed))
    | inr (t, e) ↦ (t, unfold stamp_completed in rw (e, stamp_completed) e)
  ]

  -- What deliver_response leaves, whether it fails or not.
  abbrev pub Delivered : Text → Response → Link → Link → Type 0
  Delivered name resp l l' =
      (bytes : Text) × (file l'.tree inbox_new name ≡ some bytes)
      × (s.encode resp ≡ some bytes)
      × ((g : Folder) (k : Text)
          → same_folder inbox_tmp g ≡ false
          → ((same_folder inbox_new g ≡ false) ⊎ (text_eq name k ≡ false))
          → file l'.tree g k ≡ file l.tree g k)

  deliver-Delivered :
      (name bytes : Text) (resp : Response) (l l' : Link)
      → s.encode resp ≡ some bytes
      → deliver inbox name bytes l ≡ (ok tt, l')
      → Delivered name resp l l'
  deliver-Delivered name bytes resp l l' e d = (
    bytes,
    at inbox_new name refl ∙ rw text_eq_refl,
    e,
    λ g k h other. at g k h ∙ elim other [ inl n ↦ rw n | inr n ↦ unwritten g k n ],
  )
    where
      unwritten :
          (g : Folder) (k : Text)
          → text_eq name k ≡ false
          → (if same_folder inbox_new g
              then (if text_eq name k then some bytes else file l.tree g k)
              else file l.tree g k)
            ≡ file l.tree g k
      unwritten g k n = elim (Bool-cases (same_folder inbox_new g)) [
        | inl a ↦ rw (a, n)
        | inr a ↦ rw a
      ]

      at :
          (g : Folder) (k : Text)
          → same_folder inbox_tmp g ≡ false
          → file l'.tree g k ≡ delivered inbox_new name bytes l.tree g k
      at g k h = deliver-ok inbox name bytes l l' g k d h

  deliver_response-some :
      (name bytes : Text) (resp : Response) (l : Link)
      → s.encode resp ≡ some bytes
      → deliver_response s name resp l ≡ (deliver inbox name bytes >> pure resp) l
  deliver_response-some name bytes resp l e = unfold deliver_response in rw (e, deliver_response)

  deliver_response-none :
      (name : Text) (resp : Response) (l : Link)
      → s.encode resp ≡ none
      → deliver_response s name resp l ≡ (err unencodable, l)
  deliver_response-none name resp l e = unfold deliver_response in rw (e, deliver_response)

  deliver_response-ok :
      (name : Text) (resp out : Response) (l l' : Link)
      → deliver_response s name resp l ≡ (ok out, l')
      → (out ≡ resp) × Delivered name resp l l'
  deliver_response-ok name resp out l l' h = elim (Option-cases (s.encode resp)) [
    | inl e ↦ absurd (cc (deliver_response-none name resp l e))
    | inr (bytes, e) ↦
        after bytes e (deliver inbox name bytes l) refl
          (sym (deliver_response-some name bytes resp l e) ∙ h)
  ]
    where
      after :
          (bytes : Text)
          → s.encode resp ≡ some bytes
          → (d : Result FsError (Unit {0}) × Link) → deliver inbox name bytes l ≡ d
          → (deliver inbox name bytes >> pure resp) l ≡ (ok out, l')
          → (out ≡ resp) × Delivered name resp l l'
      after bytes e (ok u, l₁) q k =
          let b : (ok resp, l₁) ≡ (ok out, l') =
            sym (bind_ok (deliver inbox name bytes) (λ _. pure resp) u l l₁ q) ∙ k in
          (
            sym (ok-injective (ap (λ (r : Result FsError Response × Link). r.0) b)),
            subst (Delivered name resp l) (ap (λ (r : Result FsError Response × Link). r.1) b)
                (deliver-Delivered name bytes resp l l₁ e q),
          )
      after bytes e (err x, l₁) q k =
          absurd (cc (bind_err (deliver inbox name bytes) (λ _. pure resp) x l l₁ q))

  -- A request that was serviced without an error has its response in inbox/new under its own name:
  -- the whole encoding of the response that the observer is given, which is the dispatched one,
  -- dated. No other file outside inbox/tmp has changed.
  pub service_cur_data-Delivered :
      (name data_ : Text) (resp : Response) (l l' : Link)
      → service_cur_data s name data_ l ≡ (ok resp, l')
      → (resp ≡ stamp_completed s (dispatch s name data_))
        × ((t : ℕ) × (resp.completed_at ≡ some t))
        × Delivered name resp l l'
  service_cur_data-Delivered name data_ resp l l' h =
      let r = stamp_completed s (dispatch s name data_) in
      let (q, d) = deliver_response-ok name r resp l l' (unfold service_cur_data in h) in
      (
        q,
        subst (λ (x : Response). (t : ℕ) × (x.completed_at ≡ some t)) (sym q)
            (stamped (dispatch s name data_)),
        subst (λ x. Delivered name x l l') (sym q) d,
      )
