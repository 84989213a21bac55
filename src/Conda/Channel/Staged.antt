-- ===== src/Conda/Channel/Staged.antt =====
-- What one download of internal/conda/relay.go puts at its destination.
use mathlib.Core.Bool.{false≢true}
use iceclimber.Common.{
  ◌≡◌, ◌≢◌, ◌⊎◌, ◌↔◌, refl, sym, ap, ◌∙◌, subst, inl, inr, Bool, true, false, not, Option, none,
  some, [], ◌∷◌, ◌++◌, Bool-cases, if◌then◌else◌,
}
use iceclimber.Common.Result.{Result, ok, err}
use iceclimber.Common.Text.{Text, codes, text_eq, text_eq_iff, ascii_lower}
use iceclimber.Common.Boxes.{lookup, lookup-put}
use iceclimber.Relay.{Asset, Outcome, fetch}
use iceclimber.Relay.Cached.{fetch-Fetched}
use iceclimber.Conda.{CondaRecord}
use iceclimber.Conda.Channel.{
  Created, whole, not_created, stopped, Disk, no_http, Files, Download, create, copy_file,
  copy_fetched, stage_pinned, download_file, stage,
}

abbrev pub Succeeds : {E A : Type 0} → Result E A → Type 0
Succeeds (ok a) = Unit
Succeeds (err e) = ⊥

ascii_lower-ne-nil : (s : Text) → s ≢ [] → ascii_lower s ≢ []
unfolding ascii_lower
ascii_lower-ne-nil [] h e = h refl
ascii_lower-ne-nil (c ∷ s) h e = cc

module _ (d : Disk) where
  -- The content that a record asks for: of its hash, or what the network gives if it has none.
  abbrev pub Content : CondaRecord → Text → Type 0
  Content r s =
      ((r.sha256 ≢ []) × (d.host.hash s ≡ ascii_lower r.sha256))
      ⊎ ((r.sha256 ≡ []) × (d.host.get r.url ≡ some s))

  -- A file of the channel after a download to `dest` was there before, or it is the one at `dest`,
  -- with the record's content if the download succeeded.
  abbrev pub Stepped : CondaRecord → Text → Files → Download → Type 0
  Stepped r dest files o =
      (p s : Text)
      → lookup p o.1.channel ≡ some s
      → (lookup p files.channel ≡ some s) ⊎ ((p ≡ dest) × (Succeeds o.0 → Content r s))

  create-Stepped :
      (r : CondaRecord) (c : Created) (dest body sum : Text) (files : Files)
      → Content r body
      → Stepped r dest files (create c dest body sum files)
  unfolding create
  create-Stepped r whole dest body sum files good p s h = elim (Bool-cases (text_eq dest p)) [
    | inl e ↦ inr (
      sym ((text_eq_iff dest p).0 e),
      λ _. subst (Content r) (inner (sym (lookup-put dest p body files.channel ∙ rw e) ∙ h)) good,
    )
    | inr e ↦ inl (sym (lookup-put dest p body files.channel ∙ rw e) ∙ h)
  ]
    where
      inner : {x y : Text} → some x ≡ some y → x ≡ y
      inner e = cc
  create-Stepped r not_created dest body sum files good p s h = inl h
  create-Stepped r (stopped part) dest body sum files good p s h =
      elim (Bool-cases (text_eq dest p)) [
        | inl e ↦ inr (sym ((text_eq_iff dest p).0 e), λ x. absurd x)
        | inr e ↦ inl (sym (lookup-put dest p part files.channel ∙ rw e) ∙ h)
      ]

  copy_fetched-Stepped :
      (r : CondaRecord) (a : Asset) (dest pin : Text) (files : Files) (o : Outcome)
      → ((name : Text) → o.0 ≡ ok name → (s : Text) × (lookup name o.1 ≡ some s) × Content r s)
      → Stepped r dest files (copy_fetched d o.0 dest pin (record files { cache = o.1 }))
  unfolding copy_fetched
  copy_fetched-Stepped r a dest pin files (err e, cache) good = λ p s h. inl h
  copy_fetched-Stepped r a dest pin files (ok name, cache) good =
      let (s, at, content) = good name refl in
      subst (Stepped r dest files) (sym (copied s at))
        (create-Stepped r (d.creates_at dest) dest s pin (record files { cache = cache }) content)
    where
      copied :
          (s : Text)
          → lookup name cache ≡ some s
          → copy_file d name dest pin (record files { cache = cache })
            ≡ create (d.creates_at dest) dest s pin (record files { cache = cache })
      copied s at = rw (at, copy_file)

  stage_pinned-Stepped :
      (r : CondaRecord) (sub fn dest : Text) (files : Files)
      → r.sha256 ≢ []
      → Stepped r dest files (stage_pinned d r sub fn dest files)
  unfolding stage_pinned
  stage_pinned-Stepped r sub fn dest files pinned =
      copy_fetched-Stepped r asset dest (ascii_lower r.sha256) files
        (fetch d.host asset files.cache) good
    where
      asset : Asset
      asset = record { name = sub ++ (codes "-" ++ fn); url = r.url; sha256 = ascii_lower r.sha256 }

      good :
          (name : Text)
          → (fetch d.host asset files.cache).0 ≡ ok name
          → (s : Text) × (lookup name (fetch d.host asset files.cache).1 ≡ some s) × Content r s
      good name e =
          let h = fetch-Fetched d.host asset files.cache (ascii_lower-ne-nil r.sha256 pinned) in
          let (q, (s, at, v)) = h.verified name e in
          (s, ap (λ k. lookup k (fetch d.host asset files.cache).1) q ∙ at, inl (pinned, v))

  download_file-Stepped :
      (r : CondaRecord) (dest : Text) (files : Files)
      → r.sha256 ≡ []
      → Stepped r dest files (download_file d r.url dest files)
  unfolding download_file
  download_file-Stepped r dest files bare = go (d.host.get r.url) refl
    where
      go :
          (o : Option Text)
          → d.host.get r.url ≡ o
          → Stepped r dest files (elim o [
            | none ↦ (err no_http, files)
            | some body ↦ create (d.creates_at dest) dest body (d.host.hash body) files
          ])
      go none e = λ p s h. inl h
      go (some body) e =
          create-Stepped r (d.creates_at dest) dest body (d.host.hash body) files (inr (bare, e))

  pub stage-Stepped :
      (r : CondaRecord) (sub fn dest : Text) (files : Files)
      → Stepped r dest files (stage d r sub fn dest files)
  unfolding stage
  stage-Stepped r sub fn dest files = go (text_eq r.sha256 []) (text_eq_iff r.sha256 [])
    where
      go :
          (b : Bool)
          → (b ≡ true) ↔ (r.sha256 ≡ [])
          → Stepped r dest files (
              if not b
              then stage_pinned d r sub fn dest files
              else download_file d r.url dest files)
      go true e = download_file-Stepped r dest files (e.0 refl)
      go false e = stage_pinned-Stepped r sub fn dest files (λ q. false≢true (e.1 q))
