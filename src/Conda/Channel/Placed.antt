-- ===== src/Conda/Channel/Placed.antt =====
-- Where downloadChannel of internal/conda/relay.go writes, and what.
use mathlib.Core.Bool.{false≢true}
use iceclimber.Common.{
  ◌≡◌, ◌≢◌, ◌⊎◌, refl, sym, ap, ◌∙◌, inl, inr, Bool, true, false, not, ◌||◌, some, List, [], ◌∷◌,
  ◌++◌, All, AnyOf, append_assoc, if◌then◌else◌,
}
use iceclimber.Common.Result.{Result, ok, err}
use iceclimber.Common.Text.{Text, codes, text_eq, text_eq_iff, has_prefix, contains_byte}
use iceclimber.Common.Boxes.{Box, lookup, put}
use iceclimber.Common.Slash.{join}
use iceclimber.Common.Slash.Components.{Component, path_of, join-component, All-last}
use iceclimber.Conda.{CondaRecord, fn_of, subdir_of, safe_path_component, scheme_of}
use iceclimber.Conda.Channel.Staged.{Succeeds, Content, stage-Stepped}
use iceclimber.Conda.Channel.{
  Disk, ChannelError, no_url, not_https, unsafe_component, no_dir, Files, Download, stage, stage_at,
  download_record, download_rest, download_channel,
}

pub record Accepted (r : CondaRecord) : Type 0 where
  pub https : has_prefix r.url (codes "https://") ≡ true
  pub file : Component (fn_of r)
  pub directory : Component (subdir_of r)

safe-Component : (s : Text) → safe_path_component s ≡ true → Component s
unfolding safe_path_component
safe-Component s h =
    go (text_eq s []) (text_eq s (codes ".")) (text_eq s (codes "..")) (contains_byte s b'/')
      (contains_byte s b'\\') refl refl refl refl h
  where
    apart : (t : Text) → text_eq s t ≡ false → s ≢ t
    apart t e q = false≢true (sym e ∙ (text_eq_iff s t).1 q)

    go :
        (a b c e g : Bool)
        → text_eq s [] ≡ a
        → text_eq s (codes ".") ≡ b
        → text_eq s (codes "..") ≡ c
        → contains_byte s b'/' ≡ e
        → not (a || b || c || e || g) ≡ true
        → Component s
    go false false false false g p q t u m = record {
      not_empty = apart [] p;
      not_dot = apart _ q;
      not_dot_dot = apart _ t;
      no_slash = u;
    }
    go true b c e g p q t u m = absurd (false≢true m)
    go false true c e g p q t u m = absurd (false≢true m)
    go false false true e g p q t u m = absurd (false≢true m)
    go false false false true g p q t u m = absurd (false≢true m)

module _ (d : Disk) (v : Text) (vs : List Text) (rooted : All Component (v ∷ vs)) where
  -- the path of a record's file below the channel's directory
  abbrev pub dest_of : CondaRecord → Text
  dest_of r = path_of ((v ∷ vs) ++ subdir_of r ∷ fn_of r ∷ [])

  -- A file that a record has put into the channel.
  abbrev pub FromRecord : Type 0 → Text → Text → CondaRecord → Type 0
  FromRecord finished p s r = Accepted r × (p ≡ dest_of r) × (finished → Content d r s)

  -- Each file of the channel was there before or comes from one of these records.
  abbrev pub Placed :
      {A : Type 0} → List CondaRecord → Files → Result ChannelError A × Files → Type 0
  Placed recs files o =
      (p s : Text)
      → lookup p o.1.channel ≡ some s
      → (lookup p files.channel ≡ some s) ⊎ AnyOf (FromRecord (Succeeds o.0) p s) recs

  path-dest_of :
      (r : CondaRecord)
      → Accepted r
      → join (join (path_of (v ∷ vs) ∷ subdir_of r ∷ []) ∷ fn_of r ∷ []) ≡ dest_of r
  path-dest_of r a =
      ap (λ t. join (t ∷ fn_of r ∷ [])) (join-component v vs (subdir_of r) rooted a.directory)
      ∙ join-component v (vs ++ subdir_of r ∷ []) (fn_of r)
          (All-last (v ∷ vs) (subdir_of r) rooted a.directory) a.file
      ∙ ap path_of (append_assoc (v ∷ vs) (subdir_of r ∷ []) (fn_of r ∷ []))

  -- One round of the loop.
  abbrev OneStep : CondaRecord → Files → Download → Type 0
  OneStep r files o =
      (p s : Text)
      → lookup p o.1.channel ≡ some s
      → (lookup p files.channel ≡ some s) ⊎ FromRecord (Succeeds o.0) p s r

  stage_at-OneStep :
      (r : CondaRecord) (files : Files)
      → Accepted r
      → OneStep r files (stage_at d (path_of (v ∷ vs)) r (subdir_of r) (fn_of r) files)
  unfolding stage_at
  stage_at-OneStep r files a = go (d.makes (join (path_of (v ∷ vs) ∷ subdir_of r ∷ [])))
    where
      dest : Text
      dest = join (join (path_of (v ∷ vs) ∷ subdir_of r ∷ []) ∷ fn_of r ∷ [])

      go :
          (b : Bool)
          → OneStep r files
              (if b then stage d r (subdir_of r) (fn_of r) dest files else (err no_dir, files))
      go false p s h = inl h
      go true p s h = elim (stage-Stepped d r (subdir_of r) (fn_of r) dest files p s h) [
        | inl before ↦ inl before
        | inr (q, content) ↦ inr (a, q ∙ path-dest_of r a, content)
      ]

  download_record-OneStep :
      (r : CondaRecord) (files : Files)
      → OneStep r files (download_record d (path_of (v ∷ vs)) r files)
  unfolding download_record
  download_record-OneStep r files =
      go (text_eq r.url []) (has_prefix r.url (codes "https://")) (safe_path_component (fn_of r))
        (safe_path_component (subdir_of r))
        (λ x y z. stage_at-OneStep r files (record {
          https = x;
          file = safe-Component (fn_of r) y;
          directory = safe-Component (subdir_of r) z;
        }))
    where
      go :
          (a b c e : Bool)
          → (b ≡ true
              → c ≡ true
              → e ≡ true
              → OneStep r files (stage_at d (path_of (v ∷ vs)) r (subdir_of r) (fn_of r) files))
          → OneStep r files (
              if a
              then (err (no_url r.name), files)
              else if not b
              then (err (not_https (scheme_of r.url)), files)
              else if not c
              then (err (unsafe_component (fn_of r)), files)
              else if not e
              then (err (unsafe_component (subdir_of r)), files)
              else stage_at d (path_of (v ∷ vs)) r (subdir_of r) (fn_of r) files)
      go true b c e staged = λ p s h. inl h
      go false false c e staged = λ p s h. inl h
      go false true false e staged = λ p s h. inl h
      go false true true false staged = λ p s h. inl h
      go false true true true staged = staged refl refl refl

  download_rest-Placed :
      (recs : List CondaRecord) (shas : Box) (files : Files)
      → Placed recs files (download_rest d (path_of (v ∷ vs)) recs shas files)
  unfolding download_rest
  download_rest-Placed [] shas files p s h = inl h
  download_rest-Placed (r ∷ recs) shas files p s h =
      go (download_record d (path_of (v ∷ vs)) r files) (download_record-OneStep r files)
        (λ sum files'. download_rest-Placed recs (put r.name sum shas) files') p s h
    where
      go :
          (o : Download)
          → OneStep r files o
          → ((sum : Text) (files' : Files)
              → Placed recs files'
                  (download_rest d (path_of (v ∷ vs)) recs (put r.name sum shas) files'))
          → Placed {A = Box} (r ∷ recs) files (elim o.0 [
            | err e ↦ (err e, o.1)
            | ok sum ↦ download_rest d (path_of (v ∷ vs)) recs (put r.name sum shas) o.1
          ])
      go (err e, files') one rest p s h = elim (one p s h) [
        | inl before ↦ inl before
        | inr from ↦ inr (inl from)
      ]
      go (ok sum, files') one rest p s h = elim (rest sum files' p s h) [
        | inr later ↦ inr (inr later)
        | inl now ↦ elim (one p s now) [
          | inl before ↦ inl before
          | inr (a, q, content) ↦ inr (inl (a, q, λ _. content tt))
        ]
      ]

  -- Every file that downloadChannel writes, whatever the solve says and wherever it stops, is
  -- <the channel's directory>/<subdir>/<fn> of a record with an https URL, where neither name is
  -- empty, "." or "..", or has a slash. If it succeeds, the file has the hash of that record, or,
  -- if the record has none, is what the network gave. (The channel's directory is a rooted path of
  -- components.)
  pub download_channel-Placed :
      (recs : List CondaRecord) (files : Files)
      → Placed recs files (download_channel d (path_of (v ∷ vs)) recs files)
  unfolding download_channel
  download_channel-Placed recs files = download_rest-Placed recs [] files
