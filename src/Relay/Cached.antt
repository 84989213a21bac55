-- ===== src/Relay/Cached.antt =====
-- What Fetch of internal/relay/fetch.go leaves in the cache.
use iceclimber.Common.{
  ◌≡◌, ◌≢◌, refl, ap, ◌∙◌, Bool, true, false, Option, none, some, [], if◌then◌else◌, length,
  length-append, arith,
}
use mathlib.Core.Bool.{false≢true}
use iceclimber.Common.Result.{ok, err}
use iceclimber.Common.Text.{Text, codes, text_eq, text_eq_iff, text_eq_refl, text_eq_ne}
use iceclimber.Common.Boxes.{Box, lookup, put, remove, lookup-put, lookup-remove}
use iceclimber.Relay.{
  Asset, Host, FetchError, no_cache, no_lock, download_failed, not_created, copy_failed, mismatch,
  not_renamed, temp_of, Outcome, is_cached, publish, store_body, download_to, fetch_locked,
  fetch_pinned, fetch_unpinned, fetch,
}

module _ (h : Host) (a : Asset) where
  -- A pinned fetch that succeeds gives the asset's file, with content of the pinned hash; one that
  -- fails has left that file as it was; all files but it and its temporary one are as they were.
  pub record Fetched (cache : Box) (o : Outcome) : Type 0 where
    pub verified :
        (name : Text)
        → o.0 ≡ ok name
        → (name ≡ a.name) × ((s : Text) × (lookup a.name o.1 ≡ some s) × (h.hash s ≡ a.sha256))
    pub kept : (e : FetchError) → o.0 ≡ err e → lookup a.name o.1 ≡ lookup a.name cache
    pub others :
        (k : Text)
        → text_eq a.name k ≡ false
        → text_eq (temp_of a.name) k ≡ false
        → lookup k o.1 ≡ lookup k cache

  apart : text_eq (temp_of a.name) a.name ≡ false
  apart = text_eq_ne (temp_of a.name) a.name (λ e.
      let n = ap length e in let m = length-append a.name (codes ".tmp") in absurd (omega arith))

  -- Caches that differ in the temporary file only.
  abbrev Alike : Box → Box → Type 0
  Alike cache cache' =
      (k : Text) → text_eq (temp_of a.name) k ≡ false → lookup k cache' ≡ lookup k cache

  failed :
      (cache cache' : Box) (e : FetchError) → Alike cache cache' → Fetched cache (err e, cache')
  failed cache cache' e same = record {
    verified = λ name q. absurd (cc);
    kept = λ e' q. same a.name apart;
    others = λ k n m. same k m;
  }

  found :
      (cache : Box) (s : Text)
      → lookup a.name cache ≡ some s
      → h.hash s ≡ a.sha256
      → Fetched cache (ok a.name, cache)
  found cache s at e = record {
    verified = λ name q. (cc, (s, at, e));
    kept = λ x q. refl;
    others = λ k n m. refl;
  }

  Alike-put : (cache : Box) (s : Text) → Alike cache (put (temp_of a.name) s cache)
  Alike-put cache s k m = lookup-put (temp_of a.name) k s cache ∙ rw m

  Alike-remove :
      (cache cache' : Box) → Alike cache cache' → Alike cache (remove (temp_of a.name) cache')
  Alike-remove cache cache' same k m = lookup-remove (temp_of a.name) k cache' ∙ rw m (same k m)

  published :
      (cache cache' : Box) (body : Text)
      → Alike cache cache'
      → h.hash body ≡ a.sha256
      → Fetched cache (ok a.name, put a.name body (remove (temp_of a.name) cache'))
  published cache cache' body same e = record {
    verified = λ name q. (
      cc,
      (body, lookup-put a.name a.name body (remove (temp_of a.name) cache') ∙ rw text_eq_refl, e),
    );
    kept = λ x q. absurd (cc);
    others = λ k n m.
        lookup-put a.name k body (remove (temp_of a.name) cache')
        ∙ rw n (Alike-remove cache cache' same k m);
  }

  publish-Fetched :
      (cache cache' : Box) (body : Text)
      → Alike cache cache'
      → Fetched cache (publish h a body cache')
  unfolding publish text_eq
  publish-Fetched cache cache' body same =
      go (text_eq (h.hash body) a.sha256) h.renames (text_eq_iff (h.hash body) a.sha256).0
    where
      go :
          (b r : Bool)
          → (b ≡ true → h.hash body ≡ a.sha256)
          → Fetched cache (
              if b
              then (if r
                  then (ok a.name, put a.name body (remove (temp_of a.name) cache'))
                  else (err not_renamed, cache'))
              else (err mismatch, remove (temp_of a.name) cache'))
      go true true e = published cache cache' body same (e refl)
      go true false e = failed cache cache' not_renamed same
      go false r e =
          failed cache (remove (temp_of a.name) cache') mismatch (Alike-remove cache cache' same)

  store_body-Fetched : (cache : Box) (body : Text) → Fetched cache (store_body h a body cache)
  unfolding store_body
  store_body-Fetched cache body = go h.creates h.copies
    where
      go :
          (c d : Bool)
          → Fetched cache (
              if c
              then (if d
                  then publish h a body (put (temp_of a.name) body cache)
                  else (err copy_failed, remove (temp_of a.name) (put (temp_of a.name) [] cache)))
              else (err not_created, cache))
      go true true =
          publish-Fetched cache (put (temp_of a.name) body cache) body (Alike-put cache body)
      go true false =
          failed cache (remove (temp_of a.name) (put (temp_of a.name) [] cache)) copy_failed
            (Alike-remove cache (put (temp_of a.name) [] cache) (Alike-put cache []))
      go false d = failed cache cache not_created (λ k m. refl)

  download_to-Fetched : (cache : Box) → Fetched cache (download_to h a cache)
  unfolding download_to
  download_to-Fetched cache = go (h.get a.url)
    where
      go :
          (o : Option Text)
          → Fetched cache (elim o [
            | none ↦ (err download_failed, cache)
            | some body ↦ store_body h a body cache
          ])
      go none = failed cache cache download_failed (λ k m. refl)
      go (some body) = store_body-Fetched cache body

  is_cached-found : (cache : Box) → is_cached h a cache ≡ true → Fetched cache (ok a.name, cache)
  unfolding is_cached
  is_cached-found cache e = go (lookup a.name cache) refl e
    where
      go :
          (o : Option Text)
          → lookup a.name cache ≡ o
          → ◌≡◌ {A = Bool} (elim o [ none ↦ false | some s ↦ text_eq (h.hash s) a.sha256 ]) true
          → Fetched cache (ok a.name, cache)
      go none at q = absurd (false≢true q)
      go (some s) at q = found cache s at ((text_eq_iff (h.hash s) a.sha256).0 q)

  fetch_locked-Fetched : (cache : Box) → Fetched cache (fetch_locked h a cache)
  unfolding fetch_locked
  fetch_locked-Fetched cache = go h.locks (is_cached h a cache) (is_cached-found cache)
    where
      go :
          (l b : Bool)
          → (b ≡ true → Fetched cache (ok a.name, cache))
          → Fetched cache (
              if l
              then (if b then (ok a.name, cache) else download_to h a cache)
              else (err no_lock, cache))
      go true true hit = hit refl
      go true false hit = download_to-Fetched cache
      go false b hit = failed cache cache no_lock (λ k m. refl)

  fetch_pinned-Fetched : (cache : Box) → Fetched cache (fetch_pinned h a cache)
  unfolding fetch_pinned
  fetch_pinned-Fetched cache = go (is_cached h a cache) (is_cached-found cache)
    where
      go :
          (b : Bool)
          → (b ≡ true → Fetched cache (ok a.name, cache))
          → Fetched cache (if b then (ok a.name, cache) else fetch_locked h a cache)
      go true hit = hit refl
      go false hit = fetch_locked-Fetched cache

-- Fetch of a pinned asset, on every path: if it succeeds, the file that it names holds content of
-- the pinned hash, whatever the cache held and whatever the network gave; if it fails, that file
-- is as it was. No other file of the cache changes but the temporary one (lock files are left out).
pub fetch-Fetched :
    (h : Host) (a : Asset) (cache : Box) → a.sha256 ≢ [] → Fetched h a cache (fetch h a cache)
unfolding fetch
fetch-Fetched h a cache pinned =
    go h.makes_dir (text_eq a.sha256 []) (λ e. pinned ((text_eq_iff a.sha256 []).0 e))
  where
    go :
        (d b : Bool)
        → (b ≡ true → ⊥)
        → Fetched h a cache (
            if d
            then (if b then fetch_unpinned h a cache else fetch_pinned h a cache)
            else (err no_cache, cache))
    go true true n = absurd (n refl)
    go true false n = fetch_pinned-Fetched h a cache
    go false b n = failed h a cache cache no_cache (λ k m. refl)
