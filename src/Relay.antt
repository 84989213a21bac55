-- ===== src/Relay.antt =====
-- internal/relay/fetch.go: one Fetch, with the cache directory as a box of files, the lock files
-- left out. sha256 in hex and the network are parameters.
pub mod Cached
pub mod Peers
pub mod Installed
use iceclimber.Common.{Bool, true, false, Option, none, some, List, [], ◌∷◌, ◌++◌, if◌then◌else◌}
use iceclimber.Common.Result.{Result, ok, err}
use iceclimber.Common.Text.{Text, codes, text_eq}
use iceclimber.Common.Boxes.{Box, lookup, put, remove}

pub record Asset : Type 0 where
  pub name : Text
  pub url : Text
  pub sha256 : Text

-- What a Fetcher works with: the hash, the body that HTTPGet gives for a URL, and which system
-- calls succeed. `temp_name` is the name that CreateTemp makes of a pattern's first part.
pub record Host : Type 0 where
  pub hash : Text → Text
  pub get : Text → Option Text
  pub makes_dir : Bool
  pub locks : Bool
  pub creates : Bool
  pub copies : Bool
  pub renames : Bool
  pub temp_name : Text → Text

pub data FetchError : Type 0 where
  no_cache no_lock download_failed not_created copy_failed mismatch not_renamed : FetchError

abbrev pub temp_of : Text → Text
temp_of name = name ++ codes ".tmp"

-- The name of a file of the cache or an error, and the cache.
abbrev pub Outcome : Type 0
Outcome = Result FetchError Text × Box

module _ (h : Host) where
  -- fileSHA256 gives the pinned hash
  unfoldable pub is_cached : Asset → Box → Bool
  unfolding lookup text_eq
  is_cached a cache = elim (lookup a.name cache) [
    | none ↦ false
    | some s ↦ text_eq (h.hash s) a.sha256
  ]

  -- what follows the copy: the check of the hash, and the rename
  unfoldable pub publish : Asset → Text → Box → Outcome
  unfolding put remove text_eq
  publish a body cache =
      if text_eq (h.hash body) a.sha256
      then (if h.renames
          then (ok a.name, put a.name body (remove (temp_of a.name) cache))
          else (err not_renamed, cache))
      else (err mismatch, remove (temp_of a.name) cache)

  unfoldable pub store_body : Asset → Text → Box → Outcome
  unfolding publish put remove
  store_body a body cache =
      if h.creates
      then (if h.copies
          then publish a body (put (temp_of a.name) body cache)
          else (err copy_failed, remove (temp_of a.name) (put (temp_of a.name) [] cache)))
      else (err not_created, cache)

  unfoldable pub download_to : Asset → Box → Outcome
  unfolding store_body
  download_to a cache = elim (h.get a.url) [
    | none ↦ (err download_failed, cache)
    | some body ↦ store_body a body cache
  ]

  unfoldable pub store_unpinned : Asset → Text → Box → Outcome
  unfolding put
  store_unpinned a body cache =
      let temp = h.temp_name (a.name ++ codes ".unpinned-") in
      if h.creates
      then (if h.copies then (ok temp, put temp body cache) else (err copy_failed, cache))
      else (err not_created, cache)

  unfoldable pub fetch_unpinned : Asset → Box → Outcome
  unfolding store_unpinned
  fetch_unpinned a cache = elim (h.get a.url) [
    | none ↦ (err download_failed, cache)
    | some body ↦ store_unpinned a body cache
  ]

  -- behind the fast path. Nobody has written in between, so the second look finds what the first
  -- did; Peers has the other case.
  unfoldable pub fetch_locked : Asset → Box → Outcome
  unfolding is_cached download_to
  fetch_locked a cache =
      if h.locks
      then (if is_cached a cache then (ok a.name, cache) else download_to a cache)
      else (err no_lock, cache)

  unfoldable pub fetch_pinned : Asset → Box → Outcome
  unfolding is_cached fetch_locked
  fetch_pinned a cache = if is_cached a cache then (ok a.name, cache) else fetch_locked a cache

  unfoldable pub fetch : Asset → Box → Outcome
  unfolding fetch_unpinned fetch_pinned text_eq
  fetch a cache =
      if h.makes_dir
      then (if text_eq a.sha256 [] then fetch_unpinned a cache else fetch_pinned a cache)
      else (err no_cache, cache)
