-- ===== src/Tests/Cache.antt =====
-- internal/relay/fetch.go at concrete inputs.
use iceclimber.Common.{◌≡◌, ◌≢◌, refl, true, none, some, [], ◌∷◌, ◌++◌}
use iceclimber.Common.Result.{ok}
use iceclimber.Common.Text.{codes, text_eq}
use iceclimber.Common.Boxes.{Box, lookup, put, remove}
use iceclimber.Relay.{
  Asset, Host, is_cached, publish, store_body, download_to, fetch_locked, fetch_pinned, fetch,
}
use iceclimber.Relay.Cached.{Fetched, fetch-Fetched}
use iceclimber.Relay.Peers.{
  looking, holding, downloading, copying, gone, waiting, Shared, Reach, initial, next, join, move,
  miss, lock, die_locked, miss_locked, create,
}
use iceclimber.Relay.Peers.Verified.{Sound, Reach-Sound}

-- The hash of a text is the text, and the network gives the same body for each URL.
abbrev pub small_host : Host
small_host = record {
  hash = λ s. s;
  get = λ _. some (codes "body");
  makes_dir = true;
  locks = true;
  creates = true;
  copies = true;
  renames = true;
  temp_name = λ s. s ++ codes "1";
}

abbrev asset : Asset
asset = record { name = codes "a.tgz"; url = codes "https://x/a"; sha256 = codes "body" }

abbrev poisoned : Box
poisoned = (codes "a.tgz", codes "old") ∷ []

fetch-Fetched_example : Fetched small_host asset poisoned (fetch small_host asset poisoned)
fetch-Fetched_example = fetch-Fetched small_host asset poisoned nonempty
  where
    nonempty : codes "body" ≢ []
    nonempty e = cc

fetched_anew :
    fetch small_host asset poisoned ≡ (ok (codes "a.tgz"), (codes "a.tgz", codes "body") ∷ [])
unfolding fetch fetch_pinned fetch_locked is_cached download_to store_body publish lookup put remove
    text_eq
fetched_anew = refl

-- Two processes: the second one dies with the lock, the first one copies.
abbrev crashed : Shared
crashed = record {
  final = some (codes "old");
  temp = some [];
  locked = true;
  phases = copying [] ∷ gone ∷ [];
}

crashed-Reach : Reach (λ s. s) (codes "body") (some (codes "old")) none crashed
crashed-Reach =
    next
      (next
        (next
          (next
            (next
              (next
                (next (next (next initial join) join)
                  (move (looking ∷ []) [] looking waiting refl miss))
                (move (looking ∷ []) [] waiting holding refl lock))
              (move (looking ∷ []) [] holding gone refl (die_locked refl)))
            (move [] (gone ∷ []) looking waiting refl miss))
          (move [] (gone ∷ []) waiting holding refl lock))
        (move [] (gone ∷ []) holding downloading refl miss_locked))
      (move [] (gone ∷ []) downloading (copying []) refl create)

Reach-Sound_example : Sound (λ s. s) (codes "body") crashed
Reach-Sound_example =
    Reach-Sound (λ s. s) (codes "body") (some (codes "old")) none crashed crashed-Reach
