-- ===== src/Protocol/Pool.antt =====
-- The bounded worker pool of internal/protocol/dispatch.go: drainer (inflightHas, reserve, release)
-- and workers.
pub mod Guarded
use mathlib.Core.List.{map}
use iceclimber.Common.{
  ℕ, zero, suc, ◌<◌, ◌≡◌, Bool, true, false, not, ◌||◌, Option, none, some, List, [], ◌∷◌, ◌++◌,
  if◌then◌else◌, length,
}
use iceclimber.Common.Text.{Text, text_eq}
use iceclimber.Protocol.Names.{valid_request_name}

-- A map[string]struct{} as the list of its keys.
unfoldable pub has_key : Text → List Text → Bool
unfolding text_eq
has_key k [] = false
has_key k (x ∷ xs) = if text_eq x k then true else has_key k xs

unfoldable pub delete_key : Text → List Text → List Text
unfolding text_eq
delete_key k [] = []
delete_key k (x ∷ xs) = let rest = delete_key k xs in if text_eq x k then rest else x ∷ rest

unfoldable pub insert_key : Text → List Text → List Text
unfolding has_key
insert_key k xs = if has_key k xs then xs else k ∷ xs

-- the two guards of `drainer`
pub record Drainer : Type 0 where
  pub inflight : List Text
  pub active : List Text

abbrev pub new_drainer : Drainer
new_drainer = record { inflight = []; active = [] }

-- `none` where reserve returns false
unfoldable pub reserve : Text → Text → Drainer → Option Drainer
unfolding insert_key text_eq
reserve name key d =
    if text_eq key []
    then some (record d { inflight = insert_key name d.inflight })
    else if has_key key d.active
    then none
    else some (record { inflight = insert_key name d.inflight; active = insert_key key d.active })

unfoldable pub release : Text → Text → Drainer → Drainer
unfolding delete_key text_eq
release name key d =
    if text_eq key []
    then record d { inflight = delete_key name d.inflight }
    else record { inflight = delete_key name d.inflight; active = delete_key key d.active }

-- workers(): the pool size
unfoldable pub pool_size : ℕ → ℕ
pool_size zero = 1
pool_size (suc n) = suc n

pub record Worker : Type 0 where
  pub name : Text
  pub key : Text
