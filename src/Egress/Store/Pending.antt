-- ===== src/Egress/Store/Pending.antt =====
-- The queue of held requests of internal/egress/store.go: AddPending, RemovePending, Pending.
-- The clock (time.Now) is the argument `now`.
use iceclimber.Common.{Bool, true, false, Option, none, some, List, [], ◌∷◌, ◌++◌, if◌then◌else◌}
use iceclimber.Common.Result.{Result, ok, err}
use iceclimber.Common.Text.{Text, text_eq}
use iceclimber.Egress.Store.Files.{
  File, Json, WriteStep, StoreError, lock_failed, write_failed, Env, load, write_json_atomic,
}

pub record PendingEntry : Type 0 where
  pub id : Text
  pub url : Text
  pub host : Text
  pub ts : Text

abbrev pub Queue : Type 0
Queue = List PendingEntry

-- No error of this component carries a refusal of its own.
abbrev pub QueueError : Type 0
QueueError = StoreError ⊥

unfoldable pub stamp : Text → PendingEntry → PendingEntry
unfolding text_eq
stamp now e = if text_eq e.ts [] then record e { ts = now } else e

unfoldable pub has_url : Queue → Text → Bool
unfolding text_eq
has_url [] u = false
has_url (x ∷ p) u = if text_eq x.url u then true else has_url p u

-- The loop of RemovePending: the last entry with the id, and the others in order.
unfoldable pub take_id : Text → Queue → Option PendingEntry → Option PendingEntry × Queue
unfolding text_eq
take_id id [] found = (found, [])
take_id id (x ∷ p) found =
    let (found', out) = take_id id p (if text_eq x.id id then some x else found) in
    (found', if text_eq x.id id then out else x ∷ out)

module _ (json : Json Queue) where
  abbrev pub load_pending : File → Result QueueError Queue
  load_pending = load json []

  unfoldable pub pending : File → Queue
  unfolding load
  pending f = elim (load_pending f) [ ok p ↦ p | err _ ↦ [] ]

  unfoldable pub written : Option WriteStep × File → Option QueueError × File
  written (none, f) = (none, f)
  written (some step, f) = (some (write_failed step), f)

  unfoldable pub add_loaded :
      Env → PendingEntry → Result QueueError Queue → File → Option QueueError × File
  unfolding has_url written write_json_atomic
  add_loaded env e (err x) f = (some x, f)
  add_loaded env e (ok p) f =
      if has_url p e.url
      then (none, f)
      else written (write_json_atomic json env.fails (p ++ e ∷ []) f)

  unfoldable pub add_pending : Env → Text → PendingEntry → File → Option QueueError × File
  unfolding stamp add_loaded load
  add_pending env now e f =
      if env.locks then add_loaded env (stamp now e) (load_pending f) f else (some lock_failed, f)

  -- the entry (`none` for ok=false), the error, the file
  unfoldable pub remove_found :
      Env → Option PendingEntry × Queue → File → Option PendingEntry × Option QueueError × File
  unfolding written write_json_atomic
  remove_found env (none, out) f = (none, none, f)
  remove_found env (some x, out) f =
      let (e, f') = written (write_json_atomic json env.fails out f) in (some x, e, f')

  unfoldable pub remove_loaded :
      Env → Text → Result QueueError Queue → File → Option PendingEntry × Option QueueError × File
  unfolding remove_found take_id
  remove_loaded env id (err x) f = (none, some x, f)
  remove_loaded env id (ok p) f = remove_found env (take_id id p none) f

  unfoldable pub remove_pending : Env → Text → File → Option PendingEntry × Option QueueError × File
  unfolding remove_loaded load
  remove_pending env id f =
      if env.locks then remove_loaded env id (load_pending f) f else (none, some lock_failed, f)
