-- ===== src/Protocol/Status.antt =====
-- The files beside the maildirs that are replaced whole: the heartbeat (seedSeq and WriteHeartbeat
-- of internal/protocol/dispatch.go) and capabilities.json (internal/protocol/capabilities.go), over a
-- link that may drop any call or its answer. Numbers are printed by strconv, and JSON and the clock are parameters.
pub mod Published
pub mod Pulse
pub mod Blocks
use iceclimber.Common.{
  ℕ, suc, ◌+◌, Bool, true, false, Option, none, some, List, [], ◌∷◌, ◌++◌, take, ltb, if◌then◌else◌,
}
use iceclimber.Common.Result.{Result, ok, err}
use iceclimber.Common.Text.{Text, codes}
use iceclimber.Common.Boxes.{Box, lookup, put, remove}
use iceclimber.Common.Fields.{fields}
use iceclimber.Protocol.Mail.{
  Fate, passes, lost, unanswered, torn, FsError, transport, missing, unencodable,
}
use iceclimber.Remote.Exec.{Numbers}

-- The files of the directory, and what becomes of the next calls.
pub record Shelf : Type 0 where
  pub files : Box
  pub fates : List Fate

abbrev pub Reply : Type 0 → Type 0
Reply A = Result FsError A × Shelf

abbrev pub fate_of : List Fate → Fate
fate_of [] = passes
fate_of (f ∷ fates) = f

abbrev pub fates_behind : List Fate → List Fate
fates_behind [] = []
fates_behind (f ∷ fates) = fates

unfoldable pub read_shelf : Text → Shelf → Reply Text
unfolding lookup
read_shelf name l =
    let l' = record l { fates = fates_behind l.fates } in
    elim (fate_of l.fates) [
      | passes ↦ (elim (lookup name l.files) [ none ↦ err missing | some s ↦ ok s ], l')
      | _ ↦ (err transport, l')
    ]

unfoldable pub write_shelf : Text → Text → Shelf → Reply Unit
unfolding put
write_shelf name s l =
    let rest = fates_behind l.fates in
    elim (fate_of l.fates) [
      | passes ↦ (ok tt, record { files = put name s l.files; fates = rest })
      | lost ↦ (err transport, record { files = l.files; fates = rest })
      | unanswered ↦ (err transport, record { files = put name s l.files; fates = rest })
      | torn n ↦ (err transport, record { files = put name (take n s) l.files; fates = rest })
    ]

unfoldable pub rename_found : Text → Text → Option Text → Shelf → Reply Unit
unfolding put remove
rename_found from to none l = (err missing, l)
rename_found from to (some s) l = (ok tt, record l { files = put to s (remove from l.files) })

unfoldable pub rename_shelf : Text → Text → Shelf → Reply Unit
unfolding rename_found lookup
rename_shelf from to l =
    let l' = record l { fates = fates_behind l.fates } in
    elim (fate_of l.fates) [
      | passes ↦ rename_found from to (lookup from l.files) l'
      | unanswered ↦ (err transport, (rename_found from to (lookup from l.files) l').1)
      | _ ↦ (err transport, l')
    ]

abbrev pub tmp_name : Text → Text
tmp_name name = name ++ codes ".tmp"

unfoldable pub rename_written : Text → Reply Unit → Reply Unit
unfolding rename_shelf
rename_written name (err e, l) = (err e, l)
rename_written name (ok _, l) = rename_shelf (tmp_name name) name l

-- WriteFile of the temporary name, then Rename
unfoldable pub publish_file : Text → Text → Shelf → Reply Unit
unfolding write_shelf rename_written
publish_file name s l = rename_written name (write_shelf (tmp_name name) s l)

abbrev pub heartbeat : Text
heartbeat = codes "heartbeat"

-- A dispatcher's sequence number, and the files.
pub record Beating : Type 0 where
  pub seq : ℕ
  pub shelf : Shelf

module _ (n : Numbers) where
  unfoldable pub first_number : List Text → Option ℕ
  first_number [] = none
  first_number (f ∷ fs) = n.parse_int f

  -- the number that a heartbeat file shows
  unfoldable pub shown : Text → Option ℕ
  unfolding first_number fields
  shown bytes = first_number (fields bytes)

  unfoldable pub seeded : ℕ → Option ℕ → ℕ
  seeded seq none = seq
  seeded seq (some k) = if ltb seq k then k else seq

  unfoldable pub seed_seq : Beating → Beating
  unfolding read_shelf seeded shown
  seed_seq d =
      let (out, l) = read_shelf heartbeat d.shelf in
      record { seq = elim out [ err e ↦ d.seq | ok bytes ↦ seeded d.seq (shown bytes) ]; shelf = l }

  unfoldable pub heartbeat_line : ℕ → Text → Text
  heartbeat_line seq now = n.itoa seq ++ (codes " " ++ (now ++ codes "\n"))

  unfoldable pub write_heartbeat : Text → Beating → Result {0, 0} FsError Unit × Beating
  unfolding heartbeat_line publish_file
  write_heartbeat now d =
      let (out, l) = publish_file heartbeat (heartbeat_line (d.seq + 1) now) d.shelf in
      (out, record { seq = d.seq + 1; shelf = l })

abbrev pub capabilities_file : Text
capabilities_file = codes "capabilities.json"

pub record CapHost : Type 0 where
  pub os : Text
  pub arch : Text
  pub libc : Text

pub record CapAgent : Type 0 where
  pub name : Text
  pub display_name : Text
  pub version : Text
  pub auth_configured : Bool

pub record Capabilities : Type 0 where
  pub schema_version : ℕ
  pub written_at : Text
  pub host : CapHost
  pub agent : Option CapAgent

abbrev pub no_host : CapHost
no_host = record { os = []; arch = []; libc = [] }

abbrev pub no_capabilities : Capabilities
no_capabilities = record { schema_version = 0; written_at = []; host = no_host; agent = none }

module _ (encode : Capabilities → Option Text) (decode : Text → Option Capabilities) where
  -- none for a file that is not there
  unfoldable pub read_capabilities : Shelf → Result FsError (Option Capabilities) × Shelf
  unfolding read_shelf
  read_capabilities l =
      let (out, l') = read_shelf capabilities_file l in
      (
        elim out [
          | err missing ↦ ok none
          | err e ↦ err e
          | ok bytes ↦ elim (decode bytes) [ none ↦ err unencodable | some c ↦ ok (some c) ]
        ],
        l',
      )

  unfoldable pub stored : Text → Capabilities
  stored bytes = elim (decode bytes) [ none ↦ no_capabilities | some c ↦ c ]

  unfoldable pub publish_capabilities : Text → Capabilities → Shelf → Reply Unit
  unfolding publish_file
  publish_capabilities now c l = elim (encode (record c { schema_version = 1; written_at = now })) [
    | none ↦ (err unencodable, l)
    | some bytes ↦ publish_file capabilities_file bytes l
  ]

  unfoldable pub write_capabilities : (Capabilities → Capabilities) → Text → Shelf → Reply Unit
  unfolding read_shelf stored publish_capabilities
  write_capabilities mutate now l =
      let (out, l') = read_shelf capabilities_file l in
      elim out [
        | ok bytes ↦ publish_capabilities now (mutate (stored bytes)) l'
        | err missing ↦ publish_capabilities now (mutate no_capabilities) l'
        | err e ↦ (err e, l')
      ]
