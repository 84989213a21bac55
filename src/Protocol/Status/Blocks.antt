-- ===== src/Protocol/Status/Blocks.antt =====
-- WriteCapabilities of internal/protocol/capabilities.go: what each writer leaves of the other's block.
use iceclimber.Common.{◌≡◌, ◌⊎◌, Option, none, some}
use iceclimber.Common.Result.{ok, err}
use iceclimber.Common.Text.{Text}
use iceclimber.Common.Boxes.{Box, lookup}
use iceclimber.Protocol.Mail.{FsError}
use iceclimber.Protocol.Status.{
  Shelf, Reply, capabilities_file, Capabilities, no_capabilities, stored,
}

-- the stamp of a write
abbrev pub stamped : Text → Capabilities → Capabilities
stamped now c = record c { schema_version = 1; written_at = now }

module _ (encode : Capabilities → Option Text) (decode : Text → Option Capabilities) where
  -- what the file holds: nothing if it is not there or cannot be read as JSON
  abbrev pub held_in : Option Text → Capabilities
  held_in none = no_capabilities
  held_in (some s) = stored encode decode s

  abbrev pub held : Shelf → Capabilities
  held l = held_in (lookup capabilities_file l.files)

  -- the file is the whole encoding of this content, stamped
  abbrev pub Encoded : Text → Capabilities → Box → Type 0
  Encoded now c files =
      (bytes : Text) × (encode (stamped now c) ≡ some bytes)
      × (lookup capabilities_file files ≡ some bytes)

  -- A write with this content over these files.
  pub record Stored (now : Text) (c : Capabilities) (before : Box) (o : Reply Unit) : Type 0 where
    pub updated : o.0 ≡ ok tt → Encoded now c o.1.files
    pub unchanged :
        (e : FsError)
        → o.0 ≡ err e
        → (lookup capabilities_file o.1.files ≡ lookup capabilities_file before)
          ⊎ Encoded now c o.1.files
