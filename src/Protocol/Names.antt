-- ===== src/Protocol/Names.antt =====
-- Request file names: validRequestName and idFromName of internal/protocol/dispatch.go, RequestName
-- of internal/wire/wire.go.
pub mod Laws
use iceclimber.Common.{Bool, true, false, not, ◌&&◌, List, [], ◌∷◌, ◌++◌, if◌then◌else◌}
use iceclimber.Common.Slash.{base}
use iceclimber.Common.Text.{
  Text, codes, text_eq, has_suffix, trim_suffix, split, contains_byte, trim_right_byte,
}

abbrev pub extension : Text
extension = codes ".json"

unfoldable pub valid_request_name : Text → Bool
unfolding text_eq base contains_byte has_suffix
valid_request_name name =
    not (text_eq name [])
    && (not (text_eq name (codes "."))
        && (not (text_eq name (codes ".."))
            && (text_eq name (base name)
                && (not (contains_byte name b'/') && has_suffix name extension))))

unfoldable pub request_name : Text → Text
request_name id = id ++ extension

unfoldable pub id_from_name : Text → Text
unfolding trim_suffix
id_from_name name = trim_suffix name extension
