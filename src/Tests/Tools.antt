-- ===== src/Tests/Tools.antt =====
-- internal/catalog: an entry with pinned checksums and one with a sums file.
use iceclimber.Common.{◌≡◌, ◌≢◌, refl, Option, none, some, [], ◌∷◌, if◌then◌else◌}
use iceclimber.Common.Result.{ok}
use iceclimber.Common.Text.{
  Text, codes, text_eq, split, has_prefix, trim_prefix, trim_right_byte, is_space,
}
use iceclimber.Common.Slash.{clean}
use iceclimber.Catalog.{
  static_pinned, shasums_index, pinned, shasums_file, unspecified, Platform, Entry, validate,
  effective_recipe, platform_key, or_else, reject_if,
}
use iceclimber.Catalog.Resolve.{Resolved, resolve_tool, asset_url, row}
use iceclimber.Catalog.Checksums.{resolve_tool-pinned}
use iceclimber.Common.Text.Distinct.{Distinct}
use iceclimber.Catalog.Load.{load_catalog}
use iceclimber.Catalog.Merged.{Merged, binaries, load_catalog-Merged}

abbrev os : Text
os = codes "linux"

abbrev arch : Text
arch = codes "arm64"

abbrev libc : Text
libc = codes "musl"

abbrev platform : Platform
platform = record { asset = codes "jq"; url = codes "https://h/jq"; sha256 = codes "ab12" }

abbrev tool : Entry
tool = record {
  name = codes "jq";
  kind = static_pinned;
  version = codes "1.8";
  repo = [];
  release_tag = [];
  base_url = [];
  dest = [];
  recipe = unspecified;
  sums_asset = [];
  platforms = (codes "linux/arm64/musl", platform) ∷ [];
  format = codes "binary";
  bins = codes "jq" ∷ [];
  verify = codes "jq --version";
}

abbrev no_get : Text → Option Text
no_get url = none

tool_is_valid : validate tool ≡ none
unfolding validate or_else reject_if clean split text_eq has_prefix
tool_is_valid = refl

tool_is_pinned : effective_recipe tool ≡ pinned
unfolding effective_recipe
tool_is_pinned = refl

tool_row : row (platform_key os arch libc) tool.platforms ≡ some platform
unfolding row platform_key text_eq
tool_row = refl

resolve_tool-pinned_example :
    (r : Resolved) × (resolve_tool no_get tool os arch libc ≡ ok r)
    × (asset_url tool platform ≡ ok r.url)
    × (r.sha256 ≡ platform.sha256)
    × (platform.sha256 ≢ [])
resolve_tool-pinned_example =
    resolve_tool-pinned no_get tool os arch libc platform tool_is_valid tool_is_pinned tool_row

abbrev listed : Entry
listed = record tool {
  kind = shasums_index;
  base_url = codes "https://h/";
  recipe = shasums_file;
  sums_asset = codes "SUMS";
}

abbrev get : Text → Option Text
get url =
    if text_eq url (codes "https://h/SUMS") then some (codes "00 other\nff01  *dist/jq\n") else none

abbrev found : Resolved
found = record {
  asset_name = codes "tool-jq-1.8-jq";
  url = codes "https://h/jq";
  sha256 = codes "ff01";
  format = codes "binary";
}

listed_resolves : resolve_tool get listed os arch libc ≡ ok found
unfolding resolve_tool text_eq split trim_prefix trim_right_byte is_space
listed_resolves = refl

-- The operator's entry takes the place of the embedded one.
loads : load_catalog (ok (tool ∷ []) ∷ ok (listed ∷ []) ∷ []) ≡ ok (listed ∷ [])
unfolding load_catalog or_else reject_if clean split text_eq has_prefix
loads = refl

load_catalog-Merged_example : Merged (listed ∷ []) × Distinct (binaries [] (listed ∷ []))
load_catalog-Merged_example =
    load_catalog-Merged (ok (tool ∷ []) ∷ ok (listed ∷ []) ∷ []) (listed ∷ []) loads
