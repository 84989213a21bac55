-- ===== src/Catalog/Resolve.antt =====
-- internal/catalog/resolve.go. The body of a GET is a parameter, none for an error of the request.
use iceclimber.Common.{
  ◌+◌, ◌*◌, ◌^◌, ◌||◌, Bool, Option, none, some, List, [], ◌∷◌, ◌++◌, take, drop, if◌then◌else◌,
}
use iceclimber.Common.Fields.{fields}
use iceclimber.Common.Result.{Result, ok, err}
use iceclimber.Common.Text.{
  Text, codes, text_eq, split, trim_prefix, trim_right_byte, last_index_byte,
}
use iceclimber.Catalog.{
  static_pinned, github_release, shasums_index, other_kind, shasums_file, Platform, Entry,
  platform_key, effective_recipe,
}

-- Resolved without its entry
pub record Resolved : Type 0 where
  pub asset_name : Text
  pub url : Text
  pub sha256 : Text
  pub format : Text

pub data ResolveError : Type 0 where
  no_build wrong_kind fetch_failed not_listed no_checksum : ResolveError

unfoldable pub last_field : Text → List Text → Text
last_field w [] = w
last_field w (v ∷ ws) = last_field v ws

unfoldable pub base_name : Text → Text
unfolding last_index_byte
base_name p = elim (last_index_byte p b'/') [ none ↦ p | some i ↦ drop (i + 1) p ]

unfoldable pub names_asset : Text → Text → Bool
unfolding base_name text_eq
names_asset asset name = text_eq name asset || text_eq (base_name name) asset

-- the hash of one line, if the line names the asset
unfoldable pub sum_of_fields : Text → List Text → Option Text
unfolding names_asset last_field trim_prefix
sum_of_fields asset (sum ∷ next ∷ rest) =
    if names_asset asset (trim_prefix (last_field next rest) (codes "*")) then some sum else none
sum_of_fields asset _ = none

unfoldable pub sum_in : Text → List Text → Text
unfolding sum_of_fields fields
sum_in asset [] = []
sum_in asset (line ∷ lines) = elim (sum_of_fields asset (fields line)) [
  | some sum ↦ sum
  | none ↦ sum_in asset lines
]

unfoldable pub sum_for : Text → Text → Text
unfolding sum_in split
sum_for body asset = sum_in asset (split b'\n' body)

unfoldable pub release_tag : Entry → Text
unfolding text_eq
release_tag e = if text_eq e.release_tag [] then e.version else e.release_tag

-- the URL of a file of the entry's release, or of its index
unfoldable pub release_url : Entry → Text → Text
unfolding release_tag
release_url e file =
    codes "https://github.com/"
    ++ (e.repo ++ (codes "/releases/download/" ++ (release_tag e ++ (codes "/" ++ file))))

unfoldable pub index_url : Entry → Text → Text
unfolding trim_right_byte
index_url e file = trim_right_byte e.base_url b'/' ++ (codes "/" ++ file)

unfoldable pub asset_url : Entry → Platform → Result ResolveError Text
unfolding release_url index_url
asset_url e p = elim e.kind [
  | static_pinned ↦ ok p.url
  | github_release ↦ ok (release_url e p.asset)
  | shasums_index ↦ ok (index_url e p.asset)
  | other_kind _ ↦ err wrong_kind
]

unfoldable pub sums_url : Entry → Result ResolveError Text
unfolding release_url index_url
sums_url e = elim e.kind [
  | static_pinned ↦ err wrong_kind
  | github_release ↦ ok (release_url e e.sums_asset)
  | shasums_index ↦ ok (index_url e e.sums_asset)
  | other_kind _ ↦ err wrong_kind
]

unfoldable pub asset_base : Platform → Text → Text
unfolding base_name text_eq
asset_base p url = if text_eq p.asset [] then base_name url else p.asset

unfoldable pub row : Text → List (Text × Platform) → Option Platform
unfolding text_eq
row key [] = none
row key ((k, p) ∷ ps) = if text_eq k key then some p else row key ps

module _ (get : Text → Option Text) where
  unfoldable pub listed_sum : Text → Result ResolveError Text
  unfolding text_eq
  listed_sum sum = if text_eq sum [] then err not_listed else ok sum

  unfoldable pub sum_at : Platform → Text → Result ResolveError Text
  unfolding sum_for listed_sum
  sum_at p url = elim (get url) [
    | none ↦ err fetch_failed
    | some body ↦ listed_sum (sum_for (take (4 * 2 ^ 20) body) p.asset)
  ]

  unfoldable pub fetch_sum : Entry → Platform → Result ResolveError Text
  unfolding sums_url sum_at
  fetch_sum e p = elim (sums_url e) [ err x ↦ err x | ok url ↦ sum_at p url ]

  unfoldable pub checksum : Entry → Platform → Result ResolveError Text
  unfolding effective_recipe fetch_sum
  checksum e p = elim (effective_recipe e) [ shasums_file ↦ fetch_sum e p | _ ↦ ok p.sha256 ]

  unfoldable pub resolved : Entry → Platform → Text → Text → Result ResolveError Resolved
  unfolding text_eq asset_base
  resolved e p url sha =
      if text_eq sha []
      then err no_checksum
      else ok (record {
        asset_name =
            codes "tool-"
            ++ (e.name ++ (codes "-" ++ (e.version ++ (codes "-" ++ asset_base p url))));
        url = url;
        sha256 = sha;
        format = e.format;
      })

  unfoldable pub resolve_row : Entry → Platform → Result ResolveError Resolved
  unfolding asset_url checksum resolved
  resolve_row e p = elim (asset_url e p) [
    | err x ↦ err x
    | ok url ↦ elim (checksum e p) [ err x ↦ err x | ok sha ↦ resolved e p url sha ]
  ]

  unfoldable pub resolve_tool : Entry → Text → Text → Text → Result ResolveError Resolved
  unfolding row platform_key resolve_row
  resolve_tool e os arch libc = elim (row (platform_key os arch libc) e.platforms) [
    | none ↦ err no_build
    | some p ↦ resolve_row e p
  ]
