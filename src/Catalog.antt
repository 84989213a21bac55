-- ===== src/Catalog.antt =====
-- internal/catalog: the entries of the tool catalog and their validation (catalog.go).
pub mod Resolve
pub mod Checksums
pub mod Load
pub mod Merged
use iceclimber.Common.{
  ◌≡◌, Bool, true, false, not, ◌&&◌, ◌||◌, Option, none, some, List, [], ◌∷◌, ◌++◌, if◌then◌else◌,
}
use iceclimber.Common.Text.{Text, codes, text_eq, has_prefix, split, trim_right_byte, trim_byte}
use iceclimber.Common.Slash.{clean}

pub data Kind : Type 0 where
  static_pinned github_release shasums_index : Kind
  other_kind : Text → Kind

pub data Recipe : Type 0 where
  pinned shasums_file unspecified : Recipe
  other_recipe : Text → Recipe

pub record Platform : Type 0 where
  pub asset : Text
  pub url : Text
  pub sha256 : Text

-- Entry with its Checksums and Unpack. The platforms are the map's pairs, in some order.
pub record Entry : Type 0 where
  pub name : Text
  pub kind : Kind
  pub version : Text
  pub repo : Text
  pub release_tag : Text
  pub base_url : Text
  pub dest : Text
  pub recipe : Recipe
  pub sums_asset : Text
  pub platforms : List (Text × Platform)
  pub format : Text
  pub bins : List Text
  pub verify : Text

unfoldable pub safe_subpath : Text → Bool
unfolding text_eq has_prefix clean
safe_subpath p =
    if text_eq p []
    then true
    else if has_prefix p (codes "/")
    then false
    else (let cleaned = clean p in
        not (text_eq cleaned (codes "..")) && not (has_prefix cleaned (codes "../")))

unfoldable pub platform_key : Text → Text → Text → Text
platform_key os arch libc = os ++ (codes "/" ++ (arch ++ (codes "/" ++ libc)))

unfoldable pub known_os : Text → Bool
unfolding text_eq
known_os s = text_eq s (codes "linux") || text_eq s (codes "darwin")

unfoldable pub known_libc : Text → Bool
unfolding text_eq
known_libc s =
    text_eq s (codes "musl")
    || (text_eq s (codes "glibc") || (text_eq s (codes "n/a") || text_eq s []))

pub data Problem : Type 0 where
  missing_name missing_verify unknown_kind missing_version : Problem
  missing_sums_asset missing_recipe unknown_recipe missing_repo missing_base_url : Problem
  no_platforms bad_format no_bins unsafe_dest : Problem
  unsafe_bin : Text → Problem
  bad_key missing_url missing_asset missing_sha256 : Text → Problem

-- A check with an early return, and the first one that returns.
unfoldable pub reject_if : Bool → Problem → Option Problem
reject_if b p = if b then some p else none

unfoldable pub or_else : Option Problem → Option Problem → Option Problem
or_else (some p) next = some p
or_else none next = next

unfoldable pub effective_recipe : Entry → Recipe
effective_recipe e = elim e.recipe [
  | unspecified ↦ elim e.kind [ static_pinned ↦ pinned | _ ↦ unspecified ]
  | r ↦ r
]

abbrev pub is_static : Kind → Bool
is_static static_pinned = true
is_static _ = false

abbrev pub is_pinned : Recipe → Bool
is_pinned pinned = true
is_pinned _ = false

unfoldable pub check_kind : Kind → Option Problem
check_kind (other_kind _) = some unknown_kind
check_kind _ = none

unfoldable pub check_recipe : Entry → Option Problem
unfolding text_eq
check_recipe e = elim e.recipe [
  | pinned ↦ none
  | shasums_file ↦ reject_if (text_eq e.sums_asset []) missing_sums_asset
  | unspecified ↦ reject_if (not (is_static e.kind)) missing_recipe
  | other_recipe _ ↦ some unknown_recipe
]

unfoldable pub check_source : Entry → Option Problem
unfolding text_eq
check_source e = elim e.kind [
  | github_release ↦ reject_if (text_eq e.repo []) missing_repo
  | shasums_index ↦ reject_if (text_eq e.base_url []) missing_base_url
  | _ ↦ none
]

unfoldable pub check_bins : List Text → Option Problem
unfolding safe_subpath text_eq
check_bins [] = none
check_bins (b ∷ bins) =
    or_else (reject_if (text_eq b [] || not (safe_subpath b)) (unsafe_bin b)) (check_bins bins)

unfoldable pub known_key : List Text → Bool
unfolding known_os known_libc
known_key (os ∷ arch ∷ libc ∷ []) = known_os os && known_libc libc
known_key _ = false

unfoldable pub check_platform : Entry → Text → Platform → Option Problem
unfolding known_key split text_eq effective_recipe
check_platform e key p = or_else (reject_if (not (known_key (split b'/' key))) (bad_key key)) (
    or_else (reject_if (is_static e.kind && text_eq p.url []) (missing_url key)) (
      or_else (reject_if (not (is_static e.kind) && text_eq p.asset []) (missing_asset key))
        (reject_if (is_pinned (effective_recipe e) && text_eq p.sha256 []) (missing_sha256 key))))

unfoldable pub check_platforms : Entry → List (Text × Platform) → Option Problem
unfolding check_platform
check_platforms e [] = none
check_platforms e ((key, p) ∷ ps) = or_else (check_platform e key p) (check_platforms e ps)

abbrev pub is_nil : {A : Type 0} → List A → Bool
is_nil [] = true
is_nil (x ∷ xs) = false

-- `none` for a nil error
unfoldable pub validate : Entry → Option Problem
unfolding check_kind check_recipe check_source check_bins check_platforms safe_subpath text_eq
validate e = or_else (reject_if (text_eq e.name []) missing_name) (
    or_else (reject_if (text_eq e.verify []) missing_verify) (
      or_else (check_kind e.kind) (
        or_else (reject_if (text_eq e.version []) missing_version) (
          or_else (check_recipe e) (
            or_else (check_source e) (
              or_else (reject_if (is_nil e.platforms) no_platforms) (
                or_else
                  (reject_if
                    (not (text_eq e.format (codes "binary"))
                      && not (text_eq e.format (codes "tar.gz")))
                    bad_format)
                  (or_else (reject_if (is_nil e.bins) no_bins) (
                    or_else (reject_if (not (safe_subpath e.dest)) unsafe_dest)
                      (or_else (check_bins e.bins) (check_platforms e e.platforms)))))))))))

unfoldable pub install_dest : Text → Entry → Text
unfolding text_eq trim_right_byte trim_byte
install_dest root e =
    let d = if text_eq e.dest [] then codes "tools/" ++ e.name else e.dest in
    trim_right_byte root b'/' ++ (codes "/" ++ trim_byte d b'/')
