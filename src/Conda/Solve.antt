-- ===== src/Conda/Solve.antt =====
-- The records of a solve in internal/conda/relay.go: mergeRecords and synthesizeRepodata. The
-- numbers of a record are natural numbers, and printing as JSON is left out.
pub mod Merged
pub mod Indexed
use iceclimber.Common.{
  ℕ, Bool, true, false, Option, none, some, List, [], ◌∷◌, ◌++◌, ◌==◌, if◌then◌else◌,
}
use iceclimber.Common.Text.{Text, codes, text_eq, has_suffix}
use iceclimber.Conda.{CondaRecord, fn_of}

unfoldable pub key_of : CondaRecord → Text
key_of r = r.name ++ (codes "=" ++ (r.version ++ (codes "=" ++ r.build)))

-- byKey[k]: the last of the records with the key
unfoldable pub by_key : Text → List CondaRecord → Option CondaRecord
unfolding text_eq key_of
by_key k [] = none
by_key k (f ∷ fetch) = elim (by_key k fetch) [
  | some g ↦ some g
  | none ↦ if text_eq (key_of f) k then some f else none
]

unfoldable pub or_text : Text → Text → Text
or_text [] b = b
or_text (c ∷ a) b = c ∷ a

unfoldable pub or_texts : List Text → List Text → List Text
or_texts [] b = b
or_texts (c ∷ a) b = c ∷ a

unfoldable pub or_number : ℕ → ℕ → ℕ
or_number a b = if a == 0 then b else a

-- A record of LINK with what it lacks from one of FETCH.
unfoldable pub backfill : CondaRecord → CondaRecord → CondaRecord
unfolding or_text or_texts or_number
backfill r f = record r {
  url = or_text r.url f.url;
  fn = or_text r.fn f.fn;
  md5 = or_text r.md5 f.md5;
  sha256 = or_text r.sha256 f.sha256;
  size = or_number r.size f.size;
  depends = or_texts r.depends f.depends;
}

unfoldable pub merged : List CondaRecord → CondaRecord → CondaRecord
unfolding by_key key_of backfill
merged fetch r = elim (by_key (key_of r) fetch) [ none ↦ r | some f ↦ backfill r f ]

unfoldable pub merge_all : List CondaRecord → List CondaRecord → List CondaRecord
unfolding merged
merge_all fetch [] = []
merge_all fetch (r ∷ base) = merged fetch r ∷ merge_all fetch base

-- without LINK actions the records are those of FETCH
unfoldable pub merge_base : List CondaRecord → List CondaRecord → List CondaRecord
merge_base [] fetch = fetch
merge_base (r ∷ link) fetch = r ∷ link

unfoldable pub merge_records : List CondaRecord → List CondaRecord → List CondaRecord
unfolding merge_all merge_base
merge_records link fetch = merge_all fetch (merge_base link fetch)

pub record RepodataPkg : Type 0 where
  pub name : Text
  pub version : Text
  pub build : Text
  pub build_number : ℕ
  pub depends : List Text
  pub constrains : List Text
  pub subdir : Text
  pub md5 : Text
  pub sha256 : Text
  pub size : ℕ
  pub license : Text
  pub timestamp : ℕ

-- A map from file names.
abbrev pub Packages : Type 0
Packages = Text → Option RepodataPkg

pub record Repodata : Type 0 where
  pub info_subdir : Text
  pub packages : Packages
  pub packages_conda : Packages
  pub repodata_version : ℕ

unfoldable pub set_package : Text → RepodataPkg → Packages → Packages
unfolding text_eq
set_package k v m j = if text_eq k j then some v else m j

unfoldable pub entry_of : Text → CondaRecord → RepodataPkg
entry_of subdir r = record {
  name = r.name;
  version = r.version;
  build = r.build;
  build_number = r.build_number;
  depends = r.depends;
  constrains = r.constrains;
  subdir = subdir;
  md5 = r.md5;
  sha256 = r.sha256;
  size = r.size;
  license = r.license;
  timestamp = r.timestamp;
}

unfoldable pub is_conda : Text → Bool
unfolding has_suffix
is_conda fn = has_suffix fn (codes ".conda")

unfoldable pub add_entry : Text → CondaRecord → Repodata → Repodata
unfolding fn_of is_conda set_package entry_of
add_entry subdir r rd =
    if is_conda (fn_of r)
    then record rd { packages_conda = set_package (fn_of r) (entry_of subdir r) rd.packages_conda }
    else record rd { packages = set_package (fn_of r) (entry_of subdir r) rd.packages }

unfoldable pub add_entries : Text → List CondaRecord → Repodata → Repodata
unfolding add_entry
add_entries subdir [] rd = rd
add_entries subdir (r ∷ recs) rd = add_entries subdir recs (add_entry subdir r rd)

unfoldable pub synthesize_repodata : Text → List CondaRecord → Repodata
unfolding add_entries
synthesize_repodata subdir recs = add_entries subdir recs (record {
  info_subdir = subdir;
  packages = λ _. none;
  packages_conda = λ _. none;
  repodata_version = 1;
})
