-- ===== src/Catalog/Load.antt =====
-- Load of internal/catalog/load.go, once all its files have been read. A source is what parseFile
-- gives for it: its entries, or an error.
use iceclimber.Common.{true, false, Option, none, some, List, [], ◌∷◌, if◌then◌else◌}
use iceclimber.Common.Result.{Result, ok, err}
use iceclimber.Common.Text.{Text, text_eq}
use iceclimber.Common.Text.Distinct.{has_text}
use iceclimber.Catalog.{Entry, Problem, validate}

pub data LoadError : Type 0 where
  unparsed : LoadError
  invalid : Problem → LoadError
  defined_twice : Text → LoadError
  shared_binary : LoadError

-- the map by name, each name once
abbrev pub ByName : Type 0
ByName = List Entry

-- byName[e.Name] = e
unfoldable pub set_entry : Entry → ByName → ByName
unfolding text_eq
set_entry e [] = e ∷ []
set_entry e (x ∷ m) = let rest = set_entry e m in if text_eq x.name e.name then e ∷ m else x ∷ rest

-- the loop over the entries of one source; `seen` is seenInFile
unfoldable pub add_source : List Text → ByName → List Entry → Result LoadError ByName
unfolding validate has_text set_entry
add_source seen m [] = ok m
add_source seen m (e ∷ entries) = elim (validate e) [
  | some p ↦ err (invalid p)
  | none ↦ elim (has_text e.name seen) [
    | true ↦ err (defined_twice e.name)
    | false ↦ add_source (e.name ∷ seen) (set_entry e m) entries
  ]
]

unfoldable pub add_sources : ByName → List (Result LoadError (List Entry)) → Result LoadError ByName
unfolding add_source
add_sources m [] = ok m
add_sources m (err x ∷ sources) = err x
add_sources m (ok entries ∷ sources) = elim (add_source [] m entries) [
  | err x ↦ err x
  | ok m' ↦ add_sources m' sources
]

-- binOwner after the binaries of one tool, none if one of them has an owner
unfoldable pub own : List Text → List Text → Option (List Text)
unfolding has_text
own owned [] = some owned
own owned (b ∷ bins) = elim (has_text b owned) [ true ↦ none | false ↦ own (b ∷ owned) bins ]

unfoldable pub own_all : List Text → ByName → Option (List Text)
unfolding own
own_all owned [] = some owned
own_all owned (e ∷ m) = elim (own owned e.bins) [ none ↦ none | some owned' ↦ own_all owned' m ]

unfoldable pub check_owners : ByName → Result LoadError ByName
unfolding own_all
check_owners m = elim (own_all [] m) [ none ↦ err shared_binary | some _ ↦ ok m ]

unfoldable pub load_catalog : List (Result LoadError (List Entry)) → Result LoadError ByName
unfolding add_sources check_owners
load_catalog sources = elim (add_sources [] sources) [ err x ↦ err x | ok m ↦ check_owners m ]
