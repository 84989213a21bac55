-- ===== src/Catalog/Merged.antt =====
-- What Load of internal/catalog/load.go guarantees of a merged catalog.
use mathlib.Core.Bool.{false≢true}
use iceclimber.Common.{
  ◌≡◌, ◌≢◌, refl, sym, subst, ◌∙◌, inl, inr, Bool, true, false, Option, none, some, List, [], ◌∷◌,
  All, Bool-cases,
}
use iceclimber.Common.Result.{Result, ok, err, ok-injective}
use iceclimber.Common.Text.{Text, text_eq, text_eq_iff}
use iceclimber.Common.Text.Distinct.{has_text, Distinct, All-of_has_text}
use iceclimber.Catalog.{Entry, Problem, validate}
use iceclimber.Catalog.Load.{
  LoadError, invalid, defined_twice, shared_binary, ByName, set_entry, add_source, add_sources, own,
  own_all, check_owners, load_catalog,
}

abbrev pub entry_names : ByName → List Text
entry_names [] = []
entry_names (e ∷ m) = e.name ∷ entry_names m

-- Every entry is valid, and no name stands for two of them.
pub record Merged (m : ByName) : Type 0 where
  pub valid : All (λ (e : Entry). validate e ≡ none) m
  pub names-Distinct : Distinct (entry_names m)

set_entry-valid :
    (e : Entry) (m : ByName)
    → validate e ≡ none
    → All (λ (x : Entry). validate x ≡ none) m
    → All (λ (x : Entry). validate x ≡ none) (set_entry e m)
unfolding set_entry
set_entry-valid e [] v h = (v, tt)
set_entry-valid e (x ∷ m) v h = elim (Bool-cases (text_eq x.name e.name)) [
  | inl q ↦ rw q (v, h.1)
  | inr q ↦ rw q (h.0, set_entry-valid e m v h.1)
]

set_entry-apart :
    (e : Entry) (n : Text) (m : ByName)
    → e.name ≢ n
    → All (λ y. y ≢ n) (entry_names m)
    → All (λ y. y ≢ n) (entry_names (set_entry e m))
unfolding set_entry
set_entry-apart e n [] v h = (v, tt)
set_entry-apart e n (x ∷ m) v h = elim (Bool-cases (text_eq x.name e.name)) [
  | inl q ↦ rw q (v, h.1)
  | inr q ↦ rw q (h.0, set_entry-apart e n m v h.1)
]

set_entry-Distinct :
    (e : Entry) (m : ByName) → Distinct (entry_names m) → Distinct (entry_names (set_entry e m))
unfolding set_entry
set_entry-Distinct e [] h = (tt, tt)
set_entry-Distinct e (x ∷ m) h = elim (Bool-cases (text_eq x.name e.name)) [
  | inl q ↦
      rw q
        (subst (λ n. All (λ y. y ≢ n) (entry_names m)) ((text_eq_iff x.name e.name).0 q) h.0, h.1)
  | inr q ↦ rw q (
    set_entry-apart e x.name m (λ z. false≢true (sym q ∙ (text_eq_iff x.name e.name).1 (sym z)))
        h.0,
    set_entry-Distinct e m h.1,
  )
]

add_source-Merged :
    (seen : List Text) (m m' : ByName) (entries : List Entry)
    → Merged m
    → add_source seen m entries ≡ ok m'
    → Merged m'
unfolding add_source
add_source-Merged seen m m' [] g h = subst Merged (ok-injective h) g
add_source-Merged seen m m' (e ∷ entries) g h =
    go (validate e) (has_text e.name seen) refl
      (λ v. add_source-Merged (e.name ∷ seen) (set_entry e m) m' entries (record {
        valid = set_entry-valid e m v g.valid;
        names-Distinct = set_entry-Distinct e m g.names-Distinct;
      }))
      h
  where
    go :
        (v : Option Problem) (b : Bool)
        → validate e ≡ v
        → (validate e ≡ none
            → add_source (e.name ∷ seen) (set_entry e m) entries ≡ ok m'
            → Merged m')
        → ◌≡◌ {A = Result LoadError ByName}
            (elim v [
              | some p ↦ err (invalid p)
              | none ↦ elim b [
                | true ↦ err (defined_twice e.name)
                | false ↦ add_source (e.name ∷ seen) (set_entry e m) entries
              ]
            ])
            (ok m')
        → Merged m'
    go (some p) b f ih q = absurd (cc)
    go none true f ih q = absurd (cc)
    go none false f ih q = ih f q

add_sources-Merged :
    (m m' : ByName) (sources : List (Result LoadError (List Entry)))
    → Merged m
    → add_sources m sources ≡ ok m'
    → Merged m'
unfolding add_sources
add_sources-Merged m m' [] g h = subst Merged (ok-injective h) g
add_sources-Merged m m' (err x ∷ sources) g h = absurd (cc)
add_sources-Merged m m' (ok entries ∷ sources) g h =
    go (add_source [] m entries) refl (λ k a. add_sources-Merged k m' sources a) h
  where
    go :
        (o : Result LoadError ByName)
        → add_source [] m entries ≡ o
        → ((k : ByName) → Merged k → add_sources k sources ≡ ok m' → Merged m')
        → ◌≡◌ {A = Result LoadError ByName}
            (elim o [ err x ↦ err x | ok k ↦ add_sources k sources ])
            (ok m')
        → Merged m'
    go (err x) f ih q = absurd (cc)
    go (ok k) f ih q = ih k (add_source-Merged [] m k entries g f) q

-- the binaries of a catalog, the last ones first, before those of `owned`
abbrev pub stacked : List Text → List Text → List Text
stacked owned [] = owned
stacked owned (b ∷ bins) = stacked (b ∷ owned) bins

abbrev pub binaries : List Text → ByName → List Text
binaries owned [] = owned
binaries owned (e ∷ m) = binaries (stacked owned e.bins) m

own-Distinct :
    (owned bins out : List Text)
    → Distinct owned
    → own owned bins ≡ some out
    → (out ≡ stacked owned bins) × Distinct out
unfolding own
own-Distinct owned [] out d h = let same : owned ≡ out = cc in (sym same, subst Distinct same d)
own-Distinct owned (b ∷ bins) out d h =
    go (has_text b owned) refl (λ a. own-Distinct (b ∷ owned) bins out (a, d)) h
  where
    go :
        (x : Bool)
        → has_text b owned ≡ x
        → (All (λ y. y ≢ b) owned
            → own (b ∷ owned) bins ≡ some out
            → (out ≡ stacked (b ∷ owned) bins) × Distinct out)
        → ◌≡◌ {A = Option (List Text)}
            (elim x [ true ↦ none | false ↦ own (b ∷ owned) bins ])
            (some out)
        → (out ≡ stacked (b ∷ owned) bins) × Distinct out
    go true f ih q = absurd (cc)
    go false f ih q = ih (All-of_has_text b owned f) q

own_all-Distinct :
    (owned : List Text) (m : ByName) (out : List Text)
    → Distinct owned
    → own_all owned m ≡ some out
    → Distinct (binaries owned m)
unfolding own_all
own_all-Distinct owned [] out d h = d
own_all-Distinct owned (e ∷ m) out d h =
    go (own owned e.bins) refl (λ k a. own_all-Distinct k m out a) h
  where
    go :
        (o : Option (List Text))
        → own owned e.bins ≡ o
        → ((k : List Text) → Distinct k → own_all k m ≡ some out → Distinct (binaries k m))
        → ◌≡◌ {A = Option (List Text)} (elim o [ none ↦ none | some k ↦ own_all k m ]) (some out)
        → Distinct (binaries (stacked owned e.bins) m)
    go none f ih q = absurd (cc)
    go (some k) f ih q =
        let (same, a) = own-Distinct owned e.bins k d f in
        subst (λ x. Distinct (binaries x m)) same (ih k a q)

check_owners-ok :
    (m m' : ByName)
    → check_owners m ≡ ok m'
    → (m ≡ m') × ((out : List Text) × (own_all [] m ≡ some out))
unfolding check_owners
check_owners-ok m m' h = go (own_all [] m) refl h
  where
    go :
        (o : Option (List Text))
        → own_all [] m ≡ o
        → ◌≡◌ {A = Result LoadError ByName}
            (elim o [ none ↦ err shared_binary | some _ ↦ ok m ])
            (ok m')
        → (m ≡ m') × ((out : List Text) × (own_all [] m ≡ some out))
    go none f q = absurd (cc)
    go (some out) f q = (ok-injective q, (out, f))

-- A catalog that Load returns has only entries that validate accepts, each name once, and no binary
-- name that two of its tools, or one tool twice, list as the same text. (Two texts for one link, such
-- as `jq` and `./jq`, count as different.)
pub load_catalog-Merged :
    (sources : List (Result LoadError (List Entry))) (m : ByName)
    → load_catalog sources ≡ ok m
    → Merged m × Distinct (binaries [] m)
unfolding load_catalog
load_catalog-Merged sources m h = go (add_sources [] sources) refl h
  where
    go :
        (o : Result LoadError ByName)
        → add_sources [] sources ≡ o
        → ◌≡◌ {A = Result LoadError ByName}
            (elim o [ err x ↦ err x | ok k ↦ check_owners k ])
            (ok m)
        → Merged m × Distinct (binaries [] m)
    go (err x) f q = absurd (cc)
    go (ok k) f q =
        let (same, (out, owned)) = check_owners-ok k m q in
        subst (λ x. Merged x × Distinct (binaries [] x)) same
          (
            add_sources-Merged [] k sources (record { valid = tt; names-Distinct = tt }) f,
            own_all-Distinct [] k out tt owned,
          )
