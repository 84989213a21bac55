-- ===== src/Conda/Solve/Indexed.antt =====
-- synthesizeRepodata of internal/conda/relay.go.
use iceclimber.Common.{
  ◌≡◌, ap, ◌∙◌, inl, inr, true, false, Option, none, some, List, [], ◌∷◌, Bool-cases, if◌then◌else◌,
}
use iceclimber.Common.Text.{Text, text_eq, text_eq_iff}
use iceclimber.Conda.{CondaRecord, fn_of}
use iceclimber.Conda.Solve.{
  RepodataPkg, Repodata, set_package, entry_of, is_conda, add_entry, add_entries,
  synthesize_repodata,
}

-- The last record of a file name, or what there was before.
abbrev pub last_named : Text → Text → List CondaRecord → Option RepodataPkg → Option RepodataPkg
last_named subdir k [] before = before
last_named subdir k (r ∷ recs) before =
    last_named subdir k recs (if text_eq (fn_of r) k then some (entry_of subdir r) else before)

module _ (subdir k : Text) where
  -- The two maps at one name, by the name's suffix.
  add_entry-at :
      (r : CondaRecord) (rd : Repodata) (before : Option RepodataPkg)
      → rd.packages_conda k ≡ (if is_conda k then before else none)
      → rd.packages k ≡ (if is_conda k then none else before)
      → ((add_entry subdir r rd).packages_conda k ≡ (
          if is_conda k
          then (if text_eq (fn_of r) k then some (entry_of subdir r) else before)
          else none))
        × ((add_entry subdir r rd).packages k ≡ (
            if is_conda k
            then none
            else (if text_eq (fn_of r) k then some (entry_of subdir r) else before)))
  add_entry-at r rd before h g = elim (Bool-cases (text_eq (fn_of r) k)) [
    | inl e ↦
        let q : fn_of r ≡ k = (text_eq_iff (fn_of r) k).0 e in
        elim (Bool-cases (is_conda k)) [
          | inl c ↦
              let d : is_conda (fn_of r) ≡ true = ap is_conda q ∙ c in
              unfold add_entry set_package in (rw (d, e, c), rw (d, e, c) (g ∙ rw c))
          | inr c ↦
              let d : is_conda (fn_of r) ≡ false = ap is_conda q ∙ c in
              unfold add_entry set_package in (rw (d, e, c) (h ∙ rw c), rw (d, e, c))
        ]
    | inr e ↦ elim (Bool-cases (is_conda (fn_of r))) [
      | inl d ↦ unfold add_entry set_package in (rw (d, e) h, rw (d, e) g)
      | inr d ↦ unfold add_entry set_package in (rw (d, e) h, rw (d, e) g)
    ]
  ]

  add_entries-at :
      (recs : List CondaRecord) (rd : Repodata) (before : Option RepodataPkg)
      → rd.packages_conda k ≡ (if is_conda k then before else none)
      → rd.packages k ≡ (if is_conda k then none else before)
      → ((add_entries subdir recs rd).packages_conda k
          ≡ (if is_conda k then last_named subdir k recs before else none))
        × ((add_entries subdir recs rd).packages k
            ≡ (if is_conda k then none else last_named subdir k recs before))
  unfolding add_entries
  add_entries-at [] rd before h g = (h, g)
  add_entries-at (r ∷ recs) rd before h g =
      let (a, b) = add_entry-at r rd before h g in
      add_entries-at recs (add_entry subdir r rd)
        (if text_eq (fn_of r) k then some (entry_of subdir r) else before) a b

-- synthesizeRepodata indexes exactly the records' files: under each file name stands the entry of
-- the last record with that name, among the .conda packages if the name ends so and among the
-- others if not, and under every other name nothing.
pub synthesize_repodata-at :
    (subdir k : Text) (recs : List CondaRecord)
    → ((synthesize_repodata subdir recs).packages_conda k
        ≡ (if is_conda k then last_named subdir k recs none else none))
      × ((synthesize_repodata subdir recs).packages k
          ≡ (if is_conda k then none else last_named subdir k recs none))
unfolding synthesize_repodata
synthesize_repodata-at subdir k recs = elim (Bool-cases (is_conda k)) [
  | inl c ↦ add_entries-at subdir k recs _ none (rw c) (rw c)
  | inr c ↦ add_entries-at subdir k recs _ none (rw c) (rw c)
]
