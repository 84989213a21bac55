-- ===== src/Conda/Solve/Merged.antt =====
-- mergeRecords of internal/conda/relay.go.
use iceclimber.Common.{
  ℕ, ◌≡◌, refl, sym, ap, ◌∙◌, inl, inr, Option, none, some, List, [], ◌∷◌, map, arith, Option-cases,
}
use iceclimber.Common.Text.{Text}
use iceclimber.Conda.{CondaRecord}
use iceclimber.Conda.Solve.{
  key_of, by_key, or_text, or_texts, or_number, backfill, merged, merge_all, merge_base,
  merge_records,
}

or_text-again : (a b : Text) → or_text (or_text a b) b ≡ or_text a b
unfolding or_text
or_text-again [] [] = refl
or_text-again [] (x ∷ b) = refl
or_text-again (x ∷ a) b = refl

or_texts-again : (a b : List Text) → or_texts (or_texts a b) b ≡ or_texts a b
unfolding or_texts
or_texts-again [] [] = refl
or_texts-again [] (x ∷ b) = refl
or_texts-again (x ∷ a) b = refl

or_number-again : (a b : ℕ) → or_number (or_number a b) b ≡ or_number a b
unfolding or_number
or_number-again a b = ground arith

backfill-again : (r f : CondaRecord) → backfill (backfill r f) f ≡ backfill r f
unfolding backfill
backfill-again r f = rw (
  or_text-again r.url f.url,
  or_text-again r.fn f.fn,
  or_text-again r.md5 f.md5,
  or_text-again r.sha256 f.sha256,
  or_number-again r.size f.size,
  or_texts-again r.depends f.depends,
)

key-merged : (fetch : List CondaRecord) (r : CondaRecord) → key_of (merged fetch r) ≡ key_of r
unfolding merged key_of
key-merged fetch r = go (by_key (key_of r) fetch)
  where
    go : (o : Option CondaRecord) → key_of (elim o [ none ↦ r | some f ↦ backfill r f ]) ≡ key_of r
    go none = refl
    go (some f) = unfold backfill in refl

merged-some :
    (fetch : List CondaRecord) (r f : CondaRecord)
    → by_key (key_of r) fetch ≡ some f
    → merged fetch r ≡ backfill r f
unfolding merged
merged-some fetch r f e = rw (e, merged)

merged-none :
    (fetch : List CondaRecord) (r : CondaRecord)
    → by_key (key_of r) fetch ≡ none
    → merged fetch r ≡ r
unfolding merged
merged-none fetch r e = rw (e, merged)

merged-again :
    (fetch : List CondaRecord) (r : CondaRecord) → merged fetch (merged fetch r) ≡ merged fetch r
merged-again fetch r = elim (Option-cases (by_key (key_of r) fetch)) [
  | inl e ↦ ap (merged fetch) (merged-none fetch r e)
  | inr (f, e) ↦
      ap (merged fetch) (merged-some fetch r f e)
      ∙ merged-some fetch (backfill r f) f (unfold key_of backfill in e)
      ∙ backfill-again r f
      ∙ sym (merged-some fetch r f e)
]

merge_all-again :
    (fetch base : List CondaRecord) → merge_all fetch (merge_all fetch base) ≡ merge_all fetch base
unfolding merge_all
merge_all-again fetch [] = refl
merge_all-again fetch (r ∷ base) = rw (merged-again fetch r, merge_all-again fetch base)

keys-merge_all :
    (fetch base : List CondaRecord) → map key_of (merge_all fetch base) ≡ map key_of base
unfolding merge_all
keys-merge_all fetch [] = refl
keys-merge_all fetch (r ∷ base) = rw (key-merged fetch r, keys-merge_all fetch base)

merge_base-merged :
    (link fetch : List CondaRecord)
    → merge_base (merge_all fetch (merge_base link fetch)) fetch
      ≡ merge_all fetch (merge_base link fetch)
unfolding merge_base merge_all
merge_base-merged [] [] = refl
merge_base-merged [] (f ∷ fetch) = refl
merge_base-merged (r ∷ link) fetch = refl

-- What mergeRecords gives has the packages of LINK, or of FETCH if there are none, in their order
-- and with their keys; and merging it with FETCH once more changes nothing.
pub merge_records-again :
    (link fetch : List CondaRecord)
    → (map key_of (merge_records link fetch) ≡ map key_of (merge_base link fetch))
      × (merge_records (merge_records link fetch) fetch ≡ merge_records link fetch)
unfolding merge_records
merge_records-again link fetch = (
  keys-merge_all fetch (merge_base link fetch),
  ap (merge_all fetch) (merge_base-merged link fetch)
      ∙ merge_all-again fetch (merge_base link fetch),
)
