-- ===== src/Conda/Push.antt =====
-- pushChannel of internal/conda/relay.go: the channel goes to the other side, one directory for each
-- subdir. The groups are a list in the order in which the subdirs come, where the code ranges over a
-- map. The file system there is a parameter, and so is json.MarshalIndent.
use mathlib.Core.Bool.{false≢true}
use iceclimber.Common.{
  ◌≡◌, ◌⊎◌, AnyOf, refl, sym, ap, ◌∙◌, inl, inr, Bool, true, false, Option, none, some, List, [],
  ◌∷◌, ◌++◌, append-nil, append_assoc, Bool-cases, if◌then◌else◌,
}
use iceclimber.Common.Text.{Text, codes, text_eq, text_eq_iff}
use iceclimber.Common.Boxes.{Box, lookup}
use iceclimber.Common.Slash.{join}
use iceclimber.Conda.{CondaRecord, fn_of, subdir_of}
use iceclimber.Conda.Solve.{Repodata, synthesize_repodata}

-- What pushChannel asks of remotefs.FS: none for a nil error, and the world after the call.
pub record RemoteFs (E : Type 0) : Type 1 where
  pub World : Type 0
  pub mkdir : Text → World → Option E × World
  pub write_file : Text → Text → World → Option E × World

pub data PushError (E : Type 0) : Type 0 where
  no_directory not_written : E → PushError E
  not_read : Text → PushError E
  no_index : PushError E

abbrev pub Groups : Type 0
Groups = List (Text × List CondaRecord)

-- bySubdir[s] = append(bySubdir[s], r)
unfoldable pub add_group : Text → CondaRecord → Groups → Groups
unfolding text_eq
add_group s r [] = (s, r ∷ []) ∷ []
add_group s r ((k, rs) ∷ m) =
    let rest = add_group s r m in if text_eq k s then (k, rs ++ r ∷ []) ∷ m else (k, rs) ∷ rest

unfoldable pub add_groups : List CondaRecord → Groups → Groups
unfolding add_group subdir_of
add_groups [] m = m
add_groups (r ∷ recs) m = add_groups recs (add_group (subdir_of r) r m)

unfoldable pub by_subdir : List CondaRecord → Groups
unfolding add_groups
by_subdir recs = add_groups recs ((codes "noarch", []) ∷ [])

module _ {E : Type 0} (fs : RemoteFs E) (marshal : Repodata → Option Text) where
  abbrev pub Pushed : Type 0
  Pushed = Option (PushError E) × fs.World

  abbrev pub then_push : (E → PushError E) → Option E × fs.World → (fs.World → Pushed) → Pushed
  then_push f (some e, w) next = (some (f e), w)
  then_push f (none, w) next = next w

  -- the packages of one subdir, from the files of the local channel, then its index
  unfoldable pub push_packages :
      Text → Text → Text → Box → List CondaRecord → (fs.World → Pushed) → fs.World → Pushed
  unfolding join fn_of lookup
  push_packages local_chan sub dst_dir channel [] next w = next w
  push_packages local_chan sub dst_dir channel (r ∷ recs) next w =
      elim (lookup (join (local_chan ∷ sub ∷ fn_of r ∷ [])) channel) [
        | none ↦ (some (not_read (fn_of r)), w)
        | some body ↦
            then_push not_written (fs.write_file (join (dst_dir ∷ fn_of r ∷ [])) body w)
              (push_packages local_chan sub dst_dir channel recs next)
      ]

  unfoldable pub push_index : Text → Text → List CondaRecord → fs.World → Pushed
  unfolding synthesize_repodata join
  push_index dst_dir sub recs w = elim (marshal (synthesize_repodata sub recs)) [
    | none ↦ (some no_index, w)
    | some index ↦
        then_push not_written (fs.write_file (join (dst_dir ∷ codes "repodata.json" ∷ [])) index w)
          (λ v. (none, v))
  ]

  unfoldable pub push_group : Text → Text → Box → Text → List CondaRecord → fs.World → Pushed
  unfolding push_packages push_index join
  push_group local_chan sandbox_chan channel sub recs w =
      let dst_dir = join (sandbox_chan ∷ sub ∷ []) in
      then_push no_directory (fs.mkdir dst_dir w)
        (push_packages local_chan sub dst_dir channel recs (push_index dst_dir sub recs))

  unfoldable pub push_groups : Text → Text → Box → Groups → fs.World → Pushed
  unfolding push_group
  push_groups local_chan sandbox_chan channel [] w = (none, w)
  push_groups local_chan sandbox_chan channel ((sub, recs) ∷ m) w =
      let (e, v) = push_group local_chan sandbox_chan channel sub recs w in
      elim e [ some x ↦ (some x, v) | none ↦ push_groups local_chan sandbox_chan channel m v ]

  unfoldable pub push_channel : Text → Text → Box → List CondaRecord → fs.World → Pushed
  unfolding push_groups by_subdir
  push_channel local_chan sandbox_chan channel recs w =
      push_groups local_chan sandbox_chan channel (by_subdir recs) w

-- The group of a subdir, and the records that belong to it.
abbrev pub group_of : Text → Groups → List CondaRecord
group_of k [] = []
group_of k ((j, rs) ∷ m) = if text_eq j k then rs else group_of k m

abbrev pub only_in : Text → List CondaRecord → List CondaRecord
only_in k [] = []
only_in k (r ∷ recs) =
    let rest = only_in k recs in if text_eq (subdir_of r) k then r ∷ rest else rest

group_of-add_group :
    (k s : Text) (r : CondaRecord) (m : Groups)
    → group_of k (add_group s r m) ≡ (if text_eq s k then group_of k m ++ r ∷ [] else group_of k m)
unfolding add_group
group_of-add_group k s r [] = refl
group_of-add_group k s r ((j, rs) ∷ m) = elim (Bool-cases (text_eq j s)) [
  | inl e ↦
      let q : j ≡ s = (text_eq_iff j s).0 e in
      elim (Bool-cases (text_eq s k)) [
        | inl f ↦ let g : text_eq j k ≡ true = ap (λ t. text_eq t k) q ∙ f in rw (e, f, g)
        | inr f ↦ let g : text_eq j k ≡ false = ap (λ t. text_eq t k) q ∙ f in rw (e, f, g)
      ]
  | inr e ↦ elim (Bool-cases (text_eq j k)) [
    | inl g ↦
        rw (e, g)
          (elim (Bool-cases (text_eq s k)) [
            | inl f ↦ absurd (
                false≢true (
                  sym e
                  ∙ (text_eq_iff j s).1 ((text_eq_iff j k).0 g ∙ sym ((text_eq_iff s k).0 f))))
            | inr f ↦ rw f
          ])
    | inr g ↦ rw (e, g) (group_of-add_group k s r m)
  ]
]

group_of-add_groups :
    (k : Text) (recs : List CondaRecord) (m : Groups)
    → group_of k (add_groups recs m) ≡ group_of k m ++ only_in k recs
unfolding add_groups
group_of-add_groups k [] m = sym (append-nil (group_of k m))
group_of-add_groups k (r ∷ recs) m =
    group_of-add_groups k recs (add_group (subdir_of r) r m)
    ∙ ap (λ rs. rs ++ only_in k recs) (group_of-add_group k (subdir_of r) r m)
    ∙ joined (text_eq (subdir_of r) k)
  where
    joined :
        (b : Bool)
        → (if b then group_of k m ++ r ∷ [] else group_of k m) ++ only_in k recs
          ≡ group_of k m ++ (if b then r ∷ only_in k recs else only_in k recs)
    joined true = append_assoc (group_of k m) (r ∷ []) (only_in k recs)
    joined false = refl

abbrev pub IsNoarch : Text × List CondaRecord → Type 0
IsNoarch g = g.0 ≡ codes "noarch"

IsNoarch-add_group :
    (s : Text) (r : CondaRecord) (m : Groups) → AnyOf IsNoarch m → AnyOf IsNoarch (add_group s r m)
unfolding add_group
IsNoarch-add_group s r [] h = absurd h
IsNoarch-add_group s r ((j, rs) ∷ m) h = go (text_eq j s) h (IsNoarch-add_group s r m)
  where
    go :
        (b : Bool)
        → (j ≡ codes "noarch") ⊎ AnyOf IsNoarch m
        → (AnyOf IsNoarch m → AnyOf IsNoarch (add_group s r m))
        → AnyOf IsNoarch (if b then (j, rs ++ r ∷ []) ∷ m else (j, rs) ∷ add_group s r m)
    go true x rest = x
    go false (inl e) rest = inl e
    go false (inr x) rest = inr (rest x)

IsNoarch-add_groups :
    (recs : List CondaRecord) (m : Groups) → AnyOf IsNoarch m → AnyOf IsNoarch (add_groups recs m)
unfolding add_groups
IsNoarch-add_groups [] m h = h
IsNoarch-add_groups (r ∷ recs) m h =
    IsNoarch-add_groups recs (add_group (subdir_of r) r m) (IsNoarch-add_group (subdir_of r) r m h)

-- The group that pushChannel makes for a subdir is the records of that subdir, each once and in
-- the order of the solve; and there is a group for noarch, with or without records.
pub group_of-by_subdir :
    (k : Text) (recs : List CondaRecord)
    → (group_of k (by_subdir recs) ≡ only_in k recs) × AnyOf IsNoarch (by_subdir recs)
unfolding by_subdir
group_of-by_subdir k recs = (
  group_of-add_groups k recs ((codes "noarch", []) ∷ []) ∙ empty (text_eq (codes "noarch") k),
  IsNoarch-add_groups recs ((codes "noarch", []) ∷ []) (inl refl),
)
  where
    empty : (b : Bool) → (if b then [] else []) ++ only_in k recs ≡ only_in k recs
    empty true = refl
    empty false = refl
