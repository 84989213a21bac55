-- ===== src/Common/Boxes.antt =====
-- The files of one folder, by name.
use mathlib.Core.Bool.{Bool, true, false, false≢true}
use mathlib.Core.List.{List, [], ◌∷◌}
use mathlib.Core.Logic.{inl, inr}
use mathlib.Core.Option.{Option, none, some}
use mathlib.Core.Path.{◌≡◌, refl, sym, ◌∙◌}
use native.Mathlib.Omega.{arith}
use iceclimber.Common.Tests.{if◌then◌else◌, ltb, ◌==◌, Bool-cases}
use iceclimber.Common.Text.{Text, text_eq, text_eq_iff}

abbrev pub Box : Type 0
Box = List (Text × Text)

-- the order of names in a listing
unfoldable pub text_lt : Text → Text → Bool
text_lt [] [] = false
text_lt [] (y ∷ t) = true
text_lt (x ∷ s) [] = false
text_lt (x ∷ s) (y ∷ t) = if ltb x y then true else if x == y then text_lt s t else false

unfoldable pub lookup : Text → Box → Option Text
unfolding text_eq
lookup k [] = none
lookup k ((j, v) ∷ m) = if text_eq j k then some v else lookup k m

unfoldable pub put : Text → Text → Box → Box
unfolding text_eq text_lt
put k v [] = (k, v) ∷ []
put k v ((j, w) ∷ m) =
    if text_eq j k
    then (k, v) ∷ m
    else if text_lt k j
    then (k, v) ∷ (j, w) ∷ m
    else (j, w) ∷ put k v m

unfoldable pub remove : Text → Box → Box
unfolding text_eq
remove k [] = []
remove k ((j, w) ∷ m) = let rest = remove k m in if text_eq j k then rest else (j, w) ∷ rest

unfoldable pub names : Box → List Text
names [] = []
names ((j, w) ∷ m) = j ∷ names m

pub lookup-put :
    (k j : Text) (v : Text) (m : Box)
    → lookup j (put k v m) ≡ (if text_eq k j then some v else lookup j m)
unfolding lookup put
lookup-put k j v [] = refl
lookup-put k j v ((i, w) ∷ m) = elim (Bool-cases (text_eq i k)) [
  | inl e ↦ let q : i ≡ k = (text_eq_iff i k).0 e in rw e (rw q (ground arith))
  | inr e ↦ elim (Bool-cases (text_lt k i)) [
    | inl f ↦ rw (e, f)
    | inr f ↦
        rw (e, f)
          (at_tail (text_eq i j) (text_eq k j) (lookup-put k j v m) (λ a b.
            false≢true
              (sym e ∙ (text_eq_iff i k).1 ((text_eq_iff i j).0 a ∙ sym ((text_eq_iff k j).0 b)))))
  ]
]
  where
    at_tail :
        (a b : Bool)
        → lookup j (put k v m) ≡ (if b then some v else lookup j m)
        → (a ≡ true → b ≡ true → ⊥)
        → (if a then some w else lookup j (put k v m))
          ≡ (if b then some v else if a then some w else lookup j m)
    at_tail true true e n = absurd (n refl refl)
    at_tail true false e n = refl
    at_tail false true e n = e
    at_tail false false e n = e

pub lookup-remove :
    (k j : Text) (m : Box) → lookup j (remove k m) ≡ (if text_eq k j then none else lookup j m)
unfolding lookup remove
lookup-remove k j [] = ground arith
lookup-remove k j ((i, w) ∷ m) = elim (Bool-cases (text_eq i k)) [
  | inl e ↦
      let q : i ≡ k = (text_eq_iff i k).0 e in rw e (lookup-remove k j m ∙ rw q (ground arith))
  | inr e ↦ rw e (
      at_tail (text_eq i j) (text_eq k j) (lookup-remove k j m) (λ a b.
        false≢true
          (sym e ∙ (text_eq_iff i k).1 ((text_eq_iff i j).0 a ∙ sym ((text_eq_iff k j).0 b)))))
]
  where
    at_tail :
        (a b : Bool)
        → lookup j (remove k m) ≡ (if b then none else lookup j m)
        → (a ≡ true → b ≡ true → ⊥)
        → (if a then some w else lookup j (remove k m))
          ≡ (if b then none else if a then some w else lookup j m)
    at_tail true true e n = absurd (n refl refl)
    at_tail true false e n = refl
    at_tail false true e n = e
    at_tail false false e n = e

-- A name is listed.
unfoldable pub listed : Text → List Text → Bool
unfolding text_eq
listed k [] = false
listed k (n ∷ ns) = if text_eq n k then true else listed k ns

abbrev pub is_some : Option Text → Bool
is_some none = false
is_some (some _) = true

-- The listing of a box has the names that it can look up.
pub listed-names : (k : Text) (m : Box) → listed k (names m) ≡ is_some (lookup k m)
unfolding listed names lookup
listed-names k [] = refl
listed-names k ((j, w) ∷ m) = ground (arith, listed-names k m)
