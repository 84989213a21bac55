-- ===== src/Logfile/Shifted.antt =====
-- What a rename of internal/logfile/logfile.go does to the generations.
use iceclimber.Common.{ℕ, ◌≡◌, ◌≢◌, refl, ap, ◌∙◌, Option, none, some, arith}
use iceclimber.Common.Text.{Text}
use iceclimber.Logfile.{Generations, set_file, rename_file}

pub set_file-here : (i : ℕ) (v : Option Text) (g : Generations) → set_file i v g i ≡ v
unfolding set_file
set_file-here i v g = ground arith

pub set_file-other : (i k : ℕ) (v : Option Text) (g : Generations) → k ≢ i → set_file i v g k ≡ g k
unfolding set_file
set_file-other i k v g h = ground arith

-- the first of two files that is there
abbrev pub first_of : Option Text → Option Text → Option Text
first_of none o = o
first_of (some s) o = some s

-- A rename of a file that may be missing.
abbrev branch : ℕ → ℕ → Generations → Option Text → Generations
branch i j g o = elim o [ none ↦ g | some s ↦ set_file j (some s) (set_file i none g) ]

pub rename_file-none : (i j : ℕ) (g : Generations) → g i ≡ none → rename_file i j g ≡ g
unfolding rename_file
rename_file-none i j g e = ap (branch i j g) e

pub rename_file-from : (i j : ℕ) (g : Generations) → i ≢ j → rename_file i j g i ≡ none
unfolding rename_file
rename_file-from i j g apart = go (g i) refl
  where
    go : (o : Option Text) → g i ≡ o → branch i j g o i ≡ none
    go none e = e
    go (some s) e = set_file-other j i (some s) (set_file i none g) apart ∙ set_file-here i none g

pub rename_file-to : (i j : ℕ) (g : Generations) → rename_file i j g j ≡ first_of (g i) (g j)
unfolding rename_file
rename_file-to i j g = go (g i)
  where
    go : (o : Option Text) → branch i j g o j ≡ first_of o (g j)
    go none = refl
    go (some s) = set_file-here j (some s) (set_file i none g)

pub rename_file-other : (i j k : ℕ) (g : Generations) → k ≢ i → k ≢ j → rename_file i j g k ≡ g k
unfolding rename_file
rename_file-other i j k g h h' = go (g i)
  where
    go : (o : Option Text) → branch i j g o k ≡ g k
    go none = refl
    go (some s) = set_file-other j k (some s) (set_file i none g) h' ∙ set_file-other i k none g h
