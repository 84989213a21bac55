-- ===== src/Common/Text/Bytes.antt =====
-- strings.IndexByte and strings.LastIndexByte.
use iceclimber.Common.Lists.{length}
use iceclimber.Common.Tests.{◌==◌, if◌then◌else◌, Bool-cases, ==_iff}
use iceclimber.Common.Text.Equal.{Text}
use iceclimber.Common.Text.Split.{contains_byte}
use Prim.Native.Nat.{ℕ, suc}
use mathlib.Core.Bool.{Bool, true, false, false≢true}
use mathlib.Core.List.{[], ◌∷◌, ◌++◌}
use mathlib.Core.Logic.{inl, inr}
use mathlib.Core.Option.{Option, none, some}
use mathlib.Core.Path.{◌≡◌, refl, sym}

abbrev pub one_on : Option ℕ → Option ℕ
one_on none = none
one_on (some i) = some (suc i)

unfoldable pub index_byte : Text → ℕ → Option ℕ
index_byte [] c = none
index_byte (x ∷ s) c = let rest = index_byte s c in if x == c then some 0 else one_on rest

abbrev pub later : Bool → Option ℕ → Option ℕ
later b (some i) = some (suc i)
later true none = some 0
later false none = none

unfoldable pub last_index_byte : Text → ℕ → Option ℕ
last_index_byte [] c = none
last_index_byte (x ∷ s) c = later (x == c) (last_index_byte s c)

-- The first byte c of a text stands behind a part that has none.
pub index_byte-append :
    (s t : Text) (c : ℕ) → contains_byte s c ≡ false → index_byte (s ++ c ∷ t) c ≡ some (length s)
unfolding index_byte contains_byte
index_byte-append [] t c h = rw ((==_iff c c).1 refl)
index_byte-append (x ∷ s) t c h = elim (Bool-cases (x == c)) [
  | inl e ↦ absurd (false≢true (sym (rw e at h)))
  | inr e ↦ rw (e, index_byte-append s t c (rw e at h))
]
