-- ===== src/Common/Text/Split.antt =====
-- strings.Split at one byte, strings.Index
use Prim.Native.Nat.{ℕ, suc, ◌≤◌}
use mathlib.Core.Path.{◌≡◌, refl, ap}
use mathlib.Core.Logic.{inl, inr}
use mathlib.Core.Bool.{Bool, true, false, ◌||◌}
use mathlib.Core.List.{List, [], ◌∷◌, ◌++◌}
use mathlib.Core.Option
use mathlib.Core.Option.{Option, none, some}
use native.Mathlib.Omega.{arith}
use iceclimber.Common.Tests.{◌==◌, if◌then◌else◌, Bool-cases, Option-cases}
use iceclimber.Common.Lists.{length, drop}
use iceclimber.Common.Text.Equal.{Text}
use iceclimber.Common.Text.Prefix.{has_prefix, has_prefix-split, has_prefix_of_eq}

-- One more byte at the front of the first part.
abbrev pub cons_head : ℕ → List Text → List Text
cons_head c [] = (c ∷ []) ∷ []
cons_head c (w ∷ ws) = (c ∷ w) ∷ ws

-- strings.Split(s, sep) for a one-byte separator: never empty.
unfoldable pub split : ℕ → Text → List Text
split sep [] = [] ∷ []
split sep (c ∷ s) = if c == sep then [] ∷ split sep s else cons_head c (split sep s)

pub split-ne-nil : (sep : ℕ) (s : Text) → (w : Text) × (ws : List Text) × (split sep s ≡ w ∷ ws)
unfolding split
split-ne-nil sep [] = ([], [], refl)
split-ne-nil sep (c ∷ s) = elim (Bool-cases (c == sep)) [
  | inl e ↦ ([], split sep s, rw e)
  | inr e ↦ let (w, ws, h) = split-ne-nil sep s in (c ∷ w, ws, rw (e, h))
]

-- strings.Index: the least position, `none` for -1.
unfoldable pub index : Text → Text → Option ℕ
unfolding has_prefix
index [] sub = if has_prefix [] sub then some 0 else none
index (x ∷ s) sub = if has_prefix (x ∷ s) sub then some 0 else Option.map suc (index s sub)

-- strings.Contains
unfoldable pub contains : Text → Text → Bool
unfolding index
contains s sub = elim (index s sub) [ none ↦ false | some _ ↦ true ]

-- strings.ContainsRune, strings.IndexByte(…) >= 0, of one ASCII byte
unfoldable pub contains_byte : Text → ℕ → Bool
contains_byte [] c = false
contains_byte (x ∷ s) c = x == c || contains_byte s c

module _ (sub : Text) where
  -- An occurrence that was found is one.
  pub index-split :
      (s : Text) (i : ℕ)
      → index s sub ≡ some i
      → (gap : Text) × (rest : Text) × (length gap ≡ i) × (s ≡ gap ++ (sub ++ rest))
  unfolding index
  index-split [] i h = elim (Bool-cases (has_prefix [] sub)) [
    | inl e ↦ ([], drop (length sub) [], ground arith, has_prefix-split [] sub e)
    | inr e ↦ absurd (ground arith)
  ]
  index-split (x ∷ s) i h = elim (Bool-cases (has_prefix (x ∷ s) sub)) [
    | inl e ↦ ([], drop (length sub) (x ∷ s), ground arith, has_prefix-split (x ∷ s) sub e)
    | inr e ↦ elim (Option-cases (index s sub)) [
      | inl n ↦ absurd (ground arith)
      | inr (j, f) ↦
          let (gap, rest, l, q) = index-split s j f in
          (x ∷ gap, rest, ground arith, ap (λ t. x ∷ t) q)
    ]
  ]

  -- An occurrence is found, at its place or before it.
  pub index-least :
      (s gap rest : Text)
      → s ≡ gap ++ (sub ++ rest)
      → (i : ℕ) × (index s sub ≡ some i) × (i ≤ length gap)
  unfolding index
  index-least [] [] rest e = (0, rw (has_prefix_of_eq [] sub rest e), omega arith)
  index-least [] (y ∷ gap) rest e = absurd (cc)
  index-least (x ∷ s) [] rest e = (0, rw (has_prefix_of_eq (x ∷ s) sub rest e), omega arith)
  index-least (x ∷ s) (y ∷ gap) rest e = elim (Bool-cases (has_prefix (x ∷ s) sub)) [
    | inl f ↦ (0, rw f, omega arith)
    | inr f ↦ let (i, g, l) = index-least s gap rest (cc) in (suc i, rw (f, g), omega arith)
  ]
