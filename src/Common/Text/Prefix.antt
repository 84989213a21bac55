-- ===== src/Common/Text/Prefix.antt =====
-- strings.HasPrefix, HasSuffix, TrimPrefix, TrimSuffix
use Prim.Native.Nat.{◌-◌}
use mathlib.Core.Path.{◌≡◌, refl, ap, sym, ◌∙◌}
use mathlib.Core.Bool.{Bool, true, false, ◌&&◌}
use mathlib.Core.Logic.{◌≢◌, inl, inr}
use mathlib.Core.List.{[], ◌∷◌, ◌++◌}
use native.Mathlib.Omega.{arith}
use iceclimber.Common.Tests.{◌==◌, leb, if◌then◌else◌, Bool-cases}
use iceclimber.Common.Lists.{
  length, take, drop, length-append, take-append-drop, take-append_length, drop-append_length,
}
use iceclimber.Common.Text.Equal.{Text, text_eq, text_eq_iff, text_eq_refl}

unfoldable pub has_prefix : Text → Text → Bool
has_prefix s [] = true
has_prefix [] (c ∷ p) = false
has_prefix (x ∷ s) (c ∷ p) = x == c && has_prefix s p

unfoldable pub has_suffix : Text → Text → Bool
unfolding text_eq
has_suffix s suf = leb (length suf) (length s) && text_eq (drop (length s - length suf) s) suf

unfoldable pub trim_prefix : Text → Text → Text
unfolding has_prefix
trim_prefix s p = if has_prefix s p then drop (length p) s else s

unfoldable pub trim_suffix : Text → Text → Text
unfolding has_suffix
trim_suffix s suf = if has_suffix s suf then take (length s - length suf) s else s

pub has_prefix-append : (p t : Text) → has_prefix (p ++ t) p ≡ true
unfolding has_prefix
has_prefix-append [] t = refl
has_prefix-append (c ∷ p) t = ground (arith, has_prefix-append p t)

pub has_prefix_of_eq : (s p t : Text) → s ≡ p ++ t → has_prefix s p ≡ true
has_prefix_of_eq s p t e = rw e (has_prefix-append p t)

-- What follows a prefix.
pub has_prefix-split : (s p : Text) → has_prefix s p ≡ true → s ≡ p ++ drop (length p) s
unfolding has_prefix
has_prefix-split s [] h = refl
has_prefix-split [] (c ∷ p) h = cc
has_prefix-split (x ∷ s) (c ∷ p) h = ground (arith, has_prefix-split s p)

pub drop-eq_of_append : (s p t : Text) → s ≡ p ++ t → drop (length p) s ≡ t
drop-eq_of_append s p t e = rw e (drop-append_length p t)

pub take-eq_of_append : (s t suf : Text) → s ≡ t ++ suf → take (length s - length suf) s ≡ t
take-eq_of_append s t suf e = rw e (
    let n : length (t ++ suf) - length suf ≡ length t = omega (arith, length-append {0} t suf) in
    rw n (take-append_length t suf))

pub has_suffix_of_eq : (s t suf : Text) → s ≡ t ++ suf → has_suffix s suf ≡ true
unfolding has_suffix
has_suffix_of_eq s t suf e = rw e (
    let n : length (t ++ suf) - length suf ≡ length t = omega (arith, length-append {0} t suf) in
    rw (n, drop-append_length t suf, text_eq_refl suf) (ground (arith, length-append {0} t suf)))

-- What stands before a suffix.
pub has_suffix-split :
    (s suf : Text) → has_suffix s suf ≡ true → s ≡ take (length s - length suf) s ++ suf
unfolding has_suffix
has_suffix-split s suf h =
    let e : drop (length s - length suf) s ≡ suf =
      ground (arith, text_eq_iff (drop (length s - length suf) s) suf) in
    sym (
      ap (λ t. take (length s - length suf) s ++ t) (sym e)
      ∙ take-append-drop (length s - length suf) s)

pub trim_suffix-append : (t suf : Text) → trim_suffix (t ++ suf) suf ≡ t
unfolding trim_suffix
trim_suffix-append t suf =
    rw (has_suffix_of_eq (t ++ suf) t suf refl, trim_suffix)
      (take-eq_of_append (t ++ suf) t suf refl)

pub trim_suffix-none : (s suf : Text) → ((t : Text) → s ≢ t ++ suf) → trim_suffix s suf ≡ s
unfolding trim_suffix
trim_suffix-none s suf h = elim (Bool-cases (has_suffix s suf)) [
  | inl e ↦ absurd (h (take (length s - length suf) s) (has_suffix-split s suf e))
  | inr e ↦ rw (e, trim_suffix)
]
