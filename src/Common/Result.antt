-- ===== src/Common/Result.antt =====
-- What a Go function that may return an error gives back.
use mathlib.Core.Path.{◌≡◌, refl}
use mathlib.Core.Bool.{Bool, true, false}
use mathlib.Core.List.{List, [], ◌∷◌}
use iceclimber.Common.Lists.{All}
use mathlib.Core.Option.{Option, none, some}
use iceclimber.Common.Tests.{if◌then◌else◌}

pub data Result {ℓ κ} (E : Type ℓ) (A : Type κ) : Type (ℓ ⊔ κ) where
  ok : A → Result E A
  err : E → Result E A

infixl 5 ◌>>=◌ ◌>>◌
abbrev pub ◌>>=◌ {ℓ κ μ} :
    {E : Type ℓ} {A : Type κ} {B : Type μ} → Result E A → (A → Result E B) → Result E B
ok a >>= f = f a
err e >>= f = err e

abbrev pub ◌>>◌ {ℓ κ μ} :
    {E : Type ℓ} {A : Type κ} {B : Type μ} → Result E A → Result E B → Result E B
m >> k = m >>= λ _. k

pub ok-injective {ℓ κ} :
    {E : Type ℓ} {A : Type κ} {a b : A} → ◌≡◌ {A = Result E A} (ok a) (ok b) → a ≡ b
ok-injective h = cc

-- A check that gives an error or none, and one that follows it.
unfoldable pub then_check {ℓ} : {E : Type ℓ} → Option E → Option E → Option E
then_check none next = next
then_check (some e) next = some e

unfoldable pub error_if {ℓ} : {E : Type ℓ} → Bool → E → Option E
error_if b e = if b then some e else none

pub then_check-none {ℓ} :
    {E : Type ℓ} (a b : Option E) → then_check a b ≡ none → (a ≡ none) × (b ≡ none)
unfolding then_check
then_check-none none b h = (refl, h)
then_check-none (some e) b h = absurd (cc)

pub error_if-none {ℓ} : {E : Type ℓ} (b : Bool) (e : E) → error_if b e ≡ none → b ≡ false
unfolding error_if
error_if-none true e h = absurd (cc)
error_if-none false e h = refl

-- The first error of several checks.
unfoldable pub first_error {ℓ} : {E : Type ℓ} → List (Option E) → Option E
unfolding then_check
first_error [] = none
first_error (c ∷ checks) = then_check c (first_error checks)

pub first_error-none {ℓ} :
    {E : Type ℓ} (checks : List (Option E)) → first_error checks ≡ none → All (λ c. c ≡ none) checks
unfolding first_error
first_error-none [] h = tt
first_error-none (c ∷ checks) h =
    let (a, b) = then_check-none c (first_error checks) h in (a, first_error-none checks b)
