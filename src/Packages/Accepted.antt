-- ===== src/Packages/Accepted.antt =====
-- ValidateExtraArgs of internal/pkg/extraargs.go accepts exactly the sequences of allowed flags.
use iceclimber.Common.{
  ◌≡◌, refl, ◌↔◌, inl, inr, true, false, not, ◌&&◌, Option, none, some, List, [], ◌∷◌,
  if◌then◌else◌, Bool-cases, Option-cases,
}
use iceclimber.Common.Text.{Text, codes, has_prefix}
use iceclimber.Packages.{
  FlagSpec, Allowed, ArgError, no_value, flag_name, inline_value, Finding, bad, alone, wants_value,
  look_at, validate_extra_args,
}

module _ (allow : Allowed) where
  -- A list of arguments that is made of allowed flags: a flag that takes no value or has it behind
  -- '=', or a flag and the argument behind it, its value.
  pub data Flags : List Text → Type 0 where
    done : Flags []
    single :
        {args : List Text} (tok : Text) (spec : FlagSpec)
        → has_prefix tok (codes "-") ≡ true
        → allow (flag_name tok) ≡ some spec
        → (spec.takes_value && not (inline_value tok)) ≡ false
        → Flags args
        → Flags (tok ∷ args)
    valued :
        {args : List Text} (tok value : Text) (spec : FlagSpec)
        → has_prefix tok (codes "-") ≡ true
        → allow (flag_name tok) ≡ some spec
        → (spec.takes_value && not (inline_value tok)) ≡ true
        → Flags args
        → Flags (tok ∷ value ∷ args)

  look_at-some :
      (tok : Text) (spec : FlagSpec)
      → has_prefix tok (codes "-") ≡ true
      → allow (flag_name tok) ≡ some spec
      → look_at allow tok ≡ (
          if spec.takes_value && not (inline_value tok) then wants_value (flag_name tok) else alone)
  look_at-some tok spec e f = unfold look_at in rw (e, f, look_at)

  complete : (args : List Text) → Flags args → validate_extra_args allow args ≡ none
  unfolding validate_extra_args
  complete _ done = refl
  complete _ (single {args = []} tok spec p a v rest) = rw (look_at-some tok spec p a, v)
  complete _ (single {args = w ∷ args} tok spec p a v rest) =
      rw (look_at-some tok spec p a, v) (complete (w ∷ args) rest)
  complete _ (valued {args} tok value spec p a v rest) =
      rw (look_at-some tok spec p a, v) (complete args rest)

  -- What the loop has found of an argument that is no error.
  data Shape (tok : Text) : Finding → Type 0 where
    refused : (e : ArgError) → Shape tok (bad e)
    flag :
        (spec : FlagSpec)
        → has_prefix tok (codes "-") ≡ true
        → allow (flag_name tok) ≡ some spec
        → (spec.takes_value && not (inline_value tok)) ≡ false
        → Shape tok alone
    opener :
        (spec : FlagSpec)
        → has_prefix tok (codes "-") ≡ true
        → allow (flag_name tok) ≡ some spec
        → (spec.takes_value && not (inline_value tok)) ≡ true
        → Shape tok (wants_value (flag_name tok))

  shape : (tok : Text) → Shape tok (look_at allow tok)
  unfolding look_at
  shape tok = elim (Bool-cases (has_prefix tok (codes "-"))) [
    | inr e ↦ rw e (refused _)
    | inl e ↦ elim (Option-cases (allow (flag_name tok))) [
      | inl f ↦ rw (e, f) (refused _)
      | inr (spec, f) ↦ elim (Bool-cases (spec.takes_value && not (inline_value tok))) [
        | inl v ↦ rw (e, f, v) (opener spec e f v)
        | inr v ↦ rw (e, f, v) (flag spec e f v)
      ]
    ]
  ]

  correct : (args : List Text) → validate_extra_args allow args ≡ none → Flags args
  unfolding validate_extra_args
  correct [] h = done
  correct (tok ∷ []) h = go (look_at allow tok) (shape tok) h
    where
      go :
          (x : Finding)
          → Shape tok x
          → ◌≡◌ {A = Option ArgError}
              (elim x [ bad e ↦ some e | alone ↦ none | wants_value n ↦ some (no_value n) ])
              none
          → Flags (tok ∷ [])
      go _ (refused e) q = absurd (cc)
      go _ (flag spec p a v) q = single tok spec p a v done
      go _ (opener spec p a v) q = absurd (cc)
  correct (tok ∷ value ∷ args) h =
      go (correct (value ∷ args)) (correct args) (look_at allow tok) (shape tok) h
    where
      go :
          (validate_extra_args allow (value ∷ args) ≡ none → Flags (value ∷ args))
          → (validate_extra_args allow args ≡ none → Flags args)
          → (x : Finding) → Shape tok x
          → ◌≡◌ {A = Option ArgError}
              (elim x [
                | bad e ↦ some e
                | alone ↦ validate_extra_args allow (value ∷ args)
                | wants_value n ↦ validate_extra_args allow args
              ])
              none
          → Flags (tok ∷ value ∷ args)
      go next skip _ (refused e) q = absurd (cc)
      go next skip _ (flag spec p a v) q = single tok spec p a v (next q)
      go next skip _ (opener spec p a v) q = valued tok value spec p a v (skip q)

  -- ValidateExtraArgs accepts exactly the argument lists that are made of allowed flags and the
  -- values that they take: no argument stands by itself that is not a flag.
  pub validate_extra_args_iff :
      (args : List Text) → (validate_extra_args allow args ≡ none) ↔ Flags args
  validate_extra_args_iff args = (correct args, complete args)
