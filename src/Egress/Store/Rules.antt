-- ===== src/Egress/Store/Rules.antt =====
-- The rule set of internal/egress/store.go: AddAllow, AddDeny, RemoveAllow, RemoveDeny, mutate.
use iceclimber.Common.{Bool, true, false, Option, none, some, List, [], ◌∷◌, ◌++◌, if◌then◌else◌}
use iceclimber.Common.Result.{Result, ok, err}
use iceclimber.Common.Text.{Text, text_eq}
use iceclimber.Egress.Url.{UrlLib, canonical}
use iceclimber.Egress.Validate.{PatternError, validate_url_glob}
use iceclimber.Egress.Store.Files.{
  File, Json, WriteStep, StoreError, lock_failed, refused, write_failed, Env, load,
  write_json_atomic,
}

-- the struct `rules`
pub record RuleSet : Type 0 where
  pub allow : List Text
  pub deny : List Text

abbrev pub no_rules : RuleSet
no_rules = record { allow = []; deny = [] }

unfoldable pub remove_str : List Text → Text → List Text
unfolding text_eq
remove_str [] x = []
remove_str (v ∷ xs) x = let rest = remove_str xs x in if text_eq v x then rest else v ∷ rest

unfoldable pub append_new : List Text → Text → List Text
append_new xs x = xs ++ x ∷ []

unfoldable pub has_str : List Text → Text → Bool
unfolding text_eq
has_str [] x = false
has_str (e ∷ xs) x = if text_eq e x then true else has_str xs x

unfoldable pub append_unique : List Text → Text → List Text
unfolding has_str append_new
append_unique xs x = if has_str xs x then xs else append_new xs x

-- The error, if any, and the file afterwards.
abbrev pub Outcome : Type 0
Outcome = Option (StoreError PatternError) × File

module _ (json : Json RuleSet) where
  abbrev pub load_rules : File → Result (StoreError PatternError) RuleSet
  load_rules = load json no_rules

  unfoldable pub finish_write : Option WriteStep × File → Outcome
  finish_write (none, f) = (none, f)
  finish_write (some step, f) = (some (write_failed step), f)

  unfoldable pub mutate_loaded :
      Env
      → (RuleSet → Result PatternError RuleSet)
      → Result (StoreError PatternError) RuleSet
      → File
      → Outcome
  unfolding finish_write write_json_atomic
  mutate_loaded env fn (err e) f = (some e, f)
  mutate_loaded env fn (ok r) f = elim (fn r) [
    | err e ↦ (some (refused e), f)
    | ok r' ↦ finish_write (write_json_atomic json env.fails r' f)
  ]

  unfoldable pub mutate : Env → (RuleSet → Result PatternError RuleSet) → File → Outcome
  unfolding mutate_loaded load
  mutate env fn f =
      if env.locks then mutate_loaded env fn (load_rules f) f else (some lock_failed, f)

  module _ (lib : UrlLib) where
    unfoldable pub allow_rule : Text → RuleSet → Result PatternError RuleSet
    unfolding canonical validate_url_glob append_unique
    allow_rule pattern r =
        let p = canonical lib pattern in
        elim (validate_url_glob p) [
          | some e ↦ err e
          | none ↦ ok (record r { allow = append_unique r.allow p })
        ]

    unfoldable pub deny_rule : Text → RuleSet → Result PatternError RuleSet
    unfolding canonical validate_url_glob append_unique
    deny_rule pattern r =
        let p = canonical lib pattern in
        elim (validate_url_glob p) [
          | some e ↦ err e
          | none ↦ ok (record r { deny = append_unique r.deny p })
        ]

    unfoldable pub forget_allow_rule : Text → RuleSet → Result PatternError RuleSet
    unfolding canonical remove_str
    forget_allow_rule pattern r =
        ok (record r { allow = remove_str r.allow (canonical lib pattern) })

    unfoldable pub forget_deny_rule : Text → RuleSet → Result PatternError RuleSet
    unfolding canonical remove_str
    forget_deny_rule pattern r = ok (record r { deny = remove_str r.deny (canonical lib pattern) })

    unfoldable pub add_allow : Env → Text → File → Outcome
    unfolding mutate allow_rule
    add_allow env pattern = mutate env (allow_rule pattern)

    unfoldable pub add_deny : Env → Text → File → Outcome
    unfolding mutate deny_rule
    add_deny env pattern = mutate env (deny_rule pattern)

    unfoldable pub remove_allow : Env → Text → File → Outcome
    unfolding mutate forget_allow_rule
    remove_allow env pattern = mutate env (forget_allow_rule pattern)

    unfoldable pub remove_deny : Env → Text → File → Outcome
    unfolding mutate forget_deny_rule
    remove_deny env pattern = mutate env (forget_deny_rule pattern)
