-- ===== src/Egress/Store/Atomic.antt =====
-- writeJSONAtomic and mutate of internal/egress/store.go: all or nothing.
use iceclimber.Common.{
  ◌≡◌, ◌≢◌, refl, ap, ◌∙◌, ◌⊎◌, Bool, true, false, Option, none, some, List, [], ◌∷◌, ◌++◌, arith,
  if◌then◌else◌,
}
use iceclimber.Common.Result.{Result, ok, err}
use iceclimber.Common.Text.{Text}
use iceclimber.Egress.Validate.{PatternError}
use iceclimber.Egress.Store.Files.{
  bytes, File, Json, WriteStep, rename, remove, StoreError, lock_failed, refused, write_failed, Env,
  load, write_json_atomic,
}
use iceclimber.Egress.Store.Rules.{
  RuleSet, no_rules, load_rules, finish_write, mutate_loaded, mutate,
}

module _ {A : Type 0} (json : Json A) where
  -- A write without an error leaves the encoding and no temporary file of its own.
  pub write_json_atomic-ok :
      (fails : WriteStep → Bool) (v : A) (f f' : File)
      → write_json_atomic json fails v f ≡ (none, f')
      → f' ≡ record f { content = bytes (json.encode v ++ b'\n' ∷ []) }
  unfolding write_json_atomic
  write_json_atomic-ok fails v f f' h = ground arith

  -- A write with an error leaves the target alone; only a failed rename or a failed removal leaves a
  -- temporary file.
  pub write_json_atomic-err :
      (fails : WriteStep → Bool) (v : A) (f f' : File) (step : WriteStep)
      → write_json_atomic json fails v f ≡ (some step, f')
      → (f'.content ≡ f.content) × ((f'.temps ≡ f.temps) ⊎ (step ≡ rename) ⊎ (fails remove ≡ true))
  unfolding write_json_atomic
  write_json_atomic-err fails v f f' step h = ground arith

  load_nonempty :
      {E : Type 0} (z a : A) (s : Text) (temps : List Text)
      → s ≢ []
      → json.decode s ≡ some a
      → load json {E = E} z (record { content = bytes s; temps = temps }) ≡ ok a
  unfolding load
  load_nonempty z a [] temps n h = absurd (n refl)
  load_nonempty z a (c ∷ s) temps n h = rw (h, load)

  -- What was written is what the next load reads.
  pub load-write :
      {E : Type 0} (z v : A) (temps : List Text)
      → json.Faithful v
      → load json {E = E} z
          (record { content = bytes (json.encode v ++ b'\n' ∷ []); temps = temps })
        ≡ ok v
  load-write z v temps h =
      load_nonempty z v (json.encode v ++ b'\n' ∷ []) temps (ends (json.encode v))
        (json.decode-encode v h)
    where
      ends : (s : Text) → (s ++ b'\n' ∷ []) ≢ []
      ends [] e = cc
      ends (c ∷ s) e = cc

-- How a mutation of the rules can end, for the function `fn` that was applied.
module _ (json : Json RuleSet) (env : Env) (fn : RuleSet → Result PatternError RuleSet) where
  finished :
      (o : Option WriteStep × File) (f' : File) → finish_write json o ≡ (none, f') → o ≡ (none, f')
  unfolding finish_write
  finished (none, f) f' h = cc
  finished (some step, f) f' h = absurd (cc)

  mutate-result :
      (r : RuleSet) (f f' : File)
      → mutate_loaded json env fn (ok r) f ≡ (none, f')
      → (r' : RuleSet) × (fn r ≡ ok r') × (write_json_atomic json env.fails r' f ≡ (none, f'))
  mutate-result r f f' h = unfold mutate_loaded in go (fn r) refl h
    where
      go :
          (x : Result PatternError RuleSet)
          → fn r ≡ x
          → elim x [
            | err e ↦ (some (refused e), f)
            | ok r' ↦ finish_write json (write_json_atomic json env.fails r' f)
          ]
            ≡ (none, f')
          → (r' : RuleSet) × (fn r ≡ ok r') × (write_json_atomic json env.fails r' f ≡ (none, f'))
      go (ok r') e k = (r', e, finished _ f' k)
      go (err x) e k = absurd (cc)

  mutate-loaded :
      (f f' : File)
      → mutate json env fn f ≡ (none, f')
      → (r : RuleSet) × (load_rules json f ≡ ok r)
        × (mutate_loaded json env fn (ok r) f ≡ (none, f'))
  unfolding mutate
  mutate-loaded f f' h = go env.locks (load_rules json f) refl h
    where
      go :
          (b : Bool) (l : Result (StoreError PatternError) RuleSet)
          → load_rules json f ≡ l
          → (if b then mutate_loaded json env fn l f else (some lock_failed, f)) ≡ (none, f')
          → (r : RuleSet) × (load_rules json f ≡ ok r)
            × (mutate_loaded json env fn (ok r) f ≡ (none, f'))
      go true (ok r) e k = (r, e, k)
      go true (err x) e k = absurd (cc)
      go false l e k = absurd (cc)

  -- A mutation that reports no error has read the rules, applied the function to them, and left a
  -- file that reads as the result (if it can be encoded) and no temporary file of its own.
  pub mutate-ok :
      (f f' : File)
      → mutate json env fn f ≡ (none, f')
      → (r : RuleSet) × (r' : RuleSet) × (load_rules json f ≡ ok r)
        × (fn r ≡ ok r')
        × (json.Faithful r' → load_rules json f' ≡ ok r')
        × (f'.temps ≡ f.temps)
  mutate-ok f f' h =
      let (r, l, m) = mutate-loaded f f' h in
      let (r', a, w) = mutate-result r f f' m in
      let e = write_json_atomic-ok json env.fails r' f f' w in
      (
        r,
        r',
        l,
        a,
        λ faithful. ap (load_rules json) e ∙ load-write json no_rules r' f.temps faithful,
        ap (λ (g : File). g.temps) e,
      )

  -- A mutation that reports an error has left the rules file as it was, and a temporary file of its
  -- own only if the error is that of the final rename, or if the removal of that file failed too.
  pub mutate-err :
      (f f' : File) (e : StoreError PatternError)
      → mutate json env fn f ≡ (some e, f')
      → (f'.content ≡ f.content)
        × ((f'.temps ≡ f.temps) ⊎ (e ≡ write_failed rename) ⊎ (env.fails remove ≡ true))
  unfolding mutate
  mutate-err f f' e h = go env.locks (load_rules json f) h
    where
      Unharmed : Type 0
      Unharmed =
          (f'.content ≡ f.content)
          × ((f'.temps ≡ f.temps) ⊎ (e ≡ write_failed rename) ⊎ (env.fails remove ≡ true))

      at_write :
          (w : Option WriteStep × File) (r' : RuleSet)
          → write_json_atomic json env.fails r' f ≡ w
          → finish_write json w ≡ (some e, f')
          → Unharmed
      at_write (none, g) r' q k = absurd (cc)
      at_write (some step, g) r' q k =
          let (c, t) = write_json_atomic-err json env.fails r' f g step q in ground arith

      at_result :
          (x : Result PatternError RuleSet)
          → elim x [
            | err a ↦ (some (refused a), f)
            | ok r' ↦ finish_write json (write_json_atomic json env.fails r' f)
          ]
            ≡ (some e, f')
          → Unharmed
      at_result (ok r') k = at_write (write_json_atomic json env.fails r' f) r' refl k
      at_result (err a) k = ground arith

      go :
          (b : Bool) (l : Result (StoreError PatternError) RuleSet)
          → (if b then mutate_loaded json env fn l f else (some lock_failed, f)) ≡ (some e, f')
          → Unharmed
      go true (ok r) k = at_result (fn r) k
      go true (err x) k = ground arith
      go false l k = ground arith
