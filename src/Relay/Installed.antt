-- ===== src/Relay/Installed.antt =====
-- Exists and VerifyRun of internal/relay/fetch.go, over a Runner.
use iceclimber.Common.{
  ◌==◌, ◌≡◌, refl, sym, ap, ◌⊎◌, inl, inr, Bool, false, Option, none, some, List, [], if◌then◌else◌,
}
use iceclimber.Common.Result.{Result, ok, err, ok-injective}
use iceclimber.Common.Text.{Text, trim_space}
use iceclimber.Common.Boxes.{listed}
use iceclimber.Common.Slash.{base, dir}
use iceclimber.Remote.Exec.{
  Runner, RunResult, ExecError, not_connected, not_exist, bad_size, exited, exec_list,
}

-- A missing directory holds no file; any other error is passed on.
unfoldable pub found_in : Text → Result ExecError (List Text) → Result ExecError Bool
unfolding listed
found_in name (ok names) = ok (listed name names)
found_in name (err not_exist) = ok false
found_in name (err not_connected) = err not_connected
found_in name (err (bad_size s)) = err (bad_size s)
found_in name (err (exited n s)) = err (exited n s)

unfoldable pub run_error : Option RunResult → Option ExecError
unfolding trim_space
run_error none = some not_connected
run_error (some res) =
    if res.exit_code == 0 then none else some (exited res.exit_code (trim_space res.stderr))

module _ (r : Runner) where
  unfoldable pub exists : Text → r.World → Result ExecError Bool × r.World
  unfolding exec_list found_in base dir
  exists p w = let (names, w') = exec_list r (dir p) w in (found_in (base p) names, w')

  unfoldable pub verify_run : Text → r.World → Option ExecError × r.World
  unfolding run_error
  verify_run command w = let (res, w') = r.run command [] w in (run_error res, w')

  -- The answer is yes only if the directory is listed with the name in it, and no only if the listing
  -- lacks the name or the directory is missing.
  pub exists-Listed :
      (p : Text) (w w' : r.World) (b : Bool)
      → exists p w ≡ (ok b, w')
      → ((names : List Text) × ((exec_list r (dir p) w).0 ≡ ok names) × (listed (base p) names ≡ b))
        ⊎ (((exec_list r (dir p) w).0 ≡ err not_exist) × (b ≡ false))
  unfolding exists
  exists-Listed p w w' b h =
      go (exec_list r (dir p) w).0 (ap (λ (x : Result ExecError Bool × r.World). x.0) h)
    where
      go :
          (x : Result ExecError (List Text))
          → found_in (base p) x ≡ ok b
          → ((names : List Text) × (x ≡ ok names) × (listed (base p) names ≡ b))
            ⊎ ((x ≡ err not_exist) × (b ≡ false))
      go (ok names) q = inl (names, refl, unfold found_in in ok-injective q)
      go (err not_exist) q = inr (refl, unfold found_in in sym (ok-injective q))
      go (err not_connected) q = absurd (unfold found_in in cc)
      go (err (bad_size s)) q = absurd (unfold found_in in cc)
      go (err (exited n s)) q = absurd (unfold found_in in cc)
