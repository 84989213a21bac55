-- ===== src/Conda/Report.antt =====
-- resultOutcome of internal/conda/conda.go: what a finished conda run is reported as. json.Unmarshal
-- of conda's document is a parameter.
use iceclimber.Common.{
  ◌≡◌, ◌⊎◌, refl, ap, ◌∙◌, inl, inr, Bool, true, false, not, ◌||◌, Option, none, some, List, [],
  ◌∷◌, ◌++◌, map, drop, ◌==◌, append-nil, Bool-cases, Option-cases, if◌then◌else◌,
}
use iceclimber.Common.Result.{Result, ok, err}
use iceclimber.Common.Text.{Text, codes, text_eq, trim_space, index_byte}
use iceclimber.Remote.Exec.{RunResult}
use iceclimber.Packages.{last_lines, first_non_empty}
use iceclimber.Conda.Command.{Spec}

pub record Linked : Type 0 where
  pub name : Text
  pub version : Text

pub record CondaJson : Type 0 where
  pub success : Bool
  pub message : Text
  pub error : Text
  pub link : List Linked

pub record Installed : Type 0 where
  pub name : Text
  pub version : Text
  pub tier : Text
  pub sha256 : Text

pub record Failure : Type 0 where
  pub name : Text
  pub version : Text
  pub error : Text

pub record Outcome : Type 0 where
  pub installed : List Installed
  pub failed : List Failure

pub data ReportError : Type 0 where
  conda_failed : Text → ReportError
  bad_json : ReportError

unfoldable pub trim_to_json : Text → Text
unfolding trim_space index_byte
trim_to_json b = let s = trim_space b in elim (index_byte s b'{') [ none ↦ s | some i ↦ drop i s ]

-- linked[name]: the last of the linked packages with the name, or the version asked for
unfoldable pub linked_version : List Linked → Text → Text → Text
unfolding text_eq
linked_version [] name version = version
linked_version (l ∷ link) name version =
    linked_version link name (if text_eq l.name name then l.version else version)

unfoldable pub installed_of : Text → List Linked → Spec → Installed
unfolding linked_version
installed_of tier link s = record {
  name = s.name;
  version = linked_version link s.name s.version;
  tier = tier;
  sha256 = [];
}

unfoldable pub failure_of : Text → Spec → Failure
failure_of message s = record { name = s.name; version = s.version; error = message }

unfoldable pub failure_message : CondaJson → Text → Text
unfolding first_non_empty last_lines
failure_message cr stderr =
    first_non_empty
      (cr.message ∷ cr.error ∷ last_lines stderr 4 ∷ codes "conda install failed" ∷ [])

unfoldable pub report : CondaJson → RunResult → List Spec → Text → Outcome
unfolding failure_of failure_message installed_of
report cr res specs tier =
    if not (res.exit_code == 0) || not cr.success
    then record { installed = []; failed = map (failure_of (failure_message cr res.stderr)) specs }
    else record { installed = map (installed_of tier cr.link) specs; failed = [] }

module _ (unmarshal : Text → Option CondaJson) where
  unfoldable pub result_outcome : RunResult → List Spec → Text → Result ReportError Outcome
  unfolding trim_to_json last_lines report
  result_outcome res specs tier = elim (unmarshal (trim_to_json res.stdout)) [
    | none ↦
        if not (res.exit_code == 0)
        then err (conda_failed (last_lines res.stderr 4))
        else err bad_json
    | some cr ↦ ok (report cr res specs tier)
  ]

-- The specs that an outcome reports, by name.
abbrev pub reported : Outcome → List Text
reported o = map (λ (i : Installed). i.name) o.installed ++ map (λ (f : Failure). f.name) o.failed

abbrev pub requested : List Spec → List Text
requested specs = map (λ (s : Spec). s.name) specs

-- An outcome stands for these specs: all of them are installed, or all of them have failed.
pub record Complete (o : Outcome) (specs : List Spec) (succeeded : Bool) : Type 0 where
  pub each_once : reported o ≡ requested specs
  pub no_failure : succeeded ≡ true → o.failed ≡ []
  pub no_install : succeeded ≡ false → o.installed ≡ []

installed_names :
    (tier : Text) (link : List Linked) (specs : List Spec)
    → map (λ (i : Installed). i.name) (map (installed_of tier link) specs) ≡ requested specs
unfolding installed_of
installed_names tier link [] = refl
installed_names tier link (s ∷ specs) = ap (λ t. s.name ∷ t) (installed_names tier link specs)

failed_names :
    (message : Text) (specs : List Spec)
    → map (λ (f : Failure). f.name) (map (failure_of message) specs) ≡ requested specs
unfolding failure_of
failed_names message [] = refl
failed_names message (s ∷ specs) = ap (λ t. s.name ∷ t) (failed_names message specs)

report-Complete :
    (cr : CondaJson) (res : RunResult) (specs : List Spec) (tier : Text)
    → Complete (report cr res specs tier) specs (not (not (res.exit_code == 0) || not cr.success))
unfolding report
report-Complete cr res specs tier = go (not (res.exit_code == 0) || not cr.success)
  where
    go :
        (b : Bool)
        → Complete
            (if b
              then record {
                installed = [];
                failed = map (failure_of (failure_message cr res.stderr)) specs;
              }
              else record { installed = map (installed_of tier cr.link) specs; failed = [] })
            specs
            (not b)
    go true = record {
      each_once = failed_names (failure_message cr res.stderr) specs;
      no_failure = λ e. absurd (cc);
      no_install = λ _. refl;
    }
    go false = record {
      each_once =
          append-nil (map (λ (i : Installed). i.name) (map (installed_of tier cr.link) specs))
          ∙ installed_names tier cr.link specs;
      no_failure = λ _. refl;
      no_install = λ e. absurd (cc);
    }

-- If conda's document can be read, every requested package is reported exactly once and in the order
-- of the request: all as installed if conda exits with 0 and says that it succeeded, all as failed
-- otherwise. If it cannot be read, the result is an error.
pub result_outcome-Complete :
    (unmarshal : Text → Option CondaJson) (res : RunResult) (specs : List Spec) (tier : Text)
    → ((unmarshal (trim_to_json res.stdout) ≡ none)
        × (e : ReportError) × (result_outcome unmarshal res specs tier ≡ err e))
      ⊎ ((cr : CondaJson) × (unmarshal (trim_to_json res.stdout) ≡ some cr)
          × (o : Outcome) × (result_outcome unmarshal res specs tier ≡ ok o)
          × Complete o specs (not (not (res.exit_code == 0) || not cr.success)))
unfolding result_outcome
result_outcome-Complete unmarshal res specs tier =
    elim (Option-cases (unmarshal (trim_to_json res.stdout))) [
      | inl e ↦ elim (Bool-cases (not (res.exit_code == 0))) [
        | inl n ↦ inl (e, conda_failed (last_lines res.stderr 4), rw (e, result_outcome, n))
        | inr n ↦ inl (e, bad_json, rw (e, result_outcome, n))
      ]
      | inr (cr, e) ↦ inr (
        cr,
        e,
        report cr res specs tier,
        rw (e, result_outcome),
        report-Complete cr res specs tier,
      )
    ]
