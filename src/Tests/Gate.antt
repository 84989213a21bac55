-- ===== src/Tests/Gate.antt =====
-- internal/egress: globs, canonical URLs and decisions.
use iceclimber.Common.{ℕ, ◌≡◌, ◌≢◌, arith, refl, ap, ◌∙◌, inl, inr, ◌++◌, ◌↔◌, true, false, [], ◌∷◌}
use iceclimber.Common.Text.{Text, codes, split, index, ascii_lower, has_suffix}
use iceclimber.Egress.Glob.{glob_match}
use iceclimber.Egress.Glob.Language.{Matches}
use iceclimber.Egress.Glob.Correct.{glob_match_iff}
use iceclimber.Egress.Url.{canonical, host_glob}
use iceclimber.Egress.Url.Paths.{same, add_empty, add_dot, IsName}
use iceclimber.Egress.Url.Laws.{SameTarget, decide-SameTarget}
use iceclimber.Egress.Store.Files.{load}
use iceclimber.Egress.Store.Rules.{RuleSet}
use iceclimber.Egress.Policy.{Policy, allow, deny, hold, decide, store_denied}
use iceclimber.Egress.Policy.Decisions.{Gate, decide_iff}
use iceclimber.Tests.Samples.{plain_lib, plain_rest, line_json, file_of}

star_in_middle :
    glob_match (codes "https://pypi.org/*/six/*") (codes "https://pypi.org/simple/six/x") ≡ true
unfolding glob_match
star_in_middle = refl

glob_overlap : glob_match (codes "ab*ba") (codes "aba") ≡ false
unfolding glob_match
glob_overlap = refl

canonical_evasion :
    canonical plain_lib (codes "https://PyPI.org:443/simple/./a/..//six/")
    ≡ codes "https://pypi.org/simple/six/"
unfolding canonical split index ascii_lower
canonical_evasion = refl

host_rule : host_glob plain_lib (codes "http://PyPI.org:80/simple") ≡ codes "http://pypi.org/*"
unfolding host_glob index ascii_lower
host_rule = refl

abbrev policy : Policy
policy = record { allowed = []; rewrites = []; unlisted = codes "gate" }

abbrev rules : RuleSet
rules = record {
  allow = codes "https://pypi.org/*" ∷ [];
  deny = codes "https://pypi.org/simple/six/*" ∷ [];
}

denied_spelling :
    decide plain_lib line_json policy (file_of rules) (codes "https://pypi.org/simple//six/") ≡ deny
unfolding decide load split index ascii_lower
denied_spelling = refl

allowed_other :
    decide plain_lib line_json policy (file_of rules) (codes "https://PYPI.org/simple/flask/")
    ≡ allow
unfolding decide load split index ascii_lower
allowed_other = refl

held_other : decide plain_lib line_json policy (file_of rules) (codes "https://example.org/") ≡ hold
unfolding decide load split index ascii_lower
held_other = refl

glob_match_iff_example :
    (glob_match (codes "*.pypi.org") (codes "files.pypi.org") ≡ true)
    ↔ Matches (codes "*.pypi.org") (codes "files.pypi.org")
glob_match_iff_example = glob_match_iff (codes "*.pypi.org") (codes "files.pypi.org")

decide_iff_example :
    (decide plain_lib line_json policy (file_of rules) (codes "https://example.org/") ≡ hold)
    ↔ Gate plain_lib line_json policy (file_of rules) (codes "https://example.org/") hold
decide_iff_example =
    decide_iff plain_lib line_json policy (file_of rules) (codes "https://example.org/") hold

six-IsName : IsName (codes "six")
six-IsName = record { not_empty = λ e. cc; not_dot = λ e. cc; not_dot_dot = λ e. cc }

abbrev last_of : Text → ℕ
last_of [] = 0
last_of (c ∷ []) = c
last_of (c ∷ d ∷ t) = last_of (d ∷ t)

dot_last : (t : Text) → last_of (t ++ codes ".") ≡ b'.'
dot_last [] = refl
dot_last (c ∷ []) = refl
dot_last (c ∷ d ∷ t) = dot_last (d ∷ t)

pypi_bare : (t : Text) → codes "pypi.org" ≢ t ++ codes "."
pypi_bare t e =
    let q : last_of (codes "pypi.org") ≡ b'.' = ap last_of e ∙ dot_last t in absurd (omega arith)

-- the same file of the same host, spelled twice
same_file :
    SameTarget plain_lib
      (plain_rest (codes "https") (codes "PyPI.org.:443/simple/./six//x"))
      (plain_rest (codes "https") (codes "pypi.org/simple/six/x"))
unfolding has_suffix split index ascii_lower
same_file = record {
  u_host = λ e. cc;
  v_host = λ e. cc;
  schemes = inl refl;
  hosts = inr (inl (refl, λ t. pypi_bare t));
  noise =
      add_dot ([] ∷ codes "simple" ∷ []) (codes "six" ∷ [] ∷ codes "x" ∷ [])
        (add_empty ([] ∷ codes "simple" ∷ codes "six" ∷ []) (codes "x" ∷ []) same);
  last_slash = refl;
  query = refl;
}

decide-SameTarget_example :
    (decide plain_lib line_json policy
        (file_of rules)
        (codes "https://PyPI.org.:443/simple/./six//x")
      ≡ decide plain_lib line_json policy (file_of rules) (codes "https://pypi.org/simple/six/x"))
    × (store_denied plain_lib line_json
          (file_of rules)
          (codes "https://PyPI.org.:443/simple/./six//x")
        ≡ store_denied plain_lib line_json (file_of rules) (codes "https://pypi.org/simple/six/x"))
unfolding index
decide-SameTarget_example =
    decide-SameTarget plain_lib line_json policy (file_of rules)
      (codes "https://PyPI.org.:443/simple/./six//x") (codes "https://pypi.org/simple/six/x")
      (plain_rest (codes "https") (codes "PyPI.org.:443/simple/./six//x"))
      (plain_rest (codes "https") (codes "pypi.org/simple/six/x")) refl refl same_file
