-- ===== src/Tests/Rules.antt =====
-- internal/egress/store.go: rules and the pending queue.
use iceclimber.Egress.Glob.{glob_match}
use iceclimber.Egress.Glob.Correct.{glob_match_iff}
use iceclimber.Egress.Validate.{PatternError, not_a_url_glob}
use iceclimber.Egress.Store.Atomic.{mutate-err}
use iceclimber.Egress.Store.Held.{
  add_pending-Accepted, Accepted, remove_pending-others, others, last_of, DistinctUrls,
}
use iceclimber.Egress.Store.Pending.{
  PendingEntry, Queue, load_pending, add_pending, remove_pending, stamp,
}
use iceclimber.Common.{◌≡◌, refl, sym, subst, ◌∙◌, ◌⊎◌, true, some, none, [], ◌∷◌}
use iceclimber.Common.Text.{Text, codes, split, index, ascii_lower, text_eq}
use iceclimber.Common.Result.{ok, ok-injective}
use iceclimber.Egress.Glob.Language.{Matches}
use iceclimber.Egress.Url.{canonical}
use iceclimber.Egress.Store.Files.{
  rename, remove, StoreError, refused, write_failed, File, calm, load,
}
use iceclimber.Egress.Store.Rules.{
  RuleSet, load_rules, add_deny, add_allow, remove_allow, append_unique, has_str, allow_rule,
}
use iceclimber.Egress.Store.Effects.{add_deny-decide, remove_allow-add_allow}
use iceclimber.Egress.Policy.{Policy, deny, decide}
use iceclimber.Tests.Samples.{plain_lib, line_json, file_of, queue_json, queue_file}

abbrev policy : Policy
policy = record { allowed = []; rewrites = []; unlisted = codes "gate" }

abbrev rule : Text
rule = codes "https://PyPI.org/simple/six/*"

abbrev start : RuleSet
start = record { allow = codes "https://pypi.org/*" ∷ []; deny = [] }

abbrev denied_file : File
denied_file = (add_deny line_json plain_lib calm rule (file_of start)).1

add_deny_runs : add_deny line_json plain_lib calm rule (file_of start) ≡ (none, denied_file)
unfolding add_deny split index ascii_lower
add_deny_runs = refl

start_reads : load_rules line_json (file_of start) ≡ ok start
unfolding load split
start_reads = refl

abbrev with_deny : RuleSet → RuleSet
with_deny r = record r { deny = append_unique r.deny (canonical plain_lib rule) }

deny_encodes :
    (r : RuleSet) → load_rules line_json (file_of start) ≡ ok r → line_json.Faithful (with_deny r)
deny_encodes r l =
    subst (λ x. line_json.Faithful (with_deny x)) (ok-injective (sym start_reads ∙ l))
      (unfold append_unique canonical split index ascii_lower in refl)

covered_file :
    Matches
      (canonical plain_lib (canonical plain_lib rule))
      (canonical plain_lib (codes "https://pypi.org/simple//six/six.whl"))
unfolding canonical split index ascii_lower glob_match
covered_file =
    (glob_match_iff (canonical plain_lib (canonical plain_lib rule))
        (canonical plain_lib (codes "https://pypi.org/simple//six/six.whl"))).0
      refl

add_deny-decide_example :
    decide plain_lib line_json policy denied_file (codes "https://pypi.org/simple//six/six.whl")
    ≡ deny
add_deny-decide_example =
    add_deny-decide plain_lib line_json calm rule (codes "https://pypi.org/simple//six/six.whl")
      (file_of start) denied_file policy add_deny_runs deny_encodes covered_file

canonical-rule : canonical plain_lib (canonical plain_lib rule) ≡ canonical plain_lib rule
unfolding canonical split index ascii_lower
canonical-rule = refl

abbrev allowed_file : File
allowed_file = (add_allow line_json plain_lib calm rule (file_of start)).1

abbrev back_file : File
back_file = (remove_allow line_json plain_lib calm rule allowed_file).1

add_allow_runs : add_allow line_json plain_lib calm rule (file_of start) ≡ (none, allowed_file)
unfolding add_allow split index ascii_lower
add_allow_runs = refl

remove_allow_runs : remove_allow line_json plain_lib calm rule allowed_file ≡ (none, back_file)
unfolding add_allow remove_allow split index ascii_lower
remove_allow_runs = refl

remove_allow-add_allow_example : load_rules line_json back_file ≡ ok start
unfolding has_str append_unique canonical split index ascii_lower
remove_allow-add_allow_example =
    remove_allow-add_allow plain_lib line_json calm calm rule (file_of start) allowed_file back_file
      start start_reads refl add_allow_runs remove_allow_runs refl refl

-- a rule that is no URL glob
abbrev refused_file : File
refused_file = (add_allow line_json plain_lib calm (codes "pypi.org") (file_of start)).1

refused_runs :
    add_allow line_json plain_lib calm (codes "pypi.org") (file_of start)
    ≡ (some (refused (not_a_url_glob (codes "pypi.org"))), file_of start)
unfolding add_allow split index ascii_lower
refused_runs = refl

mutate-err_example :
    ((file_of start).content ≡ (file_of start).content)
    × (((file_of start).temps ≡ (file_of start).temps)
        ⊎ (◌≡◌ {A = StoreError PatternError}
            (refused (not_a_url_glob (codes "pypi.org")))
            (write_failed rename))
        ⊎ (calm.fails remove ≡ true))
mutate-err_example =
    mutate-err line_json calm (allow_rule line_json plain_lib (codes "pypi.org")) (file_of start)
      (file_of start) (refused (not_a_url_glob (codes "pypi.org")))
      (unfold add_allow in refused_runs)

abbrev held_entry : PendingEntry
held_entry = record {
  id = codes "1";
  url = codes "https://a.org/";
  host = codes "a.org";
  ts = codes "t0";
}

abbrev new_entry : PendingEntry
new_entry = record { id = codes "2"; url = codes "https://b.org/"; host = codes "b.org"; ts = [] }

abbrev queue : Queue
queue = held_entry ∷ []

queue_reads : load_pending queue_json (queue_file queue) ≡ ok queue
unfolding load split
queue_reads = refl

abbrev longer_file : File
longer_file = (add_pending queue_json calm (codes "t1") new_entry (queue_file queue)).1

add_pending_runs :
    add_pending queue_json calm (codes "t1") new_entry (queue_file queue) ≡ (none, longer_file)
unfolding add_pending split
add_pending_runs = refl

add_pending-Accepted_example :
    (p' : Queue) × (load_pending queue_json longer_file ≡ ok p')
    × Accepted queue (stamp (codes "t1") new_entry) p'
unfolding stamp split
add_pending-Accepted_example =
    add_pending-Accepted queue_json calm (codes "t1") new_entry queue (queue_file queue) longer_file
      queue_reads (tt, tt) refl add_pending_runs

abbrev shorter_file : File
shorter_file = (remove_pending queue_json calm (codes "1") (queue_file queue)).2

remove_pending_runs :
    remove_pending queue_json calm (codes "1") (queue_file queue)
    ≡ (some held_entry, none, shorter_file)
unfolding remove_pending split
remove_pending_runs = refl

remove_pending-others_example :
    (held_entry.id ≡ codes "1")
    × (last_of (codes "1") queue none ≡ some held_entry)
    × (load_pending queue_json shorter_file ≡ ok (others (codes "1") queue))
    × DistinctUrls (others (codes "1") queue)
unfolding others split text_eq
remove_pending-others_example =
    remove_pending-others queue_json calm (codes "1") queue held_entry (queue_file queue)
      shorter_file queue_reads (tt, tt) refl remove_pending_runs
