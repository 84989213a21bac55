-- ===== src/Tests/Samples.antt =====
-- Concrete stand-ins for the packages that the model takes as parameters: a parser of plain
-- scheme://host:port/path?query texts, and a line-based encoding of rules and of queues.
use iceclimber.Common.{
  ℕ, ◌+◌, ◌≡◌, Option, none, some, List, [], ◌∷◌, ◌++◌, take, drop, length, if◌then◌else◌, ◌==◌,
}
use iceclimber.Common.Text.{Text, codes, split, index, ascii_lower}
use iceclimber.Egress.Url.{Url, UrlLib}
use iceclimber.Egress.Store.Files.{Json, bytes, File}
use iceclimber.Egress.Store.Rules.{RuleSet, no_rules}
use iceclimber.Egress.Store.Pending.{Queue}

-- the text before the first occurrence of a separator, and the text behind it
abbrev pub cut : Text → Text → Text × Text
cut s sep = elim (index s sep) [ none ↦ (s, []) | some i ↦ (take i s, drop (i + length sep) s) ]

abbrev pub plain_rest : Text → Text → Url
plain_rest scheme rest =
    let (before, query) = cut rest (codes "?") in
    let host = (cut before (codes "/")).0 in
    record {
      scheme = scheme;
      host = host;
      hostname = (cut host (codes ":")).0;
      path = drop (length host) before;
      raw_query = query;
    }

abbrev pub plain_parse : Text → Option Url
plain_parse raw = elim (index raw (codes "://")) [
  | none ↦ none
  | some i ↦ some (plain_rest (take i raw) (drop (i + 3) raw))
]

abbrev pub plain_lib : UrlLib
plain_lib = record { parse = plain_parse; lower = ascii_lower }

abbrev pub lines : ℕ → List Text → Text
lines mark [] = []
lines mark (t ∷ ts) = mark ∷ (t ++ b'\n' ∷ lines mark ts)

abbrev pub read_line : Text → RuleSet → RuleSet
read_line [] r = r
read_line (c ∷ t) r =
    if c == b'+' then record r { allow = t ∷ r.allow } else record r { deny = t ∷ r.deny }

abbrev pub read_lines : List Text → RuleSet
read_lines [] = no_rules
read_lines (l ∷ ls) = read_line l (read_lines ls)

abbrev pub line_encode : RuleSet → Text
line_encode r = lines b'+' r.allow ++ lines b'-' r.deny

abbrev pub line_decode : Text → Option RuleSet
line_decode s = some (read_lines (split b'\n' s))

abbrev pub line_json : Json RuleSet
line_json = record {
  encode = line_encode;
  decode = line_decode;
  Faithful = λ r. line_decode (line_encode r ++ b'\n' ∷ []) ≡ some r;
  decode-encode = λ r h. h;
}

-- A file that holds these rules.
abbrev pub file_of : RuleSet → File
file_of r = record { content = bytes (line_encode r); temps = [] }

abbrev pub entry_lines : Queue → Text
entry_lines [] = []
entry_lines (e ∷ q) =
    e.id ++ b'\n' ∷ (e.url ++ b'\n' ∷ (e.host ++ b'\n' ∷ (e.ts ++ b'\n' ∷ entry_lines q)))

abbrev pub read_entries : List Text → Queue
read_entries (i ∷ u ∷ h ∷ t ∷ ls) = record { id = i; url = u; host = h; ts = t } ∷ read_entries ls
read_entries _ = []

abbrev pub queue_json : Json Queue
queue_json = record {
  encode = entry_lines;
  decode = λ s. some (read_entries (split b'\n' s));
  Faithful = λ q. some (read_entries (split b'\n' (entry_lines q ++ b'\n' ∷ []))) ≡ some q;
  decode-encode = λ q h. h;
}

abbrev pub queue_file : Queue → File
queue_file q = record { content = bytes (entry_lines q); temps = [] }
