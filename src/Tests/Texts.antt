-- ===== src/Tests/Texts.antt =====
-- internal/pkg and internal/tail at concrete inputs.
use iceclimber.Common.{
  ◌≡◌, ◌↔◌, ◌≤◌, true, false, none, some, List, [], ◌∷◌, length, if◌then◌else◌, refl,
}
use iceclimber.Common.Text.{Text, codes, text_eq}
use iceclimber.Packages.{Allowed, validate_extra_args}
use iceclimber.Packages.Accepted.{Flags, validate_extra_args_iff}
use iceclimber.Tail.{Reader, poll}
use iceclimber.Tail.Position.{Settled, poll-Settled}

abbrev allowed : Allowed
allowed t =
    if text_eq t (codes "--index-url")
    then some (record { takes_value = true })
    else if text_eq t (codes "--pre")
    then some (record { takes_value = false })
    else none

abbrev args : List Text
args = codes "--index-url" ∷ codes "https://x" ∷ codes "--pre" ∷ []

validate_extra_args_iff_example : (validate_extra_args allowed args ≡ none) ↔ Flags allowed args
validate_extra_args_iff_example = validate_extra_args_iff allowed args

accepted : validate_extra_args allowed args ≡ none
unfolding validate_extra_args text_eq
accepted = refl

abbrev text : Text
text = codes "one\ntwo\nthr"

abbrev reader : Reader
reader = record { offset = 2 }

poll-Settled_example :
    Settled text (poll (some text) reader).1.offset
    × (2 ≤ length text → 2 ≤ (poll (some text) reader).1.offset)
    × (poll (some text) (poll (some text) reader).1 ≡ ([], (poll (some text) reader).1))
poll-Settled_example = poll-Settled text reader
