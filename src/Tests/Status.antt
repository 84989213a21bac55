-- ===== src/Tests/Status.antt =====
-- The heartbeat and capabilities.json of internal/protocol at concrete inputs.
use iceclimber.Common.{
  ℕ, zero, suc, ◌-◌, ◌≡◌, refl, ap, Bool, true, false, ◌&&◌, ◌==◌, if◌then◌else◌, Option, none,
  some, [], ◌∷◌, All, length, arith,
}
use iceclimber.Common.Text.{Text, codes, is_space, text_eq}
use iceclimber.Protocol.Mail.{passes}
use iceclimber.Protocol.Status.{
  Shelf, Beating, write_heartbeat, seed_seq, Capabilities, no_capabilities, CapAgent,
}
use iceclimber.Protocol.Status.Pulse.{Prints, tick, reconnect, Beats, still, more}
use iceclimber.Remote.Exec.{Numbers}

-- A number printed as one stroke more than it counts.
abbrev pub tally : ℕ → Text
tally zero = b'1' ∷ []
tally (suc k) = b'1' ∷ tally k

abbrev pub tallies : Numbers
tallies = record { itoa = tally; parse_int = λ s. some (length s - 1); octal = tally }

length-tally : (k : ℕ) → length (tally k) ≡ suc k
length-tally zero = refl
length-tally (suc k) = let e = length-tally k in omega arith

stroke_not_space : is_space b'1' ≡ false
stroke_not_space = unfold is_space in refl

tally_without_space : (k : ℕ) → All (λ c. is_space c ≡ false) (tally k)
tally_without_space zero = (stroke_not_space, tt)
tally_without_space (suc k) = (stroke_not_space, tally_without_space k)

tally-Prints : (k : ℕ) → Prints tallies k
tally-Prints k = record {
  some_digit = λ e. let n = ap length e in let l = length-tally k in absurd (omega arith);
  no_space = tally_without_space k;
  read_back = let l = length-tally k in let e : length (tally k) - 1 ≡ k = omega arith in ap some e;
}

-- A beat passes, then the link is made anew.
abbrev started : Beating
started = record { seq = 0; shelf = record { files = []; fates = [] } }

abbrev beaten : Beating
beaten = (write_heartbeat tallies (codes "10:00") started).1

abbrev again : Beating
again = seed_seq tallies (record { seq = 0; shelf = beaten.shelf })

abbrev some_beats : Beats tallies tally-Prints started again
some_beats = more (more still (tick (codes "10:00"))) (reconnect beaten.shelf refl)

-- JSON for capabilities that say nothing but when they were written.
abbrev bare : Text → Capabilities
bare now = record no_capabilities { schema_version = 1; written_at = now }

abbrev has_no_agent : Option CapAgent → Bool
has_no_agent none = true
has_no_agent (some a) = false

abbrev is_bare : Capabilities → Bool
is_bare c =
    c.schema_version == 1
    && (text_eq c.host.os []
        && (text_eq c.host.arch [] && (text_eq c.host.libc [] && has_no_agent c.agent)))

abbrev encode : Capabilities → Option Text
encode c = if is_bare c then some c.written_at else none

abbrev decode : Text → Option Capabilities
decode s = some (bare s)

abbrev capable : Shelf
capable = record { files = []; fates = passes ∷ passes ∷ [] }
