-- ===== src/Protocol/Status/Pulse.antt =====
-- The sequence of heartbeats, WriteHeartbeat and seedSeq of internal/protocol/dispatch.go.
use iceclimber.Common.{ℕ, ◌≤◌, ◌≡◌, ◌≢◌, false, Option, none, some, [], All}
use iceclimber.Common.Result.{Result}
use iceclimber.Common.Text.{Text, is_space}
use iceclimber.Common.Boxes.{lookup}
use iceclimber.Protocol.Mail.{passes}
use iceclimber.Remote.Exec.{Numbers}
use iceclimber.Protocol.Status.{
  Shelf, fate_of, heartbeat, Beating, shown, seeded, seed_seq, write_heartbeat,
}

-- strconv: a printed number is not empty, has no space, and is read back.
pub record Prints (n : Numbers) (k : ℕ) : Type 0 where
  pub some_digit : n.itoa k ≢ []
  pub no_space : All (λ c. is_space c ≡ false) (n.itoa k)
  pub read_back : n.parse_int (n.itoa k) ≡ some k

module _ (n : Numbers) (prints : (k : ℕ) → Prints n k) where
  -- the number that the heartbeat file shows, 0 if it shows none
  abbrev pub or_zero : Option ℕ → ℕ
  or_zero none = 0
  or_zero (some k) = k

  abbrev pub shown_by : Option Text → ℕ
  shown_by none = 0
  shown_by (some bytes) = or_zero (shown n bytes)

  abbrev pub pulse : Shelf → ℕ
  pulse l = shown_by (lookup heartbeat l.files)

  -- A beat of the dispatcher; a new dispatcher that seeds its number (Serve), whatever becomes of
  -- the read; or a new one that does not (bootstrap).
  pub data Beat : Beating → Beating → Type 0 where
    tick : {d : Beating} (now : Text) → Beat d (write_heartbeat n now d).1
    reconnect :
        {d : Beating} (l : Shelf)
        → l.files ≡ d.shelf.files
        → Beat d (seed_seq n (record { seq = 0; shelf = l }))
    bootstrap :
        {d : Beating} (l : Shelf) → l.files ≡ d.shelf.files → Beat d (record { seq = 0; shelf = l })

  -- The dispatcher starts from the number in the file: its read of the file passes, or, without a
  -- read, the file shows none.
  abbrev pub Seeded : {d e : Beating} → Beat d e → Type 0
  Seeded (tick now) = Unit
  Seeded (reconnect l same) = fate_of l.fates ≡ passes
  Seeded (bootstrap l same) = pulse l ≡ 0

  -- The file shows no more than the dispatcher has counted.
  abbrev pub Counted : Beating → Type 0
  Counted d = pulse d.shelf ≤ d.seq

  -- What a beat may do: the file's number does not fall, and what it shows has been counted.
  pub record Onward (d e : Beating) : Type 0 where
    pub counted : Counted e
    pub no_fall : pulse d.shelf ≤ pulse e.shelf

  -- A new dispatcher's number, where the read passes.
  abbrev seed_of : Option Text → ℕ
  seed_of none = 0
  seed_of (some bytes) = seeded n 0 (shown n bytes)

  -- Beats, one behind the other.
  pub data Beats : Beating → Beating → Type 0 where
    still : {d : Beating} → Beats d d
    more : {d e f : Beating} → Beats d e → Beat e f → Beats d f

  abbrev pub AllSeeded : {d e : Beating} → Beats d e → Type 0
  AllSeeded still = Unit
  AllSeeded (more bs b) = AllSeeded bs × Seeded b
