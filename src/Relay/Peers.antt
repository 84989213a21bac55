-- ===== src/Relay/Peers.antt =====
-- Processes that fetch one asset at once: the calls of Fetch and downloadTo of
-- internal/relay/fetch.go, in any order, with processes that die at any point.
pub mod Verified
use iceclimber.Common.{ℕ, ◌≡◌, ◌≢◌, Bool, true, false, Option, none, some, List, [], ◌∷◌, ◌++◌}
use iceclimber.Common.Text.{Text}

-- Where a process is: before the fast path, before the lock, with the lock before the second look,
-- before the temporary file is made, behind so many bytes of the copy, or at the end.
pub data Phase : Type 0 where
  looking waiting holding downloading : Phase
  copying : Text → Phase
  fetched gone : Phase

-- A process that has the lock.
abbrev pub has_lock : Phase → Bool
has_lock holding = true
has_lock downloading = true
has_lock (copying _) = true
has_lock _ = false

-- The asset's file and its temporary one, the lock, and the processes.
pub record Shared : Type 0 where
  pub final : Option Text
  pub temp : Option Text
  pub locked : Bool
  pub phases : List Phase

-- One process moves from a phase to another, and the files and the lock with it.
pub data Move (hash : Text → Text) (pin : Text)
    : Option Text
      → Option Text
      → Bool
      → Phase
      → Option Text
      → Option Text
      → Bool
      → Phase
      → Type 0 where
  hit :
      {f t : Option Text} {k : Bool} (s : Text)
      → f ≡ some s
      → hash s ≡ pin
      → Move hash pin f t k looking f t k fetched
  miss : {f t : Option Text} {k : Bool} → Move hash pin f t k looking f t k waiting
  give_up : {f t : Option Text} {k : Bool} → Move hash pin f t k waiting f t k gone
  lock : {f t : Option Text} → Move hash pin f t false waiting f t true holding
  hit_locked :
      {f t : Option Text} {k : Bool} (s : Text)
      → f ≡ some s
      → hash s ≡ pin
      → Move hash pin f t k holding f t false fetched
  miss_locked : {f t : Option Text} {k : Bool} → Move hash pin f t k holding f t k downloading
  refused : {f t : Option Text} {k : Bool} → Move hash pin f t k downloading f t false gone
  create :
      {f t : Option Text} {k : Bool} → Move hash pin f t k downloading f (some []) k (copying [])
  write :
      {f t : Option Text} {k : Bool} (sent s chunk : Text)
      → t ≡ some s
      → Move hash pin f t k (copying sent) f (some (s ++ chunk)) k (copying (sent ++ chunk))
  cut_off :
      {f t : Option Text} {k : Bool} (sent : Text)
      → Move hash pin f t k (copying sent) f none false gone
  mismatch :
      {f t : Option Text} {k : Bool} (sent : Text)
      → hash sent ≢ pin
      → Move hash pin f t k (copying sent) f none false gone
  publish :
      {f t : Option Text} {k : Bool} (sent s : Text)
      → hash sent ≡ pin
      → t ≡ some s
      → Move hash pin f t k (copying sent) (some s) none false fetched
  not_renamed :
      {f t : Option Text} {k : Bool} (sent : Text)
      → hash sent ≡ pin
      → Move hash pin f t k (copying sent) f t false gone
  die_unlocked :
      {f t : Option Text} {k : Bool} {p : Phase}
      → has_lock p ≡ false
      → Move hash pin f t k p f t k gone
  die_locked :
      {f t : Option Text} {k : Bool} {p : Phase}
      → has_lock p ≡ true
      → Move hash pin f t k p f t false gone

pub data Step (hash : Text → Text) (pin : Text) : Shared → Shared → Type 0 where
  join : {c : Shared} → Step hash pin c (record c { phases = looking ∷ c.phases })
  move :
      {c : Shared} {f t : Option Text} {k : Bool} (before after : List Phase) (p q : Phase)
      → c.phases ≡ before ++ p ∷ after
      → Move hash pin c.final c.temp c.locked p f t k q
      → Step hash pin c (record { final = f; temp = t; locked = k; phases = before ++ q ∷ after })

-- What the processes can come to from a cache directory with any two files in it.
pub data Reach (hash : Text → Text) (pin : Text) (f t : Option Text) : Shared → Type 0 where
  initial : Reach hash pin f t (record { final = f; temp = t; locked = false; phases = [] })
  next : {c d : Shared} → Reach hash pin f t c → Step hash pin c d → Reach hash pin f t d
