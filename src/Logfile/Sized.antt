-- ===== src/Logfile/Sized.antt =====
-- Append of internal/logfile/logfile.go, on every path: how large the log gets.
use native.Mathlib.Nat.{suc-mul}
use iceclimber.Common.{
  ℕ, zero, suc, ◌+◌, ◌*◌, ◌≤◌, ◌≡◌, ◌≢◌, refl, Bool, true, false, Option, none, some, List, [], ◌∷◌,
  ◌++◌, All, length, take, length-append, arith, if◌then◌else◌,
}
use iceclimber.Common.Text.{Text}
use iceclimber.Logfile.{
  Generations, Handle, closed, here, elsewhere, Writer, Calls, LogState, not_opened, not_written,
  Done, bytes_of, set_file, ensure_open, rotate_if_needed, write, append_rotated, append_opened,
  append, Call, run,
}
use iceclimber.Logfile.Kept.{history}
use iceclimber.Logfile.Bounded.{
  Small, Ready, set_file-Small, length-take_le, rotate_if_needed-Ready,
}

module _ (w : Writer) (m : ℕ) where
  abbrev most : ℕ
  most = w.max_bytes + m

  write-Small :
      (c : Calls) (b : Text) (st : LogState)
      → length b ≤ m
      → length (bytes_of (st.files 0)) ≤ w.max_bytes
      → Small most st.files
      → Small most (write w c b st).1.files
  unfolding write
  write-Small c b st short room h = go st.handle c.stops
    where
      grown : (t : Text) → length t ≤ m → length (bytes_of (st.files 0) ++ t) ≤ most
      grown t l = let e = length-append (bytes_of (st.files 0)) t in omega arith

      put_behind : Text → LogState
      put_behind t = record st { files = set_file 0 (some (bytes_of (st.files 0) ++ t)) st.files }

      small : (t : Text) → length t ≤ m → Small most (put_behind t).files
      small t l = set_file-Small most 0 (some (bytes_of (st.files 0) ++ t)) st.files (grown t l) h

      branch : Option ℕ → Done
      branch o = elim o [
        | none ↦ (none, put_behind b)
        | some n ↦ (some not_written, put_behind (take n b))
      ]

      write_by : Handle → Option ℕ → Done
      write_by x o = elim x [ here ↦ branch o | _ ↦ (none, st) ]

      go : (x : Handle) (o : Option ℕ) → Small most (write_by x o).1.files
      go closed o = h
      go elsewhere o = h
      go here none = small b short
      go here (some n) = small (take n b) (let l = length-take_le n b in omega arith)

  append_rotated-Small :
      (c : Calls) (b : Text) (o : Done)
      → length b ≤ m
      → Ready w most o
      → Small most (append_rotated w c b o).1.files
  unfolding append_rotated
  append_rotated-Small c b (none, st) short r = write-Small c b st short (r.room refl) r.small
  append_rotated-Small c b (some e, st) short r = r.small

  append-Small :
      (c : Calls) (b : Text) (st : LogState)
      → st.handle ≢ elsewhere
      → length b ≤ m
      → Small most st.files
      → Small most (append w c b st).1.files
  unfolding append append_opened ensure_open
  append-Small c b st known short h = go st.handle refl
    where
      created : LogState
      created = record { files = set_file 0 (some (bytes_of (st.files 0))) st.files; handle = here }

      branch : Handle → Done
      branch x = elim x [
        | closed ↦ if c.opens then (none, created) else (some not_opened, st)
        | _ ↦ (none, st)
      ]

      prepared :
          (s : LogState)
          → s.handle ≡ here
          → Small most s.files
          → Small most (append_opened w c b (none, s)).1.files
      prepared s e l =
          append_rotated-Small c b (rotate_if_needed w c s) short
            (rotate_if_needed-Ready w most c s e l)

      go : (x : Handle) → st.handle ≡ x → Small most (append_opened w c b (branch x)).1.files
      go elsewhere e = absurd (known e)
      go here e = prepared st e h
      go closed e = opening c.opens
        where
          opening :
              (d : Bool)
              → Small most
                  (append_opened w c b
                    (if d then (none, created) else (some not_opened, st))).1.files
          opening true =
              prepared created refl
                (set_file-Small most 0 (some (bytes_of (st.files 0))) st.files (h 0) h)
          opening false = h

  -- A call by a process whose file was not rotated away, with a record of at most `m` bytes.
  abbrev pub Modest : Call → Type 0
  Modest c = (c.handle ≢ elsewhere) × (length c.bytes ≤ m)

  run-Small :
      (cs : List Call) (g : Generations) → All Modest cs → Small most g → Small most (run w cs g).1
  unfolding run
  run-Small [] g a h = h
  run-Small (c ∷ cs) g a h =
      run-Small cs (append w c.calls c.bytes (record { files = g; handle = c.handle })).1.files a.1
        (append-Small c.calls c.bytes (record { files = g; handle = c.handle }) a.0.0 a.0.1 h)

history-Small : (n k : ℕ) (g : Generations) → Small n g → length (history k g) ≤ k * n
history-Small n zero g h = omega arith
history-Small n (suc k) g h =
    let rest = history-Small n k g h in
    let first = h k in
    let e = length-append (bytes_of (g k)) (history k g) in omega (arith, suc-mul k n)

-- While no process writes through a handle that was rotated away and no record is longer than `m`,
-- each generation has at most `max_bytes + m` bytes and the whole log at most `keep` times as many,
-- whichever system calls fail. (At the start no file has more than `max_bytes + m` bytes.)
pub run-Sized :
    (w : Writer) (m : ℕ) (cs : List Call) (g : Generations)
    → All (Modest w m) cs
    → Small (w.max_bytes + m) g
    → Small (w.max_bytes + m) (run w cs g).1
      × (length (history w.keep (run w cs g).1) ≤ w.keep * (w.max_bytes + m))
run-Sized w m cs g a h =
    let small = run-Small w m cs g a h in
    (small, history-Small (w.max_bytes + m) w.keep (run w cs g).1 small)
