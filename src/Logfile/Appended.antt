-- ===== src/Logfile/Appended.antt =====
-- Append of internal/logfile/logfile.go, on every path: what becomes of the log.
use iceclimber.Common.{
  ℕ, ◌≤◌, ◌≡◌, ◌≢◌, refl, sym, ap, subst, Bool, true, false, Option, none, some, List, [], ◌∷◌,
  ◌++◌, All, take, if◌then◌else◌,
}
use iceclimber.Common.Text.{Text}
use iceclimber.Logfile.{
  Generations, Handle, closed, here, elsewhere, Writer, Calls, LogState, LogError, not_opened,
  no_stat, no_lock, not_truncated, not_renamed, not_written, Done, bytes_of, set_file, ensure_open,
  rotate_if_needed, write, append_rotated, append_opened, append, Call, run,
}
use iceclimber.Logfile.Prepared.{Falling, Prepared, rotate_if_needed-Prepared}
use iceclimber.Logfile.Kept.{Kept, Kept-refl, Kept-trans, Kept-grown, Kept-created}

-- What an Append that returns this has written.
abbrev pub written : Option LogError → Calls → Text → Text
written none c b = b
written (some not_written) c b = elim c.stops [ none ↦ b | some n ↦ take n b ]
written (some _) c b = []

module _ (w : Writer) (many : 1 ≤ w.keep) where
  -- A result of an Append.
  abbrev Appended : Calls → Text → LogState → Done → Type 0
  Appended c b st o = Kept w.keep st.files o.1.files (written o.0 c b)

  write-Appended :
      (c : Calls) (b : Text) (st : LogState) → st.handle ≡ here → Appended c b st (write w c b st)
  unfolding write
  write-Appended c b st e = subst (Appended c b st) (sym (opened e)) (go c.stops refl)
    where
      branch : Option ℕ → Done
      branch o = elim o [
        | none ↦
            (none, record st { files = set_file 0 (some (bytes_of (st.files 0) ++ b)) st.files })
        | some n ↦ (
          some not_written,
          record st { files = set_file 0 (some (bytes_of (st.files 0) ++ take n b)) st.files },
        )
      ]

      by_handle : Handle → Done
      by_handle h = elim h [ here ↦ branch c.stops | _ ↦ (none, st) ]

      opened : st.handle ≡ here → write w c b st ≡ branch c.stops
      opened q = ap by_handle q

      go : (o : Option ℕ) → c.stops ≡ o → Appended c b st (branch o)
      go none q = Kept-grown w.keep st.files b many
      go (some n) q =
          subst (Kept w.keep st.files (branch (some n)).1.files)
            (ap (λ (x : Option ℕ). elim x [ none ↦ b | some n ↦ take n b ]) (sym q))
            (Kept-grown w.keep st.files (take n b) many)

  not_yet : (c : Calls) (b : Text) (e : LogError) → e ≢ not_written → [] ≡ written (some e) c b
  not_yet c b not_opened h = refl
  not_yet c b no_stat h = refl
  not_yet c b no_lock h = refl
  not_yet c b not_truncated h = refl
  not_yet c b not_renamed h = refl
  not_yet c b not_written h = absurd (h refl)

  append_rotated-Appended :
      (c : Calls) (b : Text) (st : LogState) (o : Done)
      → Prepared w many st o
      → Appended c b st (append_rotated w c b o)
  unfolding append_rotated
  append_rotated-Appended c b st (none, st') p =
      Kept-trans p.kept (write-Appended c b st' (p.at_path refl))
  append_rotated-Appended c b st (some e, st') p =
      subst (Kept w.keep st.files st'.files) (not_yet c b e (λ q. p.no_write (ap some q))) p.kept

  append_opened-Appended :
      (c : Calls) (b : Text) (st : LogState) (o : Done)
      → Falling c
      → Kept w.keep st.files o.1.files []
      → o.0 ≢ some not_written
      → Appended c b st (append_opened w c b o)
  unfolding append_opened
  append_opened-Appended c b st (none, st') falling kept other = Kept-trans kept (
      append_rotated-Appended c b st' (rotate_if_needed w c st')
        (rotate_if_needed-Prepared w many c st' falling))
  append_opened-Appended c b st (some e, st') falling kept other =
      subst (Kept w.keep st.files st'.files) (not_yet c b e (λ q. other (ap some q))) kept

  none-no_write : ◌≢◌ {A = Option LogError} none (some not_written)
  none-no_write e = cc

  not_opened-no_write : ◌≢◌ {A = Option LogError} (some not_opened) (some not_written)
  not_opened-no_write e = cc

  append-Appended :
      (c : Calls) (b : Text) (st : LogState) → Falling c → Appended c b st (append w c b st)
  unfolding append ensure_open
  append-Appended c b st falling = go st.handle
    where
      branch : Handle → Done
      branch h = elim h [
        | closed ↦
            if c.opens
            then (
              none,
              record { files = set_file 0 (some (bytes_of (st.files 0))) st.files; handle = here },
            )
            else (some not_opened, st)
        | _ ↦ (none, st)
      ]

      go : (h : Handle) → Appended c b st (append_opened w c b (branch h))
      go here =
          append_opened-Appended c b st (none, st) falling (Kept-refl w.keep st.files) none-no_write
      go elsewhere =
          append_opened-Appended c b st (none, st) falling (Kept-refl w.keep st.files) none-no_write
      go closed = opening c.opens
        where
          opening :
              (d : Bool)
              → Appended c b st (
                  append_opened w c b (
                    if d
                    then (
                      none,
                      record {
                        files = set_file 0 (some (bytes_of (st.files 0))) st.files;
                        handle = here;
                      },
                    )
                    else (some not_opened, st)))
          opening true =
              append_opened-Appended c b st
                (
                  none,
                  record {
                    files = set_file 0 (some (bytes_of (st.files 0))) st.files;
                    handle = here;
                  },
                )
                falling (Kept-created w.keep st.files many) none-no_write
          opening false =
              append_opened-Appended c b st (some not_opened, st) falling
                (Kept-refl w.keep st.files) not_opened-no_write

-- The bytes that a sequence of calls has written, by what each of them returns.
abbrev pub all_written : List Call → List (Option LogError) → Text
all_written (c ∷ cs) (e ∷ es) = written e c.calls c.bytes ++ all_written cs es
all_written _ _ = []

-- Each Append taken as one step, whatever processes append to a log, in whatever order, with
-- whatever handles, and whichever system calls fail, if no rename of a rotation succeeds once another
-- one of that rotation has failed: the kept generations, read from the oldest one to the path itself,
-- are what they were followed by every record that an Append without an error has written (and the
-- part of a record that a failed write has), in order, less a part at the start. Files beyond the
-- kept generations do not change. (At least one generation is kept.)
pub run-Kept :
    (w : Writer) (cs : List Call) (g : Generations)
    → 1 ≤ w.keep
    → All (λ c. Falling c.calls) cs
    → Kept w.keep g (run w cs g).1 (all_written cs (run w cs g).0)
unfolding run
run-Kept w [] g many falling = Kept-refl w.keep g
run-Kept w (c ∷ cs) g many falling =
    let o = append w c.calls c.bytes (record { files = g; handle = c.handle }) in
    Kept-trans
      (append-Appended w many c.calls c.bytes (record { files = g; handle = c.handle }) falling.0)
      (run-Kept w cs o.1.files many falling.1)
