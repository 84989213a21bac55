-- ===== src/Logfile/Bounded.antt =====
-- How large the files of internal/logfile get.
use mathlib.Core.Bool.{false≢true}
use iceclimber.Common.{
  ℕ, zero, suc, ◌-◌, ◌≤◌, ◌≡◌, refl, sym, subst, Bool, true, false, ◌&&◌, Option, none, some, [],
  ◌∷◌, length, take, ltb, leb, ◌==◌, arith, if◌then◌else◌,
}
use iceclimber.Common.Text.{Text}
use iceclimber.Logfile.{
  Generations, Handle, closed, here, Writer, Calls, LogState, LogError, not_opened, no_stat,
  no_lock, not_truncated, not_renamed, Done, bytes_of, set_file, rename_file, try_rename,
  shift_down, ensure_open, reopen, is_small, oldest_removed, truncate, rotate_files, rotate_locked,
  rotate_if_needed,
}
use iceclimber.Logfile.Shifted.{set_file-here, rename_file-from}

-- Each file has at most this many bytes.
abbrev pub Small : ℕ → Generations → Type 0
Small n g = (i : ℕ) → length (bytes_of (g i)) ≤ n

pub set_file-Small :
    (n i : ℕ) (o : Option Text) (g : Generations)
    → length (bytes_of o) ≤ n
    → Small n g
    → Small n (set_file i o g)
unfolding set_file
set_file-Small n i o g room h k = go (k == i)
  where
    go : (b : Bool) → length (bytes_of (if b then o else g k)) ≤ n
    go true = room
    go false = h k

rename_file-Small : (n i j : ℕ) (g : Generations) → Small n g → Small n (rename_file i j g)
unfolding rename_file
rename_file-Small n i j g h = go (g i) (h i)
  where
    go :
        (o : Option Text)
        → length (bytes_of o) ≤ n
        → Small n (elim o [ none ↦ g | some s ↦ set_file j (some s) (set_file i none g) ])
    go none room = h
    go (some s) room =
        set_file-Small n j (some s) (set_file i none g) room
          (set_file-Small n i none g (omega arith) h)

try_rename-Small : (c : Calls) (n i : ℕ) (g : Generations) → Small n g → Small n (try_rename c i g)
unfolding try_rename
try_rename-Small c n i g h = go (c.renames i)
  where
    go : (b : Bool) → Small n (if b then rename_file i (suc i) g else g)
    go true = rename_file-Small n i (suc i) g h
    go false = h

shift_down-Small : (c : Calls) (n k : ℕ) (g : Generations) → Small n g → Small n (shift_down c k g)
unfolding shift_down
shift_down-Small c n zero g h = h
shift_down-Small c n (suc k) g h =
    shift_down-Small c n k (try_rename c (suc k) g) (try_rename-Small c n (suc k) g h)

pub length-take_le : (n : ℕ) (b : Text) → length (take n b) ≤ length b
length-take_le zero b = omega arith
length-take_le (suc n) [] = omega arith
length-take_le (suc n) (x ∷ b) = let h = length-take_le n b in omega arith

module _ (w : Writer) (n : ℕ) where
  -- A call that only prepares a write keeps the files small, and if it succeeds, the file at the
  -- path is not above the cap.
  pub record Ready (o : Done) : Type 0 where
    pub small : Small n o.1.files
    pub room : o.0 ≡ none → length (bytes_of (o.1.files 0)) ≤ w.max_bytes

  stays : (st : LogState) (e : LogError) → Small n st.files → Ready (some e, st)
  stays st e h = record { small = h; room = λ q. absurd (cc) }

  pub reopen-Ready :
      (c : Calls) (st : LogState)
      → Small n st.files
      → length (bytes_of (st.files 0)) ≤ w.max_bytes
      → Ready (reopen c st)
  unfolding reopen ensure_open
  reopen-Ready c st h room = go c.opens
    where
      created : Generations
      created = set_file 0 (some (bytes_of (st.files 0))) st.files

      go :
          (b : Bool)
          → Ready (
              if b
              then (none, record { files = created; handle = here })
              else (some not_opened, record st { handle = closed }))
      go true = record {
        small = set_file-Small n 0 (some (bytes_of (st.files 0))) st.files (h 0) h;
        room = λ _.
            subst (λ x. length (bytes_of x) ≤ w.max_bytes)
              (sym (set_file-here 0 (some (bytes_of (st.files 0))) st.files)) room;
      }
      go false = stays (record st { handle = closed }) not_opened h

  truncate-Small :
      (g : Generations)
      → Small n g
      → Small n (truncate w g) × (length (bytes_of (truncate w g 0)) ≤ w.max_bytes)
  unfolding truncate
  truncate-Small g h = go (g 0) refl
    where
      done : Option Text → Generations
      done o = elim o [ none ↦ g | some _ ↦ set_file 0 (some []) g ]

      go :
          (o : Option Text)
          → g 0 ≡ o
          → Small n (done o) × (length (bytes_of (done o 0)) ≤ w.max_bytes)
      go none e = (h, subst (λ x. length (bytes_of x) ≤ w.max_bytes) (sym e) (omega arith))
      go (some s) e = (
        set_file-Small n 0 (some []) g (omega arith) h,
        subst (λ x. length (bytes_of x) ≤ w.max_bytes) (sym (set_file-here 0 (some []) g))
            (omega arith),
      )

  oldest_removed-Small : (c : Calls) (g : Generations) → Small n g → Small n (oldest_removed w c g)
  unfolding oldest_removed
  oldest_removed-Small c g h = go c.removes
    where
      go : (b : Bool) → Small n (if b then set_file (w.keep - 1) none g else g)
      go true = set_file-Small n (w.keep - 1) none g (omega arith) h
      go false = h

  moved-Small :
      (g : Generations)
      → Small n g
      → Small n (rename_file 0 1 g) × (length (bytes_of (rename_file 0 1 g 0)) ≤ w.max_bytes)
  moved-Small g h =
      let low : length (bytes_of none) ≤ w.max_bytes = omega arith in
      (
        rename_file-Small n 0 1 g h,
        subst (λ x. length (bytes_of x) ≤ w.max_bytes)
            (sym (rename_file-from 0 1 g (λ e. absurd (omega arith)))) low,
      )

  rotate_files-Ready : (c : Calls) (st : LogState) → Small n st.files → Ready (rotate_files w c st)
  unfolding rotate_files
  rotate_files-Ready c st h = go (leb w.keep 1) c.truncates (c.renames 0)
    where
      g : Generations
      g = shift_down c (w.keep - 2) (oldest_removed w c st.files)

      small : Small n g
      small =
          shift_down-Small c n (w.keep - 2) (oldest_removed w c st.files)
            (oldest_removed-Small c st.files h)

      go :
          (b t r : Bool)
          → Ready (
              if b
              then (if t
                  then reopen c (record st { files = truncate w st.files })
                  else (some not_truncated, st))
              else (if r
                  then reopen c (record st { files = rename_file 0 1 g })
                  else (some not_renamed, record st { files = g })))
      go true true r =
          let (a, b) = truncate-Small st.files h in
          reopen-Ready c (record st { files = truncate w st.files }) a b
      go true false r = stays st not_truncated h
      go false t true =
          let (a, b) = moved-Small g small in
          reopen-Ready c (record st { files = rename_file 0 1 g }) a b
      go false t false = stays (record st { files = g }) not_renamed small

  is_small-room :
      (c : Calls) (g : Generations) → is_small w c g ≡ true → length (bytes_of (g 0)) ≤ w.max_bytes
  unfolding is_small
  is_small-room c g h = go (g 0) c.stats_again h
    where
      go :
          (o : Option Text) (b : Bool)
          → (b && elim o [ none ↦ false | some s ↦ ltb (length s) w.max_bytes ]) ≡ true
          → length (bytes_of o) ≤ w.max_bytes
      go none b e = omega arith
      go (some s) true e = ground arith
      go (some s) false e = absurd (false≢true e)

  rotate_locked-Ready :
      (c : Calls) (st : LogState) → Small n st.files → Ready (rotate_locked w c st)
  unfolding rotate_locked
  rotate_locked-Ready c st h = go c.locks (is_small w c st.files) (is_small-room c st.files)
    where
      go :
          (b d : Bool)
          → (d ≡ true → length (bytes_of (st.files 0)) ≤ w.max_bytes)
          → Ready
              (if b then (if d then reopen c st else rotate_files w c st) else (some no_lock, st))
      go true true room = reopen-Ready c st h (room refl)
      go true false room = rotate_files-Ready c st h
      go false d room = stays st no_lock h

  pub rotate_if_needed-Ready :
      (c : Calls) (st : LogState)
      → st.handle ≡ here
      → Small n st.files
      → Ready (rotate_if_needed w c st)
  unfolding rotate_if_needed
  rotate_if_needed-Ready c st at h =
      subst (λ x. Ready (by_handle x)) (sym at) (go c.stats (st.files 0) refl)
    where
      by_file : Option Text → Handle → Done
      by_file o x = elim o [
        | none ↦ reopen c st
        | some s ↦ elim x [
          | here ↦ if ltb (length s) w.max_bytes then (none, st) else rotate_locked w c st
          | _ ↦ reopen c st
        ]
      ]

      by_handle : Handle → Done
      by_handle x = if c.stats then by_file (st.files 0) x else (some no_stat, st)

      go :
          (b : Bool) (o : Option Text)
          → st.files 0 ≡ o
          → Ready (if b then by_file o here else (some no_stat, st))
      go false o e = stays st no_stat h
      go true none e =
          reopen-Ready c st h (subst (λ x. length (bytes_of x) ≤ w.max_bytes) (sym e) (omega arith))
      go true (some s) e = check (ltb (length s) w.max_bytes) refl
        where
          check :
              (d : Bool)
              → ltb (length s) w.max_bytes ≡ d
              → Ready (if d then (none, st) else rotate_locked w c st)
          check true q = record {
            small = h;
            room = λ _. subst (λ x. length (bytes_of x) ≤ w.max_bytes) (sym e) (ground arith);
          }
          check false q = rotate_locked-Ready c st h
