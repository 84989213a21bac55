-- ===== src/Logfile/Prepared.antt =====
-- What comes before the write of an Append of internal/logfile/logfile.go keeps the log.
use iceclimber.Common.{
  ℕ, zero, suc, ◌-◌, ◌≤◌, ◌<◌, ◌≡◌, ◌≢◌, ◌∙◌, inl, inr, refl, sym, subst, Bool, Bool-cases, true,
  false, Option, none, some, [], length, ltb, leb, arith, if◌then◌else◌,
}
use mathlib.Core.Bool.{false≢true}
use iceclimber.Common.Text.{Text}
use iceclimber.Logfile.{
  Generations, Handle, closed, here, elsewhere, Writer, Calls, LogState, LogError, not_opened,
  no_stat, no_lock, not_truncated, not_renamed, not_written, Done, bytes_of, set_file, ensure_open,
  reopen, is_small, oldest_removed, rename_file, try_rename, shift_down, truncate, rotate_files,
  rotate_locked, rotate_if_needed,
}
use iceclimber.Logfile.Shifted.{rename_file-from}
use iceclimber.Logfile.Kept.{
  Kept, Kept-refl, Kept-trans, Kept-created, Kept-removed, Free, Kept-renamed,
}

-- Once a rename of a rotation has failed, the renames behind it, of lower numbers, fail too.
abbrev pub Falling : Calls → Type 0
Falling c = (i : ℕ) → c.renames (suc i) ≡ false → c.renames i ≡ false

module _ (c : Calls) (falling : Falling c) where
  shift_down-stays :
      (n : ℕ) (g : Generations)
      → c.renames n ≡ false
      → (shift_down c n g ≡ g) × (c.renames 0 ≡ false)
  unfolding shift_down try_rename
  shift_down-stays zero g h = (refl, h)
  shift_down-stays (suc n) g h =
      let (same, low) = shift_down-stays n g (falling n h) in (rw h same, low)

  -- The renames down to that of generation 1 keep the log and leave the target of the last one free,
  -- or the last one fails.
  shift_down-Kept :
      (k n : ℕ) (g : Generations)
      → Free k n g
      → Kept k g (shift_down c n g) [] × (c.renames 0 ≡ true → Free k 0 (shift_down c n g))
  unfolding shift_down try_rename
  shift_down-Kept k zero g free = (Kept-refl k g, λ _. free)
  shift_down-Kept k (suc n) g free = elim (Bool-cases (c.renames (suc n))) [
    | inl e ↦
        let g₁ = rename_file (suc n) (suc (suc n)) g in
        let freed : Free k n g₁ =
          inr (room free, rename_file-from (suc n) (suc (suc n)) g (λ q. absurd (omega arith))) in
        let (kept, low) = shift_down-Kept k n g₁ freed in
        rw e (Kept-trans (Kept-renamed k (suc n) g free) kept, low)
    | inr e ↦
        let (same, low) = shift_down-stays n g (falling n e) in
        rw e (
          subst (λ h. Kept k g h []) (sym same) (Kept-refl k g),
          λ q. absurd (false≢true (sym low ∙ q)),
        )
  ]
    where
      room : Free k (suc n) g → suc n < k
      room (inl q) = omega arith
      room (inr (l, f)) = omega arith

module _ (w : Writer) (many : 1 ≤ w.keep) where
  -- A call that only prepares a write: if it succeeds, the handle is the file at the path.
  pub record Prepared (st : LogState) (o : Done) : Type 0 where
    pub kept : Kept w.keep st.files o.1.files []
    pub at_path : o.0 ≡ none → o.1.handle ≡ here
    pub no_write : o.0 ≢ some not_written

  stays : (st : LogState) (e : LogError) → e ≢ not_written → Prepared st (some e, st)
  stays st e other = record {
    kept = Kept-refl w.keep st.files;
    at_path = λ q. absurd (cc);
    no_write = λ q. other (some-inner q);
  }
    where
      some-inner : {x y : LogError} → some x ≡ some y → x ≡ y
      some-inner q = cc

  Prepared-after :
      (st st' : LogState) (o : Done)
      → Kept w.keep st.files st'.files []
      → Prepared st' o
      → Prepared st o
  Prepared-after st st' o h p = record {
    kept = Kept-trans h p.kept;
    at_path = p.at_path;
    no_write = p.no_write;
  }

  reopen-Prepared : (c : Calls) (st : LogState) → Prepared st (reopen c st)
  unfolding reopen ensure_open
  reopen-Prepared c st = go c.opens
    where
      go :
          (b : Bool)
          → Prepared st (
              if b
              then (
                none,
                record {
                  files = set_file 0 (some (bytes_of (st.files 0))) st.files;
                  handle = here;
                },
              )
              else (some not_opened, record st { handle = closed }))
      go true = record {
        kept = Kept-created w.keep st.files many;
        at_path = λ _. refl;
        no_write = λ q. absurd (cc);
      }
      go false = record {
        kept = Kept-refl w.keep st.files;
        at_path = λ q. absurd (cc);
        no_write = λ q. absurd (cc);
      }

  truncate-Kept : (g : Generations) → w.keep ≤ 1 → Kept w.keep g (truncate w g) []
  unfolding truncate
  truncate-Kept g h = go (g 0)
    where
      single : w.keep ≡ 1
      single = omega arith

      go :
          (o : Option Text)
          → Kept w.keep g (elim o [ none ↦ g | some _ ↦ set_file 0 (some []) g ]) []
      go none = Kept-refl w.keep g
      go (some s) =
          subst (λ k. Kept k g (set_file 0 (some []) g) []) (sym single)
            (Kept-removed 0 g (some []) refl)

  oldest_removed-Kept :
      (c : Calls) (g : Generations) (n : ℕ)
      → w.keep ≡ suc n
      → Kept w.keep g (oldest_removed w c g) []
  unfolding oldest_removed
  oldest_removed-Kept c g n e = go c.removes
    where
      last : w.keep - 1 ≡ n
      last = omega arith

      go : (b : Bool) → Kept w.keep g (if b then set_file (w.keep - 1) none g else g) []
      go true =
          subst (λ k. Kept k g (set_file (w.keep - 1) none g) []) (sym e)
            (subst (λ i. Kept (suc n) g (set_file i none g) []) (sym last)
              (Kept-removed n g none refl))
      go false = Kept-refl w.keep g

  -- keep - 1 and keep - 2 of a keep above 1
  above_one : leb w.keep 1 ≡ false → (n : ℕ) × (w.keep ≡ suc (suc n))
  above_one h = (w.keep - 2, ground arith)

  below_two : leb w.keep 1 ≡ true → w.keep ≤ 1
  below_two h = ground arith

  rotate_files-Prepared :
      (c : Calls) (st : LogState) → Falling c → Prepared st (rotate_files w c st)
  unfolding rotate_files
  rotate_files-Prepared c st falling =
      go (leb w.keep 1) c.truncates (c.renames 0) refl below_two above_one
    where
      truncated : LogState
      truncated = record st { files = truncate w st.files }

      g : Generations
      g = shift_down c (w.keep - 2) (oldest_removed w c st.files)

      shifted : LogState
      shifted = record st { files = g }

      moved : LogState
      moved = record st { files = rename_file 0 1 g }

      step :
          (n : ℕ)
          → w.keep ≡ suc (suc n)
          → Kept w.keep st.files g [] × (c.renames 0 ≡ true → Free w.keep 0 g)
      step n e =
          let (kept, free) =
            shift_down-Kept c falling w.keep (w.keep - 2) (oldest_removed w c st.files)
              (inl (omega arith)) in
          (Kept-trans (oldest_removed-Kept c st.files (suc n) e) kept, free)

      go :
          (b t r : Bool)
          → c.renames 0 ≡ r
          → (b ≡ true → w.keep ≤ 1)
          → (b ≡ false → (n : ℕ) × (w.keep ≡ suc (suc n)))
          → Prepared st (
              if b
              then (if t
                  then reopen c (record st { files = truncate w st.files })
                  else (some not_truncated, st))
              else (if r
                  then reopen c (record st { files = rename_file 0 1 g })
                  else (some not_renamed, record st { files = g })))
      go true true r z low high =
          Prepared-after st truncated (reopen c truncated) (truncate-Kept st.files (low refl))
            (reopen-Prepared c truncated)
      go true false r z low high = stays st not_truncated (λ e. cc)
      go false t true z low high =
          let (n, e) = high refl in
          let (kept, free) = step n e in
          Prepared-after st moved (reopen c moved)
            (Kept-trans kept (Kept-renamed w.keep 0 g (free z))) (reopen-Prepared c moved)
      go false t false z low high =
          let (n, e) = high refl in
          Prepared-after st shifted (some not_renamed, shifted) (step n e).0
            (stays shifted not_renamed (λ q. cc))

  rotate_locked-Prepared :
      (c : Calls) (st : LogState) → Falling c → Prepared st (rotate_locked w c st)
  unfolding rotate_locked
  rotate_locked-Prepared c st falling = go c.locks (is_small w c st.files)
    where
      go :
          (b d : Bool)
          → Prepared st
              (if b then (if d then reopen c st else rotate_files w c st) else (some no_lock, st))
      go true true = reopen-Prepared c st
      go true false = rotate_files-Prepared c st falling
      go false d = stays st no_lock (λ e. cc)

  pub rotate_if_needed-Prepared :
      (c : Calls) (st : LogState) → Falling c → Prepared st (rotate_if_needed w c st)
  unfolding rotate_if_needed
  rotate_if_needed-Prepared c st falling = go c.stats (st.files 0) st.handle refl
    where
      go :
          (b : Bool) (o : Option Text) (h : Handle)
          → st.handle ≡ h
          → Prepared st (
              if b
              then elim o [
                | none ↦ reopen c st
                | some s ↦ elim h [
                  | here ↦ if ltb (length s) w.max_bytes then (none, st) else rotate_locked w c st
                  | _ ↦ reopen c st
                ]
              ]
              else (some no_stat, st))
      go false o h e = stays st no_stat (λ q. cc)
      go true none h e = reopen-Prepared c st
      go true (some s) closed e = reopen-Prepared c st
      go true (some s) elsewhere e = reopen-Prepared c st
      go true (some s) here e = small (ltb (length s) w.max_bytes)
        where
          small : (d : Bool) → Prepared st (if d then (none, st) else rotate_locked w c st)
          small true = record {
            kept = Kept-refl w.keep st.files;
            at_path = λ _. e;
            no_write = λ q. absurd (cc);
          }
          small false = rotate_locked-Prepared c st falling
