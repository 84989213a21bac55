-- ===== src/Logfile/Kept.antt =====
-- What a log of internal/logfile keeps.
use iceclimber.Common.{
  ℕ, zero, suc, ◌≤◌, ◌<◌, ◌≡◌, ◌⊎◌, inl, inr, refl, sym, ap, ap₂, subst, ◌∙◌, Option, none, some,
  [], ◌++◌, append-nil, append_assoc, arith,
}
use iceclimber.Common.Text.{Text}
use iceclimber.Logfile.{Generations, bytes_of, set_file, rename_file}
use iceclimber.Logfile.Shifted.{
  set_file-here, set_file-other, first_of, rename_file-none, rename_file-from, rename_file-to,
  rename_file-other,
}

-- The log: the generations that are kept, the oldest first.
abbrev pub history : ℕ → Generations → Text
history zero g = []
history (suc n) g = bytes_of (g n) ++ history n g

-- From one state of the files to another the log has lost a part at its start at most, and has got
-- these bytes at its end. The other files have not changed.
pub record Kept (k : ℕ) (g g' : Generations) (b : Text) : Type 0 where
  pub lost : Text
  pub split : lost ++ history k g' ≡ history k g ++ b
  pub others : (i : ℕ) → k ≤ i → g' i ≡ g i

history-eq :
    (n : ℕ) (g g' : Generations)
    → ((i : ℕ) → i < n → bytes_of (g' i) ≡ bytes_of (g i))
    → history n g' ≡ history n g
history-eq zero g g' h = refl
history-eq (suc n) g g' h =
    ap₂ (λ (s t : Text). s ++ t) (h n (omega arith)) (history-eq n g g' (λ i l. h i (omega arith)))

Kept-same :
    (k : ℕ) (g g' : Generations)
    → ((i : ℕ) → i < k → bytes_of (g' i) ≡ bytes_of (g i))
    → ((i : ℕ) → k ≤ i → g' i ≡ g i)
    → Kept k g g' []
Kept-same k g g' h others = record {
  lost = [];
  split = history-eq k g g' h ∙ sym (append-nil (history k g));
  others = others;
}

pub Kept-refl : (k : ℕ) (g : Generations) → Kept k g g []
Kept-refl k g = Kept-same k g g (λ i h. refl) (λ i h. refl)

pub Kept-trans :
    {k : ℕ} {g g' g'' : Generations} {b c : Text}
    → Kept k g g' b
    → Kept k g' g'' c
    → Kept k g g'' (b ++ c)
Kept-trans {k} {g} {g'} {g''} {b} {c} p q = record {
  lost = p.lost ++ q.lost;
  split =
      append_assoc p.lost q.lost (history k g'')
      ∙ ap (λ t. p.lost ++ t) q.split
      ∙ sym (append_assoc p.lost (history k g') c)
      ∙ ap (λ t. t ++ c) p.split
      ∙ append_assoc (history k g) b c;
  others = λ i h. q.others i h ∙ p.others i h;
}

-- The file at the path grows.
history-grown :
    (n : ℕ) (g : Generations) (b : Text)
    → history (suc n) (set_file 0 (some (bytes_of (g 0) ++ b)) g) ≡ history (suc n) g ++ b
history-grown zero g b =
    ap (λ o. bytes_of o ++ []) (set_file-here 0 (some (bytes_of (g 0) ++ b)) g)
    ∙ append-nil (bytes_of (g 0) ++ b)
    ∙ ap (λ t. t ++ b) (sym (append-nil (bytes_of (g 0))))
history-grown (suc n) g b =
    ap₂ (λ (s t : Text). s ++ t)
      (ap bytes_of
        (set_file-other 0 (suc n) (some (bytes_of (g 0) ++ b)) g (λ e. absurd (omega arith))))
      (history-grown n g b)
    ∙ sym (append_assoc (bytes_of (g (suc n))) (history (suc n) g) b)

pub Kept-grown :
    (k : ℕ) (g : Generations) (b : Text)
    → 1 ≤ k
    → Kept k g (set_file 0 (some (bytes_of (g 0) ++ b)) g) b
Kept-grown zero g b h = absurd (omega arith)
Kept-grown (suc n) g b h = record {
  lost = [];
  split = history-grown n g b;
  others = λ i l. set_file-other 0 i (some (bytes_of (g 0) ++ b)) g (λ e. absurd (omega arith));
}

pub Kept-created :
    (k : ℕ) (g : Generations) → 1 ≤ k → Kept k g (set_file 0 (some (bytes_of (g 0))) g) []
Kept-created k g h = Kept-same k g (set_file 0 (some (bytes_of (g 0))) g) same other
  where
    other : (i : ℕ) → k ≤ i → set_file 0 (some (bytes_of (g 0))) g i ≡ g i
    other i l = set_file-other 0 i (some (bytes_of (g 0))) g (λ e. absurd (omega arith))

    same : (i : ℕ) → i < k → bytes_of (set_file 0 (some (bytes_of (g 0))) g i) ≡ bytes_of (g i)
    same zero l = ap bytes_of (set_file-here 0 (some (bytes_of (g 0))) g)
    same (suc i) l =
        ap bytes_of (set_file-other 0 (suc i) (some (bytes_of (g 0))) g (λ e. absurd (omega arith)))

-- The oldest generation is given up.
pub Kept-removed :
    (n : ℕ) (g : Generations) (o : Option Text)
    → bytes_of o ≡ []
    → Kept (suc n) g (set_file n o g) []
Kept-removed n g o h = record {
  lost = bytes_of (g n);
  split =
      ap (λ t. bytes_of (g n) ++ t)
        (ap₂ (λ (s t : Text). s ++ t) (ap bytes_of (set_file-here n o g) ∙ h)
          (history-eq n g (set_file n o g)
            (λ i l. ap bytes_of (set_file-other n i o g (λ e. absurd (omega arith))))))
      ∙ sym (append-nil (history (suc n) g));
  others = λ i l. set_file-other n i o g (λ e. absurd (omega arith));
}

-- A rename of generation i, seen from the log up to its target.
history-renamed :
    (i : ℕ) (g : Generations) (s : Text)
    → g i ≡ some s
    → bytes_of (g (suc i)) ++ history (suc (suc i)) (rename_file i (suc i) g)
      ≡ history (suc (suc i)) g
history-renamed i g s e =
    ap (λ t. bytes_of (g (suc i)) ++ t)
      (ap₂ (λ (a b : Text). a ++ b)
        (ap bytes_of (rename_file-to i (suc i) g ∙ ap (λ o. first_of o (g (suc i))) e ∙ sym e))
        (ap₂ (λ (a b : Text). a ++ b)
          (ap bytes_of (rename_file-from i (suc i) g (λ q. absurd (omega arith))))
          (history-eq i g (rename_file i (suc i) g) (λ j l. ap bytes_of (
            rename_file-other i (suc i) j g (λ q. absurd (omega arith))
              (λ q. absurd (omega arith)))))))

-- The target of a rename of generation i may be lost, for it is the oldest one, or it is free.
abbrev pub Free : ℕ → ℕ → Generations → Type 0
Free k i g = (k ≡ suc (suc i)) ⊎ ((suc i < k) × (g (suc i) ≡ none))

history-freed :
    (k i : ℕ) (g : Generations) (s : Text)
    → g i ≡ some s
    → g (suc i) ≡ none
    → suc i < k
    → history k (rename_file i (suc i) g) ≡ history k g
history-freed zero i g s e f h = absurd (omega arith)
history-freed (suc k) i g s e f h = elim (target_or_above h) [
  | inl q ↦
      ap (λ n. history (suc n) (rename_file i (suc i) g)) q
      ∙ ap (λ o. bytes_of o ++ history (suc (suc i)) (rename_file i (suc i) g)) (sym f)
      ∙ history-renamed i g s e
      ∙ ap (λ n. history (suc n) g) (sym q)
  | inr l ↦
      ap₂ (λ (a b : Text). a ++ b)
        (ap bytes_of
          (rename_file-other i (suc i) k g (λ q. absurd (omega arith)) (λ q. absurd (omega arith))))
        (history-freed k i g s e f l)
]
  where
    target_or_above : suc i < suc k → (k ≡ suc i) ⊎ (suc i < k)
    target_or_above l = ground arith

pub Kept-renamed : (k i : ℕ) (g : Generations) → Free k i g → Kept k g (rename_file i (suc i) g) []
Kept-renamed k i g free = go (g i) refl
  where
    above : (j : ℕ) → suc (suc i) ≤ j → rename_file i (suc i) g j ≡ g j
    above j l =
        rename_file-other i (suc i) j g (λ q. absurd (omega arith)) (λ q. absurd (omega arith))

    there : (s : Text) → g i ≡ some s → Free k i g → Kept k g (rename_file i (suc i) g) []
    there s e (inl q) =
        subst (λ n. Kept n g (rename_file i (suc i) g) []) (sym q)
          (record {
            lost = bytes_of (g (suc i));
            split = history-renamed i g s e ∙ sym (append-nil (history (suc (suc i)) g));
            others = above;
          })
    there s e (inr (l, f)) = record {
      lost = [];
      split = history-freed k i g s e f l ∙ sym (append-nil (history k g));
      others = λ j m. above j (omega arith);
    }

    go : (o : Option Text) → g i ≡ o → Kept k g (rename_file i (suc i) g) []
    go none e = subst (λ h. Kept k g h []) (sym (rename_file-none i (suc i) g e)) (Kept-refl k g)
    go (some s) e = there s e free
