-- ===== src/Egress/Glob/Language.antt =====
-- What a URL glob stands for, with no search in it: `*` is any run of bytes, and every other byte
-- is itself. `Fits` says the same of the parts between the stars.
use iceclimber.Common.{
  ℕ, ◌≡◌, refl, sym, ap, ◌∙◌, ◌↔◌, subst, inl, inr, true, false, List, [], ◌∷◌, ◌++◌, append-nil,
  append_assoc, ◌==◌, if◌then◌else◌, Bool-cases,
}
use iceclimber.Common.Text.{Text, split, split-ne-nil, cons_head}

abbrev pub Matches : Text → Text → Type 0
Matches [] s = s ≡ []
Matches (c ∷ p) s =
    if c == b'*'
    then ((gap : Text) × (rest : Text) × (s ≡ gap ++ rest) × Matches p rest)
    else ((rest : Text) × (s ≡ c ∷ rest) × Matches p rest)

-- each part after some gap, and nothing behind the last
abbrev pub FitsAfter : List Text → Text → Type 0
FitsAfter [] s = s ≡ []
FitsAfter (w ∷ ws) s = (gap : Text) × (rest : Text) × (s ≡ gap ++ (w ++ rest)) × FitsAfter ws rest

-- the first part at once
abbrev pub Fits : List Text → Text → Type 0
Fits [] s = ⊥
Fits (w ∷ ws) s = (rest : Text) × (s ≡ w ++ rest) × FitsAfter ws rest

FitsAfter-of_Fits :
    (ws : List Text) (gap rest s : Text) → s ≡ gap ++ rest → Fits ws rest → FitsAfter ws s
FitsAfter-of_Fits [] gap rest s e f = absurd f
FitsAfter-of_Fits (w ∷ ws) gap rest s e (r, q, f) = (gap, r, e ∙ ap (λ t. gap ++ t) q, f)

Fits-of_FitsAfter :
    (w : Text) (ws : List Text) (s : Text)
    → FitsAfter (w ∷ ws) s
    → (gap : Text) × (rest : Text) × (s ≡ gap ++ rest) × Fits (w ∷ ws) rest
Fits-of_FitsAfter w ws s (gap, rest, e, f) = (gap, w ++ rest, e, (rest, refl, f))

Fits-cons_head :
    (c : ℕ) (ws : List Text) (rest s : Text) → s ≡ c ∷ rest → Fits ws rest → Fits (cons_head c ws) s
Fits-cons_head c [] rest s e f = absurd f
Fits-cons_head c (w ∷ ws) rest s e (r, q, f) = (r, e ∙ ap (λ t. c ∷ t) q, f)

Fits-cons_head_inv :
    (c : ℕ) (w : Text) (ws : List Text) (s : Text)
    → Fits (cons_head c (w ∷ ws)) s
    → (rest : Text) × (s ≡ c ∷ rest) × Fits (w ∷ ws) rest
Fits-cons_head_inv c w ws s (r, q, f) = (w ++ r, q, (r, refl, f))

pub split-star : (c : ℕ) (p : Text) → (c == b'*') ≡ true → split b'*' (c ∷ p) ≡ [] ∷ split b'*' p
unfolding split
split-star c p e = rw e

pub split-other :
    (c : ℕ) (p : Text) → (c == b'*') ≡ false → split b'*' (c ∷ p) ≡ cons_head c (split b'*' p)
unfolding split
split-other c p e = rw e

Matches→Fits : (p s : Text) → Matches p s → Fits (split b'*' p) s
Matches→Fits [] s e = unfold split in ([], e, refl)
Matches→Fits (c ∷ p) s m = elim (Bool-cases (c == b'*')) [
  | inl e ↦
      let (gap, rest, q, n) = rw e at m in
      subst (λ l. Fits l s) (sym (split-star c p e))
        (s, refl, FitsAfter-of_Fits (split b'*' p) gap rest s q (Matches→Fits p rest n))
  | inr e ↦
      let (rest, q, n) = rw e at m in
      subst (λ l. Fits l s) (sym (split-other c p e))
        (Fits-cons_head c (split b'*' p) rest s q (Matches→Fits p rest n))
]

Fits→Matches : (p s : Text) → Fits (split b'*' p) s → Matches p s
Fits→Matches [] s f = unfold split in (let (rest, q, e) = f in q ∙ e)
Fits→Matches (c ∷ p) s f =
    let (w, ws, h) = split-ne-nil b'*' p in
    elim (Bool-cases (c == b'*')) [
      | inl e ↦
          let (rest, q, g) = subst (λ l. Fits l s) (split-star c p e ∙ ap (λ l. [] ∷ l) h) f in
          let (gap, r, q', k) = Fits-of_FitsAfter w ws rest g in
          rw e (gap, r, q ∙ q', Fits→Matches p r (subst (λ l. Fits l r) (sym h) k))
      | inr e ↦
          let (r, q, k) =
            Fits-cons_head_inv c w ws s
              (subst (λ l. Fits l s) (split-other c p e ∙ ap (cons_head c) h) f) in
          rw e (r, q, Fits→Matches p r (subst (λ l. Fits l r) (sym h) k))
    ]

-- A glob matches exactly what its parts between the stars fit.
pub Matches-iff_Fits : (p s : Text) → Matches p s ↔ Fits (split b'*' p) s
Matches-iff_Fits p s = (Matches→Fits p s, Fits→Matches p s)

-- A glob matches its own text: each star stands for the star.
pub Matches-self : (p : Text) → Matches p p
Matches-self [] = refl
Matches-self (c ∷ p) = elim (Bool-cases (c == b'*')) [
  | inl e ↦ rw e (c ∷ [], p, refl, Matches-self p)
  | inr e ↦ rw e (p, refl, Matches-self p)
]

-- A glob that ends in a star matches all that begins with a text the rest of it matches.
pub Matches-star_end : (p s t : Text) → Matches p s → Matches (p ++ b'*' ∷ []) (s ++ t)
Matches-star_end [] s t e = (s ++ t, [], sym (append-nil (s ++ t)), refl)
Matches-star_end (c ∷ p) s t m = elim (Bool-cases (c == b'*')) [
  | inl e ↦
      let (gap, rest, q, n) = rw e at m in
      rw e
        (gap, rest ++ t, ap (λ u. u ++ t) q ∙ append_assoc gap rest t, Matches-star_end p rest t n)
  | inr e ↦
      let (rest, q, n) = rw e at m in
      rw e (rest ++ t, ap (λ u. u ++ t) q, Matches-star_end p rest t n)
]
