-- ===== src/Egress/Glob/Correct.antt =====
-- globMatch decides the language of its pattern: the leftmost choice for each part loses nothing.
use iceclimber.Common.{
  ℕ, ◌+◌, ◌-◌, ◌≤◌, ◌≡◌, refl, sym, ap, subst, ◌∙◌, ◌↔◌, inl, inr, true, false, none, some, List,
  [], ◌∷◌, ◌++◌, append-nil, append_assoc, arith, ◌==◌, length, take, drop, length-append,
  drop-append_of_le, if◌then◌else◌, Bool-cases, Option-cases,
}
use iceclimber.Common.Text.{
  Text, text_eq, text_eq_iff, has_prefix, has_suffix, has_prefix_of_eq, has_prefix-split,
  has_suffix_of_eq, has_suffix-split, drop-eq_of_append, take-eq_of_append, split, split-ne-nil,
  cons_head, index, index-split, index-least,
}
use iceclimber.Egress.Glob.{last_part, mid_parts, find_mids, match_tail, match_parts, glob_match}
use iceclimber.Egress.Glob.Language.{
  Matches, FitsAfter, Fits, Matches-iff_Fits, Matches-self, split-star, split-other,
}

-- the middle parts in order, with any text between and behind them
abbrev MidsFit : List Text → Text → Type 0
MidsFit [] s = Unit {0}
MidsFit (w ∷ ws) s = (gap : Text) × (rest : Text) × (s ≡ gap ++ (w ++ rest)) × MidsFit ws rest

-- More text in front does no harm.
MidsFit-append : (ws : List Text) (x s : Text) → MidsFit ws s → MidsFit ws (x ++ s)
MidsFit-append [] x s m = tt
MidsFit-append (w ∷ ws) x s (gap, rest, e, m) =
    (x ++ gap, rest, ap (λ t. x ++ t) e ∙ sym (append_assoc x gap (w ++ rest)), m)

-- An occurrence is behind a prefix of the text.
regroup : (s gap w rest : Text) → s ≡ gap ++ (w ++ rest) → s ≡ (gap ++ w) ++ rest
regroup s gap w rest e = e ∙ sym (append_assoc gap w rest)

-- An earlier occurrence leaves a longer rest.
drop-earlier :
    (s gap w rest : Text) (i : ℕ)
    → s ≡ gap ++ (w ++ rest)
    → i ≤ length gap
    → (x : Text) × (drop (i + length w) s ≡ x ++ rest)
drop-earlier s gap w rest i e h = (
  drop (i + length w) (gap ++ w),
  ap (drop (i + length w)) (regroup s gap w rest e)
      ∙ drop-append_of_le (i + length w) (gap ++ w) rest (omega (arith, length-append {0} gap w)),
)

find_mids-found :
    (w : Text) (ws : List Text) (s : Text) (i : ℕ)
    → index s w ≡ some i
    → find_mids (w ∷ ws) s ≡ find_mids ws (drop (i + length w) s)
unfolding find_mids
find_mids-found w ws s i e = rw (e, find_mids)

find_mids-missing :
    (w : Text) (ws : List Text) (s : Text) → index s w ≡ none → find_mids (w ∷ ws) s ≡ false
unfolding find_mids
find_mids-missing w ws s e = rw (e, find_mids)

drop-found :
    (s gap w rest : Text) (i : ℕ)
    → length gap ≡ i
    → s ≡ gap ++ (w ++ rest)
    → drop (i + length w) s ≡ rest
drop-found s gap w rest i l e =
    let n : i + length w ≡ length (gap ++ w) = omega (arith, length-append {0} gap w) in
    rw n (drop-eq_of_append s (gap ++ w) rest (regroup s gap w rest e))

find_mids_sound : (ws : List Text) (s : Text) → find_mids ws s ≡ true → MidsFit ws s
find_mids_sound [] s h = tt
find_mids_sound (w ∷ ws) s h = elim (Option-cases (index s w)) [
  | inl e ↦ absurd (cc (find_mids-missing w ws s e))
  | inr (i, e) ↦
      let (gap, rest, l, q) = index-split w s i e in
      (
        gap,
        rest,
        q,
        find_mids_sound ws rest (
            ap (find_mids ws) (sym (drop-found s gap w rest i l q))
            ∙ sym (find_mids-found w ws s i e)
            ∙ h),
      )
]

find_mids_complete : (ws : List Text) (s : Text) → MidsFit ws s → find_mids ws s ≡ true
find_mids_complete [] s m = unfold find_mids in refl
find_mids_complete (w ∷ ws) s (gap, rest, e, m) =
    let (i, q, l) = index-least w s gap rest e in
    let (x, d) = drop-earlier s gap w rest i e l in
    find_mids-found w ws s i q
    ∙ ap (find_mids ws) d
    ∙ find_mids_complete ws (x ++ rest) (MidsFit-append ws x rest m)

FitsAfter-split :
    (w : Text) (ws : List Text) (s : Text)
    → FitsAfter (w ∷ ws) s
    → (body : Text) × (s ≡ body ++ last_part w ws) × MidsFit (mid_parts w ws) body
unfolding last_part mid_parts
FitsAfter-split w [] s (gap, rest, e, n) =
    (gap, e ∙ ap (λ t. gap ++ (w ++ t)) n ∙ ap (λ t. gap ++ t) (append-nil w), tt)
FitsAfter-split w (v ∷ ws) s (gap, rest, e, f) =
    let (body, q, m) = FitsAfter-split v ws rest f in
    (
      gap ++ (w ++ body),
      e ∙ ap (λ t. gap ++ (w ++ t)) q ∙ nest gap w body (last_part v ws),
      (gap, body, refl, m),
    )
  where
    nest : (a b c d : Text) → a ++ (b ++ (c ++ d)) ≡ (a ++ (b ++ c)) ++ d
    nest a b c d = simp append_assoc

FitsAfter-join :
    (w : Text) (ws : List Text) (s body : Text)
    → s ≡ body ++ last_part w ws
    → MidsFit (mid_parts w ws) body
    → FitsAfter (w ∷ ws) s
unfolding last_part mid_parts
FitsAfter-join w [] s body e m = (body, [], e ∙ ap (λ t. body ++ t) (sym (append-nil w)), refl)
FitsAfter-join w (v ∷ ws) s body e (gap, rest, q, m) = (
  gap,
  rest ++ last_part v ws,
  e ∙ ap (λ t. t ++ last_part v ws) q ∙ nest gap w rest (last_part v ws),
  FitsAfter-join v ws (rest ++ last_part v ws) rest refl m,
)
  where
    nest : (a b c d : Text) → (a ++ (b ++ c)) ++ d ≡ a ++ (b ++ (c ++ d))
    nest a b c d = simp append_assoc

match_tail-tests :
    (w : Text) (ws : List Text) (s : Text)
    → match_tail w ws s ≡ true
    → (has_suffix s (last_part w ws) ≡ true)
      × (find_mids (mid_parts w ws) (take (length s - length (last_part w ws)) s) ≡ true)
match_tail-tests w ws s h = elim (Bool-cases (has_suffix s (last_part w ws))) [
  | inl a ↦ (a, unfold match_tail in (rw (a, match_tail) at h))
  | inr a ↦ absurd (unfold match_tail in cc (rw (a, match_tail) at h))
]

match_tail_sound :
    (w : Text) (ws : List Text) (s : Text) → match_tail w ws s ≡ true → FitsAfter (w ∷ ws) s
match_tail_sound w ws s h =
    let last = last_part w ws in
    let (a, b) = match_tail-tests w ws s h in
    FitsAfter-join w ws s (take (length s - length last) s) (has_suffix-split s last a)
      (find_mids_sound (mid_parts w ws) _ b)

match_tail_complete :
    (w : Text) (ws : List Text) (s : Text) → FitsAfter (w ∷ ws) s → match_tail w ws s ≡ true
match_tail_complete w ws s f =
    let (body, e, m) = FitsAfter-split w ws s f in
    let a = has_suffix_of_eq s body (last_part w ws) e in
    let b = take-eq_of_append s body (last_part w ws) e in
    unfold match_tail in rw (a, b) (find_mids_complete (mid_parts w ws) body m)

match_parts-cons :
    (pattern first next : Text) (rest : List Text) (s : Text)
    → match_parts pattern (first ∷ next ∷ rest) s
      ≡ (if has_prefix s first then match_tail next rest (drop (length first) s) else false)
unfolding match_parts
match_parts-cons pattern first next rest s = refl

match_parts-one : (pattern first s : Text) → match_parts pattern (first ∷ []) s ≡ text_eq pattern s
unfolding match_parts
match_parts-one pattern first s = refl

match_parts_sound :
    (pattern first : Text) (rest : List Text) (s : Text)
    → (rest ≡ [] → pattern ≡ first)
    → match_parts pattern (first ∷ rest) s ≡ true
    → Fits (first ∷ rest) s
match_parts_sound pattern first [] s one h =
    let e : pattern ≡ s = (text_eq_iff pattern s).0 (sym (match_parts-one pattern first s) ∙ h) in
    ([], sym e ∙ one refl ∙ sym (append-nil first), refl)
match_parts_sound pattern first (next ∷ rest) s one h = elim (Bool-cases (has_prefix s first)) [
  | inl a ↦ (
    drop (length first) s,
    has_prefix-split s first a,
    match_tail_sound next rest _ (rw a at (sym (match_parts-cons pattern first next rest s) ∙ h)),
  )
  | inr a ↦ absurd (cc (rw a at (sym (match_parts-cons pattern first next rest s) ∙ h)))
]

match_parts_complete :
    (pattern first : Text) (rest : List Text) (s : Text)
    → (rest ≡ [] → pattern ≡ first)
    → Fits (first ∷ rest) s
    → match_parts pattern (first ∷ rest) s ≡ true
match_parts_complete pattern first [] s one (r, e, n) =
    let q : s ≡ first = e ∙ ap (λ t. first ++ t) n ∙ append-nil first in
    match_parts-one pattern first s ∙ (text_eq_iff pattern s).1 (one refl ∙ sym q)
match_parts_complete pattern first (next ∷ rest) s one (r, e, f) =
    match_parts-cons pattern first next rest s
    ∙ rw (has_prefix_of_eq s first r e, drop-eq_of_append s first r e)
        (match_tail_complete next rest r f)

-- Splitting at stars gives one part only where there is no star.
split-one :
    (p first : Text) (rest : List Text) → split b'*' p ≡ first ∷ rest → rest ≡ [] → p ≡ first
split-one [] first rest e n = unfold split in cc
split-one (c ∷ p) first rest e n =
    let (w, ws, h) = split-ne-nil b'*' p in
    elim (Bool-cases (c == b'*')) [
      | inl a ↦ absurd (cc (split-star c p a, h))
      | inr a ↦
          let q : (c ∷ w) ∷ ws ≡ first ∷ rest =
            ap (cons_head c) (sym h) ∙ sym (split-other c p a) ∙ e in
          let m : ws ≡ [] = cc in let k : p ≡ w = split-one p w ws h m in cc
    ]

-- globMatch answers true exactly on the texts of its pattern's language, in which each `*` is any
-- run of bytes and every other byte is itself.
pub glob_match_iff : (pattern s : Text) → (glob_match pattern s ≡ true) ↔ Matches pattern s
unfolding glob_match
glob_match_iff pattern s =
    let (first, rest, h) = split-ne-nil b'*' pattern in
    let one = split-one pattern first rest h in
    let e : glob_match pattern s ≡ match_parts pattern (first ∷ rest) s =
      ap (λ l. match_parts pattern l s) h in
    (
      λ g.
          (Matches-iff_Fits pattern s).1 (
            subst (λ l. Fits l s) (sym h) (match_parts_sound pattern first rest s one (sym e ∙ g))),
      λ m.
          e
          ∙ match_parts_complete pattern first rest s one
              (subst (λ l. Fits l s) h ((Matches-iff_Fits pattern s).0 m)),
    )

-- A rule matches its own text.
pub glob_match_self : (p : Text) → glob_match p p ≡ true
glob_match_self p = (glob_match_iff p p).1 (Matches-self p)
