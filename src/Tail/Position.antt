-- ===== src/Tail/Position.antt =====
-- Where Poll of internal/tail/tail.go leaves the position of its reader.
use iceclimber.Common.{
  ◌≡◌, refl, ap, subst, ◌∙◌, inl, inr, ℕ, zero, suc, ◌+◌, ◌≤◌, Bool, true, false, ◌||◌, Option,
  none, some, List, [], ◌∷◌, arith, take, drop, length, ◌==◌, Bool-cases, Option-cases, ==_iff,
  length-drop,
}
use iceclimber.Common.Text.{Text, contains_byte, last_index_byte, later}
use iceclimber.Tail.{Reader, take_lines, kept_offset, poll_from, poll}

-- No byte c follows the last one, and a text without a last one has none.
last_index_byte-none : (s : Text) (c : ℕ) → last_index_byte s c ≡ none → contains_byte s c ≡ false
unfolding last_index_byte contains_byte
last_index_byte-none [] c h = refl
last_index_byte-none (x ∷ s) c h = go (x == c) (last_index_byte s c) (last_index_byte-none s c) h
  where
    go :
        (b : Bool) (o : Option ℕ)
        → (o ≡ none → contains_byte s c ≡ false)
        → later b o ≡ none
        → (b || contains_byte s c) ≡ false
    go true none ih q = absurd (cc)
    go true (some i) ih q = absurd (cc)
    go false none ih q = ih refl
    go false (some i) ih q = absurd (cc)

last_index_byte-some :
    (s : Text) (c i : ℕ)
    → last_index_byte s c ≡ some i
    → (contains_byte (drop (suc i) s) c ≡ false) × (suc i ≤ length s)
unfolding last_index_byte
last_index_byte-some [] c i h = absurd (cc)
last_index_byte-some (x ∷ s) c i h =
    go (x == c) (last_index_byte s c) refl (last_index_byte-some s c) h
  where
    go :
        (b : Bool) (o : Option ℕ)
        → last_index_byte s c ≡ o
        → ((j : ℕ) → o ≡ some j → (contains_byte (drop (suc j) s) c ≡ false) × (suc j ≤ length s))
        → later b o ≡ some i
        → (contains_byte (drop (suc i) (x ∷ s)) c ≡ false) × (suc i ≤ length (x ∷ s))
    go b (some j) e ih q =
        let (clear, room) = ih j refl in
        let n : suc j ≡ i = ground arith in
        subst (λ k. (contains_byte (drop (suc k) (x ∷ s)) c ≡ false) × (suc k ≤ length (x ∷ s))) n
          (clear, omega arith)
    go true none e ih q =
        let n : 0 ≡ i = ground arith in
        subst (λ k. (contains_byte (drop (suc k) (x ∷ s)) c ≡ false) × (suc k ≤ length (x ∷ s))) n
          (last_index_byte-none s c e, omega arith)
    go false none e ih q = absurd (cc)

length-take_of_le : (n : ℕ) (s : Text) → n ≤ length s → length (take n s) ≡ n
length-take_of_le zero s h = refl
length-take_of_le (suc n) [] h = absurd (omega arith)
length-take_of_le (suc n) (x ∷ s) h = ap suc (length-take_of_le n s (omega arith))

drop_nil : (a : ℕ) → drop {A = ℕ} a [] ≡ []
drop_nil zero = refl
drop_nil (suc a) = refl

drop-drop : (a b n : ℕ) (s : Text) → n ≡ b + a → drop a (drop b s) ≡ drop n s
drop-drop a zero n s h = let e : a ≡ n = omega arith in ap (λ k. drop k s) e
drop-drop a (suc b) zero s h = absurd (omega arith)
drop-drop a (suc b) (suc n) [] h = drop_nil a
drop-drop a (suc b) (suc n) (x ∷ s) h = drop-drop a b n s (omega arith)

drop-length : (s : Text) → drop (length s) s ≡ []
drop-length [] = refl
drop-length (x ∷ s) = drop-length s

take_lines-none :
    (text : Text) (o : ℕ)
    → last_index_byte text b'\n' ≡ none
    → take_lines text o ≡ ([], record { offset = o })
take_lines-none text o e = unfold take_lines in rw (e, take_lines)

take_lines-some :
    (text : Text) (o last : ℕ)
    → last_index_byte text b'\n' ≡ some last
    → suc last ≤ length text
    → (take_lines text o).1.offset ≡ o + suc last
take_lines-some text o last e room =
    let n : last + 1 ≡ suc last = omega arith in
    unfold take_lines in
    rw (e, take_lines)
      (ap (λ k. o + k) (ap (λ k. length (take k text)) n ∙ length-take_of_le (suc last) text room))

-- A position up to which a text has been read: no line ends behind it.
pub record Settled (text : Text) (o : ℕ) : Type 0 where
  pub clear : contains_byte (drop o text) b'\n' ≡ false
  pub room : o ≤ length text

take_lines-Settled :
    (text : Text) (o : ℕ)
    → o ≤ length text
    → Settled text (take_lines (drop o text) o).1.offset
      × (o ≤ (take_lines (drop o text) o).1.offset)
take_lines-Settled text o h = elim (Option-cases (last_index_byte (drop o text) b'\n')) [
  | inl e ↦
      let q : (take_lines (drop o text) o).1.offset ≡ o =
        ap (λ (x : List Text × Reader). x.1.offset) (take_lines-none (drop o text) o e) in
      rw q (record { clear = last_index_byte-none (drop o text) b'\n' e; room = h }, omega arith)
  | inr (last, e) ↦
      let (clear, room) = last_index_byte-some (drop o text) b'\n' last e in
      let q = take_lines-some (drop o text) o last e room in
      let size = length-drop o text in
      rw q (
        record {
          clear =
              subst (λ t. contains_byte t b'\n' ≡ false)
                (drop-drop (suc last) o (o + suc last) text refl) clear;
          room = omega arith;
        },
        omega arith,
      )
]

poll_from-at_end :
    (text : Text) (o : ℕ)
    → (length text == o) ≡ true
    → poll_from text o ≡ ([], record { offset = o })
poll_from-at_end text o e = unfold poll_from in rw (e, poll_from)

poll_from-reads :
    (text : Text) (o : ℕ)
    → (length text == o) ≡ false
    → poll_from text o ≡ take_lines (drop o text) o
poll_from-reads text o e = unfold poll_from in rw (e, poll_from)

poll_from-Settled :
    (text : Text) (o : ℕ)
    → o ≤ length text
    → Settled text (poll_from text o).1.offset × (o ≤ (poll_from text o).1.offset)
poll_from-Settled text o h = elim (Bool-cases (length text == o)) [
  | inl e ↦
      let n : length text ≡ o = (==_iff (length text) o).0 e in
      rw (poll_from-at_end text o e) (
        record {
          clear =
              subst (λ k. contains_byte (drop k text) b'\n' ≡ false) n
                (rw (drop-length text) (unfold contains_byte in refl));
          room = h;
        },
        omega arith,
      )
  | inr e ↦ rw (poll_from-reads text o e) (take_lines-Settled text o h)
]

kept_offset-le : (size o : ℕ) → kept_offset size o ≤ size
kept_offset-le size o = unfold kept_offset in ground arith

kept_offset-same : (size o : ℕ) → o ≤ size → kept_offset size o ≡ o
kept_offset-same size o h = unfold kept_offset in ground arith

last_index_byte-clear : (s : Text) (c : ℕ) → contains_byte s c ≡ false → last_index_byte s c ≡ none
unfolding last_index_byte contains_byte
last_index_byte-clear [] c h = refl
last_index_byte-clear (x ∷ s) c h = go (x == c) (last_index_byte-clear s c) h
  where
    go :
        (b : Bool)
        → (contains_byte s c ≡ false → last_index_byte s c ≡ none)
        → (b || contains_byte s c) ≡ false
        → later b (last_index_byte s c) ≡ none
    go true ih q = absurd (cc)
    go false ih q = rw (ih q)

-- A reader that is settled reads nothing more of the same text.
poll-Settled_again :
    (text : Text) (o : ℕ)
    → Settled text o
    → poll (some text) (record { offset = o }) ≡ ([], record { offset = o })
unfolding poll
poll-Settled_again text o s =
    ap (poll_from text) (kept_offset-same (length text) o s.room)
    ∙ elim (Bool-cases (length text == o)) [
      | inl e ↦ poll_from-at_end text o e
      | inr e ↦
          poll_from-reads text o e
          ∙ take_lines-none (drop o text) o (last_index_byte-clear (drop o text) b'\n' s.clear)
    ]

-- After Poll of a file, no complete line is left unread, the position is inside of the file, it has
-- not moved back unless the file shrank, and a second Poll of the same file returns nothing and
-- stays where it is.
pub poll-Settled :
    (text : Text) (r : Reader)
    → Settled text (poll (some text) r).1.offset
      × (r.offset ≤ length text → r.offset ≤ (poll (some text) r).1.offset)
      × (poll (some text) (poll (some text) r).1 ≡ ([], (poll (some text) r).1))
poll-Settled text r =
    let (s, m) =
      poll_from-Settled text (kept_offset (length text) r.offset)
        (kept_offset-le (length text) r.offset) in
    (
      unfold poll in s,
      λ h.
          unfold poll in
          subst (λ k. k ≤ (poll_from text (kept_offset (length text) r.offset)).1.offset)
            (kept_offset-same (length text) r.offset h) m,
      poll-Settled_again text (poll (some text) r).1.offset (unfold poll in s),
    )
