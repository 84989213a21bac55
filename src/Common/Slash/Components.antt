-- ===== src/Common/Slash/Components.antt =====
-- Paths that are made of components: Join puts a component behind one.
use iceclimber.Common.Tests.{◌==◌, Bool-cases}
use iceclimber.Common.Lists.{All}
use iceclimber.Common.Text.{Text, text_eq_ne, split, contains_byte}
use iceclimber.Common.Slash.{
  dot, dot_dot, join_slash, clean_step, clean_elements, clean, non_empty, join,
}
use mathlib.Core.Bool.{true, false, false≢true}
use mathlib.Core.List.{List, [], ◌∷◌, ◌++◌, reverse, reverse-cons, append_assoc, append-nil}
use mathlib.Core.Logic.{◌≢◌, inl, inr}
use mathlib.Core.Path.{◌≡◌, refl, sym, ap, ◌∙◌}

-- A name of a file or a directory, which leads nowhere else.
pub record Component (s : Text) : Type 0 where
  pub not_empty : s ≢ []
  pub not_dot : s ≢ dot
  pub not_dot_dot : s ≢ dot_dot
  pub no_slash : contains_byte s b'/' ≡ false

-- the rooted path of these components
abbrev pub path_of : List Text → Text
path_of ws = b'/' ∷ join_slash ws

abbrev NoSlash : Text → Type 0
NoSlash s = contains_byte s b'/' ≡ false

All-NoSlash : (ws : List Text) → All Component ws → All NoSlash ws
All-NoSlash [] h = tt
All-NoSlash (w ∷ ws) h = (h.0.no_slash, All-NoSlash ws h.1)

split-component : (s : Text) → contains_byte s b'/' ≡ false → split b'/' s ≡ s ∷ []
unfolding split contains_byte
split-component [] h = refl
split-component (c ∷ s) h = elim (Bool-cases (c == b'/')) [
  | inl e ↦ absurd (false≢true (sym (rw e at h)))
  | inr e ↦ rw (e, split-component s (rw e at h)) refl
]

split-before_slash :
    (s rest : Text)
    → contains_byte s b'/' ≡ false
    → split b'/' (s ++ b'/' ∷ rest) ≡ s ∷ split b'/' rest
unfolding split contains_byte
split-before_slash [] rest h = refl
split-before_slash (c ∷ s) rest h = elim (Bool-cases (c == b'/')) [
  | inl e ↦ absurd (false≢true (sym (rw e at h)))
  | inr e ↦ rw (e, split-before_slash s rest (rw e at h)) refl
]

split-join_slash :
    (w : Text) (ws : List Text) → All NoSlash (w ∷ ws) → split b'/' (join_slash (w ∷ ws)) ≡ w ∷ ws
unfolding join_slash
split-join_slash w [] h = split-component w h.0
split-join_slash w (v ∷ ws) h =
    split-before_slash w (join_slash (v ∷ ws)) h.0 ∙ ap (λ t. w ∷ t) (split-join_slash v ws h.1)

clean_step-component :
    (kept : List Text) (s : Text) → Component s → clean_step true kept s ≡ s ∷ kept
unfolding clean_step
clean_step-component kept s h =
    rw (text_eq_ne s [] h.not_empty, text_eq_ne s dot h.not_dot, text_eq_ne s dot_dot h.not_dot_dot)

clean_elements-components :
    (kept ws : List Text)
    → All Component ws
    → reverse (clean_elements true kept ws) ≡ reverse kept ++ ws
unfolding clean_elements
clean_elements-components kept [] h = sym (append-nil (reverse kept))
clean_elements-components kept (w ∷ ws) h =
    ap (λ k. reverse (clean_elements true k ws)) (clean_step-component kept w h.0)
    ∙ clean_elements-components (w ∷ kept) ws h.1
    ∙ again
  where
    again : reverse (w ∷ kept) ++ ws ≡ reverse kept ++ w ∷ ws
    again = ap (λ k. k ++ ws) (reverse-cons w kept) ∙ append_assoc (reverse kept) (w ∷ []) ws

clean-rooted :
    (w : Text) (ws : List Text)
    → All NoSlash (w ∷ ws)
    → clean (path_of (w ∷ ws)) ≡ path_of (reverse (clean_elements true [] (w ∷ ws)))
unfolding clean
clean-rooted w ws h = ap rooted elements
  where
    rooted : List Text → Text
    rooted vs = b'/' ∷ join_slash (reverse vs)

    elements :
        clean_elements true [] (split b'/' (path_of (w ∷ ws))) ≡ clean_elements true [] (w ∷ ws)
    elements =
        unfold split clean_elements clean_step in
        ap (clean_elements true []) (split-join_slash w ws h)

pub clean-path_of :
    (w : Text) (ws : List Text)
    → All Component (w ∷ ws)
    → clean (path_of (w ∷ ws)) ≡ path_of (w ∷ ws)
clean-path_of w ws h =
    clean-rooted w ws (All-NoSlash (w ∷ ws) h)
    ∙ ap path_of (clean_elements-components [] (w ∷ ws) h)

clean_elements_gap :
    (kept ws rest : List Text)
    → clean_elements true kept (ws ++ [] ∷ rest) ≡ clean_elements true kept (ws ++ rest)
unfolding clean_elements
clean_elements_gap kept [] rest = unfold clean_step in refl
clean_elements_gap kept (w ∷ ws) rest = clean_elements_gap (clean_step true kept w) ws rest

All-gap : (ws : List Text) (s : Text) → All NoSlash ws → NoSlash s → All NoSlash (ws ++ [] ∷ s ∷ [])
All-gap [] s h c = (unfold contains_byte in refl, (c, tt))
All-gap (w ∷ ws) s h c = (h.0, All-gap ws s h.1 c)

pub append-join_slash :
    (w : Text) (ws : List Text) (v : Text) (vs : List Text)
    → join_slash ((w ∷ ws) ++ v ∷ vs) ≡ join_slash (w ∷ ws) ++ b'/' ∷ join_slash (v ∷ vs)
unfolding join_slash
append-join_slash w [] v vs = refl
append-join_slash w (u ∷ ws) v vs =
    ap (λ t. w ++ b'/' ∷ t) (append-join_slash u ws v vs)
    ∙ sym (append_assoc w (b'/' ∷ join_slash (u ∷ ws)) (b'/' ∷ join_slash (v ∷ vs)))

pub All-last :
    (ws : List Text) (s : Text) → All Component ws → Component s → All Component (ws ++ s ∷ [])
All-last [] s h c = (c, tt)
All-last (w ∷ ws) s h c = (h.0, All-last ws s h.1 c)

-- Join behind a path that ends in a slash.
pub join-trailing :
    (w : Text) (ws : List Text) (s : Text)
    → All Component (w ∷ ws)
    → Component s
    → join ((path_of (w ∷ ws) ++ b'/' ∷ []) ∷ s ∷ []) ≡ path_of ((w ∷ ws) ++ s ∷ [])
join-trailing w ws [] h c = absurd (c.not_empty refl)
join-trailing w ws (x ∷ s) h c =
    opened
    ∙ ap clean regrouped
    ∙ clean-rooted w (ws ++ [] ∷ (x ∷ s) ∷ [])
        (All-gap (w ∷ ws) (x ∷ s) (All-NoSlash (w ∷ ws) h) c.no_slash)
    ∙ ap (λ vs. path_of (reverse vs)) (clean_elements_gap [] (w ∷ ws) ((x ∷ s) ∷ []))
    ∙ ap path_of
        (clean_elements-components [] ((w ∷ ws) ++ (x ∷ s) ∷ []) (All-last (w ∷ ws) (x ∷ s) h c))
  where
    opened :
        join ((path_of (w ∷ ws) ++ b'/' ∷ []) ∷ (x ∷ s) ∷ [])
        ≡ clean ((path_of (w ∷ ws) ++ b'/' ∷ []) ++ b'/' ∷ x ∷ s)
    opened = unfold join non_empty join_slash in refl

    regrouped :
        (path_of (w ∷ ws) ++ b'/' ∷ []) ++ b'/' ∷ x ∷ s ≡ path_of ((w ∷ ws) ++ [] ∷ (x ∷ s) ∷ [])
    regrouped =
        append_assoc (path_of (w ∷ ws)) (b'/' ∷ []) (b'/' ∷ x ∷ s)
        ∙ unfold join_slash in ap (λ t. b'/' ∷ t) (sym (append-join_slash w ws [] ((x ∷ s) ∷ [])))

-- Join puts a component behind a path of components.
pub join-component :
    (w : Text) (ws : List Text) (s : Text)
    → All Component (w ∷ ws)
    → Component s
    → join (path_of (w ∷ ws) ∷ s ∷ []) ≡ path_of ((w ∷ ws) ++ s ∷ [])
join-component w ws [] h c = absurd (c.not_empty refl)
join-component w ws (x ∷ s) h c =
    opened
    ∙ ap (λ t. clean (b'/' ∷ t)) (sym joined)
    ∙ clean-path_of w (ws ++ (x ∷ s) ∷ []) (All-last (w ∷ ws) (x ∷ s) h c)
  where
    joined : join_slash ((w ∷ ws) ++ (x ∷ s) ∷ []) ≡ join_slash (w ∷ ws) ++ b'/' ∷ x ∷ s
    joined = unfold join_slash in append-join_slash w ws (x ∷ s) []

    opened : join (path_of (w ∷ ws) ∷ (x ∷ s) ∷ []) ≡ clean (path_of (w ∷ ws) ++ b'/' ∷ x ∷ s)
    opened = unfold join non_empty join_slash in refl
