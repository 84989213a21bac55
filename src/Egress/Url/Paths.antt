-- ===== src/Egress/Url/Paths.antt =====
-- The path part of Canonical of internal/egress/rewrite.go: which spellings of a path are one.
use mathlib.Core.List.{reverse}
use iceclimber.Common.{
  ◌≡◌, ◌≢◌, refl, sym, ap, ◌∙◌, inl, inr, Bool, true, not, ◌&&◌, List, [], ◌∷◌, ◌++◌, ◌==◌,
  if◌then◌else◌, Bool-cases,
}
use iceclimber.Common.Slash.{dot, dot_dot, join_slash, clean_step, clean_elements, clean}
use iceclimber.Common.Text.{Text, codes, text_eq_ne, has_suffix, trim_prefix, split}
use iceclimber.Egress.Url.{canon_path}

-- A path element that path.Clean keeps.
pub record IsName (w : Text) : Type 0 where
  pub not_empty : w ≢ []
  pub not_dot : w ≢ dot
  pub not_dot_dot : w ≢ dot_dot

-- Spellings of one path: empty elements and "." added anywhere, and a name followed by "..".
pub data Noise : List Text → List Text → Type 0 where
  same : {ws : List Text} → Noise ws ws
  add_empty : {ws : List Text} (xs ys : List Text) → Noise (xs ++ ys) ws → Noise (xs ++ [] ∷ ys) ws
  add_dot : {ws : List Text} (xs ys : List Text) → Noise (xs ++ ys) ws → Noise (xs ++ dot ∷ ys) ws
  add_detour :
      {ws : List Text} (xs ys : List Text) (w : Text)
      → IsName w
      → Noise (xs ++ ys) ws
      → Noise (xs ++ w ∷ dot_dot ∷ ys) ws

clean_step-empty : (kept : List Text) → clean_step true kept [] ≡ kept
unfolding clean_step
clean_step-empty kept = refl

clean_step-dot : (kept : List Text) → clean_step true kept dot ≡ kept
unfolding clean_step
clean_step-dot kept = refl

clean_step-name : (kept : List Text) (w : Text) → IsName w → clean_step true kept w ≡ w ∷ kept
clean_step-name kept w n =
    let a = text_eq_ne w [] n.not_empty in
    let b = text_eq_ne w dot n.not_dot in
    let c = text_eq_ne w dot_dot n.not_dot_dot in unfold clean_step in rw (clean_step, a, b, c)

clean_step-up : (kept : List Text) (w : Text) → IsName w → clean_step true (w ∷ kept) dot_dot ≡ kept
clean_step-up kept w n = let c = text_eq_ne w dot_dot n.not_dot_dot in unfold clean_step in rw c

clean_elements-append :
    (kept xs ys : List Text)
    → clean_elements true kept (xs ++ ys) ≡ clean_elements true (clean_elements true kept xs) ys
unfolding clean_elements
clean_elements-append kept [] ys = refl
clean_elements-append kept (x ∷ xs) ys = clean_elements-append (clean_step true kept x) xs ys

clean_elements-cons :
    (kept : List Text) (w : Text) (ws : List Text)
    → clean_elements true kept (w ∷ ws) ≡ clean_elements true (clean_step true kept w) ws
unfolding clean_elements
clean_elements-cons kept w ws = refl

-- An element that changes nothing can be left out.
clean_elements-skip :
    (kept xs ys : List Text) (w : Text)
    → ((k : List Text) → clean_step true k w ≡ k)
    → clean_elements true kept (xs ++ w ∷ ys) ≡ clean_elements true kept (xs ++ ys)
clean_elements-skip kept xs ys w h =
    clean_elements-append kept xs (w ∷ ys)
    ∙ clean_elements-cons (clean_elements true kept xs) w ys
    ∙ ap (λ k. clean_elements true k ys) (h (clean_elements true kept xs))
    ∙ sym (clean_elements-append kept xs ys)

clean_elements-detour :
    (kept xs ys : List Text) (w : Text)
    → IsName w
    → clean_elements true kept (xs ++ w ∷ dot_dot ∷ ys) ≡ clean_elements true kept (xs ++ ys)
clean_elements-detour kept xs ys w n =
    let k = clean_elements true kept xs in
    clean_elements-append kept xs (w ∷ dot_dot ∷ ys)
    ∙ clean_elements-cons k w (dot_dot ∷ ys)
    ∙ clean_elements-cons (clean_step true k w) dot_dot ys
    ∙ ap (λ (l : List Text). clean_elements true (clean_step true l dot_dot) ys)
        (clean_step-name k w n)
    ∙ ap (λ l. clean_elements true l ys) (clean_step-up k w n)
    ∙ sym (clean_elements-append kept xs ys)

-- path.Clean keeps the same elements of two spellings.
pub clean_elements-Noise :
    {vs ws : List Text} → Noise vs ws → clean_elements true [] vs ≡ clean_elements true [] ws
clean_elements-Noise same = refl
clean_elements-Noise (add_empty xs ys n) =
    clean_elements-skip [] xs ys [] clean_step-empty ∙ clean_elements-Noise n
clean_elements-Noise (add_dot xs ys n) =
    clean_elements-skip [] xs ys dot clean_step-dot ∙ clean_elements-Noise n
clean_elements-Noise (add_detour xs ys w name n) =
    clean_elements-detour [] xs ys w name ∙ clean_elements-Noise n

-- The elements of a path with its leading slash trimmed and put back.
elements-slash :
    (p : Text)
    → clean_elements true [] (split b'/' (b'/' ∷ trim_prefix p (codes "/")))
      ≡ clean_elements true [] (split b'/' p)
unfolding split trim_prefix clean_elements
elements-slash [] = refl
elements-slash (c ∷ p) = elim (Bool-cases (c == b'/')) [ inl e ↦ rw e | inr e ↦ rw (e, e) ]

-- canon_path reads its argument only through the elements that are kept and the last slash.
with_slash : Bool → Text → Text
with_slash last p = if last && not (has_suffix p (codes "/")) then p ++ codes "/" else p

abbrev of_elements : Bool → List Text → Text
of_elements last ws = with_slash last (b'/' ∷ join_slash (reverse ws))

canon_path-elements :
    (p : Text)
    → canon_path p
      ≡ of_elements
          (has_suffix p (codes "/"))
          (clean_elements true [] (split b'/' (b'/' ∷ trim_prefix p (codes "/"))))
unfolding canon_path with_slash clean
canon_path-elements p = refl

-- Two spellings of one path with the same last slash have one canonical path.
pub canon_path-Noise :
    (p q : Text)
    → Noise (split b'/' p) (split b'/' q)
    → has_suffix p (codes "/") ≡ has_suffix q (codes "/")
    → canon_path p ≡ canon_path q
canon_path-Noise p q n last =
    canon_path-elements p
    ∙ ap (of_elements (has_suffix p (codes "/")))
        (elements-slash p ∙ clean_elements-Noise n ∙ sym (elements-slash q))
    ∙ ap
        (λ b.
          of_elements b (clean_elements true [] (split b'/' (b'/' ∷ trim_prefix q (codes "/")))))
        last
    ∙ sym (canon_path-elements q)
