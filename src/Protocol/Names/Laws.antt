-- ===== src/Protocol/Names/Laws.antt =====
-- Which names validRequestName accepts.
use mathlib.Core.List.{reverse, reverse-reverse, reverse-cons}
use mathlib.Core.Bool.{false≢true}
use iceclimber.Common.{
  ℕ, ◌≡◌, ◌≢◌, refl, sym, ap, ◌∙◌, ◌↔◌, Bool, true, false, not, ◌&&◌, ◌||◌, [], ◌∷◌, ◌++◌, arith,
  ◌==◌,
}
use iceclimber.Common.Text.{
  Text, codes, text_eq, text_eq_iff, text_eq_ne, has_suffix, has_suffix_of_eq, split, contains_byte,
  trim_right_byte, take-eq_of_append,
}
use iceclimber.Common.Text.Space.{drop_while}
use iceclimber.Common.Slash.{base}
use iceclimber.Protocol.Names.{extension, valid_request_name, request_name, id_from_name}

contains_byte-append :
    (s t : Text) (c : ℕ) → contains_byte (s ++ t) c ≡ (contains_byte s c || contains_byte t c)
unfolding contains_byte
contains_byte-append [] t c = refl
contains_byte-append (x ∷ s) t c = ground (arith, contains_byte-append s t c)

-- A text with no slash is one part.
split_no_slash : (s : Text) → contains_byte s b'/' ≡ false → split b'/' s ≡ s ∷ []
unfolding split contains_byte
split_no_slash [] h = refl
split_no_slash (x ∷ s) h = ground (arith, split_no_slash s)

contains_byte-reverse : (s : Text) (c : ℕ) → contains_byte (reverse s) c ≡ contains_byte s c
unfolding contains_byte
contains_byte-reverse [] c = refl
contains_byte-reverse (x ∷ s) c =
    rw (reverse-cons x s, contains_byte-append (reverse s) (x ∷ []) c, contains_byte-reverse s c)
      (ground arith)

drop_while_slash : (s : Text) → contains_byte s b'/' ≡ false → drop_while (λ x. x == b'/') s ≡ s
unfolding drop_while contains_byte
drop_while_slash [] h = refl
drop_while_slash (x ∷ s) h = ground arith

trim_right_slash : (s : Text) → contains_byte s b'/' ≡ false → trim_right_byte s b'/' ≡ s
unfolding trim_right_byte
trim_right_slash s h =
    rw (drop_while_slash (reverse s) (contains_byte-reverse s b'/' ∙ h)) (reverse-reverse s)

-- path.Base of a name is the name.
base_no_slash : (s : Text) → s ≢ [] → contains_byte s b'/' ≡ false → base s ≡ s
base_no_slash s n h =
    let a = text_eq_ne s [] n in
    let t = trim_right_slash s h in unfold base in rw (a, t, a, split_no_slash s h)

valid_tests :
    (name : Text)
    → valid_request_name name ≡ (
        not (text_eq name [])
        && (not (text_eq name (codes "."))
            && (not (text_eq name (codes ".."))
                && (text_eq name (base name)
                    && (not (contains_byte name b'/') && has_suffix name extension)))))
unfolding valid_request_name
valid_tests name = refl

-- validRequestName accepts exactly the names that end in ".json" and hold no slash: never a path
-- that leads to another folder.
pub valid_request_name_iff :
    (name : Text)
    → (valid_request_name name ≡ true)
      ↔ ((contains_byte name b'/' ≡ false) × (has_suffix name extension ≡ true))
valid_request_name_iff name = (
  λ h.
      needs (text_eq name []) (text_eq name (codes ".")) (text_eq name (codes ".."))
        (text_eq name (base name)) (contains_byte name b'/') (has_suffix name extension)
        (sym (valid_tests name) ∙ h),
  λ (slash, suffix).
      let n : (w : Text) → has_suffix w extension ≡ false → text_eq name w ≡ false = λ w no.
        text_eq_ne name w
          (λ e. false≢true (sym no ∙ ap (λ t. has_suffix t extension) (sym e) ∙ suffix)) in
      let a = n [] (unfold has_suffix in refl) in
      let b = n (codes ".") (unfold has_suffix in refl) in
      let c = n (codes "..") (unfold has_suffix in refl) in
      let not_nil : name ≢ [] = λ e. false≢true (sym a ∙ (text_eq_iff name []).1 e) in
      let d = (text_eq_iff name (base name)).1 (sym (base_no_slash name not_nil slash)) in
      valid_tests name ∙ rw (a, b, c, d, slash, suffix),
)
  where
    needs :
        (a b c d e f : Bool)
        → (not a && (not b && (not c && (d && (not e && f))))) ≡ true
        → (e ≡ false) × (f ≡ true)
    needs a b c d e f h = ground arith

-- A request's file name gives its id back, and is valid if the id holds no slash.
pub id_from_name-request_name :
    (id : Text)
    → (id_from_name (request_name id) ≡ id)
      × (contains_byte id b'/' ≡ false → valid_request_name (request_name id) ≡ true)
id_from_name-request_name id =
    let suffix = has_suffix_of_eq (request_name id) id extension (unfold request_name in refl) in
    let front = take-eq_of_append (request_name id) id extension (unfold request_name in refl) in
    (
      unfold id_from_name in rw suffix front,
      λ no_slash. (valid_request_name_iff (request_name id)).1 (
        unfold request_name in
            (contains_byte-append id extension b'/'
              ∙ ap (λ b. b || contains_byte extension b'/') no_slash
              ∙ unfold contains_byte in refl),
        suffix,
      ),
    )
