-- ===== src/Protocol/Layout/Blobs.antt =====
-- BlobRef of internal/wire/wire.go.
use mathlib.Core.List.{append_assoc}
use iceclimber.Common.{
  ◌≡◌, refl, sym, ap, ◌∙◌, List, [], ◌∷◌, ◌++◌, All, false, drop-append_length, arith,
}
use iceclimber.Common.Text.{Text, codes, trim_prefix, has_prefix, contains_byte}
use iceclimber.Common.Text.Prefix.{has_prefix-append}
use iceclimber.Common.Slash.{join, join_slash, clean, non_empty}
use iceclimber.Common.Slash.Components.{
  Component, path_of, join-component, join-trailing, clean-path_of, All-last, append-join_slash,
}
use iceclimber.Protocol.Layout.{protocol_dir, blobs_dir, blob_path, blob_ref, below}

trim_prefix-append : (p t : Text) → trim_prefix (p ++ t) p ≡ t
unfolding trim_prefix
trim_prefix-append p t = rw (has_prefix-append p t) (drop-append_length p t)

has_prefix-append_both : (p s t : Text) → has_prefix (p ++ s) (p ++ t) ≡ has_prefix s t
unfolding has_prefix
has_prefix-append_both [] s t = refl
has_prefix-append_both (c ∷ p) s t = ground (arith, has_prefix-append_both p s t)

abbrev protocol : Text
protocol = codes "protocol"

abbrev blobs : Text
blobs = codes "blobs"

-- A name that is written out is a component.
protocol-Component : Component protocol
protocol-Component = record {
  not_empty = λ e. cc;
  not_dot = λ e. cc;
  not_dot_dot = λ e. cc;
  no_slash = unfold contains_byte in refl;
}

blobs-Component : Component blobs
blobs-Component = record {
  not_empty = λ e. cc;
  not_dot = λ e. cc;
  not_dot_dot = λ e. cc;
  no_slash = unfold contains_byte in refl;
}

-- From the protocol's directory on, the paths are the same for both spellings of the root.
below_protocol :
    (root : Text) (w : Text) (ws : List Text) (name : Text)
    → All Component (w ∷ ws)
    → Component name
    → protocol_dir root ≡ path_of ((w ∷ ws) ++ protocol ∷ [])
    → blob_path root name ≡ path_of ((w ∷ ws) ++ protocol ∷ blobs ∷ name ∷ [])
unfolding blob_path blobs_dir
below_protocol root w ws name h c e =
    ap (λ t. below (below t blobs) name) e
    ∙ ap (λ t. below t name) (join-component w (ws ++ protocol ∷ []) blobs h₁ blobs-Component)
    ∙ join-component w ((ws ++ protocol ∷ []) ++ blobs ∷ []) name h₂ c
    ∙ ap (λ vs. path_of (w ∷ vs))
        (append_assoc (ws ++ protocol ∷ []) (blobs ∷ []) (name ∷ [])
          ∙ append_assoc ws (protocol ∷ []) (blobs ∷ name ∷ []))
  where
    h₁ : All Component (w ∷ (ws ++ protocol ∷ []))
    h₁ = All-last (w ∷ ws) protocol h protocol-Component

    h₂ : All Component (w ∷ ((ws ++ protocol ∷ []) ++ blobs ∷ []))
    h₂ = All-last (w ∷ (ws ++ protocol ∷ [])) blobs h₁ blobs-Component

module _ (w : Text) (ws : List Text) (name : Text) (h : All Component (w ∷ ws))
    (c : Component name) where
  abbrev root : Text
  root = path_of (w ∷ ws)

  abbrev reference : Text
  reference = codes "protocol/blobs/" ++ name

  spelled : path_of ((w ∷ ws) ++ protocol ∷ blobs ∷ name ∷ []) ≡ root ++ b'/' ∷ reference
  spelled =
      unfold join_slash in ap (λ t. b'/' ∷ t) (append-join_slash w ws protocol (blobs ∷ name ∷ []))

  at_root : blob_path root name ≡ path_of ((w ∷ ws) ++ protocol ∷ blobs ∷ name ∷ [])
  at_root =
      below_protocol root w ws name h c
        (unfold protocol_dir in join-component w ws protocol h protocol-Component)

  at_trailing :
      blob_path (root ++ b'/' ∷ []) name ≡ path_of ((w ∷ ws) ++ protocol ∷ blobs ∷ name ∷ [])
  at_trailing =
      below_protocol (root ++ b'/' ∷ []) w ws name h c
        (unfold protocol_dir in join-trailing w ws protocol h protocol-Component)

  relative : blob_ref root name ≡ reference
  relative =
      unfold blob_ref in
      ap (λ p. trim_prefix p (root ++ b'/' ∷ []))
        (at_root ∙ spelled ∙ sym (append_assoc root (b'/' ∷ []) reference))
      ∙ trim_prefix-append (root ++ b'/' ∷ []) reference

  rejoined : join (root ∷ reference ∷ []) ≡ blob_path root name
  rejoined =
      opened
      ∙ ap clean (sym spelled)
      ∙ clean-path_of w (ws ++ protocol ∷ blobs ∷ name ∷ []) (all_of (w ∷ ws) h)
      ∙ sym at_root
    where
      opened : join (root ∷ reference ∷ []) ≡ clean (root ++ b'/' ∷ reference)
      opened = unfold join non_empty join_slash in refl

      all_of :
          (vs : List Text) → All Component vs → All Component (vs ++ protocol ∷ blobs ∷ name ∷ [])
      all_of [] a = (protocol-Component, (blobs-Component, (c, tt)))
      all_of (v ∷ vs) a = (a.0, all_of vs a.1)

  whole : blob_ref (root ++ b'/' ∷ []) name ≡ blob_path root name
  whole =
      unfold blob_ref in
      ap (λ p. trim_prefix p ((root ++ b'/' ∷ []) ++ b'/' ∷ [])) (at_trailing ∙ spelled)
      ∙ kept
      ∙ sym (at_root ∙ spelled)
    where
      other : has_prefix (root ++ b'/' ∷ reference) ((root ++ b'/' ∷ []) ++ b'/' ∷ []) ≡ false
      other =
          ap (has_prefix (root ++ b'/' ∷ reference)) (append_assoc root (b'/' ∷ []) (b'/' ∷ []))
          ∙ has_prefix-append_both root (b'/' ∷ reference) (b'/' ∷ b'/' ∷ [])
          ∙ unfold has_prefix in refl

      kept :
          trim_prefix (root ++ b'/' ∷ reference) ((root ++ b'/' ∷ []) ++ b'/' ∷ [])
          ≡ root ++ b'/' ∷ reference
      kept = unfold trim_prefix in rw other

-- The reference that is published for a blob, where the root is an absolute path of one element or
-- more, no element and not the blob's name being empty, `.`, `..` or with a slash in it. The reference
-- is the way from the root to the blob: joined to the root it is the blob. With the same root and a
-- slash at its end the blob is the same file, but the reference is the whole path of the blob.
pub blob_ref-path :
    (w : Text) (ws : List Text) (name : Text)
    → All Component (w ∷ ws)
    → Component name
    → (blob_ref (path_of (w ∷ ws)) name ≡ codes "protocol/blobs/" ++ name)
      × (join (path_of (w ∷ ws) ∷ blob_ref (path_of (w ∷ ws)) name ∷ [])
          ≡ blob_path (path_of (w ∷ ws)) name)
      × (blob_path (path_of (w ∷ ws) ++ codes "/") name ≡ blob_path (path_of (w ∷ ws)) name)
      × (blob_ref (path_of (w ∷ ws) ++ codes "/") name ≡ blob_path (path_of (w ∷ ws)) name)
blob_ref-path w ws name h c = (
  relative w ws name h c,
  ap (λ t. join (path_of (w ∷ ws) ∷ t ∷ [])) (relative w ws name h c) ∙ rejoined w ws name h c,
  at_trailing w ws name h c ∙ sym (at_root w ws name h c),
  whole w ws name h c,
)
