-- ===== src/Protocol/Drain/Pickup.antt =====
-- PickUp of internal/protocol/maildir.go on the outbox.
use mathlib.Core.List.{tail}
use iceclimber.Common.{◌≡◌, refl, ap, ◌⊎◌, inl, inr, Option, none, some}
use iceclimber.Common.Result.{Result, ok, err}
use iceclimber.Common.Text.{Text}
use iceclimber.Common.Boxes.{lookup, put, remove}
use iceclimber.Protocol.Mail.{
  outbox_new, outbox_cur, inbox_new, inbox_cur, outbox, set_box, FsError, transport, missing, Tree,
  Link, move, pick_up,
}
use iceclimber.Protocol.Mail.Laws.{file, attempt-cases}

abbrev pub Failed : Link → Result {0, 0} FsError Unit × Link → Type 0
Failed l r = (e : FsError) × (r.0 ≡ err e)

abbrev pub Moved : Text → Link → Result {0, 0} FsError Unit × Link → Type 0
Moved name l r =
    (s : Text) × (r.0 ≡ ok tt)
    × (file l.tree outbox_new name ≡ some s)
    × (r.1.tree outbox_new ≡ remove name (l.tree outbox_new))
    × (r.1.tree inbox_new ≡ l.tree inbox_new)
    × (r.1.tree inbox_cur ≡ l.tree inbox_cur)

abbrev moved_tree : Text → Tree → Option Text → Result {0, 0} FsError Unit × Tree
moved_tree name t o = elim o [
  | none ↦ (err missing, t)
  | some s ↦ (
    ok tt,
    set_box outbox_cur (put name s (t outbox_cur))
        (set_box outbox_new (remove name (t outbox_new)) t),
  )
]

-- A pickup reports an error, or it takes the file out of outbox/new and leaves the answers as they
-- were.
pub pick_up-cases :
    (name : Text) (l : Link)
    → Failed l (pick_up outbox name l) ⊎ Moved name l (pick_up outbox name l)
unfolding pick_up move
pick_up-cases name l =
    elim (attempt-cases (λ (t : Tree). moved_tree name t (lookup name (t outbox_new))) l) [
      | inl (l', e, _) ↦ inl (transport, ap (λ r. r.0) e)
      | inr e ↦ by_content (lookup name (l.tree outbox_new)) refl (pick_up outbox name l) e
    ]
  where
    by_content :
        (o : Option Text)
        → lookup name (l.tree outbox_new) ≡ o
        → (r : Result {0, 0} FsError Unit × Link)
        → r ≡ (
          (moved_tree name l.tree o).0,
          record { tree = (moved_tree name l.tree o).1; fates = tail l.fates },
        )
        → Failed l r ⊎ Moved name l r
    by_content none h r e = inl (missing, ap (λ x. x.0) e)
    by_content (some s) h r e = inr (
      s,
      ap (λ x. x.0) e,
      h,
      ap (λ x. x.1.tree outbox_new) e,
      ap (λ x. x.1.tree inbox_new) e,
      ap (λ x. x.1.tree inbox_cur) e,
    )
