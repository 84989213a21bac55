-- ===== src/Protocol/Status/Published.antt =====
-- A file that is written aside and renamed is replaced whole or not at all, and certainly replaced
-- where no error is reported.
use iceclimber.Common.{
  ◌≡◌, refl, sym, ap, ◌∙◌, subst, ◌⊎◌, inl, inr, false, some, List, take, length, length-append,
  arith,
}
use iceclimber.Common.Result.{ok, err}
use iceclimber.Common.Text.{Text, codes, text_eq, text_eq_refl, text_eq_ne}
use iceclimber.Common.Boxes.{Box, lookup, put, remove, lookup-put}
use iceclimber.Protocol.Mail.{Fate, passes, lost, unanswered, torn, FsError, transport}
use iceclimber.Protocol.Status.{
  Shelf, Reply, fate_of, fates_behind, write_shelf, rename_found, rename_shelf, tmp_name,
  rename_written, publish_file,
}

-- What becomes of a file that is replaced.
pub record Replaced (name s : Text) (before : Box) (o : Reply Unit) : Type 0 where
  pub written : o.0 ≡ ok tt → lookup name o.1.files ≡ some s
  pub kept :
      (e : FsError)
      → o.0 ≡ err e
      → (lookup name o.1.files ≡ lookup name before) ⊎ (lookup name o.1.files ≡ some s)

module _ (name s : Text) where
  apart : text_eq (tmp_name name) name ≡ false
  apart = text_eq_ne (tmp_name name) name (λ e.
      let n = ap length e in let m = length-append name (codes ".tmp") in absurd (omega arith))

  aside : (t : Text) (m : Box) → lookup name (put (tmp_name name) t m) ≡ lookup name m
  aside t m = lookup-put (tmp_name name) name t m ∙ rw apart

  failed :
      (before : Box) (e : FsError) (l : Shelf)
      → lookup name l.files ≡ lookup name before
      → Replaced name s before (err e, l)
  failed before e l same = record { written = λ q. absurd (cc); kept = λ x q. inl same }

  renamed :
      (before : Box) (l : Shelf)
      → lookup (tmp_name name) l.files ≡ some s
      → lookup name l.files ≡ lookup name before
      → Replaced name s before (rename_shelf (tmp_name name) name l)
  unfolding rename_shelf
  renamed before l at same = go (fate_of l.fates)
    where
      behind : Shelf
      behind = record l { fates = fates_behind l.fates }

      branch : Fate → Reply Unit
      branch f = elim f [
        | passes ↦ rename_found (tmp_name name) name (lookup (tmp_name name) l.files) behind
        | unanswered ↦ (
          err transport,
          (rename_found (tmp_name name) name (lookup (tmp_name name) l.files) behind).1,
        )
        | _ ↦ (err transport, behind)
      ]

      moved : Reply Unit
      moved = (ok tt, record behind { files = put name s (remove (tmp_name name) l.files) })

      found : rename_found (tmp_name name) name (lookup (tmp_name name) l.files) behind ≡ moved
      found =
          ap (λ o. rename_found (tmp_name name) name o behind) at ∙ (unfold rename_found in refl)

      placed : lookup name moved.1.files ≡ some s
      placed = lookup-put name name s (remove (tmp_name name) l.files) ∙ rw (text_eq_refl name)

      go : (f : Fate) → Replaced name s before (branch f)
      go lost = failed before transport behind same
      go unanswered = record {
        written = λ q. absurd (cc);
        kept = λ e q. inr (ap (λ (r : Reply (Unit {0})). lookup name r.1.files) found ∙ placed);
      }
      go (torn n) = failed before transport behind same
      go passes =
          subst (Replaced name s before) (sym found)
            (record { written = λ _. placed; kept = λ e q. absurd (cc) })

  pub publish_file-Replaced : (l : Shelf) → Replaced name s l.files (publish_file name s l)
  unfolding publish_file write_shelf
  publish_file-Replaced l = go (fate_of l.fates)
    where
      rest : List Fate
      rest = fates_behind l.fates

      with_aside : Text → Shelf
      with_aside t = record { files = put (tmp_name name) t l.files; fates = rest }

      branch : Fate → Reply Unit
      branch f = elim f [
        | passes ↦ (ok tt, with_aside s)
        | lost ↦ (err transport, record { files = l.files; fates = rest })
        | unanswered ↦ (err transport, with_aside s)
        | torn n ↦ (err transport, with_aside (take n s))
      ]

      go : (f : Fate) → Replaced name s l.files (rename_written name (branch f))
      go lost =
          unfold rename_written in
          failed l.files transport (record { files = l.files; fates = rest }) refl
      go unanswered =
          unfold rename_written in failed l.files transport (with_aside s) (aside s l.files)
      go (torn n) =
          unfold rename_written in
          failed l.files transport (with_aside (take n s)) (aside (take n s) l.files)
      go passes =
          unfold rename_written in
          renamed l.files (with_aside s)
            (lookup-put (tmp_name name) (tmp_name name) s l.files
              ∙ rw (text_eq_refl (tmp_name name)))
            (aside s l.files)
