-- ===== src/Protocol/Mail/Untouched.antt =====
-- Calls of internal/protocol that leave one folder of the maildir tree alone, whatever the link does.
use iceclimber.Common.{◌≡◌, refl, ap, ◌∙◌, inl, inr, false, Option, none, some}
use iceclimber.Common.Result.{Result, ok, err}
use iceclimber.Common.Text.{Text}
use iceclimber.Common.Boxes.{lookup, put, remove, names}
use iceclimber.Protocol.Mail.{
  Folder, Tree, Slot, tmp_of, new_of, same_folder, set_box, FsError, missing, Link, Call, attempt,
  list, read_file, write_file, move, remove_all, deliver, ignore, caught, ◌>>=◌,
}
use iceclimber.Protocol.Mail.Laws.{attempt-cases, write_file-cases, bind_ok, bind_err}

module _ (g : Folder) where
  abbrev pub Leaves : {A : Type 0} → Call A → Type 0
  Leaves m = (l : Link) → (m l).1.tree g ≡ l.tree g

  pub Leaves-bind :
      {A B : Type 0} (m : Call A) (f : A → Call B)
      → Leaves m
      → ((a : A) → Leaves (f a))
      → Leaves (m >>= f)
  Leaves-bind {A = A} m f h next l = go (m l) refl (h l)
    where
      go :
          (x : Result FsError A × Link)
          → m l ≡ x
          → x.1.tree g ≡ l.tree g
          → ((m >>= f) l).1.tree g ≡ l.tree g
      go (ok a, l') e kept = rw (bind_ok m f a l l' e) (next a l' ∙ kept)
      go (err x, l') e kept = rw (bind_err m f x l l' e) kept

  pub Leaves-attempt :
      {A : Type 0} (body : Tree → Result FsError A × Tree)
      → ((t : Tree) → (body t).1 g ≡ t g)
      → Leaves (attempt body)
  Leaves-attempt body h l = elim (attempt-cases body l) [
    | inl (l', e, inl q) ↦ rw e (ap (λ (t : Tree). t g) q)
    | inl (l', e, inr q) ↦ rw e (ap (λ (t : Tree). t g) q ∙ h l.tree)
    | inr e ↦ ap (λ r. r.1.tree g) e ∙ h l.tree
  ]

  pub Leaves-list : (f : Folder) → Leaves (list f)
  unfolding list
  Leaves-list f = Leaves-attempt (λ t. (ok (names (t f)), t)) (λ t. refl)

  pub Leaves-read_file : (f : Folder) (name : Text) → Leaves (read_file f name)
  unfolding read_file
  Leaves-read_file f name =
      Leaves-attempt (λ t. (elim (lookup name (t f)) [ none ↦ err missing | some s ↦ ok s ], t))
        (λ t. refl)

  pub Leaves-remove_all :
      (f : Folder) (name : Text) → same_folder f g ≡ false → Leaves (remove_all f name)
  unfolding remove_all
  Leaves-remove_all f name h =
      Leaves-attempt (λ t. (ok tt, set_box f (remove name (t f)) t)) (λ t. rw h)

  pub Leaves-ignore : (m : Call Unit) → Leaves m → Leaves (ignore m)
  unfolding ignore
  Leaves-ignore m h l = h l

  pub Leaves-caught : {A : Type 0} (m : Call A) → Leaves m → Leaves (caught m)
  unfolding caught
  Leaves-caught m h l = h l

  pub Leaves-write_file :
      (f : Folder) (name s : Text) → same_folder f g ≡ false → Leaves (write_file f name s)
  Leaves-write_file f name s h l = elim (write_file-cases f name s l) [
    | inl (l', e, inl q) ↦ rw e (ap (λ (t : Tree). t g) q)
    | inl (l', e, inr (part, q)) ↦ rw e (ap (λ (t : Tree). t g) q ∙ rw h)
    | inr e ↦ rw e (rw h)
  ]

  pub Leaves-move :
      (from to : Folder) (name : Text)
      → same_folder from g ≡ false
      → same_folder to g ≡ false
      → Leaves (move from to name)
  unfolding move
  Leaves-move from to name h h' = Leaves-attempt _ (λ t. by_content t (lookup name (t from)))
    where
      by_content :
          (t : Tree) (o : Option Text)
          → (elim o as (λ _. Result {0, 0} FsError Unit × Tree) [
            | none ↦ (err missing, t)
            | some s ↦
                (ok tt, set_box to (put name s (t to)) (set_box from (remove name (t from)) t))
          ]).1
              g
            ≡ t g
      by_content t none = refl
      by_content t (some s) = rw (h', h)

  pub Leaves-deliver :
      (m : Slot) (name s : Text)
      → same_folder (tmp_of m) g ≡ false
      → same_folder (new_of m) g ≡ false
      → Leaves (deliver m name s)
  unfolding deliver
  Leaves-deliver m name s h h' =
      Leaves-bind (write_file (tmp_of m) name s) (λ _. move (tmp_of m) (new_of m) name)
        (Leaves-write_file (tmp_of m) name s h) (λ _. Leaves-move (tmp_of m) (new_of m) name h h')
