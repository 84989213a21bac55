-- ===== src/Protocol/Mail/Laws.antt =====
-- Deliver and PickUp of internal/protocol/maildir.go: what a call leaves, whether it fails or not.
use mathlib.Core.List.{tail}
use iceclimber.Common.{
  ◌≡◌, refl, sym, ap, ◌∙◌, ◌⊎◌, inl, inr, Bool, true, false, Option, none, some, List, [], ◌∷◌,
  arith, take, if◌then◌else◌,
}
use iceclimber.Common.Result.{Result, ok, err}
use iceclimber.Common.Text.{Text, text_eq, text_eq_refl}
use iceclimber.Common.{Bool-cases}
use iceclimber.Common.Boxes.{Box, lookup, put, remove, is_some, lookup-put, lookup-remove}
use iceclimber.Protocol.Mail.{
  Folder, outbox_tmp, outbox_new, outbox_cur, inbox_tmp, inbox_new, inbox_cur, Tree, Slot, outbox,
  inbox, tmp_of, new_of, same_folder, set_box, FsError, transport, missing, Link, Call, attempt,
  write_file, move, deliver, attempt_with, Fate, passes, lost, unanswered, torn, write_with,
  after_write, ◌>>=◌,
}

abbrev continue : {A B : Type 0} → (A → Call B) → Result FsError A × Link → Result FsError B × Link
continue f (r, l) = elim r [ ok a ↦ f a l | err e ↦ (err e, l) ]

-- A block whose first call is known to pass, or to fail.
pub bind_ok :
    {A B : Type 0} (m : Call A) (f : A → Call B) (a : A) (l l' : Link)
    → m l ≡ (ok a, l')
    → (m >>= f) l ≡ f a l'
bind_ok m f a l l' e = ap (continue f) e

pub bind_err :
    {A B : Type 0} (m : Call A) (f : A → Call B) (x : FsError) (l l' : Link)
    → m l ≡ (err x, l')
    → (m >>= f) l ≡ (err x, l')
bind_err m f x l l' e = ap (continue f) e

-- a call that reports an error, though it may have been carried out
abbrev pub Unsure :
    {A : Type 0} → (Tree → Result FsError A × Tree) → Link → Result FsError A × Link → Type 0
Unsure body l r =
    (l' : Link) × (r ≡ (err transport, l')) × ((l'.tree ≡ l.tree) ⊎ (l'.tree ≡ (body l.tree).1))

abbrev done : {A : Type 0} → (Tree → Result FsError A × Tree) → Link → Result FsError A × Link
done body l = ((body l.tree).0, record { tree = (body l.tree).1; fates = tail l.fates })

attempt_with-cases :
    {A : Type 0} (ds : List Fate) (body : Tree → Result FsError A × Tree) (t : Tree)
    → Unsure body (record { tree = t; fates = ds }) (attempt_with ds body t)
      ⊎ (attempt_with ds body t ≡ done body (record { tree = t; fates = ds }))
unfolding attempt_with
attempt_with-cases [] body t = inr refl
attempt_with-cases (lost ∷ ds) body t = inl (record { tree = t; fates = ds }, refl, inl refl)
attempt_with-cases (unanswered ∷ ds) body t =
    inl (record { tree = (body t).1; fates = ds }, refl, inr refl)
attempt_with-cases (torn n ∷ ds) body t = inl (record { tree = t; fates = ds }, refl, inl refl)
attempt_with-cases (passes ∷ ds) body t = inr refl

-- A call reports an error, carried out or not, or its body is done.
pub attempt-cases :
    {A : Type 0} (body : Tree → Result FsError A × Tree) (l : Link)
    → Unsure body l (attempt body l) ⊎ (attempt body l ≡ done body l)
unfolding attempt
attempt-cases body l = attempt_with-cases l.fates body l.tree

-- A file of a tree.
abbrev pub file : Tree → Folder → Text → Option Text
file t f k = lookup k (t f)

pub same_folder→eq : (f g : Folder) → same_folder f g ≡ true → f ≡ g
same_folder→eq outbox_tmp outbox_tmp h = refl
same_folder→eq outbox_new outbox_new h = refl
same_folder→eq outbox_cur outbox_cur h = refl
same_folder→eq inbox_tmp inbox_tmp h = refl
same_folder→eq inbox_new inbox_new h = refl
same_folder→eq inbox_cur inbox_cur h = refl
same_folder→eq _ _ h = absurd (cc)

same_self : (f : Folder) → same_folder f f ≡ true
same_self f = ground arith

tmp_ne_new : (m : Slot) → same_folder (tmp_of m) (new_of m) ≡ false
tmp_ne_new outbox = refl
tmp_ne_new inbox = refl

-- A lookup after one box was replaced.
file-set_box :
    (t : Tree) (f g : Folder) (b : Box) (k : Text)
    → file (set_box f b t) g k ≡ (if same_folder f g then lookup k b else file t g k)
file-set_box t f g b k = elim (Bool-cases (same_folder f g)) [ inl e ↦ rw e | inr e ↦ rw e ]

pub file-put :
    (t : Tree) (f g : Folder) (n k s : Text)
    → file (set_box f (put n s (t f)) t) g k
      ≡ (if same_folder f g then (if text_eq n k then some s else file t f k) else file t g k)
file-put t f g n k s =
    file-set_box t f g (put n s (t f)) k
    ∙ ap (λ x. if same_folder f g then x else file t g k) (lookup-put n k s (t f))

pub file-remove :
    (t : Tree) (f g : Folder) (n k : Text)
    → file (set_box f (remove n (t f)) t) g k
      ≡ (if same_folder f g then (if text_eq n k then none else file t f k) else file t g k)
file-remove t f g n k =
    file-set_box t f g (remove n (t f)) k
    ∙ ap (λ x. if same_folder f g then x else file t g k) (lookup-remove n k (t f))

abbrev after_move : Folder → Folder → Text → Text → Tree → Tree
after_move from to n s t = set_box to (put n s (t to)) (set_box from (remove n (t from)) t)

-- A write that fails has done nothing, or has left a part of the file.
abbrev Failed : Folder → Text → Link → Result FsError (Unit {0}) × Link → Type 0
Failed f n l r =
    (l' : Link) × (r ≡ (err transport, l'))
    × ((l'.tree ≡ l.tree) ⊎ ((part : Text) × (l'.tree ≡ after_write f n part l.tree)))

write_with-cases :
    (ds : List Fate) (f : Folder) (n s : Text) (t : Tree)
    → Failed f n (record { tree = t; fates = ds }) (write_with ds f n s t)
      ⊎ (write_with ds f n s t ≡ (ok tt, record { tree = after_write f n s t; fates = tail ds }))
unfolding write_with
write_with-cases [] f n s t = inr refl
write_with-cases (lost ∷ ds) f n s t = inl (record { tree = t; fates = ds }, refl, inl refl)
write_with-cases (unanswered ∷ ds) f n s t =
    inl (record { tree = after_write f n s t; fates = ds }, refl, inr (s, refl))
write_with-cases (torn k ∷ ds) f n s t =
    inl (record { tree = after_write f n (take k s) t; fates = ds }, refl, inr (take k s, refl))
write_with-cases (passes ∷ ds) f n s t = inr refl

pub write_file-cases :
    (f : Folder) (n s : Text) (l : Link)
    → Failed f n l (write_file f n s l)
      ⊎ (write_file f n s l
          ≡ (ok tt, record { tree = after_write f n s l.tree; fates = tail l.fates }))
unfolding write_file
write_file-cases f n s l = write_with-cases l.fates f n s l.tree

move_body : Folder → Folder → Text → Tree → Result FsError (Unit {0}) × Tree
move_body from to name t = elim (lookup name (t from)) [
  | none ↦ (err missing, t)
  | some s ↦ (ok tt, after_move from to name s t)
]

move_body-found :
    (from to : Folder) (n s : Text) (t : Tree)
    → file t from n ≡ some s
    → move_body from to n t ≡ (ok tt, after_move from to n s t)
unfolding move_body
move_body-found from to n s t h = rw (h, move_body)

pub move-cases :
    (from to : Folder) (n s : Text) (l : Link)
    → file l.tree from n ≡ some s
    → ((l' : Link) × (move from to n l ≡ (err transport, l'))
        × ((l'.tree ≡ l.tree) ⊎ (l'.tree ≡ after_move from to n s l.tree)))
      ⊎ (move from to n l
          ≡ (ok tt, record { tree = after_move from to n s l.tree; fates = tail l.fates }))
move-cases from to n s l h = elim (attempt-cases (move_body from to n) l) [
  | inl (l', e, q) ↦ inl (
    l',
    opened ∙ e,
    elim q [
      | inl a ↦ inl a
      | inr a ↦ inr (a ∙ ap (λ r. r.1) (move_body-found from to n s l.tree h))
    ],
  )
  | inr e ↦ inr (opened ∙ e ∙ ap with_fates (move_body-found from to n s l.tree h))
]
  where
    opened : move from to n l ≡ attempt (move_body from to n) l
    opened = unfold move move_body in refl

    with_fates : Result FsError (Unit {0}) × Tree → Result FsError (Unit {0}) × Link
    with_fates (r, t) = (r, record { tree = t; fates = tail l.fates })

-- A move seen from the folders that it does not move from.
pub file-move :
    (from to g : Folder) (n s k : Text) (t : Tree)
    → same_folder from to ≡ false
    → same_folder from g ≡ false
    → file (after_move from to n s t) g k
      ≡ (if same_folder to g then (if text_eq n k then some s else file t g k) else file t g k)
file-move from to g n s k t h h' =
    let t₁ = set_box from (remove n (t from)) t in
    let at_to : file t₁ to k ≡ file t to k = file-remove t from to n k ∙ rw h in
    let at_g : file t₁ g k ≡ file t g k = file-remove t from g n k ∙ rw h' in
    let base : (set_box to (put n s (t to)) t₁) g ≡ (set_box to (put n s (t₁ to)) t₁) g =
      ap (λ (b : Box). if same_folder to g then put n s b else t₁ g) (sym (rw h)) in
    elim (Bool-cases (same_folder to g)) [
      | inl e ↦
          let q : to ≡ g = same_folder→eq to g e in
          file-set_box t₁ to g (put n s (t to)) k
          ∙ rw e (
              lookup-put n k s (t to)
              ∙ ap (λ (f : Folder). if text_eq n k then some s else file t f k) q)
      | inr e ↦ file-set_box t₁ to g (put n s (t to)) k ∙ rw e at_g
    ]

deliver-eq :
    (m : Slot) (name s : Text) (l : Link)
    → deliver m name s l ≡ (write_file (tmp_of m) name s >>= λ _. move (tmp_of m) (new_of m) name) l
unfolding deliver
deliver-eq m name s l = refl

-- The ways in which Deliver can end: with an error, before or after its file stands in `new`, or
-- without one.
pub deliver-cases :
    (m : Slot) (name s : Text) (l : Link)
    → ((l' : Link) × (deliver m name s l ≡ (err transport, l'))
        × ((l'.tree ≡ l.tree)
            ⊎ ((part : Text) × (l'.tree ≡ after_write (tmp_of m) name part l.tree))
            ⊎ (l'.tree
                ≡ after_move (tmp_of m) (new_of m) name s (after_write (tmp_of m) name s l.tree))))
      ⊎ ((l' : Link) × (deliver m name s l ≡ (ok tt, l'))
          × (l'.tree
              ≡ after_move (tmp_of m) (new_of m) name s (after_write (tmp_of m) name s l.tree)))
deliver-cases m name s l = elim (write_file-cases (tmp_of m) name s l) [
  | inl (l', e, q) ↦ inl (
    l',
    deliver-eq m name s l ∙ bind_err (write_file (tmp_of m) name s) rest transport l l' e,
    elim q [ inl a ↦ inl a | inr a ↦ inr (inl a) ],
  )
  | inr e ↦
      let l₁ : Link = record {
        tree = after_write (tmp_of m) name s l.tree;
        fates = tail l.fates;
      } in
      elim (move-cases (tmp_of m) (new_of m) name s l₁ (
        file-put l.tree (tmp_of m) (tmp_of m) name name s
        ∙ rw (same_self (tmp_of m), text_eq_refl name))) [
          | inl (l₂, f, q) ↦ inl (
            l₂,
            deliver-eq m name s l ∙ bind_ok (write_file (tmp_of m) name s) rest tt l l₁ e ∙ f,
            elim q [ inl a ↦ inr (inl (s, a)) | inr a ↦ inr (inr a) ],
          )
          | inr f ↦ inr (
            record {
              tree = after_move (tmp_of m) (new_of m) name s l₁.tree;
              fates = tail l₁.fates;
            },
            deliver-eq m name s l ∙ bind_ok (write_file (tmp_of m) name s) rest tt l l₁ e ∙ f,
            refl,
          )
        ]
]
  where
    rest : Unit {0} → Call Unit
    rest _ = move (tmp_of m) (new_of m) name

-- What stands under a name of `g` after the file was delivered to the folder `new`.
abbrev pub delivered : Folder → Text → Text → Tree → Folder → Text → Option Text
delivered new name s t g k =
    if same_folder new g then (if text_eq name k then some s else file t g k) else file t g k

-- Deliver is all or nothing, wherever the link drops it, in the middle of a write too. Outside of
-- `tmp`, the tree after it is, in every file, the tree before it or that tree with the whole text
-- under its name in `new`, and it is the latter where Deliver reports no error. (Where it reports
-- one, it may be either: an answer can be lost after the rename.) A file in `new` is never a part of
-- what was to be delivered.
pub deliver_atomic :
    (m : Slot) (name s : Text) (l : Link)
    → ((g : Folder) (k : Text)
        → same_folder (tmp_of m) g ≡ false
        → file (deliver m name s l).1.tree g k ≡ delivered (new_of m) name s l.tree g k)
      ⊎ ((x : FsError) × ((deliver m name s l).0 ≡ err x)
          × ((g : Folder) (k : Text)
              → same_folder (tmp_of m) g ≡ false
              → file (deliver m name s l).1.tree g k ≡ file l.tree g k))
deliver_atomic m name s l = elim (deliver-cases m name s l) [
  | inl (l', e, inl q) ↦
      inr (transport, ap (λ r. r.0) e, λ g k h. rw e (ap (λ (t : Tree). file t g k) q))
  | inl (l', e, inr (inl (part, q))) ↦ inr (
    transport,
    ap (λ r. r.0) e,
    λ g k h. rw e (ap (λ (t : Tree). file t g k) q ∙ unwritten g k h part),
  )
  | inl (l', e, inr (inr q)) ↦ inl (λ g k h. rw e (ap (λ (t : Tree). file t g k) q ∙ whole g k h))
  | inr (l', e, q) ↦ inl (λ g k h. rw e (ap (λ (t : Tree). file t g k) q ∙ whole g k h))
]
  where
    unwritten :
        (g : Folder) (k : Text)
        → same_folder (tmp_of m) g ≡ false
        → (part : Text) → file (after_write (tmp_of m) name part l.tree) g k ≡ file l.tree g k
    unwritten g k h part = file-put l.tree (tmp_of m) g name k part ∙ rw h

    whole :
        (g : Folder) (k : Text)
        → same_folder (tmp_of m) g ≡ false
        → file (after_move (tmp_of m) (new_of m) name s (after_write (tmp_of m) name s l.tree)) g k
          ≡ delivered (new_of m) name s l.tree g k
    whole g k h =
        file-move (tmp_of m) (new_of m) g name s k (after_write (tmp_of m) name s l.tree)
          (tmp_ne_new m) h
        ∙ ap
            (λ (x : Option Text).
              if same_folder (new_of m) g then (if text_eq name k then some s else x) else x)
            (unwritten g k h s)

-- A delivery without an error.
pub deliver-ok :
    (m : Slot) (name s : Text) (l l' : Link) (g : Folder) (k : Text)
    → deliver m name s l ≡ (ok tt, l')
    → same_folder (tmp_of m) g ≡ false
    → file l'.tree g k ≡ delivered (new_of m) name s l.tree g k
deliver-ok m name s l l' g k d h = elim (deliver_atomic m name s l) [
  | inl all ↦ rw d at (all g k h)
  | inr (x, e, same) ↦ absurd (cc (d, e))
]

-- A file that is there stays there through a delivery, or makes room for the whole new one.
pub deliver-present :
    (m : Slot) (name s : Text) (l : Link) (g : Folder) (k : Text)
    → same_folder (tmp_of m) g ≡ false
    → is_some (file l.tree g k) ≡ true
    → is_some (file (deliver m name s l).1.tree g k) ≡ true
deliver-present m name s l g k t h = elim (deliver_atomic m name s l) [
  | inl all ↦ ap is_some (all g k t) ∙ by_place (same_folder (new_of m) g) (text_eq name k)
  | inr (x, e, same) ↦ ap is_some (same g k t) ∙ h
]
  where
    by_place :
        (a b : Bool)
        → is_some (if a then (if b then some s else file l.tree g k) else file l.tree g k) ≡ true
    by_place true true = refl
    by_place true false = h
    by_place false b = h
