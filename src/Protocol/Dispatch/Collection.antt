-- ===== src/Protocol/Dispatch/Collection.antt =====
-- Calls that leave the files of one name alone, whatever the link does.
use iceclimber.Common.{
  ◌≡◌, refl, sym, ap, subst, ◌∙◌, inl, inr, true, false, Option, none, some, if◌then◌else◌,
  Bool-cases,
}
use iceclimber.Common.Result.{Result, ok, err, ok-injective}
use iceclimber.Common.Text.{Text, text_eq, text_eq_iff}
use iceclimber.Common.Boxes.{lookup, names, remove, listed, is_some, listed-names}
use iceclimber.Protocol.Mail.{
  Folder, Tree, FsError, missing, Link, Call, pure, list, read_file, remove_all, attempt, ignore,
  caught, ◌>>=◌, set_box, same_folder,
}
use iceclimber.Protocol.Mail.Laws.{
  file, attempt-cases, bind_ok, bind_err, file-remove, same_folder→eq,
}

-- The files of one name `k` are those of the tree t₀.
module _ (t₀ : Tree) (k : Text) where
  abbrev pub Same : Tree → Type 0
  Same t = (g : Folder) → file t g k ≡ file t₀ g k

  -- A call leaves the files of `k` alone, and its result, if it has one, satisfies Q.
  abbrev pub Keeps : {A : Type 0} → Call A → (A → Type 0) → Type 0
  Keeps m Q = (l : Link) → Same l.tree → Same (m l).1.tree × ((a : _) → (m l).0 ≡ ok a → Q a)

  pub Keeps-bind :
      {A B : Type 0} (m : Call A) (f : A → Call B) (Q : A → Type 0) (R : B → Type 0)
      → Keeps m Q
      → ((a : A) → Q a → Keeps (f a) R)
      → Keeps (m >>= f) R
  Keeps-bind {A = A} {B = B} m f Q R h next l s = go (m l) refl (h l s)
    where
      go :
          (x : Result FsError A × Link)
          → m l ≡ x
          → Same x.1.tree × ((a : A) → x.0 ≡ ok a → Q a)
          → Same ((m >>= f) l).1.tree × ((b : B) → ((m >>= f) l).0 ≡ ok b → R b)
      go (ok a, l') e (kept, q) = rw (bind_ok m f a l l' e) (next a (q a refl) l' kept)
      go (err x, l') e (kept, q) = rw (bind_err m f x l l' e) (kept, λ b z. absurd (cc))

  pub Keeps-pure : {A : Type 0} (a : A) (Q : A → Type 0) → Q a → Keeps (pure a) Q
  Keeps-pure a Q q l s = (s, λ b e. subst Q (ok-injective e) q)

  Keeps-attempt :
      {A : Type 0} (body : Tree → Result FsError A × Tree) (Q : A → Type 0)
      → ((t : Tree) → Same t → Same (body t).1 × ((a : A) → (body t).0 ≡ ok a → Q a))
      → Keeps (attempt body) Q
  Keeps-attempt body Q h l s = elim (attempt-cases body l) [
    | inl (l', e, inl q) ↦ rw e (subst Same (sym q) s, λ a z. absurd (cc))
    | inl (l', e, inr q) ↦ rw e (subst Same (sym q) (h l.tree s).0, λ a z. absurd (cc))
    | inr e ↦ rw e (h l.tree s)
  ]

  pub Keeps-caught :
      {A : Type 0} (m : Call A) (Q : A → Type 0)
      → Keeps m Q
      → Keeps (caught m) (λ o. (a : A) → o ≡ some a → Q a)
  unfolding caught
  Keeps-caught {A = A} m Q h l s = go (m l).0 refl (h l s)
    where
      go :
          (x : Result FsError A)
          → (m l).0 ≡ x
          → Same (m l).1.tree × ((a : A) → (m l).0 ≡ ok a → Q a)
          → Same (m l).1.tree
            × ((o : Option A)
                → ◌≡◌ {A = Result FsError (Option A)}
                    (elim x [ ok a ↦ ok (some a) | err _ ↦ ok none ])
                    (ok o)
                → (a : A) → o ≡ some a
                → Q a)
      go (ok b) e (kept, q) = (kept, λ o z a y. q a (e ∙ ap ok (inner (ok-injective z ∙ y))))
        where
          inner : {x y : A} → some x ≡ some y → x ≡ y
          inner w = cc
      go (err x) e (kept, q) = (kept, λ o z a y. absurd (cc))

  pub Keeps-ignore : (m : Call Unit) (Q : Unit → Type 0) → Keeps m Q → Keeps (ignore m) (λ _. Unit)
  unfolding ignore
  Keeps-ignore m Q h l s = ((h l s).0, λ a z. tt)

  pub Keeps-list : (f : Folder) → Keeps (list f) (λ ns. listed k ns ≡ is_some (file t₀ f k))
  unfolding list
  Keeps-list f =
      Keeps-attempt (λ t. (ok (names (t f)), t)) _
        (λ t s. (
          s,
          λ ns e. ap (listed k) (sym (ok-injective e)) ∙ listed-names k (t f) ∙ ap is_some (s f),
        ))

  other :
      (t : Tree) (f g : Folder) (name : Text)
      → text_eq name k ≡ false
      → Same t
      → (if same_folder f g then (if text_eq name k then none else file t f k) else file t g k)
        ≡ file t₀ g k
  other t f g name n s = elim (Bool-cases (same_folder f g)) [
    | inl e ↦ rw (e, n) (s f ∙ ap (λ h. file t₀ h k) (same_folder→eq f g e))
    | inr e ↦ rw e (s g)
  ]

  pub Keeps-remove_all :
      (f : Folder) (name : Text) → text_eq name k ≡ false → Keeps (remove_all f name) (λ _. Unit)
  unfolding remove_all
  Keeps-remove_all f name n =
      Keeps-attempt (λ t. (ok tt, set_box f (remove name (t f)) t)) _
        (λ t s. (λ g. file-remove t f g name k ∙ other t f g name n s, λ a e. tt))

  pub Keeps-read_file :
      (f : Folder) (name : Text)
      → Keeps (read_file f name) (λ s. text_eq name k ≡ true → file t₀ f k ≡ some s)
  unfolding read_file
  Keeps-read_file f name =
      Keeps-attempt (λ t. (elim (lookup name (t f)) [ none ↦ err missing | some s ↦ ok s ], t)) _
        (λ t s. (
          s,
          λ a e x.
              sym (s f)
              ∙ sym (ap (λ n. lookup n (t f)) ((text_eq_iff name k).0 x))
              ∙ found (lookup name (t f)) a e,
        ))
    where
      found :
          (o : Option Text) (a : Text)
          → ◌≡◌ {A = Result FsError Text} (elim o [ none ↦ err missing | some s ↦ ok s ]) (ok a)
          → o ≡ some a
      found none a e = absurd (cc)
      found (some s) a e = ap some (ok-injective e)
