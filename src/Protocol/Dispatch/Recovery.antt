-- ===== src/Protocol/Dispatch/Recovery.antt =====
-- responseExists and recover of internal/protocol/dispatch.go: stranded requests are answered, and
-- answered requests are left alone.
use iceclimber.Common.{
  ◌≡◌, refl, sym, ap, subst, ◌∙◌, inl, inr, Bool, true, false, ◌||◌, none, some, List, [], ◌∷◌,
  Bool-cases,
}
use mathlib.Core.Bool.{false≢true}
use iceclimber.Common.Result.{Result, ok, err, ok-injective}
use iceclimber.Common.Text.{Text, text_eq, text_eq_iff}
use iceclimber.Common.Boxes.{lookup, names, listed, is_some, listed-names}
use iceclimber.Protocol.Mail.{
  Folder, outbox_cur, inbox_new, inbox_cur, Tree, FsError, missing, Link, Call, pure, list,
  read_file, attempt, ◌>>=◌,
}
use iceclimber.Protocol.Mail.Laws.{file, attempt-cases, bind_ok, bind_err}
use iceclimber.Protocol.Dispatch.{
  Response, Server, service_cur_data, service_cur, listed_in_cur, response_exists, answer_unless,
  recover_names, recover,
}
use iceclimber.Protocol.Dispatch.Replies.{service_cur_data-Delivered}

-- A response of that name is in the inbox.
abbrev pub Answered : Tree → Text → Type 0
Answered t k = (is_some (file t inbox_new k) || is_some (file t inbox_cur k)) ≡ true

-- A block that passed: its first call passed, and then the rest.
pub bind_inv :
    {A B : Type 0} (m : Call A) (f : A → Call B) (b : B) (l l' : Link)
    → (m >>= f) l ≡ (ok b, l')
    → (a : A) × (l₁ : Link) × (m l ≡ (ok a, l₁)) × (f a l₁ ≡ (ok b, l'))
bind_inv {A} {B} m f b l l' h = go (m l) refl
  where
    go :
        (r : Result FsError A × Link)
        → m l ≡ r
        → (a : A) × (l₁ : Link) × (m l ≡ (ok a, l₁)) × (f a l₁ ≡ (ok b, l'))
    go (ok a, l₁) e = (a, l₁, e, sym (bind_ok m f a l l₁ e) ∙ h)
    go (err x, l₁) e = absurd (cc (bind_err m f x l l₁ e))

pub list-ok :
    (f : Folder) (l l' : Link) (ns : List Text)
    → list f l ≡ (ok ns, l')
    → (ns ≡ names (l.tree f)) × (l'.tree ≡ l.tree)
list-ok f l l' ns h = elim (attempt-cases (λ (t : Tree). (ok (names (t f)), t)) l) [
  | inl (l₁, e, q) ↦ absurd (cc (h, opened, e))
  | inr e ↦
      let q = sym h ∙ opened ∙ e in
      (
        ok-injective (ap (λ (r : Result FsError (List Text) × Link). r.0) q),
        ap (λ (r : Result FsError (List Text) × Link). r.1.tree) q,
      )
]
  where
    opened : list f l ≡ attempt (λ (t : Tree). (ok (names (t f)), t)) l
    opened = unfold list in refl

read_body : Folder → Text → Tree → Result FsError Text × Tree
read_body f n t = (elim (lookup n (t f)) [ none ↦ err missing | some s ↦ ok s ], t)

pub tree-read_file : (f : Folder) (n : Text) (l : Link) → (read_file f n l).1.tree ≡ l.tree
unfolding read_file read_body
tree-read_file f n l = elim (attempt-cases (read_body f n) l) [
  | inl (l₁, e, inl q) ↦ ap (λ (r : Result FsError Text × Link). r.1.tree) e ∙ q
  | inl (l₁, e, inr q) ↦ ap (λ (r : Result FsError Text × Link). r.1.tree) e ∙ q
  | inr e ↦ ap (λ (r : Result FsError Text × Link). r.1.tree) e
]

module _ (s : Server) where
  listed_in_cur-ok :
      (name : Text) (a b : Bool) (l l' : Link)
      → a ≡ is_some (file l.tree inbox_new name)
      → listed_in_cur s name a l ≡ (ok b, l')
      → (l'.tree ≡ l.tree)
        × (b ≡ (is_some (file l.tree inbox_new name) || is_some (file l.tree inbox_cur name)))
  listed_in_cur-ok name true b l l' a h =
      let q : ◌≡◌ {A = Result FsError Bool × Link} (ok true, l) (ok b, l') =
        unfold listed_in_cur in h in
      (
        ap (λ (r : Result FsError Bool × Link). r.1.tree) (sym q),
        sym (ok-injective (ap (λ (r : Result FsError Bool × Link). r.0) q)) ∙ rw (sym a),
      )
  listed_in_cur-ok name false b l l' a h =
      let (ns, l₁, e, k) =
        bind_inv (list inbox_cur) (λ cur. pure (listed name cur)) b l l'
          (unfold listed_in_cur in h) in
      let (n, t) = list-ok inbox_cur l l₁ ns e in
      (
        ap (λ (r : Result FsError Bool × Link). r.1.tree) (sym k) ∙ t,
        sym (ok-injective (ap (λ (r : Result FsError Bool × Link). r.0) k))
            ∙ ap (listed name) n
            ∙ listed-names name (l.tree inbox_cur)
            ∙ rw (sym a),
      )

  -- responseExists tells whether a response is there, and changes nothing.
  pub response_exists-ok :
      (name : Text) (b : Bool) (l l' : Link)
      → response_exists s name l ≡ (ok b, l')
      → (l'.tree ≡ l.tree)
        × (b ≡ (is_some (file l.tree inbox_new name) || is_some (file l.tree inbox_cur name)))
  response_exists-ok name b l l' h =
      let (ns, l₁, e, k) =
        bind_inv (list inbox_new) (λ new. listed_in_cur s name (listed name new)) b l l'
          (unfold response_exists in h) in
      let (n, t) = list-ok inbox_new l l₁ ns e in
      let a : listed name ns ≡ is_some (file l₁.tree inbox_new name) =
        ap (listed name) n
        ∙ listed-names name (l.tree inbox_new)
        ∙ ap (λ (u : Tree). is_some (file u inbox_new name)) (sym t) in
      let (t', q) = listed_in_cur-ok name (listed name ns) b l₁ l' a k in
      (
        t' ∙ t,
        q ∙ ap (λ (u : Tree). is_some (file u inbox_new name) || is_some (file u inbox_cur name)) t,
      )

  -- Between two trees: answers stay, the answers that were there are the same files, and the
  -- stranded requests are the same.
  record Onward (t u : Tree) : Type 0 where
    same_new : (k : Text) → Answered t k → file u inbox_new k ≡ file t inbox_new k
    same_cur : (k : Text) → file u inbox_cur k ≡ file t inbox_cur k

  Onward-Answered : (t u : Tree) (k : Text) → Onward t u → Answered t k → Answered u k
  Onward-Answered t u k o a = rw (o.same_new k a, o.same_cur k) a

  Onward-refl : (t u : Tree) → u ≡ t → Onward t u
  Onward-refl t u e = record {
    same_new = λ k a. ap (λ (x : Tree). file x inbox_new k) e;
    same_cur = λ k. ap (λ (x : Tree). file x inbox_cur k) e;
  }

  Onward-trans : (t u v : Tree) → Onward t u → Onward u v → Onward t v
  Onward-trans t u v a b = record {
    same_new = λ k h. b.same_new k (Onward-Answered t u k a h) ∙ a.same_new k h;
    same_cur = λ k. b.same_cur k ∙ a.same_cur k;
  }

  service_cur-Onward :
      (name : Text) (resp : Response) (l l' : Link)
      → (is_some (file l.tree inbox_new name) || is_some (file l.tree inbox_cur name)) ≡ false
      → service_cur s name l ≡ (ok resp, l')
      → Onward l.tree l'.tree × Answered l'.tree name
  service_cur-Onward name resp l l' fresh h =
      let (bytes₀, l₁, r, k) =
        bind_inv (read_file outbox_cur name) (service_cur_data s name) resp l l'
          (unfold service_cur in h) in
      let same : l₁.tree ≡ l.tree =
        ap (λ (x : Result FsError Text × Link). x.1.tree) (sym r)
        ∙ tree-read_file outbox_cur name l in
      let (_, _, (bytes, at, _, others)) = service_cur_data-Delivered s name bytes₀ resp l₁ l' k in
      (
        record {
          same_new = λ k a.
              others inbox_new k refl (inr (other_name k a))
              ∙ ap (λ (x : Tree). file x inbox_new k) same;
          same_cur =
              λ k. others inbox_cur k refl (inl refl) ∙ ap (λ (x : Tree). file x inbox_cur k) same;
        },
        rw at,
      )
    where
      other_name : (k : Text) → Answered l.tree k → text_eq name k ≡ false
      other_name k a = elim (Bool-cases (text_eq name k)) [
        | inl e ↦
            absurd
              (false≢true (sym fresh ∙ subst (Answered l.tree) (sym ((text_eq_iff name k).0 e)) a))
        | inr e ↦ e
      ]

  answer_unless-Onward :
      (name : Text) (b : Bool) (l l' : Link) (u : Unit {0})
      → b ≡ (is_some (file l.tree inbox_new name) || is_some (file l.tree inbox_cur name))
      → answer_unless s b name l ≡ (ok u, l')
      → Onward l.tree l'.tree × Answered l'.tree name
  answer_unless-Onward name true l l' u e h =
      let q : ◌≡◌ {A = Result FsError (Unit {0}) × Link} (ok tt, l) (ok u, l') =
        unfold answer_unless in h in
      let t : l'.tree ≡ l.tree = ap (λ (x : Result FsError (Unit {0}) × Link). x.1.tree) (sym q) in
      let o = Onward-refl l.tree l'.tree t in (o, Onward-Answered l.tree l'.tree name o (sym e))
  answer_unless-Onward name false l l' u e h =
      let (resp, l₁, r, k) =
        bind_inv (service_cur s name) (λ _. pure tt) u l l' (unfold answer_unless in h) in
      let t : l' ≡ l₁ = ap (λ (x : Result FsError (Unit {0}) × Link). x.1) (sym k) in
      rw t (service_cur-Onward name resp l l₁ (sym e) r)

  recover_names-Onward :
      (ns : List Text) (l l' : Link) (u : Unit {0})
      → recover_names s ns l ≡ (ok u, l')
      → Onward l.tree l'.tree × ((k : Text) → listed k ns ≡ true → Answered l'.tree k)
  recover_names-Onward [] l l' u h =
      let q : ◌≡◌ {A = Result FsError (Unit {0}) × Link} (ok tt, l) (ok u, l') =
        unfold recover_names in h in
      (
        Onward-refl l.tree l'.tree
            (ap (λ (x : Result FsError (Unit {0}) × Link). x.1.tree) (sym q)),
        λ k no. absurd (false≢true (unfold listed in no)),
      )
  recover_names-Onward (name ∷ ns) l l' u h =
      let (b, l₁, e, k) =
        bind_inv (response_exists s name)
          (λ answered. answer_unless s answered name >>= λ _. recover_names s ns) u l l'
          (unfold recover_names in h) in
      let (t, q) = response_exists-ok name b l l₁ e in
      let (v, l₂, f, k') = bind_inv (answer_unless s b name) (λ _. recover_names s ns) u l₁ l' k in
      let q' : b
          ≡ (is_some (file l₁.tree inbox_new name) || is_some (file l₁.tree inbox_cur name)) =
        q
        ∙ ap (λ (x : Tree). is_some (file x inbox_new name) || is_some (file x inbox_cur name))
            (sym t) in
      let (o, a) = answer_unless-Onward name b l₁ l₂ v q' f in
      let (o', all) = recover_names-Onward ns l₂ l' u k' in
      let first = Onward-refl l.tree l₁.tree t in
      (
        Onward-trans l.tree l₁.tree l'.tree first (Onward-trans l₁.tree l₂.tree l'.tree o o'),
        λ k m. elim (Bool-cases (text_eq name k)) [
          | inl e ↦
              subst (Answered l'.tree) ((text_eq_iff name k).0 e)
                (Onward-Answered l₂.tree l'.tree name o' a)
          | inr e ↦ all k (sym (listed_tail k e) ∙ m)
        ],
      )
    where
      listed_tail : (k : Text) → text_eq name k ≡ false → listed k (name ∷ ns) ≡ listed k ns
      listed_tail k e = unfold listed in rw e

  -- A recovery that ran to its end has answered every request that was stranded in outbox/cur, and
  -- has serviced none that had an answer: the files of those answers are what they were.
  pub recover_answers :
      (l l' : Link) (u : Unit {0}) (k : Text)
      → recover s l ≡ (ok u, l')
      → (is_some (file l.tree outbox_cur k) ≡ true → Answered l'.tree k)
        × (Answered l.tree k
            → (file l'.tree inbox_new k ≡ file l.tree inbox_new k)
              × (file l'.tree inbox_cur k ≡ file l.tree inbox_cur k))
  recover_answers l l' u k h =
      let (ns, l₁, e, r) =
        bind_inv (list outbox_cur) (recover_names s) u l l' (unfold recover in h) in
      let (n, t) = list-ok outbox_cur l l₁ ns e in
      let (o, all) = recover_names-Onward ns l₁ l' u r in
      let o' = Onward-trans l.tree l₁.tree l'.tree (Onward-refl l.tree l₁.tree t) o in
      (
        λ there. all k (ap (listed k) n ∙ listed-names k (l.tree outbox_cur) ∙ there),
        λ a. (o'.same_new k a, o'.same_cur k),
      )
