-- ===== src/Egress/Store/Held.antt =====
-- AddPending and RemovePending of internal/egress/store.go: one entry for each URL, and removal by id.
use iceclimber.Common.{
  ◌≡◌, ◌≢◌, refl, sym, ap, ◌∙◌, ◌⊎◌, inl, inr, Bool, true, false, Option, none, some, [], ◌∷◌, ◌++◌,
  arith, if◌then◌else◌, Bool-cases, All,
}
use mathlib.Core.Bool.{false≢true}
use iceclimber.Common.Result.{ok}
use iceclimber.Common.Text.{Text, text_eq, text_eq_iff, text_eq_refl}
use iceclimber.Egress.Store.Files.{File, Json, lock_failed, WriteStep, Env, write_json_atomic}
use iceclimber.Egress.Store.Atomic.{write_json_atomic-ok, load-write}
use iceclimber.Egress.Store.Pending.{
  PendingEntry, Queue, QueueError, stamp, has_url, take_id, load_pending, written, add_loaded,
  add_pending, remove_found, remove_loaded, remove_pending,
}

-- No two entries of the queue hold the same URL.
abbrev pub DistinctUrls : Queue → Type 0
DistinctUrls [] = Unit
DistinctUrls (x ∷ p) = All (λ (y : PendingEntry). y.url ≢ x.url) p × DistinctUrls p

All-snoc :
    (P : PendingEntry → Type 0) (p : Queue) (e : PendingEntry) → All P p → P e → All P (p ++ e ∷ [])
All-snoc P [] e h k = (k, tt)
All-snoc P (x ∷ p) e h k = (h.0, All-snoc P p e h.1 k)

DistinctUrls-append :
    (p : Queue) (e : PendingEntry)
    → DistinctUrls p
    → has_url p e.url ≡ false
    → DistinctUrls (p ++ e ∷ [])
unfolding has_url
DistinctUrls-append [] e d h = (tt, tt)
DistinctUrls-append (x ∷ p) e d h = elim (Bool-cases (text_eq x.url e.url)) [
  | inl q ↦ absurd (cc (rw q at h))
  | inr q ↦ (
    All-snoc (λ y. y.url ≢ x.url) p e d.0
        (λ same. false≢true (sym q ∙ (text_eq_iff x.url e.url).1 (sym same))),
    DistinctUrls-append p e d.1 (rw q at h),
  )
]

-- The entries of another id, in order.
unfoldable pub others : Text → Queue → Queue
others id [] = []
others id (x ∷ p) = if text_eq x.id id then others id p else x ∷ others id p

-- The last entry of an id, or the one that is given.
unfoldable pub last_of : Text → Queue → Option PendingEntry → Option PendingEntry
last_of id [] found = found
last_of id (x ∷ p) found = last_of id p (if text_eq x.id id then some x else found)

take_id_lem :
    (id : Text) (p : Queue) (found : Option PendingEntry)
    → take_id id p found ≡ (last_of id p found, others id p)
unfolding take_id last_of others
take_id_lem id [] found = refl
take_id_lem id (x ∷ p) found = rw (take_id_lem id p (if text_eq x.id id then some x else found))

All-others : (P : PendingEntry → Type 0) (id : Text) (p : Queue) → All P p → All P (others id p)
unfolding others
All-others P id [] h = tt
All-others P id (x ∷ p) h = elim (Bool-cases (text_eq x.id id)) [
  | inl q ↦ rw q (All-others P id p h.1)
  | inr q ↦ rw q (h.0, All-others P id p h.1)
]

DistinctUrls-others : (id : Text) (p : Queue) → DistinctUrls p → DistinctUrls (others id p)
unfolding others
DistinctUrls-others id [] d = tt
DistinctUrls-others id (x ∷ p) d = elim (Bool-cases (text_eq x.id id)) [
  | inl q ↦ rw q (DistinctUrls-others id p d.1)
  | inr q ↦ rw q (All-others _ id p d.0, DistinctUrls-others id p d.1)
]

has_url-append : (p : Queue) (e : PendingEntry) → has_url (p ++ e ∷ []) e.url ≡ true
unfolding has_url
has_url-append [] e = rw (text_eq_refl e.url)
has_url-append (x ∷ p) e = ground (arith, has_url-append p e)

url-stamp : (now : Text) (e : PendingEntry) → (stamp now e).url ≡ e.url
unfolding stamp
url-stamp now e = ground arith

-- What the last entry of an id is.
last_of_id :
    (id : Text) (p : Queue) (found : Option PendingEntry) (x : PendingEntry)
    → ((y : PendingEntry) → found ≡ some y → y.id ≡ id)
    → last_of id p found ≡ some x
    → x.id ≡ id
unfolding last_of
last_of_id id [] found x h e = h x e
last_of_id id (z ∷ p) found x h e = last_of_id id p _ x next e
  where
    next : (y : PendingEntry) → (if text_eq z.id id then some z else found) ≡ some y → y.id ≡ id
    next y q = elim (Bool-cases (text_eq z.id id)) [
      | inl t ↦
          let k : some z ≡ some y = rw t at q in
          let m : z ≡ y = cc in ap (λ (w : PendingEntry). w.id) (sym m) ∙ (text_eq_iff z.id id).0 t
      | inr t ↦ h y (rw t at q)
    ]

last_of-none :
    (id : Text) (p : Queue) (found : Option PendingEntry)
    → last_of id p found ≡ none
    → (found ≡ none) × All (λ (y : PendingEntry). y.id ≢ id) p
unfolding last_of
last_of-none id [] found e = (e, tt)
last_of-none id (z ∷ p) found e =
    let (q, a) = last_of-none id p _ e in
    elim (Bool-cases (text_eq z.id id)) [
      | inl t ↦ absurd (cc (rw t at q))
      | inr t ↦ (rw t at q, (λ same. false≢true (sym t ∙ (text_eq_iff z.id id).1 same), a))
    ]

-- What the queue holds after an entry was accepted for a URL.
abbrev pub Accepted : Queue → PendingEntry → Queue → Type 0
Accepted p e p' =
    DistinctUrls p'
    × (has_url p' e.url ≡ true)
    × ((p' ≡ p × has_url p e.url ≡ true) ⊎ (p' ≡ p ++ e ∷ []))

module _ (json : Json Queue) (env : Env) where
  write-result :
      (o : Option WriteStep × File) (f' : File) → written json o ≡ (none, f') → o ≡ (none, f')
  unfolding written
  write-result (none, f) f' h = cc
  write-result (some step, f) f' h = absurd (cc)

  add_loaded-Accepted :
      (e : PendingEntry) (p : Queue) (f f' : File)
      → load_pending json f ≡ ok p
      → DistinctUrls p
      → json.Faithful (p ++ e ∷ [])
      → add_loaded json env e (ok p) f ≡ (none, f')
      → (p' : Queue) × (load_pending json f' ≡ ok p') × Accepted p e p'
  add_loaded-Accepted e p f f' l d faithful h = go (has_url p e.url) refl (unfold add_loaded in h)
    where
      go :
          (b : Bool)
          → has_url p e.url ≡ b
          → (if b
              then (none, f)
              else written json (write_json_atomic json env.fails (p ++ e ∷ []) f))
            ≡ (none, f')
          → (p' : Queue) × (load_pending json f' ≡ ok p') × Accepted p e p'
      go true q k = (p, cc, (d, q, inl (refl, q)))
      go false q k = (
        p ++ e ∷ [],
        ap (load_pending json)
              (write_json_atomic-ok json env.fails (p ++ e ∷ []) f f' (write-result _ f' k))
            ∙ load-write json [] (p ++ e ∷ []) f.temps faithful,
        (DistinctUrls-append p e d q, has_url-append p e, inr refl),
      )

  -- AddPending without an error keeps the URLs of the queue distinct, holds the URL afterwards, and
  -- adds at most the one stamped entry at the end: none if the URL was held already.
  pub add_pending-Accepted :
      (now : Text) (e : PendingEntry) (p : Queue) (f f' : File)
      → load_pending json f ≡ ok p
      → DistinctUrls p
      → json.Faithful (p ++ stamp now e ∷ [])
      → add_pending json env now e f ≡ (none, f')
      → (p' : Queue) × (load_pending json f' ≡ ok p') × Accepted p (stamp now e) p'
  add_pending-Accepted now e p f f' l d faithful h = go env.locks (unfold add_pending in h)
    where
      go :
          (b : Bool)
          → (if b
              then add_loaded json env (stamp now e) (load_pending json f) f
              else (some lock_failed, f))
            ≡ (none, f')
          → (p' : Queue) × (load_pending json f' ≡ ok p') × Accepted p (stamp now e) p'
      go true k =
          add_loaded-Accepted (stamp now e) p f f' l d faithful
            (ap (λ x. add_loaded json env (stamp now e) x f) (sym l) ∙ k)
      go false k = absurd (cc)

  remove_found-inv :
      (x y : PendingEntry) (out : Queue) (f f' : File)
      → remove_found json env (some y, out) f ≡ (some x, none, f')
      → (y ≡ x) × (write_json_atomic json env.fails out f ≡ (none, f'))
  unfolding remove_found
  remove_found-inv x y out f f' k =
      let a : some y ≡ some x =
        ap (λ (t : Option PendingEntry × Option QueueError × File). t.0) k in
      (
        cc,
        write-result _ f'
            (ap (λ (t : Option PendingEntry × Option QueueError × File). (t.1, t.2)) k),
      )

  -- RemovePending of an id that the queue holds: the entry it returns has that id and is the last
  -- such entry, and the queue that is read afterwards is the other entries in order, its URLs
  -- still distinct. (A write without an error.)
  pub remove_pending-others :
      (id : Text) (p : Queue) (x : PendingEntry) (f f' : File)
      → load_pending json f ≡ ok p
      → DistinctUrls p
      → json.Faithful (others id p)
      → remove_pending json env id f ≡ (some x, none, f')
      → (x.id ≡ id)
        × (last_of id p none ≡ some x)
        × (load_pending json f' ≡ ok (others id p))
        × DistinctUrls (others id p)
  remove_pending-others id p x f f' l d faithful h = go env.locks (unfold remove_pending in h)
    where
      Goal : Type 0
      Goal =
          (x.id ≡ id)
          × (last_of id p none ≡ some x)
          × (load_pending json f' ≡ ok (others id p))
          × DistinctUrls (others id p)

      at_found :
          (o : Option PendingEntry)
          → last_of id p none ≡ o
          → remove_found json env (o, others id p) f ≡ (some x, none, f')
          → Goal
      at_found none q k = absurd (unfold remove_found in cc)
      at_found (some y) q k =
          let (same, w) = remove_found-inv x y (others id p) f f' k in
          let last : last_of id p none ≡ some x = q ∙ ap some same in
          (
            last_of_id id p none x (λ z e. absurd (cc)) last,
            last,
            ap (load_pending json) (write_json_atomic-ok json env.fails (others id p) f f' w)
                ∙ load-write json [] (others id p) f.temps faithful,
            DistinctUrls-others id p d,
          )

      at_loaded : remove_loaded json env id (ok p) f ≡ (some x, none, f') → Goal
      at_loaded k = at_found (last_of id p none) refl (
          ap (λ o. remove_found json env o f) (sym (take_id_lem id p none))
          ∙ unfold remove_loaded in k)

      go :
          (b : Bool)
          → (if b
              then remove_loaded json env id (load_pending json f) f
              else (none, some lock_failed, f))
            ≡ (some x, none, f')
          → Goal
      go true k = at_loaded (ap (λ r. remove_loaded json env id r f) (sym l) ∙ k)
      go false k = absurd (cc)
