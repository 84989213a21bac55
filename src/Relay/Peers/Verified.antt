-- ===== src/Relay/Peers/Verified.antt =====
-- Processes that share the cache of internal/relay never get content of another hash.
use mathlib.Core.Bool.{false≢true}
use iceclimber.Common.{
  ℕ, ◌+◌, ◌≡◌, refl, sym, ap, subst, ◌∙◌, ◌⊎◌, inl, inr, Bool, true, false, Option, some, List, [],
  ◌∷◌, ◌++◌, All, arith, if◌then◌else◌,
}
use iceclimber.Common.Text.{Text}
use iceclimber.Relay.Peers.{
  Phase, looking, waiting, holding, downloading, copying, fetched, gone, has_lock, Shared, Move,
  hit, miss, give_up, lock, hit_locked, miss_locked, refused, create, write, cut_off, mismatch,
  publish, not_renamed, die_unlocked, die_locked, Step, join, move, Reach, initial, next,
}

abbrev as_number : Bool → ℕ
as_number b = if b then 1 else 0

-- how many processes have the lock
abbrev holders : List Phase → ℕ
holders [] = 0
holders (p ∷ ps) = as_number (has_lock p) + holders ps

holders-append : (a b : List Phase) → holders (a ++ b) ≡ holders a + holders b
holders-append [] b = omega arith
holders-append (p ∷ a) b = omega (arith, holders-append a b)

some-inner : {x y : Text} → some x ≡ some y → x ≡ y
some-inner e = cc

module _ (hash : Text → Text) (pin : Text) where
  abbrev pub Pinned : Option Text → Type 0
  Pinned f = (s : Text) × (f ≡ some s) × (hash s ≡ pin)

  -- What a phase says of the files.
  abbrev pub Says : Option Text → Option Text → Phase → Type 0
  Says f t fetched = Pinned f
  Says f t (copying sent) = t ≡ some sent
  Says f t _ = Unit

  pub record Sound (c : Shared) : Type 0 where
    pub one_holder : holders c.phases ≡ as_number c.locked
    pub said : All (Says c.final c.temp) c.phases

  -- A process without the lock says nothing of the temporary file, and the final one stays pinned.
  Says-others :
      (f t f' t' : Option Text) (ps : List Phase)
      → holders ps ≡ 0
      → (Pinned f → Pinned f')
      → All (Says f t) ps
      → All (Says f' t') ps
  Says-others f t f' t' [] n keep h = tt
  Says-others f t f' t' (p ∷ ps) n keep h =
      (one p (omega arith) h.0, Says-others f t f' t' ps (omega arith) keep h.1)
    where
      one : (p : Phase) → as_number (has_lock p) ≡ 0 → Says f t p → Says f' t' p
      one looking m k = tt
      one waiting m k = tt
      one holding m k = tt
      one downloading m k = tt
      one (copying s) m k = absurd (omega arith)
      one fetched m k = keep k
      one gone m k = tt

  Says-final :
      (f t f' : Option Text) (ps : List Phase)
      → (Pinned f → Pinned f')
      → All (Says f t) ps
      → All (Says f' t) ps
  Says-final f t f' [] keep h = tt
  Says-final f t f' (p ∷ ps) keep h = (one p h.0, Says-final f t f' ps keep h.1)
    where
      one : (p : Phase) → Says f t p → Says f' t p
      one looking k = tt
      one waiting k = tt
      one holding k = tt
      one downloading k = tt
      one (copying s) k = k
      one fetched k = keep k
      one gone k = tt

  released : (k : Bool) (n : ℕ) → 1 + n ≡ as_number k → 0 + n ≡ as_number false
  released true n m = omega arith
  released false n m = absurd (omega arith)

  -- What a move does to the lock and to the files, and what its process says afterwards.
  record Fair (f t : Option Text) (k : Bool) (p : Phase) (f' t' : Option Text) (k' : Bool)
      (q : Phase) : Type 0 where
    lock_moves :
        (n : ℕ)
        → as_number (has_lock p) + n ≡ as_number k
        → as_number (has_lock q) + n ≡ as_number k'
    pins : Says f t p → Pinned f → Pinned f'
    alone : (t' ≡ t) ⊎ (has_lock p ≡ true)
    says : Says f t p → Says f' t' q

  same_lock : (k : Bool) (n : ℕ) → 1 + n ≡ as_number k → 1 + n ≡ as_number k
  same_lock k n m = m

  unlocked_dies :
      (b k : Bool) (n : ℕ) → b ≡ false → as_number b + n ≡ as_number k → 0 + n ≡ as_number k
  unlocked_dies true k n e m = absurd (false≢true (sym e))
  unlocked_dies false k n e m = m

  locked_dies :
      (b k : Bool) (n : ℕ) → b ≡ true → as_number b + n ≡ as_number k → 0 + n ≡ as_number false
  locked_dies true k n e m = released k n m
  locked_dies false k n e m = absurd (false≢true e)

  Move-Fair :
      {f t : Option Text} {k : Bool} {p : Phase} {f' t' : Option Text} {k' : Bool} {q : Phase}
      → Move hash pin f t k p f' t' k' q
      → Fair f t k p f' t' k' q
  Move-Fair (hit s e v) = record {
    lock_moves = λ n m. m;
    pins = λ _ x. x;
    alone = inl refl;
    says = λ _. (s, e, v);
  }
  Move-Fair miss = record {
    lock_moves = λ n m. m;
    pins = λ _ x. x;
    alone = inl refl;
    says = λ _. tt;
  }
  Move-Fair give_up = record {
    lock_moves = λ n m. m;
    pins = λ _ x. x;
    alone = inl refl;
    says = λ _. tt;
  }
  Move-Fair lock = record {
    lock_moves = λ n m. omega arith;
    pins = λ _ x. x;
    alone = inl refl;
    says = λ _. tt;
  }
  Move-Fair {k} (hit_locked s e v) = record {
    lock_moves = released k;
    pins = λ _ x. x;
    alone = inl refl;
    says = λ _. (s, e, v);
  }
  Move-Fair miss_locked = record {
    lock_moves = λ n m. m;
    pins = λ _ x. x;
    alone = inl refl;
    says = λ _. tt;
  }
  Move-Fair {k} refused = record {
    lock_moves = released k;
    pins = λ _ x. x;
    alone = inl refl;
    says = λ _. tt;
  }
  Move-Fair create = record {
    lock_moves = λ n m. m;
    pins = λ _ x. x;
    alone = inr refl;
    says = λ _. refl;
  }
  Move-Fair (write sent s chunk e) = record {
    lock_moves = λ n m. m;
    pins = λ _ x. x;
    alone = inr refl;
    says = λ x. ap (λ (y : Text). some (y ++ chunk)) (some-inner (sym e ∙ x));
  }
  Move-Fair {k} (cut_off sent) = record {
    lock_moves = released k;
    pins = λ _ x. x;
    alone = inr refl;
    says = λ _. tt;
  }
  Move-Fair {k} (mismatch sent n) = record {
    lock_moves = released k;
    pins = λ _ x. x;
    alone = inr refl;
    says = λ _. tt;
  }
  Move-Fair {k} (publish sent s v e) = record {
    lock_moves = released k;
    pins = λ x _. (s, refl, ap hash (some-inner (sym e ∙ x)) ∙ v);
    alone = inr refl;
    says = λ x. (s, refl, ap hash (some-inner (sym e ∙ x)) ∙ v);
  }
  Move-Fair {k} (not_renamed sent v) = record {
    lock_moves = released k;
    pins = λ _ x. x;
    alone = inl refl;
    says = λ _. tt;
  }
  Move-Fair {k} {p} (die_unlocked e) = record {
    lock_moves = λ n. unlocked_dies (has_lock p) k n e;
    pins = λ _ x. x;
    alone = inl refl;
    says = λ _. tt;
  }
  Move-Fair {k} {p} (die_locked e) = record {
    lock_moves = λ n. locked_dies (has_lock p) k n e;
    pins = λ _ x. x;
    alone = inl refl;
    says = λ _. tt;
  }

  none_else :
      (b k : Bool) (n m : ℕ) → b ≡ true → as_number b + (n + m) ≡ as_number k → (n ≡ 0) × (m ≡ 0)
  none_else true true n m e h = (omega arith, omega arith)
  none_else true false n m e h = absurd (omega arith)
  none_else false k n m e h = absurd (false≢true e)

  All-mid :
      (P : Phase → Type 0) (a b : List Phase) (p : Phase)
      → All P (a ++ p ∷ b)
      → All P a × P p × All P b
  All-mid P [] b p h = (tt, h.0, h.1)
  All-mid P (x ∷ a) b p h = let (l, m, r) = All-mid P a b p h.1 in ((h.0, l), m, r)

  All-join :
      (P : Phase → Type 0) (a b : List Phase) (p : Phase)
      → All P a
      → P p
      → All P b
      → All P (a ++ p ∷ b)
  All-join P [] b p l m r = (m, r)
  All-join P (x ∷ a) b p l m r = (l.0, All-join P a b p l.1 m r)

  holders_mid :
      (a b : List Phase) (p : Phase)
      → holders (a ++ p ∷ b) ≡ as_number (has_lock p) + (holders a + holders b)
  holders_mid a b p = omega (arith, holders-append a (p ∷ b))

  move-Sound :
      (before after : List Phase) (p q : Phase) (f t f' t' : Option Text) (k k' : Bool)
      → Move hash pin f t k p f' t' k' q
      → Sound (record { final = f; temp = t; locked = k; phases = before ++ p ∷ after })
      → Sound (record { final = f'; temp = t'; locked = k'; phases = before ++ q ∷ after })
  move-Sound before after p q f t f' t' k k' m s =
      let g = Move-Fair m in
      let (l, mid, r) = All-mid (Says f t) before after p s.said in
      let count = sym (holders_mid before after p) ∙ s.one_holder in
      let pins = g.pins mid in
      record {
        one_holder =
            holders_mid before after q ∙ g.lock_moves (holders before + holders after) count;
        said = elim g.alone [
          | inl e ↦
              let keep = λ (ps : List Phase) (h : All (Says f t) ps).
                subst (λ x. All (Says f' x) ps) (sym e) (Says-final f t f' ps pins h) in
              All-join (Says f' t') before after q (keep before l) (g.says mid) (keep after r)
          | inr e ↦
              let (a, b) = none_else (has_lock p) k (holders before) (holders after) e count in
              All-join (Says f' t') before after q (Says-others f t f' t' before a pins l)
                (g.says mid) (Says-others f t f' t' after b pins r)
        ];
      }

  Step-Sound : {c d : Shared} → Step hash pin c d → Sound c → Sound d
  Step-Sound (join {c}) s =
      let e = s.one_holder in record { one_holder = omega arith; said = (tt, s.said) }
  Step-Sound (move {c} {f} {t} {k} before after p q e m) s =
      move-Sound before after p q c.final c.temp f t c.locked k m (record {
        one_holder = ap holders (sym e) ∙ s.one_holder;
        said = subst (All (Says c.final c.temp)) e s.said;
      })

  -- However the processes interleave and die, and whatever the cache held: no two of them hold the
  -- lock; the temporary file of one that copies is what it has sent; and once one of them has
  -- fetched the asset, the asset's file holds content of the pinned hash.
  pub Reach-Sound : (f t : Option Text) (c : Shared) → Reach hash pin f t c → Sound c
  Reach-Sound f t _ initial = record { one_holder = refl; said = tt }
  Reach-Sound f t _ (next {c} r s) = Step-Sound s (Reach-Sound f t c r)
