-- ===== src/Protocol/Pool/Guarded.antt =====
-- The guards of the worker pool (internal/protocol/dispatch.go) under reserve and release.
use mathlib.Core.Bool.{false≢true}
use iceclimber.Common.{
  ◌≡◌, ◌≢◌, refl, sym, ap, subst, ◌∙◌, inl, inr, true, false, none, some, List, [], ◌∷◌, ◌++◌,
  if◌then◌else◌, Bool-cases, All,
}
use iceclimber.Common.Text.{Text, text_eq, text_eq_iff, text_eq_refl, text_eq_ne}
use iceclimber.Common.Text.Distinct.{Distinct, All-mid, Distinct-mid}
use iceclimber.Protocol.Pool.{has_key, delete_key, insert_key, Drainer, reserve, release, Worker}

-- The names of the workers, and the keys that they hold.
abbrev pub names_of : List Worker → List Text
names_of [] = []
names_of (w ∷ ws) = w.name ∷ names_of ws

unfoldable pub keys_of : List Worker → List Text
keys_of [] = []
keys_of (w ∷ ws) = if text_eq w.key [] then keys_of ws else w.key ∷ keys_of ws

All-of_has_key : (k : Text) (xs : List Text) → has_key k xs ≡ false → All (λ y. y ≢ k) xs
unfolding has_key
All-of_has_key k [] h = tt
All-of_has_key k (x ∷ xs) h = elim (Bool-cases (text_eq x k)) [
  | inl e ↦ absurd (false≢true (sym (rw e at h)))
  | inr e ↦ (λ q. false≢true (sym e ∙ (text_eq_iff x k).1 q), All-of_has_key k xs (rw e at h))
]

delete_key_absent : (k : Text) (xs : List Text) → All (λ y. y ≢ k) xs → delete_key k xs ≡ xs
unfolding delete_key
delete_key_absent k [] h = refl
delete_key_absent k (x ∷ xs) h =
    rw (text_eq_ne x k h.0) (ap (λ t. x ∷ t) (delete_key_absent k xs h.1))

delete_key_self : (k : Text) (xs : List Text) → delete_key k (k ∷ xs) ≡ delete_key k xs
unfolding delete_key
delete_key_self k xs = rw (text_eq_refl k)

delete_key_mid :
    (xs ys : List Text) (y : Text)
    → Distinct (xs ++ y ∷ ys)
    → delete_key y (xs ++ y ∷ ys) ≡ xs ++ ys
unfolding delete_key
delete_key_mid [] ys y h = rw (text_eq_refl y) (delete_key_absent y ys h.0)
delete_key_mid (x ∷ xs) ys y h =
    rw (text_eq_ne x y (λ e. All-mid (λ z. z ≢ x) xs ys y h.0 (sym e)))
      (ap (λ t. x ∷ t) (delete_key_mid xs ys y h.1))

insert_key_fresh : (k : Text) (xs : List Text) → has_key k xs ≡ false → insert_key k xs ≡ k ∷ xs
insert_key_fresh k xs h = unfold insert_key in rw (h, insert_key)

names_of-append :
    (before after : List Worker) → names_of (before ++ after) ≡ names_of before ++ names_of after
names_of-append [] after = refl
names_of-append (w ∷ ws) after = ap (λ t. w.name ∷ t) (names_of-append ws after)

keys_of-append :
    (before after : List Worker) → keys_of (before ++ after) ≡ keys_of before ++ keys_of after
unfolding keys_of
keys_of-append [] after = refl
keys_of-append (w ∷ ws) after = elim (Bool-cases (text_eq w.key [])) [
  | inl e ↦ rw e (keys_of-append ws after)
  | inr e ↦ rw e (ap (λ t. w.key ∷ t) (keys_of-append ws after))
]

keys_of-bare :
    (w : Worker) (ws : List Worker) → text_eq w.key [] ≡ true → keys_of (w ∷ ws) ≡ keys_of ws
unfolding keys_of
keys_of-bare w ws e = rw e

keys_of-keyed :
    (w : Worker) (ws : List Worker)
    → text_eq w.key [] ≡ false
    → keys_of (w ∷ ws) ≡ w.key ∷ keys_of ws
unfolding keys_of
keys_of-keyed w ws e = rw e

-- The guards say what runs: no two workers have one name, or one key that is not empty.
pub record Guarded (d : Drainer) (ws : List Worker) : Type 0 where
  pub names : d.inflight ≡ names_of ws
  pub keys : d.active ≡ keys_of ws
  pub names-Distinct : Distinct (names_of ws)
  pub keys-Distinct : Distinct (keys_of ws)

-- reserve refuses only a busy key, and otherwise marks the name and the key.
reserve-bare :
    (name key : Text) (d : Drainer)
    → text_eq key [] ≡ true
    → reserve name key d ≡ some (record d { inflight = insert_key name d.inflight })
reserve-bare name key d e = unfold reserve in rw (e, reserve)

reserve-busy :
    (name key : Text) (d : Drainer)
    → text_eq key [] ≡ false
    → has_key key d.active ≡ true
    → reserve name key d ≡ none
reserve-busy name key d e f = unfold reserve in rw (e, f, reserve)

reserve-free :
    (name key : Text) (d : Drainer)
    → text_eq key [] ≡ false
    → has_key key d.active ≡ false
    → reserve name key d
      ≡ some (record { inflight = insert_key name d.inflight; active = insert_key key d.active })
reserve-free name key d e f = unfold reserve in rw (e, f, reserve)

Distinct-keys_of-bare :
    (w : Worker) (ws : List Worker)
    → text_eq w.key [] ≡ true
    → Distinct (keys_of ws)
    → Distinct (keys_of (w ∷ ws))
Distinct-keys_of-bare w ws e h = subst Distinct (sym (keys_of-bare w ws e)) h

pub reserve-Guarded :
    (name key : Text) (d d' : Drainer) (ws : List Worker)
    → Guarded d ws
    → has_key name d.inflight ≡ false
    → reserve name key d ≡ some d'
    → Guarded d' (record { name = name; key = key } ∷ ws)
reserve-Guarded name key d d' ws g fresh h = elim (Bool-cases (text_eq key [])) [
  | inl e ↦
      subst (λ x. Guarded x (w ∷ ws)) (the (sym (reserve-bare name key d e) ∙ h))
        record {
          names = taken;
          keys = g.keys ∙ sym (keys_of-bare w ws e);
          names-Distinct = (apart, g.names-Distinct);
          keys-Distinct = Distinct-keys_of-bare w ws e g.keys-Distinct;
        }
  | inr e ↦ elim (Bool-cases (has_key key d.active)) [
    | inl f ↦ absurd (cc (reserve-busy name key d e f))
    | inr f ↦
        subst (λ x. Guarded x (w ∷ ws)) (the (sym (reserve-free name key d e f) ∙ h))
          record {
            names = taken;
            keys =
                insert_key_fresh key d.active f
                ∙ ap (λ t. key ∷ t) g.keys
                ∙ sym (keys_of-keyed w ws e);
            names-Distinct = (apart, g.names-Distinct);
            keys-Distinct = subst Distinct (sym (keys_of-keyed w ws e)) (
              All-of_has_key key (keys_of ws) (subst (λ t. has_key key t ≡ false) g.keys f),
              g.keys-Distinct,
            );
          }
  ]
]
  where
    the : {x y : Drainer} → some x ≡ some y → x ≡ y
    the q = cc

    w : Worker
    w = record { name = name; key = key }

    taken : insert_key name d.inflight ≡ name ∷ names_of ws
    taken = insert_key_fresh name d.inflight fresh ∙ ap (λ t. name ∷ t) g.names

    apart : All (λ y. y ≢ name) (names_of ws)
    apart = All-of_has_key name (names_of ws) (subst (λ t. has_key name t ≡ false) g.names fresh)

release-bare :
    (name key : Text) (d : Drainer)
    → text_eq key [] ≡ true
    → release name key d ≡ record d { inflight = delete_key name d.inflight }
release-bare name key d e = unfold release in rw (e, release)

release-keyed :
    (name key : Text) (d : Drainer)
    → text_eq key [] ≡ false
    → release name key d
      ≡ record { inflight = delete_key name d.inflight; active = delete_key key d.active }
release-keyed name key d e = unfold release in rw (e, release)

pub release-Guarded :
    (before after : List Worker) (w : Worker) (d : Drainer)
    → Guarded d (before ++ w ∷ after)
    → Guarded (release w.name w.key d) (before ++ after)
release-Guarded before after w d g = elim (Bool-cases (text_eq w.key [])) [
  | inl e ↦
      subst (λ x. Guarded x (before ++ after)) (sym (release-bare w.name w.key d e))
        record {
          names = dropped;
          keys = g.keys ∙ same e;
          names-Distinct = kept;
          keys-Distinct = subst Distinct (same e) g.keys-Distinct;
        }
  | inr e ↦
      subst (λ x. Guarded x (before ++ after)) (sym (release-keyed w.name w.key d e))
        record {
          names = dropped;
          keys =
              ap (delete_key w.key) (g.keys ∙ split e)
              ∙ delete_key_mid (keys_of before) (keys_of after) w.key
                  (subst Distinct (split e) g.keys-Distinct)
              ∙ sym (keys_of-append before after);
          names-Distinct = kept;
          keys-Distinct = subst Distinct (sym (keys_of-append before after)) (
              Distinct-mid (keys_of before) (keys_of after) w.key
                (subst Distinct (split e) g.keys-Distinct));
        }
]
  where
    at : names_of (before ++ w ∷ after) ≡ names_of before ++ w.name ∷ names_of after
    at = names_of-append before (w ∷ after)

    apart : Distinct (names_of before ++ w.name ∷ names_of after)
    apart = subst Distinct at g.names-Distinct

    dropped : delete_key w.name d.inflight ≡ names_of (before ++ after)
    dropped =
        ap (delete_key w.name) (g.names ∙ at)
        ∙ delete_key_mid (names_of before) (names_of after) w.name apart
        ∙ sym (names_of-append before after)

    kept : Distinct (names_of (before ++ after))
    kept =
        subst Distinct (sym (names_of-append before after))
          (Distinct-mid (names_of before) (names_of after) w.name apart)

    same : text_eq w.key [] ≡ true → keys_of (before ++ w ∷ after) ≡ keys_of (before ++ after)
    same e =
        keys_of-append before (w ∷ after)
        ∙ ap (λ t. keys_of before ++ t) (keys_of-bare w after e)
        ∙ sym (keys_of-append before after)

    split :
        text_eq w.key [] ≡ false
        → keys_of (before ++ w ∷ after) ≡ keys_of before ++ w.key ∷ keys_of after
    split e =
        keys_of-append before (w ∷ after) ∙ ap (λ t. keys_of before ++ t) (keys_of-keyed w after e)
