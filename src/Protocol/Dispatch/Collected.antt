-- ===== src/Protocol/Dispatch/Collected.antt =====
-- gc of internal/protocol/dispatch.go: what it must not delete.
use mathlib.Core.Bool.{false≢true}
use iceclimber.Common.{
  ◌≡◌, refl, sym, ap, ◌∙◌, inl, inr, ℕ, Bool, true, false, Option, none, some, List, [], ◌∷◌, ◌==◌,
  Bool-cases,
}
use iceclimber.Common.Text.{Text, text_eq}
use iceclimber.Protocol.Names.{valid_request_name}
use iceclimber.Common.Boxes.{listed, is_some}
use iceclimber.Protocol.Mail.{
  Folder, outbox_cur, inbox_new, inbox_cur, Tree, Link, Call, pure, list, read_file, remove_all,
  ignore, caught, ◌>>◌,
}
use iceclimber.Protocol.Mail.Laws.{file}
use iceclimber.Protocol.Dispatch.{
  Server, prune_pair, prune_collected, abandoned, reap, reap_if, reap_abandoned, sweep,
  sweep_uncollected, gc,
}
use iceclimber.Protocol.Dispatch.Collection.{
  Keeps, Keeps-bind, Keeps-pure, Keeps-caught, Keeps-ignore, Keeps-list, Keeps-remove_all,
  Keeps-read_file,
}

module _ (s : Server) (t₀ : Tree) (k : Text) where
  -- No result is promised.
  abbrev Idle : Call Unit → Type 0
  Idle m = Keeps t₀ k m (λ _. Unit)

  Idle-pure : Idle (pure tt)
  Idle-pure = Keeps-pure t₀ k tt (λ _. Unit) tt

  Idle-then : (m n : Call Unit) → Idle m → Idle n → Idle (m >> n)
  Idle-then m n h h' = Keeps-bind t₀ k m (λ _. n) (λ _. Unit) (λ _. Unit) h (λ _ _. h')

  Idle-ignored :
      (f : Folder) (name : Text) → text_eq name k ≡ false → Idle (ignore (remove_all f name))
  Idle-ignored f name n =
      Keeps-ignore t₀ k (remove_all f name) (λ _. Unit) (Keeps-remove_all t₀ k f name n)

  Idle-prune_pair : (name : Text) → text_eq name k ≡ false → Idle (prune_pair s name)
  unfolding prune_pair
  Idle-prune_pair name n =
      Idle-then (ignore (remove_all outbox_cur name)) (ignore (remove_all inbox_cur name))
        (Idle-ignored outbox_cur name n) (Idle-ignored inbox_cur name n)

  Idle-reap : (name : Text) → text_eq name k ≡ false → Idle (reap s name)
  unfolding reap
  Idle-reap name n =
      Idle-then (ignore (remove_all inbox_new name)) (ignore (remove_all outbox_cur name))
        (Idle-ignored inbox_new name n) (Idle-ignored outbox_cur name n)

  listed-inv :
      (name : Text) (ns : List Text)
      → listed k (name ∷ ns) ≡ false
      → (text_eq name k ≡ false) × (listed k ns ≡ false)
  unfolding listed
  listed-inv name ns h = elim (Bool-cases (text_eq name k)) [
    | inl e ↦ absurd (false≢true (sym (rw e at h)))
    | inr e ↦ (e, rw e at h)
  ]

  Idle-prune_collected : (ns : List Text) → listed k ns ≡ false → Idle (prune_collected s ns)
  unfolding prune_collected
  Idle-prune_collected [] h = Idle-pure
  Idle-prune_collected (name ∷ ns) h =
      let (n, h') = listed-inv name ns h in
      let rest = Idle-prune_collected ns h' in
      elim (Bool-cases (valid_request_name name)) [
        | inl e ↦
            rw e
              (Idle-then (prune_pair s name) (prune_collected s ns) (Idle-prune_pair name n) rest)
        | inr e ↦ rw e rest
      ]

  Idle-reap_if :
      (b : Bool) (name : Text) → (b ≡ true → text_eq name k ≡ false) → Idle (reap_if s b name)
  unfolding reap_if
  Idle-reap_if true name h = Idle-reap name (h refl)
  Idle-reap_if false name h = Idle-pure

  module _ (retention : ℕ) (fresh : abandoned s retention (file t₀ inbox_new k) ≡ false) where
    -- What has been read under the name of `k` is not abandoned.
    abandoned-other :
        (name : Text) (found : Option Text)
        → ((bytes : Text)
            → found ≡ some bytes
            → text_eq name k ≡ true
            → file t₀ inbox_new k ≡ some bytes)
        → abandoned s retention found ≡ true
        → text_eq name k ≡ false
    abandoned-other name none q h = absurd (false≢true (unfold abandoned in h))
    abandoned-other name (some bytes) q h = elim (Bool-cases (text_eq name k)) [
      | inl e ↦ absurd (false≢true (sym fresh ∙ ap (abandoned s retention) (q bytes refl e) ∙ h))
      | inr e ↦ e
    ]

    Idle-reap_abandoned : (ns : List Text) → Idle (reap_abandoned s retention ns)
    unfolding reap_abandoned
    Idle-reap_abandoned [] = Idle-pure
    Idle-reap_abandoned (name ∷ ns) =
        let rest = Idle-reap_abandoned ns in
        elim (Bool-cases (valid_request_name name)) [
          | inl e ↦ rw e (
              Keeps-bind t₀ k (caught (read_file inbox_new name))
                (λ found.
                  reap_if s (abandoned s retention found) name >> reap_abandoned s retention ns)
                (λ found.
                  (bytes : Text)
                  → found ≡ some bytes
                  → text_eq name k ≡ true
                  → file t₀ inbox_new k ≡ some bytes)
                (λ _. Unit)
                (Keeps-caught t₀ k (read_file inbox_new name) _
                  (Keeps-read_file t₀ k inbox_new name))
                (λ found q.
                  Idle-then (reap_if s (abandoned s retention found) name)
                    (reap_abandoned s retention ns)
                    (Idle-reap_if (abandoned s retention found) name (abandoned-other name found q))
                    rest))
          | inr e ↦ rw e rest
        ]

    Idle-sweep_uncollected : Idle (sweep_uncollected s retention)
    unfolding sweep_uncollected sweep
    Idle-sweep_uncollected = elim (Bool-cases (retention == 0)) [
      | inl e ↦ rw e Idle-pure
      | inr e ↦ rw e (
          Keeps-bind t₀ k (caught (list inbox_new)) (sweep s (reap_abandoned s retention)) _
            (λ _. Unit) (Keeps-caught t₀ k (list inbox_new) _ (Keeps-list t₀ k inbox_new))
            (λ o _. each o))
    ]
      where
        each : (o : Option (List Text)) → Idle (sweep s (reap_abandoned s retention) o)
        each none = Idle-pure
        each (some ns) = Idle-reap_abandoned ns

    Idle-gc : file t₀ inbox_cur k ≡ none → Idle (gc s retention)
    unfolding gc sweep
    Idle-gc uncollected =
        Keeps-bind t₀ k (caught (list inbox_cur))
          (λ collected. sweep s (prune_collected s) collected >> sweep_uncollected s retention) _
          (λ _. Unit) (Keeps-caught t₀ k (list inbox_cur) _ (Keeps-list t₀ k inbox_cur))
          (λ o q.
            Idle-then (sweep s (prune_collected s) o) (sweep_uncollected s retention) (each o q)
              Idle-sweep_uncollected)
      where
        each :
            (o : Option (List Text))
            → ((ns : List Text) → o ≡ some ns → listed k ns ≡ is_some (file t₀ inbox_cur k))
            → Idle (sweep s (prune_collected s) o)
        each none q = Idle-pure
        each (some ns) q = Idle-prune_collected ns (q ns refl ∙ ap is_some uncollected)

-- gc deletes nothing of a request whose response has not been collected and is not abandoned,
-- whatever the link does: all its files, in each folder, are what they were.
pub gc_keeps :
    (s : Server) (retention : ℕ) (l : Link) (k : Text) (g : Folder)
    → file l.tree inbox_cur k ≡ none
    → abandoned s retention (file l.tree inbox_new k) ≡ false
    → file (gc s retention l).1.tree g k ≡ file l.tree g k
gc_keeps s retention l k g uncollected fresh =
    (Idle-gc s l.tree k retention fresh uncollected l (λ h. refl)).0 g
