-- ===== src/Catalog/Checksums.antt =====
-- What validate and Resolve of internal/catalog say of checksums.
use mathlib.Core.Bool.{false≢true}
use iceclimber.Common.{
  ◌≡◌, ◌≢◌, refl, sym, ap, subst, ◌∙◌, inl, inr, Bool, true, false, ◌&&◌, Option, none, some, List,
  [], ◌∷◌, ◌++◌, if◌then◌else◌, Bool-cases,
}
use iceclimber.Common.Result.{Result, ok, err, ok-injective}
use iceclimber.Common.Text.{Text, codes, text_eq, text_eq_iff}
use iceclimber.Catalog.{
  Kind, static_pinned, github_release, shasums_index, other_kind, pinned, shasums_file, Platform,
  Entry, Problem, missing_sha256, reject_if, or_else, effective_recipe, is_pinned, check_kind,
  check_platform, check_platforms, validate, platform_key,
}
use iceclimber.Catalog.Resolve.{
  Resolved, ResolveError, wrong_kind, no_checksum, asset_url, release_url, index_url, row,
  asset_base, fetch_sum, checksum, resolved, resolve_row, resolve_tool,
}

or_else-none : (a b : Option Problem) → or_else a b ≡ none → (a ≡ none) × (b ≡ none)
unfolding or_else
or_else-none none b h = (refl, h)
or_else-none (some p) b h = absurd (cc)

reject_if-none : (b : Bool) (p : Problem) → reject_if b p ≡ none → b ≡ false
unfolding reject_if
reject_if-none true p h = absurd (cc)
reject_if-none false p h = refl

first_none : (x y : Option Problem) → or_else x y ≡ none → x ≡ none
first_none x y h = (or_else-none x y h).0

rest_none : (x y : Option Problem) → or_else x y ≡ none → y ≡ none
rest_none x y h = (or_else-none x y h).1

-- The checks of validate that the checksums rest on.
validate-checks :
    (e : Entry)
    → validate e ≡ none
    → (check_kind e.kind ≡ none) × (check_platforms e e.platforms ≡ none)
unfolding validate
validate-checks e h =
    let from_kind = rest_none _ _ (rest_none _ _ h) in
    let from_repo = rest_none _ _ (rest_none _ _ (rest_none _ _ from_kind)) in
    let from_format = rest_none _ _ (rest_none _ _ from_repo) in
    (
      first_none _ _ from_kind,
      rest_none _ _ (rest_none _ _ (rest_none _ _ (rest_none _ _ from_format))),
    )

check_platforms-row :
    (e : Entry) (k : Text) (ps : List (Text × Platform)) (p : Platform)
    → check_platforms e ps ≡ none
    → row k ps ≡ some p
    → (key : Text) × (check_platform e key p ≡ none)
unfolding check_platforms row
check_platforms-row e k [] p h r = absurd (cc)
check_platforms-row e k ((key, q) ∷ ps) p h r = elim (Bool-cases (text_eq key k)) [
  | inl m ↦ (key, subst (λ x. check_platform e key x ≡ none) (same (rw m at r)) (first_none _ _ h))
  | inr m ↦
      check_platforms-row e k ps p
        (or_else-none (check_platform e key q) (check_platforms e ps) h).1 (rw m at r)
]
  where
    same : some q ≡ some p → q ≡ p
    same x = cc

check_platform-sha256 :
    (e : Entry) (key : Text) (p : Platform)
    → check_platform e key p ≡ none
    → effective_recipe e ≡ pinned
    → text_eq p.sha256 [] ≡ false
unfolding check_platform
check_platform-sha256 e key p h m =
    let n =
      reject_if-none (is_pinned (effective_recipe e) && text_eq p.sha256 []) (missing_sha256 key)
        (rest_none _ _ (rest_none _ _ (rest_none _ _ h))) in
    rw m at n

known_url :
    (e : Entry) (p : Platform) → check_kind e.kind ≡ none → (url : Text) × (asset_url e p ≡ ok url)
unfolding asset_url check_kind
known_url e p h = go e.kind h
  where
    go :
        (k : Kind)
        → check_kind k ≡ none
        → (url : Text) × (◌≡◌ {A = Result ResolveError Text}
            (elim k [
              | static_pinned ↦ ok p.url
              | github_release ↦ ok (release_url e p.asset)
              | shasums_index ↦ ok (index_url e p.asset)
              | other_kind _ ↦ err wrong_kind
            ])
            (ok url))
    go static_pinned q = (_, refl)
    go github_release q = (_, refl)
    go shasums_index q = (_, refl)
    go (other_kind t) q = absurd (cc)

module _ (get : Text → Option Text) where
  pub resolved-ok :
      (e : Entry) (p : Platform) (url sha : Text) (r : Resolved)
      → resolved get e p url sha ≡ ok r
      → (r.sha256 ≡ sha) × (r.url ≡ url) × (text_eq sha [] ≡ false)
  resolved-ok e p url sha r h = go (text_eq sha []) refl (unfold resolved in h)
    where
      go :
          (b : Bool)
          → text_eq sha [] ≡ b
          → ◌≡◌ {A = Result ResolveError Resolved}
              (if b
                then err no_checksum
                else ok (record {
                  asset_name =
                      codes "tool-"
                      ++ (e.name ++ (codes "-" ++ (e.version ++ (codes "-" ++ asset_base p url))));
                  url = url;
                  sha256 = sha;
                  format = e.format;
                }))
              (ok r)
          → (r.sha256 ≡ sha) × (r.url ≡ url) × (text_eq sha [] ≡ false)
      go true f q = absurd (cc)
      go false f q =
          let w = ok-injective q in
          (ap (λ (x : Resolved). x.sha256) (sym w), ap (λ (x : Resolved). x.url) (sym w), f)

  resolve_tool-row :
      (e : Entry) (os arch libc : Text) (p : Platform)
      → row (platform_key os arch libc) e.platforms ≡ some p
      → resolve_tool get e os arch libc ≡ resolve_row get e p
  resolve_tool-row e os arch libc p h = unfold resolve_tool in rw (h, resolve_tool)

  resolve_row-checksum :
      (e : Entry) (p : Platform) (url sha : Text)
      → asset_url e p ≡ ok url
      → checksum get e p ≡ ok sha
      → resolve_row get e p ≡ resolved get e p url sha
  resolve_row-checksum e p url sha u c = unfold resolve_row in rw (u, c, resolve_row)

  checksum-pinned :
      (e : Entry) (p : Platform) → effective_recipe e ≡ pinned → checksum get e p ≡ ok p.sha256
  checksum-pinned e p m = unfold checksum in rw (m, checksum)

  pub checksum-listed :
      (e : Entry) (p : Platform)
      → effective_recipe e ≡ shasums_file
      → checksum get e p ≡ fetch_sum get e p
  checksum-listed e p m = unfold checksum in rw (m, checksum)

  -- For an entry that validate accepts and whose checksums are pinned, each platform of the table
  -- resolves, without a request, to the hash that stands in its row, which is not empty.
  pub resolve_tool-pinned :
      (e : Entry) (os arch libc : Text) (p : Platform)
      → validate e ≡ none
      → effective_recipe e ≡ pinned
      → row (platform_key os arch libc) e.platforms ≡ some p
      → (r : Resolved) × (resolve_tool get e os arch libc ≡ ok r)
        × (asset_url e p ≡ ok r.url)
        × (r.sha256 ≡ p.sha256)
        × (p.sha256 ≢ [])
  resolve_tool-pinned e os arch libc p v m at =
      let (kind, rows) = validate-checks e v in
      let (url, u) = known_url e p kind in
      let (key, check) = check_platforms-row e (platform_key os arch libc) e.platforms p rows at in
      let sha = check_platform-sha256 e key p check m in
      let r : Resolved = record {
        asset_name =
            codes "tool-"
            ++ (e.name ++ (codes "-" ++ (e.version ++ (codes "-" ++ asset_base p url))));
        url = url;
        sha256 = p.sha256;
        format = e.format;
      } in
      let last : resolved get e p url p.sha256 ≡ ok r = unfold resolved in rw (sha, resolved) in
      (
        r,
        resolve_tool-row e os arch libc p at
            ∙ resolve_row-checksum e p url p.sha256 u (checksum-pinned e p m)
            ∙ last,
        u,
        refl,
        λ z. false≢true (sym sha ∙ (text_eq_iff p.sha256 []).1 z),
      )
