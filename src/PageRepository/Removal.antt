-- ===== src/PageRepository/Removal.antt =====
-- lib/page/memory-aggregate-repository.ts: what the private methods that write do.
use iam_pager.Base.{
  Option-cases, inl, inr, ◌∙◌, Text, List, [], ◌∷◌, none, some, if◌then◌else◌, true, false, ◌≡◌,
  refl, ◌==◌, member, arith, All,
}
use iam_pager.Base.Map.{get, put, delete, get-put, get-delete}
use iam_pager.Base.Exec.{returned}
use iam_pager.Endpoint.Violation.{Distinct, violation-none-Distinct}
use iam_pager.Page.{is_trial}
use iam_pager.Aggregate.{PageAggregate, page_aggregate_violation}
use iam_pager.PageRepository.State.{
  Repository, keys_of, unindex_keys, index_keys, remove_page, install_page, retire_trials,
  require_stored_page,
}
use iam_pager.PageRepository.Invariant.{
  IsCoherent, Removed, Installed, kept_id, Removed-trans, Removed-nothing, Removed-IsCoherent,
}

-- Keys of one page are taken out of the index, all of them.
unindex_keys_lem :
    (id : Text) (ks : List Text) (s : Repository)
    → Distinct ks
    → ((k : Text) → member k ks ≡ true → get s.endpoint_page_ids k ≡ some id)
    → (t : Repository) × (unindex_keys id ks s ≡ (returned tt, t))
      × (t.assets ≡ s.assets)
      × (t.pages ≡ s.pages)
      × ((k : Text)
          → get t.endpoint_page_ids k ≡ (if member k ks then none else get s.endpoint_page_ids k))
unfolding unindex_keys member
unindex_keys_lem id [] s d held = (s, refl, refl, refl, λ k. refl)
unindex_keys_lem id (key ∷ ks) s d held =
    let mine : get s.endpoint_page_ids key ≡ some id = held key (ground arith) in
    let s' : Repository = record s { endpoint_page_ids = delete s.endpoint_page_ids key } in
    let (t, e, assets, pages, after) =
      unindex_keys_lem id ks s' d.1
        (λ k m. ground (arith, held k, get-delete s.endpoint_page_ids key k)) in
    (
      t,
      ground arith,
      assets,
      pages,
      λ k. ground (arith, after k, get-delete s.endpoint_page_ids key k),
    )

index_keys_lem :
    (id : Text) (ks : List Text) (s : Repository)
    → Distinct ks
    → ((k : Text) → member k ks ≡ true → get s.endpoint_page_ids k ≡ none)
    → (t : Repository) × (index_keys id ks s ≡ (returned tt, t))
      × (t.assets ≡ s.assets)
      × (t.pages ≡ s.pages)
      × ((k : Text)
          → get t.endpoint_page_ids k
            ≡ (if member k ks then some id else get s.endpoint_page_ids k))
unfolding index_keys member
index_keys_lem id [] s d free = (s, refl, refl, refl, λ k. refl)
index_keys_lem id (key ∷ ks) s d free =
    let mine : get s.endpoint_page_ids key ≡ none = free key (ground arith) in
    let s' : Repository = record s { endpoint_page_ids = put s.endpoint_page_ids key id } in
    let (t, e, assets, pages, after) =
      index_keys_lem id ks s' d.1
        (λ k m. ground (arith, free k, get-put s.endpoint_page_ids key k id)) in
    (
      t,
      ground arith,
      assets,
      pages,
      λ k. ground (arith, after k, get-put s.endpoint_page_ids key k id),
    )

-- A valid page names no locator twice.
pub valid-Distinct : (p : PageAggregate) → page_aggregate_violation p ≡ none → Distinct (keys_of p)
unfolding page_aggregate_violation
valid-Distinct p ok = violation-none-Distinct p.endpoint_set (ground arith)

index_kept :
    (id : Text) (p : PageAggregate) (s : Repository) (k : Text)
    → IsCoherent s
    → get s.pages id ≡ some p
    → (if member k (keys_of p) then none else get s.endpoint_page_ids k)
      ≡ kept_id (λ j. id == j) (get s.endpoint_page_ids k)
index_kept id p s k v e = elim (Option-cases (get s.endpoint_page_ids k)) [
  | inl nothing ↦ ground (arith, v.indexed id p k e)
  | inr (j, found) ↦
      let (q, stands, has_key) = v.owned k j found in ground (arith, v.indexed id p k e)
]

-- A page that stands in a coherent repository is removed, with its locators and nothing else.
pub remove_page_lem :
    (id : Text) (p : PageAggregate) (s : Repository)
    → IsCoherent s
    → get s.pages id ≡ some p
    → (t : Repository) × (remove_page p s ≡ (returned tt, t)) × Removed (λ j. id == j) s t
unfolding remove_page
remove_page_lem id p s v e =
    let same : p.page_id ≡ id = v.id_kept id p e in
    let (t, done, assets, pages, after) =
      unindex_keys_lem id (keys_of p) s (valid-Distinct p (v.valid id p e))
        (λ k. v.indexed id p k e) in
    (
      record t { pages = delete t.pages id },
      ground arith,
      record {
        assets_kept = assets;
        pages_after = λ j. ground (arith, get-delete t.pages id j);
        index_after = λ k. after k ∙ index_kept id p s k v e;
      },
    )

-- A page whose identity and locators are free is put in.
pub install_page_lem :
    (p : PageAggregate) (s : Repository)
    → get s.pages p.page_id ≡ none
    → page_aggregate_violation p ≡ none
    → ((k : Text) → member k (keys_of p) ≡ true → get s.endpoint_page_ids k ≡ none)
    → (t : Repository) × (install_page p s ≡ (returned tt, t)) × Installed p s t
unfolding install_page
install_page_lem p s new ok free =
    let (t, done, assets, pages, after) =
      index_keys_lem p.page_id (keys_of p) s (valid-Distinct p ok) free in
    (
      record t { pages = put t.pages p.page_id p },
      ground arith,
      record {
        assets_kept = assets;
        pages_after = λ j. ground (arith, get-put t.pages p.page_id j p);
        index_after = after;
      },
    )

-- Each identity of the list is that of a stored trial page.
abbrev pub AreTrials : Repository → List Text → Type 0
AreTrials s ids =
    All (λ id. (p : PageAggregate) × (get s.pages id ≡ some p) × (is_trial p.stewardship ≡ true))
      ids

pub AreTrials-Removed :
    (id : Text) (ids : List Text) (s t : Repository)
    → member id ids ≡ false
    → Removed (λ j. id == j) s t
    → AreTrials s ids
    → AreTrials t ids
unfolding member
AreTrials-Removed id [] s t new r h = tt
AreTrials-Removed id (j ∷ ids) s t new r h =
    let (p, stands, is) = h.0 in
    ((p, ground (arith, r.pages_after j), is), AreTrials-Removed id ids s t (ground arith) r h.1)

-- All the named trials are removed, and nothing else.
pub retire_trials_lem :
    (ids : List Text) (s : Repository)
    → IsCoherent s
    → Distinct ids
    → AreTrials s ids
    → (t : Repository) × (retire_trials ids s ≡ (returned tt, t)) × Removed (λ j. member j ids) s t
unfolding retire_trials member require_stored_page
retire_trials_lem [] s v d h = (s, refl, Removed-nothing s)
retire_trials_lem (id ∷ ids) s v d h =
    let (p, stands, is) = h.0 in
    let (t, done, r) = remove_page_lem id p s v stands in
    let (u, rest, q) =
      retire_trials_lem ids t (Removed-IsCoherent r v) d.1
        (AreTrials-Removed id ids s t d.0 r h.1) in
    (u, ground arith, Removed-trans r q)
