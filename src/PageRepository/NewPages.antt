-- ===== src/PageRepository/NewPages.antt =====
-- lib/page/memory-aggregate-repository.ts: creating a managed page, on every branch.
use iam_pager.Base.{
  Text, List, none, some, true, false, ◌≡◌, refl, member, arith, inl, inr, ◌⊎◌, Bool-cases,
  Option-cases,
}
use iam_pager.Base.Patterns.{non_empty}
use iam_pager.Base.Map.{get, has}
use iam_pager.Base.Exec.{Outcome, returned}
use iam_pager.Endpoint.{page_endpoint_set_violation}
use iam_pager.Page.{is_valid_page_id, is_valid_page_tags}
use iam_pager.Content.{is_valid_date, is_valid_content_asset_id}
use iam_pager.Aggregate.{PageAggregate, page_aggregate_violation}
use iam_pager.PageRepository.State.{
  Repository, Fault, keys_of, assert_valid_page, require_page_id, require_content_asset_id,
  require_endpoint_set, require_owner, require_time,
}
use iam_pager.PageRepository.Requests.{
  CreateManagedRequest, Reply, committed, rejected, created, managed_conflict, page_id_conflict,
  content_asset_not_found,
}
use iam_pager.PageRepository.Creation.{
  commit_new, created_page, create_claimed, create_managed_page_aggregate, outcome_over,
}
use iam_pager.PageRepository.Invariant.{
  IsCoherent, Removed, Removed-IsCoherent, Installed-IsCoherent,
}
use iam_pager.PageRepository.Removal.{retire_trials_lem, install_page_lem}
use iam_pager.PageRepository.Clearing.{IsBlocked, Displaces, clearing}
use iam_pager.PageRepository.Requirements.{Refuses, require_then, passes-none}
use iam_pager.PageRepository.Commit.{Committed, Removed-Installed}

-- A valid page with a free identity is written over the trials that its endpoint set displaces.
pub commit_new_lem :
    (found : List Text) (p : PageAggregate) (s : Repository)
    → IsCoherent s
    → Displaces none p.endpoint_set found s
    → page_aggregate_violation p ≡ none
    → has s.assets p.content_asset_id ≡ true
    → get s.pages p.page_id ≡ none
    → (t : Repository) × (commit_new found p s
        ≡ (returned (committed (outcome_over created found) p), t))
      × Committed (λ j. member j found) p s t
unfolding commit_new assert_valid_page
commit_new_lem found p s v d ok asset new =
    let (t, retired, r) = retire_trials_lem found s v d.distinct d.trials in
    let still_new : get t.pages p.page_id ≡ none = ground (arith, r.pages_after p.page_id) in
    let free : (k : Text) → member k (keys_of p) ≡ true → get t.endpoint_page_ids k ≡ none =
      λ k m. freed t r k m (Option-cases (get s.endpoint_page_ids k)) in
    let (u, installed, i) = install_page_lem p t still_new ok free in
    let there : has t.assets p.content_asset_id ≡ true = ground (arith, r.assets_kept) in
    (
      u,
      ground arith,
      Removed-Installed r i
          (Installed-IsCoherent i (Removed-IsCoherent r v) still_new ok there free),
    )
  where
    freed :
        (t : Repository)
        → Removed (λ j. member j found) s t
        → (k : Text) → member k (keys_of p) ≡ true
        → (get s.endpoint_page_ids k ≡ none) ⊎ ((j : Text) × (get s.endpoint_page_ids k ≡ some j))
        → get t.endpoint_page_ids k ≡ none
    freed t r k m (inl nothing) = ground (arith, r.index_after k)
    freed t r k m (inr (j, leads)) = ground (arith, r.index_after k, d.covers k j m leads)

-- The requirements on a creation
pub record IsValidCreate (r : CreateManagedRequest) : Type 0 where
  pub id_ok : is_valid_page_id r.page_id ≡ true
  pub set_ok : page_endpoint_set_violation r.endpoint_set ≡ none
  pub owner_ok : non_empty r.owner_user_id ≡ true
  pub tags_ok : is_valid_page_tags r.tags ≡ true
  pub asset_ok : is_valid_content_asset_id r.content_asset_id ≡ true
  pub now_ok : is_valid_date r.now ≡ true

created_page-valid :
    (r : CreateManagedRequest) → IsValidCreate r → page_aggregate_violation (created_page r) ≡ none
unfolding page_aggregate_violation
created_page-valid r v =
    ground (arith, v.id_ok, v.set_ok, v.owner_ok, v.tags_ok, v.asset_ok, v.now_ok)

-- What a creation can come to
pub data CreateOutcome (r : CreateManagedRequest) (s : Repository)
    (result : Outcome Fault Reply × Repository) : Type 0 where
  blocked :
      IsBlocked none r.endpoint_set s
      → result ≡ (returned (rejected managed_conflict), s)
      → CreateOutcome r s result
  taken :
      has s.pages r.page_id ≡ true
      → result ≡ (returned (rejected page_id_conflict), s)
      → CreateOutcome r s result
  without_asset :
      has s.assets r.content_asset_id ≡ false
      → result ≡ (returned (rejected content_asset_not_found), s)
      → CreateOutcome r s result
  done :
      (found : List Text) (t : Repository)
      → Displaces none r.endpoint_set found s
      → get s.pages r.page_id ≡ none
      → Committed (λ j. member j found) (created_page r) s t
      → result ≡ (returned (committed (outcome_over created found) (created_page r)), t)
      → CreateOutcome r s result

create_claimed_outcome :
    (r : CreateManagedRequest) (found : List Text) (s : Repository)
    → IsCoherent s
    → IsValidCreate r
    → Displaces none r.endpoint_set found s
    → CreateOutcome r s (create_claimed r (some found) s)
unfolding create_claimed
create_claimed_outcome r found s v ok d = elim (Option-cases (get s.pages r.page_id)) [
  | inr (p, old) ↦ taken (ground arith) (ground arith)
  | inl new ↦ elim (Bool-cases (has s.assets r.content_asset_id)) [
    | inr missing ↦ without_asset missing (ground arith)
    | inl there ↦
        let (t, e, c) =
          commit_new_lem found (created_page r) s v d (created_page-valid r ok) there new in
        done found t d new c (ground arith)
  ]
]

-- On a coherent repository a valid creation throws nothing: it is refused, with nothing changed,
-- for a managed page on one of its locators, a used identity or a missing asset; or it writes the
-- page over exactly the trials that its locators displace.
pub create_outcome :
    (r : CreateManagedRequest) (s : Repository)
    → IsCoherent s
    → IsValidCreate r
    → CreateOutcome r s (create_managed_page_aggregate r s)
unfolding create_managed_page_aggregate require_page_id require_endpoint_set require_owner
    require_content_asset_id require_time
create_outcome r s v ok =
    rw (ok.id_ok, ok.set_ok, ok.owner_ok, ok.tags_ok, ok.asset_ok, ok.now_ok)
      (elim (clearing none r.endpoint_set s v) [
        | inl (e, b) ↦ rw e (blocked b refl)
        | inr (found, e, d) ↦ rw e (create_claimed_outcome r found s v ok d)
      ])

-- A creation that breaks a requirement is thrown back with nothing changed.
pub create_refused :
    (r : CreateManagedRequest) (s : Repository)
    → Refuses (create_managed_page_aggregate r) s ⊎ IsValidCreate r
unfolding create_managed_page_aggregate require_page_id require_endpoint_set require_owner
    require_content_asset_id require_time
create_refused r s = require_then _ _ _ s _ λ id_ok. require_then _ _ _ s _ λ set_ok.
    require_then _ _ _ s _ λ owner_ok. require_then _ _ _ s _ λ tags_ok.
      require_then _ _ _ s _ λ asset_ok. require_then _ _ _ s _ λ now_ok. inr (record {
        id_ok = id_ok;
        set_ok = passes-none _ set_ok;
        owner_ok = owner_ok;
        tags_ok = tags_ok;
        asset_ok = asset_ok;
        now_ok = now_ok;
      })
