-- ===== src/PageRepository/Revisions.antt =====
-- lib/page/memory-aggregate-repository.ts: updating a managed page, on every branch.
use iam_pager.Base.{Text, ℕ, List, [], Option, none, some, or_else, true, ◌≡◌, ◌≢◌, arith}
use iam_pager.Base.Patterns.{non_empty}
use iam_pager.Base.Map.{get}
use iam_pager.Endpoint.{PageEndpointSet, page_endpoint_set_violation}
use iam_pager.Page.{is_valid_page_id, is_valid_page_tags, is_valid_page_revision, max_safe_integer}
use iam_pager.Content.{is_valid_date, is_valid_content_asset_id}
use iam_pager.Aggregate.Valid.{violation-none_iff}
use iam_pager.Aggregate.{PageAggregate, page_aggregate_violation}
use iam_pager.PageRepository.State.{Repository, is_owned_by}
use iam_pager.PageRepository.Requests.{UpdateManagedRequest}
use iam_pager.PageRepository.Changes.{updated_page, changes_something}
use iam_pager.PageRepository.Clearing.{Displaces}

-- A condition on a value that may be left out
abbrev pub Given : {A : Type 0} → (A → Type 0) → Option A → Type 0
Given P none = Unit
Given P (some a) = P a

pub record IsValidUpdate (r : UpdateManagedRequest) : Type 0 where
  pub id_ok : is_valid_page_id r.page_id ≡ true
  pub owner_ok : non_empty r.owner_user_id ≡ true
  pub revision_ok : is_valid_page_revision r.expected_revision ≡ true
  pub patch_ok : changes_something r.patch ≡ true
  pub set_ok : Given (λ set. page_endpoint_set_violation set ≡ none) r.patch.endpoint_set
  pub asset_ok : Given (λ id. is_valid_content_asset_id id ≡ true) r.patch.content_asset_id
  pub tags_ok : Given (λ tags. is_valid_page_tags tags ≡ true) r.patch.tags
  pub now_ok : is_valid_date r.now ≡ true

-- The page that the request may update: it is the requester's, at the revision that was expected.
pub record IsCurrent (id owner : Text) (revision : ℕ) (existing : PageAggregate) (s : Repository)
    : Type 0 where
  pub stands : get s.pages id ≡ some existing
  pub owned : is_owned_by owner existing.stewardship ≡ true
  pub expected : existing.revision ≡ revision

-- The trials that an update displaces: none where it keeps the endpoint set.
abbrev pub DisplacesIf : Text → Option PageEndpointSet → List Text → Repository → Type 0
DisplacesIf id none found s = found ≡ []
DisplacesIf id (some set) found s = Displaces (some id) set found s

Given-or_else :
    {A : Type 0} (P : A → Type 0) (o : Option A) {a : A} → Given P o → P a → P (or_else o a)
Given-or_else P none g h = h
Given-or_else P (some b) g h = g

pub updated_page-valid :
    (r : UpdateManagedRequest) (existing : PageAggregate)
    → IsValidUpdate r
    → page_aggregate_violation existing ≡ none
    → is_owned_by r.owner_user_id existing.stewardship ≡ true
    → existing.revision ≢ max_safe_integer
    → page_aggregate_violation (updated_page r existing) ≡ none
updated_page-valid r existing v ok owned below =
    let w = (violation-none_iff existing).0 ok in
    (violation-none_iff (updated_page r existing)).1 (record {
      id_ok = w.id_ok;
      set_ok =
          Given-or_else (λ set. page_endpoint_set_violation set ≡ none) r.patch.endpoint_set
            v.set_ok w.set_ok;
      tags_ok =
          Given-or_else (λ tags. is_valid_page_tags tags ≡ true) r.patch.tags v.tags_ok w.tags_ok;
      trial_ok = λ t. absurd (ground arith);
      owner_ok = w.owner_ok;
      revision_ok = ground (arith, w.revision_ok);
      asset_ok =
          Given-or_else (λ id. is_valid_content_asset_id id ≡ true) r.patch.content_asset_id
            v.asset_ok w.asset_ok;
      health_ok = ground (arith, w.health_ok);
      created_ok = w.created_ok;
      updated_ok = v.now_ok;
    })
