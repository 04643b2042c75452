-- ===== src/Aggregate/Valid.antt =====
-- lib/page/aggregate.ts: what a page without a violation has.
use iam_pager.Base.{none, true, false, ◌≡◌, ◌↔◌, arith}
use iam_pager.Endpoint.{page_endpoint_set_violation}
use iam_pager.Page.{is_trial, is_valid_page_id, is_valid_page_tags, is_valid_page_revision}
use iam_pager.Content.{is_valid_date, is_valid_content_asset_id}
use iam_pager.Aggregate.{
  PageAggregate, page_aggregate_violation, is_public, has_tags, without_owner, health_violation,
}

-- A trial is public, has no tags, and does not block writes.
pub record IsPlain (p : PageAggregate) : Type 0 where
  pub public_ok : is_public p.access ≡ true
  pub tagless : has_tags p.tags ≡ false
  pub open_ok : p.block_api_write ≡ false

pub record IsValidPage (p : PageAggregate) : Type 0 where
  pub id_ok : is_valid_page_id p.page_id ≡ true
  pub set_ok : page_endpoint_set_violation p.endpoint_set ≡ none
  pub tags_ok : is_valid_page_tags p.tags ≡ true
  pub trial_ok : is_trial p.stewardship ≡ true → IsPlain p
  pub owner_ok : without_owner p.stewardship ≡ false
  pub revision_ok : is_valid_page_revision p.revision ≡ true
  pub asset_ok : is_valid_content_asset_id p.content_asset_id ≡ true
  pub health_ok : health_violation p.external_missing ≡ false
  pub created_ok : is_valid_date p.created_at ≡ true
  pub updated_ok : is_valid_date p.updated_at ≡ true

violation-none-IsValidPage : (p : PageAggregate) → page_aggregate_violation p ≡ none → IsValidPage p
unfolding page_aggregate_violation
violation-none-IsValidPage p h = record {
  id_ok = ground arith;
  set_ok = ground arith;
  tags_ok = ground arith;
  trial_ok =
      λ t. record { public_ok = ground arith; tagless = ground arith; open_ok = ground arith };
  owner_ok = ground arith;
  revision_ok = ground arith;
  asset_ok = ground arith;
  health_ok = ground arith;
  created_ok = ground arith;
  updated_ok = ground arith;
}

IsValidPage-violation : (p : PageAggregate) → IsValidPage p → page_aggregate_violation p ≡ none
unfolding page_aggregate_violation
IsValidPage-violation p v = ground (arith, v.set_ok, v.trial_ok)

-- The violations are exactly the ways in which a page can fail to be valid.
pub violation-none_iff : (p : PageAggregate) → (page_aggregate_violation p ≡ none) ↔ IsValidPage p
violation-none_iff p = (violation-none-IsValidPage p, IsValidPage-violation p)
