-- ===== src/Aggregate.antt =====
-- lib/page/aggregate.ts: the stored page and its invariant.
pub mod Valid
use iam_pager.Base.{
  Text, ℕ, Bool, ◌&&◌, List, [], ◌∷◌, Option, none, some, if◌then◌else◌, true, false, not,
}
use iam_pager.Base.Patterns.{non_empty}
use iam_pager.Endpoint.{
  PageEndpointSet, PageEndpointBinding, EndpointViolation, page_endpoint_set_violation, bindings_of,
}
use iam_pager.Page.{
  PageAccess, everyone, owner_only, PageStewardship, trial, managed, is_trial, is_valid_page_id,
  is_valid_page_tags, is_valid_page_revision,
}
use iam_pager.Content.{Date, is_valid_date, is_valid_content_asset_id}

pub data ExternalContentMissingCause : Type 0 where
  external_content_missing connection_revoked integrity_mismatch : ExternalContentMissingCause

pub record ExternalContentMissingState : Type 0 where
  pub cause : ExternalContentMissingCause
  pub detected_at : Date

-- `block_api_write` is `true` where the optional field is present.
pub record PageAggregate : Type 0 where
  pub page_id : Text
  pub endpoint_set : PageEndpointSet
  pub stewardship : PageStewardship
  pub access : PageAccess
  pub tags : List Text
  pub revision : ℕ
  pub content_asset_id : Text
  pub external_missing : Option ExternalContentMissingState
  pub block_api_write : Bool
  pub created_at : Date
  pub updated_at : Date

pub data PageViolation : Type 0 where
  bad_page_id : PageViolation
  bad_endpoint_set : EndpointViolation → PageViolation
  bad_tags trial_not_public trial_with_tags empty_owner bad_revision bad_content_asset_id
        bad_external_missing trial_blocking bad_timestamps :
      PageViolation

unfoldable pub page_aggregate_endpoint_bindings : PageAggregate → List PageEndpointBinding
page_aggregate_endpoint_bindings page = bindings_of page.endpoint_set

abbrev pub is_public : PageAccess → Bool
is_public everyone = true
is_public owner_only = false

abbrev pub without_owner : PageStewardship → Bool
without_owner trial = false
without_owner (managed owner_user_id) = not (non_empty owner_user_id)

abbrev pub external_content_missing_state_violation : ExternalContentMissingState → Bool
external_content_missing_state_violation state = not (is_valid_date state.detected_at)

abbrev pub health_violation : Option ExternalContentMissingState → Bool
health_violation none = false
health_violation (some state) = external_content_missing_state_violation state

abbrev pub has_tags : List Text → Bool
has_tags [] = false
has_tags (_ ∷ _) = true

own_violation : PageAggregate → Option PageViolation
own_violation page =
    if not (is_valid_page_tags page.tags)
    then some bad_tags
    else if is_trial page.stewardship && not (is_public page.access)
    then some trial_not_public
    else if is_trial page.stewardship && has_tags page.tags
    then some trial_with_tags
    else if without_owner page.stewardship
    then some empty_owner
    else if not (is_valid_page_revision page.revision)
    then some bad_revision
    else if not (is_valid_content_asset_id page.content_asset_id)
    then some bad_content_asset_id
    else if health_violation page.external_missing
    then some bad_external_missing
    else if is_trial page.stewardship && page.block_api_write
    then some trial_blocking
    else if not (is_valid_date page.created_at && is_valid_date page.updated_at)
    then some bad_timestamps
    else none

-- The order of the tests is the source's: identity, endpoints, then the page's own fields.
unfoldable pub page_aggregate_violation : PageAggregate → Option PageViolation
unfolding own_violation
page_aggregate_violation page =
    if not (is_valid_page_id page.page_id)
    then some bad_page_id
    else elim (page_endpoint_set_violation page.endpoint_set) [
      | some violation ↦ some (bad_endpoint_set violation)
      | none ↦ own_violation page
    ]
