-- ===== src/PageRepository/Requests.antt =====
-- lib/page/aggregate-interfaces.ts: what the repository is asked, and what it answers.
use iam_pager.Base.{Text, ℕ, Bool, List, Option}
use iam_pager.Endpoint.{PageEndpointSet, PageEndpointBinding}
use iam_pager.Page.{PageAccess}
use iam_pager.Content.{Date, ContentAsset}
use iam_pager.Aggregate.{PageAggregate, ExternalContentMissingState}

pub record PutTrialRequest : Type 0 where
  pub page_id : Text
  pub endpoint_set : PageEndpointSet
  pub content_asset_id : Text
  pub now : Date

-- `tags`: empty where the request leaves them out
pub record CreateManagedRequest : Type 0 where
  pub page_id : Text
  pub endpoint_set : PageEndpointSet
  pub owner_user_id : Text
  pub access : PageAccess
  pub tags : List Text
  pub content_asset_id : Text
  pub now : Date

pub record PagePatch : Type 0 where
  pub endpoint_set : Option PageEndpointSet
  pub content_asset_id : Option Text
  pub access : Option PageAccess
  pub tags : Option (List Text)
  pub block_api_write : Option Bool

pub record UpdateManagedRequest : Type 0 where
  pub page_id : Text
  pub owner_user_id : Text
  pub expected_revision : ℕ
  pub patch : PagePatch
  pub now : Date

pub record DuplicateManagedRequest : Type 0 where
  pub source_page_id : Text
  pub owner_user_id : Text
  pub expected_revision : ℕ
  pub page_id : Text
  pub endpoint_set : PageEndpointSet
  pub now : Date

pub record DeleteManagedRequest : Type 0 where
  pub page_id : Text
  pub owner_user_id : Text
  pub expected_revision : ℕ

pub record UpdateHealthRequest : Type 0 where
  pub page_id : Text
  pub content_asset_id : Text
  pub external_missing : Option ExternalContentMissingState

pub data Reason : Type 0 where
  managed_conflict endpoint_conflict page_id_conflict content_asset_not_found revision_exhausted
        not_found revision_conflict content_asset_id_conflict stale :
      Reason

pub data CommitOutcome : Type 0 where
  created replaced replaced_trial updated : CommitOutcome

-- The answer of an operation that writes a page
pub data Reply : Type 0 where
  committed : CommitOutcome → PageAggregate → Reply
  rejected : Reason → Reply

pub data AssetReply : Type 0 where
  asset_stored : ContentAsset → AssetReply
  asset_rejected : Reason → AssetReply

pub data DeleteReply : Type 0 where
  deleted : DeleteReply
  delete_rejected : Reason → DeleteReply

pub data HealthReply : Type 0 where
  health_updated health_unchanged : HealthReply
  health_rejected : Reason → HealthReply

pub record ResolvedPageEndpoint : Type 0 where
  pub page : PageAggregate
  pub endpoint : PageEndpointBinding
