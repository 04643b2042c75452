-- ===== src/PageService/Model.antt =====
-- lib/page/interfaces.ts and lib/page/service.ts: requests, answers, and what the service is given.
use iam_pager.Base.{Text, ℕ, Bool, List, Option}
use iam_pager.Locator.{Locator}
use iam_pager.Locator.Engine.{LocatorEngine}
use iam_pager.Endpoint.{PageEndpointSet}
use iam_pager.Endpoint.Planner.{PlanFailure, PageEndpointLinks}
use iam_pager.Content.{Date, ContentMeta, ExternalContentRef}
use iam_pager.Page.{PageAccess, PageStewardship}
use iam_pager.Aggregate.{PageAggregate, ExternalContentMissingState}
use iam_pager.Namespace.{Reservations}

pub data Body : Type 0 where
  characters : Text → Body
  bytes : List ℕ → Body

pub record DeliveryPayload : Type 0 where
  pub body : Body
  pub media_type : Text
  pub download_filename : Option Text

pub data ContentResult : Type 0 where
  valid : Text → ContentResult
  invalid_because : Text → ContentResult

-- A content type's handler; its inputs and data are in whatever text form it keeps them.
pub record ContentTypeHandler : Type 0 where
  pub content_type : Text
  pub canonical_codec_version : Text
  pub supported_delivery_profiles : List Text
  pub validate_input : Text → ContentResult
  pub derive : Text → Text
  pub to_management : Text → Text
  pub render : Text → DeliveryPayload

pub data ExternalStorageFailure : Type 0 where
  external_content_missing connection_revoked : ExternalStorageFailure
  external_source_unreachable : Option ℕ → ExternalStorageFailure

-- What a provider answers: a value, a failure, or an exception
pub data ExternalStorageResult (A : Type 0) : Type 0 where
  value : A → ExternalStorageResult A
  failure : ExternalStorageFailure → ExternalStorageResult A
  raised : ExternalStorageResult A

pub record ExternalContentStat : Type 0 where
  pub size_bytes : ℕ
  pub version_hint : Option Text

pub record ExternalContentPayload : Type 0 where
  pub body : List ℕ
  pub stat : ExternalContentStat

pub record ExternalContentPutInput : Type 0 where
  pub connection_id : Text
  pub body : List ℕ
  pub media_type : Text
  pub download_filename : Option Text

-- `put_content`: absent where the provider has no such method
pub record ExternalStorageProvider : Type 0 where
  pub provider_id : Text
  pub capabilities : List Text
  pub fetch_content : ExternalContentRef → ℕ → ExternalStorageResult ExternalContentPayload
  pub stat_content : ExternalContentRef → ExternalStorageResult ExternalContentStat
  pub put_content : Option (ExternalContentPutInput → ExternalStorageResult ExternalContentRef)

-- What the service holds, and what the platform gives during the call: the time, the identities and
-- names that the generators draw, the encoder and decoder of texts, and the digest.
pub record Setting : Type 0 where
  pub engine : LocatorEngine
  pub reservations : Reservations
  pub handlers : List ContentTypeHandler
  pub provider_of : Text → Option ExternalStorageProvider
  pub active_connection : Text → Text → Option Text
  pub page_ids : ℕ → Text
  pub asset_ids : ℕ → Text
  pub page_names : ℕ → List Text → Text
  pub now : Date
  pub max_page_id_attempts : ℕ
  pub max_page_name_attempts : ℕ
  pub encode : Text → List ℕ
  pub decode : List ℕ → Text
  pub sha256 : List ℕ → Text

pub record UserPageActor : Type 0 where
  pub user_id : Text
  pub via_api_key : Bool

pub record PageContentCommand : Type 0 where
  pub content_type : Text
  pub input : Text
  pub storage : Option Text

-- The shorthand and the complete set of a `PageEndpointCommand`
pub record EndpointCommand : Type 0 where
  pub locator : Option Locator
  pub endpoint_set : Option PageEndpointSet

pub record PublishTrialRequest : Type 0 where
  pub endpoints : EndpointCommand
  pub access : PageAccess
  pub content : PageContentCommand

pub record CreateRequest : Type 0 where
  pub actor : UserPageActor
  pub endpoints : EndpointCommand
  pub access : PageAccess
  pub tags : Option (List Text)
  pub content : PageContentCommand

pub record ManagedPatch : Type 0 where
  pub access : Option PageAccess
  pub tags : Option (List Text)
  pub content : Option PageContentCommand
  pub endpoint_set : Option PageEndpointSet
  pub block_api_write : Option Bool

pub record UpdateRequest : Type 0 where
  pub actor : UserPageActor
  pub page_id : Text
  pub expected_revision : ℕ
  pub patch : ManagedPatch

pub record DeleteRequest : Type 0 where
  pub actor : UserPageActor
  pub page_id : Text
  pub expected_revision : ℕ

pub record RelinkRequest : Type 0 where
  pub actor : UserPageActor
  pub page_id : Text
  pub expected_revision : ℕ
  pub external_ref : Text

pub record RenameRequest : Type 0 where
  pub actor : UserPageActor
  pub page_id : Text
  pub expected_revision : ℕ
  pub page_name : Option Text

pub record DuplicateRequest : Type 0 where
  pub actor : UserPageActor
  pub page_id : Text
  pub expected_revision : ℕ
  pub endpoint_set : Option PageEndpointSet

pub record Selection : Type 0 where
  pub page_id : Text
  pub expected_revision : ℕ

-- `{ ok: false, reason }`
pub data Failure : Type 0 where
  unplanned : PlanFailure → Failure
  invalid_input : Text → Failure
  not_found api_write_blocked protection_requires_session revision_conflict revision_exhausted
        empty_patch invalid_access invalid_tags invalid_selection private_requires_managed_page
        namespace_reserved namespace_not_reserved page_exists endpoint_conflict
        endpoint_capacity_exceeded unknown_content_type external_storage_requires_managed_page
        invalid_storage_provider storage_connection_not_found storage_provider_unavailable
        storage_provider_not_writable content_missing revoked_connection source_unreachable
        page_id_generation_exhausted page_name_generation_exhausted endpoint_set_required
        invalid_page_name content_not_external invalid_external_ref provider_unavailable
        external_content_mismatch corrupt :
      Failure

pub data PreparedPageContent : Type 0 where
  inline_content : Text → Text → ContentMeta → PreparedPageContent
  external_content : Text → ExternalContentRef → ContentMeta → PreparedPageContent

pub data MaterializedContent : Type 0 where
  inline_data : Text → Text → ContentMeta → MaterializedContent
  external_source : Text → ExternalContentRef → ContentMeta → MaterializedContent

pub record MaterializedPage : Type 0 where
  pub page : PageAggregate
  pub content : MaterializedContent

pub record PageSummary : Type 0 where
  pub page_id : Text
  pub locator : Locator
  pub path : Text
  pub endpoints : PageEndpointLinks
  pub access : PageAccess
  pub content_type : Text
  pub size_bytes : ℕ
  pub tags : List Text
  pub created_at : Date
  pub updated_at : Date
  pub revision : ℕ
  pub external_missing : Option ExternalContentMissingState
  pub block_api_write : Bool

pub record PublicPageSummary : Type 0 where
  pub locator : Locator
  pub path : Text
  pub endpoints : PageEndpointLinks
  pub stewardship : PageStewardship
  pub content_type : Text
  pub media_type : Text
  pub size_bytes : ℕ
  pub tags : List Text
  pub created_at : Date
  pub updated_at : Date

-- The handler's management form, or what stands for it with external content
pub data ManagementInput : Type 0 where
  handler_input : Text → ManagementInput
  no_input : Text → Text → ManagementInput
  replaceable_file : Text → Text → ℕ → Text → Text → ManagementInput

pub record ManagedPageInspection : Type 0 where
  pub summary : PageSummary
  pub content_type : Text
  pub input : ManagementInput

pub data ServiceOutcome : Type 0 where
  page_created page_replaced page_replaced_trial page_renamed page_unchanged : ServiceOutcome

pub data ItemResult (A : Type 0) : Type 0 where
  item_done : Text → A → ItemResult A
  item_failed : Text → Failure → ItemResult A
