-- ===== src/PageService/Updating.antt =====
-- lib/page/service.ts: `update_managed`, `rename_managed` and `delete_managed`.
use iam_pager.Base.{
  Text, ℕ, Bool, List, Option, none, some, if◌then◌else◌, not, or_else, ◌&&◌, ◌||◌, is_some, eqb,
}
use iam_pager.Content.{Date}
use iam_pager.Base.Exec.{Outcome, returned, thrown}
use iam_pager.Locator.{Locator}
use iam_pager.Locator.Engine.{same_optional}
use iam_pager.Endpoint.{PageEndpointSet}
use iam_pager.Endpoint.Planner.{PlanFailure}
use iam_pager.Page.{PageAccess, normalize_page_tags, is_valid_page_revision, max_safe_integer}
use iam_pager.Aggregate.{PageAggregate}
use iam_pager.PageRepository.Requests.{
  UpdateManagedRequest, DeleteManagedRequest, Reason, Reply, committed, rejected, CommitOutcome,
  DeleteReply, deleted, delete_rejected,
}
use iam_pager.PageRepository.Changes.{update_managed_page_aggregate, delete_managed_page_aggregate}
use iam_pager.PageService.Model.{
  Setting, UpdateRequest, ManagedPatch, RenameRequest, DeleteRequest, UserPageActor, Failure,
  PreparedPageContent, inline_content, external_content, ServiceOutcome, page_renamed,
  page_replaced_trial, page_unchanged, MaterializedPage, ManagedPageInspection,
}
use iam_pager.PageService.Call.{
  Call, World, Stop, fails, throws, ServiceFault, ◌>>=◌, ◌>>◌, pure, stop, unless, ask, given,
}
use iam_pager.PageService.Content.{prepare_content, stage_prepared_content_asset, require_handler}
use iam_pager.PageService.Endpoints.{
  prepare_endpoint_intent, require_authority, page_endpoint_sets_equal, as_actor,
}
use iam_pager.PageService.Pages.{
  require_user, operation_time, find_writable_page, materialize_aggregate, inspection, type_of,
}

unfoldable pub require_revision : ℕ → Call (Unit {0})
require_revision revision =
    unless (is_valid_page_revision revision) (throws ServiceFault.bad_expected_revision)

-- The revision tests that the operations on one page share
unfoldable pub require_current : PageAggregate → ℕ → Call (Unit {0})
require_current page expected =
    unless (eqb page.revision expected) (fails Failure.revision_conflict)
    >> unless (not (eqb page.revision max_safe_integer)) (fails Failure.revision_exhausted)

-- A step that is taken only where a value is given
unfoldable pub optionally : {A B : Type 0} → Option A → (A → Call B) → Call (Option B)
optionally none f = pure none
optionally (some a) f = f a >>= λ b. pure (some b)

abbrev pub prepared_content_type : PreparedPageContent → Text
prepared_content_type (inline_content content_type data_text meta) = content_type
prepared_content_type (external_content content_type ref meta) = content_type

-- The request of `replace_managed_record`
pub record Replacement : Type 0 where
  pub page_id : Text
  pub owner_user_id : Text
  pub expected_revision : ℕ
  pub access : PageAccess
  pub tags : Option (List Text)
  pub content : Option PreparedPageContent
  pub endpoint_set : Option PageEndpointSet
  pub block_api_write : Option Bool
  pub now : Date

abbrev pub replacement_request : Replacement → Option Text → UpdateManagedRequest
replacement_request r content_asset_id = record {
  page_id = r.page_id;
  owner_user_id = r.owner_user_id;
  expected_revision = r.expected_revision;
  patch = record {
    endpoint_set = r.endpoint_set;
    content_asset_id = content_asset_id;
    access = some r.access;
    tags = r.tags;
    block_api_write = r.block_api_write;
  };
  now = r.now;
}

-- What a rejected update is to `replace_managed_record`
abbrev pub after_replace : Reason → Stop
after_replace Reason.not_found = fails Failure.not_found
after_replace Reason.revision_conflict = fails Failure.revision_conflict
after_replace Reason.endpoint_conflict = fails Failure.endpoint_conflict
after_replace reason = throws (ServiceFault.persistence reason)

unfoldable pub replace_managed_record : Setting → Replacement → Call Reply
replace_managed_record g r = do
  content_asset_id ← optionally r.content (λ content. stage_prepared_content_asset g content r.now)
  ask (update_managed_page_aggregate (replacement_request r content_asset_id))

abbrev is_empty_patch : ManagedPatch → Bool
is_empty_patch p = not (
    is_some p.access
    || is_some p.tags
    || is_some p.content
    || is_some p.endpoint_set
    || is_some p.block_api_write)

-- The set that an update stores: the planned one where it differs from the current one
unfoldable pub changed_set : PageEndpointSet → PageEndpointSet → Option PageEndpointSet
changed_set current set = if page_endpoint_sets_equal set current then none else some set

-- The authority is asked only where the patch gives endpoints.
unfoldable pub check_patched_set :
    Setting → UserPageActor → Option PageEndpointSet → PageEndpointSet → Call (Unit {0})
check_patched_set g user none set = pure tt
check_patched_set g user (some intent) set = require_authority g user set

abbrev patched_type : MaterializedPage → Option PreparedPageContent → Text
patched_type page none = type_of page.content
patched_type page (some prepared) = prepared_content_type prepared

unfoldable pub plan_patch :
    Setting
    → UpdateRequest
    → MaterializedPage
    → Option PreparedPageContent
    → Call (Option PageEndpointSet)
plan_patch g r page content = do
  set ←
      prepare_endpoint_intent g (or_else r.patch.endpoint_set page.page.endpoint_set)
        (patched_type page content)
  check_patched_set g r.actor r.patch.endpoint_set set
  pure (changed_set page.page.endpoint_set set)

unfoldable pub plan_update :
    Setting
    → UpdateRequest
    → MaterializedPage
    → Option PreparedPageContent
    → Call (Option PageEndpointSet)
plan_update g r page content =
    if is_some r.patch.endpoint_set || is_some content
    then plan_patch g r page content
    else pure none

-- An endpoints-only patch that plans to the current set changes nothing.
abbrev changes_nothing : ManagedPatch → Option PageEndpointSet → Bool
changes_nothing p set =
    is_some p.endpoint_set
    && not (is_some set)
    && not (is_some p.access || is_some p.tags || is_some p.content || is_some p.block_api_write)

abbrev after_update : Reason → Stop
after_update Reason.endpoint_conflict = fails Failure.page_exists
after_update reason = after_replace reason

unfoldable pub updated_reply : Setting → Reply → Call ManagedPageInspection
updated_reply g (committed outcome page) = materialize_aggregate page >>= inspection g
updated_reply g (rejected reason) = stop (after_update reason)

-- The part of `update_managed` that writes
unfoldable pub write_update :
    Setting
    → UpdateRequest
    → MaterializedPage
    → Option (List Text)
    → Option PreparedPageContent
    → Option PageEndpointSet
    → Call ManagedPageInspection
write_update g r page tags content set = do
  now ← operation_time g
  reply ← replace_managed_record g (record {
    page_id = page.page.page_id;
    owner_user_id = r.actor.user_id;
    expected_revision = r.expected_revision;
    access = or_else r.patch.access page.page.access;
    tags = tags;
    content = content;
    endpoint_set = set;
    block_api_write = r.patch.block_api_write;
    now = now;
  })
  updated_reply g reply

unfoldable pub normalized_tags : Option (List Text) → Call (Option (List Text))
normalized_tags tags =
    optionally tags
      (λ given_tags. given (normalize_page_tags given_tags) (fails Failure.invalid_tags))

unfoldable pub update_managed : Setting → UpdateRequest → Call ManagedPageInspection
update_managed g r = do
  require_user r.actor
  require_revision r.expected_revision
  unless (not (is_empty_patch r.patch)) (fails Failure.empty_patch)
  unless (not (is_some r.patch.block_api_write && r.actor.via_api_key))
      (fails Failure.protection_requires_session)
  tags ← normalized_tags r.patch.tags
  page ← find_writable_page g r.actor r.page_id
  require_current page.page r.expected_revision
  handler ← require_handler g (type_of page.content)
  content ← optionally r.patch.content (λ command. prepare_content g command (as_actor r.actor))
  set ← plan_update g r page content
  if changes_nothing r.patch set then inspection g page else write_update g r page tags content set

abbrev pub renamed_to : Locator → Option Text → Locator
renamed_to current page_name = record { namespace = current.namespace; page_name = page_name }

-- A plan that is declined in renaming: the reasons that the name cannot give are errors.
abbrev pub after_rename_plan : Stop → Stop
after_rename_plan (fails (Failure.unplanned PlanFailure.duplicate_locator)) =
    fails Failure.page_exists
after_rename_plan (fails (Failure.unplanned PlanFailure.invalid_locator)) =
    fails Failure.invalid_page_name
after_rename_plan (fails reason) = throws ServiceFault.stored_endpoint_invariant
after_rename_plan (throws fault) = throws fault

abbrev pub caught : {A : Type 0} → Outcome Stop A × World → (Stop → Call A) → Outcome Stop A × World
caught (returned a, w) f = (returned a, w)
caught (thrown e, w) f = f e w

-- `m`, and `f` of what ends it early
unfoldable pub catching : {A : Type 0} → Call A → (Stop → Call A) → Call A
catching m f w = caught (m w) f

abbrev rename_outcome : CommitOutcome → ServiceOutcome
rename_outcome CommitOutcome.updated = page_renamed
rename_outcome _ = page_replaced_trial

abbrev after_rename : Reason → Stop
after_rename Reason.endpoint_conflict = fails Failure.page_exists
after_rename Reason.not_found = fails Failure.not_found
after_rename Reason.revision_conflict = fails Failure.revision_conflict
after_rename reason = throws (ServiceFault.persistence reason)

unfoldable pub renamed_reply : Setting → Reply → Call (ServiceOutcome × ManagedPageInspection)
renamed_reply g (committed outcome page) = do
  found ← materialize_aggregate page
  shown ← inspection g found
  pure (rename_outcome outcome, shown)
renamed_reply g (rejected reason) = stop (after_rename reason)

abbrev pub rename_request :
    RenameRequest → PageAggregate → PageEndpointSet → Date → UpdateManagedRequest
rename_request r page set now = record {
  page_id = page.page_id;
  owner_user_id = r.actor.user_id;
  expected_revision = r.expected_revision;
  patch = record {
    endpoint_set = some set;
    content_asset_id = none;
    access = none;
    tags = none;
    block_api_write = none;
  };
  now = now;
}

-- The set of the page with its canonical locator renamed
abbrev pub renamed_set : PageEndpointSet → Option Text → PageEndpointSet
renamed_set set page_name = record set {
  canonical = record set.canonical { locator = renamed_to set.canonical.locator page_name };
}

unfoldable pub write_rename :
    Setting → RenameRequest → MaterializedPage → Call (ServiceOutcome × ManagedPageInspection)
write_rename g r page = do
  set ←
      catching
        (prepare_endpoint_intent g (renamed_set page.page.endpoint_set r.page_name)
          (type_of page.content))
        (λ e. stop (after_rename_plan e))
  unless (not (eqb page.page.revision max_safe_integer)) (fails Failure.revision_exhausted)
  now ← operation_time g
  reply ← ask (update_managed_page_aggregate (rename_request r page.page set now))
  renamed_reply g reply

unfoldable pub rename_managed :
    Setting → RenameRequest → Call (ServiceOutcome × ManagedPageInspection)
rename_managed g r = do
  require_user r.actor
  require_revision r.expected_revision
  page ← find_writable_page g r.actor r.page_id
  unless (eqb page.page.revision r.expected_revision) (fails Failure.revision_conflict)
  shown ← inspection g page
  if same_optional page.page.endpoint_set.canonical.locator.page_name r.page_name
      then pure (page_unchanged, shown)
      else write_rename g r page

abbrev after_delete : Reason → Stop
after_delete Reason.revision_conflict = fails Failure.revision_conflict
after_delete reason = fails Failure.not_found

unfoldable pub deleted_reply : DeleteReply → Call (Unit {0})
deleted_reply deleted = pure tt
deleted_reply (delete_rejected reason) = stop (after_delete reason)

abbrev pub delete_request : UserPageActor → PageAggregate → ℕ → DeleteManagedRequest
delete_request user page expected = record {
  page_id = page.page_id;
  owner_user_id = user.user_id;
  expected_revision = expected;
}

unfoldable pub delete_managed : Setting → DeleteRequest → Call (Unit {0})
delete_managed g r = do
  require_user r.actor
  require_revision r.expected_revision
  page ← find_writable_page g r.actor r.page_id
  reply ← ask (delete_managed_page_aggregate (delete_request r.actor page.page r.expected_revision))
  deleted_reply reply
