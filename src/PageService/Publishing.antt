-- ===== src/PageService/Publishing.antt =====
-- lib/page/service.ts: `publish_trial` and `create_managed`.
use iam_pager.Base.{Text, ℕ, zero, suc, List, [], Option, none, some, not, any, or_else}
use iam_pager.Content.{Date}
use iam_pager.Endpoint.{PageEndpointSet}
use iam_pager.Page.{normalize_page_tags}
use iam_pager.Aggregate.{PageAggregate, is_public}
use iam_pager.Namespace.{guest_actor}
use iam_pager.PageRepository.Requests.{Reason, Reply, committed, rejected, CommitOutcome}
use iam_pager.PageRepository.Trials.{put_trial_page_aggregate}
use iam_pager.PageRepository.Creation.{create_managed_page_aggregate}
use iam_pager.PageService.Model.{
  Setting, PublishTrialRequest, CreateRequest, Failure, PreparedPageContent, PageSummary,
  ServiceOutcome, page_created, page_replaced, page_replaced_trial,
}
use iam_pager.PageService.Call.{
  Call, Stop, fails, throws, ServiceFault, ◌>>=◌, ◌>>◌, pure, stop, unless, ask, given,
}
use iam_pager.PageService.Content.{prepare_content, stage_prepared_content_asset}
use iam_pager.PageService.Endpoints.{
  prepare_endpoint_command, endpoint_authorities, require_authority, is_unreserved, as_actor,
}
use iam_pager.PageService.Pages.{
  require_user, operation_time, generate_page_id, materialize_aggregate, summary_of,
}

abbrev pub outcome_name : CommitOutcome → ServiceOutcome
outcome_name CommitOutcome.created = page_created
outcome_name CommitOutcome.replaced = page_replaced
outcome_name CommitOutcome.replaced_trial = page_replaced_trial
outcome_name CommitOutcome.updated = page_replaced

unfoldable pub published :
    Setting → CommitOutcome → PageAggregate → Call (ServiceOutcome × PageSummary)
published g outcome page = do
  found ← materialize_aggregate page
  shown ← summary_of g found
  pure (outcome_name outcome, shown)

-- What a rejected `put_trial` ends the loop with, or nothing where another identity is tried
abbrev pub after_trial : Reason → Option Stop
after_trial Reason.managed_conflict = some (fails Failure.namespace_reserved)
after_trial Reason.endpoint_conflict = some (fails Failure.endpoint_conflict)
after_trial Reason.revision_exhausted = some (fails Failure.revision_exhausted)
after_trial Reason.page_id_conflict = none
after_trial reason = some (throws (ServiceFault.persistence reason))

-- The end of a loop, or its next round
unfoldable pub ended_or : {A : Type 0} → Option Stop → Call A → Call A
ended_or none again = again
ended_or (some e) again = stop e

unfoldable pub trial_reply :
    Setting → Reply → Call (ServiceOutcome × PageSummary) → Call (ServiceOutcome × PageSummary)
trial_reply g (committed outcome page) again = published g outcome page
trial_reply g (rejected reason) again = ended_or (after_trial reason) again

unfoldable pub put_trial_attempts :
    ℕ → Setting → PageEndpointSet → PreparedPageContent → Date → Call (ServiceOutcome × PageSummary)
put_trial_attempts zero g set content now = stop (fails Failure.page_id_generation_exhausted)
put_trial_attempts (suc n) g set content now = do
  page_id ← generate_page_id g
  content_asset_id ← stage_prepared_content_asset g content now
  reply ← ask (
      put_trial_page_aggregate (record {
        page_id = page_id;
        endpoint_set = set;
        content_asset_id = content_asset_id;
        now = now;
      }))
  trial_reply g reply (put_trial_attempts n g set content now)

unfoldable pub publish_trial : Setting → PublishTrialRequest → Call (ServiceOutcome × PageSummary)
publish_trial g r = do
  set ← prepare_endpoint_command g r.endpoints r.content.content_type
  unless (is_public r.access) (fails Failure.private_requires_managed_page)
  unless
      (not
        (any (λ authority. not (is_unreserved authority)) (endpoint_authorities g guest_actor set)))
      (fails Failure.namespace_reserved)
  content ← prepare_content g r.content guest_actor
  now ← operation_time g
  put_trial_attempts g.max_page_id_attempts g set content now

-- Every other rejection counts as a taken page identity.
abbrev pub after_create : Reason → Option Stop
after_create Reason.managed_conflict = some (fails Failure.page_exists)
after_create reason = none

unfoldable pub create_reply :
    Setting → Reply → Call (ServiceOutcome × PageSummary) → Call (ServiceOutcome × PageSummary)
create_reply g (committed outcome page) again = published g outcome page
create_reply g (rejected reason) again = ended_or (after_create reason) again

unfoldable pub create_attempts :
    ℕ
    → Setting
    → CreateRequest
    → PageEndpointSet
    → List Text
    → PreparedPageContent
    → Date
    → Call (ServiceOutcome × PageSummary)
create_attempts zero g r set tags content now = stop (fails Failure.page_id_generation_exhausted)
create_attempts (suc n) g r set tags content now = do
  page_id ← generate_page_id g
  content_asset_id ← stage_prepared_content_asset g content now
  reply ← ask (
      create_managed_page_aggregate (record {
        page_id = page_id;
        endpoint_set = set;
        owner_user_id = r.actor.user_id;
        access = r.access;
        tags = tags;
        content_asset_id = content_asset_id;
        now = now;
      }))
  create_reply g reply (create_attempts n g r set tags content now)

unfoldable pub create_managed : Setting → CreateRequest → Call (ServiceOutcome × PageSummary)
create_managed g r = do
  require_user r.actor
  set ← prepare_endpoint_command g r.endpoints r.content.content_type
  tags ← given (normalize_page_tags (or_else r.tags [])) (fails Failure.invalid_tags)
  require_authority g r.actor set
  content ← prepare_content g r.content (as_actor r.actor)
  now ← operation_time g
  create_attempts g.max_page_id_attempts g r set tags content now
