-- ===== src/PageService/Relinking.antt =====
-- lib/page/service.ts: `relink_managed_external_content`.
use iam_pager.Base.{Text, none, some, ◌&&◌, not, is_some, eqb, length, Bool}
use iam_pager.Locator.Engine.{same_optional}
use iam_pager.Content.{ExternalContentRef, ContentMeta, external_content_ref_violation, Date}
use iam_pager.PageRepository.Requests.{UpdateManagedRequest, Reason, Reply, committed, rejected}
use iam_pager.PageRepository.Changes.{update_managed_page_aggregate}
use iam_pager.PageService.Model.{
  Setting, RelinkRequest, Failure, MaterializedContent, inline_data, external_source,
  external_content, MaterializedPage, ManagedPageInspection, ExternalContentPayload,
}
use iam_pager.PageService.Call.{
  Call, Stop, fails, throws, ServiceFault, ◌>>=◌, ◌>>◌, pure, stop, unless, ask, given,
}
use iam_pager.PageService.Content.{provided, stage_prepared_content_asset}
use iam_pager.PageService.Pages.{
  require_user, operation_time, find_writable_page, materialize_aggregate, inspection,
}
use iam_pager.PageService.Updating.{require_revision, require_current}

-- The page's provider and connection with another object of the provider
abbrev candidate : ExternalContentRef → Text → ExternalContentRef
candidate ref external_ref = record {
  provider_id = ref.provider_id;
  connection_id = ref.connection_id;
  external_ref = external_ref;
  version_hint = none;
}

-- The object's bytes are those that the page's asset was published with.
abbrev pub is_same_content : Setting → ContentMeta → ExternalContentPayload → Bool
is_same_content g meta fetched =
    eqb fetched.stat.size_bytes meta.size_bytes
    && eqb (length fetched.body) meta.size_bytes
    && same_optional (some (g.sha256 fetched.body)) meta.sha256

-- The checks on the object, up to the reference that is stored
unfoldable pub relinked_ref :
    Setting → ExternalContentRef → ContentMeta → Text → Call ExternalContentRef
relinked_ref g ref meta external_ref = do
  unless (not (is_some (external_content_ref_violation (candidate ref external_ref))))
      (fails Failure.invalid_external_ref)
  provider ← given (g.provider_of ref.provider_id) (fails Failure.provider_unavailable)
  stated ← provided (provider.stat_content (candidate ref external_ref))
  unless (eqb stated.size_bytes meta.size_bytes) (fails Failure.external_content_mismatch)
  fetched ← provided (
      provider.fetch_content
        (record (candidate ref external_ref) { version_hint = stated.version_hint })
        meta.size_bytes)
  unless (is_same_content g meta fetched) (fails Failure.external_content_mismatch)
  pure (record (candidate ref external_ref) { version_hint = stated.version_hint })

abbrev pub relink_request : RelinkRequest → MaterializedPage → Text → Date → UpdateManagedRequest
relink_request r page content_asset_id now = record {
  page_id = page.page.page_id;
  owner_user_id = r.actor.user_id;
  expected_revision = r.expected_revision;
  patch = record {
    endpoint_set = none;
    content_asset_id = some content_asset_id;
    access = none;
    tags = none;
    block_api_write = none;
  };
  now = now;
}

abbrev after_relink : Reason → Stop
after_relink Reason.not_found = fails Failure.not_found
after_relink Reason.revision_conflict = fails Failure.revision_conflict
after_relink Reason.revision_exhausted = fails Failure.revision_exhausted
after_relink reason = throws (ServiceFault.persistence reason)

unfoldable pub relinked_reply : Setting → Reply → Call ManagedPageInspection
relinked_reply g (committed outcome page) = materialize_aggregate page >>= inspection g
relinked_reply g (rejected reason) = stop (after_relink reason)

unfoldable pub relink_content :
    Setting → RelinkRequest → MaterializedPage → MaterializedContent → Call ManagedPageInspection
relink_content g r page (inline_data content_type data_text meta) =
    stop (fails Failure.content_not_external)
relink_content g r page (external_source content_type ref meta) = do
  linked ← relinked_ref g ref meta r.external_ref
  now ← operation_time g
  content_asset_id ← stage_prepared_content_asset g (external_content content_type linked meta) now
  reply ← ask (update_managed_page_aggregate (relink_request r page content_asset_id now))
  relinked_reply g reply

unfoldable pub relink_managed_external_content :
    Setting → RelinkRequest → Call ManagedPageInspection
relink_managed_external_content g r = do
  require_user r.actor
  require_revision r.expected_revision
  page ← find_writable_page g r.actor r.page_id
  require_current page.page r.expected_revision
  relink_content g r page page.content
