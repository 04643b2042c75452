-- ===== src/PageService/Pages.antt =====
-- lib/page/service.ts: finding a page for its owner, its content, and what is shown of it.
use iam_pager.Base.{
  Text, Bool, Option, none, some, if◌then◌else◌, ◌==◌, ◌&&◌, not, codes, or_else, [],
}
use iam_pager.Endpoint.Planner.{PageEndpointLinks, project_page_endpoint_links}
use iam_pager.Content.{
  Date, is_valid_date, ContentMeta, ContentAsset, ContentAssetSource, inline, external,
}
use iam_pager.Page.{is_valid_page_id}
use iam_pager.Aggregate.{PageAggregate}
use iam_pager.Namespace.{resolve_authority}
use iam_pager.PageRepository.State.{is_owned_by}
use iam_pager.PageRepository.Reads.{find_page_aggregate_by_id, find_content_asset_by_id}
use iam_pager.PageService.Model.{
  Setting, UserPageActor, Failure, MaterializedContent, inline_data, external_source,
  MaterializedPage, PageSummary, PublicPageSummary, ManagementInput, handler_input, no_input,
  replaceable_file, ManagedPageInspection, ContentTypeHandler,
}
use iam_pager.PageService.Call.{
  Call, fails, throws, ServiceFault, ◌>>=◌, ◌>>◌, pure, unless, ask, given, draw_page_id,
}
use iam_pager.PageService.Content.{require_handler}
use iam_pager.PageService.Endpoints.{as_actor, is_owned, path_of}

unfoldable pub require_user : UserPageActor → Call (Unit {0})
require_user user = unless (not (user.user_id == [])) (throws ServiceFault.unauthenticated)

unfoldable pub operation_time : Setting → Call Date
operation_time g = do unless (is_valid_date g.now) (throws ServiceFault.bad_clock); pure g.now

unfoldable pub generate_page_id : Setting → Call Text
generate_page_id g = do
  id ← draw_page_id g.page_ids
  unless (is_valid_page_id id) (throws ServiceFault.bad_page_id)
  pure id

abbrev content_of : ContentAsset → ContentAssetSource → MaterializedContent
content_of asset inline = inline_data asset.content_type (or_else asset.stored []) asset.meta
content_of asset (external ref) = external_source asset.content_type ref asset.meta

abbrev pub with_asset : PageAggregate → ContentAsset → MaterializedPage
with_asset page asset = record { page = page; content = content_of asset asset.source }

unfoldable pub materialize_aggregate : PageAggregate → Call MaterializedPage
materialize_aggregate page = do
  found ← ask (find_content_asset_by_id page.content_asset_id)
  asset ← given found (throws ServiceFault.missing_asset)
  pure (with_asset page asset)

-- The tests on the page that the repository found
unfoldable pub authorized :
    Setting → UserPageActor → Option PageAggregate → Call (Option MaterializedPage)
authorized g user none = pure none
authorized g user (some page) =
    if not (is_owned_by user.user_id page.stewardship)
    then pure none
    else if not (
        is_owned (
          resolve_authority (as_actor user) page.endpoint_set.canonical.locator.namespace
            g.reservations))
    then pure none
    else (materialize_aggregate page >>= λ found. pure (some found))

unfoldable pub find_authorized_page :
    Setting → UserPageActor → Text → Call (Option MaterializedPage)
find_authorized_page g user page_id =
    if is_valid_page_id page_id
    then (ask (find_page_aggregate_by_id page_id) >>= authorized g user)
    else pure none

abbrev pub api_write_blocked : UserPageActor → PageAggregate → Bool
api_write_blocked user page = user.via_api_key && page.block_api_write

-- The steps that the operations on one page share: the page, or `not_found`, or `api_write_blocked`
unfoldable pub find_writable_page : Setting → UserPageActor → Text → Call MaterializedPage
find_writable_page g user page_id = do
  found ← find_authorized_page g user page_id
  page ← given found (fails Failure.not_found)
  unless (not (api_write_blocked user page.page)) (fails Failure.api_write_blocked)
  pure page

abbrev pub type_of : MaterializedContent → Text
type_of (inline_data content_type data_text meta) = content_type
type_of (external_source content_type ref meta) = content_type

abbrev pub meta_of : MaterializedContent → ContentMeta
meta_of (inline_data content_type data_text meta) = meta
meta_of (external_source content_type ref meta) = meta

unfoldable pub endpoint_links : Setting → PageAggregate → Call PageEndpointLinks
endpoint_links g page =
    given (project_page_endpoint_links (path_of g) page.endpoint_set)
      (throws ServiceFault.unsafe_links)

unfoldable pub summary : Setting → PageAggregate → Text → ContentMeta → Call PageSummary
summary g page content_type meta = do
  path ← given (path_of g page.endpoint_set.canonical.locator) (throws ServiceFault.unsafe_links)
  links ← endpoint_links g page
  pure (record {
    page_id = page.page_id;
    locator = page.endpoint_set.canonical.locator;
    path = path;
    endpoints = links;
    access = page.access;
    content_type = content_type;
    size_bytes = meta.size_bytes;
    tags = page.tags;
    created_at = page.created_at;
    updated_at = page.updated_at;
    revision = page.revision;
    external_missing = page.external_missing;
    block_api_write = page.block_api_write;
  })

unfoldable pub summary_of : Setting → MaterializedPage → Call PageSummary
summary_of g page = summary g page.page (type_of page.content) (meta_of page.content)

unfoldable pub public_summary :
    Setting → PageAggregate → Text → ContentMeta → Call PublicPageSummary
public_summary g page content_type meta = do
  path ← given (path_of g page.endpoint_set.canonical.locator) (throws ServiceFault.unsafe_links)
  links ← endpoint_links g page
  pure (record {
    locator = page.endpoint_set.canonical.locator;
    path = path;
    endpoints = links;
    stewardship = page.stewardship;
    content_type = content_type;
    media_type = meta.media_type;
    size_bytes = meta.size_bytes;
    tags = page.tags;
    created_at = page.created_at;
    updated_at = page.updated_at;
  })

abbrev pub external_management_input : Text → Text → Text → ContentMeta → ManagementInput
external_management_input content_type provider_id external_ref meta =
    if content_type == codes "pdf"
    then replaceable_file (or_else meta.download_filename (codes "external.pdf")) meta.media_type
        meta.size_bytes provider_id external_ref
    else no_input provider_id external_ref

abbrev management_input : ContentTypeHandler → MaterializedContent → ManagementInput
management_input handler (inline_data content_type data_text meta) =
    handler_input (handler.to_management data_text)
management_input handler (external_source content_type ref meta) =
    external_management_input content_type ref.provider_id ref.external_ref meta

unfoldable pub inspection : Setting → MaterializedPage → Call ManagedPageInspection
inspection g page = do
  handler ← require_handler g (type_of page.content)
  shown ← summary_of g page
  pure (record {
    summary = shown;
    content_type = type_of page.content;
    input = management_input handler page.content;
  })

-- `inspect_managed`
unfoldable pub inspect_managed : Setting → UserPageActor → Text → Call ManagedPageInspection
inspect_managed g user page_id = do
  require_user user
  found ← find_authorized_page g user page_id
  page ← given found (fails Failure.not_found)
  inspection g page
