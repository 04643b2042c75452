-- ===== src/PageService/Delivery.antt =====
-- lib/page/service.ts: `deliver` and `view_public`, and lib/content/external-unavailable.ts.
use iam_pager.Base.{
  Text, ℕ, Bool, [], ◌∷◌, ◌++◌, Option, none, some, if◌then◌else◌, true, false, not, ◌&&◌, ◌||◌,
  member, eqb, leb, ltb, codes, to_lower, is_some,
}
use iam_pager.Base.Exec.{Outcome, returned, thrown}
use iam_pager.Content.{ContentAsset, ContentAssetSource, inline, external, ExternalContentRef}
use iam_pager.Locator.{Locator, LocatorResolution, resolved, unresolved}
use iam_pager.Endpoint.{PageEndpointSet, PageEndpointBinding}
use iam_pager.Endpoint.Planner.{PageEndpointLink, project_page_endpoint_links}
use iam_pager.Page.{PageStewardship, max_safe_integer}
use iam_pager.Aggregate.{
  PageAggregate, page_aggregate_violation, is_public, ExternalContentMissingCause,
  ExternalContentMissingState,
}
use iam_pager.Namespace.{PageActor, guest_actor, user_actor}
use iam_pager.PageRepository.State.{is_owned_by}
use iam_pager.PageRepository.Requests.{UpdateHealthRequest, HealthReply}
use iam_pager.PageRepository.Reads.{resolve_page_endpoint, find_content_asset_by_id}
use iam_pager.PageRepository.Health.{update_external_content_health}
use iam_pager.PageService.Model.{
  Setting, Failure, DeliveryPayload, Body, characters, bytes, ContentTypeHandler,
  ExternalStorageProvider, ExternalStorageResult, value, failure, raised, external_content_missing,
  connection_revoked, external_source_unreachable, ExternalContentPayload, PublicPageSummary,
}
use iam_pager.PageService.Call.{
  Call, World, Stop, fails, throws, ServiceFault, ◌>>=◌, ◌>>◌, pure, stop, unless, ask, given,
}
use iam_pager.PageService.Content.{handler_named}
use iam_pager.PageService.Endpoints.{engine_validate, path_of}
use iam_pager.PageService.Pages.{operation_time, public_summary}
use iam_pager.PageService.Relinking.{is_same_content}
use iam_pager.PageService.Updating.{catching}

pub record ResolvedDeliveryRecord : Type 0 where
  pub page : PageAggregate
  pub asset : ContentAsset
  pub endpoint : PageEndpointBinding

pub data ContentDelivery : Type 0 where
  payload_of : DeliveryPayload → ContentDelivery
  unavailable : DeliveryPayload → Option ℕ → ContentDelivery

pub record Delivered : Type 0 where
  pub page_id : Text
  pub revision : ℕ
  pub size_bytes : ℕ
  pub endpoint : PageEndpointLink
  pub payload : DeliveryPayload

pub data DeliverPageResult : Type 0 where
  page_delivered : Delivered → DeliverPageResult
  external_content_unavailable : DeliveryPayload → Option ℕ → DeliverPageResult

pub data ViewPublicPageResult : Type 0 where
  page_viewed : PublicPageSummary → DeliveryPayload → ViewPublicPageResult
  view_unavailable : PublicPageSummary → DeliveryPayload → Option ℕ → ViewPublicPageResult

abbrev pub is_user : PageActor → PageStewardship → Bool
is_user guest_actor stewardship = false
is_user (user_actor user_id via_api_key) stewardship = is_owned_by user_id stewardship

unfoldable pub can_deliver_page_to : PageAggregate → PageActor → Bool
can_deliver_page_to page actor = is_public page.access || is_user actor page.stewardship

-- What a page that cannot be delivered is reported as
abbrev pub broken : PageAggregate → Stop
broken page = fails (if is_public page.access then Failure.corrupt else Failure.not_found)

unfoldable pub resolve_delivery_record : Locator → PageActor → Call ResolvedDeliveryRecord
resolve_delivery_record locator actor = do
  found ← ask (resolve_page_endpoint locator)
  resolution ← given found (fails Failure.not_found)
  unless (not (is_some (page_aggregate_violation resolution.page))) (broken resolution.page)
  unless (can_deliver_page_to resolution.page actor) (fails Failure.not_found)
  stored ← ask (find_content_asset_by_id resolution.page.content_asset_id)
  asset ← given stored (broken resolution.page)
  pure (record { page = resolution.page; asset = asset; endpoint = resolution.endpoint })

abbrev fallback_html : Text
fallback_html =
    codes "<!DOCTYPE html>\n<html><head><meta charset=\"utf-8\"><meta name=\"viewport\" "
    ++ codes "content=\"width=device-width, initial-scale=1\"><title>Content "
    ++ codes "temporarily unavailable</title></head><body><main>"
    ++ codes "<h1>Content temporarily unavailable</h1>"
    ++ codes "<p>Please try again later.</p></main></body></html>\n"

abbrev fallback_payload : DeliveryPayload
fallback_payload = record {
  body = characters fallback_html;
  media_type = codes "text/html; charset=utf-8";
  download_filename = none;
}

unfoldable pub normalize_retry_after : Option ℕ → Option ℕ
normalize_retry_after none = none
normalize_retry_after (some seconds) =
    if leb seconds max_safe_integer && ltb 0 seconds
    then some (if ltb 3600 seconds then 3600 else seconds)
    else none

unfoldable pub external_unavailable : Option ℕ → ContentDelivery
external_unavailable retry_after = unavailable fallback_payload (normalize_retry_after retry_after)

abbrev pub quieted : Outcome Stop HealthReply × World → Outcome Stop (Unit {0}) × World
quieted (returned reply, w) = (returned tt, w)
quieted (thrown e, w) = (returned tt, w)

-- What the health update throws is caught.
unfoldable pub observe : UpdateHealthRequest → Call (Unit {0})
observe request w = quieted (ask (update_external_content_health request) w)

abbrev pub health_request :
    ResolvedDeliveryRecord → Option ExternalContentMissingState → UpdateHealthRequest
health_request found missing = record {
  page_id = found.page.page_id;
  content_asset_id = found.asset.content_asset_id;
  external_missing = missing;
}

unfoldable pub record_external_missing :
    Setting → ResolvedDeliveryRecord → ExternalContentMissingCause → Call ContentDelivery
record_external_missing g found cause = do
  now ← operation_time g
  observe (health_request found (some (record { cause = cause; detected_at = now })))
  pure (external_unavailable none)

-- A page that was observed missing is found again.
unfoldable pub clear_external_missing : ResolvedDeliveryRecord → Call (Unit {0})
clear_external_missing found =
    if is_some found.page.external_missing then observe (health_request found none) else pure tt

unfoldable pub deliver_fetched :
    Setting
    → ResolvedDeliveryRecord
    → ExternalStorageResult ExternalContentPayload
    → Call ContentDelivery
deliver_fetched g found raised = pure (external_unavailable none)
deliver_fetched g found (failure (external_source_unreachable retry_after)) =
    pure (external_unavailable retry_after)
deliver_fetched g found (failure external_content_missing) =
    record_external_missing g found ExternalContentMissingCause.external_content_missing
deliver_fetched g found (failure connection_revoked) =
    record_external_missing g found ExternalContentMissingCause.connection_revoked
deliver_fetched g found (value fetched) =
    if not (is_same_content g found.asset.meta fetched)
    then record_external_missing g found ExternalContentMissingCause.integrity_mismatch
    else (clear_external_missing found
        >> pure (
            payload_of (record {
              body = bytes fetched.body;
              media_type = found.asset.meta.media_type;
              download_filename = found.asset.meta.download_filename;
            })))

unfoldable pub deliver_external :
    Setting
    → ResolvedDeliveryRecord
    → ExternalContentRef
    → Option ExternalStorageProvider
    → Call ContentDelivery
deliver_external g found ref none = pure (external_unavailable none)
deliver_external g found ref (some provider) =
    deliver_fetched g found (provider.fetch_content ref found.asset.meta.size_bytes)

abbrev pub rendered : ContentTypeHandler → Option Text → Call ContentDelivery
rendered handler (some data_text) = pure (payload_of (handler.render data_text))
rendered handler none = pure (payload_of (handler.render []))

-- `is_inline_content_asset(asset) ? handler.render(asset.data) : #deliver_external_content(…)`
unfoldable pub deliver_content :
    Setting
    → ResolvedDeliveryRecord
    → ContentTypeHandler
    → ContentAssetSource
    → Call ContentDelivery
deliver_content g found handler inline = rendered handler found.asset.stored
deliver_content g found handler (external ref) =
    deliver_external g found ref (g.provider_of ref.provider_id)

abbrev supporting : Text → Option ContentTypeHandler → Option ContentTypeHandler
supporting profile none = none
supporting profile (some handler) =
    if member profile handler.supported_delivery_profiles then some handler else none

-- The handler of the asset's type, where it supports the endpoint's profile
unfoldable pub delivering_handler : Setting → ResolvedDeliveryRecord → Option ContentTypeHandler
delivering_handler g found =
    supporting found.endpoint.delivery_profile (handler_named found.asset.content_type g.handlers)

abbrev pub single : PageEndpointBinding → PageEndpointSet
single endpoint = record { canonical = endpoint; alternates = [] }

unfoldable pub delivery_result :
    Setting → ResolvedDeliveryRecord → ContentDelivery → Call DeliverPageResult
delivery_result g found (unavailable payload retry_after) =
    pure (external_content_unavailable payload retry_after)
delivery_result g found (payload_of payload) = do
  links ←
      given (project_page_endpoint_links (path_of g) (single found.endpoint))
        (throws ServiceFault.unsafe_links)
  pure (
      page_delivered (record {
        page_id = found.page.page_id;
        revision = found.page.revision;
        size_bytes = found.asset.meta.size_bytes;
        endpoint = links.canonical;
        payload = payload;
      }))

unfoldable pub deliver : Setting → Locator → PageActor → Call DeliverPageResult
deliver g locator actor = do
  found ← resolve_delivery_record locator actor
  handler ← given (delivering_handler g found) (fails Failure.corrupt)
  content ← deliver_content g found handler found.asset.source
  delivery_result g found content

abbrev starts_with : Text → Text → Bool
starts_with [] text = true
starts_with (c ∷ prefix) [] = false
starts_with (c ∷ prefix) (d ∷ text) = eqb c d && starts_with prefix text

abbrev decoded : Setting → Body → Body
decoded g (characters text) = characters text
decoded g (bytes body) = characters (g.decode body)

unfoldable pub public_view_payload : Setting → DeliveryPayload → DeliveryPayload
public_view_payload g payload =
    if starts_with (codes "text/html") (to_lower payload.media_type)
    then record payload { body = decoded g payload.body }
    else payload

-- Whatever fails in resolving is `not_found` to a visitor.
abbrev undisclosed : Stop → Stop
undisclosed (fails reason) = fails Failure.not_found
undisclosed (throws fault) = throws fault

unfoldable pub viewed : Setting → PublicPageSummary → ContentDelivery → Call ViewPublicPageResult
viewed g page (payload_of payload) = pure (page_viewed page (public_view_payload g payload))
viewed g page (unavailable payload retry_after) = pure (view_unavailable page payload retry_after)

abbrev pub is_accepted : LocatorResolution → Bool
is_accepted (resolved locator) = true
is_accepted (unresolved reason) = false

unfoldable pub view_public : Setting → Locator → Call ViewPublicPageResult
view_public g locator = do
  unless (is_accepted (engine_validate g locator)) (fails Failure.not_found)
  found ← catching (resolve_delivery_record locator guest_actor) (λ e. stop (undisclosed e))
  handler ← given (delivering_handler g found) (fails Failure.not_found)
  page ← public_summary g found.page found.asset.content_type found.asset.meta
  content ← deliver_content g found handler found.asset.source
  viewed g page content
