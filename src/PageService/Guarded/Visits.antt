-- ===== src/PageService/Guarded/Visits.antt =====
-- lib/page/service.ts: delivery and the public view keep what observations of content keep.
use iam_pager.Base.{
  Text, Option, none, some, arith, ◌≡◌, subst, sym, Option-cases, Bool-cases, inl, inr, is_some,
}
use iam_pager.Base.Exec.{Outcome, returned, thrown}
use iam_pager.Content.{ContentAssetSource, inline, external, ExternalContentRef}
use iam_pager.Base.Map.{get}
use iam_pager.Endpoint.{bindings_of}
use iam_pager.Locator.{Locator, locator_key}
use iam_pager.Namespace.{PageActor, guest_actor}
use iam_pager.Aggregate.{ExternalContentMissingCause, integrity_mismatch}
use iam_pager.PageRepository.State.{Repository, require_stored_page}
use iam_pager.PageRepository.Requests.{UpdateHealthRequest, HealthReply}
use iam_pager.PageRepository.Reads.{
  resolve_page_endpoint, resolve_page_id, found_binding, find_binding,
}
use iam_pager.PageRepository.Health.{update_external_content_health}
use iam_pager.PageService.Model.{
  Setting, ContentTypeHandler, ExternalStorageProvider, ExternalStorageResult, value, failure,
  raised, external_content_missing, connection_revoked, external_source_unreachable,
  ExternalContentPayload, PublicPageSummary,
}
use iam_pager.PageService.Call.{World, Stop, ask}
use iam_pager.PageService.Pages.{public_summary, endpoint_links}
use iam_pager.PageService.Relinking.{is_same_content}
use iam_pager.PageService.Delivery.{
  ResolvedDeliveryRecord, resolve_delivery_record, quieted, observe, health_request,
  record_external_missing, clear_external_missing, deliver_fetched, deliver_external, rendered,
  deliver_content, delivery_result, ContentDelivery, payload_of, unavailable, deliver, viewed,
  view_public,
}
use iam_pager.PageService.Keeps.{
  Keeps, Any, Answers, bind-Keeps, then-Keeps, pure-Keeps, stop-Keeps, if-Keeps, changes-Keeps,
  unless-Keeps, given-Keeps, catching-Keeps,
}
use iam_pager.PageService.Steps.{asset_read, operation_time-Keeps}

-- The observations of content keep `I`.
abbrev pub Observes : (Repository → Type 0) → Type 0
Observes I =
    (r : UpdateHealthRequest) (s : Repository) → I s → I (update_external_content_health r s).1

endpoint_read : (l : Locator) (s : Repository) → (resolve_page_endpoint l s).1 ≡ s
unfolding resolve_page_endpoint resolve_page_id require_stored_page found_binding
endpoint_read l s = elim (Option-cases (get s.endpoint_page_ids (locator_key l))) [
  | inl nothing ↦ ground (arith, nothing)
  | inr (id, leads) ↦ elim (Option-cases (get s.pages id)) [
    | inl absent ↦ ground (arith, leads, absent)
    | inr (p, stands) ↦
        elim (Option-cases (find_binding (locator_key l) (bindings_of p.endpoint_set))) [
          | inl unbound ↦ ground (arith, leads, stands, unbound)
          | inr (b, bound) ↦ ground (arith, leads, stands, bound)
        ]
  ]
]

quieted-Keeps :
    (I : Repository → Type 0) (o : Outcome Stop HealthReply × World)
    → I o.1.repository
    → I ((quieted o).1).repository × Answers Any (quieted o).0
quieted-Keeps I (returned reply, w) i = (i, tt)
quieted-Keeps I (thrown e, w) i = (i, tt)

module _ {I : Repository → Type 0} where
  record_read-Keeps :
      (l : Locator) (actor : PageActor) → Keeps I (resolve_delivery_record l actor) Any
  unfolding resolve_delivery_record
  record_read-Keeps l actor =
      bind-Keeps (changes-Keeps _ (λ s i. subst I (sym (endpoint_read l s)) i)) (λ found _.
        bind-Keeps (given-Keeps _ _) (λ resolution _. then-Keeps (unless-Keeps _ _) (λ _.
          then-Keeps (unless-Keeps _ _) (λ _.
            bind-Keeps
              (changes-Keeps _
                (λ s i. subst I (sym (asset_read resolution.page.content_asset_id s)) i))
              (λ stored _. bind-Keeps (given-Keeps _ _) (λ asset _. pure-Keeps _ tt))))))

  public_summary-Keeps :
      (g : Setting) (page : _) (content_type : Text) (meta : _)
      → Keeps I (public_summary g page content_type meta) Any
  unfolding public_summary endpoint_links
  public_summary-Keeps g page content_type meta =
      bind-Keeps (given-Keeps _ _)
        (λ path _. bind-Keeps (given-Keeps _ _) (λ links _. pure-Keeps _ tt))

  result-Keeps :
      (g : Setting) (found : ResolvedDeliveryRecord) (content : ContentDelivery)
      → Keeps I (delivery_result g found content) Any
  unfolding delivery_result
  result-Keeps g found (unavailable payload retry_after) = pure-Keeps _ tt
  result-Keeps g found (payload_of payload) =
      bind-Keeps (given-Keeps _ _) (λ links _. pure-Keeps _ tt)

  viewed-Keeps :
      (g : Setting) (page : PublicPageSummary) (content : ContentDelivery)
      → Keeps I (viewed g page content) Any
  unfolding viewed
  viewed-Keeps g page (payload_of payload) = pure-Keeps _ tt
  viewed-Keeps g page (unavailable payload retry_after) = pure-Keeps _ tt

  rendered-Keeps : (h : ContentTypeHandler) (text : Option Text) → Keeps I (rendered h text) Any
  rendered-Keeps h none = pure-Keeps _ tt
  rendered-Keeps h (some text) = pure-Keeps _ tt

module _ {I : Repository → Type 0} (g : Setting) (observes : Observes I) where
  observe-Keeps : (r : UpdateHealthRequest) → Keeps I (observe r) Any
  unfolding observe
  observe-Keeps r = record {
    holds = λ w i.
        quieted-Keeps I (ask (update_external_content_health r) w)
          ((changes-Keeps (update_external_content_health r) (observes r)).holds w i).0;
  }

  missing-Keeps :
      (found : ResolvedDeliveryRecord) (cause : ExternalContentMissingCause)
      → Keeps I (record_external_missing g found cause) Any
  unfolding record_external_missing
  missing-Keeps found cause =
      bind-Keeps (operation_time-Keeps g)
        (λ now _. then-Keeps (observe-Keeps _) (λ _. pure-Keeps _ tt))

  clear-Keeps : (found : ResolvedDeliveryRecord) → Keeps I (clear_external_missing found) Any
  unfolding clear_external_missing
  clear-Keeps found =
      if-Keeps (is_some found.page.external_missing)
        (λ missing. observe-Keeps (health_request found none)) (λ present. pure-Keeps _ tt)

  fetched-Keeps :
      (found : ResolvedDeliveryRecord) (r : ExternalStorageResult ExternalContentPayload)
      → Keeps I (deliver_fetched g found r) Any
  unfolding deliver_fetched
  fetched-Keeps found raised = pure-Keeps _ tt
  fetched-Keeps found (failure (external_source_unreachable retry_after)) = pure-Keeps _ tt
  fetched-Keeps found (failure external_content_missing) = missing-Keeps found _
  fetched-Keeps found (failure connection_revoked) = missing-Keeps found _
  fetched-Keeps found (value fetched) =
      elim (Bool-cases (is_same_content g found.asset.meta fetched)) [
        | inl same ↦ rw same (then-Keeps (clear-Keeps found) (λ _. pure-Keeps _ tt))
        | inr other ↦ rw other (missing-Keeps found integrity_mismatch)
      ]

  external-Keeps :
      (found : ResolvedDeliveryRecord) (ref : ExternalContentRef)
      (provider : Option ExternalStorageProvider)
      → Keeps I (deliver_external g found ref provider) Any
  unfolding deliver_external
  external-Keeps found ref none = pure-Keeps _ tt
  external-Keeps found ref (some provider) = fetched-Keeps found _

  content-Keeps :
      (found : ResolvedDeliveryRecord) (h : ContentTypeHandler) (source : ContentAssetSource)
      → Keeps I (deliver_content g found h source) Any
  unfolding deliver_content
  content-Keeps found h inline = rendered-Keeps h found.asset.stored
  content-Keeps found h (external ref) = external-Keeps found ref (g.provider_of ref.provider_id)

  pub deliver-Keeps : (l : Locator) (actor : PageActor) → Keeps I (deliver g l actor) Any
  unfolding deliver
  deliver-Keeps l actor = bind-Keeps (record_read-Keeps l actor) (λ found _.
      bind-Keeps (given-Keeps _ _) (λ handler _.
        bind-Keeps (content-Keeps found handler found.asset.source)
          (λ content _. result-Keeps g found content)))

  pub view-Keeps : (l : Locator) → Keeps I (view_public g l) Any
  unfolding view_public
  view-Keeps l = then-Keeps (unless-Keeps _ _) (λ _.
      bind-Keeps (catching-Keeps (record_read-Keeps l guest_actor) (λ e. stop-Keeps _)) (λ found _.
        bind-Keeps (given-Keeps _ _) (λ handler _.
          bind-Keeps (public_summary-Keeps g _ _ _) (λ page _.
            bind-Keeps (content-Keeps found handler found.asset.source)
              (λ content _. viewed-Keeps g page content)))))
