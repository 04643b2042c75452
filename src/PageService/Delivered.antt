-- ===== src/PageService/Delivered.antt =====
-- lib/page/service.ts: where a delivered page comes from.
pub mod Contents
use iam_pager.Base.{
  Text, Bool, Option, none, some, true, false, ◌≡◌, refl, arith, member, inl, inr, ◌⊎◌, Bool-cases,
  Option-cases, is_some, ◌≢◌, [], subst, ◌||◌, if◌then◌else◌,
}
use iam_pager.Base.Map.{get}
use iam_pager.Base.Exec.{Outcome, returned, thrown}
use iam_pager.Page.{PageAccess, everyone, owner_only, PageStewardship, trial, managed}
use iam_pager.Content.{ContentAsset, ContentAssetSource, inline, external, ExternalContentRef}
use iam_pager.Locator.{Locator}
use iam_pager.Endpoint.{PageEndpointBinding, page_endpoint_set_violation}
use iam_pager.Endpoint.Planner.{
  PageEndpointLink, PageEndpointLinks, project_page_endpoint_links, project, project_all,
  is_safe_page_path,
}
use iam_pager.PageService.Endpoints.{path_of}
use iam_pager.Aggregate.{PageAggregate, is_public, page_aggregate_violation}
use iam_pager.Namespace.{PageActor, guest_actor, user_actor}
use iam_pager.Aggregate.Valid.{violation-none_iff}
use iam_pager.PageService.Content.{handler_named}
use iam_pager.PageRepository.State.{Repository, is_owned_by, require_content_asset_id}
use iam_pager.PageRepository.Reads.{resolve_page_endpoint, find_content_asset_by_id}
use iam_pager.PageRepository.Invariant.{IsCoherent}
use iam_pager.PageRepository.Resolution.{ResolvesTo, resolve_total}
use iam_pager.PageService.Model.{
  Setting, ContentTypeHandler, DeliveryPayload, ExternalStorageProvider, ExternalStorageResult,
  value, failure, raised, external_content_missing, connection_revoked, external_source_unreachable,
  ExternalContentPayload, bytes,
}
use iam_pager.Aggregate.{ExternalContentMissingCause}
use iam_pager.PageService.Call.{
  World, Stop, Call, ◌>>=◌, ◌>>◌, ask, given, unless, pure, stop, resume,
}
use iam_pager.PageService.Relinking.{is_same_content}
use iam_pager.PageService.Delivery.{
  ResolvedDeliveryRecord, resolve_delivery_record, deliver, can_deliver_page_to, deliver_content,
  delivering_handler, delivery_result, deliver_external, deliver_fetched, rendered,
  record_external_missing, external_unavailable, clear_external_missing, payload_of, unavailable,
  single, page_delivered, external_content_unavailable, Delivered, DeliverPageResult, is_user,
  ContentDelivery,
}
use iam_pager.PageService.Delivered.Contents.{bind-returned, IsContentOf, content-IsContentOf}

-- The page is public, or the actor's own.
abbrev pub IsVisible : PageAggregate → PageActor → Type 0
IsVisible p actor =
    (p.access ≡ everyone)
    ⊎ ((user_id : Text) × (via_api_key : Bool) × (actor ≡ user_actor user_id via_api_key)
        × (p.stewardship ≡ managed user_id))

deliverable-IsVisible :
    (p : PageAggregate) (actor : PageActor) → can_deliver_page_to p actor ≡ true → IsVisible p actor
unfolding can_deliver_page_to
deliverable-IsVisible p actor e = by_access p.access p.stewardship actor refl refl e
  where
    by_owner :
        (steward : PageStewardship) (a : PageActor)
        → is_user a steward ≡ true
        → (user_id : Text) × (via_api_key : Bool) × (a ≡ user_actor user_id via_api_key)
          × (steward ≡ managed user_id)
    by_owner steward guest_actor e = cc
    by_owner trial (user_actor user_id via_api_key) e = cc
    by_owner (managed owner) (user_actor user_id via_api_key) e =
        (user_id, via_api_key, refl, ground arith)

    by_access :
        (access : PageAccess) (steward : PageStewardship) (a : PageActor)
        → p.access ≡ access
        → p.stewardship ≡ steward
        → is_public access || is_user a steward ≡ true
        → (p.access ≡ everyone)
          ⊎ ((user_id : Text) × (via_api_key : Bool) × (a ≡ user_actor user_id via_api_key)
              × (p.stewardship ≡ managed user_id))
    by_access everyone steward a f h e = inl f
    by_access owner_only steward a f h e = inr (rw h (by_owner steward a e))

-- The record that a delivery starts from: the locator's page, which the actor may see, and its asset
pub record IsFound (l : Locator) (actor : PageActor) (f : ResolvedDeliveryRecord) (s : Repository)
    : Type 0 where
  pub resolves : ResolvesTo l f.page f.endpoint s
  pub visible : IsVisible f.page actor
  pub asset : get s.assets f.page.content_asset_id ≡ some f.asset

record-IsFound :
    (l : Locator) (actor : PageActor) (f : ResolvedDeliveryRecord) (w v : World)
    → IsCoherent w.repository
    → resolve_delivery_record l actor w ≡ (returned f, v)
    → IsFound l actor f w.repository
unfolding resolve_delivery_record ◌>>=◌ ◌>>◌ ask given unless pure stop find_content_asset_by_id
    require_content_asset_id
record-IsFound l actor f w v c e = elim (resolve_total l w.repository c) [
  | inr (nothing, _) ↦ absurd (ground (arith, rw nothing at e))
  | inl (p, b, to) ↦
      let sound = c.valid p.page_id p to.stands in
      let asset_ok = ((violation-none_iff p).0 sound).asset_ok in
      elim (Bool-cases (can_deliver_page_to p actor)) [
        | inr hidden ↦ absurd (ground (arith, rw (to.answer, sound, hidden) at e))
        | inl shown ↦ elim (Option-cases (get w.repository.assets p.content_asset_id)) [
          | inl lost ↦ absurd (ground (arith, rw (to.answer, sound, shown, asset_ok, lost) at e))
          | inr (a, there) ↦
              let is : record { page = p; asset = a; endpoint = b } ≡ f =
                ground (arith, rw (to.answer, sound, shown, asset_ok, there) at e) in
              subst (λ k. IsFound l actor k w.repository) is
                (record {
                  resolves = to;
                  visible = deliverable-IsVisible p actor shown;
                  asset = there;
                })
        ]
      ]
]

given-some :
    {A : Type 0} (o : Option A) (x : Stop) (a : A) (w v : World)
    → given o x w ≡ (returned a, v)
    → o ≡ some a
unfolding given pure stop
given-some none x a w v e = cc
given-some (some b) x a w v e = ground arith

project-binding :
    (format : Locator → Option Text) (b : PageEndpointBinding) (link : PageEndpointLink)
    → project format b ≡ some link
    → link.binding ≡ b
unfolding project
project-binding format b link e = by_path (format b.locator) e
  where
    by_path :
        (o : Option Text)
        → elim o [
          | none ↦ none
          | some path ↦
              if is_safe_page_path path then some (record { binding = b; path = path }) else none
        ]
          ≡ some link
        → link.binding ≡ b
    by_path none h = cc
    by_path (some path) h = elim (Bool-cases (is_safe_page_path path)) [
      | inl safe ↦ ground (arith, safe)
      | inr unsafe ↦ absurd (ground (arith, unsafe))
    ]

linked-binding :
    (format : Locator → Option Text) (b : PageEndpointBinding) (links : PageEndpointLinks)
    → project_page_endpoint_links format (single b) ≡ some links
    → links.canonical.binding ≡ b
unfolding project_page_endpoint_links project_all
linked-binding format b links e =
    elim (Bool-cases (is_some (page_endpoint_set_violation (single b)))) [
      | inl bad ↦ absurd (ground (arith, rw bad at e))
      | inr fine ↦ elim (Option-cases (project format b)) [
        | inl unsafe ↦ absurd (ground (arith, rw (fine, unsafe) at e))
        | inr (link, projected) ↦
            let its = project-binding format b link projected in
            ground (arith, its, rw (fine, projected) at e)
      ]
    ]

delivering-handler :
    (g : Setting) (f : ResolvedDeliveryRecord) (h : ContentTypeHandler)
    → delivering_handler g f ≡ some h
    → (handler_named f.asset.content_type g.handlers ≡ some h)
      × (member f.endpoint.delivery_profile h.supported_delivery_profiles ≡ true)
unfolding delivering_handler
delivering-handler g f h e = elim (Option-cases (handler_named f.asset.content_type g.handlers)) [
  | inl nobody ↦ absurd (ground (arith, nobody))
  | inr (k, is) ↦
      elim (Bool-cases (member f.endpoint.delivery_profile k.supported_delivery_profiles)) [
        | inr unfit ↦ absurd (ground (arith, rw (is, unfit) at e))
        | inl fit ↦
            let one : k ≡ h = ground (arith, rw (is, fit) at e) in
            (
              subst (λ x. handler_named f.asset.content_type g.handlers ≡ some x) one is,
              subst (λ x. member f.endpoint.delivery_profile x.supported_delivery_profiles ≡ true)
                  one fit,
            )
      ]
]

-- What a delivery is of
pub record IsDelivery (g : Setting) (l : Locator) (actor : PageActor) (d : Delivered)
    (s : Repository) : Type 0 where
  pub found : ResolvedDeliveryRecord
  pub is_found : IsFound l actor found s
  pub handler : ContentTypeHandler
  pub handled : handler_named found.asset.content_type g.handlers ≡ some handler
  pub supported : member found.endpoint.delivery_profile handler.supported_delivery_profiles ≡ true
  pub same_id : d.page_id ≡ found.page.page_id
  pub same_revision : d.revision ≡ found.page.revision
  pub same_size : d.size_bytes ≡ found.asset.meta.size_bytes
  pub same_endpoint : d.endpoint.binding ≡ found.endpoint
  pub content : IsContentOf g found.asset d.payload

result-IsDelivery :
    (g : Setting) (l : Locator) (actor : PageActor) (d : Delivered) (s : Repository)
    (f : ResolvedDeliveryRecord) (h : ContentTypeHandler) (content : ContentDelivery) (u v : World)
    → IsFound l actor f s
    → (handler_named f.asset.content_type g.handlers ≡ some h)
      × (member f.endpoint.delivery_profile h.supported_delivery_profiles ≡ true)
    → ((p : DeliveryPayload) → content ≡ payload_of p → IsContentOf g f.asset p)
    → delivery_result g f content u ≡ (returned (page_delivered d), v)
    → IsDelivery g l actor d s
unfolding delivery_result pure
result-IsDelivery g l actor d s f h (unavailable payload retry_after) u v is by from e = cc
result-IsDelivery g l actor d s f h (payload_of payload) u v is by from e =
    let (links, t, linked, last) = bind-returned _ _ u v (page_delivered d) e in
    let bound = linked-binding (path_of g) f.endpoint links (given-some _ _ links u t linked) in
    let same : d.payload ≡ payload = ground arith in
    record {
      found = f;
      is_found = is;
      handler = h;
      handled = by.0;
      supported = by.1;
      same_id = ground arith;
      same_revision = ground arith;
      same_size = ground arith;
      same_endpoint = ground (arith, bound);
      content = from d.payload (ground arith);
    }

-- From a coherent repository, whatever page `deliver` answers is the one that the locator resolves
-- to, and it is public or the actor's own. The answer has the page's identity and revision, its
-- asset's size and the locator's endpoint, whose profile the handler of the asset's type supports.
-- Its payload is what that handler makes of the stored data, or an object fetched from the asset's
-- provider with the size and the digest that the asset records.
pub deliver-IsDelivery :
    (g : Setting) (l : Locator) (actor : PageActor) (d : Delivered) (w v : World)
    → IsCoherent w.repository
    → deliver g l actor w ≡ (returned (page_delivered d), v)
    → IsDelivery g l actor d w.repository
unfolding deliver
deliver-IsDelivery g l actor d w v c e =
    let (f, u, resolved_it, rest) = bind-returned _ _ w v (page_delivered d) e in
    let (h, t, handled, later) = bind-returned _ _ u v (page_delivered d) rest in
    let (content, x, made, last) = bind-returned _ _ t v (page_delivered d) later in
    let by = delivering-handler g f h (given-some _ _ h u t handled) in
    result-IsDelivery g l actor d w.repository f h content x v
      (record-IsFound l actor f w u c resolved_it) by
      (λ p is.
        content-IsContentOf g f p h f.asset.source t x by.0 refl
          (subst (λ k. deliver_content g f h f.asset.source t ≡ (returned k, x)) is made))
      last
