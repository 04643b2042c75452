-- ===== src/PageService/Disclosure.antt =====
-- lib/page/service.ts: what delivery shows, and to whom.
use iam_pager.Base.{
  Text, none, some, true, false, ◌≡◌, refl, arith, member, inl, inr, Bool-cases, Option-cases, ◌∙◌,
  sym,
}
use iam_pager.Base.Map.{get}
use iam_pager.Base.Exec.{returned, thrown}
use iam_pager.Locator.{Locator, locator_key}
use iam_pager.Aggregate.{PageAggregate, is_public}
use iam_pager.Namespace.{PageActor, guest_actor}
use iam_pager.PageRepository.State.{Repository, keys_of}
use iam_pager.PageRepository.Reads.{resolve_page_endpoint, resolve_page_id}
use iam_pager.PageRepository.Invariant.{IsCoherent}
use iam_pager.PageRepository.Resolution.{resolve_carried}
use iam_pager.PageService.Model.{Setting, Failure}
use iam_pager.PageService.Call.{World, fails, ◌>>=◌, ◌>>◌, ask, given, unless, pure, stop}
use iam_pager.PageService.Endpoints.{engine_validate}
use iam_pager.PageService.Updating.{catching}
use iam_pager.PageService.Delivery.{
  resolve_delivery_record, deliver, view_public, is_user, can_deliver_page_to, is_accepted,
}

-- No page carries the locator.
abbrev pub IsUnused : Locator → Repository → Type 0
IsUnused l s =
    (id : Text) (p : PageAggregate)
    → get s.pages id ≡ some p
    → member (locator_key l) (keys_of p) ≡ false

-- The page stands, carries the locator, is private and not the actor's.
pub record IsHidden (p : PageAggregate) (l : Locator) (actor : PageActor) (s : Repository)
    : Type 0 where
  pub stands : get s.pages p.page_id ≡ some p
  pub carries : member (locator_key l) (keys_of p) ≡ true
  pub private_page : is_public p.access ≡ false
  pub foreign : is_user actor p.stewardship ≡ false

hidden_record :
    (p : PageAggregate) (l : Locator) (actor : PageActor) (w : World)
    → IsCoherent w.repository
    → IsHidden p l actor w.repository
    → resolve_delivery_record l actor w ≡ (thrown (fails Failure.not_found), w)
unfolding resolve_delivery_record ◌>>=◌ ◌>>◌ ask given unless pure stop can_deliver_page_to
hidden_record p l actor w v h =
    let (b, to) = resolve_carried l p w.repository v h.stands h.carries in
    let sound = v.valid p.page_id p h.stands in
    rw (to.answer, sound, h.private_page, h.foreign) refl

unused_answer :
    (l : Locator) (s : Repository)
    → IsCoherent s
    → IsUnused l s
    → resolve_page_endpoint l s ≡ (returned none, s)
unfolding resolve_page_endpoint resolve_page_id
unused_answer l s v unused = elim (Option-cases (get s.endpoint_page_ids (locator_key l))) [
  | inl nothing ↦ rw nothing refl
  | inr (id, leads) ↦
      let (p, stands, carries) = v.owned (locator_key l) id leads in
      absurd (ground (arith, unused id p stands))
]

unused_record :
    (l : Locator) (actor : PageActor) (w : World)
    → IsCoherent w.repository
    → IsUnused l w.repository
    → resolve_delivery_record l actor w ≡ (thrown (fails Failure.not_found), w)
unfolding resolve_delivery_record ◌>>=◌ ◌>>◌ ask given unless pure stop can_deliver_page_to
unused_record l actor w v unused = rw (unused_answer l w.repository v unused) refl

module _ (g : Setting) (l : Locator) (w : World) where
  record_stops :
      (actor : PageActor)
      → resolve_delivery_record l actor w ≡ (thrown (fails Failure.not_found), w)
      → deliver g l actor w ≡ (thrown (fails Failure.not_found), w)
  unfolding deliver ◌>>=◌
  record_stops actor e = rw e refl

  view_stops :
      resolve_delivery_record l guest_actor w ≡ (thrown (fails Failure.not_found), w)
      → view_public g l w ≡ (thrown (fails Failure.not_found), w)
  unfolding view_public ◌>>=◌ ◌>>◌ unless stop pure catching
  view_stops e = elim (Bool-cases (is_accepted (engine_validate g l))) [
    | inl ok ↦ rw (ok, e) refl
    | inr bad ↦ rw bad refl
  ]

-- On a coherent repository, to an actor who is not its owner a private page is delivered exactly as a locator that no page
-- carries: with `not_found`, and no change of the state. A public view of it gives the same.
pub deliver_hides :
    (g : Setting) (p : PageAggregate) (l unused : Locator) (actor : PageActor) (w : World)
    → IsCoherent w.repository
    → IsHidden p l actor w.repository
    → IsUnused unused w.repository
    → (deliver g l actor w ≡ (thrown (fails Failure.not_found), w))
      × (deliver g unused actor w ≡ deliver g l actor w)
      × (view_public g l w ≡ view_public g unused w)
deliver_hides g p l unused actor w v h u =
    let hidden = record_stops g l w actor (hidden_record p l actor w v h) in
    let missing = record_stops g unused w actor (unused_record unused actor w v u) in
    let to_guest : IsHidden p l guest_actor w.repository = record {
      stands = h.stands;
      carries = h.carries;
      private_page = h.private_page;
      foreign = refl;
    } in
    let viewed = view_stops g l w (hidden_record p l guest_actor w v to_guest) in
    let nothing = view_stops g unused w (unused_record unused guest_actor w v u) in
    (hidden, missing ∙ sym hidden, viewed ∙ sym nothing)
