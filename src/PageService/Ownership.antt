-- ===== src/PageService/Ownership.antt =====
-- lib/page/service.ts: managed pages stand in namespaces that their owners have reserved.
pub mod Housing
use iam_pager.Base.{
  Text, Bool, List, [], ◌∷◌, Option, none, some, true, false, ◌≡◌, refl, ◌⊎◌, inl, inr, arith, All,
  ap, ◌∙◌, or_else, member, any, map, to_lower, ◌==◌, sym, subst, Bool-cases, Option-cases,
  text_dec,
}
use iam_pager.Base.Map.{get}
use iam_pager.Base.Sort.{sort-All}
use iam_pager.Page.{PageStewardship, trial, managed}
use iam_pager.Endpoint.{PageEndpointSet, PageEndpointBinding, bindings_of}
use iam_pager.Endpoint.Planner.{planned, before}
use iam_pager.Locator.{locator_key}
use iam_pager.Aggregate.{PageAggregate}
use iam_pager.Namespace.{Reservations, NamespaceAuthority, find, namespace_key, resolve_authority}
use iam_pager.Namespace.FirstClaim.{owner_of}
use iam_pager.PageRepository.State.{Repository, is_owned_by}
use iam_pager.PageRepository.Requests.{
  CreateManagedRequest, UpdateManagedRequest, DuplicateManagedRequest,
}
use iam_pager.PageRepository.Requests.{PutTrialRequest, DeleteManagedRequest}
use iam_pager.PageRepository.Reads.{create_content_asset}
use iam_pager.PageRepository.Trials.{put_trial_page_aggregate}
use iam_pager.PageRepository.Changes.{delete_managed_page_aggregate}
use iam_pager.Content.{ContentAsset}
use iam_pager.PageRepository.Invariant.{IsCoherent}
use iam_pager.PageService.Model.{Setting, UserPageActor}
use iam_pager.PageService.Call.{World}
use iam_pager.PageService.Endpoints.{
  endpoint_authorities, namespaces_from, as_actor, is_reserved_by_other, is_unreserved,
}
use iam_pager.PageService.Guarded.{Powers, WhenGiven}
use iam_pager.PageService.Requests.{Request, caller, perform, perform_all, Empowers, perform_keeps}

-- The namespace is reserved by the user, in whatever casing.
abbrev pub IsHeldBy : Reservations → Text → Text → Type 0
IsHeldBy reservations user namespace = owner_of (find namespace reservations) ≡ some user

abbrev pub IsWithin : Reservations → Text → PageEndpointSet → Type 0
IsWithin reservations user set =
    All (λ b. IsHeldBy reservations user b.locator.namespace) (bindings_of set)

-- Every endpoint of a managed page is in a namespace of the page's owner.
abbrev pub IsHoused : Reservations → Repository → Type 0
IsHoused reservations s =
    (id : Text) (page : PageAggregate) (owner : Text)
    → get s.pages id ≡ some page
    → page.stewardship ≡ managed owner
    → IsWithin reservations owner page.endpoint_set

-- What is reserved stays reserved, by the same user.
abbrev pub Grows : Reservations → Reservations → Type 0
Grows earlier later =
    (namespace user : Text) → IsHeldBy earlier user namespace → IsHeldBy later user namespace

key_lem : (namespace : Text) (s : Reservations) → find namespace s ≡ get s (to_lower namespace)
unfolding find namespace_key locator_key
key_lem namespace s = refl

All-member : (P : Text → Type 0) (k : Text) (ks : List Text) → All P ks → member k ks ≡ true → P k
unfolding member
All-member P k [] h m = absurd (ground arith)
All-member P k (x ∷ xs) h m = elim (text_dec x k) [
  | yes same ↦ subst P same h.0
  | no other ↦ All-member P k xs h.1 (ground arith)
]

module _ (g : Setting) (user : UserPageActor) where
  abbrev Held : Text → Type 0
  Held key = owner_of (get g.reservations key) ≡ some user.user_id

  abbrev authority_of : Text → NamespaceAuthority
  authority_of namespace = resolve_authority (as_actor user) namespace g.reservations

  owned_lem :
      (namespace : Text)
      → is_reserved_by_other (authority_of namespace) ≡ false
      → is_unreserved (authority_of namespace) ≡ false
      → Held (to_lower namespace)
  unfolding resolve_authority
  owned_lem namespace taken free =
      let at = key_lem namespace g.reservations in
      elim (Option-cases (get g.reservations (to_lower namespace))) [
        | inl nobody ↦ absurd (ground arith)
        | inr (reservation, held) ↦ ground arith
      ]

  scan_owned :
      (seen : List Text) (bs : List PageEndpointBinding)
      → All Held seen
      → any is_reserved_by_other (map authority_of (namespaces_from seen bs)) ≡ false
      → any is_unreserved (map authority_of (namespaces_from seen bs)) ≡ false
      → All (λ b. Held (to_lower b.locator.namespace)) bs
  scan_owned seen [] known taken free = tt
  scan_owned seen (b ∷ bs) known taken free =
      elim (Bool-cases (member (to_lower b.locator.namespace) seen)) [
        | inl old ↦ (
          All-member Held (to_lower b.locator.namespace) seen known old,
          scan_owned seen bs known (ground arith) (ground arith),
        )
        | inr new ↦
            let first = owned_lem b.locator.namespace (ground arith) (ground arith) in
            (
              first,
              scan_owned (to_lower b.locator.namespace ∷ seen) bs (first, known) (ground arith)
                  (ground arith),
            )
      ]

  pub authority-IsWithin :
      (set : PageEndpointSet)
      → any is_reserved_by_other (endpoint_authorities g (as_actor user) set) ≡ false
      → any is_unreserved (endpoint_authorities g (as_actor user) set) ≡ false
      → IsWithin g.reservations user.user_id set
  unfolding endpoint_authorities find namespace_key locator_key
  authority-IsWithin set taken free = scan_owned [] (bindings_of set) tt taken free

pub grown-IsWithin :
    (earlier later : Reservations) (user : Text) (bs : List PageEndpointBinding)
    → Grows earlier later
    → All (λ b. IsHeldBy earlier user b.locator.namespace) bs
    → All (λ b. IsHeldBy later user b.locator.namespace) bs
grown-IsWithin earlier later user [] grows h = tt
grown-IsWithin earlier later user (b ∷ bs) grows h =
    (grows b.locator.namespace user h.0, grown-IsWithin earlier later user bs grows h.1)

pub planned-IsWithin :
    (reservations : Reservations) (user : Text) (set : PageEndpointSet)
    → IsWithin reservations user set
    → IsWithin reservations user (planned set)
unfolding planned
planned-IsWithin reservations user set h =
    (h.0, sort-All before (λ b. IsHeldBy reservations user b.locator.namespace) set.alternates h.1)
