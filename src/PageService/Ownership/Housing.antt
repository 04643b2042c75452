-- ===== src/PageService/Ownership/Housing.antt =====
-- lib/page/service.ts: every call keeps managed pages in namespaces of their owners.
use iam_pager.Base.{
  Text, Bool, List, [], ◌∷◌, Option, none, some, true, false, ◌≡◌, inl, inr, arith, All, ap, ◌∙◌,
  or_else, sym, subst,
}
use iam_pager.Page.{PageStewardship, trial, managed}
use iam_pager.Endpoint.{PageEndpointSet, bindings_of}
use iam_pager.Aggregate.{PageAggregate}
use iam_pager.Namespace.{Reservations}
use iam_pager.PageRepository.State.{Repository, is_owned_by}
use iam_pager.PageRepository.Requests.{
  CreateManagedRequest, UpdateManagedRequest, DuplicateManagedRequest,
}
use iam_pager.PageRepository.Requests.{PutTrialRequest, DeleteManagedRequest}
use iam_pager.PageRepository.Reads.{create_content_asset}
use iam_pager.PageRepository.Trials.{put_trial_page_aggregate}
use iam_pager.PageRepository.Changes.{delete_managed_page_aggregate}
use iam_pager.Content.{ContentAsset}
use iam_pager.PageRepository.Invariant.{IsCoherent}
use iam_pager.PageRepository.Effects.{Effect, IsCreatedBy, store-Effect, put-Effect, create-Effect}
use iam_pager.PageRepository.Effects.Observed.{observe-IsObservation}
use iam_pager.PageService.Guarded.Visits.{Observes}
use iam_pager.PageRepository.Effects.Edits.{
  IsUpdateBy, IsCopyBy, update-Effect, duplicate-Effect, delete-Effect,
}
use iam_pager.PageService.Model.{Setting, UserPageActor}
use iam_pager.PageService.Call.{World}
use iam_pager.PageService.Guarded.{Powers, WhenGiven}
use iam_pager.PageService.Requests.{
  Request, caller, perform, perform_all, Empowers, Enables, enables, perform_keeps,
}
use iam_pager.PageService.Ownership.{
  IsWithin, IsHoused, Grows, authority-IsWithin, grown-IsWithin, planned-IsWithin,
}

module _ (R : Reservations) where
  abbrev Settled : Repository → Type 0
  Settled s = IsCoherent s × IsHoused R s

  abbrev Within : UserPageActor → PageEndpointSet → Type 0
  Within user = IsWithin R user.user_id

  Effect-Settled :
      {touched : Text → Bool} {New : PageAggregate → Type 0} {s t : Repository}
      → Effect touched New s t
      → Settled s
      → ((q : PageAggregate) (owner : Text)
          → New q
          → q.stewardship ≡ managed owner
          → IsWithin R owner q.endpoint_set)
      → Settled t
  Effect-Settled h i new = (
    h.coherent,
    λ id q owner e m. elim (h.news id q e) [
      | inl old ↦ i.1 id q owner old m
      | inr made ↦ new q owner made m
    ],
  )

  owner_is :
      (user : Text) (stewardship : PageStewardship)
      → is_owned_by user stewardship ≡ true
      → stewardship ≡ managed user
  owner_is user trial own = absurd (ground arith)
  owner_is user (managed owner) own = ground arith

  created-IsWithin :
      (r : CreateManagedRequest) (q : PageAggregate) (owner : Text)
      → IsWithin R r.owner_user_id r.endpoint_set
      → IsCreatedBy r q
      → q.stewardship ≡ managed owner
      → IsWithin R owner q.endpoint_set
  created-IsWithin r q owner h made m =
      let its : managed r.owner_user_id ≡ managed owner = ap (λ p. p.stewardship) made ∙ m in
      let same : r.owner_user_id ≡ owner = cc in
      subst (λ p. IsWithin R owner p.endpoint_set) made
        (subst (λ o. IsWithin R o r.endpoint_set) same h)

  patched-IsWithin :
      (user : Text) (patch : Option PageEndpointSet) (set : PageEndpointSet)
      → WhenGiven (IsWithin R user) patch
      → IsWithin R user set
      → IsWithin R user (or_else patch set)
  patched-IsWithin user none set h k = k
  patched-IsWithin user (some given_set) set h k = h

  updated-IsWithin :
      (r : UpdateManagedRequest) (s : Repository) (q : PageAggregate) (owner : Text)
      → Settled s
      → WhenGiven (IsWithin R r.owner_user_id) r.patch.endpoint_set
      → IsUpdateBy r s q
      → q.stewardship ≡ managed owner
      → IsWithin R owner q.endpoint_set
  updated-IsWithin r s q owner i h (old, stands, own, made) m =
      let mine = owner_is r.owner_user_id old.stewardship own in
      let its : managed r.owner_user_id ≡ managed owner =
        sym mine ∙ (ap (λ p. p.stewardship) made ∙ m) in
      let same : r.owner_user_id ≡ owner = cc in
      subst (λ p. IsWithin R owner p.endpoint_set) made
        (subst (λ o. IsWithin R o (or_else r.patch.endpoint_set old.endpoint_set)) same
          (patched-IsWithin r.owner_user_id r.patch.endpoint_set old.endpoint_set h
            (i.1 r.page_id old r.owner_user_id stands mine)))

  copied-IsWithin :
      (r : DuplicateManagedRequest) (q : PageAggregate) (owner : Text)
      → IsWithin R r.owner_user_id r.endpoint_set
      → IsCopyBy r q
      → q.stewardship ≡ managed owner
      → IsWithin R owner q.endpoint_set
  copied-IsWithin r q owner h (old, own, made) m =
      let mine = owner_is r.owner_user_id old.stewardship own in
      let its : managed r.owner_user_id ≡ managed owner =
        sym mine ∙ (ap (λ p. p.stewardship) made ∙ m) in
      let same : r.owner_user_id ≡ owner = cc in
      subst (λ p. IsWithin R owner p.endpoint_set) made
        (subst (λ o. IsWithin R o r.endpoint_set) same h)

  abbrev Everywhere : Text → Type 0
  Everywhere page_id = Unit

  abbrev Never : PageAggregate → Type 0
  Never q = true ≡ false

  stored-Settled :
      (a : ContentAsset) (s : Repository) → Settled s → Settled (create_content_asset a s).1
  stored-Settled a s i =
      Effect-Settled (store-Effect {New = Never} a s i.0) i (λ q owner n m. absurd (ground arith))

  put-Settled :
      (r : PutTrialRequest) (s : Repository) → Settled s → Settled (put_trial_page_aggregate r s).1
  put-Settled r s i = Effect-Settled (put-Effect r s i.0) i (λ q owner n m. absurd (ground arith))

  deleted-Settled :
      (r : DeleteManagedRequest) (s : Repository)
      → Settled s
      → Settled (delete_managed_page_aggregate r s).1
  deleted-Settled r s i =
      Effect-Settled (delete-Effect {New = Never} r s i.0) i (λ q owner n m. absurd (ground arith))

  user-Powers :
      (g : Setting) (user : UserPageActor)
      → Grows g.reservations R
      → Powers Settled Everywhere (Within user) g user
  user-Powers g user grows = record {
    stores = stored-Settled;
    creates = λ r own within s i. Effect-Settled (create-Effect r s i.0) i (λ q owner.
        created-IsWithin r q owner (subst (λ u. IsWithin R u r.endpoint_set) (sym own) within));
    updates = λ r own free within s i. Effect-Settled (update-Effect r s i.0) i (λ q owner.
        updated-IsWithin r s q owner i
          (subst (λ u. WhenGiven (IsWithin R u) r.patch.endpoint_set) (sym own) within));
    duplicates = λ r own within s i. Effect-Settled (duplicate-Effect r s i.0) i (λ q owner.
        copied-IsWithin r q owner (subst (λ u. IsWithin R u r.endpoint_set) (sym own) within));
    deletes = λ r own free s i. deleted-Settled r s i;
    finds = λ page_id page s i e own. (
      λ writable. tt,
      i.1 page_id page user.user_id e (owner_is user.user_id page.stewardship own),
    );
    has_authority = λ set taken free.
        grown-IsWithin g.reservations R user.user_id (bindings_of set) grows
          (authority-IsWithin g user set taken free);
    plans = λ set h. planned-IsWithin R user.user_id set h;
    renames = λ set name h. h;
    copies = λ set name h. (h.0, tt);
  }

  observed-Settled : Observes Settled
  observed-Settled r s i =
      let o = observe-IsObservation r s i.0 in
      (
        o.coherent,
        λ id q owner e m.
            let (missing, old, stands, same) = o.before id q e in
            subst (λ p. IsWithin R owner p.endpoint_set) same
              (i.1 id old owner stands (ap (λ p. p.stewardship) same ∙ m)),
      )

  settling-Empowers :
      (g : Setting) (who : Option UserPageActor)
      → Grows g.reservations R
      → Empowers Settled Everywhere Within g who
  settling-Empowers g none grows = (stored-Settled, put-Settled)
  settling-Empowers g (some user) grows = user-Powers g user grows

  settling-Enables :
      (g : Setting) (request : Request)
      → Grows g.reservations R
      → Enables Settled Everywhere Within g request
  settling-Enables g request grows =
      enables Settled Everywhere Within g request (settling-Empowers g (caller request) grows)
        observed-Settled

  perform_all-Settled :
      (requests : List (Setting × Request)) (w : World)
      → All (λ call. Grows call.0.reservations R) requests
      → Settled w.repository
      → Settled (perform_all requests w).repository
  unfolding perform_all
  perform_all-Settled [] w grows i = i
  perform_all-Settled ((g, request) ∷ rest) w grows i =
      perform_all-Settled rest (perform g request w) grows.1
        (perform_keeps Settled Everywhere Within g request w (settling-Enables g request grows.0) i)

-- Where the repository is coherent and every endpoint of every managed page is in a namespace that the page's owner has reserved,
-- any sequence of calls by any callers, deliveries and views included, keeps it so: no call gives a
-- page a locator in a namespace that its owner does not hold. The reservations may grow between the
-- calls, and the property is read in the last of them.
pub perform_all-IsHoused :
    (reservations : Reservations) (requests : List (Setting × Request)) (w : World)
    → IsCoherent w.repository
    → IsHoused reservations w.repository
    → All (λ call. Grows call.0.reservations reservations) requests
    → IsHoused reservations (perform_all requests w).repository
perform_all-IsHoused reservations requests w v h grows =
    (perform_all-Settled reservations requests w grows (v, h)).1
