-- ===== src/PageService/Guarded.antt =====
-- lib/page/service.ts: what a user's calls need of a property of the repository to keep it, and the
-- steps that the operations share.
pub mod Writes
pub mod Edits
pub mod Commands
pub mod Bulk
pub mod Trials
pub mod Visits
pub mod Copies
use iam_pager.Base.{
  Text, ℕ, zero, suc, List, [], true, false, not, Option, none, some, ◌≡◌, refl, any, arith,
  Bool-cases, Option-cases, inl, inr,
}
use iam_pager.Base.Map.{get}
use iam_pager.Content.{ContentAsset, Date}
use iam_pager.Endpoint.{PageEndpointSet, bindings_of}
use iam_pager.Endpoint.Planner.{
  planned, plan, profiles_fault, first_failure, plan_unless, PlannerFault, PlanFailure,
}
use iam_pager.Page.{is_valid_page_id}
use iam_pager.Aggregate.{PageAggregate}
use iam_pager.PageRepository.State.{Repository, is_owned_by, require_page_id}
use iam_pager.PageRepository.Requests.{
  CreateManagedRequest, UpdateManagedRequest, DuplicateManagedRequest, DeleteManagedRequest,
  AssetReply, asset_stored, asset_rejected,
}
use iam_pager.PageRepository.Reads.{create_content_asset, find_page_aggregate_by_id}
use iam_pager.PageRepository.Creation.{
  create_managed_page_aggregate, duplicate_managed_page_aggregate,
}
use iam_pager.PageRepository.Changes.{update_managed_page_aggregate, delete_managed_page_aggregate}
use iam_pager.PageService.Model.{Setting, UserPageActor, MaterializedPage, PreparedPageContent}
use iam_pager.PageService.Call.{Call}
use iam_pager.PageService.Content.{staged, stage_attempts, stage_prepared_content_asset}
use iam_pager.PageService.Endpoints.{
  is_reserved_by_other, is_unreserved, endpoint_authorities, as_actor, require_authority,
  prepare_endpoint_intent, planned_set, engine_validate, inline_at,
}
use iam_pager.PageService.Pages.{
  api_write_blocked, find_writable_page, find_authorized_page, authorized, require_user,
}
use iam_pager.PageService.Updating.{renamed_set}
use iam_pager.PageService.Duplicating.{named}
use iam_pager.PageService.Keeps.{
  Keeps, Any, Answers, bind-Keeps, then-Keeps, pure-Keeps, stop-Keeps, if-Keeps, ask-Keeps,
  changes-Keeps, unless-Keeps, given-Keeps, anyway, post-Keeps, draw_asset_id-Keeps,
}
use iam_pager.PageService.Steps.{materialize-Keeps, staging-Keeps}

abbrev pub WhenGiven : {A : Type 0} → (A → Type 0) → Option A → Type 0
WhenGiven P none = Unit
WhenGiven P (some a) = P a

-- The repository's calls on behalf of a user keep `I`, where they write pages that are `Free` and
-- give endpoint sets that are `Permitted`; the pages that the user finds unblocked are free, and the
-- sets that the user has authority over are permitted.
pub record Powers (I : Repository → Type 0) (Free : Text → Type 0)
    (Permitted : PageEndpointSet → Type 0) (g : Setting) (user : UserPageActor) : Type 0 where
  pub stores : (a : ContentAsset) (s : Repository) → I s → I (create_content_asset a s).1
  pub creates :
      (r : CreateManagedRequest)
      → r.owner_user_id ≡ user.user_id
      → Permitted r.endpoint_set
      → (s : Repository) → I s
      → I (create_managed_page_aggregate r s).1
  pub updates :
      (r : UpdateManagedRequest)
      → r.owner_user_id ≡ user.user_id
      → Free r.page_id
      → WhenGiven Permitted r.patch.endpoint_set
      → (s : Repository) → I s
      → I (update_managed_page_aggregate r s).1
  pub duplicates :
      (r : DuplicateManagedRequest)
      → r.owner_user_id ≡ user.user_id
      → Permitted r.endpoint_set
      → (s : Repository) → I s
      → I (duplicate_managed_page_aggregate r s).1
  pub deletes :
      (r : DeleteManagedRequest)
      → r.owner_user_id ≡ user.user_id
      → Free r.page_id
      → (s : Repository) → I s
      → I (delete_managed_page_aggregate r s).1
  pub finds :
      (id : Text) (page : PageAggregate) (s : Repository)
      → I s
      → get s.pages id ≡ some page
      → is_owned_by user.user_id page.stewardship ≡ true
      → (api_write_blocked user page ≡ false → Free page.page_id) × Permitted page.endpoint_set
  pub has_authority :
      (set : PageEndpointSet)
      → any is_reserved_by_other (endpoint_authorities g (as_actor user) set) ≡ false
      → any is_unreserved (endpoint_authorities g (as_actor user) set) ≡ false
      → Permitted set
  pub plans : (set : PageEndpointSet) → Permitted set → Permitted (planned set)
  pub renames :
      (set : PageEndpointSet) (name : Option Text)
      → Permitted set
      → Permitted (renamed_set set name)
  pub copies :
      (set : PageEndpointSet) (name : Text)
      → Permitted set
      → Permitted (inline_at (named set.canonical.locator name))

module _ {I : Repository → Type 0} {Free : Text → Type 0} {Permitted : PageEndpointSet → Type 0}
    (g : Setting) (user : UserPageActor) (powers : Powers I Free Permitted g user) where
  pub stage-Keeps :
      (content : PreparedPageContent) (now : Date)
      → Keeps I (stage_prepared_content_asset g content now) Any
  stage-Keeps content now = staging-Keeps g powers.stores content now

  -- What `find_authorized_page` gives its caller
  abbrev pub IsUsable : MaterializedPage → Type 0
  IsUsable m =
      (api_write_blocked user m.page ≡ false → Free m.page.page_id) × Permitted m.page.endpoint_set

  abbrev AreUsable : Option MaterializedPage → Type 0
  AreUsable found = (m : MaterializedPage) → found ≡ some m → IsUsable m

  abbrev Found : Option PageAggregate → Type 0
  Found found =
      (page : PageAggregate)
      → found ≡ some page
      → is_owned_by user.user_id page.stewardship ≡ true
      → (api_write_blocked user page ≡ false → Free page.page_id) × Permitted page.endpoint_set

  none-AreUsable : AreUsable none
  none-AreUsable m e = cc

  some-AreUsable :
      (page : PageAggregate) (m : MaterializedPage)
      → Found (some page)
      → not (is_owned_by user.user_id page.stewardship) ≡ false
      → m.page ≡ page
      → AreUsable (some m)
  some-AreUsable page m h own same n e =
      let its : n.page ≡ page = ground arith in rw its (h page refl (ground arith))

  authorized-Keeps :
      (found : Option PageAggregate) → Found found → Keeps I (authorized g user found) AreUsable
  unfolding authorized
  authorized-Keeps none h = pure-Keeps _ none-AreUsable
  authorized-Keeps (some page) h =
      if-Keeps _ (λ foreign. pure-Keeps _ none-AreUsable)
        (λ own.
          if-Keeps _ (λ without. pure-Keeps _ none-AreUsable)
            (λ holds_it.
              bind-Keeps (materialize-Keeps page)
                (λ found same. pure-Keeps _ (some-AreUsable page found h own same))))

  page_read :
      (id : Text) (s : Repository)
      → I s
      → I (find_page_aggregate_by_id id s).1 × Answers Found (find_page_aggregate_by_id id s).0
  unfolding find_page_aggregate_by_id require_page_id
  page_read id s i = elim (Bool-cases (is_valid_page_id id)) [
    | inl ok ↦ rw ok (i, λ page e own. powers.finds id page s i e own)
    | inr bad ↦ rw bad (i, tt)
  ]

  find_authorized-Keeps : (id : Text) → Keeps I (find_authorized_page g user id) AreUsable
  unfolding find_authorized_page
  find_authorized-Keeps id =
      if-Keeps _
        (λ ok. bind-Keeps (ask-Keeps _ (page_read id)) (λ found h. authorized-Keeps found h))
        (λ bad. pure-Keeps _ none-AreUsable)

  -- A page that the user may write is free, and its endpoint set permitted.
  pub find_writable-Keeps :
      (id : Text)
      → Keeps I
          (find_writable_page g user id)
          (λ m. Free m.page.page_id × Permitted m.page.endpoint_set)
  unfolding find_writable_page
  find_writable-Keeps id = bind-Keeps (find_authorized-Keeps id) (λ found usable.
      bind-Keeps (given-Keeps found _) (λ m is.
        then-Keeps (unless-Keeps _ _)
          (λ writable. pure-Keeps m ((usable m is).0 (ground arith), (usable m is).1))))

  pub require_user-Keeps : Keeps I (require_user user) Any
  unfolding require_user
  require_user-Keeps = anyway (unless-Keeps _ _)

  pub require_authority-Keeps :
      (set : PageEndpointSet) → Keeps I (require_authority g user set) (λ _. Permitted set)
  unfolding require_authority
  require_authority-Keeps set =
      let taken = any is_reserved_by_other (endpoint_authorities g (as_actor user) set) in
      let free = any is_unreserved (endpoint_authorities g (as_actor user) set) in
      then-Keeps (unless-Keeps (not taken) _) (λ first.
        post-Keeps (unless-Keeps (not free) _)
          (λ _ second. powers.has_authority set (ground arith) (ground arith)))
