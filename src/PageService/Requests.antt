-- ===== src/PageService/Requests.antt =====
-- lib/page/service.ts: any call of the service that may write, and what its powers keep. Delivery and
-- the public view are among them: they record what they observe of external content.
use iam_pager.Locator.{Locator}
use iam_pager.Namespace.{PageActor}
use iam_pager.Base.{Text, Bool, true, false, ◌≡◌, List, [], ◌∷◌, Option, none, some}
use iam_pager.Content.{ContentAsset}
use iam_pager.Endpoint.{PageEndpointSet}
use iam_pager.Page.{PageAccess}
use iam_pager.PageRepository.State.{Repository}
use iam_pager.PageRepository.Requests.{PutTrialRequest}
use iam_pager.PageRepository.Reads.{create_content_asset}
use iam_pager.PageRepository.Trials.{put_trial_page_aggregate}
use iam_pager.PageService.Model.{
  Setting, UserPageActor, PublishTrialRequest, CreateRequest, UpdateRequest, RenameRequest,
  RelinkRequest, DeleteRequest, DuplicateRequest, Selection,
}
use iam_pager.PageService.Call.{World}
use iam_pager.PageService.Publishing.{publish_trial, create_managed}
use iam_pager.PageService.Updating.{update_managed, rename_managed, delete_managed}
use iam_pager.PageService.Relinking.{relink_managed_external_content}
use iam_pager.PageService.Duplicating.{duplicate_managed}
use iam_pager.PageService.Bulk.{bulk_delete_managed, bulk_change_managed_access}
use iam_pager.PageService.Delivery.{deliver, view_public}
use iam_pager.PageService.Guarded.{Powers}
use iam_pager.PageService.Guarded.Visits.{Observes, deliver-Keeps, view-Keeps}
use iam_pager.PageService.Guarded.Trials.{publish-Keeps}
use iam_pager.PageService.Guarded.Writes.{create-Keeps}
use iam_pager.PageService.Guarded.Commands.{update-Keeps, rename-Keeps, delete-Keeps, relink-Keeps}
use iam_pager.PageService.Guarded.Copies.{duplicate-Keeps}
use iam_pager.PageService.Guarded.Bulk.{bulk_delete-Keeps, bulk_change-Keeps}

pub data Request : Type 0 where
  publishing : PublishTrialRequest → Request
  creating : CreateRequest → Request
  updating : UpdateRequest → Request
  renaming : RenameRequest → Request
  relinking : RelinkRequest → Request
  deleting : DeleteRequest → Request
  duplicating : DuplicateRequest → Request
  bulk_deleting : UserPageActor → List Selection → Request
  bulk_changing : UserPageActor → PageAccess → List Selection → Request
  delivering : Locator → PageActor → Request
  viewing : Locator → Request

-- The user on whose behalf the call writes pages. A trial is published by a guest, and a delivery or
-- a view writes on nobody's behalf.
abbrev pub caller : Request → Option UserPageActor
caller (publishing r) = none
caller (creating r) = some r.actor
caller (updating r) = some r.actor
caller (renaming r) = some r.actor
caller (relinking r) = some r.actor
caller (deleting r) = some r.actor
caller (duplicating r) = some r.actor
caller (bulk_deleting user selection) = some user
caller (bulk_changing user access selection) = some user
caller (delivering locator actor) = none
caller (viewing locator) = none

-- Whether the call delivers or shows a page
abbrev pub is_visit : Request → Bool
is_visit (delivering locator actor) = true
is_visit (viewing locator) = true
is_visit _ = false

-- What a call leaves, whatever it answers or throws
unfoldable pub perform : Setting → Request → World → World
perform g (publishing r) w = (publish_trial g r w).1
perform g (creating r) w = (create_managed g r w).1
perform g (updating r) w = (update_managed g r w).1
perform g (renaming r) w = (rename_managed g r w).1
perform g (relinking r) w = (relink_managed_external_content g r w).1
perform g (deleting r) w = (delete_managed g r w).1
perform g (duplicating r) w = (duplicate_managed g r w).1
perform g (bulk_deleting user selection) w = (bulk_delete_managed g user selection w).1
perform g (bulk_changing user access selection) w =
    (bulk_change_managed_access g user access selection w).1
perform g (delivering locator actor) w = (deliver g locator actor w).1
perform g (viewing locator) w = (view_public g locator w).1

-- The calls made one after the other, each in its own setting
unfoldable pub perform_all : List (Setting × Request) → World → World
perform_all [] w = w
perform_all ((g, request) ∷ rest) w = perform_all rest (perform g request w)

-- What a guest's calls keep, and what a user's calls keep
abbrev pub Empowers :
    (Repository → Type 0)
    → (Text → Type 0)
    → (UserPageActor → PageEndpointSet → Type 0)
    → Setting
    → Option UserPageActor
    → Type 0
Empowers I Free Permitted g none =
    ((a : ContentAsset) (s : Repository) → I s → I (create_content_asset a s).1)
    × ((r : PutTrialRequest) (s : Repository) → I s → I (put_trial_page_aggregate r s).1)
Empowers I Free Permitted g (some user) = Powers I Free (Permitted user) g user

-- What a visit needs, and what any other call needs of its caller
abbrev pub Enables :
    (Repository → Type 0)
    → (Text → Type 0)
    → (UserPageActor → PageEndpointSet → Type 0)
    → Setting
    → Request
    → Type 0
Enables I Free Permitted g (delivering locator actor) = Observes I
Enables I Free Permitted g (viewing locator) = Observes I
Enables I Free Permitted g request = Empowers I Free Permitted g (caller request)

pub enables :
    (I : Repository → Type 0) (Free : Text → Type 0)
    (Permitted : UserPageActor → PageEndpointSet → Type 0) (g : Setting) (request : Request)
    → Empowers I Free Permitted g (caller request)
    → Observes I
    → Enables I Free Permitted g request
enables I Free Permitted g (delivering locator actor) h o = o
enables I Free Permitted g (viewing locator) h o = o
enables I Free Permitted g (publishing r) h o = h
enables I Free Permitted g (creating r) h o = h
enables I Free Permitted g (updating r) h o = h
enables I Free Permitted g (renaming r) h o = h
enables I Free Permitted g (relinking r) h o = h
enables I Free Permitted g (deleting r) h o = h
enables I Free Permitted g (duplicating r) h o = h
enables I Free Permitted g (bulk_deleting user selection) h o = h
enables I Free Permitted g (bulk_changing user access selection) h o = h

-- A call that is no visit needs only what its caller's calls need.
pub Enables-other :
    (I : Repository → Type 0) (Free : Text → Type 0)
    (Permitted : UserPageActor → PageEndpointSet → Type 0) (g : Setting) (request : Request)
    → is_visit request ≡ false
    → Empowers I Free Permitted g (caller request)
    → Enables I Free Permitted g request
Enables-other I Free Permitted g (delivering locator actor) e h = cc
Enables-other I Free Permitted g (viewing locator) e h = cc
Enables-other I Free Permitted g (publishing r) e h = h
Enables-other I Free Permitted g (creating r) e h = h
Enables-other I Free Permitted g (updating r) e h = h
Enables-other I Free Permitted g (renaming r) e h = h
Enables-other I Free Permitted g (relinking r) e h = h
Enables-other I Free Permitted g (deleting r) e h = h
Enables-other I Free Permitted g (duplicating r) e h = h
Enables-other I Free Permitted g (bulk_deleting user selection) e h = h
Enables-other I Free Permitted g (bulk_changing user access selection) e h = h

-- A visit needs only what observations need.
pub Enables-visit :
    (I : Repository → Type 0) (Free : Text → Type 0)
    (Permitted : UserPageActor → PageEndpointSet → Type 0) (g : Setting) (request : Request)
    → is_visit request ≡ true
    → Observes I
    → Enables I Free Permitted g request
Enables-visit I Free Permitted g (delivering locator actor) e h = h
Enables-visit I Free Permitted g (viewing locator) e h = h
Enables-visit I Free Permitted g (publishing r) e h = cc
Enables-visit I Free Permitted g (creating r) e h = cc
Enables-visit I Free Permitted g (updating r) e h = cc
Enables-visit I Free Permitted g (renaming r) e h = cc
Enables-visit I Free Permitted g (relinking r) e h = cc
Enables-visit I Free Permitted g (deleting r) e h = cc
Enables-visit I Free Permitted g (duplicating r) e h = cc
Enables-visit I Free Permitted g (bulk_deleting user selection) e h = cc
Enables-visit I Free Permitted g (bulk_changing user access selection) e h = cc

-- A call keeps what its calls of the repository keep.
pub perform_keeps :
    (I : Repository → Type 0) (Free : Text → Type 0)
    (Permitted : UserPageActor → PageEndpointSet → Type 0) (g : Setting) (request : Request)
    (w : World)
    → Enables I Free Permitted g request
    → I w.repository
    → I (perform g request w).repository
unfolding perform
perform_keeps I Free Permitted g (publishing r) w h i = ((publish-Keeps g h.0 h.1 r).holds w i).0
perform_keeps I Free Permitted g (creating r) w h i = ((create-Keeps g r h).holds w i).0
perform_keeps I Free Permitted g (updating r) w h i = ((update-Keeps g r h).holds w i).0
perform_keeps I Free Permitted g (renaming r) w h i = ((rename-Keeps g r h).holds w i).0
perform_keeps I Free Permitted g (relinking r) w h i = ((relink-Keeps g r h).holds w i).0
perform_keeps I Free Permitted g (deleting r) w h i = ((delete-Keeps g r h).holds w i).0
perform_keeps I Free Permitted g (duplicating r) w h i = ((duplicate-Keeps g r h).holds w i).0
perform_keeps I Free Permitted g (bulk_deleting user selection) w h i =
    ((bulk_delete-Keeps g user h selection).holds w i).0
perform_keeps I Free Permitted g (bulk_changing user access selection) w h i =
    ((bulk_change-Keeps g user h access selection).holds w i).0
perform_keeps I Free Permitted g (delivering locator actor) w h i =
    ((deliver-Keeps g h locator actor).holds w i).0
perform_keeps I Free Permitted g (viewing locator) w h i = ((view-Keeps g h locator).holds w i).0
