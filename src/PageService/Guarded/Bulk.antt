-- ===== src/PageService/Guarded/Bulk.antt =====
-- lib/page/service.ts: the bulk commands keep what the repository's calls keep.
use iam_pager.Base.{Text, List, [], ◌∷◌, refl}
use iam_pager.Endpoint.{PageEndpointSet}
use iam_pager.Page.{PageAccess}
use iam_pager.PageRepository.State.{Repository}
use iam_pager.PageRepository.Requests.{Reply, committed, rejected}
use iam_pager.PageService.Model.{Setting, UserPageActor, Selection}
use iam_pager.PageService.Call.{Call, Stop, fails, throws}
use iam_pager.PageService.Bulk.{
  item_stopped, item_of, each_item, delete_selected, bulk_delete_managed, changed_reply,
  change_selected, bulk_change_managed_access,
}
use iam_pager.PageService.Keeps.{
  Keeps, Any, bind-Keeps, then-Keeps, pure-Keeps, stop-Keeps, catching-Keeps, unless-Keeps,
}
use iam_pager.PageService.Steps.{operation_time-Keeps, summary-Keeps, shown-Keeps}
use iam_pager.PageService.Guarded.Edits.{require_current-Keeps, replace-Keeps, write_delete-Keeps}
use iam_pager.PageService.Guarded.{Powers, require_user-Keeps, find_writable-Keeps}

module _ {I : Repository → Type 0} {A : Type 0} where
  item_stopped-Keeps : (id : Text) (e : Stop) → Keeps I (item_stopped {A = A} id e) Any
  unfolding item_stopped
  item_stopped-Keeps id (fails reason) = pure-Keeps _ tt
  item_stopped-Keeps id (throws fault) = stop-Keeps _

  item-Keeps : (id : Text) {m : Call A} → Keeps I m Any → Keeps I (item_of id m) Any
  unfolding item_of
  item-Keeps id h = catching-Keeps (bind-Keeps h (λ a _. pure-Keeps _ tt)) (item_stopped-Keeps id)

  each_item-Keeps :
      {f : Selection → Call A} (selection : List Selection)
      → ((selected : Selection) → Keeps I (f selected) Any)
      → Keeps I (each_item f selection) Any
  unfolding each_item
  each_item-Keeps [] h = pure-Keeps _ tt
  each_item-Keeps (selected ∷ rest) h =
      bind-Keeps (item-Keeps selected.page_id (h selected))
        (λ result _. bind-Keeps (each_item-Keeps rest h) (λ results _. pure-Keeps _ tt))

module _ {I : Repository → Type 0} {Free : Text → Type 0} {Permitted : PageEndpointSet → Type 0}
    (g : Setting) (user : UserPageActor) (powers : Powers I Free Permitted g user) where
  changed_reply-Keeps : (reply : Reply) → Keeps I (changed_reply g reply) Any
  unfolding changed_reply
  changed_reply-Keeps (committed outcome page) = shown-Keeps page (λ m. summary-Keeps g m)
  changed_reply-Keeps (rejected reason) = stop-Keeps _

  delete_selected-Keeps : (selected : Selection) → Keeps I (delete_selected g user selected) Any
  unfolding delete_selected
  delete_selected-Keeps selected =
      bind-Keeps (find_writable-Keeps g user powers selected.page_id)
        (λ m usable. write_delete-Keeps g user powers m selected.expected_revision usable.0)

  change_selected-Keeps :
      (access : PageAccess) (selected : Selection)
      → Keeps I (change_selected g user access selected) Any
  unfolding change_selected
  change_selected-Keeps access selected =
      bind-Keeps (find_writable-Keeps g user powers selected.page_id) (λ m usable.
        then-Keeps (require_current-Keeps m.page selected.expected_revision) (λ _.
          bind-Keeps (operation_time-Keeps g) (λ now _.
            bind-Keeps (replace-Keeps g user powers _ refl usable.0 tt)
              (λ reply _. changed_reply-Keeps reply))))

  pub bulk_delete-Keeps :
      (selection : List Selection) → Keeps I (bulk_delete_managed g user selection) Any
  unfolding bulk_delete_managed
  bulk_delete-Keeps selection =
      then-Keeps (require_user-Keeps g user powers)
        (λ _. then-Keeps (unless-Keeps _ _) (λ _. each_item-Keeps selection delete_selected-Keeps))

  pub bulk_change-Keeps :
      (access : PageAccess) (selection : List Selection)
      → Keeps I (bulk_change_managed_access g user access selection) Any
  unfolding bulk_change_managed_access
  bulk_change-Keeps access selection = then-Keeps (require_user-Keeps g user powers) (λ _.
      then-Keeps (unless-Keeps _ _) (λ _. each_item-Keeps selection (change_selected-Keeps access)))
