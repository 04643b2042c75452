-- ===== src/PageService/Bulk.antt =====
-- lib/page/service.ts: `bulk_change_managed_access` and `bulk_delete_managed`.
use iam_pager.Base.{Text, ℕ, Bool, List, [], ◌∷◌, none, true, not, ◌&&◌, member, leb, length}
use iam_pager.Page.{PageAccess, is_valid_page_id, is_valid_page_revision}
use iam_pager.PageRepository.Requests.{Reason, Reply, committed, rejected}
use iam_pager.PageRepository.Changes.{delete_managed_page_aggregate}
use iam_pager.PageService.Model.{
  Setting, UserPageActor, Selection, Failure, ItemResult, item_done, item_failed, PageSummary,
}
use iam_pager.PageService.Call.{
  Call, Stop, fails, throws, ServiceFault, ◌>>=◌, ◌>>◌, pure, stop, unless, ask,
}
use iam_pager.PageService.Pages.{
  require_user, operation_time, find_writable_page, materialize_aggregate, summary_of,
}
use iam_pager.PageService.Updating.{
  require_current, replace_managed_record, after_replace, catching, delete_request, deleted_reply,
}

abbrev pub max_bulk_managed_pages : ℕ
max_bulk_managed_pages = 100

-- The loop over the selection, with the identities seen so far
abbrev distinct_selection : List Text → List Selection → Bool
distinct_selection seen [] = true
distinct_selection seen (selected ∷ rest) =
    is_valid_page_id selected.page_id
    && is_valid_page_revision selected.expected_revision
    && not (member selected.page_id seen)
    && distinct_selection (selected.page_id ∷ seen) rest

unfoldable pub is_valid_bulk_selection : List Selection → Bool
is_valid_bulk_selection value =
    leb 1 (length value) && leb (length value) max_bulk_managed_pages && distinct_selection [] value

-- A failed item is a result of the command; an error ends it.
unfoldable pub item_stopped : {A : Type 0} → Text → Stop → Call (ItemResult A)
item_stopped page_id (fails reason) = pure (item_failed page_id reason)
item_stopped page_id (throws fault) = stop (throws fault)

unfoldable pub item_of : {A : Type 0} → Text → Call A → Call (ItemResult A)
item_of page_id m = catching (m >>= λ a. pure (item_done page_id a)) (item_stopped page_id)

unfoldable pub each_item :
    {A : Type 0} → (Selection → Call A) → List Selection → Call (List (ItemResult A))
each_item f [] = pure []
each_item f (selected ∷ rest) = do
  result ← item_of selected.page_id (f selected)
  results ← each_item f rest
  pure (result ∷ results)

unfoldable pub delete_selected : Setting → UserPageActor → Selection → Call (Unit {0})
delete_selected g user selected = do
  page ← find_writable_page g user selected.page_id
  reply ←
      ask (delete_managed_page_aggregate (delete_request user page.page selected.expected_revision))
  deleted_reply reply

unfoldable pub bulk_delete_managed :
    Setting → UserPageActor → List Selection → Call (List (ItemResult (Unit {0})))
bulk_delete_managed g user selection = do
  require_user user
  unless (is_valid_bulk_selection selection) (fails Failure.invalid_selection)
  each_item (delete_selected g user) selection

-- An access-only update cannot meet an endpoint conflict.
abbrev after_change : Reason → Stop
after_change Reason.endpoint_conflict = throws ServiceFault.access_changed_endpoints
after_change reason = after_replace reason

unfoldable pub changed_reply : Setting → Reply → Call PageSummary
changed_reply g (committed outcome page) = materialize_aggregate page >>= summary_of g
changed_reply g (rejected reason) = stop (after_change reason)

unfoldable pub change_selected : Setting → UserPageActor → PageAccess → Selection → Call PageSummary
change_selected g user access selected = do
  page ← find_writable_page g user selected.page_id
  require_current page.page selected.expected_revision
  now ← operation_time g
  reply ← replace_managed_record g (record {
    page_id = page.page.page_id;
    owner_user_id = user.user_id;
    expected_revision = selected.expected_revision;
    access = access;
    tags = none;
    content = none;
    endpoint_set = none;
    block_api_write = none;
    now = now;
  })
  changed_reply g reply

unfoldable pub bulk_change_managed_access :
    Setting → UserPageActor → PageAccess → List Selection → Call (List (ItemResult PageSummary))
bulk_change_managed_access g user access selection = do
  require_user user
  unless (is_valid_bulk_selection selection) (fails Failure.invalid_selection)
  each_item (change_selected g user access) selection
