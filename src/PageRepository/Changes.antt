-- ===== src/PageRepository/Changes.antt =====
-- lib/page/memory-aggregate-repository.ts: updating and deleting managed pages.
use iam_pager.Base.{
  ◌||◌, is_some, or_else, Bool, Text, List, [], ◌+◌, Option, none, some, if◌then◌else◌, false, not,
  eqb,
}
use iam_pager.Base.Map.{get, has}
use iam_pager.Endpoint.{PageEndpointSet}
use iam_pager.Page.{is_valid_page_revision, is_valid_page_tags, max_safe_integer}
use iam_pager.Aggregate.{PageAggregate}
use iam_pager.PageRepository.State.{
  some_change, positive_revision, is_owned_by, Repository, valid_tags, Action, ◌>>=◌, ◌>>◌, pure,
  require, require_page_id, require_content_asset_id, require_endpoint_set, require_owner,
  require_time, assert_valid_page, claimed_page_ids, trials_among, remove_page, install_page,
  retire_trials,
}
use iam_pager.PageRepository.Creation.{outcome_over}
use iam_pager.PageRepository.Requests.{
  deleted, revision_conflict, delete_rejected, not_found, DeleteReply, updated,
  DeleteManagedRequest, UpdateManagedRequest, PagePatch, endpoint_conflict, content_asset_not_found,
  revision_exhausted, Reply, committed, rejected,
}

-- `patch.endpoint_set`, and so on, or the stored value; a new asset clears the health observation.
abbrev pub updated_page : UpdateManagedRequest → PageAggregate → PageAggregate
updated_page r existing = record {
  page_id = existing.page_id;
  endpoint_set = or_else r.patch.endpoint_set existing.endpoint_set;
  stewardship = existing.stewardship;
  access = or_else r.patch.access existing.access;
  tags = or_else r.patch.tags existing.tags;
  revision = existing.revision + 1;
  content_asset_id = or_else r.patch.content_asset_id existing.content_asset_id;
  external_missing = if is_some r.patch.content_asset_id then none else existing.external_missing;
  block_api_write = or_else r.patch.block_api_write existing.block_api_write;
  created_at = existing.created_at;
  updated_at = r.now;
}

unfoldable pub update_claimed :
    UpdateManagedRequest → PageAggregate → Option (List Text) → Action Reply
update_claimed r existing none = pure (rejected endpoint_conflict)
update_claimed r existing (some trials) = do
  assert_valid_page (updated_page r existing)
  remove_page existing
  retire_trials trials
  install_page (updated_page r existing)
  pure (committed (outcome_over updated trials) (updated_page r existing))

-- No locator is claimed where the patch keeps the endpoint set.
unfoldable pub claimed_by_patch :
    PageAggregate → Option PageEndpointSet → Action (Option (List Text))
claimed_by_patch existing none s = pure (some []) s
claimed_by_patch existing (some set) s =
    trials_among (some existing.page_id) (claimed_page_ids set s) [] s

abbrev pub names_missing_asset : Option Text → Repository → Bool
names_missing_asset none s = false
names_missing_asset (some id) s = not (has s.assets id)

unfoldable pub update_from : UpdateManagedRequest → Option PageAggregate → Action Reply
unfolding update_claimed claimed_by_patch
update_from r none s = pure (rejected not_found) s
update_from r (some existing) s =
    if not (is_owned_by r.owner_user_id existing.stewardship)
    then pure (rejected not_found) s
    else if not (eqb existing.revision r.expected_revision)
    then pure (rejected revision_conflict) s
    else if eqb existing.revision max_safe_integer
    then pure (rejected revision_exhausted) s
    else if names_missing_asset r.patch.content_asset_id s
    then pure (rejected content_asset_not_found) s
    else (claimed_by_patch existing r.patch.endpoint_set >>= update_claimed r existing) s

abbrev pub changes_something : PagePatch → Bool
changes_something p =
    is_some p.endpoint_set
    || is_some p.content_asset_id
    || is_some p.access
    || is_some p.tags
    || is_some p.block_api_write

-- A requirement on a value that the patch may leave out
abbrev pub when_given : {A : Type 0} → (A → Action (Unit {0})) → Option A → Action (Unit {0})
when_given check none = pure tt
when_given check (some value) = check value

unfoldable pub require_tags : List Text → Action (Unit {0})
require_tags tags = require (is_valid_page_tags tags) valid_tags

unfoldable pub update_managed_page_aggregate : UpdateManagedRequest → Action Reply
unfolding update_from
update_managed_page_aggregate r = do
  require_page_id r.page_id
  require_owner r.owner_user_id
  require (is_valid_page_revision r.expected_revision) positive_revision
  require (changes_something r.patch) some_change
  when_given require_endpoint_set r.patch.endpoint_set
  when_given require_content_asset_id r.patch.content_asset_id
  when_given require_tags r.patch.tags
  require_time r.now
  λ s. update_from r (get s.pages r.page_id) s

unfoldable pub delete_from : DeleteManagedRequest → Option PageAggregate → Action DeleteReply
delete_from r none = pure (delete_rejected not_found)
delete_from r (some existing) =
    if not (is_owned_by r.owner_user_id existing.stewardship)
    then pure (delete_rejected not_found)
    else if not (eqb existing.revision r.expected_revision)
    then pure (delete_rejected revision_conflict)
    else do remove_page existing; pure deleted

unfoldable pub delete_managed_page_aggregate : DeleteManagedRequest → Action DeleteReply
unfolding delete_from
delete_managed_page_aggregate r = do
  require_page_id r.page_id
  require_owner r.owner_user_id
  require (is_valid_page_revision r.expected_revision) positive_revision
  λ s. delete_from r (get s.pages r.page_id) s
