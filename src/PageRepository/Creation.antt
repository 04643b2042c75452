-- ===== src/PageRepository/Creation.antt =====
-- lib/page/memory-aggregate-repository.ts: creating and duplicating managed pages.
use iam_pager.Base.{Text, List, [], ◌∷◌, Option, none, some, if◌then◌else◌, false, not, eqb}
use iam_pager.Base.Map.{get, has}
use iam_pager.Page.{is_valid_page_revision, managed, is_valid_page_tags}
use iam_pager.Aggregate.{PageAggregate}
use iam_pager.PageRepository.State.{
  is_owned_by, positive_revision, valid_tags, Action, ◌>>=◌, ◌>>◌, pure, require, require_page_id,
  require_content_asset_id, require_endpoint_set, require_owner, require_time, assert_valid_page,
  claimed_page_ids, trials_among, install_page, retire_trials,
}
use iam_pager.PageRepository.Requests.{
  revision_conflict, not_found, DuplicateManagedRequest, CreateManagedRequest, managed_conflict,
  endpoint_conflict, page_id_conflict, content_asset_not_found, CommitOutcome, created,
  replaced_trial, Reply, committed, rejected,
}

-- `claimed_trials.size === 0 ? none_retired : "replaced_trial"`
abbrev pub outcome_over : CommitOutcome → List Text → CommitOutcome
outcome_over none_retired [] = none_retired
outcome_over none_retired (_ ∷ _) = replaced_trial

unfoldable pub commit_new : List Text → PageAggregate → Action Reply
commit_new trials page = do
  assert_valid_page page
  retire_trials trials
  install_page page
  pure (committed (outcome_over created trials) page)

abbrev pub created_page : CreateManagedRequest → PageAggregate
created_page r = record {
  page_id = r.page_id;
  endpoint_set = r.endpoint_set;
  stewardship = managed r.owner_user_id;
  access = r.access;
  tags = r.tags;
  revision = 1;
  content_asset_id = r.content_asset_id;
  external_missing = none;
  block_api_write = false;
  created_at = r.now;
  updated_at = r.now;
}

unfoldable pub create_claimed : CreateManagedRequest → Option (List Text) → Action Reply
unfolding commit_new
create_claimed r none s = pure (rejected managed_conflict) s
create_claimed r (some trials) s =
    if has s.pages r.page_id
    then pure (rejected page_id_conflict) s
    else if not (has s.assets r.content_asset_id)
    then pure (rejected content_asset_not_found) s
    else commit_new trials (created_page r) s

unfoldable pub create_managed_page_aggregate : CreateManagedRequest → Action Reply
unfolding create_claimed
create_managed_page_aggregate r = do
  require_page_id r.page_id
  require_endpoint_set r.endpoint_set
  require_owner r.owner_user_id
  require (is_valid_page_tags r.tags) valid_tags
  require_content_asset_id r.content_asset_id
  require_time r.now
  trials ← λ s. trials_among none (claimed_page_ids r.endpoint_set s) [] s
  create_claimed r trials

abbrev pub duplicated_page : DuplicateManagedRequest → PageAggregate → PageAggregate
duplicated_page r source = record {
  page_id = r.page_id;
  endpoint_set = r.endpoint_set;
  stewardship = source.stewardship;
  access = source.access;
  tags = source.tags;
  revision = 1;
  content_asset_id = source.content_asset_id;
  external_missing = none;
  block_api_write = source.block_api_write;
  created_at = r.now;
  updated_at = r.now;
}

unfoldable pub duplicate_claimed :
    DuplicateManagedRequest → PageAggregate → Option (List Text) → Action Reply
unfolding commit_new
duplicate_claimed r source none s = pure (rejected endpoint_conflict) s
duplicate_claimed r source (some trials) s =
    if has s.pages r.page_id
    then pure (rejected page_id_conflict) s
    else commit_new trials (duplicated_page r source) s

unfoldable pub duplicate_from : DuplicateManagedRequest → Option PageAggregate → Action Reply
unfolding duplicate_claimed
duplicate_from r none = pure (rejected not_found)
duplicate_from r (some source) =
    if not (is_owned_by r.owner_user_id source.stewardship)
    then pure (rejected not_found)
    else if not (eqb source.revision r.expected_revision)
    then pure (rejected revision_conflict)
    else do
      trials ← λ s. trials_among none (claimed_page_ids r.endpoint_set s) [] s
      duplicate_claimed r source trials

unfoldable pub duplicate_managed_page_aggregate : DuplicateManagedRequest → Action Reply
unfolding duplicate_from
duplicate_managed_page_aggregate r = do
  require_page_id r.source_page_id
  require_page_id r.page_id
  require_owner r.owner_user_id
  require (is_valid_page_revision r.expected_revision) positive_revision
  require_endpoint_set r.endpoint_set
  require_time r.now
  λ s. duplicate_from r (get s.pages r.source_page_id) s
