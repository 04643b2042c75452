-- ===== src/PageRepository/Trials.antt =====
-- lib/page/memory-aggregate-repository.ts: publishing a trial page.
use iam_pager.Base.{Text, List, [], ◌∷◌, ◌+◌, Option, none, some, if◌then◌else◌, false, not, eqb}
use iam_pager.Base.Map.{has}
use iam_pager.Page.{trial, everyone, max_safe_integer}
use iam_pager.Aggregate.{PageAggregate}
use iam_pager.PageRepository.State.{
  Action, ◌>>=◌, ◌>>◌, pure, require_page_id, require_content_asset_id, require_endpoint_set,
  require_time, require_stored_page, assert_valid_page, claimed_page_ids, trials_among, remove_page,
  install_page,
}
use iam_pager.PageRepository.Requests.{
  PutTrialRequest, managed_conflict, endpoint_conflict, page_id_conflict, content_asset_not_found,
  revision_exhausted, created, replaced, Reply, committed, rejected,
}

-- The replacement, or the new page where no trial is claimed
abbrev pub trial_page : PutTrialRequest → Option PageAggregate → PageAggregate
trial_page r none = record {
  page_id = r.page_id;
  endpoint_set = r.endpoint_set;
  stewardship = trial;
  access = everyone;
  tags = [];
  revision = 1;
  content_asset_id = r.content_asset_id;
  external_missing = none;
  block_api_write = false;
  created_at = r.now;
  updated_at = r.now;
}
trial_page r (some existing) = record {
  page_id = existing.page_id;
  endpoint_set = r.endpoint_set;
  stewardship = trial;
  access = everyone;
  tags = [];
  revision = existing.revision + 1;
  content_asset_id = r.content_asset_id;
  external_missing = none;
  block_api_write = false;
  created_at = existing.created_at;
  updated_at = r.now;
}

unfoldable pub put_new_trial : PutTrialRequest → Action Reply
put_new_trial r s =
    if has s.pages r.page_id
    then pure (rejected page_id_conflict) s
    else (do
      assert_valid_page (trial_page r none)
      install_page (trial_page r none)
      pure (committed created (trial_page r none)))
        s

unfoldable pub put_over_trial : PutTrialRequest → PageAggregate → Action Reply
put_over_trial r existing =
    if eqb existing.revision max_safe_integer then pure (rejected revision_exhausted) else do
      assert_valid_page (trial_page r (some existing))
      remove_page existing
      install_page (trial_page r (some existing))
      pure (committed replaced (trial_page r (some existing)))

unfoldable pub put_claimed : PutTrialRequest → Option (List Text) → Action Reply
unfolding put_new_trial put_over_trial
put_claimed r none s = pure (rejected managed_conflict) s
put_claimed r (some (_ ∷ _ ∷ _)) s = pure (rejected endpoint_conflict) s
put_claimed r (some []) s =
    if not (has s.assets r.content_asset_id)
    then pure (rejected content_asset_not_found) s
    else put_new_trial r s
put_claimed r (some (id ∷ [])) s =
    if not (has s.assets r.content_asset_id)
    then pure (rejected content_asset_not_found) s
    else (require_stored_page id >>= put_over_trial r) s

unfoldable pub put_trial_page_aggregate : PutTrialRequest → Action Reply
unfolding put_claimed
put_trial_page_aggregate r = do
  require_page_id r.page_id
  require_endpoint_set r.endpoint_set
  require_content_asset_id r.content_asset_id
  require_time r.now
  trials ← λ s. trials_among none (claimed_page_ids r.endpoint_set s) [] s
  put_claimed r trials
