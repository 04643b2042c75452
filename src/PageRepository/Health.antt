-- ===== src/PageRepository/Health.antt =====
-- lib/page/memory-aggregate-repository.ts: observations of the health of external content.
use iam_pager.Base.{true, Bool, Option, none, some, if◌then◌else◌, false, ◌==◌, not}
use iam_pager.Base.Map.{get}
use iam_pager.Content.{is_external, ContentAsset}
use iam_pager.Aggregate.{
  external_content_missing, connection_revoked, integrity_mismatch,
  external_content_missing_state_violation, ExternalContentMissingState,
  ExternalContentMissingCause, PageAggregate,
}
use iam_pager.PageRepository.State.{
  external_asset, set_page, valid_health, Action, ◌>>◌, pure, require, require_page_id,
  require_content_asset_id, assert_valid_page,
}
use iam_pager.PageRepository.Requests.{
  health_updated, stale, health_rejected, health_unchanged, HealthReply, UpdateHealthRequest,
}

abbrev pub same_cause : ExternalContentMissingCause → ExternalContentMissingCause → Bool
same_cause external_content_missing external_content_missing = true
same_cause connection_revoked connection_revoked = true
same_cause integrity_mismatch integrity_mismatch = true
same_cause _ _ = false

unfoldable pub external_health_equal :
    Option ExternalContentMissingState → Option ExternalContentMissingState → Bool
external_health_equal none none = true
external_health_equal none (some requested) = false
external_health_equal (some current) none = false
external_health_equal (some current) (some requested) = same_cause current.cause requested.cause

abbrev pub valid_observation : Option ExternalContentMissingState → Bool
valid_observation none = true
valid_observation (some state) = not (external_content_missing_state_violation state)

abbrev pub is_external_asset : Option ContentAsset → Bool
is_external_asset none = false
is_external_asset (some asset) = is_external asset.source

abbrev pub observed_page : UpdateHealthRequest → PageAggregate → PageAggregate
observed_page r existing = record existing { external_missing = r.external_missing }

unfoldable pub observe : UpdateHealthRequest → PageAggregate → Action HealthReply
observe r existing =
    if external_health_equal existing.external_missing r.external_missing
    then pure health_unchanged
    else do
      assert_valid_page (observed_page r existing)
      set_page (observed_page r existing)
      pure health_updated

unfoldable pub health_from : UpdateHealthRequest → Option PageAggregate → Action HealthReply
unfolding observe external_health_equal
health_from r none s = pure (health_rejected stale) s
health_from r (some existing) s =
    if not (existing.content_asset_id == r.content_asset_id)
    then pure (health_rejected stale) s
    else (require (is_external_asset (get s.assets r.content_asset_id)) external_asset
          >> observe r existing)
        s

unfoldable pub update_external_content_health : UpdateHealthRequest → Action HealthReply
unfolding health_from
update_external_content_health r = do
  require_page_id r.page_id
  require_content_asset_id r.content_asset_id
  require (valid_observation r.external_missing) valid_health
  λ s. health_from r (get s.pages r.page_id) s
