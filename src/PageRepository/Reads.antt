-- ===== src/PageRepository/Reads.antt =====
-- lib/page/memory-aggregate-repository.ts: storing an asset, and resolving a locator.
use iam_pager.Base.{Text, List, [], ◌∷◌, Option, none, some, if◌then◌else◌, ◌==◌}
use iam_pager.Base.Map.{get, has, put}
use iam_pager.Base.Exec.{returned}
use iam_pager.Locator.{Locator, locator_key}
use iam_pager.Endpoint.{PageEndpointBinding, bindings_of, key_of}
use iam_pager.Content.{ContentAsset, content_asset_violation}
use iam_pager.Aggregate.{PageAggregate}
use iam_pager.PageRepository.State.{
  require_page_id, require_content_asset_id, invariant_violated, valid_asset, Action, ◌>>=◌, ◌>>◌,
  pure, throw, require, passes, require_stored_page,
}
use iam_pager.PageRepository.Requests.{
  content_asset_id_conflict, AssetReply, asset_stored, asset_rejected, ResolvedPageEndpoint,
}

unfoldable pub create_content_asset : ContentAsset → Action AssetReply
create_content_asset asset = do
  require (passes (content_asset_violation asset)) valid_asset
  λ s.
      if has s.assets asset.content_asset_id
      then pure (asset_rejected content_asset_id_conflict) s
      else (
        returned (asset_stored asset),
        record s { assets = put s.assets asset.content_asset_id asset },
      )

unfoldable pub find_content_asset_by_id : Text → Action (Option ContentAsset)
find_content_asset_by_id id = do require_content_asset_id id; λ s. (returned (get s.assets id), s)

unfoldable pub find_page_aggregate_by_id : Text → Action (Option PageAggregate)
find_page_aggregate_by_id id = do require_page_id id; λ s. (returned (get s.pages id), s)

unfoldable pub find_binding : Text → List PageEndpointBinding → Option PageEndpointBinding
find_binding key [] = none
find_binding key (b ∷ bs) = if key_of b == key then some b else find_binding key bs

unfoldable pub found_binding :
    PageAggregate → Option PageEndpointBinding → Action (Option ResolvedPageEndpoint)
found_binding page none = throw invariant_violated
found_binding page (some b) = pure (some (record { page = page; endpoint = b }))

unfoldable pub resolve_page_id : Text → Option Text → Action (Option ResolvedPageEndpoint)
unfolding found_binding find_binding
resolve_page_id key none = pure none
resolve_page_id key (some id) = do
  page ← require_stored_page id
  found_binding page (find_binding key (bindings_of page.endpoint_set))

unfoldable pub resolve_page_endpoint : Locator → Action (Option ResolvedPageEndpoint)
unfolding resolve_page_id
resolve_page_endpoint locator s =
    resolve_page_id (locator_key locator) (get s.endpoint_page_ids (locator_key locator)) s
