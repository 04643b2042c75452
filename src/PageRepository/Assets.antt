-- ===== src/PageRepository/Assets.antt =====
-- lib/page/memory-aggregate-repository.ts: storing an immutable asset.
use iam_pager.Base.{
  Text, none, some, if◌then◌else◌, true, false, ◌≡◌, refl, ◌==◌, arith, inl, inr, Bool-cases,
  Option-cases,
}
use iam_pager.Base.Map.{get, has, put, get-put}
use iam_pager.Base.Exec.{Outcome, returned, thrown}
use iam_pager.Content.{ContentAsset, content_asset_violation}
use iam_pager.PageRepository.State.{Repository, Fault, refused, valid_asset, passes}
use iam_pager.PageRepository.Requests.{
  AssetReply, asset_stored, asset_rejected, content_asset_id_conflict,
}
use iam_pager.PageRepository.Reads.{create_content_asset}
use iam_pager.PageRepository.Invariant.{IsCoherent}

stored-IsCoherent :
    (a : ContentAsset) (s : Repository)
    → IsCoherent s
    → IsCoherent (record s { assets = put s.assets a.content_asset_id a })
stored-IsCoherent a s v = record {
  id_kept = v.id_kept;
  valid = v.valid;
  stored = λ id p e.
      ground (arith, get-put s.assets a.content_asset_id p.content_asset_id a, v.stored id p e);
  indexed = v.indexed;
  owned = v.owned;
}

-- What storing an asset can come to
pub data AssetOutcome (a : ContentAsset) (s : Repository)
    (result : Outcome Fault AssetReply × Repository) : Type 0 where
  unfit :
      passes (content_asset_violation a) ≡ false
      → result ≡ (thrown (refused valid_asset), s)
      → AssetOutcome a s result
  taken :
      has s.assets a.content_asset_id ≡ true
      → result ≡ (returned (asset_rejected content_asset_id_conflict), s)
      → AssetOutcome a s result
  done :
      (t : Repository)
      → content_asset_violation a ≡ none
      → t.pages ≡ s.pages
      → t.endpoint_page_ids ≡ s.endpoint_page_ids
      → get s.assets a.content_asset_id ≡ none
      → ((id : Text)
          → get t.assets id ≡ (if a.content_asset_id == id then some a else get s.assets id))
      → IsCoherent t
      → result ≡ (returned (asset_stored a), t)
      → AssetOutcome a s result

-- An asset is stored under a free identity only, so what is stored once never changes.
pub asset_outcome :
    (a : ContentAsset) (s : Repository) → IsCoherent s → AssetOutcome a s (create_content_asset a s)
unfolding create_content_asset
asset_outcome a s v = elim (Bool-cases (passes (content_asset_violation a))) [
  | inr bad ↦ unfit bad (rw bad refl)
  | inl fit ↦ rw fit (elim (Option-cases (get s.assets a.content_asset_id)) [
    | inr (b, old) ↦ taken (ground arith) (ground arith)
    | inl new ↦
        done (record s { assets = put s.assets a.content_asset_id a }) (ground arith) refl refl new
          (λ id. get-put s.assets a.content_asset_id id a) (stored-IsCoherent a s v) (ground arith)
  ])
]
