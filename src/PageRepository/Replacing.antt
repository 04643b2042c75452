-- ===== src/PageRepository/Replacing.antt =====
-- lib/page/memory-aggregate-repository.ts: taking a page out, retiring trials, and putting another
-- version of the page in.
use iam_pager.Base.{
  Text, List, none, some, true, false, ◌≡◌, ◌==◌, ◌||◌, member, arith, inl, inr, ◌⊎◌, Option-cases,
}
use iam_pager.Base.Map.{get, has}
use iam_pager.Base.Exec.{returned}
use iam_pager.Endpoint.Violation.{Distinct}
use iam_pager.Aggregate.{PageAggregate, page_aggregate_violation}
use iam_pager.PageRepository.State.{Repository, keys_of, retire_trials, install_page, remove_page}
use iam_pager.PageRepository.Invariant.{
  IsCoherent, Removed, Removed-IsCoherent, Removed-trans, Installed-IsCoherent,
}
use iam_pager.PageRepository.Removal.{
  AreTrials, AreTrials-Removed, remove_page_lem, retire_trials_lem, install_page_lem,
}
use iam_pager.PageRepository.Commit.{Committed, Removed-Installed}

-- The three steps succeed one after the other, and together replace the page.
pub record Replaces (id : Text) (existing p : PageAggregate) (found : List Text) (s : Repository)
    : Type 0 where
  pub first : Repository
  pub second : Repository
  pub third : Repository
  pub removed : remove_page existing s ≡ (returned tt, first)
  pub retired : retire_trials found first ≡ (returned tt, second)
  pub installed : install_page p second ≡ (returned tt, third)
  pub effect : Committed (λ j. id == j || member j found) p s third

module _ (id : Text) (existing p : PageAggregate) (found : List Text) (s : Repository)
    (v : IsCoherent s) (stands : get s.pages id ≡ some existing) (distinct : Distinct found)
    (trials : AreTrials s found) (apart : member id found ≡ false) (same_id : p.page_id ≡ id)
    (ok : page_aggregate_violation p ≡ none) (asset : has s.assets p.content_asset_id ≡ true)
    (covers : (k j : Text)
      → member k (keys_of p) ≡ true
      → get s.endpoint_page_ids k ≡ some j
      → (id == j || member j found) ≡ true) where
  freed :
      (t : Repository)
      → Removed (λ j. id == j || member j found) s t
      → (k : Text) → member k (keys_of p) ≡ true
      → (get s.endpoint_page_ids k ≡ none) ⊎ ((j : Text) × (get s.endpoint_page_ids k ≡ some j))
      → get t.endpoint_page_ids k ≡ none
  freed t r k m (inl nothing) = ground (arith, r.index_after k)
  freed t r k m (inr (j, leads)) = ground (arith, r.index_after k, covers k j m leads)

  pub replace_page : Replaces id existing p found s
  replace_page =
      let (t, removed, q) = remove_page_lem id existing s v stands in
      let (u, retired, r) =
        retire_trials_lem found t (Removed-IsCoherent q v) distinct
          (AreTrials-Removed id found s t apart q trials) in
      let both : Removed (λ j. id == j || member j found) s u = Removed-trans q r in
      let gone : get u.pages p.page_id ≡ none = ground (arith, both.pages_after p.page_id) in
      let free : (k : Text) → member k (keys_of p) ≡ true → get u.endpoint_page_ids k ≡ none =
        λ k m. freed u both k m (Option-cases (get s.endpoint_page_ids k)) in
      let (w, installed, i) = install_page_lem p u gone ok free in
      let there : has u.assets p.content_asset_id ≡ true = ground (arith, both.assets_kept) in
      record {
        first = t;
        second = u;
        third = w;
        removed = removed;
        retired = retired;
        installed = installed;
        effect =
            Removed-Installed both i
              (Installed-IsCoherent i (Removed-IsCoherent both v) gone ok there free);
      }
