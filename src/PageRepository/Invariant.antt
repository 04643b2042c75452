-- ===== src/PageRepository/Invariant.antt =====
-- lib/page/memory-aggregate-repository.ts: how the pages and the endpoint index agree, and what
-- taking pages away and putting one in do to both.
use iam_pager.Base.{
  ◌⊎◌, Text, Bool, Option, none, some, if◌then◌else◌, true, false, ◌≡◌, refl, ◌==◌, ◌||◌, member,
  arith, Option-cases, inl, inr, Bool-cases,
}
use iam_pager.Base.Map.{get, has}
use iam_pager.Aggregate.{PageAggregate, page_aggregate_violation}
use iam_pager.PageRepository.State.{Repository, keys_of}

-- Every page is valid, stands under its own identity and refers to a stored asset, and the index
-- leads from a locator's key to a page exactly when the page has that locator.
pub record IsCoherent (s : Repository) : Type 0 where
  pub id_kept : (id : Text) (p : PageAggregate) → get s.pages id ≡ some p → p.page_id ≡ id
  pub valid :
      (id : Text) (p : PageAggregate) → get s.pages id ≡ some p → page_aggregate_violation p ≡ none
  pub stored :
      (id : Text) (p : PageAggregate)
      → get s.pages id ≡ some p
      → has s.assets p.content_asset_id ≡ true
  pub indexed :
      (id : Text) (p : PageAggregate) (k : Text)
      → get s.pages id ≡ some p
      → member k (keys_of p) ≡ true
      → get s.endpoint_page_ids k ≡ some id
  pub owned :
      (k id : Text)
      → get s.endpoint_page_ids k ≡ some id
      → (p : PageAggregate) × (get s.pages id ≡ some p) × (member k (keys_of p) ≡ true)

-- An entry of the index, once the pages that `gone` names are taken away
abbrev pub kept_id : (Text → Bool) → Option Text → Option Text
kept_id gone none = none
kept_id gone (some id) = if gone id then none else some id

-- `t` is `s` without the pages that `gone` names, and without their locators.
pub record Removed (gone : Text → Bool) (s t : Repository) : Type 0 where
  pub assets_kept : t.assets ≡ s.assets
  pub pages_after : (id : Text) → get t.pages id ≡ (if gone id then none else get s.pages id)
  pub index_after :
      (k : Text) → get t.endpoint_page_ids k ≡ kept_id gone (get s.endpoint_page_ids k)

-- `t` is `s` with the page `p` put in, under its identity and each of its locators.
pub record Installed (p : PageAggregate) (s t : Repository) : Type 0 where
  pub assets_kept : t.assets ≡ s.assets
  pub pages_after :
      (id : Text) → get t.pages id ≡ (if p.page_id == id then some p else get s.pages id)
  pub index_after :
      (k : Text)
      → get t.endpoint_page_ids k
        ≡ (if member k (keys_of p) then some p.page_id else get s.endpoint_page_ids k)

pub Removed-nothing : (s : Repository) → Removed (λ _. false) s s
Removed-nothing s = record {
  assets_kept = refl;
  pages_after = λ id. refl;
  index_after = λ k. ground arith;
}

pub Removed-trans :
    {g h : Text → Bool} {s t u : Repository}
    → Removed g s t
    → Removed h t u
    → Removed (λ id. g id || h id) s u
Removed-trans {g} {h} {s} {t} {u} a b = record {
  assets_kept = ground (arith, a.assets_kept, b.assets_kept);
  pages_after = λ id. ground (arith, a.pages_after id, b.pages_after id);
  index_after = λ k. ground (arith, a.index_after k, b.index_after k);
}

pub Removed-IsCoherent :
    {g : Text → Bool} {s t : Repository} → Removed g s t → IsCoherent s → IsCoherent t
Removed-IsCoherent {g} {s} {t} r v = record {
  id_kept = λ id p e. ground (arith, r.pages_after id, v.id_kept id p);
  valid = λ id p e. ground (arith, r.pages_after id, v.valid id p);
  stored = λ id p e. ground (arith, r.pages_after id, v.stored id p, r.assets_kept);
  indexed = λ id p k e m. ground (arith, r.pages_after id, r.index_after k, v.indexed id p k);
  owned = λ k id e. owned_after k id e (r.index_after k) (Option-cases (get s.endpoint_page_ids k));
}
  where
    owned_after :
        (k id : Text)
        → get t.endpoint_page_ids k ≡ some id
        → get t.endpoint_page_ids k ≡ kept_id g (get s.endpoint_page_ids k)
        → (get s.endpoint_page_ids k ≡ none) ⊎ ((j : Text) × (get s.endpoint_page_ids k ≡ some j))
        → (p : PageAggregate) × (get t.pages id ≡ some p) × (member k (keys_of p) ≡ true)
    owned_after k id e step (inl nothing) = absurd (ground arith)
    owned_after k id e step (inr (j, found)) =
        let same : get s.endpoint_page_ids k ≡ some id = ground arith in
        let kept : g id ≡ false = ground arith in
        let (p, stands, has_key) = v.owned k id same in
        (p, ground (arith, r.pages_after id), has_key)

pub Installed-IsCoherent :
    {p : PageAggregate} {s t : Repository}
    → Installed p s t
    → IsCoherent s
    → get s.pages p.page_id ≡ none
    → page_aggregate_violation p ≡ none
    → has s.assets p.content_asset_id ≡ true
    → ((k : Text) → member k (keys_of p) ≡ true → get s.endpoint_page_ids k ≡ none)
    → IsCoherent t
Installed-IsCoherent {p} {s} {t} i v new ok asset free = record {
  id_kept = λ id q e. ground (arith, i.pages_after id, v.id_kept id q);
  valid = λ id q e. ground (arith, i.pages_after id, v.valid id q);
  stored = λ id q e. ground (arith, i.pages_after id, v.stored id q, i.assets_kept);
  indexed =
      λ id q k e m. ground (arith, i.pages_after id, i.index_after k, v.indexed id q k, free k);
  owned = λ k id e. owned_after k id e (Bool-cases (member k (keys_of p)));
}
  where
    owned_after :
        (k id : Text)
        → get t.endpoint_page_ids k ≡ some id
        → (member k (keys_of p) ≡ true) ⊎ (member k (keys_of p) ≡ false)
        → (q : PageAggregate) × (get t.pages id ≡ some q) × (member k (keys_of q) ≡ true)
    owned_after k id e (inl mine) = (p, ground (arith, i.pages_after id, i.index_after k), mine)
    owned_after k id e (inr other) =
        let (q, stands, has_key) = v.owned k id (ground (arith, i.index_after k)) in
        (q, ground (arith, i.pages_after id), has_key)
