-- ===== src/PageRepository/Commit.antt =====
-- lib/page/memory-aggregate-repository.ts: the effect of writing a page, as one transition.
use iam_pager.Base.{Text, Bool, none, some, if◌then◌else◌, ◌≡◌, ◌==◌, member, arith}
use iam_pager.Base.Map.{get}
use iam_pager.Aggregate.{PageAggregate}
use iam_pager.PageRepository.State.{Repository, keys_of}
use iam_pager.PageRepository.Invariant.{IsCoherent, Removed, Installed, kept_id}

-- `t` is `s` without the pages that `gone` names, and with the page `p`.
pub record Committed (gone : Text → Bool) (p : PageAggregate) (s t : Repository) : Type 0 where
  pub assets_kept : t.assets ≡ s.assets
  pub pages_after :
      (id : Text)
      → get t.pages id
        ≡ (if p.page_id == id then some p else if gone id then none else get s.pages id)
  pub index_after :
      (k : Text)
      → get t.endpoint_page_ids k ≡ (
          if member k (keys_of p) then some p.page_id else kept_id gone (get s.endpoint_page_ids k))
  pub coherent : IsCoherent t

pub Removed-Installed :
    {gone : Text → Bool} {p : PageAggregate} {s t u : Repository}
    → Removed gone s t
    → Installed p t u
    → IsCoherent u
    → Committed gone p s u
Removed-Installed {gone} {p} {s} {t} {u} r i v = record {
  assets_kept = ground (arith, r.assets_kept, i.assets_kept);
  pages_after = λ id. ground (arith, r.pages_after id, i.pages_after id);
  index_after = λ k. ground (arith, r.index_after k, i.index_after k);
  coherent = v;
}
