-- ===== src/PageRepository/Effects.antt =====
-- lib/page/memory-aggregate-repository.ts: which pages a call spares, and which it makes.
pub mod Edits
pub mod Observed
use iam_pager.Base.{
  Text, Bool, List, [], ◌∷◌, Option, none, some, true, false, ◌≡◌, refl, ◌⊎◌, inl, inr, arith,
  member, ◌==◌, ◌||◌, Bool-cases, Option-cases, if◌then◌else◌, subst, sym,
}
use iam_pager.Base.Map.{get}
use iam_pager.Base.Exec.{Outcome, returned, thrown}
use iam_pager.Page.{PageStewardship, trial, is_trial}
use iam_pager.Content.{ContentAsset}
use iam_pager.Aggregate.{PageAggregate}
use iam_pager.PageRepository.State.{Repository, Fault, refused, Requirement, is_owned_by}
use iam_pager.PageRepository.Requests.{
  PutTrialRequest, CreateManagedRequest, UpdateManagedRequest, DuplicateManagedRequest,
  DeleteManagedRequest, Reply, DeleteReply, AssetReply,
}
use iam_pager.PageRepository.Reads.{create_content_asset}
use iam_pager.PageRepository.Trials.{put_trial_page_aggregate}
use iam_pager.PageRepository.Creation.{
  create_managed_page_aggregate, duplicate_managed_page_aggregate, created_page, duplicated_page,
}
use iam_pager.PageRepository.Changes.{
  update_managed_page_aggregate, delete_managed_page_aggregate, updated_page,
}
use iam_pager.PageRepository.Invariant.{IsCoherent, Removed}
use iam_pager.PageRepository.Removal.{AreTrials}
use iam_pager.PageRepository.Commit.{Committed}
use iam_pager.PageRepository.Assets.{AssetOutcome, asset_outcome}
use iam_pager.PageRepository.TrialOutcomes.{PutOutcome, put_outcome, put_refused}
use iam_pager.PageRepository.NewPages.{CreateOutcome, create_outcome, create_refused}
use iam_pager.PageRepository.Updates.{UpdateOutcome, update_outcome, update_refused}
use iam_pager.PageRepository.Duplicates.{DuplicateOutcome, duplicate_outcome, duplicate_refused}
use iam_pager.PageRepository.Deletion.{DeleteOutcome, delete_outcome, delete_refused}
use iam_pager.PageRepository.Transition.{trial_member, displaced_trials}

-- From `s` to `t`: the managed pages that `touched` does not name stay as they are, and every page
-- of `t` was there or is a `New` one.
pub record Effect (touched : Text → Bool) (New : PageAggregate → Type 0) (s t : Repository)
    : Type 0 where
  pub spares :
      (j : Text) (q : PageAggregate)
      → get s.pages j ≡ some q
      → is_trial q.stewardship ≡ false
      → touched j ≡ false
      → get t.pages j ≡ some q
  pub news :
      (j : Text) (q : PageAggregate) → get t.pages j ≡ some q → (get s.pages j ≡ some q) ⊎ New q
  pub coherent : IsCoherent t

module _ {touched : Text → Bool} {New : PageAggregate → Type 0} {s : Repository} where
  pub idle-Effect : (t : Repository) → IsCoherent s → t ≡ s → Effect touched New s t
  idle-Effect t v same =
      rw same (record { spares = λ j q e m free. e; news = λ j q e. inl e; coherent = v })

  same_pages-Effect : (t : Repository) → t.pages ≡ s.pages → IsCoherent t → Effect touched New s t
  same_pages-Effect t same v = record {
    spares = λ j q e m free. rw same e;
    news = λ j q e. inl (rw (← same) e);
    coherent = v;
  }

  pub written-Effect :
      (gone : Text → Bool) (p : PageAggregate) (t : Repository)
      → Committed gone p s t
      → ((j : Text) (q : PageAggregate)
          → get s.pages j ≡ some q
          → is_trial q.stewardship ≡ false
          → touched j ≡ false
          → (p.page_id == j || gone j) ≡ false)
      → New p
      → Effect touched New s t
  written-Effect gone p t c apart new = record {
    spares = λ j q e m free. ground (arith, c.pages_after j, apart j q e m free);
    news = λ j q e. made j q e (Bool-cases (p.page_id == j)) (Bool-cases (gone j));
    coherent = c.coherent;
  }
    where
      made :
          (j : Text) (q : PageAggregate)
          → get t.pages j ≡ some q
          → ((p.page_id == j) ≡ true) ⊎ ((p.page_id == j) ≡ false)
          → (gone j ≡ true) ⊎ (gone j ≡ false)
          → (get s.pages j ≡ some q) ⊎ New q
      made j q e (inl here) g =
          let same : p ≡ q = ground (arith, c.pages_after j) in inr (subst New same new)
      made j q e (inr other) (inl away) = absurd (ground (arith, c.pages_after j))
      made j q e (inr other) (inr stays) = inl (ground (arith, c.pages_after j))

pub refused-Effect :
    {A : Type 0} {touched : Text → Bool} {New : PageAggregate → Type 0} (s : Repository)
    (o : Outcome Fault A × Repository) (what : Requirement)
    → IsCoherent s
    → o ≡ (thrown (refused what), s)
    → Effect touched New s o.1
refused-Effect s o what v e = idle-Effect o.1 v (rw e refl)

abbrev pub nothing : Text → Bool
nothing j = false

AssetOutcome-Effect :
    {New : PageAggregate → Type 0} {a : ContentAsset} {s : Repository}
    (o : Outcome Fault AssetReply × Repository)
    → IsCoherent s
    → AssetOutcome a s o
    → Effect nothing New s o.1
AssetOutcome-Effect o v (AssetOutcome.unfit bad e) = idle-Effect o.1 v (rw e refl)
AssetOutcome-Effect o v (AssetOutcome.taken h e) = idle-Effect o.1 v (rw e refl)
AssetOutcome-Effect o v (AssetOutcome.done t ok pages index new after w e) =
    rw e (same_pages-Effect t pages w)

pub store-Effect :
    {New : PageAggregate → Type 0} (a : ContentAsset) (s : Repository)
    → IsCoherent s
    → Effect nothing New s (create_content_asset a s).1
store-Effect a s v = AssetOutcome-Effect _ v (asset_outcome a s v)

abbrev pub IsNewTrial : PageAggregate → Type 0
IsNewTrial q = is_trial q.stewardship ≡ true

PutOutcome-Effect :
    {r : PutTrialRequest} {s : Repository} (o : Outcome Fault Reply × Repository)
    → IsCoherent s
    → PutOutcome r s o
    → Effect nothing IsNewTrial s o.1
PutOutcome-Effect o v (PutOutcome.blocked b e) = idle-Effect o.1 v (rw e refl)
PutOutcome-Effect o v (PutOutcome.spread one two rest d e) = idle-Effect o.1 v (rw e refl)
PutOutcome-Effect o v (PutOutcome.without_asset m e) = idle-Effect o.1 v (rw e refl)
PutOutcome-Effect o v (PutOutcome.taken d t e) = idle-Effect o.1 v (rw e refl)
PutOutcome-Effect o v (PutOutcome.exhausted id p d x l e) = idle-Effect o.1 v (rw e refl)
PutOutcome-Effect o v (PutOutcome.fresh t d new c e) =
    rw e (written-Effect (λ j. false) _ t c (λ j q there managed free. ground arith) refl)
PutOutcome-Effect {r} {s} o v (PutOutcome.over id p t d stands is c e) = rw e (
    written-Effect (λ j. member j (id ∷ [])) _ t c
      (λ j q there managed free.
        ground (arith, v.id_kept id p stands, trial_member s (id ∷ []) j q d.trials))
      refl)

pub put-Effect :
    (r : PutTrialRequest) (s : Repository)
    → IsCoherent s
    → Effect nothing IsNewTrial s (put_trial_page_aggregate r s).1
put-Effect r s v = elim (put_refused r s) [
  | inl (what, e) ↦ refused-Effect s _ what v e
  | inr ok ↦ PutOutcome-Effect _ v (put_outcome r s v ok)
]

abbrev pub IsCreatedBy : CreateManagedRequest → PageAggregate → Type 0
IsCreatedBy r q = created_page r ≡ q

CreateOutcome-Effect :
    {r : CreateManagedRequest} {s : Repository} (o : Outcome Fault Reply × Repository)
    → IsCoherent s
    → CreateOutcome r s o
    → Effect nothing (IsCreatedBy r) s o.1
CreateOutcome-Effect o v (CreateOutcome.blocked b e) = idle-Effect o.1 v (rw e refl)
CreateOutcome-Effect o v (CreateOutcome.taken t e) = idle-Effect o.1 v (rw e refl)
CreateOutcome-Effect o v (CreateOutcome.without_asset m e) = idle-Effect o.1 v (rw e refl)
CreateOutcome-Effect {r} {s} o v (CreateOutcome.done found t d new c e) = rw e (
    written-Effect (λ j. member j found) _ t c
      (λ j q there managed free. ground (arith, trial_member s found j q d.trials)) refl)

pub create-Effect :
    (r : CreateManagedRequest) (s : Repository)
    → IsCoherent s
    → Effect nothing (IsCreatedBy r) s (create_managed_page_aggregate r s).1
create-Effect r s v = elim (create_refused r s) [
  | inl (what, e) ↦ refused-Effect s _ what v e
  | inr ok ↦ CreateOutcome-Effect _ v (create_outcome r s v ok)
]
