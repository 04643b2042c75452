-- ===== src/PageRepository/Effects/Edits.antt =====
-- lib/page/memory-aggregate-repository.ts: the effects of copies, updates and deletions.
use iam_pager.Base.{Text, some, true, ◌≡◌, refl, inl, inr, arith, member, ◌==◌, ◌||◌}
use iam_pager.Base.Map.{get}
use iam_pager.Base.Exec.{Outcome}
use iam_pager.Aggregate.{PageAggregate}
use iam_pager.PageRepository.State.{Repository, Fault, is_owned_by}
use iam_pager.PageRepository.Requests.{
  UpdateManagedRequest, DuplicateManagedRequest, DeleteManagedRequest, Reply, DeleteReply,
}
use iam_pager.PageRepository.Creation.{duplicate_managed_page_aggregate, duplicated_page}
use iam_pager.PageRepository.Changes.{
  update_managed_page_aggregate, delete_managed_page_aggregate, updated_page,
}
use iam_pager.PageRepository.Invariant.{IsCoherent, Removed}
use iam_pager.PageRepository.Updates.{UpdateOutcome, update_outcome, update_refused}
use iam_pager.PageRepository.Duplicates.{DuplicateOutcome, duplicate_outcome, duplicate_refused}
use iam_pager.PageRepository.Deletion.{DeleteOutcome, delete_outcome, delete_refused}
use iam_pager.PageRepository.Transition.{trial_member, displaced_trials}
use iam_pager.PageRepository.Effects.{Effect, nothing, idle-Effect, written-Effect, refused-Effect}

-- A copy of one of the owner's pages
abbrev pub IsCopyBy : DuplicateManagedRequest → PageAggregate → Type 0
IsCopyBy r q =
    (old : PageAggregate) × (is_owned_by r.owner_user_id old.stewardship ≡ true)
    × (duplicated_page r old ≡ q)

DuplicateOutcome-Effect :
    {r : DuplicateManagedRequest} {s : Repository} (o : Outcome Fault Reply × Repository)
    → IsCoherent s
    → DuplicateOutcome r s o
    → Effect nothing (IsCopyBy r) s o.1
DuplicateOutcome-Effect o v (DuplicateOutcome.unknown h e) = idle-Effect o.1 v (rw e refl)
DuplicateOutcome-Effect o v (DuplicateOutcome.conflicting p f h n e) = idle-Effect o.1 v (rw e refl)
DuplicateOutcome-Effect o v (DuplicateOutcome.blocked b e) = idle-Effect o.1 v (rw e refl)
DuplicateOutcome-Effect o v (DuplicateOutcome.taken t e) = idle-Effect o.1 v (rw e refl)
DuplicateOutcome-Effect {r} {s} o v (DuplicateOutcome.done p found t k d new c e) = rw e (
    written-Effect (λ j. member j found) _ t c
      (λ j q there managed free. ground (arith, trial_member s found j q d.trials))
      (p, k.owned, refl))

pub duplicate-Effect :
    (r : DuplicateManagedRequest) (s : Repository)
    → IsCoherent s
    → Effect nothing (IsCopyBy r) s (duplicate_managed_page_aggregate r s).1
duplicate-Effect r s v = elim (duplicate_refused r s) [
  | inl (what, e) ↦ refused-Effect s _ what v e
  | inr ok ↦ DuplicateOutcome-Effect _ v (duplicate_outcome r s v ok)
]

-- The next revision of one of the owner's pages
abbrev pub IsUpdateBy : UpdateManagedRequest → Repository → PageAggregate → Type 0
IsUpdateBy r s q =
    (old : PageAggregate) × (get s.pages r.page_id ≡ some old)
    × (is_owned_by r.owner_user_id old.stewardship ≡ true)
    × (updated_page r old ≡ q)

UpdateOutcome-Effect :
    {r : UpdateManagedRequest} {s : Repository} (o : Outcome Fault Reply × Repository)
    → IsCoherent s
    → UpdateOutcome r s o
    → Effect (λ j. r.page_id == j) (IsUpdateBy r s) s o.1
UpdateOutcome-Effect o v (UpdateOutcome.unknown h e) = idle-Effect o.1 v (rw e refl)
UpdateOutcome-Effect o v (UpdateOutcome.conflicting p f h n e) = idle-Effect o.1 v (rw e refl)
UpdateOutcome-Effect o v (UpdateOutcome.exhausted p h l e) = idle-Effect o.1 v (rw e refl)
UpdateOutcome-Effect o v (UpdateOutcome.without_asset p h m e) = idle-Effect o.1 v (rw e refl)
UpdateOutcome-Effect o v (UpdateOutcome.blocked set f b e) = idle-Effect o.1 v (rw e refl)
UpdateOutcome-Effect {r} {s} o v (UpdateOutcome.done p found t k d c e) =
    let trials = displaced_trials r.page_id r.patch.endpoint_set found s d in
    rw e (
      written-Effect (λ j. r.page_id == j || member j found) _ t c
        (λ j q there managed free.
          ground (arith, v.id_kept r.page_id p k.stands, trial_member s found j q trials))
        (p, k.stands, k.owned, refl))

pub update-Effect :
    (r : UpdateManagedRequest) (s : Repository)
    → IsCoherent s
    → Effect (λ j. r.page_id == j) (IsUpdateBy r s) s (update_managed_page_aggregate r s).1
update-Effect r s v = elim (update_refused r s) [
  | inl (what, e) ↦ refused-Effect s _ what v e
  | inr ok ↦ UpdateOutcome-Effect _ v (update_outcome r s v ok)
]

Removed-Effect :
    {New : PageAggregate → Type 0} (id : Text) (s t : Repository)
    → Removed (λ j. id == j) s t
    → IsCoherent t
    → Effect (λ j. id == j) New s t
Removed-Effect id s t r w = record {
  spares = λ j q e m free. ground (arith, r.pages_after j);
  news = λ j q e. inl (ground (arith, r.pages_after j));
  coherent = w;
}

DeleteOutcome-Effect :
    {New : PageAggregate → Type 0} {r : DeleteManagedRequest} {s : Repository}
    (o : Outcome Fault DeleteReply × Repository)
    → IsCoherent s
    → DeleteOutcome r s o
    → Effect (λ j. r.page_id == j) New s o.1
DeleteOutcome-Effect o v (DeleteOutcome.unknown h e) = idle-Effect o.1 v (rw e refl)
DeleteOutcome-Effect o v (DeleteOutcome.conflicting p f h n e) = idle-Effect o.1 v (rw e refl)
DeleteOutcome-Effect {r = r} {s = s} o v (DeleteOutcome.done p t k q w e) =
    rw e (Removed-Effect r.page_id s t q w)

pub delete-Effect :
    {New : PageAggregate → Type 0} (r : DeleteManagedRequest) (s : Repository)
    → IsCoherent s
    → Effect (λ j. r.page_id == j) New s (delete_managed_page_aggregate r s).1
delete-Effect r s v = elim (delete_refused r s) [
  | inl (what, e) ↦ refused-Effect s _ what v e
  | inr ok ↦ DeleteOutcome-Effect _ v (delete_outcome r s v ok)
]
