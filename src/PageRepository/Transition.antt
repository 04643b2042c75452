-- ===== src/PageRepository/Transition.antt =====
-- lib/page/memory-aggregate-repository.ts: any public call, as one transition of the repository.
use iam_pager.Base.{
  Text, Bool, List, [], ◌∷◌, Option, none, some, if◌then◌else◌, true, false, ◌≡◌, ◌≢◌, refl, ◌==◌,
  ◌||◌, member, arith, inl, inr,
}
use iam_pager.Base.Map.{get}
use iam_pager.Base.Exec.{Outcome, returned, thrown}
use iam_pager.Page.{PageStewardship, is_trial}
use iam_pager.Content.{ContentAsset}
use iam_pager.Aggregate.{PageAggregate}
use iam_pager.PageRepository.State.{
  Repository, Fault, refused, Requirement, invariant_violated, is_owned_by,
}
use iam_pager.PageRepository.Requests.{
  PutTrialRequest, CreateManagedRequest, UpdateManagedRequest, DuplicateManagedRequest,
  DeleteManagedRequest, UpdateHealthRequest,
}
use iam_pager.PageRepository.Reads.{create_content_asset}
use iam_pager.PageRepository.Trials.{put_trial_page_aggregate}
use iam_pager.PageRepository.Creation.{
  create_managed_page_aggregate, duplicate_managed_page_aggregate,
}
use iam_pager.PageRepository.Changes.{update_managed_page_aggregate, delete_managed_page_aggregate}
use iam_pager.PageRepository.Health.{observed_page, update_external_content_health}
use iam_pager.PageRepository.Invariant.{IsCoherent, Removed}
use iam_pager.PageRepository.Removal.{AreTrials}
use iam_pager.PageRepository.Commit.{Committed}
use iam_pager.PageRepository.Assets.{AssetOutcome, unfit, asset_outcome}
use iam_pager.PageRepository.TrialOutcomes.{PutOutcome, put_outcome, put_refused}
use iam_pager.PageRepository.NewPages.{CreateOutcome, create_outcome, create_refused}
use iam_pager.PageRepository.Updates.{UpdateOutcome, update_outcome, update_refused}
use iam_pager.PageRepository.Revisions.{DisplacesIf}
use iam_pager.Endpoint.{PageEndpointSet}
use iam_pager.PageRepository.Duplicates.{DuplicateOutcome, duplicate_outcome, duplicate_refused}
use iam_pager.PageRepository.Deletion.{DeleteOutcome, delete_outcome, delete_refused}
use iam_pager.PageRepository.Observation.{HealthOutcome, health_outcome, health_refused}

pub data Command : Type 0 where
  store_asset : ContentAsset → Command
  put_trial : PutTrialRequest → Command
  create_managed : CreateManagedRequest → Command
  update_managed : UpdateManagedRequest → Command
  duplicate_managed : DuplicateManagedRequest → Command
  delete_managed : DeleteManagedRequest → Command
  observe_health : UpdateHealthRequest → Command

-- On whose behalf the call is made
abbrev pub actor : Command → Option Text
actor (create_managed r) = some r.owner_user_id
actor (update_managed r) = some r.owner_user_id
actor (duplicate_managed r) = some r.owner_user_id
actor (delete_managed r) = some r.owner_user_id
actor _ = none

abbrev pub fault_of : {A : Type 0} → Outcome Fault A → Option Fault
fault_of (returned a) = none
fault_of (thrown e) = some e

abbrev outcome_of : {A : Type 0} → Outcome Fault A × Repository → Option Fault × Repository
outcome_of (o, s) = (fault_of o, s)

-- The error that a call throws, if any, and the repository that it leaves
unfoldable pub step : Command → Repository → Option Fault × Repository
step (store_asset a) s = outcome_of (create_content_asset a s)
step (put_trial r) s = outcome_of (put_trial_page_aggregate r s)
step (create_managed r) s = outcome_of (create_managed_page_aggregate r s)
step (update_managed r) s = outcome_of (update_managed_page_aggregate r s)
step (duplicate_managed r) s = outcome_of (duplicate_managed_page_aggregate r s)
step (delete_managed r) s = outcome_of (delete_managed_page_aggregate r s)
step (observe_health r) s = outcome_of (update_external_content_health r s)

-- A trial, which anybody may replace, or the actor's own page
abbrev pub may_touch : Option Text → PageStewardship → Bool
may_touch none stewardship = is_trial stewardship
may_touch (some user) stewardship = is_trial stewardship || is_owned_by user stewardship

-- What a call can do to the repository
pub data Transition (who : Option Text) (s : Repository) (result : Option Fault × Repository)
    : Type 0 where
  idle : result.1 ≡ s → result.0 ≢ some invariant_violated → Transition who s result
  stored :
      (t : Repository)
      → result ≡ (none, t)
      → t.pages ≡ s.pages
      → t.endpoint_page_ids ≡ s.endpoint_page_ids
      → IsCoherent t
      → Transition who s result
  wrote :
      (gone : Text → Bool) (p : PageAggregate) (t : Repository)
      → result ≡ (none, t)
      → Committed gone p s t
      → ((j : Text) (q : PageAggregate)
          → get s.pages j ≡ some q
          → (p.page_id == j || gone j) ≡ true
          → may_touch who q.stewardship ≡ true)
      → Transition who s result
  dropped :
      (id : Text) (p : PageAggregate) (t : Repository)
      → result ≡ (none, t)
      → get s.pages id ≡ some p
      → may_touch who p.stewardship ≡ true
      → Removed (λ j. id == j) s t
      → IsCoherent t
      → Transition who s result
  observed :
      (id : Text) (p q : PageAggregate) (t : Repository)
      → result ≡ (none, t)
      → get s.pages id ≡ some p
      → record p { external_missing = q.external_missing } ≡ q
      → t.endpoint_page_ids ≡ s.endpoint_page_ids
      → ((j : Text) → get t.pages j ≡ (if id == j then some q else get s.pages j))
      → IsCoherent t
      → Transition who s result

pub trial_member :
    (s : Repository) (ids : List Text) (j : Text) (q : PageAggregate)
    → AreTrials s ids
    → member j ids ≡ true
    → get s.pages j ≡ some q
    → is_trial q.stewardship ≡ true
unfolding member
trial_member s [] j q h m e = cc
trial_member s (id ∷ ids) j q h m e =
    let (p, stands, is) = h.0 in ground (arith, trial_member s ids j q h.1)

trial_may : (who : Option Text) (q : PageStewardship) → is_trial q ≡ true → may_touch who q ≡ true
trial_may none q t = t
trial_may (some user) q t = ground arith

asset-Transition :
    {a : ContentAsset} {s : Repository} (o : Outcome Fault _ × Repository)
    → AssetOutcome a s o
    → Transition none s (outcome_of o)
asset-Transition o (unfit bad e) = rw e (idle refl (ground arith))
asset-Transition o (AssetOutcome.taken h e) = rw e (idle refl (ground arith))
asset-Transition o (AssetOutcome.done t ok pages index new after v e) =
    rw e (stored t refl pages index v)

put-Transition :
    (r : PutTrialRequest) (s : Repository) (o : Outcome Fault _ × Repository)
    → IsCoherent s
    → PutOutcome r s o
    → Transition none s (outcome_of o)
put-Transition r s o v (PutOutcome.blocked b e) = rw e (idle refl (ground arith))
put-Transition r s o v (PutOutcome.spread one two rest d e) = rw e (idle refl (ground arith))
put-Transition r s o v (PutOutcome.without_asset m e) = rw e (idle refl (ground arith))
put-Transition r s o v (PutOutcome.taken d t e) = rw e (idle refl (ground arith))
put-Transition r s o v (PutOutcome.exhausted id p d x l e) = rw e (idle refl (ground arith))
put-Transition r s o v (PutOutcome.fresh t d new c e) =
    rw e (wrote (λ j. false) _ t refl c (λ j q stands m. absurd (ground arith)))
put-Transition r s o v (PutOutcome.over id p t d stands is c e) = rw e (
    wrote (λ j. member j (id ∷ [])) _ t refl c
      (λ j q there m. ground (arith, v.id_kept id p stands, trial_member s (id ∷ []) j q d.trials)))

create-Transition :
    (r : CreateManagedRequest) (s : Repository) (o : Outcome Fault _ × Repository)
    → CreateOutcome r s o
    → Transition (some r.owner_user_id) s (outcome_of o)
create-Transition r s o (CreateOutcome.blocked b e) = rw e (idle refl (ground arith))
create-Transition r s o (CreateOutcome.taken t e) = rw e (idle refl (ground arith))
create-Transition r s o (CreateOutcome.without_asset m e) = rw e (idle refl (ground arith))
create-Transition r s o (CreateOutcome.done found t d new c e) = rw e (
    wrote (λ j. member j found) _ t refl c
      (λ j q there m. ground (arith, trial_member s found j q d.trials)))

duplicate-Transition :
    (r : DuplicateManagedRequest) (s : Repository) (o : Outcome Fault _ × Repository)
    → DuplicateOutcome r s o
    → Transition (some r.owner_user_id) s (outcome_of o)
duplicate-Transition r s o (DuplicateOutcome.unknown h e) = rw e (idle refl (ground arith))
duplicate-Transition r s o (DuplicateOutcome.conflicting p f h n e) =
    rw e (idle refl (ground arith))
duplicate-Transition r s o (DuplicateOutcome.blocked b e) = rw e (idle refl (ground arith))
duplicate-Transition r s o (DuplicateOutcome.taken t e) = rw e (idle refl (ground arith))
duplicate-Transition r s o (DuplicateOutcome.done p found t k d new c e) = rw e (
    wrote (λ j. member j found) _ t refl c
      (λ j q there m. ground (arith, trial_member s found j q d.trials)))

pub displaced_trials :
    (id : Text) (set : Option PageEndpointSet) (found : List Text) (s : Repository)
    → DisplacesIf id set found s
    → AreTrials s found
displaced_trials id none found s d = rw d tt
displaced_trials id (some set) found s d = d.trials

update-Transition :
    (r : UpdateManagedRequest) (s : Repository) (o : Outcome Fault _ × Repository)
    → IsCoherent s
    → UpdateOutcome r s o
    → Transition (some r.owner_user_id) s (outcome_of o)
update-Transition r s o v (UpdateOutcome.unknown h e) = rw e (idle refl (ground arith))
update-Transition r s o v (UpdateOutcome.conflicting p f h n e) = rw e (idle refl (ground arith))
update-Transition r s o v (UpdateOutcome.exhausted p h l e) = rw e (idle refl (ground arith))
update-Transition r s o v (UpdateOutcome.without_asset p h m e) = rw e (idle refl (ground arith))
update-Transition r s o v (UpdateOutcome.blocked set f b e) = rw e (idle refl (ground arith))
update-Transition r s o v (UpdateOutcome.done p found t k d c e) =
    let trials = displaced_trials r.page_id r.patch.endpoint_set found s d in
    rw e (
      wrote (λ j. r.page_id == j || member j found) _ t refl c
        (λ j q there m. ground (
          arith,
          v.id_kept r.page_id p k.stands,
          k.stands,
          k.owned,
          trial_member s found j q trials,
        )))

delete-Transition :
    (r : DeleteManagedRequest) (s : Repository) (o : Outcome Fault _ × Repository)
    → DeleteOutcome r s o
    → Transition (some r.owner_user_id) s (outcome_of o)
delete-Transition r s o (DeleteOutcome.unknown h e) = rw e (idle refl (ground arith))
delete-Transition r s o (DeleteOutcome.conflicting p f h n e) = rw e (idle refl (ground arith))
delete-Transition r s o (DeleteOutcome.done p t k q v e) =
    rw e (dropped r.page_id p t refl k.stands (ground (arith, k.owned)) q v)

health-Transition :
    (r : UpdateHealthRequest) (s : Repository) (o : Outcome Fault _ × Repository)
    → HealthOutcome r s o
    → Transition none s (outcome_of o)
health-Transition r s o (HealthOutcome.outdated h e) = rw e (idle refl (ground arith))
health-Transition r s o (HealthOutcome.misplaced p h x e) = rw e (idle refl (ground arith))
health-Transition r s o (HealthOutcome.same p h x c e) = rw e (idle refl (ground arith))
health-Transition r s o (HealthOutcome.done p t h x c assets index after v e) =
    rw e (observed r.page_id p (observed_page r p) t refl h.stands refl index after v)

refusal :
    {A : Type 0} (who : Option Text) (s : Repository) (o : Outcome Fault A × Repository)
    (what : Requirement)
    → o ≡ (thrown (refused what), s)
    → Transition who s (outcome_of o)
refusal who s o what e = rw e (idle refl (ground arith))

-- Every public call on a coherent repository is one of the transitions, on behalf of its actor.
pub step-Transition :
    (c : Command) (s : Repository) → IsCoherent s → Transition (actor c) s (step c s)
unfolding step
step-Transition (store_asset a) s v = asset-Transition _ (asset_outcome a s v)
step-Transition (put_trial r) s v = elim (put_refused r s) [
  | inl (what, e) ↦ refusal none s _ what e
  | inr ok ↦ put-Transition r s _ v (put_outcome r s v ok)
]
step-Transition (create_managed r) s v = elim (create_refused r s) [
  | inl (what, e) ↦ refusal (some r.owner_user_id) s _ what e
  | inr ok ↦ create-Transition r s _ (create_outcome r s v ok)
]
step-Transition (update_managed r) s v = elim (update_refused r s) [
  | inl (what, e) ↦ refusal (some r.owner_user_id) s _ what e
  | inr ok ↦ update-Transition r s _ v (update_outcome r s v ok)
]
step-Transition (duplicate_managed r) s v = elim (duplicate_refused r s) [
  | inl (what, e) ↦ refusal (some r.owner_user_id) s _ what e
  | inr ok ↦ duplicate-Transition r s _ (duplicate_outcome r s v ok)
]
step-Transition (delete_managed r) s v = elim (delete_refused r s) [
  | inl (what, e) ↦ refusal (some r.owner_user_id) s _ what e
  | inr ok ↦ delete-Transition r s _ (delete_outcome r s v ok)
]
step-Transition (observe_health r) s v = elim (health_refused r s) [
  | inl (what, e) ↦ refusal none s _ what e
  | inr ok ↦ health-Transition r s _ (health_outcome r s v ok)
]
