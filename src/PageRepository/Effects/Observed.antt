-- ===== src/PageRepository/Effects/Observed.antt =====
-- lib/page/memory-aggregate-repository.ts: the effect of an observation of external content.
use iam_pager.Base.{Text, Option, some, ◌≡◌, refl, inl, inr, arith, ◌==◌, Bool-cases}
use iam_pager.Base.Map.{get}
use iam_pager.Base.Exec.{Outcome}
use iam_pager.Aggregate.{PageAggregate, ExternalContentMissingState}
use iam_pager.PageRepository.State.{Repository, Fault}
use iam_pager.PageRepository.Requests.{UpdateHealthRequest, HealthReply}
use iam_pager.PageRepository.Health.{update_external_content_health}
use iam_pager.PageRepository.Invariant.{IsCoherent}
use iam_pager.PageRepository.Observation.{HealthOutcome, health_outcome, health_refused}

-- The page with another observation of its content
abbrev pub with_health : Option ExternalContentMissingState → PageAggregate → PageAggregate
with_health missing page = record page { external_missing = missing }

-- From `s` to `t` the pages are the same ones, up to what is observed of their content.
pub record IsObservation (s t : Repository) : Type 0 where
  pub after :
      (j : Text) (q : PageAggregate)
      → get s.pages j ≡ some q
      → (m : Option ExternalContentMissingState) × (get t.pages j ≡ some (with_health m q))
  pub before :
      (j : Text) (q : PageAggregate)
      → get t.pages j ≡ some q
      → (m : Option ExternalContentMissingState) × (old : PageAggregate) × (get s.pages j
          ≡ some old)
        × (with_health m old ≡ q)
  pub coherent : IsCoherent t

idle-IsObservation : (s t : Repository) → IsCoherent s → t ≡ s → IsObservation s t
idle-IsObservation s t v same = rw same (record {
  after = λ j q e. (q.external_missing, e);
  before = λ j q e. (q.external_missing, q, e, refl);
  coherent = v;
})

HealthOutcome-IsObservation :
    (r : UpdateHealthRequest) (s : Repository) (o : Outcome Fault HealthReply × Repository)
    → IsCoherent s
    → HealthOutcome r s o
    → IsObservation s o.1
HealthOutcome-IsObservation r s o v (HealthOutcome.outdated h e) =
    idle-IsObservation s o.1 v (rw e refl)
HealthOutcome-IsObservation r s o v (HealthOutcome.misplaced p h x e) =
    idle-IsObservation s o.1 v (rw e refl)
HealthOutcome-IsObservation r s o v (HealthOutcome.same p h x c e) =
    idle-IsObservation s o.1 v (rw e refl)
HealthOutcome-IsObservation r s o v (HealthOutcome.done p t h x c assets index pages w e) =
    rw e (record {
      after = λ j q at. elim (Bool-cases (r.page_id == j)) [
        | inl here ↦ (r.external_missing, ground (arith, pages j, h.stands))
        | inr apart ↦ (q.external_missing, ground (arith, pages j))
      ];
      before = λ j q at. elim (Bool-cases (r.page_id == j)) [
        | inl here ↦ (r.external_missing, p, ground (arith, h.stands), ground (arith, pages j))
        | inr apart ↦ (q.external_missing, q, ground (arith, pages j), refl)
      ];
      coherent = w;
    })

pub observe-IsObservation :
    (r : UpdateHealthRequest) (s : Repository)
    → IsCoherent s
    → IsObservation s (update_external_content_health r s).1
observe-IsObservation r s v = elim (health_refused r s) [
  | inl (what, e) ↦ idle-IsObservation s _ v (rw e refl)
  | inr ok ↦ HealthOutcome-IsObservation r s _ v (health_outcome r s v ok)
]
