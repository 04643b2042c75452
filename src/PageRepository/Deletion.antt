-- ===== src/PageRepository/Deletion.antt =====
-- lib/page/memory-aggregate-repository.ts: deleting a managed page, on every branch.
use iam_pager.Base.{
  Option, none, some, true, false, ◌≡◌, ◌≢◌, refl, ◌==◌, arith, inl, inr, ◌⊎◌, Bool-cases, eqb,
}
use iam_pager.Base.Patterns.{non_empty}
use iam_pager.Base.Map.{get}
use iam_pager.Base.Exec.{Outcome, returned}
use iam_pager.Page.{is_valid_page_id, is_valid_page_revision}
use iam_pager.Aggregate.{PageAggregate}
use iam_pager.PageRepository.State.{Repository, Fault, require_page_id, require_owner, is_owned_by}
use iam_pager.PageRepository.Requests.{
  DeleteManagedRequest, DeleteReply, deleted, delete_rejected, not_found, revision_conflict,
}
use iam_pager.PageRepository.Changes.{delete_from, delete_managed_page_aggregate}
use iam_pager.PageRepository.Requirements.{Refuses, require_then}
use iam_pager.PageRepository.Invariant.{IsCoherent, Removed, Removed-IsCoherent}
use iam_pager.PageRepository.Removal.{remove_page_lem}
use iam_pager.PageRepository.Revisions.{IsCurrent}

pub record IsValidDelete (r : DeleteManagedRequest) : Type 0 where
  pub id_ok : is_valid_page_id r.page_id ≡ true
  pub owner_ok : non_empty r.owner_user_id ≡ true
  pub revision_ok : is_valid_page_revision r.expected_revision ≡ true

-- What a deletion can come to
pub data DeleteOutcome (r : DeleteManagedRequest) (s : Repository)
    (result : Outcome Fault DeleteReply × Repository) : Type 0 where
  unknown :
      ((p : PageAggregate)
        → get s.pages r.page_id ≡ some p
        → is_owned_by r.owner_user_id p.stewardship ≡ false)
      → result ≡ (returned (delete_rejected not_found), s)
      → DeleteOutcome r s result
  conflicting :
      (p : PageAggregate)
      → get s.pages r.page_id ≡ some p
      → is_owned_by r.owner_user_id p.stewardship ≡ true
      → p.revision ≢ r.expected_revision
      → result ≡ (returned (delete_rejected revision_conflict), s)
      → DeleteOutcome r s result
  done :
      (p : PageAggregate) (t : Repository)
      → IsCurrent r.page_id r.owner_user_id r.expected_revision p s
      → Removed (λ j. r.page_id == j) s t
      → IsCoherent t
      → result ≡ (returned deleted, t)
      → DeleteOutcome r s result

delete_from_outcome :
    (r : DeleteManagedRequest) (s : Repository) (o : Option PageAggregate)
    → IsCoherent s
    → get s.pages r.page_id ≡ o
    → DeleteOutcome r s (delete_from r o s)
unfolding delete_from
delete_from_outcome r s none v e = unknown (λ p stands. absurd (ground arith)) refl
delete_from_outcome r s (some p) v e =
    elim (Bool-cases (is_owned_by r.owner_user_id p.stewardship)) [
      | inr foreign ↦ unknown (λ q stands. ground arith) (ground arith)
      | inl owned ↦ elim (Bool-cases (eqb p.revision r.expected_revision)) [
        | inr old ↦ conflicting p e owned (ground arith) (ground arith)
        | inl same ↦
            let (t, removed, q) = remove_page_lem r.page_id p s v e in
            done p t (record { stands = e; owned = owned; expected = ground arith }) q
              (Removed-IsCoherent q v) (ground arith)
      ]
    ]

-- On a coherent repository a valid deletion throws nothing. It is refused, with nothing changed,
-- for a page that is not the requester's or another revision than the expected one; or it takes away
-- that page with its locators, and nothing else.
pub delete_outcome :
    (r : DeleteManagedRequest) (s : Repository)
    → IsCoherent s
    → IsValidDelete r
    → DeleteOutcome r s (delete_managed_page_aggregate r s)
unfolding delete_managed_page_aggregate require_page_id require_owner
delete_outcome r s v ok =
    rw (ok.id_ok, ok.owner_ok, ok.revision_ok)
      (delete_from_outcome r s (get s.pages r.page_id) v refl)

-- A deletion that breaks a requirement is thrown back with nothing changed.
pub delete_refused :
    (r : DeleteManagedRequest) (s : Repository)
    → Refuses (delete_managed_page_aggregate r) s ⊎ IsValidDelete r
unfolding delete_managed_page_aggregate require_page_id require_owner
delete_refused r s = require_then _ _ _ s _ λ id_ok. require_then _ _ _ s _ λ owner_ok.
    require_then _ _ _ s _
      λ revision_ok. inr (record { id_ok = id_ok; owner_ok = owner_ok; revision_ok = revision_ok })
