-- ===== src/PageRepository/Duplicates.antt =====
-- lib/page/memory-aggregate-repository.ts: duplicating a managed page, on every branch.
use iam_pager.Base.{
  Text, List, Option, none, some, true, false, ◌≡◌, ◌≢◌, refl, member, arith, inl, inr, ◌⊎◌,
  Bool-cases, Option-cases, eqb,
}
use iam_pager.Base.Patterns.{non_empty}
use iam_pager.Base.Map.{get, has}
use iam_pager.Base.Exec.{Outcome, returned}
use iam_pager.Endpoint.{page_endpoint_set_violation}
use iam_pager.Page.{is_valid_page_id, is_valid_page_revision}
use iam_pager.Content.{is_valid_date}
use iam_pager.Aggregate.{PageAggregate, page_aggregate_violation}
use iam_pager.Aggregate.Valid.{violation-none_iff}
use iam_pager.PageRepository.State.{
  Repository, Fault, require_page_id, require_endpoint_set, require_owner, require_time,
  is_owned_by,
}
use iam_pager.PageRepository.Requests.{
  DuplicateManagedRequest, Reply, committed, rejected, created, endpoint_conflict, not_found,
  revision_conflict, page_id_conflict,
}
use iam_pager.PageRepository.Creation.{
  duplicated_page, duplicate_claimed, duplicate_from, duplicate_managed_page_aggregate,
  outcome_over,
}
use iam_pager.PageRepository.Requirements.{Refuses, require_then, passes-none}
use iam_pager.PageRepository.Invariant.{IsCoherent}
use iam_pager.PageRepository.NewPages.{commit_new_lem}
use iam_pager.PageRepository.Revisions.{IsCurrent}
use iam_pager.PageRepository.Clearing.{IsBlocked, Displaces, clearing}
use iam_pager.PageRepository.Commit.{Committed}

pub record IsValidDuplicate (r : DuplicateManagedRequest) : Type 0 where
  pub source_ok : is_valid_page_id r.source_page_id ≡ true
  pub id_ok : is_valid_page_id r.page_id ≡ true
  pub owner_ok : non_empty r.owner_user_id ≡ true
  pub revision_ok : is_valid_page_revision r.expected_revision ≡ true
  pub set_ok : page_endpoint_set_violation r.endpoint_set ≡ none
  pub now_ok : is_valid_date r.now ≡ true

duplicated_page-valid :
    (r : DuplicateManagedRequest) (source : PageAggregate)
    → IsValidDuplicate r
    → page_aggregate_violation source ≡ none
    → is_owned_by r.owner_user_id source.stewardship ≡ true
    → page_aggregate_violation (duplicated_page r source) ≡ none
duplicated_page-valid r source v ok owned =
    let w = (violation-none_iff source).0 ok in
    (violation-none_iff (duplicated_page r source)).1 (record {
      id_ok = v.id_ok;
      set_ok = v.set_ok;
      tags_ok = w.tags_ok;
      trial_ok = λ t. absurd (ground arith);
      owner_ok = w.owner_ok;
      revision_ok = ground arith;
      asset_ok = w.asset_ok;
      health_ok = refl;
      created_ok = v.now_ok;
      updated_ok = v.now_ok;
    })

-- What a duplication can come to
pub data DuplicateOutcome (r : DuplicateManagedRequest) (s : Repository)
    (result : Outcome Fault Reply × Repository) : Type 0 where
  unknown :
      ((p : PageAggregate)
        → get s.pages r.source_page_id ≡ some p
        → is_owned_by r.owner_user_id p.stewardship ≡ false)
      → result ≡ (returned (rejected not_found), s)
      → DuplicateOutcome r s result
  conflicting :
      (p : PageAggregate)
      → get s.pages r.source_page_id ≡ some p
      → is_owned_by r.owner_user_id p.stewardship ≡ true
      → p.revision ≢ r.expected_revision
      → result ≡ (returned (rejected revision_conflict), s)
      → DuplicateOutcome r s result
  blocked :
      IsBlocked none r.endpoint_set s
      → result ≡ (returned (rejected endpoint_conflict), s)
      → DuplicateOutcome r s result
  taken :
      has s.pages r.page_id ≡ true
      → result ≡ (returned (rejected page_id_conflict), s)
      → DuplicateOutcome r s result
  done :
      (p : PageAggregate) (found : List Text) (t : Repository)
      → IsCurrent r.source_page_id r.owner_user_id r.expected_revision p s
      → Displaces none r.endpoint_set found s
      → get s.pages r.page_id ≡ none
      → Committed (λ j. member j found) (duplicated_page r p) s t
      → result ≡ (returned (committed (outcome_over created found) (duplicated_page r p)), t)
      → DuplicateOutcome r s result

duplicate_claimed_outcome :
    (r : DuplicateManagedRequest) (p : PageAggregate) (found : List Text) (s : Repository)
    → IsCoherent s
    → IsValidDuplicate r
    → IsCurrent r.source_page_id r.owner_user_id r.expected_revision p s
    → Displaces none r.endpoint_set found s
    → DuplicateOutcome r s (duplicate_claimed r p (some found) s)
unfolding duplicate_claimed
duplicate_claimed_outcome r p found s v ok c d = elim (Option-cases (get s.pages r.page_id)) [
  | inr (q, old) ↦ taken (ground arith) (ground arith)
  | inl new ↦
      let valid = duplicated_page-valid r p ok (v.valid r.source_page_id p c.stands) c.owned in
      let (t, e, k) =
        commit_new_lem found (duplicated_page r p) s v d valid
          (v.stored r.source_page_id p c.stands) new in
      done p found t c d new k (ground arith)
]

duplicate_from_outcome :
    (r : DuplicateManagedRequest) (s : Repository) (o : Option PageAggregate)
    → IsCoherent s
    → IsValidDuplicate r
    → get s.pages r.source_page_id ≡ o
    → DuplicateOutcome r s (duplicate_from r o s)
unfolding duplicate_from
duplicate_from_outcome r s none v ok e = unknown (λ p stands. absurd (ground arith)) refl
duplicate_from_outcome r s (some p) v ok e =
    elim (Bool-cases (is_owned_by r.owner_user_id p.stewardship)) [
      | inr foreign ↦ unknown (λ q stands. ground arith) (ground arith)
      | inl owned ↦ elim (Bool-cases (eqb p.revision r.expected_revision)) [
        | inr old ↦ conflicting p e owned (ground arith) (ground arith)
        | inl same ↦
            let c : IsCurrent r.source_page_id r.owner_user_id r.expected_revision p s = record {
              stands = e;
              owned = owned;
              expected = ground arith;
            } in
            rw (owned, same)
              (elim (clearing none r.endpoint_set s v) [
                | inl (l, b) ↦ rw (l, duplicate_claimed) (blocked b refl)
                | inr (found, l, d) ↦ rw l (duplicate_claimed_outcome r p found s v ok c d)
              ])
      ]
    ]

-- On a coherent repository a valid duplication throws nothing. It is refused, with nothing changed,
-- for a source that is not the requester's, another revision than the expected one, a locator that
-- a managed page holds, or a used identity; or it writes the copy at revision 1, over exactly the
-- trials that its locators displace.
pub duplicate_outcome :
    (r : DuplicateManagedRequest) (s : Repository)
    → IsCoherent s
    → IsValidDuplicate r
    → DuplicateOutcome r s (duplicate_managed_page_aggregate r s)
unfolding duplicate_managed_page_aggregate require_page_id require_endpoint_set require_owner
    require_time
duplicate_outcome r s v ok =
    rw (ok.source_ok, ok.id_ok, ok.owner_ok, ok.revision_ok, ok.set_ok, ok.now_ok)
      (duplicate_from_outcome r s (get s.pages r.source_page_id) v ok refl)

-- A duplication that breaks a requirement is thrown back with nothing changed.
pub duplicate_refused :
    (r : DuplicateManagedRequest) (s : Repository)
    → Refuses (duplicate_managed_page_aggregate r) s ⊎ IsValidDuplicate r
unfolding duplicate_managed_page_aggregate require_page_id require_endpoint_set require_owner
    require_time
duplicate_refused r s = require_then _ _ _ s _ λ source_ok. require_then _ _ _ s _ λ id_ok.
    require_then _ _ _ s _ λ owner_ok. require_then _ _ _ s _ λ revision_ok.
      require_then _ _ _ s _ λ set_ok. require_then _ _ _ s _ λ now_ok. inr (record {
        source_ok = source_ok;
        id_ok = id_ok;
        owner_ok = owner_ok;
        revision_ok = revision_ok;
        set_ok = passes-none _ set_ok;
        now_ok = now_ok;
      })
