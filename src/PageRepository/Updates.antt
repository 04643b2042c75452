-- ===== src/PageRepository/Updates.antt =====
-- lib/page/memory-aggregate-repository.ts: what an update can come to.
use iam_pager.Base.{
  ◌⊎◌, Bool, subst, Text, List, [], Option, none, some, true, false, ◌≡◌, ◌≢◌, refl, ◌==◌, ◌||◌,
  member, arith, inl, inr, Bool-cases, eqb,
}
use iam_pager.Base.Map.{get, has}
use iam_pager.Base.Exec.{Outcome, returned}
use iam_pager.Endpoint.{PageEndpointSet, page_endpoint_set_violation}
use iam_pager.Endpoint.Violation.{Distinct}
use iam_pager.Content.{is_valid_content_asset_id}
use iam_pager.Page.{is_valid_page_tags, max_safe_integer}
use iam_pager.Aggregate.{PageAggregate}
use iam_pager.PageRepository.State.{
  ◌>>◌, require, Action, Requirement, passes, pure, ◌>>=◌, Repository, Fault, keys_of,
  assert_valid_page, require_page_id, require_content_asset_id, require_endpoint_set, require_owner,
  require_time, is_owned_by,
}
use iam_pager.PageRepository.Requests.{
  UpdateManagedRequest, Reply, committed, rejected, updated, endpoint_conflict, not_found,
  revision_conflict, revision_exhausted, content_asset_not_found,
}
use iam_pager.PageRepository.Creation.{outcome_over}
use iam_pager.PageRepository.Changes.{
  updated_page, update_claimed, claimed_by_patch, update_from, names_missing_asset,
  update_managed_page_aggregate, require_tags, when_given,
}
use iam_pager.PageRepository.Requirements.{Refuses, require_then, passes-none}
use iam_pager.PageRepository.Invariant.{IsCoherent}
use iam_pager.PageRepository.Removal.{AreTrials}
use iam_pager.PageRepository.Clearing.{IsBlocked, Displaces, clearing}
use iam_pager.PageRepository.Commit.{Committed}
use iam_pager.PageRepository.Replacing.{replace_page}
use iam_pager.PageRepository.Revisions.{
  IsValidUpdate, IsCurrent, DisplacesIf, updated_page-valid, Given,
}

-- The facts that a displaced set gives, whether or not the update replaces the endpoint set
record IsDisplaced (r : UpdateManagedRequest) (existing : PageAggregate) (found : List Text)
    (s : Repository) : Type 0 where
  distinct : Distinct found
  trials : AreTrials s found
  apart : member r.page_id found ≡ false
  covers :
      (k j : Text)
      → member k (keys_of (updated_page r existing)) ≡ true
      → get s.endpoint_page_ids k ≡ some j
      → (r.page_id == j || member j found) ≡ true

displaced :
    (r : UpdateManagedRequest) (existing : PageAggregate) (found : List Text) (s : Repository)
    → IsCoherent s
    → get s.pages r.page_id ≡ some existing
    → (o : Option PageEndpointSet) → r.patch.endpoint_set ≡ o
    → DisplacesIf r.page_id o found s
    → IsDisplaced r existing found s
unfolding member
displaced r existing found s v stands none e d = record {
  distinct = rw d tt;
  trials = rw d tt;
  apart = rw d refl;
  covers = λ k j m leads. ground (arith, v.indexed r.page_id existing k stands (rw e at m));
}
displaced r existing found s v stands (some set) e d = record {
  distinct = d.distinct;
  trials = d.trials;
  apart = d.others r.page_id (ground arith);
  covers = λ k j m leads. ground (arith, d.covers k j (rw e at m) leads);
}

-- What an update can come to
pub data UpdateOutcome (r : UpdateManagedRequest) (s : Repository)
    (result : Outcome Fault Reply × Repository) : Type 0 where
  unknown :
      ((p : PageAggregate)
        → get s.pages r.page_id ≡ some p
        → is_owned_by r.owner_user_id p.stewardship ≡ false)
      → result ≡ (returned (rejected not_found), s)
      → UpdateOutcome r s result
  conflicting :
      (p : PageAggregate)
      → get s.pages r.page_id ≡ some p
      → is_owned_by r.owner_user_id p.stewardship ≡ true
      → p.revision ≢ r.expected_revision
      → result ≡ (returned (rejected revision_conflict), s)
      → UpdateOutcome r s result
  exhausted :
      (p : PageAggregate)
      → IsCurrent r.page_id r.owner_user_id r.expected_revision p s
      → p.revision ≡ max_safe_integer
      → result ≡ (returned (rejected revision_exhausted), s)
      → UpdateOutcome r s result
  without_asset :
      (p : PageAggregate)
      → IsCurrent r.page_id r.owner_user_id r.expected_revision p s
      → names_missing_asset r.patch.content_asset_id s ≡ true
      → result ≡ (returned (rejected content_asset_not_found), s)
      → UpdateOutcome r s result
  blocked :
      (set : PageEndpointSet)
      → r.patch.endpoint_set ≡ some set
      → IsBlocked (some r.page_id) set s
      → result ≡ (returned (rejected endpoint_conflict), s)
      → UpdateOutcome r s result
  done :
      (p : PageAggregate) (found : List Text) (t : Repository)
      → IsCurrent r.page_id r.owner_user_id r.expected_revision p s
      → DisplacesIf r.page_id r.patch.endpoint_set found s
      → Committed (λ j. r.page_id == j || member j found) (updated_page r p) s t
      → result ≡ (returned (committed (outcome_over updated found) (updated_page r p)), t)
      → UpdateOutcome r s result

module _ (r : UpdateManagedRequest) (s : Repository) (v : IsCoherent s) (ok : IsValidUpdate r)
    (p : PageAggregate) (current : IsCurrent r.page_id r.owner_user_id r.expected_revision p s)
    (room : p.revision ≢ max_safe_integer)
    (there : names_missing_asset r.patch.content_asset_id s ≡ false) where
  written :
      (found : List Text)
      → DisplacesIf r.page_id r.patch.endpoint_set found s
      → UpdateOutcome r s (update_claimed r p (some found) s)
  unfolding update_claimed assert_valid_page
  written found d =
      let f = displaced r p found s v current.stands r.patch.endpoint_set refl d in
      let valid =
        updated_page-valid r p ok (v.valid r.page_id p current.stands) current.owned room in
      let asset : has s.assets (updated_page r p).content_asset_id ≡ true =
        ground (arith, v.stored r.page_id p current.stands) in
      let q =
        replace_page r.page_id p (updated_page r p) found s v current.stands f.distinct f.trials
          f.apart (v.id_kept r.page_id p current.stands) valid asset f.covers in
      done p found q.third current d q.effect (ground (arith, q.removed, q.retired, q.installed))

  claimed_outcome :
      (o : Option PageEndpointSet)
      → r.patch.endpoint_set ≡ o
      → UpdateOutcome r s ((claimed_by_patch p o >>= update_claimed r p) s)
  unfolding claimed_by_patch update_claimed
  claimed_outcome none e = written [] (rw e refl)
  claimed_outcome (some set) e =
      let same = v.id_kept r.page_id p current.stands in
      elim (clearing (some p.page_id) set s v) [
        | inl (c, b) ↦ rw c (blocked set e (subst (λ id. IsBlocked (some id) set s) same b) refl)
        | inr (found, c, d) ↦
            rw c (written found (rw e (subst (λ id. Displaces (some id) set found s) same d)))
      ]

update_from_outcome :
    (r : UpdateManagedRequest) (s : Repository) (o : Option PageAggregate)
    → IsCoherent s
    → IsValidUpdate r
    → get s.pages r.page_id ≡ o
    → UpdateOutcome r s (update_from r o s)
unfolding update_from
update_from_outcome r s none v ok e = unknown (λ p stands. absurd (ground arith)) refl
update_from_outcome r s (some p) v ok e =
    elim (Bool-cases (is_owned_by r.owner_user_id p.stewardship)) [
      | inr foreign ↦ unknown (λ q stands. ground arith) (ground arith)
      | inl owned ↦ elim (Bool-cases (eqb p.revision r.expected_revision)) [
        | inr old ↦ conflicting p e owned (ground arith) (ground arith)
        | inl same ↦
            let current : IsCurrent r.page_id r.owner_user_id r.expected_revision p s = record {
              stands = e;
              owned = owned;
              expected = ground arith;
            } in
            elim (Bool-cases (eqb p.revision max_safe_integer)) [
              | inl last ↦ exhausted p current (ground arith) (ground arith)
              | inr room ↦ elim (Bool-cases (names_missing_asset r.patch.content_asset_id s)) [
                | inl missing ↦ without_asset p current missing (ground arith)
                | inr there ↦
                    rw (owned, same, room, there)
                      (claimed_outcome r s v ok p current (ground arith) there r.patch.endpoint_set
                        refl)
              ]
            ]
      ]
    ]

Given-set :
    (o : Option PageEndpointSet)
    → Given (λ set. page_endpoint_set_violation set ≡ none) o
    → when_given require_endpoint_set o ≡ pure tt
unfolding require_endpoint_set
Given-set none g = refl
Given-set (some set) g = rw g refl

Given-asset :
    (o : Option Text)
    → Given (λ id. is_valid_content_asset_id id ≡ true) o
    → when_given require_content_asset_id o ≡ pure tt
unfolding require_content_asset_id
Given-asset none g = refl
Given-asset (some id) g = rw g refl

Given-tags :
    (o : Option (List Text))
    → Given (λ tags. is_valid_page_tags tags ≡ true) o
    → when_given require_tags o ≡ pure tt
unfolding require_tags
Given-tags none g = refl
Given-tags (some tags) g = rw g refl

-- On a coherent repository a valid update throws nothing. It is refused, with nothing changed, for
-- a page that is not the requester's, another revision than the expected one, the last revision, a
-- missing asset, or a locator that another managed page holds; or it replaces the page by its next
-- revision, over exactly the trials that a new endpoint set displaces.
pub update_outcome :
    (r : UpdateManagedRequest) (s : Repository)
    → IsCoherent s
    → IsValidUpdate r
    → UpdateOutcome r s (update_managed_page_aggregate r s)
unfolding update_managed_page_aggregate require_page_id require_owner require_time
update_outcome r s v ok =
    rw
      (
        ok.id_ok,
        ok.owner_ok,
        ok.revision_ok,
        ok.patch_ok,
        Given-set r.patch.endpoint_set ok.set_ok,
        Given-asset r.patch.content_asset_id ok.asset_ok,
        Given-tags r.patch.tags ok.tags_ok,
        ok.now_ok,
      )
      (update_from_outcome r s (get s.pages r.page_id) v ok refl)

when_then :
    {A B : Type 0} (check : A → Bool) (what : Requirement) (o : Option A) (rest : Action B)
    (s : Repository) (Q : Type 0)
    → (Given (λ a. check a ≡ true) o → Refuses rest s ⊎ Q)
    → Refuses (when_given (λ a. require (check a) what) o >> rest) s ⊎ Q
when_then check what none rest s Q h = h tt
when_then check what (some a) rest s Q h = require_then (check a) what rest s Q h

Given-none :
    (o : Option PageEndpointSet)
    → Given (λ set. passes (page_endpoint_set_violation set) ≡ true) o
    → Given (λ set. page_endpoint_set_violation set ≡ none) o
Given-none none g = g
Given-none (some set) g = passes-none _ g

-- An update that breaks a requirement is thrown back with nothing changed.
pub update_refused :
    (r : UpdateManagedRequest) (s : Repository)
    → Refuses (update_managed_page_aggregate r) s ⊎ IsValidUpdate r
unfolding update_managed_page_aggregate require_page_id require_owner require_time
    require_endpoint_set require_content_asset_id require_tags
update_refused r s = require_then _ _ _ s _ λ id_ok. require_then _ _ _ s _ λ owner_ok.
    require_then _ _ _ s _ λ revision_ok. require_then _ _ _ s _ λ patch_ok.
      when_then _ _ r.patch.endpoint_set _ s _ λ set_ok.
        when_then _ _ r.patch.content_asset_id _ s _ λ asset_ok.
          when_then _ _ r.patch.tags _ s _ λ tags_ok. require_then _ _ _ s _ λ now_ok. inr (record {
            id_ok = id_ok;
            owner_ok = owner_ok;
            revision_ok = revision_ok;
            patch_ok = patch_ok;
            set_ok = Given-none r.patch.endpoint_set set_ok;
            asset_ok = asset_ok;
            tags_ok = tags_ok;
            now_ok = now_ok;
          })
