-- ===== src/PageRepository/Observation.antt =====
-- lib/page/memory-aggregate-repository.ts: observing the health of external content, and storing an
-- asset, on every branch.
use iam_pager.Base.{
  Text, Option, none, some, if◌then◌else◌, true, false, ◌≡◌, refl, ◌==◌, arith, inl, inr, ◌⊎◌,
  Bool-cases, ◌≢◌, ap, subst,
}
use iam_pager.Base.Map.{get, put, get-put}
use iam_pager.Base.Exec.{Outcome, returned, thrown}
use iam_pager.Page.{is_valid_page_id}
use iam_pager.Content.{is_valid_content_asset_id}
use iam_pager.Aggregate.{
  PageAggregate, page_aggregate_violation, ExternalContentMissingState, ExternalContentMissingCause,
  external_content_missing, connection_revoked, integrity_mismatch,
}
use iam_pager.Aggregate.Valid.{violation-none_iff}
use iam_pager.PageRepository.State.{
  external_asset, refused, Repository, Fault, keys_of, require_page_id, require_content_asset_id,
  assert_valid_page,
}
use iam_pager.PageRepository.Requests.{
  UpdateHealthRequest, HealthReply, health_updated, health_unchanged, health_rejected, stale,
}
use iam_pager.PageRepository.Health.{
  same_cause, external_health_equal, observe, health_from, valid_observation, is_external_asset,
  observed_page, update_external_content_health,
}
use iam_pager.PageRepository.Requirements.{Refuses, require_then}
use iam_pager.PageRepository.Invariant.{IsCoherent}
use iam_pager.Base.{text_dec}

-- A step that leaves the pages' identities, validity, assets and locators alone keeps coherence.
observed-IsCoherent :
    (p q : PageAggregate) (s : Repository)
    → IsCoherent s
    → get s.pages p.page_id ≡ some p
    → q.page_id ≡ p.page_id
    → keys_of q ≡ keys_of p
    → q.content_asset_id ≡ p.content_asset_id
    → page_aggregate_violation q ≡ none
    → IsCoherent (record s { pages = put s.pages q.page_id q })
observed-IsCoherent p q s v e same_id same_keys same_asset ok = record {
  id_kept = λ id r f. ground (arith, get-put s.pages q.page_id id q, v.id_kept id r);
  valid = λ id r f. ground (arith, get-put s.pages q.page_id id q, v.valid id r);
  stored = λ id r f.
      ground (arith, get-put s.pages q.page_id id q, v.stored id r, v.stored p.page_id p e);
  indexed = λ id r k f m.
      ground (arith, get-put s.pages q.page_id id q, v.indexed id r k, v.indexed p.page_id p k e);
  owned = λ k id leads.
      let (x, stands, has_key) = v.owned k id leads in
      elim (text_dec q.page_id id) [
        | yes same ↦ (q, ground (arith, get-put s.pages q.page_id id q), ground arith)
        | no other ↦ (x, ground (arith, get-put s.pages q.page_id id q), has_key)
      ];
}

pub record IsValidHealth (r : UpdateHealthRequest) : Type 0 where
  pub id_ok : is_valid_page_id r.page_id ≡ true
  pub asset_ok : is_valid_content_asset_id r.content_asset_id ≡ true
  pub health_ok : valid_observation r.external_missing ≡ true

-- The page that was observed: it still has the asset that was delivered.
pub record IsObserved (r : UpdateHealthRequest) (p : PageAggregate) (s : Repository) : Type 0 where
  pub stands : get s.pages r.page_id ≡ some p
  pub same_asset : p.content_asset_id ≡ r.content_asset_id

-- Why the content is missing, where it is
abbrev pub cause_of : Option ExternalContentMissingState → Option ExternalContentMissingCause
cause_of none = none
cause_of (some state) = some state.cause

same_cause-≡ : (c d : ExternalContentMissingCause) → same_cause c d ≡ true → c ≡ d
same_cause-≡ external_content_missing external_content_missing e = refl
same_cause-≡ connection_revoked connection_revoked e = refl
same_cause-≡ integrity_mismatch integrity_mismatch e = refl
same_cause-≡ external_content_missing connection_revoked e = cc
same_cause-≡ external_content_missing integrity_mismatch e = cc
same_cause-≡ connection_revoked external_content_missing e = cc
same_cause-≡ connection_revoked integrity_mismatch e = cc
same_cause-≡ integrity_mismatch external_content_missing e = cc
same_cause-≡ integrity_mismatch connection_revoked e = cc

same_cause_self : (c : ExternalContentMissingCause) → same_cause c c ≡ true
same_cause_self external_content_missing = refl
same_cause_self connection_revoked = refl
same_cause_self integrity_mismatch = refl

-- The code's comparison is the equality of the causes.
equal-cause :
    (current requested : Option ExternalContentMissingState)
    → external_health_equal current requested ≡ true
    → cause_of current ≡ cause_of requested
unfolding external_health_equal
equal-cause none none e = refl
equal-cause none (some r) e = cc
equal-cause (some c) none e = cc
equal-cause (some c) (some r) e = ap some (same_cause-≡ c.cause r.cause e)

unequal-cause :
    (current requested : Option ExternalContentMissingState)
    → external_health_equal current requested ≡ false
    → cause_of current ≢ cause_of requested
unfolding external_health_equal
unequal-cause none none e same = cc
unequal-cause none (some r) e same = cc
unequal-cause (some c) none e same = cc
unequal-cause (some c) (some r) e same =
    let one : c.cause ≡ r.cause = cc in
    let alike = same_cause_self c.cause in
    absurd (ground (arith, subst (λ d. same_cause c.cause d ≡ true) one alike))

-- What an observation can come to
pub data HealthOutcome (r : UpdateHealthRequest) (s : Repository)
    (result : Outcome Fault HealthReply × Repository) : Type 0 where
  outdated :
      ((p : PageAggregate) → ¬ IsObserved r p s)
      → result ≡ (returned (health_rejected stale), s)
      → HealthOutcome r s result
  misplaced :
      (p : PageAggregate)
      → IsObserved r p s
      → is_external_asset (get s.assets r.content_asset_id) ≡ false
      → result ≡ (thrown (refused external_asset), s)
      → HealthOutcome r s result
  same :
      (p : PageAggregate)
      → IsObserved r p s
      → is_external_asset (get s.assets r.content_asset_id) ≡ true
      → cause_of p.external_missing ≡ cause_of r.external_missing
      → result ≡ (returned health_unchanged, s)
      → HealthOutcome r s result
  done :
      (p : PageAggregate) (t : Repository)
      → IsObserved r p s
      → is_external_asset (get s.assets r.content_asset_id) ≡ true
      → cause_of p.external_missing ≢ cause_of r.external_missing
      → t.assets ≡ s.assets
      → t.endpoint_page_ids ≡ s.endpoint_page_ids
      → ((id : Text)
          → get t.pages id ≡ (if r.page_id == id then some (observed_page r p) else get s.pages id))
      → IsCoherent t
      → result ≡ (returned health_updated, t)
      → HealthOutcome r s result

observed_page-valid :
    (r : UpdateHealthRequest) (p : PageAggregate)
    → IsValidHealth r
    → page_aggregate_violation p ≡ none
    → page_aggregate_violation (observed_page r p) ≡ none
observed_page-valid r p v ok =
    let w = (violation-none_iff p).0 ok in
    (violation-none_iff (observed_page r p)).1 (record {
      id_ok = w.id_ok;
      set_ok = w.set_ok;
      tags_ok = w.tags_ok;
      trial_ok = λ t. record {
        public_ok = (w.trial_ok t).public_ok;
        tagless = (w.trial_ok t).tagless;
        open_ok = (w.trial_ok t).open_ok;
      };
      owner_ok = w.owner_ok;
      revision_ok = w.revision_ok;
      asset_ok = w.asset_ok;
      health_ok = ground (arith, v.health_ok);
      created_ok = w.created_ok;
      updated_ok = w.updated_ok;
    })

health_from_outcome :
    (r : UpdateHealthRequest) (s : Repository) (o : Option PageAggregate)
    → IsCoherent s
    → IsValidHealth r
    → get s.pages r.page_id ≡ o
    → HealthOutcome r s (health_from r o s)
unfolding health_from observe assert_valid_page
health_from_outcome r s none v ok e = outdated (λ p o. absurd (ground (arith, o.stands))) refl
health_from_outcome r s (some p) v ok e = elim (text_dec p.content_asset_id r.content_asset_id) [
  | no other ↦ outdated (λ q o. other (ground (arith, o.stands, o.same_asset))) (ground arith)
  | yes agree ↦
      let o : IsObserved r p s = record { stands = e; same_asset = agree } in
      elim (Bool-cases (is_external_asset (get s.assets r.content_asset_id))) [
        | inr inside ↦ misplaced p o inside (ground arith)
        | inl outside ↦
            elim (Bool-cases (external_health_equal p.external_missing r.external_missing)) [
              | inl equal ↦ same p o outside (equal-cause _ _ equal) (ground arith)
              | inr news ↦
                  let q = observed_page r p in
                  let valid = observed_page-valid r p ok (v.valid r.page_id p e) in
                  let its = v.id_kept r.page_id p e in
                  done p (record s { pages = put s.pages q.page_id q }) o outside
                    (unequal-cause _ _ news) refl refl
                    (λ id. ground (arith, get-put s.pages p.page_id id q))
                    (observed-IsCoherent p q s v (ground arith) refl refl refl valid)
                    (ground (arith, v.stored r.page_id p e))
            ]
      ]
]

-- On a coherent repository a valid observation never breaks an invariant. It is ignored when the
-- page is gone or has another asset, thrown back when the asset is not external, and leaves the page
-- alone when it brings no other cause. It is written only for an external asset and another cause,
-- and then only the page's observation changes.
pub health_outcome :
    (r : UpdateHealthRequest) (s : Repository)
    → IsCoherent s
    → IsValidHealth r
    → HealthOutcome r s (update_external_content_health r s)
unfolding update_external_content_health require_page_id require_content_asset_id
health_outcome r s v ok =
    rw (ok.id_ok, ok.asset_ok, ok.health_ok)
      (health_from_outcome r s (get s.pages r.page_id) v ok refl)

-- An observation that breaks a requirement is thrown back with nothing changed.
pub health_refused :
    (r : UpdateHealthRequest) (s : Repository)
    → Refuses (update_external_content_health r) s ⊎ IsValidHealth r
unfolding update_external_content_health require_page_id require_content_asset_id
health_refused r s = require_then _ _ _ s _ λ id_ok. require_then _ _ _ s _ λ asset_ok.
    require_then _ _ _ s _
      λ health_ok. inr (record { id_ok = id_ok; asset_ok = asset_ok; health_ok = health_ok })
