-- ===== src/PageRepository/TrialOutcomes.antt =====
-- lib/page/memory-aggregate-repository.ts: publishing a trial page, on every branch.
use iam_pager.Base.{
  Text, List, [], ◌∷◌, none, some, true, false, ◌≡◌, ◌≢◌, refl, member, arith, inl, inr, ◌⊎◌,
  Bool-cases, Option-cases, eqb,
}
use iam_pager.Base.Map.{get, has}
use iam_pager.Base.Exec.{Outcome, returned}
use iam_pager.Endpoint.{page_endpoint_set_violation}
use iam_pager.Page.{is_valid_page_tags, max_safe_integer, is_trial, is_valid_page_id}
use iam_pager.Content.{is_valid_content_asset_id, is_valid_date}
use iam_pager.Aggregate.{PageAggregate, page_aggregate_violation}
use iam_pager.Aggregate.Valid.{violation-none_iff}
use iam_pager.PageRepository.State.{
  Repository, Fault, keys_of, assert_valid_page, retire_trials, require_stored_page,
  require_page_id, require_content_asset_id, require_endpoint_set, require_time,
}
use iam_pager.PageRepository.Requests.{
  PutTrialRequest, Reply, committed, rejected, created, replaced, managed_conflict,
  endpoint_conflict, page_id_conflict, revision_exhausted, content_asset_not_found,
}
use iam_pager.PageRepository.Trials.{
  trial_page, put_new_trial, put_over_trial, put_claimed, put_trial_page_aggregate,
}
use iam_pager.PageRepository.Requirements.{Refuses, require_then, passes-none}
use iam_pager.PageRepository.Invariant.{IsCoherent, Removed-nothing, Installed-IsCoherent}
use iam_pager.PageRepository.Removal.{install_page_lem}
use iam_pager.PageRepository.Clearing.{IsBlocked, Displaces, clearing}
use iam_pager.PageRepository.Commit.{Committed, Removed-Installed}
use iam_pager.PageRepository.Replacing.{replace_page}

pub record IsValidPut (r : PutTrialRequest) : Type 0 where
  pub id_ok : is_valid_page_id r.page_id ≡ true
  pub set_ok : page_endpoint_set_violation r.endpoint_set ≡ none
  pub asset_ok : is_valid_content_asset_id r.content_asset_id ≡ true
  pub now_ok : is_valid_date r.now ≡ true

tagless_ok : is_valid_page_tags [] ≡ true
unfolding is_valid_page_tags
tagless_ok = refl

new_trial-valid :
    (r : PutTrialRequest) → IsValidPut r → page_aggregate_violation (trial_page r none) ≡ none
unfolding page_aggregate_violation
new_trial-valid r v = ground (arith, v.set_ok, tagless_ok)

next_trial-valid :
    (r : PutTrialRequest) (p : PageAggregate)
    → IsValidPut r
    → page_aggregate_violation p ≡ none
    → p.revision ≢ max_safe_integer
    → page_aggregate_violation (trial_page r (some p)) ≡ none
next_trial-valid r p v ok room =
    let w = (violation-none_iff p).0 ok in
    (violation-none_iff (trial_page r (some p))).1 (record {
      id_ok = w.id_ok;
      set_ok = v.set_ok;
      tags_ok = tagless_ok;
      trial_ok = λ t. record { public_ok = refl; tagless = refl; open_ok = refl };
      owner_ok = refl;
      revision_ok = ground (arith, w.revision_ok);
      asset_ok = v.asset_ok;
      health_ok = refl;
      created_ok = w.created_ok;
      updated_ok = v.now_ok;
    })

-- What publishing a trial page can come to
pub data PutOutcome (r : PutTrialRequest) (s : Repository)
    (result : Outcome Fault Reply × Repository) : Type 0 where
  blocked :
      IsBlocked none r.endpoint_set s
      → result ≡ (returned (rejected managed_conflict), s)
      → PutOutcome r s result
  spread :
      (one two : Text) (rest : List Text)
      → Displaces none r.endpoint_set (one ∷ two ∷ rest) s
      → result ≡ (returned (rejected endpoint_conflict), s)
      → PutOutcome r s result
  without_asset :
      has s.assets r.content_asset_id ≡ false
      → result ≡ (returned (rejected content_asset_not_found), s)
      → PutOutcome r s result
  taken :
      Displaces none r.endpoint_set [] s
      → has s.pages r.page_id ≡ true
      → result ≡ (returned (rejected page_id_conflict), s)
      → PutOutcome r s result
  exhausted :
      (id : Text) (p : PageAggregate)
      → Displaces none r.endpoint_set (id ∷ []) s
      → get s.pages id ≡ some p
      → p.revision ≡ max_safe_integer
      → result ≡ (returned (rejected revision_exhausted), s)
      → PutOutcome r s result
  fresh :
      (t : Repository)
      → Displaces none r.endpoint_set [] s
      → get s.pages r.page_id ≡ none
      → Committed (λ j. false) (trial_page r none) s t
      → result ≡ (returned (committed created (trial_page r none)), t)
      → PutOutcome r s result
  over :
      (id : Text) (p : PageAggregate) (t : Repository)
      → Displaces none r.endpoint_set (id ∷ []) s
      → get s.pages id ≡ some p
      → is_trial p.stewardship ≡ true
      → Committed (λ j. member j (id ∷ [])) (trial_page r (some p)) s t
      → result ≡ (returned (committed replaced (trial_page r (some p))), t)
      → PutOutcome r s result

module _ (r : PutTrialRequest) (s : Repository) (v : IsCoherent s) (ok : IsValidPut r)
    (there : has s.assets r.content_asset_id ≡ true) where
  new_outcome : Displaces none r.endpoint_set [] s → PutOutcome r s (put_new_trial r s)
  unfolding put_new_trial assert_valid_page member
  new_outcome d = elim (Option-cases (get s.pages r.page_id)) [
    | inr (p, old) ↦ taken d (ground arith) (ground arith)
    | inl new ↦
        let p = trial_page r none in
        let valid = new_trial-valid r ok in
        let free = λ (k : Text) (m : member k (keys_of p) ≡ true).
          unclaimed d k m (Option-cases (get s.endpoint_page_ids k)) in
        let (t, installed, i) = install_page_lem p s new valid free in
        fresh t d new
          (Removed-Installed (Removed-nothing s) i (Installed-IsCoherent i v new valid there free))
          (ground arith)
  ]
    where
      unclaimed :
          Displaces none r.endpoint_set [] s
          → (k : Text) → member k (keys_of (trial_page r none)) ≡ true
          → (get s.endpoint_page_ids k ≡ none) ⊎ ((j : Text) × (get s.endpoint_page_ids k ≡ some j))
          → get s.endpoint_page_ids k ≡ none
      unclaimed d k m (inl nothing) = nothing
      unclaimed d k m (inr (j, leads)) = absurd (ground (arith, d.covers k j m leads))

  over_outcome :
      (id : Text) (p : PageAggregate)
      → Displaces none r.endpoint_set (id ∷ []) s
      → get s.pages id ≡ some p
      → is_trial p.stewardship ≡ true
      → PutOutcome r s (put_over_trial r p s)
  unfolding put_over_trial assert_valid_page member retire_trials
  over_outcome id p d e is = elim (Bool-cases (eqb p.revision max_safe_integer)) [
    | inl last ↦ exhausted id p d e (ground arith) (ground arith)
    | inr room ↦
        let valid = next_trial-valid r p ok (v.valid id p e) (ground arith) in
        let q =
          replace_page id p (trial_page r (some p)) [] s v e tt tt refl (v.id_kept id p e) valid
            there (λ k j m leads. ground (arith, d.covers k j m leads)) in
        over id p q.third d e is q.effect (ground (arith, q.removed, q.retired, q.installed))
  ]

  put_found :
      (found : List Text)
      → Displaces none r.endpoint_set found s
      → PutOutcome r s (put_claimed r (some found) s)
  unfolding put_claimed require_stored_page
  put_found [] d = rw there (new_outcome d)
  put_found (id ∷ []) d =
      let (p, e, is) = d.trials.0 in rw (there, e, require_stored_page) (over_outcome id p d e is)
  put_found (one ∷ two ∷ rest) d = spread one two rest d refl

put_claimed_outcome :
    (r : PutTrialRequest) (found : List Text) (s : Repository)
    → IsCoherent s
    → IsValidPut r
    → Displaces none r.endpoint_set found s
    → PutOutcome r s (put_claimed r (some found) s)
unfolding put_claimed
put_claimed_outcome r (one ∷ two ∷ rest) s v ok d = spread one two rest d refl
put_claimed_outcome r [] s v ok d = elim (Bool-cases (has s.assets r.content_asset_id)) [
  | inl there ↦ put_found r s v ok there [] d
  | inr missing ↦ without_asset missing (ground arith)
]
put_claimed_outcome r (id ∷ []) s v ok d = elim (Bool-cases (has s.assets r.content_asset_id)) [
  | inl there ↦ put_found r s v ok there (id ∷ []) d
  | inr missing ↦ without_asset missing (ground arith)
]

-- On a coherent repository a valid trial publication throws nothing. It is refused, with nothing
-- changed, for a managed page on one of its locators, locators of two trials or more, a missing
-- asset, a used identity, or a trial at the last revision; or it installs a new trial, or the next
-- revision of the one trial that its locators displace.
pub put_outcome :
    (r : PutTrialRequest) (s : Repository)
    → IsCoherent s
    → IsValidPut r
    → PutOutcome r s (put_trial_page_aggregate r s)
unfolding put_trial_page_aggregate require_page_id require_endpoint_set require_content_asset_id
    require_time
put_outcome r s v ok =
    rw (ok.id_ok, ok.set_ok, ok.asset_ok, ok.now_ok)
      (elim (clearing none r.endpoint_set s v) [
        | inl (e, b) ↦ rw (e, put_claimed) (blocked b refl)
        | inr (found, e, d) ↦ rw e (put_claimed_outcome r found s v ok d)
      ])

-- A trial publication that breaks a requirement is thrown back with nothing changed.
pub put_refused :
    (r : PutTrialRequest) (s : Repository) → Refuses (put_trial_page_aggregate r) s ⊎ IsValidPut r
unfolding put_trial_page_aggregate require_page_id require_endpoint_set require_content_asset_id
    require_time
put_refused r s = require_then _ _ _ s _ λ id_ok. require_then _ _ _ s _ λ set_ok.
    require_then _ _ _ s _ λ asset_ok. require_then _ _ _ s _ λ now_ok. inr (record {
      id_ok = id_ok;
      set_ok = passes-none _ set_ok;
      asset_ok = asset_ok;
      now_ok = now_ok;
    })
