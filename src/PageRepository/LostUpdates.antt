-- ===== src/PageRepository/LostUpdates.antt =====
-- lib/page/memory-aggregate-repository.ts: revisions guard against lost updates.
use iam_pager.Base.{
  Text, ◌+◌, none, some, ◌≡◌, refl, arith, inl, inr, ◌==◌, member, text_dec, if◌then◌else◌,
  Option-cases,
}
use iam_pager.Locator.{Locator, locator_key}
use iam_pager.Base.Map.{get}
use iam_pager.Base.Exec.{returned}
use iam_pager.Aggregate.{PageAggregate}
use iam_pager.PageRepository.State.{Repository, keys_of, require_stored_page}
use iam_pager.PageRepository.Requests.{
  UpdateManagedRequest, DeleteManagedRequest, CommitOutcome, committed, deleted,
}
use iam_pager.PageRepository.Changes.{
  updated_page, update_managed_page_aggregate, delete_managed_page_aggregate,
}
use iam_pager.PageRepository.Invariant.{IsCoherent, Removed}
use iam_pager.PageRepository.Reads.{resolve_page_id, resolve_page_endpoint}
use iam_pager.PageRepository.Revisions.{IsCurrent}
use iam_pager.PageRepository.Updates.{UpdateOutcome, update_outcome, update_refused}
use iam_pager.PageRepository.Deletion.{DeleteOutcome, delete_outcome, delete_refused}

-- What an update that answers with a page has done
pub record HasUpdated (r : UpdateManagedRequest) (p : PageAggregate) (s t : Repository)
    : Type 0 where
  pub before : PageAggregate
  pub current : IsCurrent r.page_id r.owner_user_id r.expected_revision before s
  pub next : updated_page r before ≡ p
  pub stands : get t.pages r.page_id ≡ some p
  pub coherent : IsCoherent t

update_done :
    (r : UpdateManagedRequest) (s t : Repository) (o : CommitOutcome) (p : PageAggregate)
    → IsCoherent s
    → update_managed_page_aggregate r s ≡ (returned (committed o p), t)
    → HasUpdated r p s t
update_done r s t o p v e = elim (update_refused r s) [
  | inl (what, f) ↦ absurd (ground arith)
  | inr ok ↦ from_outcome (update_outcome r s v ok)
]
  where
    from_outcome : UpdateOutcome r s (update_managed_page_aggregate r s) → HasUpdated r p s t
    from_outcome (UpdateOutcome.unknown _ f) = absurd (ground arith)
    from_outcome (UpdateOutcome.conflicting _ _ _ _ f) = absurd (ground arith)
    from_outcome (UpdateOutcome.exhausted _ _ _ f) = absurd (ground arith)
    from_outcome (UpdateOutcome.without_asset _ _ _ f) = absurd (ground arith)
    from_outcome (UpdateOutcome.blocked _ _ _ f) = absurd (ground arith)
    from_outcome (UpdateOutcome.done q found u k d c f) =
        let same_page : updated_page r q ≡ p = ground arith in
        let same_state : u ≡ t = ground arith in
        let its = v.id_kept r.page_id q k.stands in
        let here : get u.pages r.page_id ≡ some (updated_page r q) =
          ground (arith, c.pages_after r.page_id) in
        record {
          before = q;
          current = k;
          next = same_page;
          stands = ground arith;
          coherent = rw (← same_state) c.coherent;
        }

-- An update that succeeds raises the revision by one over the one that it expected, and leaves the
-- identity, the steward and the time of creation as they were.
update-revision :
    (r : UpdateManagedRequest) (s t : Repository) (o : CommitOutcome) (p : PageAggregate)
    → IsCoherent s
    → update_managed_page_aggregate r s ≡ (returned (committed o p), t)
    → (before : PageAggregate) × (get s.pages r.page_id ≡ some before)
      × (p.revision ≡ r.expected_revision + 1)
      × (p.stewardship ≡ before.stewardship)
      × (p.created_at ≡ before.created_at)
      × (get t.pages r.page_id ≡ some p)
update-revision r s t o p v e =
    let d = update_done r s t o p v e in
    let k = d.current in
    (
      d.before,
      k.stands,
      ground (arith, d.next, k.expected),
      ground (arith, d.next),
      ground (arith, d.next),
      d.stands,
    )

-- Of two updates that expect the same revision of a page, whoever asks for them, at most one
-- succeeds: after the first the second writes nothing.
pub update_once :
    (first second : UpdateManagedRequest) (s t : Repository) (o : CommitOutcome) (p : PageAggregate)
    → IsCoherent s
    → update_managed_page_aggregate first s ≡ (returned (committed o p), t)
    → second.page_id ≡ first.page_id
    → second.expected_revision ≡ first.expected_revision
    → (update_managed_page_aggregate second t).1 ≡ t
update_once first second s t o p v e same_page same_revision =
    let d = update_done first s t o p v e in
    let (before, stands, raised, _, _, now_stands) = update-revision first s t o p v e in
    let at_id : get t.pages second.page_id ≡ some p = rw same_page now_stands in
    elim (update_refused second t) [
      | inl (what, f) ↦ rw f refl
      | inr ok ↦ from_outcome at_id raised (update_outcome second t d.coherent ok)
    ]
  where
    from_outcome :
        get t.pages second.page_id ≡ some p
        → p.revision ≡ first.expected_revision + 1
        → UpdateOutcome second t (update_managed_page_aggregate second t)
        → (update_managed_page_aggregate second t).1 ≡ t
    from_outcome at_id raised (UpdateOutcome.unknown _ f) = rw f refl
    from_outcome at_id raised (UpdateOutcome.conflicting _ _ _ _ f) = rw f refl
    from_outcome at_id raised (UpdateOutcome.exhausted _ _ _ f) = rw f refl
    from_outcome at_id raised (UpdateOutcome.without_asset _ _ _ f) = rw f refl
    from_outcome at_id raised (UpdateOutcome.blocked _ _ _ f) = rw f refl
    from_outcome at_id raised (UpdateOutcome.done q found u k d c f) =
        absurd (ground (arith, k.stands, k.expected))

-- Without the page `p`, its locators lead to nothing, and any other locator where it led.
Removed-resolves :
    (id : Text) (p : PageAggregate) (l : Locator) (s t : Repository)
    → IsCoherent s
    → get s.pages id ≡ some p
    → Removed (λ j. id == j) s t
    → (resolve_page_endpoint l t).0 ≡ (
        if member (locator_key l) (keys_of p) then returned none else (resolve_page_endpoint l s).0)
unfolding resolve_page_endpoint resolve_page_id require_stored_page
Removed-resolves id p l s t v stands q =
    let key = locator_key l in
    elim (Option-cases (get s.endpoint_page_ids key)) [
      | inl nothing ↦ ground (arith, q.index_after key, nothing)
      | inr (j, leads) ↦
          let (x, there, has_key) = v.owned key j leads in
          elim (text_dec id j) [
            | yes same ↦ ground (arith, q.index_after key, leads, has_key)
            | no other ↦
                ground (arith, q.index_after key, q.pages_after j, leads, v.indexed id p key stands)
          ]
    ]

-- From `s` to `t` the locators of `p` have been given up, and no others.
abbrev pub Releases : PageAggregate → Repository → Repository → Type 0
Releases p s t =
    (l : Locator)
    → (resolve_page_endpoint l t).0 ≡ (
        if member (locator_key l) (keys_of p) then returned none else (resolve_page_endpoint l s).0)

-- What a deletion leaves behind, on a coherent repository: the page is gone, each of its locators
-- resolves to nothing, and any other locator resolves to what it did before.
pub delete_frees :
    (r : DeleteManagedRequest) (s t : Repository)
    → IsCoherent s
    → delete_managed_page_aggregate r s ≡ (returned deleted, t)
    → (p : PageAggregate) × (get s.pages r.page_id ≡ some p)
      × (get t.pages r.page_id ≡ none)
      × Releases p s t
delete_frees r s t v e = elim (delete_refused r s) [
  | inl (what, f) ↦ absurd (ground arith)
  | inr ok ↦ from_outcome (delete_outcome r s v ok)
]
  where
    from_outcome :
        DeleteOutcome r s (delete_managed_page_aggregate r s)
        → (p : PageAggregate) × (get s.pages r.page_id ≡ some p)
          × (get t.pages r.page_id ≡ none)
          × Releases p s t
    from_outcome (DeleteOutcome.unknown _ f) = absurd (ground arith)
    from_outcome (DeleteOutcome.conflicting _ _ _ _ f) = absurd (ground arith)
    from_outcome (DeleteOutcome.done p u k q w f) =
        let same : u ≡ t = ground arith in
        rw (← same) (
          p,
          k.stands,
          ground (arith, q.pages_after r.page_id),
          λ l. Removed-resolves r.page_id p l s u v k.stands q,
        )
