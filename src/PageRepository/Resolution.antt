-- ===== src/PageRepository/Resolution.antt =====
-- lib/page/memory-aggregate-repository.ts: what locators lead to.
use iam_pager.Base.{
  Text, List, [], ◌∷◌, none, some, true, false, ◌≡◌, refl, ◌==◌, member, arith, inl, inr, ◌⊎◌, map,
  Option-cases, Bool-cases,
}
use iam_pager.Base.Map.{get}
use iam_pager.Base.Exec.{returned}
use iam_pager.Locator.{Locator, locator_key}
use iam_pager.Endpoint.{PageEndpointBinding, bindings_of, key_of}
use iam_pager.Aggregate.{PageAggregate}
use iam_pager.PageRepository.State.{Repository, keys_of, require_stored_page}
use iam_pager.PageRepository.Requests.{CreateManagedRequest, CommitOutcome, committed}
use iam_pager.PageRepository.Reads.{find_binding, resolve_page_id, resolve_page_endpoint}
use iam_pager.PageRepository.Creation.{created_page, create_managed_page_aggregate}
use iam_pager.PageRepository.Invariant.{IsCoherent}
use iam_pager.PageRepository.NewPages.{CreateOutcome, create_outcome, create_refused}

find_binding_lem :
    (key : Text) (bs : List PageEndpointBinding)
    → member key (map key_of bs) ≡ true
    → (b : PageEndpointBinding) × (find_binding key bs ≡ some b) × (key_of b ≡ key)
unfolding find_binding member
find_binding_lem key [] m = absurd (ground arith)
find_binding_lem key (b ∷ bs) m = elim (Bool-cases (key_of b == key)) [
  | inl here ↦ (b, ground arith, ground arith)
  | inr later ↦ let (c, e, k) = find_binding_lem key bs (ground arith) in (c, ground (arith, e), k)
]

-- A locator resolves to the page and the binding that carry its key.
pub record ResolvesTo (l : Locator) (p : PageAggregate) (b : PageEndpointBinding) (s : Repository)
    : Type 0 where
  pub stands : get s.pages p.page_id ≡ some p
  pub bound : find_binding (locator_key l) (bindings_of p.endpoint_set) ≡ some b
  pub same_key : key_of b ≡ locator_key l
  pub answer : resolve_page_endpoint l s ≡ (returned (some (record { page = p; endpoint = b })), s)

-- A locator that a standing page carries resolves to that page.
pub resolve_carried :
    (l : Locator) (p : PageAggregate) (s : Repository)
    → IsCoherent s
    → get s.pages p.page_id ≡ some p
    → member (locator_key l) (keys_of p) ≡ true
    → (b : PageEndpointBinding) × ResolvesTo l p b s
unfolding resolve_page_endpoint require_stored_page
resolve_carried l p s v stands m =
    let (b, bound, same_key) = find_binding_lem (locator_key l) (bindings_of p.endpoint_set) m in
    let leads = v.indexed p.page_id p (locator_key l) stands m in
    (
      b,
      record {
        stands = stands;
        bound = bound;
        same_key = same_key;
        answer = ground (arith, leads, stands, bound);
      },
    )

-- On a coherent repository resolving throws nothing: a locator resolves to the standing page that
-- carries its key, or, if no standing page does, to nothing.
pub resolve_total :
    (l : Locator) (s : Repository)
    → IsCoherent s
    → ((p : PageAggregate) × (b : PageEndpointBinding) × ResolvesTo l p b s)
      ⊎ ((resolve_page_endpoint l s ≡ (returned none, s))
          × ((id : Text) (p : PageAggregate)
              → get s.pages id ≡ some p
              → member (locator_key l) (keys_of p) ≡ false))
unfolding resolve_page_endpoint
resolve_total l s v = elim (Option-cases (get s.endpoint_page_ids (locator_key l))) [
  | inl nothing ↦ inr (
    rw (nothing, resolve_page_id) refl,
    λ id p e. ground (arith, v.indexed id p (locator_key l) e),
  )
  | inr (id, leads) ↦
      let (p, stands, has_key) = v.owned (locator_key l) id leads in
      let its = v.id_kept id p stands in
      let (b, found) = resolve_carried l p s v (ground arith) has_key in inl (p, b, found)
]

-- A creation that answers with a page makes each locator of that page resolve to it.
pub resolve-create :
    (r : CreateManagedRequest) (l : Locator) (s t : Repository) (o : CommitOutcome)
    (p : PageAggregate)
    → IsCoherent s
    → create_managed_page_aggregate r s ≡ (returned (committed o p), t)
    → member (locator_key l) (keys_of p) ≡ true
    → (b : PageEndpointBinding) × ResolvesTo l p b t
resolve-create r l s t o p v e m = elim (create_refused r s) [
  | inl (what, f) ↦ absurd (ground arith)
  | inr ok ↦ from_outcome (create_outcome r s v ok)
]
  where
    from_outcome :
        CreateOutcome r s (create_managed_page_aggregate r s)
        → (b : PageEndpointBinding) × ResolvesTo l p b t
    from_outcome (CreateOutcome.blocked _ f) = absurd (ground arith)
    from_outcome (CreateOutcome.taken _ f) = absurd (ground arith)
    from_outcome (CreateOutcome.without_asset _ f) = absurd (ground arith)
    from_outcome (CreateOutcome.done found u d new c f) =
        let same_page : created_page r ≡ p = ground arith in
        let same_state : u ≡ t = ground arith in
        let here : get u.pages (created_page r).page_id ≡ some (created_page r) =
          ground (arith, c.pages_after (created_page r).page_id) in
        rw (← same_page, ← same_state)
          (resolve_carried l (created_page r) u c.coherent here (rw (← same_page) at m))
