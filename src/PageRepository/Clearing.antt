-- ===== src/PageRepository/Clearing.antt =====
-- lib/page/memory-aggregate-repository.ts: which trials an endpoint set displaces, and when a
-- managed page stands in its way.
use iam_pager.Base.{
  Text, List, [], ◌∷◌, Option, none, some, true, false, ◌≡◌, ◌||◌, member, arith, map, inl, inr,
  ◌⊎◌,
}
use iam_pager.Base.Map.{get}
use iam_pager.Base.Exec.{returned}
use iam_pager.Endpoint.{PageEndpointSet, bindings_of, key_of}
use iam_pager.Endpoint.Violation.{Distinct}
use iam_pager.Page.{is_trial}
use iam_pager.Aggregate.{PageAggregate}
use iam_pager.PageRepository.State.{Repository, claims, claimed_page_ids, is_skipped, trials_among}
use iam_pager.PageRepository.Invariant.{IsCoherent}
use iam_pager.PageRepository.Removal.{AreTrials}
use iam_pager.PageRepository.Claims.{claims-cover, claims-AreClaimed, AreClaimed}
use iam_pager.PageRepository.Scan.{AreStored, ScanOf, scan}

abbrev pub set_keys : PageEndpointSet → List Text
set_keys set = map key_of (bindings_of set)

-- A locator of the set leads to a managed page other than the own one.
pub record IsBlocked (own : Option Text) (set : PageEndpointSet) (s : Repository) : Type 0 where
  pub key : Text
  pub id : Text
  pub page : PageAggregate
  pub wanted : member key (set_keys set) ≡ true
  pub leads : get s.endpoint_page_ids key ≡ some id
  pub other : is_skipped own id ≡ false
  pub stands : get s.pages id ≡ some page
  pub is_managed : is_trial page.stewardship ≡ false

-- The trials that the set displaces: each holds a locator of the set, and every locator of the set
-- that leads somewhere leads to one of them or to the own page.
pub record Displaces (own : Option Text) (set : PageEndpointSet) (found : List Text)
    (s : Repository) : Type 0 where
  pub distinct : Distinct found
  pub trials : AreTrials s found
  pub covers :
      (k id : Text)
      → member k (set_keys set) ≡ true
      → get s.endpoint_page_ids k ≡ some id
      → (member id found || is_skipped own id) ≡ true
  pub claimed : AreClaimed s.endpoint_page_ids (set_keys set) found
  pub others : (j : Text) → is_skipped own j ≡ true → member j found ≡ false

AreStored-pointwise :
    (s : Repository) (ids : List Text)
    → ((id : Text) → member id ids ≡ true → (p : PageAggregate) × (get s.pages id ≡ some p))
    → AreStored s ids
unfolding member
AreStored-pointwise s [] h = tt
AreStored-pointwise s (id ∷ ids) h =
    (h id (ground arith), AreStored-pointwise s ids (λ j m. h j (ground arith)))

abbrev pub ClearingOf : Option Text → PageEndpointSet → Repository → Type 0
ClearingOf own set s =
    ((trials_among own (claimed_page_ids set s) [] s ≡ (returned none, s)) × IsBlocked own set s)
    ⊎ ((found : List Text) × (trials_among own (claimed_page_ids set s) [] s
          ≡ (returned (some found), s))
        × Displaces own set found s)

-- In a coherent repository the loop throws nothing: either a managed page blocks the set, or the
-- trials that it displaces are found.
pub clearing :
    (own : Option Text) (set : PageEndpointSet) (s : Repository)
    → IsCoherent s
    → ClearingOf own set s
unfolding claimed_page_ids member
clearing own set s v = sort_out (scan own ids [] s (AreStored-pointwise s ids stored) tt tt)
  where
    ids : List Text
    ids = claims s.endpoint_page_ids (set_keys set) []

    claimed : AreClaimed s.endpoint_page_ids (set_keys set) ids
    claimed =
        claims-AreClaimed s.endpoint_page_ids (set_keys set) (set_keys set) [] (λ k m. m)
          (λ id m. absurd (ground arith))

    stored : (id : Text) → member id ids ≡ true → (p : PageAggregate) × (get s.pages id ≡ some p)
    stored id m =
        let (k, wanted, leads) = claimed id m in
        let (p, stands, has_key) = v.owned k id leads in (p, stands)

    sort_out : ScanOf own ids [] s → ClearingOf own set s
    sort_out (inl (e, m)) =
        let (k, wanted, leads) = claimed m.id m.listed in
        inl (
          e,
          record {
            key = k;
            id = m.id;
            page = m.page;
            wanted = wanted;
            leads = leads;
            other = m.other;
            stands = m.stands;
            is_managed = m.is_managed;
          },
        )
    sort_out (inr (found, e, f)) = inr (
      found,
      e,
      record {
        distinct = f.distinct;
        trials = f.trials;
        covers = λ k id wanted leads. ground (
          arith,
          f.exact id,
          claims-cover s.endpoint_page_ids (set_keys set) [] k id wanted leads,
        );
        claimed = λ j m. claimed j (ground (arith, f.exact j));
        others = λ j own_one. ground (arith, f.exact j);
      },
    )
