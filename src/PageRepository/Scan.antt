-- ===== src/PageRepository/Scan.antt =====
-- lib/page/memory-aggregate-repository.ts: the outcome of the loop over the claimed pages.
use iam_pager.Base.{
  Text, List, [], ◌∷◌, ◌++◌, Option, none, some, true, false, ◌≡◌, refl, ◌||◌, ◌&&◌, member, arith,
  All, not, inl, inr, Bool-cases, ◌⊎◌,
}
use iam_pager.Base.Map.{get}
use iam_pager.Base.Exec.{returned}
use iam_pager.Endpoint.Violation.{Distinct}
use iam_pager.Page.{is_trial}
use iam_pager.Aggregate.{PageAggregate}
use iam_pager.PageRepository.State.{
  Repository, add_id, is_skipped, trials_among, require_stored_page,
}
use iam_pager.PageRepository.Removal.{AreTrials}
use iam_pager.PageRepository.Claims.{member-add_id, Distinct-add_id}

abbrev pub AreStored : Repository → List Text → Type 0
AreStored s ids = All (λ id. (p : PageAggregate) × (get s.pages id ≡ some p)) ids

AreTrials-append :
    (s : Repository) (ids : List Text) (id : Text) (p : PageAggregate)
    → get s.pages id ≡ some p
    → is_trial p.stewardship ≡ true
    → AreTrials s ids
    → AreTrials s (ids ++ id ∷ [])
AreTrials-append s [] id p e t h = ((p, e, t), tt)
AreTrials-append s (j ∷ ids) id p e t h = (h.0, AreTrials-append s ids id p e t h.1)

AreTrials-add_id :
    (s : Repository) (ids : List Text) (id : Text) (p : PageAggregate)
    → get s.pages id ≡ some p
    → is_trial p.stewardship ≡ true
    → AreTrials s ids
    → AreTrials s (add_id id ids)
AreTrials-add_id s ids id p e t h = elim (Bool-cases (member id ids)) [
  | inl old ↦ rw old h
  | inr new ↦ rw new (AreTrials-append s ids id p e t h)
]

-- A managed page, other than the own one, is among those listed.
pub record ManagedAmong (own : Option Text) (ids : List Text) (s : Repository) : Type 0 where
  pub id : Text
  pub page : PageAggregate
  pub listed : member id ids ≡ true
  pub other : is_skipped own id ≡ false
  pub stands : get s.pages id ≡ some page
  pub is_managed : is_trial page.stewardship ≡ false

-- `found` are the trials among those listed, besides those that were found before.
pub record TrialsAmong (own : Option Text) (ids before found : List Text) (s : Repository)
    : Type 0 where
  pub distinct : Distinct found
  pub trials : AreTrials s found
  pub exact :
      (j : Text) → member j found ≡ (member j before || (member j ids && not (is_skipped own j)))

abbrev pub ScanOf : Option Text → List Text → List Text → Repository → Type 0
ScanOf own ids before s =
    ((trials_among own ids before s ≡ (returned none, s)) × ManagedAmong own ids s)
    ⊎ ((found : List Text) × (trials_among own ids before s ≡ (returned (some found), s))
        × TrialsAmong own ids before found s)

ManagedAmong-cons :
    {own : Option Text} {ids : List Text} {s : Repository} (id : Text)
    → ManagedAmong own ids s
    → ManagedAmong own (id ∷ ids) s
unfolding member
ManagedAmong-cons id m = record {
  id = m.id;
  page = m.page;
  listed = ground (arith, m.listed);
  other = m.other;
  stands = m.stands;
  is_managed = m.is_managed;
}

pub scan :
    (own : Option Text) (ids before : List Text) (s : Repository)
    → AreStored s ids
    → Distinct before
    → AreTrials s before
    → ScanOf own ids before s
unfolding trials_among member require_stored_page
scan own [] before s h d t =
    inr (before, refl, record { distinct = d; trials = t; exact = λ j. ground arith })
scan own (id ∷ ids) before s h d t = elim (Bool-cases (is_skipped own id)) [
  | inl mine ↦ skipped mine (scan own ids before s h.1 d t)
  | inr other ↦ elim (Bool-cases (is_trial h.0.0.stewardship)) [
    | inl free ↦ taken other free (
        scan own ids (add_id id before) s h.1 (Distinct-add_id id before d)
          (AreTrials-add_id s before id h.0.0 h.0.1 free t))
    | inr held ↦ inl (
      ground (arith, h.0.1),
      record {
        id = id;
        page = h.0.0;
        listed = ground arith;
        other = other;
        stands = h.0.1;
        is_managed = held;
      },
    )
  ]
]
  where
    skipped : is_skipped own id ≡ true → ScanOf own ids before s → ScanOf own (id ∷ ids) before s
    skipped mine (inl (e, m)) = inl (ground arith, ManagedAmong-cons id m)
    skipped mine (inr (found, e, f)) = inr (
      found,
      ground arith,
      record { distinct = f.distinct; trials = f.trials; exact = λ j. ground (arith, f.exact j) },
    )

    taken :
        is_skipped own id ≡ false
        → is_trial h.0.0.stewardship ≡ true
        → ScanOf own ids (add_id id before) s
        → ScanOf own (id ∷ ids) before s
    taken other free (inl (e, m)) = inl (ground (arith, h.0.1), ManagedAmong-cons id m)
    taken other free (inr (found, e, f)) = inr (
      found,
      ground (arith, h.0.1),
      record {
        distinct = f.distinct;
        trials = f.trials;
        exact = λ j. ground (arith, f.exact j, member-add_id j id before);
      },
    )
