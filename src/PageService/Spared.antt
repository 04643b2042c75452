-- ===== src/PageService/Spared.antt =====
-- lib/page/service.ts: the pages that a caller's requests cannot change.
use iam_pager.Base.{
  Text, List, [], ◌∷◌, Option, none, some, true, false, ◌≡◌, refl, ◌⊎◌, arith, All, member, ◌==◌,
  Bool, text_dec, any, ◌||◌, Bool-cases, inl, inr,
}
use iam_pager.Base.Map.{get}
use iam_pager.Page.{is_trial}
use iam_pager.Endpoint.{PageEndpointSet}
use iam_pager.Aggregate.{PageAggregate, ExternalContentMissingState}
use iam_pager.PageRepository.State.{Repository, is_owned_by, keys_of}
use iam_pager.PageRepository.Invariant.{IsCoherent}
use iam_pager.PageRepository.Effects.{Effect, store-Effect, put-Effect, create-Effect}
use iam_pager.PageRepository.Effects.Edits.{update-Effect, duplicate-Effect, delete-Effect}
use iam_pager.PageRepository.Effects.Observed.{with_health, observe-IsObservation}
use iam_pager.PageService.Guarded.Visits.{Observes}
use iam_pager.PageService.Model.{Setting, UserPageActor}
use iam_pager.PageService.Call.{World}
use iam_pager.PageService.Pages.{api_write_blocked}
use iam_pager.PageService.Requests.{
  Request, caller, is_visit, perform, perform_all, Empowers, Enables-visit, Enables-other,
  perform_keeps,
}

-- A guest may write no managed page; a user only the user's own, and with an API key only those
-- that are not locked.
abbrev pub IsBarred : PageAggregate → Option UserPageActor → Type 0
IsBarred q none = Unit
IsBarred q (some user) =
    (is_owned_by user.user_id q.stewardship ≡ false) ⊎ (api_write_blocked user q ≡ true)

module _ (id : Text) (q : PageAggregate) (managed : is_trial q.stewardship ≡ false) where
  -- The page stands, with this observation of its content.
  abbrev StandsAs : Option ExternalContentMissingState → Repository → Type 0
  StandsAs missing s = IsCoherent s × (get s.pages id ≡ some (with_health missing q))

  abbrev Stands : Repository → Type 0
  Stands s = (missing : Option ExternalContentMissingState) × StandsAs missing s

  abbrev Another : Text → Type 0
  Another page_id = (page_id == id) ≡ false

  abbrev Anything : UserPageActor → PageEndpointSet → Type 0
  Anything user set = Unit

  observed-Stands : Observes Stands
  observed-Stands r s (missing, (v, stands)) =
      let o = observe-IsObservation r s v in
      let (later, at) = o.after id (with_health missing q) stands in (later, (o.coherent, at))

  module _ (missing : Option ExternalContentMissingState) where
    Effect-StandsAs :
        {touched : Text → Bool} {New : PageAggregate → Type 0} {s t : Repository}
        → Effect touched New s t
        → StandsAs missing s
        → touched id ≡ false
        → StandsAs missing t
    Effect-StandsAs h i free = (h.coherent, h.spares id (with_health missing q) i.1 managed free)

    found-Another :
        (user : UserPageActor) (page_id : Text) (page : PageAggregate) (s : Repository)
        → IsBarred q (some user)
        → StandsAs missing s
        → get s.pages page_id ≡ some page
        → is_owned_by user.user_id page.stewardship ≡ true
        → api_write_blocked user page ≡ false
        → Another page.page_id
    found-Another user page_id page s barred i e own writable =
        let kept = (i.0).id_kept page_id page e in
        elim (text_dec page.page_id id) [
          | no other ↦ ground arith
          | yes same ↦ let is : page ≡ with_health missing q = ground arith in absurd (ground arith)
        ]

    barred-Empowers :
        (g : Setting) (who : Option UserPageActor)
        → IsBarred q who
        → Empowers (StandsAs missing) Another Anything g who
    barred-Empowers g none barred = (
      λ a s i. Effect-StandsAs (store-Effect {New = λ p. Unit} a s i.0) i refl,
      λ r s i. Effect-StandsAs (put-Effect r s i.0) i refl,
    )
    barred-Empowers g (some user) barred = record {
      stores = λ a s i. Effect-StandsAs (store-Effect {New = λ p. Unit} a s i.0) i refl;
      creates = λ r own set s i. Effect-StandsAs (create-Effect r s i.0) i refl;
      updates = λ r own other set s i. Effect-StandsAs (update-Effect r s i.0) i other;
      duplicates = λ r own set s i. Effect-StandsAs (duplicate-Effect r s i.0) i refl;
      deletes =
          λ r own other s i. Effect-StandsAs (delete-Effect {New = λ p. Unit} r s i.0) i other;
      finds = λ page_id page s i e own. (found-Another user page_id page s barred i e own, tt);
      has_authority = λ set taken free. tt;
      plans = λ set h. tt;
      renames = λ set name h. tt;
      copies = λ set name h. tt;
    }

  -- The page as it ends, and what has been observed of its content: something new only by a visit
  abbrev Ends : Option ExternalContentMissingState → Bool → World → Type 0
  Ends missing visited w =
      (later : Option ExternalContentMissingState) × StandsAs later w.repository
      × ((later ≡ missing) ⊎ (visited ≡ true))

  after_visit :
      (earlier missing : Option ExternalContentMissingState) (here later : Bool) (w : World)
      → here ≡ true
      → Ends earlier later w
      → Ends missing (here || later) w
  after_visit earlier missing here later w e (last, stands, why) =
      (last, stands, inr (ground arith))

  after_other :
      (missing : Option ExternalContentMissingState) (here later : Bool) (w : World)
      → Ends missing later w
      → Ends missing (here || later) w
  after_other missing here later w (last, stands, inl same) = (last, stands, inl same)
  after_other missing here later w (last, stands, inr visited) = (last, stands, inr (ground arith))

  visit-Stands :
      (g : Setting) (request : Request) (w : World)
      → is_visit request ≡ true
      → Stands w.repository
      → Stands (perform g request w).repository
  visit-Stands g request w visit i =
      perform_keeps Stands Another Anything g request w
        (Enables-visit Stands Another Anything g request visit observed-Stands) i

  other-StandsAs :
      (missing : Option ExternalContentMissingState) (g : Setting) (request : Request) (w : World)
      → is_visit request ≡ false
      → IsBarred q (caller request)
      → StandsAs missing w.repository
      → StandsAs missing (perform g request w).repository
  other-StandsAs missing g request w other barred i =
      perform_keeps (StandsAs missing) Another Anything g request w
        (Enables-other (StandsAs missing) Another Anything g request other
          (barred-Empowers missing g (caller request) barred))
        i

  perform_all-Ends :
      (requests : List (Setting × Request)) (w : World)
      (missing : Option ExternalContentMissingState)
      → All (λ call. IsBarred q (caller call.1)) requests
      → StandsAs missing w.repository
      → Ends missing (any (λ call. is_visit call.1) requests) (perform_all requests w)
  unfolding perform_all
  perform_all-Ends [] w missing barred i = (missing, i, inl refl)
  perform_all-Ends ((g, request) ∷ rest) w missing barred i = elim (Bool-cases (is_visit request)) [
    | inl visit ↦
        let (later, stands) = visit-Stands g request w visit (missing, i) in
        after_visit later missing (is_visit request) (any (λ call. is_visit call.1) rest)
          (perform_all rest (perform g request w)) visit
          (perform_all-Ends rest (perform g request w) later barred.1 stands)
    | inr other ↦
        after_other missing (is_visit request) (any (λ call. is_visit call.1) rest)
          (perform_all rest (perform g request w))
          (perform_all-Ends rest (perform g request w) missing barred.1
            (other-StandsAs missing g request w other barred.0 i))
  ]

-- From a coherent repository, any sequence of calls leaves a managed page as it is and each of its
-- locators leading to it, up to what is observed of its external content, where every call that
-- writes pages is a guest's, or a user's who does not own the page, or comes by an API key while the
-- owner has locked the page. Deliveries and views, by anybody, may stand among the calls; without
-- any, the observation is unchanged too. This holds whatever the calls answer or throw, and whatever
-- the handlers, providers, generators and reservations are.
pub perform_all-spares :
    (requests : List (Setting × Request)) (w : World) (id : Text) (q : PageAggregate)
    → IsCoherent w.repository
    → get (w.repository).pages id ≡ some q
    → is_trial q.stewardship ≡ false
    → All (λ call. IsBarred q (caller call.1)) requests
    → (missing : Option ExternalContentMissingState) × (get
          ((perform_all requests w).repository).pages
          id
        ≡ some (with_health missing q))
      × ((missing ≡ q.external_missing) ⊎ (any (λ call. is_visit call.1) requests ≡ true))
      × ((k : Text)
          → member k (keys_of q) ≡ true
          → get ((perform_all requests w).repository).endpoint_page_ids k ≡ some id)
perform_all-spares requests w id q v e managed barred =
    let (missing, (coherent, stands), why) =
      perform_all-Ends id q managed requests w q.external_missing barred (v, e) in
    (missing, stands, why, λ k m. coherent.indexed id (with_health missing q) k stands m)
