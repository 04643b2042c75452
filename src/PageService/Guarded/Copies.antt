-- ===== src/PageService/Guarded/Copies.antt =====
-- lib/page/service.ts: duplicating keeps what the repository's calls keep.
use iam_pager.Base.{Text, ℕ, zero, suc, List, Option, none, some, ◌≡◌, refl, subst, sym}
use iam_pager.Base.Exec.{Outcome, returned, thrown}
use iam_pager.Content.{Date}
use iam_pager.Locator.{Locator}
use iam_pager.Endpoint.{PageEndpointSet}
use iam_pager.Endpoint.Planner.{planned, plan, PlanFailure, PlannerFault, plan_unless}
use iam_pager.Aggregate.{PageAggregate}
use iam_pager.PageRepository.State.{Repository}
use iam_pager.PageRepository.Requests.{Reply, committed, rejected, CommitOutcome}
use iam_pager.PageService.Model.{
  Setting, DuplicateRequest, MaterializedPage, ContentTypeHandler, ServiceOutcome,
  ManagedPageInspection,
}
use iam_pager.PageService.Call.{Call, Stop}
use iam_pager.PageService.Endpoints.{canonical_set, canonical_inline_endpoint_set, inline_at}
use iam_pager.PageService.Duplicating.{
  Copy, duplicated, after_duplicate, concluded_or, duplicate_reply, duplicate_request,
  duplicate_attempts, duplicate_to, named, copied_or, name_attempts, duplicate_by_name,
  duplicate_into, duplicate_managed,
}
use iam_pager.PageService.Keeps.{
  Keeps, Any, bind-Keeps, then-Keeps, pure-Keeps, stop-Keeps, catching-Keeps, changes-Keeps,
  unless-Keeps, given-Keeps, anyway, post-Keeps, draw_name-Keeps,
}
use iam_pager.PageService.Steps.{
  prepare_intent-Keeps, operation_time-Keeps, generate_page_id-Keeps, inspection-Keeps, shown-Keeps,
}
use iam_pager.PageService.Guarded.{
  Powers, require_user-Keeps, require_authority-Keeps, find_writable-Keeps,
}
use iam_pager.PageService.Guarded.Edits.{require_revision-Keeps, require_handler-Keeps}

module _ {I : Repository → Type 0} (g : Setting) where
  duplicated-Keeps :
      (outcome : CommitOutcome) (page : PageAggregate) → Keeps I (duplicated g outcome page) Any
  unfolding duplicated
  duplicated-Keeps outcome page =
      shown-Keeps page (λ m. bind-Keeps (inspection-Keeps g m) (λ shown _. pure-Keeps _ tt))

  concluded_or-Keeps :
      (ending : Option (Outcome Stop Copy)) {again : Call Copy}
      → Keeps I again Any
      → Keeps I (concluded_or ending again) Any
  unfolding concluded_or
  concluded_or-Keeps none h = h
  concluded_or-Keeps (some (returned copy)) h = pure-Keeps _ tt
  concluded_or-Keeps (some (thrown e)) h = stop-Keeps _

  duplicate_reply-Keeps :
      (reply : Reply) {again : Call Copy}
      → Keeps I again Any
      → Keeps I (duplicate_reply g reply again) Any
  unfolding duplicate_reply
  duplicate_reply-Keeps (committed outcome page) h = duplicated-Keeps outcome page
  duplicate_reply-Keeps (rejected reason) h = concluded_or-Keeps (after_duplicate reason) h

  copied_or-Keeps :
      (copy : Copy) {again : Call (ServiceOutcome × ManagedPageInspection)}
      → Keeps I again Any
      → Keeps I (copied_or copy again) Any
  unfolding copied_or
  copied_or-Keeps (some made) h = pure-Keeps _ tt
  copied_or-Keeps none h = h

  canonical_unless-Keeps :
      (fault : Option PlannerFault) (reason : Option PlanFailure) (intent : PageEndpointSet)
      → Keeps I (canonical_set (plan_unless fault reason intent)) (λ set. set ≡ planned intent)
  unfolding canonical_set
  canonical_unless-Keeps (some fault) reason intent = stop-Keeps _
  canonical_unless-Keeps none (some reason) intent = stop-Keeps _
  canonical_unless-Keeps none none intent = pure-Keeps _ refl

  canonical_inline-Keeps :
      (locator : Locator) (content_type : Text)
      → Keeps I
          (canonical_inline_endpoint_set g locator content_type)
          (λ set. set ≡ planned (inline_at locator))
  unfolding canonical_inline_endpoint_set plan
  canonical_inline-Keeps locator content_type =
      bind-Keeps (given-Keeps _ _) (λ handler _. canonical_unless-Keeps _ _ (inline_at locator))

  module _ {Free : Text → Type 0} {Permitted : PageEndpointSet → Type 0} (r : DuplicateRequest)
      (powers : Powers I Free Permitted g r.actor) where
    attempts-Keeps :
        (n : ℕ) (source : PageAggregate) {destination : Call PageEndpointSet} (now : Date)
        → Keeps I destination Permitted
        → Keeps I (duplicate_attempts n g r source destination now) Any
    unfolding duplicate_attempts
    attempts-Keeps zero source now leads = stop-Keeps _
    attempts-Keeps (suc n) source now leads = bind-Keeps (generate_page_id-Keeps g) (λ page_id _.
        bind-Keeps leads (λ set permitted.
          bind-Keeps
            (changes-Keeps _
              (powers.duplicates (duplicate_request r source page_id set now) refl permitted))
            (λ reply _. duplicate_reply-Keeps reply (attempts-Keeps n source now leads))))

    duplicate_to-Keeps :
        (source : MaterializedPage) (intent : PageEndpointSet)
        → Keeps I (duplicate_to g r source intent) Any
    unfolding duplicate_to
    duplicate_to-Keeps source intent =
        bind-Keeps (catching-Keeps (anyway (prepare_intent-Keeps g intent _)) (λ e. stop-Keeps _))
          (λ set _. then-Keeps (require_authority-Keeps g r.actor powers set) (λ permitted.
            bind-Keeps (operation_time-Keeps g) (λ now _.
              bind-Keeps
                (attempts-Keeps g.max_page_id_attempts source.page now (pure-Keeps set permitted))
                (λ copy _. anyway (given-Keeps copy _)))))

    destination-Keeps :
        (source : PageEndpointSet) (name content_type : Text)
        → Permitted source
        → Keeps I
            (canonical_inline_endpoint_set g (named source.canonical.locator name) content_type)
            Permitted
    destination-Keeps source name content_type permitted =
        post-Keeps (canonical_inline-Keeps _ content_type) (λ set same.
          subst Permitted (sym same) (powers.plans _ (powers.copies source name permitted)))

    names-Keeps :
        (n : ℕ) (source : MaterializedPage) (used : List Text) (now : Date)
        → Permitted source.page.endpoint_set
        → Keeps I (name_attempts n g r source used now) Any
    unfolding name_attempts
    names-Keeps zero source used now permitted = stop-Keeps _
    names-Keeps (suc n) source used now permitted = bind-Keeps (draw_name-Keeps _) (λ name _.
        then-Keeps (unless-Keeps _ _) (λ _. then-Keeps (unless-Keeps _ _) (λ _.
          bind-Keeps
            (attempts-Keeps g.max_page_id_attempts source.page now
              (destination-Keeps source.page.endpoint_set name _ permitted))
            (λ copy _. copied_or-Keeps copy (names-Keeps n source _ now permitted)))))

    by_name-Keeps :
        (source : MaterializedPage) (handler : ContentTypeHandler)
        → Permitted source.page.endpoint_set
        → Keeps I (duplicate_by_name g r source handler) Any
    unfolding duplicate_by_name
    by_name-Keeps source handler permitted = then-Keeps (unless-Keeps _ _) (λ _.
        bind-Keeps (operation_time-Keeps g)
          (λ now _. names-Keeps g.max_page_name_attempts source _ now permitted))

    into-Keeps :
        (source : MaterializedPage) (handler : ContentTypeHandler) (set : Option PageEndpointSet)
        → Permitted source.page.endpoint_set
        → Keeps I (duplicate_into g r source handler set) Any
    unfolding duplicate_into
    into-Keeps source handler (some intent) permitted = duplicate_to-Keeps source intent
    into-Keeps source handler none permitted = by_name-Keeps source handler permitted

    pub duplicate-Keeps : Keeps I (duplicate_managed g r) Any
    unfolding duplicate_managed
    duplicate-Keeps = then-Keeps (require_user-Keeps g r.actor powers) (λ _.
        then-Keeps (require_revision-Keeps r.expected_revision) (λ _.
          bind-Keeps (find_writable-Keeps g r.actor powers r.page_id) (λ source usable.
            then-Keeps (unless-Keeps _ _) (λ _.
              bind-Keeps (require_handler-Keeps g _)
                (λ handler _. into-Keeps source handler r.endpoint_set usable.1)))))
