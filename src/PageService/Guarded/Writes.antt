-- ===== src/PageService/Guarded/Writes.antt =====
-- lib/page/service.ts: creating keeps what the repository's calls keep.
use iam_pager.Base.{Text, ℕ, zero, suc, List, Option, none, some, refl}
use iam_pager.Content.{Date}
use iam_pager.Endpoint.{PageEndpointSet}
use iam_pager.PageRepository.State.{Repository}
use iam_pager.PageRepository.Requests.{Reply, committed, rejected, CommitOutcome}
use iam_pager.Aggregate.{PageAggregate}
use iam_pager.PageService.Model.{
  Setting, CreateRequest, PreparedPageContent, ServiceOutcome, PageSummary,
}
use iam_pager.PageService.Call.{Call, Stop}
use iam_pager.PageService.Endpoints.{as_actor}
use iam_pager.PageService.Publishing.{
  published, after_create, ended_or, create_reply, create_attempts, create_managed,
}
use iam_pager.PageService.Keeps.{
  Keeps, Any, bind-Keeps, then-Keeps, pure-Keeps, stop-Keeps, changes-Keeps, given-Keeps,
}
use iam_pager.PageService.Steps.{
  prepare_command-Keeps, operation_time-Keeps, generate_page_id-Keeps, prepare_content-Keeps,
  summary-Keeps, shown-Keeps,
}
use iam_pager.PageService.Guarded.{Powers, stage-Keeps, require_user-Keeps, require_authority-Keeps}

module _ {I : Repository → Type 0} (g : Setting) where
  pub published-Keeps :
      (outcome : CommitOutcome) (page : PageAggregate) → Keeps I (published g outcome page) Any
  unfolding published
  published-Keeps outcome page =
      shown-Keeps page (λ m. bind-Keeps (summary-Keeps g m) (λ shown _. pure-Keeps _ tt))

  pub ended_or-Keeps :
      {A : Type 0} (ending : Option Stop) {again : Call A}
      → Keeps I again Any
      → Keeps I (ended_or ending again) Any
  unfolding ended_or
  ended_or-Keeps none h = h
  ended_or-Keeps (some e) h = stop-Keeps e

  create_reply-Keeps :
      (reply : Reply) {again : Call (ServiceOutcome × PageSummary)}
      → Keeps I again Any
      → Keeps I (create_reply g reply again) Any
  unfolding create_reply
  create_reply-Keeps (committed outcome page) h = published-Keeps outcome page
  create_reply-Keeps (rejected reason) h = ended_or-Keeps (after_create reason) h

  module _ {Free : Text → Type 0} {Permitted : PageEndpointSet → Type 0} (r : CreateRequest)
      (powers : Powers I Free Permitted g r.actor) where
    create_attempts-Keeps :
        (n : ℕ) (set : PageEndpointSet) (tags : List Text) (content : PreparedPageContent)
        (now : Date)
        → Permitted set
        → Keeps I (create_attempts n g r set tags content now) Any
    unfolding create_attempts
    create_attempts-Keeps zero set tags content now permitted = stop-Keeps _
    create_attempts-Keeps (suc n) set tags content now permitted =
        bind-Keeps (generate_page_id-Keeps g) (λ page_id _.
          bind-Keeps (stage-Keeps g r.actor powers content now) (λ asset _.
            bind-Keeps (changes-Keeps _ (powers.creates _ refl permitted)) (λ reply _.
              create_reply-Keeps reply (create_attempts-Keeps n set tags content now permitted))))

    pub create-Keeps : Keeps I (create_managed g r) Any
    unfolding create_managed
    create-Keeps = then-Keeps (require_user-Keeps g r.actor powers) (λ _.
        bind-Keeps (prepare_command-Keeps g r.endpoints r.content.content_type) (λ set _.
          bind-Keeps (given-Keeps _ _) (λ tags _.
            then-Keeps (require_authority-Keeps g r.actor powers set) (λ permitted.
              bind-Keeps (prepare_content-Keeps g r.content (as_actor r.actor)) (λ content _.
                bind-Keeps (operation_time-Keeps g) (λ now _.
                  create_attempts-Keeps g.max_page_id_attempts set tags content now permitted))))))
