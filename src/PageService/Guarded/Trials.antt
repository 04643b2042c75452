-- ===== src/PageService/Guarded/Trials.antt =====
-- lib/page/service.ts: publishing a trial keeps what the repository's calls keep.
use iam_pager.Base.{ℕ, zero, suc}
use iam_pager.Content.{Date, ContentAsset}
use iam_pager.Endpoint.{PageEndpointSet}
use iam_pager.Namespace.{guest_actor}
use iam_pager.PageRepository.State.{Repository}
use iam_pager.PageRepository.Requests.{PutTrialRequest, Reply, committed, rejected}
use iam_pager.PageRepository.Reads.{create_content_asset}
use iam_pager.PageRepository.Trials.{put_trial_page_aggregate}
use iam_pager.PageService.Model.{
  Setting, PublishTrialRequest, PreparedPageContent, ServiceOutcome, PageSummary,
}
use iam_pager.PageService.Call.{Call}
use iam_pager.PageService.Publishing.{trial_reply, after_trial, put_trial_attempts, publish_trial}
use iam_pager.PageService.Keeps.{
  Keeps, Any, bind-Keeps, then-Keeps, stop-Keeps, changes-Keeps, unless-Keeps,
}
use iam_pager.PageService.Steps.{
  operation_time-Keeps, generate_page_id-Keeps, prepare_content-Keeps, prepare_command-Keeps,
  staging-Keeps,
}
use iam_pager.PageService.Guarded.Writes.{published-Keeps, ended_or-Keeps}

module _ {I : Repository → Type 0} (g : Setting)
    (stores : (a : ContentAsset) (s : Repository) → I s → I (create_content_asset a s).1)
    (puts : (r : PutTrialRequest) (s : Repository) → I s → I (put_trial_page_aggregate r s).1) where
  trial_reply-Keeps :
      (reply : Reply) {again : Call (ServiceOutcome × PageSummary)}
      → Keeps I again Any
      → Keeps I (trial_reply g reply again) Any
  unfolding trial_reply
  trial_reply-Keeps (committed outcome page) h = published-Keeps g outcome page
  trial_reply-Keeps (rejected reason) h = ended_or-Keeps g (after_trial reason) h

  put_attempts-Keeps :
      (n : ℕ) (set : PageEndpointSet) (content : PreparedPageContent) (now : Date)
      → Keeps I (put_trial_attempts n g set content now) Any
  unfolding put_trial_attempts
  put_attempts-Keeps zero set content now = stop-Keeps _
  put_attempts-Keeps (suc n) set content now = bind-Keeps (generate_page_id-Keeps g) (λ page_id _.
      bind-Keeps (staging-Keeps g stores content now) (λ asset _.
        bind-Keeps (changes-Keeps _ (puts _))
          (λ reply _. trial_reply-Keeps reply (put_attempts-Keeps n set content now))))

  pub publish-Keeps : (r : PublishTrialRequest) → Keeps I (publish_trial g r) Any
  unfolding publish_trial
  publish-Keeps r =
      bind-Keeps (prepare_command-Keeps g r.endpoints r.content.content_type) (λ set _.
        then-Keeps (unless-Keeps _ _) (λ _. then-Keeps (unless-Keeps _ _) (λ _.
          bind-Keeps (prepare_content-Keeps g r.content guest_actor) (λ content _.
            bind-Keeps (operation_time-Keeps g)
              (λ now _. put_attempts-Keeps g.max_page_id_attempts set content now)))))
