-- ===== src/PageService/Guarded/Edits.antt =====
-- lib/page/service.ts: the steps of the commands on one page, which keep what the repository's
-- calls keep.
use iam_pager.Base.{
  Text, ℕ, List, Bool-cases, inl, inr, Option, none, some, ◌≡◌, refl, sym, subst, or_else,
}
use iam_pager.Endpoint.{PageEndpointSet}
use iam_pager.Endpoint.Planner.{planned}
use iam_pager.PageRepository.State.{Repository}
use iam_pager.PageRepository.Requests.{
  Reply, committed, rejected, DeleteReply, deleted, delete_rejected,
}
use iam_pager.Aggregate.{PageAggregate}
use iam_pager.PageService.Model.{Setting, UserPageActor, MaterializedPage}
use iam_pager.PageRepository.Changes.{delete_managed_page_aggregate}
use iam_pager.PageService.Call.{ask, ◌>>=◌}
use iam_pager.PageService.Endpoints.{page_endpoint_sets_equal}
use iam_pager.PageService.Updating.{
  require_revision, require_current, Replacement, replacement_request, replace_managed_record,
  changed_set, check_patched_set, updated_reply, normalized_tags, renamed_reply, deleted_reply,
  delete_request,
}
use iam_pager.PageService.Relinking.{relinked_reply}
use iam_pager.PageService.Keeps.{
  Keeps, Any, bind-Keeps, then-Keeps, pure-Keeps, stop-Keeps, changes-Keeps, unless-Keeps,
  given-Keeps, optionally-Keeps, anyway,
}
use iam_pager.PageService.Content.{require_handler}
use iam_pager.PageService.Steps.{inspection-Keeps, shown-Keeps}
use iam_pager.PageService.Guarded.{Powers, WhenGiven, stage-Keeps, require_authority-Keeps}

module _ {I : Repository → Type 0} where
  pub require_revision-Keeps : (n : ℕ) → Keeps I (require_revision n) Any
  unfolding require_revision
  require_revision-Keeps n = anyway (unless-Keeps _ _)

  pub require_current-Keeps : (page : PageAggregate) (n : ℕ) → Keeps I (require_current page n) Any
  unfolding require_current
  require_current-Keeps page n = then-Keeps (unless-Keeps _ _) (λ _. anyway (unless-Keeps _ _))

  pub normalized_tags-Keeps : (tags : Option (List Text)) → Keeps I (normalized_tags tags) Any
  unfolding normalized_tags
  normalized_tags-Keeps tags = optionally-Keeps tags (λ given_tags. anyway (given-Keeps _ _))

  pub require_handler-Keeps : (g : Setting) (t : Text) → Keeps I (require_handler g t) Any
  unfolding require_handler
  require_handler-Keeps g t = anyway (given-Keeps _ _)

module _ {I : Repository → Type 0} {Free : Text → Type 0} {Permitted : PageEndpointSet → Type 0}
    (g : Setting) (user : UserPageActor) (powers : Powers I Free Permitted g user) where
  pub replace-Keeps :
      (r : Replacement)
      → r.owner_user_id ≡ user.user_id
      → Free r.page_id
      → WhenGiven Permitted r.endpoint_set
      → Keeps I (replace_managed_record g r) Any
  unfolding replace_managed_record
  replace-Keeps r own free permitted =
      bind-Keeps (optionally-Keeps r.content (λ content. stage-Keeps g user powers content r.now))
        (λ asset _.
          changes-Keeps _ (powers.updates (replacement_request r asset) own free permitted))

  pub deleted_reply-Keeps : (reply : DeleteReply) → Keeps I (deleted_reply reply) Any
  unfolding deleted_reply
  deleted_reply-Keeps deleted = pure-Keeps _ tt
  deleted_reply-Keeps (delete_rejected reason) = stop-Keeps _

  pub updated_reply-Keeps : (reply : Reply) → Keeps I (updated_reply g reply) Any
  unfolding updated_reply
  updated_reply-Keeps (committed outcome page) = shown-Keeps page (λ m. inspection-Keeps g m)
  updated_reply-Keeps (rejected reason) = stop-Keeps _

  pub relinked_reply-Keeps : (reply : Reply) → Keeps I (relinked_reply g reply) Any
  unfolding relinked_reply
  relinked_reply-Keeps (committed outcome page) = shown-Keeps page (λ m. inspection-Keeps g m)
  relinked_reply-Keeps (rejected reason) = stop-Keeps _

  pub renamed_reply-Keeps : (reply : Reply) → Keeps I (renamed_reply g reply) Any
  unfolding renamed_reply
  renamed_reply-Keeps (committed outcome page) =
      shown-Keeps page (λ m. bind-Keeps (inspection-Keeps g m) (λ shown _. pure-Keeps _ tt))
  renamed_reply-Keeps (rejected reason) = stop-Keeps _

  pub write_delete-Keeps :
      (m : MaterializedPage) (expected : ℕ)
      → Free m.page.page_id
      → Keeps I
          (ask (delete_managed_page_aggregate (delete_request user m.page expected))
            >>= deleted_reply)
          Any
  write_delete-Keeps m expected free =
      bind-Keeps (changes-Keeps _ (powers.deletes (delete_request user m.page expected) refl free))
        (λ reply _. deleted_reply-Keeps reply)

  pub check_patched-Keeps :
      (intent : Option PageEndpointSet) (current set : PageEndpointSet)
      → Permitted current
      → set ≡ planned (or_else intent current)
      → Keeps I (check_patched_set g user intent set) (λ _. Permitted set)
  unfolding check_patched_set
  check_patched-Keeps none current set permitted same =
      pure-Keeps _ (subst Permitted (sym same) (powers.plans current permitted))
  check_patched-Keeps (some intent) current set permitted same =
      require_authority-Keeps g user powers set

  pub changed_set-Permitted :
      (current set : PageEndpointSet)
      → Permitted set
      → WhenGiven Permitted (changed_set current set)
  unfolding changed_set
  changed_set-Permitted current set permitted =
      elim (Bool-cases (page_endpoint_sets_equal set current)) [
        | inl same ↦ rw same tt
        | inr other ↦ rw other permitted
      ]
