-- ===== src/PageService/Guarded/Commands.antt =====
-- lib/page/service.ts: the commands on one page keep what the repository's calls
-- keep.
use iam_pager.Base.{Text, List, Option, none, refl, sym, subst}
use iam_pager.Locator.Engine.{same_optional}
use iam_pager.PageService.Model.{page_unchanged}
use iam_pager.Endpoint.{PageEndpointSet}
use iam_pager.PageRepository.State.{Repository}
use iam_pager.Content.{ExternalContentRef, ContentMeta}
use iam_pager.PageService.Model.{
  Setting, UpdateRequest, RenameRequest, DeleteRequest, RelinkRequest, PreparedPageContent,
  MaterializedPage, MaterializedContent, inline_data, external_source,
}
use iam_pager.PageService.Endpoints.{as_actor}
use iam_pager.PageService.Updating.{
  plan_patch, plan_update, write_update, update_managed, rename_request, write_rename,
  rename_managed, delete_managed,
}
use iam_pager.PageService.Relinking.{
  relink_request, relinked_ref, relink_content, relink_managed_external_content,
}
use iam_pager.PageService.Keeps.{
  Keeps, Any, bind-Keeps, then-Keeps, pure-Keeps, stop-Keeps, if-Keeps, catching-Keeps,
  changes-Keeps, unless-Keeps, given-Keeps, optionally-Keeps,
}
use iam_pager.PageService.Steps.{
  prepare_intent-Keeps, operation_time-Keeps, prepare_content-Keeps, inspection-Keeps,
  provided-Keeps,
}
use iam_pager.PageService.Guarded.Edits.{
  require_revision-Keeps, require_current-Keeps, require_handler-Keeps, replace-Keeps,
  write_delete-Keeps, updated_reply-Keeps, relinked_reply-Keeps, renamed_reply-Keeps,
  check_patched-Keeps, changed_set-Permitted, normalized_tags-Keeps,
}
use iam_pager.PageService.Guarded.{
  Powers, WhenGiven, stage-Keeps, require_user-Keeps, find_writable-Keeps,
}

module _ {I : Repository → Type 0} {Free : Text → Type 0} {Permitted : PageEndpointSet → Type 0}
    (g : Setting) (r : UpdateRequest) (powers : Powers I Free Permitted g r.actor) where
  plan_patch-Keeps :
      (m : MaterializedPage) (content : Option PreparedPageContent)
      → Permitted m.page.endpoint_set
      → Keeps I (plan_patch g r m content) (WhenGiven Permitted)
  unfolding plan_patch
  plan_patch-Keeps m content permitted = bind-Keeps (prepare_intent-Keeps g _ _) (λ set same.
      then-Keeps
        (check_patched-Keeps g r.actor powers r.patch.endpoint_set m.page.endpoint_set set permitted
          same)
        (λ allowed.
          pure-Keeps _ (changed_set-Permitted g r.actor powers m.page.endpoint_set set allowed)))

  plan_update-Keeps :
      (m : MaterializedPage) (content : Option PreparedPageContent)
      → Permitted m.page.endpoint_set
      → Keeps I (plan_update g r m content) (WhenGiven Permitted)
  unfolding plan_update
  plan_update-Keeps m content permitted =
      if-Keeps _ (λ planning. plan_patch-Keeps m content permitted) (λ keeping. pure-Keeps none tt)

  write_update-Keeps :
      (m : MaterializedPage) (tags : Option (List Text)) (content : Option PreparedPageContent)
      (set : Option PageEndpointSet)
      → Free m.page.page_id
      → WhenGiven Permitted set
      → Keeps I (write_update g r m tags content set) Any
  unfolding write_update
  write_update-Keeps m tags content set free permitted =
      bind-Keeps (operation_time-Keeps g) (λ now _.
        bind-Keeps (replace-Keeps g r.actor powers _ refl free permitted)
          (λ reply _. updated_reply-Keeps g r.actor powers reply))

  pub update-Keeps : Keeps I (update_managed g r) Any
  unfolding update_managed
  update-Keeps = then-Keeps (require_user-Keeps g r.actor powers) (λ _.
      then-Keeps (require_revision-Keeps r.expected_revision) (λ _.
        then-Keeps (unless-Keeps _ _) (λ _. then-Keeps (unless-Keeps _ _) (λ _.
          bind-Keeps (normalized_tags-Keeps r.patch.tags) (λ tags _.
            bind-Keeps (find_writable-Keeps g r.actor powers r.page_id) (λ m usable.
              then-Keeps (require_current-Keeps m.page r.expected_revision) (λ _.
                bind-Keeps (require_handler-Keeps g _) (λ handler _.
                  bind-Keeps
                    (optionally-Keeps r.patch.content
                      (λ command. prepare_content-Keeps g command (as_actor r.actor)))
                    (λ content _.
                      bind-Keeps (plan_update-Keeps m content usable.1) (λ set permitted.
                        if-Keeps _ (λ same. inspection-Keeps g m)
                          (λ other.
                            write_update-Keeps m tags content set usable.0 permitted)))))))))))

module _ {I : Repository → Type 0} {Free : Text → Type 0} {Permitted : PageEndpointSet → Type 0}
    (g : Setting) (r : RenameRequest) (powers : Powers I Free Permitted g r.actor) where
  write_rename-Keeps :
      (m : MaterializedPage)
      → Free m.page.page_id
      → Permitted m.page.endpoint_set
      → Keeps I (write_rename g r m) Any
  unfolding write_rename
  write_rename-Keeps m free permitted =
      bind-Keeps (catching-Keeps (prepare_intent-Keeps g _ _) (λ e. stop-Keeps _)) (λ set same.
        then-Keeps (unless-Keeps _ _) (λ _. bind-Keeps (operation_time-Keeps g) (λ now _.
          bind-Keeps
            (changes-Keeps _ (
              powers.updates (rename_request r m.page set now) refl free (
                subst Permitted (sym same)
                  (powers.plans _ (powers.renames _ r.page_name permitted)))))
            (λ reply _. renamed_reply-Keeps g r.actor powers reply))))

  pub rename-Keeps : Keeps I (rename_managed g r) Any
  unfolding rename_managed
  rename-Keeps = then-Keeps (require_user-Keeps g r.actor powers) (λ _.
      then-Keeps (require_revision-Keeps r.expected_revision) (λ _.
        bind-Keeps (find_writable-Keeps g r.actor powers r.page_id) (λ m usable.
          then-Keeps (unless-Keeps _ _) (λ _. bind-Keeps (inspection-Keeps g m) (λ shown _.
            if-Keeps (same_optional m.page.endpoint_set.canonical.locator.page_name r.page_name)
              (λ same. pure-Keeps (page_unchanged, shown) tt)
              (λ other. write_rename-Keeps m usable.0 usable.1))))))

module _ {I : Repository → Type 0} {Free : Text → Type 0} {Permitted : PageEndpointSet → Type 0}
    (g : Setting) (r : DeleteRequest) (powers : Powers I Free Permitted g r.actor) where
  pub delete-Keeps : Keeps I (delete_managed g r) Any
  unfolding delete_managed
  delete-Keeps = then-Keeps (require_user-Keeps g r.actor powers) (λ _.
      then-Keeps (require_revision-Keeps r.expected_revision) (λ _.
        bind-Keeps (find_writable-Keeps g r.actor powers r.page_id)
          (λ m usable. write_delete-Keeps g r.actor powers m r.expected_revision usable.0)))

module _ {I : Repository → Type 0} {Free : Text → Type 0} {Permitted : PageEndpointSet → Type 0}
    (g : Setting) (r : RelinkRequest) (powers : Powers I Free Permitted g r.actor) where
  relinked_ref-Keeps :
      (ref : ExternalContentRef) (meta : ContentMeta) (external_ref : Text)
      → Keeps I (relinked_ref g ref meta external_ref) Any
  unfolding relinked_ref
  relinked_ref-Keeps ref meta external_ref = then-Keeps (unless-Keeps _ _) (λ _.
      bind-Keeps (given-Keeps _ _) (λ provider _. bind-Keeps (provided-Keeps _) (λ stated _.
        then-Keeps (unless-Keeps _ _) (λ _.
          bind-Keeps (provided-Keeps _)
            (λ fetched _. then-Keeps (unless-Keeps _ _) (λ _. pure-Keeps _ tt))))))

  relink_content-Keeps :
      (m : MaterializedPage) (content : MaterializedContent)
      → Free m.page.page_id
      → Keeps I (relink_content g r m content) Any
  unfolding relink_content
  relink_content-Keeps m (inline_data content_type data_text meta) free = stop-Keeps _
  relink_content-Keeps m (external_source content_type ref meta) free =
      bind-Keeps (relinked_ref-Keeps ref meta r.external_ref) (λ linked _.
        bind-Keeps (operation_time-Keeps g) (λ now _.
          bind-Keeps (stage-Keeps g r.actor powers _ now) (λ asset _.
            bind-Keeps
              (changes-Keeps _ (powers.updates (relink_request r m asset now) refl free tt))
              (λ reply _. relinked_reply-Keeps g r.actor powers reply))))

  pub relink-Keeps : Keeps I (relink_managed_external_content g r) Any
  unfolding relink_managed_external_content
  relink-Keeps = then-Keeps (require_user-Keeps g r.actor powers) (λ _.
      then-Keeps (require_revision-Keeps r.expected_revision) (λ _.
        bind-Keeps (find_writable-Keeps g r.actor powers r.page_id) (λ m usable.
          then-Keeps (require_current-Keeps m.page r.expected_revision)
            (λ _. relink_content-Keeps m m.content usable.0))))
