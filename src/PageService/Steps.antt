-- ===== src/PageService/Steps.antt =====
-- lib/page/service.ts: the steps of a call that keep any property that does not look at assets.
use iam_pager.Base.{
  some, none, Option, ℕ, zero, suc, List, Text, ◌≡◌, refl, arith, sym, subst, Option-cases, inl,
  inr,
}
use iam_pager.Content.{ContentAsset, Date}
use iam_pager.Endpoint.{PageEndpointSet}
use iam_pager.Endpoint.Planner.{planned, plan, plan_unless, PlannerFault, PlanFailure}
use iam_pager.PageRepository.Requests.{AssetReply, asset_stored, asset_rejected}
use iam_pager.PageService.Endpoints.{
  prepare_endpoint_intent, planned_set, engine_validate, prepare_endpoint_command,
}
use iam_pager.Aggregate.{PageAggregate}
use iam_pager.Namespace.{PageActor, guest_actor, user_actor}
use iam_pager.PageRepository.State.{Repository, require_content_asset_id}
use iam_pager.PageRepository.Reads.{create_content_asset, find_content_asset_by_id}
use iam_pager.PageService.Model.{
  PreparedPageContent, EndpointCommand, Setting, PageContentCommand, valid, invalid_because,
  ExternalStorageResult, value, failure, raised, ContentTypeHandler, DeliveryPayload,
  MaterializedPage,
}
use iam_pager.PageService.Call.{Call, ◌>>=◌}
use iam_pager.PageService.Content.{
  staged, stage_attempts, stage_prepared_content_asset, prepare_content, validated, provided,
  upload, user_of, require_handler,
}
use iam_pager.PageService.Pages.{
  materialize_aggregate, operation_time, generate_page_id, summary_of, summary, endpoint_links,
  inspection,
}
use iam_pager.PageService.Keeps.{
  anyway, draw_asset_id-Keeps, Keeps, Any, bind-Keeps, then-Keeps, pure-Keeps, stop-Keeps,
  changes-Keeps, unless-Keeps, given-Keeps, draw_page_id-Keeps,
}

pub asset_read : (id : Text) (s : Repository) → (find_content_asset_by_id id s).1 ≡ s
unfolding find_content_asset_by_id require_content_asset_id
asset_read id s = ground arith

module _ {I : Repository → Type 0} where
  pub operation_time-Keeps : (g : Setting) → Keeps I (operation_time g) Any
  unfolding operation_time
  operation_time-Keeps g = then-Keeps (unless-Keeps _ _) (λ _. pure-Keeps _ tt)

  pub generate_page_id-Keeps : (g : Setting) → Keeps I (generate_page_id g) Any
  unfolding generate_page_id
  generate_page_id-Keeps g =
      bind-Keeps (draw_page_id-Keeps _)
        (λ id _. then-Keeps (unless-Keeps _ _) (λ _. pure-Keeps _ tt))

  validated-Keeps : (r : _) → Keeps I (validated r) Any
  unfolding validated
  validated-Keeps (valid input) = pure-Keeps _ tt
  validated-Keeps (invalid_because reason) = stop-Keeps _

  pub provided-Keeps : {A : Type 0} (r : ExternalStorageResult A) → Keeps I (provided r) Any
  unfolding provided
  provided-Keeps (value a) = pure-Keeps _ tt
  provided-Keeps (failure f) = stop-Keeps _
  provided-Keeps raised = stop-Keeps _

  user_of-Keeps : (actor : PageActor) → Keeps I (user_of actor) Any
  unfolding user_of
  user_of-Keeps guest_actor = stop-Keeps _
  user_of-Keeps (user_actor user_id via_api_key) = pure-Keeps _ tt

  upload-Keeps :
      (g : Setting) (actor : PageActor) (handler : ContentTypeHandler) (payload : DeliveryPayload)
      (provider_id : Text)
      → Keeps I (upload g actor handler payload provider_id) Any
  unfolding upload
  upload-Keeps g actor handler payload provider_id = bind-Keeps (user_of-Keeps actor) (λ user _.
      then-Keeps (unless-Keeps _ _) (λ _. bind-Keeps (given-Keeps _ _) (λ connection _.
        bind-Keeps (given-Keeps _ _) (λ provider _. bind-Keeps (given-Keeps _ _) (λ put _.
          bind-Keeps (provided-Keeps _)
            (λ ref _. then-Keeps (unless-Keeps _ _) (λ _. pure-Keeps _ tt)))))))

  pub prepare_content-Keeps :
      (g : Setting) (command : PageContentCommand) (actor : PageActor)
      → Keeps I (prepare_content g command actor) Any
  unfolding prepare_content
  prepare_content-Keeps g command actor = bind-Keeps (given-Keeps _ _) (λ handler _.
      bind-Keeps (validated-Keeps _) (λ input _. elim (Option-cases command.storage) [
        | inl inside ↦ rw inside (pure-Keeps _ tt)
        | inr (provider_id, outside) ↦ rw outside (upload-Keeps g actor handler _ provider_id)
      ]))

  pub materialize-Keeps :
      (page : PageAggregate) → Keeps I (materialize_aggregate page) (λ m. m.page ≡ page)
  unfolding materialize_aggregate
  materialize-Keeps page =
      bind-Keeps (changes-Keeps _ (λ s i. subst I (sym (asset_read page.content_asset_id s)) i))
        (λ found _. bind-Keeps (given-Keeps _ _) (λ asset _. pure-Keeps _ refl))

  pub summary-Keeps : (g : Setting) (m : MaterializedPage) → Keeps I (summary_of g m) Any
  unfolding summary_of summary endpoint_links
  summary-Keeps g m =
      bind-Keeps (given-Keeps _ _)
        (λ path _. bind-Keeps (given-Keeps _ _) (λ links _. pure-Keeps _ tt))

  pub inspection-Keeps : (g : Setting) (m : MaterializedPage) → Keeps I (inspection g m) Any
  unfolding inspection require_handler
  inspection-Keeps g m =
      bind-Keeps (given-Keeps _ _)
        (λ handler _. bind-Keeps (summary-Keeps g m) (λ shown _. pure-Keeps _ tt))

  -- A page is shown after it has been written.
  pub shown-Keeps :
      {A : Type 0} (page : PageAggregate) {f : MaterializedPage → Call A}
      → ((m : MaterializedPage) → Keeps I (f m) Any)
      → Keeps I (materialize_aggregate page >>= f) Any
  shown-Keeps page h = bind-Keeps (materialize-Keeps page) (λ m _. h m)

  planned_unless-Keeps :
      (fault : Option PlannerFault) (reason : Option PlanFailure) (intent : PageEndpointSet)
      → Keeps I (planned_set (plan_unless fault reason intent)) (λ set. set ≡ planned intent)
  unfolding planned_set
  planned_unless-Keeps (some fault) reason intent = stop-Keeps _
  planned_unless-Keeps none (some reason) intent = stop-Keeps _
  planned_unless-Keeps none none intent = pure-Keeps _ refl

  planned_set-Keeps :
      (g : Setting) (intent : PageEndpointSet) (profiles : List Text)
      → Keeps I
          (planned_set (plan (engine_validate g) intent profiles))
          (λ set. set ≡ planned intent)
  unfolding plan
  planned_set-Keeps g intent profiles = planned_unless-Keeps _ _ intent

  -- An endpoint set that is prepared is the intent's plan.
  pub prepare_intent-Keeps :
      (g : Setting) (intent : PageEndpointSet) (content_type : Text)
      → Keeps I (prepare_endpoint_intent g intent content_type) (λ set. set ≡ planned intent)
  unfolding prepare_endpoint_intent
  prepare_intent-Keeps g intent content_type = bind-Keeps (given-Keeps _ _) (λ handler _.
      bind-Keeps (planned_set-Keeps g intent _)
        (λ set same. then-Keeps (unless-Keeps _ _) (λ _. pure-Keeps set same)))

  pub prepare_command-Keeps :
      (g : Setting) (command : EndpointCommand) (content_type : Text)
      → Keeps I (prepare_endpoint_command g command content_type) Any
  unfolding prepare_endpoint_command
  prepare_command-Keeps g command content_type =
      bind-Keeps (given-Keeps _ _) (λ intent _. anyway (prepare_intent-Keeps g intent content_type))

module _ {I : Repository → Type 0} (g : Setting)
    (stores : (a : ContentAsset) (s : Repository) → I s → I (create_content_asset a s).1) where
  staged-Keeps :
      (reply : AssetReply) {again : Call Text}
      → Keeps I again Any
      → Keeps I (staged reply again) Any
  unfolding staged
  staged-Keeps (asset_stored asset) h = pure-Keeps _ tt
  staged-Keeps (asset_rejected reason) h = h

  stage_attempts-Keeps :
      (n : ℕ) (content : PreparedPageContent) (now : Date)
      → Keeps I (stage_attempts n g content now) Any
  unfolding stage_attempts
  stage_attempts-Keeps zero content now = stop-Keeps _
  stage_attempts-Keeps (suc n) content now = bind-Keeps (draw_asset_id-Keeps _) (λ id _.
      then-Keeps (unless-Keeps _ _) (λ _.
        bind-Keeps (changes-Keeps _ (stores _))
          (λ reply _. staged-Keeps reply (stage_attempts-Keeps n content now))))

  pub staging-Keeps :
      (content : PreparedPageContent) (now : Date)
      → Keeps I (stage_prepared_content_asset g content now) Any
  unfolding stage_prepared_content_asset
  staging-Keeps content now = stage_attempts-Keeps g.max_page_id_attempts content now
