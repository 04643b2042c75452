-- ===== src/PageRepository/Tests.antt =====
-- Runs of the repository, and the theorems at concrete inputs.
use iam_pager.Base.Exec.{returned}
use iam_pager.PageRepository.Invariant.{IsCoherent}
use iam_pager.PageRepository.LostUpdates.{update_once, Releases, delete_frees}
use iam_pager.PageRepository.Resolution.{ResolvesTo, resolve_total, resolve-create}
use iam_pager.PageRepository.Assets.{AssetOutcome, asset_outcome}
use iam_pager.PageRepository.Observation.{HealthOutcome, health_outcome}
use iam_pager.PageRepository.Deletion.{DeleteOutcome, delete_outcome}
use iam_pager.PageRepository.Duplicates.{DuplicateOutcome, duplicate_outcome}
use iam_pager.PageRepository.Updates.{UpdateOutcome, update_outcome}
use iam_pager.PageRepository.NewPages.{CreateOutcome, create_outcome}
use iam_pager.PageRepository.TrialOutcomes.{PutOutcome, put_outcome}
use iam_pager.Base.{
  false, ◌⊎◌, true, ◌≢◌, Text, codes, [], ◌∷◌, none, some, ◌≡◌, refl, member, text_dec, to_lower,
}
use iam_pager.Base.Map.{get, put, delete}
use iam_pager.Base.Patterns.{repeats, headed}
use iam_pager.Locator.{Locator, locator_key}
use iam_pager.Endpoint.{PageEndpointBinding, page_endpoint_set_violation, is_valid_delivery_profile}
use iam_pager.Page.{everyone, is_valid_page_id, is_valid_page_tags}
use iam_pager.Content.{
  ContentAsset, instant, inline, content_asset_violation, is_valid_content_asset_id,
}
use iam_pager.Aggregate.{PageAggregate, external_content_missing, page_aggregate_violation}
use iam_pager.PageRepository.State.{
  keys_of, Repository, empty_repository, require_page_id, require_content_asset_id,
  require_endpoint_set, require_owner, require_time, require_stored_page, assert_valid_page,
  claimed_page_ids, trials_among, remove_page, install_page, retire_trials, invariant_violated,
}
use iam_pager.PageRepository.Requests.{
  managed_conflict, deleted, rejected, committed, created, updated, UpdateManagedRequest,
  PutTrialRequest, DeleteManagedRequest, DuplicateManagedRequest, UpdateHealthRequest,
  CreateManagedRequest,
}
use iam_pager.PageRepository.Reads.{create_content_asset, resolve_page_endpoint}
use iam_pager.PageRepository.Trials.{put_trial_page_aggregate}
use iam_pager.PageRepository.Creation.{
  duplicate_managed_page_aggregate, create_managed_page_aggregate, created_page,
}
use iam_pager.PageRepository.Changes.{
  updated_page, update_managed_page_aggregate, delete_managed_page_aggregate,
}
use iam_pager.PageRepository.Transition.{put_trial, store_asset, create_managed, step}
use iam_pager.PageRepository.Health.{update_external_content_health}
use iam_pager.PageRepository.Safety.{step-foreign, Survives, run, history_safe, step-IsCoherent}

program : Unit {0}
unfolding run step create_content_asset content_asset_violation create_managed_page_aggregate
    put_trial_page_aggregate update_managed_page_aggregate delete_managed_page_aggregate
    resolve_page_endpoint require_page_id require_content_asset_id require_endpoint_set
    require_owner require_time require_stored_page assert_valid_page claimed_page_ids trials_among
    remove_page install_page retire_trials page_aggregate_violation page_endpoint_set_violation
    is_valid_delivery_profile is_valid_page_id is_valid_page_tags is_valid_content_asset_id
    locator_key get put delete member text_dec to_lower repeats headed
program = tt

abbrev at : Text → Text → PageEndpointBinding
at namespace name = record {
  locator = record { namespace = namespace; page_name = some name };
  delivery_profile = codes "inline";
}

abbrev note : ContentAsset
note = record {
  content_asset_id = codes "a1";
  content_type = codes "md-page";
  source = inline;
  stored = some (codes "# hi");
  meta = record {
    media_type = codes "text/html";
    size_bytes = 4;
    download_filename = none;
    sha256 = none;
    codec_version = none;
  };
  created_at = instant 1;
}

abbrev alice_request : CreateManagedRequest
alice_request = record {
  page_id = codes "p1";
  endpoint_set = record { canonical = at (codes "Alice") (codes "home"); alternates = [] };
  owner_user_id = codes "alice";
  access = everyone;
  tags = [];
  content_asset_id = codes "a1";
  now = instant 2;
}

abbrev bob_request : CreateManagedRequest
bob_request = record alice_request {
  page_id = codes "p2";
  endpoint_set = record { canonical = at (codes "bob") (codes "home"); alternates = [] };
  owner_user_id = codes "bob";
}

abbrev guest_request : PutTrialRequest
guest_request = record {
  page_id = codes "t1";
  endpoint_set = record { canonical = at (codes "alice") (codes "HOME"); alternates = [] };
  content_asset_id = codes "a1";
  now = instant 3;
}

abbrev rename_request : UpdateManagedRequest
rename_request = record {
  page_id = codes "p1";
  owner_user_id = codes "alice";
  expected_revision = 1;
  patch = record {
    endpoint_set =
        some (record { canonical = at (codes "Alice") (codes "start"); alternates = [] });
    content_asset_id = none;
    access = none;
    tags = none;
    block_api_write = none;
  };
  now = instant 4;
}

abbrev copy_request : DuplicateManagedRequest
copy_request = record {
  source_page_id = codes "p1";
  owner_user_id = codes "alice";
  expected_revision = 1;
  page_id = codes "p3";
  endpoint_set = record { canonical = at (codes "Alice") (codes "copy"); alternates = [] };
  now = instant 5;
}

abbrev drop_request : DeleteManagedRequest
drop_request = record { page_id = codes "p1"; owner_user_id = codes "alice"; expected_revision = 1 }

abbrev missing_report : UpdateHealthRequest
missing_report = record {
  page_id = codes "p1";
  content_asset_id = codes "a2";
  external_missing = some (record { cause = external_content_missing; detected_at = instant 6 });
}

abbrev home_locator : Locator
home_locator = record { namespace = codes "ALICE"; page_name = some (codes "home") }

abbrev start : Repository
start = run (store_asset note ∷ create_managed alice_request ∷ []) empty_repository

start_page : get start.pages (codes "p1") ≡ some (created_page alice_request)
unfolding program
start_page = refl

start-IsCoherent : IsCoherent start
start-IsCoherent =
    (history_safe (store_asset note ∷ create_managed alice_request ∷ []) (store_asset note)).0

history_safe_example :
    IsCoherent (run (store_asset note ∷ create_managed alice_request ∷ []) empty_repository)
    × ((step (put_trial guest_request) start).0 ≢ some invariant_violated)
history_safe_example =
    history_safe (store_asset note ∷ create_managed alice_request ∷ []) (put_trial guest_request)

step-IsCoherent_example : IsCoherent (step (put_trial guest_request) start).1
step-IsCoherent_example = step-IsCoherent (put_trial guest_request) start start-IsCoherent

-- A guest's page on a locator that a creator holds is turned away.
step-foreign_example :
    Survives (codes "p1") (created_page alice_request) (step (put_trial guest_request) start).1
    × ((k : Text)
        → member k (keys_of (created_page alice_request)) ≡ true
        → get ((step (put_trial guest_request) start).1).endpoint_page_ids k ≡ some (codes "p1"))
step-foreign_example =
    step-foreign (put_trial guest_request) start (codes "p1") (created_page alice_request)
      start-IsCoherent start_page refl

guest_blocked :
    put_trial_page_aggregate guest_request start ≡ (returned (rejected managed_conflict), start)
unfolding program
guest_blocked = refl

put_outcome_example : PutOutcome guest_request start (put_trial_page_aggregate guest_request start)
unfolding program
put_outcome_example =
    put_outcome guest_request start start-IsCoherent
      (record { id_ok = refl; set_ok = refl; asset_ok = refl; now_ok = refl })

create_outcome_example :
    CreateOutcome bob_request start (create_managed_page_aggregate bob_request start)
unfolding program
create_outcome_example = create_outcome bob_request start start-IsCoherent (record {
  id_ok = refl;
  set_ok = refl;
  owner_ok = refl;
  tags_ok = refl;
  asset_ok = refl;
  now_ok = refl;
})

update_outcome_example :
    UpdateOutcome rename_request start (update_managed_page_aggregate rename_request start)
unfolding program
update_outcome_example = update_outcome rename_request start start-IsCoherent (record {
  id_ok = refl;
  owner_ok = refl;
  revision_ok = refl;
  patch_ok = refl;
  set_ok = refl;
  asset_ok = tt;
  tags_ok = tt;
  now_ok = refl;
})

abbrev renamed : Repository
renamed = (update_managed_page_aggregate rename_request start).1

abbrev renamed_page : PageAggregate
renamed_page = updated_page rename_request (created_page alice_request)

rename_succeeds :
    update_managed_page_aggregate rename_request start
    ≡ (returned (committed updated renamed_page), renamed)
unfolding program
rename_succeeds = refl

update_once_example : (update_managed_page_aggregate rename_request renamed).1 ≡ renamed
update_once_example =
    update_once rename_request rename_request start renamed updated renamed_page start-IsCoherent
      rename_succeeds refl refl

duplicate_outcome_example :
    DuplicateOutcome copy_request start (duplicate_managed_page_aggregate copy_request start)
unfolding program
duplicate_outcome_example = duplicate_outcome copy_request start start-IsCoherent (record {
  source_ok = refl;
  id_ok = refl;
  owner_ok = refl;
  revision_ok = refl;
  set_ok = refl;
  now_ok = refl;
})

delete_outcome_example :
    DeleteOutcome drop_request start (delete_managed_page_aggregate drop_request start)
unfolding program
delete_outcome_example =
    delete_outcome drop_request start start-IsCoherent
      (record { id_ok = refl; owner_ok = refl; revision_ok = refl })

abbrev emptied : Repository
emptied = (delete_managed_page_aggregate drop_request start).1

drop_succeeds : delete_managed_page_aggregate drop_request start ≡ (returned deleted, emptied)
unfolding program
drop_succeeds = refl

delete_frees_example :
    (p : PageAggregate) × (get start.pages (codes "p1") ≡ some p)
    × (get emptied.pages (codes "p1") ≡ none)
    × Releases p start emptied
delete_frees_example = delete_frees drop_request start emptied start-IsCoherent drop_succeeds

health_outcome_example :
    HealthOutcome missing_report start (update_external_content_health missing_report start)
unfolding program
health_outcome_example =
    health_outcome missing_report start start-IsCoherent
      (record { id_ok = refl; asset_ok = refl; health_ok = refl })

asset_outcome_example : AssetOutcome note start (create_content_asset note start)
asset_outcome_example = asset_outcome note start start-IsCoherent

resolve_total_example :
    ((p : PageAggregate) × (b : PageEndpointBinding) × ResolvesTo home_locator p b start)
    ⊎ ((resolve_page_endpoint home_locator start ≡ (returned none, start))
        × ((id : Text) (p : PageAggregate)
            → get start.pages id ≡ some p
            → member (locator_key home_locator) (keys_of p) ≡ false))
resolve_total_example = resolve_total home_locator start start-IsCoherent

abbrev stocked : Repository
stocked = run (store_asset note ∷ []) empty_repository

stocked-IsCoherent : IsCoherent stocked
stocked-IsCoherent = (history_safe (store_asset note ∷ []) (store_asset note)).0

alice_succeeds :
    create_managed_page_aggregate alice_request stocked
    ≡ (returned (committed created (created_page alice_request)), start)
unfolding program
alice_succeeds = refl

home_is_carried : member (locator_key home_locator) (keys_of (created_page alice_request)) ≡ true
unfolding program
home_is_carried = refl

-- The locator is found whatever the case of its letters.
resolve-create_example :
    (b : PageEndpointBinding) × ResolvesTo home_locator (created_page alice_request) b start
resolve-create_example =
    resolve-create alice_request home_locator stocked start created (created_page alice_request)
      stocked-IsCoherent alice_succeeds home_is_carried
