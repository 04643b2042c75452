-- ===== src/PageService/Tests.antt =====
-- The service at concrete pages, and the theorems there.
use iam_pager.Base.{
  Text, List, [], ◌∷◌, Option, ◌⊎◌, any, none, some, true, false, codes, ◌≡◌, refl, member,
  text_dec, arith, to_lower, Bool-cases, inl, inr,
}
use iam_pager.Base.Map.{get, put, delete}
use iam_pager.Base.Patterns.{repeats, headed}
use iam_pager.Base.Exec.{returned, thrown}
use iam_pager.Locator.{Locator, resolved, locator_key}
use iam_pager.Locator.Engine.{
  LocatorStrategy, is_forbidden, validate, format, same_locator, resolve, resolve-format,
}
use iam_pager.Endpoint.{
  PageEndpointBinding, PageEndpointSet, page_endpoint_set_violation, is_valid_delivery_profile,
}
use iam_pager.Page.{owner_only, everyone, is_valid_page_id, is_valid_page_tags, PageAccess}
use iam_pager.Content.{
  ContentAsset, instant, inline, content_asset_violation, is_valid_content_asset_id,
}
use iam_pager.PageRepository.Effects.Observed.{with_health}
use iam_pager.Aggregate.{ExternalContentMissingState, PageAggregate, page_aggregate_violation}
use iam_pager.Namespace.{Reservations, guest_actor, user_actor}
use iam_pager.PageRepository.State.{
  Repository, empty_repository, keys_of, require_page_id, require_content_asset_id,
  require_endpoint_set, require_owner, require_time, require_stored_page, assert_valid_page,
  claimed_page_ids, trials_among, remove_page, install_page, retire_trials,
}
use iam_pager.PageRepository.Requests.{CreateManagedRequest, UpdateManagedRequest}
use iam_pager.PageRepository.Reads.{
  create_content_asset, resolve_page_endpoint, resolve_page_id, found_binding, find_binding,
  find_content_asset_by_id,
}
use iam_pager.PageRepository.Creation.{create_managed_page_aggregate, created_page}
use iam_pager.PageRepository.Changes.{update_managed_page_aggregate, updated_page}
use iam_pager.PageRepository.Transition.{store_asset, create_managed, update_managed, step}
use iam_pager.PageRepository.Safety.{run, history_safe, empty-IsCoherent}
use iam_pager.PageRepository.Invariant.{IsCoherent}
use iam_pager.PageService.Model.{
  Setting, UserPageActor, ContentTypeHandler, valid, characters, Failure,
}
use iam_pager.PageService.Call.{World, fails, ◌>>=◌, ◌>>◌, ask, given, unless, pure, stop}
use iam_pager.PageService.Requests.{Request, creating, perform_all}
use iam_pager.PageService.Requests
use iam_pager.PageService.Spared.{perform_all-spares}
use iam_pager.PageService.Ownership.{IsHoused}
use iam_pager.PageService.Ownership.Housing.{perform_all-IsHoused}
use iam_pager.PageService.Disclosure.{IsUnused, deliver_hides}
use iam_pager.PageService.Delivery.{
  deliver, view_public, Delivered, page_delivered, resolve_delivery_record, can_deliver_page_to,
  delivering_handler, deliver_content, delivery_result,
}
use iam_pager.Endpoint.Planner.{
  project_page_endpoint_links, is_safe_page_path, project, project_all,
}
use iam_pager.PageService.Content.{handler_named}
use iam_pager.PageService.Endpoints.{path_of}
use iam_pager.PageService.Delivered.{IsDelivery, deliver-IsDelivery}

program : Unit {0}
unfolding run step create_content_asset content_asset_violation create_managed_page_aggregate
    update_managed_page_aggregate require_page_id require_content_asset_id require_endpoint_set
    require_owner require_time require_stored_page assert_valid_page claimed_page_ids trials_among
    remove_page install_page retire_trials page_aggregate_violation page_endpoint_set_violation
    is_valid_delivery_profile is_valid_page_id is_valid_page_tags is_valid_content_asset_id
    locator_key get put delete member text_dec to_lower repeats headed
program = tt

abbrev at : Text → Text → Locator
at namespace name = record { namespace = namespace; page_name = some name }

abbrev inline_set : Locator → PageEndpointSet
inline_set locator = record {
  canonical = record { locator = locator; delivery_profile = codes "inline" };
  alternates = [];
}

abbrev note : ContentAsset
note = record {
  content_asset_id = codes "a1";
  content_type = codes "md-page";
  source = inline;
  stored = some (codes "# hi");
  meta = record {
    media_type = codes "text/html";
    size_bytes = 4;
    download_filename = none;
    sha256 = none;
    codec_version = none;
  };
  created_at = instant 1;
}

abbrev ada_request : PageAccess → CreateManagedRequest
ada_request access = record {
  page_id = codes "p1";
  endpoint_set = inline_set (at (codes "Ada") (codes "home"));
  owner_user_id = codes "ada";
  access = access;
  tags = [];
  content_asset_id = codes "a1";
  now = instant 2;
}

abbrev lock_request : UpdateManagedRequest
lock_request = record {
  page_id = codes "p1";
  owner_user_id = codes "ada";
  expected_revision = 1;
  patch = record {
    endpoint_set = none;
    content_asset_id = none;
    access = none;
    tags = none;
    block_api_write = some true;
  };
  now = instant 3;
}

-- Ada has a page with the access, and has locked it.
abbrev start : PageAccess → Repository
start access =
    run (store_asset note ∷ create_managed (ada_request access) ∷ update_managed lock_request ∷ [])
      empty_repository

abbrev ada_page : PageAccess → PageAggregate
ada_page access = updated_page lock_request (created_page (ada_request access))

abbrev world_of : Repository → World
world_of s = record { repository = s; page_ids_drawn = 0; asset_ids_drawn = 0; names_drawn = 0 }

start-IsCoherent : (access : PageAccess) → IsCoherent (start access)
start-IsCoherent access =
    (history_safe
      (store_asset note ∷ create_managed (ada_request access) ∷ update_managed lock_request ∷ [])
      (store_asset note)).0

start_page : get (start everyone).pages (codes "p1") ≡ some (ada_page everyone)
unfolding program
start_page = refl

private_page : get (start owner_only).pages (codes "p1") ≡ some (ada_page owner_only)
unfolding program
private_page = refl

abbrev slug : LocatorStrategy
slug = record {
  strategy_name = codes "slug";
  resolve = λ path. resolved (at (codes "Ada") (codes "home"));
  format = λ locator. codes "/Ada/home";
}

abbrev notes : ContentTypeHandler
notes = record {
  content_type = codes "md-page";
  canonical_codec_version = codes "v1";
  supported_delivery_profiles = codes "inline" ∷ [];
  validate_input = valid;
  derive = λ input. input;
  to_management = λ text. text;
  render = λ text. record {
    body = characters text;
    media_type = codes "text/html";
    download_filename = none;
  };
}

abbrev setting : Reservations → Setting
setting reservations = record {
  engine = record { strategies = slug ∷ []; default_strategy = slug; forbidden_namespaces = [] };
  reservations = reservations;
  handlers = notes ∷ [];
  provider_of = λ id. none;
  active_connection = λ user id. none;
  page_ids = λ n. codes "p7";
  asset_ids = λ n. codes "a7";
  page_names = λ n used. codes "big-blue-calm-owl";
  now = instant 9;
  max_page_id_attempts = 3;
  max_page_name_attempts = 16;
  encode = λ text. text;
  decode = λ body. body;
  sha256 = λ body. body;
}

abbrev ada_held : Reservations
ada_held =
    (
      codes "ada",
      record { namespace = codes "Ada"; owner_user_id = codes "ada"; reserved_at = instant 0 },
    )
    ∷ []

abbrev removal : UserPageActor → Request
removal user =
    Requests.deleting (record { actor = user; page_id = codes "p1"; expected_revision = 2 })

abbrev attempts : List (Setting × Request)
attempts =
    (setting ada_held, removal (record { user_id = codes "bob"; via_api_key = false }))
    ∷ (setting ada_held, removal (record { user_id = codes "ada"; via_api_key = true }))
    ∷ (setting ada_held, Requests.viewing (at (codes "Ada") (codes "home")))
    ∷ []

perform_all-spares_example :
    (missing : Option ExternalContentMissingState) × (get
        ((perform_all attempts (world_of (start everyone))).repository).pages
        (codes "p1")
      ≡ some (with_health missing (ada_page everyone)))
    × ((missing ≡ none) ⊎ (any (λ call. Requests.is_visit call.1) attempts ≡ true))
    × ((k : Text)
        → member k (keys_of (ada_page everyone)) ≡ true
        → get ((perform_all attempts (world_of (start everyone))).repository).endpoint_page_ids k
          ≡ some (codes "p1"))
unfolding text_dec
perform_all-spares_example =
    perform_all-spares attempts (world_of (start everyone)) (codes "p1") (ada_page everyone)
      (start-IsCoherent everyone) start_page refl (inl refl, (inr refl, (tt, tt)))

abbrev publication : List (Setting × Request)
publication =
    (
      setting ada_held,
      creating (record {
        actor = record { user_id = codes "ada"; via_api_key = false };
        endpoints = record {
          locator = some (at (codes "Ada") (codes "home"));
          endpoint_set = none;
        };
        access = everyone;
        tags = none;
        content = record { content_type = codes "md-page"; input = codes "# hi"; storage = none };
      }),
    )
    ∷ []

empty-IsHoused : IsHoused ada_held empty_repository
unfolding get
empty-IsHoused id page owner e m = cc

perform_all-IsHoused_example :
    IsHoused ada_held (perform_all publication (world_of empty_repository)).repository
perform_all-IsHoused_example =
    perform_all-IsHoused ada_held publication (world_of empty_repository) empty-IsCoherent
      empty-IsHoused (λ namespace user h. h, tt)

missing-IsUnused : IsUnused (at (codes "Ada") (codes "other")) (start owner_only)
unfolding program
missing-IsUnused id p e =
    elim (Bool-cases (member (locator_key (at (codes "Ada") (codes "other"))) (keys_of p))) [
      | inr unused ↦ unused
      | inl used ↦
          let found = (start-IsCoherent owner_only).indexed id p _ e used in absurd (ground arith)
    ]

deliver_hides_example :
    (deliver
        (setting ada_held)
        (at (codes "ADA") (codes "home"))
        guest_actor
        (world_of (start owner_only))
      ≡ (thrown (fails Failure.not_found), world_of (start owner_only)))
    × (deliver
          (setting ada_held)
          (at (codes "Ada") (codes "other"))
          guest_actor
          (world_of (start owner_only))
        ≡ deliver
            (setting ada_held)
            (at (codes "ADA") (codes "home"))
            guest_actor
            (world_of (start owner_only)))
    × (view_public
          (setting ada_held)
          (at (codes "ADA") (codes "home"))
          (world_of (start owner_only))
        ≡ view_public
            (setting ada_held)
            (at (codes "Ada") (codes "other"))
            (world_of (start owner_only)))
unfolding program
deliver_hides_example =
    deliver_hides (setting ada_held) (ada_page owner_only) (at (codes "ADA") (codes "home"))
      (at (codes "Ada") (codes "other")) guest_actor (world_of (start owner_only))
      (start-IsCoherent owner_only)
      (record { stands = private_page; carries = refl; private_page = refl; foreign = refl })
      missing-IsUnused

abbrev home : PageEndpointBinding
home = (inline_set (at (codes "Ada") (codes "home"))).canonical

abbrev served : Delivered
served = record {
  page_id = codes "p1";
  revision = 2;
  size_bytes = 4;
  endpoint = record { binding = home; path = codes "/Ada/home" };
  payload = notes.render (codes "# hi");
}

ada_served :
    deliver
      (setting ada_held)
      (at (codes "ADA") (codes "home"))
      (user_actor (codes "ada") true)
      (world_of (start owner_only))
    ≡ (returned (page_delivered served), world_of (start owner_only))
unfolding program deliver resolve_delivery_record resolve_page_endpoint resolve_page_id
    found_binding find_binding find_content_asset_by_id can_deliver_page_to handler_named path_of
    format is_forbidden project_page_endpoint_links project project_all is_safe_page_path
    delivering_handler deliver_content delivery_result ◌>>=◌ ◌>>◌ ask given unless pure stop
ada_served = refl

deliver-IsDelivery_example :
    IsDelivery
      (setting ada_held)
      (at (codes "ADA") (codes "home"))
      (user_actor (codes "ada") true)
      served
      (start owner_only)
deliver-IsDelivery_example =
    deliver-IsDelivery (setting ada_held) (at (codes "ADA") (codes "home"))
      (user_actor (codes "ada") true) served (world_of (start owner_only))
      (world_of (start owner_only)) (start-IsCoherent owner_only) ada_served

-- The engine of the setting takes the page's locator.
resolve-format_example :
    (at (codes "Ada") (codes "home") ≡ at (codes "Ada") (codes "home"))
    × (path : Text) × (format (setting ada_held).engine slug (at (codes "Ada") (codes "home"))
        ≡ returned path)
    × (resolve (setting ada_held).engine slug path ≡ resolved (at (codes "Ada") (codes "home")))
unfolding program validate same_locator is_forbidden
resolve-format_example =
    resolve-format (setting ada_held).engine slug (at (codes "Ada") (codes "home"))
      (at (codes "Ada") (codes "home")) refl
