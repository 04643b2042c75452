-- ===== src/PageService/Endpoints.antt =====
-- lib/page/service.ts: endpoint commands, and the authority of an actor over endpoint sets.
use iam_pager.Base.{
  Text, Bool, List, [], ◌∷◌, Option, none, some, if◌then◌else◌, true, false, ◌==◌, not, any, map,
  to_lower, is_some, codes, member, ◌&&◌,
}
use iam_pager.Base.Exec.{Outcome, returned, thrown}
use iam_pager.Locator.{Locator, LocatorResolution}
use iam_pager.Locator.Engine.{validate, format, same_locator}
use iam_pager.Endpoint.{
  PageEndpointSet, PageEndpointBinding, bindings_of, page_endpoint_set_violation,
}
use iam_pager.Endpoint.Planner.{Plan, accepted, declined, PlannerFault, PlanFailure, plan}
use iam_pager.Namespace.{
  PageActor, user_actor, NamespaceAuthority, unreserved, owned, reserved_by_other,
  resolve_authority,
}
use iam_pager.PageService.Model.{Setting, UserPageActor, EndpointCommand, Failure}
use iam_pager.PageService.Call.{
  Call, fails, throws, ServiceFault, ◌>>=◌, ◌>>◌, pure, stop, unless, given,
}
use iam_pager.PageService.Content.{handler_named}

abbrev pub engine_validate : Setting → Locator → LocatorResolution
engine_validate g = validate g.engine g.engine.default_strategy

-- `#engine.format`: nothing where it throws
unfoldable pub path_of : Setting → Locator → Option Text
path_of g locator = elim (format g.engine g.engine.default_strategy locator) [
  | returned path ↦ some path
  | thrown fault ↦ none
]

abbrev pub as_actor : UserPageActor → PageActor
as_actor user = user_actor user.user_id user.via_api_key

-- The first casing of each namespace of the set, in order
abbrev pub namespaces_from : List Text → List PageEndpointBinding → List Text
namespaces_from seen [] = []
namespaces_from seen (b ∷ rest) =
    let later = namespaces_from (to_lower b.locator.namespace ∷ seen) rest in
    let same = namespaces_from seen rest in
    if member (to_lower b.locator.namespace) seen then same else b.locator.namespace ∷ later

unfoldable pub endpoint_authorities :
    Setting → PageActor → PageEndpointSet → List NamespaceAuthority
endpoint_authorities g actor set =
    map (λ namespace. resolve_authority actor namespace g.reservations)
      (namespaces_from [] (bindings_of set))

abbrev pub is_unreserved : NamespaceAuthority → Bool
is_unreserved unreserved = true
is_unreserved _ = false

abbrev pub is_reserved_by_other : NamespaceAuthority → Bool
is_reserved_by_other reserved_by_other = true
is_reserved_by_other _ = false

abbrev pub is_owned : NamespaceAuthority → Bool
is_owned owned = true
is_owned _ = false

-- `managed_endpoint_authority_failure`, with the `return` of its callers
unfoldable pub require_authority : Setting → UserPageActor → PageEndpointSet → Call (Unit {0})
require_authority g user set =
    let authorities = endpoint_authorities g (as_actor user) set in
    unless (not (any is_reserved_by_other authorities)) (fails Failure.namespace_reserved)
    >> unless (not (any is_unreserved authorities)) (fails Failure.namespace_not_reserved)

unfoldable pub planned_set : Outcome PlannerFault Plan → Call PageEndpointSet
planned_set (thrown fault) = stop (throws ServiceFault.bad_profiles_declared)
planned_set (returned (declined reason)) = stop (fails (Failure.unplanned reason))
planned_set (returned (accepted set)) = pure set

-- `can_persist_page_endpoint_set` of the repository
unfoldable pub can_persist_page_endpoint_set : PageEndpointSet → Bool
can_persist_page_endpoint_set set = not (is_some (page_endpoint_set_violation set))

unfoldable pub prepare_endpoint_intent : Setting → PageEndpointSet → Text → Call PageEndpointSet
prepare_endpoint_intent g intent content_type = do
  handler ← given (handler_named content_type g.handlers) (fails Failure.unknown_content_type)
  set ← planned_set (plan (engine_validate g) intent handler.supported_delivery_profiles)
  unless (can_persist_page_endpoint_set set) (fails Failure.endpoint_capacity_exceeded)
  pure set

abbrev pub inline_at : Locator → PageEndpointSet
inline_at locator = record {
  canonical = record { locator = locator; delivery_profile = codes "inline" };
  alternates = [];
}

-- The intent of a command that gives exactly one of the two forms
abbrev intent_of : Option Locator → Option PageEndpointSet → Option PageEndpointSet
intent_of (some locator) none = some (inline_at locator)
intent_of none (some set) = some set
intent_of _ _ = none

unfoldable pub prepare_endpoint_command : Setting → EndpointCommand → Text → Call PageEndpointSet
prepare_endpoint_command g command content_type = do
  intent ←
      given (intent_of command.locator command.endpoint_set)
        (fails (Failure.unplanned PlanFailure.invalid_locator))
  prepare_endpoint_intent g intent content_type

-- Here a plan that is declined is an error.
unfoldable pub canonical_set : Outcome PlannerFault Plan → Call PageEndpointSet
canonical_set (thrown fault) = stop (throws ServiceFault.bad_profiles_declared)
canonical_set (returned (declined reason)) = stop (throws ServiceFault.canonical_planning_failed)
canonical_set (returned (accepted set)) = pure set

unfoldable pub canonical_inline_endpoint_set : Setting → Locator → Text → Call PageEndpointSet
canonical_inline_endpoint_set g locator content_type = do
  handler ← given (handler_named content_type g.handlers) (throws ServiceFault.no_handler)
  canonical_set (plan (engine_validate g) (inline_at locator) handler.supported_delivery_profiles)

abbrev page_endpoint_bindings_equal : PageEndpointBinding → PageEndpointBinding → Bool
page_endpoint_bindings_equal left right =
    (left.delivery_profile == right.delivery_profile) && same_locator left.locator right.locator

abbrev bindings_equal : List PageEndpointBinding → List PageEndpointBinding → Bool
bindings_equal [] [] = true
bindings_equal (l ∷ ls) (r ∷ rs) = page_endpoint_bindings_equal l r && bindings_equal ls rs
bindings_equal _ _ = false

unfoldable pub page_endpoint_sets_equal : PageEndpointSet → PageEndpointSet → Bool
page_endpoint_sets_equal left right = bindings_equal (bindings_of left) (bindings_of right)
