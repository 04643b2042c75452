-- ===== src/Namespace.antt =====
-- lib/namespace: reservations of namespaces, and what they mean for an actor
-- (lib/page/namespace-authority.ts).
use iam_pager.Base.{
  Text, Bool, List, [], ◌∷◌, Option, none, some, true, false, if◌then◌else◌, ◌==◌, filter,
}
use iam_pager.Base.Map.{Map, get, has, put, values}
use iam_pager.Locator.{
  Locator, locator_key, LocatorResolution, resolved, unresolved, LocatorResolutionError,
}
use iam_pager.Locator
use iam_pager.Content.{Date}
pub mod FirstClaim
mod Tests

pub record NamespaceReservation : Type 0 where
  pub namespace : Text
  pub owner_user_id : Text
  pub reserved_at : Date

abbrev pub bare : Text → Locator
bare namespace = record { namespace = namespace; page_name = none }

unfoldable pub namespace_key : Text → Text
namespace_key namespace = locator_key (bare namespace)

pub record ReserveRequest : Type 0 where
  pub namespace : Text
  pub owner_user_id : Text

-- The answer of the repository and of the service
pub data ReserveResult : Type 0 where
  reserved : NamespaceReservation → ReserveResult
  taken invalid_namespace forbidden_namespace : ReserveResult

abbrev pub Reservations : Type 0
Reservations = Map NamespaceReservation

abbrev pub reservation_of : ReserveRequest → Date → NamespaceReservation
reservation_of request now = record {
  namespace = request.namespace;
  owner_user_id = request.owner_user_id;
  reserved_at = now;
}

unfoldable pub reserve : ReserveRequest → Date → Reservations → ReserveResult × Reservations
reserve request now s = if has s (namespace_key request.namespace) then (taken, s) else (
  reserved (reservation_of request now),
  put s (namespace_key request.namespace) (reservation_of request now),
)

unfoldable pub find : Text → Reservations → Option NamespaceReservation
find namespace s = get s (namespace_key namespace)

unfoldable pub list_by_owner : Text → Reservations → List NamespaceReservation
list_by_owner owner s = filter (λ r. r.owner_user_id == owner) (values s)

-- The service's answer where the locator engine refuses the bare namespace
abbrev pub refusal_of : LocatorResolutionError → ReserveResult
refusal_of Locator.forbidden_namespace = forbidden_namespace
refusal_of Locator.not_a_locator = invalid_namespace
refusal_of Locator.invalid_segment = invalid_namespace

abbrev pub reserve_validated :
    LocatorResolution → ReserveRequest → Date → Reservations → ReserveResult × Reservations
reserve_validated (unresolved reason) request now s = (refusal_of reason, s)
reserve_validated (resolved locator) request now s = reserve request now s

-- `NamespaceReservationService.reserve`, over the engine's `validate`
unfoldable pub reserve_namespace :
    (Locator → LocatorResolution)
    → ReserveRequest
    → Date
    → Reservations
    → ReserveResult × Reservations
reserve_namespace validate request now s =
    reserve_validated (validate (bare request.namespace)) request now s

pub data PageActor : Type 0 where
  guest_actor : PageActor
  user_actor : Text → Bool → PageActor

pub data NamespaceAuthority : Type 0 where
  unreserved owned reserved_by_other : NamespaceAuthority

abbrev pub authority_over : PageActor → Option NamespaceReservation → NamespaceAuthority
authority_over actor none = unreserved
authority_over guest_actor (some r) = reserved_by_other
authority_over (user_actor user_id via_api_key) (some r) =
    if user_id == r.owner_user_id then owned else reserved_by_other

unfoldable pub resolve_authority : PageActor → Text → Reservations → NamespaceAuthority
resolve_authority actor namespace s = authority_over actor (find namespace s)
