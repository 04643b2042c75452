-- ===== src/Endpoint.antt =====
-- lib/page/endpoint.ts and the delivery profiles of lib/content/model.ts.
pub mod Violation
pub mod Planner
pub mod Planned
mod Tests
use iam_pager.Base.{
  Text, ℕ, Bool, ◌&&◌, leb, length, List, [], ◌∷◌, Option, none, some, is_some, not, text_lt,
  member, if◌then◌else◌, true, false, ◌||◌, eqb,
}
use iam_pager.Base.Patterns.{is_lower, is_digit, headed, non_empty}
use iam_pager.Locator.{Locator, locator_key}

pub record PageEndpointBinding : Type 0 where
  pub locator : Locator
  pub delivery_profile : Text

pub record PageEndpointSet : Type 0 where
  pub canonical : PageEndpointBinding
  pub alternates : List PageEndpointBinding

abbrev pub max_delivery_profile_length : ℕ
max_delivery_profile_length = 32

abbrev is_profile_char : ℕ → Bool
is_profile_char c = is_lower c || is_digit c || eqb c b'-'

unfoldable pub is_valid_delivery_profile : Text → Bool
unfolding headed
is_valid_delivery_profile value =
    leb (length value) max_delivery_profile_length
    && headed is_lower is_profile_char max_delivery_profile_length value

pub data EndpointViolation : Type 0 where
  empty_namespace empty_page_name bad_delivery_profile duplicate_locator unordered_alternates :
      EndpointViolation

abbrev pub bindings_of : PageEndpointSet → List PageEndpointBinding
bindings_of s = s.canonical ∷ s.alternates

abbrev pub key_of : PageEndpointBinding → Text
key_of b = locator_key b.locator

abbrev name_present_and_empty : Option Text → Bool
name_present_and_empty none = false
name_present_and_empty (some name) = not (non_empty name)

-- The tests on one binding, before its key is claimed
binding_violation : PageEndpointBinding → Option EndpointViolation
binding_violation b =
    if not (non_empty b.locator.namespace)
    then some empty_namespace
    else if name_present_and_empty b.locator.page_name
    then some empty_page_name
    else if not (is_valid_delivery_profile b.delivery_profile)
    then some bad_delivery_profile
    else none

-- `previous_alternate_key !== null && compare_strings(previous_alternate_key, key) >= 0`
abbrev out_of_order : Option Text → Text → Bool
out_of_order none key = false
out_of_order (some previous) key = not (text_lt previous key)

-- The loop over the alternates, with the keys claimed so far and the previous alternate's key
alternates_violation : List Text → Option Text → List PageEndpointBinding → Option EndpointViolation
alternates_violation claimed previous [] = none
alternates_violation claimed previous (b ∷ rest) =
    let later = alternates_violation (key_of b ∷ claimed) (some (key_of b)) rest in
    if is_some (binding_violation b)
    then binding_violation b
    else if member (key_of b) claimed
    then some duplicate_locator
    else if out_of_order previous (key_of b)
    then some unordered_alternates
    else later

-- The loop's first round is the canonical binding: no key is claimed, and none is remembered.
unfoldable pub page_endpoint_set_violation : PageEndpointSet → Option EndpointViolation
unfolding binding_violation alternates_violation
page_endpoint_set_violation s =
    if is_some (binding_violation s.canonical)
    then binding_violation s.canonical
    else alternates_violation (key_of s.canonical ∷ []) none s.alternates
