-- ===== src/Endpoint/Planner.antt =====
-- lib/page/endpoint.ts: the planner of endpoint sets and the links of a stored one.
use iam_pager.Base.{
  Text, Bool, ℕ, List, [], ◌∷◌, Option, none, some, if◌then◌else◌, true, false, ◌&&◌, ◌||◌, not,
  member, text_lt, any, leb, eqb, is_some,
}
use iam_pager.Base.Exec.{Outcome, returned, thrown}
use iam_pager.Base.Sort.{sort}
use iam_pager.Locator.{
  Locator, locator_key, LocatorResolution, resolved, unresolved, LocatorResolutionError,
}
use iam_pager.Locator
use iam_pager.Endpoint.{
  PageEndpointBinding, PageEndpointSet, is_valid_delivery_profile, bindings_of, key_of,
  page_endpoint_set_violation,
}

-- What a plan is refused for
pub data PlanFailure : Type 0 where
  invalid_locator forbidden_namespace duplicate_locator unsupported_delivery_profile : PlanFailure

pub data PlannerFault : Type 0 where
  no_profiles bad_profiles : PlannerFault

-- An intent is an endpoint set whose alternates are in any order, and empty where left out.
pub data Plan : Type 0 where
  accepted : PageEndpointSet → Plan
  declined : PlanFailure → Plan

-- The loop of `require_supported_profiles`
abbrev usable_profiles : List Text → List Text → Bool
usable_profiles supported [] = true
usable_profiles supported (profile ∷ rest) =
    is_valid_delivery_profile profile
    && not (member profile supported)
    && usable_profiles (profile ∷ supported) rest

unfoldable pub profiles_fault : List Text → Option PlannerFault
profiles_fault [] = some no_profiles
profiles_fault (profile ∷ rest) =
    if usable_profiles [] (profile ∷ rest) then none else some bad_profiles

abbrev pub refusal : LocatorResolution → Option PlanFailure
refusal (resolved locator) = none
refusal (unresolved Locator.forbidden_namespace) = some forbidden_namespace
refusal (unresolved Locator.not_a_locator) = some invalid_locator
refusal (unresolved Locator.invalid_segment) = some invalid_locator

-- The loop over the bindings, with the keys claimed so far: the first failure, where there is one
unfoldable pub first_failure :
    (Locator → LocatorResolution)
    → List Text
    → List Text
    → List PageEndpointBinding
    → Option PlanFailure
first_failure validate profiles claimed [] = none
first_failure validate profiles claimed (b ∷ rest) =
    let later = first_failure validate profiles (key_of b ∷ claimed) rest in
    if not (is_valid_delivery_profile b.delivery_profile)
      || not (member b.delivery_profile profiles)
    then some unsupported_delivery_profile
    else if is_some (refusal (validate b.locator))
    then refusal (validate b.locator)
    else if member (key_of b) claimed
    then some duplicate_locator
    else later

abbrev pub before : PageEndpointBinding → PageEndpointBinding → Bool
before left right = text_lt (key_of left) (key_of right)

unfoldable pub planned : PageEndpointSet → PageEndpointSet
planned intent = record intent { alternates = sort before intent.alternates }

abbrev pub plan_unless :
    Option PlannerFault → Option PlanFailure → PageEndpointSet → Outcome PlannerFault Plan
plan_unless (some fault) failure intent = thrown fault
plan_unless none (some failure) intent = returned (declined failure)
plan_unless none none intent = returned (accepted (planned intent))

unfoldable pub plan :
    (Locator → LocatorResolution) → PageEndpointSet → List Text → Outcome PlannerFault Plan
plan validate intent profiles =
    plan_unless (profiles_fault profiles) (first_failure validate profiles [] (bindings_of intent))
      intent

abbrev starts_with_one_slash : Text → Bool
starts_with_one_slash [] = false
starts_with_one_slash (c ∷ []) = eqb c b'/'
starts_with_one_slash (c ∷ d ∷ rest) = eqb c b'/' && not (eqb d b'/')

abbrev is_unsafe_char : ℕ → Bool
is_unsafe_char c = leb c 0x1f || eqb c 0x7f || eqb c b'\\' || eqb c b'?' || eqb c b'#'

unfoldable pub is_safe_page_path : Text → Bool
is_safe_page_path value = starts_with_one_slash value && not (any is_unsafe_char value)

pub record PageEndpointLink : Type 0 where
  pub binding : PageEndpointBinding
  pub path : Text

pub record PageEndpointLinks : Type 0 where
  pub canonical : PageEndpointLink
  pub alternates : List PageEndpointLink

-- `project`: nothing where it throws, whether the formatter did or the path is unsafe
unfoldable pub project : (Locator → Option Text) → PageEndpointBinding → Option PageEndpointLink
project format binding = elim (format binding.locator) [
  | none ↦ none
  | some path ↦
      if is_safe_page_path path then some (record { binding = binding; path = path }) else none
]

abbrev followed_by :
    PageEndpointLink → Option (List PageEndpointLink) → Option (List PageEndpointLink)
followed_by link none = none
followed_by link (some rest) = some (link ∷ rest)

unfoldable pub project_all :
    (Locator → Option Text) → List PageEndpointBinding → Option (List PageEndpointLink)
project_all format [] = some []
project_all format (b ∷ rest) =
    let later = project_all format rest in
    elim (project format b) [ none ↦ none | some link ↦ followed_by link later ]

abbrev links_of :
    Option PageEndpointLink → Option (List PageEndpointLink) → Option PageEndpointLinks
links_of (some canonical) (some alternates) =
    some (record { canonical = canonical; alternates = alternates })
links_of _ _ = none

-- Nothing where the projection throws
unfoldable pub project_page_endpoint_links :
    (Locator → Option Text) → PageEndpointSet → Option PageEndpointLinks
project_page_endpoint_links format set =
    if is_some (page_endpoint_set_violation set)
    then none
    else links_of (project format set.canonical) (project_all format set.alternates)
