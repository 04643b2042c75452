-- ===== src/Endpoint/Tests.antt =====
-- Endpoint sets at concrete bindings.
use iam_pager.Base.{
  Text, codes, none, some, ◌≡◌, refl, [], ◌∷◌, map, to_lower, text_lt, member, text_dec,
  if◌then◌else◌, Bool, ◌&&◌, not, Bool-cases, inl, inr, arith,
}
use iam_pager.Base.Exec.{returned}
use iam_pager.Base.Patterns.{headed, non_empty}
use iam_pager.Base.Sort.{sort, insert}
use iam_pager.Locator.{Locator, LocatorResolution, resolved, unresolved, locator_key}
use iam_pager.Locator
use iam_pager.Endpoint.{
  PageEndpointBinding, PageEndpointSet, page_endpoint_set_violation, is_valid_delivery_profile,
  unordered_alternates, duplicate_locator, bindings_of, key_of, name_present_and_empty,
}
use iam_pager.Endpoint.Planner.{plan, planned, profiles_fault, first_failure, accepted}
use iam_pager.Endpoint.Planned.{AcceptsWhole, plan-violation}
use iam_pager.Endpoint.Violation.{Distinct, violation-none-Distinct}

program : Unit {0}
unfolding page_endpoint_set_violation is_valid_delivery_profile headed locator_key to_lower text_lt
    member text_dec plan planned profiles_fault first_failure sort insert
program = tt

abbrev at : Text → PageEndpointBinding
at name = record {
  locator = record { namespace = codes "Docs"; page_name = some name };
  delivery_profile = codes "inline";
}

abbrev three : PageEndpointSet
three = record { canonical = at (codes "z"); alternates = at (codes "a") ∷ at (codes "B") ∷ [] }

three_ok : page_endpoint_set_violation three ≡ none
unfolding program
three_ok = refl

three_reversed :
    page_endpoint_set_violation
      (record { canonical = at (codes "z"); alternates = at (codes "B") ∷ at (codes "a") ∷ [] })
    ≡ some unordered_alternates
unfolding program
three_reversed = refl

twice_named :
    page_endpoint_set_violation
      (record { canonical = at (codes "z"); alternates = at (codes "Z") ∷ [] })
    ≡ some duplicate_locator
unfolding program
twice_named = refl

violation-none-Distinct_example : Distinct (map key_of (bindings_of three))
violation-none-Distinct_example = violation-none-Distinct three three_ok

-- A validator that looks at the two texts of a locator only
abbrev is_whole : Locator → Bool
is_whole l = non_empty l.namespace && not (name_present_and_empty l.page_name)

abbrev whole_or_refused : Locator → LocatorResolution
whole_or_refused l = if is_whole l then resolved l else unresolved Locator.invalid_segment

whole_or_refused-AcceptsWhole : AcceptsWhole whole_or_refused
whole_or_refused-AcceptsWhole l m e = elim (Bool-cases (non_empty l.namespace)) [
  | inl there ↦ elim (Bool-cases (name_present_and_empty l.page_name)) [
    | inl empty ↦ ground arith
    | inr full ↦ (there, full)
  ]
  | inr absent ↦ ground arith
]

abbrev mixed : PageEndpointSet
mixed = record { canonical = at (codes "z"); alternates = at (codes "B") ∷ at (codes "a") ∷ [] }

mixed_planned : plan whole_or_refused mixed (codes "inline" ∷ []) ≡ returned (accepted three)
unfolding program
mixed_planned = refl

plan-violation_example : (three ≡ planned mixed) × (page_endpoint_set_violation three ≡ none)
plan-violation_example =
    plan-violation whole_or_refused mixed three (codes "inline" ∷ []) whole_or_refused-AcceptsWhole
      mixed_planned
