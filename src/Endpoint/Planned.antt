-- ===== src/Endpoint/Planned.antt =====
-- lib/page/endpoint.ts: what the planner accepts.
use iam_pager.Base.{
  Text, List, [], ◌∷◌, Option, none, some, true, false, ◌≡◌, refl, inl, inr, arith, member, All,
  text_lt, text_lt_irrefl, text_lt_total, text_lt_trans, ◌==◌, Bool-cases,
}
use iam_pager.Base.Exec.{returned}
use iam_pager.Base.Patterns.{non_empty}
use iam_pager.Base.Sort.{sort, insert, sort-All, insert-All}
use iam_pager.Locator.{Locator, LocatorResolution, resolved, unresolved, LocatorResolutionError}
use iam_pager.Locator
use iam_pager.Endpoint.{
  PageEndpointBinding, PageEndpointSet, binding_violation, alternates_violation,
  page_endpoint_set_violation, is_valid_delivery_profile, bindings_of, key_of,
  name_present_and_empty, out_of_order,
}
use iam_pager.Endpoint.Planner.{
  PlannerFault, PlanFailure, accepted, plan, plan_unless, planned, first_failure, refusal, before,
  profiles_fault,
}

-- The validator accepts only locators whose texts are not empty.
abbrev pub AcceptsWhole : (Locator → LocatorResolution) → Type 0
AcceptsWhole validate =
    (l m : Locator)
    → validate l ≡ resolved m
    → (non_empty l.namespace ≡ true) × (name_present_and_empty l.page_name ≡ false)

abbrev IsSound : PageEndpointBinding → Type 0
IsSound b = binding_violation b ≡ none

-- The binding's key is none of the claimed ones.
abbrev IsUnclaimed : List Text → PageEndpointBinding → Type 0
IsUnclaimed claimed b = member (key_of b) claimed ≡ false

-- Each binding's key is other than those of the bindings after it.
abbrev AreApart : List PageEndpointBinding → Type 0
AreApart [] = Unit
AreApart (b ∷ bs) = All (λ c. (key_of b == key_of c) ≡ false) bs × AreApart bs

module _ (validate : Locator → LocatorResolution) (whole : AcceptsWhole validate)
    (profiles : List Text) where
  accepted-IsSound :
      (b : PageEndpointBinding) (r : LocatorResolution)
      → validate b.locator ≡ r
      → refusal r ≡ none
      → is_valid_delivery_profile b.delivery_profile ≡ true
      → IsSound b
  unfolding binding_violation
  accepted-IsSound b (resolved m) e n ok = ground (arith, whole b.locator m e)
  accepted-IsSound b (unresolved Locator.forbidden_namespace) e n ok = cc
  accepted-IsSound b (unresolved Locator.not_a_locator) e n ok = cc
  accepted-IsSound b (unresolved Locator.invalid_segment) e n ok = cc

  IsUnclaimed-tail :
      (k : Text) (claimed : List Text) (bs : List PageEndpointBinding)
      → All (IsUnclaimed (k ∷ claimed)) bs
      → All (λ c. (k == key_of c) ≡ false) bs × All (IsUnclaimed claimed) bs
  unfolding member
  IsUnclaimed-tail k claimed [] h = (tt, tt)
  IsUnclaimed-tail k claimed (b ∷ bs) h = ground (arith, IsUnclaimed-tail k claimed bs h.1)

  passed_bindings :
      (claimed : List Text) (bs : List PageEndpointBinding)
      → first_failure validate profiles claimed bs ≡ none
      → All IsSound bs × All (IsUnclaimed claimed) bs × AreApart bs
  unfolding first_failure
  passed_bindings claimed [] h = (tt, tt, tt)
  passed_bindings claimed (b ∷ bs) h =
      let later : first_failure validate profiles (key_of b ∷ claimed) bs ≡ none = ground arith in
      let none_refuses : refusal (validate b.locator) ≡ none = ground arith in
      let profile_ok : is_valid_delivery_profile b.delivery_profile ≡ true = ground arith in
      let unclaimed : IsUnclaimed claimed b = ground arith in
      let (sound, free, apart) = passed_bindings (key_of b ∷ claimed) bs later in
      let (other, rest) = IsUnclaimed-tail (key_of b) claimed bs free in
      let good = accepted-IsSound b (validate b.locator) refl none_refuses profile_ok in
      ((good, sound), (unclaimed, rest), (other, apart))

-- The binding's key is above the text.
abbrev IsAbove : Text → PageEndpointBinding → Type 0
IsAbove k c = text_lt k (key_of c) ≡ true

abbrev Ascends : List PageEndpointBinding → Type 0
Ascends [] = Unit
Ascends (b ∷ bs) = All (IsAbove (key_of b)) bs × Ascends bs

IsAbove-All :
    (j k : Text) (bs : List PageEndpointBinding)
    → text_lt j k ≡ true
    → All (IsAbove k) bs
    → All (IsAbove j) bs
IsAbove-All j k [] h a = tt
IsAbove-All j k (b ∷ bs) h a = (text_lt_trans j k (key_of b) h a.0, IsAbove-All j k bs h a.1)

insert-Ascends :
    (x : PageEndpointBinding) (ys : List PageEndpointBinding)
    → All (λ c. (key_of x == key_of c) ≡ false) ys
    → Ascends ys
    → Ascends (insert before x ys)
unfolding insert
insert-Ascends x [] apart a = (tt, tt)
insert-Ascends x (y ∷ ys) apart a = elim (Bool-cases (before y x)) [
  | inl below ↦
      rw below
        (insert-All before (IsAbove (key_of y)) x ys below a.0, insert-Ascends x ys apart.1 a.1)
  | inr above ↦
      let other : (key_of y == key_of x) ≡ false = ground (arith, apart.0) in
      let under = text_lt_total (key_of y) (key_of x) above other in
      rw above ((under, IsAbove-All (key_of x) (key_of y) ys under a.0), a)
]

sort-Ascends : (bs : List PageEndpointBinding) → AreApart bs → Ascends (sort before bs)
unfolding sort
sort-Ascends [] apart = tt
sort-Ascends (b ∷ bs) apart =
    insert-Ascends b (sort before bs)
      (sort-All before (λ c. (key_of b == key_of c) ≡ false) bs apart.0) (sort-Ascends bs apart.1)

abbrev Follows : Option Text → List PageEndpointBinding → Type 0
Follows none bs = Unit
Follows (some k) bs = All (IsAbove k) bs

still-IsUnclaimed :
    (k : Text) (claimed : List Text) (bs : List PageEndpointBinding)
    → All (IsAbove k) bs
    → All (IsUnclaimed claimed) bs
    → All (IsUnclaimed (k ∷ claimed)) bs
unfolding member
still-IsUnclaimed k claimed [] a free = tt
still-IsUnclaimed k claimed (b ∷ bs) a free =
    (ground (arith, a.0, free.0, text_lt_irrefl k), still-IsUnclaimed k claimed bs a.1 free.1)

in_order :
    (previous : Option Text) (b : PageEndpointBinding) (bs : List PageEndpointBinding)
    → Follows previous (b ∷ bs)
    → out_of_order previous (key_of b) ≡ false
in_order none b bs h = refl
in_order (some k) b bs h = ground (arith, h.0)

ascending_alternates :
    (claimed : List Text) (previous : Option Text) (bs : List PageEndpointBinding)
    → All IsSound bs
    → All (IsUnclaimed claimed) bs
    → Ascends bs
    → Follows previous bs
    → alternates_violation claimed previous bs ≡ none
unfolding alternates_violation
ascending_alternates claimed previous [] sound free a f = refl
ascending_alternates claimed previous (b ∷ bs) sound free a f =
    let later =
      ascending_alternates (key_of b ∷ claimed) (some (key_of b)) bs sound.1
        (still-IsUnclaimed (key_of b) claimed bs a.0 free.1) a.1 a.0 in
    rw (sound.0, free.0, in_order previous b bs f, later) refl

apart_canonical :
    (k : Text) (bs : List PageEndpointBinding)
    → All (λ c. (k == key_of c) ≡ false) bs
    → All (IsUnclaimed (k ∷ [])) bs
unfolding member
apart_canonical k [] h = tt
apart_canonical k (b ∷ bs) h = (ground (arith, h.0), apart_canonical k bs h.1)

passed_set :
    (intent : PageEndpointSet)
    → All IsSound (bindings_of intent)
    → AreApart (bindings_of intent)
    → page_endpoint_set_violation (planned intent) ≡ none
unfolding page_endpoint_set_violation planned
passed_set intent sound apart =
    let alternates = sort before intent.alternates in
    let ordered =
      ascending_alternates (key_of intent.canonical ∷ []) none alternates
        (sort-All before IsSound intent.alternates sound.1)
        (apart_canonical (key_of intent.canonical) alternates (
          sort-All before (λ c. (key_of intent.canonical == key_of c) ≡ false) intent.alternates
            apart.0))
        (sort-Ascends intent.alternates apart.1) tt in
    rw (sound.0, ordered) refl

unless_accepted :
    (fault : Option PlannerFault) (reason : Option PlanFailure) (intent set : PageEndpointSet)
    → plan_unless fault reason intent ≡ returned (accepted set)
    → (set ≡ planned intent) × (reason ≡ none)
unless_accepted (some fault) reason intent set e = cc
unless_accepted none (some reason) intent set e = cc
unless_accepted none none intent set e = (ground arith, refl)

accepted_plan :
    (validate : Locator → LocatorResolution) (intent set : PageEndpointSet) (profiles : List Text)
    → plan validate intent profiles ≡ returned (accepted set)
    → (set ≡ planned intent) × (first_failure validate profiles [] (bindings_of intent) ≡ none)
unfolding plan
accepted_plan validate intent set profiles e =
    unless_accepted (profiles_fault profiles) _ intent set e

-- Where the validator accepts no empty namespace or page name, an endpoint set that the planner
-- accepts is the intent with its alternates in the order of their keys, and has no violation: the
-- repository stores it.
pub plan-violation :
    (validate : Locator → LocatorResolution) (intent set : PageEndpointSet) (profiles : List Text)
    → AcceptsWhole validate
    → plan validate intent profiles ≡ returned (accepted set)
    → (set ≡ planned intent) × (page_endpoint_set_violation set ≡ none)
plan-violation validate intent set profiles whole e =
    let (same, passed) = accepted_plan validate intent set profiles e in
    let (sound, _, apart) =
      passed_bindings validate whole profiles [] (bindings_of intent) passed in
    (same, rw same (passed_set intent sound apart))
