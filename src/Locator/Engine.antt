-- ===== src/Locator/Engine.antt =====
-- lib/locator/engine.ts, over the strategies of lib/locator/strategy.ts.
use iam_pager.Base.{
  Text, Bool, List, [], ◌∷◌, Option, none, some, if◌then◌else◌, true, false, ◌==◌, ◌&&◌, not,
  member, map, to_lower, ◌≡◌, refl, arith,
}
use iam_pager.Base.Exec.{Outcome, returned, thrown}
use iam_pager.Locator.{
  Locator, LocatorResolution, resolved, unresolved, invalid_segment, forbidden_namespace,
}

-- A pure mapping between locators and pathnames. It does not throw: the texts of locators are taken
-- to be well formed, without lone surrogates.
pub record LocatorStrategy : Type 0 where
  pub strategy_name : Text
  pub resolve : Text → LocatorResolution
  pub format : Locator → Text

-- `default_strategy` is the strategy that the constructor's name stands for.
pub record LocatorEngine : Type 0 where
  pub strategies : List LocatorStrategy
  pub default_strategy : LocatorStrategy
  pub forbidden_namespaces : List Text

pub data EngineFault : Type 0 where
  no_strategy duplicate_strategy unknown_strategy forbidden : EngineFault

abbrev pub strategy_named : Text → List LocatorStrategy → Option LocatorStrategy
strategy_named name [] = none
strategy_named name (s ∷ rest) =
    if s.strategy_name == name then some s else strategy_named name rest

abbrev repeats_name : List Text → List LocatorStrategy → Bool
repeats_name names [] = false
repeats_name names (s ∷ rest) =
    if member s.strategy_name names then true else repeats_name (s.strategy_name ∷ names) rest

abbrev engine_over :
    List LocatorStrategy → List Text → Option LocatorStrategy → Outcome EngineFault LocatorEngine
engine_over strategies namespaces none = thrown unknown_strategy
engine_over strategies namespaces (some strategy) = returned (record {
  strategies = strategies;
  default_strategy = strategy;
  forbidden_namespaces = map to_lower namespaces;
})

abbrev default_name : Option Text → LocatorStrategy → Text
default_name none first = first.strategy_name
default_name (some name) first = name

-- The constructor
unfoldable pub new_locator_engine :
    List LocatorStrategy → Option Text → List Text → Outcome EngineFault LocatorEngine
new_locator_engine [] name namespaces = thrown no_strategy
new_locator_engine (first ∷ rest) name namespaces =
    if repeats_name [] (first ∷ rest)
    then thrown duplicate_strategy
    else engine_over (first ∷ rest) namespaces
        (strategy_named (default_name name first) (first ∷ rest))

unfoldable pub is_forbidden : LocatorEngine → Text → Bool
is_forbidden engine namespace = member (to_lower namespace) engine.forbidden_namespaces

-- `#strategy(name)`
unfoldable pub strategy_of : LocatorEngine → Option Text → Outcome EngineFault LocatorStrategy
strategy_of engine none = returned engine.default_strategy
strategy_of engine (some name) = elim (strategy_named name engine.strategies) [
  | none ↦ thrown unknown_strategy
  | some strategy ↦ returned strategy
]

-- `===` of two texts that may be absent
abbrev pub same_optional : Option Text → Option Text → Bool
same_optional none none = true
same_optional (some l) (some r) = l == r
same_optional _ _ = false

unfoldable pub same_locator : Locator → Locator → Bool
same_locator left right =
    left.namespace == right.namespace && same_optional left.page_name right.page_name

abbrev with_policy : LocatorEngine → LocatorResolution → LocatorResolution
with_policy engine (unresolved reason) = unresolved reason
with_policy engine (resolved locator) =
    if is_forbidden engine locator.namespace
    then unresolved forbidden_namespace
    else resolved locator

-- `resolve`, `validate` and `format` by the strategy that `strategy_of` gave
unfoldable pub resolve : LocatorEngine → LocatorStrategy → Text → LocatorResolution
resolve engine strategy pathname = with_policy engine (strategy.resolve pathname)

abbrev confirmed : LocatorEngine → Locator → LocatorResolution → LocatorResolution
confirmed engine locator (unresolved reason) = unresolved reason
confirmed engine locator (resolved found) =
    if not (same_locator found locator)
    then unresolved invalid_segment
    else if is_forbidden engine locator.namespace
    then unresolved forbidden_namespace
    else resolved found

unfoldable pub validate : LocatorEngine → LocatorStrategy → Locator → LocatorResolution
validate engine strategy locator =
    confirmed engine locator (strategy.resolve (strategy.format locator))

unfoldable pub format : LocatorEngine → LocatorStrategy → Locator → Outcome EngineFault Text
format engine strategy locator =
    if is_forbidden engine locator.namespace
    then thrown forbidden
    else returned (strategy.format locator)

same_optional-≡ : (l r : Option Text) → same_optional l r ≡ true → l ≡ r
same_optional-≡ none none e = refl
same_optional-≡ (some l) (some r) e = ground arith
same_optional-≡ none (some r) e = cc
same_optional-≡ (some l) none e = cc

same_locator-≡ : (l r : Locator) → same_locator l r ≡ true → l ≡ r
unfolding same_locator
same_locator-≡ l r e = let names = same_optional-≡ l.page_name r.page_name in ground (arith, names)

confirmed_same :
    (engine : LocatorEngine) (locator found : Locator) (r : LocatorResolution)
    → confirmed engine locator r ≡ resolved found
    → (found ≡ locator) × (r ≡ resolved locator) × (is_forbidden engine locator.namespace ≡ false)
confirmed_same engine locator found (unresolved reason) e = cc
confirmed_same engine locator found (resolved m) e =
    let same = same_locator-≡ m locator in ground (arith, same)

-- A locator that `validate` accepts is returned unchanged, it has a pathname, and the engine
-- resolves that pathname to the locator.
pub resolve-format :
    (engine : LocatorEngine) (strategy : LocatorStrategy) (locator found : Locator)
    → validate engine strategy locator ≡ resolved found
    → (found ≡ locator)
      × (path : Text) × (format engine strategy locator ≡ returned path)
      × (resolve engine strategy path ≡ resolved locator)
unfolding validate format resolve
resolve-format engine strategy locator found e =
    let (same, back, allowed) =
      confirmed_same engine locator found (strategy.resolve (strategy.format locator)) e in
    (same, strategy.format locator, rw allowed refl, rw (back, allowed) refl)
