-- ===== src/Locator.antt =====
-- lib/locator/model.ts: locators and their case-insensitive identity.
pub mod Identity
pub mod Engine
mod Tests
use iam_pager.Base.{Text, to_lower, codes, Option, none, some, ◌++◌}

pub record Locator : Type 0 where
  pub namespace : Text
  pub page_name : Option Text

pub data LocatorResolutionError : Type 0 where
  not_a_locator invalid_segment forbidden_namespace : LocatorResolutionError

pub data LocatorResolution : Type 0 where
  resolved : Locator → LocatorResolution
  unresolved : LocatorResolutionError → LocatorResolution

abbrev slash : Text
slash = codes "/"

locator_key_from : Text → Option Text → Text
locator_key_from namespace none = to_lower namespace
locator_key_from namespace (some page_name) = to_lower namespace ++ (slash ++ to_lower page_name)

unfoldable pub locator_key : Locator → Text
unfolding locator_key_from
locator_key l = locator_key_from l.namespace l.page_name
