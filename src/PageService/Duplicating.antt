-- ===== src/PageService/Duplicating.antt =====
-- lib/page/service.ts: `duplicate_managed`.
use iam_pager.Base.{
  Text, ℕ, zero, suc, Bool, List, [], ◌∷◌, Option, none, some, true, false, not, ◌&&◌, member, eqb,
  to_lower, codes, ◌==◌,
}
use iam_pager.Base.Exec.{Outcome, returned, thrown}
use iam_pager.Content.{Date}
use iam_pager.Locator.{Locator, LocatorResolution, resolved, unresolved}
use iam_pager.Endpoint.{PageEndpointSet, PageEndpointBinding}
use iam_pager.Aggregate.{PageAggregate}
use iam_pager.PageRepository.Requests.{
  DuplicateManagedRequest, Reason, Reply, committed, rejected, CommitOutcome,
}
use iam_pager.PageRepository.Creation.{duplicate_managed_page_aggregate}
use iam_pager.PageService.Model.{
  Setting, DuplicateRequest, Failure, ServiceOutcome, MaterializedPage, ManagedPageInspection,
  ContentTypeHandler,
}
use iam_pager.PageService.Call.{
  Call, Stop, fails, throws, ServiceFault, ◌>>=◌, ◌>>◌, pure, stop, unless, ask, given, draw_name,
}
use iam_pager.PageService.Content.{require_handler}
use iam_pager.PageService.Endpoints.{
  prepare_endpoint_intent, require_authority, canonical_inline_endpoint_set, engine_validate,
}
use iam_pager.PageService.Pages.{
  require_user, operation_time, generate_page_id, find_writable_page, materialize_aggregate,
  inspection, type_of,
}
use iam_pager.PageService.Publishing.{outcome_name}
use iam_pager.PageService.Updating.{require_revision, catching}

-- A copy, or nothing where its locator is taken
abbrev pub Copy : Type 0
Copy = Option (ServiceOutcome × ManagedPageInspection)

unfoldable pub duplicated : Setting → CommitOutcome → PageAggregate → Call Copy
duplicated g outcome page = do
  found ← materialize_aggregate page
  shown ← inspection g found
  pure (some (outcome_name outcome, shown))

-- What a rejected copy ends the loop with: a failure, or no copy
abbrev pub after_duplicate : Reason → Option (Outcome Stop Copy)
after_duplicate Reason.not_found = some (thrown (fails Failure.not_found))
after_duplicate Reason.revision_conflict = some (thrown (fails Failure.revision_conflict))
after_duplicate Reason.endpoint_conflict = some (returned none)
after_duplicate reason = none

unfoldable pub concluded_or : Option (Outcome Stop Copy) → Call Copy → Call Copy
concluded_or none again = again
concluded_or (some (returned copy)) again = pure copy
concluded_or (some (thrown e)) again = stop e

unfoldable pub duplicate_reply : Setting → Reply → Call Copy → Call Copy
duplicate_reply g (committed outcome page) again = duplicated g outcome page
duplicate_reply g (rejected reason) again = concluded_or (after_duplicate reason) again

abbrev pub duplicate_request :
    DuplicateRequest → PageAggregate → Text → PageEndpointSet → Date → DuplicateManagedRequest
duplicate_request r source page_id set now = record {
  source_page_id = source.page_id;
  owner_user_id = r.actor.user_id;
  expected_revision = r.expected_revision;
  page_id = page_id;
  endpoint_set = set;
  now = now;
}

-- The loop over page identities, for a copy at the set that `destination` gives
unfoldable pub duplicate_attempts :
    ℕ → Setting → DuplicateRequest → PageAggregate → Call PageEndpointSet → Date → Call Copy
duplicate_attempts zero g r source destination now =
    stop (fails Failure.page_id_generation_exhausted)
duplicate_attempts (suc n) g r source destination now = do
  page_id ← generate_page_id g
  set ← destination
  reply ← ask (duplicate_managed_page_aggregate (duplicate_request r source page_id set now))
  duplicate_reply g reply (duplicate_attempts n g r source destination now)

abbrev after_duplicate_plan : Stop → Stop
after_duplicate_plan (fails Failure.unknown_content_type) = throws ServiceFault.no_handler
after_duplicate_plan e = e

unfoldable pub duplicate_to :
    Setting
    → DuplicateRequest
    → MaterializedPage
    → PageEndpointSet
    → Call (ServiceOutcome × ManagedPageInspection)
duplicate_to g r source intent = do
  set ←
      catching (prepare_endpoint_intent g intent (type_of source.content))
        (λ e. stop (after_duplicate_plan e))
  require_authority g r.actor set
  now ← operation_time g
  copy ← duplicate_attempts g.max_page_id_attempts g r source.page (pure set) now
  given copy (fails Failure.page_exists)

abbrev is_resolved : LocatorResolution → Bool
is_resolved (resolved locator) = true
is_resolved (unresolved reason) = false

abbrev pub named : Locator → Text → Locator
named current page_name = record { namespace = current.namespace; page_name = some page_name }

-- The copy, or the next name where the locator is taken
unfoldable pub copied_or :
    Copy
    → Call (ServiceOutcome × ManagedPageInspection)
    → Call (ServiceOutcome × ManagedPageInspection)
copied_or (some made) again = pure made
copied_or none again = again

-- The loop over generated names, with the lower-case names used so far
unfoldable pub name_attempts :
    ℕ
    → Setting
    → DuplicateRequest
    → MaterializedPage
    → List Text
    → Date
    → Call (ServiceOutcome × ManagedPageInspection)
name_attempts zero g r source used now = stop (fails Failure.page_name_generation_exhausted)
name_attempts (suc n) g r source used now = do
  page_name ← draw_name (λ i. g.page_names i used)
  unless (not (member (to_lower page_name) used)) (throws ServiceFault.repeated_name)
  unless
      (is_resolved (engine_validate g (named source.page.endpoint_set.canonical.locator page_name)))
      (throws ServiceFault.bad_generated_name)
  copy ←
      duplicate_attempts g.max_page_id_attempts g r source.page
        (canonical_inline_endpoint_set g
          (named source.page.endpoint_set.canonical.locator page_name) (type_of source.content))
        now
  copied_or copy (name_attempts n g r source (to_lower page_name ∷ used) now)

abbrev has_no_binding : List PageEndpointBinding → Bool
has_no_binding [] = true
has_no_binding (_ ∷ _) = false

abbrev is_inline_only : List Text → Bool
is_inline_only (profile ∷ []) = profile == codes "inline"
is_inline_only _ = false

-- The source has one endpoint, delivered inline, and its type can do nothing else.
abbrev is_trivial_source : ContentTypeHandler → PageEndpointSet → Bool
is_trivial_source handler set =
    has_no_binding set.alternates
    && (set.canonical.delivery_profile == codes "inline")
    && is_inline_only handler.supported_delivery_profiles

abbrev names_of : Option Text → List Text
names_of none = []
names_of (some page_name) = to_lower page_name ∷ []

unfoldable pub duplicate_by_name :
    Setting
    → DuplicateRequest
    → MaterializedPage
    → ContentTypeHandler
    → Call (ServiceOutcome × ManagedPageInspection)
duplicate_by_name g r source handler = do
  unless (is_trivial_source handler source.page.endpoint_set) (fails Failure.endpoint_set_required)
  now ← operation_time g
  name_attempts g.max_page_name_attempts g r source
      (names_of source.page.endpoint_set.canonical.locator.page_name) now

unfoldable pub duplicate_into :
    Setting
    → DuplicateRequest
    → MaterializedPage
    → ContentTypeHandler
    → Option PageEndpointSet
    → Call (ServiceOutcome × ManagedPageInspection)
duplicate_into g r source handler (some intent) = duplicate_to g r source intent
duplicate_into g r source handler none = duplicate_by_name g r source handler

unfoldable pub duplicate_managed :
    Setting → DuplicateRequest → Call (ServiceOutcome × ManagedPageInspection)
duplicate_managed g r = do
  require_user r.actor
  require_revision r.expected_revision
  source ← find_writable_page g r.actor r.page_id
  unless (eqb source.page.revision r.expected_revision) (fails Failure.revision_conflict)
  handler ← require_handler g (type_of source.content)
  duplicate_into g r source handler r.endpoint_set
