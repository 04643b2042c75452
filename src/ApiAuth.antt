-- ===== src/ApiAuth.antt =====
-- lib/api-auth/: the actor behind a request, and what it may do. A header that is absent is none,
-- and the resolver of bearers is a parameter.
use iam_pager.Base.{
  Text, Bool, true, List, [], ◌∷◌, Option, none, some, codes, all, eqb, not, ◌&&◌, if◌then◌else◌,
}
use iam_pager.Base.Patterns.{non_empty}
use iam_pager.Page.{is_white}
use iam_pager.Session.{Session, SessionKind, guest, authenticated}
use iam_pager.Session.Csrf.{csrf_tokens_match}
use iam_pager.ApiKey.{ApiKeyPermission, read, same_permission, grants}
use iam_pager.ApiKey.Service.{ApiKeyPrincipal}
pub mod Entitled
mod Tests

pub data ApiPrincipal : Type 0 where
  no_user : ApiPrincipal
  browser_user : Text → Text → ApiPrincipal
  api_key : ApiKeyPrincipal → ApiPrincipal

-- The text after a prefix, where the value begins with it
unfoldable pub after_prefix : Text → Text → Option Text
after_prefix [] value = some value
after_prefix (c ∷ prefix) [] = none
after_prefix (c ∷ prefix) (d ∷ value) =
    let rest = after_prefix prefix value in if eqb c d then rest else none

abbrev pub is_token : Text → Bool
is_token value = non_empty value && all (λ c. not (is_white c)) value

abbrev pub as_token : Option Text → Option Text
as_token none = none
as_token (some value) = if is_token value then some value else none

-- The group of `/^Bearer (\S+)$/`
abbrev pub bearer_scheme_pattern : Text → Option Text
bearer_scheme_pattern value = as_token (after_prefix (codes "Bearer ") value)

abbrev pub key_principal : Option ApiKeyPrincipal → Option ApiPrincipal
key_principal none = none
key_principal (some p) = some (api_key p)

abbrev pub matched : (Text → Option ApiKeyPrincipal) → Option Text → Option ApiPrincipal
matched resolve_bearer none = none
matched resolve_bearer (some bearer) = key_principal (resolve_bearer bearer)

abbrev pub session_principal : SessionKind → ApiPrincipal
session_principal guest = no_user
session_principal (authenticated a) = browser_user a.user_id a.csrf_token

-- None stands for `invalid_bearer`, the only reason there is.
unfoldable pub authenticate :
    (Text → Option ApiKeyPrincipal) → Option Text → Session → Option ApiPrincipal
authenticate resolve_bearer (some header) session =
    matched resolve_bearer (bearer_scheme_pattern header)
authenticate resolve_bearer none session = some (session_principal session.kind)

pub record ApiOperationRequest : Type 0 where
  pub permission : ApiKeyPermission
  pub presented_csrf_token : Option Text

pub data ApiAuthorizationFailure : Type 0 where
  not_authenticated invalid_csrf insufficient_permission : ApiAuthorizationFailure

pub data ApiAuthorizationResult : Type 0 where
  allowed : Text → ApiAuthorizationResult
  denied : ApiAuthorizationFailure → ApiAuthorizationResult

-- `presented_csrf_token ?? ""`
abbrev pub presented_token : Option Text → Text
presented_token none = []
presented_token (some token) = token

unfoldable pub authorize : ApiPrincipal → ApiOperationRequest → ApiAuthorizationResult
authorize no_user operation = denied not_authenticated
authorize (browser_user user_id csrf_token) operation =
    if not (same_permission operation.permission read)
      && not (csrf_tokens_match csrf_token (presented_token operation.presented_csrf_token))
    then denied invalid_csrf
    else allowed user_id
authorize (api_key principal) operation =
    if not (grants principal.permissions operation.permission)
    then denied insufficient_permission
    else allowed principal.user_id
