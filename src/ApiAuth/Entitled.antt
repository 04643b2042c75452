-- ===== src/ApiAuth/Entitled.antt =====
-- lib/api-auth/: who may do an operation.
use iam_pager.Base.{
  Text, true, [], ◌∷◌, ◌++◌, Option, none, some, codes, ◌≡◌, refl, arith, Bool-cases, inl, inr,
  text_dec, ◌⊎◌,
}
use iam_pager.Session.{Session, SessionKind, Authentication, guest, authenticated}
use iam_pager.Session.Csrf.{csrf_tokens_match, csrf_tokens_match_lem}
use iam_pager.ApiKey.{ApiKeyPermission, read, write, delete, same_permission, grants}
use iam_pager.ApiKey.Service.{ApiKeyPrincipal}
use iam_pager.ApiAuth.{
  ApiPrincipal, browser_user, api_key, after_prefix, as_token, key_principal, matched,
  session_principal, bearer_scheme_pattern, authenticate, ApiOperationRequest, allowed,
  presented_token, authorize,
}

-- What makes a user entitled to an operation: a session of theirs in a request without a header,
-- with its token unless the operation only reads; or a key of theirs that the header bears and that
-- has the permission.
pub data Entitled (resolve_bearer : Text → Option ApiKeyPrincipal) (header : Option Text)
    (session : Session) (operation : ApiOperationRequest) (user_id : Text) : Type 0 where
  by_session :
      (a : Authentication)
      → header ≡ none
      → session.kind ≡ authenticated a
      → user_id ≡ a.user_id
      → (operation.permission ≡ read)
        ⊎ (a.csrf_token ≡ presented_token operation.presented_csrf_token)
      → Entitled resolve_bearer header session operation user_id
  by_key :
      (bearer : Text) (p : ApiKeyPrincipal)
      → header ≡ some (codes "Bearer " ++ bearer)
      → resolve_bearer bearer ≡ some p
      → user_id ≡ p.user_id
      → grants p.permissions operation.permission ≡ true
      → Entitled resolve_bearer header session operation user_id

after_prefix-append :
    (prefix value rest : Text) → after_prefix prefix value ≡ some rest → value ≡ prefix ++ rest
unfolding after_prefix
after_prefix-append [] value rest e = ground arith
after_prefix-append (c ∷ prefix) [] rest e = absurd (ground arith)
after_prefix-append (c ∷ prefix) (d ∷ value) rest e =
    ground (arith, after_prefix-append prefix value rest)

matching_tokens : (a b : Text) → csrf_tokens_match a b ≡ true → a ≡ b
matching_tokens a b e = elim (text_dec a b) [
  | yes same ↦ same
  | no other ↦ absurd (ground (arith, other, csrf_tokens_match_lem a b))
]

same_permission-read : (p : ApiKeyPermission) → same_permission p read ≡ true → p ≡ read
same_permission-read read e = refl
same_permission-read write e = absurd (ground arith)
same_permission-read delete e = absurd (ground arith)

browser_authorized :
    (user_id token : Text) (operation : ApiOperationRequest) (who : Text)
    → authorize (browser_user user_id token) operation ≡ allowed who
    → (who ≡ user_id)
      × ((operation.permission ≡ read) ⊎ (token ≡ presented_token operation.presented_csrf_token))
unfolding authorize
browser_authorized user_id token operation who e =
    let shown = presented_token operation.presented_csrf_token in
    elim (Bool-cases (same_permission operation.permission read)) [
      | inl reads ↦ (ground arith, inl (same_permission-read operation.permission reads))
      | inr writes ↦ elim (Bool-cases (csrf_tokens_match token shown)) [
        | inl match ↦ (ground arith, inr (matching_tokens token shown match))
        | inr differ ↦ absurd (ground arith)
      ]
    ]

key_authorized :
    (p : ApiKeyPrincipal) (operation : ApiOperationRequest) (who : Text)
    → authorize (api_key p) operation ≡ allowed who
    → (who ≡ p.user_id) × (grants p.permissions operation.permission ≡ true)
unfolding authorize
key_authorized p operation who e = ground arith

as_token-same : (m : Option Text) (bearer : Text) → as_token m ≡ some bearer → m ≡ some bearer
as_token-same none bearer e = absurd (ground arith)
as_token-same (some value) bearer e = ground arith

module _ (resolve_bearer : Text → Option ApiKeyPrincipal) (session : Session)
    (operation : ApiOperationRequest) (user_id : Text) where
  session_authorized :
      (kind : SessionKind)
      → session.kind ≡ kind
      → authorize (session_principal kind) operation ≡ allowed user_id
      → Entitled resolve_bearer none session operation user_id
  unfolding authorize
  session_authorized guest h e = absurd (ground arith)
  session_authorized (authenticated a) h e =
      let (who, by) = browser_authorized a.user_id a.csrf_token operation user_id e in
      by_session a refl h who by

  bearer_authorized :
      (bearer : Text) (found : Option ApiKeyPrincipal) (principal : ApiPrincipal)
      → resolve_bearer bearer ≡ found
      → key_principal found ≡ some principal
      → authorize principal operation ≡ allowed user_id
      → Entitled resolve_bearer (some (codes "Bearer " ++ bearer)) session operation user_id
  bearer_authorized bearer none principal h e k = absurd (ground arith)
  bearer_authorized bearer (some p) principal h e k =
      let same : principal ≡ api_key p = ground arith in
      let (who, granted) = key_authorized p operation user_id (rw (← same) k) in
      by_key bearer p refl h who granted

  header_authorized :
      (header : Text) (match : Option Text) (principal : ApiPrincipal)
      → bearer_scheme_pattern header ≡ match
      → matched resolve_bearer match ≡ some principal
      → authorize principal operation ≡ allowed user_id
      → Entitled resolve_bearer (some header) session operation user_id
  header_authorized header none principal h e k = absurd (ground arith)
  header_authorized header (some bearer) principal h e k =
      let taken = as_token-same (after_prefix (codes "Bearer ") header) bearer h in
      rw (after_prefix-append (codes "Bearer ") header bearer taken)
        (bearer_authorized bearer (resolve_bearer bearer) principal refl e k)

-- Whoever the policy allows an operation, as the principal of the request, is entitled to it:
-- a request with an authorization header is never served on its session.
pub authorize-Entitled :
    (resolve_bearer : Text → Option ApiKeyPrincipal) (header : Option Text) (session : Session)
    (operation : ApiOperationRequest) (principal : ApiPrincipal) (user_id : Text)
    → authenticate resolve_bearer header session ≡ some principal
    → authorize principal operation ≡ allowed user_id
    → Entitled resolve_bearer header session operation user_id
unfolding authenticate
authorize-Entitled resolve_bearer none session operation principal user_id e k =
    let same : principal ≡ session_principal session.kind = ground arith in
    session_authorized resolve_bearer session operation user_id session.kind refl (rw (← same) k)
authorize-Entitled resolve_bearer (some header) session operation principal user_id e k =
    header_authorized resolve_bearer session operation user_id header (bearer_scheme_pattern header)
      principal refl e k
