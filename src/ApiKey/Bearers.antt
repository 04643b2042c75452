-- ===== src/ApiKey/Bearers.antt =====
-- lib/api-key/service.ts: a bearer that a creation hands out authenticates its owner.
use iam_pager.Base.{
  ℕ, zero, suc, Text, Bool, List, Option, none, some, true, not, leb, ◌≡◌, refl, arith, Bool-cases,
  inl, inr,
}
use iam_pager.Base.Map.{put, has, get-put}
use iam_pager.Base.Exec.{returned}
use iam_pager.ApiKey.{
  ApiKeyRecord, ApiKeyPermission, api_key_authenticates, is_valid_api_key_id,
  PermissionNormalization, normalized, rejected, normalize_api_key_permissions,
  is_valid_api_key_label,
}
use iam_pager.ApiKey.Store.{ApiKeyStore, find_by_secret_hash}
use iam_pager.ApiKey.Store
use iam_pager.ApiKey.Service.{
  KeySurroundings, CreateKeyRequest, create, create_attempts, create_validated, validate, validated,
  refused, ValidatedInput, created, new_key, bearer_at, resolve_bearer, is_well_formed_bearer,
  principal_of, Expiry, never, invalid, on, validate_permissions, validate_expiry,
}

-- The key has not expired.
abbrev is_ahead : ℕ → Option ℕ → Bool
is_ahead now none = true
is_ahead now (some time) = not (leb time now)

stored-resolves :
    (e : KeySurroundings) (r : ApiKeyRecord) (bearer : Text) (s : ApiKeyStore)
    → is_well_formed_bearer bearer ≡ true
    → r.secret_hash ≡ e.hash bearer
    → api_key_authenticates r e.now ≡ true
    → resolve_bearer e bearer (record {
      records = put s.records r.api_key_id r;
      by_secret_hash = put s.by_secret_hash r.secret_hash r.api_key_id;
    })
      ≡ some (principal_of r)
unfolding resolve_bearer find_by_secret_hash
stored-resolves e r bearer s fit hash ahead = ground (
  arith,
  get-put s.by_secret_hash r.secret_hash (e.hash bearer) r.api_key_id,
  get-put s.records r.api_key_id r.api_key_id r,
)

ahead-authenticates :
    (e : KeySurroundings) (request : CreateKeyRequest) (ps : List ApiKeyPermission)
    (till : Option ℕ) (n : ℕ)
    → is_ahead e.now till ≡ true
    → api_key_authenticates (new_key e request ps till n) e.now ≡ true
ahead-authenticates e request ps none n h = refl
ahead-authenticates e request ps (some time) n h = ground arith

create_attempts-resolve :
    (e : KeySurroundings) (request : CreateKeyRequest) (ps : List ApiKeyPermission)
    (till : Option ℕ) (left n : ℕ) (s t : ApiKeyStore) (r : ApiKeyRecord) (bearer : Text)
    → is_ahead e.now till ≡ true
    → create_attempts e request ps till left n s ≡ (returned (created r bearer), t)
    → resolve_bearer e bearer t ≡ some (principal_of r)
unfolding create_attempts Store.create
create_attempts-resolve e request ps till zero n s t r bearer ahead k = absurd (ground arith)
create_attempts-resolve e request ps till (suc left) n s t r bearer ahead k =
    let q = new_key e request ps till n in
    let later = create_attempts-resolve e request ps till left (suc n) s t r bearer ahead in
    elim (Bool-cases (is_valid_api_key_id (e.key_ids n))) [
      | inr bad ↦ absurd (ground arith)
      | inl ok ↦ elim (Bool-cases (is_well_formed_bearer (bearer_at e n))) [
        | inr bad ↦ absurd (ground arith)
        | inl fit ↦ elim (Bool-cases (has s.records (e.key_ids n))) [
          | inl taken ↦ later (ground arith)
          | inr new ↦ elim (Bool-cases (has s.by_secret_hash (e.hash (bearer_at e n)))) [
            | inl taken ↦ later (ground arith)
            | inr free ↦ ground (
              arith,
              stored-resolves e q (bearer_at e n) s fit refl
                  (ahead-authenticates e request ps till n ahead),
            )
          ]
        ]
      ]
    ]

validate_expiry-ahead :
    (ps qs : List ApiKeyPermission) (expiry : Expiry) (now : ℕ) (till : Option ℕ)
    → validate_expiry ps expiry now ≡ validated qs till
    → is_ahead now till ≡ true
validate_expiry-ahead ps qs never now till k = ground arith
validate_expiry-ahead ps qs invalid now till k = absurd (ground arith)
validate_expiry-ahead ps qs (on time) now till k = elim (Bool-cases (leb time now)) [
  | inl past ↦ absurd (ground arith)
  | inr later ↦ ground arith
]

validate_permissions-ahead :
    (n : PermissionNormalization) (qs : List ApiKeyPermission) (expiry : Expiry) (now : ℕ)
    (till : Option ℕ)
    → validate_permissions n expiry now ≡ validated qs till
    → is_ahead now till ≡ true
validate_permissions-ahead (normalized ps) qs expiry now till k =
    validate_expiry-ahead ps qs expiry now till k
validate_permissions-ahead (rejected detail) qs expiry now till k = absurd (ground arith)

create_validated-resolve :
    (e : KeySurroundings) (request : CreateKeyRequest) (o : ValidatedInput) (s t : ApiKeyStore)
    (r : ApiKeyRecord) (bearer : Text)
    → validate request e.now ≡ o
    → create_validated e request o s ≡ (returned (created r bearer), t)
    → resolve_bearer e bearer t ≡ some (principal_of r)
unfolding validate
create_validated-resolve e request (refused fault) s t r bearer v k = absurd (ground arith)
create_validated-resolve e request (validated ps till) s t r bearer v k =
    elim (Bool-cases (is_valid_api_key_label request.label)) [
      | inr bad ↦ absurd (ground arith)
      | inl fit ↦
          let n = normalize_api_key_permissions request.permissions in
          create_attempts-resolve e request ps till 3 0 s t r bearer
            (validate_permissions-ahead n ps request.expires_at e.now till (ground arith)) k
    ]

-- The bearer that a creation hands out resolves, at the same time, to the key that was created.
pub create-resolve_bearer :
    (e : KeySurroundings) (request : CreateKeyRequest) (s t : ApiKeyStore) (r : ApiKeyRecord)
    (bearer : Text)
    → create e request s ≡ (returned (created r bearer), t)
    → resolve_bearer e bearer t ≡ some (principal_of r)
unfolding create
create-resolve_bearer e request s t r bearer k =
    create_validated-resolve e request (validate request e.now) s t r bearer refl k
