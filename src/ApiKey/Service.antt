-- ===== src/ApiKey/Service.antt =====
-- lib/api-key/service.ts: creating keys and resolving bearers. The generators, the clock and the digest
-- of a bearer are parameters.
use iam_pager.Base.{
  ℕ, zero, suc, Text, codes, Bool, List, [], ◌∷◌, ◌++◌, Option, none, some, true, false,
  if◌then◌else◌, leb, not, ◌&&◌, ◌==◌,
}
use iam_pager.Base.Exec.{Outcome, returned, thrown}
use iam_pager.Base.Patterns.{repeats, is_id_char}
use iam_pager.ApiKey.{
  ApiKeyRecord, ApiKeyPermission, api_key_authenticates, is_valid_api_key_id,
  is_valid_api_key_label, PermissionFault, PermissionNormalization, normalized, rejected,
  normalize_api_key_permissions,
}
use iam_pager.ApiKey.Store.{ApiKeyStore, find_by_secret_hash}
use iam_pager.ApiKey.Store

-- A time, or the invalid date
pub data Expiry : Type 0 where
  never invalid : Expiry
  on : ℕ → Expiry

pub record KeySurroundings : Type 0 where
  pub now : ℕ
  pub key_ids : ℕ → Text
  pub secrets : ℕ → Text
  pub hash : Text → Text

pub record CreateKeyRequest : Type 0 where
  pub owner_user_id : Text
  pub label : Text
  pub permissions : List Text
  pub expires_at : Expiry

pub data InputFault : Type 0 where
  invalid_label invalid_date past_date : InputFault
  invalid_permissions : PermissionFault → InputFault

-- `ValidatedInput`: the permissions and the expiry to store
pub data ValidatedInput : Type 0 where
  validated : List ApiKeyPermission → Option ℕ → ValidatedInput
  refused : InputFault → ValidatedInput

abbrev pub validate_expiry : List ApiKeyPermission → Expiry → ℕ → ValidatedInput
validate_expiry permissions never now = validated permissions none
validate_expiry permissions invalid now = refused invalid_date
validate_expiry permissions (on time) now =
    if leb time now then refused past_date else validated permissions (some time)

abbrev pub validate_permissions : PermissionNormalization → Expiry → ℕ → ValidatedInput
validate_permissions (rejected detail) expiry now = refused (invalid_permissions detail)
validate_permissions (normalized permissions) expiry now = validate_expiry permissions expiry now

unfoldable pub validate : CreateKeyRequest → ℕ → ValidatedInput
validate input now =
    if not (is_valid_api_key_label input.label)
    then refused invalid_label
    else validate_permissions (normalize_api_key_permissions input.permissions) input.expires_at now

abbrev pub bearer_prefix : Text
bearer_prefix = codes "iamp_"

-- `/^iamp_[A-Za-z0-9_-]{43}$/`
unfoldable pub is_well_formed_bearer : Text → Bool
is_well_formed_bearer (a ∷ b ∷ c ∷ d ∷ e ∷ secret) =
    (a ∷ b ∷ c ∷ d ∷ e ∷ []) == bearer_prefix && repeats is_id_char 43 43 secret
is_well_formed_bearer _ = false

pub data KeyFault : Type 0 where
  bad_key_id bad_bearer no_unique_key : KeyFault

pub data CreateReply : Type 0 where
  created : ApiKeyRecord → Text → CreateReply
  not_created : InputFault → CreateReply

abbrev pub bearer_at : KeySurroundings → ℕ → Text
bearer_at e attempt = bearer_prefix ++ e.secrets attempt

abbrev pub new_key :
    KeySurroundings → CreateKeyRequest → List ApiKeyPermission → Option ℕ → ℕ → ApiKeyRecord
new_key e request permissions expires_at attempt = record {
  api_key_id = e.key_ids attempt;
  owner_user_id = request.owner_user_id;
  label = request.label;
  permissions = permissions;
  secret_hash = e.hash (bearer_at e attempt);
  created_at = e.now;
  updated_at = e.now;
  expires_at = expires_at;
  revision = 1;
}

abbrev pub KeyResult : Type 0
KeyResult = Outcome KeyFault CreateReply × ApiKeyStore

abbrev pub unless_stored : CreateReply → (ApiKeyStore → KeyResult) → Bool × ApiKeyStore → KeyResult
unless_stored answer again (true, s) = (returned answer, s)
unless_stored answer again (false, s) = again s

unfoldable pub create_attempts :
    KeySurroundings
    → CreateKeyRequest
    → List ApiKeyPermission
    → Option ℕ
    → ℕ
    → ℕ
    → ApiKeyStore
    → KeyResult
create_attempts e request permissions expires_at zero attempt s = (thrown no_unique_key, s)
create_attempts e request permissions expires_at (suc left) attempt s =
    let again = create_attempts e request permissions expires_at left (suc attempt) in
    let r = new_key e request permissions expires_at attempt in
    if not (is_valid_api_key_id (e.key_ids attempt))
    then (thrown bad_key_id, s)
    else if not (is_well_formed_bearer (bearer_at e attempt))
    then (thrown bad_bearer, s)
    else unless_stored (created r (bearer_at e attempt)) again (Store.create r s)

abbrev pub create_validated :
    KeySurroundings → CreateKeyRequest → ValidatedInput → ApiKeyStore → KeyResult
create_validated e request (refused fault) s = (returned (not_created fault), s)
create_validated e request (validated permissions expires_at) s =
    create_attempts e request permissions expires_at 3 0 s

unfoldable pub create : KeySurroundings → CreateKeyRequest → ApiKeyStore → KeyResult
create e request s = create_validated e request (validate request e.now) s

pub record ApiKeyPrincipal : Type 0 where
  pub api_key_id : Text
  pub user_id : Text
  pub permissions : List ApiKeyPermission

abbrev pub principal_of : ApiKeyRecord → ApiKeyPrincipal
principal_of r = record {
  api_key_id = r.api_key_id;
  user_id = r.owner_user_id;
  permissions = r.permissions;
}

abbrev pub principal_at : ℕ → Option ApiKeyRecord → Option ApiKeyPrincipal
principal_at now none = none
principal_at now (some r) =
    if not (api_key_authenticates r now) then none else some (principal_of r)

unfoldable pub resolve_bearer : KeySurroundings → Text → ApiKeyStore → Option ApiKeyPrincipal
resolve_bearer e bearer s =
    if not (is_well_formed_bearer bearer)
    then none
    else principal_at e.now (find_by_secret_hash (e.hash bearer) s)
