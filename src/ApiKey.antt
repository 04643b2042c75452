-- ===== src/ApiKey.antt =====
-- lib/api-key/model.ts: the keys of the automation surface, their permissions and their expiry.
use iam_pager.Base.{
  ℕ, Text, codes, Bool, List, [], ◌∷◌, Option, none, some, true, false, if◌then◌else◌, member, eqb,
  leb, ltb, length, filter, not, ◌&&◌, ◌||◌, ◌==◌, any, text_lt, ◌+◌,
}
use iam_pager.Base.Patterns.{repeats, is_id_char, is_control}
use iam_pager.Base.Sort.{sort}
pub mod Permissions
pub mod Store
pub mod Revocation
pub mod Lifecycle
pub mod Service
pub mod Bearers
mod Tests

pub data ApiKeyPermission : Type 0 where
  read write delete : ApiKeyPermission

abbrev pub api_key_permissions : List ApiKeyPermission
api_key_permissions = read ∷ write ∷ delete ∷ []

abbrev pub name_of : ApiKeyPermission → Text
name_of read = codes "read"
name_of write = codes "write"
name_of delete = codes "delete"

abbrev pub same_permission : ApiKeyPermission → ApiKeyPermission → Bool
same_permission read read = true
same_permission write write = true
same_permission delete delete = true
same_permission _ _ = false

-- `seen.has(permission)`
abbrev pub grants : List ApiKeyPermission → ApiKeyPermission → Bool
grants permissions p = any (same_permission p) permissions

pub record ApiKeyRecord : Type 0 where
  pub api_key_id : Text
  pub owner_user_id : Text
  pub label : Text
  pub permissions : List ApiKeyPermission
  pub secret_hash : Text
  pub created_at : ℕ
  pub updated_at : ℕ
  pub expires_at : Option ℕ
  pub revision : ℕ

pub data PermissionFault : Type 0 where
  no_permission : PermissionFault
  all_not_alone : PermissionFault
  unknown_permission : Text → PermissionFault
  duplicate_permission : Text → PermissionFault

-- `{ ok: true, permissions }` or `{ ok: false, detail }`
pub data PermissionNormalization : Type 0 where
  normalized : List ApiKeyPermission → PermissionNormalization
  rejected : PermissionFault → PermissionNormalization

-- The permission that a candidate names, if any
abbrev pub permission_of : Text → Option ApiKeyPermission
permission_of candidate =
    if candidate == codes "read"
    then some read
    else if candidate == codes "write"
    then some write
    else if candidate == codes "delete"
    then some delete
    else none

-- One turn of the loop; `again` goes on with the permissions seen.
abbrev pub normalize_next :
    Text
    → Option ApiKeyPermission
    → List ApiKeyPermission
    → (List ApiKeyPermission → PermissionNormalization)
    → PermissionNormalization
normalize_next candidate none seen again = rejected (unknown_permission candidate)
normalize_next candidate (some permission) seen again =
    if grants seen permission
    then rejected (duplicate_permission candidate)
    else again (permission ∷ seen)

-- The loop, with the permissions seen before, and the filter after it
unfoldable pub normalize_from : List Text → List ApiKeyPermission → PermissionNormalization
normalize_from [] seen = normalized (filter (grants seen) api_key_permissions)
normalize_from (candidate ∷ rest) seen =
    normalize_next candidate (permission_of candidate) seen (normalize_from rest)

unfoldable pub normalize_api_key_permissions : List Text → PermissionNormalization
normalize_api_key_permissions [] = rejected no_permission
normalize_api_key_permissions (first ∷ rest) =
    if member (codes "all") (first ∷ rest)
    then (if not (eqb (length (first ∷ rest)) 1)
        then rejected all_not_alone
        else normalized api_key_permissions)
    else normalize_from (first ∷ rest) []

unfoldable pub is_valid_api_key_id : Text → Bool
is_valid_api_key_id = repeats is_id_char 1 64

abbrev pub api_key_label_max_length : ℕ
api_key_label_max_length = 64

unfoldable pub is_valid_api_key_label : Text → Bool
is_valid_api_key_label value =
    if eqb (length value) 0 || not (leb (length value) api_key_label_max_length)
    then false
    else not (any is_control value)

pub data ApiKeyStatus : Type 0 where
  active expired : ApiKeyStatus

abbrev pub status_of : Option ℕ → ℕ → ApiKeyStatus
status_of none now = active
status_of (some expires_at) now = if leb expires_at now then expired else active

abbrev pub api_key_status : ApiKeyRecord → ℕ → ApiKeyStatus
api_key_status r now = status_of r.expires_at now

abbrev pub api_key_authenticates : ApiKeyRecord → ℕ → Bool
api_key_authenticates r now = elim (api_key_status r now) [ active ↦ true | expired ↦ false ]
