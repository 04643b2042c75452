-- ===== src/ApiKey/Tests.antt =====
-- Permissions at concrete requests.
use iam_pager.Base.{codes, [], ◌∷◌, ◌≡◌, refl, member, text_dec, filter, ◌||◌}
use iam_pager.ApiKey.{
  ApiKeyPermission, read, delete, normalize_api_key_permissions, normalize_from, grants,
  api_key_permissions, name_of,
}
use iam_pager.Base.{none, some}
use iam_pager.Base.Map.{get, put}
use iam_pager.ApiKey.{ApiKeyRecord}
use iam_pager.ApiKey.Store.{
  ApiKeyStore, empty_store, create, find_by_secret_hash, revoke_all_by_owner,
}
use iam_pager.ApiKey.Revocation.{IsCoherent, RevokesAll, revoke_all-RevokesAll}
use iam_pager.ApiKey.Lifecycle.{
  create_key, revoke_key, revoke_all_keys, step_key, step_key-IsCoherent, step_key-foreign,
  empty-IsCoherent,
}
use iam_pager.Base.Patterns.{repeats}
use iam_pager.ApiKey.{is_valid_api_key_label, is_valid_api_key_id}
use iam_pager.ApiKey.Service.{
  KeySurroundings, CreateKeyRequest, on, new_key, bearer_at, resolve_bearer, principal_of,
  create_attempts, validate, is_well_formed_bearer,
}
use iam_pager.ApiKey.Service
use iam_pager.ApiKey.Bearers.{create-resolve_bearer}
use iam_pager.ApiKey.Permissions.{normalize_api_key_permissions_lem}

normalize_api_key_permissions_lem_example :
    (read ∷ delete ∷ [] ≡ filter (grants (read ∷ delete ∷ [])) api_key_permissions)
    × ((p : ApiKeyPermission)
        → grants (read ∷ delete ∷ []) p ≡ (
            member (codes "all") (codes "delete" ∷ codes "read" ∷ [])
            || member (name_of p) (codes "delete" ∷ codes "read" ∷ [])))
unfolding normalize_api_key_permissions normalize_from member text_dec
normalize_api_key_permissions_lem_example =
    normalize_api_key_permissions_lem (codes "delete" ∷ codes "read" ∷ []) (read ∷ delete ∷ []) refl

abbrev key : ApiKeyRecord
key = record {
  api_key_id = codes "k1";
  owner_user_id = codes "ada";
  label = codes "build";
  permissions = read ∷ [];
  secret_hash = codes "h1";
  created_at = 1;
  updated_at = 1;
  expires_at = none;
  revision = 1;
}

abbrev one_key : ApiKeyStore
one_key = step_key (create_key key) empty_store

one_key-IsCoherent : IsCoherent one_key
one_key-IsCoherent = step_key-IsCoherent (create_key key) empty_store empty-IsCoherent

step_key-IsCoherent_example :
    IsCoherent (step_key (revoke_key (codes "k1") (codes "ada") 1) one_key)
step_key-IsCoherent_example =
    step_key-IsCoherent (revoke_key (codes "k1") (codes "ada") 1) one_key one_key-IsCoherent

step_key-foreign_example :
    find_by_secret_hash (codes "h1") (step_key (revoke_all_keys (codes "bob")) one_key) ≡ some key
unfolding step_key create find_by_secret_hash get put text_dec
step_key-foreign_example =
    step_key-foreign (revoke_all_keys (codes "bob")) one_key (codes "h1") key one_key-IsCoherent
      refl refl

revoke_all-RevokesAll_example :
    RevokesAll (codes "ada") one_key (revoke_all_by_owner (codes "ada") one_key)
revoke_all-RevokesAll_example = revoke_all-RevokesAll (codes "ada") one_key one_key-IsCoherent

abbrev around : KeySurroundings
around = record {
  now = 5;
  key_ids = λ n. codes "k2";
  secrets = λ n. codes "abcdefghijklmnopqrstuvwxyz-ABCDEFGHIJKLMNOP";
  hash = λ t. t;
}

abbrev request : CreateKeyRequest
request = record {
  owner_user_id = codes "bob";
  label = codes "ci";
  permissions = codes "read" ∷ [];
  expires_at = on 9;
}

abbrev bob_key : ApiKeyRecord
bob_key = new_key around request (read ∷ []) (some 9) 0

create-resolve_bearer_example :
    resolve_bearer around (bearer_at around 0) (step_key (create_key bob_key) one_key)
    ≡ some (principal_of bob_key)
unfolding step_key Service.create create create_attempts validate is_valid_api_key_label
    is_valid_api_key_id is_well_formed_bearer repeats get put text_dec normalize_api_key_permissions
    normalize_from member
create-resolve_bearer_example =
    create-resolve_bearer around request one_key (step_key (create_key bob_key) one_key) bob_key
      (bearer_at around 0) refl
