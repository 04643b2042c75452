-- ===== src/ApiKey/Store.antt =====
-- lib/api-key/memory-repository.ts: the stored keys and the index of their secrets' hashes. An
-- operation gives its answer and the store it leaves.
use iam_pager.Base.{
  ℕ, ◌+◌, Text, Bool, List, [], ◌∷◌, Option, none, some, true, false, if◌then◌else◌, eqb, ◌==◌,
  ◌||◌, not, filter,
}
use iam_pager.Base.Map.{Map, get, has, put, delete, values}
use iam_pager.ApiKey.{ApiKeyRecord, ApiKeyPermission}

pub record ApiKeyStore : Type 0 where
  pub records : Map ApiKeyRecord
  pub by_secret_hash : Map Text

abbrev pub empty_store : ApiKeyStore
empty_store = record { records = []; by_secret_hash = [] }

pub data Refusal : Type 0 where
  not_found stale_revision : Refusal

pub data UpdateReply : Type 0 where
  updated : ApiKeyRecord → UpdateReply
  not_updated : Refusal → UpdateReply

pub data RevokeReply : Type 0 where
  revoked : RevokeReply
  not_revoked : Refusal → RevokeReply

unfoldable pub create : ApiKeyRecord → ApiKeyStore → Bool × ApiKeyStore
create r s =
    if has s.records r.api_key_id || has s.by_secret_hash r.secret_hash then (false, s) else (
      true,
      record {
        records = put s.records r.api_key_id r;
        by_secret_hash = put s.by_secret_hash r.secret_hash r.api_key_id;
      },
    )

unfoldable pub find_by_id : Text → ApiKeyStore → Option ApiKeyRecord
find_by_id api_key_id s = get s.records api_key_id

abbrev found_by : ApiKeyStore → Option Text → Option ApiKeyRecord
found_by s none = none
found_by s (some api_key_id) = get s.records api_key_id

unfoldable pub find_by_secret_hash : Text → ApiKeyStore → Option ApiKeyRecord
find_by_secret_hash secret_hash s = found_by s (get s.by_secret_hash secret_hash)

unfoldable pub list_by_owner : Text → ApiKeyStore → List ApiKeyRecord
list_by_owner owner_user_id s = filter (λ r. r.owner_user_id == owner_user_id) (values s.records)

pub record KeyUpdate : Type 0 where
  pub api_key_id : Text
  pub owner_user_id : Text
  pub expected_revision : ℕ
  pub label : Text
  pub permissions : List ApiKeyPermission
  pub expires_at : Option ℕ
  pub updated_at : ℕ

abbrev pub updated_record : KeyUpdate → ApiKeyRecord → ApiKeyRecord
updated_record input r = record {
  api_key_id = r.api_key_id;
  owner_user_id = r.owner_user_id;
  label = input.label;
  permissions = input.permissions;
  secret_hash = r.secret_hash;
  created_at = r.created_at;
  updated_at = input.updated_at;
  expires_at = input.expires_at;
  revision = r.revision + 1;
}

unfoldable pub update_from :
    KeyUpdate → Option ApiKeyRecord → ApiKeyStore → UpdateReply × ApiKeyStore
update_from input none s = (not_updated not_found, s)
update_from input (some r) s =
    if not (r.owner_user_id == input.owner_user_id)
    then (not_updated not_found, s)
    else if not (eqb r.revision input.expected_revision)
    then (not_updated stale_revision, s)
    else (
      updated (updated_record input r),
      record {
        records = put s.records r.api_key_id (updated_record input r);
        by_secret_hash = s.by_secret_hash;
      },
    )

unfoldable pub update : KeyUpdate → ApiKeyStore → UpdateReply × ApiKeyStore
update input s = update_from input (get s.records input.api_key_id) s

-- The two deletions of a revocation
abbrev pub without : Text → ApiKeyRecord → ApiKeyStore → ApiKeyStore
without api_key_id r s = record {
  records = delete s.records api_key_id;
  by_secret_hash = delete s.by_secret_hash r.secret_hash;
}

unfoldable pub revoke_from :
    Text → Text → ℕ → Option ApiKeyRecord → ApiKeyStore → RevokeReply × ApiKeyStore
revoke_from api_key_id owner_user_id expected_revision none s = (not_revoked not_found, s)
revoke_from api_key_id owner_user_id expected_revision (some r) s =
    if not (r.owner_user_id == owner_user_id)
    then (not_revoked not_found, s)
    else if not (eqb r.revision expected_revision)
    then (not_revoked stale_revision, s)
    else (revoked, without api_key_id r s)

unfoldable pub revoke : Text → Text → ℕ → ApiKeyStore → RevokeReply × ApiKeyStore
revoke api_key_id owner_user_id expected_revision s =
    revoke_from api_key_id owner_user_id expected_revision (get s.records api_key_id) s

-- One turn of the loop over a copy of the values
abbrev pub revoke_one : Text → ApiKeyRecord → ℕ × ApiKeyStore → ℕ × ApiKeyStore
revoke_one owner_user_id r (count, s) =
    if r.owner_user_id == owner_user_id then (count + 1, without r.api_key_id r s) else (count, s)

unfoldable pub revoke_each : Text → List ApiKeyRecord → ℕ × ApiKeyStore → ℕ × ApiKeyStore
revoke_each owner_user_id [] done = done
revoke_each owner_user_id (r ∷ rs) done =
    revoke_each owner_user_id rs (revoke_one owner_user_id r done)

unfoldable pub revoke_all_by_owner : Text → ApiKeyStore → ℕ × ApiKeyStore
revoke_all_by_owner owner_user_id s = revoke_each owner_user_id (values s.records) (0, s)
