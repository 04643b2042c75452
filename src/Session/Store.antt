-- ===== src/Session/Store.antt =====
-- lib/session/memory-repository.ts with the requests of lib/session/interfaces.ts: the stored
-- sessions and the index of their credentials. An operation gives its answer and the store it
-- leaves.
use iam_pager.Base.{
  ℕ, Text, Bool, List, [], Option, none, some, true, false, if◌then◌else◌, ltb, eqb, ◌||◌, not,
  is_some,
}
use iam_pager.Base.Map.{Map, get, has, put}
use iam_pager.Session.{
  SessionKind, guest, authenticated, SessionAuthenticationAttempt, SessionRecord,
}

pub record SessionStore : Type 0 where
  pub records : Map SessionRecord
  pub credential_index : Map Text

abbrev pub empty_store : SessionStore
empty_store = record { records = []; credential_index = [] }

pub data Reason : Type 0 where
  stale_session : Reason
  not_guest : Reason
  state_collision : Reason
  not_found : Reason
  not_authenticated : Reason
  invalid_csrf : Reason
  credential_collision : Reason

-- `{ ok: true, ... }` or `{ ok: false, reason }`
pub data Answer (A : Type 0) : Type 0 where
  ok : A → Answer A
  refused : Reason → Answer A

abbrev record_at : SessionStore → Option Text → Option SessionRecord
record_at s none = none
record_at s (some session_id) = get s.records session_id

unfoldable pub find_by_credential_hash : Text → SessionStore → Option SessionRecord
find_by_credential_hash credential_hash s = record_at s (get s.credential_index credential_hash)

unfoldable pub create : SessionRecord → SessionStore → Bool × SessionStore
create r s =
    if has s.records r.session.session_id || has s.credential_index r.credential_hash
    then (false, s)
    else (
      true,
      record {
        records = put s.records r.session.session_id r;
        credential_index = put s.credential_index r.credential_hash r.session.session_id;
      },
    )

-- The record, unless it is missing, revoked, or of another version than the expected one
abbrev pub unless_stale : ℕ → Option SessionRecord → Option SessionRecord
unless_stale expected none = none
unless_stale expected (some current) =
    if is_some current.revoked_at || not (eqb current.session.session_version expected)
    then none
    else some current

unfoldable pub current_at : Text → ℕ → SessionStore → Option SessionRecord
current_at session_id expected s = unless_stale expected (get s.records session_id)

abbrev pub store_record : Text → SessionRecord → SessionStore → SessionStore
store_record session_id r s = record {
  records = put s.records session_id r;
  credential_index = s.credential_index;
}

abbrev pub later_idle : Option ℕ → ℕ → ℕ
later_idle none current = current
later_idle (some idle_expires_at) current =
    if ltb current idle_expires_at then idle_expires_at else current

abbrev pub renewed_kind : Option ℕ → SessionKind → SessionKind
renewed_kind idle_expires_at guest = guest
renewed_kind idle_expires_at (authenticated a) = authenticated (record {
  user_id = a.user_id;
  authenticated_at = a.authenticated_at;
  idle_expires_at = later_idle idle_expires_at a.idle_expires_at;
  csrf_token = a.csrf_token;
})

abbrev pub renewed : ℕ → Option ℕ → SessionRecord → SessionRecord
renewed last_seen_at idle_expires_at current = record {
  session = record {
    kind = renewed_kind idle_expires_at current.session.kind;
    session_id = current.session.session_id;
    session_version = current.session.session_version;
    created_at = current.session.created_at;
    last_seen_at =
        if ltb current.session.last_seen_at last_seen_at
        then last_seen_at
        else current.session.last_seen_at;
    absolute_expires_at = current.session.absolute_expires_at;
  };
  credential_hash = current.credential_hash;
  revoked_at = current.revoked_at;
  authentication_attempts = current.authentication_attempts;
}

abbrev renew_from :
    Text → ℕ → Option ℕ → Option SessionRecord → SessionStore → Option SessionRecord × SessionStore
renew_from session_id last_seen_at idle none s = (none, s)
renew_from session_id last_seen_at idle (some current) s =
    let updated = renewed last_seen_at idle current in
    (some updated, store_record session_id updated s)

unfoldable pub renew : Text → ℕ → ℕ → Option ℕ → SessionStore → Option SessionRecord × SessionStore
renew session_id expected_version last_seen_at idle_expires_at s =
    renew_from session_id last_seen_at idle_expires_at (current_at session_id expected_version s) s

-- `{ ...current, authentication_attempts }`
abbrev pub with_attempts : List SessionAuthenticationAttempt → SessionRecord → SessionRecord
with_attempts attempts current = record {
  session = current.session;
  credential_hash = current.credential_hash;
  revoked_at = current.revoked_at;
  authentication_attempts = attempts;
}
