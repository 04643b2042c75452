-- ===== src/Session/Rotation.antt =====
-- lib/session/memory-repository.ts: the operations that end or replace a credential.
use iam_pager.Base.{ℕ, ◌+◌, Text, Bool, [], Option, none, some, true, false, if◌then◌else◌, not}
use iam_pager.Base.Map.{has, put, delete}
use iam_pager.Session.{SessionKind, guest, authenticated, SessionRecord}
use iam_pager.Session.Csrf.{csrf_tokens_match}
use iam_pager.Session.Store.{
  SessionStore, Answer, ok, refused, stale_session, not_authenticated, invalid_csrf,
  credential_collision, current_at,
}

pub record SessionUpgrade : Type 0 where
  pub session_id : Text
  pub expected_version : ℕ
  pub credential_hash : Text
  pub csrf_token : Text
  pub user_id : Text
  pub authenticated_at : ℕ
  pub absolute_expires_at : ℕ
  pub idle_expires_at : ℕ

abbrev pub upgraded : SessionUpgrade → SessionRecord → SessionRecord
upgraded input current = record {
  session = record {
    kind = authenticated (record {
      user_id = input.user_id;
      authenticated_at = input.authenticated_at;
      idle_expires_at = input.idle_expires_at;
      csrf_token = input.csrf_token;
    });
    session_id = current.session.session_id;
    session_version = current.session.session_version + 1;
    created_at = current.session.created_at;
    last_seen_at = input.authenticated_at;
    absolute_expires_at = input.absolute_expires_at;
  };
  credential_hash = input.credential_hash;
  revoked_at = none;
  authentication_attempts = [];
}

unfoldable pub upgrade_from :
    SessionUpgrade → Option SessionRecord → SessionStore → Answer SessionRecord × SessionStore
upgrade_from input none s = (refused stale_session, s)
upgrade_from input (some current) s =
    let record_after = upgraded input current in
    if has s.credential_index input.credential_hash then (refused credential_collision, s) else (
      ok record_after,
      record {
        records = put s.records record_after.session.session_id record_after;
        credential_index =
            put (delete s.credential_index current.credential_hash) record_after.credential_hash
              record_after.session.session_id;
      },
    )

unfoldable pub upgrade : SessionUpgrade → SessionStore → Answer SessionRecord × SessionStore
upgrade input s = upgrade_from input (current_at input.session_id input.expected_version s) s

-- The record of a session that ends, one version later and without attempts
abbrev pub ended : ℕ → SessionRecord → SessionRecord
ended revoked_at current = record {
  session = record {
    kind = current.session.kind;
    session_id = current.session.session_id;
    session_version = current.session.session_version + 1;
    created_at = current.session.created_at;
    last_seen_at = current.session.last_seen_at;
    absolute_expires_at = current.session.absolute_expires_at;
  };
  credential_hash = current.credential_hash;
  revoked_at = some revoked_at;
  authentication_attempts = [];
}

unfoldable pub end_session : Text → ℕ → SessionRecord → SessionStore → SessionStore
end_session session_id revoked_at current s = record {
  records = put s.records session_id (ended revoked_at current);
  credential_index = delete s.credential_index current.credential_hash;
}

pub record Logout : Type 0 where
  pub session_id : Text
  pub expected_version : ℕ
  pub csrf_token : Text
  pub logged_out_at : ℕ

abbrev pub logout_as :
    Logout → SessionKind → SessionRecord → SessionStore → Answer (Unit {0}) × SessionStore
logout_as input guest current s = (refused not_authenticated, s)
logout_as input (authenticated a) current s =
    if not (csrf_tokens_match a.csrf_token input.csrf_token)
    then (refused invalid_csrf, s)
    else (ok tt, end_session input.session_id input.logged_out_at current s)

unfoldable pub logout_from :
    Logout → Option SessionRecord → SessionStore → Answer (Unit {0}) × SessionStore
logout_from input none s = (refused stale_session, s)
logout_from input (some current) s = logout_as input current.session.kind current s

unfoldable pub logout : Logout → SessionStore → Answer (Unit {0}) × SessionStore
logout input s = logout_from input (current_at input.session_id input.expected_version s) s

unfoldable pub revoke_from : Text → ℕ → Option SessionRecord → SessionStore → Bool × SessionStore
revoke_from session_id revoked_at none s = (false, s)
revoke_from session_id revoked_at (some current) s =
    (true, end_session session_id revoked_at current s)

unfoldable pub revoke : Text → ℕ → ℕ → SessionStore → Bool × SessionStore
revoke session_id expected_version revoked_at s =
    revoke_from session_id revoked_at (current_at session_id expected_version s) s
