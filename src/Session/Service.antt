-- ===== src/Session/Service.antt =====
-- lib/session/service.ts: guests, the resolution of a presented credential, and logout. A call
-- reads the clock once. The random generators are parameters: what each gives at every attempt of
-- the call. The digest of a credential is a parameter as well.
use iam_pager.Base.{
  ℕ, zero, suc, ◌+◌, ◌*◌, Text, Bool, [], Option, none, some, true, false, if◌then◌else◌, ltb, leb,
  not, ◌||◌, ◌&&◌, is_some,
}
use iam_pager.Base.Exec.{Outcome, returned, thrown}
use iam_pager.Base.Patterns.{repeats, is_id_char}
use iam_pager.Page.{max_safe_integer}
use iam_pager.Session.{Session, SessionKind, guest, authenticated, SessionRecord, session_expiry}
use iam_pager.Session.Store.{
  SessionStore, create, find_by_credential_hash, renew, Answer, ok, refused, invalid_csrf,
  not_authenticated,
}
use iam_pager.Session.Rotation.{Logout}
use iam_pager.Session.Rotation

-- Lifetimes that, with the clock, stay in the range of a date
pub record SessionConfig : Type 0 where
  pub guest_absolute_lifetime_ms : ℕ
  pub authenticated_idle_lifetime_ms : ℕ
  pub authenticated_absolute_lifetime_ms : ℕ
  pub renewal_threshold_ms : ℕ
  pub authentication_attempt_lifetime_ms : ℕ
  pub max_pending_authentication_attempts : ℕ

abbrev minute_ms : ℕ
minute_ms = 60 * 1000

abbrev day_ms : ℕ
day_ms = 24 * 60 * 60 * 1000

abbrev pub default_session_config : SessionConfig
default_session_config = record {
  guest_absolute_lifetime_ms = 7 * day_ms;
  authenticated_idle_lifetime_ms = 30 * day_ms;
  authenticated_absolute_lifetime_ms = 90 * day_ms;
  renewal_threshold_ms = day_ms;
  authentication_attempt_lifetime_ms = 10 * minute_ms;
  max_pending_authentication_attempts = 5;
}

abbrev is_positive_integer : ℕ → Bool
is_positive_integer value = leb 1 value && leb value max_safe_integer

-- What `validate_config` lets through
abbrev pub is_valid_config : SessionConfig → Bool
is_valid_config c =
    is_positive_integer c.guest_absolute_lifetime_ms
    && is_positive_integer c.authenticated_idle_lifetime_ms
    && is_positive_integer c.authenticated_absolute_lifetime_ms
    && is_positive_integer c.renewal_threshold_ms
    && is_positive_integer c.authentication_attempt_lifetime_ms
    && is_positive_integer c.max_pending_authentication_attempts
    && ltb c.renewal_threshold_ms c.guest_absolute_lifetime_ms
    && ltb c.renewal_threshold_ms c.authenticated_idle_lifetime_ms

pub record Surroundings : Type 0 where
  pub config : SessionConfig
  pub now : ℕ
  pub session_ids : ℕ → Text
  pub credentials : ℕ → Text
  pub csrf_tokens : ℕ → Text
  pub hash : Text → Text

pub data Fault : Type 0 where
  weak_credential weak_csrf_token no_unique_session no_unique_credential empty_user_id weak_state
        bad_strategy_id bad_callback_url bad_return_to long_attempt_context :
      Fault

abbrev pub max_generation_attempts : ℕ
max_generation_attempts = 8

-- `CREDENTIAL_PATTERN`
unfoldable pub is_secret : Text → Bool
is_secret = repeats is_id_char 43 43

pub record SessionCredential : Type 0 where
  pub value : Text
  pub expires_at : ℕ

pub record SessionResolution : Type 0 where
  pub session : Session
  pub credential_to_set : Option SessionCredential

abbrev pub credential_update : Text → Session → SessionCredential
credential_update value session = record { value = value; expires_at = session_expiry session }

abbrev pub min_date : ℕ → ℕ → ℕ
min_date left right = if ltb left right then left else right

abbrev is_unusable : SessionRecord → ℕ → Bool
is_unusable r now = is_some r.revoked_at || leb (session_expiry r.session) now

abbrev pub guest_session : Surroundings → ℕ → Text → Session
guest_session e at session_id = record {
  kind = guest;
  session_id = session_id;
  session_version = 1;
  created_at = at;
  last_seen_at = at;
  absolute_expires_at = at + e.config.guest_absolute_lifetime_ms;
}

abbrev pub guest_record : Surroundings → ℕ → ℕ → SessionRecord
guest_record e at attempt = record {
  session = guest_session e at (e.session_ids attempt);
  credential_hash = e.hash (e.credentials attempt);
  revoked_at = none;
  authentication_attempts = [];
}

abbrev pub Result : Type 0 → Type 0
Result A = Outcome Fault A × SessionStore

abbrev pub unless_created :
    SessionResolution
    → (SessionStore → Result SessionResolution)
    → Bool × SessionStore
    → Result SessionResolution
unless_created answer again (true, s) = (returned answer, s)
unless_created answer again (false, s) = again s

abbrev pub guest_resolution : Surroundings → ℕ → ℕ → SessionResolution
guest_resolution e at attempt =
    let session = guest_session e at (e.session_ids attempt) in
    record {
      session = session;
      credential_to_set = some (credential_update (e.credentials attempt) session);
    }

-- The attempts that are left, and the number of the present one
unfoldable pub guest_attempts : Surroundings → ℕ → ℕ → ℕ → SessionStore → Result SessionResolution
guest_attempts e at zero attempt s = (thrown no_unique_session, s)
guest_attempts e at (suc left) attempt s =
    let again = guest_attempts e at left (suc attempt) in
    if not (is_secret (e.credentials attempt))
    then (thrown weak_credential, s)
    else unless_created (guest_resolution e at attempt) again (create (guest_record e at attempt) s)

unfoldable pub create_guest : Surroundings → ℕ → SessionStore → Result SessionResolution
create_guest e at s = guest_attempts e at max_generation_attempts 0 s

abbrev pub resolve_renewed :
    Surroundings → Text → Option SessionRecord × SessionStore → Result SessionResolution
resolve_renewed e credential (none, s) = create_guest e e.now s
resolve_renewed e credential (some renewed, s) = (
  returned (record {
    session = renewed.session;
    credential_to_set = some (credential_update credential renewed.session);
  }),
  s,
)

-- The new idle limit of an authenticated session, never past its absolute one
abbrev pub idle_limit : Surroundings → Session → Option ℕ
idle_limit e session = elim session.kind [
  | guest ↦ none
  | authenticated a ↦
      some (min_date (e.now + e.config.authenticated_idle_lifetime_ms) session.absolute_expires_at)
]

unfoldable pub resolve_record :
    Surroundings → Text → Option SessionRecord → SessionStore → Result SessionResolution
resolve_record e credential none s = create_guest e e.now s
resolve_record e credential (some r) s =
    let id = r.session.session_id in
    let version = r.session.session_version in
    if is_unusable r e.now
    then create_guest e e.now (Rotation.revoke id version e.now s).1
    else if leb (r.session.last_seen_at + e.config.renewal_threshold_ms) e.now
    then resolve_renewed e credential (renew id version e.now (idle_limit e r.session) s)
    else (returned (record { session = r.session; credential_to_set = none }), s)

unfoldable pub resolve : Surroundings → Option Text → SessionStore → Result SessionResolution
resolve e none s = create_guest e e.now s
resolve e (some credential) s =
    if not (is_secret credential)
    then create_guest e e.now s
    else resolve_record e credential (find_by_credential_hash (e.hash credential) s) s

unfoldable pub revoke : Surroundings → Session → SessionStore → Bool × SessionStore
revoke e session s = Rotation.revoke session.session_id session.session_version e.now s

abbrev pub as_answer : Result SessionResolution → Result (Answer SessionResolution)
as_answer (returned resolution, s) = (returned (ok resolution), s)
as_answer (thrown fault, s) = (thrown fault, s)

abbrev pub after_logout :
    Surroundings → Answer (Unit {0}) × SessionStore → Result (Answer SessionResolution)
after_logout e (refused reason, s) = (returned (refused reason), s)
after_logout e (ok _, s) = as_answer (create_guest e e.now s)

abbrev pub logout_as :
    Surroundings → SessionKind → Logout → SessionStore → Result (Answer SessionResolution)
logout_as e guest input s = (returned (refused not_authenticated), s)
logout_as e (authenticated a) input s =
    if not (is_secret input.csrf_token)
    then (returned (refused invalid_csrf), s)
    else after_logout e (Rotation.logout input s)

unfoldable pub logout :
    Surroundings → Session → Text → SessionStore → Result (Answer SessionResolution)
logout e session csrf_token s =
    logout_as e session.kind
      (record {
        session_id = session.session_id;
        expected_version = session.session_version;
        csrf_token = csrf_token;
        logged_out_at = e.now;
      })
      s

unfoldable pub ephemeral_guest : Surroundings → Session
ephemeral_guest e = guest_session e e.now (e.session_ids 0)
