-- ===== src/Session/SignIn.antt =====
-- lib/session/service.ts: the attempts of a sign-in, and the upgrade of a session.
use iam_pager.Base.{
  ℕ, zero, suc, ◌+◌, Text, Bool, Option, none, some, false, if◌then◌else◌, leb, eqb, not, ◌||◌,
  length,
}
use iam_pager.Base.Exec.{returned, thrown}
use iam_pager.Session.{
  Session, SessionRecord, SessionAuthenticationAttempt, is_guest, session_expiry,
}
use iam_pager.Session.Store.{
  SessionStore, Answer, ok, refused, Reason, stale_session, not_guest, not_found,
}
use iam_pager.Session.Attempts.{AttemptSave, AttemptConsume}
use iam_pager.Session.Attempts
use iam_pager.Session.Rotation.{SessionUpgrade}
use iam_pager.Session.Rotation
use iam_pager.Session.Service.{
  Surroundings, Result, Fault, weak_credential, weak_csrf_token, no_unique_credential,
  empty_user_id, weak_state, bad_strategy_id, bad_callback_url, bad_return_to, long_attempt_context,
  is_secret, SessionResolution, credential_update, min_date, max_generation_attempts, revoke,
}

pub record AttemptInput : Type 0 where
  pub strategy_id : Text
  pub state : Text
  pub callback_url : Text
  pub return_to : Text
  pub attempt_context : Option Text

abbrev out_of_bounds : ℕ → Text → Bool
out_of_bounds most t = eqb (length t) 0 || not (leb (length t) most)

abbrev is_too_long : Option Text → Bool
is_too_long none = false
is_too_long (some context) = not (leb (length context) 4096)

-- What `validate_authentication_attempt` throws, if anything
unfoldable pub attempt_fault : AttemptInput → Option Fault
attempt_fault input =
    if not (is_secret input.state)
    then some weak_state
    else if out_of_bounds 64 input.strategy_id
    then some bad_strategy_id
    else if out_of_bounds 2048 input.callback_url
    then some bad_callback_url
    else if out_of_bounds 2048 input.return_to
    then some bad_return_to
    else if is_too_long input.attempt_context
    then some long_attempt_context
    else none

abbrev pub requested_attempt : Surroundings → Session → AttemptInput → AttemptSave
requested_attempt e session input = record {
  session_id = session.session_id;
  expected_version = session.session_version;
  attempt = record {
    strategy_id = input.strategy_id;
    state_hash = e.hash input.state;
    callback_url = input.callback_url;
    return_to = input.return_to;
    attempt_context = input.attempt_context;
    created_at = e.now;
    expires_at = e.now + e.config.authentication_attempt_lifetime_ms;
  };
  max_pending_attempts = e.config.max_pending_authentication_attempts;
}

abbrev answered : {A : Type 0} → Answer A × SessionStore → Result (Answer A)
answered (answer, s) = (returned answer, s)

abbrev save_unless :
    Surroundings → Session → AttemptInput → Option Fault → SessionStore → Result (Answer (Unit {0}))
save_unless e session input (some fault) s = (thrown fault, s)
save_unless e session input none s =
    if leb (session_expiry session) e.now
    then (returned (refused stale_session), (revoke e session s).1)
    else answered (Attempts.save_authentication_attempt (requested_attempt e session input) s)

unfoldable pub save_authentication_attempt :
    Surroundings → Session → AttemptInput → SessionStore → Result (Answer (Unit {0}))
save_authentication_attempt e session input s =
    if not (is_guest session.kind)
    then (returned (refused not_guest), s)
    else save_unless e session input (attempt_fault input) s

pub data ConsumeReply : Type 0 where
  consumed : SessionAuthenticationAttempt → ConsumeReply
  invalid_attempt : ConsumeReply
  not_consumed : Reason → ConsumeReply

abbrev consume_reply : Answer SessionAuthenticationAttempt → ConsumeReply
consume_reply (ok attempt) = consumed attempt
consume_reply (refused not_found) = invalid_attempt
consume_reply (refused reason) = not_consumed reason

abbrev replied : Answer SessionAuthenticationAttempt × SessionStore → ConsumeReply × SessionStore
replied (answer, s) = (consume_reply answer, s)

unfoldable pub consume_authentication_attempt :
    Surroundings → Session → Text → Text → SessionStore → ConsumeReply × SessionStore
consume_authentication_attempt e session strategy_id state s =
    if not (is_guest session.kind)
    then (not_consumed not_guest, s)
    else if not (is_secret state)
    then (invalid_attempt, s)
    else if leb (session_expiry session) e.now
    then (not_consumed stale_session, (revoke e session s).1)
    else replied (
        Attempts.consume_authentication_attempt
          (record {
            session_id = session.session_id;
            expected_version = session.session_version;
            strategy_id = strategy_id;
            state_hash = e.hash state;
            consumed_at = e.now;
          })
          s)

abbrev pub requested_upgrade : Surroundings → Session → Text → ℕ → SessionUpgrade
requested_upgrade e session user_id attempt =
    let absolute = e.now + e.config.authenticated_absolute_lifetime_ms in
    record {
      session_id = session.session_id;
      expected_version = session.session_version;
      credential_hash = e.hash (e.credentials attempt);
      csrf_token = e.csrf_tokens attempt;
      user_id = user_id;
      authenticated_at = e.now;
      absolute_expires_at = absolute;
      idle_expires_at = min_date (e.now + e.config.authenticated_idle_lifetime_ms) absolute;
    }

-- A collision leads to the next attempt, any other refusal ends the call.
abbrev pub upgrade_answer :
    Text
    → (SessionStore → Result (Answer SessionResolution))
    → Answer SessionRecord × SessionStore
    → Result (Answer SessionResolution)
upgrade_answer credential again (ok r, s) = (
  returned (
      ok (record {
        session = r.session;
        credential_to_set = some (credential_update credential r.session);
      })),
  s,
)
upgrade_answer credential again (refused stale_session, s) = (returned (refused stale_session), s)
upgrade_answer credential again (refused _, s) = again s

unfoldable pub upgrade_attempts :
    Surroundings → Session → Text → ℕ → ℕ → SessionStore → Result (Answer SessionResolution)
upgrade_attempts e session user_id zero attempt s = (thrown no_unique_credential, s)
upgrade_attempts e session user_id (suc left) attempt s =
    let again = upgrade_attempts e session user_id left (suc attempt) in
    if not (is_secret (e.credentials attempt))
    then (thrown weak_credential, s)
    else if not (is_secret (e.csrf_tokens attempt))
    then (thrown weak_csrf_token, s)
    else upgrade_answer (e.credentials attempt) again
        (Rotation.upgrade (requested_upgrade e session user_id attempt) s)

unfoldable pub upgrade :
    Surroundings → Session → Text → SessionStore → Result (Answer SessionResolution)
upgrade e session user_id s =
    if eqb (length user_id) 0
    then (thrown empty_user_id, s)
    else if leb (session_expiry session) e.now
    then (returned (refused stale_session), (revoke e session s).1)
    else upgrade_attempts e session user_id max_generation_attempts 0 s
