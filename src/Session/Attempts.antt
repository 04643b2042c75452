-- ===== src/Session/Attempts.antt =====
-- lib/session/memory-repository.ts: saving and consuming one-use authentication attempts.
use iam_pager.Base.{
  ℕ, ◌-◌, Text, Bool, List, [], ◌∷◌, ◌++◌, Option, none, some, if◌then◌else◌, ltb, eqb, ◌==◌, ◌&&◌,
  not, any, filter, drop, length,
}
use iam_pager.Session.{SessionAuthenticationAttempt, SessionRecord, is_guest}
use iam_pager.Session.Store.{
  SessionStore, Answer, ok, refused, stale_session, not_guest, state_collision, not_found,
  current_at, store_record, with_attempts,
}

pub record AttemptSave : Type 0 where
  pub session_id : Text
  pub expected_version : ℕ
  pub attempt : SessionAuthenticationAttempt
  pub max_pending_attempts : ℕ

abbrev pub active_at : ℕ → List SessionAuthenticationAttempt → List SessionAuthenticationAttempt
active_at time = filter (λ attempt. ltb time attempt.expires_at)

-- `slice(-(max - 1))` keeps the last `max - 1` attempts; at 0 it is `slice(1)`.
abbrev pub retained_attempts :
    ℕ → List SessionAuthenticationAttempt → List SessionAuthenticationAttempt
retained_attempts max active =
    if eqb max 1
    then []
    else if eqb max 0
    then drop 1 active
    else drop (length active - (max - 1)) active

abbrev pub has_state : SessionAuthenticationAttempt → List SessionAuthenticationAttempt → Bool
has_state attempt = any (λ other. other.state_hash == attempt.state_hash)

unfoldable pub save_from :
    AttemptSave → Option SessionRecord → SessionStore → Answer (Unit {0}) × SessionStore
save_from input none s = (refused stale_session, s)
save_from input (some current) s =
    let active = active_at input.attempt.created_at current.authentication_attempts in
    if not (is_guest current.session.kind)
    then (refused not_guest, s)
    else if has_state input.attempt active
    then (refused state_collision, s)
    else (
      ok tt,
      store_record input.session_id
          (with_attempts
            (retained_attempts input.max_pending_attempts active ++ (input.attempt ∷ [])) current)
          s,
    )

unfoldable pub save_authentication_attempt :
    AttemptSave → SessionStore → Answer (Unit {0}) × SessionStore
save_authentication_attempt input s =
    save_from input (current_at input.session_id input.expected_version s) s

pub record AttemptConsume : Type 0 where
  pub session_id : Text
  pub expected_version : ℕ
  pub strategy_id : Text
  pub state_hash : Text
  pub consumed_at : ℕ

abbrev with_head :
    SessionAuthenticationAttempt
    → Option (SessionAuthenticationAttempt × List SessionAuthenticationAttempt)
    → Option (SessionAuthenticationAttempt × List SessionAuthenticationAttempt)
with_head x none = none
with_head x (some (found, others)) = some (found, x ∷ others)

-- `findIndex` with the element at that index, and the elements at the other indices
unfoldable pub extract :
    (SessionAuthenticationAttempt → Bool)
    → List SessionAuthenticationAttempt
    → Option (SessionAuthenticationAttempt × List SessionAuthenticationAttempt)
extract matches [] = none
extract matches (x ∷ xs) = if matches x then some (x, xs) else with_head x (extract matches xs)

abbrev pub is_sought : AttemptConsume → SessionAuthenticationAttempt → Bool
is_sought input attempt =
    attempt.strategy_id == input.strategy_id && attempt.state_hash == input.state_hash

unfoldable pub consume_matched :
    AttemptConsume
    → SessionRecord
    → Option (SessionAuthenticationAttempt × List SessionAuthenticationAttempt)
    → SessionStore
    → Answer SessionAuthenticationAttempt × SessionStore
consume_matched input current none s =
    let active = active_at input.consumed_at current.authentication_attempts in
    (
      refused not_found,
      if not (eqb (length active) (length current.authentication_attempts))
          then store_record input.session_id (with_attempts active current) s
          else s,
    )
consume_matched input current (some (attempt, others)) s =
    (ok attempt, store_record input.session_id (with_attempts others current) s)

unfoldable pub consume_from :
    AttemptConsume
    → Option SessionRecord
    → SessionStore
    → Answer SessionAuthenticationAttempt × SessionStore
consume_from input none s = (refused stale_session, s)
consume_from input (some current) s =
    if not (is_guest current.session.kind)
    then (refused not_guest, s)
    else consume_matched input current
        (extract (is_sought input) (active_at input.consumed_at current.authentication_attempts)) s

unfoldable pub consume_authentication_attempt :
    AttemptConsume → SessionStore → Answer SessionAuthenticationAttempt × SessionStore
consume_authentication_attempt input s =
    consume_from input (current_at input.session_id input.expected_version s) s
