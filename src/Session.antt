-- ===== src/Session.antt =====
-- lib/session/model.ts: sessions, their one-use authentication attempts, and when a session ends.
-- A `Date` is its count of milliseconds.
use iam_pager.Base.{ℕ, Text, List, Option, Bool, true, false, if◌then◌else◌, ltb}
pub mod Csrf
pub mod Store
pub mod Attempts
pub mod Rotation
pub mod Coherence
pub mod Transition
pub mod Safety
pub mod Versions
pub mod Endings
pub mod Outcomes
pub mod OneUse
pub mod Service
pub mod SignIn
pub mod Guests
pub mod Resolving
pub mod Upgrading
mod Tests

-- What only an `AuthenticatedSession` has
pub record Authentication : Type 0 where
  pub user_id : Text
  pub authenticated_at : ℕ
  pub idle_expires_at : ℕ
  pub csrf_token : Text

pub data SessionKind : Type 0 where
  guest : SessionKind
  authenticated : Authentication → SessionKind

pub record Session : Type 0 where
  pub kind : SessionKind
  pub session_id : Text
  pub session_version : ℕ
  pub created_at : ℕ
  pub last_seen_at : ℕ
  pub absolute_expires_at : ℕ

pub record SessionAuthenticationAttempt : Type 0 where
  pub strategy_id : Text
  pub state_hash : Text
  pub callback_url : Text
  pub return_to : Text
  pub attempt_context : Option Text
  pub created_at : ℕ
  pub expires_at : ℕ

pub record SessionRecord : Type 0 where
  pub session : Session
  pub credential_hash : Text
  pub revoked_at : Option ℕ
  pub authentication_attempts : List SessionAuthenticationAttempt

abbrev pub is_guest : SessionKind → Bool
is_guest guest = true
is_guest (authenticated a) = false

-- The earlier of the two limits of an authenticated session, the one limit of a guest's
abbrev pub expiry_of : SessionKind → ℕ → ℕ
expiry_of guest absolute = absolute
expiry_of (authenticated a) absolute =
    if ltb a.idle_expires_at absolute then a.idle_expires_at else absolute

abbrev pub session_expiry : Session → ℕ
session_expiry s = expiry_of s.kind s.absolute_expires_at
