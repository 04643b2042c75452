-- ===== src/Session/Transition.antt =====
-- lib/session/memory-repository.ts: any operation, as one transition of the store.
use iam_pager.Base.{
  ◌++◌, [], ◌∷◌, ℕ, Text, Option, none, some, false, ◌≡◌, refl, arith, Option-cases, Bool-cases,
  inl, inr, is_some, eqb, length, ◌++◌, [], ◌∷◌,
}
use iam_pager.Base.Map.{get, has, put, delete}
use iam_pager.Session.{SessionRecord, SessionKind, guest, authenticated, is_guest}
use iam_pager.Session.Store.{
  SessionStore, create, renew, renewed, store_record, current_at, with_attempts,
}
use iam_pager.Session.Attempts.{
  save_authentication_attempt, save_from, consume_authentication_attempt, consume_from,
  consume_matched, extract, is_sought, active_at, AttemptSave, AttemptConsume, retained_attempts,
  has_state,
}
use iam_pager.Session.Rotation.{
  upgrade, upgrade_from, logout, logout_from, logout_as, revoke, revoke_from, end_session, upgraded,
  SessionUpgrade, Logout,
}
use iam_pager.Session.Csrf.{csrf_tokens_match}
use iam_pager.Session.Coherence.{IsCurrent, current_at-IsCurrent}

pub data Command : Type 0 where
  create_session : SessionRecord → Command
  renew_session : Text → ℕ → ℕ → Option ℕ → Command
  save_attempt : AttemptSave → Command
  consume_attempt : AttemptConsume → Command
  upgrade_session : SessionUpgrade → Command
  logout_session : Logout → Command
  revoke_session : Text → ℕ → ℕ → Command

unfoldable pub step : Command → SessionStore → SessionStore
step (create_session r) s = (create r s).1
step (renew_session id version seen idle) s = (renew id version seen idle s).1
step (save_attempt input) s = (save_authentication_attempt input s).1
step (consume_attempt input) s = (consume_authentication_attempt input s).1
step (upgrade_session input) s = (upgrade input s).1
step (logout_session input) s = (logout input s).1
step (revoke_session id version at) s = (revoke id version at s).1

-- The credential hash that an operation brings in
abbrev pub introduced : Command → Option Text
introduced (create_session r) = some r.credential_hash
introduced (upgrade_session input) = some input.credential_hash
introduced _ = none

-- A session is created live; the service gives `revoked_at: null`.
abbrev pub StartsLive : Command → Type 0
StartsLive (create_session r) = r.revoked_at ≡ none
StartsLive _ = Unit

abbrev pub created : SessionRecord → SessionStore → SessionStore
created r s = record {
  records = put s.records r.session.session_id r;
  credential_index = put s.credential_index r.credential_hash r.session.session_id;
}

abbrev pub rotated : Text → SessionUpgrade → SessionRecord → SessionStore → SessionStore
rotated id input r s = record {
  records = put s.records id (upgraded input r);
  credential_index = put (delete s.credential_index r.credential_hash) input.credential_hash id;
}

-- What an operation can do to the store
pub data Transition (c : Command) (s t : SessionStore) : Type 0 where
  idle : t ≡ s → Transition c s t
  began :
      (r : SessionRecord)
      → c ≡ create_session r
      → get s.records r.session.session_id ≡ none
      → get s.credential_index r.credential_hash ≡ none
      → t ≡ created r s
      → Transition c s t
  rewrote :
      (id : Text) (version : ℕ) (r u : SessionRecord)
      → IsCurrent id version s r
      → u.session.session_id ≡ r.session.session_id
      → u.session.session_version ≡ r.session.session_version
      → u.credential_hash ≡ r.credential_hash
      → u.revoked_at ≡ none
      → t ≡ store_record id u s
      → Transition c s t
  turned :
      (input : SessionUpgrade) (r : SessionRecord)
      → c ≡ upgrade_session input
      → IsCurrent input.session_id input.expected_version s r
      → get s.credential_index input.credential_hash ≡ none
      → t ≡ rotated r.session.session_id input r s
      → Transition c s t
  closed :
      (id : Text) (version at : ℕ) (r : SessionRecord)
      → IsCurrent id version s r
      → t ≡ end_session id at r s
      → Transition c s t

pub absent : {V : Type 0} (o : Option V) → is_some o ≡ false → o ≡ none
absent none e = refl
absent (some v) e = cc

create-Transition :
    (r : SessionRecord) (s : SessionStore) → Transition (create_session r) s (create r s).1
unfolding create
create-Transition r s = elim (Bool-cases (has s.records r.session.session_id)) [
  | inl taken ↦ idle (ground arith)
  | inr free ↦ elim (Bool-cases (has s.credential_index r.credential_hash)) [
    | inl taken ↦ idle (ground arith)
    | inr new ↦ began r refl (absent _ free) (absent _ new) (ground arith)
  ]
]

module _ (id : Text) (version : ℕ) (s : SessionStore) where
  renew-Transition :
      (seen : ℕ) (till : Option ℕ)
      → Transition (renew_session id version seen till) s (renew id version seen till s).1
  unfolding renew
  renew-Transition seen till = elim (Option-cases (current_at id version s)) [
    | inl stale ↦ idle (rw stale refl)
    | inr (r, found) ↦
        let current = current_at-IsCurrent id version s r found in
        rewrote id version r (renewed seen till r) current refl refl refl current.unrevoked
          (rw found refl)
  ]

  revoke-Transition :
      (at : ℕ) → Transition (revoke_session id version at) s (revoke id version at s).1
  unfolding revoke revoke_from
  revoke-Transition at = elim (Option-cases (current_at id version s)) [
    | inl stale ↦ idle (rw stale refl)
    | inr (r, found) ↦
        closed id version at r (current_at-IsCurrent id version s r found) (rw found refl)
  ]

save-Transition :
    (i : AttemptSave) (s : SessionStore)
    → Transition (save_attempt i) s (save_authentication_attempt i s).1
unfolding save_authentication_attempt save_from
save-Transition i s = elim (Option-cases (current_at i.session_id i.expected_version s)) [
  | inl stale ↦ idle (rw stale refl)
  | inr (r, found) ↦ elim (Bool-cases (is_guest r.session.kind)) [
    | inr other ↦ idle (rw (found, other) refl)
    | inl is ↦
        let active = active_at i.attempt.created_at r.authentication_attempts in
        let current = current_at-IsCurrent i.session_id i.expected_version s r found in
        elim (Bool-cases (has_state i.attempt active)) [
          | inl taken ↦ idle (rw (found, is, taken) refl)
          | inr new ↦
              rewrote i.session_id i.expected_version r
                (with_attempts (retained_attempts i.max_pending_attempts active ++ (i.attempt ∷ []))
                  r)
                current refl refl refl current.unrevoked (rw (found, is, new) refl)
        ]
  ]
]

consume-Transition :
    (i : AttemptConsume) (s : SessionStore)
    → Transition (consume_attempt i) s (consume_authentication_attempt i s).1
unfolding consume_authentication_attempt consume_from consume_matched
consume-Transition i s = elim (Option-cases (current_at i.session_id i.expected_version s)) [
  | inl stale ↦ idle (rw stale refl)
  | inr (r, found) ↦ elim (Bool-cases (is_guest r.session.kind)) [
    | inr other ↦ idle (rw (found, other) refl)
    | inl is ↦
        let active = active_at i.consumed_at r.authentication_attempts in
        let current = current_at-IsCurrent i.session_id i.expected_version s r found in
        elim (Option-cases (extract (is_sought i) active)) [
          | inr ((attempt, others), e) ↦
              rewrote i.session_id i.expected_version r (with_attempts others r) current refl refl
                refl current.unrevoked (rw (found, is, e) refl)
          | inl nothing ↦
              elim (Bool-cases (eqb (length active) (length r.authentication_attempts))) [
                | inl all ↦ idle (rw (found, is, nothing, all) refl)
                | inr fewer ↦
                    rewrote i.session_id i.expected_version r (with_attempts active r) current refl
                      refl refl current.unrevoked (rw (found, is, nothing, fewer) refl)
              ]
        ]
  ]
]

upgrade-Transition :
    (i : SessionUpgrade) (s : SessionStore) → Transition (upgrade_session i) s (upgrade i s).1
unfolding upgrade upgrade_from
upgrade-Transition i s = elim (Option-cases (current_at i.session_id i.expected_version s)) [
  | inl stale ↦ idle (rw stale refl)
  | inr (r, found) ↦ elim (Bool-cases (has s.credential_index i.credential_hash)) [
    | inl taken ↦ idle (rw (found, taken) refl)
    | inr new ↦
        turned i r refl (current_at-IsCurrent i.session_id i.expected_version s r found)
          (absent _ new) (rw (found, new) refl)
  ]
]

logout_as-Transition :
    (i : Logout) (s : SessionStore) (r : SessionRecord) (k : SessionKind)
    → IsCurrent i.session_id i.expected_version s r
    → Transition (logout_session i) s (logout_as i k r s).1
logout_as-Transition i s r guest current = idle refl
logout_as-Transition i s r (authenticated a) current =
    elim (Bool-cases (csrf_tokens_match a.csrf_token i.csrf_token)) [
      | inr bad ↦ idle (rw bad refl)
      | inl good ↦ closed i.session_id i.expected_version i.logged_out_at r current (rw good refl)
    ]

logout-Transition : (i : Logout) (s : SessionStore) → Transition (logout_session i) s (logout i s).1
unfolding logout logout_from
logout-Transition i s = elim (Option-cases (current_at i.session_id i.expected_version s)) [
  | inl stale ↦ idle (rw stale refl)
  | inr (r, found) ↦ rw found (
      logout_as-Transition i s r r.session.kind
        (current_at-IsCurrent i.session_id i.expected_version s r found))
]

-- Every operation is one of the transitions.
pub step-Transition : (c : Command) (s : SessionStore) → Transition c s (step c s)
unfolding step
step-Transition (create_session r) s = create-Transition r s
step-Transition (renew_session id version seen till) s = renew-Transition id version s seen till
step-Transition (save_attempt i) s = save-Transition i s
step-Transition (consume_attempt i) s = consume-Transition i s
step-Transition (upgrade_session i) s = upgrade-Transition i s
step-Transition (logout_session i) s = logout-Transition i s
step-Transition (revoke_session id version at) s = revoke-Transition id version s at
