-- ===== src/Session/Guests.antt =====
-- lib/session/service.ts: what the creation of a guest session comes to.
use iam_pager.Base.{
  ◌⊎◌, subst, ℕ, zero, suc, ◌+◌, ◌<◌, Text, none, some, true, false, ◌≡◌, refl, arith, Option-cases,
  Bool-cases, inl, inr, eqb,
}
use iam_pager.Base.Map.{get, has, get-put}
use iam_pager.Base.Exec.{returned, thrown}
use iam_pager.Session.{SessionRecord}
use iam_pager.Session.Store.{SessionStore, create, find_by_credential_hash}
use iam_pager.Session.Coherence.{IsCoherent}
use iam_pager.Session.Transition.{created, absent}
use iam_pager.Session.Safety.{created-IsCoherent}
use iam_pager.Session.Service.{
  Surroundings, max_generation_attempts, Result, Fault, SessionResolution, guest_attempts,
  guest_record, guest_resolution, is_secret, create_guest, weak_credential, no_unique_session,
}

-- The identity and the credential of an attempt are unused.
pub record IsFree (e : Surroundings) (attempt : ℕ) (s : SessionStore) : Type 0 where
  pub new_id : has s.records (e.session_ids attempt) ≡ false
  pub new_credential : has s.credential_index (e.hash (e.credentials attempt)) ≡ false

-- Why the first `limit` attempts gave no session: a credential that is not of the required form, or
-- none of the attempts was unused.
pub data GuestFailure (e : Surroundings) (limit : ℕ) (s : SessionStore) (f : Fault) : Type 0 where
  malformed :
      (n : ℕ)
      → n < limit
      → is_secret (e.credentials n) ≡ false
      → f ≡ weak_credential
      → GuestFailure e limit s f
  exhausted :
      ((n : ℕ) → n < limit → ¬ IsFree e n s) → f ≡ no_unique_session → GuestFailure e limit s f

-- What the creation of a guest session can come to
pub data GuestOutcome (e : Surroundings) (at limit : ℕ) (s : SessionStore)
    (result : Result SessionResolution) : Type 0 where
  failed :
      (f : Fault)
      → GuestFailure e limit s f
      → result ≡ (thrown f, s)
      → GuestOutcome e at limit s result
  done :
      (attempt : ℕ) (t : SessionStore)
      → attempt < limit
      → is_secret (e.credentials attempt) ≡ true
      → IsCoherent t
      → find_by_credential_hash (e.hash (e.credentials attempt)) t
        ≡ some (guest_record e at attempt)
      → ((h : Text) (r : SessionRecord)
          → find_by_credential_hash h s ≡ some r
          → find_by_credential_hash h t ≡ some r)
      → result ≡ (returned (guest_resolution e at attempt), t)
      → GuestOutcome e at limit s result

created-done :
    (e : Surroundings) (at limit attempt : ℕ) (s : SessionStore)
    → IsCoherent s
    → attempt < limit
    → is_secret (e.credentials attempt) ≡ true
    → get s.records (e.session_ids attempt) ≡ none
    → get s.credential_index (e.hash (e.credentials attempt)) ≡ none
    → GuestOutcome e at limit s
        (returned (guest_resolution e at attempt), created (guest_record e at attempt) s)
unfolding find_by_credential_hash
created-done e at limit attempt s v less strong new free =
    let r = guest_record e at attempt in
    let id = e.session_ids attempt in
    let hash = e.hash (e.credentials attempt) in
    done attempt (created r s) less strong (created-IsCoherent r s v refl new free)
      (ground (arith, get-put s.credential_index hash hash id, get-put s.records id id r))
      (λ h q found. elim (Option-cases (get s.credential_index h)) [
        | inl nothing ↦ absurd (ground arith)
        | inr (j, leads) ↦
            ground (arith, get-put s.credential_index hash h id, get-put s.records id j r)
      ])
      refl

-- None of the attempts before `attempt` was unused.
abbrev NoneFree : Surroundings → ℕ → SessionStore → Type 0
NoneFree e attempt s = (n : ℕ) → n < attempt → ¬ IsFree e n s

one_more :
    (e : Surroundings) (attempt : ℕ) (s : SessionStore)
    → NoneFree e attempt s
    → ¬ IsFree e attempt s
    → NoneFree e (suc attempt) s
one_more e attempt s before here n less free = elim (Bool-cases (eqb n attempt)) [
  | inl last ↦ here (subst (λ k. IsFree e k s) (ground arith) free)
  | inr earlier ↦ before n (ground arith) free
]

attempts_outcome :
    (e : Surroundings) (at left attempt limit : ℕ) (s : SessionStore)
    → IsCoherent s
    → attempt + left ≡ limit
    → NoneFree e attempt s
    → GuestOutcome e at limit s (guest_attempts e at left attempt s)
unfolding guest_attempts create
attempts_outcome e at zero attempt limit s v sum before =
    failed no_unique_session (exhausted (λ n less. before n (omega arith)) refl) refl
attempts_outcome e at (suc left) attempt limit s v sum before =
    let next : ¬ IsFree e attempt s
        → GuestOutcome e at limit s (guest_attempts e at left (suc attempt) s) =
      λ taken.
        attempts_outcome e at left (suc attempt) limit s v (omega arith)
          (one_more e attempt s before taken) in
    elim (Bool-cases (is_secret (e.credentials attempt))) [
      | inr weak ↦ rw weak (failed weak_credential (malformed attempt (omega arith) weak refl) refl)
      | inl strong ↦ elim (Bool-cases (has s.records (e.session_ids attempt))) [
        | inl taken ↦ rw (strong, taken) (next (λ free. ground (arith, free.new_id)))
        | inr new ↦ elim (Bool-cases (has s.credential_index (e.hash (e.credentials attempt)))) [
          | inl taken ↦ rw (strong, new, taken) (next (λ free. ground (arith, free.new_credential)))
          | inr free ↦
              rw (strong, new, free)
                (created-done e at limit attempt s v (omega arith) strong (absent _ new)
                  (absent _ free))
        ]
      ]
    ]

pub create_guest_outcome :
    (e : Surroundings) (at : ℕ) (s : SessionStore)
    → IsCoherent s
    → GuestOutcome e at max_generation_attempts s (create_guest e at s)
unfolding create_guest
create_guest_outcome e at s v =
    attempts_outcome e at max_generation_attempts 0 max_generation_attempts s v refl
      (λ n less. absurd (omega arith))

-- The call gives a session.
abbrev pub IsAnswered : Result SessionResolution → Type 0
IsAnswered result = (r : SessionResolution) × (t : SessionStore) × (result ≡ (returned r, t))

attempt-IsAnswered :
    (e : Surroundings) (at left attempt : ℕ) (s : SessionStore)
    → is_secret (e.credentials attempt) ≡ true
    → IsFree e attempt s ⊎ IsAnswered (guest_attempts e at left (suc attempt) s)
    → IsAnswered (guest_attempts e at (suc left) attempt s)
unfolding guest_attempts create
attempt-IsAnswered e at left attempt s strong (inl free) =
    let answer = guest_resolution e at attempt in
    (
      answer,
      created (guest_record e at attempt) s,
      rw (strong, free.new_id, free.new_credential) refl,
    )
attempt-IsAnswered e at left attempt s strong (inr later) =
    elim (Bool-cases (has s.records (e.session_ids attempt))) [
      | inl taken ↦ rw (strong, taken) later
      | inr new ↦
          let hash = e.hash (e.credentials attempt) in
          elim (Bool-cases (has s.credential_index hash)) [
            | inl taken ↦ rw (strong, new, taken) later
            | inr free ↦
                let answer = guest_resolution e at attempt in
                (answer, created (guest_record e at attempt) s, rw (strong, new, free) refl)
          ]
    ]

guest_attempts-IsAnswered :
    (e : Surroundings) (at left attempt more : ℕ) (s : SessionStore)
    → ((k : ℕ) → is_secret (e.credentials k) ≡ true)
    → more < left
    → IsFree e (attempt + more) s
    → IsAnswered (guest_attempts e at left attempt s)
guest_attempts-IsAnswered e at zero attempt more s strong less free = absurd (omega arith)
guest_attempts-IsAnswered e at (suc left) attempt zero s strong less free =
    attempt-IsAnswered e at left attempt s (strong attempt)
      (inl (subst (λ k. IsFree e k s) (omega arith) free))
guest_attempts-IsAnswered e at (suc left) attempt (suc more) s strong less free =
    attempt-IsAnswered e at left attempt s (strong attempt) (
      inr (
        guest_attempts-IsAnswered e at left (suc attempt) more s strong (omega arith)
          (subst (λ k. IsFree e k s) (omega arith) free)))

-- With credentials of the required form, one unused identity and credential among the permitted
-- attempts is enough for a guest session.
pub create_guest-IsAnswered :
    (e : Surroundings) (at k : ℕ) (s : SessionStore)
    → ((j : ℕ) → is_secret (e.credentials j) ≡ true)
    → k < max_generation_attempts
    → IsFree e k s
    → IsAnswered (create_guest e at s)
unfolding create_guest
create_guest-IsAnswered e at k s strong less free =
    guest_attempts-IsAnswered e at max_generation_attempts 0 k s strong less
      (subst (λ j. IsFree e j s) (omega arith) free)
