-- ===== src/Session/OneUse.antt =====
-- lib/session/memory-repository.ts: a saved attempt can be consumed once.
use iam_pager.Base.{
  subst, ap, zero, suc, ℕ, ◌≤◌, ◌<◌, ◌+◌, ◌-◌, Text, Bool, List, [], ◌∷◌, ◌++◌, none, some, true,
  false, ◌≡◌, refl, ◌==◌, arith, Option-cases, Bool-cases, inl, inr, sym, any, filter, drop, length,
  ltb, length-append, length-drop,
}
use iam_pager.Base.Map.{get, get-put}
use iam_pager.Session.{SessionRecord, SessionAuthenticationAttempt, is_guest}
use iam_pager.Session.Store.{
  SessionStore, store_record, current_at, with_attempts, ok, refused, not_found,
}
use iam_pager.Session.Attempts.{
  save_authentication_attempt, save_from, consume_authentication_attempt, consume_from,
  consume_matched, extract, is_sought, active_at, AttemptSave, AttemptConsume, has_state,
  retained_attempts,
}
use iam_pager.Session.Coherence.{IsCurrent, current_at-IsCurrent}

-- No attempt of the list has this state.
IsUnused : Text → List SessionAuthenticationAttempt → Type 0
IsUnused h xs = any (λ other. other.state_hash == h) xs ≡ false

drop-IsUnused :
    (h : Text) (n : ℕ) (xs : List SessionAuthenticationAttempt)
    → IsUnused h xs
    → IsUnused h (drop n xs)
unfolding IsUnused
drop-IsUnused h zero xs u = u
drop-IsUnused h (suc n) [] u = u
drop-IsUnused h (suc n) (x ∷ xs) u = drop-IsUnused h n xs (ground arith)

filter-IsUnused :
    (h : Text) (p : SessionAuthenticationAttempt → Bool) (xs : List SessionAuthenticationAttempt)
    → IsUnused h xs
    → IsUnused h (filter p xs)
unfolding IsUnused
filter-IsUnused h p [] u = u
filter-IsUnused h p (x ∷ xs) u = ground (arith, filter-IsUnused h p xs)

retained_attempts-IsUnused :
    (h : Text) (max : ℕ) (xs : List SessionAuthenticationAttempt)
    → IsUnused h xs
    → IsUnused h (retained_attempts max xs)
unfolding IsUnused
retained_attempts-IsUnused h max xs u =
    ground (arith, drop-IsUnused h 1 xs u, drop-IsUnused h (length xs - (max - 1)) xs u)

extract-IsUnused :
    (i : AttemptConsume) (xs : List SessionAuthenticationAttempt)
    → IsUnused i.state_hash xs
    → extract (is_sought i) xs ≡ none
unfolding IsUnused extract
extract-IsUnused i [] u = refl
extract-IsUnused i (x ∷ xs) u = ground (arith, extract-IsUnused i xs)

-- The last attempt of a list whose others do not have its state is the one found.
extract-last :
    (i : AttemptConsume) (x : SessionAuthenticationAttempt) (xs : List SessionAuthenticationAttempt)
    → IsUnused i.state_hash xs
    → is_sought i x ≡ true
    → extract (is_sought i) (xs ++ (x ∷ [])) ≡ some (x, xs)
unfolding IsUnused extract
extract-last i x [] u is = ground arith
extract-last i x (y ∷ xs) u is = ground (arith, extract-last i x xs)

filter-last :
    (p : SessionAuthenticationAttempt → Bool) (x : SessionAuthenticationAttempt)
    (xs : List SessionAuthenticationAttempt)
    → p x ≡ true
    → filter p (xs ++ (x ∷ [])) ≡ filter p xs ++ (x ∷ [])
filter-last p x [] is = ground arith
filter-last p x (y ∷ xs) is = ground (arith, filter-last p x xs)

length-retained_attempts :
    (max : ℕ) (xs : List SessionAuthenticationAttempt)
    → 1 ≤ max
    → length (retained_attempts max xs) + 1 ≤ max
length-retained_attempts max xs h = ground (arith, length-drop (length xs - (max - 1)) xs)

-- The record that an operation writes over the current one is current.
store_record-current :
    (id : Text) (version : ℕ) (r : SessionRecord) (xs : List SessionAuthenticationAttempt)
    (s : SessionStore)
    → IsCurrent id version s r
    → current_at id version (store_record id (with_attempts xs r) s) ≡ some (with_attempts xs r)
unfolding current_at
store_record-current id version r xs s k =
    ground (arith, get-put s.records id id (with_attempts xs r), k.unrevoked, k.expected)

-- What saving an attempt did, where it succeeded
record IsSaved (i : AttemptSave) (s t : SessionStore) : Type 0 where
  holder : SessionRecord
  current : IsCurrent i.session_id i.expected_version s holder
  is_a_guest : is_guest holder.session.kind ≡ true
  unused :
      IsUnused i.attempt.state_hash (active_at i.attempt.created_at holder.authentication_attempts)
  after :
      t
      ≡ store_record i.session_id
          (with_attempts
            (retained_attempts i.max_pending_attempts
                (active_at i.attempt.created_at holder.authentication_attempts)
              ++ (i.attempt ∷ []))
            holder)
          s

save-IsSaved :
    (i : AttemptSave) (s t : SessionStore)
    → save_authentication_attempt i s ≡ (ok tt, t)
    → IsSaved i s t
unfolding save_authentication_attempt save_from IsUnused
save-IsSaved i s t e = elim (Option-cases (current_at i.session_id i.expected_version s)) [
  | inl stale ↦ absurd (ground (arith, rw stale at e))
  | inr (r, found) ↦ elim (Bool-cases (is_guest r.session.kind)) [
    | inr other ↦ absurd (ground (arith, rw (found, other) at e))
    | inl is ↦
        elim (Bool-cases
          (has_state i.attempt (active_at i.attempt.created_at r.authentication_attempts))) [
            | inl taken ↦ absurd (ground (arith, rw (found, is, taken) at e))
            | inr new ↦ record {
              holder = r;
              current = current_at-IsCurrent i.session_id i.expected_version s r found;
              is_a_guest = is;
              unused = new;
              after = ap (λ o. o.1) (sym (rw (found, is, new) at e));
            }
          ]
  ]
]

-- The request that presents the saved state at a time
abbrev pub presented : AttemptSave → ℕ → AttemptConsume
presented i time = record {
  session_id = i.session_id;
  expected_version = i.expected_version;
  strategy_id = i.attempt.strategy_id;
  state_hash = i.attempt.state_hash;
  consumed_at = time;
}

consume-found :
    (c : AttemptConsume) (r : SessionRecord) (s : SessionStore)
    → current_at c.session_id c.expected_version s ≡ some r
    → is_guest r.session.kind ≡ true
    → consume_authentication_attempt c s
      ≡ consume_matched c r
          (extract (is_sought c) (active_at c.consumed_at r.authentication_attempts))
          s
unfolding consume_authentication_attempt consume_from
consume-found c r s found is = rw (found, is) refl

consume-unused :
    (c : AttemptConsume) (r : SessionRecord) (s : SessionStore)
    → current_at c.session_id c.expected_version s ≡ some r
    → is_guest r.session.kind ≡ true
    → IsUnused c.state_hash r.authentication_attempts
    → (consume_authentication_attempt c s).0 ≡ refused not_found
unfolding consume_matched
consume-unused c r s found is u =
    let active = active_at c.consumed_at r.authentication_attempts in
    let u = filter-IsUnused c.state_hash _ r.authentication_attempts u in
    rw (consume-found c r s found is, extract-IsUnused c active u) refl

consume-last :
    (c : AttemptConsume) (r : SessionRecord) (s : SessionStore) (x : SessionAuthenticationAttempt)
    (xs : List SessionAuthenticationAttempt)
    → current_at c.session_id c.expected_version s ≡ some (with_attempts (xs ++ (x ∷ [])) r)
    → is_guest r.session.kind ≡ true
    → IsUnused c.state_hash xs
    → is_sought c x ≡ true
    → ltb c.consumed_at x.expires_at ≡ true
    → consume_authentication_attempt c s
      ≡ (ok x, store_record c.session_id (with_attempts (active_at c.consumed_at xs) r) s)
unfolding consume_matched
consume-last c r s x xs found is u sought early =
    rw
      (
        consume-found c (with_attempts (xs ++ (x ∷ [])) r) s found is,
        filter-last (λ a. ltb c.consumed_at a.expires_at) x xs early,
        extract-last c x (active_at c.consumed_at xs) (filter-IsUnused c.state_hash _ xs u) sought,
      )
      refl

-- An attempt that was saved is given back when its state is presented before it expires, and
-- presenting the same state again, at any time, finds nothing.
pub save-consume :
    (i : AttemptSave) (s t : SessionStore) (first second : ℕ)
    → save_authentication_attempt i s ≡ (ok tt, t)
    → first < i.attempt.expires_at
    → let once = consume_authentication_attempt (presented i first) t in
      (once.0 ≡ ok i.attempt)
      × ((consume_authentication_attempt (presented i second) once.1).0 ≡ refused not_found)
save-consume i s t first second e early =
    let saved = save-IsSaved i s t e in
    let r = saved.holder in
    let active = active_at i.attempt.created_at r.authentication_attempts in
    let xs = retained_attempts i.max_pending_attempts active in
    let h = i.attempt.state_hash in
    let u = retained_attempts-IsUnused h i.max_pending_attempts active saved.unused in
    let found =
      store_record-current i.session_id i.expected_version r (xs ++ (i.attempt ∷ [])) s
        saved.current in
    let there = rw (← saved.after) at found in
    let given =
      consume-last (presented i first) r t i.attempt xs there saved.is_a_guest u (ground arith)
        (ground arith) in
    let full = with_attempts (xs ++ (i.attempt ∷ [])) r in
    let left = active_at first xs in
    let again =
      store_record-current i.session_id i.expected_version full left t
        (current_at-IsCurrent i.session_id i.expected_version t full there) in
    (
      rw given refl,
      rw given (
          consume-unused (presented i second) (with_attempts left full) _ again saved.is_a_guest
            (filter-IsUnused h _ xs u)),
    )

-- Saving an attempt keeps no more than the permitted number.
pub save-length :
    (i : AttemptSave) (s t : SessionStore) (r : SessionRecord)
    → save_authentication_attempt i s ≡ (ok tt, t)
    → 1 ≤ i.max_pending_attempts
    → get t.records i.session_id ≡ some r
    → length r.authentication_attempts ≤ i.max_pending_attempts
save-length i s t r e few there =
    let saved = save-IsSaved i s t e in
    let q = saved.holder in
    let active = active_at i.attempt.created_at q.authentication_attempts in
    let xs = retained_attempts i.max_pending_attempts active in
    let full = with_attempts (xs ++ (i.attempt ∷ [])) q in
    let written : get t.records i.session_id ≡ some full =
      subst (λ u. get u.records i.session_id ≡ some full) (sym saved.after)
        (ground (arith, get-put s.records i.session_id i.session_id full)) in
    let same : full ≡ r = ground arith in
    let bound : length (xs ++ (i.attempt ∷ [])) ≤ i.max_pending_attempts = omega (
      arith,
      length-append xs (i.attempt ∷ []),
      length-retained_attempts i.max_pending_attempts active few,
    ) in
    subst (λ u. length u.authentication_attempts ≤ i.max_pending_attempts) same bound
