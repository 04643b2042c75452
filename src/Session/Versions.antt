-- ===== src/Session/Versions.antt =====
-- lib/session/memory-repository.ts: the versions of a session only grow.
use iam_pager.Base.{
  ℕ, ◌≤◌, ◌<◌, Text, List, [], ◌∷◌, none, some, ◌≡◌, ◌==◌, arith, Bool-cases, inl, inr, All,
}
use iam_pager.Base.Map.{get, get-put}
use iam_pager.Session.{SessionRecord}
use iam_pager.Session.Store.{SessionStore, current_at}
use iam_pager.Session.Rotation.{end_session, ended, upgraded}
use iam_pager.Session.Coherence.{IsCoherent}
use iam_pager.Session.Transition.{
  Command, step, StartsLive, Transition, idle, began, rewrote, turned, closed, step-Transition,
}
use iam_pager.Base.{is_some}
use iam_pager.Session.Safety.{run, step-IsCoherent}

-- A session stands with at least this version.
unfoldable pub HasReached : Text → ℕ → SessionStore → Type 0
HasReached id version s =
    (r : SessionRecord) × (get s.records id ≡ some r) × (version ≤ r.session.session_version)

Transition-HasReached :
    (c : Command) (s t : SessionStore) (id : Text) (version : ℕ)
    → IsCoherent s
    → Transition c s t
    → HasReached id version s
    → HasReached id version t
unfolding HasReached end_session
Transition-HasReached c s t id n v (idle e) (q, stands, reached) = (q, ground arith, reached)
Transition-HasReached c s t id n v (began r is new free e) (q, stands, reached) =
    (q, rw e (ground (arith, get-put s.records r.session.session_id id r)), reached)
Transition-HasReached c s t id n v (rewrote j m r u k same_id same same_hash unrev e)
      (q, stands, reached) =
    elim (Bool-cases (j == id)) [
      | inl here ↦ (u, rw e (ground (arith, get-put s.records j id u)), ground (arith, k.stands))
      | inr other ↦ (q, rw e (ground (arith, get-put s.records j id u)), reached)
    ]
Transition-HasReached c s t id n v (turned i r is k free e) (q, stands, reached) =
    let its = v.id_kept i.session_id r k.stands in
    let j = r.session.session_id in
    elim (Bool-cases (j == id)) [
      | inl here ↦ (
        upgraded i r,
        rw e (ground (arith, get-put s.records j id (upgraded i r))),
        ground (arith, k.stands),
      )
      | inr other ↦ (q, rw e (ground (arith, get-put s.records j id (upgraded i r))), reached)
    ]
Transition-HasReached c s t id n v (closed j m at r k e) (q, stands, reached) =
    elim (Bool-cases (j == id)) [
      | inl here ↦ (
        ended at r,
        rw e (ground (arith, get-put s.records j id (ended at r))),
        ground (arith, k.stands),
      )
      | inr other ↦ (q, rw e (ground (arith, get-put s.records j id (ended at r))), reached)
    ]

step-HasReached :
    (c : Command) (s : SessionStore) (id : Text) (version : ℕ)
    → IsCoherent s
    → HasReached id version s
    → HasReached id version (step c s)
step-HasReached c s id n v h = Transition-HasReached c s (step c s) id n v (step-Transition c s) h

pub run-HasReached :
    (cs : List Command) (s : SessionStore) (id : Text) (version : ℕ)
    → All StartsLive cs
    → IsCoherent s
    → HasReached id version s
    → HasReached id version (run cs s)
unfolding run
run-HasReached [] s id n live v h = h
run-HasReached (c ∷ cs) s id n live v h =
    run-HasReached cs (step c s) id n live.1 (step-IsCoherent c s live.0 v)
      (step-HasReached c s id n v h)

-- A version that a session has passed is stale.
pub HasReached-stale :
    (id : Text) (m n : ℕ) (s : SessionStore) → m < n → HasReached id n s → current_at id m s ≡ none
unfolding HasReached current_at
HasReached-stale id m n s less (r, stands, reached) = elim (Bool-cases (is_some r.revoked_at)) [
  | inl revoked ↦ ground arith
  | inr live ↦ ground arith
]
