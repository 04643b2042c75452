-- ===== src/PageRepository/Safety.antt =====
-- lib/page/memory-aggregate-repository.ts: what holds through any history of calls.
use iam_pager.Base.{
  text_dec, Text, List, [], ◌∷◌, Option, some, true, false, ◌≡◌, ◌≢◌, refl, member, arith, subst,
  sym,
}
use iam_pager.Base.Map.{get}
use iam_pager.Aggregate.{PageAggregate}
use iam_pager.PageRepository.State.{
  Repository, Fault, invariant_violated, empty_repository, keys_of,
}
use iam_pager.PageRepository.Invariant.{IsCoherent}
use iam_pager.PageRepository.Transition.{
  Command, actor, step, may_touch, Transition, idle, stored, wrote, dropped, observed,
  step-Transition,
}

Transition-IsCoherent :
    {who : Option Text} {s : Repository} (o : Option Fault × Repository)
    → IsCoherent s
    → Transition who s o
    → IsCoherent o.1
Transition-IsCoherent o v (idle same fine) = subst IsCoherent (sym same) v
Transition-IsCoherent o v (stored t e pages index k) = rw e k
Transition-IsCoherent o v (wrote gone p t e c may) = rw e c.coherent
Transition-IsCoherent o v (dropped id p t e stands may r k) = rw e k
Transition-IsCoherent o v (observed id p q t e stands only index after k) = rw e k

-- Every public call keeps the pages and the endpoint index in agreement, whether it commits, is
-- refused or throws.
pub step-IsCoherent : (c : Command) (s : Repository) → IsCoherent s → IsCoherent (step c s).1
step-IsCoherent c s v = Transition-IsCoherent (step c s) v (step-Transition c s v)

Transition-fault :
    {who : Option Text} {s : Repository} (o : Option Fault × Repository)
    → Transition who s o
    → o.0 ≢ some invariant_violated
Transition-fault o (idle same fine) = fine
Transition-fault o (stored t e pages index k) = rw e (λ f. cc)
Transition-fault o (wrote gone p t e c may) = rw e (λ f. cc)
Transition-fault o (dropped id p t e stands may r k) = rw e (λ f. cc)
Transition-fault o (observed id p q t e stands only index after k) = rw e (λ f. cc)

-- The calls made one after the other
unfoldable pub run : List Command → Repository → Repository
run [] s = s
run (c ∷ cs) s = run cs (step c s).1

pub empty-IsCoherent : IsCoherent empty_repository
unfolding get
empty-IsCoherent = record {
  id_kept = λ id p e. cc;
  valid = λ id p e. cc;
  stored = λ id p e. cc;
  indexed = λ id p k e m. cc;
  owned = λ k id e. absurd (ground arith);
}

run-IsCoherent : (cs : List Command) (s : Repository) → IsCoherent s → IsCoherent (run cs s)
unfolding run
run-IsCoherent [] s v = v
run-IsCoherent (c ∷ cs) s v = run-IsCoherent cs (step c s).1 (step-IsCoherent c s v)

-- After any history of calls on an empty repository, the state is coherent and the next call does
-- not throw the invariant violation.
pub history_safe :
    (cs : List Command) (c : Command)
    → IsCoherent (run cs empty_repository)
      × ((step c (run cs empty_repository)).0 ≢ some invariant_violated)
history_safe cs c =
    let v = run-IsCoherent cs empty_repository empty-IsCoherent in
    (v, Transition-fault _ (step-Transition c (run cs empty_repository) v))

-- The page `q` stands after the call, but for what delivery observed of its content.
abbrev pub Survives : Text → PageAggregate → Repository → Type 0
Survives id q t =
    (later : PageAggregate) × (get t.pages id ≡ some later)
    × (record q { external_missing = later.external_missing } ≡ later)

Transition-Survives :
    {who : Option Text} {s : Repository} (o : Option Fault × Repository) (id : Text)
    (q : PageAggregate)
    → Transition who s o
    → get s.pages id ≡ some q
    → may_touch who q.stewardship ≡ false
    → Survives id q o.1
Transition-Survives o id q (idle same fine) e foreign = (q, ground arith, refl)
Transition-Survives o id q (stored t f pages index k) e foreign = (q, ground arith, refl)
Transition-Survives o id q (wrote gone p t f c may) e foreign =
    (q, ground (arith, c.pages_after id, may id q e), refl)
Transition-Survives o id q (dropped j p t f stands may r k) e foreign =
    (q, ground (arith, r.pages_after id), refl)
Transition-Survives o id q (observed j p r t f stands only index after k) e foreign =
    elim (text_dec j id) [
      | no other ↦ (q, ground (arith, after id), refl)
      | yes same ↦
          let were : p ≡ q = ground arith in (r, ground (arith, after id), rw (← were) only)
    ]

-- A managed page that is not the actor's survives the call, and each of its locators still leads to
-- it: a creator's page is never replaced, retired or unlinked by a guest or another creator.
pub step-foreign :
    (c : Command) (s : Repository) (id : Text) (q : PageAggregate)
    → IsCoherent s
    → get s.pages id ≡ some q
    → may_touch (actor c) q.stewardship ≡ false
    → Survives id q (step c s).1
      × ((k : Text)
          → member k (keys_of q) ≡ true
          → get ((step c s).1).endpoint_page_ids k ≡ some id)
step-foreign c s id q v e foreign =
    let (later, stands, same) =
      Transition-Survives (step c s) id q (step-Transition c s v) e foreign in
    ((later, stands, same), λ k m. (step-IsCoherent c s v).indexed id later k stands (ground arith))
