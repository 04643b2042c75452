-- ===== src/PageService/Call.antt =====
-- lib/page/service.ts: a call of the service, which may answer, answer a failure, or throw.
use iam_pager.Base.{Text, ℕ, suc, Bool, true, false, Option, none, some}
use iam_pager.Base.Exec.{Outcome, returned, thrown}
use iam_pager.PageRepository.State.{Repository, Fault, Action}
use iam_pager.PageRepository.Requests.{Reason}
use iam_pager.PageService.Model.{Failure}

-- The repository, and how many values each generator has given
pub record World : Type 0 where
  pub repository : Repository
  pub page_ids_drawn : ℕ
  pub asset_ids_drawn : ℕ
  pub names_drawn : ℕ

-- The errors that the service throws, those of the repository included
pub data ServiceFault : Type 0 where
  repository_failed : Fault → ServiceFault
  persistence : Reason → ServiceFault
  unauthenticated bad_expected_revision missing_asset no_handler bad_asset_id asset_ids_exhausted
        bad_page_id bad_clock repeated_name bad_generated_name bad_profiles_declared
        canonical_planning_failed stored_endpoint_invariant unsafe_links access_changed_endpoints
        not_external :
      ServiceFault

-- What ends a call early: `return { ok: false, reason }`, or a `throw`
pub data Stop : Type 0 where
  fails : Failure → Stop
  throws : ServiceFault → Stop

abbrev pub Call : Type 0 → Type 0
Call A = World → Outcome Stop A × World

abbrev pub resume : {A B : Type 0} → Outcome Stop A × World → (A → Call B) → Outcome Stop B × World
resume (returned a, w) f = f a w
resume (thrown e, w) f = (thrown e, w)

infixl 5 ◌>>=◌ ◌>>◌
unfoldable pub ◌>>=◌ : {A B : Type 0} → Call A → (A → Call B) → Call B
◌>>=◌ m f w = resume (m w) f

unfoldable pub ◌>>◌ : {B : Type 0} → Call (Unit {0}) → Call B → Call B
unfolding ◌>>=◌
m >> k = m >>= λ _. k

unfoldable pub pure : {A : Type 0} → A → Call A
pure a w = (returned a, w)

unfoldable pub stop : {A : Type 0} → Stop → Call A
stop e w = (thrown e, w)

-- `if (!holds) return …` or `throw …`
unfoldable pub unless : Bool → Stop → Call (Unit {0})
unfolding pure stop
unless true e = pure tt
unless false e = stop e

abbrev pub lifted : {A : Type 0} → World → Outcome Fault A × Repository → Outcome Stop A × World
lifted w (returned a, s) = (returned a, record w { repository = s })
lifted w (thrown e, s) = (thrown (throws (repository_failed e)), record w { repository = s })

-- A call of the repository
unfoldable pub ask : {A : Type 0} → Action A → Call A
ask m w = lifted w (m w.repository)

-- A value, or the error where there is none
unfoldable pub given : {A : Type 0} → Option A → Stop → Call A
unfolding pure stop
given none e = stop e
given (some a) e = pure a

unfoldable pub draw_page_id : (ℕ → Text) → Call Text
draw_page_id ids w =
    (returned (ids w.page_ids_drawn), record w { page_ids_drawn = suc w.page_ids_drawn })

unfoldable pub draw_asset_id : (ℕ → Text) → Call Text
draw_asset_id ids w =
    (returned (ids w.asset_ids_drawn), record w { asset_ids_drawn = suc w.asset_ids_drawn })

unfoldable pub draw_name : (ℕ → Text) → Call Text
draw_name names w = (returned (names w.names_drawn), record w { names_drawn = suc w.names_drawn })
