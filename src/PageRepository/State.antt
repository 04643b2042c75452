-- ===== src/PageRepository/State.antt =====
-- lib/page/memory-aggregate-repository.ts: the maps, the private methods and their errors.
use iam_pager.Base.{
  Text, Bool, List, [], ◌∷◌, ◌++◌, map, Option, none, some, if◌then◌else◌, true, false, ◌==◌,
  member,
}
use iam_pager.Base.Patterns.{non_empty}
use iam_pager.Base.Map.{Map, get, has, put, delete}
use iam_pager.Base.Exec.{Outcome, returned, thrown}
use iam_pager.Endpoint.{PageEndpointSet, page_endpoint_set_violation, bindings_of, key_of}
use iam_pager.Page.{is_valid_page_id, is_trial, PageStewardship, trial, managed}
use iam_pager.Content.{ContentAsset, Date, is_valid_date, is_valid_content_asset_id}
use iam_pager.Aggregate.{PageAggregate, page_aggregate_violation}

pub record Repository : Type 0 where
  pub assets : Map ContentAsset
  pub pages : Map PageAggregate
  pub endpoint_page_ids : Map Text

abbrev pub empty_repository : Repository
empty_repository = record { assets = []; pages = []; endpoint_page_ids = [] }

-- What `require` refuses
pub data Requirement : Type 0 where
  valid_page_id valid_endpoint_set valid_content_asset_id valid_time non_empty_owner valid_tags
        positive_revision some_change valid_health external_asset valid_page stored_asset
        valid_asset :
      Requirement

pub data Fault : Type 0 where
  refused : Requirement → Fault
  invariant_violated : Fault

-- An action on the repository: what it returns or throws, and the state that it leaves
abbrev pub Action : Type 0 → Type 0
Action A = Repository → Outcome Fault A × Repository

abbrev pub continue :
    {A B : Type 0} → Outcome Fault A × Repository → (A → Action B) → Outcome Fault B × Repository
continue (returned a, s) f = f a s
continue (thrown e, s) f = (thrown e, s)

infixl 5 ◌>>=◌ ◌>>◌
abbrev pub ◌>>=◌ : {A B : Type 0} → Action A → (A → Action B) → Action B
◌>>=◌ m f s = continue (m s) f

abbrev pub ◌>>◌ : {B : Type 0} → Action (Unit {0}) → Action B → Action B
m >> k = m >>= λ _. k

abbrev pub pure : {A : Type 0} → A → Action A
pure a s = (returned a, s)

abbrev pub throw : {A : Type 0} → Fault → Action A
throw e s = (thrown e, s)

abbrev pub require : Bool → Requirement → Action (Unit {0})
require true what = pure tt
require false what = throw (refused what)

-- `stewardship.kind === "managed" && stewardship.owner_user_id === owner_user_id`
abbrev pub is_owned_by : Text → PageStewardship → Bool
is_owned_by user trial = false
is_owned_by user (managed owner) = owner == user

abbrev pub keys_of : PageAggregate → List Text
keys_of page = map key_of (bindings_of page.endpoint_set)

abbrev pub passes : {V : Type 0} → Option V → Bool
passes none = true
passes (some violation) = false

unfoldable pub require_page_id : Text → Action (Unit {0})
require_page_id id = require (is_valid_page_id id) valid_page_id

unfoldable pub require_content_asset_id : Text → Action (Unit {0})
require_content_asset_id id = require (is_valid_content_asset_id id) valid_content_asset_id

unfoldable pub require_endpoint_set : PageEndpointSet → Action (Unit {0})
require_endpoint_set set = require (passes (page_endpoint_set_violation set)) valid_endpoint_set

unfoldable pub require_owner : Text → Action (Unit {0})
require_owner owner = require (non_empty owner) non_empty_owner

unfoldable pub require_time : Date → Action (Unit {0})
require_time at = require (is_valid_date at) valid_time

unfoldable pub require_stored_page : Text → Action PageAggregate
require_stored_page id s = elim (get s.pages id) [
  | none ↦ (thrown invariant_violated, s)
  | some page ↦ (returned page, s)
]

unfoldable pub assert_valid_page : PageAggregate → Action (Unit {0})
assert_valid_page page = do
  require (passes (page_aggregate_violation page)) valid_page
  λ s. require (has s.assets page.content_asset_id) stored_asset s

-- `add` on a `Set` of identities
abbrev pub add_id : Text → List Text → List Text
add_id id ids = if member id ids then ids else ids ++ id ∷ []

unfoldable pub add_claim : Option Text → List Text → List Text
add_claim none ids = ids
add_claim (some id) ids = add_id id ids

unfoldable pub claims : Map Text → List Text → List Text → List Text
claims index [] ids = ids
claims index (key ∷ keys) ids = claims index keys (add_claim (get index key) ids)

-- The identities of the pages that hold a locator of the set
unfoldable pub claimed_page_ids : PageEndpointSet → Repository → List Text
unfolding add_claim claims
claimed_page_ids set s = claims s.endpoint_page_ids (map key_of (bindings_of set)) []

abbrev pub is_skipped : Option Text → Text → Bool
is_skipped none id = false
is_skipped (some own) id = own == id

-- The loop over the claimed identities: `none` when a managed page other than `own` is among them,
-- otherwise the trials.
unfoldable pub trials_among : Option Text → List Text → List Text → Action (Option (List Text))
trials_among own [] trials = pure (some trials)
trials_among own (id ∷ ids) trials =
    let rest = trials_among own ids trials in
    let next = trials_among own ids (add_id id trials) in
    if is_skipped own id
    then rest
    else (require_stored_page id >>= λ page. if is_trial page.stewardship then next else pure none)

unfoldable pub unindex_keys : Text → List Text → Action (Unit {0})
unindex_keys id [] s = pure tt s
unindex_keys id (key ∷ keys) s = elim (get s.endpoint_page_ids key) [
  | none ↦ (thrown invariant_violated, s)
  | some owner ↦
      if owner == id
      then unindex_keys id keys (record s { endpoint_page_ids = delete s.endpoint_page_ids key })
      else (thrown invariant_violated, s)
]

unfoldable pub index_keys : Text → List Text → Action (Unit {0})
index_keys id [] s = pure tt s
index_keys id (key ∷ keys) s =
    if has s.endpoint_page_ids key
    then (thrown invariant_violated, s)
    else index_keys id keys (record s { endpoint_page_ids = put s.endpoint_page_ids key id })

abbrev drop_page : Text → Action (Unit {0})
drop_page id s = (returned tt, record s { pages = delete s.pages id })

abbrev pub set_page : PageAggregate → Action (Unit {0})
set_page page s = (returned tt, record s { pages = put s.pages page.page_id page })

-- `this.#pages.get(page.page_id) !== page` compares references: every caller passes the object that
-- it has read from the map, so the test says that the page is still there.
unfoldable pub remove_page : PageAggregate → Action (Unit {0})
unfolding unindex_keys
remove_page page s =
    if has s.pages page.page_id
    then (unindex_keys page.page_id (keys_of page) >> drop_page page.page_id) s
    else (thrown invariant_violated, s)

unfoldable pub install_page : PageAggregate → Action (Unit {0})
unfolding index_keys
install_page page s =
    if has s.pages page.page_id
    then (thrown invariant_violated, s)
    else (index_keys page.page_id (keys_of page) >> set_page page) s

unfoldable pub retire_trials : List Text → Action (Unit {0})
retire_trials [] = pure tt
retire_trials (id ∷ ids) = do
  page ← require_stored_page id
  if is_trial page.stewardship then remove_page page else throw invariant_violated
  retire_trials ids
