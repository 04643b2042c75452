-- ===== src/Lib.antt =====
-- A model of iam-pager, a service on which guests and creators publish pages under locators, with
-- the theorems about it.
--
-- A page (lib/page) shows one stored content asset (lib/content, or a reference into a creator's
-- own storage, lib/external-storage) at one or more locators (lib/locator), a namespace and
-- perhaps a page name. Guests publish trial pages, which anybody may replace; creators publish
-- managed pages, which only their owner changes, by optimistic revisions. The repository of pages
-- keeps an index from locator keys to pages. Visitors have sessions (lib/session), which a sign-
-- in upgrades to a user and a logout ends. Owners have API keys (lib/api-key) for automation; the
-- repository knows only the digests of their secrets. Creators reserve namespaces (lib/namespace),
-- and the page service (lib/page/service.ts) puts their pages only into those; it finds the page
-- for its owner, checks the owner's lock against API keys, prepares content with the handler of its
-- type, plans endpoints with the locator engine, and calls the repository. The session service holds the lifetimes and
-- hands out bearer credentials, of which the session repository knows only digests.
--
-- Files and code, paths from the repository's root:
--   Base            numbers, lists, texts, JavaScript maps, sorting, character classes, exceptions
--   Locator         lib/locator/model.ts: locator_key; Engine is lib/locator/engine.ts
--   Endpoint        lib/page/endpoint.ts: sets of bindings, page_endpoint_set_violation; Planner is
--                   the planner and the projection of links
--   Page            lib/page/model.ts: identifiers, revisions, tags, access, stewardship
--   Content         lib/content/asset.ts and the references of lib/external-storage/model.ts
--   Aggregate       lib/page/aggregate.ts: PageAggregate, page_aggregate_violation
--   PageRepository  lib/page/memory-aggregate-repository.ts. State is the two maps, with the index's
--                   private operations; Requests the requests of aggregate-interfaces.ts; Reads, Trials,
--                   Creation, Changes and Health the public operations, each a function from a request
--                   and the repository to an answer, or an error, and the repository after it. The
--                   files named for what they prove stand beside them; Transition makes any call one
--                   step, and Safety follows histories of steps.
--   PageService     lib/page/service.ts. Model holds the requests and answers of lib/page/interfaces.ts
--                   and Setting, what the service is given; Call the calls, which answer a value, fail
--                   or throw, on the repository and the counts of values drawn; Content, Endpoints and
--                   Pages the private steps; Publishing, Updating, Relinking, Bulk, Duplicating and
--                   Delivery the operations; Requests any sequence of the calls that may write,
--                   deliveries and views included. Keeps, Steps and Guarded carry a property of the
--                   repository through every call, by what the calls of the repository keep; Spared and
--                   Ownership use them. Disclosure and Delivered follow what is shown, and to whom.
--   Namespace       lib/namespace/model.ts, memory-repository.ts and service.ts, and the authority of
--                   lib/page/namespace-authority.ts
--   Session         lib/session/model.ts; Csrf is lib/http/csrf.ts; Store, Attempts and Rotation are
--                   lib/session/memory-repository.ts; Service and SignIn are lib/session/service.ts.
--   ApiKey          lib/api-key/model.ts: permissions, labels, expiry; Store is
--                   lib/api-key/memory-repository.ts, Service is creation and resolution in
--                   lib/api-key/service.ts
--   ApiAuth         lib/api-auth: authenticator.ts, with the resolver of bearers as a parameter, and
--                   policy.ts
--
-- How the code is read:
--   * A string is its list of UTF-16 code units. Lowercasing is exact on the letters of ASCII and
--     leaves other code units alone.
--   * A date is its count of milliseconds, or invalid where the code tests for that. Sizes,
--     revisions and versions are natural numbers; the bounds that the code tests are tested. The
--     dates of sessions have no upper bound: a clock and lifetimes that add up to more than
--     8.64e15 milliseconds, where the code's dates become invalid, are outside the model.
--   * A strategy of the locator engine maps every locator to a path: texts are taken to be well
--     formed, and the path-slug strategy's error on a lone surrogate is outside the model.
--   * A promise is its value: every operation of the repositories runs without interruption, so
--     that overlapping calls are a sequence of calls. A call of the session service, which asks
--     the repository several times, is taken as a whole. A copy of a record is the record.
--   * An error thrown is a value, and leaves the state that it interrupted.
--   * Tests that only repeat the declared types are left out, such as whether a field is a
--     string.
--   * A call of the page service is taken as a whole too, in a setting of its own: the reservations,
--     the content handlers, the storage providers and connections may be others in the next call.
--     Contents and inputs of a handler are texts in a form of its own.
--   * The random generators are parameters: what they give at each attempt of a call. So are the
--     clock, read once in a call, and the digest of a secret. The loops over attempts recurse on
--     the number left, at first eight for sessions, and for pages the numbers that the setting gives;
--     an exhausted loop fails or throws, as in the code.
--
-- Left out: the listings and cursors of pages and the service's calls of them, the path-slug strategy
-- and the codecs of content, the other calls of the API key service, the sign-in
-- flows, the repositories over a key-value store, the HTTP adapters and the user interface.
pub mod Base
pub mod Locator
pub mod Endpoint
pub mod Page
pub mod Content
pub mod Aggregate
pub mod PageRepository
pub mod PageService
pub mod Namespace
pub mod Session
pub mod ApiKey
pub mod ApiAuth
