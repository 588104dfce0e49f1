-- ===== src/Lib.antt =====
-- The Okta collector.
--
-- The program reads an Okta organisation through its REST API and writes a graph. The modules below
-- model the parts that decide when a request may start, how it is retried, with which token it is sent,
-- and which SAML routes the settings of an integration prove.
--
-- Http: src/openhound_okta/utils/http.py.
--   Http/Time: the constants. All times are whole microseconds on ℕ; the source has floats. Quotients (a
--     window by the requests left in it, half a lifetime) are rounded down.
--   Http/Semaphore, Http/Org: `OrgThrottle`, the gate that all endpoint families share.
--   Http/Throttle: `EndpointThrottle`, the pacing state of one family; each reading of a clock is an
--     argument. Its children are about sequences of calls, which any threads may make.
--   Http/Admission: `EndpointThrottle.acquire` and `release`, where requests take a family slot, wait for
--     the deadlines, take an org permit and book; a step moves one request, so a list of events is an
--     interleaving of threads. Other families take permits and push the org deadline by events of their own.
--   Http/Outage: `defer_outage`, which pauses all families through the org throttle.
--   Http/Delay: `_retry_delay`, `_clamp_retry_delay`, `_parse_retry_after`.
--   Http/Waits: `OrgThrottle.wait`, `_wait_until_allowed`, over the rounds that a wait makes.
--   Http/Retry: `_send_request`. What each attempt meets is given by an environment, what it does is a list
--     of actions. The loop runs on fuel; the sum of the attempts, the read timeouts, the
--     one refresh and the elapsed budget for rate limits, and one round more, is enough (`fuel_of` of
--     Http/Retry/Termination).
-- Auth: src/openhound_okta/utils/auth.py.
--   Auth/Unauthorized: `response_bearer_token`, `classify_unauthorized`.
--   Auth/Bearer: `OktaBearerAuth`: the cached token, its refresh, its cooldown after a failure and the
--     reaction to a 401. The methods hold a lock, so each is one step. What the token endpoint answers is
--     an argument.
--   Auth/Refreshable: `_refreshable_auth` and `_retry_after_unauthorized` of utils/http.py.
--   Auth/BaseUrl: `_base_url_hostname`, `tenant_domain`.
-- Oin: src/openhound_okta/oin_routes.
--   Oin/Contract: contract.py. Oin/Validators: validators.py; the patterns are functions on code points.
--   Oin/Declarative: declarative.py; a template is the list of its pieces as `Formatter().parse` gives
--     them, and what a conversion or format makes of a value, or that it raises, is an argument.
--   Oin/Registry: registry.py. Oin/Resolvers: resolvers/github.py and resolvers/miro.py.
-- Source: src/openhound_okta/source.py.
--   Source/Breaker: `ConsecutiveAccessDeniedBreaker`. Source/Claims: `UserFactorClaims.claim`,
--     `_group_page_sizes`. The threads' calls are a list, since each holds a lock.
--   Source/Listings: `groups`, `user_factor_rows`, `user_factors`; a generator is the list of what it
--     yields and the exception that ends it. Source/Assignments: `application_group_assignment_rows`.
--   Source/Families: `ClientPool._endpoint_family`, which labels requests for Telemetry; a `*` ends a pattern.
-- Entra: src/openhound_okta/utils/entra_tenant.py.
--   Entra/Urls: the names and URLs. Entra/Resolver: the cache of tenant ids. Entra/Enrich: `enrich`.
-- Saml: src/openhound_okta/models/saml.py.
--   Saml/Values: `_clean`, `_dedupe`, issuers, account states. Saml/Explicit: `_explicit_saml_routes`.
--   Saml/Routes: `_saml_routes`, which asks Oin/Registry. Saml/AcsRows: `_saml_acs_rows`; the search for
--     an unused index has as much fuel as there are used indexes and one more.
--   Saml/Accounts: `_account_resolution_evidence`. Saml/Claims, Saml/Profiles, Saml/Assertions:
--     `saml_application_assertion_evidence`; a set of fields is a function of the field.
--   Saml/Inbound: `saml_sp_acs_rows` and the route of a trust; an index of the metadata is a natural number.
--     A row has the fields that depend on the provider. Saml/Inbound/Unique, Saml/Inbound/Trust: its theorems.
-- Roles: src/openhound_okta/models/role_assignment.py, user_role_assignment.py.
--   Roles/Lookup: what lookup.py answers. Roles/Assignment: the scope and the ids in reach.
--   Roles/Edges: the edges. Roles/Within, Roles/Protection, Roles/Scope: where they end.
-- Lookup: src/openhound_okta/lookup.py.
--   Lookup/Tables: the tables and the queries for ids. Lookup/Tables/Answers: what the queries answer.
--   Lookup/Resolve: `resolve_resource_url`, `resolve_resource_orn`, `resource_set_member_ids`, which Roles asks
--     through Roles/Lookup. Lookup/Resolve/Members, Collected, Sets: how they agree and what they find.
-- Hybrid: src/openhound_okta/models/hybrid_auth.py.
--   Hybrid/Targets: the targets and their paths. Hybrid/Complete: what they have in common.
-- Telemetry: src/openhound_okta/telemetry.py.
--   Telemetry/Latency: `LatencyDistribution`, with percentages for quantiles. Telemetry/Measurements: `EndpointMeasurements.merge`.
--   Telemetry/Templates: `normalize_endpoint_template` and the categories, by path segments.
--   Telemetry/Recorder: what is recorded. Telemetry/Recorder/Steps: `flush`, `_enqueue`, `finish`; each is a step.
--     `_enqueue`, which runs outside the lock, is one step with its caller.
--     Telemetry/Recorder/Totals, Runs, Counted, Summed: runs of the steps and what they add up to.
--   Telemetry/Export: the records and `_writer_loop`, where the length of a line is an argument.
-- Http.Retry asks Auth.Bearer whether a 401 is worth a retry, and publishes its pauses through the throttles
-- of Http.Throttle and Http.Org.
--
-- Parameters: what Python's library or `requests` decides (reading numbers, dates and URLs, stripping blanks,
-- which status codes raise) is an argument of the definitions, in the records `Formats`, `Parsers`,
-- `Statuses`, `TextOps`, `UrlOps`, `Urls`, `Links` and `Texts`, or in `Lookup`, which holds the answers of the tables.
--
-- Not modelled: the network, logging, sleeping, the thread of the telemetry writer and its handler of I/O
-- errors, the rounding of floating-point sums, a throttle without an org throttle, exceptions of the
-- throttle's own calls, key material and JWT assertions, the Pydantic models of API rows, the parsing of SAML metadata, the tables that DuckDB answers,
-- the catalog's data, deployment files and tools: they are I/O, declarations, or calls of libraries.
pub mod Base
pub mod Http
pub mod Auth
pub mod Oin
pub mod Source
pub mod Telemetry
pub mod Entra
pub mod Saml
pub mod Roles
pub mod Hybrid
pub mod Lookup
