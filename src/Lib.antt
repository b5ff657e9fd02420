-- ===== src/Lib.antt =====
-- zonegate-backend: authorization of cargo releases on evidence from the mobile carrier.
--
-- A request to release cargo (`TransactionRequest`) runs through the pipeline of
-- src/zonegate/authorization/service.py: the actor and the bound device are looked up, an agent may
-- propose checks, the validator turns that into a plan, the gateway collects the plan's evidence
-- from the carrier, a second agent may comment on it, and the policy engine alone decides: APPROVE,
-- DENY, or HOLD for a named human authority. An approval carries a signed token to be claimed at
-- the gate; a hold waits for somebody with the authority, who signs in at the console.
--
-- The files and the code they are about (paths from the repository's root):
--   Prelude, Prelude/*              shared names, lists, results, Python's string methods
--   Domain, Domain/*                src/zonegate/domain: the records, the kinds of evidence, the
--                                   outcomes, and `PolicyConfig` with its validator
--   Policy, Policy/Rules            src/zonegate/policy/engine.py: `PolicyEngine.evaluate`
--   Evidence/WorkflowPolicy         src/zonegate/evidence/workflow_policy.py
--   Evidence/PlanValidator (+Plans) src/zonegate/evidence/plan_validator.py
--   Evidence/Gateway (+Checks)      src/zonegate/evidence/gateway.py and canonical.py; Collecting and
--                                   Zones hold what Checks and the service need of it
--   Evidence/Agreement              that the validator and the gateway's allowlist fit together
--   Agent                           src/zonegate/agent: evidence_planner.py, graph.py, state.py; in
--                                   Evaluating context_evaluator.py, theorems in Allowed; in Ollama
--                                   ollama.py, theorems in Retries
--   Nokia/*                         src/zonegate/integrations/nokia: Models (models.py), Live (live.py)
--                                   on the JSON of Json, Rest (client.py), Mcp (mcp.py); theorems in
--                                   Payloads and Release
--   Authorization/Roles             src/zonegate/authorization/roles.py
--   Authorization/Token (+Claims)   src/zonegate/authorization/token.py
--   Authorization/Progress          src/zonegate/authorization/progress.py
--   Authorization/Console           src/zonegate/authorization/console.py, theorems in SignIn, Sessions
--   Authorization/Passwords (+Stored) src/zonegate/authorization/passwords.py
--   Authorization/Service           src/zonegate/authorization/service.py: Deployment, Settlement and
--                                   Pipeline (`authorize_transaction`), Resolution (`resolve_hold`,
--                                   `claim_token`); theorems in Results, Earned, Justified,
--                                   Safety, Returns, Kept, Keyed, Histories, Listening, Advice,
--                                   Holds, Redemption
--   Api, Api/*                      src/zonegate/api: Guards, Actors, Auth, Authorizations, Thresholds
--                                   (policy.py), Records (receipts.py, tokens.py, health.py), and in
--                                   Requests every route of app.py; theorems in Kept, Signed, Holds,
--                                   Permissions, Stream, Listings, Histories
--   App, App/*                      src/zonegate/app.py and config.py, with the seeding in Seeding;
--                                   theorems in Seeded, Start, Complete, Restart
--   Runtime, Storage                the state, and src/zonegate/storage/zova.py: `ZoneGateStore`
--                                   on tables of records, with its listings in Storage/Listings;
--                                   Storage/Zova and below: the same methods on the key-value
--                                   database, and that they do what the tables say
--   Runtime/Triples and others      reasoning about requests
--   Tests/*                         runs on small inputs, and the theorems at such inputs
--
-- Pure functions are functions by clauses. A method that awaits the store is a function of `World`,
-- which holds the tables, the policy configuration, the events that a listener has got, and three
-- inputs: the clock (what its n-th reading gives, in microseconds), the fresh random texts, and which
-- of the coming database calls fail. It returns the new world beside a value or the exception that
-- ended it, so what was written before an exception stays written. Reads and writes of one method
-- follow each other; `claim_found` starts from a token that was read before, so overlapping claims
-- can be put in sequence.
--
-- The service runs on a `ZoneGateStore` of records: one table or index for each namespace, and a
-- method that makes all its writes or none. Storage/Zova models each method on the key-value
-- database as well, with the calls of the zova package and the JSON codecs of pydantic as parameters.
--
-- The service takes a carrier's answers; Nokia/Live and Nokia/Rest give them for what the gateway or
-- the operator on the other side replies.
--
-- A deployment's parameters are the carrier's answers (`Carrier`: an answer, a declined capability
-- or a failure for each call), the two language-model agents (an answer or a failure), failures of
-- the graph library, the HMAC of a token's payload, ISO text of a time, and the check of a
-- password, which Authorization/Passwords models on its own. No theorem assumes anything of them
-- but what it states. Loops are structural recursions, so no fuel is used. Times are natural
-- numbers; the value of a transaction is only stored.
--
-- Not modelled: the framework under the HTTP handlers (routing, decoding and validation of bodies,
-- a client that leaves a stream before its end; the application object that src/zonegate/app.py
-- builds), reading the environment, the transports of the carrier clients and the file with the
-- tool server's command, the client of src/zonegate/agent/gemini.py, how the two agents use a
-- client (its answers are their parameters), the wording of the prompts, PBKDF2, the file and the
-- worker thread of the database, and logging.
pub mod Prelude
pub mod Domain
pub mod Policy
pub mod Evidence
pub mod Agent
pub mod Authorization
pub mod Runtime
pub mod Storage
pub mod Nokia
pub mod Api
pub mod App
pub mod Tests
