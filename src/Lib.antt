-- ===== src/Lib.antt =====
-- The Curator agent keeps a registry of trading skills: Python functions that are validated,
-- versioned, approved and deployed in stages, and that are run in a sandbox. A sandbox worker accepts
-- signed requests for such runs over HTTP.
--
-- Registry models `SkillRegistry` of app/registry.py over app/models.py, and app/seed_skills.py:
--   Registry/Model the rows and requests; Registry/Store `get`, `_transition`, `approve`, `deprecate`
--   and `promote`; Registry/Register `register`, `create_version`, `_init_db` and the seed;
--   Registry/Listing `list` and `search`. The other children prove. A table is the list of its rows
--   in the order of insertion, and an operation returns the table and its reply or the exception.
--   One reading of the clock serves a whole call, as one `uuid4` does. JSON columns hold the values
--   that they encode, a family that is NULL is the empty text, and rows of one instant keep the order
--   of the table under ORDER BY. The checks of lengths by pydantic are not modelled. The static
--   validator and the digest of the code are the record `Services`.
-- Worker models app/worker_protocol.py and the guard and middleware of app/sandbox_worker.py:
--   Worker/Nonce `NonceReplayGuard`, whose clock is in whole microseconds; Worker/Protocol the signed
--   message, the key and the limits; Worker/Auth `authenticate_worker_request`, with the two clock
--   readings of a call as arguments. The middleware calls the guard last. The HMAC and the readers
--   `int` and `float` are parameters. A text stands for its encoding, a body for its bytes, and
--   headers outside ASCII are not modelled, except where the code drops such characters.
-- Security models app/security.py: the keys that a start reads from the environment (Startup proves
--   about them), the role that a path asks for and the middleware (Roles). A missing header is the
--   empty text; the constant-time comparison is equality, and `dict.fromkeys` drops only repetitions.
-- Sandbox models app/container_sandbox.py: Setup the constructor, Container the executor, and Fallback
--   the executor that prefers it, with its counter and a fallback that is a parameter with a state.
--   The machine is the record `Host`: its files, its programs and JSON texts. Each probe sees one
--   state of it, and failures to make or write the temporary file are not modelled.
-- Api models the endpoints of app/main_legacy.py that approve and deprecate skills over Registry; the
--   gate is Api/Gate. The answer of the database is an argument, and what pydantic makes of it and
--   `str` of values that are no texts are parameters.
-- Schema models app/schema_contracts.py: the errors of a value against a schema, one helper for each
--   part of the function. Conforms and Fuel prove. Enforcing models app/schema_enforcing_executor.py
--   over it, with the registry's table and a delegate that has a state and may raise.
-- Intelligence models app/performance_intelligence.py, and Aware the executor of
--   app/performance_aware_executor.py, with the ranking that the database answers as an argument.
-- Policy models app/performance_policy.py: Actions its loops, Curation the function that uses them.
--   Permission, State and Pause prove.
-- Versions models app/version_api.py over Registry: the summary of a family and the endpoints; Summary
--   and Rollback prove. Ensemble models app/shadow_ensemble.py: Ensemble the selection, Voting the
--   consensus, Endpoint the endpoint with an executor that has a state and may raise. Its other children
--   prove.
-- Worker/Service has the worker's handlers, and its slots as a step relation; Worker/Service/Concurrency
--   proves. Remote models app/remote_sandbox.py, the client of the worker: Remote the configuration and
--   the signed request, Remote/Execution what becomes of a response. Outcomes, Signing and Delivery
--   prove; the last two put the client and the worker together.
-- Runner models app/executor.py: Runner the checks of a syntax tree and of an output, Runner/Process the
--   child and the executor. Parsing and running code are parameters, and how the process ends is an
--   argument. Runner/Accepted and Runner/Checked prove.
-- Readiness models app/readiness.py and the choice of the isolated executor in app/main.py: the executors
--   are a store of objects with delegates, of which the loop looks at 12 at most. Readiness/Chain proves.
-- Validator models app/validator.py over the nodes of `ast.walk`; Validator/Approval proves.
-- A float is a mantissa over a power of two, an infinity or NaN; comparisons are exact, and the
-- rounding operations are parameters. `float()` and `int()` may raise, as may `str` of the output of a
-- skill; JSON holds no integer that is too long for `str`. That a NaN in a list is equal to itself by
-- its identity, and the rendering of answers as JSON by the framework, are not modelled.
-- Value has the values of JSON and the dictionaries of the columns. Prelude has the lists, texts,
--   integers and results that the parts share; case and blanks are those of ASCII.
-- Examples has runs of the code, and the results below at concrete inputs.
--
-- The loops of the code run over lists. Only the calls of `validate_schema_contract` for the parts of
-- a schema take fuel, one unit each: the depth of the schema and one more are enough (Schema/Fuel).
-- The walk over the executors has the 12 turns of its source.
--
-- Not modelled: the other endpoints of app/main_legacy.py and the routes of app/main.py;
-- app/recommendations.py; app/database_client.py, which calls another service; the program inside of the
-- container's image; the network, and threads but for the slots of the worker.
pub mod Prelude
pub mod Value
pub mod Registry
pub mod Worker
pub mod Security
pub mod Sandbox
pub mod Api
pub mod Schema
pub mod Enforcing
pub mod Intelligence
pub mod Aware
pub mod Policy
pub mod Versions
pub mod Ensemble
pub mod Remote
pub mod Runner
pub mod Readiness
pub mod Validator
pub mod Examples
