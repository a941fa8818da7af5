-- ===== src/Lib.antt =====
-- NodeNexus API: a verification library beside the Python sources of app/.
--
-- The program is an HTTP service that runs commands, scripts and Docker operations on remote nodes. A
-- request passes the rate limiter and the authentication of its bearer token or API key; a handler calls
-- a service; a service renders a command, quotes it for a shell and sends it to a node, or reads and
-- writes the database through a gateway, whose methods are one transaction each; audit entries go to an
-- outbox that a worker delivers; a scheduler runs scripts on the one replica that owns execution.
--
-- Which file models which part:
--
--   Prelude       shared names, lists and texts over the native numbers
--   Dict          dict and OrderedDict with text keys
--   RateLimit     RateLimitMiddleware of app/api/middleware.py: `Limiter` is its state, `dispatch` its
--                 handler up to the call of the next one
--   Auth          app/api/deps.py and decode_token of app/adapters/security/jwt_handler.py
--   ApiKeys       app/application/services/api_key_authentication.py
--   Tokens        app/adapters/persistence/dao/refresh_token.py, with the transactions of
--                 app/adapters/persistence/user.py, and app/application/services/auth_service.py
--   Shell         shlex.quote, against a reader of the words of a POSIX shell
--   Template      app/core/template.py
--   Docker        app/application/services/docker/error_mapper.py and command_builder.py
--   Containers    app/application/services/docker/container_service.py over command_runner.py, which is
--                 Docker/Runs: an operation is a function from the outside to a trace of effects and a
--                 result; `call_of` is the call of the Docker CLI that a request stands for
--   Images        app/application/services/docker/image_service.py, in the same way
--   Resources     app/application/services/docker/resource_service.py: networks and volumes
--   System        app/application/services/docker/system_service.py
--   Events        app/application/services/sse_broadcaster.py, with the readers of its queues in
--                 app/api/v2/events.py
--   Scripts       app/application/services/script_execution_service.py: the steps on one node, and, in
--                 Scripts/Batches, a run on several; app/application/services/_target_resolver.py
--   Executions    app/application/services/execution_registry.py
--   Compose       list_all_projects of app/application/services/compose_service.py
--   Validation    app/core/docker_validation.py
--   Errors        app/core/exceptions.py, app/core/error_sanitize.py and
--                 domain_error_handler of app/api/error_mapping.py
--   Scheduler     app/adapters/persistence/scheduler_ownership.py, the path with an ownership port of
--                 app/adapters/runtime/apscheduler_runtime.py, and, in Scheduler/Reconcile,
--                 app/application/services/schedule_reconciliation.py
--   Output        app/application/policies/output.py
--   Outbox        app/adapters/persistence/audit_outbox_worker.py
--   Pagination    app/api/pagination.py with list_audit_logs of app/api/v2/audit_handlers/listing.py
--
-- State is a record and every operation a function to the new state and what the caller sees. Time is
-- a natural number, an argument of the operation: seconds, and nanoseconds in the rate limiter, which
-- cuts the remaining time off to seconds. An exception is a constructor of the result type. What runs
-- without an await is one step; interleavings are sequences of steps or of transactions.
--
-- Parameters of the model, since their code is not in the repository: PyJWT, the parsing of UUIDs, the
-- hashes, APScheduler's job store (with what the code relies on as laws), what `CronTrigger` and
-- `ZoneInfo` make of a schedule, the answers of PostgreSQL, the outcome of a flush, the rows that
-- another worker has locked. `shlex.quote` and `hmac.compare_digest` belong to Python's standard
-- library and are written out as documented.
--
-- Fuel: `list_from` of Compose counts pages down, and more than the table fills are enough
-- (`list_all_projects_complete`); `follow` of Pagination counts pages down, and more pages than rows are
-- enough; `mro` of Errors follows the bases of a class for four steps, and more give the same list
-- (`mro-enough`).
--
-- Not modelled: the parts of app/core/docker_validation.py on daemon endpoints, the fields that the
-- replies of the Docker services pick from JSON, the Docker bulk service, the operations of the
-- compose service on one project, the rendering of the steps of a script from their definition,
-- logging and metrics, the SSH transport, the HTTP handlers but for their paging and the readers of
-- events, the schemas, the queries of the other gateways, the path of the scheduler without an
-- ownership port, the exception handlers of app/main.py, the end of a script run by a CancelledError,
-- lone surrogates in an output, the base64 text of a cursor, and negative offsets in a forged cursor.
pub mod Prelude
pub mod Dict
pub mod ApiKeys
pub mod Auth
pub mod Compose
pub mod Containers
pub mod Docker
pub mod Errors
pub mod Events
pub mod Executions
pub mod Images
pub mod Outbox
pub mod Output
pub mod Pagination
pub mod RateLimit
pub mod Resources
pub mod Scheduler
pub mod Scripts
pub mod Shell
pub mod System
pub mod Template
pub mod Tokens
pub mod Validation
