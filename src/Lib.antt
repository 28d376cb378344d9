-- ===== src/Lib.antt =====
-- Edge rollout control: a service that brings configurations to fleets of edge devices in batches.
--
-- The program's parts, the files that model them, and how they correspond to the code:
--
-- * internal/domain/rollout. Rollout.antt has the types and validation of rollout.go;
--   Rollout/Machine the state machine (`apply_transition` is `ApplyTransition`, `transition` the
--   method with a table of its own, `apply_target_transition` the one of targets, `append`,
--   `validate` and `time_in` the methods of a transition history); Rollout/Plan the planner
--   (`build_plan` is `BuildPlan`, `calculate_batch_size`, `candidate_less` and `make_batches` its
--   parts); Rollout/Progress the counters, schedules and groups of summary.go.
-- * internal/domain/device. Device.antt has devices, groups and selector terms, Device/Health the
--   health of a device and the offline policy, Device/Version versions and constraints, and
--   Device/Selector expressions and labels.
-- * internal/domain/rule is Rule.antt, internal/domain/receipt Receipt.antt, internal/domain/audit
--   Audit.antt, internal/domain/webhook Webhook.antt and internal/domain/configuration (without
--   content.go but for `Compatible`, and without diff.go) Configuration.antt.
-- * internal/infrastructure/repository is Store.antt and the files under it: a table is the list
--   of its rows, and each statement a function on the tables: Store/Rows, Store/Targets,
--   Store/Receipts and Store/Deliveries for reading and updating, Store/Creation for the rows that
--   are inserted with their keys and unique columns, Store/Listings for the lists with their
--   filters, orders and pages.
-- * internal/application/service.go is Service.antt and the files under it: how an operation runs
--   (reading the clock, drawing ids, calling the repository, auditing and emitting), Service/Steps
--   starting, pausing, cancelling and rolling back (`StartRollout`, `PauseRollout`,
--   `CancelRollout`, `RollbackRollout`, `activateBatch`), Service/Reconcile the reconciliation
--   (`ReconcileRollout`, `ProcessRunnableRollouts`), Service/Reports what devices ask and report
--   (`PullPendingConfiguration`, `SubmitReceipt`), Service/Fleet devices and groups
--   (`CreateDevice`, `UpdateDevice`, `Heartbeat`, `CreateGroup`, `ResolveGroup`), Service/Catalog
--   configurations, rules and subscriptions (`CreateConfiguration`, `PublishConfiguration`,
--   `DeprecateConfiguration`, `CreateRule`, `CreateSubscription`), Service/Creation the creation
--   of a rollout in one transaction (`CreateRollout`, `resolveTargets`), Service/Pages the
--   listings, and Service/Runs sequences of all operations that change the tables, and the errors
--   that they return. Service/Outcomes and Service/Keeps have the rules by which the proofs go
--   through an operation call by call, Service/Edges what the operations do to rollouts,
--   Service/Lifecycle what they do to configurations, and Service/Fails with which errors they
--   fail.
-- * internal/application/reporting.go is Service/Reporting (`BuildRolloutReport`,
--   `BuildDeviceSummary`, `BuildDashboard`, `NormalizeIDs`).
-- * internal/application/webhook_dispatcher.go is Service/Dispatch; what comes of a request is a
--   parameter.
-- * internal/system/retry.go is System/Retry (`Normalize`, `Run`), internal/config/config.go
--   System/Settings (`Load`, `Validate` and the overrides).
-- * api/middleware/middleware.go is Api/RateLimiter (`allow`) and Api/Middleware (the recorder of
--   the access log, request ids, CORS, actors, client addresses), api/response.go Api/Response
--   (`WriteError`).
-- * Base.antt and the files under it are shared: tests, lists, texts as lists of bytes, stable
--   sorting, integers with the wrap-around of int64, times as nanoseconds since the zero time, and
--   the interface `Floats` of what the code uses of float64.
-- * Examples.antt and the files under it run the definitions on small data.
--
-- How the code is written down. A method on a pointer returns the state it leaves beside its
-- result; a nil pointer is `none`. Errors are the constructors of a type for each part, one for
-- each message or sentinel that the code tells apart. A map is an association list in the order of
-- its iteration. `sort.SliceStable` is a stable insertion sort; where the code calls `sort.Slice`
-- or `sort.Strings`, or a statement orders its rows, the result for equal keys is the stable one.
-- SHA-256, HMAC, URL parsing, JSON and floating point are parameters, and so are SQLite's LIKE,
-- the file, the environment and the durations of the settings, and what an operation that is
-- retried and its context do. `time.Now()` is an argument. The service's clock, ids, JSON encoding
-- and the failures of the database are the record `Env`; a call that fails changes nothing.
-- Operations run one after the other, each to its end.
--
-- Bounds and fuel. `make_batches` takes the number of candidates as fuel, which is enough for any
-- positive batch size, since every round takes at least one. Batch sizes are computed with the
-- wrap-around of int64; the theorems that need it assume that a hundred times the number of
-- candidates fits. The loop of a retried operation has as many rounds left as its policy has
-- attempts. The other loops are structural recursion on their lists.
--
-- Not modelled: the request validation, the comparison of configurations and the metrics; HTTP
-- handlers, routing, logging, process start and the database connection, which are input and
-- output around these parts; the middleware that only wraps a call of the library (recovery,
-- time-outs, body limits); `ErrUnauthorized`, which no call of the service returns.
pub mod Base
pub mod Rollout
pub mod Device
pub mod Rule
pub mod Receipt
pub mod Configuration
pub mod Audit
pub mod Webhook
pub mod Store
pub mod System
pub mod Api
pub mod Service
pub mod Examples
