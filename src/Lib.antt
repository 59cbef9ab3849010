-- ===== src/Lib.antt =====
-- QueueLens: the core of an inspector and replay tool for RabbitMQ dead-letter queues.
--
-- An operator, or a replay policy, reads a queue by `basic.get` and `nack`, recognises messages by a
-- fingerprint, and copies, moves, parks or deletes them. The parts and their files:
--
-- Failure, Value: the exceptions that the code raises and catches; AMQP header values and `int()`.
-- Domain (app/domain): records, `deaths` and `parse_x_death` (Domain/XDeath), `message_fingerprint`
--   (Domain/Fingerprint) over a hash and a JSON encoder that are parameters.
-- Broker: aio-pika and RabbitMQ are not part of the repository. A `Broker` is a state with one
--   operation for each call; a `World` adds the log of the calls made, which the theorems are about.
--   Broker/Exec has the actions, Broker/Laws the documented behaviour that some theorems assume.
-- Browser (app/infrastructure/rabbitmq/message_browser.py): `fetch`, `requeue`, `scan`. The loop of
--   `fetch` runs on fuel for one message more than its limit.
-- Operator (app/infrastructure/rabbitmq/message_operator.py): `operate`, and `operate_bulk` in
--   Operator/Bulk; each function keeps the source's order of guards and calls.
-- Policy/Plan (`plan` of app/application/replay_policies.py): the sorting of a queue's messages.
-- Policy/Runs (`_finish` and `run_due` there, with the repository of policies in
--   app/infrastructure/persistence/store.py): failed runs, the pause, and the audit
--   entries of a run, which the log may refuse: an argument says which.
-- Policy/Passes (`_run` and `_bulk` there): a pass over snapshot, plan, dry runs and audited executions.
-- Actions (app/application/action_service.py): single replays, parks, deletions and their marks.
-- Messages (app/application/message_service.py): listing, snapshots, and what is shown of a
--   message, from its decoded payload.
-- Audited (app/application/bulk_runs.py): a bulk execution between the entries of its audit trail; the
--   audit log is a parameter that may refuse an entry.
-- Snapshots (`SnapshotStore` of app/application/snapshots.py): the copies of scanned queues; an ordered
--   dict is an association list, least recently used first. Clock and tokens are arguments.
-- Bulk (app/application/bulk_service.py): `dry_run` and `execute` over the batches in memory, with
--   `operate_bulk` of Operator and `list_messages` of Browser. Bulk/Repository: the batches in the
--   database (app/infrastructure/persistence/store.py), with the payloads that they are stored as.
-- Queues (app/application/queue_service.py): `assert_browsable` and `delivery_limit`; the list in
--   Queues/Listing. The management API's replies are arguments.
-- Alerts (app/application/alert_engine.py, with the rules of store.py): a pass over the rules with hold
--   times and edges; Alerts/Glob is `fnmatch`, Alerts/Deliveries quiet hours, switches and channels.
-- Texts: `strip` and `split`. Accounts (`UserRepository` and `LoginFailureRepository` of store.py) with
--   the cache of verified passwords; SignIn (app/auth/basic.py, app/auth/proxy.py): who a request acts
--   as. PBKDF2, HMAC, SHA-256 and the parsing of addresses are parameters; clocks are in seconds.
-- Environments (app/application/environments.py): profiles whose vhost lists can be one object, stored
--   environments, scopes; Environments/Bundles starts what a request reaches.
-- SettingsStore (`SettingsRepository` of store.py): settings, some of them sealed by a cipher.
-- Leadership (`is_leader` of app/infrastructure/persistence/coordination.py): replicas that share a
--   PostgreSQL database, whose sessions and advisory lock are part of the state.
-- Tests: brokers in memory, and the theorems at runs on them.
--
-- An action runs under its queue's lock, so nothing else reads the queue meanwhile. Not modelled: the
-- decoding of payloads for display, the rendering of error texts, floats in headers, Python's limit on
-- the digits of an `int` literal and its digits and white space beyond ASCII, a queue's name in an
-- `x-death` entry that is no text, `compare_digest`'s TypeError on texts beyond ASCII, changes of the
-- accounts while a request signs in, the rounding of an expiration's float below a microsecond, the HTTP
-- API, the texts of notifications, and the tables of the audit log.
pub mod Prelude
pub mod Failure
pub mod Value
pub mod Domain
pub mod Broker
pub mod Browser
pub mod Operator
pub mod Policy
pub mod Snapshots
pub mod Queues
pub mod Bulk
pub mod Alerts
pub mod Texts
pub mod Accounts
pub mod Actions
pub mod Audited
pub mod Messages
pub mod Environments
pub mod SettingsStore
pub mod Leadership
pub mod SignIn
pub mod Tests
