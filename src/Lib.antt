-- ===== src/Lib.antt =====
-- odooctl runs Odoo deployments: it deploys, backs up, restores and promotes environments, as queued
-- operations under locks with an audit trail, for principals with roles. This library models the parts
-- of it that decide and keep state, as functions that compute, and proves what makes them correct.
--
-- Parts and files (paths are from the repository's root):
--
-- Cutover: odooctl/odoo/db_swap.py, replacing a live database by a prepared one. State has the plan,
-- the states, statuses and exceptions, Names the quoting and the name of the old database, Postgres the
-- adapter and the commands, Planning and Fence `plan_database_cutover` and the checks of a plan,
-- Reconcile `reconcile_database_cutover` and `_cutover_failure`, Promote `promote_database_cutover` with
-- `_restore_old_target_after_failed_promotion`, Finalize `finalize_database_cutover`. A call is a
-- function on the state of the world that returns a value or raises (Prelude.Exec), one function for
-- each block of a `try`. The adapter is a parameter; what is relied on of PostgreSQL is the record
-- IsPostgres: a command that returns took effect, one that raises may have taken effect too, reads
-- answer for the databases that are there or raise, and nobody else changes them meanwhile. Phases says
-- where the databases are in each state and where a call may lead, Progress carries that through the
-- blocks, and Cluster is an instance that fails as a script says; IsWorking is an adapter that meets no
-- failure. Swap is
-- `swap_temp_database`, with Places in the part of Phases; its names are not checked for their length, so
-- that Short relies on PostgreSQL only for names of at most 63 bytes. The names of a plan are checked.
--
-- Security: odooctl/security/. Principals and Rbac are principals.py and rbac.py, Sessions the store of
-- browser sessions in sessions.py, Tokens mint and verify of tokens.py, Redaction the masking of secrets
-- in redaction.py. SHA-256, HMAC, base64url and JSON are parameters; times and random texts are
-- arguments.
--
-- Operations: odooctl/operations/. Models are the records, Store the files of operations and events,
-- Locks the environment locks as one thread sees them, Audit the trail with its hash chain and
-- high-water mark, Engine `run_operation` around an arbitrary body. The engine composes the others: it
-- saves the record, enters the lock, runs the body, leaves the lock, writes the last event and the
-- status, and appends to the trail. Locks.Interleaving has the system calls of several processes on a
-- lock file as a step relation; appends to the trail run under a lock of the program and so are single
-- steps.
--
-- Queue: odooctl/api/queue.py, the directory of queued operations that the API fills and runners claim
-- from. A listing is a value of its own, so that a runner may use one that others have made stale.
--
-- Runner: odooctl/runner/worker.py. Nonces is `NonceStore`, Guards the checks of kind, role and expiry,
-- Execute `_execute_entry`, which composes the token, the roles, the nonces, the store, the locks, the
-- trail and the queue, and Loop `claim_and_run` and `run_loop`. The body of an operation, `_dispatch`,
-- is any call on the operation's context, as in the engine; it is not modelled which service each
-- kind of operation calls. Environments has the part of odooctl/config.py that the checks ask for.
--
-- Api: odooctl/api/routes_operations.py. Params has the checks of parameters, Enqueue `enqueue_operation`,
-- which composes the configuration, the roles, the store, the tokens and the queue, Cancel
-- `cancel_operation` with the search for the operation's project, and Events `get_operation` and
-- `stream_events`. Authentication has given the principal and the token's project; FastAPI and the
-- loading of the registry are not modelled.
--
-- Backups: odooctl/services/backup.py. Retention has the candidates, the tiers and the pass of
-- `prune_backups_gfs`, Calendar the periods. Making and verifying a backup is input and output around
-- other services and is not modelled, and neither is `prune_backups`.
--
-- A file is the value that its text stands for, and unreadable content is a case of its own where the
-- code treats it as one. Failures of the file system are not modelled. Numbers are natural numbers,
-- exact as Python's are; where one could be negative the file says how that acts. The only fuel is that
-- of the decimal numerals in Operations.Audit: `n + 1` rounds, and each round divides by ten. All other
-- loops are recursions on lists, on texts or on the polls that are left.
--
-- The rest of odooctl is not modelled: the command line, the other HTTP routes, most of the configuration, the
-- metadata store, the adapters to external programs and object stores, and the services that call
-- them. They parse, call other programs, or hand on to the parts above.
--
-- Prelude has the shared tests, lists, maps, results and calls; modules named Examples have runs and
-- the theorems at concrete inputs.
pub mod Prelude
pub mod Environments
pub mod Api
pub mod Runner
pub mod Security
pub mod Cutover
pub mod Operations
pub mod Queue
pub mod Backups
