-- ===== src/Lib.antt =====
-- OPL Flow, the coordination layer for Codex: models of its Python scripts and theorems about them.
--
-- The scripts keep a few kinds of shared state, and each is changed by a few operations that read it
-- under a lock, test it, and write it back. The parts:
--
-- * the lease store of the Fleet controller, which says who may use a node
--   (scripts/opl_fleet_parts/fleet_lease.py): Fleet/Lease.antt. Data has the records `Lease`,
--   `Admission` and `LeaseStore`; Validate the validators; Store the reading and writing of the
--   file, `reap_expired_leases` and `public_lease`; Requests `build_lease` and the preemption;
--   Records `acquire_lease_record`, `renew_lease_record`, `release_lease_record` and the locked
--   part of `fleet_lease_reap` of scripts/opl_fleet_parts/fleet_cli.py. Sound, Reaping,
--   Transactions, Fencing, Files, Runs and Ownership are proofs. The identifiers and vocabularies of fleet_common.py are in
--   Fleet/Common.antt.
-- * the admission of a lease and its verification before use
--   (scripts/opl_fleet_parts/fleet_runner.py): Fleet/Admission.antt. Roles has the runner roles,
--   Doctor `assert_lease_admission` and `build_admission_receipt`, Verify `verify_lease_record`.
--   Each collects its failures as a list of tests with their words, as Checks defines it. Sound and
--   Fresh are proofs.
-- * the transaction of a role's runner, which holds a lease of a node while the runner is up
--   (scripts/opl_fleet_parts/fleet_runner.py): Fleet/Runner.antt. Control has the control routes and
--   what a status or GitHub's inventory is read as, Waits the two waiting loops, Record the
--   transaction file, Commands `confirm_runner_shutdown`, `fleet_runner_start`, `fleet_runner_stop`
--   and `fleet_runner_renew`. A command returns the state that it leaves also when it raises. A command is
--   one step: the code locks the store for each transaction alone, so another command may run between
--   two transactions of one command, and such interleavings are not modelled. The part
--   of a start before the lease, with it, and after the transaction is recorded, and its cleanup,
--   are functions of their own (`start_admission`, ...). Held, Stops, Renewals, Starts, Runs and
--   Expiry are proofs. A wait runs for the number of rounds that end before its deadline.
-- * the dispatch of work to a node, which reads the lease store and acquires and releases leases
--   (scripts/opl_fleet_parts/fleet_dispatch.py): Fleet/Dispatch.antt. Words has `parse_requirements`
--   of fleet_common.py, Requirements the requirements of an execution, Request `dispatch_request`
--   (its tests are `check_values`, its role and node `placed`), Candidates `dispatch_candidates` and
--   the plan, Acquire `fleet_dispatch_acquire` (`fleet_acquire` is the part for a node) and
--   `fleet_dispatch_release`, Session `execute_ssh_session` with the validation of its result, Execute
--   `fleet_dispatch_verify` and `fleet_dispatch_execute` (`execution_lease` is the part before the
--   session). Bounded, Acquired and Executed are proofs. The candidates come from `select_nodes` of
--   fleet_lease.py, Fleet/Selection.antt, with the proofs Sorting and Exact, on the inventories and
--   features of fleet_features.py, Fleet/Features.antt.
-- * the metadata of a task while it moves from one execution owner to another
--   (scripts/opl_task_owner.py): Owner.antt. Data and States have the receipt and its states,
--   Checkpoint `validate_checkpoint`, Prepare the transitions `prepare` and `preflight`, Steps the
--   transitions `claim`, `verify_target`, `release_source` and `rollback`, Calls the sequences of them.
--   The part of a transition after its return for a repeated call is a function of its own (`claim_first`, ...).
--   Effects, Invariant, Cases, Runs, Claims and Success are proofs. The evidence that it reads, and
--   the handoffs and results of a worker, are those of scripts/opl_execution.py: Execution.antt,
--   with the JSON values of Json.antt.
-- * the ledger of the custody of Git worktrees (scripts/worktree_lifecycle.py, with
--   `normalize_ledger` of scripts/worktree_fleet_audit.py): Custody.antt. Data has the receipts and
--   the write set, Ledger the reading and writing with the pruned overlaps, Changes the
--   changes of entries and `integration_overlaps`, Receipts `register`,
--   `transfer_owner`, `amend_objective` and `checkpoint`, Close `close` with the detach of the CodeGraph
--   index: `close_admission` is its part before the first change, `close_body` the body of its `try`,
--   `recover` its handler. Superseded is `close_superseded` and Stale `close_stale`, up to
--   the texts of their reports. Absorption is `classify_commits` of scripts/worktree_absorption_audit.py,
--   whose answer Stale takes. Written, Transfers, Overlaps, Removals, Closed, Only, Retired, Cleared
--   and TakenUp are proofs.
--
-- Base.antt passes on the names that the parts share: Boolean tests and decisions on native
-- numbers, results of functions that may raise, lists and sorted sets of texts, dicts, integers,
-- Python's text functions on ASCII texts, and the parts of a path.
--
-- How the code is represented. A function that may raise returns a `Result`; each message is a
-- constructor of the part's error type, without the values that the message quotes. A JSON object
-- whose fields have the types that its validator asks for is a record, so the tests on types are
-- those of the records; in Execution.antt the values are JSON values and those tests are written
-- out. An instant is a number of microseconds; the clock, a drawn `uuid.uuid4()` and a drawn nonce
-- are arguments. A lock makes the operations on a file a sequence: one that raises leaves the
-- file as it was, except where its definition returns what is left beside the error. Lists and dicts keep their order; every loop is structural recursion, so no
-- function runs on fuel, and no integer of the scripts wraps.
--
-- Parameters that stand for code outside the repository: `is_uuid` for `uuid.UUID`, `casefold` for
-- the method of Python's texts, `digests`, `fingerprint` and `size` for SHA-256 and the length of a
-- canonical JSON text, `bytes` for the length of a text in UTF-8, `read_time` for the parser of ISO
-- times, `canonical` for `str(uuid.UUID(...))`, and a `Host` for the file system and Git. What a process, the
-- doctor of a node or GitHub answers is an argument of the operation that asks.
--
-- Not modelled: the calls of the file system, of `flock`, of Git, SSH and the issue tracker, the
-- guard that a command runs on the controller, texts outside ASCII, ill-typed JSON where a record
-- stands for it, the bytes of the JSON files, the order in which `atomic_json` sorts keys (a file
-- holds the value that is written, in its order), the probes of `doctor_result`, the v1 names of the ledger, the checks of an archive,
-- the other audits behind a close, the data jobs and the texts of amounts of memory, the reconciliation,
-- and the command lines.
pub mod Base
pub mod Fleet
pub mod Json
pub mod Execution
pub mod Owner
pub mod Custody
