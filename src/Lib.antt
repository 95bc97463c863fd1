-- ===== src/Lib.antt =====
-- A verification library for AideanFleet: the parts that decide what a fleet of agents works on, what
-- it may spend, and which model it asks.
--
-- The parts and the files
--
-- Common: tests on native numbers, lists, text as Python treats it (`strip`, `split`, slices, the
-- order of code points), texts that begin with a text (Prefixes), rows with keys (Keys), sorting (Sorted),
-- and the results of calls that may raise.
--
-- Kernel: fleet/kernel/state.py, fleet/kernel/store.py and fleet/kernel/kernel.py. The tables are a
-- record `Db` of lists (Tables), with the statuses and verdicts of state.py (State). Each method of
-- `Kernel` that writes is a function from the tables to a `Result`: an exception leaves no tables,
-- as the transaction is rolled back. Goals has `create_goal`, `create_goal_with_plan`,
-- `create_goal_draft`, `append_goal_requirements`, `freeze_goal` and `create_todo`; Lease has `claim`,
-- `renew_lease`, `requeue_expired_leases`, `mark_running`, `mark_verifying` and `reopen`; Writeback has
-- `transition` with the branches of its verdicts; Steer has `propose_plan_diff` and
-- `apply_plan_diff`; Quota has `_charge`, `_quota_left`, `set_quota` and `quota_remaining`; Reads has
-- `claimable`, `should_run`, `attempts_of`, `pending_events` and `mark_events_published`; Views has
-- `get_todo`, `todos`, `packet_for` and `attention`. Machine names
-- the calls by a data type and runs a sequence of them, where a call that raises changes nothing.
-- `claim` is a check and a write, so that two of them can be interleaved. Consistency has the
-- invariant of the tables and each operation's proof that it is kept, Lifecycle the moves of a status
-- that the operations make (Edges and Steps: those of a single call), Verdicts what a verdict or
-- a decision on a change leaves behind, Claimable what is offered, Expiry the
-- leases that have run out, Billing the quotas, Race the interleaving of two claims.
--
-- Tasks: fleet/core/state_machine.py (States) and the tasks of fleet/core/db.py (Store), which is the
-- older chain of tasks beside the kernel's todos. Moves has the theorems.
--
-- Governance: fleet/governance/budget.py over the table of fleet/governance/store.py (Budget), what
-- a spending books (Spending) and what a check has seen (Checks); the gate of
-- fleet/governance/approval.py (Approvals), how a request ends (Decisions) and what is left of those
-- that have expired (Expiry).
--
-- Models: fleet/models/retry.py (Retry), fleet/models/pool.py (Pool) and fleet/models/router.py
-- (Router), and the usage and the prefixes of fleet/models/transport.py (Transport). Prefixes has what
-- these two promise, Calls has the attempts on one candidate, Candidates and Chains the loop over the candidates, Bindings the
-- chain of a role.
--
-- Planner: fleet/planner/schema.py (Json, Schema) and fleet/planner/service.py (Service) on top of the
-- kernel. Order has what the search for cycles finds, Ends that it ends, Accepted what a plan that
-- `validate_plan` accepts is like, Writing what `apply_plan` writes, Running what `run_plan_todo` does.
-- fleet/planner/steer.py is Steer; Targets has what a change without problems names, and Steering what
-- `run_steer_todo` writes.
--
-- Gates: fleet/gates/verify.py. Patterns has the lists of files of a task and how a path is compared
-- with them, Snapshot the files of a directory and what has changed, Flattened the names of directories
-- that are a path without separators, Verify `run_gate` with its checks in order. Reading, Changes,
-- Segments, Checks and Passing have the theorems.
--
-- Manager: fleet/manager/dag.py. Cycles has `detect_cycles`, whose loop Sorting, Rounds and Starting
-- follow from round to round, Ranks turns its order into numbers and Acyclic says what is reported. Ready
-- has `get_ready_tasks` and `release_dependents`, Offers the loop over the tasks, and Readiness what a
-- task that is handed out must meet.
--
-- Rel: fleet/rel/retry_timer.py (RetryTimer) on the tasks of Tasks, and what a scan does (Stuck); the loop
-- of fleet/rel/watchdog.py over a list of cycles (Watchdog), and how often it restarts (Storms).
--
-- Runner: fleet/runner. gates.py is Gates, with Verified on when it passes; model_write.py is ModelWrite,
-- with Scope on what may be written. worker.py is Prompt, Worker (the choice of a harness and the result
-- of a turn) and Once (`run_once` and `run_loop`). A worker's action takes the tables of the kernel and
-- returns a value or an exception with the tables that it leaves (Actions); before each of its calls
-- of the kernel the other workers make calls of theirs. Histories and Planned turn an action into a
-- history of kernel calls, Keeps follows the loop. Posts has the rules of postconditions, Proposals
-- the results that the kernel refuses, Backed and Judged what stands behind a result, Steps, Finishing
-- and Done a round with nothing in its way.
--
-- How the code corresponds
--
-- Names are those of the source; a function that is split names its loop or its branches. SQL
-- statements are `find?`, `filter`, `update` and an append on the rows in the order of insertion; a
-- column that holds JSON text of a list is that list. What the code takes from outside is an argument:
-- the clock in whole seconds, its text and the day, fresh identifiers (`Env`), `json.dumps` and
-- `json.loads` (`Json`), the answers of the transport by the number of the request, the tables of
-- Unicode behind `lower`, `\w` and `\d`, the sections that the configuration reads, and the parsing
-- of a date.
--
-- Bounds and fuel: numbers are natural, and a limit that the source treats as none when it is not
-- positive is 0. Loops recurse on their list, but for the `while True` of `_try_candidate`, whose fuel
-- is the number of attempts that a soft failure is allowed: from there on `should_retry` refuses.
-- `detect_cycles` gets as many rounds as there are tasks, since each takes one.
-- `_split_flattened` gets the characters of the name as its fuel, since each round takes one at least.
-- `run_loop` does the number of rounds it is given, which stands for `max_rounds`, or for any beginning
-- of the loop without a limit.
-- `_visit` of the plan gets one more than there are todos, since each visit inside another takes a todo
-- that is not being visited.
--
-- Not modelled: connections, the creation of tables and their migration, the snapshots and counts that
-- only display, the HTTP requests, the programs that are started and the harnesses that
-- start them, the console and the command line; the
-- scheduler, the dispatcher and the recovery, which hand tasks to programs.
pub mod Common
pub mod Kernel
pub mod Tasks
pub mod Governance
pub mod Models
pub mod Planner
pub mod Gates
pub mod Manager
pub mod Rel
pub mod Runner
