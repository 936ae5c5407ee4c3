-- ===== src/Lib.antt =====
-- The backend of an agent that writes and deploys ERP modules: a shallow embedding of its
-- permission engine, its tool registry, its task planner, its outbox, its agent runs, the
-- specifications that these are held to, its deployments, the runner that validates modules and
-- carries deployments out beside an ERP server, its logins, its attachments and the repair of failed
-- tasks, with their properties.
--
-- The API (backend/main.py) and the workers (backend/worker.py) share a database. A run of the
-- agent is driven by events of an outbox table; a worker claims an event, runs the agent on the
-- task that the planner picks, asks the permission engine what to do with a tool call that stops
-- the agent, and writes the outcome back.
--
-- Base holds what all modules share. Numbers are the native ℕ; a time is a count of
-- microseconds; text that the code takes apart is a
-- list of code points, and a name that it only compares is a String. A record has the columns
-- that the modelled code reads or writes. An operation is one step; a crash between two commits of
-- one operation is not modelled.
--
-- Permissions models backend/permissions.py. Resource has `resource_for` and `resource_matches`,
-- the latter over Glob, the standard library's `fnmatchcase`. Grants has the table
-- `PermissionGrant`, `_evaluate_grants` and the older `active_grant`. Cache has
-- `_PermissionCache`, as an association list. Engine has the layers of `_check_grants` and
-- `PermissionEngine.check`; a call takes the table, the clocks and the cache and returns the
-- decision and the cache. The log line of `_audit` is left out. Gate is the part of
-- `process_run` (backend/worker.py) that asks the engine. Table has the handlers of
-- backend/main.py that create, expire and delete a grant.
--
-- Tools models backend/tool_registry.py: the registrations in the order of the file, one module
-- for each of its groups (Inspection, Design, Files, Checks, Writes, Memory, Hosting), the table
-- and its lookups in Registry.
--
-- Planner models `SupervisorPlanner` of backend/agent.py on the task graph of a run: the graphs
-- that it starts with in Graphs, the choice of the next task in Supervisor. A field of a graph
-- that no modelled code reads is left out.
--
-- Outbox models the table `OutboxEvent` and the functions of backend/worker.py that write it:
-- `enqueue`, `claim_outbox`, the end of `handle_event` and the release of stale claims by
-- `recover_stale_work`. Shared has their interleavings, as a step relation: the query of a claim, which
-- locks a row and skips those that are locked, and its commit are two steps, so claims overlap; the
-- others are transactions.
--
-- Runs models the life of one agent run. Model has its rows: the run, its subtasks, its pending
-- actions, its question, its events. Start is `process_run` of backend/worker.py up to the call of
-- the agent; Gated, Finish and Failure are its ends (a tool call that waits, the agent's report
-- or its absence, a question, a rejection, an exception, by `handle_event`). Watchdog is
-- `recover_stale_work`, and Requests has the handlers `cancel_run`, `retry_run`,
-- `answer_run_question` and `decide_run_action` of backend/main.py. What the agent streams in
-- between is left out, but for how it ends; what it emits on the way is not in the events.
-- Steps has all these operations as a step relation, Rounds a run that is resumed until it is
-- done. An operation that raises returns none, since its transaction is undone.
--
-- Schedules models `dispatch_due_schedules` of backend/worker.py, which makes runs of recurring
-- prompts; the state of a project's instance, key and budget is an argument. Runs.Prepare is
-- `process_run_prepare`, what happens to such a run before its start.
--
-- Deployment models backend/deployment.py, with `decide_deployment`, `pending_deployments` and
-- `refresh_deployment` of backend/main.py and `require_project` of backend/auth.py: Request is
-- `request_deployment`, Run the execution, the rollback and the refresh, Lifecycle the steps of a
-- row. What the bridge, git or the deployed site answers is an argument. A commit writes the
-- columns that its object has changed since it was loaded; the rollback within a refresh has a
-- session, and so an object, of its own.
--
-- Runner models bridge_runner/runner.py on the server: Job is `verify_job`, Ledger the file of used
-- nonces, Command `run_odoo_module_command`, Deploy `run_deploy` with the state of the directories
-- and the database; what an archive writes beside the module's directory is kept apart. Directories, databases and dumps are types that the theorems take as
-- arguments; what the commands do with them is a record, Outside.
--
-- Auth models the handlers of logins, sessions and passwords of backend/main.py, and `current_user`
-- of backend/auth.py. Hashing is an argument.
--
-- Workspace models `resolve` of backend/workspace.py, on paths as lists of their parts; what the
-- symbolic links lead to is an argument.
--
-- Specification models backend/specification.py. Targets has the extractors, Compile the builders and
-- the requirements, Persist `compile_specification` and `get_specification_summary`; Model has the
-- rows, with Python's own functions (`str.lower`, the text of lists and dicts, the identifiers and
-- the digest) as a record of arguments, and the order in which the database reads rows as another. Evaluate is the part of the tool `package_module` of
-- backend/agent.py that settles the checks by the report of a validation. Yields is the
-- postcondition for code that may raise.
--
-- Validation models `_parse_odoo_log` and `run_validate_module` of bridge_runner/runner.py in Log and
-- Run, and `validate_module_full` of backend/validation.py, whose static checks are an argument. What
-- the host answers, Docker and the database server included, is the record Host. Sound puts the
-- compiler of specifications, the validation and the gate of the worker together.
--
-- Attachments models backend/attachment.py and the handlers of backend/main.py that store and read an
-- attachment: Model the check of an upload and the storage, Extraction the choice of a reader,
-- Pipeline `process_attachment`, Citation what is read. The scanner and the readers of PDF files and
-- images are arguments.
--
-- Receipts models `ToolResult`, `ensure_tool_execution` and `complete_tool_execution` of
-- backend/agent.py, on the table of receipts as an association list.
--
-- Repair models how backend/worker.py deals with a task that has not passed: Events is the stream
-- `ToolEvent`, Acceptance `required_acceptance_failures`, Requeue and Budget
-- `requeue_failed_task`, with the settings it reads as arguments.
--
-- Only the parser of patterns runs on fuel: the length of the pattern, which `pieces_fuel` shows
-- to be enough. Sorting, matching and the walks over tables are structural.
--
-- Not modelled: calls of the language model, of ERP systems and of the browser, HTTP routing,
-- cryptography, file access, the static checks of generated modules, and the frontend.
pub mod Base
pub mod Glob
pub mod States
pub mod Permissions
pub mod Tools
pub mod Planner
pub mod Outbox
pub mod Deployment
pub mod Repair
pub mod Runs
pub mod Runner
pub mod Auth
pub mod Schedules
pub mod Specification
pub mod Attachments
pub mod Receipts
pub mod Validation
pub mod Workspace
