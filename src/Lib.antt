-- ===== src/Lib.antt =====
-- ops-guard: a verification library for the execution gate of ops-guard.
--
-- The program (src/ops_guard) lets an agent propose an operation that a verified runbook describes,
-- and executes it only when a chain of checks passes. A proposal freezes the invocation and hands
-- out a token; an operator's approval or a standing authorization permits it; the gate checks all
-- of it again, consumes the token in one transaction with the start event, runs the bound script
-- and records the outcome. The stores share one SQLite database. This library models the parts of
-- that chain, each as functions on explicit state, and proves what each one guarantees.
--
-- How the model corresponds to the code
--   Prelude      shared names, tests on numbers and texts, lists, Python's integers
--   Json         the JSON values that the code builds and hashes; Read below it is what the parsers ask
--                of a value
--   Text         what the parsers ask of a string: blankness, the hexadecimal pattern, its terms
--   Errors       src/ops_guard/errors.py and the other exceptions; a call returns a Result
--   Env          what the program calls and does not define: hashing, jcs, json.loads, clocks,
--                random identifiers, observers, the operating system, SQLite faults and the commits
--                of other processes. Each use is a tick, and may answer differently at each tick
--   Store        the tables of src/ops_guard/store.py, approvals.py and audit.py, as lists of rows,
--                with their statements (ProposalRow, ApprovalRow, AuditEvent, BindingRow); Guard below
--                it is _reject_transaction_control, which the connection of a callback calls first
--   World        the state of a call: the database, the open transaction, the tick, and the scripts
--                that ran. `transaction` and `read` of the stores. Below it: what a call may do to the
--                world (Within, Quiet, Runs, Unended), what a call that returned went through (Steps),
--                and transactions (Atomic)
--   Invocation   src/ops_guard/invocation.py: canonical_bytes, from_frozen_json, the number check
--   Audit        src/ops_guard/audit.py: redact, fingerprint, _build, append_on, append
--   Proposals    src/ops_guard/proposals.py: resolve, fetch_by_id_on, consume; Open below it is
--                open_proposal
--   Approvals    src/ops_guard/approvals.py: record_approval, record_approval_by_proposal_id, verify,
--                mark_used_append, spend_approval_append
--   Authorization      src/ops_guard/authorization.py: match; Parse below it is parse_authorization
--   Runbooks           src/ops_guard/runbooks.py and retrieval.py: resolve_citation of the library;
--                      below it parse_revision (Parse), resolve_citation of a document (Document),
--                      RunbookLibrary.load (Load) and RunbookLibrary.search (Search)
--   Preconditions      src/ops_guard/preconditions.py: the registry's timeout_for and observe; below
--                      it default_registry (Default) and load_policy (Policy)
--   ExecutionBinding   src/ops_guard/execution_binding.py: the catalog, the binding, resolve_binding;
--                      below it load_execution_catalog (Load) and run_staged (Runner)
--   Gate         src/ops_guard/gate.py: `execute` is Execute, its checks are Checks, in the order of
--                the code (Binding, Observe, Authorize), and Dispatch is its step 6 and 7. A check is
--                a Stage: it passes, refuses, or lets an exception escape
--   Recovery     src/ops_guard/recovery.py and owner.py: the sweep over interrupted executions;
--                Interrupted below it is the relation that it implements
--   Telegram     src/ops_guard/telegram_approval.py: the approval button's payload (Payload), and how the
--                poller classifies and handles an update (Poller);
--                Poller/Loop is run_once, Preview is build_preview_parts, and Notifier
--                is ApprovalNotifier: deliver and scan_once
--   Judge        src/ops_guard/judge.py: evaluate_question_map, evaluate_risk, judge_state
--   Tools        src/ops_guard/proposal_tool.py and retrieval.py: the tools propose_fix (Propose),
--                execute_fix (Run) and search_runbook (Search)
--   Tests        a deployment, run through the model, at which each theorem is applied
--
-- Conventions. A time is a number of microseconds; the columns with timestamps hold the instant,
-- since their texts are fixed-width UTC, which SQL orders as instants. A naive clock reading
-- raises where the code requires an aware one. SQL's unique columns are checks on insertion. The
-- document column of a binding is the record that it spells. Event types and outcomes are data
-- types, so the checks of `_validate` hold by typing. A message leaves out interpolated indices
-- and names, and the quotes of `!r`. Dictionaries are lists of fields in insertion order.
-- Arguments and preconditions of a frozen payload that are no object and no list raise when it is
-- read; in the code the copy of them raises later, or, for a list of pairs and a text or object in
-- place of a list, does not (no writer of the stores stores such a payload). A transaction runs on
-- its own connection, and a body may end it; the bodies that are modelled do not, since callbacks
-- get the guarded connection. A reading of the clock whose value goes nowhere is left out.
-- Telegram's identifiers are integers. A wait between two calls of Telegram, and the text of a
-- transport error, are left out.
--
-- Of the characters outside ASCII, `str.lower` matters for two only, those with an ASCII letter in
-- their lower case. The order of texts is that of their code points. Documents have no
-- RecursionError and no AttributeError, since a JSON value has the methods of its class.
-- `hmac.compare_digest` is equality, and raises TypeError for a cited hash that is no ASCII text;
-- the hashes of the library are hexadecimal. The judge's results are a dict by question id; the
-- list of the model has one for each id that is asked for, and is that dict when the ids are
-- distinct. The parts of a preview are code points.
--
-- Loops are structural recursions, with two exceptions. The search for the unit in the last place of a
-- double (Invocation/Numbers) doubles at most 972 times, since 2^53 * 2^971 is 2^1024, the bound of
-- the doubles. The scan of a statement (Store/Guard) has one round more than the statement has
-- characters, and each round takes at least one; decimal numbers have as many digits at most as their
-- value.
--
-- Not modelled: the system calls of the staged runner (process groups, job objects, pipes), which are
-- the Host of a run; acquiring an owner's lock; the migration of old tables; logging; reading the
-- files that hold a policy, a catalog or a runbook; the classes that hide a connection's other
-- methods. The local_judge package and its model are the fields of LocalJudge. The service and
-- the configuration of the approvals are not part of this library yet.
pub mod Prelude
pub mod Text
pub mod Json
pub mod Errors
pub mod Store
pub mod Env
pub mod Invocation
pub mod World
pub mod Audit
pub mod ExecutionBinding
pub mod Proposals
pub mod Approvals
pub mod Authorization
pub mod Runbooks
pub mod Preconditions
pub mod Gate
pub mod Recovery
pub mod Judge
pub mod Tools
pub mod Telegram
pub mod Tests
