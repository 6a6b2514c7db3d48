-- ===== src/Lib.antt =====
-- ProofCoder is a local coding agent whose completion claims are checked against local execution.
-- A model proposes tool calls; the agent loop validates each batch, executes it on the workspace,
-- records what it observed, and decides by itself whether the task counts as verified.
--
-- Which file models which part (paths from the repository's root):
--   Base              names shared by all files, tests on numbers, lists, and Python's dict, text and
--                     path operations; Base.Host holds what the program asks of Unicode tables, of
--                     Python's version and of the file system, as parameters
--   Json              decoded JSON values
--   Protocol          src/proofcoder/protocol.py: messages, tool calls, outcomes
--   ToolResult        src/proofcoder/tools/base.py: result envelopes
--   RunState          src/proofcoder/state.py: the facts of a run
--   Verification      src/proofcoder/verification.py: evidence from tool results
--   Finish            src/proofcoder/tools/finish.py: the completion decision
--   Paths             src/proofcoder/safety/paths.py, and the path tests of safety/secrets.py and
--                     safety/policy.py
--   History           src/proofcoder/context.py, MessageHistory: legal order, calls and their results
--   Context           src/proofcoder/context.py: groups, token budgets, bounded views of the history
--   Errors, Retry     src/proofcoder/errors.py and retry.py: request errors and the delay after one
--   Progress          src/proofcoder/progress.py: fingerprints of batches and the count of equal ones
--   Registry          src/proofcoder/tools/registry.py and the tool definitions of tools/base.py
--   Events            src/proofcoder/events.py, EventEmitter: numbers, warnings, sink failures
--   Agent             src/proofcoder/agent.py: Agent.Request is _request_model with the run's clock,
--                     Agent.Batch is _execute_batch, with the answers of Agent.Outcome, and
--                     Agent.Record is _record_result and _record_approvals; Agent.Recorded,
--                     Agent.Ran and Agent.Answered follow the messages that these add to the history
--   Approval          src/proofcoder/approval.py: the gate that asks a person about one command
--   Streaming         src/proofcoder/llm/streaming.py: a response put together from fragments
--   Policy            src/proofcoder/safety/policy.py: a project policy, from the decoded document on
--   Commands          src/proofcoder/safety/commands.py: Commands.Prepare is prepare_command, with the
--                     argv checks of Argv, the options of Options, the programs of Git, Python, Gxx and
--                     Declared, the choice of a program in Executable and, with safety/secrets.py, the
--                     environment in Environment; Tables holds the fixed names
--   Tests             the definitions at concrete inputs
--
-- The objects that the source mutates are records that the operations return anew. An operation that
-- raises returns an error value, and with it the state reached where the caller goes on with it. Times
-- are whole clock ticks.
--
-- KeyboardInterrupt is a value of Raised. A configuration says of every event whether it comes while
-- the sink works on the event, and of every result whether it comes before the history takes the
-- result; preflights, tools, the sleep and the client may raise it as well. In a tool's work, in the
-- records of approvals and in the record of a result it is caught as _execute_batch does; elsewhere it
-- leaves the batch.
--
-- How the parts interact: Agent.Batch takes a response's calls, prepares them with Registry, runs each
-- on a world of any type, and lets Verification observe the result in a RunState; a finish_task call
-- is decided by Finish from that state alone. Every result goes to History, which Context turns into
-- the next request. What a tool does, the cancel flag and the approval records are functions on the
-- world. Commands judges an argv with the resolvers of Paths and the entries of Policy, and what it
-- says a person must confirm goes to Approval. Commands follows the branches for POSIX: those for
-- Windows are left out. shutil.which, os.path.abspath, sys.executable, the regular expression of Python's
-- names, tomllib, json.loads, hashing, the clock and the person who answers are parameters. Of
-- pathlib's resolve the path theorems take one documented fact as a hypothesis: no component of what it
-- returns is `..`.
--
-- No definition needs fuel: every loop is recursion on the list it walks, and the attempts of a model
-- request are recursion on the number of attempts left. Floating-point numbers are
-- exact fractions (the token ratio, the context target) or clock ticks (delays), so rounding in the
-- last digit is not modelled.
--
-- Not modelled: the outer loop of agent.py, reading a policy file, checkpoints and rollback, sessions,
-- the tools' work on files and processes, the clients of model services, the Linux sandbox, evaluation,
-- configuration, rendering, the command line and the web server.
pub mod Base
pub mod Json
pub mod Protocol
pub mod ToolResult
pub mod RunState
pub mod Verification
pub mod Paths
pub mod Finish
mod Tests
pub mod History
pub mod Context
pub mod Errors
pub mod Retry
pub mod Progress
pub mod Registry
pub mod Events
pub mod Agent
pub mod Approval
pub mod Policy
pub mod Commands
pub mod Streaming
