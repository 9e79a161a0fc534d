-- ===== src/Lib.antt =====
-- A model of WorkCore's orchestrator (apps/orchestrator) and what holds of it.
--
-- The program. A workflow is a graph of nodes; a run of it is executed by `OrchestratorEngine`
-- (apps/orchestrator/runtime/engine.py) over the dataclasses of apps/orchestrator/runtime/models.py.
-- The engine runs every node whose dependencies are resolved until the run waits for input,
-- completes, fails, or has nothing left to run; an interrupt is answered by `resume_interrupt`.
--
-- The files.
--   Runtime/Models: the dataclasses of runtime/models.py, with an enumeration for each set of status
--     strings. A run is a record that is passed on, since only the engine writes to it.
--   Runtime/Env: the outcome of a handler, which is a value or an exception with the text of its
--     message; what the engine calls and the source does not hold (the expression evaluator,
--     the executors, uuid4, the monotonic clock, conversions of numbers), as fields of the record
--     Env; and the monad of the handlers, which keeps the run and the emitted events when it raises.
--   Runtime/Graph: the adjacency dicts and the walks over them. Runtime/Schedule: `_runnable_nodes`,
--     `_dependencies_resolved`, `_is_edge_active`. Runtime/Branching: `_handle_if_else`,
--     `_handle_while`. Runtime/SetState: `_handle_start`, `_handle_set_state`, `_set_path`,
--     `_handle_output`. Runtime/Interaction: `_handle_interaction`, `_handle_approval`.
--     Runtime/AgentMode and Runtime/Calls: the choice of an executor, `_handle_agent`, `_handle_mcp`,
--     `_handle_integration_http`. Runtime/Template: `_render_template`. Runtime/Execute:
--     `_execute_node`, with its retries and its timeout. Runtime/Engine: the public operations.
--   Runtime/Projection: runtime/projection.py, whose `deepcopy` is the identity here.
--   Streaming: the event log, the subscribers and the publisher of streaming/store.py, streaming/bus.py
--     and streaming/publisher.py, in memory. A subscriber's queue is a list with a number.
--   Webhooks: subscriptions, deliveries and their retries of webhooks/store.py and webhooks/service.py,
--     in memory. The clock counts whole units, the HTTP call is a function of the observation, and
--     the service keeps a log of the ids of the deliveries that it called the dispatcher with.
--   Workflows: drafts and published versions of api/workflow_store.py, in memory. An operation returns
--     its value or one of the store's two errors beside the store.
--   Router: the choice of a route in project_router/router.py, over an interface of the store.
--     Router/Payload: the parsing of a request there. Router/CustomActions:
--     project_router/custom_actions.py.
--   Orchestrator/Records and Orchestrator/Store: the records and the in-memory store of
--     orchestrator_runtime/store.py, whose dicts with tuples as keys are tables of Table.
--   Orchestrator/Policy, Candidates, Messages: the routing policy, the shortlist and the target, and
--     the answers' texts of orchestrator_runtime/runtime.py. Orchestrator/World: the state that a
--     handler works on, with the interface of the engine's adapter, and its actions, which keep what
--     was written before an exception. Orchestrator/Turn: the branches of `_handle_orchestrated`;
--     Orchestrator/Handler, Orchestrated and Direct: the two handlers and `handle_message`;
--     Orchestrator/Replay: `evaluate_routing_replay`. Orchestrator/Heuristic: `_route_heuristic` of
--     llm_adapter/responses_router.py.
--   Runtime/Frame, Runtime/Work and the modules under Graph, Schedule, Branching, SetState, Engine,
--     Projection, Streaming, Webhooks and Workflows, and the modules named Laws, Rules, Invariant,
--     Invariants, Safety, Decisions, Soundness and Counts hold the proofs. Runtime/Samples, Orchestrator/Samples and
--     the modules named Examples hold test data and the theorems at concrete runs.
--   Prelude, Dict, Table, Sorting, Text, Value: shared names; Python's dict with strings or
--     tuples as keys; its stable sort; its string methods; JSON
--     values with `_set_path`.
--
-- Bounds. `execute_until_blocked` has fuel: `Runtime.Work.work` counts the attempts left at the nodes
-- and the iterations left in the loops, each round of the engine uses up some of it or stops the
-- run, and more fuel than that is enough. The walks over the graph have fuel for one push an edge.
--
-- Not modelled. A value that two places of a run share is copied where it is stored, so a later write
-- to a nested dict is seen in one place only. So the input of an interrupt and the state, which share
-- an object in the program, are apart in the model, and what is stated of interrupts after an answer
-- leaves out their inputs where a write may reach them. An executor returns a value or raises: one that
-- writes to the run, as one of tests/test_engine.py sets its status to FAILED, is not modelled, nor
-- what the engine does after such a write. The text of an exception that Python itself raises is
-- fixed. In the orchestrator a session is shared with the store, as in its memory, only where a
-- lost run is forgotten; elsewhere the handlers save what they write before they return.
-- Floats are finite, and a datetime counts microseconds. The HTTP interface, the databases and the clients of other services are left out.
pub mod Dict
pub mod Orchestrator
pub mod Prelude
pub mod Router
pub mod Runtime
pub mod Sorting
pub mod Streaming
pub mod Table
pub mod Text
pub mod Value
pub mod Webhooks
pub mod Workflows
