-- ===== src/Lib.antt =====
-- fancy_flow: a runner for workflow graphs (src/fancy_flow).
--
-- A document from outside is checked by a policy and imported as a workflow, a graph of nodes
-- whose edges read ports. `FlowRunner.run` puts the nodes in
-- topological order, checks the caller's props, and gives each node a turn: a node with a stored
-- output republishes it, a node that no active edge reaches is skipped, and any other node is
-- executed with the inputs that its edges carry; its result lights ports, which activate edges.
-- Kinds describe nodes, executors are bound to kinds, and a durable run hands the nodes out one job
-- at a time: a claim store keeps a row for each node, the frontier reads from the rows which nodes
-- are unblocked, a limit caps those held at once, and a retry policy bounds the attempts.
--
-- Files, with the source that each models, by its path below src/fancy_flow:
--   Prelude, Prelude/*: truth values, native numbers, lists of texts read as sets, integers, and
--     Python's dictionaries as lists of pairs in the order of insertion.
--   Value, Text: Python values as the engine inspects them, and str.strip, str.join.
--   Graph: schema/graph.py.
--   Topo: `_topo_sort` of engine/runner.py. Topo/Count, Invariant, Start and Loop are the loop's
--     invariant and its end; Topo/Sorted and Topo/Cycles read the result.
--   Registry: kind_id.py, node_kind.py, registry.py and port_resolution.py of registry, in
--     Registry/KindId, NodeKind, Catalogue and Ports; Registry/Validation is `validate_config`.
--     Registry/Builtin is the table of builtin kinds and the index of their ids.
--   Executors: executors.py.
--   Python, Issues, Connectivity: `bool` and `or` of Python with the conversions that are
--     parameters, schema/issues.py, and analysis/graph_connectivity.py.
--   Workflow: workflow.py. Workflow/Migration is `migrate_schema`, Workflow/Nodes and Reading are
--     `import_workflow`, Workflow/Writing is `export_workflow`, Workflow/RoundTrip joins
--     them, and Workflow/Metadata reads the metadata block of schema/graph.py.
--   Policy: security/policy.py, in Policy/Limits, Checks and Inspect. Policy/Values, Walked,
--     Accepted, Kinds and Renamed say what is accepted, and Policy/Imported what the import makes of
--     an accepted document.
--   Props: runtime/workflow_props.py.
--   Events, Pause: runtime/events.py and runtime/pause.py.
--   Engine: engine/runner.py. Engine/Routing is `_activated_ports` and `_publish`, Engine/Inputs is
--     `_collect_inputs`, Engine/Diagnostics is engine/diagnostics.py, and Engine/Walk is `_walk` with
--     the synchronous driver. Engine/Core, Turns, Resume, Worlds, Finished and Fed are about whole
--     walks.
--   Durable: durable/state.py, frontier.py, dispatch.py, retry.py, replay.py and
--     coordinator.py in Durable/State, Frontier, Dispatch, Retry, Replay and Coordinator, with their
--     theorems in the files below them.
--   */Samples: runs of the definitions, and the theorems at concrete inputs.
--
-- Executors, the clock, the cancellation signal, terminals, the JSON reader and writer, the size and
-- the UTF-8 test of an encoded document, Python's `str`, `repr`, `int` and `float` of values, comparisons
-- with floats, and the index of builtin kinds where a definition reads it are parameters; the callables
-- in the table of builtin kinds are opaque. An executor's call answers a value, an
-- abort, an exception's text, or an awaitable, and may change a world of any type. Reading a document
-- is `none` where Python raises, and where a node would hold a value that the type of its field
-- excludes; a value of a class of its own has no `get`, is true, and cannot be walked.
--
-- Two loops run on fuel. `drain` gets as many rounds as there are nodes and edges: every round but
-- those of the first queue takes an edge to the in-degree zero of its target. `repeat` of the
-- frontier gets one pass more than there are nodes: a pass that changes something settles a node.
--
-- Not modelled: the asynchronous driver, the coordinator's retry loop and run_to_completion, human
-- gates, step keys, expressions and the executors of the builtin kinds, structured model output,
-- terminal sessions, and marketplace manifests: each is a component of its own beside those above.
-- A float is an opaque number, since the kernel has no floating-point arithmetic.
-- Sharing of Python objects is not modelled: no property here depends on it.
pub mod Prelude
pub mod Value
pub mod Graph
pub mod Topo
pub mod Text
pub mod Registry
pub mod Props
pub mod Events
pub mod Engine
pub mod Executors
pub mod Python
pub mod Issues
pub mod Connectivity
pub mod Workflow
pub mod Policy
pub mod Pause
pub mod Durable
