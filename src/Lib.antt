-- ===== src/Lib.antt =====
-- The task backend of an e-commerce diagnosis agent (src/backend_agent of the repository): what its
-- services promise to merchants about their products, and to one another about messages.
--
-- A request reaches `TaskService`, which keeps a task record in Redis and publishes a message to
-- RabbitMQ. `WorkerService` takes the message under a lease, checks that the task still waits for it,
-- runs the agent and settles the delivery; a failed run is retried through delayed queues. A run may
-- stop to ask for a product or for an approval, and a request that answers publishes the message that
-- resumes it. What an approval allows is executed by the action ledger, a SQLite database.
--
-- Files, and the code they model:
-- - Domain, Errors: src/backend_agent/domain.py and errors.py, one record or constructor for each
--   class. A `datetime` is a number.
-- - Exec: methods that change a state and may raise, `Exec S A = S → Result A × S`. `transaction` is
--   the rollback of the SQLite methods, `catch`, `try_else` and `finally_do` are the try statements.
-- - Commerce, Commerce/Approvals, Commerce/Actions, Commerce/Catalog: the ledger of
--   src/backend_agent/commerce.py (`_create_plan_sync`, `_record_approval_sync`,
--   `_apply_approved_plan_sync`, `_resolve_product_sync` and the readings). A table is the list of
--   its rows, and an insertion checks the primary key and the UNIQUE column. Commerce/Ledger has the
--   writes as a step relation with reachability. Commerce/Metrics with Commerce/Funnel and
--   Commerce/Context with Commerce/Evidence are `_get_metrics_sync`, `compare_funnel`,
--   `_get_product_context_sync` and `_extract_evidence_ids`; Commerce/Isolation is about all readings.
-- - Platform: what is taken from outside as one record of operations with their laws: the keyspaces
--   and the trimming of streams of Redis, the broker's answer to a publication (confirmed, refused,
--   or accepted although the publisher got an exception), SHA-256, and Python's lower, strip and str.
-- - Store: `RedisStore` of src/backend_agent/repositories/redis_store.py. Store/Feed is `iter_events`, by
--   what each read finds; Store/Wire writes and reads the fields of an entry, which elsewhere is the
--   event that it stands for.
-- - Queue: `publish` and `publish_retry` of src/backend_agent/queue/rabbitmq.py.
-- - World: what a request or a delivery runs in.
-- - Tasks, Tasks/Create, Tasks/Input, Tasks/Approval, Tasks/Resume: `TaskService` of
--   src/backend_agent/services/task_service.py.
-- - Worker, Worker/Deliver, Worker/Failure: `WorkerService` of
--   src/backend_agent/services/worker_service.py, with the orchestrator as an argument.
-- - Handoff: the contract between those who publish and the worker, and its proofs.
-- - Agent: `AgentOrchestrator` of src/backend_agent/agent/graph.py. Agent/State has the state and what
--   the nodes take from outside, Agent/Scope, Agent/Model, Agent/Tools, Agent/Reflect and
--   Agent/Decide the nodes, Agent/Diagnosis the validation of a diagnosis, Agent/Graph the edges and
--   the run of the graph, Agent/Run its start and its resumption from a checkpoint.
-- - Api: src/backend_agent/api and src/backend_agent/main.py. Api/Auth has `authenticated_merchant`,
--   Api/Schemas what requests and responses carry, Api/Routes the endpoints, Api/Trace
--   `get_task_trace`, Api/Stream what `stream_task_events` sends, Api/Serve the middleware and the
--   exception handlers; Api/Guards, Api/Foreign and Api/Answers are about requests from end to end.
-- - Llm: `OpenAICompatibleModelClient` of src/backend_agent/llm/client.py. Llm/Wire has `_wire_messages`,
--   Llm/Read the reading of a response, Llm/Client the request, Llm/Retry `retry_async` of
--   src/backend_agent/core/retry.py.
-- - Knowledge, Knowledge/Search, Knowledge/Excerpt: `_add_document_sync`, `search` and `_best_excerpt`
--   of src/backend_agent/rag/knowledge_base.py.
-- - Tools/Registry, Tools/Calculator, Tools/Reading, Tools/Remote: `ToolRegistry` of
--   src/backend_agent/tools/base.py, the tools of src/backend_agent/tools/builtin.py, and
--   `McpToolClient.call` of src/backend_agent/tools/mcp.py.
-- - Examples: concrete settings.
--
-- Fuel: `RedisStore.create_task` calls itself without a bound, and is modelled on fuel; the service
-- gives it the depth that Python lets calls nest. With a fresh task id it calls itself once at most,
-- so a depth of two is enough. The graph of the agent runs on the limit of nodes that `run` sets,
-- `max_iterations * 3 + 12`: an iteration runs two nodes. `retry_async` recurses on the attempts that
-- are left, `iter_events` on the reads that are made. All other recursion is structural.
--
-- What is assumed: Redis and SQLite calls do not fail, and of the broker only publications do. The
-- time stays the same within one operation. The expiry of keys is a step of the environment between
-- operations. The tool calls of one turn, which are awaited together, run in their order. What the
-- graph library keeps for a task is an argument of `run`. Tokens are a sequence of which nothing is
-- assumed; the token of an approval is drawn before it is known whether it is needed. A raw message
-- is what its decoding makes of it. Python's floats, its parser of expressions, `re`, `json` and
-- `str.isascii` are arguments of the definitions that use them, as is how exception classes of
-- libraries descend from each other, which says what an `except` clause catches. The ids of a stream are in order, and
-- a read of a stream that is not trimmed finds a beginning of what is ever appended.
--
-- Not modelled: the server of the tools, which passes calls on to the repository, settings, logging,
-- the start and stop of the processes, the scripted model client and the evaluation harness; the
-- demo data of commerce.py; the bounds and patterns of fields in domain.py; conversations of redis_store.py; the sleeps of `retry_async`.
pub mod Base
pub mod Domain
pub mod Errors
pub mod Exec
pub mod Commerce
pub mod Platform
pub mod Store
pub mod World
pub mod Queue
pub mod Tasks
pub mod Agent
pub mod Llm
pub mod Knowledge
pub mod Tools
pub mod Worker
pub mod Api
pub mod Handoff
pub mod Examples
