-- ===== src/Lib.antt =====
-- Models of the operational intelligence engine, and theorems about them.
--
-- The engine turns events of tenants into alerts. Rules have conditions in a small expression
-- language. The evaluator runs them over events, counts and stored states, the alert service keeps
-- one alert for each condition, workflows react to it, and escalation passes on what nobody
-- acknowledges. Tasks of a worker carry jobs from the evaluator to the alert service. Edge agents
-- buffer events and upload them in batches; EDI documents and webhooks are other sources of events,
-- and notifications leave on several channels. The AI service answers questions about all this: it
-- guards the question, assembles the context within the token budget of a model call, runs the tools
-- that the model asks for, and guards the answer. The API limits the requests of a tenant.
--
-- Files and what they model (paths from the repository's root):
--   Prelude: numbers, lists, texts, signed integers and dicts that all parts share.
--   Rules/Syntax, Rules/Lexer, Rules/Parser, Rules/Eval: packages/rules/expression_parser.py.
--     `tokenize_expression` is `ExpressionParser.tokenize`, `parse` is `_Parser.parse` with one
--     function per method, `evaluate` is `evaluate`, and `evaluate_expression` is
--     `ExpressionParser.evaluate`. Rules/Parser/Grammar is the grammar of the docstring as a relation.
--   Rules/State: packages/rules/state.py, over two stores with a clock.
--   Rules/Evaluator: packages/rules/evaluator.py, over rows of the tables of packages/db/models.
--   Workflows: packages/workflows/engine.py.
--   Alerts: packages/domain/alert_service.py, over the table with its unique constraint.
--   Escalation: packages/domain/escalation.py.
--   Edge: apps/edge-agent/agent.py. An upload takes the events that are ingested while it waits.
--     An upload that ends without a success may all the same have reached the cloud, which is part of
--     what an upload meets. Edge/Loop is `_sync_loop`, a list of rounds.
--   Assembly: packages/ai/context_assembly.py.
--   Pipeline: packages/events/stream.py (Stream), packages/events/processor.py (Processor),
--     apps/workers/tasks/rule_evaluation.py and ingestion.py (Tasks), apps/workers/tasks/alerts.py
--     (AlertTask). A job is a dict; `run_jobs` runs the jobs of a queue one after the other.
--   Prompts: packages/ai/prompt_registry.py, over the tables of packages/db/models/prompt.py.
--   Api: the rate limiter of apps/api/deps.py, over counters of Redis that expire. Api/Tenants:
--     apps/api/middleware.py, packages/common/tenant_context.py and the dependencies of
--     apps/api/deps.py that read a token.
--   Integrations: the JSON values of packages/integrations. Integrations/Edi: edi_parser.py.
--     Integrations/Webhook: webhook_receiver.py. Integrations/Outbound: outbound.py, where a send is
--     the request it makes and the value it returns.
--   Documents: packages/domain/document_processor.py.
--   Guard: packages/ai/policy_guard.py, with risks in hundredths.
--   Tools: packages/ai/mcp_base.py and packages/ai/tool_coordinator.py.
--   SqlTools: apps/mcp-sql-tools/server.py, up to the query and the parameters of a handler.
--   Copilot: packages/ai/ai_service.py. The model answers a list of messages, the same each time.
--     Copilot/Router: packages/ai/model_router.py.
--   Files whose names end in Tests hold runs and the theorems at concrete inputs.
--
-- Parameters. `Runtime` stands for what the interpreter does with floats, containers, character
-- classes and numbers in texts. The stores' JSON functions, the digest of an alert, str.format, the
-- HTTP client, the float arithmetic of budgets, the search of regular expressions, HMAC, tokens,
-- strptime and the decoding of bytes are parameters too. The clock, new ids and the answers of
-- stores, queues, models and networks are arguments.
--
-- Fuel. The parser has fuel 7 * length + 5 for its tokens: no method calls another more than seven
-- deep without taking a token. The tokenizer has the length of the text plus one, as each round takes
-- a character. The chunks of a document have the length of the text, since each step goes 800
-- characters on; the rounds of tools are the four of the source's range.
--
-- Left out: logging, timestamps and durations of results, the depth limit of Python's stack, case
-- folding and stripping outside ASCII in workflow conditions, negative windows and timeouts, what a
-- handler's HTTP response holds beyond status and text, the stamping of an edge event, latencies and
-- telemetry. The playbooks, the embeddings and the search, the scheduler, the routes of the API, the
-- other MCP servers, intelligence, reporting, observability, schemas, storage, verticals and the web
-- frontend are not modelled: they are wrappers of other services, statistics on floats, constant data
-- or rendering.
pub mod Prelude
pub mod Rules
pub mod Workflows
pub mod Alerts
pub mod Escalation
pub mod Edge
pub mod Assembly
pub mod Pipeline
pub mod Prompts
pub mod Api
pub mod Integrations
pub mod Documents
pub mod Guard
pub mod Tools
pub mod Copilot
pub mod SqlTools
