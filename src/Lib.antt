-- ===== src/Lib.antt =====
-- Eika is an agentic coding harness written in Go: a server keeps sessions of messages in a
-- database, runs an agent that alternates model calls and tool calls, and sends events to clients.
-- This development models the parts that decide what a run says and what stays of it.
--
-- The program's parts and their files:
--
-- Provider models the message types of internal/provider/provider.go. Provider.ToolCalls models
-- internal/provider/openai/toolcalls.go, which puts tool calls together from fragments, and
-- Provider.Relay the relay of internal/provider/openai/openai.go, which sends what Agent.Stream
-- reads, for an endpoint that reports no timings and a call that is not cancelled. Agent models
-- internal/agent: Agent.Queue the queues of queue.go, Agent.Conversation the list of
-- conversation.go, Agent.Compacted what a compaction leaves and Agent.Plan where it cuts
-- (compaction.go), Agent.Budget its budgets, the estimate of a context and the fit into the model's
-- window, Agent.Context the request that a call sends (context.go), Agent.Stream the response that
-- a stream of events makes and Agent.Retry the retries of a call (response.go), Agent.Accept the
-- steering and follow-up messages that a run accepts, Agent.Turn the steps of a turn and
-- Agent.Rounds its loop and the loop of `Run` (agent.go). Event models the bus of
-- internal/event/bus.go: Event.Bus its operations, Event.Delivery and Event.Order what a subscriber
-- gets. Store models the session tree of internal/store/entries.go with the session rows of
-- sessions.go: Store its operations, Store.Walk and Store.Paths the path query, Store.Valid the
-- well formed databases, Store.Append, Store.Head, Store.Copy and Store.Fork what each operation
-- does to the tree. Session models internal/session/message.go and resume.go: entries from messages
-- and back, and the entries that a run can continue from. Provider.Json models how
-- internal/provider/provider.go writes a tool call's arguments as JSON and reads them back,
-- Session.Replay and Replayed what a run records and replays.
--
-- How they interact: a turn hands every message and compaction that it has delivered to the store
-- (Agent.Turn.Write), the session tree writes each as an entry (Session.Message), the store hangs
-- it off the session's head (Store.append_entry), and a later run replays the path to the head
-- (Store.session_path, Session.Message.messages). Server.Runs models the run manager of
-- internal/server/run_manager.go, which owns the agents: its operations, and as a step relation
-- what its callers and the goroutines of the runs do (Server.Runs.Steps). Subagent models the
-- children that a run spawns (internal/subagent): Subagent.Depth and Width what is counted,
-- Subagent.Steps their step relation. Names follow the source in snake case: `planCompaction` is
-- plan_compaction, `restoreFrom` is restore_from.
--
-- A function that mutates an object returns the new object. What the code takes from elsewhere is a
-- parameter: encoding/json (Provider.Json.Json, and for the two documents of a payload
-- Session.Message.Codec, and `marshal` in Agent.Context), what the database makes of a text in a
-- jsonb column (Store.Jsonb), new ids (arguments of the store's operations), and what the model,
-- the tools, the store and the users do in a run (the rounds of Agent.Turn). A number of tokens or
-- of milliseconds is a natural number without a bound: the values are far below 2^63. The recursive
-- path query runs on fuel, the length of the table, which is enough as a path has no row twice; the
-- cache's eviction runs on one more than the number of its entries, each pass of it dropping one.
-- The loops of a turn run for as many rounds as are given, and say so when they go on after them;
-- every other loop is structural.
--
-- Imaging.Jpeg models internal/imaging/jpeg.go, which takes the metadata off an image that a user
-- sends: Imaging.Jpeg.Offsets and Parsed what its loops find, Rewritten and Stripped what reads
-- back from the result, End and Total the bounds of the loops, Exif the orientation. Mcp.Sse models
-- internal/mcp/sse.go, the reader of the event streams of tool servers, with the standard library's
-- scanner: Mcp.Sse.Lines and Chunks its lines, Mcp.Sse.Events and Sent its events. Executor.Path
-- models internal/executor/path.go, the check that keeps a tool's paths in the workspace, with
-- filepath.Clean over the elements of a path: Executor.Path.Elements what is left of them, Inside
-- where a path leads. Search.Cache models the cache of internal/search/cache.go, which the search
-- sources share, Search.Usage the quotas and cooldowns of internal/search/usage.go, and Tool.Output
-- the bounded output of a command in internal/tool/builtin/limits.go.
--
-- Not modelled: the handlers of the HTTP server, workspaces, the other parts of the executors, of
-- search and fetching and of MCP, and the front end, which are input and output around the parts
-- above; times, logs and the events that a run sends to clients.
mod Common
pub mod Executor
pub mod Imaging
pub mod Mcp
pub mod Provider
pub mod Agent
pub mod Event
pub mod Store
pub mod Server
pub mod Session
pub mod Search
pub mod Tool
pub mod Subagent
mod Tests
