-- ===== src/Lib.antt =====
-- Verification library of the mesh backend: the server (pkg/server), its store (pkg/store), and the
-- agent (pkg/agent) that keeps the WireGuard and babeld configuration of a node.
--
-- The server holds nodes, connections, tasks, statuses and users in a store. A dashboard's user
-- registers, logs in and creates nodes over HTTP (user_service.go, node_service.go, behind jwt.go).
-- A node authenticates by its identifier and token (node.go), registers and subscribes over gRPC
-- (task_service.go), gets tasks, fetches its configuration (config_service.go), installs it
-- (task_handler.go), and reports the task and its status (task_service.go, status_service.go).
--
-- Files, and the code that each is about:
--   Types: the records and constants of pkg/types.
--   Store/Interface: the interface of pkg/store/store.go as a record of operations, which the services
--     take as a parameter.
--   Store/Memory and its children Nodes, Connections, Statuses, Tasks, Users: pkg/store/memory_store.go,
--     one function for each method, from the state to the result and the new state. Below them stand
--     the proofs: Nodes/Ids, Connections/Loops, Pairs, Repeats and Ports, Tasks/Cleanup, Listing and
--     Results, Users/Index, Registry, Calls and Shared. Connections/Steps has the steps of calls that take
--     turns, with the proofs in Connections/Answers and Races.
--   Server/Http: what a handler answers. Server/Middleware/Node and Jwt: pkg/server/middleware/node.go
--     and jwt.go; Jwt/Bearer has the proofs on tokens.
--   Server/Services/Users (user_service.go), Tasks (task_service.go), Nodes (node_service.go), Statuses
--     (status_service.go), Configs (config_service.go) of pkg/server/services, each with its proofs in
--     the modules below it.
--   Config: pkg/config (config.go, server_config.go, agent_config.go), with Config/Checks and Paths.
--   Password: pkg/utils/password/password.go, with Password/RoundTrip.
--   Store/Gorm and its children Users, Tasks, Nodes and Connections: pkg/store/gorm_store.go over a
--     database. Filled: GormStore as a Store, and NewStore of store.go with the two constructors of
--     sqlite_store.go and postgre_store.go. Links: the ledger of ports that GormStore keeps, with Rows,
--     Refines, Agrees and Distinct below it.
--   Server/Routes: the routes of pkg/server/server.go, with Guards below it. Server/Static, with Pages:
--     pkg/server/static/static.go, and the whole answer of the server's gin engine.
--   Agent/System: the node that the agent runs on, as a parameter. Agent/Tasks:
--     pkg/agent/handlers/task_handler.go, with DryRun, Reports, Install, Retries and Authorized
--     below it. Agent/StatusHandler: status_handler.go of the same folder.
--   Agent/Session: pkg/agent/agent.go from New to Stop, with Ends and Frame below it. Agent/Stream: its
--     handleTaskStream, round by round, and the steps of its goroutines; Readers, Connections, Clients,
--     Kept, Calls, Rejoin and Drained have the proofs. Agent/Metrics: its reportStatus, with Delivered,
--     which joins it to the server's status_service.go.
--   Base, Data, Errors: tests and integers, maps, the heap and texts, and the values of `error`.
--   Tests: the theorems at concrete inputs.
--
-- Conventions. A method is a function whose arguments are the clock's answers, the orders of its
-- loops over maps, and the state; a method that takes a lock runs without another in between, and
-- one that gives it back in between has its steps in a module of its own
-- (Store/Memory/Connections/Steps). A call that waits for a stream's end is two functions. Tasks
-- are shared by pointer, through a heap; all else is held by value. Where callers share a record
-- with MemoryStore, their writes to it are operations: of ListNodes of node_service.go on nodes
-- (change_listed), and of any caller on users (write_user); a record does not stand under two
-- identifiers. An `int` has 64 bits and wraps where the code increments it (Base/Int). Loops are
-- structural recursion on the list that is visited. The one use of fuel is the printing of
-- numbers (Data/Text): a number n gets n + 1 rounds, of which each divides by ten or by sixteen.
--
-- The agent's goroutines are a step relation (Agent/Stream): a step is one round of a loop, or Stop,
-- in any order and with any answers of the network. A connection or a
-- stream is a number, in the order in which they are opened.
--
-- Parameters: the operations on float64, the JWT library, Argon2 and base64, random bytes, JSON,
-- YAML and templates, the paths of path/filepath, gRPC and its answers, gorm and its database,
-- gopsutil, and the files, commands and HTTP requests of the agent's node.
--
-- Not modelled: the listeners, TLS and signals of pkg/server/server.go and of cmd; the ticker of the
-- agent's status reports; pkg/logger and generated code, which are input and output or stubs.
-- Logs are left out.
pub mod Base
pub mod Data
pub mod Errors
pub mod Types
pub mod Store
pub mod Server
pub mod Agent
pub mod Password
pub mod Config
pub mod Tests
