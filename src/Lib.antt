-- ===== src/Lib.antt =====
-- A model of the Arxveil backend, the Go server that machines enroll in and report to. An agent on
-- a machine asks the gRPC service (server/internal/agentgrpc) to enroll it, and then keeps one
-- stream open to it, on which it authenticates, sends heartbeats and sends telemetry. The gRPC
-- service calls three services: enrollment, presence and telemetry (server/internal/enrollment,
-- presence, telemetry). These call one store each, which server/internal/repository/postgres
-- implements by SQL statements. server/cmd/arxveil-server puts the parts together, reads the
-- configuration, and serves HTTP requests for its health beside the gRPC service.
--
-- - Prelude, with its child modules, has the helpers: Boolean tests and equality on native numbers,
--   lists and options, and signed integers.
-- - Go has what the program uses of Go's standard library: texts as UTF-8 bytes and
--   `strings.TrimSpace` (Go.Text), errors with `errors.Is` (Go.Fault), actions on a state that
--   return a value or an error (Go.Exec), `base64.RawURLEncoding` (Go.Base64), SHA-256 (Go.Sha256),
--   float64 as bit patterns with their comparisons (Go.Float64), `io.ReadFull` (Go.Reader) and
--   times (Go.Time).
-- - Enrollment models server/internal/enrollment/service.go: `validateInput` in
--   Enrollment.Validation and `Service.Enroll` in Enrollment.Service. Presence models
--   server/internal/presence/service.go, and Telemetry models server/internal/telemetry/service.go.
--   A store is a record of actions on an abstract state, as the `Store` interfaces of the services
--   are.
-- - Postgres models server/internal/repository/postgres. Postgres.Schema has the tables of
--   server/migrations/000001_create_v1_machine_schema.up.sql, Postgres.Statements the SQL
--   statements with the constraints they meet, and EnrollmentStore, PresenceStore and
--   TelemetryStore the methods of the stores as sequences of requests. Postgres.History runs the
--   calls of all stores in any sequence.
-- - AgentGrpc models server/internal/agentgrpc/server.go: `Enroll` in AgentGrpc, `StreamUpdates`
--   with its loop, its switch and its deferred `closeSession` in AgentGrpc.Stream, and the
--   generated messages in AgentGrpc.Messages.
-- - Backend puts the services over the stores, as `newApplication` does.
-- - Application models `serve`, `shutdown` and what they call, of
--   server/cmd/arxveil-server/application.go, as a machine whose actions (the signal, the returns
--   of the servers, the deadline, the steps of `serve`) come in any order.
-- - Cli models tools/arxveil/main.go: the package `flag` in Cli.Flags, `findRepositoryRoot` in
--   Cli.Root, the commands in Cli.Commands, `run` and `main` in Cli.Run. A path is the list of its
--   elements, and what a file system answers is an argument.
-- - Postgres.History.Connections is an abstract specification: a table of the connections of the
--   machines, and what each call of a store may do to it.
-- - Backend.Sharing runs a stream while others call the stores: before each call of the stream
--   comes any sequence of calls of others.
-- - Config, Health and HttpApi model server/internal/config/config.go, health/handler.go and
--   httpapi/router.go. Program models main.go and `newApplication` of server/cmd/arxveil-server, on
--   a state of the operating system.
-- - Postgres.Schema.Integrity states the constraints of the tables, and Postgres.History.Intact is
--   about them in histories. Backend.Journey follows an agent from its enrollment to the end of its
--   stream, and Backend.Updates a telemetry update to its row.
-- - Tests runs the model on small data.
--
-- The state of a service is that of its store. The state of the stores is a World: the committed
-- tables, those that the open transaction sees, the number of the next event and the start of the
-- transaction. A request to the database can be refused, or be carried out with its answer lost;
-- the two are an argument of the model, which is any function of the event's number. An error of
-- this kind wraps none of the sentinel errors that the program looks for. The deadlines and
-- cancellations of contexts are such failures. A call of a store is one step of a history, because
-- its transaction locks the row of the one machine that it is about.
--
-- No loop of the model needs fuel that could run out: the loops over capabilities and over the
-- messages of a stream are recursions on lists. The messages of a stream are the list of what
-- `Recv` returns, and after the last one the agent has closed its side. A source of random bytes is
-- a finite list of chunks, and reading beyond it is an error. SHA-256 runs over as many blocks as
-- the padded text has, and the decimal digits of a number (in the texts of errors) are written on
-- as much fuel as the number plus one, which is never used up.
--
-- PostgreSQL, pgx, the UUID library, gRPC and the protobuf library are not in the repository. They
-- are parameters: Postgres.Server, the test `is_uuid` (uuid.Validate), the answer of
-- `SendAndClose`, and AgentGrpc.Messages.Timestamps. What the theorems assume of them are
-- hypotheses with names: ReadsUuids and ReadsTimes (what is written is read back), WritesUuids
-- (uuid.Validate accepts what the database writes), CountsCharacters (a text has at most as many
-- characters as bytes), NeverFaultsWith and ReadsBytes (the errors and the bytes of the random
-- reader), FindsStatic (gin finds the route of a path), CountsPools (what opens and closes a pool
-- of connections), and NoOutage where success is stated. Foreign says of a call of others that it
-- does not concern a machine's sessions.
--
-- Left out are log lines and the transport layer. Capabilities are kept as a list of texts, where
-- the program stores them as JSON. The constant-time comparison of hashes is equality. The texts
-- that gRPC delivers are valid UTF-8, so their encoding as JSON loses nothing. The packages pgxpool
-- and net, and gin, are parameters of the start of the program and of the HTTP server
-- (Program.Platform, HttpApi.Routing.Engine). Recovery from panics is left out.
pub mod Prelude
pub mod Go
pub mod Enrollment
pub mod Presence
pub mod Telemetry
pub mod Postgres
pub mod AgentGrpc
pub mod Backend
pub mod Application
pub mod Cli
pub mod Config
pub mod Health
pub mod HttpApi
pub mod Program
pub mod Tests
