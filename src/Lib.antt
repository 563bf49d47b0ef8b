-- ===== src/Lib.antt =====
-- A verification library for db2rest-bridge, a REST API over SQL databases.
--
-- The program. The routes of pkg/api/gen.go bind the parameters of a request and pass it through
-- the middlewares to a handler of pkg/server/ops.go, which finds the backend, decodes the
-- parameters with pkg/query/codec.go, calls an operation of the interface in pkg/crud/types.go, and
-- answers with its result, or with its error, which the mapper of pkg/server/server.go turns into a
-- status. The operations (pkg/crud/impl.go) check what the configuration (pkg/types/types.go)
-- allows, build SQL texts (pkg/crud/misc.go, and pkg/query/query.go for filters, orders and
-- paging), and run them through database/sql, the bulk ones inside a transaction. Clients in Go use
-- pkg/client: queries are built with pkg/query/builder.go and loaded batch by batch, over HTTP,
-- with the requests and responses of pkg/api/gen.go, or over the in-memory implementation, which
-- decides filters by predicates. The program (pkg/cmd/main.go) checks its configuration, makes the
-- server, runs it and closes it at the end.
--
-- The files.
--   Base            shared names; numbers, texts, lists, maps, `int` and `uint64`, `float32`, results
--   Types/Errors    pkg/types/types.go: ErrorWithStatus, WrapError and its kin; errors.AsType
--   Types/Config    pkg/types/types.go: BackendConfig, IdColumn
--   Types/Normalize pkg/types/types.go: CheckAndNormalize
--   Types/Ready, Types/Completed, Types/Complete
--                   proofs about it
--   Query/Value     the values of type interface{} in a filter, their %v text and what JSON keeps of
--                   them
--   Query/Filter    pkg/query/filter.go: the six filter structs and their String methods
--   Query/Wrapper   pkg/query/filter.go: FilterExpressionWrapper, AsFilterExpression
--   Query/Json      pkg/query/filter.go: their MarshalJSON methods
--   Query/Decode    pkg/query/codec.go: DecodeFilter, decodeExprFromMap and its helpers
--   Query/Order, Query/Page, Query/Data
--                   pkg/query/query.go and pkg/query/builder.go
--   Query/Params, Query/Encode
--                   pkg/query/codec.go: ToParams, FromParams, EncodeRequest
--   Query/RoundTrip, Query/Total, Query/Travel
--                   proofs about the wire form
--   Crud/Sql, Crud/Rows
--                   pkg/crud/misc.go, and remapValue and remapBody of pkg/crud/impl.go
--   Crud/Driver     what pkg/crud uses of database/sql, of the values of the driver and of the
--                   metadata cache
--   Crud/Ops, Crud/Writes, Crud/Batch
--                   pkg/crud/impl.go: the reading, the writing and the bulk operations
--   Crud/Statements, Crud/Gates, Crud/Transactions, Crud/Written, Crud/Atomic,
--   Crud/Stuck, Crud/Quiet, Crud/Reads
--                   proofs about them
--   Api/Types, Api/Wire
--                   pkg/api/gen.go: its types, and what it uses of net/url, net/http and encoding/json
--   Api/Requests, Api/Calls
--                   pkg/api/gen.go: the request of each operation, and Client with its methods
--   Api/Responses, Api/WithResponse
--                   pkg/api/gen.go: the parsed responses, and ClientWithResponses
--   Api/Wrapper, Api/Routes
--                   pkg/api/gen.go: ServerInterface and its wrapper, and HandlerWithOptions
--   Api/Mux         what the routes rely on of gorilla/mux, and the requests of net/url
--   Api/Operation   the operations with their arguments, seen from both ends
--   Api/Table, Api/Segments, Api/Sent, Api/Picked, Api/Bound, Api/Called, Api/Journey
--                   proofs about the way from the client to the server
--   Client/Setup    pkg/client/impl.go: the generic client, its options and New
--   Client/Http     pkg/client/ops.go
--   Client/Remote   the connection of that client with a server
--   Client/Received, Client/Answered, Client/Refines, Client/Creates, Client/Updates, Client/Bulk,
--   Client/Lists, Client/Queries, Client/Decoded, Client/Gathered
--                   proofs about it
--   Client/Predicate, Client/Paging
--                   pkg/client/filter.go
--   Client/InMemory pkg/client/inmemory.go
--   Client/LoadAll  pkg/client/misc.go: LoadAll, LoadAllInBatch
--   Client/Response pkg/client/misc.go: the helpers on properties and responses
--   Client/Replay   changes of the in-memory client, and of a map
--   Client/Meaning, Client/Slices, Client/Entries, Client/Searches, Client/Views, Client/Stored,
--   Client/Complete, Client/FirstPage
--                   proofs about them
--   Server/Reply    pkg/server/server.go: the error mapper
--   Server/Interface
--                   pkg/crud/types.go: Interface, filled by the operations of Crud
--   Server/Handlers, Server/Bulk
--                   pkg/server/ops.go and pkg/server/misc.go
--   Server/Rest     pkg/server/server.go: restServer as the ServerInterface
--   Server/Backends pkg/types/types.go, pkg/server/server.go, pkg/crud/types.go: opening and closing
--   Server/Metrics, Server/Run
--                   pkg/server/server.go: what is measured of a request, Run and Close
--   Server/Answers, Server/Ids, Server/Statuses, Server/Quiet, Server/Permitted, Server/Closing,
--   Server/Measured, Server/Hosted
--                   proofs about them
--   Program         pkg/cmd/main.go, and New of pkg/server/types.go
--   Program/Over, Program/Stops, Program/Opened, Program/Ends
--                   proofs about it
--   The modules Samples (also UrlSamples, RemoteSamples, ConnectionSample) and Tests hold concrete
--   environments and the theorems at concrete inputs.
--
-- State and errors. An operation on the database is a function from a state of the environment to a
-- result and the next state (Crud/Driver): a value, an error, or a panic. Pure code that may panic
-- returns an Option. The database, the cache, the conversions of values, the nodes of items and the
-- equality of values are records that the definitions take as arguments. Atomicity rests on the
-- record Transactional of Crud/Transactions: a transaction begins with no statement, a statement
-- that fails changes nothing, a rollback ends the transaction, and so does a commit, which applies
-- the statements only if it succeeds; queries change nothing, and a lookup in the cache no more
-- than its loader. The record Reads of Crud/Quiet has what is relied on of the reading calls. What
-- the client and the server rely on between them stands in the records ApiUrls of Api/Mux and
-- Connection and Network of Client/Remote: escaped segments resolve to themselves below the
-- server's path, parameters of a query that the styles can carry are bound to the values that were
-- styled, the router takes the first route that matches, the middlewares of the API pass a request
-- on, the client has no request editors, replies keep their status and value, and the server reads
-- the objects and bulk requests that the client sends.
--
-- Bounds and fuel. `int` and `uint64` have 64 bits, and conversions wrap around. A JSON text is
-- represented by the value that encoding/json reads from it. The decoding of filters recurses on fuel
-- taken from the nesting of the text. LoadAllInBatch loops on fuel that counts rounds; with a batch size
-- of at least one, one more than the number of rows is enough.
--
-- Not modelled: logging, what the packages for the middlewares, CORS, the meters and the serving of HTTP
-- do (pkg/server/server.go calls them), the expiry of the metadata cache (pkg/crud/impl.go), the
-- embedded API description and the error types that no code raises (pkg/api/gen.go), and the reading
-- of the command line and of the configuration file (pkg/cmd/main.go).
pub mod Base
pub mod Types
pub mod Query
pub mod Crud
pub mod Api
pub mod Client
pub mod Server
pub mod Program
