-- ===== src/Lib.antt =====
-- node-gateway: a gateway that routes JSON-RPC requests to Ethereum nodes.
--
-- A request comes to the handler of its chain (internal/server), which asks the router
-- (internal/route). The router asks a routing strategy for an upstream: the node filters read the
-- checks of each upstream (internal/checks) and the block heights (internal/metadata), and a round
-- robin chooses among the upstreams of the lowest priority that is left. The request executor
-- sends the request, past the cache (internal/cache), and the result is recorded with the checks,
-- whose circuit breakers ban an upstream that fails or is slow. The configuration
-- (internal/config) says which upstreams, groups, rates and thresholds there are.
--
-- Files and what they model:
-- - Base and its children: names that all share; integers, maps, lists and texts of Go.
-- - Config: the types of internal/config/config.go. Config/Ttl: GetTTLForMethod, GetMinimumTTL.
--   Config/Yaml: the YAML hooks, parseConfig and LoadConfig, for what the YAML library reads.
--   Config/Pointers, Config/Defaults: setDefaults, over a heap of the configurations that are
--   shared. Config/Validation: Validate and all that it calls, with its specification in
--   Validation/Spec.
-- - Jsonrpc, Jsonrpc/Codec: internal/jsonrpc/jsonrpc.go. Errors: the errors that the program tells
--   apart, and their texts.
-- - Metadata/Store: internal/metadata/store.go, as a history of the operations on its channel.
--   Metadata/Parser: the request metadata.
-- - Checks/Breaker: internal/checks/common.go. Checks/Patterns, Checks/ErrorCheck: error.go.
--   Checks/LatencyCheck: latency.go. Checks/PeerCheck: peers.go. Checks/BlockHeight:
--   blockheight.go. Checks/Client: check.go. Checks/Manager: manager.go, whose map of statuses is
--   the record HealthCheckManager; Manager/Rounds and Manager/Orders: what its goroutines do, in
--   any order.
-- - Route/World: the state that routing reads and changes: the manager, the store and the counter
--   of the round robin. Route/Filter: node_filter.go; Route/Filtering: filtering_strategy.go;
--   Route/AlwaysRoute: always_route_filtering_strategy.go; Route/RoundRobin: routing_strategy.go;
--   Route/Executor: request_executor.go; Route/Router: router.go and the wiring of
--   internal/server/object_graph.go. Route/Upstream: how request_executor.go builds a request,
--   with Upstream/Sending for the whole of routeToConfig with the requests that it sends. Client:
--   internal/client/ethereum_client.go.
-- - Cache, Cache/Key: internal/cache/rpc_cache.go. Cache/Sharing: the one cache of all chains,
--   with the goroutines that write, as a step relation; Cache/Local: the TTL of the local copies.
--   Server/Wiring: internal/server/object_graph.go, with the start of all routers.
--   Server/CleanPath: how the mux cleans a path. Server: internal/server/rpc_handler.go,
--   health_check_handler.go, web_server.go and internal/route/router_collection.go.
-- - Main: cmd/gateway/main.go: the logger, the start, and a process to its end, as a list of
--   events, each of which is the next thing that one goroutine does. Main/Schedule, Main/Steps:
--   schedules of them.
-- - Examples: tests at concrete values.
--
-- How the code is modelled. A function that writes takes the state and returns it; `none` is a
-- panic of the process. A Go map is an association list that is read in the order of the list, so
-- that a statement about every list speaks of every order of iteration. A uint64 is a native
-- number with its wrap-around, an int a signed one without overflow. A float64 is a number n of
-- the form n / 2 ^ 1074 or one of the special values; the product of a rate with 100 is rounded to
-- 53 bits, for which 2200 steps count the bits of every product. A decimal text has at most 20
-- digits, which every 64-bit number fits. A time is a number of nanoseconds that is passed in.
--
-- What goroutines do at once is a list of steps in any order: the operations of the store, the
-- requests and writes of the cache, the steps of the round robin, the events of the process.
--
-- What is not modelled: metrics and logs, which are only written; the calls of the client of
-- go-ethereum, whose replies are inputs; HandleRequest of the cache, which nothing but tests
-- calls; Redis and its local copies (what a read gives is an input, a write is a result;
-- Cache/Sharing has them as the interface Backend); net/http and go-ethereum (their replies are
-- inputs, and the headers that go-ethereum itself gives a client are left out); encoding/json (the
-- record Codec); failsafe-go's breaker (the interface CircuitBreaker, of which some theorems need
-- that a closed breaker stays closed, ClosesForGood); yaml.v3 and net/url (what they read is an
-- input); patterns of http.ServeMux other than plain paths, and paths that differ from their
-- escaped form; the locks, which make the calls of a check single steps.
pub mod Base
pub mod Jsonrpc
pub mod Errors
pub mod Config
pub mod Cache
pub mod Metadata
pub mod Checks
pub mod Route
pub mod Client
pub mod Server
pub mod Main
mod Examples
