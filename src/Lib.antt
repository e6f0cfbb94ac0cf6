-- ===== src/Lib.antt =====
-- OpenGSLB is a DNS server that balances load between sites by health, geography and latency. This
-- library models the parts that decide which server a query is answered with.
--
-- The parts and how they interact:
--
--   pkg/health: a check loop for every server passes each result to the server's tracker, which
--     changes its status after enough results of one kind in a row. Health is the tracker
--     (status.go: RecordResult is record_result), Health.Manager the manager of the trackers
--     (manager.go: AddServer is add_server, Reconfigure is reconfigure, and so on).
--   pkg/overwatch: the registry of the backends that agents, the configuration and the API register,
--     each with the status that its authorities give it. Overwatch.Registry.State has the data and
--     computeEffectiveStatus (effective_status_at), Changes the methods for one backend, Sweeps those
--     that go through all, Queries those that read, Run the methods as operations in any order.
--     Overwatch.LatencyTable is what agents report of clients' latencies (latency_table.go), which the
--     learned latency router reads through the adapter of cmd/opengslb/app.go; Overwatch.AgentAuth is
--     the authentication of agents by pinned certificates (agent_auth.go).
--   pkg/routing: the routers. RoundRobin, Weighted, Latency, Learned and Geo are an algorithm each, as
--     in the file of that name; Router has the interface over them and the factory.
--   pkg/dns: Dns.Domains is the map of domains (registry.go), Dns.Handler the answer to a query
--     (handler.go). The handler takes a domain's healthy servers, asks the domain's router for one of
--     them and answers with its address. Dns.Serving has queries between changes of the map.
--     Dns.Build makes the map from a configuration (BuildRegistry), and Dns.Reload puts a new one in the
--     place of the old (reloadDNSRegistry of cmd/opengslb/app.go).
--   pkg/config: Config.Includes loads a file and what it includes (includes.go), Config.Defaults puts
--     the defaults in (config.go), Config.Validator checks the result (validator.go), and
--     Config.Startup goes on to the map of domains that is built from it.
--   pkg/geo: Geo.Custom has the mappings of networks to regions (custom.go), and Geo.Lookup the order
--     in which a resolver asks them, the database and its default (lookup.go).
--   cmd/opengslb/server_provider.go: Provider is the REST API's view of the registry: identifiers of
--     servers, and creating, updating and deleting a server by them.
--   pkg/agent: Agent.Predictor is the signal with which an agent takes itself out of rotation
--     (predictor.go); the registry takes it up in UpdateDraining. Agent.Latency collects
--     the round-trip times that an agent reports (latency/aggregator.go).
--
-- How the code corresponds to definitions: names are the code's in lower case with underscores. A struct
-- is a record, a map an association list (Common.Table) whose order stands for the order in which
-- `range` visits the map, a pointer in a map an entry that is written back. A method is a function
-- from the state to the new state and its result; a mutex makes it one step, and goroutines are the
-- order of the steps. The clock, the random source, the outcome of a write to the store, and the
-- result of a health check are arguments; a method reads the clock once, where checkStaleBackends reads
-- it again for each status. A query is one step, though the handler reads the servers of its entry after
-- the lookup has released the lock. The flag return_last_healthy is a field of the configuration
-- (Config.Types), and no definition reads it, as no code does. `error` is an option or a data type of
-- the component.
--
-- Numbers: `int`, `uint64` and `time.Duration` are natural numbers below 2 ^ 64 with their wrap-around
-- written out (Common.Words); a time is a count of nanoseconds from the zero time. `float64` is a
-- parameter with the operations that the code applies to it (Overwatch.Registry.State.Floats), and so
-- are the smoothing of round-trip times (Agent.Latency.Smoothing), `net.ParseIP`, `IP.String` and
-- `IP.To4` (Dns.Net.Net), `net/netip` (Common.Netip), certificates and hashes
-- (Overwatch.AgentAuth.Crypto), the file system and YAML (Config.Includes.Files), the libraries that
-- the validator calls (Config.Validator.Errors.Libraries), and the trie of networks
-- (Geo.Custom.Networks). The names of routing algorithms, check types and log levels, which the code
-- lowers, are taken to be ASCII. Fuel is in two places: in printing a number (Common.Decimal) it is one
-- more than the number, and each digit divides by ten; in loading a configuration it is 12, and each
-- level of includes is a level of depth, of which the code allows 10.
--
-- Not modelled: logging, metrics and the HTTP surfaces (pkg/api, pkg/overwatch/api.go), the probes of
-- pkg/health, the walk over directories and the YAML decoding of pkg/config, the GeoIP database and
-- the client subnet option (pkg/geo), DNSSEC (pkg/dnssec), the
-- gossip transport (pkg/gossip), the database (pkg/store), the rest of the agents
-- (pkg/agent), and the start of the process (cmd/opengslb) but for
-- the parts named above. These are input and output, or
-- wrap third-party code.
pub mod Common
pub mod Health
pub mod Routing
pub mod Overwatch
pub mod Dns
pub mod Config
pub mod Geo
pub mod Provider
pub mod Agent
