-- ===== src/Lib.antt =====
-- Beacon: a network monitor made of four Go services on two SQLite databases.
--
-- config-api serves the inventory of devices, two settings and the received traps over HTTP;
-- config-watcher discovers devices, checks them and keeps Telegraf's configuration in step;
-- trap-receiver stores SNMP traps; chat-api answers questions and limits requests. They meet only in
-- the tables, in telegraf.conf and in Telegraf's reload signal, which are the fields of `World`; chat-api
-- reaches the others over HTTP only.
--
-- Which file models what:
--   Prelude, Exec        shared names; results of fallible code, the state monad of the handlers, and
--                        the rules for invariants (Exec/Keeps) and postconditions (Exec/Ensures).
--   World                the tables of internal/store/schema.go, gosnmp's messages and the
--                        environment `Env`: SQLite failures, SNMP agents, nonces, files, docker. The
--                        answer to a call may depend on how many calls were made before it, so that
--                        every pattern of failures is an environment.
--   Process, Http        envOrDefault of the main.go files; withCORS, and what these files use of
--                        net/http's ServeMux.
--   Netutil              internal/netutil/rfc1918.go.
--   Crypto               internal/crypto/crypto.go; the block cipher, GCM and base64 are parameters.
--   Snmp                 internal/snmp/probe.go and routes.go; Snmp/TrapNames is trapnames.go.
--   Store                internal/store: Store and Store/Devices are devices.go and schema.go,
--                        Store/Settings is settings.go, Store/Traps is traps.go, Store/Opening the
--                        opening of schema.go. One statement is one atomic step.
--   ConfigApi            config-api/handlers: Devices, Settings and Traps are the handlers of the
--                        files of these names, from a decoded request to a response; Server is the
--                        routing of config-api/main.go, from an HTTP request to a reply.
--   Watcher              config-watcher: Discovery, Sweep, Health, Telegraf and Loop are discovery.go,
--                        discovery_sweep.go, healthcheck.go, telegraf_gen.go with reload.go, and main.go.
--   TrapReceiver         trap-receiver/handler.go; Server is main.go without the UDP listener.
--   ChatApi              RateLimit is chat-api/ratelimit.go, Schema is schema.go, Devices resolveDevice
--                        of devices.go, Services the clients of devices.go and influx.go, Sql the
--                        quoting of influx.go. Query, SubFilter, Rank, RankDevices, Declarations and
--                        Tools are tools.go, Gemini is gemini.go, Handler is handler.go, Server main.go.
--                        What the services, the model and float64 do is a parameter: Services, Model,
--                        Float.
--   System               the actions of all services on one world; System/Stable lists the writes that
--                        an invariant must survive, System/Sound fills it, System/Preservation and
--                        System/Invariant use it; System/FirstStart begins with new database files;
--                        System/Statements has the single statements; System/Inventory puts chat-api
--                        on top of config-api.
--   Examples             a cipher, an environment and tables on which the theorems are run.
--
-- A function that returns an error is an action with a `Result`; what it wrote before an error stays
-- written. A handler's early return is a failure with its response. Loops over slices are recursion
-- on lists; the watcher's endless loop is a list of the ticks it received. There is no fuel except in
-- the printing of numbers, where n + 1 rounds are enough for n since each divides by ten. Integers
-- of strconv are checked against 64 bits; ids and times are unbounded.
--
-- Not modelled: JSON encoding and decoding, net/http but for the choice of a route, logging, signals,
-- the ping whose outcome is only logged, the options of SQLite's connections, gosnmp's UDP listener, and
-- the prompt and the descriptions that the model is given.
-- The actions of System run one after another, each to its end: what concurrent handlers do between
-- each other's statements is not modelled. The relation Steps of System/Statements has the single
-- statements in any order, without the code of the handlers between them. The conversations of chat-api
-- take no time: the requests that one makes to the model count at the time its HTTP request arrived.
pub mod Prelude
pub mod Exec
pub mod Process
pub mod Http
pub mod Netutil
pub mod World
pub mod Crypto
pub mod Snmp
pub mod Store
pub mod ConfigApi
pub mod Watcher
pub mod TrapReceiver
pub mod ChatApi
pub mod System
pub mod Examples
