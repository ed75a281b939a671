-- ===== src/Lib.antt =====
-- The LNP resolver: a UDP server that looks up the routing number of a telephone number, or the
-- name of a caller, in one of several databases, each with its driver.
--
-- Parts of the program, and how they interact:
--   - the transport (src/transport/Transport.cpp) binds UDP sockets to the URLs of the
--     configuration, which parseAddr (src/libs/uri_parser.c) takes apart, and hands each datagram to
--     the resolver;
--   - the resolver (src/resolver/Resolver.cpp) parses the datagram, sends a provisional reply, finds
--     the driver by its database id, and sends the final reply at once, or once an HTTP response
--     comes; until then the request waits in a map under its id. Results are also counted, and those
--     of tagged requests are handed to a cache;
--   - the drivers (src/drivers) look in a CSV file, ask a SIP redirect server, or ask for an HTTP
--     transfer and read its JSON reply; each is built from a row of a database;
--   - the HTTP client (src/drivers/modules/AsyncHttpClient.cpp) runs the transfers on libcurl, queues
--     the responses and hands them to the resolver;
--   - the dispatcher (src/dispatcher) waits on epoll for the descriptors of the transport, the HTTP
--     client and its own terminator, and gives each event to its handler until the terminator's
--     comes; the cache and the SIP client have threads of their own (src/thread.h), and the requests
--     are counted (src/statistics);
--   - the program (src/yeti_lnp_resolver.cpp) reads its configuration (src/cfg_reader.cpp), starts
--     these parts and enters the dispatcher's loop, which a signal (src/sig.cpp) ends.
--
-- Files and what they model:
--   - Base: helpers that are not particular to the program. ByteStrings has C strings and
--     little-endian words as a packed struct lays them out on amd64, Assoc the operations of a
--     std::map, Decimal the printing and reading of numbers, and Streams std::getline and `split` of
--     src/drivers/SipDriver.cpp.
--   - Types: the structures that the parts exchange. A byte is a number; `RecvData.buffer` is the
--     receive buffer and `RecvData.length` the length of the datagram at its beginning.
--   - Resolver.Request, Resolver.Reply: `ResolverRequest::parse`, and the datagrams that the `send_`
--     functions compose. Resolver.State: the class `Resolver`. Its state is the map of drivers, the
--     map of waiting requests and a list of effects, one for each call to another component
--     (transport, statistics, cache, HTTP client) in the order of the calls; `on_data_received`,
--     `on_http_response_received` and `configure` are its three entry points. An exception is the
--     second component of `Ended`. The clock, the outcome of `AsyncHttpClient::make_request` and the
--     database rows are arguments; a driver is a record of the two virtual methods and three
--     getters.
--   - Resolver.Parsing, Replies, Log, Answers, Invariant, History, Collisions, Addressing, Delivery:
--     the theorems on it. History has the step relation of datagrams, responses and reloads.
--   - UriParser: `parseAddr`. The fixed arrays are the bytes written to them, and a write past the
--     end is the result `overflow`.
--   - Transport: `recv_data`, `send_data`, `handle_event` and `bind_endpoints`; Transport.Sockets:
--     `init_sock` and `shutdown_endpoints`, on a state of the kernel.
--   - Drivers.Json: src/drivers/JsonHelpers.h, JsonHelpers.cpp and src/libs/jsonxx.h, jsonxx.cpp,
--     over a record of the cJSON functions that the program calls. Drivers.Http:
--     src/drivers/HttpThinqDriver.cpp, HttpAlcazarDriver.cpp, HttpBulkvsDriver.cpp.
--     Drivers.CoureAnq: src/drivers/HttpCoureAnqDriver.cpp. Drivers.Cnam:
--     src/drivers/CnamHttpDriver.cpp. Drivers.Csv: src/drivers/modules/CsvClient.cpp and
--     src/drivers/MhashCsvDriver.cpp. Drivers.Sip: src/drivers/SipDriver.cpp and the reply's handler
--     of src/drivers/modules/SipClient.cpp, whose instance and wait are Drivers.SipClient;
--     Drivers.SipClient.Life has the instance's life as the calls of the library (re) that it makes.
--     Drivers.Select: `CDriverCfg::getID` of src/drivers/DriverConfig.cpp and `CDriver::instantiate`
--     of src/drivers/Driver.cpp. Drivers.Config: the getters of src/drivers/DriverConfig.cpp and the
--     constructors of all configurations and drivers; a column is read by a function of the row, and
--     an exception is the text of its `what()`.
--   - Cache: src/cache.cpp. A round of the thread's loop is one step, `sync` is two, and `on_stop` one;
--     what the database does in a round is an argument, and the entries taken from the queue are
--     kept with whether they were written.
--   - EventHandler: src/dispatcher/EventHandler.cpp. `epoll_ctl` is a function on a state of the
--     kernel, and a mask of events is its bits. Dispatcher: src/dispatcher/Dispatcher.cpp and
--     LoopTerminator.cpp; the results of `epoll_wait` are a list of rounds.
--   - HttpClient.Setup, Timer, Transfers, Sockets, State:
--     src/drivers/modules/AsyncHttpClient.cpp. What libcurl takes and
--     returns, the callbacks it makes and the messages it gives are arguments of `make_request` and
--     `handle_event`; the bytes of one write callback are a list. HttpClient.System: the client and
--     the resolver together, where `asked` of HttpClient.Asked is the HTTP request of a datagram.
--     HttpClient.Core, Failures, Drain, Tally, Listening, Notifier, Wakeup, Handles, Served, Resolving: the theorems.
--   - Threads: src/thread.h and src/thread.cpp. Statistics:
--     src/statistics/prometheus/prometheus_exporter.cpp; a family of counters that was freed is a
--     value of its own.
--     Statistics.Metering: the metrics of src/drivers/Driver.cpp, as they follow from the effects of
--     the resolver. Statistics.Ledger, Balance, Metrics, Conservation: the theorems on both.
--   - Configuration: src/cfg_reader.cpp, src/cfg.h and src/cfg.cpp. The library (confuse) is a record
--     of its functions, and a string that is made of a null pointer ends `load_cfg`.
--   - Server: the dispatcher's loop over the handlers of the HTTP client and of the transport, in the order
--     in which `main` makes their objects; what the system and libcurl give at an event is a function of
--     the number of events before it. Server.Refinement, Serving: the theorems.
--   - Process: `main` of src/yeti_lnp_resolver.cpp, composed of the models of the components, with what
--     the program finds as a record; Process.Signals: src/sig.cpp. Singleton: src/singleton.h.
--   - EasyClient: the synchronous HTTP client, src/drivers/modules/HttpClient.cpp, which no driver uses.
--   - Tests: the theorems at concrete inputs.
--
-- Bounds: a word of 32 bits is a number below 2 ^ 32, and the casts of the code to 8, 16 and 32 bits
-- are written as remainders. Fuel: that of `split_loop` is the length of the text and one more, as
-- each round takes at least one byte (Base.Streams.split_loop-enough); that of `drain` is the length
-- of the queue, which does not grow while it is emptied; `unlink_loop` takes any, and is given the
-- number of entries.
--
-- Not modelled: what happens within the main loop of the SIP library; logging and the formatting
-- of exceptions' texts, which are output; and the copies of cJSON and confuse, whose calls are
-- parameters. Mutexes are no state of their own but in Singleton and in Process.Signals: elsewhere a
-- call that holds one is one step. The lock on the map of drivers is not held between steps, and
-- Process.Signals has what a signal does within one, with the program's own mutexes only: what malloc
-- and syslog lock in a handler is not modelled. A handler of the resolver reads the clock once, so that
-- the time of a request that ends in the same call is 0. `recv_data` tells of the byte that it writes
-- behind a full buffer, which has no further effect; `atoi` gives any number, where C leaves one that
-- an `int` cannot hold undefined; and the text for `inet_addr` stands for the address.
pub mod Base
pub mod Types
pub mod Resolver
pub mod UriParser
pub mod Transport
pub mod Drivers
pub mod Cache
pub mod EventHandler
pub mod Dispatcher
pub mod HttpClient
pub mod Threads
pub mod Statistics
pub mod Configuration
pub mod EasyClient
pub mod Process
pub mod Server
pub mod Singleton
pub mod Tests
