-- ===== src/Lib.antt =====
-- A centralized event logging service: producers submit events, the service redacts, validates and
-- normalizes them, and stores them; monitors follow what is stored.
--
-- The parts and how they interact. An event (internal/contracts/event.go) is redacted
-- (internal/security/redaction.go), validated, normalized and bounded by the event processor
-- (internal/domain/services/event_processor.go), and kept by a store, in memory
-- (internal/adapters/storage/memory.go) or in files (json_file_storage.go), behind the interface of
-- internal/ports/event_store.go. The dispatcher (internal/adapters/websocket/dispatcher.go) queues the
-- submitted events, lets its workers process and store them, and has what is stored published to the
-- monitors (publisher.go). The handler (handler.go) decides which requests become connections
-- (connection.go), which speak the protocol of internal/contracts/message.go. cmd/server/main.go loads
-- the configuration, opens the store of files, makes the handler, and serves its routes and the health
-- handlers behind the limiter of internal/security/rate_limit.go. client.go is an HTTP client.
--
-- The files:
--   Prelude, Result, GoMap   tests, lists, pairs (value, error), maps with string keys
--   Text, Text/Clean         strings, and the loop that sanitize and sanitizeText share
--   Context, Clock           what is used of the packages context and time
--   Contracts                Event, EventFilter, and map[string]any as the tree Value
--   Security/Pattern         sensitiveValue and sensitiveKey, as matchers
--   Security/Redaction       sanitize, redactValue, redactMap, RedactEvent
--   Security/RateLimit       FixedWindowLimiter, ClientKey, Middleware, ConnectionLimiter; Burst: the
--                            calls of a key; Rotation: a client with many keys
--   EventProcessor           ProcessEvent, validateEvent, MapEventLevel, generateEventID
--   EventProcessor/Metadata  sanitizeMap, sanitizeValue, validateMetadataSize
--   Text/Decimal             the verbs %d and %02d of package fmt
--   Storage                  the abstract event log, matchesFilter, MemoryEventStore;
--                            Memory/Sharing: cloneMap on maps and slices that are references,
--                            and what its callers can change afterwards
--   Storage/Week             startOfWeek, and the date in a file's name
--   Storage/Codec            what is relied on of encoding/json, as laws of a parameter
--   Storage/Lines            readEvents: the lines of a file, and a record appended to them
--   Storage/Files            the directory: eventFiles, names, the stable sort of Query
--   Storage/JsonFile         JSONFileStorage; Placement: fileForWrite ends; Refines: it is the event
--                            log; Durable: what is stored is found; Sizes: the sizes of files;
--                            Spoilt, Torn, Retried: failing writes; Overlong: a line that is too
--                            long; Expired: Rotate; Written: what is stored stays written
--   Websocket/Filter         matchesFilter of the publisher
--   Websocket/Handler        NewHandler, ServeHTTP, authenticate, originAllowed, isLocalhost,
--                            writeHTTPError; Admission, Local: who gets a connection
--   Websocket/Message        the messages and codes of internal/contracts/message.go
--   Websocket/Protocol       decodeMessage (protocol.go), protocolError, publicErrorMessage (handler.go)
--   Websocket/Greeting       performHandshake, newConnectionID (connection.go)
--   Websocket/Replies        the replies of handleEvent (connection.go)
--   Websocket/Connection     connection.go: the loops of producers and monitors, the queue and
--                            writePump; Answered: what a producer gets; Running: every state, and
--                            what holds of all that is sent;
--                            Handshake: when a connection is ready; Drained: writePump
--   Websocket/Publisher      Subscribe, Publish, Close; Served and Delivery: what monitors get;
--                            Interleaved: publications that go on at the same time; Alone: one
--                            that goes on alone, and Publish in one step
--   Websocket/Worker         eventJob, EventResult, and the points of the loop of a worker
--   Websocket/Counts         where jobs are, by number
--   Websocket/Dispatcher     NewDispatcher, Submit, Shutdown, worker; Steps, Sound, Acknowledged: jobs
--                            are kept; Holding, Stored, Runs, Told, InMemory, InFiles: stored
--                            before told; Ends: after a stop
--   Config                   config.go and viper_config.go: the settings and their defaults
--   Server                   cmd/server/main.go: the health handlers; Boot: what main makes before it
--                            listens; Routes: the handlers of a request; Started, Guard, Connected:
--                            what a started server keeps, lets in and tells
--   Client                   client.go: Send
--   Tests                    runs at concrete inputs
--
-- How state and operations correspond. A method under a mutex is a function from a state to a reply
-- and a state. A pair (value, error) is a Result. A context is what its Err() returns. A string is
-- the list of what range visits: code points below 0x110000, and 0x110000 + b for a byte b that
-- belongs to no valid sequence. A map is the list of its entries in the order in which range visits
-- them; Go fixes no order, and the statements cover every list. The goroutines of the dispatcher
-- are a list of workers, each at a point of its loop, and a run is any sequence of steps of
-- producers, workers, monitors and the server; a channel is its buffer and whether it is closed. A
-- publication of a worker is one step there; Websocket/Publisher/Interleaved takes its loop apart, as
-- the code holds the mutex for reading only. The calls of a limiter are in the order in which they take
-- its mutex, each with the time that it has read before. A panic is `none`. Where select may take either of two cases, an argument tells which. An int that
-- the code clamps from below is a natural number. A time is a number of nanoseconds and an offset
-- from UTC.
--
-- Bounds and fuel. Loops recur on the lists that they visit. decimal has fuel 19, the digits of an
-- int64. The limits of the processor are those of its constants. The loop of fileForWrite has as much
-- fuel as the directory has files, and one more, which is enough in a directory of fewer than 10 ^ 19.
-- clone_map has as fuel how deep maps nest, for which the index of the map and one is enough where there
-- is no cycle.
--
-- Not modelled: the table behind unicode.ToLower, which is an argument with its documented
-- behaviour on ASCII letters; net.SplitHostPort, crypto/rand and the clock, whose results are
-- arguments; the sharing of memory by the other components, which treat a map as a tree; the file
-- system beneath the directory of the store, of which the calls that fail are arguments, and directories whose name has the meaning of a
-- pattern; encoding/json, a parameter, for events with laws; the WebSocket library, of which Upgrade,
-- reads and writes are arguments; viper, a parameter with laws; the router and the package cors, a
-- parameter with laws; http.MaxBytesHandler, since no handler reads a body; net/http, which is a
-- parameter of the client; listening, signals and server.Shutdown; the watching of the configuration;
-- logging; and internal/contracts/models.go, whose structs nothing uses.
pub mod Prelude
pub mod Text
pub mod GoMap
pub mod Context
pub mod Config
pub mod Client
pub mod Clock
pub mod Contracts
pub mod Security
pub mod Result
pub mod EventProcessor
pub mod Storage
pub mod Websocket
pub mod Server
pub mod Tests
