-- ===== src/Lib.antt =====
-- anicetus detects a thundering herd (many like requests at once) and lets one request of it
-- through to the backend while the others wait. This library models the program over states that
-- are passed on explicitly, and proves what its parts promise and what they do together.
--
-- How the parts fit: a request has a fingerprint; `Anicetus.Evaluate` (anicetus.go) asks a
-- detector whether the fingerprint is in cooldown and whether it is in a herd, and in a herd lets
-- the gatekeeper (gatekeeper.go) answer from a storage of flags. The detector in memory
-- (detector/tokenbucket_inmemory.go) has a rate limiter (internal/rate/rate.go) for each
-- fingerprint and a map of the cooldowns, both in maps whose entries expire (internal/mapexp).
-- The server (internal/http, cmd/anicetus-http) puts these together.
--
-- Files. Prelude: shared names, lists, Go maps as functions (Tables), signed and 64-bit integers
-- (Int). Errors: Go's `error` with `%w`, and the result of a call. Status: `Status` of
-- anicetus.go. Gatekeeper: the interface GatekeeperStorage and `analyze`, `Store`, `Remove` of
-- gatekeeper.go; its child Contract has the contract of a storage, Interleaving the steps of
-- `analyze` for many goroutines, Morphism when one storage is a view of another. Storage:
-- storage/inmemory.go; its children Redis, RedisLaws and RedisViews are about
-- storage/redigo/redis.go, over the client library as a parameter, Options about
-- storage/options.go, and Views makes each storage that does not fail a view of this one.
-- Anicetus: the interface Detector, `Evaluate`, `RequestDone` and `Cleanup` of anicetus.go; its
-- children prove what an answer means (Verdicts), who leads a herd (Leader), what ends a herd
-- (Cycle), where errors come from (Failures), and that a view of the storage is enough
-- (Storages). Mapexp: internal/mapexp, with Queue for expiration_queue.go and Map for map.go;
-- Entries, Calls, Lifetime, Purging, Tidy and Unread prove how long entries live; Sections has
-- the critical sections of the methods as a step relation, and Interleaved what holds in every
-- interleaving of them; Stopping is Stop, with the channel that the loop of start looks at. Rate:
-- internal/rate/rate.go from `Every` to `Allow`, over the interface Float of `float64`; Burst,
-- Penalty and Detection prove which requests are allowed; Fixed is a decimal arithmetic that
-- meets the laws of Float. Detector: detector/options.go (Options) and
-- detector/tokenbucket_inmemory.go (InMemory); Periods, Cooldowns and Herds prove what it does,
-- and Timed makes it a Detector over a clock. Detector.Redis:
-- detector/redigo/tokenbucket_redis.go, with the commands of the server and the conversions of
-- the client library as parameters (Connection), the Lua script (Script) and the methods
-- (Client); Documented says what Redis documents of the commands, Buckets and Asking what one
-- request does, Herds, Penalty, Cooling, Keys and Done prove what follows. Detector.Shared: the
-- calls of IsThunderingHerd for many goroutines, with pointers to the limiters; View and Alone
-- relate it to InMemory, Progress proves that calls end, Race what calls side by side do.
-- Service: the parts in memory together, as internal/http/resources.go wires them; Resources is
-- NewResources, Ticking adds the background ticks of the maps to the calls, Cycle, Herd and
-- Starting prove what the service does, and Concurrent has the parts of Evaluate for many
-- goroutines, with Whole for a call that nothing interrupts and Unseen and Leaders for calls side
-- by side; Handlers has the whole handler of internal/http/handlers.go for many goroutines, with
-- Covered for the invariant of all interleavings, Ending for the rank that falls with each step
-- of a handler, Released for what is left when the handlers have ended, and Turns, Leader, Coded
-- and Whole for a handler that nothing interrupts. Message: what the code uses of net/http and
-- net/url (requests, headers by their canonical names, bodies as readers). Fingerprint:
-- fingerprint/http_request.go; Fields proves the bit mask of the fields, Agreement which requests
-- share a fingerprint, Reading what taking a fingerprint does to the request, Collisions what the
-- hash does not tell apart, Sets that the order of the fields does not matter, and Masks that the
-- masks are the sets of fields. Parsing is ParseHTTPRequestField. Envs: internal/http/config.go,
-- and multierr of cmd/anicetus-http/main.go; Names has the loop over the headers and cookies,
-- Faults proves which errors are reported. Server: internal/http/request.go and
-- internal/http/handlers.go, with Responses for the writer and Options for the options of
-- forwardRequest; Forwarding, Leading and Stability split their ways, Answers counts the calls of
-- the backend, Sending and Calling prove what it gets, Codes and Verdicts prove which code a
-- client gets and Relaying what else of a response, Leaders and Stranded prove what a leader
-- leaves behind. Command: cmd/anicetus-http/main.go, from the environment to the exit code;
-- Endings proves how the process ends; a goroutine in which NewTicker panics ends it while main
-- goes on, so that main takes the number of steps it gets to before that. Example:
-- example/backend/main.go, the handler of the demonstration's backend as steps of many
-- goroutines, with the times at which its timers and its context are due, and its main; Busy
-- proves when it is too slow. Modules whose names end in Tests hold concrete runs.
--
-- State. A record stands for a struct, a function takes the record that a method changes and
-- returns the next one. A Go map and a `sync.Map` are functions from keys to optional values
-- (`items` of Map, `flags` of InMemory). An error is a value of Result or of an option beside a
-- Status. The state of Anicetus is the state of its detector beside that of its storage. A method
-- that a mutex guards is one step; the two critical sections of a method of map.go are one step
-- in Map, and steps of their own in Sections. A pointer to a limiter is modelled in InMemory by
-- writing the changed limiter back into the map, and as a pointer in Shared. The goroutine of
-- `Map.start` is the operation `tick`, one round of its loop, which a history may call at any
-- time.
--
-- Time and numbers. A time is a number of nanoseconds since Go's zero time; each `time.Now()` is
-- an argument of its operation, and in Timed a reading of a clock that moves on by unknown
-- delays. Durations are signed integers; `Sub` saturates as in the standard library and the
-- product of interval and burst wraps as an `int64`. `float64` is the interface Float64 with the
-- laws IsFloat, which are stated so that IEEE 754 meets them (monotone rounding, exact integers
-- below 2 ^ 53). No definition takes fuel: a loop recurs on its list or, in Names of Envs, on the
-- number of its turns, which is the length of the slice.
--
-- Not modelled: logging; the parts of internal/rate/rate.go that are golang.org/x/time/rate
-- unchanged and that nothing here calls (`Reserve`, `Wait`, `Cancel`, `SetLimit`, `SetBurst`,
-- `Tokens`).
--
-- HTTP. A text is a list of bytes. The SHA-256 digest with its hexadecimal text is a parameter of
-- the fingerprint, and so are the parsers of the configuration, and the HTTP client of the
-- server: the error with which it refuses a request, and its call, which also says what is left
-- of the body of the request. What the handler changes is the record Exchange: the request, which
-- forwarding changes as the code shares its header and URL, the writer, the service and the
-- backend. A fingerprint is the function `print` of the request as it is at the time of the call.
pub mod Prelude
pub mod Mapexp
pub mod Errors
pub mod Status
pub mod Gatekeeper
pub mod Storage
pub mod Anicetus
pub mod Rate
pub mod Detector
pub mod Service
pub mod Message
pub mod Fingerprint
pub mod Server
pub mod Envs
pub mod Command
pub mod Example
