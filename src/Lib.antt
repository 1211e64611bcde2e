-- ===== src/Lib.antt =====
-- AlertLoop: the life of an event from the report to the delivered notice, and who may act on it.
--
-- AlertLoop (Go, under internal/) takes reports over HTTP, stores each as an event with one delivery
-- attempt for each channel that its routing table names, and a worker sends the attempts, retries
-- them, and redirects an alert that is lost to a fallback channel. Operators and monitoring sources
-- move an event through its states; muting it cancels the alerts that wait, closing it queues a
-- recovery notice behind each alert.
--
-- Which file models which part:
--   Domain/    internal/domain: Event, Severity, Action (ApplyAction, ParseAction,
--              CheckActionAllowed), Delivery, Errors, Truncate (TruncateRunes).
--   Store/     internal/storage/sql_store.go and claim.go, on the schema of
--              internal/storage/migrations. Schema is the two tables and their constraints, Session
--              what a store method runs in, Rows the conditions and rows of the SQL statements.
--              Events, Transition (TransitionEvent), Refresh (RefreshOpenEvent), Claim (ClaimDue),
--              MarkResult (with queueFallback) and Queue (GetDeliveryAttempt, Replay,
--              RequeueStuckSending) are the methods. Users is internal/storage/users.go,
--              Listing the two listings and their cursors, Retention the deletion of what is old,
--              Monitoring the counts, the signals and the worker's tick.
--   Routing/   internal/routing/routing.go: Matcher is the conditions of a rule, Router the rest.
--   Service/   internal/service: Input and Ingest are ingest.go (validateInput, IngestFor, refresh,
--              resolve), Transition is recovery.go and EventService.Apply of events.go.
--   Worker/    internal/delivery/worker.go: Options (defaults, NewWorker, backoff), Process
--              (process, deliver, fallbackFor, save, reap), Scheduler (fill, claim, finished).
--   Config/    internal/config/config.go: Types and Defaults (Default, the end of Load), Checks (single
--              settings), Table (the routing section), Validate (Validate, Fallbacks). Env is
--              internal/config/env.go: Reference (envRef), Node (keyName, joinPath, resolveScalar),
--              Substitute (substituteEnv), Keys (walkKeys, checkUnknownKeys, and checkNullSources of
--              config.go), Suggest (suggestKey, suggestNearby), Distance (editDistance).
--   Auth/      internal/auth/auth.go: Login (the rules for logins and passwords), Throttle.
--   Api/       internal/api: RateLimit is ratelimit.go, Proxies trustedproxy.go; Console and Access
--              are the checks of middleware.go and auth.go, Accounts the account handlers of auth.go;
--              Events, Filters and Status are handlers.go, Respond is respond.go.
--   Strings    what the code uses of Go's strings package, Base what all files share.
--
-- How the parts interact: Service.Ingest and Service.Transition call the store's methods, and Ingest
-- calls the router; Worker.Scheduler calls ClaimDue and Worker.Process the channels and MarkResult.
-- Every method of the store is a function of the monad M of Store/Session: it takes a Session and
-- gives a value or an error, and the session after it. A Session holds the tables and four streams:
-- which statements fail, what other processes commit before each transaction of this one, the UUIDs,
-- and the clock. Store/Users has its own, smaller one, Conn: the tables of accounts and sessions and
-- the failing statements. Api.Accounts calls it, Auth.Throttle and Api.RateLimit;
-- Api.Events calls Service.Ingest and Service.Transition, Api.Filters the listings; Api.Access calls it
-- for the session of a cookie; Config.Validate decides whether Routing.Router can be built. A theorem
-- holds for every such stream, so for every interleaving of transactions and every failing
-- statement, unless it states otherwise.
--
-- Representation. A UUID is a number of 128 bits, a time a count of nanoseconds with 0 for Go's zero
-- time: the text format of the columns has a fixed width and UTC, so its order is the order of the
-- numbers; in Store/Users an id is its text. A text is the list of its runes, and in Config/Env of its
-- bytes, where the dash in a message stands as one number. A link to another attempt is that attempt's id. A SQL
-- statement is a function of the tables; a write that breaks a primary key, a unique index or the
-- foreign key fails and changes nothing. A transaction is serial, as on SQLite's single connection
-- and under PostgreSQL's row locks, and a commit that fails has not committed. Go's nil pointer and
-- nil slice are `none`. Logging is left out, with the reads made only for it (logQueued, logRouting,
-- warnLifecycleOnNonIncident).
--
-- Code from elsewhere is a parameter: Send of a channel, the texts of errors and whether one is
-- context.Canceled, url.PathEscape, json.Valid, the length in bytes, and Unicode's lower-case
-- mapping beyond ASCII; for the settings and the API strconv.Atoi, utf8.ValidString, net/url's Parse, net's ParseIP, ParseCIDR,
-- SplitHostPort and IP.String, strings.EqualFold, crypto/sha256, the password hash, and the order in
-- which Go visits a map; for the listings the engine's lower and the texts of a time and an id; for the configuration file
-- os.LookupEnv, the decimal text of a number and yaml.v3's ShortTag. A parsed YAML file is a tree, in
-- which an alias stands for the node of its anchor; an anchor that leads back into itself is left
-- out, and one that stands in a key or in what a merge key brings in. A clash of primary keys is a
-- unique violation, as PostgreSQL reports it. What err.Error() says of a domain error is shown by
-- the error alone. The
-- float64 numbers of the rate limiter and of the backoff are natural numbers of a small power of two,
-- with the rounding of every operation (Base/Floats); the 53-bit draw of rand.Float64 is an argument.
--
-- Bounds. The loop of transition runs on the code's own three tries, and running out of them is the
-- error that the code returns. The loop of fill runs on fuel, one for each round: every round but
-- the last starts at least one attempt, so the worker's concurrency is enough of it. Following the
-- cursors of a listing runs on fuel, one for each page; one more than the rows is enough. A sweep of
-- old rows runs on fuel, one for each batch of 1000; more than the old rows is enough, since every
-- batch but the last is full. The loops of editDistance count their rounds.
--
-- Not modelled: the links that a listing of attempts shows; the worker's main loop, its timers and its shutdown; the
-- migrations' runner, the dialects and the DSN; the reading of the YAML file, and
-- the derivation of its known keys by reflection; the routes,
-- the probes, the view of the routing table and the logging of internal/api; the console
-- (internal/adminui, web), the channels (internal/channels), the assembly (internal/app, cmd). They are
-- I/O, or do not decide what happens to an event, an attempt or an account.
pub mod Base
pub mod Strings
pub mod Domain
pub mod Store
pub mod Routing
pub mod Service
pub mod Worker
pub mod Config
pub mod Auth
pub mod Api
