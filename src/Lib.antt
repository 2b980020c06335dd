-- ===== src/Lib.antt =====
-- ghcp-pool-go is a gateway that serves the APIs of OpenAI, Anthropic and Gemini from a pool of
-- GitHub Copilot accounts. A request is authenticated, its model resolved and routed: the router
-- takes the route that matches the model best, keeps the accounts that may serve it by their
-- configuration and by the registry of models, picks one by the route's strategy, and asks the pool
-- for a slot, which checks the account's state, the limit of the whole pool and the account's own.
-- Afterwards the account is released and told of the success or the failure.
--
-- Parts, and the files that model them (paths from the root of the repository):
--   Bucket     internal/gateway/pool.go TokenBucket: Available, Consume, RetryAfter
--   Account    internal/gateway/pool.go Account: TryAcquire, Release, RecordSuccess, RecordFailure,
--              RecentStats; Account/Window is trimRecentRequestsLocked with its binary search
--   Pool       internal/gateway/pool.go PoolManager: AddAccount, RemoveAccount, TryAcquire and so on
--   Config     internal/gateway/config.go: the records that the others read; Config/Models the
--              aliases, display names and overrides of models, also of model_map.go
--   Errors     internal/gateway/errors.go, and the tests on error texts of pool.go
--   Registry   internal/gateway/registry.go and endpoints.go: which account serves which model
--   Router     internal/gateway/routing.go: Select and SelectExcluding; Router/Routes holds
--              matchingRoute and CandidateAccounts, Router/Pick holds pick
--   Glob       internal/gateway/util.go globMatch, with the path.Match that it calls
--   Cache      internal/gateway/cache.go: MemoryCache (Get, Set, Clear) and CacheLayer
--   Usage      internal/gateway/types.go and usage.go: Usage, Metrics, Meter.Observe
--   Sink       internal/gateway/usage_sink.go: Emit, Close and the worker, as a step relation
--   Auth       internal/gateway/auth.go: NewAuthenticator, Authenticate and a principal's rights
--   Responses  internal/gateway/response_store.go: Store, Get, Delete, Update
--   Values     internal/gateway/util.go: lists of texts, charChunks
--   Json       values of JSON, and what internal/gateway/util.go, openai.go, backend.go and
--              copilot_http.go read from them: coerceText, normalizeTools, intFromAny, optionValue;
--              Json/Print and Json/Parse are the part of encoding/json that the others call
--   Results    internal/gateway/types.go: ChatResult, StreamItem, NeutralMessage
--   Constraints  applyStopSequences and truncateApproxTokens of internal/gateway/copilot_http.go,
--              approxTokens of backend.go; Constraints/Stream applyStreamOutputConstraints of
--              copilot_sdk_stream.go
--   Structured internal/gateway/structured_output.go: the format of a request, the reserved tool, the
--              payload (Extract), its check (Check), the cache of schemas (Schemas); Apply and Repair
--              are applySDKOutputConstraints, chatSDKStructured and retryTransientChat of
--              copilot_http.go
--   Sdk        internal/gateway/copilot_sdk_stream.go: the reducer of the events of a session, and
--              the list of tool calls of copilot_http.go
--   Gateway    internal/gateway/gateway.go: CompleteResult and CreateEmbeddings; Gateway/Prepare is
--              Prepare and PrepareWithWait, Gateway/Streams StreamChat, Gateway/Replay
--              StreamAnthropic with anthropicReplayEvents, Gateway/Responses StreamResponses
--   Debug      internal/gateway/debug.go: the recorder of requests, redaction and shortening
--   Login      internal/gateway/login.go: Start, Poll, SetToken, Logout
--   Base       shared types, Go's strings, maps and sort; Tests holds the examples
--
-- State is passed explicitly: a method is a function from the record of its receiver to the new one
-- beside its result. A mutex of the source makes each method one step. A pointer to an account is
-- the account's id, under which the pool holds it.
--
-- Bounds. The clock is an argument, in nanoseconds since Go's zero time, and a method reads it
-- once, but for PrepareWithWait, which reads it anew for each test of its deadline; a duration that
-- would be negative is 0. The source counts tokens, penalties and weights in float64; here they are
-- exact: a token is 60 * 10^9 units, a penalty is in nanoseconds, a quotient is compared across the
-- denominators. RetryAfter alone computes in float64, as Base/Floats rounds. Counters are
-- unbounded, but for the counter of round_robin, which wraps at 2^64, and the rank of a route,
-- which wraps in an int of 64 bits, as in the source. Text is a list of code points, folded to
-- lower case in the ASCII range. A map is an association list, and a loop over a map runs in the
-- order of the list. sort.Slice is a stable insertion sort. Fuel: the loop of Select has the number
-- of candidates as its fuel, which suffices since each round drops one; the binary search has the
-- length of the slice, which halves each round; CompleteResult needs one more than the plan has
-- candidates, since each failure excludes one; charChunks has the length of the text, path.Match
-- that of the pattern; PrepareWithWait has a number of rounds, and returns in the first whose test
-- of the deadline comes after it; the parser of JSON has more than twice the length of its input.
--
-- Outside: the backends of the accounts, their home directories and Key Vault are parameters
-- (Pool.Services, the listing of models in Registry, Gateway.Outside). So are SQLite, the hash of a
-- cache key, the copies through JSON in Responses, the calls of the Copilot SDK and their timers,
-- the compiler of JSON schemas and the list of the least recently used ones (a record of operations
-- and laws), what a client takes of a stream before it goes away, the items of a backend's stream
-- and the login server. A chunk of a stream stands for the JSON that is sent. A number of JSON is
-- read where it is whole.
--
-- Not modelled: the HTTP server, the shapes of the protocols in JSON, EstimateInputTokens, the
-- sessions of the SDK and the web tools, and attachments.
pub mod Base
pub mod Glob
pub mod Bucket
pub mod Config
pub mod Errors
pub mod Account
pub mod Pool
pub mod Registry
pub mod Router
pub mod Sink
pub mod Usage
pub mod Cache
pub mod Values
pub mod Auth
pub mod Responses
pub mod Gateway
pub mod Json
pub mod Results
pub mod Constraints
pub mod Structured
pub mod Sdk
pub mod Debug
pub mod Login
pub mod Tests
