-- ===== src/Lib.antt =====
-- llm-pico: the rate limiter, the router and the dispatch of a request
--
-- A request comes to handle in internal/server/server.go, which checks its key, its signature and its
-- model, and from there to Dispatch in internal/proxy/proxy.go, which admits it, selects the slots of
-- its model and tries them in order. A try asks the router (internal/router/router.go) for a
-- credential of the slot, reserves the cost with the limiter (internal/ratelimit/ratelimit.go), calls
-- the provider, tells the router the outcome, and settles or refunds the reservation; that of a
-- stream is settled when the copy of it to the client ends. The limiter and the router are state that
-- requests share.
--
-- Common: the names that the modules share, bytes and 64-bit integers; no file of the program.
-- Config: internal/config/config.go, the model entries and the lookups on them.
--   Yaml, Providers, Models, Expand, Load: internal/config/load.go, from the contents of the files to
--     the configuration: YAML accessors, provider.yaml, the fields of a model, its expansion over
--     providers, and Load.
--   Load.Sound, Load.Entries, Load.Fields: proofs on what loads and on the order of fields.
--   Load.Start, Load.Serves: the router that is built from a loaded configuration.
--   Registered: Config.Registry, the registry of the providers, with a proof in Registered.Found.
-- RateLimit: internal/ratelimit/ratelimit.go.
--   Types: windows, limits, costs, cells, and the buckets of a time.
--   Limiter: New, shardFor, counterFor, CheckAndReserve, rollback, Refund, Reconcile, Usage and
--     purgeStale on the sharded map. An operation reads the clock once and takes that time as an
--     argument.
--   Ledger, Charges: the abstract view, a balance for each key, and what a request charges to it.
--   Clock, Keys, Reserve, Refinement, Refund, Settle: proofs on buckets, keys and operations.
--   Interleave: concurrent callers, as sequences of the sections that a mutex guards.
-- Router: internal/router/router.go.
--   Breaker, Float, Group, Table, Feedback: the circuit breaker, the interface of float64, a provider
--     group with its credentials, resolution, and construction with the record of outcomes.
--   Probes, Eligible, Rotation, ProbeSeat, Cooldown: proofs on the breaker, on pickKey and on the
--     cooldown of a model.
-- Proxy: internal/proxy/proxy.go, with internal/httpx/errors.go and Classify of
--   internal/usage/usage.go in Errors.
--   Select: kindSlots, mediaSlots, slotsWithinContext, estimateTokens and the attempt budget.
--   Attempt: attemptSlot with reserve, release, settle, refund, finalizeFn and buffered calls.
--   Dispatch: admit and Dispatch.
--   Counts, Bounds, Budget, Answers: proofs on calls, seats, budgets and the slot that answers.
--   Stream: callStreaming, with sseStream of internal/providers/providers.go, on the lines of a
--     stream; Stream.Forward, Stream.Account: proofs on what the client is sent and on what is charged.
--   Estimate, Estimate.Media: internal/proxy/estimate.go, and HasMediaInput of
--     internal/providers/providers.go; Estimate.Text: proofs on them. Dispatch takes what they find as
--     fields of its input, and Server fills these.
-- Server: internal/server/server.go, the handler of a proxied route up to its dispatch, with
--   internal/auth/auth.go; Server.Admission: what a request has passed that is dispatched;
--   Server.Listing: modelInfos and getModel, with the capabilities that Service records,
--   and a proof in Listing.Honest; Server.Response: copyResponseHeaders and copyBody.
-- Providers: internal/providers.
--   Registry: internal/providers/registry.go, Define, Remove and Lookup; Registry.Complete: what a
--     lookup finds; Registry.Adapters: Adapter, AdapterFor and FetchModels.
--   Pacing: internal/providers/providers.go, retryAfterFrom.
--   Chat: the types of a chat request in internal/providers/gemini.go and
--     internal/providers/anthropic.go, and what both adapters read off it; Turns: the joining of
--     turns, with a proof in Turns.Alternate; Fields: the fields of a body and the URLs of upstreams,
--     of internal/providers/providers.go.
--   Anthropic: internal/providers/anthropic.go, anthropicStream on decoded events;
--     Anthropic.Message: toOpenAI; Anthropic.Breakpoints: injectCacheBreakpoints;
--     Anthropic.Request: buildAnthropic, with proofs in Accepted, Called, Marked and Built.
--   Anthropic.Indexes, Streamed, Chunked, Spoken, Agreement, Cache: proofs on tool indexes, on a
--     streamed message against a whole one, and on the number of breakpoints.
--   Gemini: internal/providers/gemini.go, the parts of a message; Gemini.Generation, Request:
--     toGemini, with proofs in Sendable and Payload; Gemini.Reply: toOpenAI; Gemini.Stream:
--     geminiStream, with proofs in Drained, Spoken and Agreement; Gemini.Embeddings: Embeddings, with
--     proofs in Batches, Loop and Answered.
--   Calls: internal/providers/anthropic.go and internal/providers/gemini.go, the requests that
--     Complete and Stream send.
--   OpenAi: internal/providers/openai.go, the requests that it sends; OpenAi.Prepared: a proof on
--     their bodies; Transcription: the fields of a transcription's form.
-- Headers: internal/httpx/headers.go, RateLimitHeaders as numbers, and in Report what they say.
-- KeysEnv: internal/keysenv/keysenv.go, Parse on the lines of a file, and in Sound what it accepts.
-- Examples: concrete inputs.
--
-- How the code is modelled. A string is its bytes, an int64 an integer with its wrap-around, a map a
-- function, a pointer that may be nil an option. The counters of the router count up by one and are
-- unbounded numbers. A time is the nanoseconds since 1970, and a bucket label the number of its
-- minute or day. float64 is a record of operations that a section takes; random draws, the replies of
-- providers, the clock and cancellation are arguments, in Attempt those of one record, World, that
-- numbers the tries of a request. What encoding/json decodes and encodes is a record of functions.
-- Loops are structural: the loop of attemptSlot runs on the number of tries left. The loop over the
-- batches of an embeddings request runs on fuel, one more than there are inputs, and a caller that
-- reads a Gemini stream on the number of its calls; both are proved to be enough.
--
-- Not modelled: message texts and other headers; tracing and the latency tracker; a service without
-- a limiter; hot reload and drain waiting; status snapshots; the parsing of a multipart form; the
-- watchdog of a stream, whose effect is a break of the connection; the parsing of YAML and JSON, the
-- decoding of their scalars, and the hashes, which are parameters; HTTP, and the removal of think
-- spans. The index that percentiles scales by 0.95 is a parameter. A request is dispatched as one
-- sequence of steps, so interleavings are those of Interleave only.
pub mod Common
pub mod Config
pub mod RateLimit
pub mod Router
pub mod Server
pub mod Headers
pub mod KeysEnv
pub mod Proxy
pub mod Providers
mod Examples
