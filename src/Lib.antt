-- ===== src/Lib.antt =====
-- Verification of cipolin, a nostr relay that answers NIP-85 queries with trusted assertions: it
-- fetches the events of a subject from other relays, computes metrics from them, and streams one
-- signed event per metric to the client. A plugin may reject requests (internal/requestpolicy).
--
-- A query enters at the handler (internal/handler). It streams waves of assertions for each kind
-- and subject: first from the local database, then each time the sync has stored more events, and
-- a final wave, which is published to the storage relays too, when the sync is done. Each metric of
-- each kind is signed by its own key (internal/keys); a client selects metrics by naming their
-- keys as authors. The sync fetches pages of events with cursors (internal/fetcher), which are kept
-- in a Bolt database.
--
-- The files:
-- - Base and its children: names of the library, integers, texts, sorting, lists.
-- - Nostr: events, tags and filters of the nostr library, as the program reads them.
-- - Fetcher.Cursor, Fetcher.Identity: internal/fetcher/cursor.go (FetchCursor, NewFetchCursor,
--   GenerateCursorID, filterToCanonicalMap).
-- - Fetcher.Store: internal/fetcher/store.go (LoadCursor, SaveCursor, DeleteCursor, ListCursors).
-- - Fetcher.Pages: what fetchBackward and fetchForward of internal/fetcher/fetcher.go do with a
--   page; its children say what the cursor covers afterwards.
-- - Fetcher.Fetch: NewEventFetcher, FetchEvents, fetchBackward, fetchForward.
-- - Fetcher.Loop: FetchContinuously.
-- - Fetcher.All: FetchAllContinuously, a goroutine for each relay and filter. Fetcher.Sinks is
--   about the state of its handler.
-- - Keys, Keys.Manager: internal/keys/keys.go (the tables, GetRequiredFilters, and the manager).
-- - Handler.Run: the monad of code that yields, publishes and may panic.
-- - Handler.Assert, Handler.Send, Handler.Serve, Handler.Blocking: internal/handler/handler.go (the
--   assertion events, the send functions, the streams and the query, the generate functions).
-- - Handler.Keeps and its children: invariants of such code, a rule for each way to build it.
-- - Metrics.Zaps, Metrics.Counts, Metrics.Posts, Metrics.Hours, Metrics.Rank: internal/metrics/metrics.go
--   (extractAmountFromZapRequest, extractAmountFromNutzap, ComputeEventMetrics,
--   ComputeAddressMetrics, the notes and the zaps of ComputeUserMetrics, findActiveHoursRange,
--   CalculateUserRank, CalculateEventRank).
-- - Metrics.Topics, Metrics.User, Metrics.Texts: the topics of ComputeUserMetrics with getTopTopics; the
--   maps that the three computations fill; and the texts of their integers.
-- - Policy.Engine: internal/requestpolicy/plugin.go (NewPluginEngine, EvaluateRequest and what it
--   calls); Policy.Texts has the text functions of the Go library that it uses. The process and its
--   pipes are one flag, since the source sets and clears them together.
-- - Graph.Neo4j: the driver, and the Go code that reads rows; Graph.Ingest and Graph.Engine:
--   internal/metrics/graphrank.go (IngestEvent and extractFollowTargets; the engine with its cache
--   and projection); Graph.Promises: what Neo4j promises. The other children of Graph are proofs.
-- - Relays, Relays.Discovery: internal/relay/discovery.go (MergeRelays; GetPopularRelays and
--   GetUserNIP65Relays).
-- - Relays.Persist, Relays.Plan, Relays.Sync: internal/relay/sync.go (persistEvent and the handlers of
--   events; the filters and relays; the six syncs). Relays.Synced is about what a sync has written.
-- - Entry.Settings, Entry.Start, Entry.Guards, Entry.Serve: cmd/cipolin/main.go (the configuration;
--   what it starts; the policies of requests; the answer to a query).
-- - Examples: concrete instances of the parameters, and the theorems at concrete inputs.
--
-- Texts are sequences of code points; a length of the source counts their bytes in UTF-8.
--
-- Parameters of the model, since their code is not in the repository: the SHA-256 digest and the
-- JSON encoding (Digest), the Bolt bucket (Bolt, with the laws IsFaithful and IsReliable), the keys
-- and signatures (Crypto), the answers of relays and the readings of clocks (Surroundings, Turn),
-- and the signals that the select statement of a stream takes (Signal). Times are integers;
-- a cursor's time is a 64-bit integer of the source, whose decrement wraps. The loop of
-- FetchContinuously runs over the turns that its surroundings offer, one clock reading each, so it
-- needs no fuel: where the turns end before the loop does, there is no result.
--
-- The texts that MustPubKeyFromHex and MustIDFromHex take are one test (is_hex). Where they panic in
-- the goroutine of a sync the process ends, behind the signals that the stream has taken before.
-- Event.Sign is a parameter (Crypto.sign); that it sets the author is a hypothesis (SignsForSecret).
--
-- JSON decoding, the operations on float64 and the operating system under the plugin are parameters
-- too (Json, Floats, Host), and the lower case of a topic. So is sort.Slice (IsSort), which is not
-- stable: getTopTopics takes the entries from a map, so the order of equal counts is open.
--
-- Neo4j is a parameter by its statements and transactions (Neo4j). Its promises (Graph.Promises) are
-- about three readings of a database: the contact lists, the graph as it would be projected, and
-- the projection. A transaction that fails may have been committed.
--
-- The goroutines of FetchAllContinuously, and the two fetches of a user's sync, run over a schedule:
-- each of its entries names a goroutine, which takes the next turn of its loop. A turn with its fetch
-- is one step; it loads and saves the cursor of its own relay and filter, and the mutex of the source
-- makes the handling of an event atomic. The goroutine has finished when its loop has returned.
--
-- Not modelled: interleavings within one fetch, and an ingestion between the statements of a rebuild
-- of the ranks; the HTTP server and its routes; and logging.
pub mod Base
pub mod Nostr
pub mod Fetcher
pub mod Graph
pub mod Keys
pub mod Metrics
pub mod Handler
pub mod Policy
pub mod Relays
pub mod Entry
pub mod Examples
