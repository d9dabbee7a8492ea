-- ===== src/Lib.antt =====
-- A model of livelier, the bridge that mirrors live streams of other networks to Nostr, and of the
-- profile loading that its site shares with it.
--
-- The parts, and the files that model them (paths from the repository's root):
-- - Base: Boolean tests on numbers, lists, JavaScript maps and sets over text keys, decimal texts.
-- - Profiles: packages/shared/src/nostr and packages/shared/src/services. Backoff is
--   nostr/utils/profile-fetch-backoff.ts; MissCache is nostr/services/profile-miss-cache.ts; Cache is
--   services/ProfileCacheService.ts; Kind0 is nostr/utils/parse-kind0.ts; Ledger is the functions, and
--   Coordinator the class, of nostr/services/profile-request-coordinator.ts. The coordinator takes its
--   cache as the record ProfileCacheLike, which Cache.Laws fills with the service. Coordinator.System
--   puts it among its callers, the relay client, its timers and the clock.
-- - Discovery: packages/bridge/src/core. Tags is nostr/live-event-tags.ts of the shared package; Store is
--   instance-store.ts and types.ts, and Migrations migrations.ts; Publisher is
--   nostr/live-event.publisher.ts; Engine is discovery/discovery-bridge.service.ts with metrics.ts.
--   Engine.Steps has `processLive` and
--   `maybePublishProfile`, Engine.Cycle the other passes and `runCycle`. Engine.Trace has the atomic steps
--   of a cycle, and Engine.Refine relates the passes to them.
-- - Chat: packages/bridge/src/core/chat and core/relays.ts. Fingerprint is fingerprint.ts, Relays is
--   relays.ts; of chat-bridge.service.ts, Nostr has the direction from Nostr, Source the direction to it,
--   Firehose the subscriptions and their health, Rooms the rooms, `start` and `stop`. Chat.System lets all
--   of them act on the service in any order.
-- - Owncast: packages/bridge/src/sources/owncast. Listener is chat/owncast-listener.ts; Pool is
--   chat/chat-pool.ts, with Pool.Sender for one sender among its callers and its socket; Html is the
--   rendering of chat/html.ts; Liveness is discovery/liveness.ts, Directory is
--   discovery/directory.client.ts, and Adapter adapter.ts.
-- - Nostr: packages/bridge/src/core/nostr. AuthedPublish is authed-publish.ts, Demand is demand.client.ts.
-- - Site: packages/site/src. Queries is nostr/queries.ts, which reads the live events that Discovery.Tags
--   writes.
-- - Client: packages/shared/src/nostr/services. Verifier is event-verifier.ts, and Relays is
--   relay.service.ts with nostr/relay-utils.ts. The rest is client.service.ts: Lru and Batch are LRUCache and BatchLoader; Replaceable and Loader are
--   ReplaceableEventLoader, its static functions and its loads; Cooldown is the rate limits of the
--   relays; Query is `queryWithStats` and Subscription `subscribe`, with their callbacks as functions on
--   the state; Signing is `createSignedEvent`, and Publish is `getRelayUrls` and `publishEvent`.
--
-- How the code is read: a class is a record and its methods are functions on it. Times are natural numbers
-- of milliseconds; a reading of the clock is an argument, and a synchronous handler, a discovery cycle and
-- each part of an asynchronous handler between its waits read it once. Timers are fields with the instant
-- or the delay that they were armed with; that they fire is a step. The adapters, the relays, JSON, HTTP,
-- the signatures, the keys and the hashes are parameters, so that every answer of theirs is allowed.
-- A discovery cycle is one function, since the engine awaits each of its calls in turn. A delivery, and a
-- message from a source chat, is one step of the chat bridge: between its test of the fingerprint and its
-- addition to the cache the code does not wait. The parts of the relay client are apart from one another:
-- a query does not hold the caches that its events go to, and the batch loader does not hold the loads of
-- the replaceable events. A residue modulo 2 ^ 32 stands for the signed number of a hash.
--
-- Bounds: the loops follow the lists that they run over. The decimal digits of a number take one more
-- round than the number, which is enough, since each round divides it by ten.
--
-- Not modelled: the storage and database drivers and the SQL of the migrations, the sockets and frames of
-- relays (of nostr-tools), the connection monitor and `close` of the relay client, the rendering of chat
-- content, the regular expressions that read tags out of Owncast's HTML, the derivation of keys, the URL
-- parser, the glue of the Owncast adapter, the configuration, the operator scripts, and the site's pages.
pub mod Base
pub mod Profiles
pub mod Discovery
pub mod Chat
pub mod Owncast
pub mod Client
pub mod Nostr
pub mod Site
