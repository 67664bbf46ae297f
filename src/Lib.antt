-- ===== src/Lib.antt =====
-- ShadowMesh is a content delivery network of peers. Content is cut into fragments by hash; a node
-- (node-runner/) stores fragments on its disk within a capacity and replicates them; the gateway
-- (gateway/) answers HTTP requests for a content by its CID, from a cache, from nodes or from IPFS,
-- behind limits on the rate of requests and circuit breakers for what it depends on; protocol/ is
-- the library that the two share. This library models the parts of that code that keep state or
-- decide what is let through, each as functions on that state.
--
--   Base         what the models share: Boolean tests, lists, texts as bytes (Str), and the standard
--                library's HashMap (Base/Map), HashSet (Base/Set) and stable sort (Base/Sort)
--   Storage      node-runner/src/storage.rs: StorageManager. Types has the records, the errors and
--                fragment_path; Ops has the methods new to delete and Collect has garbage_collect,
--                each a function of the manager, of the clock and of what the file system answers
--   Cid          protocol/src/cid_validation.rs, which gateway/src/cid_validation.rs passes on:
--                validate_cid, validate_cid_path, validate_content_path, over bytes
--   Circuit      gateway/src/circuit_breaker.rs: CircuitBreaker, a method call being one step
--   Cache        gateway/src/cache.rs: ContentCache, with get, set_with_ttl, remove, clear_expired
--   RateLimit    gateway/src/rate_limit.rs: check_limit in its stages (replenish, reset_window,
--                admit), the cleanup, and check_rate_limit up to its answer
--   Fragments    protocol/src/fragments.rs: FragmentManager, over a record of what blake3 documents
--   Replication  protocol/src/replication.rs: ReplicationManager, over a type of peers. Manager has
--                the methods that change it, Queries those that read it, create_replication_tasks
--                among them
--   Ipfs         protocol/src/storage.rs: the attempts of store_content and retrieve_content and
--                the delays between them, over the outcomes of the attempts, and (Directory)
--                store_directory over what the walk reads and the server answers
--   Crypto       protocol/src/crypto.rs: CryptoManager, OnionRouter and KeyDerivation, over a record
--                (Cipher) of what ChaCha20-Poly1305 documents
--   Relay        protocol/src/zk_relay.rs, over a record (Libraries) of what X25519, BLAKE3, Ed25519
--                and bincode document. Types has the cells and payloads, Handshake the CREATE and
--                CREATED handshakes, Circuit and Client the circuits of ZkRelayClient, Node and
--                Cells the handlers of ZkRelayNode, Traffic the padding. Sample has small libraries
--                for the examples
--   Naming       protocol/src/naming.rs, over a record (Libraries) of what BLAKE3, JSON and libp2p's
--                keys document. Types has the records, their validation and signatures, and
--                resolve_conflict; Manager has NamingManager and the service registries, Resolver
--                has NameResolver
--   Kv           gateway/src/kv_store.rs: KvStore
--   ApiKeys      gateway/src/api_keys.rs: ApiKey, ApiKeyStore, and ApiKeyManager where there is no
--                Redis
--
-- The parts meet where the code's do: a manifest of Fragments is what Replication registers,
-- retrieve_content of Ipfs validates its path by Cid, the fragments that Fragments makes are what
-- Storage keeps, and the cells that the client of Relay wraps by Crypto are what its relays open.
--
-- Conventions. A record field that Rust calls `data` is called `content`. Integers are natural
-- numbers; where the code adds or multiplies, `% 2 ^ w` is written out for the width w, as a release
-- build wraps, and `saturating_sub` and `duration_since` are the subtraction that stops at 0. The
-- clock, the file system, the network and the random numbers are arguments. A HashMap is a list of
-- its entries, the list's order being the order of iteration; theorems that need distinct keys say
-- so or prove it of every reachable state. A lock that is held for a whole method makes the method
-- one step; the methods of the breaker, which uses atomics, are taken as single steps too, and
-- so are the handlers of a relay, so interleavings inside of a method are not modelled. Keys, nonces,
-- identifiers and padding that the code draws at random are arguments. A point in time has no bound
-- (the code panics on a time to live beyond the platform's clock or chrono's calendar), nor has the
-- number of a fragment (a `u32`).
--
-- Fuel. `chunks_on` has as many steps as the content has bytes, and each step takes at least one
-- byte; `attempts` counts the attempts that are left; `evict_on` has as many turns as there are
-- entries, and each turn removes one. All else is structural recursion.
--
-- Not modelled: the transport and the discovery of peers (libp2p), the HTTP handlers and servers,
-- configuration, metrics, logs and the texts of errors; adaptive routing and
-- bandwidth accounting of protocol/; the node's own replication and its bridge; the command line
-- tool, the browser SDK, the adapters and the dashboards.
pub mod Base
pub mod Circuit
pub mod Cid
pub mod Storage
pub mod Cache
pub mod RateLimit
pub mod Fragments
pub mod Replication
pub mod Ipfs
pub mod Crypto
pub mod Relay
pub mod Naming
pub mod Kv
pub mod ApiKeys
