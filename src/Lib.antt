-- ===== src/Lib.antt =====
-- rbatis-cache: a second-level cache for the rbatis ORM, and what is proved of it.
--
-- The parts, and how they interact. A statement reaches the cache on one of two ways. The hooks of
-- src/rbatis_intercept.rs run before and after each statement of rbatis: a query that may be cached
-- (src/sql.rs, the policy of src/policy.rs and src/backend.rs) gets a key (src/key.rs) that holds the
-- generation of its namespace, is looked up in the cache of its executor (src/l1.rs) and then in the
-- backend (the trait of src/backend.rs), and one caller at a time goes to the database
-- (src/singleflight.rs). What the database returned goes into both caches, in an envelope with its
-- generation and its deadline (src/envelope.rs), or, in a deferring transaction, into the buffer of
-- src/transactional.rs. A statement that changes rows bumps the generation of the namespace, so that
-- older keys are never asked for again. src/listener.rs follows the transactions. The other way is
-- CacheInterceptor of src/interceptor.rs, which takes a loader. The backends are LocalBackend
-- (src/local), the Redis backend (rbatis-cache-redis/src/redis_cache.rs), the Memcached backend
-- (rbatis-cache-memcached/src) and the moka backend (rbatis-cache-moka/src/lib.rs); src/testing.rs has
-- the contract that every backend is to meet. The Redis and the Memcached backend have configurations
-- that are read from properties files. src/plugin.rs puts the hooks into an RBatis.
--
-- Files:
--   Common         names of the libraries, numbers of 64 and 32 bits with their overflow, durations,
--                  decimal text, texts as lists of bytes, Rust's Result
--   DashMap        the concurrent maps as association lists: get, insert, remove, update, retain,
--                  min_by_key, and their laws; BTreeSet is the ordered set of texts, BTreeMap
--                  the ordered map from words
--   Error, Metrics, Policy, Envelope, Sql, Key
--                  the files of the same names under src; Sql/Laws, Key/Laws: their theorems
--   External       the libraries that the program calls, as a record: sqlparser, blake3, rmp_serde and
--                  rbs::Value. Nothing is assumed of them but what a theorem's hypotheses say
--   Backend        the trait CacheBackend over any state; Backend/Laws: what the program relies on
--   Local          LocalBackend: get, put, generation, bump_generation, the eviction loop, the worker's
--                  round; Local/Fifo, Lru, Lfu: the strategies; Local/Eviction, Reads, Generations,
--                  Victims, Invariant, Writers, Lawful: theorems; Local/Refinement: the map with deadlines that
--                  it implements, and the simulation
--   Contract       the assertions of src/testing.rs; Contract/Local: LocalBackend under them
--   Redis          RedisCacheBackend over a server that is a parameter; Redis/Breaker, Circuit,
--                  Honest (what is assumed of a server), Keyspace;
--                  Redis/Config, ConfigurationBuilder, Serializer: the files of rbatis-cache-redis/src
--                  about the configuration and the serializers
--   Memcached      MemcachedCacheBackend and its client wrapper over a client that is a parameter;
--                  Memcached/Logging: the decorator that counts hits; Memcached/Laws,
--                  Honest (what is assumed of a client), Keyspace;
--                  Memcached/ConsistentHash: the ring; Memcached/Configuration, ConfigurationBuilder,
--                  Addresses, Setters, StringUtils: the configuration and its texts
--   Moka           MokaCacheBackend over a moka cache that is a parameter; Moka/Contract: what the
--                  contract makes of it
--   Properties     std's operations on text, and the loop over the lines of a properties file
--   L1             the cache of each executor
--   SingleFlight   the table of loads; SingleFlight/Wait: the steps of the leader and of the followers
--                  of one load, with Wait/Laws, Late, Progress
--   Interceptor    CacheInterceptor: get_or_load, lookup, store, invalidate_after_commit;
--                  Interceptor/Flow, Flights, Coalesce, RoundTrip: theorems
--   Transactional, Listener, Shared
--                  the buffer of a transaction, the events of transactions, and the state that the
--                  hooks and the listener share; Transactional/Flush: theorems
--   Plugin         what install_cache puts into an RBatis
--   Executor       RbatisCacheInterceptor: Executor/Types has what the hooks have in common,
--                  Executor/Before and Executor/After the hooks; FailOpen, Invalidate, Modes, Deferred,
--                  Resolve, Rollback, RoundTrip, Session: theorems
--   Tests          the unit tests of src/local/mod.rs as runs, and the theorems at concrete inputs
--
-- Conventions. A method takes the state and the reading of the clock that it makes, and returns its
-- result and the state after it. One call reads the clock once, but for record_failure of the Redis
-- backend, whose reading comes with the way in which the command ended. A wait (for a lock, or for the
-- leader of a load) is a function on the state: what the rest of the program does meanwhile, whatever
-- it is. A call of LocalBackend is one step, but in Local/Writers, where writers run at the same time.
-- An error is a value. Logging is left out. Counters wrap or saturate as in the source.
--
-- Fuel and bounds. The eviction loop of LocalBackend runs on fuel, one round for each entry and one to
-- end: each round removes an entry, so the loop ends by its own condition (Local/Eviction has the loop
-- without fuel, as a relation). The loop of the hook before a query has its own bound, three attempts.
--
-- The steps of a load (SingleFlight/Wait) come in any order, and a follower's look at the state and its
-- wait are steps of their own, since other threads run in between. Decimal text is made on fuel too, one
-- round for each digit and never more rounds than the number itself.
--
-- Not modelled: the connections of the Redis and the Memcached backend and the panics of blocking
-- tasks (they are the libraries' work, and the operations take a server or a client as a parameter),
-- the dummy locks (mutexes without data that nothing takes), the threads and channels themselves, the
-- ratio of hits (a float that is only logged), and the re-exports of the crates' roots.
pub mod BTreeMap
pub mod BTreeSet
pub mod Backend
pub mod Common
pub mod Contract
pub mod DashMap
pub mod Envelope
pub mod Error
pub mod Executor
pub mod External
pub mod Interceptor
pub mod Key
pub mod L1
pub mod Listener
pub mod Local
pub mod Memcached
pub mod Metrics
pub mod Moka
pub mod Plugin
pub mod Policy
pub mod Properties
pub mod Redis
pub mod Shared
pub mod SingleFlight
pub mod Sql
pub mod Tests
pub mod Transactional
