-- ===== src/Lib.antt =====
-- nestplatform: a verification library for the packages of the repository that lock resources, run
-- transactions, cache results and send requests.
--
-- The program is a set of NestJS packages. Each has decorators that leave metadata on methods, an
-- explorer that replaces those methods by wrappers, and a service that the wrappers call; the engine
-- of packages/common shows every provider and its methods to the explorers. The wrapper
-- of packages/distribution-lock calls any lock service, of which packages/distribution-redlock and
-- packages/distribution-postgres-advisory-lock are two; packages/transactional calls an adapter of
-- packages/transactional-typeorm or packages/transactional-mongoose, which runs the hooks and event
-- listeners of a transaction's context; packages/cacheable calls a cache manager.
--
-- Redlock (packages/distribution-redlock/src):
--   Redlock/Redis.antt    the Redis commands that the scripts call, a parameter with its laws
--   Redlock/Scripts.antt  redlock.scripts.ts: acquire_script, extend_script and release_script are
--                         the three Lua scripts, each a function from a node's state to a reply
--   Redlock/Voting.antt   `_attemptOperation` of redlock.service.ts: on_result_resolve is its
--                         handler, and an attempt is a fold of it over the results as they arrive
--   Redlock/Cluster.antt  `_attemptOperationOnClient`: EVALSHA, EVAL after NOSCRIPT, and the vote
--   Redlock/Execute.antt  `_execute`: the retry loop; Redlock/Execute/Termination.antt is on when it
--                         ends, for the attempts of the cluster and its quorum
--   Redlock/Service.antt  `acquire`, `release` and `extend`, and the handle of redlock.util.ts
--   Redlock/Holding.antt  `withLock`: timer_fires, extension_succeeds, extension_fails,
--                         handler_settles and release_settles are what runs between two suspensions
--   Redlock/Wiring.antt   the constructor's clients, and the providers of redlock.module.ts
-- Redlock/Cluster/Refinement.antt says what the scripts promise as operations on a table of locks.
-- A client is its number in the set of clients. What the network does with a command, the clock,
-- random numbers and fresh values are arguments. Keys do not expire by themselves in a model of a
-- node: the theorem on exclusion is one about the time before they do.
--
-- Transaction (packages/transactional*/src):
--   Transaction/Rollback.antt   `shouldRollback` of both adapters
--   Transaction/World.antt      transaction-context.ts: stores, synchronizations and their hooks
--   Transaction/Adapter.antt    `execute` of both adapters, with its propagations
--   Transaction/Publisher.antt  transactional-event.publisher.ts
--   Transaction/Sessions.antt   the helpers of the Mongoose adapter that append a session
--   Transaction/Decoration.antt transactional-feature.decoration.ts and
--                               transactional-metadata.explorer.ts: what a decorated method becomes
--   Transaction/Proxies.antt    transactional-proxy.factory.ts and `proxyResource` of both adapters
--   Transaction/Metadata.antt   the decorators, transactional-metadata.accessor.ts and
--                               transactional.module.ts
-- The driver is outside: the world keeps the list of the calls it gets, in order, and a parameter
-- says which of them throw. AsyncLocalStorage is the explicit argument `store`.
--
-- AdvisoryLock.antt      packages/distribution-postgres-advisory-lock/src: pglock.service.ts and
--                        pglock.util.ts over a PostgreSQL server with the laws of session locks
--   AdvisoryLock/Wiring.antt      its pool, and pglock.module.ts
-- DistributionLock.antt  packages/distribution-lock/src/distribution-lock-feature.decoration.ts
--   DistributionLock/Wiring.antt  the decorator, the explorer, the module and its lock services
-- Orders.antt            what the order services of example/transactional-typeorm and
--                        example/transactional-mongoose share: each method as the explorer leaves it
--   Orders/Typeorm.antt    example/transactional-typeorm/src/order.service.ts
--   Orders/Mongoose.antt   example/transactional-mongoose/src/order.service.ts
-- The packages meet there: a call of a service goes through its wrappers, its adapter, the context and
-- the event listeners. What a statement does to the database is a parameter.
-- Redis.antt             packages/redis/src: what a client is made of, and redis.module.ts
-- Cacheable (packages/cacheable/src):
--   Cacheable/Keys.antt      cacheable.helpers.ts
--   Cacheable/Metadata.antt  the decorators and cacheable-metadata.accessor.ts
--   Cacheable/Wrappers.antt  cacheable-feature.decoration.ts, over a cache manager with its laws
--   Cacheable/Explorer.antt  cacheable-metadata.explorer.ts
--   Cacheable/Pending.antt   `fetchCachedValue`: lookups that overlapping calls share, as steps
--   Cacheable/Wiring.antt    cacheable.module.ts
-- Products.antt          example/cacheable/src/product.service.ts: its methods with their decorators,
--                        over a cache; Products/Serving.antt runs requests to it
-- Common (packages/common/src):
--   Common/Engine.antt  feature-explorer: the registry of explorers and the engine
--   Common/Merge.antt   common.helpers.ts: deep_merge and merge_with_defaults
--   Common/Modules.antt configurable-module.util.ts: the module that a configuration gives
--   Common/Stringify.antt  common.helpers.ts: stringify_method
-- Fetch.antt             packages/feign/src/fetch/fetch.service.ts: path parameters, one request with
--                        its interceptors, and the retries
--   Fetch/Messages.antt    its query strings and the bodies that it sends
--   Fetch/Building.antt    its URL, headers and verbs, and the reading of a response
--   Fetch/Segments.antt    the expression that finds the parameters of a path
--   Fetch/Timer.antt         the timer of a request
--   Fetch/Interceptors.antt  fetch-interceptor.explorer.ts and fetch.module.ts
-- Feign (packages/feign/src/feign):
--   Feign/Routes.antt          `joinPaths`, and the path of a decorated method
--   Feign/Objects.antt         `mergeByIndexes`: arguments spread into objects
--   Feign/Client.antt          feign-feature.decoration.ts and feign-fetcher.registry.ts
--   Feign/Configuration.antt   modules/feign-client.module.ts: the fetcher that a module registers
--   Feign/Declaring.antt       the decorators of feign, feign-metadata.accessor.ts and
--                              feign-metadata.explorer.ts
--   Feign/DefaultFetcher.antt  feign.util.ts: the fetcher of a client that has none
--
-- The retry loop `execute_loop` of Redlock runs on fuel, one unit for an attempt. With a retry count
-- of n, fuel of n + 1 is enough, and the theorem on it says so; with a retry count of -1 the source's
-- loop has no bound, and its theorem holds for every fuel. All other loops are structural.
--
-- Two components are step relations, with an invariant by induction on their runs: a held lock, and
-- the pending lookups of the cache. Their steps may come in any order, which covers every schedule of
-- the event loop; a run has any number of steps, so no fuel is needed there.
--
-- reflect-metadata, ioredis, the pools and the databases are parameters, with named laws where a
-- theorem needs them.
--
-- Not modelled: when a timer fires during a request of packages/feign/src/fetch, which is one of the
-- ways in which `fetch` throws; feign.module.ts, which only names providers for NestJS, and the
-- decorators of feign whose metadata nothing reads; queries of a mongoose model, which take the session
-- by a call of that library; logging, but for the text of a call that it needs, since
-- making it can throw; and the controllers and bootstrap code of the example applications. Rounding of
-- the drift is that of exact fractions where the source has floating point.
mod Base
pub mod Redlock
pub mod Transaction
pub mod Cacheable
pub mod AdvisoryLock
pub mod DistributionLock
pub mod Fetch
pub mod Common
pub mod Feign
pub mod Orders
pub mod Redis
pub mod Products
