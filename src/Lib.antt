-- ===== src/Lib.antt =====
-- Corridor, an API gateway: its verification library.
--
-- A configuration (app/config/config.go) is checked and completed; from it the proxy
-- (app/proxy/proxy.go) makes a load balancer for each service (app/proxy/loadbalancer.go), the
-- router (app/router/router.go) makes a chain of plugins for each route (app/plugins/plugin.go),
-- and the health checker (app/healthchecker/healthchecker.go) watches the targets of the services
-- and tells the proxy of their health. A request goes to the first route that matches it, through
-- the route's plugins, to a target that the service's balancer picks.
--
-- The files:
--   Prelude       strings as byte lists, integers with the wrap of 64 bits, maps, results, lists
--   Config        app/config/config.go: the types; Config/Validate: `validateAndSetDefaults`
--   LoadBalancer  app/proxy/loadbalancer.go: LoadBalancer/Target the targets, in a store of shared
--                 objects; LoadBalancer/Next the four balancers' `Next`, `UpdateTargets` and
--                 `GetServiceName`; LoadBalancer/Create `NewLoadBalancer`;
--                 LoadBalancer/Concurrent calls of the round robin at the same time, as steps on
--                 the counter that they share
--   Plugin        app/plugins/plugin.go: the registry and `ChainPlugins`
--   Router        app/router/router.go: `NewRouter`, `ServeHTTP`; Router/Matching the tests of a
--                 route, among them `matchPath`
--   Proxy         app/proxy/proxy.go: the balancers of `NewProxy`, `UpdateTargetHealth`;
--                 Proxy/Forwarding `ServeHTTP` up to the hand-over to `httputil.ReverseProxy`, and
--                 the end of `RoundTrip`, with the interleavings of requests in
--                 Proxy/Forwarding/Traffic; Proxy/Joining `singleJoiningSlash` and the query;
--                 Proxy/Director what the director makes of a request
--   HealthChecker app/healthchecker/healthchecker.go: `Start` for one target, `monitorTarget`,
--                 `processCheckResult`; HealthChecker/Probe `performCheck`; HealthChecker/Start
--                 the store of statuses and the loops of `Start`; HealthChecker/Loop the
--                 goroutines of `monitorTarget` with their tickers, and `Stop`, as a step relation
--   RateLimiting  app/plugins/ratelimiting.go: `Init`, `Handle`, `cleanupOldClients`
--   Authentication  app/plugins/authentication.go: the plugin's state and its key store;
--                 Authentication/Settings `Init`, `applyAuthConfig` and what MongoDB gives;
--                 Authentication/Handling `Handle`
--   Keygen        app/utils/keygen.go: `GenerateAPIKeyHashes`
--   PathRewrite   app/plugins/pathrewrite.go: `Init`, `Handle`
--   Caching       app/plugins/caching.go: `Init`, `Handle`, `cleanupExpiredEntries`;
--                 Caching/Recorded the interleavings of the sections that change the store
--   Server        app/server/server.go: the time-outs and certificates of `Start`;
--                 Server/Serving `NewServer`, `Start` over its events and `Shutdown`; with
--                 Config/Timeouts and Proxy/Transport, the limits of `NewProxy`'s transport
--   Gateway       the authentication plugin as a handler in a route's chain, with the ticks of its
--                 refresh before a call and with the panics of its `Init`; Gateway/Registered the
--                 registry that the files of app/plugins fill
--   Main          app/main.go: the start up to the listening, with `LoadConfig`; Main/Command the
--                 subcommand `keygen`
--   Logging       app/logging/logger.go: the logger and its formatters; Logging/Setup `Init`, the
--                 setters; Logging/Calls the package's functions
--   RequestId     app/plugins/requestid.go: `Handle`
--   Tests         runs on small inputs
--
-- Functions keep the names of the source. A struct is a record, a pointer that may be nil an
-- option, a pointer to a shared object an address in a store. An error is a constructor, with
-- what its message names. A step of the program under a lock is one function on the state; log
-- lines are left out. No function runs on fuel: each loop follows a list or a counter.
-- Code of other packages is a parameter: `url.Parse` and `URL.String`, `rand.Intn` (the argument
-- `intn`), `net.SplitHostPort`, generated ids, the network that a health check meets, SHA-256
-- and bcrypt, the JWT library, regular expressions, files, the YAML decoder, PEM and X.509,
-- MongoDB, and the loading of key pairs. Case is folded on ASCII letters only, and words are
-- split at ASCII spaces. The counters of the health checker are unbounded numbers, and times are
-- numbers of nanoseconds, where Go's overflow after more steps or years than the program runs; a
-- duration from the settings wraps at 64 bits.
--
-- Not modelled: the YAML of the configuration, the flags, what `http.Server` does once it is
-- called, what `httputil.ReverseProxy` makes of a request after the director (only the ways in
-- which a request may end are steps of Proxy/Forwarding/Traffic), and the content of the responses
-- of targets. `ServeHTTP` of the proxy is one step there; calls of the round robin's `Next` at the
-- same time are in LoadBalancer/Concurrent.
pub mod Prelude
pub mod Config
pub mod LoadBalancer
pub mod Plugin
pub mod Router
pub mod Proxy
pub mod HealthChecker
pub mod RateLimiting
pub mod RequestId
pub mod Authentication
pub mod Keygen
pub mod PathRewrite
pub mod Caching
pub mod Server
pub mod Gateway
pub mod Logging
pub mod Main
pub mod Tests
