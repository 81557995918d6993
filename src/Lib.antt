-- ===== src/Lib.antt =====
-- Verification of the tunnel manager's backend (Go). The program exposes local origins through
-- Cloudflare tunnels: an HTTP API over a domain service, which keeps domains in SQLite, configures
-- tunnels and DNS records at Cloudflare, supervises one cloudflared process for each domain, and runs
-- a loopback proxy that takes route prefixes off before the request reaches the origin.
--
-- The files and what they model (a definition has the name of its Go function in snake case):
--   Model       internal/model, internal/pkg/constant: the data
--   PortAlloc   internal/pkg/portalloc: the metrics port of a new domain
--   Hub         internal/services/domain/notify.go: the wake-ups of event streams, which the log
--               buffer has as well
--   LogBuf      internal/pkg/logbuf: the tail of a process log
--   Routes      internal/services/domain/routes.go: the validation of routes, Cloudflare's rules
--   Zones       internal/services/domain/zones.go: which zone may hold a hostname
--   Proxy       internal/pkg/ingressproxy: the tables of the proxy and the handling of a request
--   Supervisor  internal/pkg/process: start, stop, restart with backoff, giving up
--   Crypto      internal/pkg/crypto: the encryption of tunnel tokens
--   Auth        internal/services/auth, internal/pkg/jwt, internal/pkg/repo/auth
--   Middleware  internal/pkg/middleware: which requests reach a handler
--   Config      internal/pkg/config: the settings
--   Repo        internal/pkg/repo/domain: the tables and the queries on them
--   Service     internal/services/domain: create, update, delete, stop, restart, events, reconcile
--   Pagination  internal/pkg/repo/scopes, the lists of internal/pkg/repo/domain: pages and cursors
--   Locks       `lockDomain` of internal/services/domain: one goroutine at a time for each domain
--   Cloudflare  internal/pkg/cloudflare: the requests to Cloudflare
--   Api         internal/application/api/route: the handlers, the router, the sessions with
--               internal/pkg/authcookie, the streams, and internal/services/prometheus
--   Lifecycle   internal/pkg/lifecycle: the hooks of the start and the stop
--   Prelude     shared names, Go strings as lists of bytes, errors, results
-- In each, the parent file holds the definitions, the children the theorems, and Tests runs them on
-- concrete inputs.
--
-- Conventions. Times and lengths of time are natural numbers. Maps are functions or lists of entries.
-- A Go error is a value of `Error`, which keeps the sentinels that `errors.Is` looks for; messages
-- leave out the arguments that they quote. Code that a mutex guards is one atomic operation. The
-- supervisor is a step function over its critical sections, so that any order of exits, timers and
-- calls is a list of inputs. The domain service passes a world on: the database, the proxy, the
-- supervisor, the log buffers, the subscribers and the history of calls that left the process; the
-- outside answers each call as it likes, from the whole history. The bodies that hold the lock of a
-- domain run as a whole, which Locks is about; the
-- others are modelled as they run when nothing comes between. The handlers go from the bound request to the answer; a
-- stream runs over a list of what its `select` finds ready, with anything done by others in between.
-- The libraries (net, net/url, unicode, AES-GCM, base64, bcrypt, golang-jwt,
-- viper) are parameters.
--
-- Bounds and fuel. `scan` of PortAlloc takes the size of the port range as its rounds. The loop of
-- `Write` in LogBuf has the length of the unfinished text and one more as fuel, and a round takes at
-- least a byte off it. `walk` of Pagination has as fuel the requests that the client may make, and more
-- than the rows are enough. All other loops are structural.
--
-- Not modelled: gin and its binding, the reverse proxy of net/http, the command line of cloudflared,
-- logging, which writes only, the migrations, which a tool runs, and dependency injection.
pub mod Prelude
pub mod Model
pub mod PortAlloc
pub mod Hub
pub mod LogBuf
pub mod Routes
pub mod Zones
pub mod Proxy
pub mod Supervisor
pub mod Crypto
pub mod Auth
pub mod Middleware
pub mod Config
pub mod Repo
pub mod Pagination
pub mod Service
pub mod Locks
pub mod Cloudflare
pub mod Api
pub mod Lifecycle
