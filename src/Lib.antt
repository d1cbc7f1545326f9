-- ===== src/Lib.antt =====
-- The Albion REST API: who may call it, how often, what it answers, and how its
-- registry is replaced.
--
-- The program is a Rocket service in front of the rain.orderbook library. A request of a `/v1`
-- route passes the global rate limit, then the authentication by API key with the limit of the key,
-- then the handler, which asks the library for orders, quotes and trades and shapes the answer; on
-- the way out two fairings add the rate-limit headers and log the usage. Keys are made, revoked and
-- deleted by a command-line tool on the same database.
--
-- Base, Error and Text: tests, lists and options over the native numbers; the error type of
--   `src/error.rs` and results; what the sources use of `str`.
-- RateLimiter: `src/fairings/rate_limiter.rs`, `check_global` and `check_per_key` with the helpers
--   they share. Children: the window, the ideal limiter with a full history, the two comparisons.
-- Database: the tables of keys, usage logs and settings, with one function per statement of
--   `src/auth.rs`, `src/cli.rs`, `src/fairings/usage_logger.rs` and `src/db/settings.rs`.
-- Cli: the commands of `src/cli.rs`. Children: their effect on the rows, what they preserve, and the
--   order of the list.
-- Auth: the guards of `src/auth.rs` and `src/fairings/rate_limiter.rs`, the header fairing and the
--   usage logger. Children: the credentials, who is let in, a key's life, the limits, the usage,
--   the statuses.
-- Raindex: the types and accessors of the rain.orderbook crates that the handlers use, and the calls
--   of its client (Client), records that the later modules take as parameters.
-- Pagination and Vaults: `build_pagination` of `src/routes/orders/mod.rs` and the slices of
--   `src/routes/trades.rs`; `resolve_io_vaults` of `src/routes/mod.rs`.
-- Cache: `src/cache.rs`, a cache as the function of its live entries, the moka crate's `try_get_with`
--   as a parameter (Moka), and the group of caches. Children: equality of keys, a cache in front of
--   a function, and a concrete cache for the tests (Sample).
-- Orders: `src/routes/orders/`, the batch of quotes, the listings by owner and by token and their
--   caches, and `determine_order_type` of `src/routes/order/get_order.rs`.
-- Trades: `src/routes/trades.rs`, the scan of the orders, the trades of an address, of a transaction
--   and of a taker, the batch by order hashes, the data source over the client (Client) and the
--   caches (Cached); `src/direct_trades.rs`, the rows that its queries give (Query) and what is made
--   of them (Fetcher).
-- Order: `src/routes/order/`, the detail of an order and its cancellation.
-- Swap: `src/routes/swap/`, the quote and the calldata.
-- Http: the responder of `src/error.rs`, `src/catchers.rs`, and the request ids of
--   `src/fairings/request_logger.rs`.
-- Registry: `src/raindex/config.rs`, the provider of the library's client and the settings that it
--   is loaded from. Service: the state that the handlers share, the update of
--   `src/routes/admin.rs`, and the start of `src/main.rs`. Interleaving: the requests that run while
--   an update replaces the provider, as steps, for handlers that hold the lock around the cache and
--   for those that have released it.
-- Handlers: the handlers of `src/routes/` on the shared state, those that are `todo!()` included.
--   Children: the same service without caches, the comparison, and the guards in front of the
--   handlers.
-- Server: a request from its route, as `src/main.rs` mounts them, to the page, through the guards,
--   the handler, the responder or a catcher, the usage log and the headers; and runs of requests.
-- Startup: the commands of `src/main.rs` from the configuration to the exit of the process, with
--   `src/config.rs`, `src/telemetry.rs` and `src/db/mod.rs`.
--
-- The clocks, random draws, Argon2, base64 and the library's answers are arguments. An instant is a
-- number of nanoseconds; counters that are machine words keep their modulus. The only fuel
-- is that of `fetch_all_orders`: 65534, the number of pages before the counter ends the loop. A
-- poisoned mutex and an unmanaged state are modelled, since the code has a branch for each; a panic
-- is a value where the code can panic. The library's answers are functions of their arguments: that
-- they change with time is left out, so a cache in front of them may be as old as its entries live.
-- Logging, spans, the OpenAPI document, CORS, the documentation's files and the pool are not
-- modelled: they decide no answer. Rocket's matching of routes, serde and alloy's parsers, SQLite's
-- text functions, the registry and the simulation of a swap are of the libraries, and are
-- parameters; the two SQL queries of the direct fetcher are functions on the library's tables.
pub mod Base
pub mod Error
pub mod Text
pub mod RateLimiter
pub mod Database
pub mod Cli
pub mod Auth
pub mod Raindex
pub mod Pagination
pub mod Vaults
pub mod Cache
pub mod Orders
pub mod Trades
pub mod Order
pub mod Swap
pub mod Http
pub mod Registry
pub mod Handlers
pub mod Server
pub mod Startup
