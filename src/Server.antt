-- ===== src/Server.antt =====
-- A whole request, as `rocket` of src/main.rs has it served: the request logger of
-- src/fairings/request_logger.rs, the guards and the handler of its route, the responder or a
-- catcher, the usage logger and the rate-limit headers. How Rocket matches routes and parses
-- parameters is an input; CORS, the documentation pages and logging are left out.
pub mod Responses
pub mod Pools
pub mod Keys
pub mod Usage
pub mod Runs
mod Examples
use Prim.Native.String.{String}
use albion_rest_api.Base.{ℕ, Bool, true, false, ◌⊎◌, inl, inr, Option, none, some, List, [], ◌∷◌}
use albion_rest_api.Error.{ApiError, Result, ok, err}
use albion_rest_api.Raindex.{Raindex, Address, B256}
use albion_rest_api.RateLimiter.{Reading}
use albion_rest_api.Auth.{
  Outcome, success, error, panicked, Codecs, AuthenticatedKey, Managed, Local, guard_route,
  rate_limit_headers, log_usage,
}
use albion_rest_api.Cache.{Fetch}
use albion_rest_api.Http.{ApiErrorResponse, Reply, respond_to, catch, extract_request_id}
use albion_rest_api.Registry.{RegistryLibrary}
use albion_rest_api.Registry.Service.{Service}
use albion_rest_api.Handlers.{
  Request, Answer, detail, cancellation, orders, quote, calldata, tx_trades, address_trades, taker,
  registry, batch, token_list, panic, Calls,
}
use albion_rest_api.Handlers.Route.{guard_admin_route, route}

-- How a handler ends.
pub data Ending : Type 0 where
  done : Ending
  failed : ApiError → Ending
  crashed : Ending

unfoldable pub of_result {ℓ} : {A : Type ℓ} → Result A → Ending
of_result (ok _) = done
of_result (err e) = failed e

unfoldable pub of_fetch : {A : Type 0} → Fetch A → Ending
unfolding of_result
of_fetch none = crashed
of_fetch (some result) = of_result result

unfoldable pub ending_of : Answer → Ending
ending_of (detail a) = of_fetch a
ending_of (cancellation a) = of_result a
ending_of (orders a) = of_fetch a
ending_of (quote a) = of_fetch a
ending_of (calldata a) = of_result a
ending_of (tx_trades a) = of_fetch a
ending_of (address_trades a) = of_fetch a
ending_of (taker a) = of_fetch a
ending_of (registry a) = of_result a
ending_of (batch a) = of_result a
ending_of (token_list a) = of_result a
ending_of panic = crashed

-- What the path, the method and the parameters of a request come to in Rocket: a request of the API,
-- the check of health, a request of the API (of the admin's, or not) whose parameters Rocket refuses
-- with a status once its guards have passed, or no route.
pub data Asked : Type 0 where
  endpoint : Request → Asked
  health : Asked
  refused : Bool → ℕ → Asked
  unmatched : Asked

pub record Incoming : Type 0 where
  pub method : String
  pub path : String
  pub request_id : Option String
  pub authorization : Option String
  pub asked : Asked

-- `ValidatedAddress::from_param` and `ValidatedFixedBytes::from_param`, of the parsers of the alloy
-- crate; a parameter that does not parse is given back.
unfoldable pub validated_address : (String → Option Address) → String → String ⊎ Address
validated_address parse param = elim (parse param) [ none ↦ inl param | some a ↦ inr a ]

unfoldable pub validated_fixed_bytes : (String → Option B256) → String → String ⊎ B256
validated_fixed_bytes parse param = elim (parse param) [ none ↦ inl param | some hash ↦ inr hash ]

-- A route with such a parameter; Rocket passes a request with a bad one on, and ends with 422.
unfoldable pub asked_with {ℓ} : {A : Type ℓ} → String ⊎ A → (A → Request) → Asked
asked_with (inl _) request = refused false 422
asked_with (inr a) request = endpoint (request a)

-- `basic` is the page of Rocket's own catcher.
pub data Body : Type 0 where
  answered : Answer → Body
  healthy : String → Body
  error_json : ApiErrorResponse → Body
  basic : Body

-- `get_health`.
unfoldable pub get_health : Body
get_health = healthy "ok"

-- What the fairings find.
pub record Page : Type 0 where
  pub status : ℕ
  pub retry_after : Option String
  pub body : Body

-- With the X-Request-Id and the X-RateLimit headers.
pub record Response : Type 0 where
  pub page : Page
  pub request_id : String
  pub rate_limit : Option (ℕ × ℕ × ℕ)

-- `RequestLogger::on_response`, with the headers of the rate limit.
unfoldable pub set_request_id : String → Option (ℕ × ℕ × ℕ) → Page → Response
set_request_id id rate_limit page = record { page = page; request_id = id; rate_limit = rate_limit }

abbrev pub page_of : Reply → Page
page_of reply = record {
  status = reply.status;
  retry_after = reply.retry_after;
  body = error_json reply.body;
}

abbrev pub ok_page : Body → Page
ok_page body = record { status = 200; retry_after = none; body = body }

-- The page of the catcher for a status.
unfoldable pub caught : String → ℕ → Page
unfolding catch
caught id status = elim (catch status id) [
  | some reply ↦ page_of reply
  | none ↦ record { status = status; retry_after = none; body = basic }
]

unfoldable pub page_of_answer : String → Answer → Ending → Page
unfolding caught respond_to
page_of_answer id answer done = ok_page (answered answer)
page_of_answer id answer (failed e) = page_of (respond_to id e)
page_of_answer id answer crashed = caught id 500

-- The guards' errors and all panics are for the catchers.
unfoldable pub respond : String → Outcome Answer → Page
unfolding caught page_of_answer ending_of
respond id (success answer) = page_of_answer id answer (ending_of answer)
respond id (error status e) = caught id status
respond id panicked = caught id 500

unfoldable pub refuse {ℓ} : {A : Type ℓ} → String → ℕ → Outcome A → Page
unfolding caught
refuse id status (success _) = caught id status
refuse id status (error guard_status e) = caught id guard_status
refuse id status panicked = caught id 500

-- The guards of the admin's routes, or of the others.
unfoldable pub guards_if :
    Bool
    → Codecs
    → Reading
    → Reading
    → Option String
    → Managed
    → Local
    → Outcome AuthenticatedKey × Managed × Local
guards_if true = guard_admin_route
guards_if false = guard_route

abbrev pub fresh_local : Local
fresh_local = record { rate_limit_info = none; auth_key_id = none }

module _ (X : Raindex) (L : RegistryLibrary X) (C : Calls X) where
  pub record Server : Type 0 where
    pub managed : Managed
    pub service : Service X L

  -- The page, and what the guards and the handler leave.
  unfoldable pub dispatch :
      Codecs
      → Reading
      → Reading
      → String
      → Option String
      → Asked
      → Server
      → Page × Managed × Local × Service X L
  unfolding respond refuse caught guards_if get_health
  dispatch c r r' id header (endpoint req) v =
      let served = route X L C c r r' header req v.managed fresh_local v.service in
      (respond id served.outcome, served.managed, served.cached, served.service)
  dispatch c r r' id header health v = (ok_page get_health, v.managed, fresh_local, v.service)
  dispatch c r r' id header (refused admin status) v =
      let (outcome, m, l) = guards_if admin c r r' header v.managed fresh_local in
      (refuse id status outcome, m, l, v.service)
  dispatch c r r' id header unmatched v = (caught id 404, v.managed, fresh_local, v.service)

  -- The fairings around it; `uuid` is the fresh id.
  unfoldable pub serve_request :
      Codecs → Reading → Reading → String → Incoming → Server → Response × Server
  unfolding dispatch set_request_id
  serve_request c r r' uuid inc v =
      let id = extract_request_id inc.request_id uuid in
      let (page, m, l, s) = dispatch c r r' id inc.authorization inc.asked v in
      (
        set_request_id id (rate_limit_headers l) page,
        record {
          managed = record m { pool = log_usage inc.method inc.path page.status l m.pool };
          service = s;
        },
      )

  -- Requests one after another, each with the readings of the clock and the fresh id it gets.
  unfoldable pub serve_requests :
      Codecs → List (Reading × Reading × String × Incoming) → Server → List Response × Server
  serve_requests c [] v = ([], v)
  serve_requests c ((r, r', uuid, inc) ∷ rest) v =
      let (response, v') = serve_request c r r' uuid inc v in
      let (responses, v'') = serve_requests c rest v' in (response ∷ responses, v'')
