-- ===== src/Server/Examples.antt =====
-- Requests to a small server.
use Prim.Native.String.{String}
use albion_rest_api.Base.{ℕ, arith, ◌≡◌, refl, true, Option, none, some, List, [], ◌∷◌, ◌++◌}
use albion_rest_api.Raindex.Sample.{sample}
use albion_rest_api.RateLimiter.{
  Reading, new, check_global, check_per_key, prune_window, decide_window, compute_reset, clean_up,
  put_window,
}
use albion_rest_api.Text.{byte_len, split_at_byte, eq_ignore_ascii_case, split_once}
use albion_rest_api.Text.Trim.{trim}
use albion_rest_api.Database.{Database, select_active, contains_key, contains_id, insert_usage}
use albion_rest_api.Database.Keys.{IsValid}
use albion_rest_api.Auth.{
  credentials_of, verify_key, settle, remember, cache_once, charge_key, authenticate, require_admin,
  authenticate_admin, limit_global, guard_route, log_usage, rate_limit_headers,
}
use albion_rest_api.Auth.Sample.{codecs, db, reading, managed, header}
use albion_rest_api.Http.{extract_request_id, respond_to, catch}
use albion_rest_api.Registry.{runs}
use albion_rest_api.Registry.Sample.{library, service}
use albion_rest_api.Handlers.{registry_update, todo, dca, order_detail, orders_of_owner}
use albion_rest_api.Handlers.Sample.{calls}
use albion_rest_api.Handlers.Route.{guard_admin_route, guards_of, after_guards, route}
use albion_rest_api.Server.{
  Asked, endpoint, health, refused, unmatched, Incoming, Server, Response, get_health, fresh_local,
  set_request_id, asked_with, validated_address, of_result, of_fetch, ending_of, caught,
  page_of_answer, respond, refuse, guards_if, dispatch, serve_request, serve_requests,
}
use albion_rest_api.Server.Responses.{IsPageFor, serve_request-IsPageFor}
use albion_rest_api.Server.Usage.{usage_rows, serve_request-usage_rows}
use albion_rest_api.Server.Runs.{serve_requests-IsValid, serve_requests-NoAdmin}

abbrev server : Server sample library calls
server = record { managed = managed db 9; service = service }

abbrev incoming : Option String → Asked → Incoming
incoming authorization asked = record {
  method = "GET";
  path = "/v1/x";
  request_id = some " r-1 ";
  authorization = authorization;
  asked = asked;
}

abbrev inputs : List (Reading × Reading × String × Incoming)
inputs =
    (reading, reading, "u", incoming header (endpoint (registry_update runs "b")))
    ∷ (reading, reading, "u", incoming none (endpoint (order_detail 7)))
    ∷ (reading, reading, "u", incoming header (endpoint (todo dca)))
    ∷ (reading, reading, "u", incoming header (refused true 422))
    ∷ (reading, reading, "u", incoming none health)
    ∷ (
      reading,
      reading,
      "u",
      incoming none
          (asked_with (validated_address (λ _. none) "0x") (λ a. orders_of_owner a none none)),
    )
    ∷ (reading, reading, "u", incoming none unmatched)
    ∷ []

statuses : List Response → List ℕ
statuses [] = []
statuses (response ∷ responses) = response.page.status ∷ statuses responses

program : Unit {0}
unfolding new check_global check_per_key prune_window decide_window compute_reset clean_up
    put_window byte_len split_at_byte eq_ignore_ascii_case split_once select_active credentials_of
    verify_key settle remember cache_once charge_key authenticate require_admin authenticate_admin
    limit_global guard_admin_route guard_route guards_of after_guards route contains_id insert_usage
    log_usage usage_rows rate_limit_headers extract_request_id trim respond_to catch of_result
    of_fetch ending_of caught page_of_answer respond refuse guards_if dispatch serve_request
    serve_requests statuses get_health set_request_id asked_with validated_address
program = tt

-- The key is not an admin's, and may make one request in a minute.
served_run :
    statuses (serve_requests sample library calls codecs inputs server).0
    ≡ 403 ∷ 401 ∷ 429 ∷ 429 ∷ 200 ∷ 401 ∷ 404 ∷ []
unfolding program
served_run = refl

serve_request-IsPageFor_example :
    ((serve_request sample library calls codecs reading reading "u"
        (incoming none unmatched)
        server).0.request_id
      ≡ extract_request_id (some " r-1 ") "u")
    × IsPageFor
        (extract_request_id (some " r-1 ") "u")
        (serve_request sample library calls codecs reading reading "u"
          (incoming none unmatched)
          server).0.page
serve_request-IsPageFor_example =
    serve_request-IsPageFor sample library calls codecs reading reading "u"
      (incoming none unmatched) server

db-IsValid : IsValid db
unfolding contains_key contains_id
db-IsValid = record {
  unique_keys = (refl, tt);
  unique_ids = (refl, tt);
  fresh = (omega arith, tt);
  owned = tt;
}

serve_requests-IsValid_example :
    (db' : Database) × ((serve_requests sample library calls codecs inputs server).1.managed.pool
      ≡ some db')
    × (db'.api_keys ≡ db.api_keys)
    × IsValid db'
serve_requests-IsValid_example =
    serve_requests-IsValid sample library calls codecs inputs server db refl db-IsValid

serve_requests-NoAdmin_example :
    (serve_requests sample library calls codecs inputs server).1.service.provider ≡ service.provider
serve_requests-NoAdmin_example =
    serve_requests-NoAdmin sample library calls codecs inputs server db refl (refl, tt)

abbrev request : Incoming
request = incoming header (endpoint (order_detail 7))

-- The request of the key is logged, with the 404 of its page.
logged_run :
    usage_rows "GET" "/v1/x" 404
      (guards_of (order_detail 7) codecs reading reading header (managed db 9) fresh_local).2
      db
    ≡ record { api_key_id = 1; method = "GET"; path = "/v1/x"; status_code = 404 } ∷ []
unfolding program
logged_run = refl

serve_request-usage_rows_example :
    (db' : Database) × ((serve_request sample library calls codecs reading reading "u" request
        server).1.managed.pool
      ≡ some db')
    × (db'.usage_logs
        ≡ db.usage_logs
          ++ usage_rows "GET" "/v1/x"
              (serve_request sample library calls codecs reading reading "u" request
                server).0.page.status
              (guards_of
                (order_detail 7)
                codecs
                reading
                reading
                header
                server.managed
                fresh_local).2
              db)
serve_request-usage_rows_example =
    serve_request-usage_rows sample library calls codecs reading reading "u" request server
      (order_detail 7) db refl refl refl
