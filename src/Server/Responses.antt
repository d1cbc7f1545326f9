-- ===== src/Server/Responses.antt =====
-- What every response of the server has, whoever answers: src/main.rs, src/error.rs,
-- src/catchers.rs and src/fairings/request_logger.rs.
use Prim.Native.String.{String}
use mathlib.Core.Path.{subst}
use albion_rest_api.Base.{
  ℕ, ◌≡◌, ◌⊎◌, refl, ==_iff, sym, false, Option, none, some, ◌==◌, if◌then◌else◌, Bool-cases, inl,
  inr,
}
use albion_rest_api.Error.{
  ApiError, bad_request, unauthorized, forbidden, not_found, internal, rate_limited,
  not_yet_indexed, status_of,
}
use albion_rest_api.Raindex.{Raindex}
use albion_rest_api.RateLimiter.{Reading}
use albion_rest_api.Auth.{Outcome, success, error, panicked, Codecs}
use albion_rest_api.Http.{
  respond_to, catch, error_code, error_message, is_rate_limited, extract_request_id,
}
use albion_rest_api.Registry.{RegistryLibrary}
use albion_rest_api.Handlers.{Answer, Calls}
use albion_rest_api.Handlers.Route.{route}
use albion_rest_api.Server.{
  Ending, done, failed, crashed, ending_of, Asked, endpoint, health, refused, unmatched, Incoming,
  Body, answered, healthy, error_json, basic, Page, page_of, caught, page_of_answer, respond,
  refuse, fresh_local, guards_if, Server, dispatch, serve_request,
}

-- The code that stands in the body of an error with this status.
unfoldable pub code_of_status : ℕ → Option String
code_of_status status =
    if status == 202
    then some "NOT_YET_INDEXED"
    else if status == 400
    then some "BAD_REQUEST"
    else if status == 401
    then some "UNAUTHORIZED"
    else if status == 403
    then some "FORBIDDEN"
    else if status == 404
    then some "NOT_FOUND"
    else if status == 422
    then some "UNPROCESSABLE_ENTITY"
    else if status == 429
    then some "RATE_LIMITED"
    else if status == 500
    then some "INTERNAL_ERROR"
    else none

-- The body of an error has the id of the request and the code of the status; an answer has 200.
unfoldable pub IsBodyFor : String → ℕ → Body → Type 0
IsBodyFor id status (error_json r) =
    (r.request_id ≡ id) × (code_of_status status ≡ some r.error.code)
IsBodyFor id status (answered _) = status ≡ 200
IsBodyFor id status (healthy _) = status ≡ 200
IsBodyFor id status basic = (code_of_status status ≡ none) ⊎ (status ≡ 202)

-- With a Retry-After header exactly on 429.
unfoldable pub IsPageFor : String → Page → Type 0
IsPageFor id page =
    (page.retry_after ≡ (if page.status == 429 then some "60" else none))
    × IsBodyFor id page.status page.body

respond_to-IsPageFor : (id : String) (e : ApiError) → IsPageFor id (page_of (respond_to id e))
unfolding IsPageFor IsBodyFor code_of_status respond_to status_of error_code error_message
    is_rate_limited
respond_to-IsPageFor id (bad_request _) = (refl, (refl, refl))
respond_to-IsPageFor id (unauthorized _) = (refl, (refl, refl))
respond_to-IsPageFor id (forbidden _) = (refl, (refl, refl))
respond_to-IsPageFor id (not_found _) = (refl, (refl, refl))
respond_to-IsPageFor id (internal _) = (refl, (refl, refl))
respond_to-IsPageFor id (rate_limited _) = (refl, (refl, refl))
respond_to-IsPageFor id (not_yet_indexed _) = (refl, (refl, refl))

caught-IsPageFor : (id : String) (status : ℕ) → IsPageFor id (caught id status)
unfolding IsPageFor IsBodyFor code_of_status caught catch
caught-IsPageFor id status =
    or_else 400 (refl, (refl, refl))
      (λ not_400.
        or_else 401 (refl, (refl, refl))
          (λ not_401.
            or_else 403 (refl, (refl, refl))
              (λ not_403.
                or_else 404 (refl, (refl, refl))
                  (λ not_404.
                    or_else 429 (refl, (refl, refl))
                      (λ not_429.
                        or_else 422 (refl, (refl, refl))
                          (λ not_422.
                            or_else 500 (refl, (refl, refl))
                              (λ not_500.
                                rw
                                  (
                                    caught, catch, not_400, not_401, not_403, not_404, not_429,
                                    not_422, not_500,
                                  )
                                  (
                                    rw not_429 refl,
                                    uncaught not_400 not_401 not_403 not_404 not_422 not_429
                                        not_500,
                                  ))))))))
  where
    or_else :
        (n : ℕ)
        → IsPageFor id (caught id n)
        → ((status == n) ≡ false → IsPageFor id (caught id status))
        → IsPageFor id (caught id status)
    or_else n here other = elim (Bool-cases (status == n)) [
      | inl same ↦ subst (λ k. IsPageFor id (caught id k)) (sym ((==_iff status n).0 same)) here
      | inr differs ↦ other differs
    ]

    uncaught :
        (status == 400) ≡ false
        → (status == 401) ≡ false
        → (status == 403) ≡ false
        → (status == 404) ≡ false
        → (status == 422) ≡ false
        → (status == 429) ≡ false
        → (status == 500) ≡ false
        → (code_of_status status ≡ none) ⊎ (status ≡ 202)
    uncaught a b c d e f g = elim (Bool-cases (status == 202)) [
      | inl pending ↦ inr ((==_iff status 202).0 pending)
      | inr other ↦ inl (rw (code_of_status, other, a, b, c, d, e, f, g) refl)
    ]

page_of_answer-IsPageFor :
    (id : String) (answer : Answer) (ending : Ending)
    → IsPageFor id (page_of_answer id answer ending)
unfolding page_of_answer IsPageFor IsBodyFor
page_of_answer-IsPageFor id answer done = (refl, refl)
page_of_answer-IsPageFor id answer (failed e) = respond_to-IsPageFor id e
page_of_answer-IsPageFor id answer crashed = caught-IsPageFor id 500

respond-IsPageFor : (id : String) (o : Outcome Answer) → IsPageFor id (respond id o)
unfolding respond
respond-IsPageFor id (success answer) = page_of_answer-IsPageFor id answer (ending_of answer)
respond-IsPageFor id (error status e) = caught-IsPageFor id status
respond-IsPageFor id panicked = caught-IsPageFor id 500

refuse-IsPageFor {ℓ} :
    {A : Type ℓ} (id : String) (status : ℕ) (o : Outcome A) → IsPageFor id (refuse id status o)
unfolding refuse
refuse-IsPageFor id status (success a) = caught-IsPageFor id status
refuse-IsPageFor id status (error guard_status e) = caught-IsPageFor id guard_status
refuse-IsPageFor id status panicked = caught-IsPageFor id 500

module _ (X : Raindex) (L : RegistryLibrary X) (C : Calls X) where
  dispatch-IsPageFor :
      (c : Codecs) (r r' : Reading) (id : String) (header : Option String) (asked : Asked)
      (v : Server X L C)
      → IsPageFor id (dispatch X L C c r r' id header asked v).0
  unfolding dispatch IsPageFor IsBodyFor
  dispatch-IsPageFor c r r' id header (endpoint req) v =
      respond-IsPageFor id (route X L C c r r' header req v.managed fresh_local v.service).outcome
  dispatch-IsPageFor c r r' id header health v = (refl, refl)
  dispatch-IsPageFor c r r' id header (refused admin status) v =
      refuse-IsPageFor id status (guards_if admin c r r' header v.managed fresh_local).0
  dispatch-IsPageFor c r r' id header unmatched v = caught-IsPageFor id 404

  -- Every response, of a handler, of a guard's error, of a panic, of refused parameters or of an
  -- unknown path, carries the id of its request in its header; the body of an error carries the same
  -- id and the code of the response's status, where 202 and the seven statuses of the catchers have
  -- codes; an answer has status 200; and there is a Retry-After header, of 60 seconds, exactly on 429.
  pub serve_request-IsPageFor :
      (c : Codecs) (r r' : Reading) (uuid : String) (inc : Incoming) (v : Server X L C)
      → ((serve_request X L C c r r' uuid inc v).0.request_id
          ≡ extract_request_id inc.request_id uuid)
        × IsPageFor
            (extract_request_id inc.request_id uuid)
            (serve_request X L C c r r' uuid inc v).0.page
  unfolding serve_request
  serve_request-IsPageFor c r r' uuid inc v = (
    refl,
    dispatch-IsPageFor c r r' (extract_request_id inc.request_id uuid) inc.authorization inc.asked
        v,
  )
