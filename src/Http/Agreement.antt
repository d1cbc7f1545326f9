-- ===== src/Http/Agreement.antt =====
-- The responder of src/error.rs against the catchers of src/catchers.rs.
use Prim.Native.String.{String}
use albion_rest_api.Base.{◌≡◌, ◌≢◌, refl, some}
use albion_rest_api.Error.{
  ApiError, bad_request, unauthorized, forbidden, not_found, internal, rate_limited,
  not_yet_indexed, status_of,
}
use albion_rest_api.Http.{Reply, respond_to, catch, error_code, is_rate_limited}

-- An error that a handler returns and the same error of a guard, which the catcher of its status
-- answers, give the same status, code, Retry-After header and request id; only 202 has no catcher.
pub catch-respond_to :
    (request_id : String) (e : ApiError)
    → status_of e ≢ 202
    → (reply : Reply) × (catch (status_of e) request_id ≡ some reply)
      × (reply.status ≡ (respond_to request_id e).status)
      × (reply.retry_after ≡ (respond_to request_id e).retry_after)
      × (reply.body.request_id ≡ (respond_to request_id e).body.request_id)
      × (reply.body.error.code ≡ (respond_to request_id e).body.error.code)
unfolding catch respond_to status_of error_code is_rate_limited
catch-respond_to request_id (bad_request _) h = (_, refl, refl, refl, refl, refl)
catch-respond_to request_id (unauthorized _) h = (_, refl, refl, refl, refl, refl)
catch-respond_to request_id (forbidden _) h = (_, refl, refl, refl, refl, refl)
catch-respond_to request_id (not_found _) h = (_, refl, refl, refl, refl, refl)
catch-respond_to request_id (internal _) h = (_, refl, refl, refl, refl, refl)
catch-respond_to request_id (rate_limited _) h = (_, refl, refl, refl, refl, refl)
catch-respond_to request_id (not_yet_indexed _) h = absurd (h refl)
