-- ===== src/Http.antt =====
-- What a client sees of an error and of a request's id: the responder of src/error.rs, the catchers
-- of src/catchers.rs, and the request id of src/fairings/request_logger.rs. Logging is left out.
pub mod RequestId
pub mod Agreement
mod Examples
use Prim.Native.Char.{Char, code}
use Prim.Native.String.{String, [], ◌∷◌}
use text.Mathlib.Text.{◌==◌ as str_eq}
use albion_rest_api.Base.{
  ℕ, Bool, true, false, not, ◌&&◌, ◌||◌, Option, none, some, leb, ltb, ◌==◌, if◌then◌else◌,
}
use albion_rest_api.Error.{
  ApiError, bad_request, unauthorized, forbidden, not_found, internal, rate_limited,
  not_yet_indexed, status_of,
}
use albion_rest_api.Text.{byte_len}
use albion_rest_api.Text.Trim.{trim}

pub record ApiErrorDetail : Type 0 where
  pub code : String
  pub message : String

pub record ApiErrorResponse : Type 0 where
  pub request_id : String
  pub error : ApiErrorDetail

-- A reply: its status, its Retry-After header and its body.
pub record Reply : Type 0 where
  pub status : ℕ
  pub retry_after : Option String
  pub body : ApiErrorResponse

abbrev error_body : String → String → String → ApiErrorResponse
error_body request_id code message = record {
  request_id = request_id;
  error = record { code = code; message = message };
}

unfoldable pub error_code : ApiError → String
error_code (bad_request _) = "BAD_REQUEST"
error_code (unauthorized _) = "UNAUTHORIZED"
error_code (forbidden _) = "FORBIDDEN"
error_code (not_found _) = "NOT_FOUND"
error_code (internal _) = "INTERNAL_ERROR"
error_code (rate_limited _) = "RATE_LIMITED"
error_code (not_yet_indexed _) = "NOT_YET_INDEXED"

unfoldable pub error_message : ApiError → String
error_message (bad_request msg) = msg
error_message (unauthorized msg) = msg
error_message (forbidden msg) = msg
error_message (not_found msg) = msg
error_message (internal msg) = msg
error_message (rate_limited msg) = msg
error_message (not_yet_indexed msg) = msg

-- `matches!(self, ApiError::RateLimited(_))`
unfoldable pub is_rate_limited : ApiError → Bool
is_rate_limited (rate_limited _) = true
is_rate_limited (bad_request _) = false
is_rate_limited (unauthorized _) = false
is_rate_limited (forbidden _) = false
is_rate_limited (not_found _) = false
is_rate_limited (internal _) = false
is_rate_limited (not_yet_indexed _) = false

-- `ApiError::respond_to`, of a body that is serialized.
unfoldable pub respond_to : String → ApiError → Reply
unfolding status_of error_code error_message is_rate_limited
respond_to request_id e = record {
  status = status_of e;
  retry_after = if is_rate_limited e then some "60" else none;
  body = error_body request_id (error_code e) (error_message e);
}

abbrev plain_reply : ℕ → ApiErrorResponse → Reply
plain_reply status body = record { status = status; retry_after = none; body = body }

-- The catcher that is registered for a status, if there is one.
unfoldable pub catch : ℕ → String → Option Reply
catch status request_id =
    if status == 400
    then some (
        plain_reply 400
          (error_body request_id "BAD_REQUEST" "The request was invalid or malformed"))
    else if status == 401
    then some
        (plain_reply 401 (error_body request_id "UNAUTHORIZED" "Missing or invalid credentials"))
    else if status == 403
    then some (plain_reply 403 (error_body request_id "FORBIDDEN" "Insufficient permissions"))
    else if status == 404
    then some
        (plain_reply 404 (error_body request_id "NOT_FOUND" "The requested resource was not found"))
    else if status == 429
    then some (record {
      status = 429;
      retry_after = some "60";
      body = error_body request_id "RATE_LIMITED" "Too many requests, please try again later";
    })
    else if status == 422
    then some (
        plain_reply 422
          (error_body request_id "UNPROCESSABLE_ENTITY" "Request body could not be parsed"))
    else if status == 500
    then some (plain_reply 500 (error_body request_id "INTERNAL_ERROR" "Internal server error"))
    else none

-- `is_ascii`.
unfoldable pub is_ascii : String → Bool
is_ascii [] = true
is_ascii (c ∷ s) = ltb (code c) 128 && is_ascii s

-- `chars().any(|c| c.is_control())`
unfoldable pub any_control : String → Bool
any_control [] = false
any_control (c ∷ s) = (ltb (code c) 32 || leb 127 (code c) && ltb (code c) 160) || any_control s

abbrev pub accepts_id : String → Bool
accepts_id trimmed =
    not (str_eq trimmed "")
    && leb (byte_len trimmed) 128
    && is_ascii trimmed
    && not (any_control trimmed)

-- `extract_request_id`, of the header and a fresh UUID.
unfoldable pub extract_request_id : Option String → String → String
extract_request_id none uuid = uuid
extract_request_id (some value) uuid = if accepts_id (trim value) then trim value else uuid
