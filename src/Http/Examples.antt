-- ===== src/Http/Examples.antt =====
-- Request ids and errors on small inputs.
use albion_rest_api.Base.{◌≡◌, refl, true, some, arith}
use albion_rest_api.Error.{rate_limited, status_of}
use albion_rest_api.Text.{byte_len}
use albion_rest_api.Text.Trim.{trim_start, trim_end, is_whitespace}
use albion_rest_api.Http.{
  Reply, respond_to, catch, accepts_id, extract_request_id, is_ascii, any_control,
}
use albion_rest_api.Http.RequestId.{extract_request_id-accepts_id}
use albion_rest_api.Http.Agreement.{catch-respond_to}

program : Unit {0}
unfolding extract_request_id is_ascii any_control byte_len trim_start trim_end is_whitespace
    status_of
program = tt

trimmed_run : extract_request_id (some " abc-1 ") "fresh" ≡ "abc-1"
unfolding program
trimmed_run = refl

injected_run : extract_request_id (some "a\r\nb") "fresh" ≡ "fresh"
unfolding program
injected_run = refl

extract_request_id-accepts_id_run :
    (accepts_id (extract_request_id (some " abc-1 ") "fresh") ≡ true)
    × (extract_request_id (some (extract_request_id (some " abc-1 ") "fresh")) "other"
        ≡ extract_request_id (some " abc-1 ") "fresh")
unfolding program
extract_request_id-accepts_id_run =
    extract_request_id-accepts_id (some " abc-1 ") "fresh" "other" refl refl

replies_agree :
    (reply : Reply) × (catch (status_of (rate_limited "slow down")) "r" ≡ some reply)
    × (reply.status ≡ (respond_to "r" (rate_limited "slow down")).status)
    × (reply.retry_after ≡ (respond_to "r" (rate_limited "slow down")).retry_after)
    × (reply.body.request_id ≡ (respond_to "r" (rate_limited "slow down")).body.request_id)
    × (reply.body.error.code ≡ (respond_to "r" (rate_limited "slow down")).body.error.code)
unfolding status_of
replies_agree = catch-respond_to "r" (rate_limited "slow down") (omega arith)
