-- ===== src/Http/RequestId.antt =====
-- src/fairings/request_logger.rs: the ids that may be echoed in a response header.
use Prim.Native.String.{String}
use albion_rest_api.Base.{◌≡◌, refl, true, Option, none, some, Bool-cases, inl, inr}
use albion_rest_api.Text.Trim.{trim, trim_idem}
use albion_rest_api.Http.{accepts_id, extract_request_id}

-- Whatever header a client sends, the id of its request is trimmed text of 1 to 128 bytes, all of
-- them ASCII and none a control character, if the fresh UUIDs are; and a client that sends this id
-- back gets it again.
pub extract_request_id-accepts_id :
    (header : Option String) (uuid fresh : String)
    → accepts_id uuid ≡ true
    → trim uuid ≡ uuid
    → (accepts_id (extract_request_id header uuid) ≡ true)
      × (extract_request_id (some (extract_request_id header uuid)) fresh
          ≡ extract_request_id header uuid)
unfolding extract_request_id
extract_request_id-accepts_id none uuid fresh good trimmed = (good, rw (trimmed, good) refl)
extract_request_id-accepts_id (some value) uuid fresh good trimmed =
    elim (Bool-cases (accepts_id (trim value))) [
      | inl taken ↦ rw taken (taken, rw (trim_idem value, taken) refl)
      | inr refused ↦ rw refused (good, rw (trimmed, good) refl)
    ]
