-- ===== src/Error.antt =====
-- src/error.rs: the API's error type, and `Result<_, ApiError>` with its `?`.
use Prim.Native.String.{String}
use albion_rest_api.Base.{Option, none, some, ◌↔◌, ℕ, ◌≡◌, refl, ◌⊎◌, inl, inr}

pub data ApiError : Type 0 where
  bad_request unauthorized forbidden not_found internal rate_limited not_yet_indexed :
      String → ApiError

pub data Result {ℓ} (A : Type ℓ) : Type ℓ where
  err : ApiError → Result A
  ok : A → Result A

infixl 5 ◌>>=◌
abbrev pub ◌>>=◌ {ℓ κ} : {T : Type ℓ} {U : Type κ} → Result T → (T → Result U) → Result U
◌>>=◌ m next = elim m [ err e ↦ err e | ok t ↦ next t ]

pub Result-cases {ℓ} :
    {A : Type ℓ} (r : Result A) → ((e : ApiError) × (r ≡ err e)) ⊎ ((a : A) × (r ≡ ok a))
Result-cases (err e) = inl (e, refl)
Result-cases (ok a) = inr (a, refl)

-- The status of the responder.
unfoldable pub status_of : ApiError → ℕ
status_of (bad_request _) = 400
status_of (unauthorized _) = 401
status_of (forbidden _) = 403
status_of (not_found _) = 404
status_of (internal _) = 500
status_of (rate_limited _) = 429
status_of (not_yet_indexed _) = 202

-- `map_err` to an internal error.
unfoldable pub or_internal {ℓ} : {A : Type ℓ} → String → Option A → Result A
or_internal message none = err (internal message)
or_internal message (some a) = ok a

-- A chain that succeeds took every step.
pub >>=-ok_iff {ℓ κ} :
    {A : Type ℓ} {B : Type κ} (m : Result A) (f : A → Result B) (b : B)
    → (m >>= f ≡ ok b) ↔ ((a : A) × (m ≡ ok a) × (f a ≡ ok b))
>>=-ok_iff (err e) f b = (λ h. absurd cc, λ (a, h, k). absurd cc)
>>=-ok_iff (ok a) f b = (λ h. (a, refl, h), λ (a', h, k). (let same : a ≡ a' = cc in rw same k))
