-- ===== src/Order/Found.antt =====
-- The first order of a query, in src/routes/order/.
use albion_rest_api.Base.{◌≡◌, refl, List, [], ◌∷◌}
use albion_rest_api.Error.{ok}
use albion_rest_api.Order.{first_or_missing}

pub first_or_missing-ok :
    {A : Type 0} (orders : List A) (order : A)
    → first_or_missing orders ≡ ok order
    → (rest : List A) × (orders ≡ order ∷ rest)
unfolding first_or_missing
first_or_missing-ok [] order h = absurd cc
first_or_missing-ok (o ∷ os) order h = (os, (let e : o ≡ order = cc in rw e refl))
