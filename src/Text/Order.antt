-- ===== src/Text/Order.antt =====
-- The order of texts in the `ORDER BY` of src/direct_trades.rs and src/cli.rs.
use Prim.Native.Char.{code}
use Prim.Native.String.{String, [], ◌∷◌}
use albion_rest_api.Base.{◌≡◌, refl, Bool, true, false, ◌&&◌, ◌||◌, arith, ltb, ◌==◌}

-- Texts compare as their bytes, which is as their code points.
unfoldable pub text_ltb : String → String → Bool
text_ltb [] [] = false
text_ltb [] (d ∷ t) = true
text_ltb (c ∷ s) [] = false
text_ltb (c ∷ s) (d ∷ t) = ltb (code c) (code d) || (code c == code d && text_ltb s t)

text_ltb_nil : (a : String) → text_ltb a "" ≡ false
unfolding text_ltb
text_ltb_nil [] = refl
text_ltb_nil (x ∷ a) = refl

pub text_ltb_trans :
    (a b c : String) → text_ltb a b ≡ true → text_ltb b c ≡ true → text_ltb a c ≡ true
unfolding text_ltb
text_ltb_trans a b [] h k = absurd (ground (arith, text_ltb_nil b, k))
text_ltb_trans a [] (z ∷ c) h k = absurd (ground (arith, text_ltb_nil a, h))
text_ltb_trans [] (y ∷ b) (z ∷ c) h k = refl
text_ltb_trans (x ∷ a) (y ∷ b) (z ∷ c) h k = ground (arith, text_ltb_trans a b c, h, k)

-- What is between two texts, or equal to one, is after the first or before the second.
pub text_ltb_between :
    (a b c : String) → text_ltb a c ≡ true → (text_ltb a b || text_ltb b c) ≡ true
unfolding text_ltb
text_ltb_between a b [] h = absurd (ground (arith, text_ltb_nil a, h))
text_ltb_between a [] (z ∷ c) h = ground (arith, text_ltb_nil a)
text_ltb_between [] (y ∷ b) (z ∷ c) h = refl
text_ltb_between (x ∷ a) (y ∷ b) (z ∷ c) h = ground (arith, text_ltb_between a b c, h)

pub text_ltb_irrefl : (a : String) → text_ltb a a ≡ false
unfolding text_ltb
text_ltb_irrefl [] = refl
text_ltb_irrefl (x ∷ a) = ground (arith, text_ltb_irrefl a)

pub text_ltb_asym : (a b : String) → text_ltb a b ≡ true → text_ltb b a ≡ false
text_ltb_asym a b h = ground (arith, text_ltb_irrefl a, text_ltb_trans a b a h)
