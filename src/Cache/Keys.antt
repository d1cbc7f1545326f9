-- ===== src/Cache/Keys.antt =====
-- Equality of cache keys.
use Prim.Native.String.{String}
use text.Mathlib.Text.{◌==◌ as str_eq}
use text.Mathlib.TextEquality.{eq_iff}
use albion_rest_api.Base.{
  ℕ, ◌≡◌, refl, ap, ap₂, Bool, true, false, ◌&&◌, Option, none, some, ◌==◌, ==_iff,
}

pub record Eq (A : Type 0) : Type 0 where
  pub beq : A → A → Bool
  pub beq_sound : (a b : A) → beq a b ≡ true → a ≡ b

instance abbrev pub nat_eq : Eq ℕ
nat_eq = record { beq = λ a b. a == b; beq_sound = λ a b h. (==_iff a b).0 h }

instance abbrev pub string_eq : Eq String
string_eq = record { beq = str_eq; beq_sound = λ a b h. (eq_iff a b).0 h }

pub both-true : (a b : Bool) → (a && b) ≡ true → (a ≡ true) × (b ≡ true)
both-true true true h = (refl, refl)
both-true true false h = absurd cc
both-true false b h = absurd cc

instance abbrev pub pair_eq : {A B : Type 0} ⦃ea : Eq A⦄ ⦃eb : Eq B⦄ → Eq (A × B)
pair_eq {A} {B} ⦃ea⦄ ⦃eb⦄ = record {
  beq = λ p q. ea.beq (p.0) (q.0) && eb.beq (p.1) (q.1);
  beq_sound = λ p q h.
      let (x, y) = both-true (ea.beq (p.0) (q.0)) (eb.beq (p.1) (q.1)) h in
      ap₂ {C = A × B} (λ a b. (a, b)) (ea.beq_sound _ _ x) (eb.beq_sound _ _ y);
}

unfoldable pub option_beq : {A : Type 0} → Eq A → Option A → Option A → Bool
option_beq ea none none = true
option_beq ea none (some b) = false
option_beq ea (some a) none = false
option_beq ea (some a) (some b) = ea.beq a b

pub option_beq_sound : {A : Type 0} (ea : Eq A) (a b : Option A) → option_beq ea a b ≡ true → a ≡ b
unfolding option_beq
option_beq_sound ea none none h = refl
option_beq_sound ea none (some b) h = absurd cc
option_beq_sound ea (some a) none h = absurd cc
option_beq_sound ea (some a) (some b) h = ap some (ea.beq_sound a b h)

instance abbrev pub option_eq : {A : Type 0} ⦃ea : Eq A⦄ → Eq (Option A)
option_eq ⦃ea⦄ = record { beq = option_beq ea; beq_sound = option_beq_sound ea }
