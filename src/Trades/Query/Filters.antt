-- ===== src/Trades/Query/Filters.antt =====
-- Filters, joins and `DISTINCT` on lists, for the subqueries of src/direct_trades.rs.
use albion_rest_api.Base.{
  ◌≡◌, refl, ap, ap₂, ◌∙◌, Bool, true, false, ◌&&◌, ◌||◌, Bool-cases, List, [], ◌∷◌, ◌++◌, map, inl,
  inr, arith, if◌then◌else◌, filter, any, concat_map, All,
}

module _ {ℓ} {A : Type ℓ} where
  pub filter_ext :
      (p q : A → Bool) (xs : List A) → All (λ x. p x ≡ q x) xs → filter p xs ≡ filter q xs
  unfolding filter
  filter_ext p q [] h = refl
  filter_ext p q (x ∷ xs) (h, hs) = ap₂ (λ b zs. if b then x ∷ zs else zs) h (filter_ext p q xs hs)

  pub any_ext : (p q : A → Bool) (xs : List A) → All (λ x. p x ≡ q x) xs → any p xs ≡ any q xs
  unfolding any
  any_ext p q [] h = refl
  any_ext p q (x ∷ xs) (h, hs) = ap₂ (◌||◌) h (any_ext p q xs hs)

  pub filter-filter :
      (p q : A → Bool) (xs : List A) → filter p (filter q xs) ≡ filter (λ x. q x && p x) xs
  unfolding filter
  filter-filter p q [] = refl
  filter-filter p q (x ∷ xs) = elim (Bool-cases (q x)) [
    | inl kept ↦ rw kept (rw (filter-filter p q xs) refl)
    | inr lost ↦ rw lost (filter-filter p q xs)
  ]

  pub any-filter : (p q : A → Bool) (xs : List A) → any p (filter q xs) ≡ any (λ x. q x && p x) xs
  unfolding any filter
  any-filter p q [] = refl
  any-filter p q (x ∷ xs) = elim (Bool-cases (q x)) [
    | inl kept ↦ rw kept (ap (λ b. p x || b) (any-filter p q xs))
    | inr lost ↦ rw lost (any-filter p q xs)
  ]

  pub filter-append :
      (p : A → Bool) (xs ys : List A) → filter p (xs ++ ys) ≡ filter p xs ++ filter p ys
  unfolding filter
  filter-append p [] ys = refl
  filter-append p (x ∷ xs) ys = elim (Bool-cases (p x)) [
    | inl kept ↦ rw kept (ap (◌∷◌ x) (filter-append p xs ys))
    | inr lost ↦ rw lost (filter-append p xs ys)
  ]

  pub filter_none : (p : A → Bool) (xs : List A) → All (λ x. p x ≡ false) xs → filter p xs ≡ []
  unfolding filter
  filter_none p [] h = refl
  filter_none p (x ∷ xs) (h, hs) = rw h (filter_none p xs hs)

  pub All-filter {κ} :
      (P : A → Type κ) (p : A → Bool) (xs : List A) → All P xs → All P (filter p xs)
  unfolding filter
  All-filter P p [] h = tt
  All-filter P p (x ∷ xs) (h, hs) = elim (Bool-cases (p x)) [
    | inl kept ↦ rw kept (h, All-filter P p xs hs)
    | inr lost ↦ rw lost (All-filter P p xs hs)
  ]

  pub All_every {κ} : (P : A → Type κ) (xs : List A) → ((x : A) → P x) → All P xs
  All_every P [] h = tt
  All_every P (x ∷ xs) h = (h x, All_every P xs h)

  pub All-map {κ μ} :
      (P : A → Type κ) (Q : A → Type μ) (xs : List A) → ((x : A) → P x → Q x) → All P xs → All Q xs
  All-map P Q [] f h = tt
  All-map P Q (x ∷ xs) f (h, hs) = (f x h, All-map P Q xs f hs)

  pub All-append {κ} : (P : A → Type κ) (xs ys : List A) → All P xs → All P ys → All P (xs ++ ys)
  All-append P [] ys h k = k
  All-append P (x ∷ xs) ys (p, h) k = (p, All-append P xs ys h k)

  -- What a filter leaves passes it.
  pub filter-All : (p : A → Bool) (xs : List A) → All (λ x. p x ≡ true) (filter p xs)
  unfolding filter
  filter-All p [] = tt
  filter-All p (x ∷ xs) = elim (Bool-cases (p x)) [
    | inl kept ↦ rw kept (kept, filter-All p xs)
    | inr lost ↦ rw lost (filter-All p xs)
  ]

  pub any-All : (p : A → Bool) (xs : List A) → any p xs ≡ false → All (λ x. p x ≡ false) xs
  unfolding any
  any-All p [] h = tt
  any-All p (x ∷ xs) h = (ground (arith, h), any-All p xs (ground (arith, h)))

  pub All-both {κ μ} :
      (P : A → Type κ) (Q : A → Type μ) (xs : List A)
      → All P xs
      → All Q xs
      → All (λ x. P x × Q x) xs
  All-both P Q [] h k = tt
  All-both P Q (x ∷ xs) (p, h) (q, k) = ((p, q), All-both P Q xs h k)

module _ {ℓ κ} {A : Type ℓ} {B : Type κ} where
  pub All_swap {μ} :
      (R : A → B → Type μ) (xs : List A) (ys : List B)
      → All (λ x. All (λ y. R x y) ys) xs
      → All (λ y. All (λ x. R x y) xs) ys
  All_swap R [] ys h = All_every _ ys (λ y. tt)
  All_swap R (x ∷ xs) ys (h, hs) = All-both _ _ ys h (All_swap R xs ys hs)

  pub All_of_map {μ} :
      (P : B → Type μ) (f : A → B) (xs : List A) → All (λ x. P (f x)) xs → All P (map f xs)
  All_of_map P f [] h = tt
  All_of_map P f (x ∷ xs) (p, h) = (p, All_of_map P f xs h)

  pub All-concat_map {μ} :
      (P : B → Type μ) (f : A → List B) (xs : List A)
      → All (λ x. All P (f x)) xs
      → All P (concat_map f xs)
  unfolding concat_map
  All-concat_map P f [] h = tt
  All-concat_map P f (x ∷ xs) (p, h) =
      All-append P (f x) (concat_map f xs) p (All-concat_map P f xs h)

  pub filter-map :
      (p : B → Bool) (f : A → B) (xs : List A)
      → filter p (map f xs) ≡ map f (filter (λ x. p (f x)) xs)
  unfolding filter
  filter-map p f [] = refl
  filter-map p f (x ∷ xs) = elim (Bool-cases (p (f x))) [
    | inl kept ↦ rw kept (ap (◌∷◌ (f x)) (filter-map p f xs))
    | inr lost ↦ rw lost (filter-map p f xs)
  ]

  pub filter-concat_map :
      (p : B → Bool) (f : A → List B) (xs : List A)
      → filter p (concat_map f xs) ≡ concat_map (λ x. filter p (f x)) xs
  unfolding filter concat_map
  filter-concat_map p f [] = refl
  filter-concat_map p f (x ∷ xs) =
      filter-append p (f x) (concat_map f xs)
      ∙ ap (λ zs. filter p (f x) ++ zs) (filter-concat_map p f xs)

  pub concat_map-filter :
      (f : A → List B) (p : A → Bool) (xs : List A)
      → concat_map f (filter p xs) ≡ concat_map (λ x. if p x then f x else []) xs
  unfolding filter concat_map
  concat_map-filter f p [] = refl
  concat_map-filter f p (x ∷ xs) = elim (Bool-cases (p x)) [
    | inl kept ↦ rw kept (ap (λ zs. f x ++ zs) (concat_map-filter f p xs))
    | inr lost ↦ rw lost (concat_map-filter f p xs)
  ]

  pub concat_map_ext :
      (f g : A → List B) (xs : List A) → ((x : A) → f x ≡ g x) → concat_map f xs ≡ concat_map g xs
  unfolding concat_map
  concat_map_ext f g [] h = refl
  concat_map_ext f g (x ∷ xs) h = ap₂ (◌++◌) (h x) (concat_map_ext f g xs h)
