-- ===== src/Pagination/Laws.antt =====
-- What the page numbers promise of the pages.
use native.Mathlib.Numerals.{unary_clauses}
use native.Mathlib.Nat.{div-add-mod, mod-lt}
use albion_rest_api.Base.{
  ℕ, zero, suc, ◌+◌, ◌-◌, ◌*◌, ◌/◌, ◌%◌, ◌≤◌, ◌<◌, ◌≡◌, ◌↔◌, refl, ap, true, List, [], ◌∷◌, ◌++◌,
  arith, ◌==◌, leb, if◌then◌else◌, length, take, drop, min, length-drop, Bool-cases, inl, inr,
}
use albion_rest_api.Pagination.{div_ceil, count_pages, build_pagination, slice_page}

mul_mono : (a b c : ℕ) → a ≤ b → a * c ≤ b * c
mul_mono a b c h = grind arith

-- The quotient is the least number of pages that hold the items.
pub div_ceil-lt_iff : (a b p : ℕ) → 0 < b → (p < div_ceil a b) ↔ (p * b < a)
unfolding div_ceil
div_ceil-lt_iff a b p h = (to, from)
  where
    split : a ≡ (a / b) * b + a % b
    split = grind (arith, div-add-mod a b)

    small : a % b < b
    small = mod-lt a h

    to : p < (if a % b == 0 then a / b else a / b + 1) → p * b < a
    to k = ground (arith, mul_mono (p + 1) (a / b) b, mul_mono p (a / b) b)

    from : p * b < a → p < (if a % b == 0 then a / b else a / b + 1)
    from k = ground (arith, mul_mono (a / b) p b, mul_mono (a / b + 1) p b)

-- For a positive page size there is more exactly when the pages up to this one hold fewer items
-- than there are.
pub build_pagination-has_more_iff :
    (total page page_size : ℕ)
    → 0 < page_size
    → ((build_pagination total page page_size).has_more ≡ true) ↔ (page * page_size < total)
unfolding build_pagination
build_pagination-has_more_iff total page page_size h = (
  λ e. (div_ceil-lt_iff total page_size page h).0 (ground arith),
  λ k. let below = (div_ceil-lt_iff total page_size page h).1 k in ground arith,
)

module _ {ℓ} {A : Type ℓ} where
  take-min-length : (n : ℕ) (xs : List A) → take (min n (length xs)) xs ≡ take n xs
  take-min-length zero xs = simp unary_clauses refl
  take-min-length (suc n) [] = simp unary_clauses refl
  take-min-length (suc n) (x ∷ xs) = simp unary_clauses (ap (◌∷◌ x) (take-min-length n xs))

  take_nil : (n : ℕ) → take {A = A} n [] ≡ []
  take_nil zero = refl
  take_nil (suc n) = refl

  pub take-add : (a b : ℕ) (xs : List A) → take (a + b) xs ≡ take a xs ++ take b (drop a xs)
  take-add zero b xs = ap (λ n. take n xs) (omega arith)
  take-add (suc a) b [] = rw (take_nil (suc a + b), take_nil b) refl
  take-add (suc a) b (x ∷ xs) =
      let step : suc a + b ≡ suc (a + b) = omega arith in rw step (ap (◌∷◌ x) (take-add a b xs))

  drop_of_length-le : (n : ℕ) (xs : List A) → length xs ≤ n → drop n xs ≡ []
  drop_of_length-le zero [] h = refl
  drop_of_length-le zero (x ∷ xs) h = absurd (omega arith)
  drop_of_length-le (suc n) [] h = refl
  drop_of_length-le (suc n) (x ∷ xs) h = drop_of_length-le n xs (omega arith)

  pub take_enough : (xs : List A) (n : ℕ) → length xs ≤ n → take n xs ≡ xs
  take_enough [] n h = take_nil n
  take_enough (x ∷ xs) (suc n) h = ap (◌∷◌ x) (take_enough xs n (omega arith))
  take_enough (x ∷ xs) zero h = absurd (omega arith)

  -- The slice of a page is the items that follow those of the pages before it.
  pub slice_page-take :
      (page page_size : ℕ) (items : List A)
      → slice_page page page_size items ≡ take page_size (drop ((page - 1) * page_size) items)
  unfolding slice_page
  slice_page-take page page_size items = elim (Bool-cases (leb (length items) offset)) [
    | inl past ↦ rw (past, drop_of_length-le offset items (ground arith), take_nil) refl
    | inr more ↦
        let size : min (offset + page_size) (length items) - offset
            ≡ min page_size (length (drop offset items)) =
          omega (arith, length-drop offset items) in
        rw (more, size) (take-min-length page_size (drop offset items))
  ]
    where
      offset : ℕ
      offset = (page - 1) * page_size

  -- The first pages, one after the other.
  unfoldable pub all_pages : ℕ → ℕ → List A → List A
  all_pages zero page_size items = []
  all_pages (suc n) page_size items =
      all_pages n page_size items ++ slice_page (suc n) page_size items

  all_pages-take :
      (n page_size : ℕ) (items : List A) → all_pages n page_size items ≡ take (n * page_size) items
  unfolding all_pages
  all_pages-take zero page_size items =
      ap (λ k. take k items) (let e : 0 ≡ 0 * page_size = omega arith in e)
  all_pages-take (suc n) page_size items =
      let step : suc n * page_size ≡ n * page_size + page_size = grind arith in
      let before : suc n - 1 ≡ n = omega arith in
      rw (step, take-add, all_pages-take n page_size items, slice_page-take, before) refl

-- The pages from the first to the last, one after the other, are all the items, in order, if the
-- page size is positive.
pub all_pages-count_pages {ℓ} :
    {A : Type ℓ} (page_size : ℕ) (items : List A)
    → 0 < page_size
    → all_pages (count_pages (length items) page_size) page_size items ≡ items
unfolding count_pages
all_pages-count_pages page_size items h = rw all_pages-take (take_enough items _ enough)
  where
    pages : ℕ
    pages = count_pages (length items) page_size

    enough : length items ≤ pages * page_size
    enough = ground (arith, (div_ceil-lt_iff (length items) page_size pages h).1)
