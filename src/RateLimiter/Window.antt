-- ===== src/RateLimiter/Window.antt =====
-- The pruned window as a view of the log of admitted instants.
use albion_rest_api.Base.{
  ℕ, ◌+◌, ◌≤◌, ◌≡◌, refl, List, [], ◌∷◌, ◌++◌, arith, leb, ◌&&◌, if◌then◌else◌, length,
}
use albion_rest_api.RateLimiter.{prune_window}

-- The instants of a list that lie between two bounds, both included, are counted.
unfoldable pub count_in : ℕ → ℕ → List ℕ → ℕ
count_in lo hi [] = 0
count_in lo hi (t ∷ ts) = (if leb lo t && leb t hi then 1 else 0) + count_in lo hi ts

-- The list ascends from `lo` to `hi`.
abbrev pub Ascends : ℕ → List ℕ → ℕ → Type 0
Ascends lo [] hi = lo ≤ hi
Ascends lo (t ∷ ts) hi = (lo ≤ t) × Ascends t ts hi

pub Ascends-le : (lo : ℕ) (ts : List ℕ) (hi : ℕ) → Ascends lo ts hi → lo ≤ hi
Ascends-le lo [] hi h = h
Ascends-le lo (t ∷ ts) hi h = omega (arith, Ascends-le t ts hi h.1)

pub Ascends-snoc :
    (lo : ℕ) (ts : List ℕ) (hi now : ℕ)
    → Ascends lo ts hi
    → hi ≤ now
    → Ascends lo (ts ++ now ∷ []) now
Ascends-snoc lo [] hi now h k = (omega arith, omega arith)
Ascends-snoc lo (t ∷ ts) hi now h k = (h.0, Ascends-snoc t ts hi now h.1 k)

pub Ascends-weaken :
    (lo : ℕ) (ts : List ℕ) (hi now : ℕ) → Ascends lo ts hi → hi ≤ now → Ascends lo ts now
Ascends-weaken lo [] hi now h k = omega arith
Ascends-weaken lo (t ∷ ts) hi now h k = (h.0, Ascends-weaken t ts hi now h.1 k)

pub count_in-append :
    (lo hi : ℕ) (xs ys : List ℕ) → count_in lo hi (xs ++ ys) ≡ count_in lo hi xs + count_in lo hi ys
unfolding count_in
count_in-append lo hi [] ys = omega arith
count_in-append lo hi (x ∷ xs) ys = omega (arith, count_in-append lo hi xs ys)

-- On an ascending list that starts late enough, all is counted.
pub count_in_all :
    (c lo : ℕ) (ts : List ℕ) (hi : ℕ) → Ascends lo ts hi → c ≤ lo → count_in c hi ts ≡ length ts
unfolding count_in
count_in_all c lo [] hi h k = refl
count_in_all c lo (t ∷ ts) hi h k =
    ground (arith, count_in_all c t ts hi h.1, Ascends-le t ts hi h.1)

-- Pruning an ascending log leaves as many instants as the log has from the cut-off on.
pub length-prune_window :
    (c lo : ℕ) (ts : List ℕ) (hi : ℕ)
    → Ascends lo ts hi
    → length (prune_window ts c) ≡ count_in c hi ts
unfolding prune_window count_in
length-prune_window c lo [] hi h = refl
length-prune_window c lo (t ∷ ts) hi h =
    ground
      (arith, length-prune_window c t ts hi h.1, count_in_all c t ts hi h.1, Ascends-le t ts hi h.1)

-- Pruning twice is pruning at the later cut-off.
pub prune_window-prune_window :
    (c d : ℕ) (ts : List ℕ) → c ≤ d → prune_window (prune_window ts c) d ≡ prune_window ts d
unfolding prune_window
prune_window-prune_window c d [] h = refl
prune_window-prune_window c d (t ∷ ts) h = ground (arith, prune_window-prune_window c d ts)

-- A new instant at or after the cut-off stays, whatever stands before it.
pub prune_window-snoc :
    (c now : ℕ) (ts : List ℕ)
    → c ≤ now
    → prune_window (ts ++ now ∷ []) c ≡ prune_window ts c ++ now ∷ []
unfolding prune_window
prune_window-snoc c now [] h = ground arith
prune_window-snoc c now (t ∷ ts) h = ground (arith, prune_window-snoc c now ts)

pub count_in-narrow :
    (lo hi lo' hi' : ℕ) (ts : List ℕ)
    → lo' ≤ lo
    → hi ≤ hi'
    → count_in lo hi ts ≤ count_in lo' hi' ts
unfolding count_in
count_in-narrow lo hi lo' hi' [] h k = omega arith
count_in-narrow lo hi lo' hi' (t ∷ ts) h k = ground (arith, count_in-narrow lo hi lo' hi' ts)

-- The instants before the upper bound are counted whatever the bound.
pub count_in-upto :
    (c lo : ℕ) (ts : List ℕ) (last hi : ℕ)
    → Ascends lo ts last
    → last ≤ hi
    → count_in c hi ts ≡ count_in c last ts
unfolding count_in
count_in-upto c lo [] last hi h k = refl
count_in-upto c lo (t ∷ ts) last hi h k =
    ground (arith, count_in-upto c t ts last hi h.1, Ascends-le t ts last h.1)
