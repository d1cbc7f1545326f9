-- ===== src/Text.antt =====
-- What the sources use of `str`: lengths and slices in bytes, `split_once`, case folding.
pub mod Trim
pub mod Lines
pub mod Order
use Prim.Native.Char.{Char, code, len_utf8}
use Prim.Native.String
use Prim.Native.String.{String, [], ◌∷◌}
use mathlib.Core.Option
use text.Mathlib.TextLemmas.{nil-append, cons-append}
use albion_rest_api.Base.{
  ℕ, ◌+◌, ◌-◌, ◌≡◌, ◌≢◌, Bool, true, false, ◌&&◌, Option, none, some, arith, leb, ltb, ◌==◌,
  if◌then◌else◌,
}

infixr 65 ◌+++◌
abbrev pub ◌+++◌ : String → String → String
s +++ t = String.◌++◌ s t

-- `len`, in bytes.
unfoldable pub byte_len : String → ℕ
byte_len [] = 0
byte_len (c ∷ s) = len_utf8 c + byte_len s

-- `(&s[..n], &s[n..])`; `none` where the index is out of range or no character boundary, at which
-- both slices panic.
unfoldable pub split_at_byte : String → ℕ → Option (String × String)
split_at_byte [] n = if n == 0 then some ([], []) else none
split_at_byte (c ∷ s) n =
    if n == 0
    then some ([], c ∷ s)
    else if ltb n (len_utf8 c)
    then none
    else Option.map (λ p. (c ∷ p.0, p.1)) (split_at_byte s (n - len_utf8 c))

abbrev to_ascii_lowercase : ℕ → ℕ
to_ascii_lowercase c = if leb b'A' c && leb c b'Z' then c + 32 else c

unfoldable pub eq_ignore_ascii_case : String → String → Bool
eq_ignore_ascii_case [] [] = true
eq_ignore_ascii_case (c ∷ s) (d ∷ t) =
    to_ascii_lowercase (code c) == to_ascii_lowercase (code d) && eq_ignore_ascii_case s t
eq_ignore_ascii_case _ _ = false

-- `split_once(c)` for an ASCII character.
unfoldable pub split_once : ℕ → String → Option (String × String)
split_once sep [] = none
split_once sep (c ∷ s) =
    if code c == sep then some ([], s) else Option.map (λ p. (c ∷ p.0, p.1)) (split_once sep s)

-- No character of the text has this code.
abbrev pub Lacks : ℕ → String → Type 0
Lacks sep [] = Unit {0}
Lacks sep (c ∷ s) = (code c ≢ sep) × Lacks sep s

-- The text is cut at the first separator.
pub split_once-append :
    (c : Char) (k s : String) → Lacks (code c) k → split_once (code c) (k +++ (c ∷ s)) ≡ some (k, s)
unfolding split_once
split_once-append c [] s h = rw nil-append (ground arith)
split_once-append c (d ∷ k) s h = rw cons-append (ground (arith, split_once-append c k s h.1))
