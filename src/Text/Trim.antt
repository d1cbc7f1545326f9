-- ===== src/Text/Trim.antt =====
-- `trim` of `str`.
use Prim.Native.Char.{Char, code}
use Prim.Native.String.{String, [], ◌∷◌}
use text.Mathlib.Text.{◌==◌ as str_eq}
use albion_rest_api.Base.{
  ◌≡◌, refl, ap, ◌∙◌, Bool, false, ◌&&◌, ◌||◌, leb, ◌==◌, if◌then◌else◌, Bool-cases, inl, inr,
}

-- `char::is_whitespace`.
unfoldable pub is_whitespace : Char → Bool
is_whitespace c =
    let n = code c in
    leb 9 n && leb n 13
    || n == 32
    || n == 133
    || n == 160
    || n == 5760
    || leb 8192 n && leb n 8202
    || n == 8232
    || n == 8233
    || n == 8239
    || n == 8287
    || n == 12288

unfoldable pub trim_start : (Char → Bool) → String → String
trim_start p [] = []
trim_start p (c ∷ s) = if p c then trim_start p s else c ∷ s

unfoldable pub trim_end : String → String
trim_end [] = []
trim_end (c ∷ s) =
    let rest = trim_end s in if str_eq rest "" && is_whitespace c then [] else c ∷ rest

abbrev pub trim : String → String
trim s = trim_end (trim_start is_whitespace s)

trim_end_idem : (s : String) → trim_end (trim_end s) ≡ trim_end s
unfolding trim_end
trim_end_idem [] = refl
trim_end_idem (c ∷ s) = elim (Bool-cases (str_eq (trim_end s) "" && is_whitespace c)) [
  | inl blank ↦ rw blank refl
  | inr kept ↦ rw (kept, trim_end_idem s, kept) refl
]

-- A text that begins with no blank is left alone, and its end may be cut.
trim_start-trim_end :
    (c : Char) (s : String)
    → is_whitespace c ≡ false
    → trim_start is_whitespace (trim_end (c ∷ s)) ≡ trim_end (c ∷ s)
unfolding trim_start trim_end
trim_start-trim_end c s h = elim (Bool-cases (str_eq (trim_end s) "")) [
  | inl blank ↦ rw (blank, h, h) refl
  | inr more ↦ rw (more, h) refl
]

trim_idem_of_start :
    (s : String)
    → trim_start is_whitespace (trim_end (trim_start is_whitespace s))
      ≡ trim_end (trim_start is_whitespace s)
unfolding trim_start trim_end
trim_idem_of_start [] = refl
trim_idem_of_start (c ∷ s) = elim (Bool-cases (is_whitespace c)) [
  | inl blank ↦ rw blank (trim_idem_of_start s)
  | inr kept ↦ rw kept (trim_start-trim_end c s kept)
]

-- Trimming again changes nothing.
pub trim_idem : (s : String) → trim (trim s) ≡ trim s
trim_idem s = ap trim_end (trim_idem_of_start s) ∙ trim_end_idem (trim_start is_whitespace s)
