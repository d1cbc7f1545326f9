-- ===== src/Registry/Metaboards.antt =====
-- `neutralize_metaboards` of src/raindex/config.rs.
use Prim.Native.String.{String}
use text.Mathlib.Text.{◌==◌ as str_eq}
use albion_rest_api.Base.{◌≡◌, Bool, true, false, ◌&&◌, ◌||◌, not, List, [], ◌∷◌, All}
use albion_rest_api.Text.{◌+++◌}
use albion_rest_api.Text.Lines.{lines, starts_with}

abbrev pub is_header : String → Bool
is_header line = starts_with "metaboards:" line

-- An entry of the section, or a blank line in it.
abbrev pub is_entry : String → Bool
is_entry line = str_eq line "" || starts_with " " line || starts_with "\t" line

abbrev pub disabled : String
disabled = "  _disabled: https://localhost"

-- The loop, with `in_metaboards`: the lines of the result.
unfoldable pub neutralize_lines : Bool → List String → List String
neutralize_lines in_metaboards [] = []
neutralize_lines in_metaboards (line ∷ rest) = elim (not in_metaboards && is_header line) [
  | true ↦ "metaboards:" ∷ disabled ∷ neutralize_lines true rest
  | false ↦ elim (in_metaboards && is_entry line) [
    | true ↦ neutralize_lines true rest
    | false ↦ line ∷ neutralize_lines false rest
  ]
]

-- `push_str` and `push('\n')`
unfoldable pub unlines : List String → String
unlines [] = ""
unlines (line ∷ rest) = line +++ ("\n" +++ unlines rest)

unfoldable pub neutralize_metaboards : String → String
neutralize_metaboards yaml = unlines (neutralize_lines false (lines yaml))

-- The first line of a list is none of the entries of the section before it.
unfoldable pub EndsSection : List String → Type 0
EndsSection [] = Unit {0}
EndsSection (line ∷ _) = is_entry line ≡ false

abbrev pub NoHeader : List String → Type 0
NoHeader = All (λ line. is_header line ≡ false)
