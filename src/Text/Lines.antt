-- ===== src/Text/Lines.antt =====
-- `lines` and `starts_with` of `str`.
use Prim.Native.Char.{code}
use Prim.Native.String.{String, [], ◌∷◌}
use text.Mathlib.Text.{◌==◌ as str_eq}
use albion_rest_api.Base.{Bool, true, false, ◌&&◌, List, ◌==◌, if◌then◌else◌}

-- A `\r` at the end of a line is dropped with its `\n`.
unfoldable pub strip_cr : String → String
strip_cr [] = []
strip_cr (c ∷ s) = if code c == 13 && str_eq s "" then [] else c ∷ strip_cr s

-- The pieces between the `\n`: the first one, and the others.
unfoldable pub pieces : String → String × List String
pieces [] = ([], List.[])
pieces (c ∷ s) =
    let (piece, more) = pieces s in
    if code c == 10 then ([], List.◌∷◌ piece more) else (c ∷ piece, more)

-- All of them but the last end with a `\n`; an empty last one is no line.
unfoldable pub lines_of : String → List String → List String
lines_of piece List.[] = if str_eq piece "" then List.[] else List.◌∷◌ piece List.[]
lines_of piece (List.◌∷◌ next more) = List.◌∷◌ (strip_cr piece) (lines_of next more)

unfoldable pub lines : String → List String
lines s = (let (piece, more) = pieces s in lines_of piece more)

unfoldable pub starts_with : String → String → Bool
starts_with [] s = true
starts_with (c ∷ p) [] = false
starts_with (c ∷ p) (d ∷ s) = code c == code d && starts_with p s
