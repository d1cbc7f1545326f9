-- ===== src/Orders/Kind.antt =====
-- `determine_order_type` of src/routes/order/get_order.rs: the texts are walked by characters.
use Prim.Native.Char.{code}
use Prim.Native.String.{String, [], ◌∷◌}
use text.Mathlib.Text.{◌==◌ as str_eq}
use albion_rest_api.Base.{not, ◌&&◌, ◌||◌, Option, none, some, ltb, ◌==◌, if◌then◌else◌, is_some}
use albion_rest_api.Text.Trim.{trim_start, trim}
use albion_rest_api.Raindex.{Raindex}
use albion_rest_api.Orders.Types.{OrderType, limit, strategy}

-- The text after a prefix.
unfoldable pub strip_prefix : String → String → Option String
strip_prefix [] s = some s
strip_prefix (c ∷ pat) [] = none
strip_prefix (c ∷ pat) (d ∷ s) = if code c == code d then strip_prefix pat s else none

-- `find`: the text from the first place of a pattern that is not empty on.
unfoldable pub find_from : String → String → Option String
find_from pat [] = none
find_from pat (c ∷ s) = if is_some (strip_prefix pat (c ∷ s)) then some (c ∷ s) else find_from pat s

-- What stands between the comment, or the words, and the end.
unfoldable pub handle_io_content : String → String
handle_io_content after = elim (find_from "*/" after) [
  | some comment ↦ elim (strip_prefix "*/" comment) [ none ↦ trim comment | some rest ↦ trim rest ]
  | none ↦ trim (trim_start (λ c. not (code c == b':') && not (code c == 10)) after)
]

unfoldable pub classify_from_rainlang : String → OrderType
classify_from_rainlang rainlang = elim (find_from "handle-io" rainlang) [
  | none ↦ strategy
  | some after ↦
      let content = handle_io_content after in
      if str_eq content ":;" || str_eq content "" then limit else strategy
]

module _ (X : Raindex) where
  unfoldable pub classify_from_bytecode : X.RaindexOrder → OrderType
  classify_from_bytecode order = elim (X.bytecode_len (X.order_bytes order)) [
    | none ↦ strategy
    | some len ↦ if ltb len 500 then limit else strategy
  ]

  unfoldable pub determine_order_type : X.RaindexOrder → OrderType
  determine_order_type order = elim (X.rainlang order) [
    | some rainlang ↦ classify_from_rainlang rainlang
    | none ↦ classify_from_bytecode order
  ]
