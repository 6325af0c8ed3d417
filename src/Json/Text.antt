-- ===== src/Json/Text.antt =====
-- `String(v)` and `Number(v)` on JSON values, and `<` between two values of one type.
use object_repository.Base.{String, Bool, true, false, ◌&&◌, if◌then◌else◌}
use object_repository.Base.Text.{text_lt}
use Prim.Native.String.{◌++◌}
use object_repository.Json.{Value, null, bool, num, str, arr, obj, Items, nil, cons}
use object_repository.Json.Number.{Number}

module _ {N : Type 0} ⦃o : Number N⦄ where
  unfoldable mutual
    -- `String(v)`: an array's elements joined by commas, null as the empty text among them
    pub to_text : Value N → String
    to_text null = "null"
    to_text (bool true) = "true"
    to_text (bool false) = "false"
    to_text (num n) = o.to_text n
    to_text (str s) = s
    to_text (arr vs) = join_items vs
    to_text (obj fs) = "[object Object]"

    pub join_items : Items N → String
    join_items nil = ""
    join_items (cons null nil) = ""
    join_items (cons v nil) = to_text v
    join_items (cons null (cons w ws)) = "," ++ join_items (cons w ws)
    join_items (cons v (cons w ws)) = to_text v ++ "," ++ join_items (cons w ws)

  -- `Number(v)`
  unfoldable pub to_number : Value N → N
  unfolding to_text
  to_number null = o.of_ℕ 0
  to_number (bool true) = o.of_ℕ 1
  to_number (bool false) = o.of_ℕ 0
  to_number (num n) = n
  to_number (str s) = o.of_text s
  to_number v = o.of_text (to_text v)

  -- Arrays and objects become texts before they are compared.
  abbrev pub is_text : Value N → Bool
  is_text (str s) = true
  is_text (arr vs) = true
  is_text (obj fs) = true
  is_text _ = false

  -- `v < w`: by code units if both sides are texts, as numbers otherwise
  unfoldable pub less : Value N → Value N → Bool
  unfolding to_text to_number
  less v w =
      if is_text v && is_text w
      then text_lt (to_text v) (to_text w)
      else o.lt (to_number v) (to_number w)
