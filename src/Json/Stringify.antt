-- ===== src/Json/Stringify.antt =====
-- `JSON.stringify(v)`
use Prim.Native.Char.{Char, code}
use Prim.Native.String.{◌++◌}
use object_repository.Base.{
  ℕ, ◌/◌, ◌%◌, String, true, false, List, ltb, eqb, if◌then◌else◌, ◌≡◌, refl,
}
use object_repository.Json.{
  Value, null, bool, num, str, arr, obj, Items, nil, cons, Fields, end, field, items,
}
use object_repository.Json.Number.{Number}

abbrev hex_digit : ℕ → String
hex_digit n =
    if ltb n 10
    then (if ltb n 5
        then (if eqb n 0
            then "0"
            else if eqb n 1
            then "1"
            else if eqb n 2
            then "2"
            else if eqb n 3
            then "3"
            else "4")
        else (if eqb n 5
            then "5"
            else if eqb n 6
            then "6"
            else if eqb n 7
            then "7"
            else if eqb n 8
            then "8"
            else "9"))
    else (if eqb n 10
        then "a"
        else if eqb n 11
        then "b"
        else if eqb n 12
        then "c"
        else if eqb n 13
        then "d"
        else if eqb n 14
        then "e"
        else "f")

-- A quote, a backslash or a control character is escaped.
unfoldable pub escape_char : Char → String
escape_char ch =
    let c = code ch in
    if eqb c 34
    then "\\\""
    else if eqb c 92
    then "\\\\"
    else if eqb c 8
    then "\\b"
    else if eqb c 9
    then "\\t"
    else if eqb c 10
    then "\\n"
    else if eqb c 12
    then "\\f"
    else if eqb c 13
    then "\\r"
    else if ltb c 32
    then "\\u00" ++ hex_digit (c / 16) ++ hex_digit (c % 16)
    else String.◌∷◌ ch ""

unfoldable pub escape : String → String
unfolding escape_char
escape String.[] = ""
escape (String.◌∷◌ ch s) = escape_char ch ++ escape s

unfoldable pub quoted : String → String
unfolding escape
quoted s = "\"" ++ escape s ++ "\""

module _ {N : Type 0} ⦃o : Number N⦄ where
  unfoldable mutual
    unfolding quoted

    pub stringify : Value N → String
    stringify null = "null"
    stringify (bool true) = "true"
    stringify (bool false) = "false"
    stringify (num n) = if o.is_finite n then o.to_text n else "null"
    stringify (str s) = quoted s
    stringify (arr vs) = "[" ++ stringify_items vs ++ "]"
    stringify (obj fs) = "{" ++ stringify_fields fs ++ "}"

    pub stringify_items : Items N → String
    stringify_items nil = ""
    stringify_items (cons v nil) = stringify v
    stringify_items (cons v (cons w ws)) = stringify v ++ "," ++ stringify_items (cons w ws)

    pub stringify_fields : Fields N → String
    stringify_fields end = ""
    stringify_fields (field k v end) = quoted k ++ ":" ++ stringify v
    stringify_fields (field k v (field j w fs)) =
        quoted k ++ ":" ++ stringify v ++ "," ++ stringify_fields (field j w fs)

  -- `JSON.stringify` of an array of values
  unfoldable pub stringify_list : List (Value N) → String
  unfolding stringify
  stringify_list vs = stringify (arr (items vs))

escapes : escape "a\"b\n" ≡ "a\\\"b\\n"
unfolding escape
escapes = refl
