-- ===== src/Backends/Sql/Rows.antt =====
-- The rows of a model's table in backends/sql/SqlBackend.ts: their columns, and a record as the values
-- of its columns. What the driver gives back for a column is a JSON value here, null where there is
-- none, and `JSON.parse` is a parameter: none where it throws.
pub mod Cells
pub mod RoundTrip
use mathlib.Core.List.{foldl}
use object_repository.Base.{
  ℕ, suc, String, Bool, true, false, not, ◌&&◌, ◌||◌, Option, none, some, List, [], ◌∷◌, ◌++◌, map,
  filter, ◌==◌, is_some, or_else, if◌then◌else◌,
}
use object_repository.Base.Dict.{Dict, get, put, values}
use object_repository.Base.Names.{member}
use object_repository.Json.{
  Value, null, bool, num, str, arr, obj, fields, entries, is_nullish, or_null, JsonObject,
}
use object_repository.Json.Number.{Number}
use object_repository.Json.Text.{to_text, to_number}
use object_repository.Json.Stringify.{stringify}
use object_repository.Backends.Contract.{uuid_of}
use object_repository.Backends.Sql.Dialect.{Dialect, FieldSpec, overflow_column}

abbrev pub names_of : List FieldSpec → List String
names_of fs = map (λ f. f.name) fs

-- `columns(model)` and `columnTypes(model)`
abbrev pub columns_of : List FieldSpec → List String
columns_of fs = "uuid" ∷ (names_of fs ++ overflow_column ∷ [])

unfoldable pub column_types : List FieldSpec → Dict String
unfolding put
column_types fs = foldl (λ d f. put d f.name f.kind) [] fs

-- How a stored type is kept: `encodeValue` and `decodeValue` switch on it.
pub data Storage : Type 0 where
  flag number opaque document plain : Storage

abbrev pub storage_of : String → Storage
storage_of kind =
    if kind == "boolean"
    then Storage.flag
    else if kind == "json"
    then Storage.opaque
    else if kind == "array" || kind == "embedded" || kind == "scalar"
    then Storage.document
    else if kind == "integer" || kind == "float" || kind == "date"
    then Storage.number
    else Storage.plain

abbrev is_nonempty : String → Bool
is_nonempty String.[] = false
is_nonempty s = true

module _ {N : Type 0} ⦃o : Number N⦄ where
  -- `Boolean(value)`
  abbrev pub is_truthy : Value N → Bool
  is_truthy null = false
  is_truthy (bool b) = b
  is_truthy (num n) = o.eq n n && not (o.eq n (o.of_ℕ 0))
  is_truthy (str s) = is_nonempty s
  is_truthy v = true

  abbrev pub flag_value : Bool → Bool → Value N
  flag_value true b = bool b
  flag_value false b = num (o.of_ℕ (if b then 1 else 0))

  abbrev pub opaque_text : Value N → Value N
  unfolding stringify
  opaque_text (str s) = str s
  opaque_text v = str (stringify v)

  -- `encodeValue` of a present value
  abbrev pub encode_present : Bool → Storage → Value N → Value N
  unfolding stringify opaque_text
  encode_present on_postgres Storage.flag v = flag_value on_postgres (is_truthy v)
  encode_present on_postgres Storage.opaque v = opaque_text v
  encode_present on_postgres Storage.document v = str (stringify v)
  encode_present on_postgres Storage.number v = v
  encode_present on_postgres Storage.plain v = v

  unfoldable pub encode_value : Dialect → String → Option (Value N) → Value N
  unfolding encode_present
  encode_value d kind none = null
  encode_value d kind (some null) = null
  encode_value d kind (some v) = encode_present (d.name == "postgres") (storage_of kind) v

  -- `decodeValue` of a boolean column
  abbrev pub decode_flag : Value N → Bool
  decode_flag (bool b) = b
  decode_flag (num n) = o.eq n (o.of_ℕ 1)
  decode_flag (str s) = s == "1" || s == "true"
  decode_flag v = false

  abbrev pub decode_document : (String → Option (Value N)) → Value N → Option (Value N)
  decode_document parse_json (str s) = parse_json s
  decode_document parse_json v = some v

  abbrev pub decode_present : (String → Option (Value N)) → Storage → Value N → Option (Value N)
  unfolding to_number opaque_text
  decode_present parse_json Storage.flag v = some (bool (decode_flag v))
  decode_present parse_json Storage.number v = some (num (to_number v))
  decode_present parse_json Storage.document v = decode_document parse_json v
  decode_present parse_json Storage.opaque v = some (opaque_text v)
  decode_present parse_json Storage.plain v = some v

  unfoldable pub decode_value : (String → Option (Value N)) → String → Value N → Option (Value N)
  unfolding decode_present
  decode_value parse_json kind v = decode_present parse_json (storage_of kind) v

  -- the undeclared members of a record
  abbrev pub extra_of : List FieldSpec → JsonObject N → JsonObject N
  extra_of fs r = filter (λ e. not (member e.0 ("uuid" ∷ names_of fs))) r

  abbrev pub extra_cell : JsonObject N → Value N
  unfolding stringify
  extra_cell [] = null
  extra_cell (e ∷ es) = str (stringify (obj (fields (e ∷ es))))

  abbrev pub field_cells : Dialect → List FieldSpec → JsonObject N → Dict (Value N)
  unfolding encode_value get
  field_cells d [] r = []
  field_cells d (f ∷ fs) r = (f.name, encode_value d f.kind (get r f.name)) ∷ field_cells d fs r

  -- the columns of a record with the values of `encodeRow`
  unfoldable pub cells : Dialect → List FieldSpec → JsonObject N → Dict (Value N)
  unfolding uuid_of field_cells extra_cell
  cells d fs r =
      ("uuid", str (uuid_of r))
      ∷ (field_cells d fs r ++ (overflow_column, extra_cell (extra_of fs r)) ∷ [])

  -- `encodeRow`
  unfoldable pub encode_row : Dialect → List FieldSpec → JsonObject N → List (Value N)
  unfolding cells
  encode_row d fs r = values (cells d fs r)

  abbrev pub put_decoded : Option (Value N) → String → JsonObject N → Option (JsonObject N)
  unfolding put
  put_decoded none name out = none
  put_decoded (some w) name out = some (put out name w)

  -- a column with no value is left out
  abbrev pub decode_cell :
      (String → Option (Value N))
      → FieldSpec
      → Option (Value N)
      → JsonObject N
      → Option (JsonObject N)
  unfolding decode_value put_decoded
  decode_cell parse_json f none out = some out
  decode_cell parse_json f (some null) out = some out
  decode_cell parse_json f (some v) out = put_decoded (decode_value parse_json f.kind v) f.name out

  unfoldable pub decode_fields :
      (String → Option (Value N))
      → List FieldSpec
      → Dict (Value N)
      → JsonObject N
      → Option (JsonObject N)
  unfolding decode_cell get
  decode_fields parse_json [] row out = some out
  decode_fields parse_json (f ∷ fs) row out = elim (decode_cell parse_json f (get row f.name) out) [
    | none ↦ none
    | some next ↦ decode_fields parse_json fs row next
  ]

  -- `Object.assign(out, extra)`
  unfoldable pub assign_members : JsonObject N → JsonObject N → JsonObject N
  unfolding put
  assign_members out [] = out
  assign_members out ((k, v) ∷ es) = assign_members (put out k v) es

  -- The overflow column holds an object or its text: the backend writes nothing else there.
  abbrev pub members_of : Option (Value N) → JsonObject N
  members_of (some (obj fs)) = entries fs
  members_of v = []

  abbrev pub assign_parsed : Option (Value N) → JsonObject N → Option (JsonObject N)
  unfolding assign_members
  assign_parsed none out = none
  assign_parsed (some v) out = some (assign_members out (members_of (some v)))

  abbrev pub with_extra :
      (String → Option (Value N)) → Option (Value N) → JsonObject N → Option (JsonObject N)
  unfolding assign_members
  with_extra parse_json none out = some out
  with_extra parse_json (some null) out = some out
  with_extra parse_json (some (str s)) out = assign_parsed (parse_json s) out
  with_extra parse_json (some v) out = some (assign_members out (members_of (some v)))

  abbrev pub uuid_member : Option (Value N) → JsonObject N
  unfolding to_text
  uuid_member none = []
  uuid_member (some null) = []
  uuid_member (some v) = ("uuid", str (to_text v)) ∷ []

  -- `decodeRow`
  unfoldable pub decode_row :
      (String → Option (Value N)) → List FieldSpec → Dict (Value N) → Option (JsonObject N)
  unfolding decode_fields with_extra uuid_member get
  decode_row parse_json fs row =
      elim (decode_fields parse_json fs row (uuid_member (get row "uuid"))) [
        | none ↦ none
        | some out ↦ with_extra parse_json (get row overflow_column) out
      ]

  -- `coerce`
  abbrev pub coerce_one : Value N → Value N
  unfolding stringify
  coerce_one (bool true) = num (o.of_ℕ 1)
  coerce_one (bool false) = num (o.of_ℕ 0)
  coerce_one (arr vs) = str (stringify (arr vs))
  coerce_one (obj fs) = str (stringify (obj fs))
  coerce_one v = v

  unfoldable pub coerce : List (Value N) → List (Value N)
  unfolding coerce_one
  coerce vs = map coerce_one vs
