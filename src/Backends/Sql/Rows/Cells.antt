-- ===== src/Backends/Sql/Rows/Cells.antt =====
-- A value comes back from its cell (backends/sql/SqlBackend.ts).
use object_repository.Base.{String, ◌≡◌, refl, ap, Bool, true, false, Option, none, some, ◌==◌}
use object_repository.Base.Dict.{put}
use object_repository.Json.{Value, null, bool, num, str, arr, obj, is_nullish, JsonObject}
use object_repository.Json.Number.{Number}
use object_repository.Json.Stringify.{stringify}
use object_repository.Backends.Sql.Dialect.{Dialect, FieldSpec}
use object_repository.Backends.Sql.Rows.{
  Storage, storage_of, encode_present, encode_value, decode_present, decode_value, put_decoded,
  decode_cell,
}

module _ {N : Type 0} ⦃o : Number N⦄ (parse_json : String → Option (Value N)) where
  -- A value of the kind that its column stores.
  abbrev pub SuitsStorage : Storage → Value N → Type 0
  SuitsStorage s null = ⊥
  SuitsStorage Storage.flag (bool b) = Unit
  SuitsStorage Storage.flag v = ⊥
  SuitsStorage Storage.number (num n) = Unit
  SuitsStorage Storage.number v = ⊥
  SuitsStorage Storage.opaque (str s) = Unit
  SuitsStorage Storage.opaque v = ⊥
  SuitsStorage Storage.document v = parse_json (stringify v) ≡ some v
  SuitsStorage Storage.plain v = Unit

  abbrev pub Suits : String → Option (Value N) → Type 0
  Suits kind none = Unit
  Suits kind (some v) = SuitsStorage (storage_of kind) v

  unfoldable abbrev pub put_present : JsonObject N → String → Option (Value N) → JsonObject N
  unfolding put
  put_present out k none = out
  put_present out k (some v) = put out k v

module _ {N : Type 0} ⦃o : Number N⦄ (parse_json : String → Option (Value N)) (d : Dialect)
    (apart : o.eq (o.of_ℕ 0) (o.of_ℕ 1) ≡ false) where
  same_one : o.eq (o.of_ℕ 1) (o.of_ℕ 1) ≡ true
  same_one = o.eq_refl (o.of_ℕ 1) (o.of_ℕ_finite 1)

  decode-encode_present :
      (on_postgres : Bool) (s : Storage) (v : Value N)
      → SuitsStorage parse_json s v
      → decode_present parse_json s (encode_present on_postgres s v) ≡ some v
  unfolding decode_present encode_present
  decode-encode_present on_postgres s null h = absurd h
  decode-encode_present true Storage.flag (bool b) h = refl
  decode-encode_present false Storage.flag (bool true) h = rw same_one refl
  decode-encode_present false Storage.flag (bool false) h = rw apart refl
  decode-encode_present on_postgres Storage.number (num n) h = refl
  decode-encode_present on_postgres Storage.opaque (str s) h = refl
  decode-encode_present on_postgres Storage.document v h = h
  decode-encode_present on_postgres Storage.plain v h = refl
  decode-encode_present on_postgres Storage.number (bool b) h = elim h [ ]
  decode-encode_present on_postgres Storage.flag (num n) h = elim h [ ]
  decode-encode_present on_postgres Storage.opaque (num n) h = elim h [ ]
  decode-encode_present on_postgres Storage.opaque (bool b) h = elim h [ ]
  decode-encode_present on_postgres Storage.flag (str s) h = elim h [ ]
  decode-encode_present on_postgres Storage.number (str s) h = elim h [ ]
  decode-encode_present on_postgres Storage.flag (arr vs) h = elim h [ ]
  decode-encode_present on_postgres Storage.number (arr vs) h = elim h [ ]
  decode-encode_present on_postgres Storage.opaque (arr vs) h = elim h [ ]
  decode-encode_present on_postgres Storage.flag (obj fs) h = elim h [ ]
  decode-encode_present on_postgres Storage.number (obj fs) h = elim h [ ]
  decode-encode_present on_postgres Storage.opaque (obj fs) h = elim h [ ]

  encode_present-ne-null :
      (on_postgres : Bool) (s : Storage) (v : Value N)
      → SuitsStorage parse_json s v
      → is_nullish (some (encode_present on_postgres s v)) ≡ false
  unfolding encode_present
  encode_present-ne-null on_postgres s null h = absurd h
  encode_present-ne-null true Storage.flag (bool b) h = refl
  encode_present-ne-null false Storage.flag (bool b) h = refl
  encode_present-ne-null on_postgres Storage.number (num n) h = refl
  encode_present-ne-null on_postgres Storage.opaque (str s) h = refl
  encode_present-ne-null on_postgres Storage.document v h = refl
  encode_present-ne-null on_postgres Storage.plain (bool b) h = refl
  encode_present-ne-null on_postgres Storage.plain (num n) h = refl
  encode_present-ne-null on_postgres Storage.plain (str s) h = refl
  encode_present-ne-null on_postgres Storage.plain (arr vs) h = refl
  encode_present-ne-null on_postgres Storage.plain (obj fs) h = refl
  encode_present-ne-null on_postgres Storage.number (bool b) h = elim h [ ]
  encode_present-ne-null on_postgres Storage.flag (num n) h = elim h [ ]
  encode_present-ne-null on_postgres Storage.opaque (num n) h = elim h [ ]
  encode_present-ne-null on_postgres Storage.opaque (bool b) h = elim h [ ]
  encode_present-ne-null on_postgres Storage.flag (str s) h = elim h [ ]
  encode_present-ne-null on_postgres Storage.number (str s) h = elim h [ ]
  encode_present-ne-null on_postgres Storage.flag (arr vs) h = elim h [ ]
  encode_present-ne-null on_postgres Storage.number (arr vs) h = elim h [ ]
  encode_present-ne-null on_postgres Storage.opaque (arr vs) h = elim h [ ]
  encode_present-ne-null on_postgres Storage.flag (obj fs) h = elim h [ ]
  encode_present-ne-null on_postgres Storage.number (obj fs) h = elim h [ ]
  encode_present-ne-null on_postgres Storage.opaque (obj fs) h = elim h [ ]

  decode_cell-value :
      (f : FieldSpec) (w v : Value N) (out : JsonObject N)
      → is_nullish (some w) ≡ false
      → decode_value parse_json f.kind w ≡ some v
      → decode_cell parse_json f (some w) out ≡ some (put out f.name v)
  unfolding decode_cell
  decode_cell-value f null v out h e = cc
  decode_cell-value f (bool b) v out h e = ap (λ w. put_decoded w f.name out) e
  decode_cell-value f (num n) v out h e = ap (λ w. put_decoded w f.name out) e
  decode_cell-value f (str s) v out h e = ap (λ w. put_decoded w f.name out) e
  decode_cell-value f (arr vs) v out h e = ap (λ w. put_decoded w f.name out) e
  decode_cell-value f (obj fs) v out h e = ap (λ w. put_decoded w f.name out) e

  -- A cell that was written is read as the field, or left out where the record has none.
  pub decode_cell-encode :
      (f : FieldSpec) (v : Option (Value N)) (out : JsonObject N)
      → Suits parse_json f.kind v
      → decode_cell parse_json f (some (encode_value d f.kind v)) out
        ≡ some (put_present parse_json out f.name v)
  unfolding decode_cell encode_value decode_value put_present
  decode_cell-encode f none out h = refl
  decode_cell-encode f (some null) out h = absurd h
  decode_cell-encode f (some v) out h = by_value v h
    where
      by_value :
          (v : Value N)
          → SuitsStorage parse_json (storage_of f.kind) v
          → decode_cell parse_json f (some (encode_value d f.kind (some v))) out
            ≡ some (put out f.name v)
      by_value null h = absurd h
      by_value (bool b) h =
          decode_cell-value f _ (bool b) out
            (encode_present-ne-null (d.name == "postgres") (storage_of f.kind) (bool b) h)
            (decode-encode_present (d.name == "postgres") (storage_of f.kind) (bool b) h)
      by_value (num b) h =
          decode_cell-value f _ (num b) out
            (encode_present-ne-null (d.name == "postgres") (storage_of f.kind) (num b) h)
            (decode-encode_present (d.name == "postgres") (storage_of f.kind) (num b) h)
      by_value (str b) h =
          decode_cell-value f _ (str b) out
            (encode_present-ne-null (d.name == "postgres") (storage_of f.kind) (str b) h)
            (decode-encode_present (d.name == "postgres") (storage_of f.kind) (str b) h)
      by_value (arr b) h =
          decode_cell-value f _ (arr b) out
            (encode_present-ne-null (d.name == "postgres") (storage_of f.kind) (arr b) h)
            (decode-encode_present (d.name == "postgres") (storage_of f.kind) (arr b) h)
      by_value (obj b) h =
          decode_cell-value f _ (obj b) out
            (encode_present-ne-null (d.name == "postgres") (storage_of f.kind) (obj b) h)
            (decode-encode_present (d.name == "postgres") (storage_of f.kind) (obj b) h)
