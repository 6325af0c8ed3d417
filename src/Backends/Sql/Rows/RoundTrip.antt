-- ===== src/Backends/Sql/Rows/RoundTrip.antt =====
-- A record comes back from its row (backends/sql/SqlBackend.ts).
use object_repository.Base.{
  String, ◌≡◌, refl, ap, false, not, Option, none, some, List, [], ◌∷◌, ◌++◌, filter, arith, All,
  Bool-cases, inl, inr, ◌==◌, eq_iff, eq_refl, if◌then◌else◌,
}
use object_repository.Base.Dict.{Dict, get, put, keys, get-put, get-empty}
use object_repository.Base.Names.{member, get-absent}
use object_repository.Json.{Value, str, obj, fields, entries-fields, JsonObject}
use object_repository.Json.Number.{Number}
use object_repository.Json.Text.{to_text}
use object_repository.Json.Stringify.{stringify}
use object_repository.Backends.Contract.{uuid_of}
use object_repository.Backends.Sql.Dialect.{Dialect, FieldSpec, overflow_column}
use object_repository.Backends.Sql.Rows.{
  names_of, encode_value, extra_of, extra_cell, field_cells, cells, decode_fields, assign_parsed,
  assign_members, with_extra, decode_row,
}
use object_repository.Backends.Sql.Rows.Cells.{Suits, put_present, decode_cell-encode}

abbrev pub HasDistinctNames : List FieldSpec → Type 0
HasDistinctNames [] = Unit
HasDistinctNames (f ∷ fs) = (member f.name (names_of fs) ≡ false) × HasDistinctNames fs

abbrev pub HasDistinctMembers : {N : Type 0} → JsonObject N → Type 0
HasDistinctMembers [] = Unit
HasDistinctMembers ((k, v) ∷ es) = (member k (keys es) ≡ false) × HasDistinctMembers es

module _ {N : Type 0} ⦃o : Number N⦄ (parse_json : String → Option (Value N)) (d : Dialect)
    (apart : o.eq (o.of_ℕ 0) (o.of_ℕ 1) ≡ false) where
  abbrev Written : Dict (Value N) → JsonObject N → FieldSpec → Type 0
  Written row r f = get row f.name ≡ some (encode_value d f.kind (get r f.name))

  get-put_present :
      (out : JsonObject N) (k j : String) (v : Option (Value N))
      → get out k ≡ none
      → get (put_present parse_json out k v) j ≡ (if k == j then v else get out j)
  unfolding put_present
  get-put_present out k j none h = ground (arith, eq_iff k j)
  get-put_present out k j (some v) h = get-put out k j v

  Unset-put_present :
      (out : JsonObject N) (k : String) (v : Option (Value N)) (fs : List FieldSpec)
      → get out k ≡ none
      → member k (names_of fs) ≡ false
      → All (λ f. get out f.name ≡ none) fs
      → All (λ f. get (put_present parse_json out k v) f.name ≡ none) fs
  Unset-put_present out k v [] h m a = tt
  Unset-put_present out k v (f ∷ fs) h m a = (
    ground (arith, get-put_present out k f.name v h, eq_iff k f.name, eq_iff f.name k, a.0),
    Unset-put_present out k v fs h (ground (arith)) a.1,
  )

  decode_fields-Written :
      (fs : List FieldSpec) (row : Dict (Value N)) (r out : JsonObject N)
      → HasDistinctNames fs
      → All (Written row r) fs
      → All (λ f. Suits parse_json f.kind (get r f.name)) fs
      → All (λ f. get out f.name ≡ none) fs
      → (got : JsonObject N) × (decode_fields parse_json fs row out ≡ some got)
        × ((k : String) → get got k ≡ (if member k (names_of fs) then get r k else get out k))
  unfolding decode_fields
  decode_fields-Written [] row r out distinct written suits unset = (out, refl, λ k. refl)
  decode_fields-Written (f ∷ fs) row r out distinct written suits unset =
      let next = put_present parse_json out f.name (get r f.name) in
      let (got, e, same) =
        decode_fields-Written fs row r next distinct.1 written.1 suits.1
          (Unset-put_present out f.name (get r f.name) fs unset.0 distinct.0 unset.1) in
      (
        got,
        rw
            (
              written.0,
              decode_cell-encode parse_json d apart f (get r f.name) out suits.0,
              decode_fields,
            )
            e,
        λ k. ground (
          arith,
          same k,
          get-put_present out f.name k (get r f.name) unset.0,
          eq_iff f.name k,
          distinct.0,
        ),
      )

  Written-shift :
      (row : Dict (Value N)) (j : String) (v : Value N) (r : JsonObject N) (fs : List FieldSpec)
      → member j (names_of fs) ≡ false
      → All (Written row r) fs
      → All (Written ((j, v) ∷ row) r) fs
  unfolding get
  Written-shift row j v r [] h a = tt
  Written-shift row j v r (f ∷ fs) h a = (
    ground (arith, a.0, eq_iff j f.name, eq_iff f.name j),
    Written-shift row j v r fs (ground arith) a.1,
  )

  field_cells-Written :
      (fs : List FieldSpec) (rest : Dict (Value N)) (r : JsonObject N)
      → HasDistinctNames fs
      → All (Written (field_cells d fs r ++ rest) r) fs
  unfolding get field_cells
  field_cells-Written [] rest r h = tt
  field_cells-Written (f ∷ fs) rest r h = (
    rw (eq_refl f.name) refl,
    Written-shift (field_cells d fs r ++ rest) f.name (encode_value d f.kind (get r f.name)) r fs
        h.0 (field_cells-Written fs rest r h.1),
  )

  get-field_cells :
      (fs : List FieldSpec) (rest : Dict (Value N)) (r : JsonObject N) (k : String)
      → member k (names_of fs) ≡ false
      → get (field_cells d fs r ++ rest) k ≡ get rest k
  unfolding get field_cells
  get-field_cells [] rest r k h = refl
  get-field_cells (f ∷ fs) rest r k h = ground (arith, get-field_cells fs rest r k)

  get-extra_of :
      (names : List String) (r : JsonObject N) (k : String)
      → get (filter (λ e. not (member e.0 names)) r) k ≡ (if member k names then none else get r k)
  unfolding get
  get-extra_of names [] k = ground arith
  get-extra_of names ((j, v) ∷ r) k = elim (Bool-cases (member j names)) [
    | inl named ↦ rw named (ground (arith, get-extra_of names r k, eq_iff j k))
    | inr other ↦ rw other (ground (arith, get-extra_of names r k, eq_iff j k))
  ]

  get-assign_members :
      (out es : JsonObject N) (k : String)
      → HasDistinctMembers es
      → get (assign_members out es) k ≡ elim (get es k) [ none ↦ get out k | some v ↦ some v ]
  unfolding assign_members get
  get-assign_members out [] k h = refl
  get-assign_members out ((j, v) ∷ es) k h = ground (
    arith,
    get-assign_members (put out j v) es k h.1,
    get-put out j k v,
    eq_iff j k,
    get-absent es j h.0,
  )

  with_extra-written :
      (es out : JsonObject N)
      → HasDistinctMembers es
      → parse_json (stringify (obj (fields es))) ≡ some (obj (fields es))
      → (got : JsonObject N) × (with_extra parse_json (some (extra_cell es)) out ≡ some got)
        × ((k : String) → get got k ≡ elim (get es k) [ none ↦ get out k | some v ↦ some v ])
  unfolding with_extra extra_cell
  with_extra-written [] out h p = (out, refl, λ k. rw get-empty refl)
  with_extra-written (e ∷ es) out h p = (
    assign_members out (e ∷ es),
    rw (p, assign_parsed, entries-fields) refl,
    λ k. get-assign_members out (e ∷ es) k h,
  )

  uuid_of-keyed : (r : JsonObject N) (u : String) → get r "uuid" ≡ some (str u) → uuid_of r ≡ u
  unfolding uuid_of to_text
  uuid_of-keyed r u h = rw (uuid_of, h) refl

  cells_uuid :
      (fs : List FieldSpec) (r : JsonObject N) (u : String)
      → get r "uuid" ≡ some (str u)
      → get (cells d fs r) "uuid" ≡ some (str u)
  unfolding cells get
  cells_uuid fs r u h = ap (λ t. some (str t)) (uuid_of-keyed r u h)

  decode_row-steps :
      (fs : List FieldSpec) (row : Dict (Value N)) (out : JsonObject N) (u : String)
      (cell : Option (Value N)) (got : Option (JsonObject N))
      → get row "uuid" ≡ some (str u)
      → decode_fields parse_json fs row (("uuid", str u) ∷ []) ≡ some out
      → get row overflow_column ≡ cell
      → with_extra parse_json cell out ≡ got
      → decode_row parse_json fs row ≡ got
  unfolding decode_row to_text
  decode_row-steps fs row out u cell got named read last extra =
      rw (decode_row, named, to_text, read, last) extra

  get-uuid :
      (u k : String)
      → get {V = Value N} (("uuid", str u) ∷ []) k ≡ (if "uuid" == k then some (str u) else none)
  unfolding get
  get-uuid u k = refl

  get-overflow :
      (fs : List FieldSpec) (r : JsonObject N)
      → member overflow_column (names_of fs) ≡ false
      → get (cells d fs r) overflow_column ≡ some (extra_cell (extra_of fs r))
  unfolding cells get
  get-overflow fs r h =
      get-field_cells fs ((overflow_column, extra_cell (extra_of fs r)) ∷ []) r overflow_column h

  uuid-Unset :
      (u : String) (fs : List FieldSpec)
      → member "uuid" (names_of fs) ≡ false
      → All (λ f. get {V = Value N} (("uuid", str u) ∷ []) f.name ≡ none) fs
  unfolding get
  uuid-Unset u [] h = tt
  uuid-Unset u (f ∷ fs) h = (ground (arith, eq_iff "uuid" f.name), uuid-Unset u fs (ground arith))

  cells-Written :
      (fs : List FieldSpec) (r : JsonObject N)
      → member "uuid" (names_of fs) ≡ false
      → HasDistinctNames fs
      → All (Written (cells d fs r) r) fs
  unfolding cells
  cells-Written fs r no_uuid distinct =
      let last = (overflow_column, extra_cell (extra_of fs r)) ∷ [] in
      Written-shift (field_cells d fs r ++ last) "uuid" (str (uuid_of r)) r fs no_uuid
        (field_cells-Written fs last r distinct)

  -- The row that is written for a record is read as a record with the same value under every name,
  -- for both engines: if the columns have distinct names, other than `uuid` and the overflow column,
  -- the uuid is a text, each field that is present suits its column, and the host parses what it
  -- printed of the undeclared members and of the documents.
  pub decode_row-cells :
      (fs : List FieldSpec) (r : JsonObject N) (u : String)
      → get r "uuid" ≡ some (str u)
      → HasDistinctNames fs
      → member "uuid" (names_of fs) ≡ false
      → member overflow_column (names_of fs) ≡ false
      → All (λ f. Suits parse_json f.kind (get r f.name)) fs
      → HasDistinctMembers (extra_of fs r)
      → parse_json (stringify (obj (fields (extra_of fs r)))) ≡ some (obj (fields (extra_of fs r)))
      → (got : JsonObject N) × (decode_row parse_json fs (cells d fs r) ≡ some got)
        × ((k : String) → get got k ≡ get r k)
  decode_row-cells fs r u keyed distinct no_uuid no_extra suits members parses =
      let row = cells d fs r in
      let (out, e, same) =
        decode_fields-Written fs row r (("uuid", str u) ∷ []) distinct
          (cells-Written fs r no_uuid distinct) suits (uuid-Unset u fs no_uuid) in
      let (got, read, under) = with_extra-written (extra_of fs r) out members parses in
      (
        got,
        decode_row-steps fs row out u (some (extra_cell (extra_of fs r))) (some got)
            (cells_uuid fs r u keyed) e (get-overflow fs r no_extra) read,
        λ k. ground (
          arith,
          under k,
          same k,
          get-extra_of ("uuid" ∷ names_of fs) r k,
          get-uuid u k,
          eq_iff "uuid" k,
          keyed,
        ),
      )
