-- ===== src/Bson/Index.antt =====
-- The index of a document in cext/lua-bson.c: `lmakeindex` finds the fields of a fixed size, and
-- `lreplace` writes over one.
use levent.Prelude.{
  ℕ, zero, suc, ◌+◌, ◌-◌, ◌*◌, ◌/◌, ◌%◌, ◌^◌, false, ◌&&◌, ◌||◌, Option, none, some, List, [], ◌∷◌,
  ◌++◌, Bytes, bytes_eq, length, take, drop, ltb, leb, ◌==◌, if◌then◌else◌,
}
use levent.Prelude.Result.{
  Result, ok, raised, fault, moved_back, out_of_fuel, ◌>>=◌, invalid_object, invalid_type,
  invalid_block, not_indexed, invalid_value, bad_argument,
}
use levent.Lua.{Value, nil, boolean, integer, number, string}
use levent.Bson.Wire.{
  bson_real, bson_string, bson_document, bson_array, bson_binary, bson_objectid, bson_boolean,
  bson_date, bson_null, bson_regex, bson_dbpointer, bson_jscode, bson_symbol, bson_codews,
  bson_int32, bson_timestamp, bson_int64, bson_minkey, bson_maxkey, bytes32, bytes64,
}
use levent.Bson.Scalars.{first_word}
use levent.Bson.Reader.{read_int32, read_bytes, is_negative, read_cstring}

-- A name and its `id`: the type in the low five bits, and the offset above them.
abbrev pub Index : Type 0
Index = List (Bytes × ℕ)

unfoldable pub set_id : Bytes → ℕ → Index → Index
set_id key id [] = (key, id) ∷ []
set_id key id ((k, i) ∷ index) =
    if bytes_eq k key then (key, id) ∷ index else (k, i) ∷ set_id key id index

unfoldable pub get_id : Bytes → Index → Option ℕ
get_id key [] = none
get_id key ((k, i) ∷ index) = if bytes_eq k key then some i else get_id key index

-- `field_size`, 0 for the types that have none.
unfoldable pub field_size : ℕ → ℕ
field_size bt =
    if (bt == bson_int64) || (bt == bson_timestamp)
    then 8
    else if (bt == bson_date) || (bt == bson_real)
    then 8
    else if bt == bson_boolean
    then 1
    else if bt == bson_objectid
    then 12
    else if bt == bson_int32
    then 4
    else 0

-- `read_bytes` of `up - down` bytes, where an `int` of that value may overflow. A negative one moves the reader
-- backwards.
unfoldable pub move_by : ℕ → ℕ → Bytes → Result (Bytes × Bytes)
move_by up down t =
    if ltb up down
    then (if ltb (up + 2 ^ 31) down then fault else moved_back)
    else if leb (2 ^ 31) (up - down)
    then fault
    else read_bytes (up - down) t

-- `read_int32` and `read_bytes` of `sz + more - less` bytes, for a signed `sz`.
unfoldable pub skip_sized : ℕ → ℕ → Bytes → Result (Bytes × Bytes)
unfolding move_by
skip_sized more less t = do
  (sz, t) ← read_int32 t
  move_by (sz + more) (if is_negative sz then 2 ^ 32 + less else less) t

-- A field of another type: what is read of it last, and the rest.
unfoldable pub skip_field : ℕ → Bytes → Result (Bytes × Bytes)
unfolding skip_sized
skip_field bt t =
    if (bt == bson_jscode) || (bt == bson_symbol) || (bt == bson_string)
    then skip_sized 0 0 t
    else if (bt == bson_codews) || (bt == bson_array) || (bt == bson_document)
    then skip_sized 0 4 t
    else if bt == bson_binary
    then skip_sized 1 0 t
    else if (bt == bson_minkey) || (bt == bson_maxkey) || (bt == bson_null)
    then ok ([], t)
    else if bt == bson_regex
    then (do (r1, t) ← read_cstring t; read_cstring t)
    else if bt == bson_dbpointer
    then skip_sized 12 0 t
    else raised invalid_type

-- `bt | (int)(br.ptr - start) << BSON_TYPE_SHIFT`, for a type below 2^5.
unfoldable pub make_id : ℕ → ℕ → Result ℕ
make_id bt offset = if ltb (offset * 32) (2 ^ 31) then ok (bt + offset * 32) else fault

-- The loop of `lmakeindex`; `end` is the offset of the document's last byte.
unfoldable pub index_elements : ℕ → ℕ → Bytes → Index → Result Index
index_elements zero end t index = out_of_fuel
index_elements (suc f) end [] index = ok index
index_elements (suc f) end (bt ∷ t) index = do
  (key, u) ← read_cstring t
  if field_size bt == 0 then (do (v, w) ← skip_field bt u; index_elements f end w index) else (do
    id ← make_id bt (end - length u)
    (v, w) ← read_bytes (field_size bt) u
    index_elements f end w (set_id key id index))

-- `lmakeindex`: the elements stand behind the length, and in front of the last byte.
unfoldable pub make_index : Bytes → Result Index
make_index doc =
    let len = first_word doc in
    if ltb (length doc) 4
    then fault
    else if is_negative len || ltb len 5
    then raised invalid_block
    else if ltb (length doc) len
    then fault
    else index_elements (suc len) (len - 1) (take (len - 5) (drop 4 doc)) []

-- `replace_object`: the bytes that it writes. Fewer than six bytes are no object.
unfoldable pub object_bytes : ℕ → Bytes → Result Bytes
object_bytes type (c ∷ subtype ∷ payload) =
    if (c == 0) && (subtype == type) && leb 4 (length payload)
    then if type == bson_objectid
      then (if length payload == 12 then ok payload else raised invalid_object)
      else if type == bson_date
      then (if length payload == 4
          then ok (bytes64 (first_word payload * 1000))
          else raised invalid_object)
      else if length payload == 8
      then ok (bytes32 (first_word payload) ++ bytes32 (first_word (drop 4 payload)))
      else raised invalid_object
    else raised invalid_object
object_bytes type _ = raised invalid_object

-- `luaL_checklstring` takes a number too, whose text does not start with a zero.
unfoldable pub replace_object : ℕ → Value → Result Bytes
unfolding object_bytes
replace_object type (string text) = object_bytes type text
replace_object type (integer i) = raised invalid_object
replace_object type (number d) = raised invalid_object
replace_object type _ = raised bad_argument

-- `lua_toboolean`
unfoldable pub truth : Value → ℕ
truth nil = 0
truth (boolean false) = 0
truth _ = 1

-- `if (!lua_isinteger(L, 3)) luaL_error(...)`
unfoldable pub integer_bytes : (ℕ → Bytes) → Value → Result Bytes
integer_bytes bytes_of (integer i) = ok (bytes_of i)
integer_bytes bytes_of _ = raised invalid_value

-- The bytes that `lreplace` writes for a type; `check_number` is `luaL_checknumber`.
unfoldable pub value_for : (Value → Option ℕ) → ℕ → Value → Result Bytes
unfolding replace_object truth integer_bytes
value_for check_number type v =
    if type == bson_real
    then elim (check_number v) [ none ↦ raised bad_argument | some d ↦ ok (bytes64 d) ]
    else if type == bson_boolean
    then ok (truth v ∷ [])
    else if (type == bson_objectid) || (type == bson_date) || (type == bson_timestamp)
    then replace_object type v
    else if type == bson_int32
    then integer_bytes (λ i. bytes32 i) v
    else if type == bson_int64
    then integer_bytes (λ i. bytes64 i) v
    else raised invalid_type

-- The `struct bson` of `lreplace` writes into the document, from `offset` on.
unfoldable pub write_at : ℕ → Bytes → Bytes → Result Bytes
write_at offset bytes doc =
    if leb (offset + length bytes) (length doc)
    then ok (take offset doc ++ (bytes ++ drop (offset + length bytes) doc))
    else fault

-- `lreplace`; `none` is a document without an index.
unfoldable pub lreplace : (Value → Option ℕ) → Option Index → Bytes → Bytes → Value → Result Bytes
unfolding value_for write_at
lreplace check_number none doc key v = raised not_indexed
lreplace check_number (some index) doc key v = elim (get_id key index) [
  | none ↦ raised not_indexed
  | some id ↦ do bytes ← value_for check_number (id % 32) v; write_at (id / 32) bytes doc
]
