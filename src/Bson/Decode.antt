-- ===== src/Bson/Decode.antt =====
-- The decoder of cext/lua-bson.c: `unpack_dict` and `ldecode`.
use levent.Prelude.{
  ℕ, zero, suc, ◌+◌, ◌-◌, ◌/◌, ◌%◌, ◌^◌, ◌<◌, ◌≡◌, Bool, true, false, ◌&&◌, ◌||◌, not, [], ◌∷◌,
  ◌++◌, Bytes, length, take, ltb, leb, ◌==◌, if◌then◌else◌,
}
use levent.Prelude.Result.{
  Result, ok, raised, fault, moved_back, out_of_fuel, too_long, ◌>>=◌, ◌>>◌, guard, invalid_block,
  invalid_end, invalid_string, invalid_type,
}
use levent.Lua.{Value, Entries, boolean, integer, number, string, table, empty, rawset}
use levent.Bson.Wire.{
  bson_real, bson_string, bson_document, bson_array, bson_binary, bson_objectid, bson_boolean,
  bson_date, bson_null, bson_regex, bson_dbpointer, bson_jscode, bson_symbol, bson_codews,
  bson_int32, bson_timestamp, bson_int64, bson_minkey, bson_maxkey, bytes32,
}
use levent.Bson.Scalars.{first_word}
use levent.Bson.Encode.{decimal}
use levent.Bson.Reader.{
  read_byte, read_int32, read_int64, read_bytes, is_negative, read_sized, read_cstring,
}

-- `strtol(key, NULL, 10)`, converted to `int`, as its 32-bit pattern: it reads back what
-- `sprintf` printed.
pub record CLib : Type 0 where
  pub strtol : Bytes → ℕ
  pub strtol-decimal : (i : ℕ) → i < 2 ^ 31 → strtol (decimal i) ≡ i

-- An `int` as a `lua_Integer`.
abbrev pub sign_extend : ℕ → ℕ
sign_extend w = if is_negative w then w + 2 ^ 64 - 2 ^ 32 else w

-- `(uint32_t)(date / 1000)` for an `int64_t`, whose division rounds towards 0.
unfoldable pub date_seconds : ℕ → ℕ
date_seconds date =
    if ltb date (2 ^ 63)
    then date / 1000 % 2 ^ 32
    else (2 ^ 32 - (2 ^ 64 - date) / 1000 % 2 ^ 32) % 2 ^ 32

-- `make_object`
abbrev pub make_object : ℕ → Bytes → Value
make_object type bytes = string (0 ∷ type ∷ bytes)

unfoldable pub unpack_string : Bytes → Result (Value × Bytes)
unpack_string t = do
  (sz, t) ← read_int32 t
  guard (not (is_negative sz) && not (sz == 0)) invalid_string
  (s, t) ← read_bytes sz t
  ok (string (take (sz - 1) s), t)

unfoldable pub unpack_binary : Bytes → Result (Value × Bytes)
unpack_binary t = do
  (sz, t) ← read_int32 t
  (subtype, t) ← read_byte t
  (s, t) ← read_sized sz t
  ok (make_object bson_binary (subtype ∷ s), t)

unfoldable pub unpack_regex : Bytes → Result (Value × Bytes)
unpack_regex t = do
  (r1, t) ← read_cstring t
  (r2, t) ← read_cstring t
  ok (make_object bson_regex (r1 ++ (0 ∷ (r2 ++ (0 ∷ [])))), t)

unfoldable pub unpack_timestamp : Bytes → Result (Value × Bytes)
unpack_timestamp t = do
  (inc, t) ← read_int32 t
  (ts, t) ← read_int32 t
  ok (make_object bson_timestamp (bytes32 inc ++ bytes32 ts), t)

-- `make_object` on this many bytes, from the length in front on, where the reader stands behind them then.
unfoldable pub read_object : ℕ → ℕ → Bytes → Result (Value × Bytes)
read_object bt len t = do (s, u) ← read_bytes len t; ok (make_object bt s, u)

-- `read_bytes` of `sz + more - 4` bytes, for a signed `sz`, and an object of four more, the length in front
-- among them. Where the first is negative the reader moves back into the length, and where the second is, it is
-- too much for a string as a `size_t`.
unfoldable pub object_after : ℕ → ℕ → ℕ → Bytes → Result (Value × Bytes)
unfolding read_object
object_after bt more sz t =
    if is_negative sz
    then (if ltb (sz + more) (2 ^ 32)
        then raised too_long
        else read_object bt (sz + more - 2 ^ 32) t)
    else read_object bt (sz + more) t

-- BSON_JSCODE and BSON_SYMBOL keep the length in the object.
unfoldable pub unpack_code : ℕ → Bytes → Result (Value × Bytes)
unfolding object_after
unpack_code bt t = do (sz, u) ← read_int32 t; object_after bt 4 sz t

-- The sum `sz+12` of two `int`s may overflow.
unfoldable pub unpack_dbpointer : Bytes → Result (Value × Bytes)
unfolding object_after
unpack_dbpointer t = do
  (sz, u) ← read_int32 t
  if not (is_negative sz) && leb (2 ^ 31) (sz + 12)
      then fault
      else object_after bson_dbpointer 16 sz t

-- The difference `sz-4` may overflow.
unfoldable pub unpack_codews : Bytes → Result (Value × Bytes)
unfolding object_after
unpack_codews t = do
  (sz, u) ← read_int32 t
  if is_negative sz && ltb sz (2 ^ 31 + 4) then fault else object_after bson_codews 0 sz t

-- The switch of `unpack_dict` over the type byte; `nested` is the recursive call.
unfoldable pub unpack_value :
    (Bool → Bytes → Result (Entries × Bytes)) → ℕ → Bytes → Result (Value × Bytes)
unpack_value nested bt t =
    if bt == bson_real
    then (do (d, t) ← read_int64 t; ok (number d, t))
    else if bt == bson_boolean
    then (do (b, t) ← read_byte t; ok (boolean (not (b == 0)), t))
    else if bt == bson_string
    then unpack_string t
    else if bt == bson_document
    then (do (es, t) ← nested false t; ok (table es, t))
    else if bt == bson_array
    then (do (es, t) ← nested true t; ok (table es, t))
    else if bt == bson_binary
    then unpack_binary t
    else if bt == bson_objectid
    then (do (s, t) ← read_bytes 12 t; ok (make_object bson_objectid s, t))
    else if bt == bson_date
    then (do (d, t) ← read_int64 t; ok (make_object bson_date (bytes32 (date_seconds d)), t))
    else if bt == bson_minkey
    then ok (make_object bt [], t)
    else if bt == bson_maxkey
    then ok (make_object bt [], t)
    else if bt == bson_null
    then ok (make_object bt [], t)
    else if bt == bson_regex
    then unpack_regex t
    else if bt == bson_int32
    then (do (i, t) ← read_int32 t; ok (integer (sign_extend i), t))
    else if bt == bson_timestamp
    then unpack_timestamp t
    else if bt == bson_int64
    then (do (i, t) ← read_int64 t; ok (integer i, t))
    else if bt == bson_dbpointer
    then unpack_dbpointer t
    else if bt == bson_jscode
    then unpack_code bt t
    else if bt == bson_symbol
    then unpack_code bt t
    else if bt == bson_codews
    then unpack_codews t
    else raised invalid_type

-- The bytes of the elements, behind a document's length `sz`. A length below 5 leaves a negative
-- size, at which the reads raise an error; only at 1 the byte in the place of the end is not zero. A negative
-- length moves the reader backwards, and its next reads raise an error, or read in front of the block.
unfoldable pub read_elements : Bytes → Result (Bytes × Bytes)
read_elements br = do
  (sz, br) ← read_int32 br
  guard (is_negative sz || leb 5 sz) (if sz == 1 then invalid_end else invalid_block)
  (bytes, br) ← (if is_negative sz then moved_back else read_bytes (sz - 5) br)
  (end, br) ← read_byte br
  guard (end == 0) invalid_end
  ok (bytes, br)

module _ (c : CLib) where
  -- The key of an element, in an array or in a document.
  unfoldable pub element_key_of : Bool → Bytes → Value
  element_key_of true key = integer (sign_extend ((c.strtol key + 1) % 2 ^ 32))
  element_key_of false key = string key

  unfoldable mutual
    pub unpack_dict : ℕ → Bool → Bytes → Result (Entries × Bytes)
    unpack_dict zero array br = out_of_fuel
    unpack_dict (suc f) array br = do
      (bytes, br) ← read_elements br
      es ← unpack_elements f array bytes empty
      ok (es, br)

    -- The loop of `unpack_dict` over the elements, with the table so far.
    pub unpack_elements : ℕ → Bool → Bytes → Entries → Result Entries
    unpack_elements zero array t es = out_of_fuel
    unpack_elements (suc f) array [] es = ok es
    unpack_elements (suc f) array (bt ∷ t) es = do
      (key, t) ← read_cstring t
      (v, t) ← unpack_value (unpack_dict f) bt t
      unpack_elements f array t (rawset (element_key_of array key) v es)

  -- `ldecode` on a block of memory. Each document and each element takes a byte at least, so the
  -- length is enough fuel.
  unfoldable pub decode : Bytes → Result Entries
  unfolding first_word
  decode doc =
      if ltb (length doc) 4
      then fault
      else if is_negative (first_word doc)
      then raised invalid_block
      else if ltb (length doc) (first_word doc)
      then fault
      else (do
        (es, rest) ← unpack_dict (first_word doc + 1) false (take (first_word doc) doc)
        ok es)
