-- ===== src/Bson/Encode.antt =====
-- The encoder of cext/lua-bson.c, from texts and tables to `lencode_order`.
use levent.Prelude.{
  ℕ, zero, suc, ◌+◌, ◌-◌, ◌/◌, ◌%◌, ◌^◌, Bool, true, false, ◌&&◌, List, [], ◌∷◌, ◌++◌, Bytes,
  length, take, ltb, leb, ◌==◌, if◌then◌else◌,
}
use levent.Prelude.Result.{
  Result, ok, raised, fault, ◌>>=◌, invalid_value, invalid_key, invalid_array_key, no_next_key,
  not_a_string, too_deep, bad_argument,
}
use levent.Lua.{
  Value, Entries, nil, boolean, integer, number, string, table, userdata, other, empty, entry,
  raw_equal, LuaLib,
}
use levent.Bson.Wire.{max_number, max_depth, bson_string, bson_document, bson_array, bson_boolean}
use levent.Bson.Buffer.{
  Bson, bson_create, write_byte, write_length, write_string, write_bytes, reserve_length,
}
use levent.Bson.Scalars.{append_key, append_integer, append_double, first_word, write_special}

unfoldable pub append_text : Bytes → Bytes → Bson → Result Bson
append_text str key b = do
  b ← append_key bson_string key b
  (off, b) ← reserve_length b
  b ← write_string str b
  write_length (length str + 1) off b

-- `len > 1 && str[0] == 0` tells the special values from plain text.
unfoldable pub append_string : Bytes → Bytes → Bson → Result Bson
append_string (c ∷ subt ∷ payload) key b =
    if c == 0
    then (do b ← append_key subt key b; write_special subt payload b)
    else append_text (c ∷ subt ∷ payload) key b
append_string str key b = append_text str key b

-- A document that is already encoded: its length stands in its first four bytes.
unfoldable pub copy_document : Bytes → Bson → Result Bson
unfolding first_word
copy_document doc b =
    if leb 4 (length doc) && leb (first_word doc) (length doc)
    then write_bytes (take (first_word doc) doc) b
    else fault

unfoldable pub append_userdata : Bytes → Bytes → Bson → Result Bson
unfolding copy_document
append_userdata doc key b = do b ← append_key bson_document key b; copy_document doc b

-- `sprintf(str, "%u", i)`: ten digits are enough for an `unsigned int`.
unfoldable pub digits : ℕ → ℕ → Bytes
digits zero i = []
digits (suc f) i =
    let front = digits f (i / 10) in
    if ltb i 10 then (48 + i) ∷ [] else front ++ ((48 + i % 10) ∷ [])

unfoldable pub decimal : ℕ → Bytes
unfolding digits
decimal i = digits 10 i

-- Below MAX_NUMBER the text is copied from a table that `luaopen_bson` filled by the same `sprintf`,
-- four bytes at most.
unfoldable pub bson_numstr : ℕ → Bytes
unfolding decimal
bson_numstr i = if ltb i max_number then take 4 (decimal i) else decimal i

-- `lua_next` on the key `n`: whether the entry with that key is the last one.
unfoldable pub is_last_key : ℕ → Entries → Result Bool
unfolding raw_equal
is_last_key n empty = raised no_next_key
is_last_key n (entry k v es) =
    let rest = is_last_key n es in
    if raw_equal k (integer n) then ok (elim es [ empty ↦ true | entry _ _ _ ↦ false ]) else rest

-- `(unsigned int)lua_tointeger(L,-2)-1`; a key that is a double is no integer, and converts to 0.
unfoldable pub array_index : ℕ → ℕ
array_index k = (k + 2 ^ 32 - 1) % 2 ^ 32

module _ (lua : LuaLib) where
  -- The key of an element, as `pack_dict` reads it off the table's key.
  unfoldable pub element_key : Bool → Value → Result Bytes
  element_key true (integer k) = ok (bson_numstr (array_index k))
  element_key true (number k) = ok (bson_numstr (array_index 0))
  element_key true _ = raised invalid_array_key
  element_key false (integer k) = ok (lua.number_key (integer k))
  element_key false (number k) = ok (lua.number_key (number k))
  element_key false (string s) = ok s
  element_key false _ = raised invalid_key

  unfoldable pub is_array : Entries → Result Bool
  unfolding is_last_key
  is_array es = if lua.rawlen es == 0 then ok false else is_last_key (lua.rawlen es) es

  -- The elements and the zero that ends them.
  unfoldable pub pack_elements : (Bson → Result Bson) → Bson → Result Bson
  pack_elements loop b = do b ← loop b; write_byte 0 b

  -- `pack_dict` around its loop over the entries, and `pack_ordered_dict` around its own.
  unfoldable pub pack_body : (Bson → Result Bson) → Bson → Result Bson
  unfolding pack_elements
  pack_body loop b = do
    (start, b) ← reserve_length b
    b ← pack_elements loop b
    write_length (b.size - start) start b

  unfoldable pub pack_dict : (Bson → Result Bson) → ℕ → Bson → Result Bson
  unfolding pack_body
  pack_dict loop depth b = if ltb max_depth depth then raised too_deep else pack_body loop b

  -- `append_table`, given the loop of `pack_dict` over the table's entries.
  unfoldable pub append_table :
      Entries → (Bool → ℕ → Bson → Result Bson) → Bytes → ℕ → Bson → Result Bson
  unfolding is_array pack_dict
  append_table es loop key depth b = do
    array ← is_array es
    b ← append_key (if array then bson_array else bson_document) key b
    pack_dict (loop array depth) depth b

  unfoldable mutual
    -- `append_one`
    pub append_one : Value → Bytes → ℕ → Bson → Result Bson
    append_one (integer i) key depth b = append_integer i key b
    append_one (number bits) key depth b = append_double bits key b
    append_one (userdata doc) key depth b = append_userdata doc key b
    append_one (string str) key depth b = append_string str key b
    append_one (table es) key depth b = append_table es (pack_entries es) key (depth + 1) b
    append_one (boolean v) key depth b = do
      b ← append_key bson_boolean key b
      write_byte (if v then 1 else 0) b
    append_one nil key depth b = raised invalid_value
    append_one other key depth b = raised invalid_value

    -- The loop of `pack_dict` over `lua_next`.
    pub pack_entries : Entries → Bool → ℕ → Bson → Result Bson
    pack_entries empty array depth b = ok b
    pack_entries (entry k v es) array depth b = do
      key ← element_key array k
      b ← append_one v key depth b
      pack_entries es array depth b

  -- The document of a table. The argument of `bson_create` is what the memory holds at first.
  unfoldable pub encode : (ℕ → ℕ) → Value → Result Bytes
  encode stale (table es) = do
    b ← pack_dict (pack_entries es false 0) 0 (bson_create stale)
    ok b.filled
  encode stale _ = raised bad_argument

  -- `lua_tolstring` on an argument that is a key, and the error where it gives NULL.
  unfoldable pub argument_key : Value → Result Bytes
  argument_key (integer k) = ok (lua.number_key (integer k))
  argument_key (number k) = ok (lua.number_key (number k))
  argument_key (string s) = ok s
  argument_key _ = raised not_a_string

  -- The loop of `pack_ordered_dict` over the arguments: key, value, key, value. A key that is a
  -- number is converted.
  unfoldable pub pack_arguments : List Value → Bson → Result Bson
  pack_arguments [] b = ok b
  pack_arguments (k ∷ []) b = raised bad_argument
  pack_arguments (k ∷ v ∷ rest) b = do
    key ← argument_key k
    b ← append_one v key 0 b
    pack_arguments rest b

  unfoldable pub encode_order : (ℕ → ℕ) → List Value → Result Bytes
  encode_order stale arguments =
      if length arguments % 2 == 0
      then (do b ← pack_body (pack_arguments arguments) (bson_create stale); ok b.filled)
      else raised bad_argument
