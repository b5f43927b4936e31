-- ===== src/Bson/Values.antt =====
-- The special values of cext/lua-bson.c: the functions that make their strings, and `ltype`, which
-- takes them apart.
use levent.Prelude.{
  ℕ, zero, suc, ◌+◌, ◌-◌, ◌*◌, ◌/◌, ◌%◌, ◌^◌, ◌&&◌, Option, none, some, List, [], ◌∷◌, ◌++◌, Bytes,
  length, drop, ltb, leb, ◌==◌, if◌then◌else◌,
}
use levent.Prelude.Result.{Result, ok, raised, fault, invalid_object, invalid_subtype, invalid_type}
use levent.Lua.{Value, nil, boolean, integer, number, string, table, userdata, other}
use levent.Bson.Wire.{
  bson_binary, bson_objectid, bson_date, bson_null, bson_regex, bson_dbpointer, bson_jscode,
  bson_symbol, bson_codews, bson_timestamp, bson_minkey, bson_maxkey, bytes32,
}
use levent.Bson.Scalars.{first_word, split_last_zero, drop_last}
use levent.Bson.Decode.{sign_extend}

-- The int's four bytes are those of its two's complement pattern.
unfoldable pub ldate : ℕ → Bytes
ldate d = 0 ∷ bson_date ∷ bytes32 d

-- Without a second argument the static counter `inc` is taken, and counted up.
unfoldable pub ltimestamp : ℕ → Option ℕ → ℕ → Bytes × ℕ
ltimestamp d none inc = (0 ∷ bson_timestamp ∷ (bytes32 inc ++ bytes32 d), (inc + 1) % 2 ^ 32)
ltimestamp d (some i) inc = (0 ∷ bson_timestamp ∷ (bytes32 i ++ bytes32 d), inc)

-- The pattern's `luaL_checkstring` lets zeros pass.
unfoldable pub lregex : Bytes → Option Bytes → Bytes
lregex pattern none = 0 ∷ bson_regex ∷ (pattern ++ (0 ∷ 0 ∷ []))
lregex pattern (some options) = 0 ∷ bson_regex ∷ (pattern ++ (0 ∷ (options ++ (0 ∷ []))))

unfoldable pub lbinary : Bytes → Bytes
lbinary bytes = 0 ∷ bson_binary ∷ 0 ∷ bytes

unfoldable pub hextoint : ℕ → ℕ
hextoint c =
    if leb 48 c && leb c 57
    then c - 48
    else if leb 97 c && leb c 122
    then c - 97 + 10
    else if leb 65 c && leb c 90
    then c - 65 + 10
    else 0

-- `a | c` for the `c` below 3 that the high bits of a digit up to 35 are.
unfoldable pub or_small : ℕ → ℕ → ℕ
or_small a zero = a
or_small a (suc zero) = a + 1 - a % 2
or_small a _ = a + 2 - a / 2 % 2 * 2

-- `hextoint(a) << 4 | hextoint(b)`, stored in an `uint8_t`.
unfoldable pub hex_byte : ℕ → ℕ → ℕ
unfolding hextoint or_small
hex_byte a b = let low = hextoint b in (or_small (hextoint a) (low / 16) * 16 + low % 16) % 256

unfoldable pub hex_bytes : Bytes → Bytes
unfolding hex_byte
hex_bytes (a ∷ b ∷ text) = hex_byte a b ∷ hex_bytes text
hex_bytes _ = []

-- `objectid` of a text.
unfoldable pub lobjectid : Bytes → Result Bytes
unfolding hex_bytes
lobjectid text =
    if length text == 24 then ok (0 ∷ bson_objectid ∷ hex_bytes text) else raised invalid_object

-- `objectid` without one: of the time, the five bytes of `oid_header` and the counter, which it
-- counts up.
unfoldable pub new_objectid : ℕ → Bytes → ℕ → Bytes × ℕ
new_objectid ti oid_header oid_counter = (
  0
      ∷ bson_objectid
      ∷ ti / 2 ^ 24 % 256
      ∷ ti / 2 ^ 16 % 256
      ∷ ti / 2 ^ 8 % 256
      ∷ ti % 256
      ∷ (oid_header
          ++ (oid_counter / 2 ^ 16 % 256 ∷ oid_counter / 2 ^ 8 % 256 ∷ oid_counter % 256 ∷ [])),
  (oid_counter + 1) % 2 ^ 32,
)

-- The names that `typeclosure` binds.
pub data TypeName : Type 0 where
  is_number : TypeName
  is_boolean : TypeName
  is_table : TypeName
  is_nil : TypeName
  is_string : TypeName
  is_binary : TypeName
  is_objectid : TypeName
  is_timestamp : TypeName
  is_date : TypeName
  is_regex : TypeName
  is_minkey : TypeName
  is_maxkey : TypeName
  is_unsupported : TypeName

unfoldable pub hex_digit : ℕ → ℕ
hex_digit n = if ltb n 10 then 48 + n else 87 + n

unfoldable pub hex_text : Bytes → Bytes
unfolding hex_digit
hex_text [] = []
hex_text (b ∷ id) = hex_digit (b / 16) ∷ hex_digit (b % 16) ∷ hex_text id

-- With no byte behind the subtype the sizes of a binary and a regex wrap around.
unfoldable pub lsubtype : ℕ → Bytes → Result (TypeName × List Value)
unfolding first_word hex_text
lsubtype subtype buf =
    if subtype == bson_binary
    then elim buf [ [] ↦ fault | c ∷ bytes ↦ ok (is_binary, string bytes ∷ integer c ∷ []) ]
    else if subtype == bson_objectid
    then (if length buf == 12
        then ok (is_objectid, string (hex_text buf) ∷ [])
        else raised invalid_object)
    else if subtype == bson_date
    then (if length buf == 4
        then ok (is_date, integer (sign_extend (first_word buf)) ∷ [])
        else raised invalid_object)
    else if subtype == bson_timestamp
    then (if length buf == 8
        then ok (is_timestamp, integer (first_word (drop 4 buf)) ∷ integer (first_word buf) ∷ [])
        else raised invalid_object)
    else if subtype == bson_regex
    then elim buf [
      | [] ↦ fault
      | c ∷ bytes ↦ elim (split_last_zero (drop_last (c ∷ bytes))) [
        | none ↦ raised invalid_object
        | some (pattern, options) ↦ ok (is_regex, string pattern ∷ string options ∷ [])
      ]
    ]
    else if subtype == bson_minkey
    then ok (is_minkey, [])
    else if subtype == bson_maxkey
    then ok (is_maxkey, [])
    else if subtype == bson_null
    then ok (is_nil, [])
    else if subtype == bson_jscode
    then ok (is_unsupported, string buf ∷ [])
    else if subtype == bson_dbpointer
    then ok (is_unsupported, string buf ∷ [])
    else if subtype == bson_symbol
    then ok (is_unsupported, string buf ∷ [])
    else if subtype == bson_codews
    then ok (is_unsupported, string buf ∷ [])
    else raised invalid_subtype

-- `bson.type`
unfoldable pub ltype : Value → Result (TypeName × List Value)
unfolding lsubtype
ltype (integer i) = ok (is_number, integer i ∷ [])
ltype (number d) = ok (is_number, number d ∷ [])
ltype (boolean b) = ok (is_boolean, boolean b ∷ [])
ltype (table es) = ok (is_table, table es ∷ [])
ltype nil = ok (is_nil, [])
ltype (string (c ∷ subtype ∷ buf)) =
    if c == 0 then lsubtype subtype buf else ok (is_string, string (c ∷ subtype ∷ buf) ∷ [])
ltype (string text) = ok (is_string, string text ∷ [])
ltype (userdata doc) = raised invalid_type
ltype other = raised invalid_type
