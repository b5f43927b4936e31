-- ===== src/Bson/Scalars.antt =====
-- What the encoder of cext/lua-bson.c writes for a value that is no table: keys, numbers and the
-- special values that a string with a zero in front stands for.
use levent.Prelude.{
  ℕ, ◌+◌, ◌-◌, ◌*◌, ◌^◌, Bool, ◌||◌, Option, none, some, [], ◌∷◌, Bytes, length, ltb, leb, ◌==◌,
  if◌then◌else◌,
}
use levent.Prelude.Result.{Result, ok, raised, fault, ◌>>=◌, invalid_object, invalid_subtype}
use levent.Bson.Wire.{
  bson_real, bson_binary, bson_objectid, bson_date, bson_null, bson_regex, bson_dbpointer,
  bson_jscode, bson_symbol, bson_codews, bson_int32, bson_timestamp, bson_int64, bson_minkey,
  bson_maxkey, word32,
}
use levent.Bson.Buffer.{
  Bson, write_byte, write_int32, write_int64, write_double, write_length, write_string, write_bytes,
  reserve_length,
}

unfoldable pub append_key : ℕ → Bytes → Bson → Result Bson
append_key type key b = do b ← write_byte type b; write_string key b

-- `v >= INT32_MIN && v <= INT32_MAX`, on the 64-bit pattern of `v`
unfoldable pub is_32bit : ℕ → Bool
is_32bit v = ltb v (2 ^ 31) || leb (2 ^ 64 - 2 ^ 31) v

-- `append_number` on an integer, and on a double.
unfoldable pub append_integer : ℕ → Bytes → Bson → Result Bson
unfolding is_32bit
append_integer i key b =
    if is_32bit i
    then (do b ← append_key bson_int32 key b; write_int32 i b)
    else (do b ← append_key bson_int64 key b; write_int64 i b)

unfoldable pub append_double : ℕ → Bytes → Bson → Result Bson
append_double bits key b = do b ← append_key bson_real key b; write_double bits b

-- The first byte of `payload` is the binary subtype, which the length leaves out.
unfoldable pub write_binary : Bytes → Bson → Result Bson
write_binary payload b = do
  (start, b) ← reserve_length b
  b ← write_bytes payload b
  write_length (length payload + 2 ^ 32 - 1) start b

-- The scan of BSON_REGEX backwards for a zero: what stands before and behind the last one.
unfoldable pub split_last_zero : Bytes → Option (Bytes × Bytes)
split_last_zero [] = none
split_last_zero (c ∷ cs) = elim (split_last_zero cs) [
  | some (xs, ys) ↦ some (c ∷ xs, ys)
  | none ↦ if c == 0 then some ([], cs) else none
]

-- All but the last byte.
unfoldable pub drop_last : Bytes → Bytes
drop_last [] = []
drop_last (c ∷ []) = []
drop_last (c ∷ d ∷ cs) = c ∷ drop_last (d ∷ cs)

-- With no byte behind the subtype the length wraps around, and with no zero in front of the last
-- byte the first text's length does.
unfoldable pub write_regex : Bytes → Bson → Result Bson
unfolding split_last_zero drop_last
write_regex [] b = fault
write_regex (c ∷ cs) b = elim (split_last_zero (drop_last (c ∷ cs))) [
  | none ↦ fault
  | some (xs, ys) ↦ do b ← write_string xs b; write_string ys b
]

-- `*(const uint32_t *)` at the front of some bytes.
unfoldable pub first_word : Bytes → ℕ
first_word (a ∷ b ∷ c ∷ d ∷ rest) = word32 a b c d
first_word _ = 0

unfoldable pub write_date : Bytes → Bson → Result Bson
unfolding first_word
write_date payload b =
    if length payload == 4 then write_int64 (first_word payload * 1000) b else raised invalid_object

unfoldable pub write_timestamp : Bytes → Bson → Result Bson
unfolding first_word
write_timestamp (a ∷ b ∷ c ∷ d ∷ ts) buf =
    if length ts == 4
    then (do buf ← write_int32 (word32 a b c d) buf; write_int32 (first_word ts) buf)
    else raised invalid_object
write_timestamp _ buf = raised invalid_object

-- The switch over the subtype of a string that starts with a zero byte.
unfoldable pub write_special : ℕ → Bytes → Bson → Result Bson
unfolding write_binary write_regex write_date write_timestamp
write_special subt payload b =
    if subt == bson_binary
    then write_binary payload b
    else if subt == bson_objectid
    then (if length payload == 12 then write_bytes payload b else raised invalid_object)
    else if subt == bson_jscode
    then write_bytes payload b
    else if subt == bson_dbpointer
    then write_bytes payload b
    else if subt == bson_symbol
    then write_bytes payload b
    else if subt == bson_codews
    then write_bytes payload b
    else if subt == bson_date
    then write_date payload b
    else if subt == bson_timestamp
    then write_timestamp payload b
    else if subt == bson_regex
    then write_regex payload b
    else if subt == bson_minkey
    then ok b
    else if subt == bson_maxkey
    then ok b
    else if subt == bson_null
    then ok b
    else raised invalid_subtype
