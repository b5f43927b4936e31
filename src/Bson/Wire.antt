-- ===== src/Bson/Wire.antt =====
-- Constants of cext/lua-bson.c, and little-endian words.
use levent.Prelude.{ℕ, ◌+◌, ◌*◌, ◌/◌, ◌%◌, ◌^◌, ◌<◌, ◌≡◌, [], ◌∷◌, Bytes, arith}

abbrev pub default_cap : ℕ
default_cap = 64

abbrev pub max_number : ℕ
max_number = 1024

abbrev pub max_depth : ℕ
max_depth = 128

abbrev pub bson_real : ℕ
bson_real = 1

abbrev pub bson_string : ℕ
bson_string = 2

abbrev pub bson_document : ℕ
bson_document = 3

abbrev pub bson_array : ℕ
bson_array = 4

abbrev pub bson_binary : ℕ
bson_binary = 5

abbrev pub bson_undefined : ℕ
bson_undefined = 6

abbrev pub bson_objectid : ℕ
bson_objectid = 7

abbrev pub bson_boolean : ℕ
bson_boolean = 8

abbrev pub bson_date : ℕ
bson_date = 9

abbrev pub bson_null : ℕ
bson_null = 10

abbrev pub bson_regex : ℕ
bson_regex = 11

abbrev pub bson_dbpointer : ℕ
bson_dbpointer = 12

abbrev pub bson_jscode : ℕ
bson_jscode = 13

abbrev pub bson_symbol : ℕ
bson_symbol = 14

abbrev pub bson_codews : ℕ
bson_codews = 15

abbrev pub bson_int32 : ℕ
bson_int32 = 16

abbrev pub bson_timestamp : ℕ
bson_timestamp = 17

abbrev pub bson_int64 : ℕ
bson_int64 = 18

abbrev pub bson_minkey : ℕ
bson_minkey = 255

abbrev pub bson_maxkey : ℕ
bson_maxkey = 127

abbrev pub bson_type_shift : ℕ
bson_type_shift = 5

-- The bytes of an `uint32_t`, lowest first; of a larger number those of its low 32 bits.
abbrev pub bytes32 : ℕ → Bytes
bytes32 v = v % 256 ∷ v / 2 ^ 8 % 256 ∷ v / 2 ^ 16 % 256 ∷ v / 2 ^ 24 % 256 ∷ []

-- The bytes of an `uint64_t`, lowest first.
abbrev pub bytes64 : ℕ → Bytes
bytes64 v =
    v % 256
    ∷ v / 2 ^ 8 % 256
    ∷ v / 2 ^ 16 % 256
    ∷ v / 2 ^ 24 % 256
    ∷ v / 2 ^ 32 % 256
    ∷ v / 2 ^ 40 % 256
    ∷ v / 2 ^ 48 % 256
    ∷ v / 2 ^ 56 % 256
    ∷ []

-- `b[0] | b[1]<<8 | b[2]<<16 | b[3]<<24` on bytes.
abbrev pub word32 : ℕ → ℕ → ℕ → ℕ → ℕ
word32 a b c d = a + b * 2 ^ 8 + c * 2 ^ 16 + d * 2 ^ 24

pub word32-bytes32 :
    (v : ℕ)
    → v < 2 ^ 32
    → word32 (v % 256) (v / 2 ^ 8 % 256) (v / 2 ^ 16 % 256) (v / 2 ^ 24 % 256) ≡ v
word32-bytes32 v h = omega arith

pub word64-bytes64 :
    (v : ℕ)
    → v < 2 ^ 64
    → word32 (v % 256) (v / 2 ^ 8 % 256) (v / 2 ^ 16 % 256) (v / 2 ^ 24 % 256)
        + word32 (v / 2 ^ 32 % 256) (v / 2 ^ 40 % 256) (v / 2 ^ 48 % 256) (v / 2 ^ 56 % 256)
          * 2 ^ 32
      ≡ v
word64-bytes64 v h = omega arith
