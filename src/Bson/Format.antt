-- ===== src/Bson/Format.antt =====
-- The BSON format of the values that survive encoding and decoding, independently of the code of
-- cext/lua-bson.c: which values these are, and the bytes of each.
use levent.Prelude.{
  ℕ, suc, ◌+◌, ◌-◌, ◌*◌, ◌^◌, ◌<◌, ◌≡◌, ◌⊎◌, Bool, true, false, ◌&&◌, not, [], ◌∷◌, ◌++◌, Bytes,
  All, IsByte, length, ◌==◌, if◌then◌else◌,
}
use Prim.Native.Nat.{max}
use levent.Lua.{
  Value, Entries, nil, boolean, integer, number, string, table, userdata, other, empty, entry,
  raw_equal,
}
use levent.Bson.Wire.{
  bson_real, bson_string, bson_document, bson_array, bson_binary, bson_objectid, bson_boolean,
  bson_date, bson_null, bson_regex, bson_jscode, bson_symbol, bson_int32, bson_timestamp,
  bson_int64, bson_minkey, bson_maxkey, bytes32, bytes64,
}
use levent.Bson.Scalars.{is_32bit, first_word}
use levent.Bson.Encode.{decimal}

-- No byte is zero, as in the keys and texts that a zero ends.
abbrev pub NoZero : Bytes → Type 0
NoZero = All (λ c. (c == 0) ≡ false)

-- A string with fewer than two bytes, or that starts with another byte than zero, is plain text.
abbrev pub is_text : Bytes → Bool
is_text (c ∷ d ∷ rest) = not (c == 0)
is_text _ = true

-- The special values, by the subtype and the bytes behind it.
pub data IsSpecial (subt : ℕ) (p : Bytes) : Type 0 where
  binary :
      (kind : ℕ) (q : Bytes)
      → subt ≡ bson_binary
      → p ≡ kind ∷ q
      → IsByte kind
      → length q < 2 ^ 31
      → IsSpecial subt p
  objectid : subt ≡ bson_objectid → length p ≡ 12 → IsSpecial subt p
  date :
      (a b c d : ℕ)
      → subt ≡ bson_date
      → p ≡ a ∷ b ∷ c ∷ d ∷ []
      → IsByte a
      → IsByte b
      → IsByte c
      → IsByte d
      → IsSpecial subt p
  timestamp :
      (a b c d e f g h : ℕ)
      → subt ≡ bson_timestamp
      → p ≡ a ∷ b ∷ c ∷ d ∷ e ∷ f ∷ g ∷ h ∷ []
      → All IsByte p
      → IsSpecial subt p
  regex :
      (xs ys : Bytes)
      → subt ≡ bson_regex
      → p ≡ xs ++ (0 ∷ (ys ++ (0 ∷ [])))
      → NoZero xs
      → NoZero ys
      → IsSpecial subt p
  code :
      (n : ℕ) (q : Bytes)
      → (subt ≡ bson_jscode) ⊎ (subt ≡ bson_symbol)
      → p ≡ bytes32 n ++ q
      → n ≡ length q
      → n < 2 ^ 31
      → IsSpecial subt p
  bare :
      (subt ≡ bson_null) ⊎ (subt ≡ bson_minkey) ⊎ (subt ≡ bson_maxkey) → p ≡ [] → IsSpecial subt p

abbrev pub special_bytes : ℕ → Bytes → Bytes
special_bytes subt p =
    if subt == bson_binary
    then bytes32 (length p - 1) ++ p
    else if subt == bson_date
    then bytes64 (first_word p * 1000)
    else p

-- The key `k` does not occur.
unfoldable pub absent : Value → Entries → Bool
absent k empty = true
absent k (entry j w es) = not (raw_equal j k) && absent k es

-- The values that are kept: booleans, integers, doubles, texts, special values, and tables whose
-- keys are different texts without a zero byte or the integers from 1 on.
mutual
  pub data Plain : Value → Type 0 where
    plain_boolean : (v : Bool) → Plain (boolean v)
    plain_integer : (i : ℕ) → i < 2 ^ 64 → Plain (integer i)
    plain_number : (bits : ℕ) → bits < 2 ^ 64 → Plain (number bits)
    plain_text : (s : Bytes) → is_text s ≡ true → length s + 1 < 2 ^ 31 → Plain (string s)
    plain_special :
        (s : Bytes) (subt : ℕ) (p : Bytes) → s ≡ 0 ∷ subt ∷ p → IsSpecial subt p → Plain (string s)
    plain_dict : (es : Entries) → PlainDict es → Plain (table es)
    plain_array : (n : ℕ) (es : Entries) → 0 < n → PlainArray 1 n es → Plain (table es)

  pub data PlainDict : Entries → Type 0 where
    dict_empty : PlainDict empty
    dict_entry :
        (k : Bytes) (v : Value) (es : Entries)
        → NoZero k
        → absent (string k) es ≡ true
        → Plain v
        → PlainDict es
        → PlainDict (entry (string k) v es)

  pub data PlainArray : ℕ → ℕ → Entries → Type 0 where
    array_end : (i n : ℕ) → n + 1 ≡ i → PlainArray i n empty
    array_entry :
        (i n k : ℕ) (v : Value) (es : Entries)
        → k ≡ i
        → 0 < i
        → i < 2 ^ 31
        → Plain v
        → PlainArray (suc i) n es
        → PlainArray i n (entry (integer k) v es)

-- Whether the table counts as an array.
abbrev pub is_sequence : Entries → Bool
is_sequence (entry (integer k) v es) = true
is_sequence _ = false

abbrev pub key_bytes : Value → Bytes
key_bytes (integer k) = decimal (k - 1)
key_bytes (string s) = s
key_bytes _ = []

-- The type byte of a value.
abbrev pub tag : Value → ℕ
tag (boolean v) = bson_boolean
tag (integer i) = if is_32bit i then bson_int32 else bson_int64
tag (number bits) = bson_real
tag (string (c ∷ subt ∷ p)) = if c == 0 then subt else bson_string
tag (string s) = bson_string
tag (table es) = if is_sequence es then bson_array else bson_document
tag _ = 0

abbrev pub text_bytes : Bytes → Bytes
text_bytes s = bytes32 (length s + 1) ++ (s ++ (0 ∷ []))

abbrev pub string_bytes : Bytes → Bytes
string_bytes (c ∷ subt ∷ p) = if c == 0 then special_bytes subt p else text_bytes (c ∷ subt ∷ p)
string_bytes s = text_bytes s

-- A document: its length, its elements and a zero.
abbrev pub document : Bytes → Bytes
document xs = bytes32 (length xs + 5) ++ (xs ++ (0 ∷ []))

unfoldable mutual
  pub value_bytes : Value → Bytes
  value_bytes (boolean v) = (if v then 1 else 0) ∷ []
  value_bytes (integer i) = if is_32bit i then bytes32 i else bytes64 i
  value_bytes (number bits) = bytes64 bits
  value_bytes (string s) = string_bytes s
  value_bytes (table es) = document (elements es)
  value_bytes nil = []
  value_bytes (userdata doc) = []
  value_bytes other = []

  pub elements : Entries → Bytes
  elements empty = []
  elements (entry k v es) = tag v ∷ (key_bytes k ++ (0 ∷ (value_bytes v ++ elements es)))

-- How deep tables stand in tables.
unfoldable mutual
  pub nesting : Value → ℕ
  nesting (table es) = suc (nesting_entries es)
  nesting _ = 0

  pub nesting_entries : Entries → ℕ
  nesting_entries empty = 0
  nesting_entries (entry k v es) = max (nesting v) (nesting_entries es)
