-- ===== src/Bson/Made.antt =====
-- The special values that cext/lua-bson.c makes are what `bson.type` says they are.
use levent.Prelude.{
  ℕ, ◌+◌, ◌*◌, ◌/◌, ◌%◌, ◌^◌, ◌<◌, ◌≡◌, ◌≢◌, refl, sym, ap, ◌∙◌, true, some, List, [], ◌∷◌, ◌++◌,
  append_assoc, arith, Bytes, IsByte, All, length, drop, drop-append, ◌==◌,
}
use levent.Prelude.Result.{Result, ok, ◌>>=◌}
use levent.Lua.{Value, integer, string}
use levent.Bson.Wire.{bson_regex, word32-bytes32}
use levent.Bson.Scalars.{first_word, split_last_zero, drop_last}
use levent.Bson.Decode.{sign_extend}
use levent.Bson.Format.{NoZero}
use levent.Bson.Special.{split_last_zero-eq, drop_last-snoc, not-nil}
use levent.Bson.Values.{
  ldate, ltimestamp, lregex, lbinary, hextoint, or_small, hex_byte, hex_bytes, lobjectid,
  new_objectid, TypeName, is_date, is_timestamp, is_regex, is_binary, is_objectid, hex_digit,
  hex_text, lsubtype, ltype,
}

hextoint-hex_digit : (n : ℕ) → n < 16 → hextoint (hex_digit n) ≡ n
unfolding hextoint hex_digit
hextoint-hex_digit n h = ground arith

hex_byte-hex_digit : (b : ℕ) → b < 256 → hex_byte (hex_digit (b / 16)) (hex_digit (b % 16)) ≡ b
unfolding hex_byte or_small
hex_byte-hex_digit b h =
    let high = hextoint-hex_digit (b / 16) (omega arith) in
    let low = hextoint-hex_digit (b % 16) (omega arith) in
    let none_high : b % 16 / 16 ≡ 0 = omega arith in rw (high, low, none_high) (omega arith)

pub hex_bytes-hex_text : (id : Bytes) → All IsByte id → hex_bytes (hex_text id) ≡ id
unfolding hex_bytes hex_text
hex_bytes-hex_text [] bytes = refl
hex_bytes-hex_text (b ∷ id) bytes = rw (hex_byte-hex_digit b bytes.0, hex_bytes-hex_text id bytes.1)

pub length-hex_text : (id : Bytes) → length (hex_text id) ≡ 2 * length id
unfolding hex_text
length-hex_text [] = omega arith
length-hex_text (b ∷ id) = omega (arith, length-hex_text id)

-- A call of one of the functions of the module that make a special value.
pub data Made : Type 0 where
  make_date : ℕ → Made
  make_timestamp : ℕ → ℕ → Made
  make_regex : Bytes → Bytes → Made
  make_binary : Bytes → Made
  make_objectid : Bytes → Made

-- The string that the call gives. An object id is given by its text in lower case.
unfoldable pub made : Made → Result Bytes
unfolding ldate ltimestamp lregex lbinary lobjectid hex_text
made (make_date d) = ok (ldate d)
made (make_timestamp d i) = ok (ltimestamp d (some i) 0).0
made (make_regex pattern options) = ok (lregex pattern (some options))
made (make_binary bytes) = ok (lbinary bytes)
made (make_objectid id) = lobjectid (hex_text id)

-- Integers are 32-bit patterns, the options of a regex are free of zeros, and an object id has twelve
-- bytes.
abbrev pub IsMade : Made → Type 0
IsMade (make_date d) = d < 2 ^ 32
IsMade (make_timestamp d i) = (d < 2 ^ 32) × (i < 2 ^ 32)
IsMade (make_regex pattern options) = NoZero options
IsMade (make_binary bytes) = Unit {0}
IsMade (make_objectid id) = (length id ≡ 12) × All IsByte id

-- What it is: a timestamp's seconds come back as an unsigned number.
unfoldable pub meaning : Made → TypeName × List Value
unfolding hex_text
meaning (make_date d) = (is_date, integer (sign_extend d) ∷ [])
meaning (make_timestamp d i) = (is_timestamp, integer d ∷ integer i ∷ [])
meaning (make_regex pattern options) = (is_regex, string pattern ∷ string options ∷ [])
meaning (make_binary bytes) = (is_binary, string bytes ∷ integer 0 ∷ [])
meaning (make_objectid id) = (is_objectid, string (hex_text id) ∷ [])

split_regex :
    (pattern options : Bytes)
    → NoZero options
    → split_last_zero (drop_last (pattern ++ (0 ∷ (options ++ (0 ∷ []))))) ≡ some (pattern, options)
split_regex pattern options h =
    rw (← append_assoc pattern (0 ∷ options) (0 ∷ []), drop_last-snoc)
      (split_last_zero-eq pattern options h)

regex_lem :
    (buf pattern options : Bytes)
    → buf ≢ []
    → split_last_zero (drop_last buf) ≡ some (pattern, options)
    → lsubtype bson_regex buf ≡ ok (is_regex, string pattern ∷ string options ∷ [])
unfolding lsubtype
regex_lem [] pattern options h e = absurd (h refl)
regex_lem (c ∷ bytes) pattern options h e = rw (e, lsubtype)

-- `bson.type` gives back the kind of a special value and what it was made of, an object id in lower
-- case, a date as a signed and a timestamp as an unsigned number; for 32-bit integers, options of a
-- regex that are free of zeros, and ids of twelve bytes.
pub ltype-made : (m : Made) → IsMade m → (made m >>= λ s. ltype (string s)) ≡ ok (meaning m)
unfolding made meaning ltype lsubtype ldate ltimestamp lregex lbinary lobjectid first_word
ltype-made (make_date d) h = rw (word32-bytes32 d h)
ltype-made (make_timestamp d i) (hd, hi) = rw (word32-bytes32 d hd, word32-bytes32 i hi)
ltype-made (make_regex pattern options) h =
    regex_lem _ pattern options (not-nil pattern 0 _) (split_regex pattern options h)
ltype-made (make_binary bytes) h = refl
ltype-made (make_objectid id) (size, bytes) =
    let whole : (length (hex_text id) == 24) ≡ true = ground (arith, length-hex_text id) in
    let twelve : (length id == 12) ≡ true = ground arith in
    rw (whole, hex_bytes-hex_text id bytes, twelve) refl

-- The counter's three bytes at the end of an object id.
word24 : Bytes → ℕ
word24 (a ∷ b ∷ c ∷ rest) = a * 2 ^ 16 + b * 2 ^ 8 + c
word24 _ = 0

abbrev counter_bytes : ℕ → Bytes
counter_bytes c = c / 2 ^ 16 % 256 ∷ c / 2 ^ 8 % 256 ∷ c % 256 ∷ []

-- Two object ids made at the same time with the same header differ, if their counts are between 1
-- and 2^24 - 1 apart, also where the counter wraps around in between.
pub new_objectid-distinct :
    (ti : ℕ) (oid_header : Bytes) (oid_counter k : ℕ)
    → 0 < k
    → k < 2 ^ 24
    → (new_objectid ti oid_header oid_counter).0
      ≢ (new_objectid ti oid_header ((oid_counter + k) % 2 ^ 32)).0
unfolding new_objectid word24
new_objectid-distinct ti oid_header oid_counter k some_apart near same =
    let n = length oid_header in
    let c = oid_counter in
    let c' = (oid_counter + k) % 2 ^ 32 in
    let ends : word24 (drop n (oid_header ++ counter_bytes c))
        ≡ word24 (drop n (oid_header ++ counter_bytes c')) =
      ap (λ id. word24 (drop n (drop 6 id))) same in
    let words : word24 (counter_bytes c) ≡ word24 (counter_bytes c') =
      ap word24 (sym (drop-append oid_header (counter_bytes c)))
      ∙ ends
      ∙ ap word24 (drop-append oid_header (counter_bytes c')) in
    omega arith
