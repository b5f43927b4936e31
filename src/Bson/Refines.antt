-- ===== src/Bson/Refines.antt =====
-- The encoder of cext/lua-bson.c writes the format of Bson/Format.
use levent.Prelude.{
  ℕ, ◌+◌, ◌-◌, ◌%◌, ◌≤◌, ◌<◌, ◌≡◌, refl, ap, subst, inl, inr, Bool, true, false, [], ◌∷◌, ◌++◌,
  append_assoc, arith, Bytes, length, length-append, ◌==◌, ltb-false, Bool-cases, if◌then◌else◌,
}
use levent.Prelude.Result.{Result, ok, ◌>>=◌}
use levent.Lua.{Value, Entries, integer, string, table, LuaLib}
use levent.Bson.Wire.{
  max_depth, bson_real, bson_string, bson_document, bson_array, bson_boolean, bson_int32,
  bson_int64, bytes32, bytes64,
}
use levent.Bson.Buffer.{Bson, bson_create, write_byte, write_string}
use levent.Bson.Appends.{
  IsValid, safe_limit, Appends, Appends-then, Appends-nothing, write_byte-Appends,
  write_int32-Appends, write_int64-Appends, write_double-Appends, write_string-Appends,
}
use levent.Bson.Frames.{framed, framed-Appends}
use levent.Bson.Scalars.{append_key, is_32bit, append_integer, append_double}
use levent.Bson.Encode.{
  append_text, append_string, decimal, array_index, element_key, is_array, pack_body, pack_dict,
  append_table, append_one, pack_entries, encode,
}
use levent.Bson.Special.{write_special-Appends}
use levent.Bson.Keys.{
  bson_numstr-decimal, array_index-eq, is_array-dict, is_array-array, is_sequence-dict,
  is_sequence-array,
}
use levent.Bson.Format.{
  is_text, IsSpecial, binary, objectid, date, timestamp, regex, code, bare, special_bytes, Plain,
  plain_boolean, plain_integer, plain_number, plain_text, plain_special, plain_dict, plain_array,
  PlainDict, dict_empty, dict_entry, PlainArray, array_end, array_entry, tag, text_bytes,
  string_bytes, document, value_bytes, elements, nesting, nesting_entries,
}

append_key-Appends :
    (type : ℕ) (key : Bytes) → type < 256 → Appends (append_key type key) (type ∷ (key ++ (0 ∷ [])))
unfolding append_key
append_key-Appends type key h =
    let e : type % 256 ≡ type = omega arith in
    subst (λ t. Appends (append_key type key) (t ∷ (key ++ (0 ∷ [])))) e
      (Appends-then (type % 256 ∷ []) (key ++ (0 ∷ [])) (write_byte-Appends type)
        (write_string-Appends key))

-- A key, and a value behind it.
keyed-Appends :
    {op : Bson → Result Bson} (type : ℕ) (key xs : Bytes)
    → type < 256
    → Appends op xs
    → Appends (λ b. append_key type key b >>= op) (type ∷ (key ++ (0 ∷ xs)))
keyed-Appends {op} type key xs h k =
    subst (Appends (λ b. append_key type key b >>= op))
      (ap (λ t. type ∷ t) (append_assoc key (0 ∷ []) xs))
      (Appends-then (type ∷ (key ++ (0 ∷ []))) xs (append_key-Appends type key h) k)

append_integer-Appends :
    (i : ℕ) (key : Bytes)
    → Appends (append_integer i key) (tag (integer i) ∷ (key ++ (0 ∷ value_bytes (integer i))))
unfolding append_integer value_bytes
append_integer-Appends i key = elim (Bool-cases (is_32bit i)) [
  | inl small ↦
      rw small (keyed-Appends bson_int32 key (bytes32 i) (omega arith) (write_int32-Appends i))
  | inr big ↦
      rw big (keyed-Appends bson_int64 key (bytes64 i) (omega arith) (write_int64-Appends i))
]

append_double-Appends :
    (bits : ℕ) (key : Bytes)
    → Appends (append_double bits key) (bson_real ∷ (key ++ (0 ∷ bytes64 bits)))
unfolding append_double
append_double-Appends bits key =
    keyed-Appends bson_real key (bytes64 bits) (omega arith) (write_double-Appends bits)

text-Appends :
    (s : Bytes) → Appends (framed (write_string s) (λ start b. length s + 1)) (text_bytes s)
text-Appends s =
    framed-Appends (λ start b. length s + 1) (s ++ (0 ∷ [])) (length s + 1) (write_string-Appends s)
      (λ start b size. refl)

append_text-Appends :
    (s key : Bytes) → Appends (append_text s key) (bson_string ∷ (key ++ (0 ∷ text_bytes s)))
unfolding append_text
append_text-Appends s key =
    keyed-Appends bson_string key (text_bytes s) (omega arith) (text-Appends s)

body-Appends :
    {loop : Bson → Result Bson} (lua : LuaLib) (xs : Bytes)
    → Appends loop xs
    → Appends (pack_body lua loop) (document xs)
unfolding pack_body
body-Appends {loop} lua xs h =
    framed-Appends (λ start b. b.size - start) (xs ++ (0 ∷ [])) (length xs + 5)
      (Appends-then xs (0 ∷ []) h (write_byte-Appends 0))
      (λ start b size. ap (λ n. bytes32 n) (let l = length-append xs (0 ∷ []) in omega arith))

-- A special value's subtype fits a byte.
IsSpecial-byte : (subt : ℕ) (p : Bytes) → IsSpecial subt p → subt < 256
IsSpecial-byte subt p (binary kind q t e small long) = omega arith
IsSpecial-byte subt p (objectid t e) = omega arith
IsSpecial-byte subt p (date a b c d t e ha hb hc hd) = omega arith
IsSpecial-byte subt p (timestamp a b c d e f g h t same bytes) = omega arith
IsSpecial-byte subt p (regex xs ys t e hx hy) = omega arith
IsSpecial-byte subt p (code n q t e same small) = omega arith
IsSpecial-byte subt p (bare t e) = omega arith

append_string-text :
    (s key : Bytes)
    → is_text s ≡ true
    → Appends (append_string s key) (tag (string s) ∷ (key ++ (0 ∷ string_bytes s)))
unfolding append_string
append_string-text [] key h = append_text-Appends [] key
append_string-text (c ∷ []) key h = append_text-Appends (c ∷ []) key
append_string-text (c ∷ d ∷ s) key h =
    let plain : (c == 0) ≡ false = ground arith in rw plain (append_text-Appends (c ∷ d ∷ s) key)

append_string-special :
    (s key : Bytes) (subt : ℕ) (p : Bytes)
    → s ≡ 0 ∷ subt ∷ p
    → IsSpecial subt p
    → Appends (append_string s key) (tag (string s) ∷ (key ++ (0 ∷ string_bytes s)))
unfolding append_string
append_string-special s key subt p e h = rw e (
    keyed-Appends subt key (special_bytes subt p) (IsSpecial-byte subt p h)
      (write_special-Appends subt p h))

module _ (lua : LuaLib) where
  -- A table of depth `d`, given what its loop writes.
  append_table-Appends :
      (es : Entries) (array : Bool) (loop : Bool → ℕ → Bson → Result Bson) (key xs : Bytes) (d : ℕ)
      → is_array lua es ≡ ok array
      → d ≤ max_depth
      → Appends (loop array d) xs
      → Appends
          (append_table lua es loop key d)
          ((if array then bson_array else bson_document) ∷ (key ++ (0 ∷ document xs)))
  unfolding append_table pack_dict
  append_table-Appends es array loop key xs d e shallow h =
      rw (e, ltb-false max_depth d shallow)
        (keyed-Appends (if array then bson_array else bson_document) key (document xs)
          (ground arith) (body-Appends lua xs h))

  element-Appends :
      {p q : Bson → Result Bson} (t : ℕ) (key vs xs : Bytes)
      → Appends p (t ∷ (key ++ (0 ∷ vs)))
      → Appends q xs
      → Appends (λ b. p b >>= q) (t ∷ (key ++ (0 ∷ (vs ++ xs))))
  element-Appends {p} {q} t key vs xs hp hq =
      subst (Appends (λ b. p b >>= q)) (ap (λ r. t ∷ r) (append_assoc key (0 ∷ vs) xs))
        (Appends-then (t ∷ (key ++ (0 ∷ vs))) xs hp hq)

  mutual
    unfolding append_one value_bytes nesting element_key

    append_one-Appends :
        {v : Value}
        → Plain v
        → (key : Bytes) (d : ℕ) → nesting v + d ≤ max_depth
        → Appends (append_one lua v key d) (tag v ∷ (key ++ (0 ∷ value_bytes v)))
    append_one-Appends (plain_boolean v) key d h =
        let byte : (if v then 1 else 0) % 256 ≡ (if v then 1 else 0) = ground arith in
        keyed-Appends bson_boolean key ((if v then 1 else 0) ∷ []) (omega arith) (
          subst (λ c. Appends (write_byte (if v then 1 else 0)) (c ∷ [])) byte
            (write_byte-Appends (if v then 1 else 0)))
    append_one-Appends (plain_integer i lt) key d h = append_integer-Appends i key
    append_one-Appends (plain_number bits lt) key d h = append_double-Appends bits key
    append_one-Appends (plain_text s t lt) key d h = append_string-text s key t
    append_one-Appends (plain_special s subt p e k) key d h = append_string-special s key subt p e k
    append_one-Appends (plain_dict es ps) key d h = rw (is_sequence-dict ps) (
        append_table-Appends es false (pack_entries lua es) key (elements es) (d + 1)
          (is_array-dict lua ps) (omega arith) (pack_dict-Appends ps (d + 1) (omega arith)))
    append_one-Appends (plain_array n es pos ps) key d h = rw (is_sequence-array pos ps) (
        append_table-Appends es true (pack_entries lua es) key (elements es) (d + 1)
          (is_array-array lua pos ps) (omega arith) (pack_array-Appends ps (d + 1) (omega arith)))

    pack_dict-Appends :
        {es : Entries}
        → PlainDict es
        → (d : ℕ) → nesting_entries es + d ≤ max_depth
        → Appends (pack_entries lua es false d) (elements es)
    pack_dict-Appends dict_empty d h = Appends-nothing
    pack_dict-Appends (dict_entry k v es nz new pv ps) d h =
        element-Appends (tag v) k (value_bytes v) (elements es)
          (append_one-Appends pv k d (omega arith)) (pack_dict-Appends ps d (omega arith))

    pack_array-Appends :
        {i n : ℕ} {es : Entries}
        → PlainArray i n es
        → (d : ℕ) → nesting_entries es + d ≤ max_depth
        → Appends (pack_entries lua es true d) (elements es)
    pack_array-Appends (array_end i n e) d h = Appends-nothing
    pack_array-Appends (array_entry i n k v es e pos small pv ps) d h =
        let index : array_index k ≡ k - 1 = array_index-eq k (omega arith) (omega arith) in
        rw (index, bson_numstr-decimal)
          (element-Appends (tag v) (decimal (k - 1)) (value_bytes v) (elements es)
            (append_one-Appends pv (decimal (k - 1)) d (omega arith))
            (pack_array-Appends ps d (omega arith)))

  create-IsValid : (stale : ℕ → ℕ) → IsValid (bson_create stale)
  unfolding bson_create
  create-IsValid stale = omega arith

  -- `encode` writes the document of the format, whatever the memory held before, without leaving the
  -- buffer: for tables of plain values, nested up to MAX_DEPTH, whose document is smaller than 2^30.
  pub encode_lem :
      (stale : ℕ → ℕ) (es : Entries)
      → PlainDict es
      → nesting_entries es ≤ max_depth
      → length (document (elements es)) < safe_limit
      → encode lua stale (table es) ≡ ok (document (elements es))
  unfolding encode bson_create pack_dict
  encode_lem stale es ps shallow small =
      let (b, e, v, f) =
        body-Appends lua (elements es) (pack_dict-Appends ps 0 (omega arith)) (bson_create stale)
          (create-IsValid stale) (omega arith) in
      rw (e, f)
