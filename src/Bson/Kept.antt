-- ===== src/Bson/Kept.antt =====
-- The special values that cext/lua-bson.c makes, within documents.
use levent.Prelude.{
  ℕ, ◌%◌, ◌^◌, ◌<◌, ◌≡◌, refl, sym, ◌∙◌, subst, true, [], ◌∷◌, ◌++◌, arith, Bytes, IsByte, All,
  length, ◌==◌,
}
use levent.Prelude.Result.{ok, ok-injective, ◌>>=◌}
use levent.Lua.{string, table, empty, entry, LuaLib}
use levent.Bson.Wire.{bytes32, bson_binary, bson_date, bson_timestamp, bson_regex, bson_objectid}
use levent.Bson.Format.{
  NoZero, binary, objectid, date, timestamp, regex, Plain, plain_special, dict_empty, dict_entry,
  document, elements, nesting_entries, absent,
}
use levent.Bson.Encode.{encode}
use levent.Bson.Decode.{CLib, decode}
use levent.Bson.RoundTrip.{decode-encoded}
use levent.Bson.Values.{ldate, ltimestamp, lregex, lbinary, lobjectid, hex_text}
use levent.Bson.Made.{
  Made, make_date, make_timestamp, make_regex, make_binary, make_objectid, made, hex_bytes-hex_text,
  length-hex_text,
}

-- Both texts of a regex are free of zeros, a binary value has less than 2^31 bytes, and an object id
-- has twelve.
abbrev pub IsKept : Made → Type 0
IsKept (make_date d) = Unit {0}
IsKept (make_timestamp d i) = Unit {0}
IsKept (make_regex pattern options) = NoZero pattern × NoZero options
IsKept (make_binary bytes) = length bytes < 2 ^ 31
IsKept (make_objectid id) = (length id ≡ 12) × All IsByte id

byte_lem : (n : ℕ) → n % 256 < 256
byte_lem n = omega arith

-- What a made value is, as a special value of the format.
made-Plain : (m : Made) (s : Bytes) → IsKept m → made m ≡ ok s → Plain (string s)
unfolding made ldate ltimestamp lregex lbinary lobjectid
made-Plain (make_date d) s h e =
    subst (λ r. Plain (string r)) (ok-injective e)
      (plain_special _ bson_date (bytes32 d) refl
        (date _ _ _ _ refl refl (byte_lem _) (byte_lem _) (byte_lem _) (byte_lem _)))
made-Plain (make_timestamp d i) s h e =
    subst (λ r. Plain (string r)) (ok-injective e)
      (plain_special _ bson_timestamp (bytes32 i ++ bytes32 d) refl (
        timestamp _ _ _ _ _ _ _ _ refl refl (
          byte_lem _,
          (
            byte_lem _,
            (byte_lem _, (byte_lem _, (byte_lem _, (byte_lem _, (byte_lem _, (byte_lem _, tt)))))),
          ),
        )))
made-Plain (make_regex pattern options) s (hp, ho) e =
    subst (λ r. Plain (string r)) (ok-injective e)
      (plain_special _ bson_regex (pattern ++ (0 ∷ (options ++ (0 ∷ [])))) refl
        (regex pattern options refl refl hp ho))
made-Plain (make_binary bytes) s h e =
    subst (λ r. Plain (string r)) (ok-injective e)
      (plain_special _ bson_binary (0 ∷ bytes) refl (binary 0 bytes refl refl (omega arith) h))
made-Plain (make_objectid id) s (size, bytes) e =
    let whole : (length (hex_text id) == 24) ≡ true = ground (arith, length-hex_text id) in
    let there : lobjectid (hex_text id) ≡ ok (0 ∷ bson_objectid ∷ id) =
      rw (whole, hex_bytes-hex_text id bytes, lobjectid) refl in
    subst (λ r. Plain (string r)) (ok-injective (sym there ∙ e))
      (plain_special _ bson_objectid id refl (objectid refl size))

-- A special value that the library makes, under any key, comes back as it was from encoding and
-- decoding a table: for texts of a regex and keys that are free of zeros, ids of twelve bytes, and
-- documents smaller than 2^30.
pub made-decode :
    (c : CLib) (lua : LuaLib) (stale : ℕ → ℕ) (k s : Bytes) (m : Made)
    → NoZero k
    → IsKept m
    → made m ≡ ok s
    → length (document (elements (entry (string k) (string s) empty))) < 2 ^ 30
    → (encode lua stale (table (entry (string k) (string s) empty)) >>= decode c)
      ≡ ok (entry (string k) (string s) empty)
unfolding absent nesting_entries
made-decode c lua stale k s m key kept e small =
    decode-encoded c lua stale (entry (string k) (string s) empty)
      (dict_entry k (string s) empty key refl (made-Plain m s kept e) dict_empty) (omega arith)
      small
