-- ===== src/Bson/Reader.antt =====
-- `struct bson_reader` of cext/lua-bson.c: the bytes that are left. A read past the end is a Lua
-- error.
use levent.Prelude.{
  ℕ, ◌+◌, ◌*◌, ◌^◌, Bool, [], ◌∷◌, Bytes, length, take, drop, ltb, leb, ◌==◌, if◌then◌else◌,
}
use levent.Prelude.Result.{Result, ok, raised, ◌>>=◌, invalid_block, too_long}
use levent.Bson.Wire.{word32}

unfoldable pub read_byte : Bytes → Result (ℕ × Bytes)
read_byte [] = raised invalid_block
read_byte (b ∷ t) = ok (b, t)

-- The 32-bit pattern of an `int32_t`.
unfoldable pub read_int32 : Bytes → Result (ℕ × Bytes)
read_int32 (a ∷ b ∷ c ∷ d ∷ t) = ok (word32 a b c d, t)
read_int32 _ = raised invalid_block

-- The 64-bit pattern of an `int64_t`, or of a double.
unfoldable pub read_int64 : Bytes → Result (ℕ × Bytes)
read_int64 (a ∷ b ∷ c ∷ d ∷ e ∷ f ∷ g ∷ h ∷ t) = ok (word32 a b c d + word32 e f g h * 2 ^ 32, t)
read_int64 _ = raised invalid_block

-- `read_bytes`, for a length that is not negative.
unfoldable pub read_bytes : ℕ → Bytes → Result (Bytes × Bytes)
read_bytes n t = if ltb (length t) n then raised invalid_block else ok (take n t, drop n t)

abbrev pub is_negative : ℕ → Bool
is_negative w = leb (2 ^ 31) w

-- `read_bytes` on a length from the input, as its 32-bit pattern, for a string of these bytes. A negative one
-- passes the check of the bounds, and as a `size_t` it is too much for the string: Lua raises an error.
unfoldable pub read_sized : ℕ → Bytes → Result (Bytes × Bytes)
unfolding read_bytes
read_sized w t = if is_negative w then raised too_long else read_bytes w t

unfoldable pub read_cstring : Bytes → Result (Bytes × Bytes)
read_cstring [] = raised invalid_block
read_cstring (c ∷ t) =
    let rest = read_cstring t in if c == 0 then ok ([], t) else (do (s, u) ← rest; ok (c ∷ s, u))
