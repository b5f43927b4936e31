-- ===== src/Mongo/Buffer.antt =====
-- `struct buffer` of cext/lua-mongo.c and its writers. The struct has the fields of `struct bson`.
use levent.Prelude.{
  ℕ, ◌+◌, ◌/◌, ◌^◌, ◌≡◌, refl, true, false, [], ◌∷◌, ◌++◌, Bytes, length, leb, ltb, if◌then◌else◌,
}
use levent.Prelude.Result.{Result, ok, fault, ◌>>=◌}
use levent.Bson.Buffer
use levent.Bson.Buffer.{Bson, int_limit, grow, put, put_byte, poke}

abbrev pub default_cap : ℕ
default_cap = 128

unfoldable pub buffer_create : (ℕ → ℕ) → Bson
buffer_create stale = record {
  size = 0;
  cap = default_cap;
  on_heap = false;
  filled = [];
  stale = stale;
}

unfoldable pub buffer_reserve : ℕ → Bson → Result Bson
buffer_reserve sz b =
    if ltb (b.size + sz) int_limit
    then if leb (b.size + sz) b.cap
      then ok b
      else (do ok (record b { cap = (← grow 32 b.cap (b.size + sz)); on_heap = true }))
    else fault

unfoldable pub write_int32 : ℕ → Bson → Result Bson
unfolding buffer_reserve
write_int32 v b = do
  b ← buffer_reserve 4 b
  b ← put_byte v b
  b ← put_byte (v / 2 ^ 8) b
  b ← put_byte (v / 2 ^ 16) b
  put_byte (v / 2 ^ 24) b

unfoldable pub write_bytes : Bytes → Bson → Result Bson
unfolding buffer_reserve
write_bytes bytes b = do b ← buffer_reserve (length bytes) b; put bytes b

unfoldable pub write_string : Bytes → Bson → Result Bson
unfolding buffer_reserve
write_string key b = do b ← buffer_reserve (length key + 1) b; put (key ++ (0 ∷ [])) b

unfoldable pub reserve_length : Bson → Result (ℕ × Bson)
unfolding buffer_reserve
reserve_length b = do
  b' ← buffer_reserve 4 b
  let s = b'.size
  b'' ← put (b.stale s ∷ b.stale (s + 1) ∷ b.stale (s + 2) ∷ b.stale (s + 3) ∷ []) b'
  ok (b.size, b'')

unfoldable pub write_length : ℕ → ℕ → Bson → Result Bson
write_length v off b = do
  b ← poke off v b
  b ← poke (off + 1) (v / 2 ^ 8) b
  b ← poke (off + 2) (v / 2 ^ 16) b
  poke (off + 3) (v / 2 ^ 24) b

-- The two files have the same text here, so what holds of the one buffer holds of the other.
pub write_int32-eq : (v : ℕ) → write_int32 v ≡ Buffer.write_int32 v
unfolding write_int32 buffer_reserve Buffer.write_int32 Buffer.bson_reserve
write_int32-eq v = refl

pub write_bytes-eq : (bytes : Bytes) → write_bytes bytes ≡ Buffer.write_bytes bytes
unfolding write_bytes buffer_reserve Buffer.write_bytes Buffer.bson_reserve
write_bytes-eq bytes = refl

pub write_string-eq : (key : Bytes) → write_string key ≡ Buffer.write_string key
unfolding write_string buffer_reserve Buffer.write_string Buffer.bson_reserve
write_string-eq key = refl

pub reserve_length-eq : (b : Bson) → reserve_length b ≡ Buffer.reserve_length b
unfolding reserve_length buffer_reserve Buffer.reserve_length Buffer.bson_reserve
reserve_length-eq b = refl

pub write_length-eq : (v off : ℕ) (b : Bson) → write_length v off b ≡ Buffer.write_length v off b
unfolding write_length Buffer.write_length
write_length-eq v off b = refl
