-- ===== src/Bson/Buffer.antt =====
-- `struct bson` of cext/lua-bson.c: a buffer that starts in a fixed array and doubles on the heap.
-- `malloc` and `realloc` are taken to succeed, as the code takes them.
use levent.Prelude.{
  ℕ, zero, suc, ◌+◌, ◌*◌, ◌/◌, ◌%◌, ◌^◌, Bool, true, false, [], ◌∷◌, ◌++◌, Bytes, length, set, ltb,
  leb, if◌then◌else◌,
}
use levent.Prelude.Result.{Result, ok, fault, out_of_fuel, ◌>>=◌}
use levent.Bson.Wire.{default_cap}

-- `filled` is the memory from `ptr` up to `size`. `stale` gives the byte that the memory beyond it
-- holds at an offset before it is written, which is arbitrary. `on_heap` says that `ptr` is not
-- the array in the struct.
pub record Bson : Type 0 where
  pub size : ℕ
  pub cap : ℕ
  pub on_heap : Bool
  pub filled : Bytes
  pub stale : ℕ → ℕ

-- Numbers from here on do not fit an `int`.
abbrev pub int_limit : ℕ
int_limit = 2 ^ 31

unfoldable pub bson_create : (ℕ → ℕ) → Bson
bson_create stale = record {
  size = 0;
  cap = default_cap;
  on_heap = false;
  filled = [];
  stale = stale;
}

-- Whether `bson_destroy` frees.
unfoldable pub bson_destroy : Bson → Bool
bson_destroy b = b.on_heap

-- `do cap *= 2; while (cap <= need)`
unfoldable pub grow : ℕ → ℕ → ℕ → Result ℕ
grow zero cap need = out_of_fuel
grow (suc fuel) cap need =
    let again = grow fuel (cap * 2) need in
    if ltb (cap * 2) int_limit then (if leb (cap * 2) need then again else ok (cap * 2)) else fault

unfoldable pub bson_reserve : ℕ → Bson → Result Bson
unfolding grow
bson_reserve sz b =
    if ltb (b.size + sz) int_limit
    then if leb (b.size + sz) b.cap
      then ok b
      else (do ok (record b { cap = (← grow 32 b.cap (b.size + sz)); on_heap = true }))
    else fault

-- `memcpy(b->ptr + b->size, bytes, n); b->size += n`
unfoldable pub put : Bytes → Bson → Result Bson
put bytes b =
    if leb (b.size + length bytes) b.cap
    then ok (record b { size = b.size + length bytes; filled = b.filled ++ bytes })
    else fault

-- `b->ptr[b->size++] = v`, where an `uint8_t` is stored
unfoldable pub put_byte : ℕ → Bson → Result Bson
unfolding put
put_byte v = put (v % 256 ∷ [])

unfoldable pub write_byte : ℕ → Bson → Result Bson
unfolding bson_reserve put_byte
write_byte v b = do b ← bson_reserve 1 b; put_byte v b

unfoldable pub write_int32 : ℕ → Bson → Result Bson
unfolding bson_reserve put_byte
write_int32 v b = do
  b ← bson_reserve 4 b
  b ← put_byte v b
  b ← put_byte (v / 2 ^ 8) b
  b ← put_byte (v / 2 ^ 16) b
  put_byte (v / 2 ^ 24) b

-- `for (i=0;i<64;i+=8) b->ptr[b->size++] = (uv>>i) & 0xff`, with the rounds that are left
unfoldable pub put_shifted : ℕ → ℕ → ℕ → Bson → Result Bson
unfolding put_byte
put_shifted zero i uv b = ok b
put_shifted (suc rounds) i uv b = do b ← put_byte (uv / 2 ^ i) b; put_shifted rounds (i + 8) uv b

unfoldable pub write_int64 : ℕ → Bson → Result Bson
unfolding bson_reserve put_shifted
write_int64 uv b = do b ← bson_reserve 8 b; put_shifted 8 0 uv b

-- The double is its bit pattern.
unfoldable pub write_double : ℕ → Bson → Result Bson
unfolding bson_reserve put_shifted
write_double bits b = do b ← bson_reserve 8 b; put_shifted 8 0 bits b

-- `b->ptr[off] = v`; the code writes lengths only into what is filled.
unfoldable pub poke : ℕ → ℕ → Bson → Result Bson
poke off v b =
    if ltb off b.size then ok (record b { filled = set b.filled off (v % 256) }) else fault

unfoldable pub write_length : ℕ → ℕ → Bson → Result Bson
unfolding poke
write_length v off b = do
  b ← poke off v b
  b ← poke (off + 1) (v / 2 ^ 8) b
  b ← poke (off + 2) (v / 2 ^ 16) b
  poke (off + 3) (v / 2 ^ 24) b

-- The text and a terminating zero.
unfoldable pub write_string : Bytes → Bson → Result Bson
unfolding bson_reserve put
write_string key b = do b ← bson_reserve (length key + 1) b; put (key ++ (0 ∷ [])) b

-- `bson_reserve(b,n); memcpy(b->ptr + b->size, bytes, n); b->size += n`
unfoldable pub write_bytes : Bytes → Bson → Result Bson
unfolding bson_reserve put
write_bytes bytes b = do b ← bson_reserve (length bytes) b; put bytes b

-- Four bytes are left open, and hold what the memory held.
unfoldable pub reserve_length : Bson → Result (ℕ × Bson)
unfolding bson_reserve put
reserve_length b = do
  b' ← bson_reserve 4 b
  let s = b'.size
  b'' ← put (b.stale s ∷ b.stale (s + 1) ∷ b.stale (s + 2) ∷ b.stale (s + 3) ∷ []) b'
  ok (b.size, b'')
