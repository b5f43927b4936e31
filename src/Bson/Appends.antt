-- ===== src/Bson/Appends.antt =====
-- The writers of cext/lua-bson.c append, and within half an `int`'s range none of them leaves the
-- allocation.
use levent.Prelude.{
  ℕ, zero, suc, ◌+◌, ◌*◌, ◌/◌, ◌%◌, ◌^◌, ◌≤◌, ◌<◌, ◌≡◌, refl, sym, ap, subst, ◌∙◌, true, [], ◌∷◌,
  ◌++◌, append-nil, append_assoc, arith, Bytes, length, length-append, ltb, leb, lt→ltb, le→leb,
  Bool-cases, inl, inr,
}
use levent.Prelude.Result.{Result, ok, ◌>>=◌}
use levent.Bson.Wire.{bytes32, bytes64}
use levent.Bson.Buffer.{
  Bson, int_limit, grow, bson_reserve, put, put_byte, write_byte, write_int32, put_shifted,
  write_int64, write_double, write_string, write_bytes,
}
use native.Mathlib.Nat.{pow-suc}

pub record IsValid (b : Bson) : Type 0 where
  pub sized : b.size ≡ length b.filled
  pub fits : b.size ≤ b.cap
  pub positive : 0 < b.cap
  pub bounded : b.cap < int_limit

-- Documents below this size are safe to build.
abbrev pub safe_limit : ℕ
safe_limit = 2 ^ 30

abbrev pub Grows : Bson → Bytes → Result Bson → Type 0
Grows b xs r = (b' : Bson) × (r ≡ ok b') × IsValid b' × (b'.filled ≡ b.filled ++ xs)

abbrev pub Appends : (Bson → Result Bson) → Bytes → Type 0
Appends op xs = (b : Bson) → IsValid b → b.size + length xs < safe_limit → Grows b xs (op b)

pow_step : (f c : ℕ) → c * 2 ^ suc f ≡ c * 2 * 2 ^ f
pow_step f c = rw pow-suc (omega arith)

grow_lem :
    (f cap need : ℕ)
    → 0 < cap
    → cap ≤ need
    → need < safe_limit
    → need < cap * 2 ^ f
    → (c : ℕ) × (grow f cap need ≡ ok c) × (need < c) × (c < int_limit)
unfolding grow
grow_lem zero cap need pos low safe enough = absurd (omega arith)
grow_lem (suc f) cap need pos low safe enough =
    let small : ltb (cap * 2) int_limit ≡ true = lt→ltb (cap * 2) int_limit (omega arith) in
    elim (Bool-cases (leb (cap * 2) need)) [
      | inl more ↦
          let enough' : need < cap * 2 * 2 ^ f = subst (λ t. need < t) (pow_step f cap) enough in
          rw (small, more) (grow_lem f (cap * 2) need (omega arith) (ground arith) safe enough')
      | inr stop ↦ (cap * 2, rw (small, stop), ground arith, omega arith)
    ]

-- Room is made without moving what is filled.
pub reserve_lem :
    (sz : ℕ) (b : Bson)
    → IsValid b
    → b.size + sz < safe_limit
    → (b' : Bson) × (bson_reserve sz b ≡ ok b')
      × IsValid b'
      × (b'.filled ≡ b.filled)
      × (b'.size ≡ b.size)
      × (b.size + sz ≤ b'.cap)
      × ((i : ℕ) → b'.stale i ≡ b.stale i)
unfolding bson_reserve
reserve_lem sz b v safe =
    let small : ltb (b.size + sz) int_limit ≡ true = lt→ltb (b.size + sz) int_limit (omega arith) in
    elim (Bool-cases (leb (b.size + sz) b.cap)) [
      | inl room ↦ (b, rw (small, room), v, refl, refl, ground arith, λ i. refl)
      | inr tight ↦
          let (c, e, over, under) =
            grow_lem 32 b.cap (b.size + sz) v.positive (ground arith) safe
              (let p = v.positive in omega arith) in
          (
            record b { cap = c; on_heap = true },
            rw (small, tight, e),
            record { sized = v.sized; fits = omega arith; positive = omega arith; bounded = under },
            refl,
            refl,
            omega arith,
            λ i. refl,
          )
    ]

-- A copy into reserved room.
pub put_lem :
    (xs : Bytes) (b : Bson)
    → IsValid b
    → b.size + length xs ≤ b.cap
    → (b' : Bson) × (put xs b ≡ ok b')
      × IsValid b'
      × (b'.filled ≡ b.filled ++ xs)
      × (b'.size ≡ b.size + length xs)
      × (b'.cap ≡ b.cap)
unfolding put
put_lem xs b v room = (
  record b { size = b.size + length xs; filled = b.filled ++ xs },
  rw (le→leb (b.size + length xs) b.cap room),
  record {
    sized = omega (arith, length-append b.filled xs, v.sized);
    fits = room;
    positive = v.positive;
    bounded = v.bounded;
  },
  refl,
  refl,
  refl,
)

-- The operation writes `xs` into room that is there, and keeps the capacity.
abbrev pub Fills : (Bson → Result Bson) → Bytes → Type 0
Fills op xs =
    (b : Bson)
    → IsValid b
    → b.size + length xs ≤ b.cap
    → (b' : Bson) × (op b ≡ ok b')
      × IsValid b'
      × (b'.filled ≡ b.filled ++ xs)
      × (b'.size ≡ b.size + length xs)
      × (b'.cap ≡ b.cap)

put-Fills : (xs : Bytes) → Fills (put xs) xs
put-Fills xs = put_lem xs

put_byte-Fills : (v : ℕ) → Fills (put_byte v) (v % 256 ∷ [])
unfolding put_byte
put_byte-Fills v = put_lem (v % 256 ∷ [])

Fills-then :
    {p q : Bson → Result Bson} (xs ys : Bytes)
    → Fills p xs
    → Fills q ys
    → Fills (λ b. p b >>= q) (xs ++ ys)
Fills-then xs ys hp hq b v room =
    let lengths = length-append xs ys in
    let (b₁, e₁, v₁, f₁, s₁, c₁) = hp b v (omega arith) in
    let (b₂, e₂, v₂, f₂, s₂, c₂) = hq b₁ v₁ (omega arith) in
    (b₂, rw (e₁, e₂), v₂, f₂ ∙ rw (f₁, append_assoc b.filled xs ys), omega arith, c₂ ∙ c₁)

-- The bytes that `put_shifted` writes.
shifted : ℕ → ℕ → ℕ → Bytes
shifted zero i uv = []
shifted (suc rounds) i uv = uv / 2 ^ i % 256 ∷ shifted rounds (i + 8) uv

put_shifted-Fills : (rounds i uv : ℕ) → Fills (put_shifted rounds i uv) (shifted rounds i uv)
unfolding put_shifted shifted
put_shifted-Fills zero i uv b v room = (b, refl, v, sym (append-nil b.filled), omega arith, refl)
put_shifted-Fills (suc rounds) i uv b v room =
    Fills-then (uv / 2 ^ i % 256 ∷ []) (shifted rounds (i + 8) uv) (put_byte-Fills (uv / 2 ^ i))
      (put_shifted-Fills rounds (i + 8) uv) b v room

shifted-eq : (uv : ℕ) → shifted 8 0 uv ≡ bytes64 uv
unfolding shifted
shifted-eq uv = let e : uv / 2 ^ 0 % 256 ≡ uv % 256 = omega arith in rw e

-- Room is made first, for exactly what is written.
Appends-reserve :
    {op : Bson → Result Bson} (n : ℕ) (xs : Bytes)
    → n ≡ length xs
    → Fills op xs
    → Appends (λ b. bson_reserve n b >>= op) xs
Appends-reserve n xs e h b v safe =
    let (b₁, e₁, v₁, f₁, s₁, room, _) = reserve_lem n b v (omega arith) in
    let (b₂, e₂, v₂, f₂, _, _) = h b₁ v₁ (omega arith) in (b₂, rw (e₁, e₂), v₂, f₂ ∙ rw f₁)

pub Appends-then :
    {p q : Bson → Result Bson} (xs ys : Bytes)
    → Appends p xs
    → Appends q ys
    → Appends (λ b. p b >>= q) (xs ++ ys)
Appends-then xs ys hp hq b v safe =
    let lengths = length-append xs ys in
    let (b₁, e₁, v₁, f₁) = hp b v (omega arith) in
    let size₁ : b₁.size ≡ b.size + length xs =
      omega (arith, v₁.sized, v.sized, ap length f₁, length-append b.filled xs) in
    let (b₂, e₂, v₂, f₂) = hq b₁ v₁ (omega arith) in
    (b₂, rw (e₁, e₂), v₂, f₂ ∙ rw (f₁, append_assoc b.filled xs ys))

pub Appends-nothing : Appends ok []
Appends-nothing b v safe = (b, refl, v, sym (append-nil b.filled))

pub write_byte-Appends : (v : ℕ) → Appends (write_byte v) (v % 256 ∷ [])
unfolding write_byte
write_byte-Appends v = Appends-reserve 1 (v % 256 ∷ []) refl (put_byte-Fills v)

pub write_int32-Appends : (v : ℕ) → Appends (write_int32 v) (bytes32 v)
unfolding write_int32
write_int32-Appends v = Appends-reserve 4 (bytes32 v) refl (
    Fills-then (v % 256 ∷ []) _ (put_byte-Fills v) (
      Fills-then (v / 2 ^ 8 % 256 ∷ []) _ (put_byte-Fills (v / 2 ^ 8)) (
        Fills-then (v / 2 ^ 16 % 256 ∷ []) (v / 2 ^ 24 % 256 ∷ []) (put_byte-Fills (v / 2 ^ 16))
          (put_byte-Fills (v / 2 ^ 24)))))

bytes64-Fills : (v : ℕ) → Fills (put_shifted 8 0 v) (bytes64 v)
bytes64-Fills v = subst (Fills (put_shifted 8 0 v)) (shifted-eq v) (put_shifted-Fills 8 0 v)

pub write_int64-Appends : (v : ℕ) → Appends (write_int64 v) (bytes64 v)
unfolding write_int64
write_int64-Appends v = Appends-reserve 8 (bytes64 v) refl (bytes64-Fills v)

pub write_double-Appends : (v : ℕ) → Appends (write_double v) (bytes64 v)
unfolding write_double
write_double-Appends v = Appends-reserve 8 (bytes64 v) refl (bytes64-Fills v)

pub write_string-Appends : (key : Bytes) → Appends (write_string key) (key ++ (0 ∷ []))
unfolding write_string
write_string-Appends key =
    Appends-reserve (length key + 1) (key ++ (0 ∷ [])) (omega (arith, length-append key (0 ∷ [])))
      (put-Fills (key ++ (0 ∷ [])))

pub write_bytes-Appends : (xs : Bytes) → Appends (write_bytes xs) xs
unfolding write_bytes
write_bytes-Appends xs = Appends-reserve (length xs) xs refl (put-Fills xs)
