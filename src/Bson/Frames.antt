-- ===== src/Bson/Frames.antt =====
-- Lengths that cext/lua-bson.c fills in behind what it has written.
use levent.Prelude.{
  ℕ, ◌+◌, ◌/◌, ◌%◌, ◌^◌, ◌<◌, ◌≡◌, refl, sym, ap, ◌∙◌, [], ◌∷◌, ◌++◌, append_assoc, arith, Bytes,
  length, length-append, set, lt→ltb,
}
use levent.Prelude.Result.{Result, ok, ◌>>=◌}
use levent.Bson.Wire.{bytes32}
use levent.Bson.Buffer.{Bson, poke, write_length, reserve_length}
use levent.Bson.Appends.{IsValid, safe_limit, Appends, reserve_lem, put_lem}

set-append :
    (xs : Bytes) (a v : ℕ) (ys : Bytes) → set (xs ++ (a ∷ ys)) (length xs) v ≡ xs ++ (v ∷ ys)
set-append [] a v ys = refl
set-append (x ∷ xs) a v ys = ap (λ r. x ∷ r) (set-append xs a v ys)

-- A byte of what is filled is overwritten.
poke_lem :
    (b : Bson) (off v : ℕ) (xs : Bytes) (a : ℕ) (ys : Bytes)
    → IsValid b
    → b.filled ≡ xs ++ (a ∷ ys)
    → off ≡ length xs
    → (b' : Bson) × (poke off v b ≡ ok b') × IsValid b' × (b'.filled ≡ xs ++ (v % 256 ∷ ys))
unfolding poke
poke_lem b off v xs a ys valid split at =
    let lengths = length-append xs (a ∷ ys) in
    let lengths' = length-append xs (v % 256 ∷ ys) in
    let changed : set b.filled off (v % 256) ≡ xs ++ (v % 256 ∷ ys) =
      rw (split, at) (set-append xs a (v % 256) ys) in
    (
      record b { filled = set b.filled off (v % 256) },
      rw (lt→ltb off b.size (omega (arith, valid.sized, ap length split))),
      record {
        sized = omega (arith, valid.sized, ap length split, ap length changed);
        fits = valid.fits;
        positive = valid.positive;
        bounded = valid.bounded;
      },
      changed,
    )

pub write_length_lem :
    (b : Bson) (v off : ℕ) (xs : Bytes) (a₀ a₁ a₂ a₃ : ℕ) (ys : Bytes)
    → IsValid b
    → b.filled ≡ xs ++ (a₀ ∷ a₁ ∷ a₂ ∷ a₃ ∷ ys)
    → off ≡ length xs
    → (b' : Bson) × (write_length v off b ≡ ok b')
      × IsValid b'
      × (b'.filled ≡ xs ++ (bytes32 v ++ ys))
unfolding write_length
write_length_lem b v off xs a₀ a₁ a₂ a₃ ys valid split at =
    let w₀ = v % 256 in
    let w₁ = v / 2 ^ 8 % 256 in
    let w₂ = v / 2 ^ 16 % 256 in
    let (b₁, e₁, v₁, f₁) = poke_lem b off v xs a₀ (a₁ ∷ a₂ ∷ a₃ ∷ ys) valid split at in
    let (b₂, e₂, v₂, f₂) =
      poke_lem b₁ (off + 1) (v / 2 ^ 8) (xs ++ (w₀ ∷ [])) a₁ (a₂ ∷ a₃ ∷ ys) v₁
        (f₁ ∙ sym (append_assoc xs (w₀ ∷ []) _)) (omega (arith, length-append xs (w₀ ∷ []))) in
    let (b₃, e₃, v₃, f₃) =
      poke_lem b₂ (off + 2) (v / 2 ^ 16) (xs ++ (w₀ ∷ w₁ ∷ [])) a₂ (a₃ ∷ ys) v₂
        (f₂ ∙ rw (append_assoc, append_assoc)) (omega (arith, length-append xs (w₀ ∷ w₁ ∷ []))) in
    let (b₄, e₄, v₄, f₄) =
      poke_lem b₃ (off + 3) (v / 2 ^ 24) (xs ++ (w₀ ∷ w₁ ∷ w₂ ∷ [])) a₃ ys v₃
        (f₃ ∙ rw (append_assoc, append_assoc))
        (omega (arith, length-append xs (w₀ ∷ w₁ ∷ w₂ ∷ []))) in
    (b₄, rw (e₁, e₂, e₃, e₄), v₄, f₄ ∙ append_assoc xs (w₀ ∷ w₁ ∷ w₂ ∷ []) _)

pub reserve_length_lem :
    (b : Bson)
    → IsValid b
    → b.size + 4 < safe_limit
    → (b' : Bson) × (a₀ a₁ a₂ a₃ : ℕ) × (reserve_length b ≡ ok (b.size, b'))
      × IsValid b'
      × (b'.filled ≡ b.filled ++ (a₀ ∷ a₁ ∷ a₂ ∷ a₃ ∷ []))
unfolding reserve_length
reserve_length_lem b v safe =
    let (b₁, e₁, v₁, f₁, s₁, room, _) = reserve_lem 4 b v safe in
    let s = b₁.size in
    let open_bytes : Bytes = b.stale s ∷ b.stale (s + 1) ∷ b.stale (s + 2) ∷ b.stale (s + 3) ∷ [] in
    let (b₂, e₂, v₂, f₂, _, _) = put_lem open_bytes b₁ v₁ (omega arith) in
    (b₂, b.stale s, b.stale (s + 1), b.stale (s + 2), b.stale (s + 3), rw (e₁, e₂), v₂, f₂ ∙ rw f₁)

-- `reserve_length`, some writes, and `write_length` of `n` into the bytes left open.
abbrev pub framed : (Bson → Result Bson) → (ℕ → Bson → ℕ) → Bson → Result Bson
framed body len b = do (start, b) ← reserve_length b; b ← body b; write_length (len start b) start b

pub framed-Appends :
    {body : Bson → Result Bson} (len : ℕ → Bson → ℕ) (xs : Bytes) (n : ℕ)
    → Appends body xs
    → ((start : ℕ) (b : Bson) → b.size ≡ start + 4 + length xs → bytes32 (len start b) ≡ bytes32 n)
    → Appends (framed body len) (bytes32 n ++ xs)
framed-Appends {body} len xs n h measure b v safe =
    let (b₁, a₀, a₁, a₂, a₃, e₁, v₁, f₁) = reserve_length_lem b v (omega arith) in
    let open_bytes : Bytes = a₀ ∷ a₁ ∷ a₂ ∷ a₃ ∷ [] in
    let size₁ : b₁.size ≡ b.size + 4 =
      omega (arith, v₁.sized, v.sized, ap length f₁, length-append b.filled open_bytes) in
    let (b₂, e₂, v₂, f₂) = h b₁ v₁ (omega arith) in
    let size₂ : b₂.size ≡ b.size + 4 + length xs =
      omega (arith, v₂.sized, v₁.sized, ap length f₂, length-append b₁.filled xs) in
    let (b₃, e₃, v₃, f₃) =
      write_length_lem b₂ (len b.size b₂) b.size b.filled a₀ a₁ a₂ a₃ xs v₂
        (f₂ ∙ rw (f₁, append_assoc b.filled open_bytes xs)) v.sized in
    (b₃, rw (e₁, e₂, e₃), v₃, f₃ ∙ ap (λ w. b.filled ++ (w ++ xs)) (measure b.size b₂ size₂))
