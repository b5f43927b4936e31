-- ===== src/Bson/Total.antt =====
-- The decoder of cext/lua-bson.c ends on every input.
use levent.Prelude.{
  ℕ, zero, suc, ◌+◌, ◌-◌, ◌≤◌, ◌<◌, ◌≡◌, refl, ap, ◌≢◌, Bool, true, false, ◌||◌, [], ◌∷◌, arith,
  Bytes, length, take, length-take, ltb, leb, ◌==◌, if◌then◌else◌,
}
use levent.Prelude.Result.{
  Result, Error, ok, raised, fault, moved_back, out_of_fuel, ◌>>=◌, ◌>>◌, guard, invalid_end,
  invalid_block, >>=-eq-ok,
}
use levent.Lua.{Entries, rawset, empty}
use levent.Bson.Scalars.{first_word}
use levent.Bson.Reader.{read_byte, read_int32, read_bytes, is_negative, read_cstring}
use levent.Bson.Decode.{
  CLib, element_key_of, unpack_value, read_elements, unpack_dict, unpack_elements, decode,
}
use levent.Bson.Within.{
  Within, Ends, read_cstring-Within, unpack_value-Within, read_elements-Within, read_int32-shorter,
}

guard-ok {ℓ} :
    {A : Type ℓ} (b : Bool) (e : Error) (r : Result A) {x : A} → (guard b e >> r) ≡ ok x → r ≡ ok x
guard-ok true e r h = h
guard-ok false e r h = cc

length-read_bytes :
    (b : Bool) (m : ℕ) (t xs u : Bytes)
    → (if b then moved_back else read_bytes m t) ≡ ok (xs, u)
    → length xs ≤ length t
unfolding read_bytes
length-read_bytes b m t xs u h = ground (arith, length-take {0} m t)

-- The elements are shorter than what the document is read from.
read_elements-shorter : (t xs u : Bytes) → read_elements t ≡ ok (xs, u) → length xs + 4 ≤ length t
unfolding read_elements
read_elements-shorter t xs u h =
    let ((sz, t₁), e₁, h₁) = >>=-eq-ok (read_int32 t) _ h in
    let h₂ =
      guard-ok (is_negative sz || leb 5 sz) (if sz == 1 then invalid_end else invalid_block) _ h₁ in
    let ((ys, t₂), e₂, h₃) =
      >>=-eq-ok (if is_negative sz then moved_back else read_bytes (sz - 5) t₁) _ h₂ in
    let ((z, t₃), e₃, h₄) = >>=-eq-ok (read_byte t₂) _ h₃ in
    let last = guard-ok (z == 0) invalid_end (ok (ys, t₃)) h₄ in
    let same : ys ≡ xs = cc last in
    let word = read_int32-shorter t sz t₁ e₁ in
    let part = length-read_bytes (is_negative sz) (sz - 5) t₁ ys t₂ e₂ in
    omega (arith, ap length same)

module _ {ℓ κ} {A : Type ℓ} {B : Type κ} where
  pub Ends-bind :
      (n : ℕ) (r : Result (A × Bytes)) (f : A × Bytes → Result B)
      → Within n r
      → ((a : A) (u : Bytes) → length u ≤ n → Ends (f (a, u)))
      → Ends (r >>= f)
  Ends-bind n (ok (a, u)) f h k = k a u h
  Ends-bind n (raised e) f h k = λ p. cc
  Ends-bind n fault f h k = λ p. cc
  Ends-bind n moved_back f h k = λ p. cc
  Ends-bind n out_of_fuel f h k = absurd h

pub Ends-if {ℓ} :
    {A : Type ℓ} (b : Bool) (x y : Result A) → Ends x → Ends y → Ends (if b then x else y)
Ends-if true x y hx hy = hx
Ends-if false x y hx hy = hy

-- A run that ends, and then a value with the rest of the input.
Within-after {ℓ} :
    {A : Type ℓ} (n : ℕ) (r : Result A) (u : Bytes)
    → Ends r
    → length u ≤ n
    → Within n (r >>= λ a. ok (a, u))
Within-after n (ok a) u e h = h
Within-after n (raised x) u e h = tt
Within-after n fault u e h = tt
Within-after n moved_back u e h = tt
Within-after n out_of_fuel u e h = e refl

module _ (c : CLib) where
  dict_step :
      (n : ℕ) (r : Result (Bytes × Bytes)) (f : ℕ) (array : Bool)
      → Within n r
      → ((xs u : Bytes) → r ≡ ok (xs, u) → Ends (unpack_elements c f array xs empty))
      → Within n (r >>= λ (xs, u). (unpack_elements c f array xs empty >>= λ es. ok (es, u)))
  dict_step n (ok (xs, u)) f array h k =
      Within-after n (unpack_elements c f array xs empty) u (k xs u refl) h
  dict_step n (raised e) f array h k = tt
  dict_step n fault f array h k = tt
  dict_step n moved_back f array h k = tt
  dict_step n out_of_fuel f array h k = h

  mutual
    unfolding unpack_dict

    unpack_dict-Within :
        (f : ℕ) (array : Bool) (br : Bytes) (n : ℕ)
        → length br < f
        → length br ≤ n
        → Within n (unpack_dict c f array br)
    unpack_dict-Within zero array br n fuel h = absurd (omega arith)
    unpack_dict-Within (suc f) array br n fuel h =
        dict_step n (read_elements br) f array (read_elements-Within n br h) (λ xs u e.
          unpack_elements-Ends f array xs empty
            (let shorter = read_elements-shorter br xs u e in omega arith))

    unpack_elements-Ends :
        (f : ℕ) (array : Bool) (t : Bytes) (es : Entries)
        → length t < f
        → Ends (unpack_elements c f array t es)
    unpack_elements-Ends zero array t es fuel = absurd (omega arith)
    unpack_elements-Ends (suc f) array [] es fuel = λ p. cc
    unpack_elements-Ends (suc f) array (bt ∷ t) es fuel =
        let n = length t in
        Ends-bind n (read_cstring t) _ (read_cstring-Within n t (omega arith)) λ key u hu.
          Ends-bind n (unpack_value (unpack_dict c f) bt u) _
            (unpack_value-Within n (unpack_dict c f)
              (λ a w hw. unpack_dict-Within f a w n (omega arith) hw) bt u hu)
            λ v w hw.
              unpack_elements-Ends f array w (rawset (element_key_of c array key) v es)
                (omega arith)

  -- `ldecode` ends on every block of memory, also where a length in it is negative: its loops and its recursion
  -- never use up the fuel, which is one more than the length that the document states. A nested document whose
  -- length is negative is where the model stops; in the code an error, or a read in front of the block, follows
  -- at once.
  pub decode-ne-out_of_fuel : (doc : Bytes) → decode c doc ≢ out_of_fuel
  unfolding decode
  decode-ne-out_of_fuel doc =
      let w = first_word doc in
      let n = length (take w doc) in
      Ends-if (ltb (length doc) 4) fault _ (λ p. cc)
        (Ends-if (is_negative w) (raised invalid_block) _ (λ p. cc)
          (Ends-if (ltb (length doc) w) fault _ (λ p. cc)
            (Ends-bind n (unpack_dict c (w + 1) false (take w doc)) (λ (es, rest). ok es)
              (unpack_dict-Within (w + 1) false (take w doc) n
                (omega (arith, length-take {0} w doc)) (omega arith))
              (λ es u le p. cc))))
