-- ===== src/Bson/Keys.antt =====
-- The keys that cext/lua-bson.c writes for array elements, and when a table counts as an array.
use levent.Prelude.{
  ℕ, zero, suc, ◌+◌, ◌-◌, ◌*◌, ◌/◌, ◌%◌, ◌^◌, ◌≤◌, ◌<◌, ◌≡◌, refl, ap, subst, inl, inr, true, false,
  [], ◌∷◌, arith, Bytes, length, take, length-append, ltb, ◌==◌, ==_iff, ==_refl, lt→ltb,
  Bool-cases,
}
use levent.Prelude.Result.{ok}
use native.Mathlib.Nat.{pow-suc}
use levent.Lua.{Entries, empty, raw_equal, LuaLib, has_string_keys, counts_up}
use levent.Bson.Encode.{digits, decimal, bson_numstr, array_index, is_last_key, is_array}
use levent.Bson.Format.{
  PlainDict, dict_empty, dict_entry, PlainArray, array_end, array_entry, is_sequence,
}

take-all : (n : ℕ) (xs : Bytes) → length xs ≤ n → take n xs ≡ xs
take-all zero [] h = refl
take-all zero (x ∷ xs) h = absurd (omega arith)
take-all (suc n) [] h = refl
take-all (suc n) (x ∷ xs) h = ap (λ r. x ∷ r) (take-all n xs (omega arith))

length-digits : (f n i : ℕ) → i < 10 ^ suc n → length (digits f i) ≤ suc n
unfolding digits
length-digits zero n i h = omega arith
length-digits (suc f) zero i h =
    let small : ltb i 10 ≡ true = lt→ltb i 10 (omega arith) in rw small (omega arith)
length-digits (suc f) (suc n) i h = elim (Bool-cases (ltb i 10)) [
  | inl small ↦ rw small (omega arith)
  | inr big ↦
      let shorter : i < 10 ^ suc n * 10 = subst (λ t. i < t) (pow-suc 10 (suc n)) h in
      let front = length-digits f n (i / 10) (omega arith) in
      rw big (omega (arith, length-append (digits f (i / 10)) ((48 + i % 10) ∷ [])))
]

-- The table of numerals holds them whole.
pub bson_numstr-decimal : (i : ℕ) → bson_numstr i ≡ decimal i
unfolding bson_numstr decimal
bson_numstr-decimal i = elim (Bool-cases (ltb i 1024)) [
  | inl small ↦ rw small (take-all 4 (digits 10 i) (length-digits 10 3 i (ground arith)))
  | inr big ↦ rw big
]

pub array_index-eq : (k : ℕ) → 0 < k → k < 2 ^ 31 → array_index k ≡ k - 1
unfolding array_index
array_index-eq k pos h = omega arith

PlainDict-strings : {es : Entries} → PlainDict es → has_string_keys es ≡ true
unfolding has_string_keys
PlainDict-strings dict_empty = refl
PlainDict-strings (dict_entry k v es nz new pv d) = PlainDict-strings d

PlainArray-counts_up : {i n : ℕ} {es : Entries} → PlainArray i n es → counts_up i n es ≡ true
unfolding counts_up
PlainArray-counts_up (array_end i n e) = (==_iff (n + 1) i).1 e
PlainArray-counts_up (array_entry i n k v es e pos small pv a) =
    rw (e, ==_refl, PlainArray-counts_up a)

pub PlainArray-le : {i n : ℕ} {es : Entries} → PlainArray i n es → i ≤ n + 1
PlainArray-le (array_end i n e) = omega arith
PlainArray-le (array_entry i n k v es e pos small pv a) = let h = PlainArray-le a in omega arith

PlainArray-no_more : {i n : ℕ} {es : Entries} → PlainArray (suc i) n es → i ≡ n → es ≡ empty
PlainArray-no_more (array_end _ n e) h = refl
PlainArray-no_more (array_entry _ n k v es e pos small pv a) h =
    let le = PlainArray-le a in absurd (omega arith)

pub is_sequence-dict : {es : Entries} → PlainDict es → is_sequence es ≡ false
is_sequence-dict dict_empty = refl
is_sequence-dict (dict_entry k v es nz new pv d) = refl

pub is_sequence-array : {i n : ℕ} {es : Entries} → i ≤ n → PlainArray i n es → is_sequence es ≡ true
is_sequence-array le (array_end i n e) = absurd (omega arith)
is_sequence-array le (array_entry i n k v es e pos small pv a) = refl

is_last_key-PlainArray :
    {i n : ℕ} {es : Entries} → PlainArray i n es → i ≤ n → is_last_key n es ≡ ok true
unfolding is_last_key raw_equal
is_last_key-PlainArray (array_end i n e) h = absurd (omega arith)
is_last_key-PlainArray (array_entry i n k v es e pos small pv a) h = elim (Bool-cases (k == n)) [
  | inl last ↦ rw (last, PlainArray-no_more a (omega (arith, (==_iff k n).0 last)))
  | inr more ↦ rw more (is_last_key-PlainArray a (ground arith))
]

module _ (lua : LuaLib) where
  pub is_array-dict : {es : Entries} → PlainDict es → is_array lua es ≡ ok false
  unfolding is_array
  is_array-dict {es} d = rw (lua.rawlen_strings es (PlainDict-strings d))

  pub is_array-array :
      {n : ℕ} {es : Entries} → 0 < n → PlainArray 1 n es → is_array lua es ≡ ok true
  unfolding is_array
  is_array-array {n} {es} pos a =
      let some_keys : (n == 0) ≡ false = ground arith in
      rw (lua.rawlen_sequence n es (PlainArray-counts_up a), some_keys)
        (is_last_key-PlainArray a pos)
