-- ===== src/Bson/Sample.antt =====
-- A border and a number reader that stand for those of Lua and of the C library, and a table.
use levent.Prelude.{
  ℕ, zero, suc, ◌+◌, ◌-◌, ◌*◌, ◌/◌, ◌%◌, ◌^◌, ◌≤◌, ◌<◌, ◌≡◌, refl, subst, inl, inr, true, [], ◌∷◌,
  ◌++◌, arith, Bytes, bytes_eq, length, ltb, ◌==◌, Bool-cases, if◌then◌else◌,
}
use levent.Lua.{
  Entries, boolean, integer, string, table, empty, entry, LuaLib, has_string_keys, counts_up,
  raw_equal,
}
use native.Mathlib.Nat.{pow-suc}
use levent.Bson.Scalars.{is_32bit}
use levent.Bson.Encode.{digits, decimal}
use levent.Bson.Format.{
  plain_boolean, plain_integer, plain_text, plain_array, plain_special, date, PlainDict, dict_empty,
  dict_entry, PlainArray, array_end, array_entry, document, elements, absent, nesting_entries,
}
use levent.Bson.Decode.{CLib}

-- The last of the keys that count up from `i` at the front of a table.
pub run_length : ℕ → Entries → ℕ
run_length i empty = i - 1
run_length i (entry (integer k) v es) =
    let rest = run_length (suc i) es in if k == i then rest else i - 1
run_length i (entry _ v es) = i - 1

pub run_length-strings : (es : Entries) → has_string_keys es ≡ true → run_length 1 es ≡ 0
unfolding run_length has_string_keys
run_length-strings empty h = refl
run_length-strings (entry (string k) v es) h = refl
run_length-strings (entry (integer k) v es) h = cc
run_length-strings (entry _ v es) h = refl

pub run_length-sequence : (i n : ℕ) (es : Entries) → counts_up i n es ≡ true → run_length i es ≡ n
unfolding run_length counts_up
run_length-sequence i n empty h = ground arith
run_length-sequence i n (entry (integer k) v es) h =
    ground (arith, run_length-sequence (suc i) n es)
run_length-sequence i n (entry (string k) v es) h = cc
run_length-sequence i n (entry _ v es) h = cc

abbrev pub lua : LuaLib
unfolding run_length
lua = record {
  rawlen = run_length 1;
  number_key = λ k. [];
  rawlen_strings = run_length-strings;
  rawlen_sequence = run_length-sequence 1;
}

pub read_digits : ℕ → Bytes → ℕ
read_digits acc [] = acc
read_digits acc (c ∷ cs) = read_digits (acc * 10 + (c - 48)) cs

pub read_digits-append :
    (acc : ℕ) (xs ys : Bytes) → read_digits acc (xs ++ ys) ≡ read_digits (read_digits acc xs) ys
unfolding read_digits
read_digits-append acc [] ys = refl
read_digits-append acc (c ∷ xs) ys = read_digits-append (acc * 10 + (c - 48)) xs ys

pub read_digits-digits : (f i : ℕ) → i < 10 ^ f → read_digits 0 (digits f i) ≡ i
unfolding read_digits digits
read_digits-digits zero i h = omega arith
read_digits-digits (suc f) i h = elim (Bool-cases (ltb i 10)) [
  | inl small ↦ rw small (omega arith)
  | inr big ↦
      let wider : i < 10 ^ f * 10 = subst (λ t. i < t) (pow-suc 10 f) h in
      let front = read_digits-digits f (i / 10) (omega arith) in
      rw (big, read_digits-append 0 (digits f (i / 10)) ((48 + i % 10) ∷ []), front) (omega arith)
]

pub strtol-decimal : (i : ℕ) → i < 2 ^ 31 → read_digits 0 (decimal i) ≡ i
unfolding decimal
strtol-decimal i h = read_digits-digits 10 i (omega arith)

abbrev pub c_lib : CLib
unfolding read_digits
c_lib = record { strtol = read_digits 0; strtol-decimal = strtol-decimal }

-- { a = true, b = { -1, "x" }, c = a date }
abbrev pub pair : Entries
pair = entry (integer 1) (integer (2 ^ 64 - 1)) (entry (integer 2) (string (b'x' ∷ [])) empty)

abbrev pub sample : Entries
sample = entry (string (b'a' ∷ [])) (boolean true) (
    entry (string (b'b' ∷ [])) (table pair)
      (entry (string (b'c' ∷ [])) (string (0 ∷ 9 ∷ 1 ∷ 2 ∷ 3 ∷ 4 ∷ [])) empty))

pub pair_plain : PlainArray 1 2 pair
pair_plain =
    array_entry 1 2 1 _ _ refl (omega arith) (omega arith) (plain_integer _ (omega arith)) (
      array_entry 2 2 2 _ _ refl (omega arith) (omega arith) (plain_text _ refl (omega arith))
        (array_end 3 2 refl))

pub sample_plain : PlainDict sample
unfolding absent raw_equal bytes_eq
sample_plain =
    dict_entry _ _ _ (refl, tt) refl (plain_boolean true)
      (dict_entry _ _ _ (refl, tt) refl (plain_array 2 pair (omega arith) pair_plain)
        (dict_entry _ _ _ (refl, tt) refl
          (plain_special _ 9 (1 ∷ 2 ∷ 3 ∷ 4 ∷ []) refl
            (date 1 2 3 4 refl refl (omega arith) (omega arith) (omega arith) (omega arith)))
          dict_empty))

abbrev pub stale : ℕ → ℕ
stale i = i % 256

pub sample_shallow : nesting_entries sample ≤ 128
unfolding nesting_entries
sample_shallow = omega arith

pub sample_small : length (document (elements sample)) < 2 ^ 30
unfolding elements digits decimal is_32bit
sample_small = omega arith
