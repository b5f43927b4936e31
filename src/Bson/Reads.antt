-- ===== src/Bson/Reads.antt =====
-- The readers of cext/lua-bson.c on what the writers wrote.
use levent.Prelude.{
  ℕ, zero, suc, ◌+◌, ◌-◌, ◌*◌, ◌/◌, ◌%◌, ◌^◌, ◌<◌, ◌≡◌, refl, sym, ap, subst, ◌∙◌, inl, inr, Bool,
  true, false, ◌&&◌, not, [], ◌∷◌, ◌++◌, append_assoc, arith, Bytes, All, All-append, IsByte,
  length, length-append, take-append, drop-append, ltb, ◌==◌, lt→ltb, ltb-false, Bool-cases,
  if◌then◌else◌,
}
use levent.Prelude.Result.{Result, ok}
use levent.Lua.{Value, Entries, boolean, integer, number, string}
use levent.Bson.Wire.{
  bson_real, bson_string, bson_binary, bson_objectid, bson_boolean, bson_date, bson_regex,
  bson_jscode, bson_symbol, bson_timestamp, bytes32, bytes64, word32, word32-bytes32,
  word64-bytes64,
}
use levent.Bson.Scalars.{first_word, is_32bit}
use levent.Bson.Encode.{digits, decimal}
use levent.Bson.Format.{
  NoZero, IsSpecial, binary, objectid, date, timestamp, regex, code, bare, special_bytes,
  text_bytes, tag, value_bytes,
}
use levent.Bson.Special.{bytes32-word32}
use levent.Bson.Reader.{
  read_byte, read_int32, read_int64, read_bytes, is_negative, read_sized, read_cstring,
}
use levent.Bson.Decode.{
  sign_extend, date_seconds, make_object, unpack_string, unpack_binary, unpack_regex,
  unpack_timestamp, read_object, object_after, unpack_code, unpack_value,
}

pub read_int32-bytes32 : (v : ℕ) (t : Bytes) → v < 2 ^ 32 → read_int32 (bytes32 v ++ t) ≡ ok (v, t)
unfolding read_int32
read_int32-bytes32 v t h = ap (λ w. ok (w, t)) (word32-bytes32 v h)

-- Of a larger number the low 32 bits are read back.
low_word : (v : ℕ) (t : Bytes) → read_int32 (bytes32 v ++ t) ≡ ok (v % 2 ^ 32, t)
unfolding read_int32
low_word v t =
    let e : word32 (v % 256) (v / 2 ^ 8 % 256) (v / 2 ^ 16 % 256) (v / 2 ^ 24 % 256) ≡ v % 2 ^ 32 =
      omega arith in
    ap (λ w. ok (w, t)) e

read_int64-bytes64 : (v : ℕ) (t : Bytes) → v < 2 ^ 64 → read_int64 (bytes64 v ++ t) ≡ ok (v, t)
unfolding read_int64
read_int64-bytes64 v t h = ap (λ w. ok (w, t)) (word64-bytes64 v h)

pub read_bytes-append : (n : ℕ) (xs t : Bytes) → n ≡ length xs → read_bytes n (xs ++ t) ≡ ok (xs, t)
unfolding read_bytes
read_bytes-append n xs t e =
    let fits : ltb (length (xs ++ t)) n ≡ false =
      ltb-false (length (xs ++ t)) n (omega (arith, length-append xs t)) in
    rw (fits, e, take-append xs t, drop-append xs t)

pub read_cstring-append : (key t : Bytes) → NoZero key → read_cstring (key ++ (0 ∷ t)) ≡ ok (key, t)
unfolding read_cstring
read_cstring-append [] t h = refl
read_cstring-append (c ∷ key) t (hc, h) = rw (hc, read_cstring-append key t h)

digits-NoZero : (f i : ℕ) → NoZero (digits f i)
unfolding digits
digits-NoZero zero i = tt
digits-NoZero (suc f) i = elim (Bool-cases (ltb i 10)) [
  | inl small ↦ rw small (ground arith, tt)
  | inr big ↦ rw big (
      All-append (λ c. (c == 0) ≡ false) (digits f (i / 10)) ((48 + i % 10) ∷ [])
        (digits-NoZero f (i / 10)) (ground arith, tt))
]

pub decimal-NoZero : (i : ℕ) → NoZero (decimal i)
unfolding decimal
decimal-NoZero i = digits-NoZero 10 i

-- `unpack_value` reads the value back and leaves what follows.
abbrev pub Reads : (Bool → Bytes → Result (Entries × Bytes)) → ℕ → Bytes → Value → Type 0
Reads nested bt xs v = (t : Bytes) → unpack_value nested bt (xs ++ t) ≡ ok (v, t)

module _ (nested : Bool → Bytes → Result (Entries × Bytes)) where
  pub unpack_boolean :
      (v : Bool) → Reads nested bson_boolean ((if v then 1 else 0) ∷ []) (boolean v)
  unfolding unpack_value
  unpack_boolean true t = unfold read_byte in refl
  unpack_boolean false t = unfold read_byte in refl

  pub unpack_number :
      (bits : ℕ) → bits < 2 ^ 64 → Reads nested bson_real (bytes64 bits) (number bits)
  unfolding unpack_value
  unpack_number bits h t = rw (read_int64-bytes64 bits t h)

  pub unpack_integer :
      (i : ℕ) → i < 2 ^ 64 → Reads nested (tag (integer i)) (value_bytes (integer i)) (integer i)
  unfolding unpack_value value_bytes is_32bit
  unpack_integer i h t = elim (Bool-cases (is_32bit i)) [
    | inl small ↦
        let read : read_int32 (bytes32 i ++ t) ≡ ok (i % 2 ^ 32, t) = low_word i t in
        let same : sign_extend (i % 2 ^ 32) ≡ i = ground arith in rw (small, read, same)
    | inr big ↦ rw (big, read_int64-bytes64 i t h)
  ]

  pub unpack_text :
      (s : Bytes) → length s + 1 < 2 ^ 31 → Reads nested bson_string (text_bytes s) (string s)
  unfolding unpack_value unpack_string
  unpack_text s h t =
      let n = length s + 1 in
      let read : read_int32 (bytes32 n ++ ((s ++ (0 ∷ [])) ++ t)) ≡ ok (n, (s ++ (0 ∷ [])) ++ t) =
        read_int32-bytes32 n _ (omega arith) in
      let here : read_bytes n ((s ++ (0 ∷ [])) ++ t) ≡ ok (s ++ (0 ∷ []), t) =
        read_bytes-append n (s ++ (0 ∷ [])) t (omega (arith, length-append s (0 ∷ []))) in
      let positive : (not (is_negative n) && not (n == 0)) ≡ true = ground arith in
      let shorter : n - 1 ≡ length s = omega arith in
      rw (read, positive, here, shorter, take-append s (0 ∷ []))

  unpack_kind :
      (kind : ℕ) (q : Bytes)
      → length q < 2 ^ 31
      → Reads nested bson_binary
          (bytes32 (length q) ++ (kind ∷ q))
          (make_object bson_binary (kind ∷ q))
  unfolding unpack_value unpack_binary read_byte read_sized
  unpack_kind kind q h t =
      let n = length q in
      let read : read_int32 (bytes32 n ++ (kind ∷ q ++ t)) ≡ ok (n, kind ∷ q ++ t) =
        read_int32-bytes32 n _ (omega arith) in
      let sign : is_negative n ≡ false = ground arith in
      rw (read, sign, read_bytes-append n q t refl)

  unpack_texts :
      (xs ys : Bytes)
      → NoZero xs
      → NoZero ys
      → Reads nested bson_regex
          (xs ++ (0 ∷ (ys ++ (0 ∷ []))))
          (make_object bson_regex (xs ++ (0 ∷ (ys ++ (0 ∷ [])))))
  unfolding unpack_value unpack_regex
  unpack_texts xs ys hx hy t = rw (
    append_assoc xs (0 ∷ (ys ++ (0 ∷ []))) t,
    append_assoc ys (0 ∷ []) t,
    read_cstring-append xs (ys ++ (0 ∷ t)) hx,
    read_cstring-append ys t hy,
  )

  -- A date counts milliseconds in the document and seconds in Lua.
  unpack_date :
      (a b c d : ℕ)
      → IsByte a
      → IsByte b
      → IsByte c
      → IsByte d
      → Reads nested bson_date
          (bytes64 (word32 a b c d * 1000))
          (make_object bson_date (a ∷ b ∷ c ∷ d ∷ []))
  unfolding unpack_value date_seconds
  unpack_date a b c d ha hb hc hd t =
      let w = word32 a b c d in
      let read : read_int64 (bytes64 (w * 1000) ++ t) ≡ ok (w * 1000, t) =
        read_int64-bytes64 (w * 1000) t (omega arith) in
      let early : ltb (w * 1000) (2 ^ 63) ≡ true = lt→ltb (w * 1000) (2 ^ 63) (omega arith) in
      let seconds : w * 1000 / 1000 % 2 ^ 32 ≡ w = omega arith in
      rw (read, early, seconds)
        (ap (λ l. ok (string (0 ∷ bson_date ∷ l), t)) (bytes32-word32 a b c d ha hb hc hd))

  unpack_stamp :
      (a b c d e f g h : ℕ)
      → All IsByte (a ∷ b ∷ c ∷ d ∷ e ∷ f ∷ g ∷ h ∷ [])
      → Reads nested bson_timestamp
          (a ∷ b ∷ c ∷ d ∷ e ∷ f ∷ g ∷ h ∷ [])
          (make_object bson_timestamp (a ∷ b ∷ c ∷ d ∷ e ∷ f ∷ g ∷ h ∷ []))
  unfolding unpack_value unpack_timestamp read_int32
  unpack_stamp a b c d e f g h (ha, (hb, (hc, (hd, (he, (hf, (hg, (hh, _)))))))) t =
      ap (λ l. ok (make_object bson_timestamp l, t))
        (ap (λ l. l ++ bytes32 (word32 e f g h)) (bytes32-word32 a b c d ha hb hc hd)
          ∙ ap (λ l. a ∷ b ∷ c ∷ d ∷ l) (bytes32-word32 e f g h he hf hg hh))

  unpack_sized :
      (subt n : ℕ) (q : Bytes)
      → n ≡ length q
      → n < 2 ^ 31
      → (t : Bytes)
      → unpack_code subt ((bytes32 n ++ q) ++ t) ≡ ok (make_object subt (bytes32 n ++ q), t)
  unfolding unpack_code object_after read_object
  unpack_sized subt n q e h t =
      let read : read_int32 (bytes32 n ++ (q ++ t)) ≡ ok (n, q ++ t) =
        read_int32-bytes32 n (q ++ t) (omega arith) in
      let sign : is_negative n ≡ false = ground arith in
      let whole : n + 4 ≡ suc (suc (suc (suc (length q)))) = omega arith in
      rw (read, sign, whole, read_bytes-append (length (bytes32 n ++ q)) (bytes32 n ++ q) t refl)
        refl

  unpack_oid :
      (p : Bytes) → length p ≡ 12 → Reads nested bson_objectid p (make_object bson_objectid p)
  unfolding unpack_value
  unpack_oid p e t = rw (read_bytes-append 12 p t (sym e))

  -- A special value is read back as the string it was.
  pub unpack_special :
      (subt : ℕ) (p : Bytes)
      → IsSpecial subt p
      → Reads nested subt (special_bytes subt p) (make_object subt p)
  unpack_special subt p (binary kind q t e small long) =
      let shorter : suc (length q) - 1 ≡ length q = omega arith in
      rw (t, e, shorter) (unpack_kind kind q long)
  unpack_special subt p (objectid t e) = rw t (unpack_oid p e)
  unpack_special subt p (date a b c d t e ha hb hc hd) =
      rw (t, e) (unfold first_word in unpack_date a b c d ha hb hc hd)
  unpack_special subt p (timestamp a b c d e f g h t same bytes) =
      rw (t, same) (unpack_stamp a b c d e f g h (subst (All IsByte) same bytes))
  unpack_special subt p (regex xs ys t e hx hy) = rw (t, e) (unpack_texts xs ys hx hy)
  unpack_special subt p (code n q (inl t) e same small) =
      rw (t, e) (unfold unpack_value in unpack_sized bson_jscode n q same small)
  unpack_special subt p (code n q (inr t) e same small) =
      rw (t, e) (unfold unpack_value in unpack_sized bson_symbol n q same small)
  unpack_special subt p (bare (inl t) e) = rw (t, e) (λ u. unfold unpack_value in refl)
  unpack_special subt p (bare (inr (inl t)) e) = rw (t, e) (λ u. unfold unpack_value in refl)
  unpack_special subt p (bare (inr (inr t)) e) = rw (t, e) (λ u. unfold unpack_value in refl)
