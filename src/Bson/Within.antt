-- ===== src/Bson/Within.antt =====
-- What the readers of cext/lua-bson.c leave of their input.
use levent.Prelude.{
  ℕ, suc, ◌+◌, ◌-◌, ◌^◌, ◌≤◌, ◌≡◌, ap, ◌≢◌, inl, inr, Bool, true, false, [], ◌∷◌, arith, Bytes,
  length, length-drop, ltb, leb, not, ◌&&◌, ◌==◌, Bool-cases, if◌then◌else◌,
}
use levent.Prelude.Result.{
  Result, Error, ok, raised, fault, moved_back, out_of_fuel, ◌>>=◌, ◌>>◌, guard, invalid_end,
}
use levent.Lua.{Value, Entries, number, integer}
use levent.Bson.Wire.{bson_date, bson_dbpointer, bson_codews, bytes32}
use levent.Bson.Reader.{
  read_byte, read_int32, read_int64, read_bytes, is_negative, read_sized, read_cstring,
}
use levent.Bson.Decode.{
  make_object, date_seconds, unpack_string, unpack_binary, unpack_regex, unpack_timestamp,
  read_object, object_after, unpack_code, unpack_dbpointer, unpack_codews, unpack_value,
  read_elements,
}

-- The run kept within its fuel, and what it leaves of the input has at most `n` bytes.
abbrev pub Within {ℓ} : {A : Type ℓ} → ℕ → Result (A × Bytes) → Type 0
Within n (ok (a, u)) = length u ≤ n
Within n (raised e) = Unit {0}
Within n fault = Unit {0}
Within n moved_back = Unit {0}
Within n out_of_fuel = ⊥

abbrev pub Ends {ℓ} : {A : Type ℓ} → Result A → Type ℓ
Ends r = r ≢ out_of_fuel

module _ {ℓ κ} {A : Type ℓ} {B : Type κ} where
  pub Within-bind :
      (n : ℕ) (r : Result (A × Bytes)) (f : A × Bytes → Result (B × Bytes))
      → Within n r
      → ((a : A) (u : Bytes) → length u ≤ n → Within n (f (a, u)))
      → Within n (r >>= f)
  Within-bind n (ok (a, u)) f h k = k a u h
  Within-bind n (raised e) f h k = tt
  Within-bind n fault f h k = tt
  Within-bind n moved_back f h k = tt
  Within-bind n out_of_fuel f h k = h

pub Within-guard {ℓ} :
    {A : Type ℓ} (n : ℕ) (b : Bool) (e : Error) (r : Result (A × Bytes))
    → Within n r
    → Within n (guard b e >> r)
Within-guard n true e r h = h
Within-guard n false e r h = tt

pub Within-if {ℓ} :
    {A : Type ℓ} (n : ℕ) (b : Bool) (x y : Result (A × Bytes))
    → Within n x
    → Within n y
    → Within n (if b then x else y)
Within-if n true x y hx hy = hx
Within-if n false x y hx hy = hy

pub Within-mono {ℓ} :
    {A : Type ℓ} (m n : ℕ) (r : Result (A × Bytes)) → m ≤ n → Within m r → Within n r
Within-mono m n (ok (a, u)) le h = omega arith
Within-mono m n (raised e) le h = tt
Within-mono m n fault le h = tt
Within-mono m n moved_back le h = tt
Within-mono m n out_of_fuel le h = h

module _ (n : ℕ) (t : Bytes) (le : length t ≤ n) where
  pub read_byte-Within : Within n (read_byte t)
  unfolding read_byte
  read_byte-Within = go t le
    where
      go : (s : Bytes) → length s ≤ n → Within n (read_byte s)
      go [] h = tt
      go (b ∷ s) h = omega arith

  pub read_bytes-Within : (m : ℕ) → Within n (read_bytes m t)
  unfolding read_bytes
  read_bytes-Within m = Within-if n (ltb (length t) m) _ _ tt (omega (arith, length-drop {0} m t))

  pub read_sized-Within : (w : ℕ) → Within n (read_sized w t)
  unfolding read_sized
  read_sized-Within w = Within-if n (is_negative w) _ _ tt (read_bytes-Within w)

pub read_int32-Within : (n : ℕ) (t : Bytes) → length t ≤ n → Within n (read_int32 t)
unfolding read_int32
read_int32-Within n (a ∷ b ∷ c ∷ d ∷ t) h = omega arith
read_int32-Within n _ h = tt

pub read_int64-Within : (n : ℕ) (t : Bytes) → length t ≤ n → Within n (read_int64 t)
unfolding read_int64
read_int64-Within n (a ∷ b ∷ c ∷ d ∷ e ∷ f ∷ g ∷ h ∷ t) le = omega arith
read_int64-Within n _ le = tt

-- The text and its zero take a byte at least.
pub read_cstring-Within : (n : ℕ) (t : Bytes) → length t ≤ suc n → Within n (read_cstring t)
unfolding read_cstring
read_cstring-Within n [] h = tt
read_cstring-Within n (c ∷ t) h = elim (Bool-cases (c == 0)) [
  | inl stop ↦ rw stop (omega arith)
  | inr more ↦ rw more (
      Within-bind n (read_cstring t) (λ (s, u). ok (c ∷ s, u))
        (read_cstring-Within n t (omega arith)) (λ s u le. le))
]

module _ (n : ℕ) where
  pub unpack_string-Within : (t : Bytes) → length t ≤ n → Within n (unpack_string t)
  unfolding unpack_string
  unpack_string-Within t h = Within-bind n (read_int32 t) _ (read_int32-Within n t h) λ sz u hu.
      Within-guard n _ _ _
        (Within-bind n (read_bytes sz u) _ (read_bytes-Within n u hu sz) λ s v hv. hv)

  pub unpack_binary-Within : (t : Bytes) → length t ≤ n → Within n (unpack_binary t)
  unfolding unpack_binary
  unpack_binary-Within t h = Within-bind n (read_int32 t) _ (read_int32-Within n t h) λ sz u hu.
      Within-bind n (read_byte u) _ (read_byte-Within n u hu)
        λ k v hv. Within-bind n (read_sized sz v) _ (read_sized-Within n v hv sz) λ s w hw. hw

  pub unpack_regex-Within : (t : Bytes) → length t ≤ n → Within n (unpack_regex t)
  unfolding unpack_regex
  unpack_regex-Within t h =
      Within-bind n (read_cstring t) _ (read_cstring-Within n t (omega arith)) λ r1 u hu.
        Within-bind n (read_cstring u) _ (read_cstring-Within n u (omega arith)) λ r2 v hv. hv

  pub unpack_timestamp-Within : (t : Bytes) → length t ≤ n → Within n (unpack_timestamp t)
  unfolding unpack_timestamp
  unpack_timestamp-Within t h =
      Within-bind n (read_int32 t) _ (read_int32-Within n t h)
        λ inc u hu. Within-bind n (read_int32 u) _ (read_int32-Within n u hu) λ ts v hv. hv

  read_object-Within : (bt len : ℕ) (t : Bytes) → length t ≤ n → Within n (read_object bt len t)
  unfolding read_object
  read_object-Within bt len t h =
      Within-bind n (read_bytes len t) _ (read_bytes-Within n t h len) λ s u hu. hu

  object_after-Within :
      (bt more sz : ℕ) (t : Bytes) → length t ≤ n → Within n (object_after bt more sz t)
  unfolding object_after
  object_after-Within bt more sz t h =
      Within-if n (is_negative sz) _ _
        (Within-if n (ltb (sz + more) (2 ^ 32)) _ _ tt
          (read_object-Within bt (sz + more - 2 ^ 32) t h))
        (read_object-Within bt (sz + more) t h)

  pub unpack_code-Within : (bt : ℕ) (t : Bytes) → length t ≤ n → Within n (unpack_code bt t)
  unfolding unpack_code
  unpack_code-Within bt t h =
      Within-bind n (read_int32 t) _ (read_int32-Within n t h)
        λ sz u hu. object_after-Within bt 4 sz t h

  pub unpack_dbpointer-Within : (t : Bytes) → length t ≤ n → Within n (unpack_dbpointer t)
  unfolding unpack_dbpointer
  unpack_dbpointer-Within t h = Within-bind n (read_int32 t) _ (read_int32-Within n t h) λ sz u hu.
      Within-if n (not (is_negative sz) && leb (2 ^ 31) (sz + 12)) _ _ tt
        (object_after-Within bson_dbpointer 16 sz t h)

  pub unpack_codews-Within : (t : Bytes) → length t ≤ n → Within n (unpack_codews t)
  unfolding unpack_codews
  unpack_codews-Within t h = Within-bind n (read_int32 t) _ (read_int32-Within n t h) λ sz u hu.
      Within-if n (is_negative sz && ltb sz (2 ^ 31 + 4)) _ _ tt
        (object_after-Within bson_codews 0 sz t h)

  -- A value is read within the fuel if nested documents are.
  pub unpack_value-Within :
      (nested : Bool → Bytes → Result (Entries × Bytes))
      → ((array : Bool) (u : Bytes) → length u ≤ n → Within n (nested array u))
      → (bt : ℕ) (t : Bytes) → length t ≤ n
      → Within n (unpack_value nested bt t)
  unfolding unpack_value
  unpack_value-Within nested k bt t h = Within-if n (bt == 1) _ _ (wide number) (
      Within-if n (bt == 8) _ _
        (Within-bind n (read_byte t) _ (read_byte-Within n t h) (λ b u hu. hu))
        (Within-if n (bt == 2) _ _ (unpack_string-Within t h) (
          Within-if n (bt == 3) _ _ (Within-bind n (nested false t) _ (k false t h) (λ es u hu. hu))
            (Within-if n (bt == 4) _ _
              (Within-bind n (nested true t) _ (k true t h) (λ es u hu. hu))
              (Within-if n (bt == 5) _ _ (unpack_binary-Within t h) (
                Within-if n (bt == 7) _ _
                  (Within-bind n (read_bytes 12 t) _ (read_bytes-Within n t h 12) (λ s u hu. hu))
                  (Within-if n (bt == 9) _ _
                    (wide (λ d. make_object bson_date (bytes32 (date_seconds d))))
                    (Within-if n (bt == 255) _ _ h (
                      Within-if n (bt == 127) _ _ h (
                        Within-if n (bt == 10) _ _ h (
                          Within-if n (bt == 11) _ _ (unpack_regex-Within t h) (
                            Within-if n (bt == 16) _ _
                              (Within-bind n (read_int32 t) _ (read_int32-Within n t h)
                                (λ i u hu. hu))
                              (Within-if n (bt == 17) _ _ (unpack_timestamp-Within t h) (
                                Within-if n (bt == 18) _ _ (wide integer) (
                                  Within-if n (bt == 12) _ _ (unpack_dbpointer-Within t h) (
                                    Within-if n (bt == 13) _ _ (unpack_code-Within bt t h) (
                                      Within-if n (bt == 14) _ _ (unpack_code-Within bt t h) (
                                        Within-if n (bt == 15) _ _ (unpack_codews-Within t h)
                                          tt))))))))))))))))))
    where
      wide : (f : ℕ → Value) → Within n (read_int64 t >>= λ (d, u). ok (f d, u))
      wide f =
          Within-bind n (read_int64 t) (λ (d, u). ok (f d, u)) (read_int64-Within n t h)
            (λ d u hu. hu)

  pub read_elements-Within : (t : Bytes) → length t ≤ n → Within n (read_elements t)
  unfolding read_elements
  read_elements-Within t h = Within-bind n (read_int32 t) _ (read_int32-Within n t h) λ sz u hu.
      Within-guard n _ _ _ (
        Within-bind n (if is_negative sz then moved_back else read_bytes (sz - 5) u) _
          (Within-if n (is_negative sz) _ _ tt (read_bytes-Within n u hu (sz - 5)))
          λ xs v hv.
            Within-bind n (read_byte v) _ (read_byte-Within n v hv)
              λ end w hw. Within-guard n (end == 0) invalid_end (ok (xs, w)) hw)

pub read_int32-shorter :
    (t : Bytes) (w : ℕ) (u : Bytes) → read_int32 t ≡ ok (w, u) → length u + 4 ≡ length t
unfolding read_int32
read_int32-shorter (a ∷ b ∷ c ∷ d ∷ t) w u h =
    let same : t ≡ u = cc in omega (arith, ap length same)
read_int32-shorter _ w u h = cc
