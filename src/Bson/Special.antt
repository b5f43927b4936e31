-- ===== src/Bson/Special.antt =====
-- What `append_one` of cext/lua-bson.c writes for the special values.
use levent.Prelude.{
  ℕ, suc, ◌+◌, ◌-◌, ◌*◌, ◌/◌, ◌%◌, ◌^◌, ◌<◌, ◌≡◌, refl, ap, subst, ◌≢◌, ◌∙◌, inl, inr, true, none,
  some, [], ◌∷◌, ◌++◌, append_assoc, arith, Bytes, All, IsByte, length, ◌==◌,
}
use mathlib.Core.Path.{fun_ext}
use levent.Prelude.Result.{◌>>=◌}
use levent.Bson.Wire.{bytes32, word32}
use levent.Bson.Buffer.{Bson, write_string}
use levent.Bson.Appends.{
  Appends, Appends-then, Appends-nothing, write_int32-Appends, write_int64-Appends,
  write_string-Appends, write_bytes-Appends,
}
use levent.Bson.Frames.{framed-Appends}
use levent.Bson.Scalars.{
  write_binary, split_last_zero, drop_last, write_regex, write_timestamp, write_special,
}
use levent.Bson.Format.{
  NoZero, IsSpecial, binary, objectid, date, timestamp, regex, code, bare, special_bytes,
}

-- The length that BSON_BINARY writes leaves the subtype byte out.
write_binary-Appends :
    (kind : ℕ) (q : Bytes)
    → length q < 2 ^ 31
    → Appends (write_binary (kind ∷ q)) (bytes32 (length q) ++ (kind ∷ q))
unfolding write_binary
write_binary-Appends kind q h =
    framed-Appends (λ start b. length (kind ∷ q) + 2 ^ 32 - 1) (kind ∷ q) (length q)
      (write_bytes-Appends (kind ∷ q)) (λ start b size. wraps)
  where
    wraps : bytes32 (suc (length q) + 2 ^ 32 - 1) ≡ bytes32 (length q)
    wraps =
        let e : suc (length q) + 2 ^ 32 - 1 ≡ length q + 2 ^ 32 = omega arith in rw e (ground arith)

split_last_zero-none : (ys : Bytes) → NoZero ys → split_last_zero ys ≡ none
unfolding split_last_zero
split_last_zero-none [] h = refl
split_last_zero-none (y ∷ ys) (hy, h) = rw (split_last_zero-none ys h, hy)

pub split_last_zero-eq :
    (xs ys : Bytes) → NoZero ys → split_last_zero (xs ++ (0 ∷ ys)) ≡ some (xs, ys)
unfolding split_last_zero
split_last_zero-eq [] ys h = rw (split_last_zero-none ys h)
split_last_zero-eq (x ∷ xs) ys h = rw (split_last_zero-eq xs ys h)

pub drop_last-snoc : (xs : Bytes) (c : ℕ) → drop_last (xs ++ (c ∷ [])) ≡ xs
unfolding drop_last
drop_last-snoc [] c = refl
drop_last-snoc (x ∷ []) c = refl
drop_last-snoc (x ∷ y ∷ xs) c = ap (λ r. x ∷ r) (drop_last-snoc (y ∷ xs) c)

write_regex-step :
    (p : Bytes) (xs ys : Bytes) (b : Bson)
    → p ≢ []
    → split_last_zero (drop_last p) ≡ some (xs, ys)
    → write_regex p b ≡ (write_string xs b >>= write_string ys)
unfolding write_regex
write_regex-step [] xs ys b h e = absurd (h refl)
write_regex-step (c ∷ cs) xs ys b h e = rw (e, write_regex)

pub not-nil : (xs : Bytes) (c : ℕ) (ys : Bytes) → xs ++ (c ∷ ys) ≢ []
not-nil [] c ys h = cc
not-nil (x ∷ xs) c ys h = cc

write_regex-Appends :
    (xs ys : Bytes)
    → NoZero ys
    → Appends (write_regex (xs ++ (0 ∷ (ys ++ (0 ∷ []))))) (xs ++ (0 ∷ (ys ++ (0 ∷ []))))
write_regex-Appends xs ys h =
    let split : split_last_zero (drop_last (xs ++ (0 ∷ (ys ++ (0 ∷ []))))) ≡ some (xs, ys) =
      rw (← append_assoc xs (0 ∷ ys) (0 ∷ []), drop_last-snoc) (split_last_zero-eq xs ys h) in
    rw (fun_ext (λ b. write_regex-step _ xs ys b (not-nil xs 0 (ys ++ (0 ∷ []))) split)) (
      subst (Appends (λ b. write_string xs b >>= write_string ys))
        (append_assoc xs (0 ∷ []) (ys ++ (0 ∷ [])))
        (Appends-then (xs ++ (0 ∷ [])) (ys ++ (0 ∷ [])) (write_string-Appends xs)
          (write_string-Appends ys)))

pub bytes32-word32 :
    (a b c d : ℕ)
    → IsByte a
    → IsByte b
    → IsByte c
    → IsByte d
    → bytes32 (word32 a b c d) ≡ a ∷ b ∷ c ∷ d ∷ []
bytes32-word32 a b c d ha hb hc hd =
    let e₀ : word32 a b c d % 256 ≡ a = omega arith in
    let e₁ : word32 a b c d / 2 ^ 8 % 256 ≡ b = omega arith in
    let e₂ : word32 a b c d / 2 ^ 16 % 256 ≡ c = omega arith in
    let e₃ : word32 a b c d / 2 ^ 24 % 256 ≡ d = omega arith in cc

write_timestamp-Appends :
    (a b c d e f g h : ℕ)
    → All IsByte (a ∷ b ∷ c ∷ d ∷ e ∷ f ∷ g ∷ h ∷ [])
    → Appends
        (write_timestamp (a ∷ b ∷ c ∷ d ∷ e ∷ f ∷ g ∷ h ∷ []))
        (a ∷ b ∷ c ∷ d ∷ e ∷ f ∷ g ∷ h ∷ [])
unfolding write_timestamp
write_timestamp-Appends a b c d e f g h (ha, (hb, (hc, (hd, (he, (hf, (hg, (hh, _)))))))) =
    let first = word32 a b c d in
    let second = word32 e f g h in
    subst (Appends (write_timestamp (a ∷ b ∷ c ∷ d ∷ e ∷ f ∷ g ∷ h ∷ [])))
      (ap (λ l. l ++ bytes32 second) (bytes32-word32 a b c d ha hb hc hd)
        ∙ ap (λ l. a ∷ b ∷ c ∷ d ∷ l) (bytes32-word32 e f g h he hf hg hh))
      (Appends-then (bytes32 first) (bytes32 second) (write_int32-Appends first)
        (write_int32-Appends second))

-- Each special value is written in its format.
pub write_special-Appends :
    (subt : ℕ) (p : Bytes)
    → IsSpecial subt p
    → Appends (write_special subt p) (special_bytes subt p)
unfolding write_special
write_special-Appends subt p (binary kind q t e small long) =
    let shorter : suc (length q) - 1 ≡ length q = omega arith in
    rw (t, e, shorter) (write_binary-Appends kind q long)
write_special-Appends subt p (objectid t e) =
    let twelve : (length p == 12) ≡ true = ground arith in rw (t, twelve) (write_bytes-Appends p)
write_special-Appends subt p (date a b c d t e ha hb hc hd) =
    rw (t, e) (write_int64-Appends (word32 a b c d * 1000))
write_special-Appends subt p (timestamp a b c d e f g h t same bytes) =
    rw (t, same) (write_timestamp-Appends a b c d e f g h (subst (All IsByte) same bytes))
write_special-Appends subt p (regex xs ys t e hx hy) = rw (t, e) (write_regex-Appends xs ys hy)
write_special-Appends subt p (code n q (inl t) e same small) = rw t (write_bytes-Appends p)
write_special-Appends subt p (code n q (inr t) e same small) = rw t (write_bytes-Appends p)
write_special-Appends subt p (bare (inl t) e) = rw (t, e) Appends-nothing
write_special-Appends subt p (bare (inr (inl t)) e) = rw (t, e) Appends-nothing
write_special-Appends subt p (bare (inr (inr t)) e) = rw (t, e) Appends-nothing
