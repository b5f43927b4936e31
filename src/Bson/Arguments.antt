-- ===== src/Bson/Arguments.antt =====
-- `encode_order` of cext/lua-bson.c against `encode`: arguments in the place of a table.
use levent.Prelude.{
  ℕ, ◌%◌, ◌≡◌, ◌⊎◌, inl, inr, refl, ap, subst, false, List, [], ◌∷◌, length, arith,
}
use levent.Prelude.Result.{
  Result, ok, raised, fault, moved_back, out_of_fuel, ◌>>=◌, invalid_key, not_a_string,
}
use levent.Lua.{
  Value, nil, boolean, integer, number, string, userdata, other, Entries, table, empty, entry,
  LuaLib,
}
use levent.Bson.Buffer.{Bson, bson_create, reserve_length, write_byte}
use levent.Bson.Encode.{
  element_key, argument_key, pack_elements, pack_body, pack_dict, append_one, pack_entries, encode,
  pack_arguments, encode_order,
}

-- The entries of a table as arguments: key, value, key, value.
abbrev pub arguments : Entries → List Value
arguments empty = []
arguments (entry k v es) = k ∷ v ∷ arguments es

length-arguments : (es : Entries) → length (arguments es) % 2 ≡ 0
length-arguments empty = refl
length-arguments (entry k v es) = omega (arith, length-arguments es)

-- The same answer; or each refuses a key, with an error of its own.
abbrev pub Agree : {A : Type 0} → Result A → Result A → Type 0
Agree r s = (r ≡ s) ⊎ ((r ≡ raised not_a_string) × (s ≡ raised invalid_key))

module _ {A B : Type 0} where
  Agree-after :
      (r : Result A) (f g : A → Result B)
      → ((a : A) → Agree (f a) (g a))
      → Agree (r >>= f) (r >>= g)
  Agree-after (ok a) f g h = h a
  Agree-after (raised e) f g h = inl refl
  Agree-after fault f g h = inl refl
  Agree-after moved_back f g h = inl refl
  Agree-after out_of_fuel f g h = inl refl

  Agree-bind :
      (r s : Result A) (f g : A → Result B)
      → Agree r s
      → ((a : A) → Agree (f a) (g a))
      → Agree (r >>= f) (s >>= g)
  Agree-bind r s f g (inl same) h =
      subst (λ t. Agree (r >>= f) (t >>= g)) same (Agree-after r f g h)
  Agree-bind r s f g (inr (refused, refused_too)) h =
      inr (ap (λ t. t >>= f) refused, ap (λ t. t >>= g) refused_too)

module _ (lua : LuaLib) where
  key-Agree : (k : Value) → Agree (argument_key lua k) (element_key lua false k)
  unfolding argument_key element_key
  key-Agree (integer k) = inl refl
  key-Agree (number k) = inl refl
  key-Agree (string k) = inl refl
  key-Agree nil = inr (refl, refl)
  key-Agree (boolean v) = inr (refl, refl)
  key-Agree (table es) = inr (refl, refl)
  key-Agree (userdata doc) = inr (refl, refl)
  key-Agree other = inr (refl, refl)

  pack_arguments-Agree :
      (es : Entries) (b : Bson)
      → Agree (pack_arguments lua (arguments es) b) (pack_entries lua es false 0 b)
  unfolding pack_arguments pack_entries
  pack_arguments-Agree empty b = inl refl
  pack_arguments-Agree (entry k v es) b =
      Agree-bind (argument_key lua k) (element_key lua false k) _ _ (key-Agree k)
        λ key. Agree-after (append_one lua v key 0 b) _ _ λ b. pack_arguments-Agree es b

  body-Agree :
      (loop loop' : Bson → Result Bson) (b : Bson)
      → ((c : Bson) → Agree (loop c) (loop' c))
      → Agree (pack_body lua loop b) (pack_body lua loop' b)
  unfolding pack_body pack_elements
  body-Agree loop loop' b h = Agree-after (reserve_length b) _ _ λ x.
      Agree-bind (loop x.1 >>= (λ c. write_byte 0 c)) (loop' x.1 >>= (λ c. write_byte 0 c)) _ _
        (Agree-bind (loop x.1) (loop' x.1) _ _ (h x.1) λ c. inl refl) λ c. inl refl

  -- Given the entries of a table as arguments, in the order of `lua_next`, `encode_order` gives the same bytes
  -- as `encode` does on the table, or raises the same error; except that it may say that an argument is no
  -- string where `encode` says that a key is invalid.
  pub encode_order_lem :
      (stale : ℕ → ℕ) (es : Entries)
      → Agree (encode_order lua stale (arguments es)) (encode lua stale (table es))
  unfolding encode_order encode pack_dict pack_body pack_elements
  encode_order_lem stale es = rw (length-arguments es) (
      Agree-bind (pack_body lua (pack_arguments lua (arguments es)) (bson_create stale))
        (pack_body lua (pack_entries lua es false 0) (bson_create stale)) _ _
        (body-Agree (pack_arguments lua (arguments es)) (pack_entries lua es false 0)
          (bson_create stale) (pack_arguments-Agree es))
        λ b. inl refl)
