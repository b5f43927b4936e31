-- ===== src/Bson/RoundTrip.antt =====
-- What cext/lua-bson.c encodes it decodes to the same table.
use levent.Prelude.{
  ℕ, zero, suc, ◌+◌, ◌-◌, ◌%◌, ◌^◌, ◌≤◌, ◌<◌, ◌≡◌, refl, sym, ap, ◌∙◌, Bool, true, false, [], ◌∷◌,
  ◌++◌, append-nil, arith, Bytes, length, take, length-append, ltb, ◌==◌, ltb-false, if◌then◌else◌,
}
use levent.Prelude.Result.{Result, ok, ◌>>=◌}
use levent.Lua.{Value, Entries, integer, string, table, empty, entry, rawset, LuaLib}
use levent.Bson.Wire.{max_depth, bson_document, bson_array, word32-bytes32}
use levent.Bson.Appends.{safe_limit}
use levent.Bson.Scalars.{first_word}
use levent.Bson.Encode.{decimal, encode}
use levent.Bson.Format.{
  NoZero, is_text, string_bytes, absent, Plain, plain_boolean, plain_integer, plain_number,
  plain_text, plain_special, plain_dict, plain_array, PlainDict, dict_empty, dict_entry, PlainArray,
  array_end, array_entry, tag, value_bytes, elements, document, nesting_entries,
}
use levent.Bson.Keys.{is_sequence-dict, is_sequence-array}
use levent.Bson.Refines.{encode_lem}
use levent.Bson.Reader.{is_negative}
use levent.Bson.Decode.{CLib, unpack_value, element_key_of, unpack_dict, unpack_elements, decode}
use levent.Bson.Reads.{
  read_cstring-append, decimal-NoZero, Reads, unpack_boolean, unpack_number, unpack_integer,
  unpack_text, unpack_special,
}
use levent.Bson.Ordered.{
  append_entries, append_entries-empty, rawset-absent, absent-snoc, disjoint, disjoint-snoc,
  document-length, read_elements-document, append_entries-snoc, disjoint-head, disjoint-tail,
  absent-empty, disjoint-empty, integer_keys, take-whole,
}

module _ (c : CLib) where
  array_key : (k : ℕ) → 0 < k → k < 2 ^ 31 → element_key_of c true (decimal (k - 1)) ≡ integer k
  unfolding element_key_of
  array_key k pos h =
      let back : (k - 1 + 1) % 2 ^ 32 ≡ k = omega arith in
      let sign : is_negative k ≡ false = ground arith in
      rw (c.strtol-decimal (k - 1) (omega arith), back, sign)

  dict_key :
      (k : Bytes) (v : Value) (acc : Entries)
      → absent (string k) acc ≡ true
      → rawset (element_key_of c false k) v acc ≡ append_entries acc (entry (string k) v empty)
  unfolding element_key_of
  dict_key k v acc h = rawset-absent (string k) v acc h

  array_entry_key :
      (k : ℕ) (v : Value) (acc : Entries)
      → 0 < k
      → k < 2 ^ 31
      → absent (integer k) acc ≡ true
      → rawset (element_key_of c true (decimal (k - 1))) v acc
        ≡ append_entries acc (entry (integer k) v empty)
  array_entry_key k v acc pos small h =
      rw (array_key k pos small) (rawset-absent (integer k) v acc h)

  -- A document is read, given how its elements are.
  unpack_dict-document :
      (f : ℕ) (array : Bool) (xs t : Bytes) (es : Entries)
      → length xs + 5 < 2 ^ 31
      → unpack_elements c f array xs empty ≡ ok es
      → unpack_dict c (suc f) array (document xs ++ t) ≡ ok (es, t)
  unfolding unpack_dict
  unpack_dict-document f array xs t es h e = rw (read_elements-document xs t h, e)

  -- One element is read, and the loop goes on.
  unpack_elements-step :
      (f : ℕ) (array : Bool) (bt : ℕ) (key vs xs : Bytes) (v : Value) (acc : Entries)
      → NoZero key
      → Reads (unpack_dict c f) bt vs v
      → unpack_elements c (suc f) array (bt ∷ (key ++ (0 ∷ (vs ++ xs)))) acc
        ≡ unpack_elements c f array xs (rawset (element_key_of c array key) v acc)
  unfolding unpack_elements
  unpack_elements-step f array bt key vs xs v acc nz reads =
      rw (read_cstring-append key (vs ++ xs) nz, reads xs)

  unpack_string-text :
      (nested : Bool → Bytes → Result (Entries × Bytes)) (s : Bytes)
      → is_text s ≡ true
      → length s + 1 < 2 ^ 31
      → Reads nested (tag (string s)) (string_bytes s) (string s)
  unpack_string-text nested [] t h = unpack_text nested [] h
  unpack_string-text nested (a ∷ []) t h = unpack_text nested (a ∷ []) h
  unpack_string-text nested (a ∷ b ∷ s) t h =
      let plain : (a == 0) ≡ false = ground arith in rw plain (unpack_text nested (a ∷ b ∷ s) h)

  unpack_table :
      (nested : Bool → Bytes → Result (Entries × Bytes)) (array : Bool) (xs t : Bytes)
      (es : Entries)
      → nested array (xs ++ t) ≡ ok (es, t)
      → unpack_value nested (if array then bson_array else bson_document) (xs ++ t)
        ≡ ok (table es, t)
  unfolding unpack_value
  unpack_table nested true xs t es e = rw e
  unpack_table nested false xs t es e = rw e

  length-element :
      (key vs xs : Bytes)
      → length (key ++ (0 ∷ (vs ++ xs))) ≡ length key + 1 + length vs + length xs
  length-element key vs xs = omega (arith, length-append key (0 ∷ (vs ++ xs)), length-append vs xs)

  unpack_elements-nil :
      (f : ℕ) (array : Bool) (acc : Entries)
      → 0 < f
      → unpack_elements c f array [] acc ≡ ok (append_entries acc empty)
  unfolding unpack_elements
  unpack_elements-nil zero array acc h = absurd (omega arith)
  unpack_elements-nil (suc f) array acc h = ap ok (sym (append_entries-empty acc))

  -- A table's document, given how the loop reads its elements with the fuel that is left.
  unpack_dict-elements :
      (f : ℕ) (array : Bool) (es : Entries) (t : Bytes)
      → 0 < f
      → length (elements es) + 5 < 2 ^ 31
      → ((g : ℕ) → f ≡ suc g → unpack_elements c g array (elements es) empty ≡ ok es)
      → unpack_dict c f array (document (elements es) ++ t) ≡ ok (es, t)
  unpack_dict-elements zero array es t pos h loop = absurd (omega arith)
  unpack_dict-elements (suc f) array es t pos h loop =
      unpack_dict-document f array (elements es) t es h (loop f refl)

  mutual
    unfolding value_bytes append_entries

    unpack_value-Plain :
        {v : Value}
        → Plain v
        → (f : ℕ) → length (value_bytes v) < f
        → length (value_bytes v) < 2 ^ 31
        → Reads (unpack_dict c f) (tag v) (value_bytes v) v
    unpack_value-Plain (plain_boolean v) f fuel h = unpack_boolean (unpack_dict c f) v
    unpack_value-Plain (plain_integer i lt) f fuel h = unpack_integer (unpack_dict c f) i lt
    unpack_value-Plain (plain_number bits lt) f fuel h = unpack_number (unpack_dict c f) bits lt
    unpack_value-Plain (plain_text s t lt) f fuel h = unpack_string-text (unpack_dict c f) s t lt
    unpack_value-Plain (plain_special s subt p e k) f fuel h =
        rw e (unpack_special (unpack_dict c f) subt p k)
    unpack_value-Plain (plain_dict es ps) f fuel h = rw (is_sequence-dict ps) (λ t.
        unpack_table (unpack_dict c f) false (document (elements es)) t es (
          unpack_dict-elements f false es t (omega arith)
            (omega (arith, document-length (elements es)))
            (λ g e.
              unpack_dict-Plain ps g empty (omega (arith, document-length (elements es)))
                (omega (arith, document-length (elements es))) (disjoint-empty es))))
    unpack_value-Plain (plain_array n es pos ps) f fuel h = rw (is_sequence-array pos ps) (λ t.
        unpack_table (unpack_dict c f) true (document (elements es)) t es (
          unpack_dict-elements f true es t (omega arith)
            (omega (arith, document-length (elements es)))
            (λ g e.
              unpack_array-Plain ps g empty (omega (arith, document-length (elements es)))
                (omega (arith, document-length (elements es))) (λ j le. absent-empty (integer j)))))

    unpack_dict-Plain :
        {es : Entries}
        → PlainDict es
        → (f : ℕ) (acc : Entries) → length (elements es) < f
        → length (elements es) < 2 ^ 31
        → disjoint acc es ≡ true
        → unpack_elements c f false (elements es) acc ≡ ok (append_entries acc es)
    unpack_dict-Plain dict_empty f acc fuel h apart = unpack_elements-nil f false acc fuel
    unpack_dict-Plain (dict_entry k v es nz new pv ps) zero acc fuel h apart = absurd (omega arith)
    unpack_dict-Plain (dict_entry k v es nz new pv ps) (suc f) acc fuel h apart =
        let l = length-element k (value_bytes v) (elements es) in
        let next : Entries = append_entries acc (entry (string k) v empty) in
        unpack_elements-step f false (tag v) k (value_bytes v) (elements es) v acc nz
          (unpack_value-Plain pv f (omega arith) (omega arith))
        ∙ ap (λ r. unpack_elements c f false (elements es) r)
            (dict_key k v acc (disjoint-head (string k) v acc es apart))
        ∙ unpack_dict-Plain ps f next (omega arith) (omega arith)
            (disjoint-snoc k v acc ps new (disjoint-tail (string k) v acc es apart))
        ∙ ap ok (append_entries-snoc acc (string k) v es)

    unpack_array-Plain :
        {i n : ℕ} {es : Entries}
        → PlainArray i n es
        → (f : ℕ) (acc : Entries) → length (elements es) < f
        → length (elements es) < 2 ^ 31
        → ((j : ℕ) → i ≤ j → absent (integer j) acc ≡ true)
        → unpack_elements c f true (elements es) acc ≡ ok (append_entries acc es)
    unpack_array-Plain (array_end i n e) f acc fuel h apart = unpack_elements-nil f true acc fuel
    unpack_array-Plain (array_entry i n k v es e pos small pv ps) zero acc fuel h apart =
        absurd (omega arith)
    unpack_array-Plain (array_entry i n k v es e pos small pv ps) (suc f) acc fuel h apart =
        let l = length-element (decimal (k - 1)) (value_bytes v) (elements es) in
        let next : Entries = append_entries acc (entry (integer k) v empty) in
        unpack_elements-step f true (tag v) (decimal (k - 1)) (value_bytes v) (elements es) v acc
          (decimal-NoZero (k - 1)) (unpack_value-Plain pv f (omega arith) (omega arith))
        ∙ ap (λ r. unpack_elements c f true (elements es) r)
            (array_entry_key k v acc (omega arith) (omega arith) (apart k (omega arith)))
        ∙ unpack_array-Plain ps f next (omega arith) (omega arith) (λ j le.
          absent-snoc (integer j) (integer k) v acc (apart j (omega arith))
            (integer_keys k j (omega arith)))
        ∙ ap ok (append_entries-snoc acc (integer k) v es)

  pub first_word-document :
      (xs : Bytes) → length xs + 5 < 2 ^ 32 → first_word (document xs) ≡ length xs + 5
  unfolding first_word
  first_word-document xs h = word32-bytes32 (length xs + 5) h

  decode-document :
      (xs : Bytes) (es : Entries)
      → length xs + 5 < 2 ^ 31
      → unpack_dict c (length xs + 5 + 1) false (document xs ++ []) ≡ ok (es, [])
      → decode c (document xs) ≡ ok es
  unfolding decode
  decode-document xs es h e =
      let n = length xs + 5 in
      let word : first_word (document xs) ≡ n = first_word-document xs (omega arith) in
      let sized = document-length xs in
      let long : ltb (length (document xs)) 4 ≡ false =
        ltb-false (length (document xs)) 4 (omega arith) in
      let sign : is_negative n ≡ false = ground arith in
      let whole : ltb (length (document xs)) n ≡ false =
        ltb-false (length (document xs)) n (omega arith) in
      let all : take n (document xs) ≡ document xs ++ [] =
        take-whole n (document xs) (omega arith) ∙ sym (append-nil (document xs)) in
      rw (decode, long, word, sign, whole, all, e)

  -- The entries stand in the order of the document.
  pub decode-encoded :
      (lua : LuaLib) (stale : ℕ → ℕ) (es : Entries)
      → PlainDict es
      → nesting_entries es ≤ max_depth
      → length (document (elements es)) < safe_limit
      → (encode lua stale (table es) >>= decode c) ≡ ok es
  unfolding append_entries
  decode-encoded lua stale es ps shallow small = rw (encode_lem lua stale es ps shallow small) (
      decode-document (elements es) es (omega (arith, document-length (elements es))) (
        unpack_dict-elements (length (elements es) + 5 + 1) false es [] (omega arith)
          (omega (arith, document-length (elements es)))
          (λ g e.
            unpack_dict-Plain ps g empty (omega arith)
              (omega (arith, document-length (elements es))) (disjoint-empty es))))
