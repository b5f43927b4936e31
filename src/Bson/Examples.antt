-- ===== src/Bson/Examples.antt =====
-- The theorems on cext/lua-bson.c at concrete tables, with a border and a number reader that stand
-- for those of Lua and of the C library.
use levent.Prelude.{◌≡◌, refl, ◌≢◌, [], ◌∷◌, none, some, arith, Bytes, All, IsByte}
use levent.Prelude.Result.{ok, out_of_fuel, ◌>>=◌}
use levent.Lua.{entry, string, integer, string, table, empty, entry}
use levent.Bson.Scalars.{first_word}
use levent.Bson.Encode.{encode, encode_order}
use levent.Bson.Format.{document, elements}
use levent.Bson.Refines.{encode_lem}
use levent.Bson.Decode.{unpack_code, object_after, read_object, decode}
use levent.Bson.Kept.{made-decode}
use levent.Bson.Reader.{read_int32, read_cstring, read_bytes}
use levent.Bson.Index.{Index, make_index, index_elements, field_size, make_id, set_id, lreplace}
use levent.Bson.InPlace.{Replaced, lreplace-Replaced}
use levent.Bson.Values.{ldate, ltype, new_objectid}
use levent.Bson.Made.{made, meaning, make_objectid, make_date, ltype-made, new_objectid-distinct}
use levent.Bson.Total.{decode-ne-out_of_fuel}
use levent.Bson.Sample.{lua, c_lib, sample, sample_plain, stale, sample_shallow, sample_small}
use levent.Bson.Arguments.{arguments, Agree, encode_order_lem}

encode_lem_example : encode lua stale (table sample) ≡ ok (document (elements sample))
encode_lem_example = encode_lem lua stale sample sample_plain sample_shallow sample_small

decode-ne-out_of_fuel_example : decode c_lib (9 ∷ 0 ∷ 0 ∷ 0 ∷ 3 ∷ 1 ∷ []) ≢ out_of_fuel
decode-ne-out_of_fuel_example = decode-ne-out_of_fuel c_lib (9 ∷ 0 ∷ 0 ∷ 0 ∷ 3 ∷ 1 ∷ [])

abbrev an_id : Bytes
an_id = 0 ∷ 1 ∷ 16 ∷ 171 ∷ 255 ∷ 5 ∷ 6 ∷ 7 ∷ 8 ∷ 9 ∷ 10 ∷ 11 ∷ []

ltype-made_example :
    (made (make_objectid an_id) >>= λ s. ltype (string s)) ≡ ok (meaning (make_objectid an_id))
ltype-made_example = ltype-made (make_objectid an_id) (refl, an_id_bytes)
  where
    an_id_bytes : All IsByte an_id
    an_id_bytes = (
      omega arith,
      (
        omega arith,
        (
          omega arith,
          (
            omega arith,
            (
              omega arith,
              (
                omega arith,
                (
                  omega arith,
                  (omega arith, (omega arith, (omega arith, (omega arith, (omega arith, tt))))),
                ),
              ),
            ),
          ),
        ),
      ),
    )

new_objectid-distinct_example :
    (new_objectid 1700000000 (1 ∷ 2 ∷ 3 ∷ 4 ∷ 5 ∷ []) 4294967295).0
    ≢ (new_objectid 1700000000 (1 ∷ 2 ∷ 3 ∷ 4 ∷ 5 ∷ []) 2).0
new_objectid-distinct_example =
    new_objectid-distinct 1700000000 (1 ∷ 2 ∷ 3 ∷ 4 ∷ 5 ∷ []) 4294967295 3 (omega arith)
      (omega arith)

abbrev date_key : Bytes
date_key = b'd' ∷ []

abbrev a_date : Bytes
a_date = 0 ∷ 9 ∷ 1 ∷ 2 ∷ 3 ∷ 4 ∷ []

made-decode_example :
    (encode lua stale (table (entry (string date_key) (string a_date) empty)) >>= decode c_lib)
    ≡ ok (entry (string date_key) (string a_date) empty)
unfolding elements made ldate
made-decode_example =
    made-decode c_lib lua stale date_key a_date (make_date 67305985) (refl, tt) tt refl
      (omega arith)

-- { a = 7 }
abbrev seven : Bytes
seven = 12 ∷ 0 ∷ 0 ∷ 0 ∷ 16 ∷ b'a' ∷ 0 ∷ 7 ∷ 0 ∷ 0 ∷ 0 ∷ 0 ∷ []

abbrev seven_index : Index
seven_index = (b'a' ∷ [], 240) ∷ []

seven_indexed : make_index seven ≡ ok seven_index
unfolding make_index index_elements first_word read_cstring field_size make_id read_bytes set_id
seven_indexed = refl

lreplace-Replaced_example :
    Replaced seven (lreplace (λ v. none) (some seven_index) seven (b'a' ∷ []) (integer 258))
lreplace-Replaced_example =
    lreplace-Replaced (λ v. none) seven (b'a' ∷ []) (integer 258) seven_indexed

-- The same entries as arguments.
encode_order_lem_example :
    Agree (encode_order lua stale (arguments sample)) (encode lua stale (table sample))
encode_order_lem_example = encode_order_lem lua stale sample

-- A JavaScript code whose length is -1 ends in front of the last byte of that length, which is read again as
-- the type of the next element.
short_code_result :
    unpack_code 13 (255 ∷ 255 ∷ 255 ∷ 255 ∷ 0 ∷ [])
    ≡ ok (string (0 ∷ 13 ∷ 255 ∷ 255 ∷ 255 ∷ []), 255 ∷ 0 ∷ [])
unfolding unpack_code object_after read_object read_int32 read_bytes
short_code_result = refl
