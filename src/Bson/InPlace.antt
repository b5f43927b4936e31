-- ===== src/Bson/InPlace.antt =====
-- `lreplace` of cext/lua-bson.c stays within the document that was indexed.
use levent.Prelude.{
  ℕ, zero, suc, ◌+◌, ◌/◌, ◌%◌, ◌≤◌, ◌≡◌, refl, ap, ◌&&◌, ◌||◌, Option, some, [], ◌∷◌, ◌++◌, arith,
  Bytes, length, length-append, length-take, length-drop, take, drop, leb, le→leb, ◌⊎◌, ◌==◌,
  Bool-cases, Option-cases, inl, inr,
}
use levent.Prelude.Result.{Error, Result, ok, raised, fault, moved_back, out_of_fuel}
use levent.Lua.{Value, integer, number, string}
use levent.Prelude.Result.{IsDefined}
use levent.Bson.Wire.{
  bson_real, bson_objectid, bson_boolean, bson_date, bson_int32, bson_timestamp, bson_int64,
}
use levent.Bson.Wire.{bytes32, bytes64}
use levent.Bson.Index.{
  integer_bytes, Index, get_id, make_index, object_bytes, replace_object, value_for, write_at,
  lreplace,
}
use levent.Bson.Indexed.{get_id-IsInside, value_for-length, make_index-AllInside}

take-take-append :
    (k n : ℕ) (doc rest : Bytes) → k ≤ n → n ≤ length doc → take k (take n doc ++ rest) ≡ take k doc
take-take-append zero n doc rest below fits = refl
take-take-append (suc k) zero doc rest below fits = absurd (omega arith)
take-take-append (suc k) (suc n) [] rest below fits = absurd (omega arith)
take-take-append (suc k) (suc n) (x ∷ doc) rest below fits =
    ap (λ r. x ∷ r) (take-take-append k n doc rest (omega arith) (omega arith))

-- The document after a replacement has the length and the header that it had; an error leaves it.
abbrev pub Replaced : Bytes → Result Bytes → Type 0
Replaced doc (ok doc') = (length doc' ≡ length doc) × (take 4 doc' ≡ take 4 doc)
Replaced doc (raised why) = Unit {0}
Replaced doc fault = ⊥
Replaced doc moved_back = ⊥
Replaced doc out_of_fuel = ⊥

write_at-Replaced :
    (offset : ℕ) (bytes doc : Bytes)
    → 4 ≤ offset
    → offset + length bytes ≤ length doc
    → Replaced doc (write_at offset bytes doc)
unfolding write_at
write_at-Replaced offset bytes doc behind fits =
    let n = offset + length bytes in
    let back = length-append bytes (drop n doc) in
    let all = length-append (take offset doc) (bytes ++ drop n doc) in
    let front = length-take offset doc in
    let rest = length-drop n doc in
    rw (le→leb n (length doc) fits)
      (omega arith, take-take-append 4 offset doc (bytes ++ drop n doc) behind (omega arith))

object_bytes-IsDefined : (type : ℕ) (text : Bytes) → IsDefined (object_bytes type text)
unfolding object_bytes
object_bytes-IsDefined type [] = tt
object_bytes-IsDefined type (c ∷ []) = tt
object_bytes-IsDefined type (c ∷ subtype ∷ payload) =
    elim (Bool-cases ((c == 0) && (subtype == type) && leb 4 (length payload))) [
      | inr e ↦ rw e tt
      | inl e ↦ elim (Bool-cases (type == bson_objectid)) [
        | inl o ↦ elim (Bool-cases (length payload == 12)) [
          | inl n ↦ rw (e, o, n) tt
          | inr n ↦ rw (e, o, n) tt
        ]
        | inr o ↦ elim (Bool-cases (type == bson_date)) [
          | inl d ↦ elim (Bool-cases (length payload == 4)) [
            | inl n ↦ rw (e, o, d, n) tt
            | inr n ↦ rw (e, o, d, n) tt
          ]
          | inr d ↦ elim (Bool-cases (length payload == 8)) [
            | inl n ↦ rw (e, o, d, n) tt
            | inr n ↦ rw (e, o, d, n) tt
          ]
        ]
      ]
    ]

replace_object-IsDefined : (type : ℕ) (v : Value) → IsDefined (replace_object type v)
unfolding replace_object
replace_object-IsDefined type (string text) = object_bytes-IsDefined type text
replace_object-IsDefined type (integer i) = tt
replace_object-IsDefined type (number d) = tt
replace_object-IsDefined type _ = tt

integer_bytes-IsDefined : (f : ℕ → Bytes) (v : Value) → IsDefined (integer_bytes f v)
unfolding integer_bytes
integer_bytes-IsDefined f (integer i) = tt
integer_bytes-IsDefined f _ = tt

-- A value for a field never makes the code leave its bounds.
value_for-IsDefined :
    (check_number : Value → Option ℕ) (type : ℕ) (v : Value)
    → IsDefined (value_for check_number type v)
unfolding value_for
value_for-IsDefined check_number type v = elim (Bool-cases (type == bson_real)) [
  | inl e0 ↦ elim (Option-cases (check_number v)) [
    | inl e ↦ rw (e0, e) tt
    | inr (d, e) ↦ rw (e0, e) tt
  ]
  | inr e0 ↦ elim (Bool-cases (type == bson_boolean)) [
    | inl e1 ↦ rw (e0, e1) (tt)
    | inr e1 ↦
        elim (Bool-cases
          ((type == bson_objectid) || (type == bson_date) || (type == bson_timestamp))) [
            | inl e2 ↦ rw (e0, e1, e2) (replace_object-IsDefined type v)
            | inr e2 ↦ elim (Bool-cases (type == bson_int32)) [
              | inl e3 ↦ rw (e0, e1, e2, e3) (integer_bytes-IsDefined (λ i. bytes32 i) v)
              | inr e3 ↦ elim (Bool-cases (type == bson_int64)) [
                | inl e4 ↦ rw (e0, e1, e2, e3, e4) (integer_bytes-IsDefined (λ i. bytes64 i) v)
                | inr e4 ↦ rw (e0, e1, e2, e3, e4) tt
              ]
            ]
          ]
  ]
]

IsDefined-cases :
    {A : Type 0} (r : Result A)
    → IsDefined r
    → ((a : A) × (r ≡ ok a)) ⊎ ((why : Error) × (r ≡ raised why))
IsDefined-cases (ok a) h = inl (a, refl)
IsDefined-cases (raised why) h = inr (why, refl)
IsDefined-cases fault h = absurd h
IsDefined-cases moved_back h = absurd h
IsDefined-cases out_of_fuel h = absurd h

-- A replacement through the index that was made of the same document, where no negative length in it moves the
-- reader backwards, writes within the document, and leaves its size and the length in front as they were; or it
-- raises an error, and writes nothing.
pub lreplace-Replaced :
    (check_number : Value → Option ℕ) (doc key : Bytes) (v : Value) {index : Index}
    → make_index doc ≡ ok index
    → Replaced doc (lreplace check_number (some index) doc key v)
unfolding lreplace
lreplace-Replaced check_number doc key v {index} made = elim (Option-cases (get_id key index)) [
  | inl missing ↦ rw (missing, lreplace) tt
  | inr (id, found) ↦
      let (end, within, all) = make_index-AllInside doc made in
      let (sized, behind, fits) = get_id-IsInside end key index id all found in
      elim (IsDefined-cases _ (value_for-IsDefined check_number (id % 32) v)) [
        | inl (bytes, e) ↦
            let exact = value_for-length check_number (id % 32) v sized e in
            rw (found, e, lreplace) (write_at-Replaced (id / 32) bytes doc behind (omega arith))
        | inr (why, e) ↦ rw (found, e, lreplace) tt
      ]
]
