-- ===== src/Bson/Indexed.antt =====
-- The index that `lmakeindex` of cext/lua-bson.c makes points into the document.
use levent.Prelude.{
  ℕ, zero, suc, ◌+◌, ◌-◌, ◌*◌, ◌/◌, ◌%◌, ◌^◌, ◌≤◌, ◌<◌, ◌≡◌, refl, sym, ◌∙◌, subst, true, ◌||◌,
  Option, some, [], ◌∷◌, arith, Bytes, bytes_eq, length, length-take, take, drop, All, ltb, leb,
  ◌⊎◌, ◌==◌, Bool-cases, Option-cases, inl, inr,
}
use levent.Prelude.Result.{Result, ok, fault, moved_back, >>=-eq-ok, ok-injective}
use levent.Lua.{Value, integer, number, string}
use levent.Bson.Wire.{
  bson_real, bson_objectid, bson_boolean, bson_date, bson_int32, bson_timestamp, bson_int64,
}
use levent.Bson.Scalars.{first_word}
use levent.Bson.Reader.{read_bytes, is_negative, read_cstring}
use levent.Bson.Wire.{
  bson_binary, bson_regex, bson_dbpointer, bson_jscode, bson_symbol, bson_string, bson_codews,
  bson_array, bson_document, bson_minkey, bson_maxkey, bson_null,
}
use levent.Bson.Reader.{read_int32}
use levent.Bson.Within.{
  Within, Within-bind, Within-if, read_int32-Within, read_bytes-Within, read_cstring-Within,
}
use levent.Bson.Index.{
  integer_bytes, move_by, skip_sized, Index, set_id, get_id, field_size, skip_field, make_id,
  index_elements, make_index, object_bytes, replace_object, value_for,
}

-- A field of the type and at the offset of an id lies behind the length and in front of the byte at
-- `end`.
abbrev pub IsInside : ℕ → ℕ → Type 0
IsInside end id =
    (0 < field_size (id % 32)) × (4 ≤ id / 32) × (id / 32 + field_size (id % 32) ≤ end)

abbrev pub AllInside : ℕ → Index → Type 0
AllInside end = All (λ (key, id). IsInside end id)

pub set_id-AllInside :
    (end id : ℕ) (key : Bytes) (index : Index)
    → IsInside end id
    → AllInside end index
    → AllInside end (set_id key id index)
unfolding set_id
set_id-AllInside end id key [] new old = (new, tt)
set_id-AllInside end id key ((k, i) ∷ index) new (first, old) = elim (Bool-cases (bytes_eq k key)) [
  | inl e ↦ rw e (new, old)
  | inr e ↦ rw e (first, set_id-AllInside end id key index new old)
]

pub get_id-IsInside :
    (end : ℕ) (key : Bytes) (index : Index) (id : ℕ)
    → AllInside end index
    → get_id key index ≡ some id
    → IsInside end id
unfolding get_id
get_id-IsInside end key [] id all found = cc
get_id-IsInside end key ((k, i) ∷ index) id (first, rest) found =
    elim (Bool-cases (bytes_eq k key)) [
      | inl e ↦
          let same : get_id key ((k, i) ∷ index) ≡ some i = rw (e, get_id) refl in
          let i_id : i ≡ id = cc in subst (IsInside end) i_id first
      | inr e ↦
          let same : get_id key ((k, i) ∷ index) ≡ get_id key index = rw (e, get_id) refl in
          get_id-IsInside end key index id rest (sym same ∙ found)
    ]

-- The types that have a size of their own.
pub fixed_cases :
    (type : ℕ)
    → 0 < field_size type
    → (type ≡ bson_real)
      ⊎ ((type ≡ bson_objectid)
          ⊎ ((type ≡ bson_boolean)
              ⊎ ((type ≡ bson_date)
                  ⊎ ((type ≡ bson_int32) ⊎ ((type ≡ bson_timestamp) ⊎ (type ≡ bson_int64))))))
unfolding field_size
fixed_cases type h = ground arith

pub object_bytes-length :
    (type : ℕ) (text : Bytes) {bytes : Bytes}
    → (type ≡ bson_objectid) ⊎ ((type ≡ bson_date) ⊎ (type ≡ bson_timestamp))
    → object_bytes type text ≡ ok bytes
    → length bytes ≡ field_size type
unfolding object_bytes field_size
object_bytes-length type [] kind h = cc
object_bytes-length type (c ∷ []) kind h = cc
object_bytes-length type (c ∷ subtype ∷ payload) kind h = ground arith

pub replace_object-length :
    (type : ℕ) (v : Value) {bytes : Bytes}
    → (type ≡ bson_objectid) ⊎ ((type ≡ bson_date) ⊎ (type ≡ bson_timestamp))
    → replace_object type v ≡ ok bytes
    → length bytes ≡ field_size type
unfolding replace_object
replace_object-length type (string text) kind h = object_bytes-length type text kind h
replace_object-length type (integer i) kind h = cc
replace_object-length type (number d) kind h = cc
replace_object-length type _ kind h = cc

-- The bytes of a new value are as many as the field has.
pub value_for-length :
    (check_number : Value → Option ℕ) (type : ℕ) (v : Value) {bytes : Bytes}
    → 0 < field_size type
    → value_for check_number type v ≡ ok bytes
    → length bytes ≡ field_size type
unfolding value_for field_size integer_bytes
value_for-length check_number type v fixed h = elim (fixed_cases type fixed) [
  | inl e ↦ ground (arith, Option-cases (check_number v))
  | inr (inl e) ↦ ground (arith, replace_object-length type v)
  | inr (inr (inl e)) ↦ ground arith
  | inr (inr (inr (inl e))) ↦ ground (arith, replace_object-length type v)
  | inr (inr (inr (inr (inl e)))) ↦ ground arith
  | inr (inr (inr (inr (inr (inl e))))) ↦ ground (arith, replace_object-length type v)
  | inr (inr (inr (inr (inr (inr e))))) ↦ ground arith
]

move_by-Within : (n up down : ℕ) (t : Bytes) → length t ≤ n → Within n (move_by up down t)
unfolding move_by
move_by-Within n up down t h =
    Within-if n (ltb up down) _ _ (Within-if n (ltb (up + 2 ^ 31) down) fault moved_back tt tt)
      (Within-if n (leb (2 ^ 31) (up - down)) _ _ tt (read_bytes-Within n t h (up - down)))

pub skip_sized-Within :
    (n more less : ℕ) (t : Bytes) → length t ≤ n → Within n (skip_sized more less t)
unfolding skip_sized
skip_sized-Within n more less t h =
    Within-bind n (read_int32 t) _ (read_int32-Within n t h)
      λ sz u hu. move_by-Within n (sz + more) _ u hu

pub skip_field-Within : (n bt : ℕ) (t : Bytes) → length t ≤ n → Within n (skip_field bt t)
unfolding skip_field
skip_field-Within n bt t h =
    elim (Bool-cases ((bt == bson_jscode) || (bt == bson_symbol) || (bt == bson_string))) [
      | inl e0 ↦ rw (e0) (skip_sized-Within n 0 0 t h)
      | inr e0 ↦
          elim (Bool-cases ((bt == bson_codews) || (bt == bson_array) || (bt == bson_document))) [
            | inl e1 ↦ rw (e0, e1) (skip_sized-Within n 0 4 t h)
            | inr e1 ↦ elim (Bool-cases (bt == bson_binary)) [
              | inl e2 ↦ rw (e0, e1, e2) (skip_sized-Within n 1 0 t h)
              | inr e2 ↦
                  elim (Bool-cases
                    ((bt == bson_minkey) || (bt == bson_maxkey) || (bt == bson_null))) [
                      | inl e3 ↦ rw (e0, e1, e2, e3) (h)
                      | inr e3 ↦ elim (Bool-cases (bt == bson_regex)) [
                        | inl e4 ↦
                            rw (e0, e1, e2, e3, e4)
                              (Within-bind n (read_cstring t) (λ (r, u). read_cstring u)
                                (read_cstring-Within n t (omega arith))
                                (λ r1 u hu. read_cstring-Within n u (omega arith)))
                        | inr e4 ↦ elim (Bool-cases (bt == bson_dbpointer)) [
                          | inl e5 ↦ rw (e0, e1, e2, e3, e4, e5) (skip_sized-Within n 12 0 t h)
                          | inr e5 ↦ rw (e0, e1, e2, e3, e4, e5) tt
                        ]
                      ]
                    ]
            ]
          ]
    ]

-- What `Within` says of a read that gives something.
pub Within-ok :
    {A : Type 0} (n : ℕ) (r : Result (A × Bytes)) {a : A} {u : Bytes}
    → Within n r
    → r ≡ ok (a, u)
    → length u ≤ n
Within-ok n r w e = subst (Within n) e w

pub field_size-small : (bt : ℕ) → 0 < field_size bt → bt < 32
field_size-small bt h = ground (arith, fixed_cases bt h)

-- A field of its own size that is read lies in front of the end.
pub new-IsInside :
    (end bt : ℕ) (u : Bytes) {id : ℕ} {v w : Bytes}
    → bt < 32
    → 0 < field_size bt
    → length u + 4 ≤ end
    → make_id bt (end - length u) ≡ ok id
    → read_bytes (field_size bt) u ≡ ok (v, w)
    → IsInside end id
unfolding make_id read_bytes
new-IsInside end bt u {id} small fixed room made got =
    let offset = end - length u in
    let fits : leb (field_size bt) (length u) ≡ true = ground arith in
    let shift : bt + offset * 32 ≡ id = ground arith in
    let low : id % 32 ≡ bt = omega arith in
    let high : id / 32 ≡ offset = omega arith in
    subst (λ b. (0 < field_size b) × (4 ≤ id / 32) × (id / 32 + field_size b ≤ end)) (sym low)
      (fixed, omega arith, ground arith)

pub index_elements-AllInside :
    (f end : ℕ) (t : Bytes) (index : Index) {index' : Index}
    → length t + 4 ≤ end
    → AllInside end index
    → index_elements f end t index ≡ ok index'
    → AllInside end index'
unfolding index_elements
index_elements-AllInside zero end t index room all h = cc
index_elements-AllInside (suc f) end [] index room all h =
    subst (AllInside end) (ok-injective h) all
index_elements-AllInside (suc f) end (bt ∷ t) index room all h =
    let ((key, u), e, h₁) = >>=-eq-ok (read_cstring t) _ h in
    let shorter =
      Within-ok (length t) (read_cstring t) (read_cstring-Within (length t) t (omega arith)) e in
    elim (Bool-cases (field_size bt == 0)) [
      | inl unsized ↦
          let ((v, w), e', h₂) = >>=-eq-ok (skip_field bt u) _ (rw unsized at h₁) in
          let less =
            Within-ok (length u) (skip_field bt u) (skip_field-Within (length u) bt u (omega arith))
              e' in
          index_elements-AllInside f end w index (omega arith) all h₂
      | inr fixed ↦
          let (id, made, h₂) = >>=-eq-ok (make_id bt (end - length u)) _ (rw fixed at h₁) in
          let ((v, w), got, h₃) = >>=-eq-ok (read_bytes (field_size bt) u) _ h₂ in
          let less =
            Within-ok (length u) (read_bytes (field_size bt) u)
              (read_bytes-Within (length u) u (omega arith) (field_size bt)) got in
          index_elements-AllInside f end w (set_id key id index) (omega arith)
            (set_id-AllInside end id key index
              (new-IsInside end bt u (field_size-small bt (ground arith)) (ground arith)
                (omega arith) made got)
              all)
            h₃
    ]

pub make_index-AllInside :
    (doc : Bytes) {index : Index}
    → make_index doc ≡ ok index
    → (end : ℕ) × (end ≤ length doc) × AllInside end index
unfolding make_index
make_index-AllInside doc h =
    let len = first_word doc in
    elim (Bool-cases (ltb (length doc) 4)) [
      | inl tiny ↦ (let h₁ = rw tiny at h in absurd (ground arith))
      | inr big ↦ elim (Bool-cases (is_negative len || ltb len 5)) [
        | inl bad ↦ (let h₁ = rw (big, bad) at h in absurd (ground arith))
        | inr good ↦ elim (Bool-cases (ltb (length doc) len)) [
          | inl over ↦ (let h₁ = rw (big, good, over) at h in absurd (ground arith))
          | inr fits ↦
              let elements = take (len - 5) (drop 4 doc) in
              let size = length-take (len - 5) (drop 4 doc) in
              (
                len - 1,
                ground arith,
                index_elements-AllInside (suc len) (len - 1) elements [] (ground arith) tt
                    (rw (big, good, fits) at h),
              )
        ]
      ]
    ]
