-- ===== src/Mongo/Sends.antt =====
-- The part that the functions of cext/lua-mongo.c share: lengths, documents, and the frame around a
-- body.
use levent.Prelude.{
  ℕ, ◌+◌, ◌<◌, ◌≡◌, refl, sym, subst, ap, ◌∙◌, Option, none, some, List, [], ◌∷◌, ◌++◌, arith,
  Bytes, length, length-append, length-take, take, All, lt→ltb, le→leb,
}
use levent.Prelude.Result.{Result, ok, raised, ◌>>=◌}
use levent.Bson.Wire.{bytes32}
use levent.Bson.Buffer.{Bson, int_limit}
use levent.Bson.Scalars.{first_word}
use levent.Bson.Appends
use levent.Bson.Appends.{IsValid, safe_limit, Appends, Appends-then}
use levent.Bson.Frames.{write_length_lem, reserve_length_lem}
use levent.Mongo.Buffer.{
  buffer_create, write_int32, write_bytes, write_string, write_int32-eq, write_bytes-eq,
  write_string-eq, reserve_length-eq, write_length-eq,
}
use levent.Mongo.Messages.{
  get_length, add_document, add_documents, add_int, add_lengths, packet, write_header, sum_lengths,
  given,
}
use levent.Mongo.Wire.{IsReadable, texts, cstring, lacks}

pub write_int32-Appends : (v : ℕ) → Appends (write_int32 v) (bytes32 v)
write_int32-Appends v = rw (write_int32-eq v) (Appends.write_int32-Appends v)

pub write_bytes-Appends : (xs : Bytes) → Appends (write_bytes xs) xs
write_bytes-Appends xs = rw (write_bytes-eq xs) (Appends.write_bytes-Appends xs)

pub write_string-Appends : (key : Bytes) → Appends (write_string key) (cstring key)
write_string-Appends key = rw (write_string-eq key) (Appends.write_string-Appends key)

buffer_create-IsValid : (stale : ℕ → ℕ) → IsValid (buffer_create stale)
unfolding buffer_create
buffer_create-IsValid stale = record {
  sized = refl;
  fits = omega arith;
  positive = omega arith;
  bounded = omega arith;
}

pub add_documents_lem :
    (docs : List Bytes)
    → All IsReadable docs
    → length (texts docs) < int_limit
    → add_documents docs ≡ ok (texts docs)
unfolding add_documents add_document get_length
add_documents_lem [] readable small = refl
add_documents_lem (doc ∷ docs) readable small =
    let n = first_word doc in
    let front = length-take n doc in
    let lengths = length-append (take n doc) (texts docs) in
    let (long, whole) = readable.0 in
    rw (
      le→leb 4 (length doc) long,
      lt→ltb n int_limit (omega arith),
      le→leb n (length doc) whole,
      add_documents_lem docs readable.1 (omega arith),
    )

pub add_lengths_lem :
    (total : ℕ) (docs : List Bytes)
    → All IsReadable docs
    → total + length (texts docs) < int_limit
    → add_lengths total docs ≡ ok (total + length (texts docs))
unfolding add_lengths add_int get_length
add_lengths_lem total [] readable small = ap ok (omega arith)
add_lengths_lem total (doc ∷ docs) readable small =
    let n = first_word doc in
    let front = length-take n doc in
    let lengths = length-append (take n doc) (texts docs) in
    let (long, whole) = readable.0 in
    rw
      (
        le→leb 4 (length doc) long,
        lt→ltb n int_limit (omega arith),
        lt→ltb (total + n) int_limit (omega arith),
        add_lengths_lem (total + n) docs readable.1 (omega arith),
      )
      (ap ok (omega arith))

-- `document_length` stops at the first value that is no document, or sums up.
pub sum_lengths_lem :
    (total : ℕ) (docs : List (Option Bytes))
    → All IsReadable (given docs)
    → total + length (texts (given docs)) < int_limit
    → sum_lengths total docs ≡ elim (lacks docs) [
      | none ↦ ok (total + length (texts (given docs)))
      | some why ↦ raised why
    ]
unfolding sum_lengths add_int get_length given
sum_lengths_lem total [] readable small = ap ok (omega arith)
sum_lengths_lem total (none ∷ docs) readable small = refl
sum_lengths_lem total (some doc ∷ docs) readable small =
    let n = first_word doc in
    let front = length-take n doc in
    let lengths = length-append (take n doc) (texts (given docs)) in
    let (long, whole) = readable.0 in
    rw
      (
        le→leb 4 (length doc) long,
        lt→ltb n int_limit (omega arith),
        lt→ltb (total + n) int_limit (omega arith),
        sum_lengths_lem (total + n) docs readable.1 (omega arith),
      )
      (elim (lacks docs)
        as (λ x.
          elim x as (λ y. Result ℕ) [
            | none ↦ ok (total + n + length (texts (given docs)))
            | some why ↦ raised why
          ]
          ≡ elim x as (λ y. Result ℕ) [
            | none ↦ ok (total + length (take n doc ++ texts (given docs)))
            | some why ↦ raised why
          ]) [ none ↦ ap ok (omega arith) | some why ↦ refl ])

-- A body, the length in front of it, and the documents.
pub packet_lem :
    {body : Bson → Result Bson} (stale : ℕ → ℕ) (total_of : ℕ → Result ℕ) (docs : List Bytes)
    (xs : Bytes) (n : ℕ)
    → Appends body xs
    → 4 + length xs < safe_limit
    → total_of (4 + length xs) ≡ ok n
    → add_documents docs ≡ ok (texts docs)
    → packet stale body total_of docs ≡ ok (bytes32 n ++ (xs ++ texts docs))
unfolding packet
packet_lem {body} stale total_of docs xs n h safe total tail =
    let b = buffer_create stale in
    let v = buffer_create-IsValid stale in
    let (b₁, a₀, a₁, a₂, a₃, e₁, v₁, f₁) = reserve_length_lem b v (omega arith) in
    let size₁ : b₁.size ≡ 4 = omega (arith, v₁.sized, ap length f₁) in
    let (b₂, e₂, v₂, f₂) = h b₁ v₁ (omega arith) in
    let size₂ : b₂.size ≡ 4 + length xs =
      omega (arith, v₂.sized, v₁.sized, ap length f₂, length-append b₁.filled xs) in
    let (b₃, e₃, v₃, f₃) =
      write_length_lem b₂ n 0 [] a₀ a₁ a₂ a₃ xs v₂ (f₂ ∙ ap (λ r. r ++ xs) f₁) refl in
    let total₂ : total_of b₂.size ≡ ok n = subst (λ k. total_of k ≡ ok n) (sym size₂) total in
    rw (reserve_length-eq b, e₁, e₂, total₂, write_length-eq n 0 b₂, e₃, tail, f₃)

write_header-Appends :
    (id code : ℕ) → Appends (write_header id code) (bytes32 id ++ (bytes32 0 ++ bytes32 code))
unfolding write_header
write_header-Appends id code =
    Appends-then _ _ (write_int32-Appends id)
      (Appends-then _ _ (write_int32-Appends 0) (write_int32-Appends code))

-- A body behind the header.
pub headed :
    {body : Bson → Result Bson} (id code : ℕ) (xs : Bytes)
    → Appends body xs
    → Appends
        (λ b. write_header id code b >>= body)
        (bytes32 id ++ (bytes32 0 ++ (bytes32 code ++ xs)))
headed id code xs h = Appends-then _ xs (write_header-Appends id code) h
