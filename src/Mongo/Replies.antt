-- ===== src/Mongo/Replies.antt =====
-- Replies of a MongoDB server that cext/lua-mongo.c takes apart rightly, and one that it never
-- comes to the end of.
use levent.Prelude.{
  ℕ, zero, suc, ◌+◌, ◌-◌, ◌*◌, ◌/◌, ◌%◌, ◌^◌, ◌≤◌, ◌<◌, ◌≡◌, false, true, refl, sym, subst, ap,
  Option, none, some, List, [], ◌∷◌, ◌++◌, arith, Bytes, length, length-append, take, drop, All,
  ltb, leb, ◌==◌, ltb-false, if◌then◌else◌, ◌&&◌,
}
use levent.Prelude.Result.{ok, out_of_fuel}
use levent.Bson.Wire.{bytes32, word32-bytes32}
use levent.Bson.Scalars.{first_word}
use levent.Mongo.Wire.{message}
use levent.Mongo.Reply.{rawseti, less, fill, field, rest_size, into_table, op_reply, reply_length}
use levent.Mongo.Filling.{IsExact, joined, addresses}

-- The bytes of a reply.
abbrev pub reply_text : ℕ → ℕ → ℕ → ℕ → ℕ → ℕ → ℕ → ℕ → List Bytes → Bytes
reply_text request response opcode flags low high starting number docs =
    bytes32 request
    ++ (bytes32 response
        ++ (bytes32 opcode
            ++ (bytes32 flags
                ++ (bytes32 low
                    ++ (bytes32 high ++ (bytes32 starting ++ (bytes32 number ++ joined docs)))))))

-- No document, or the first.
abbrev pub first_of : ℕ → List Bytes → Option ℕ
first_of at [] = none
first_of at (doc ∷ docs) = some at

abbrev pub cursor_of : ℕ → ℕ → Option Bytes
cursor_of low high = if (low == 0) && (high == 0) then none else some (bytes32 low ++ bytes32 high)

-- A document takes five bytes at least.
pub length-joined : (docs : List Bytes) → All IsExact docs → 5 * length docs ≤ length (joined docs)
length-joined [] exact = omega arith
length-joined (doc ∷ docs) exact =
    let long = exact.0.0 in
    omega (arith, length-joined docs exact.1, length-append doc (joined docs))

pub first_of-eq :
    (at : ℕ) (docs : List Bytes) → (if length docs == 0 then none else some at) ≡ first_of at docs
first_of-eq at [] = refl
first_of-eq at (doc ∷ docs) = let more : (suc (length docs) == 0) ≡ false = ground arith in rw more

pub length-addresses : (at : ℕ) (docs : List Bytes) → length (addresses at docs) ≡ length docs
length-addresses at [] = refl
length-addresses at (doc ∷ docs) = ap suc (length-addresses (at + length doc) docs)

pub rest_size_lem : (n : ℕ) → n < 2 ^ 31 → rest_size (32 + n) ≡ some n
unfolding rest_size
rest_size_lem n h =
    let e : (32 + n - 32) % 2 ^ 32 ≡ n = omega arith in
    let positive : leb (2 ^ 31) n ≡ false = ground arith in rw (e, positive)

-- Each round of the loop takes at least a byte off the size, unless a document states the length 0.
fill_zero :
    (rounds at : ℕ) (doc : Bytes) (sz i : ℕ) (t : List ℕ)
    → first_word doc ≡ 0
    → 4 < sz
    → fill rounds at doc (some sz) i t ≡ out_of_fuel
unfolding fill less
fill_zero zero at doc sz i t h long = refl
fill_zero (suc rounds) at doc sz i t h long =
    let going : leb sz 4 ≡ false = ground arith in
    let whole : leb 0 sz ≡ true = ground arith in
    let same : sz - 0 ≡ sz = omega arith in
    rw (going, h, whole, same) (fill_zero rounds (at + 0) doc sz (suc i) (rawseti i at t) h long)

-- On a reply whose first document states the length 0 the loop over a table never ends: no number
-- of rounds is enough; where no failure is flagged, and the reply is longer than 36 and shorter than
-- 2^31 bytes.
pub op_reply-zero :
    (rounds base : ℕ) (reply : Bytes) (t : List ℕ)
    → 36 < length reply
    → length reply < 2 ^ 31
    → field 12 reply / 2 % 2 ≡ 0
    → field 32 reply ≡ 0
    → op_reply rounds base reply (some t) ≡ out_of_fuel
unfolding op_reply into_table
op_reply-zero rounds base reply t long small sound zero_length =
    let n = length reply - 32 in
    let header : ltb (length reply) 32 ≡ false = ltb-false _ _ (omega arith) in
    let size : length reply ≡ 32 + n = omega arith in
    let room : rest_size (length reply) ≡ some n =
      subst (λ k. rest_size k ≡ some n) (sym size) (rest_size_lem n (omega arith)) in
    rw (
      header,
      sound,
      room,
      fill_zero rounds (base + 32) (drop 32 reply) n 1 t zero_length (omega arith),
    )

-- The length in front of a message, read off its first four bytes, gives the number of the bytes
-- that are still to come; for a message smaller than 2^31.
pub reply_length_lem :
    (code id : ℕ) (body tail : Bytes)
    → length (message code id body tail) < 2 ^ 31
    → reply_length (take 4 (message code id body tail))
      ≡ ok (length (drop 4 (message code id body tail)))
unfolding reply_length first_word
reply_length_lem code id body tail small =
    let n = 16 + length body + length tail in
    let lengths = length-append body tail in
    let word = word32-bytes32 n (omega arith) in
    let positive : leb (2 ^ 31) n ≡ false = ground arith in
    let left : (n + 2 ^ 32 - 4) % 2 ^ 32 ≡ 12 + length (body ++ tail) = omega arith in
    let positive₂ : leb (2 ^ 31) (12 + length (body ++ tail)) ≡ false = ground arith in
    rw (word, positive, left, positive₂) (ap ok (omega arith))
