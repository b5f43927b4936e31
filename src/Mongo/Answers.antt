-- ===== src/Mongo/Answers.antt =====
-- What cext/lua-mongo.c answers to a reply whose documents state their own lengths, on every branch.
use levent.Prelude.{
  ℕ, ◌+◌, ◌-◌, ◌/◌, ◌%◌, ◌^◌, ◌<◌, ◌≡◌, ◌≢◌, true, refl, Option, some, List, arith, Bytes, length,
  All, ◌==◌, ==_refl,
}
use levent.Prelude.Result.{ok}
use levent.Bson.Wire.{word32-bytes32}
use levent.Bson.Scalars.{first_word}
use levent.Bson.Decode.{sign_extend}
use levent.Mongo.Reply.{field, op_reply, success}
use levent.Mongo.Filling.{IsExact, joined, addresses}
use levent.Mongo.Replies.{reply_text, first_of, first_of-eq, cursor_of, length-joined}
use levent.Mongo.Branches.{answer_to, answer_lem}

-- For a reply whose documents state their own lengths, on every branch: a failed query gives the error
-- document; with a result table the addresses of the documents are filled in, and what the table held behind
-- them is removed if there are as many as the reply states, or else kept and the answer is a mismatch; without
-- a table the stated number is not compared, and two documents or more are an error. The integers have 32
-- bits, the stated number is not 2^31 - 1, the documents take less than 2^31 bytes, and the rounds are more
-- than the documents.
pub op_reply-answer_to :
    (rounds base request response opcode flags low high starting number : ℕ) (docs : List Bytes)
    (result : Option (List ℕ))
    → All IsExact docs
    → length docs < rounds
    → length (joined docs) < 2 ^ 31
    → response < 2 ^ 32
    → flags < 2 ^ 32
    → low < 2 ^ 32
    → high < 2 ^ 32
    → starting < 2 ^ 32
    → number < 2 ^ 32
    → number ≢ 2 ^ 31 - 1
    → op_reply rounds base
        (reply_text request response opcode flags low high starting number docs)
        result
      ≡ answer_to base response flags low high starting number docs result
unfolding op_reply first_word
op_reply-answer_to rounds base request response opcode flags low high starting number docs result
      exact enough small hr hf hl hh hs hn no_overflow =
    let reply = reply_text request response opcode flags low high starting number docs in
    let size : length reply ≡ 32 + length (joined docs) = omega arith in
    let f4 : field 4 reply ≡ response = word32-bytes32 response hr in
    let f12 : field 12 reply ≡ flags = word32-bytes32 flags hf in
    let f16 : field 16 reply ≡ low = word32-bytes32 low hl in
    let f20 : field 20 reply ≡ high = word32-bytes32 high hh in
    let f24 : field 24 reply ≡ starting = word32-bytes32 starting hs in
    let f28 : field 28 reply ≡ number = word32-bytes32 number hn in
    answer_lem base response flags low high starting number reply docs exact small size refl refl f4
      f12 f16 f20 f24 f28 rounds result enough hn no_overflow

-- A reply whose documents state their own lengths, of which there are as many as it says, fills the
-- table with exactly their addresses, whatever the table held, and gives the request, the first
-- document, the cursor unless it is 0, and the starting position; where no failure is flagged, the
-- integers have 32 bits, the documents take less than 2^31 bytes, and the rounds are more than the
-- documents.
pub op_reply_lem :
    (rounds base request response opcode flags low high starting : ℕ) (docs : List Bytes)
    (t : List ℕ)
    → All IsExact docs
    → length docs < rounds
    → length (joined docs) < 2 ^ 31
    → response < 2 ^ 32
    → flags < 2 ^ 32
    → low < 2 ^ 32
    → high < 2 ^ 32
    → starting < 2 ^ 32
    → flags / 2 % 2 ≡ 0
    → op_reply rounds base
        (reply_text request response opcode flags low high starting (length docs) docs)
        (some t)
      ≡ ok (
        success
            (sign_extend response)
            (first_of (base + 32) docs)
            (cursor_of low high)
            (sign_extend starting),
        some (addresses (base + 32) docs),
      )
op_reply_lem rounds base request response opcode flags low high starting docs t exact enough small
      hr hf hl hh hs sound =
    let count = length docs in
    let few = length-joined docs exact in
    let all : (count == count) ≡ true = ==_refl count in
    rw
      (
        op_reply-answer_to rounds base request response opcode flags low high starting count docs
            (some t) exact enough small hr hf hl hh hs (omega arith)
            (λ e. absurd (omega (arith, e))),
        sound,
        all,
        first_of-eq (base + 32) docs,
      )
      refl
