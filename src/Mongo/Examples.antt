-- ===== src/Mongo/Examples.antt =====
-- The theorems on cext/lua-mongo.c at concrete messages.
use levent.Prelude.{◌≡◌, refl, some, [], ◌∷◌, arith, Bytes, length, take, drop}
use levent.Prelude.Result.{ok, out_of_fuel}
use levent.Bson.Scalars.{first_word, is_32bit}
use levent.Bson.Encode.{encode, digits, decimal}
use levent.Bson.Sample.{lua, c_lib, stale, sample, sample_plain, sample_shallow, sample_small}
use levent.Lua.{table}
use levent.Bson.Format.{document, elements}
use levent.Bson.Refines.{encode_lem}
use levent.Mongo.Filling.{addresses}
use levent.Mongo.Documents.{Encoded, IsSmall, decoded, reply-decode}
use levent.Mongo.Messages.{Call, query, insert, table_of, driver, query_documents}
use levent.Mongo.Wire.{tail_of, text_of, refused, answer, message}
use levent.Mongo.Driver.{driver_lem}
use levent.Mongo.Reply.{op_reply, success, mismatch, reply_length}
use levent.Mongo.Replies.{reply_text, op_reply-zero, reply_length_lem}
use levent.Mongo.Branches.{answer_to}
use levent.Mongo.Answers.{op_reply-answer_to}

abbrev sample_document : Bytes
sample_document = document (elements sample)

-- The empty document, in a longer block of memory.
abbrev empty_document : Bytes
empty_document = 5 ∷ 0 ∷ 0 ∷ 0 ∷ 0 ∷ 99 ∷ []

abbrev exact_document : Bytes
exact_document = 5 ∷ 0 ∷ 0 ∷ 0 ∷ 0 ∷ []

abbrev collection : Bytes
collection = b'd' ∷ b'.' ∷ b'c' ∷ []

abbrev find_one : Call
find_one = query 7 4 collection 0 1 (some empty_document) (some empty_document)

abbrev insert_two : Call
insert_two = insert 1 collection (table_of (some empty_document ∷ some exact_document ∷ []))

driver_lem_example : driver stale find_one ≡ answer (refused find_one) (text_of find_one)
unfolding tail_of query_documents first_word
driver_lem_example =
    driver_lem stale find_one ((omega arith, omega arith), ((omega arith, omega arith), tt))
      (omega arith)

-- Two documents, where the reply states three: what the table held behind them is still there.
op_reply-answer_to_example :
    op_reply 9 1000
      (reply_text 3 7 1 8 5 6 0 3 (exact_document ∷ exact_document ∷ []))
      (some (1 ∷ 2 ∷ 3 ∷ []))
    ≡ answer_to 1000 7 8 5 6 0 3 (exact_document ∷ exact_document ∷ []) (some (1 ∷ 2 ∷ 3 ∷ []))
unfolding first_word
op_reply-answer_to_example =
    op_reply-answer_to 9 1000 3 7 1 8 5 6 0 3 (exact_document ∷ exact_document ∷ [])
      (some (1 ∷ 2 ∷ 3 ∷ [])) ((omega arith, refl), ((omega arith, refl), tt)) (omega arith)
      (omega arith) (omega arith) (omega arith) (omega arith) (omega arith) (omega arith)
      (omega arith) (λ e. absurd (omega (arith, e)))

three_stated_result :
    answer_to 1000 7 8 5 6 0 3 (exact_document ∷ exact_document ∷ []) (some (1 ∷ 2 ∷ 3 ∷ []))
    ≡ ok (mismatch 7, some (1032 ∷ 1037 ∷ 3 ∷ []))
three_stated_result = refl

abbrev broken_reply : Bytes
broken_reply = reply_text 3 7 1 8 0 0 0 1 ((0 ∷ 0 ∷ 0 ∷ 0 ∷ 0 ∷ []) ∷ [])

op_reply-zero_example : op_reply 50 1000 broken_reply (some []) ≡ out_of_fuel
unfolding first_word
op_reply-zero_example = op_reply-zero 50 1000 broken_reply [] (omega arith) (omega arith) refl refl

reply_length_lem_example :
    reply_length (take 4 (message 2004 7 (1 ∷ 2 ∷ []) exact_document))
    ≡ ok (length (drop 4 (message 2004 7 (1 ∷ 2 ∷ []) exact_document)))
reply_length_lem_example = reply_length_lem 2004 7 (1 ∷ 2 ∷ []) exact_document (omega arith)

-- A reply with two documents that were encoded.
two-Encoded :
    Encoded c_lib lua stale (sample ∷ sample ∷ []) (sample_document ∷ sample_document ∷ [])
two-Encoded = (sample_made, (sample_made, tt))
  where
    sample_made : encode lua stale (table sample) ≡ ok sample_document
    sample_made = encode_lem lua stale sample sample_plain sample_shallow sample_small

sample-IsSmall : IsSmall sample
sample-IsSmall = (sample_plain, sample_shallow, sample_small)

reply-decode_example :
    let reply = reply_text 3 7 1 8 5 6 0 2 (sample_document ∷ sample_document ∷ []) in
    (op_reply 9 1000 reply (some [])
      ≡ ok (
        success 7 (some 1032) (some (5 ∷ 0 ∷ 0 ∷ 0 ∷ 6 ∷ 0 ∷ 0 ∷ 0 ∷ [])) 0,
        some (addresses 1032 (sample_document ∷ sample_document ∷ [])),
      ))
    × (decoded c_lib lua stale 1000 reply (addresses 1032 (sample_document ∷ sample_document ∷ []))
        ≡ ok sample ∷ ok sample ∷ [])
unfolding elements digits decimal is_32bit
reply-decode_example =
    reply-decode c_lib lua stale 9 1000 3 7 1 8 5 6 0 (sample ∷ sample ∷ [])
      (sample_document ∷ sample_document ∷ []) [] (sample-IsSmall, (sample-IsSmall, tt)) two-Encoded
      (omega arith) (omega arith) (omega arith) (omega arith) (omega arith) (omega arith)
      (omega arith) refl
