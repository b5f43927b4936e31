-- ===== src/Mongo/Driver.antt =====
-- The functions of cext/lua-mongo.c build the messages of the wire protocol.
use levent.Prelude.{
  ℕ, ◌+◌, ◌^◌, ◌<◌, ◌≡◌, refl, subst, ap, none, some, List, [], ◌∷◌, ◌++◌, arith, Bytes, length,
  length-append, length-take, take, All, ◌==◌, lt→ltb, le→leb, Bool-cases, inl, inr,
}
use levent.Prelude.Result.{Result, ok, raised, ◌>>=◌}
use levent.Bson.Wire.{bytes32}
use levent.Bson.Buffer.{Bson, int_limit}
use levent.Bson.Scalars.{first_word}
use levent.Bson.Appends.{safe_limit, Appends, Appends-then}
use levent.Mongo.Messages.{
  get_length, add_int, add_lengths, packet, write_header, given, query_documents, documents_of,
  document_length, query_body, kill_body, delete_body, get_more_body, update_body, insert_body,
  op_query, op_kill, op_delete, op_get_more, op_update, op_insert, op_code_query,
  op_code_kill_cursors, op_code_delete, op_code_get_more, op_code_update, op_code_insert,
  one_document, table_of, neither, Call, query, kill, delete, more, update, insert, driver,
}
use levent.Mongo.Wire.{
  IsReadable, texts, message, cstring, tail_of, lacks, refused, text_of, answer,
}
use levent.Mongo.Sends.{
  add_documents_lem, add_lengths_lem, sum_lengths_lem, packet_lem, headed, write_int32-Appends,
  write_bytes-Appends, write_string-Appends,
}

-- A function whose body appends `xs` behind the header, and whose total is that of the message.
send_lem :
    {body : Bson → Result Bson} (stale : ℕ → ℕ) (id code : ℕ) (total_of : ℕ → Result ℕ)
    (docs : List Bytes) (xs : Bytes)
    → Appends body xs
    → All IsReadable docs
    → 16 + length xs + length (texts docs) < safe_limit
    → total_of (16 + length xs) ≡ ok (16 + length xs + length (texts docs))
    → packet stale (λ b. write_header id code b >>= body) total_of docs
      ≡ ok (message code id xs (texts docs))
send_lem stale id code total_of docs xs h readable small total =
    packet_lem stale total_of docs (bytes32 id ++ (bytes32 0 ++ (bytes32 code ++ xs)))
      (16 + length xs + length (texts docs)) (headed id code xs h) (omega arith)
      (subst (λ k. total_of k ≡ ok (16 + length xs + length (texts docs))) (omega arith) total)
      (add_documents_lem docs readable (omega arith))

-- With the documents' lengths added one by one.
send_documents :
    {body : Bson → Result Bson} (stale : ℕ → ℕ) (id code : ℕ) (docs : List Bytes) (xs : Bytes)
    → Appends body xs
    → All IsReadable docs
    → length (message code id xs (texts docs)) < safe_limit
    → packet stale (λ b. write_header id code b >>= body) (λ size. add_lengths size docs) docs
      ≡ ok (message code id xs (texts docs))
send_documents stale id code docs xs h readable small =
    let lengths = length-append xs (texts docs) in
    send_lem stale id code (λ size. add_lengths size docs) docs xs h readable (omega arith)
      (add_lengths_lem (16 + length xs) docs readable (omega arith))

-- Without documents.
send_body :
    {body : Bson → Result Bson} (stale : ℕ → ℕ) (id code : ℕ) (xs : Bytes)
    → Appends body xs
    → length (message code id xs []) < safe_limit
    → packet stale (λ b. write_header id code b >>= body) (λ size. ok size) []
      ≡ ok (message code id xs [])
send_body stale id code xs h small =
    let lengths = length-append xs [] in
    send_lem stale id code (λ size. ok size) [] xs h tt (omega arith) (ap ok (omega arith))

insert_lem :
    (stale : ℕ → ℕ) (flags : ℕ) (name : Bytes) (docs : List Bytes) (dsz : ℕ)
    → All IsReadable docs
    → dsz ≡ length (texts docs)
    → length (message op_code_insert 0 (bytes32 flags ++ cstring name) (texts docs)) < safe_limit
    → packet stale (insert_body flags name) (λ size. add_int size dsz) docs
      ≡ ok (message op_code_insert 0 (bytes32 flags ++ cstring name) (texts docs))
unfolding insert_body add_int
insert_lem stale flags name docs dsz readable sum small =
    let xs = bytes32 flags ++ cstring name in
    let lengths = length-append xs (texts docs) in
    send_lem stale 0 op_code_insert (λ size. add_int size dsz) docs xs
      (Appends-then _ _ (write_int32-Appends flags) (write_string-Appends name)) readable
      (omega arith)
      (rw (lt→ltb (16 + length xs + dsz) int_limit (omega arith)) (ap ok (omega arith)))

-- Whatever the memory held before, each function of the driver answers the message of the wire
-- protocol with its own length in front, or raises the error that its arguments deserve; where the
-- documents are readable and the message is smaller than 2^30.
pub driver_lem :
    (stale : ℕ → ℕ) (call : Call)
    → All IsReadable (tail_of call)
    → length (text_of call) < 2 ^ 30
    → driver stale call ≡ answer (refused call) (text_of call)
unfolding driver op_query op_kill op_delete op_get_more op_update op_insert query_body kill_body
    delete_body get_more_body update_body document_length documents_of get_length tail_of
driver_lem stale (query id flags name skip number none selector) readable small = refl
driver_lem stale (query id flags name skip number (some doc) selector) readable small =
    send_documents stale id op_code_query (query_documents doc selector) _
      (Appends-then _ _ (write_int32-Appends flags) (
        Appends-then _ _ (write_string-Appends name)
          (Appends-then _ _ (write_int32-Appends skip) (write_int32-Appends number))))
      readable small
driver_lem stale (kill cursor_id) readable small = elim (Bool-cases (length cursor_id == 8)) [
  | inl e ↦ rw e (
      send_body stale 0 op_code_kill_cursors _
        (Appends-then _ _ (write_int32-Appends 0)
          (Appends-then _ _ (write_int32-Appends 1) (write_bytes-Appends cursor_id)))
        small)
  | inr e ↦ rw e refl
]
driver_lem stale (delete name single none) readable small = refl
driver_lem stale (delete name single (some selector)) readable small =
    send_documents stale 0 op_code_delete (selector ∷ []) _
      (Appends-then _ _ (write_int32-Appends 0)
        (Appends-then _ _ (write_string-Appends name) (write_int32-Appends single)))
      readable small
driver_lem stale (more id name number cursor_id) readable small =
    elim (Bool-cases (length cursor_id == 8)) [
      | inl e ↦ rw e (
          send_body stale id op_code_get_more _
            (Appends-then _ _ (write_int32-Appends 0) (
              Appends-then _ _ (write_string-Appends name)
                (Appends-then _ _ (write_int32-Appends number) (write_bytes-Appends cursor_id))))
            small)
      | inr e ↦ rw e refl
    ]
driver_lem stale (update name flags none doc) readable small = refl
driver_lem stale (update name flags (some selector) none) readable small = refl
driver_lem stale (update name flags (some selector) (some doc)) readable small =
    send_documents stale 0 op_code_update (selector ∷ doc ∷ []) _
      (Appends-then _ _ (write_int32-Appends 0)
        (Appends-then _ _ (write_string-Appends name) (write_int32-Appends flags)))
      readable small
driver_lem stale (insert flags name (one_document doc)) readable small =
    let n = first_word doc in
    let front = length-take n doc in
    let joined = length-append (take n doc) [] in
    let lengths = length-append (bytes32 flags ++ cstring name) (texts (doc ∷ [])) in
    let (long, whole) = readable.0 in
    rw (le→leb 4 (length doc) long, lt→ltb n int_limit (omega arith))
      (insert_lem stale flags name (doc ∷ []) n readable (omega arith) small)
driver_lem stale (insert flags name (table_of docs)) readable small =
    let lengths = length-append (bytes32 flags ++ cstring name) (texts (given docs)) in
    rw (sum_lengths_lem 0 docs readable (omega arith))
      (elim (lacks docs)
        as (λ x.
          ((elim x as (λ y. Result ℕ) [
            | none ↦ ok (0 + length (texts (given docs)))
            | some why ↦ raised why
          ])
            >>= λ dsz.
                packet stale (insert_body flags name) (λ size. add_int size dsz) (given docs))
          ≡ answer x (text_of (insert flags name (table_of docs)))) [
            | none ↦ insert_lem stale flags name (given docs) _ readable (omega arith) small
            | some why ↦ refl
          ])
driver_lem stale (insert flags name neither) readable small = refl
