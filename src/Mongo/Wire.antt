-- ===== src/Mongo/Wire.antt =====
-- The wire protocol's view of the messages of cext/lua-mongo.c: a header of four integers, a body,
-- and documents.
use levent.Prelude.{
  ℕ, ◌+◌, ◌≤◌, Option, none, some, List, [], ◌∷◌, ◌++◌, Bytes, length, take, ◌==◌, if◌then◌else◌,
}
use levent.Prelude.Result.{
  Error, Result, ok, raised, invalid_document, invalid_cursor, bad_argument,
}
use levent.Bson.Wire.{bytes32}
use levent.Bson.Scalars.{first_word}
use levent.Mongo.Messages.{
  op_code_query, op_code_kill_cursors, op_code_delete, op_code_get_more, op_code_update,
  op_code_insert, query_documents, documents_of, one_document, table_of, neither, Call, query, kill,
  delete, more, update, insert,
}

-- The memory behind the address holds the whole document.
abbrev pub IsReadable : Bytes → Type 0
IsReadable doc = (4 ≤ length doc) × (first_word doc ≤ length doc)

-- The documents, one behind the other.
abbrev pub texts : List Bytes → Bytes
texts [] = []
texts (doc ∷ docs) = take (first_word doc) doc ++ texts docs

-- The length counts itself and everything behind it.
abbrev pub message : ℕ → ℕ → Bytes → Bytes → Bytes
message code id body tail =
    bytes32 (16 + length body + length tail)
    ++ ((bytes32 id ++ (bytes32 0 ++ (bytes32 code ++ body))) ++ tail)

-- Text with the zero that ends it.
abbrev pub cstring : Bytes → Bytes
cstring name = name ++ (0 ∷ [])

abbrev pub code_of : Call → ℕ
code_of (query id flags name skip number doc selector) = op_code_query
code_of (kill cursor_id) = op_code_kill_cursors
code_of (delete name single selector) = op_code_delete
code_of (more id name number cursor_id) = op_code_get_more
code_of (update name flags selector doc) = op_code_update
code_of (insert flags name documents) = op_code_insert

abbrev pub id_of : Call → ℕ
id_of (query id flags name skip number doc selector) = id
id_of (more id name number cursor_id) = id
id_of _ = 0

abbrev pub body_of : Call → Bytes
body_of (query id flags name skip number doc selector) =
    bytes32 flags ++ (cstring name ++ (bytes32 skip ++ bytes32 number))
body_of (kill cursor_id) = bytes32 0 ++ (bytes32 1 ++ cursor_id)
body_of (delete name single selector) = bytes32 0 ++ (cstring name ++ bytes32 single)
body_of (more id name number cursor_id) =
    bytes32 0 ++ (cstring name ++ (bytes32 number ++ cursor_id))
body_of (update name flags selector doc) = bytes32 0 ++ (cstring name ++ bytes32 flags)
body_of (insert flags name documents) = bytes32 flags ++ cstring name

unfoldable pub tail_of : Call → List Bytes
unfolding query_documents documents_of
tail_of (query id flags name skip number (some doc) selector) = query_documents doc selector
tail_of (delete name single (some selector)) = selector ∷ []
tail_of (update name flags (some selector) (some doc)) = selector ∷ doc ∷ []
tail_of (insert flags name documents) = documents_of documents
tail_of _ = []

-- A value in the place of a document is none.
abbrev pub lacks : List (Option Bytes) → Option Error
lacks [] = none
lacks (none ∷ docs) = some invalid_document
lacks (some doc ∷ docs) = lacks docs

-- The error that the arguments deserve.
abbrev pub refused : Call → Option Error
refused (query id flags name skip number doc selector) = lacks (doc ∷ [])
refused (kill cursor_id) = if length cursor_id == 8 then none else some invalid_cursor
refused (delete name single selector) = lacks (selector ∷ [])
refused (more id name number cursor_id) =
    if length cursor_id == 8 then none else some invalid_cursor
refused (update name flags selector doc) = lacks (selector ∷ doc ∷ [])
refused (insert flags name (one_document doc)) = none
refused (insert flags name (table_of docs)) = lacks docs
refused (insert flags name neither) = some bad_argument

abbrev pub text_of : Call → Bytes
text_of call = message (code_of call) (id_of call) (body_of call) (texts (tail_of call))

-- What a call gives: an error, or its message.
abbrev pub answer : Option Error → Bytes → Result Bytes
answer none text = ok text
answer (some why) text = raised why
