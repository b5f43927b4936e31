-- ===== src/Mongo/Messages.antt =====
-- The functions of cext/lua-mongo.c that build a message. An integer argument is its two's
-- complement pattern, of which `write_int32` takes the low 32 bits; a document is the memory from
-- its address on, and `none` is the NULL of a value that is no userdata.
use levent.Prelude.{
  ℕ, ◌+◌, ◌&&◌, Option, none, some, List, [], ◌∷◌, ◌++◌, Bytes, length, take, ltb, leb, ◌==◌,
  if◌then◌else◌,
}
use levent.Prelude.Result.{
  Result, ok, raised, fault, ◌>>=◌, invalid_document, invalid_cursor, bad_argument,
}
use levent.Bson.Buffer.{Bson, int_limit}
use levent.Bson.Scalars.{first_word}
use levent.Mongo.Buffer.{
  buffer_create, write_int32, write_bytes, write_string, reserve_length, write_length,
}

abbrev pub op_code_update : ℕ
op_code_update = 2001

abbrev pub op_code_insert : ℕ
op_code_insert = 2002

abbrev pub op_code_query : ℕ
op_code_query = 2004

abbrev pub op_code_get_more : ℕ
op_code_get_more = 2005

abbrev pub op_code_delete : ℕ
op_code_delete = 2006

abbrev pub op_code_kill_cursors : ℕ
op_code_kill_cursors = 2007

-- `get_length`, for an `int32_t` that is not negative: `luaL_addlstring` takes a negative one for a
-- huge size, and reads outside the document.
unfoldable pub get_length : Bytes → Result ℕ
get_length doc =
    if leb 4 (length doc) && ltb (first_word doc) int_limit then ok (first_word doc) else fault

-- `luaL_addlstring(&b, doc, get_length(doc))`
unfoldable pub add_document : Bytes → Result Bytes
unfolding get_length
add_document doc = do n ← get_length doc; if leb n (length doc) then ok (take n doc) else fault

unfoldable pub add_documents : List Bytes → Result Bytes
unfolding add_document
add_documents [] = ok []
add_documents (doc ∷ docs) = do
  bytes ← add_document doc
  rest ← add_documents docs
  ok (bytes ++ rest)

-- The sum of two `int`s that are not negative.
unfoldable pub add_int : ℕ → ℕ → Result ℕ
add_int a b = if ltb (a + b) int_limit then ok (a + b) else fault

-- `total += get_length(doc)` for each document.
unfoldable pub add_lengths : ℕ → List Bytes → Result ℕ
unfolding add_int get_length
add_lengths total [] = ok total
add_lengths total (doc ∷ docs) = do
  n ← get_length doc
  total ← add_int total n
  add_lengths total docs

-- What the six functions share: room for the length, `body`, the length of all into that room, and
-- the documents behind the buffer.
unfoldable pub packet : (ℕ → ℕ) → (Bson → Result Bson) → (ℕ → Result ℕ) → List Bytes → Result Bytes
unfolding buffer_create
packet stale body total_of documents = do
  (len, buf) ← reserve_length (buffer_create stale)
  buf ← body buf
  total ← total_of buf.size
  buf ← write_length total len buf
  tail ← add_documents documents
  ok (buf.filled ++ tail)

-- The three integers behind the length.
unfoldable pub write_header : ℕ → ℕ → Bson → Result Bson
write_header id code buf = do
  buf ← write_int32 id buf
  buf ← write_int32 0 buf
  write_int32 code buf

-- The selector is optional.
unfoldable pub query_documents : Bytes → Option Bytes → List Bytes
query_documents query none = query ∷ []
query_documents query (some selector) = query ∷ selector ∷ []

unfoldable pub query_body : ℕ → ℕ → Bytes → ℕ → ℕ → Bson → Result Bson
query_body id flags name skip number buf = do
  buf ← write_header id op_code_query buf
  buf ← write_int32 flags buf
  buf ← write_string name buf
  buf ← write_int32 skip buf
  write_int32 number buf

unfoldable pub op_query :
    (ℕ → ℕ) → ℕ → ℕ → Bytes → ℕ → ℕ → Option Bytes → Option Bytes → Result Bytes
unfolding query_documents
op_query stale id flags name skip number none selector = raised invalid_document
op_query stale id flags name skip number (some query) selector =
    packet stale (query_body id flags name skip number)
      (λ size. add_lengths size (query_documents query selector)) (query_documents query selector)

unfoldable pub kill_body : Bytes → Bson → Result Bson
kill_body cursor_id buf = do
  buf ← write_header 0 op_code_kill_cursors buf
  buf ← write_int32 0 buf
  buf ← write_int32 1 buf
  write_bytes cursor_id buf

unfoldable pub op_kill : (ℕ → ℕ) → Bytes → Result Bytes
op_kill stale cursor_id =
    if length cursor_id == 8
    then packet stale (kill_body cursor_id) (λ size. ok size) []
    else raised invalid_cursor

unfoldable pub delete_body : Bytes → ℕ → Bson → Result Bson
delete_body name single buf = do
  buf ← write_header 0 op_code_delete buf
  buf ← write_int32 0 buf
  buf ← write_string name buf
  write_int32 single buf

unfoldable pub op_delete : (ℕ → ℕ) → Bytes → ℕ → Option Bytes → Result Bytes
op_delete stale name single none = raised invalid_document
op_delete stale name single (some selector) =
    packet stale (delete_body name single) (λ size. add_lengths size (selector ∷ []))
      (selector ∷ [])

unfoldable pub get_more_body : ℕ → Bytes → ℕ → Bytes → Bson → Result Bson
get_more_body id name number cursor_id buf = do
  buf ← write_header id op_code_get_more buf
  buf ← write_int32 0 buf
  buf ← write_string name buf
  buf ← write_int32 number buf
  write_bytes cursor_id buf

unfoldable pub op_get_more : (ℕ → ℕ) → ℕ → Bytes → ℕ → Bytes → Result Bytes
op_get_more stale id name number cursor_id =
    if length cursor_id == 8
    then packet stale (get_more_body id name number cursor_id) (λ size. ok size) []
    else raised invalid_cursor

unfoldable pub update_body : Bytes → ℕ → Bson → Result Bson
update_body name flags buf = do
  buf ← write_header 0 op_code_update buf
  buf ← write_int32 0 buf
  buf ← write_string name buf
  write_int32 flags buf

unfoldable pub op_update : (ℕ → ℕ) → Bytes → ℕ → Option Bytes → Option Bytes → Result Bytes
op_update stale name flags (some selector) (some update) =
    packet stale (update_body name flags) (λ size. add_lengths size (selector ∷ update ∷ []))
      (selector ∷ update ∷ [])
op_update stale name flags (some selector) none = raised invalid_document
op_update stale name flags none update = raised invalid_document

-- The third argument of `insert`: a userdata, a table of values, or something else.
pub data Documents : Type 0 where
  one_document : Bytes → Documents
  table_of : List (Option Bytes) → Documents
  neither : Documents

-- The sum of the lengths; the first value that is no userdata is an error.
unfoldable pub sum_lengths : ℕ → List (Option Bytes) → Result ℕ
unfolding add_int get_length
sum_lengths total [] = ok total
sum_lengths total (none ∷ docs) = raised invalid_document
sum_lengths total (some doc ∷ docs) = do
  n ← get_length doc
  total ← add_int total n
  sum_lengths total docs

unfoldable pub document_length : Documents → Result ℕ
unfolding sum_lengths get_length
document_length (one_document doc) = get_length doc
document_length (table_of docs) = sum_lengths 0 docs
document_length neither = raised bad_argument

-- The documents of a table that `document_length` has let pass.
unfoldable pub given : List (Option Bytes) → List Bytes
given [] = []
given (none ∷ docs) = given docs
given (some doc ∷ docs) = doc ∷ given docs

unfoldable pub documents_of : Documents → List Bytes
unfolding given
documents_of (one_document doc) = doc ∷ []
documents_of (table_of docs) = given docs
documents_of neither = []

unfoldable pub insert_body : ℕ → Bytes → Bson → Result Bson
insert_body flags name buf = do
  buf ← write_header 0 op_code_insert buf
  buf ← write_int32 flags buf
  write_string name buf

unfoldable pub op_insert : (ℕ → ℕ) → ℕ → Bytes → Documents → Result Bytes
unfolding documents_of document_length
op_insert stale flags name documents = do
  dsz ← document_length documents
  packet stale (insert_body flags name) (λ size. add_int size dsz) (documents_of documents)

-- The driver's table `l`: a call of one of its functions that build messages.
pub data Call : Type 0 where
  query : ℕ → ℕ → Bytes → ℕ → ℕ → Option Bytes → Option Bytes → Call
  kill : Bytes → Call
  delete : Bytes → ℕ → Option Bytes → Call
  more : ℕ → Bytes → ℕ → Bytes → Call
  update : Bytes → ℕ → Option Bytes → Option Bytes → Call
  insert : ℕ → Bytes → Documents → Call

unfoldable pub driver : (ℕ → ℕ) → Call → Result Bytes
driver stale (query id flags name skip number doc selector) =
    op_query stale id flags name skip number doc selector
driver stale (kill cursor_id) = op_kill stale cursor_id
driver stale (delete name single selector) = op_delete stale name single selector
driver stale (more id name number cursor_id) = op_get_more stale id name number cursor_id
driver stale (update name flags selector doc) = op_update stale name flags selector doc
driver stale (insert flags name documents) = op_insert stale flags name documents
