-- ===== src/Mongo/Reply.antt =====
-- `op_reply` and `reply_length` of cext/lua-mongo.c: a reply of the server is taken apart.
use levent.Prelude.{
  ℕ, zero, suc, ◌+◌, ◌-◌, ◌/◌, ◌%◌, ◌^◌, ◌&&◌, not, Option, none, some, List, [], ◌∷◌, ◌++◌, Bytes,
  length, take, drop, ltb, leb, ◌==◌, if◌then◌else◌,
}
use levent.Prelude.Result.{Result, ok, raised, fault, out_of_fuel, ◌>>=◌, invalid_document}
use levent.Bson.Scalars.{first_word}
use levent.Bson.Reader.{is_negative}
use levent.Bson.Decode.{sign_extend}

-- What `reply` returns: false; false, the request and the error document; false and the request; or
-- true, the request, the first document, the cursor and the position of the first document. A
-- document is its address.
pub data Reply : Type 0 where
  short : Reply
  query_failure : ℕ → ℕ → Reply
  mismatch : ℕ → Reply
  success : ℕ → Option ℕ → Option Bytes → ℕ → Reply

-- `lua_rawseti(L, 2, i)` on a sequence, for an `i` that is at most one behind its end.
unfoldable pub rawseti : ℕ → ℕ → List ℕ → List ℕ
rawseti zero v t = t
rawseti (suc zero) v [] = v ∷ []
rawseti (suc zero) v (x ∷ t) = v ∷ t
rawseti (suc (suc i)) v [] = []
rawseti (suc (suc i)) v (x ∷ t) = x ∷ rawseti (suc i) v t

-- `sz -= doc_len` for a length that is not negative; `none` is a negative difference.
unfoldable pub less : ℕ → ℕ → Option ℕ
less sz doc_len = if leb doc_len sz then some (sz - doc_len) else none

-- `while (sz > 4)` over the memory from `doc` on, which starts at address `at`. A negative length
-- moves `doc` backwards.
unfoldable pub fill : ℕ → ℕ → Bytes → Option ℕ → ℕ → List ℕ → Result (ℕ × Option ℕ × List ℕ)
unfolding less rawseti
fill zero at doc sz i t = out_of_fuel
fill (suc rounds) at doc none i t = ok (i, none, t)
fill (suc rounds) at doc (some sz) i t =
    let doc_len = first_word doc in
    let later =
      fill rounds (at + doc_len) (drop doc_len doc) (less sz doc_len) (suc i) (rawseti i at t) in
    if leb sz 4 then ok (i, some sz, t) else if is_negative doc_len then fault else later

-- `(int)data_len - sizeof(*reply)` as an `int`; `none` if it is negative.
unfoldable pub rest_size : ℕ → Option ℕ
rest_size data_len = let w = (data_len - 32) % 2 ^ 32 in if is_negative w then none else some w

-- `if (sz >= 4) sz -= get_length(doc)`, and whether 0 is left.
unfoldable pub is_single : Option ℕ → Bytes → Result (Option ℕ)
unfolding less
is_single none doc = ok none
is_single (some sz) doc =
    let w = first_word doc in
    if ltb sz 4
    then ok (some sz)
    else if is_negative w
    then (if ltb (sz + (2 ^ 32 - w)) (2 ^ 31) then ok (some (sz + (2 ^ 32 - w))) else fault)
    else ok (less sz w)

-- A field of the message, at its offset.
abbrev pub field : ℕ → Bytes → ℕ
field offset reply = first_word (drop offset reply)

-- `if (sz != 0) luaL_error(...)`, and the five results.
unfoldable pub succeed : ℕ → Bytes → Option ℕ → Result Reply
succeed base reply (some zero) = ok (
    success (sign_extend (field 4 reply)) (if field 28 reply == 0 then none else some (base + 32))
      (if (field 16 reply == 0) && (field 20 reply == 0)
        then none
        else some (take 8 (drop 16 reply)))
      (sign_extend (field 24 reply)))
succeed base reply _ = raised invalid_document

-- The result table is filled, and what it held behind the last document is set to nil. The addresses
-- start at `base`. The loop over a table has no bound of its own: `rounds` is one.
unfoldable pub into_table : ℕ → ℕ → Bytes → List ℕ → Result (Reply × List ℕ)
unfolding fill rest_size succeed
into_table rounds base reply t = do
  (i, sz, t) ← fill rounds (base + 32) (drop 32 reply) (rest_size (length reply)) 1 t
  let number = field 28 reply
  if number == 2 ^ 31 - 1
      then fault
      else if not (is_negative number) && (i == number + 1)
      then (do r ← succeed base reply sz; ok (r, take (i - 1) t))
      else ok (mismatch (sign_extend (field 4 reply)), t)

-- The second argument of `reply` is a table, or not.
unfoldable pub op_reply : ℕ → ℕ → Bytes → Option (List ℕ) → Result (Reply × Option (List ℕ))
unfolding into_table is_single
op_reply rounds base reply result =
    if ltb (length reply) 32
    then ok (short, result)
    else if field 12 reply / 2 % 2 == 1
    then ok (query_failure (sign_extend (field 4 reply)) (base + 32), result)
    else elim result [
      | some t ↦ do (r, t) ← into_table rounds base reply t; ok (r, some t)
      | none ↦ do
        sz ← is_single (rest_size (length reply)) (drop 32 reply)
        r ← succeed base reply sz
        ok (r, none)
    ]

-- Four bytes are read from the string, which a zero ends.
unfoldable pub reply_length : Bytes → Result ℕ
reply_length text =
    let w = first_word (text ++ (0 ∷ [])) in
    if ltb (length text) 3
    then fault
    else if is_negative w && ltb w (2 ^ 31 + 4)
    then fault
    else ok (sign_extend ((w + 2 ^ 32 - 4) % 2 ^ 32))
