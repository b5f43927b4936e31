-- ===== src/Http/Callbacks.antt =====
-- The callbacks of src/lua-http-parser.c on the result table, and the parts of http_parser that
-- they read. The parser itself (deps/http-parser) is a parameter.
use levent.Prelude.{
  ℕ, ◌%◌, ◌≡◌, ◌≢◌, Bool, true, false, Option, none, some, List, [], ◌∷◌, ◌++◌, Bytes, length, ◌==◌,
  if◌then◌else◌,
}
use levent.Prelude.Result.{Result, ok, raised, concat_nil, ◌>>=◌}
use levent.Http.Dict.{Dict, insert}

-- The Lua table that is filled: its array part `slots`, where headers are gathered as field, value,
-- field, value, and its named fields. `none` is nil.
pub record Message : Type 0 where
  pub complete : Option Bool
  pub is_request : Option Bool
  pub method : Option Bytes
  pub request_url : Option Bytes
  pub status : Option Bytes
  pub status_code : Option ℕ
  pub headers : Option Dict
  pub body : Option Bytes
  pub keepalive : Option Bool
  pub upgrade : Option Bool
  pub http_major : Option ℕ
  pub http_minor : Option ℕ
  pub slots : List Bytes

-- The callbacks that http_parser makes.
pub data Event : Type 0 where
  message_begin : Event
  url : Bytes → Event
  status : Bytes → Event
  header_field : Bytes → Event
  header_value : Bytes → Event
  headers_complete : Event
  body : Bytes → Event
  message_complete : Event

-- What the binding uses of `struct http_parser` and of the library's functions. `pause` moves the
-- error number between HPE_OK, which is 0, and HPE_PAUSED, as http_parser.h documents it.
pub record ParserLib : Type 1 where
  pub Parser : Type 0
  pub errno : Parser → ℕ
  pub http_major : Parser → ℕ
  pub http_minor : Parser → ℕ
  pub method : Parser → ℕ
  pub status_code : Parser → ℕ
  pub upgrade : Parser → Bool
  pub should_keep_alive : Parser → Bool
  pub method_str : ℕ → Bytes
  pub pause : Parser → Bool → Parser
  pub paused : ℕ
  pub paused_ne_ok : paused ≢ 0
  pub errno-pause : (p : Parser) → errno p ≡ 0 → errno (pause p true) ≡ paused
  pub errno-resume : (p : Parser) → errno p ≡ paused → errno (pause p false) ≡ 0

-- A string field that is set, or extended by `lua_concat` when it is there.
unfoldable pub concat_field : Option Bytes → Bytes → Option Bytes
concat_field none at = some at
concat_field (some s) at = some (s ++ at)

unfoldable pub on_message_begin : Message → Message
on_message_begin m = record m { complete = some false }

unfoldable pub on_url : Bytes → Message → Message
unfolding concat_field
on_url at m = record m { request_url = concat_field m.request_url at; is_request = some true }

unfoldable pub on_status : Bytes → Message → Message
unfolding concat_field
on_status at m = record m { status = concat_field m.status at }

-- `t[#t] = t[#t] .. at`; with `#t = 0` this concatenates nil, which is a Lua error.
unfoldable pub append_last : List Bytes → Bytes → Result (List Bytes)
append_last [] at = raised concat_nil
append_last (x ∷ []) at = ok ((x ++ at) ∷ [])
append_last (x ∷ y ∷ xs) at = do ok (x ∷ (← append_last (y ∷ xs) at))

unfoldable pub on_header_field : Bytes → Message → Result Message
unfolding append_last
on_header_field at m =
    if length m.slots % 2 == 0
    then ok (record m { slots = m.slots ++ (at ∷ []) })
    else (do ok (record m { slots = (← append_last m.slots at) }))

unfoldable pub on_header_value : Bytes → Message → Result Message
unfolding append_last
on_header_value at m =
    if length m.slots % 2 == 0
    then (do ok (record m { slots = (← append_last m.slots at) }))
    else ok (record m { slots = m.slots ++ (at ∷ []) })

unfoldable pub on_body : Bytes → Message → Message
unfolding concat_field
on_body at m = record m { body = concat_field m.body at }

-- The loop of `on_message_complete`: each pair of slots goes into the headers and is set to nil.
unfoldable pub compose : List Bytes → Dict → List Bytes × Dict
compose [] d = ([], d)
compose (f ∷ []) d = (f ∷ [], d)
compose (f ∷ v ∷ rest) d = compose rest (insert f v d)

-- `headers` if it is a table, or a new table.
unfoldable pub headers_table : Option Dict → Dict
headers_table none = []
headers_table (some d) = d

-- `lua_toboolean`
unfoldable pub to_boolean : Option Bool → Bool
to_boolean none = false
to_boolean (some b) = b

module _ (lib : ParserLib) where
  open lib use {Parser}

  unfoldable pub on_headers_complete : Parser → Message → Message
  unfolding to_boolean
  on_headers_complete p m =
      let m' : Message = record m {
        http_major = some (lib.http_major p);
        http_minor = some (lib.http_minor p);
      } in
      if to_boolean m.is_request
      then record m' { method = some (lib.method_str (lib.method p)) }
      else record m' { status_code = some (lib.status_code p) }

  -- The table after a message's end with an even number of slots.
  unfoldable pub completed : Parser → Message → Message
  unfolding compose headers_table
  completed p m =
      let (rest, d) = compose m.slots (headers_table m.headers) in
      record m {
        slots = rest;
        headers = some d;
        upgrade = if lib.upgrade p then some true else m.upgrade;
        keepalive = some (lib.should_keep_alive p);
        complete = some true;
      }

  unfoldable pub on_message_complete : Parser → Message → Message × Parser
  unfolding completed
  on_message_complete p m =
      if length m.slots % 2 == 0 then (completed p m, lib.pause p true) else (m, p)

  -- The `settings` table: which callback answers which event.
  unfoldable pub dispatch : Event → Parser → Message → Result (Message × Parser)
  dispatch message_begin p m = ok (on_message_begin m, p)
  dispatch (url at) p m = ok (on_url at m, p)
  dispatch (status at) p m = ok (on_status at m, p)
  dispatch (header_field at) p m = do ok ((← on_header_field at m), p)
  dispatch (header_value at) p m = do ok ((← on_header_value at m), p)
  dispatch headers_complete p m = ok (on_headers_complete p m, p)
  dispatch (body at) p m = ok (on_body at m, p)
  dispatch message_complete p m = ok (on_message_complete p m)
