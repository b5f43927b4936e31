-- ===== src/Http/Execute.antt =====
-- `lparser_execute` of src/lua-http-parser.c: one run of the parser over a buffer, which stops
-- after a whole message.
use levent.Prelude.{ℕ, false, List, [], ◌∷◌, Bytes, length, drop, ltb, ◌==◌, if◌then◌else◌}
use levent.Prelude.Result.{Result, ok, raised, bad_argument, ◌>>=◌}
use levent.Http.Callbacks.{Message, Event, ParserLib, dispatch}

module _ (lib : ParserLib) where
  open lib use {Parser}

  -- What `http_parser_execute` does on a buffer: it makes a callback, with the parser in a state and
  -- some number of bytes parsed, and goes on with `rest` if the error number is still HPE_OK after
  -- the callback; or it ends.
  pub data Trace : Type 0 where
    finish : Parser → ℕ → Trace
    call : Event → Parser → ℕ → Trace → Trace

  unfoldable pub run : Trace → Message → Result (Message × Parser × ℕ)
  run (finish p n) m = ok (m, p, n)
  run (call e p n rest) m = do
    (m', p') ← dispatch lib e p m
    let later = run rest m'
    if lib.errno p' == 0 then later else ok (m', p', n)

  -- The integers that `execute` leaves on the Lua stack, and the resumed parser.
  unfoldable pub reply : Message × Parser × ℕ → Message × Parser × List ℕ
  reply (m, p, n) =
      let p' = if lib.errno p == lib.paused then lib.pause p false else p in
      (m, p', if lib.errno p' == 0 then n ∷ [] else n ∷ lib.errno p' ∷ [])

  -- `execute` is the library's run on the bytes from `from` on.
  unfoldable pub execute :
      (Parser → Bytes → Trace) → Parser → Bytes → ℕ → Message → Result (Message × Parser × List ℕ)
  unfolding run reply
  execute http_parser_execute p data_bytes from m =
      if ltb (length data_bytes) from
      then raised bad_argument
      else (do r ← run (http_parser_execute p (drop from data_bytes)) m; ok (reply r))
