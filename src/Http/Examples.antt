-- ===== src/Http/Examples.antt =====
-- The theorems on src/lua-http-parser.c at concrete messages, with a small parser that stands for
-- http_parser, and runs of the callbacks.
use levent.Prelude.{
  ℕ, ◌≤◌, ◌≡◌, refl, Bool, true, false, Option, none, some, List, [], ◌∷◌, arith, Bytes,
  if◌then◌else◌, ◌==◌,
}
use levent.Prelude.Result.{ok}
use levent.Http.Dict.{Dict, lookup, last_value}
use levent.Http.Callbacks.{
  Message, ParserLib, message_begin, header_field, header_value, headers_complete, message_complete,
  headers_table,
}
use levent.Http.Execute.{Trace, finish, call, run, execute}
use levent.Http.Url.{
  UrlInfo, Url, parse_url, Component, uf_schema, uf_host, uf_path, uf_query, uf_fragment,
  uf_userinfo, parse_url_lem,
}
use levent.Http.Headers.{HeaderCalls, done, header, other, last, more, headers_chunked}
use levent.Http.Outcome.{Reply, execute_outcome, execute_returns}

-- A parser that is nothing but its error number; HPE_PAUSED is 31.
abbrev tiny : ParserLib
tiny = record {
  Parser = ℕ;
  errno = λ p. p;
  http_major = λ p. 1;
  http_minor = λ p. 1;
  method = λ p. 1;
  status_code = λ p. 200;
  upgrade = λ p. false;
  should_keep_alive = λ p. true;
  method_str = λ k. b'G' ∷ b'E' ∷ b'T' ∷ [];
  pause = λ p paused. if paused then 31 else 0;
  paused = 31;
  paused_ne_ok = λ e. absurd (omega arith);
  errno-pause = λ p e. refl;
  errno-resume = λ p e. refl;
}

abbrev fresh : Message
fresh = record {
  complete = none;
  is_request = none;
  method = none;
  request_url = none;
  status = none;
  status_code = none;
  headers = none;
  body = none;
  keepalive = none;
  upgrade = none;
  http_major = none;
  http_minor = none;
  slots = [];
}

abbrev host : Bytes
host = b'H' ∷ b'o' ∷ b's' ∷ b't' ∷ []

abbrev end_of : Trace tiny
end_of = call message_complete 0 9 (finish 0 9)

-- "Host" in two pieces, its value "ab" in one, and the end of the headers.
abbrev cut : Trace tiny
cut = call message_begin 0 1 (
    call (header_field (b'H' ∷ b'o' ∷ [])) 0 3 (
      call (header_field (b's' ∷ b't' ∷ [])) 0 5
        (call (header_value (b'a' ∷ b'b' ∷ [])) 0 7 (call headers_complete 0 8 end_of))))

cut_calls : HeaderCalls tiny cut ((host, b'a' ∷ b'b' ∷ []) ∷ []) end_of
cut_calls = other message_begin 0 1 refl refl (
    header host (b'a' ∷ b'b' ∷ [])
      (more (b'H' ∷ b'o' ∷ []) (b's' ∷ b't' ∷ []) 0 3 refl (last _ 0 5 refl) refl) (last _ 0 7 refl)
      (other headers_complete 0 8 refl refl done))

headers_chunked_example :
    (m' : Message) × (h : Dict) × (run tiny cut fresh ≡ ok (m', 31, 9))
    × (m'.complete ≡ some true)
    × (m'.slots ≡ [])
    × (m'.headers ≡ some h)
    × ((k : Bytes)
        → lookup k h ≡ last_value k ((host, b'a' ∷ b'b' ∷ []) ∷ []) (lookup k (headers_table none)))
headers_chunked_example = headers_chunked tiny 0 9 (finish 0 9) fresh cut_calls refl refl

abbrev runs_cut : ℕ → Bytes → Trace tiny
runs_cut p bytes = cut

execute_returns_example : (r : Message × ℕ × List ℕ) × (execute tiny runs_cut 0 host 1 fresh ≡ ok r)
execute_returns_example =
    execute_returns tiny runs_cut 0 host 1 fresh (omega arith) (omega arith) tt

execute_outcome_example : (1 ≤ 4) × Reply tiny cut execute_returns_example.0
execute_outcome_example =
    execute_outcome tiny runs_cut 0 host 1 fresh (omega arith) execute_returns_example.1

-- "/x" with only a path.
abbrev only_path : UrlInfo
only_path = record { field_set = 8; port = 0; off = λ uf. 0; len = λ uf. if uf == 3 then 2 else 0 }

abbrev slash_x : Bytes
slash_x = b'/' ∷ b'x' ∷ []

abbrev parses : Bytes → Bool → Option UrlInfo
parses bytes is_connect = some only_path

parse_url_lem_example :
    (r : Url) × (parse_url parses slash_x false ≡ ok (some r))
    × Component only_path slash_x uf_schema r.schema
    × Component only_path slash_x uf_host r.host
    × Component only_path slash_x uf_path r.request_path
    × Component only_path slash_x uf_query r.query_string
    × Component only_path slash_x uf_fragment r.fragment
    × Component only_path slash_x uf_userinfo r.userinfo
    × (r.port ≡ none)
parse_url_lem_example = parse_url_lem parses slash_x false only_path refl (λ uf h. ground arith)
