-- ===== src/Http/Url.antt =====
-- `lparse_url` and `lversion` of src/lua-http-parser.c.
use levent.Prelude.{
  ℕ, ◌+◌, ◌/◌, ◌%◌, ◌^◌, ◌≤◌, ◌≡◌, refl, Bool, true, false, Option, none, some, Bytes, arith,
  length, take, drop, take-append-drop, length-take, ltb, ltb-false, ◌==◌, if◌then◌else◌, zero, suc,
  ap, [], ◌∷◌, ◌++◌, inl, inr, Bool-cases,
}
use levent.Prelude.Result.{Result, ok, fault, ◌>>=◌}
use native.Mathlib.Nat.{zero-add, suc-add}

-- `struct http_parser_url`, filled by `http_parser_parse_url`.
pub record UrlInfo : Type 0 where
  pub field_set : ℕ
  pub port : ℕ
  pub off : ℕ → ℕ
  pub len : ℕ → ℕ

-- `enum http_parser_url_fields`
abbrev pub uf_schema : ℕ
uf_schema = 0

abbrev pub uf_host : ℕ
uf_host = 1

abbrev pub uf_path : ℕ
uf_path = 3

abbrev pub uf_query : ℕ
uf_query = 4

abbrev pub uf_fragment : ℕ
uf_fragment = 5

abbrev pub uf_userinfo : ℕ
uf_userinfo = 6

-- `lua_pushlstring(L, buf + off, len)`; reading past the buffer is undefined.
unfoldable pub slice : Bytes → ℕ → ℕ → Result Bytes
slice buf off len = if ltb (length buf) (off + len) then fault else ok (take len (drop off buf))

-- A field is set if its bit of `field_set` is.
unfoldable pub set_url_field : UrlInfo → Bytes → ℕ → Result (Option Bytes)
unfolding slice
set_url_field u buf uf =
    if u.field_set / 2 ^ uf % 2 == 1
    then (do ok (some (← slice buf (u.off uf) (u.len uf))))
    else ok none

pub record Url : Type 0 where
  pub schema : Option Bytes
  pub host : Option Bytes
  pub request_path : Option Bytes
  pub query_string : Option Bytes
  pub fragment : Option Bytes
  pub userinfo : Option Bytes
  pub port : Option ℕ

-- `parse` is `http_parser_parse_url`; no value is returned where it fails.
unfoldable pub parse_url : (Bytes → Bool → Option UrlInfo) → Bytes → Bool → Result (Option Url)
parse_url parse buf is_connect = elim (parse buf is_connect) [
  | none ↦ ok none
  | some u ↦ do
    schema ← set_url_field u buf uf_schema
    host ← set_url_field u buf uf_host
    request_path ← set_url_field u buf uf_path
    query_string ← set_url_field u buf uf_query
    fragment ← set_url_field u buf uf_fragment
    userinfo ← set_url_field u buf uf_userinfo
    ok (
        some (record {
          schema = schema;
          host = host;
          request_path = request_path;
          query_string = query_string;
          fragment = fragment;
          userinfo = userinfo;
          port = if u.port == 0 then none else some u.port;
        }))
]

-- The three numbers that `lversion` prints.
unfoldable pub version : ℕ → ℕ × ℕ × ℕ
version v = (v / 2 ^ 16 % 256, v / 2 ^ 8 % 256, v % 256)

-- `s` is the part of `buf` of length `len` at `off`.
abbrev pub IsPart : Bytes → ℕ → ℕ → Bytes → Type 0
IsPart buf off len s = (take off buf ++ (s ++ drop (off + len) buf) ≡ buf) × (length s ≡ len)

take-drop-IsPart :
    (buf : Bytes) (off len : ℕ)
    → off + len ≤ length buf
    → IsPart buf off len (take len (drop off buf))
take-drop-IsPart buf zero len h =
    (rw zero-add (take-append-drop len buf), omega (arith, length-take {0} len buf))
take-drop-IsPart [] (suc off) len h = absurd (omega arith)
take-drop-IsPart (b ∷ buf) (suc off) len h =
    let (e, l) = take-drop-IsPart buf off len (omega arith) in (rw suc-add (ap (λ r. b ∷ r) e), l)

abbrev pub is_set : UrlInfo → ℕ → Bool
is_set u uf = u.field_set / 2 ^ uf % 2 == 1

-- What a field of the result table says about the parsed URL.
abbrev pub Component : UrlInfo → Bytes → ℕ → Option Bytes → Type 0
Component u buf uf o =
    (is_set u uf ≡ true → (s : Bytes) × (o ≡ some s) × IsPart buf (u.off uf) (u.len uf) s)
    × (is_set u uf ≡ false → o ≡ none)

-- The fields that are set lie in the buffer, as http_parser.h documents it.
abbrev pub InBounds : UrlInfo → Bytes → Type 0
InBounds u buf = (uf : ℕ) → is_set u uf ≡ true → u.off uf + u.len uf ≤ length buf

set_url_field_lem :
    (u : UrlInfo) (buf : Bytes) (uf : ℕ)
    → InBounds u buf
    → (o : Option Bytes) × (set_url_field u buf uf ≡ ok o) × Component u buf uf o
unfolding set_url_field
set_url_field_lem u buf uf h = elim (Bool-cases (is_set u uf)) [
  | inl yes_set ↦
      let fits = h uf yes_set in
      let s = take (u.len uf) (drop (u.off uf) buf) in
      (
        some s,
        rw (yes_set, ltb-false (length buf) (u.off uf + u.len uf) fits),
        (λ _. (s, refl, take-drop-IsPart buf (u.off uf) (u.len uf) fits), λ clear. cc),
      )
  | inr clear ↦ (none, rw clear, (λ set. cc, λ _. refl))
]

-- Of a text that http_parser accepts every component of the
-- table is there exactly when its bit is set, and is then the part of the text that http_parser
-- reports, and `port` is there exactly when it is not 0. Nothing outside the text is read, where
-- the parts that http_parser reports lie within it.
pub parse_url_lem :
    (parse : Bytes → Bool → Option UrlInfo) (buf : Bytes) (is_connect : Bool) (u : UrlInfo)
    → parse buf is_connect ≡ some u
    → InBounds u buf
    → (r : Url) × (parse_url parse buf is_connect ≡ ok (some r))
      × Component u buf uf_schema r.schema
      × Component u buf uf_host r.host
      × Component u buf uf_path r.request_path
      × Component u buf uf_query r.query_string
      × Component u buf uf_fragment r.fragment
      × Component u buf uf_userinfo r.userinfo
      × (r.port ≡ (if u.port == 0 then none else some u.port))
unfolding parse_url
parse_url_lem parse buf is_connect u e h =
    let (a, ea, ca) = set_url_field_lem u buf uf_schema h in
    let (b, eb, cb) = set_url_field_lem u buf uf_host h in
    let (c, ec, cc') = set_url_field_lem u buf uf_path h in
    let (d, ed, cd) = set_url_field_lem u buf uf_query h in
    let (f, ef, cf) = set_url_field_lem u buf uf_fragment h in
    let (g, eg, cg) = set_url_field_lem u buf uf_userinfo h in
    (
      record {
        schema = a;
        host = b;
        request_path = c;
        query_string = d;
        fragment = f;
        userinfo = g;
        port = if u.port == 0 then none else some u.port;
      },
      rw (e, parse_url, ea, eb, ec, ed, ef, eg),
      ca,
      cb,
      cc',
      cd,
      cf,
      cg,
      refl,
    )
