-- ===== src/Socket/Resolve.antt =====
-- The functions of the module in src/lua-socket.c: `socket`, `resolve` and `normalize_ip`.
use levent.Prelude.{
  ℕ, ◌≡◌, ◌<◌, ◌≤◌, ◌⊎◌, refl, true, false, arith, ==_iff, sym, ap, Bool, ◌&&◌, ◌||◌, Option, none,
  some, List, [], ◌∷◌, ◌++◌, append-nil, append_assoc, Bytes, length, ltb, ◌==◌, if◌then◌else◌,
  Bool-cases, inl, inr,
}
use levent.Socket.System.{
  Outcome, done, failed, AddrInfo, looked_up, other, History, System, nil, string, socket,
}
use levent.Socket.Methods.{Reply, give, push_error}

-- `sizeof(struct in6_addr)`, the size of the buffer for an address's text in `_resolve`.
abbrev pub buf_size : ℕ
buf_size = 16

-- A row of the table that `resolve` builds; `none` is a nil address.
pub record Row : Type 0 where
  pub family : ℕ
  pub addr : Option Bytes

module _ (sys : System) where
  -- `_addr2string`: `inet_ntop` fails where the text with its zero does not fit the buffer.
  unfoldable pub addr2string : AddrInfo → Option Bytes
  addr2string info =
      let family = if info.ai_family == sys.af_inet then sys.af_inet else info.ai_family in
      let text = sys.inet_ntop family info.ai_addr in
      if ltb (length text) buf_size then some text else none

  unfoldable pub is_supported : AddrInfo → Bool
  is_supported info =
      ((info.ai_family == sys.af_inet) || (info.ai_family == sys.af_inet6))
      && (info.ai_socktype == sys.sock_stream)

  abbrev pub row_of : AddrInfo → Row
  row_of info = record { family = info.ai_family; addr = addr2string info }

  -- `while(res)`, with the rows so far: `i` is one more than their number.
  unfoldable pub resolve_rows : List AddrInfo → List Row → List Row
  unfolding is_supported
  resolve_rows [] rows = rows
  resolve_rows (info ∷ infos) rows =
      let kept = resolve_rows infos (rows ++ (row_of info ∷ [])) in
      let skipped = resolve_rows infos rows in if is_supported info then kept else skipped

  -- `_resolve`: the rows, or what is pushed on an error. The list is not freed.
  unfoldable pub resolve : Bytes → History → Outcome (List Row) × History
  unfolding resolve_rows
  resolve host h = elim (sys.resolve h host) [
    | failed err ↦ (failed err, other ∷ h)
    | done infos ↦ (done (resolve_rows infos []), looked_up ∷ h)
  ]

  -- `_socket`
  unfoldable pub open_socket : ℕ → ℕ → ℕ → History → Reply × History
  unfolding push_error
  open_socket family type protocol h = elim (sys.socket h family type protocol) [
    | failed err ↦ (push_error err, other ∷ h)
    | done fd ↦ (
      give
          (socket (record { fd = some fd; family = family; type = type; protocol = protocol }) ∷ [])
          1,
      other ∷ h,
    )
  ]

  -- `_normalize_ip`. The text of a parsed address always fits `INET6_ADDRSTRLEN`.
  unfoldable pub normalize_ip : Bytes → Bool → Reply
  normalize_ip host ipv6 =
      let domain = if ipv6 then sys.af_inet6 else sys.af_inet in
      elim (sys.inet_pton domain host) [
        | none ↦ give (nil ∷ []) 1
        | some addr ↦ give (string (sys.inet_ntop domain addr) ∷ []) 1
      ]

-- An address of a stream socket, of IPv4 or IPv6.
abbrev pub IsAsked : System → AddrInfo → Type 0
IsAsked sys info =
    ((info.ai_family ≡ sys.af_inet) ⊎ (info.ai_family ≡ sys.af_inet6))
    × (info.ai_socktype ≡ sys.sock_stream)

-- The text of an address, or nil.
pub data IsText (sys : System) (info : AddrInfo) : Option Bytes → Type 0 where
  short :
      length (sys.inet_ntop info.ai_family info.ai_addr) < 16
      → IsText sys info (some (sys.inet_ntop info.ai_family info.ai_addr))
  long : 16 ≤ length (sys.inet_ntop info.ai_family info.ai_addr) → IsText sys info none

-- The rows for a list of addresses.
pub data AreRows (sys : System) : List AddrInfo → List Row → Type 0 where
  all_done : AreRows sys [] []
  kept :
      (info : AddrInfo) (infos : List AddrInfo) (text : Option Bytes) (rows : List Row)
      → IsAsked sys info
      → IsText sys info text
      → AreRows sys infos rows
      → AreRows sys (info ∷ infos) (record { family = info.ai_family; addr = text } ∷ rows)
  skipped :
      (info : AddrInfo) (infos : List AddrInfo) (rows : List Row)
      → ¬ IsAsked sys info
      → AreRows sys infos rows
      → AreRows sys (info ∷ infos) rows

module _ (sys : System) where
  is_supported-IsAsked : (info : AddrInfo) → is_supported sys info ≡ true → IsAsked sys info
  unfolding is_supported
  is_supported-IsAsked info e = ground (
    arith,
    ==_iff info.ai_family sys.af_inet,
    ==_iff info.ai_family sys.af_inet6,
    ==_iff info.ai_socktype sys.sock_stream,
  )

  unsupported-IsAsked : (info : AddrInfo) → is_supported sys info ≡ false → ¬ IsAsked sys info
  unfolding is_supported
  unsupported-IsAsked info e asked = ground (
    arith,
    ==_iff info.ai_family sys.af_inet,
    ==_iff info.ai_family sys.af_inet6,
    ==_iff info.ai_socktype sys.sock_stream,
    asked,
  )

  addr2string-IsText : (info : AddrInfo) → IsText sys info (addr2string sys info)
  unfolding addr2string
  addr2string-IsText info =
      let text = sys.inet_ntop info.ai_family info.ai_addr in
      let same : (if info.ai_family == sys.af_inet then sys.af_inet else info.ai_family)
          ≡ info.ai_family =
        ground (arith, ==_iff info.ai_family sys.af_inet) in
      elim (Bool-cases (ltb (length text) buf_size)) [
        | inl e ↦ rw (same, e) (short (ground (arith, e)))
        | inr e ↦ rw (same, e) (long (ground (arith, e)))
      ]

  rows_lem :
      (infos : List AddrInfo) (rows : List Row)
      → (new : List Row) × (resolve_rows sys infos rows ≡ rows ++ new) × AreRows sys infos new
  unfolding resolve_rows
  rows_lem [] rows = ([], sym (append-nil rows), all_done)
  rows_lem (info ∷ infos) rows = elim (Bool-cases (is_supported sys info)) [
    | inl e ↦
        let (new, same, are) = rows_lem infos (rows ++ (row_of sys info ∷ [])) in
        (
          row_of sys info ∷ new,
          rw (e, same) (append_assoc rows _ _),
          kept info infos (addr2string sys info) new (is_supported-IsAsked info e)
              (addr2string-IsText info) are,
        )
    | inr e ↦
        let (new, same, are) = rows_lem infos rows in
        (new, rw (e, same) refl, skipped info infos new (unsupported-IsAsked info e) are)
  ]

-- A host that is found gives a row for each address of a stream socket of IPv4 or IPv6, in their order, with
-- its family and its text, or nil for a text of 16 bytes or more; and no row for another address.
pub resolve_lem :
    (sys : System) (host : Bytes) (h : History) (infos : List AddrInfo)
    → sys.resolve h host ≡ done infos
    → (rows : List Row) × ((resolve sys host h).0 ≡ done rows) × AreRows sys infos rows
unfolding resolve
resolve_lem sys host h infos found =
    let (rows, same, are) = rows_lem sys infos [] in (rows, rw (found, resolve) (ap done same), are)
