-- ===== src/Socket/Methods.antt =====
-- The methods of a socket in src/lua-socket.c. A method takes the calls made so far and gives what it
-- pushed, or a Lua error, with the socket and the calls then. `errno` is that of the call that
-- failed: `freeaddrinfo` is taken to leave it.
use levent.Prelude.{
  ℕ, ◌+◌, ◌-◌, ◌/◌, ◌%◌, Bool, true, false, ◌||◌, Option, none, some, List, [], ◌∷◌, ◌++◌, Bytes,
  length, drop, ltb, leb, ◌==◌, if◌then◌else◌,
}
use levent.Prelude.Result.{Error, bad_argument, bad_family}
use levent.Socket.System.{
  Socket, Outcome, done, failed, looked_up, freed, closed, set_flags, other, History, System, Item,
  nil, boolean, integer, string, socket, buffer, Pushed,
}

-- A return of a C function, or a Lua error.
pub data Reply : Type 0 where
  returns : Pushed → Reply
  raises : Error → Reply

-- `return n` after pushes; no function has pushed anything before those.
abbrev pub give : List Item → ℕ → Reply
give items n = returns (record { items = items; returned = n })

-- A block of `lua_newuserdata`, which lies below what a function pushes then, and is not returned.
unfoldable pub behind_buffer : Reply → Reply
behind_buffer (returns p) = returns (record p { items = buffer ∷ p.items })
behind_buffer (raises why) = raises why

-- `_push_result`
unfoldable pub push_result : ℕ → Reply
push_result err =
    if err == 0 then give (boolean true ∷ []) 1 else give (boolean false ∷ integer err ∷ []) 2

-- `lua_pushnil(L); lua_pushinteger(L, errno); return 2;`
unfoldable pub push_error : ℕ → Reply
push_error err = give (nil ∷ integer err ∷ []) 2

-- `return _push_result(L, err == 0 ? err : errno)`; an error number is not 0.
unfoldable pub push_outcome : Outcome (Unit {0}) → Reply
unfolding push_result
push_outcome (done u) = push_result 0
push_outcome (failed err) = push_result err

-- `_sock_close`
unfoldable pub sock_close : Socket → History → Socket × History
sock_close sock h = elim sock.fd [
  | none ↦ (sock, h)
  | some fd ↦ (record sock { fd = none }, closed fd ∷ h)
]

-- -1 is its 64-bit pattern.
unfoldable pub sock_fileno : Socket → Reply
sock_fileno sock = elim sock.fd [
  | none ↦ give (integer 18446744073709551615 ∷ []) 1
  | some fd ↦ give (integer fd ∷ []) 1
]

-- The table `socket_methods`, and the metatable's `__gc`, which is `close` again.
pub data Method : Type 0 where
  setblocking : Bool → Method
  connect : Bytes → Bytes → Method
  recv : ℕ → Method
  send : Bytes → ℕ → Method
  recvfrom : ℕ → Method
  sendto : Bytes → Bytes → Bytes → ℕ → Method
  bind : Bytes → Bytes → Method
  listen : ℕ → Method
  accept : Method
  fileno : Method
  getpeername : Method
  getsockname : Method
  getsockopt : ℕ → ℕ → ℕ → Method
  setsockopt : ℕ → ℕ → Item → Method
  close : Method

module _ (sys : System) where
  -- `_getsockaddrlen`: whether the family has an address length.
  unfoldable pub has_addr_len : Socket → Bool
  has_addr_len sock = (sock.family == sys.af_inet) || (sock.family == sys.af_inet6)

  -- `_makeaddr`, behind what has been pushed
  unfoldable pub make_addr : List Item → Bytes → Reply
  make_addr before addr = elim (sys.getnameinfo addr) [
    | failed err ↦ give (before ++ (nil ∷ integer err ∷ [])) (length before + 2)
    | done (ip, port) ↦ give (before ++ (string ip ∷ string port ∷ [])) (length before + 2)
  ]

  -- `flag &= ~O_NONBLOCK` and `flag |= O_NONBLOCK`
  unfoldable pub new_flags : Bool → ℕ → ℕ
  new_flags block flag =
      let is_set = flag / sys.o_nonblock % 2 == 1 in
      if block
      then (if is_set then flag - sys.o_nonblock else flag)
      else (if is_set then flag else flag + sys.o_nonblock)

  unfoldable pub sock_setblocking : Socket → Bool → History → Reply × History
  unfolding new_flags
  sock_setblocking sock block h =
      let flag : ℕ = elim (sys.get_flags h sock.fd) [ none ↦ 0 | some flag ↦ flag ] in
      (give [] 0, set_flags (new_flags block flag) ∷ other ∷ h)

  unfoldable pub sock_connect : Socket → Bytes → Bytes → History → Reply × History
  unfolding push_result push_outcome
  sock_connect sock host port h = elim (sys.getaddrinfo h sock host port) [
    | failed err ↦ (push_result err, other ∷ h)
    | done addr ↦
        (push_outcome (sys.connect (looked_up ∷ h) sock.fd addr), freed ∷ other ∷ looked_up ∷ h)
  ]

  unfoldable pub sock_bind : Socket → Bytes → Bytes → History → Reply × History
  unfolding push_result push_outcome
  sock_bind sock host port h = elim (sys.getaddrinfo h sock host port) [
    | failed err ↦ (push_result err, other ∷ h)
    | done addr ↦
        (push_outcome (sys.bind (looked_up ∷ h) sock.fd addr), freed ∷ other ∷ looked_up ∷ h)
  ]

  unfoldable pub sock_listen : Socket → ℕ → History → Reply × History
  unfolding push_outcome
  sock_listen sock backlog h = (push_outcome (sys.listen h sock.fd backlog), other ∷ h)

  -- `len` is taken to fit the C stack, on which the buffer stands.
  unfoldable pub sock_recv : Socket → ℕ → History → Reply × History
  unfolding push_error
  sock_recv sock len h = elim (sys.recv h sock.fd len) [
    | failed err ↦ (push_error err, other ∷ h)
    | done buf ↦ (give (string buf ∷ []) 1, other ∷ h)
  ]

  unfoldable pub sock_recvfrom : Socket → ℕ → History → Reply × History
  unfolding behind_buffer push_error make_addr has_addr_len
  sock_recvfrom sock len h =
      if has_addr_len sock
      then elim (sys.recvfrom h sock.fd len) [
        | failed err ↦ (behind_buffer (push_error err), other ∷ h)
        | done (buf, addr) ↦ (behind_buffer (make_addr (string buf ∷ []) addr), other ∷ h)
      ]
      else (raises bad_family, h)

  unfoldable pub sock_send : Socket → Bytes → ℕ → History → Reply × History
  unfolding push_error
  sock_send sock buf from h =
      if leb (length buf) from
      then (raises bad_argument, h)
      else elim (sys.send h sock.fd (drop from buf)) [
        | failed err ↦ (push_error err, other ∷ h)
        | done nwrite ↦ (give (integer nwrite ∷ []) 1, other ∷ h)
      ]

  -- Where the address is refused two values are pushed and one is returned.
  unfoldable pub sock_sendto : Socket → Bytes → Bytes → Bytes → ℕ → History → Reply × History
  unfolding push_error
  sock_sendto sock host port buf from h =
      if leb (length buf) from
      then (raises bad_argument, h)
      else elim (sys.getaddrinfo h sock host port) [
        | failed err ↦ (give (nil ∷ integer err ∷ []) 1, other ∷ h)
        | done addr ↦ elim (sys.sendto (looked_up ∷ h) sock.fd (drop from buf) addr) [
          | failed err ↦ (push_error err, other ∷ looked_up ∷ h)
          | done nwrite ↦ (give (integer nwrite ∷ []) 1, other ∷ looked_up ∷ h)
        ]
      ]

  unfoldable pub sock_accept : Socket → History → Reply × History
  unfolding push_error
  sock_accept sock h = elim (sys.accept h sock.fd) [
    | failed err ↦ (push_error err, other ∷ h)
    | done fd ↦ (give (socket (record sock { fd = some fd }) ∷ []) 1, other ∷ h)
  ]

  unfoldable pub sock_getpeername : Socket → History → Reply × History
  unfolding behind_buffer push_error make_addr has_addr_len
  sock_getpeername sock h =
      if has_addr_len sock
      then elim (sys.getpeername h sock.fd) [
        | failed err ↦ (behind_buffer (push_error err), other ∷ h)
        | done addr ↦ (behind_buffer (make_addr [] addr), other ∷ h)
      ]
      else (raises bad_family, h)

  unfoldable pub sock_getsockname : Socket → History → Reply × History
  unfolding behind_buffer push_error make_addr has_addr_len
  sock_getsockname sock h =
      if has_addr_len sock
      then elim (sys.getsockname h sock.fd) [
        | failed err ↦ (behind_buffer (push_error err), other ∷ h)
        | done addr ↦ (behind_buffer (make_addr [] addr), other ∷ h)
      ]
      else (raises bad_family, h)

  -- With `buflen` 0 the option is an `int`, of four bytes.
  unfoldable pub sock_getsockopt : Socket → ℕ → ℕ → ℕ → History → Reply × History
  unfolding behind_buffer push_error
  sock_getsockopt sock level optname buflen h =
      if ltb 1024 buflen
      then (raises bad_argument, h)
      else if buflen == 0
      then elim (sys.getsockopt h sock.fd level optname 4) [
        | failed err ↦ (push_error err, other ∷ h)
        | done flag ↦ (give (integer (sys.bytes_int flag) ∷ []) 1, other ∷ h)
      ]
      else elim (sys.getsockopt h sock.fd level optname buflen) [
        | failed err ↦ (behind_buffer (push_error err), other ∷ h)
        | done optval ↦ (behind_buffer (give (string optval ∷ []) 1), other ∷ h)
      ]

  -- The bytes of the option's value: a string, or a number that is stored in an `int`.
  unfoldable pub option_bytes : Item → Option Bytes
  option_bytes (string buf) = some buf
  option_bytes (integer flag) = some (sys.int_bytes flag)
  option_bytes _ = none

  unfoldable pub sock_setsockopt : Socket → ℕ → ℕ → Item → History → Reply × History
  unfolding option_bytes
  sock_setsockopt sock level optname value h = elim (option_bytes value) [
    | none ↦ (raises bad_argument, h)
    | some buf ↦ elim (sys.setsockopt h sock.fd level optname buf) [
      | failed err ↦ (give (boolean false ∷ integer err ∷ []) 2, other ∷ h)
      | done u ↦ (give (boolean true ∷ []) 1, other ∷ h)
    ]
  ]

  -- What every method but `close` gives.
  unfoldable pub ask : Method → Socket → History → Reply × History
  ask (setblocking block) sock h = sock_setblocking sock block h
  ask (connect host port) sock h = sock_connect sock host port h
  ask (recv len) sock h = sock_recv sock len h
  ask (send buf from) sock h = sock_send sock buf from h
  ask (recvfrom len) sock h = sock_recvfrom sock len h
  ask (sendto host port buf from) sock h = sock_sendto sock host port buf from h
  ask (bind host port) sock h = sock_bind sock host port h
  ask (listen backlog) sock h = sock_listen sock backlog h
  ask accept sock h = sock_accept sock h
  ask fileno sock h = (sock_fileno sock, h)
  ask getpeername sock h = sock_getpeername sock h
  ask getsockname sock h = sock_getsockname sock h
  ask (getsockopt level optname buflen) sock h = sock_getsockopt sock level optname buflen h
  ask (setsockopt level optname value) sock h = sock_setsockopt sock level optname value h
  ask close sock h = (give [] 0, h)

  -- A method on the socket: only `close` changes it.
  unfoldable pub perform : Method → Socket → History → Socket × History
  unfolding sock_close ask
  perform close sock h = sock_close sock h
  perform m sock h = (sock, (ask m sock h).1)

  -- Methods one after the other. A Lua error in one leaves the socket to the next.
  unfoldable pub perform_all : List Method → Socket → History → Socket × History
  unfolding perform
  perform_all [] sock h = (sock, h)
  perform_all (m ∷ ms) sock h = do let (sock', h') = perform m sock h; perform_all ms sock' h'
