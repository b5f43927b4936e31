-- ===== src/Socket/Replies.antt =====
-- What the methods of src/lua-socket.c return to Lua.
use levent.Prelude.{
  ℕ, ◌<◌, ◌≡◌, refl, true, false, Bool, Option, none, some, List, [], ◌∷◌, Bytes, length, drop, ltb,
  leb, ◌==◌, arith, Bool-cases, Option-cases, inl, inr, if◌then◌else◌,
}
use levent.Socket.System.{
  Socket, Outcome, done, failed, looked_up, History, System, Item, nil, boolean, string, integer,
  socket, buffer, results,
}
use levent.Socket.Methods.{
  Reply, returns, raises, give, behind_buffer, push_result, push_error, push_outcome, make_addr,
  Method, setblocking, connect, recv, send, recvfrom, sendto, bind, listen, accept, fileno,
  getpeername, getsockname, getsockopt, setsockopt, close, has_addr_len, option_bytes,
  sock_setblocking, sock_connect, sock_bind, sock_listen, sock_recv, sock_recvfrom, sock_send,
  sock_sendto, sock_accept, sock_fileno, sock_getpeername, sock_getsockname, sock_getsockopt,
  sock_setsockopt, ask,
}
use levent.Socket.Resources.{Outcome-cases}

-- What was pushed, without the blocks of memory that a function pushes for its own use.
abbrev pub values : List Item → List Item
values [] = []
values (buffer ∷ items) = values items
values (nil ∷ items) = nil ∷ values items
values (boolean b ∷ items) = boolean b ∷ values items
values (integer i ∷ items) = integer i ∷ values items
values (string text ∷ items) = string text ∷ values items
values (socket sock ∷ items) = socket sock ∷ values items

-- All of that is what Lua gets.
abbrev pub IsWhole : Reply → Type 0
IsWhole (returns p) = results p ≡ values p.items
IsWhole (raises why) = Unit {0}

-- A `sendto` of some bytes to an address that `getaddrinfo` refuses.
abbrev pub is_refused : System → Method → Socket → History → Bool
is_refused sys (sendto host port buf from) sock h =
    if leb (length buf) from
    then false
    else elim (sys.getaddrinfo h sock host port) [ failed err ↦ true | done addr ↦ false ]
is_refused sys _ sock h = false

push_outcome-IsWhole : (o : Outcome (Unit {0})) → IsWhole (push_outcome o)
unfolding push_outcome push_result
push_outcome-IsWhole (done u) = refl
push_outcome-IsWhole (failed err) = elim (Bool-cases (err == 0)) [
  | inl e ↦ rw e refl
  | inr e ↦ rw e refl
]

module _ (sys : System) where
  push_result-IsWhole : (err : ℕ) → IsWhole (push_result err)
  unfolding push_result push_outcome
  push_result-IsWhole err = push_outcome-IsWhole (failed err)

  make_addr-IsWhole : (addr : Bytes) → IsWhole (behind_buffer (make_addr sys [] addr))
  unfolding make_addr behind_buffer
  make_addr-IsWhole addr = elim (Outcome-cases (sys.getnameinfo addr)) [
    | inl (err, e) ↦ rw (e, make_addr) refl
    | inr ((ip, port), e) ↦ rw (e, make_addr) refl
  ]

  from_addr-IsWhole :
      (buf addr : Bytes) → IsWhole (behind_buffer (make_addr sys (string buf ∷ []) addr))
  unfolding make_addr behind_buffer
  from_addr-IsWhole buf addr = elim (Outcome-cases (sys.getnameinfo addr)) [
    | inl (err, e) ↦ rw (e, make_addr) refl
    | inr ((ip, port), e) ↦ rw (e, make_addr) refl
  ]

  called :
      {A : Type 0} (o : Outcome A) (f : ℕ → Reply) (g : A → Reply) (h h' : History)
      → ((err : ℕ) → IsWhole (f err))
      → ((a : A) → IsWhole (g a))
      → IsWhole
          (elim o as (λ x. Reply × History) [ failed err ↦ (f err, h) | done a ↦ (g a, h') ]).0
  called (failed err) f g h h' hf hg = hf err
  called (done a) f g h h' hf hg = hg a

  -- What a method answers to Lua is what it pushed, in that order, without the blocks of memory that it
  -- pushed for its own use, on every branch; except for a refused `sendto`.
  pub ask-IsWhole :
      (m : Method) (sock : Socket) (h : History)
      → is_refused sys m sock h ≡ false
      → IsWhole (ask sys m sock h).0
  unfolding ask sock_setblocking sock_connect sock_bind sock_listen sock_recv sock_recvfrom
      sock_send sock_sendto sock_accept sock_fileno sock_getpeername sock_getsockname
      sock_getsockopt sock_setsockopt push_error behind_buffer
  ask-IsWhole (setblocking block) sock h heard = refl
  ask-IsWhole (connect host port) sock h heard =
      called (sys.getaddrinfo h sock host port) push_result _ _ _ push_result-IsWhole
        (λ addr. push_outcome-IsWhole (sys.connect (looked_up ∷ h) sock.fd addr))
  ask-IsWhole (bind host port) sock h heard =
      called (sys.getaddrinfo h sock host port) push_result _ _ _ push_result-IsWhole
        (λ addr. push_outcome-IsWhole (sys.bind (looked_up ∷ h) sock.fd addr))
  ask-IsWhole (recv len) sock h heard =
      called (sys.recv h sock.fd len) push_error _ _ _ (λ err. refl) (λ buf. refl)
  ask-IsWhole (send buf from) sock h heard = elim (Bool-cases (leb (length buf) from)) [
    | inl e ↦ rw (e, ask, sock_send) tt
    | inr e ↦
        rw (e, ask, sock_send)
          (called (sys.send h sock.fd (drop from buf)) push_error _ _ _ (λ err. refl) (λ n. refl))
  ]
  ask-IsWhole (recvfrom len) sock h heard = elim (Bool-cases (has_addr_len sys sock)) [
    | inl e ↦
        rw (e, ask, sock_recvfrom)
          (called (sys.recvfrom h sock.fd len) (λ err. behind_buffer (push_error err)) _ _ _
            (λ err. refl) (λ r. from_addr-IsWhole r.0 r.1))
    | inr e ↦ rw (e, ask, sock_recvfrom) tt
  ]
  ask-IsWhole (sendto host port buf from) sock h heard = elim (Bool-cases (leb (length buf) from)) [
    | inl e ↦ rw (e, ask, sock_sendto) tt
    | inr e ↦ elim (Outcome-cases (sys.getaddrinfo h sock host port)) [
      | inl (err, e') ↦
          let caught : is_refused sys (sendto host port buf from) sock h ≡ true =
            rw (e, e', is_refused) refl in
          let no : ⊥ = cc in absurd no
      | inr (addr, e') ↦
          rw (e, e', ask, sock_sendto)
            (called (sys.sendto (looked_up ∷ h) sock.fd (drop from buf) addr) push_error _ _ _
              (λ err. refl) (λ n. refl))
    ]
  ]
  ask-IsWhole (listen backlog) sock h heard = push_outcome-IsWhole (sys.listen h sock.fd backlog)
  ask-IsWhole accept sock h heard =
      called (sys.accept h sock.fd) push_error _ _ _ (λ err. refl) (λ fd. refl)
  ask-IsWhole fileno sock h heard = elim (Option-cases sock.fd) [
    | inl e ↦ rw (e, ask, sock_fileno) refl
    | inr (fd, e) ↦ rw (e, ask, sock_fileno) refl
  ]
  ask-IsWhole getpeername sock h heard = elim (Bool-cases (has_addr_len sys sock)) [
    | inl e ↦
        rw (e, ask, sock_getpeername)
          (called (sys.getpeername h sock.fd) (λ err. behind_buffer (push_error err)) _ _ _
            (λ err. refl) (λ addr. make_addr-IsWhole addr))
    | inr e ↦ rw (e, ask, sock_getpeername) tt
  ]
  ask-IsWhole getsockname sock h heard = elim (Bool-cases (has_addr_len sys sock)) [
    | inl e ↦
        rw (e, ask, sock_getsockname)
          (called (sys.getsockname h sock.fd) (λ err. behind_buffer (push_error err)) _ _ _
            (λ err. refl) (λ addr. make_addr-IsWhole addr))
    | inr e ↦ rw (e, ask, sock_getsockname) tt
  ]
  ask-IsWhole (getsockopt level optname buflen) sock h heard = elim (Bool-cases (ltb 1024 buflen)) [
    | inl e ↦ rw (e, ask, sock_getsockopt) tt
    | inr e ↦ elim (Bool-cases (buflen == 0)) [
      | inl e' ↦
          rw (e, e', ask, sock_getsockopt)
            (called (sys.getsockopt h sock.fd level optname 4) push_error _ _ _ (λ err. refl)
              (λ flag. refl))
      | inr e' ↦
          rw (e, e', ask, sock_getsockopt)
            (called (sys.getsockopt h sock.fd level optname buflen)
              (λ err. behind_buffer (push_error err)) _ _ _ (λ err. refl) (λ v. refl))
    ]
  ]
  ask-IsWhole (setsockopt level optname value) sock h heard =
      elim (Option-cases (option_bytes sys value)) [
        | inl e ↦ rw (e, ask, sock_setsockopt) tt
        | inr (buf, e) ↦
            rw (e, ask, sock_setsockopt)
              (called (sys.setsockopt h sock.fd level optname buf)
                (λ err. give (boolean false ∷ integer err ∷ []) 2) _ _ _ (λ err. refl) (λ u. refl))
      ]
  ask-IsWhole close sock h heard = refl

-- What Lua gets of a return.
abbrev pub lua_results : Reply → Option (List Item)
lua_results (returns p) = some (results p)
lua_results (raises why) = none

-- A `sendto` whose address is refused with an error number gives Lua the same results as one that has
-- sent that many bytes.
pub sendto_refused :
    (sys sys' : System) (sock : Socket) (host port buf addr : Bytes) (from n : ℕ) (h : History)
    → from < length buf
    → sys.getaddrinfo h sock host port ≡ failed n
    → sys'.getaddrinfo h sock host port ≡ done addr
    → sys'.sendto (looked_up ∷ h) sock.fd (drop from buf) addr ≡ done n
    → lua_results (ask sys (sendto host port buf from) sock h).0
      ≡ lua_results (ask sys' (sendto host port buf from) sock h).0
unfolding ask sock_sendto
sendto_refused sys sys' sock host port buf addr from n h some_bytes refused accepted sent =
    let more : leb (length buf) from ≡ false = ground arith in
    rw (more, refused, accepted, sent, ask, sock_sendto) refl
