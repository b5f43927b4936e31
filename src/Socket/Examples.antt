-- ===== src/Socket/Examples.antt =====
-- The theorems on src/lua-socket.c at a concrete system.
use levent.Prelude.{ℕ, ◌+◌, ◌≡◌, refl, none, some, List, [], ◌∷◌, arith, Bytes}
use levent.Socket.System.{Socket, done, failed, AddrInfo, System}
use levent.Socket.Methods.{
  Method, connect, send, sendto, close, getpeername, sock_close, ask, perform_all,
}
use levent.Socket.Resources.{closings, lookups, frees, leaked_all, closed_once, lists_freed}
use levent.Socket.Resolve.{Row, resolve, AreRows, resolve_lem}
use levent.Socket.Replies.{IsWhole, lua_results, ask-IsWhole, sendto_refused}

abbrev host : Bytes
host = b'h' ∷ []

abbrev infos : List AddrInfo
infos =
    record { ai_family = 2; ai_socktype = 1; ai_addr = 1 ∷ 2 ∷ [] }
    ∷ record { ai_family = 2; ai_socktype = 2; ai_addr = 3 ∷ [] }
    ∷ record { ai_family = 10; ai_socktype = 1; ai_addr = 4 ∷ [] }
    ∷ []

-- A system on which everything succeeds and sends `sent` bytes.
abbrev system : ℕ → System
system sent = record {
  af_inet = 2;
  af_inet6 = 10;
  sock_stream = 1;
  socket = λ h family type protocol. done 3;
  resolve = λ h host. done infos;
  getaddrinfo = λ h sock host port. done (9 ∷ []);
  connect = λ h fd addr. done tt;
  bind = λ h fd addr. done tt;
  listen = λ h fd backlog. done tt;
  accept = λ h fd. done 4;
  recv = λ h fd len. done (1 ∷ []);
  recvfrom = λ h fd len. done (1 ∷ [], 9 ∷ []);
  send = λ h fd buf. done sent;
  sendto = λ h fd buf addr. done sent;
  getpeername = λ h fd. done (9 ∷ []);
  getsockname = λ h fd. done (9 ∷ []);
  getsockopt = λ h fd level optname len. done (1 ∷ []);
  setsockopt = λ h fd level optname buf. done tt;
  get_flags = λ h fd. some 2;
  o_nonblock = 2048;
  getnameinfo = λ addr. done (host, host);
  inet_ntop = λ family addr. addr;
  inet_pton = λ family text. some text;
  int_bytes = λ n. n ∷ [];
  bytes_int = λ bytes. 1;
}

abbrev deaf : ℕ → System
deaf err = record (system 0) { getaddrinfo = λ h sock host port. failed err }

abbrev client : Socket
client = record { fd = some 3; family = 2; type = 2; protocol = 17 }

abbrev session : List Method
session = connect host host ∷ send (1 ∷ []) 0 ∷ sendto host host (1 ∷ 2 ∷ []) 1 ∷ close ∷ close ∷ []

closed_once_example :
    ((sock_close
        (perform_all (system 1) session client []).0
        (perform_all (system 1) session client []).1).0.fd
      ≡ none)
    × (closings 3
          (sock_close
            (perform_all (system 1) session client []).0
            (perform_all (system 1) session client []).1).1
        ≡ 1)
closed_once_example = closed_once (system 1) session client [] 3 refl

lists_freed_example :
    lookups (perform_all (system 1) session client []).1 + frees []
    ≡ lookups []
      + frees (perform_all (system 1) session client []).1
      + leaked_all (system 1) session client []
lists_freed_example = lists_freed (system 1) session client []

resolve_lem_example :
    (rows : List Row) × ((resolve (system 1) host []).0 ≡ done rows) × AreRows (system 1) infos rows
resolve_lem_example = resolve_lem (system 1) host [] infos refl

ask-IsWhole_example : IsWhole (ask (system 1) getpeername client []).0
ask-IsWhole_example = ask-IsWhole (system 1) getpeername client [] refl

sendto_refused_example :
    lua_results (ask (deaf 5) (sendto host host (1 ∷ 2 ∷ []) 1) client []).0
    ≡ lua_results (ask (system 5) (sendto host host (1 ∷ 2 ∷ []) 1) client []).0
sendto_refused_example =
    sendto_refused (deaf 5) (system 5) client host host (1 ∷ 2 ∷ []) (9 ∷ []) 1 5 [] (omega arith)
      refl refl refl
