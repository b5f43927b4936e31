-- ===== src/Socket/Resources.antt =====
-- Descriptors and lists of addresses that src/lua-socket.c gives back.
use levent.Prelude.{
  ℕ, suc, ◌+◌, ◌≡◌, refl, none, some, List, [], ◌∷◌, ap, ◌∙◌, Bytes, Bool-cases, Option-cases,
  ==_refl, ◌⊎◌, inl, inr, drop, ltb, length, leb, arith, ◌==◌, if◌then◌else◌,
}
use levent.Socket.System.{
  Socket, Outcome, done, failed, looked_up, freed, closed, set_flags, other, History, System,
}
use levent.Socket.Methods.{
  Reply, Method, setblocking, connect, recv, send, recvfrom, sendto, bind, listen, accept, fileno,
  getpeername, getsockname, getsockopt, setsockopt, close, has_addr_len, option_bytes, sock_close,
  sock_setblocking, sock_connect, sock_bind, sock_listen, sock_recv, sock_recvfrom, sock_send,
  sock_sendto, sock_accept, sock_getpeername, sock_getsockname, sock_getsockopt, sock_setsockopt,
  ask, perform, perform_all,
}

-- How often a descriptor was closed.
abbrev pub closings : ℕ → History → ℕ
closings fd [] = 0
closings fd (closed n ∷ h) = if n == fd then suc (closings fd h) else closings fd h
closings fd (looked_up ∷ h) = closings fd h
closings fd (freed ∷ h) = closings fd h
closings fd (set_flags flag ∷ h) = closings fd h
closings fd (other ∷ h) = closings fd h

-- How many lists of `getaddrinfo` were asked for, and how many were freed.
abbrev pub lookups : History → ℕ
lookups [] = 0
lookups (looked_up ∷ h) = suc (lookups h)
lookups (freed ∷ h) = lookups h
lookups (closed n ∷ h) = lookups h
lookups (set_flags flag ∷ h) = lookups h
lookups (other ∷ h) = lookups h

abbrev pub frees : History → ℕ
frees [] = 0
frees (freed ∷ h) = suc (frees h)
frees (looked_up ∷ h) = frees h
frees (closed n ∷ h) = frees h
frees (set_flags flag ∷ h) = frees h
frees (other ∷ h) = frees h

pub Outcome-cases :
    {A : Type 0} (o : Outcome A) → ((err : ℕ) × (o ≡ failed err)) ⊎ ((a : A) × (o ≡ done a))
Outcome-cases (failed err) = inl (err, refl)
Outcome-cases (done a) = inr (a, refl)

-- How a method other than `close` adds to the calls, with the number of lists that it keeps.
data Growth (h : History) : ℕ → History → Type 0 where
  unchanged : Growth h 0 h
  one_call : Growth h 0 (other ∷ h)
  flags_set : (flag : ℕ) → Growth h 0 (set_flags flag ∷ other ∷ h)
  list_freed : Growth h 0 (freed ∷ other ∷ looked_up ∷ h)
  list_kept : Growth h 1 (other ∷ looked_up ∷ h)

Growth-closings : {h h' : History} {n : ℕ} (fd : ℕ) → Growth h n h' → closings fd h' ≡ closings fd h
Growth-closings fd unchanged = refl
Growth-closings fd one_call = refl
Growth-closings fd (flags_set flag) = refl
Growth-closings fd list_freed = refl
Growth-closings fd list_kept = refl

Growth-lists :
    {h h' : History} {n : ℕ} → Growth h n h' → lookups h' + frees h ≡ lookups h + frees h' + n
Growth-lists unchanged = omega arith
Growth-lists one_call = omega arith
Growth-lists (flags_set flag) = omega arith
Growth-lists list_freed = omega arith
Growth-lists list_kept = omega arith

-- 1 for a list of addresses, 0 where there is none.
abbrev pub list_count : Outcome Bytes → ℕ
list_count (failed err) = 0
list_count (done addr) = 1

-- The lists that a method asks for and does not free: `sendto` frees none.
abbrev pub leaked : System → Method → Socket → History → ℕ
leaked sys (sendto host port buf from) sock h =
    if leb (length buf) from then 0 else list_count (sys.getaddrinfo h sock host port)
leaked sys _ sock h = 0

module _ (sys : System) where
  -- One call that succeeds or fails.
  called :
      {A : Type 0} (o : Outcome A) (f : ℕ → Reply) (g : A → Reply) (h : History)
      → Growth h 0
          (elim o as (λ x. Reply × History) [
            | failed err ↦ (f err, other ∷ h)
            | done a ↦ (g a, other ∷ h)
          ]).1
  called (failed err) f g h = one_call
  called (done a) f g h = one_call

  ask-Growth :
      (m : Method) (sock : Socket) (h : History)
      → Growth h (leaked sys m sock h) (ask sys m sock h).1
  unfolding ask sock_setblocking sock_connect sock_bind sock_listen sock_recv sock_recvfrom
      sock_send sock_sendto sock_accept sock_getpeername sock_getsockname sock_getsockopt
      sock_setsockopt
  ask-Growth (setblocking block) sock h = flags_set _
  ask-Growth (connect host port) sock h = elim (Outcome-cases (sys.getaddrinfo h sock host port)) [
    | inl (err, e) ↦ rw (e, ask, sock_connect) one_call
    | inr (addr, e) ↦ rw (e, ask, sock_connect) list_freed
  ]
  ask-Growth (bind host port) sock h = elim (Outcome-cases (sys.getaddrinfo h sock host port)) [
    | inl (err, e) ↦ rw (e, ask, sock_bind) one_call
    | inr (addr, e) ↦ rw (e, ask, sock_bind) list_freed
  ]
  ask-Growth (recv len) sock h = called (sys.recv h sock.fd len) _ _ h
  ask-Growth (send buf from) sock h = elim (Bool-cases (leb (length buf) from)) [
    | inl e ↦ rw (e, ask, sock_send) unchanged
    | inr e ↦ rw (e, ask, sock_send) (called (sys.send h sock.fd (drop from buf)) _ _ h)
  ]
  ask-Growth (recvfrom len) sock h = elim (Bool-cases (has_addr_len sys sock)) [
    | inl e ↦ rw (e, ask, sock_recvfrom) (called (sys.recvfrom h sock.fd len) _ _ h)
    | inr e ↦ rw (e, ask, sock_recvfrom) unchanged
  ]
  ask-Growth (sendto host port buf from) sock h = elim (Bool-cases (leb (length buf) from)) [
    | inl e ↦ rw (e, ask, sock_sendto) unchanged
    | inr e ↦ elim (Outcome-cases (sys.getaddrinfo h sock host port)) [
      | inl (err, e') ↦ rw (e, e', ask, sock_sendto) one_call
      | inr (addr, e') ↦
          elim (Outcome-cases (sys.sendto (looked_up ∷ h) sock.fd (drop from buf) addr)) [
            | inl (err, e'') ↦ rw (e, e', e'', ask, sock_sendto) list_kept
            | inr (n, e'') ↦ rw (e, e', e'', ask, sock_sendto) list_kept
          ]
    ]
  ]
  ask-Growth (listen backlog) sock h = one_call
  ask-Growth accept sock h = called (sys.accept h sock.fd) _ _ h
  ask-Growth fileno sock h = unchanged
  ask-Growth getpeername sock h = elim (Bool-cases (has_addr_len sys sock)) [
    | inl e ↦ rw (e, ask, sock_getpeername) (called (sys.getpeername h sock.fd) _ _ h)
    | inr e ↦ rw (e, ask, sock_getpeername) unchanged
  ]
  ask-Growth getsockname sock h = elim (Bool-cases (has_addr_len sys sock)) [
    | inl e ↦ rw (e, ask, sock_getsockname) (called (sys.getsockname h sock.fd) _ _ h)
    | inr e ↦ rw (e, ask, sock_getsockname) unchanged
  ]
  ask-Growth (getsockopt level optname buflen) sock h = elim (Bool-cases (ltb 1024 buflen)) [
    | inl e ↦ rw (e, ask, sock_getsockopt) unchanged
    | inr e ↦ elim (Bool-cases (buflen == 0)) [
      | inl e' ↦
          rw (e, e', ask, sock_getsockopt) (called (sys.getsockopt h sock.fd level optname 4) _ _ h)
      | inr e' ↦
          rw (e, e', ask, sock_getsockopt)
            (called (sys.getsockopt h sock.fd level optname buflen) _ _ h)
    ]
  ]
  ask-Growth (setsockopt level optname value) sock h =
      elim (Option-cases (option_bytes sys value)) [
        | inl e ↦ rw (e, ask, sock_setsockopt) unchanged
        | inr (buf, e) ↦
            rw (e, ask, sock_setsockopt) (called (sys.setsockopt h sock.fd level optname buf) _ _ h)
      ]
  ask-Growth close sock h = unchanged

-- The socket is open and its descriptor was closed `n` times, or it is shut and that was closed once
-- more.
Holds : ℕ → ℕ → Socket × History → Type 0
Holds fd n (sock, h) =
    ((sock.fd ≡ some fd) × (closings fd h ≡ n)) ⊎ ((sock.fd ≡ none) × (closings fd h ≡ suc n))

module _ (sys : System) where
  ask-Holds :
      (m : Method) (fd n : ℕ) (sock : Socket) (h : History)
      → Holds fd n (sock, h)
      → Holds fd n (sock, (ask sys m sock h).1)
  unfolding Holds
  ask-Holds m fd n sock h (inl (e, c)) = inl (e, Growth-closings fd (ask-Growth sys m sock h) ∙ c)
  ask-Holds m fd n sock h (inr (e, c)) = inr (e, Growth-closings fd (ask-Growth sys m sock h) ∙ c)

  sock_close-Holds :
      (fd n : ℕ) (sock : Socket) (h : History)
      → Holds fd n (sock, h)
      → ((sock_close sock h).0.fd ≡ none) × (closings fd (sock_close sock h).1 ≡ suc n)
  unfolding Holds sock_close
  sock_close-Holds fd n sock h (inl (e, c)) = let same = ==_refl fd in rw (e, same) (refl, ap suc c)
  sock_close-Holds fd n sock h (inr (e, c)) = rw e (refl, c)

  perform-Holds :
      (m : Method) (fd n : ℕ) (sock : Socket) (h : History)
      → Holds fd n (sock, h)
      → Holds fd n (perform sys m sock h)
  unfolding Holds perform
  perform-Holds close fd n sock h holds = inr (sock_close-Holds fd n sock h holds)
  perform-Holds m fd n sock h holds = ask-Holds m fd n sock h holds

  perform_all-Holds :
      (ms : List Method) (fd n : ℕ) (sock : Socket) (h : History)
      → Holds fd n (sock, h)
      → Holds fd n (perform_all sys ms sock h)
  unfolding perform_all
  perform_all-Holds [] fd n sock h holds = holds
  perform_all-Holds (m ∷ ms) fd n sock h holds =
      perform_all-Holds ms fd n (perform sys m sock h).0 (perform sys m sock h).1
        (perform-Holds m fd n sock h holds)

-- Whatever methods a program calls on an open socket, closing it by hand any number of times, once the
-- collector has called `__gc` the descriptor has been closed exactly once, and the socket has none.
pub closed_once :
    (sys : System) (ms : List Method) (sock : Socket) (h : History) (fd : ℕ)
    → sock.fd ≡ some fd
    → let (sock₁, h₁) = perform_all sys ms sock h in
      let (sock₂, h₂) = sock_close sock₁ h₁ in
      (sock₂.fd ≡ none) × (closings fd h₂ ≡ suc (closings fd h))
unfolding Holds
closed_once sys ms sock h fd is_open =
    sock_close-Holds sys fd (closings fd h) (perform_all sys ms sock h).0
      (perform_all sys ms sock h).1
      (perform_all-Holds sys ms fd (closings fd h) sock h (inl (is_open, refl)))

-- The lists that a series of methods does not free.
unfoldable pub leaked_all : System → List Method → Socket → History → ℕ
leaked_all sys [] sock h = 0
leaked_all sys (m ∷ ms) sock h =
    let (sock', h') = perform sys m sock h in leaked sys m sock h + leaked_all sys ms sock' h'

perform_lists :
    (sys : System) (m : Method) (sock : Socket) (h : History)
    → lookups (perform sys m sock h).1 + frees h
      ≡ lookups h + frees (perform sys m sock h).1 + leaked sys m sock h
unfolding perform sock_close
perform_lists sys close sock h = elim (Option-cases sock.fd) [
  | inl e ↦ rw (e, sock_close) (omega arith)
  | inr (fd, e) ↦ rw (e, sock_close) (omega arith)
]
perform_lists sys m sock h = Growth-lists (ask-Growth sys m sock h)

-- Of the lists that `getaddrinfo` gives to a socket's methods exactly those of `sendto` are never
-- freed: one for every `sendto` of some bytes whose address is accepted.
pub lists_freed :
    (sys : System) (ms : List Method) (sock : Socket) (h : History)
    → let (sock', h') = perform_all sys ms sock h in
      lookups h' + frees h ≡ lookups h + frees h' + leaked_all sys ms sock h
unfolding perform_all leaked_all
lists_freed sys [] sock h = omega arith
lists_freed sys (m ∷ ms) sock h =
    let first = perform_lists sys m sock h in
    let rest = lists_freed sys ms (perform sys m sock h).0 (perform sys m sock h).1 in omega arith
