-- ===== src/Socket/System.antt =====
-- The state of src/lua-socket.c, what it asks of the operating system, and what it answers to Lua.
use levent.Prelude.{ℕ, Bool, Option, List, Bytes, ◌-◌, length, drop}

-- `struct _sock_t`; `none` is the descriptor -1.
pub record Socket : Type 0 where
  pub fd : Option ℕ
  pub family : ℕ
  pub type : ℕ
  pub protocol : ℕ

-- What a system call gives: a value, or its error number.
pub data Outcome {ℓ} (A : Type ℓ) : Type ℓ where
  done : A → Outcome A
  failed : ℕ → Outcome A

-- An entry of the list of `getaddrinfo`: family, socket type, address.
pub record AddrInfo : Type 0 where
  pub ai_family : ℕ
  pub ai_socktype : ℕ
  pub ai_addr : Bytes

-- A call that was made. `looked_up` is a `getaddrinfo` that gave a list, `freed` a `freeaddrinfo`,
-- `set_flags` an `fcntl(fd, F_SETFL, flag)`, and `other` any call that neither closes a descriptor nor has to do with such lists.
pub data Call : Type 0 where
  looked_up : Call
  freed : Call
  closed : ℕ → Call
  set_flags : ℕ → Call
  other : Call

-- The calls made so far, the last one first.
abbrev pub History : Type 0
History = List Call

-- The operating system and the C library: what each call answers may depend on all calls before.
-- `getaddrinfo` for a socket gives the first entry's address, which is all that is used of it, and
-- `get_flags` is `none` for -1. `o_nonblock` is a power of two.
pub record System : Type 0 where
  pub af_inet : ℕ
  pub af_inet6 : ℕ
  pub sock_stream : ℕ
  pub socket : History → ℕ → ℕ → ℕ → Outcome ℕ
  pub resolve : History → Bytes → Outcome (List AddrInfo)
  pub getaddrinfo : History → Socket → Bytes → Bytes → Outcome Bytes
  pub connect : History → Option ℕ → Bytes → Outcome (Unit {0})
  pub bind : History → Option ℕ → Bytes → Outcome (Unit {0})
  pub listen : History → Option ℕ → ℕ → Outcome (Unit {0})
  pub accept : History → Option ℕ → Outcome ℕ
  pub recv : History → Option ℕ → ℕ → Outcome Bytes
  pub recvfrom : History → Option ℕ → ℕ → Outcome (Bytes × Bytes)
  pub send : History → Option ℕ → Bytes → Outcome ℕ
  pub sendto : History → Option ℕ → Bytes → Bytes → Outcome ℕ
  pub getpeername : History → Option ℕ → Outcome Bytes
  pub getsockname : History → Option ℕ → Outcome Bytes
  pub getsockopt : History → Option ℕ → ℕ → ℕ → ℕ → Outcome Bytes
  pub setsockopt : History → Option ℕ → ℕ → ℕ → Bytes → Outcome (Unit {0})
  pub get_flags : History → Option ℕ → Option ℕ
  pub o_nonblock : ℕ
  pub getnameinfo : Bytes → Outcome (Bytes × Bytes)
  pub inet_ntop : ℕ → Bytes → Bytes
  pub inet_pton : ℕ → Bytes → Option Bytes
  pub int_bytes : ℕ → Bytes
  pub bytes_int : Bytes → ℕ

-- A value that is pushed on the Lua stack. A port text is pushed as such; `lua_tonumber` leaves it.
pub data Item : Type 0 where
  nil : Item
  boolean : Bool → Item
  integer : ℕ → Item
  string : Bytes → Item
  socket : Socket → Item
  buffer : Item

-- What a C function pushed, the last value last, and the number that it returned.
pub record Pushed : Type 0 where
  pub items : List Item
  pub returned : ℕ

-- Lua takes the last `returned` values that were pushed.
abbrev pub results : Pushed → List Item
results p = drop (length p.items - p.returned) p.items
