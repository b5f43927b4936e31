-- ===== src/Ev/Watcher.antt =====
-- The watchers of src/lua-ev.c: what its macros `WATCHER_*` and the functions `*_init` and
-- `timer_again` do with the userdata and with libev.
use levent.Prelude.{
  ℕ, zero, suc, ◌+◌, ◌-◌, ◌%◌, ◌^◌, ◌==◌, ltb, if◌then◌else◌, Bool, true, false, Option, none, some,
  List, [], ◌∷◌,
}
use levent.Prelude.Result.{Result, ok, raised, fault, bad_argument, missing_method, ◌>>=◌}
use levent.Ev.Loop.{Loop}
use levent.Ev.Libev.{
  Kind, io, timer, signal, prepare, check, idle, Setup, io_setup, timer_setup, signal_setup,
  prepare_setup, check_setup, idle_setup, Libev, Numbers,
}

-- Arguments and results. An integer is its 64-bit pattern, and `pointer` is a light userdata.
pub data Arg : Type 0 where
  nil : Arg
  watcher_ud : ℕ → Arg
  loop_ud : Loop → Arg
  pointer : ℕ → Arg
  int : ℕ → Arg
  num : ℕ → Arg
  bool : Bool → Arg

-- The methods in the tables `methods_*`.
pub data WatcherMethod : Type 0 where
  id start stop init is_active is_pending get_priority set_priority again : WatcherMethod

-- Which metatable `WATCHER_METATABLE` names.
unfoldable pub metatable : Kind → ℕ
metatable io = 0
metatable timer = 1
metatable signal = 2
metatable prepare = 3
metatable check = 4
metatable idle = 5

-- Only `methods_timer` has more than `WATCHER_METAMETHOD_TABLE`.
unfoldable pub has_method : Kind → WatcherMethod → Bool
has_method timer again = true
has_method _ again = false
has_method _ _ = true

-- The argument at an index, counted from 1.
unfoldable pub argument : ℕ → List Arg → Arg
argument n [] = nil
argument zero (x ∷ xs) = nil
argument (suc zero) (x ∷ xs) = x
argument (suc (suc n)) (x ∷ xs) = argument (suc n) xs

-- What `return 1` gives where nothing was pushed: the last argument.
unfoldable pub top : List Arg → Arg
top [] = nil
top (x ∷ []) = x
top (x ∷ y ∷ xs) = top (y ∷ xs)

-- A C `int` as a Lua integer, and `is_32bit` the other way.
unfoldable pub push_int : ℕ → ℕ
push_int w = if ltb w (2 ^ 31) then w else w + 2 ^ 64 - 2 ^ 32

-- `get_loop`
unfoldable pub get_loop : Arg → Result Loop
get_loop (loop_ud lo) = ok lo
get_loop _ = raised bad_argument

-- libev reads through the pointer.
unfoldable pub pointed : Loop → Result ℕ
pointed lo = elim lo.loop [ none ↦ fault | some l ↦ ok l ]

module _ (v : Libev) (n : Numbers) where
  -- What is at an address: nothing; a userdata whose memory is as `lua_newuserdata` gave it; a watcher.
  pub data Cell : Type 0 where
    free : Cell
    raw : Kind → Cell
    ready : Kind → v.Watcher → Cell

  pub record World : Type 0 where
    pub core : v.Core
    pub heap : ℕ → Cell

  unfoldable pub store : ℕ → Cell → (ℕ → Cell) → ℕ → Cell
  store a c heap b = if b == a then c else heap b

  unfoldable pub checkinteger : Arg → Result ℕ
  checkinteger (int i) = ok i
  checkinteger (num x) = elim (n.to_integer x) [ none ↦ raised bad_argument | some i ↦ ok i ]
  checkinteger _ = raised bad_argument

  unfoldable pub checknumber : Arg → Result ℕ
  checknumber (int i) = ok (n.of_integer i)
  checknumber (num x) = ok x
  checknumber _ = raised bad_argument

  -- `luaL_optnumber(L, 3, 0)`
  unfoldable pub optnumber : Arg → Result ℕ
  unfolding checknumber
  optnumber nil = ok 0
  optnumber x = checknumber x

  -- `new_*`, with the address that Lua chose.
  unfoldable pub new_watcher : Kind → ℕ → World → Arg × World
  unfolding store
  new_watcher k a w = (watcher_ud a, record w { heap = store a (raw k) w.heap })

  -- `luaL_checkudata` on a userdata: the address, and the watcher if there is one. A userdata that is
  -- gone is no argument.
  unfoldable pub check_userdata : Kind → ℕ → Cell → Result (ℕ × Option v.Watcher)
  unfolding metatable
  check_userdata k a free = fault
  check_userdata k a (raw j) =
      if metatable j == metatable k then ok (a, none) else raised bad_argument
  check_userdata k a (ready j x) =
      if metatable j == metatable k then ok (a, some x) else raised bad_argument

  -- `get_*` on the first argument
  unfoldable pub get_watcher : Kind → List Arg → World → Result (ℕ × Option v.Watcher)
  unfolding check_userdata
  get_watcher k (watcher_ud a ∷ args) w = check_userdata k a (w.heap a)
  get_watcher k _ w = raised bad_argument

  -- A field of a watcher that was never initialised is read.
  unfoldable pub initialised : Option v.Watcher → Result v.Watcher
  initialised none = fault
  initialised (some x) = ok x

  -- What the functions `*_init` read behind the watcher and give to the macro of libev.
  unfoldable pub io_init : List Arg → Result Setup
  unfolding checkinteger argument
  io_init args = do
    fd ← checkinteger (argument 2 args)
    events ← checkinteger (argument 3 args)
    ok (io_setup (fd % 2 ^ 32) (events % 2 ^ 32))

  unfoldable pub timer_init : List Arg → Result Setup
  unfolding checknumber optnumber argument
  timer_init args = do
    after ← checknumber (argument 2 args)
    repeat ← optnumber (argument 3 args)
    ok (timer_setup after repeat)

  unfoldable pub signal_init : List Arg → Result Setup
  unfolding checkinteger argument
  signal_init args = do signum ← checkinteger (argument 2 args); ok (signal_setup (signum % 2 ^ 32))

  unfoldable pub prepare_init : List Arg → Result Setup
  prepare_init args = ok prepare_setup

  unfoldable pub check_init : List Arg → Result Setup
  check_init args = ok check_setup

  unfoldable pub idle_init : List Arg → Result Setup
  idle_init args = ok idle_setup

  unfoldable pub read_setup : Kind → List Arg → Result Setup
  unfolding io_init timer_init signal_init prepare_init check_init idle_init
  read_setup io args = io_init args
  read_setup timer args = timer_init args
  read_setup signal args = signal_init args
  read_setup prepare args = prepare_init args
  read_setup check args = check_init args
  read_setup idle args = idle_init args

  -- A call of libev on the loop that is the second argument, and on the watcher. A call that does not meet the
  -- assertions of libev aborts the process or goes on where nothing is defined.
  unfoldable pub on_loop :
      (v.Core → ℕ → v.Watcher → Bool)
      → (v.Core → ℕ → ℕ → v.Watcher → v.Core × v.Watcher)
      → Kind
      → List Arg
      → World
      → Result World
  unfolding get_watcher get_loop pointed initialised argument store
  on_loop accepts ev k args w = do
    (a, x) ← get_watcher k args w
    lo ← get_loop (argument 2 args)
    x ← initialised x
    l ← pointed lo
    let (c, y) = ev w.core l a x
    if accepts w.core l x
        then ok (record { core = c; heap = store a (ready k y) w.heap })
        else fault

  -- A method that only looks at the watcher.
  unfoldable pub look : (v.Watcher → Arg) → Kind → List Arg → World → Result (List Arg × World)
  unfolding get_watcher initialised
  look see k args w = do (a, x) ← get_watcher k args w; x ← initialised x; ok (see x ∷ [], w)

  unfoldable pub watcher_id : Kind → List Arg → World → Result (List Arg × World)
  unfolding get_watcher
  watcher_id k args w = do (a, x) ← get_watcher k args w; ok (pointer a ∷ [], w)

  unfoldable pub watcher_start : Kind → List Arg → World → Result (List Arg × World)
  unfolding on_loop top
  watcher_start k args w = do w ← on_loop v.accepts_start v.start k args w; ok (top args ∷ [], w)

  unfoldable pub watcher_stop : Kind → List Arg → World → Result (List Arg × World)
  unfolding on_loop top
  watcher_stop k args w = do w ← on_loop v.accepts_stop v.stop k args w; ok (top args ∷ [], w)

  unfoldable pub timer_again : List Arg → World → Result (List Arg × World)
  unfolding on_loop
  timer_again args w = do w ← on_loop v.accepts_again v.again timer args w; ok ([], w)

  unfoldable pub watcher_init : Kind → List Arg → World → Result (List Arg × World)
  unfolding get_watcher read_setup store
  watcher_init k args w = do
    (a, x) ← get_watcher k args w
    s ← read_setup k args
    ok ([], record w { heap = store a (ready k (v.init s)) w.heap })

  unfoldable pub watcher_is_active : Kind → List Arg → World → Result (List Arg × World)
  unfolding look
  watcher_is_active k args w = look (λ x. bool (v.is_active x)) k args w

  unfoldable pub watcher_is_pending : Kind → List Arg → World → Result (List Arg × World)
  unfolding look
  watcher_is_pending k args w = look (λ x. bool (v.is_pending x)) k args w

  unfoldable pub watcher_get_priority : Kind → List Arg → World → Result (List Arg × World)
  unfolding look push_int
  watcher_get_priority k args w = look (λ x. int (push_int (v.priority x))) k args w

  -- `ev_set_priority`. The field is written also in a watcher that was never initialised, where
  -- nothing reads it before `*_init` sets it again.
  unfoldable pub assign_priority : Kind → ℕ → Option v.Watcher → ℕ → World → World
  unfolding store
  assign_priority k a none p w = w
  assign_priority k a (some x) p w = record w {
    heap = store a (ready k (v.set_priority p x)) w.heap;
  }

  unfoldable pub watcher_set_priority : Kind → List Arg → World → Result (List Arg × World)
  unfolding get_watcher checkinteger argument assign_priority
  watcher_set_priority k args w = do
    (a, x) ← get_watcher k args w
    p ← checkinteger (argument 2 args)
    ok ([], assign_priority k a x (p % 2 ^ 32) w)

  -- `watcher:method(...)` through `__index`.
  unfoldable pub call : Kind → WatcherMethod → List Arg → World → Result (List Arg × World)
  unfolding has_method watcher_id watcher_start watcher_stop timer_again watcher_init
      watcher_is_active watcher_is_pending watcher_get_priority watcher_set_priority
  call k id args w = watcher_id k args w
  call k start args w = watcher_start k args w
  call k stop args w = watcher_stop k args w
  call k init args w = watcher_init k args w
  call k is_active args w = watcher_is_active k args w
  call k is_pending args w = watcher_is_pending k args w
  call k get_priority args w = watcher_get_priority k args w
  call k set_priority args w = watcher_set_priority k args w
  call k again args w = if has_method k again then timer_again args w else raised missing_method
