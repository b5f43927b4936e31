-- ===== src/Ev/Defined.antt =====
-- When a method of a watcher of src/lua-ev.c has defined behaviour.
use levent.Prelude.{ℕ, Bool, true, ◌≡◌, refl, subst, Option, none, some, List, [], ◌∷◌, arith}
use levent.Prelude.Result.{Result, ok, IsDefined, IsDefined-bind, ◌>>=◌}
use levent.Ev.Loop.{Loop}
use levent.Ev.Libev.{Kind, io, timer, signal, prepare, check, idle, Libev, Numbers}
use levent.Ev.Watcher.{
  Arg, watcher_ud, loop_ud, WatcherMethod, id, start, stop, init, is_active, is_pending,
  get_priority, set_priority, again, has_method, argument, check_userdata, get_loop, pointed, Cell,
  free, raw, ready, World, get_watcher, initialised, read_setup, io_init, timer_init, signal_init,
  prepare_init, check_init, idle_init, on_loop, look, checkinteger, checknumber, optnumber,
  watcher_id, watcher_start, watcher_stop, timer_again, watcher_init, watcher_is_active,
  watcher_is_pending, watcher_get_priority, watcher_set_priority, call,
}
use levent.Ev.Agreement.{Holds, ready-Holds, get_watcher-ok}

module _ (v : Libev) (n : Numbers) where
  -- A userdata that was initialised, or is a watcher of another kind.
  abbrev pub IsReady : Cell v n → Type 0
  IsReady free = ⊥
  IsReady (raw k) = ⊥
  IsReady (ready k x) = Unit {0}

  -- The first argument, if it is a watcher, is an initialised one, and the second, if it is a loop, one
  -- that was not destroyed.
  abbrev pub WatcherReady : List Arg → World v n → Type 0
  WatcherReady args w = (a : ℕ) → argument 1 args ≡ watcher_ud a → IsReady (w.heap a)

  abbrev pub LoopAlive : List Arg → Type 0
  LoopAlive args = (lo : Loop) → argument 2 args ≡ loop_ud lo → IsDefined (pointed lo)

  checkinteger-IsDefined : (x : Arg) → IsDefined (checkinteger v n x)
  unfolding checkinteger
  checkinteger-IsDefined x = ground arith

  checknumber-IsDefined : (x : Arg) → IsDefined (checknumber v n x)
  unfolding checknumber
  checknumber-IsDefined x = ground arith

  get_loop-IsDefined : (x : Arg) → IsDefined (get_loop x)
  unfolding get_loop
  get_loop-IsDefined x = ground arith

  optnumber-IsDefined : (x : Arg) → IsDefined (optnumber v n x)
  unfolding optnumber checknumber
  optnumber-IsDefined x = ground arith

  get_loop-ok : (x : Arg) (lo : Loop) → get_loop x ≡ ok lo → x ≡ loop_ud lo
  unfolding get_loop
  get_loop-ok x lo h = ground arith

  check_userdata-IsDefined :
      (k : Kind) (a : ℕ) (cell : Cell v n) → IsReady cell → IsDefined (check_userdata v n k a cell)
  unfolding check_userdata
  check_userdata-IsDefined k a free h = absurd h
  check_userdata-IsDefined k a (raw j) h = absurd h
  check_userdata-IsDefined k a (ready j x) h = ground arith

  get_watcher-IsDefined :
      (k : Kind) (args : List Arg) (w : World v n)
      → WatcherReady args w
      → IsDefined (get_watcher v n k args w)
  unfolding get_watcher argument
  get_watcher-IsDefined k [] w h = tt
  get_watcher-IsDefined k (watcher_ud a ∷ args) w h =
      check_userdata-IsDefined k a (w.heap a) (h a refl)
  get_watcher-IsDefined k (_ ∷ args) w h = tt

  initialised-IsDefined :
      (k : Kind) (o : Option v.Watcher) (cell : Cell v n)
      → Holds v n k o cell
      → IsReady cell
      → IsDefined (initialised v n o)
  unfolding initialised
  initialised-IsDefined k none cell holds h = absurd (subst IsReady holds h)
  initialised-IsDefined k (some x) cell holds h = tt

  -- What every method begins with: the watcher is found, and its fields were set.
  found-IsDefined :
      {B : Type 0} (k : Kind) (args : List Arg) (w : World v n)
      (next : ℕ × Option v.Watcher → Result B)
      → WatcherReady args w
      → ((a : ℕ) (o : Option v.Watcher)
          → argument 1 args ≡ watcher_ud a
          → Holds v n k o (w.heap a)
          → IsDefined (initialised v n o)
          → IsDefined (next (a, o)))
      → IsDefined (get_watcher v n k args w >>= next)
  found-IsDefined k args w next ready_ rest =
      IsDefined-bind (get_watcher v n k args w) next (get_watcher-IsDefined k args w ready_)
        λ p found.
          let (at, holds) = get_watcher-ok v n k args w p.0 p.1 found in
          rest p.0 p.1 at holds (initialised-IsDefined k p.1 (w.heap p.0) holds (ready_ p.0 at))

  read_setup-IsDefined : (k : Kind) (args : List Arg) → IsDefined (read_setup v n k args)
  unfolding read_setup io_init timer_init signal_init prepare_init check_init idle_init
  read_setup-IsDefined io args =
      IsDefined-bind (checkinteger v n (argument 2 args)) _
        (checkinteger-IsDefined (argument 2 args))
        λ fd read.
          IsDefined-bind (checkinteger v n (argument 3 args)) _
            (checkinteger-IsDefined (argument 3 args)) λ events also. tt
  read_setup-IsDefined timer args =
      IsDefined-bind (checknumber v n (argument 2 args)) _ (checknumber-IsDefined (argument 2 args))
        λ after read.
          IsDefined-bind (optnumber v n (argument 3 args)) _ (optnumber-IsDefined (argument 3 args))
            λ repeat also. tt
  read_setup-IsDefined signal args =
      IsDefined-bind (checkinteger v n (argument 2 args)) _
        (checkinteger-IsDefined (argument 2 args)) λ signum read. tt
  read_setup-IsDefined prepare args = tt
  read_setup-IsDefined check args = tt
  read_setup-IsDefined idle args = tt

  -- What libev asserts in the call that a method makes is met: for an initialised watcher and a loop that is
  -- not destroyed.
  abbrev pub Accepted : (v.Core → ℕ → v.Watcher → Bool) → Kind → List Arg → World v n → Type 0
  Accepted accepts k args w =
      (a l : ℕ) (x : v.Watcher) (lo : Loop)
      → argument 1 args ≡ watcher_ud a
      → w.heap a ≡ ready k x
      → argument 2 args ≡ loop_ud lo
      → pointed lo ≡ ok l
      → accepts w.core l x ≡ true

  abbrev pub always : v.Core → ℕ → v.Watcher → Bool
  always c l x = true

  -- The call of libev that a method makes, if it makes one with assertions.
  abbrev pub accepts_of : WatcherMethod → v.Core → ℕ → v.Watcher → Bool
  accepts_of start = v.accepts_start
  accepts_of stop = v.accepts_stop
  accepts_of again = v.accepts_again
  accepts_of _ = always

  on_loop-IsDefined :
      (accepts : v.Core → ℕ → v.Watcher → Bool)
      (ev : v.Core → ℕ → ℕ → v.Watcher → v.Core × v.Watcher) (k : Kind) (args : List Arg)
      (w : World v n)
      → WatcherReady args w
      → LoopAlive args
      → Accepted accepts k args w
      → IsDefined (on_loop v n accepts ev k args w)
  unfolding on_loop
  on_loop-IsDefined accepts ev k args w ready_ alive accepted =
      found-IsDefined k args w _ ready_ λ a o at holds set.
        IsDefined-bind (get_loop (argument 2 args)) _ (get_loop-IsDefined (argument 2 args))
          λ lo is_loop. IsDefined-bind (initialised v n o) _ set λ x is_set.
            IsDefined-bind (pointed lo) _ (alive lo (get_loop-ok (argument 2 args) lo is_loop))
              λ l there.
                rw
                  (accepted a l x lo at (ready-Holds v n k o x (w.heap a) is_set holds)
                    (get_loop-ok (argument 2 args) lo is_loop) there)
                  tt

  -- A method called on an initialised watcher, with a loop that was not destroyed where it takes one, and where
  -- the call meets what libev asserts of that watcher, has defined behaviour, whatever its other arguments: it
  -- returns, or raises a Lua error.
  pub call-IsDefined :
      (k : Kind) (m : WatcherMethod) (args : List Arg) (w : World v n)
      → WatcherReady args w
      → LoopAlive args
      → Accepted (accepts_of m) k args w
      → IsDefined (call v n k m args w)
  unfolding call has_method watcher_id watcher_start watcher_stop timer_again watcher_init
      watcher_is_active watcher_is_pending watcher_get_priority watcher_set_priority look
  call-IsDefined k id args w ready_ alive accepted =
      found-IsDefined k args w _ ready_ λ a o at holds set. tt
  call-IsDefined k start args w ready_ alive accepted =
      IsDefined-bind (on_loop v n v.accepts_start v.start k args w) _
        (on_loop-IsDefined v.accepts_start v.start k args w ready_ alive accepted) λ u done. tt
  call-IsDefined k stop args w ready_ alive accepted =
      IsDefined-bind (on_loop v n v.accepts_stop v.stop k args w) _
        (on_loop-IsDefined v.accepts_stop v.stop k args w ready_ alive accepted) λ u done. tt
  call-IsDefined k init args w ready_ alive accepted =
      found-IsDefined k args w _ ready_ λ a o at holds set.
        IsDefined-bind (read_setup v n k args) _ (read_setup-IsDefined k args) λ s read. tt
  call-IsDefined k is_active args w ready_ alive accepted =
      found-IsDefined k args w _ ready_
        λ a o at holds set. IsDefined-bind (initialised v n o) _ set λ x is_set. tt
  call-IsDefined k is_pending args w ready_ alive accepted =
      found-IsDefined k args w _ ready_
        λ a o at holds set. IsDefined-bind (initialised v n o) _ set λ x is_set. tt
  call-IsDefined k get_priority args w ready_ alive accepted =
      found-IsDefined k args w _ ready_
        λ a o at holds set. IsDefined-bind (initialised v n o) _ set λ x is_set. tt
  call-IsDefined k set_priority args w ready_ alive accepted =
      found-IsDefined k args w _ ready_ λ a o at holds set.
        IsDefined-bind (checkinteger v n (argument 2 args)) _
          (checkinteger-IsDefined (argument 2 args)) λ p read. tt
  call-IsDefined timer again args w ready_ alive accepted =
      IsDefined-bind (on_loop v n v.accepts_again v.again timer args w) _
        (on_loop-IsDefined v.accepts_again v.again timer args w ready_ alive accepted) λ u done. tt
  call-IsDefined _ again args w ready_ alive accepted = tt
