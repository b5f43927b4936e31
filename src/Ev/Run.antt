-- ===== src/Ev/Run.antt =====
-- `loop_run` and `watcher_cb` of src/lua-ev.c: libev runs a loop and calls back for its events.
use levent.Prelude.{ℕ, Bool, true, false, List, [], ◌∷◌, ◌++◌, if◌then◌else◌}
use levent.Prelude.Result.{Result, ok, fault, ◌>>=◌}

-- The values on the stack of a call of `loop_run`, and of the callbacks that push on it.
pub data Slot : Type 0 where
  loop : Slot
  flags : ℕ → Slot
  function : ℕ → Slot
  ud : ℕ → Slot
  watcher : ℕ → Slot
  revents : ℕ → Slot
  traceback : Slot
  message : Slot

-- A call of the Lua function: the function, its `ud`, the watcher and the events.
pub record Invocation : Type 0 where
  pub callee : ℕ
  pub ud : ℕ
  pub watcher : ℕ
  pub revents : ℕ

-- `has_userdata` says that `ev_userdata` gives the Lua state, and not NULL. The calls of Lua functions
-- and the failures that were logged come in their order.
pub record State : Type 0 where
  pub has_userdata : Bool
  pub invocations : List Invocation
  pub failures : List ℕ

-- What happens from here on in `ev_run`: it returns; or it calls back for a watcher, the Lua function
-- fails or not, and more happens. In `nested` the function first runs the loop itself, with a function
-- and a `ud` of its own.
pub data Activity : Type 0 where
  finish : Activity
  event : ℕ → ℕ → Bool → Activity → Activity
  nested : ℕ → ℕ → Bool → ℕ → ℕ → Activity → Activity → Activity

unfoldable pub is_function : Slot → Bool
is_function (function f) = true
is_function traceback = true
is_function _ = false

-- `lua_pcall(L, 3, 0, traceback)` takes the function and its arguments, and leaves a message where the
-- function fails. The stack is listed from its top.
unfoldable pub pcall : Bool → List Slot → List Slot
pcall fails (e ∷ w ∷ u ∷ f ∷ stack) = if fails then message ∷ stack else stack
pcall fails stack = stack

-- `lua_pop(L, 1)`
unfoldable pub pop : List Slot → List Slot
pop [] = []
pop (x ∷ stack) = stack

-- What `watcher_cb` does up to the call: the assertions, and the values that it pushes.
unfoldable pub push_call : State → ℕ → ℕ → List Slot → Result (List Slot × Invocation)
unfolding is_function
push_call st w events (t ∷ ud u ∷ function f ∷ stack) =
    if st.has_userdata
    then (if is_function t
        then ok (
          revents events ∷ watcher w ∷ ud u ∷ function f ∷ t ∷ ud u ∷ function f ∷ stack,
          record { callee = f; ud = u; watcher = w; revents = events },
        )
        else fault)
    else fault
push_call st w events _ = fault

-- The end of `watcher_cb`, after the call.
unfoldable pub finish_call : Bool → ℕ → List Slot → State → List Slot × State
unfolding pop pcall
finish_call fails w stack st =
    if fails
    then (pop (pcall fails stack), record st { failures = st.failures ++ (w ∷ []) })
    else (pcall fails stack, st)

-- The stack on which `loop_run` calls `ev_run`: the function and `ud` are its arguments.
abbrev pub run_stack : ℕ → ℕ → ℕ → List Slot
run_stack how f u = traceback ∷ ud u ∷ function f ∷ flags how ∷ loop ∷ []

-- `ev_run` within a `loop_run`, with the stack of that call. The `ev_set_userdata(loop, NULL)` at the
-- end of a nested run is that of the same loop.
unfoldable pub ev_run : Activity → List Slot → State → Result State
unfolding push_call finish_call
ev_run finish stack st = ok st
ev_run (event w events fails rest) stack st = do
  (pushed, call) ← push_call st w events stack
  let (stack', st') =
      finish_call fails w pushed (record st { invocations = st.invocations ++ (call ∷ []) })
  ev_run rest stack' st'
ev_run (nested w events fails f u inner rest) stack st = do
  (pushed, call) ← push_call st w events stack
  st ←
      ev_run inner (run_stack 0 f u)
        (record st { has_userdata = true; invocations = st.invocations ++ (call ∷ []) })
  let (stack', st') = finish_call fails w pushed (record st { has_userdata = false })
  ev_run rest stack' st'

-- `loop_run`
unfoldable pub loop_run : ℕ → ℕ → ℕ → Activity → State → Result State
unfolding ev_run
loop_run how f u activity st = do
  st ← ev_run activity (run_stack how f u) (record st { has_userdata = true })
  ok (record st { has_userdata = false })
