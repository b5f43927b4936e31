-- ===== src/Ev/Delivery.antt =====
-- Every event of a run of src/lua-ev.c reaches the Lua function; what a nested run breaks.
use levent.Prelude.{
  ℕ, zero, suc, ◌≡◌, refl, ◌∙◌, Bool, true, false, Option, none, some, List, [], ◌∷◌, ◌++◌,
  append-nil, append_assoc, map,
}
use levent.Prelude.Result.{ok, fault}
use levent.Ev.Loop.{Loop, setloop, loop_destroy}
use levent.Ev.Run.{
  Invocation, State, Activity, finish, event, nested, is_function, pcall, pop, push_call,
  finish_call, run_stack, ev_run, loop_run,
}

-- An event: the watcher, what it is ready for, and whether the Lua function fails on it.
abbrev pub Event : Type 0
Event = ℕ × ℕ × Bool

-- Events one after the other, and then whatever `rest` is.
abbrev pub events_then : List Event → Activity → Activity
events_then [] rest = rest
events_then ((w, events, fails) ∷ es) rest = event w events fails (events_then es rest)

abbrev pub invocation : ℕ → ℕ → Event → Invocation
invocation f u (w, events, fails) = record { callee = f; ud = u; watcher = w; revents = events }

-- The watchers whose function failed.
abbrev pub failing : List Event → List ℕ
failing [] = []
failing ((w, events, true) ∷ es) = w ∷ failing es
failing ((w, events, false) ∷ es) = failing es

-- A state in which the loop has its Lua state.
abbrev pub running : List Invocation → List ℕ → State
running calls failures = record { has_userdata = true; invocations = calls; failures = failures }

abbrev pub stopped : List Invocation → List ℕ → State
stopped calls failures = record { has_userdata = false; invocations = calls; failures = failures }

-- A callback leaves the stack as it was, so the next one finds its function there too.
events_lem :
    (how f u : ℕ) (es : List Event) (rest : Activity) (calls : List Invocation) (failures : List ℕ)
    → ev_run (events_then es rest) (run_stack how f u) (running calls failures)
      ≡ ev_run rest
          (run_stack how f u)
          (running (calls ++ map (invocation f u) es) (failures ++ failing es))
unfolding ev_run push_call finish_call pcall pop is_function
events_lem how f u [] rest calls failures = rw (append-nil calls, append-nil failures)
events_lem how f u ((w, events, true) ∷ es) rest calls failures =
    events_lem how f u es rest (calls ++ (invocation f u (w, events, true) ∷ []))
      (failures ++ (w ∷ []))
    ∙ rw
        (append_assoc calls (invocation f u (w, events, true) ∷ []), append_assoc failures (w ∷ []))
events_lem how f u ((w, events, false) ∷ es) rest calls failures =
    events_lem how f u es rest (calls ++ (invocation f u (w, events, false) ∷ [])) failures
    ∙ rw (append_assoc calls (invocation f u (w, events, false) ∷ []))

-- `run` passes every event of the loop on to the Lua function, in their order, with the `ud` that it
-- was given; a function that fails is logged and the run goes on; and at the end the loop has no Lua
-- state.
pub loop_run_lem :
    (how f u : ℕ) (es : List Event) (calls : List Invocation) (failures : List ℕ)
    → loop_run how f u (events_then es finish) (stopped calls failures)
      ≡ ok (stopped (calls ++ map (invocation f u) es) (failures ++ failing es))
unfolding loop_run ev_run
loop_run_lem how f u es calls failures = rw (events_lem how f u es finish calls failures)

-- Where a function runs its own loop, with whatever events in there, the loop has lost its Lua state
-- afterwards, and the next event of the outer run reads through NULL.
pub loop_run-nested :
    (how f u f' u' : ℕ) (before inner : List Event) (w events w' events' : ℕ) (fails later : Bool)
    (rest : Activity) (calls : List Invocation) (failures : List ℕ)
    → loop_run how f u
        (events_then before
          (nested w events fails f' u' (events_then inner finish) (event w' events' later rest)))
        (stopped calls failures)
      ≡ fault
unfolding loop_run ev_run push_call finish_call is_function pcall pop
loop_run-nested how f u f' u' before inner w events w' events' true later rest calls failures =
    rw (events_lem how f u before _ calls failures, events_lem 0 f' u' inner finish)
loop_run-nested how f u f' u' before inner w events w' events' false later rest calls failures =
    rw (events_lem how f u before _ calls failures, events_lem 0 f' u' inner finish)

-- Destroying a loop `n` times.
unfoldable pub destroy_times : ℕ → Loop → List ℕ → Loop × List ℕ
unfolding loop_destroy
destroy_times zero lo destroyed = (lo, destroyed)
destroy_times (suc n) lo destroyed =
    let (lo', destroyed') = loop_destroy lo destroyed in destroy_times n lo' destroyed'

destroyed_stays :
    (n : ℕ) (destroyed : List ℕ)
    → destroy_times n (setloop none) destroyed ≡ (setloop none, destroyed)
unfolding destroy_times loop_destroy setloop
destroyed_stays zero destroyed = refl
destroyed_stays (suc n) destroyed = destroyed_stays n destroyed

-- However often a program destroys a loop through one userdata, the collector's call included, libev destroys
-- it once for that userdata, and not at all where there was none.
pub destroy_once :
    (n : ℕ) (loop : Option ℕ) (destroyed : List ℕ)
    → destroy_times (suc n) (setloop loop) destroyed
      ≡ (setloop none, elim loop [ none ↦ destroyed | some l ↦ l ∷ destroyed ])
unfolding destroy_times loop_destroy setloop
destroy_once n none destroyed = destroyed_stays n destroyed
destroy_once n (some l) destroyed = destroyed_stays n (l ∷ destroyed)
