-- ===== src/Ev/Examples.antt =====
-- The theorems on src/lua-ev.c at concrete events.
use levent.Prelude.{◌≡◌, none, some, List, [], ◌∷◌, map, true, false}
use levent.Prelude.Result.{ok, fault}
use levent.Ev.Loop.{setloop}
use levent.Ev.Run.{finish, event, nested, loop_run}
use levent.Ev.Delivery.{
  Event, events_then, invocation, failing, stopped, loop_run_lem, loop_run-nested, destroy_times,
  destroy_once,
}

-- Two events of one watcher, with a failure at the first, and one of another.
abbrev three_events : List Event
three_events = (100, 1, true) ∷ (100, 1, false) ∷ (200, 2, false) ∷ []

loop_run_lem_example :
    loop_run 0 7 8 (events_then three_events finish) (stopped [] [])
    ≡ ok (stopped (map (invocation 7 8) three_events) (failing three_events))
loop_run_lem_example = loop_run_lem 0 7 8 three_events [] []

loop_run-nested_example :
    loop_run 0 7 8
      (events_then []
        (nested 100 1 false 7 8 (events_then three_events finish) (event 200 2 false finish)))
      (stopped [] [])
    ≡ fault
loop_run-nested_example =
    loop_run-nested 0 7 8 7 8 [] three_events 100 1 200 2 false false finish [] []

destroy_once_example : destroy_times 3 (setloop (some 5)) [] ≡ (setloop none, 5 ∷ [])
destroy_once_example = destroy_once 2 (some 5) []
