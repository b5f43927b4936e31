-- ===== src/Sync/EventExamples.antt =====
-- The theorems on the event of levent/lock.lua at concrete histories.
use levent.Sync.AsyncResult.{Use, value, exception, init_result, uses}
use levent.Sync.Delivered.{repeated, is_noting, settles_lem}
use levent.Prelude.{some, ◌⊎◌, ℕ, length, ◌≡◌, refl, true, false, List, [], ◌∷◌, arith}
use levent.Sync.LockEvent.{
  init_event, member, Act, sets, clears, waits, starts, times_out, rounds, acts, event_set, act,
  copy_links,
}
use levent.Sync.Notified.{is_patient}
use levent.Sync.Woken.{set-wakes}
use levent.Sync.Missed.{IsMute, spares, missed-set}
use levent.Sync.Rest.{IsAtRest, is_calm, count_rounds}
use levent.Sync.Finished.{notify-ends}

-- Two wait before `set`, and one between the rounds of `_notify`, when the event is clear again.
abbrev two_wait : List Act
two_wait = waits ∷ waits ∷ []

abbrev notified : List Act
notified = starts ∷ rounds 1 ∷ clears ∷ waits ∷ rounds 0 ∷ rounds 0 ∷ []

notified_result : (acts notified (event_set (acts two_wait init_event))).links ≡ 2 ∷ []
unfolding acts init_event
notified_result = refl

set-wakes_example : member 1 (acts notified (event_set (acts two_wait init_event))).links ≡ false
unfolding acts init_event is_patient
set-wakes_example = set-wakes two_wait notified 1 refl refl refl refl

abbrev calm_rounds : List Act
calm_rounds = rounds 1 ∷ clears ∷ waits ∷ rounds 0 ∷ starts ∷ rounds 0 ∷ []

notify-ends_example : IsAtRest (acts (sets ∷ starts ∷ calm_rounds) (acts two_wait init_event))
unfolding acts init_event copy_links is_patient is_calm count_rounds
notify-ends_example = notify-ends two_wait calm_rounds refl refl (omega arith)

-- The waiter 0 times out before it is notified, and 1 waits when the event is clear again.
abbrev timed_out : List Act
timed_out = waits ∷ sets ∷ times_out 0 ∷ clears ∷ waits ∷ starts ∷ []

abbrev set_again : List Act
set_again = sets ∷ starts ∷ rounds 0 ∷ clears ∷ sets ∷ []

missed-set_example :
    IsMute (acts set_again (act (rounds 0) (acts timed_out init_event)))
    × (member 1 (acts set_again (act (rounds 0) (acts timed_out init_event))).links ≡ true)
unfolding acts init_event spares
missed-set_example = missed-set timed_out set_again 0 0 1 [] refl refl refl refl refl

-- Two wait for a result and one times out; it is set to 7, and not to 8 nor to an exception.
abbrev one_waits : List (Use ℕ ℕ)
one_waits = Use.gets ∷ Use.gets ∷ Use.times_out 0 ∷ []

abbrev settled_again : List (Use ℕ ℕ)
settled_again =
    Use.settles (value 8)
    ∷ Use.gets
    ∷ Use.starts
    ∷ Use.rounds 0
    ∷ Use.settles (exception 1)
    ∷ Use.rounds 0
    ∷ []

settles_lem_example :
    let s = uses (Use.settles (value 7) ∷ settled_again) (uses one_waits init_result) in
    (s.outcome ≡ some (value 7))
    × (s.given ≡ repeated (some (value 7)) (length s.given))
    × ((is_noting s ≡ true) ⊎ (s.links ≡ []))
unfolding uses init_result
settles_lem_example = settles_lem one_waits settled_again (value 7) refl

settled_again_result :
    (uses (Use.settles (value 7) ∷ settled_again) (uses one_waits init_result)).given
    ≡ some (value 7) ∷ some (value 7) ∷ []
unfolding uses init_result
settled_again_result = refl
