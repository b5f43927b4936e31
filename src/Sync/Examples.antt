-- ===== src/Sync/Examples.antt =====
-- The theorems on levent/queue.lua and levent/lock.lua at concrete histories.
use levent.Prelude.{ℕ, ◌≡◌, ◌⊎◌, refl, true, false, none, some, List, [], ◌∷◌}
use levent.Sync.Queue.{is_full, limit_of}
use levent.Sync.QueueRun.{Action, putting, getting, run_callback, round, begin, steps}
use levent.Sync.Fifo.{StateIsFifo, steps-IsFifo}
use levent.Sync.Wakeups.{no_lost_wakeup}
use levent.Sync.Join.{turns, join_lem, join-stuck}
use levent.Sync.Semaphore.{
  init_semaphore, SemaphoreEvent, acquires, releases, waits, starts, rounds, history,
}
use levent.Sync.Permits.{IsConserved, history-IsConserved}

-- The coroutine 1 waits for an item, 2 puts two, and the loop calls 1 and ends the callback.
abbrev visit : List (Action ℕ)
visit = getting 1 ∷ putting 2 40 ∷ putting 2 50 ∷ run_callback ∷ round 0 ∷ round 0 ∷ []

visit_result : (steps visit (begin (some 5))).received ≡ 40 ∷ []
unfolding steps begin
visit_result = refl

steps-IsFifo_example : StateIsFifo (limit_of (some 5)) (steps visit (begin (some 5)))
steps-IsFifo_example = steps-IsFifo (some 5) visit

no_lost_wakeup_example :
    (((steps visit (begin (some 5))).queue.getters ≡ [])
      ⊎ ((steps visit (begin (some 5))).queue.size ≡ 0))
    × (((steps visit (begin (some 5))).queue.putters ≡ [])
        ⊎ (is_full (steps visit (begin (some 5))).queue ≡ true))
unfolding steps begin
no_lost_wakeup_example = no_lost_wakeup (some 5) visit refl refl

-- One item, for which a getter was waiting.
abbrev handed_over : List (Action ℕ)
handed_over = getting 1 ∷ putting 2 40 ∷ run_callback ∷ round 0 ∷ round 0 ∷ []

join_lem_example :
    (steps handed_over (begin none)).accepted ≡ (steps handed_over (begin none)).received
unfolding steps begin
join_lem_example = join_lem none handed_over refl

join-stuck_example :
    let s = steps {A = ℕ} (turns 1 2 (40 ∷ 50 ∷ [])) (begin (some 5)) in
    (s.queue.cond ≡ false)
    × (s.accepted ≡ s.received)
    × (s.queue.callbacks ≡ [])
    × (s.running ≡ none)
join-stuck_example = join-stuck (some 5) 1 2 40 (50 ∷ [])

-- A semaphore of one permit: it is acquired, a second `acquire` fails and a `wait` too, it is released, and
-- `_notify` switches to both waiters, and fails at one of them.
abbrev one_permit : List SemaphoreEvent
one_permit =
    acquires
    ∷ acquires
    ∷ waits
    ∷ releases
    ∷ starts
    ∷ rounds 0
    ∷ rounds 1
    ∷ rounds 0
    ∷ acquires
    ∷ releases
    ∷ []

one_permit_result :
    ((history one_permit (init_semaphore 1)).links ≡ (0, true) ∷ (1, true) ∷ [])
    × ((history one_permit (init_semaphore 1)).running ≡ false)
unfolding history init_semaphore
one_permit_result = (refl, refl)

history-IsConserved_example : IsConserved 1 (history one_permit (init_semaphore 1))
history-IsConserved_example = history-IsConserved 1 one_permit
