-- ===== src/Sync/Finished.antt =====
-- `Event:_notify` of levent/lock.lua comes to its end.
use levent.Prelude.{
  ℕ, zero, suc, ◌≡◌, ◌<◌, refl, sym, subst, ◌∙◌, Bool, true, false, Option, none, some, List, [],
  ◌∷◌, inl, inr, Bool-cases, arith,
}
use levent.Sync.Queue.{pick}
use levent.Sync.LockEvent.{
  LockEvent, init_event, copy_links, event_set, event_clear, event_wait, clears, waits, times_out,
  switch, event_start, Act, sets, starts, rounds, act, acts,
}
use levent.Sync.Notified.{
  is_called, IsNotifying, set-IsNotifying, wait-IsNotifying, switch-IsNotifying, start-IsNotifying,
  is_patient, acts-IsNotifying, init-IsNotifying,
}
use levent.Prelude.{length}
use levent.Sync.Single.{
  IsSingle, set-IsSingle, wait-IsSingle, switch-IsSingle, start-IsSingle, acts-IsSingle,
  init-IsSingle,
}
use levent.Sync.Rest.{
  is_calm, count_rounds, IsAtRest, busy-start, wait-same, calm-IsAtRest, none-IsAtRest,
  switch-shorter, round-busy,
}

-- A `_notify` that is in its loop, with what is known of it.
record IsUnderWay (e : LockEvent) : Type 0 where
  sound : IsNotifying e
  single : IsSingle e
  busy : e.running ≡ true

-- What a round leaves, if what comes after it leads to the end.
after_round :
    (k : ℕ) (more : List Act) (e : LockEvent) (o : Option (ℕ × List ℕ))
    → ((s : LockEvent) → IsUnderWay s → length s.todo < count_rounds more → IsAtRest (acts more s))
    → is_calm more ≡ true
    → pick k e.todo ≡ o
    → IsUnderWay e
    → length e.todo < suc (count_rounds more)
    → IsAtRest (acts more (switch e o))
after_round k more e none ends calm picked h enough =
    calm-IsAtRest more (switch e none) calm (none-IsAtRest k e picked (h.single.alone h.busy))
after_round k more e (some (c, rest)) ends calm picked h enough =
    let on = switch-shorter k c rest e picked h.busy h.sound in
    ends (switch e (some (c, rest)))
      (record {
        sound = switch-IsNotifying k e (some (c, rest)) picked h.busy h.sound;
        single = switch-IsSingle e (some (c, rest)) h.busy h.single;
        busy = on.0;
      })
      (let fewer = on.1 in omega arith)

calm-end :
    (more : List Act) (e : LockEvent)
    → is_calm more ≡ true
    → IsUnderWay e
    → length e.todo < count_rounds more
    → IsAtRest (acts more e)
unfolding acts act is_calm count_rounds event_clear is_patient
calm-end [] e calm h enough = absurd (omega arith)
calm-end (sets ∷ more) e calm h enough = cc
calm-end (times_out c ∷ more) e calm h enough = cc
calm-end (clears ∷ more) e calm h enough =
    calm-end more (event_clear e) calm
      (record {
        sound = acts-IsNotifying (clears ∷ []) e refl h.sound;
        single = acts-IsSingle (clears ∷ []) e h.single;
        busy = h.busy;
      })
      enough
calm-end (waits ∷ more) e calm h enough =
    let same = wait-same e in
    calm-end more (event_wait e) calm
      (record {
        sound = wait-IsNotifying e h.sound;
        single = wait-IsSingle e h.single;
        busy = same.2 ∙ h.busy;
      })
      (rw same.0 enough)
calm-end (starts ∷ more) e calm h enough =
    subst (λ s. IsAtRest (acts more s)) (sym (busy-start e.callbacks e.running e h.busy))
      (calm-end more e calm h enough)
calm-end (rounds k ∷ more) e calm h enough =
    subst (λ s. IsAtRest (acts more s)) (sym (round-busy e.running k e h.busy))
      (after_round k more e (pick k e.todo) (λ s. calm-end more s calm) calm refl h enough)

start-runs :
    (n : ℕ) (busy : Bool) (e : LockEvent)
    → e.callbacks ≡ n
    → e.running ≡ busy
    → is_called e ≡ true
    → ((event_start n busy e).running ≡ true) × ((event_start n busy e).todo ≡ e.todo)
unfolding event_start
start-runs zero true e n_calls now called = (now, refl)
start-runs zero false e n_calls now called = ground (arith, n_calls, now, called)
start-runs (suc n) true e n_calls now called = (now, refl)
start-runs (suc n) false e n_calls now called = (refl, refl)

set-called :
    (e : LockEvent)
    → ((event_set e).notifier ≡ true) × ((event_set e).todo ≡ copy_links e.links e.todo)
unfolding event_set
set-called e = elim (Bool-cases e.notifier) [
  | inl up ↦ rw up (refl, refl)
  | inr down ↦ rw down (refl, refl)
]

-- After a history without a timeout, a call of `set` leads to a `_notify` that ends, as long as nobody calls `set`
-- again or times out: once the loop has started it, one more round than there are waiters to be notified is
-- enough, whatever `next` gives in each, and whether the coroutines wait again or clear the event between the
-- rounds; then the table of the waiters to be notified is empty, `notifier` is false again, and nothing runs or
-- is called.
pub notify-ends :
    (before more : List Act)
    → is_patient before ≡ true
    → is_calm more ≡ true
    → length (copy_links (acts before init_event).links (acts before init_event).todo)
      < count_rounds more
    → IsAtRest (acts (sets ∷ starts ∷ more) (acts before init_event))
unfolding acts act
notify-ends before more patient calm enough =
    let e = acts before init_event in
    let s = event_set e in
    let h : IsNotifying s =
      set-IsNotifying e (acts-IsNotifying before init_event patient init-IsNotifying) in
    let g : IsSingle s = set-IsSingle e (acts-IsSingle before init_event init-IsSingle) in
    let called = set-called e in
    let now = start-runs s.callbacks s.running s refl refl (h.called called.0) in
    calm-end more (event_start s.callbacks s.running s) calm
      (record {
        sound = start-IsNotifying s.callbacks s.running s refl refl h;
        single = start-IsSingle s.callbacks s.running s refl refl g;
        busy = now.0;
      })
      (rw (now.1 ∙ called.1) enough)
