-- ===== src/Sync/Permits.antt =====
-- The permits of the semaphore of levent/lock.lua, in every history.
use levent.Prelude.{
  ℕ, zero, suc, ◌+◌, ◌≡◌, ◌<◌, refl, ap, ◌∙◌, ◌==◌, ltb, Bool, true, false, not, ◌&&◌, Option, none,
  some, List, [], ◌∷◌, length, length-append, arith, Bool-cases, inl, inr,
}
use levent.Sync.Queue.{some_entry, pick}
use levent.Sync.Semaphore.{
  Semaphore, init_semaphore, release, wait, take_permit, acquire, mark, wake, notify_round,
  start_notify, round_if, SemaphoreEvent, releases, acquires, waits, starts, rounds, happens,
  history,
}

-- `_notify` is scheduled once, where `notifier` is true, and not before.
abbrev pub calls_of : Bool → ℕ
calls_of true = 1
calls_of false = 0

pub record IsConserved (value : ℕ) (s : Semaphore) : Type 0 where
  pub permits : s.counter + s.acquired ≡ value + s.released
  pub waiters : length s.links ≡ s.failed
  pub once : s.calls ≡ calls_of s.notifier

module _ (value : ℕ) where
  release-IsConserved : (s : Semaphore) → IsConserved value s → IsConserved value (release s)
  unfolding release
  release-IsConserved s h = elim (Bool-cases (not s.notifier && some_entry s.links)) [
    | inl e ↦ rw e (record {
      permits = omega (arith, h.permits);
      waiters = h.waiters;
      once =
          let down : s.notifier ≡ false = ground arith in
          let none_yet : s.calls ≡ 0 = (h.once ∙ ap calls_of down) in omega arith;
    })
    | inr e ↦
        rw e (record { permits = omega (arith, h.permits); waiters = h.waiters; once = h.once })
  ]

  wait-IsConserved : (s : Semaphore) → IsConserved value s → IsConserved value (wait s).1
  unfolding wait
  wait-IsConserved s h = elim (Bool-cases (ltb 0 s.counter)) [
    | inl e ↦ rw e h
    | inr e ↦ rw e (record {
      permits = h.permits;
      waiters = omega (arith, h.waiters, length-append s.links ((s.fresh, false) ∷ []));
      once = h.once;
    })
  ]

  acquire-IsConserved : (s : Semaphore) → IsConserved value s → IsConserved value (acquire s)
  unfolding acquire wait take_permit
  acquire-IsConserved s h = elim (Bool-cases (ltb 0 s.counter)) [
    | inl e ↦ rw e (record {
      permits = let some_left : 0 < s.counter = ground arith in omega (arith, h.permits);
      waiters = h.waiters;
      once = h.once;
    })
    | inr e ↦ rw e (record {
      permits = h.permits;
      waiters = omega (arith, h.waiters, length-append s.links ((s.fresh, false) ∷ []));
      once = h.once;
    })
  ]

  length-mark : (c : ℕ) (xs : List (ℕ × Bool)) → length (mark c xs) ≡ length xs
  unfolding mark
  length-mark c [] = refl
  length-mark c ((d, b) ∷ xs) = elim (Bool-cases (d == c)) [
    | inl e ↦ rw e refl
    | inr e ↦ rw e (ap suc (length-mark c xs))
  ]

  wake-IsConserved :
      (s : Semaphore) (o : Option ((ℕ × Bool) × List (ℕ × Bool)))
      → IsConserved value s
      → IsConserved value (wake s o)
  unfolding wake
  wake-IsConserved s none h = record { permits = h.permits; waiters = h.waiters; once = h.once }
  wake-IsConserved s (some ((c, true), rest)) h = record {
    permits = h.permits;
    waiters = h.waiters;
    once = h.once;
  }
  wake-IsConserved s (some ((c, false), rest)) h = record {
    permits = h.permits;
    waiters = length-mark c s.links ∙ h.waiters;
    once = h.once;
  }

  round-IsConserved :
      (busy : Bool) (k : ℕ) (s : Semaphore)
      → IsConserved value s
      → IsConserved value (round_if busy k s)
  unfolding round_if notify_round
  round-IsConserved true k s h = elim (Bool-cases (s.counter == 0)) [
    | inl e ↦ rw e (record { permits = h.permits; waiters = h.waiters; once = h.once })
    | inr e ↦ rw e (wake-IsConserved s (pick k s.links) h)
  ]
  round-IsConserved false k s h = h

  start-IsConserved :
      (n : ℕ) (busy : Bool) (s : Semaphore)
      → IsConserved value s
      → IsConserved value (start_notify n busy s)
  unfolding start_notify
  start-IsConserved zero busy s h = h
  start-IsConserved (suc n) true s h = h
  start-IsConserved (suc n) false s h = record {
    permits = h.permits;
    waiters = h.waiters;
    once = h.once;
  }

  events-IsConserved :
      (es : List SemaphoreEvent) (s : Semaphore)
      → IsConserved value s
      → IsConserved value (history es s)
  unfolding history happens
  events-IsConserved [] s h = h
  events-IsConserved (releases ∷ es) s h =
      events-IsConserved es (release s) (release-IsConserved s h)
  events-IsConserved (acquires ∷ es) s h =
      events-IsConserved es (acquire s) (acquire-IsConserved s h)
  events-IsConserved (waits ∷ es) s h = events-IsConserved es (wait s).1 (wait-IsConserved s h)
  events-IsConserved (starts ∷ es) s h =
      events-IsConserved es (start_notify s.callbacks s.running s)
        (start-IsConserved s.callbacks s.running s h)
  events-IsConserved (rounds k ∷ es) s h =
      events-IsConserved es (round_if s.running k s) (round-IsConserved s.running k s h)

-- In every history of a new semaphore the counter and the number of acquisitions make up the first value and
-- the number of releases; every call of `wait` or `acquire` that has failed has left its waiter in `links`,
-- and no waiter ever leaves them; and `_notify` has been scheduled at most once, from then on `notifier` is
-- true.
pub history-IsConserved :
    (value : ℕ) (es : List SemaphoreEvent) → IsConserved value (history es (init_semaphore value))
unfolding init_semaphore
history-IsConserved value es =
    events-IsConserved value es (init_semaphore value)
      (record { permits = omega arith; waiters = refl; once = refl })
