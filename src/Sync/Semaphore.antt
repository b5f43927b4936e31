-- ===== src/Sync/Semaphore.antt =====
-- The semaphore of levent/lock.lua under Lua 5.3, and its histories: coroutines release, acquire and wait in
-- any order, and the loop runs the callbacks.
use levent.Prelude.{
  ℕ, zero, suc, ◌+◌, ◌-◌, ◌==◌, ltb, if◌then◌else◌, Bool, true, false, not, ◌&&◌, Option, none,
  some, List, [], ◌∷◌, ◌++◌,
}
use levent.Sync.Queue.{some_entry, pick}

-- `links` are the waiters, each with its number and whether it was switched to. `callbacks` is the number of
-- calls of `_notify` that the loop has before it, `running` says that one is in its loop, and `fresh` is the
-- number of the next waiter. The last four fields are no fields of the code: they count the permits that were
-- acquired and released, the calls of `wait` that failed, and the calls of `_notify` that were scheduled.
pub record Semaphore : Type 0 where
  pub counter : ℕ
  pub notifier : Bool
  pub links : List (ℕ × Bool)
  pub callbacks : ℕ
  pub running : Bool
  pub fresh : ℕ
  pub acquired : ℕ
  pub released : ℕ
  pub failed : ℕ
  pub calls : ℕ

-- `Semaphore:_init`
unfoldable pub init_semaphore : ℕ → Semaphore
init_semaphore value = record {
  counter = value;
  notifier = false;
  links = [];
  callbacks = 0;
  running = false;
  fresh = 0;
  acquired = 0;
  released = 0;
  failed = 0;
  calls = 0;
}

-- `Semaphore:release`
unfoldable pub release : Semaphore → Semaphore
unfolding some_entry
release s =
    let t = record s { counter = s.counter + 1; released = s.released + 1 } in
    if not s.notifier && some_entry s.links
    then record t { notifier = true; callbacks = s.callbacks + 1; calls = s.calls + 1 }
    else t

-- `Semaphore:wait`, and whether it returns. With the counter at 0 it raises an error: `xpcall` wants a
-- function as its second argument, and gets the waiter, a table. The waiter is in `links` then.
unfoldable pub wait : Semaphore → Bool × Semaphore
wait s = if ltb 0 s.counter then (true, s) else (
  false,
  record s {
    links = s.links ++ ((s.fresh, false) ∷ []);
    fresh = s.fresh + 1;
    failed = s.failed + 1;
  },
)

-- `Semaphore:acquire` behind `wait`, which has returned or not.
unfoldable pub take_permit : Bool × Semaphore → Semaphore
take_permit (true, s) = record s { counter = s.counter - 1; acquired = s.acquired + 1 }
take_permit (false, s) = s

-- `Semaphore:acquire`
unfoldable pub acquire : Semaphore → Semaphore
unfolding wait take_permit
acquire s = take_permit (wait s)

-- `self.exception = exception` in the waiter.
unfoldable pub mark : ℕ → List (ℕ × Bool) → List (ℕ × Bool)
mark c [] = []
mark c ((d, switched) ∷ ds) = if d == c then (d, true) ∷ ds else (d, switched) ∷ mark c ds

-- A waiter is switched to, and no coroutine is in it to be resumed. Where it was switched to before, the
-- assertion in `Waiter:_switch` ends the callback.
unfoldable pub wake : Semaphore → Option ((ℕ × Bool) × List (ℕ × Bool)) → Semaphore
unfolding mark
wake s none = record s { running = false }
wake s (some ((c, true), rest)) = record s { running = false }
wake s (some ((c, false), rest)) = record s { links = mark c s.links }

-- A round of the loop of `_notify`.
unfoldable pub notify_round : ℕ → Semaphore → Semaphore
unfolding pick wake
notify_round k s = if s.counter == 0 then record s { running = false } else wake s (pick k s.links)

-- The loop starts a `_notify`, if it has one before it and none is running.
unfoldable pub start_notify : ℕ → Bool → Semaphore → Semaphore
start_notify zero busy s = s
start_notify (suc n) true s = s
start_notify (suc n) false s = record s { callbacks = n; running = true }

-- A round, if `_notify` is in its loop.
unfoldable pub round_if : Bool → ℕ → Semaphore → Semaphore
unfolding notify_round
round_if true k s = notify_round k s
round_if false k s = s

pub data SemaphoreEvent : Type 0 where
  releases acquires waits starts : SemaphoreEvent
  rounds : ℕ → SemaphoreEvent

unfoldable pub happens : SemaphoreEvent → Semaphore → Semaphore
unfolding release wait acquire start_notify round_if
happens releases s = release s
happens acquires s = acquire s
happens waits s = (wait s).1
happens starts s = start_notify s.callbacks s.running s
happens (rounds k) s = round_if s.running k s

unfoldable pub history : List SemaphoreEvent → Semaphore → Semaphore
unfolding happens
history [] s = s
history (e ∷ es) s = history es (happens e s)
