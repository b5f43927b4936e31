-- ===== src/Sync/LockEvent.antt =====
-- The event of levent/lock.lua, and its histories: coroutines set, clear, wait and time out in any order,
-- and the loop runs the callbacks.
use levent.Prelude.{
  ℕ, zero, suc, ◌+◌, ◌==◌, if◌then◌else◌, Bool, true, false, ◌||◌, Option, none, some, List, [],
  ◌∷◌, ◌++◌,
}
use levent.Sync.Queue.{pick}

-- Each wait has a waiter of its own, and `fresh` is the number of the next one. `callbacks` is the number
-- of calls of `_notify` that the loop has before it, and `running` says that one is in its loop.
pub record LockEvent : Type 0 where
  pub flag : Bool
  pub links : List ℕ
  pub todo : List ℕ
  pub notifier : Bool
  pub callbacks : ℕ
  pub running : Bool
  pub fresh : ℕ

-- `Event:_init`
unfoldable pub init_event : LockEvent
init_event = record {
  flag = false;
  links = [];
  todo = [];
  notifier = false;
  callbacks = 0;
  running = false;
  fresh = 0;
}

-- Whether a table of waiters has this one.
unfoldable pub member : ℕ → List ℕ → Bool
member c [] = false
member c (d ∷ ds) = (d == c) || member c ds

-- `t[waiter] = nil`
unfoldable pub without : ℕ → List ℕ → List ℕ
without c [] = []
without c (d ∷ ds) = if d == c then without c ds else d ∷ without c ds

-- `for k,v in pairs(self.links) do self.todo[k] = v end`
unfoldable pub copy_links : List ℕ → List ℕ → List ℕ
unfolding member
copy_links [] todo = todo
copy_links (c ∷ links) todo =
    if member c todo then copy_links links todo else copy_links links (todo ++ (c ∷ []))

-- `Event:set`
unfoldable pub event_set : LockEvent → LockEvent
unfolding copy_links
event_set e =
    let f = record e { flag = true; todo = copy_links e.links e.todo } in
    if e.notifier then f else record f { notifier = true; callbacks = e.callbacks + 1 }

-- `Event:clear`
unfoldable pub event_clear : LockEvent → LockEvent
event_clear e = record e { flag = false }

-- `Event:wait` up to its return, or to its wait.
unfoldable pub event_wait : LockEvent → LockEvent
event_wait e =
    if e.flag then e else record e { links = e.links ++ (e.fresh ∷ []); fresh = e.fresh + 1 }

-- A waiter is switched to: its coroutine leaves `wait`. One that has timed out was switched to before,
-- and the assertion in `Waiter:_switch` ends the callback.
unfoldable pub switch : LockEvent → Option (ℕ × List ℕ) → LockEvent
unfolding member without
switch e none = record e { notifier = false; running = false }
switch e (some (c, rest)) =
    if member c e.links
    then record e { todo = rest; links = without c e.links }
    else record e { todo = rest; running = false }

-- A round of the loop of `_notify`, if it is in its loop.
unfoldable pub event_round : Bool → ℕ → LockEvent → LockEvent
unfolding pick switch
event_round true k e = switch e (pick k e.todo)
event_round false k e = e

-- The loop starts a `_notify`, if it has one before it and none is running.
unfoldable pub event_start : ℕ → Bool → LockEvent → LockEvent
event_start zero busy e = e
event_start (suc n) true e = e
event_start (suc n) false e = record e { callbacks = n; running = true }

pub data Act : Type 0 where
  sets clears waits starts : Act
  times_out rounds : ℕ → Act

unfoldable pub act : Act → LockEvent → LockEvent
unfolding event_set event_clear event_wait event_start event_round without
act sets e = event_set e
act clears e = event_clear e
act waits e = event_wait e
act starts e = event_start e.callbacks e.running e
act (times_out c) e = record e { links = without c e.links }
act (rounds k) e = event_round e.running k e

unfoldable pub acts : List Act → LockEvent → LockEvent
unfolding act
acts [] e = e
acts (a ∷ more) e = acts more (act a e)
