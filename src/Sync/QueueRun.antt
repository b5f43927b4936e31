-- ===== src/Sync/QueueRun.antt =====
-- Histories of a queue of levent/queue.lua: coroutines put and get, time out and are resumed in any
-- order, and the loop runs the callbacks.
use levent.Prelude.{ℕ, if◌then◌else◌, Option, none, some, List, [], ◌∷◌, ◌++◌}
use levent.Sync.Queue.{
  Callback, get_unlock, put_unlock, Queue, drop_getter, drop_putter, init_queue, queue_put,
  queue_get, Round, ended, resumed, get_round, put_round,
}

-- What may happen next. While a callback is in its loop, the coroutine that it resumed does as it likes
-- before the next round.
pub data Action {ℓ} (A : Type ℓ) : Type ℓ where
  putting : ℕ → A → Action A
  getting : ℕ → Action A
  getter_leaves : ℕ → Action A
  putter_leaves : ℕ → Action A
  run_callback : Action A
  round : ℕ → Action A

-- The queue, the callback that is running, and the items that were put and those that were got, in their
-- order.
pub record QueueState {ℓ} (A : Type ℓ) : Type ℓ where
  pub queue : Queue A
  pub running : Option Callback
  pub accepted : List A
  pub received : List A

module _ {ℓ} {A : Type ℓ} where
  unfoldable pub begin : Option ℕ → QueueState A
  unfolding init_queue
  begin size = record { queue = init_queue size; running = none; accepted = []; received = [] }

  unfoldable pub log : Option A → List A → List A
  log none xs = xs
  log (some x) xs = xs ++ (x ∷ [])

  unfoldable pub after_get : Round A → QueueState A → QueueState A
  unfolding log
  after_get (ended q) s = record s { queue = q; running = none }
  after_get (resumed o q) s = record s { queue = q; received = log o s.received }

  unfoldable pub after_put : Round A → QueueState A → QueueState A
  unfolding log
  after_put (ended q) s = record s { queue = q; running = none }
  after_put (resumed o q) s = record s { queue = q; accepted = log o s.accepted }

  -- The loop starts its next callback, if none is running.
  unfoldable pub start_callback : Option Callback → List Callback → QueueState A → QueueState A
  start_callback none [] s = s
  start_callback none (b ∷ bs) s = record s {
    running = some b;
    queue = record s.queue { callbacks = bs };
  }
  start_callback (some b) bs s = s

  -- A round of the callback that is running.
  unfoldable pub run_round : Option Callback → ℕ → QueueState A → QueueState A
  unfolding get_round put_round after_get after_put
  run_round none k s = s
  run_round (some get_unlock) k s = after_get (get_round k s.queue) s
  run_round (some put_unlock) k s = after_put (put_round k s.queue) s

  -- An action that is not possible changes nothing.
  unfoldable pub step : Action A → QueueState A → QueueState A
  unfolding queue_put queue_get start_callback run_round drop_getter drop_putter log
  step (putting c x) s =
      let (returned, q) = queue_put c x s.queue in
      record s { queue = q; accepted = if returned then s.accepted ++ (x ∷ []) else s.accepted }
  step (getting c) s =
      let (o, q) = queue_get c s.queue in record s { queue = q; received = log o s.received }
  step (getter_leaves c) s = record s {
    queue = record s.queue { getters = drop_getter c s.queue.getters };
  }
  step (putter_leaves c) s = record s {
    queue = record s.queue { putters = drop_putter c s.queue.putters };
  }
  step run_callback s = start_callback s.running s.queue.callbacks s
  step (round k) s = run_round s.running k s

  unfoldable pub steps : List (Action A) → QueueState A → QueueState A
  unfolding step
  steps [] s = s
  steps (a ∷ rest) s = steps rest (step a s)
