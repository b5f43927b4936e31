-- ===== src/Sync/AwakeSteps.antt =====
-- Each step of a queue of levent/queue.lua keeps its waiters called for.
use levent.Prelude.{
  ℕ, ◌≡◌, inl, inr, refl, sym, subst, ◌==◌, ltb, Bool, true, false, Option, none, some, List, [],
  ◌∷◌, arith, Bool-cases,
}
use levent.Sync.Queue.{
  Callback, get_unlock, put_unlock, Queue, some_entry, pick, is_full, get_item, room_at, queue_put,
  taken, queue_get, serve_getter, serve_putter, get_round, put_round,
}
use levent.Sync.QueueRun.{
  Action, putting, getting, getter_leaves, putter_leaves, run_callback, round, QueueState,
  after_get, after_put, start_callback, run_round, step, steps,
}
use levent.Sync.Fifo.{StateIsFifo, step-IsFifo}
use levent.Sync.Fits.{room_at-Fits, not_full-Fits}
use levent.Sync.Awake.{
  has, pending, drop_getter-some, drop_putter-some, pick-none, pick-some, no_room-full, IsAwake,
  put_item-IsAwake, remove_first-IsAwake, StateIsAwake,
}

-- The size that the queue was made with is given.
module _ {ℓ} {A : Type ℓ} (limit : Option ℕ) where
  pub put-IsAwake :
      (c : ℕ) (x : A) (s : QueueState A)
      → StateIsFifo limit s
      → StateIsAwake s
      → StateIsAwake (step (putting c x) s)
  unfolding step queue_put is_full
  put-IsAwake c x s f h = elim (Bool-cases (room_at s.queue.maxsize s.queue.size)) [
    | inl e ↦ rw e (
        put_item-IsAwake x s.queue s.running f.counted (room_at-Fits s.queue.maxsize s.queue.size e)
          h)
    | inr e ↦ rw e (record {
      getters_called = h.getters_called;
      putters_called = λ a b.
          let full = no_room-full s.queue.maxsize s.queue.size _ f.counted f.bounded e in
          absurd (ground (arith, full, b));
      get_pending = h.get_pending;
      put_pending = h.put_pending;
    })
  ]

  pub get-IsAwake : (c : ℕ) (s : QueueState A) → StateIsAwake s → StateIsAwake (step (getting c) s)
  unfolding step queue_get
  get-IsAwake c s h = elim (Bool-cases (ltb 0 s.queue.size)) [
    | inl e ↦ rw e (remove_first-IsAwake s.queue.items s.queue s.running h)
    | inr e ↦ rw e (record {
      getters_called = λ a b. absurd (ground (arith, e, b));
      putters_called = h.putters_called;
      get_pending = h.get_pending;
      put_pending = h.put_pending;
    })
  ]

  pub start-IsAwake :
      (r : Option Callback) (bs : List Callback) (s : QueueState A)
      → r ≡ s.running
      → bs ≡ s.queue.callbacks
      → StateIsAwake s
      → StateIsAwake (start_callback r bs s)
  unfolding start_callback is_full
  start-IsAwake none [] s e f h = h
  start-IsAwake none (b ∷ bs) s e f h = record {
    getters_called = h.getters_called;
    putters_called = h.putters_called;
    get_pending = λ a.
        subst (λ cs. has get_unlock cs ≡ true) (sym f)
          (subst (λ r. pending get_unlock r s.queue.callbacks ≡ true) (sym e) (h.get_pending a));
    put_pending = λ a.
        subst (λ cs. has put_unlock cs ≡ true) (sym f)
          (subst (λ r. pending put_unlock r s.queue.callbacks ≡ true) (sym e) (h.put_pending a));
  }
  start-IsAwake (some b) bs s e f h = h

  pub got-IsAwake :
      (q : Queue A) (r : Option Callback) → IsAwake q r → IsAwake (taken q (get_item q)).1 r
  unfolding get_item taken
  got-IsAwake q r h = elim (Bool-cases (ltb 0 q.size)) [
    | inl e ↦ rw e (remove_first-IsAwake q.items q r h)
    | inr e ↦ rw e h
  ]

  -- The end of a loop: its flag is down, nobody is left whom it has to call, and the other callback is
  -- where it was.
  pub get_ended-IsAwake :
      (s : QueueState A) (flag : Bool)
      → (some_entry s.queue.getters ≡ true → ltb 0 s.queue.size ≡ true → ⊥)
      → s.running ≡ some get_unlock
      → StateIsAwake s
      → IsAwake (record s.queue { cond = flag; is_in_get_unlock = false }) none
  unfolding is_full
  get_ended-IsAwake s flag nobody running h = record {
    getters_called = λ a b. absurd (nobody a b);
    putters_called = h.putters_called;
    get_pending = λ a. cc;
    put_pending =
        λ a. subst (λ r. pending put_unlock r s.queue.callbacks ≡ true) running (h.put_pending a);
  }

  pub put_ended-IsAwake :
      (s : QueueState A)
      → (some_entry s.queue.putters ≡ true → is_full s.queue ≡ false → ⊥)
      → s.running ≡ some put_unlock
      → StateIsAwake s
      → IsAwake (record s.queue { is_in_put_unlock = false }) none
  unfolding is_full
  put_ended-IsAwake s nobody running h = record {
    getters_called = h.getters_called;
    putters_called = λ a b. absurd (nobody a b);
    get_pending =
        λ a. subst (λ r. pending get_unlock r s.queue.callbacks ≡ true) running (h.get_pending a);
    put_pending = λ a. cc;
  }

  pub serve_getter-IsAwake :
      (k : ℕ) (s : QueueState A) (o : Option (ℕ × List ℕ))
      → pick k s.queue.getters ≡ o
      → s.running ≡ some get_unlock
      → StateIsAwake s
      → StateIsAwake (after_get (serve_getter s.queue o) s)
  unfolding serve_getter after_get is_full
  serve_getter-IsAwake k s none e running h =
      get_ended-IsAwake s s.queue.cond (λ a b. ground (arith, a, pick-none k s.queue.getters e))
        running h
  serve_getter-IsAwake k s (some (c, rest)) e running h =
      got-IsAwake (record s.queue { getters = rest }) s.running
        (record {
          getters_called = λ a b. h.getters_called (pick-some k s.queue.getters (c, rest) e) b;
          putters_called = h.putters_called;
          get_pending = h.get_pending;
          put_pending = h.put_pending;
        })

  pub get_round-IsAwake :
      (k : ℕ) (s : QueueState A)
      → s.running ≡ some get_unlock
      → StateIsAwake s
      → StateIsAwake (after_get (get_round k s.queue) s)
  unfolding get_round after_get
  get_round-IsAwake k s running h = elim (Bool-cases (s.queue.size == 0)) [
    | inl e ↦ rw e (get_ended-IsAwake s true (λ a b. absurd (ground (arith, e, b))) running h)
    | inr e ↦ rw e (serve_getter-IsAwake k s (pick k s.queue.getters) refl running h)
  ]

  pub serve_putter-IsAwake :
      (k : ℕ) (s : QueueState A) (o : Option ((ℕ × A) × List (ℕ × A)))
      → pick k s.queue.putters ≡ o
      → s.running ≡ some put_unlock
      → is_full s.queue ≡ false
      → StateIsFifo limit s
      → StateIsAwake s
      → StateIsAwake (after_put (serve_putter s.queue o) s)
  unfolding serve_putter after_put is_full
  serve_putter-IsAwake k s none e running room f h =
      put_ended-IsAwake s (λ a b. ground (arith, a, pick-none k s.queue.putters e)) running h
  serve_putter-IsAwake k s (some ((c, x), rest)) e running room f h =
      put_item-IsAwake x (record s.queue { putters = rest }) s.running f.counted
        (not_full-Fits s.queue.maxsize s.queue.size _ f.counted f.bounded room)
        (record {
          getters_called = h.getters_called;
          putters_called = λ a b. h.putters_called (pick-some k s.queue.putters ((c, x), rest) e) b;
          get_pending = h.get_pending;
          put_pending = h.put_pending;
        })

  pub put_round-IsAwake :
      (k : ℕ) (s : QueueState A)
      → s.running ≡ some put_unlock
      → StateIsFifo limit s
      → StateIsAwake s
      → StateIsAwake (after_put (put_round k s.queue) s)
  unfolding put_round after_put
  put_round-IsAwake k s running f h = elim (Bool-cases (is_full s.queue)) [
    | inl e ↦ rw e (put_ended-IsAwake s (λ a b. absurd (ground (arith, e, b))) running h)
    | inr e ↦ rw e (serve_putter-IsAwake k s (pick k s.queue.putters) refl running e f h)
  ]

  pub round-IsAwake :
      (r : Option Callback) (k : ℕ) (s : QueueState A)
      → s.running ≡ r
      → StateIsFifo limit s
      → StateIsAwake s
      → StateIsAwake (run_round r k s)
  unfolding run_round
  round-IsAwake none k s running f h = h
  round-IsAwake (some get_unlock) k s running f h = get_round-IsAwake k s running h
  round-IsAwake (some put_unlock) k s running f h = put_round-IsAwake k s running f h

  pub step-IsAwake :
      (a : Action A) (s : QueueState A)
      → StateIsFifo limit s
      → StateIsAwake s
      → StateIsAwake (step a s)
  unfolding step is_full
  step-IsAwake (putting c x) s f h = put-IsAwake c x s f h
  step-IsAwake (getting c) s f h = get-IsAwake c s h
  step-IsAwake (getter_leaves c) s f h = record {
    getters_called = λ a b. h.getters_called (drop_getter-some c s.queue.getters a) b;
    putters_called = h.putters_called;
    get_pending = h.get_pending;
    put_pending = h.put_pending;
  }
  step-IsAwake (putter_leaves c) s f h = record {
    getters_called = h.getters_called;
    putters_called = λ a b. h.putters_called (drop_putter-some c s.queue.putters a) b;
    get_pending = h.get_pending;
    put_pending = h.put_pending;
  }
  step-IsAwake run_callback s f h = start-IsAwake s.running s.queue.callbacks s refl refl h
  step-IsAwake (round k) s f h = round-IsAwake s.running k s refl f h

  pub steps-IsAwake :
      (es : List (Action A)) (s : QueueState A)
      → StateIsFifo limit s
      → StateIsAwake s
      → StateIsAwake (steps es s)
  unfolding steps
  steps-IsAwake [] s f h = h
  steps-IsAwake (a ∷ es) s f h =
      steps-IsAwake es (step a s) (step-IsFifo limit a s f) (step-IsAwake a s f h)
