-- ===== src/Sync/Join.antt =====
-- The event `cond` of a queue of levent/queue.lua, at which `join` waits.
use levent.Prelude.{
  ℕ, zero, suc, ◌-◌, ◌≡◌, inl, inr, refl, sym, ap, ◌∙◌, ◌==◌, ltb, Bool, true, false, Option, none,
  some, List, [], ◌∷◌, ◌++◌, length, arith, Bool-cases, append-nil, append_assoc,
}
use levent.Sync.Queue.{
  Callback, get_unlock, put_unlock, Queue, some_entry, pick, assign, limit_of, init_queue, is_full,
  room_at, call_putters, call_getters, put_item, remove_first, get_item, queue_put, taken,
  queue_get, serve_getter, serve_putter, get_round, put_round,
}
use levent.Sync.QueueRun.{
  Action, putting, getting, getter_leaves, putter_leaves, run_callback, round, QueueState, begin,
  log, after_get, after_put, start_callback, run_round, step, steps,
}
use levent.Sync.Fifo.{steps-IsFifo}

room_of : (size : Option ℕ) → room_at (limit_of size) 0 ≡ true
unfolding room_at limit_of
room_of none = refl
room_of (some zero) = refl
room_of (some (suc m)) = ground arith

module _ {ℓ} {A : Type ℓ} where
  -- The event is set only while the queue is empty.
  abbrev pub IsJoined : Queue A → Type 0
  IsJoined q = q.cond ≡ true → q.size ≡ 0

  put_item-low : (x : A) (q : Queue A) → (put_item x q).cond ≡ false
  unfolding put_item call_getters some_entry
  put_item-low x q = ground arith

  call_putters-IsJoined : (q : Queue A) → IsJoined q → IsJoined (call_putters q)
  unfolding call_putters some_entry
  call_putters-IsJoined q h = ground (arith, h)

  remove_first-IsJoined :
      (items : List A) (q : Queue A) → IsJoined q → IsJoined (taken q (remove_first items q)).1
  unfolding remove_first taken
  remove_first-IsJoined [] q h = h
  remove_first-IsJoined (x ∷ xs) q h =
      call_putters-IsJoined (record q { items = xs; size = q.size - 1 }) λ e. omega (arith, h e)

  got-IsJoined : (q : Queue A) → IsJoined q → IsJoined (taken q (get_item q)).1
  unfolding get_item taken
  got-IsJoined q h = elim (Bool-cases (ltb 0 q.size)) [
    | inl e ↦ rw e (remove_first-IsJoined q.items q h)
    | inr e ↦ rw e h
  ]

  put_item-IsJoined : (x : A) (q : Queue A) → IsJoined (put_item x q)
  put_item-IsJoined x q e = let low = put_item-low x q in cc

  serve_getter-IsJoined :
      (o : Option (ℕ × List ℕ)) (s : QueueState A)
      → IsJoined s.queue
      → IsJoined (after_get (serve_getter s.queue o) s).queue
  unfolding serve_getter after_get
  serve_getter-IsJoined none s h = h
  serve_getter-IsJoined (some (c, rest)) s h = got-IsJoined (record s.queue { getters = rest }) h

  serve_putter-IsJoined :
      (o : Option ((ℕ × A) × List (ℕ × A))) (s : QueueState A)
      → IsJoined s.queue
      → IsJoined (after_put (serve_putter s.queue o) s).queue
  unfolding serve_putter after_put
  serve_putter-IsJoined none s h = h
  serve_putter-IsJoined (some ((c, x), rest)) s h =
      put_item-IsJoined x (record s.queue { putters = rest })

  run_round-IsJoined :
      (r : Option Callback) (k : ℕ) (s : QueueState A)
      → IsJoined s.queue
      → IsJoined (run_round r k s).queue
  unfolding run_round get_round put_round after_get after_put
  run_round-IsJoined none k s h = h
  run_round-IsJoined (some get_unlock) k s h = elim (Bool-cases (s.queue.size == 0)) [
    | inl e ↦ rw e (λ up. ground (arith, e))
    | inr e ↦ rw e (serve_getter-IsJoined (pick k s.queue.getters) s h)
  ]
  run_round-IsJoined (some put_unlock) k s h = elim (Bool-cases (is_full s.queue)) [
    | inl e ↦ rw e h
    | inr e ↦ rw e (serve_putter-IsJoined (pick k s.queue.putters) s h)
  ]

  start_callback-IsJoined :
      (r : Option Callback) (bs : List Callback) (s : QueueState A)
      → IsJoined s.queue
      → IsJoined (start_callback r bs s).queue
  unfolding start_callback
  start_callback-IsJoined none [] s h = h
  start_callback-IsJoined none (b ∷ bs) s h = h
  start_callback-IsJoined (some r) bs s h = h

  step-IsJoined : (a : Action A) (s : QueueState A) → IsJoined s.queue → IsJoined (step a s).queue
  unfolding step queue_put queue_get
  step-IsJoined (putting c x) s h = elim (Bool-cases (room_at s.queue.maxsize s.queue.size)) [
    | inl e ↦ rw e (put_item-IsJoined x s.queue)
    | inr e ↦ rw e h
  ]
  step-IsJoined (getting c) s h = elim (Bool-cases (ltb 0 s.queue.size)) [
    | inl e ↦ rw e (remove_first-IsJoined s.queue.items s.queue h)
    | inr e ↦ rw e h
  ]
  step-IsJoined (getter_leaves c) s h = h
  step-IsJoined (putter_leaves c) s h = h
  step-IsJoined run_callback s h = start_callback-IsJoined s.running s.queue.callbacks s h
  step-IsJoined (round k) s h = run_round-IsJoined s.running k s h

  steps-IsJoined :
      (es : List (Action A)) (s : QueueState A) → IsJoined s.queue → IsJoined (steps es s).queue
  unfolding steps
  steps-IsJoined [] s h = h
  steps-IsJoined (a ∷ es) s h = steps-IsJoined es (step a s) (step-IsJoined a s h)

  empty_of_zero : (xs : List A) → length xs ≡ 0 → xs ≡ []
  empty_of_zero [] h = refl
  empty_of_zero (x ∷ xs) h = absurd (omega (arith, h))

  -- In every history of a queue, when the event at which join waits is set, everything that was put has
  -- been got.
  pub join_lem :
      (size : Option ℕ) (es : List (Action A))
      → let s = steps es (begin size) in s.queue.cond ≡ true → s.accepted ≡ s.received
  unfolding begin init_queue
  join_lem size es up =
      let s = steps es (begin size) in
      let f = steps-IsFifo size es in
      let none_left : s.queue.items ≡ [] =
        empty_of_zero s.queue.items
          (sym f.counted ∙ steps-IsJoined es (begin size) (λ e. refl) up) in
      f.ordered ∙ ap (λ xs. s.received ++ xs) none_left ∙ append-nil s.received

  -- A producer and a consumer that take turns.
  abbrev pub turns : ℕ → ℕ → List A → List (Action A)
  turns c d [] = []
  turns c d (x ∷ xs) = putting c x ∷ getting d ∷ turns c d xs

  -- A queue at which nobody waits and in which nothing is.
  abbrev pub idle : Option ℕ → Bool → List A → QueueState A
  idle limit up done = record {
    queue = record {
      maxsize = limit;
      items = [];
      size = 0;
      getters = [];
      putters = [];
      cond = up;
      is_in_put_unlock = false;
      is_in_get_unlock = false;
      callbacks = [];
    };
    running = none;
    accepted = done;
    received = done;
  }

  turn-idle :
      (c d : ℕ) (limit : Option ℕ) (up : Bool) (x : A) (done : List A)
      → room_at limit 0 ≡ true
      → step (getting d) (step (putting c x) (idle limit up done))
        ≡ idle limit false (done ++ (x ∷ []))
  unfolding step queue_put queue_get put_item call_getters some_entry assign get_item remove_first
      call_putters taken log
  turn-idle c d limit up x done room = rw (step, queue_put, room) refl

  turns-idle :
      (c d : ℕ) (limit : Option ℕ) (up : Bool) (x : A) (xs done : List A)
      → room_at limit 0 ≡ true
      → steps (turns c d (x ∷ xs)) (idle limit up done) ≡ idle limit false (done ++ (x ∷ xs))
  unfolding steps
  turns-idle c d limit up x [] done room = turn-idle c d limit up x done room
  turns-idle c d limit up x (y ∷ ys) done room =
      ap (steps (turns c d (y ∷ ys))) (turn-idle c d limit up x done room)
      ∙ turns-idle c d limit false y ys (done ++ (x ∷ [])) room
      ∙ ap (idle limit false) (append_assoc done (x ∷ []) (y ∷ ys))

  -- Where a producer and a consumer take turns at a new queue, so that no getter ever waits, everything
  -- that was put has been got and nothing is left to run, and yet the event is not set: join waits, and
  -- nothing will wake it.
  pub join-stuck :
      (size : Option ℕ) (c d : ℕ) (x : A) (xs : List A)
      → let s = steps (turns c d (x ∷ xs)) (begin size) in
        (s.queue.cond ≡ false)
        × (s.accepted ≡ s.received)
        × (s.queue.callbacks ≡ [])
        × (s.running ≡ none)
  unfolding begin init_queue
  join-stuck size c d x xs =
      let e = turns-idle c d (limit_of size) true x xs [] (room_of size) in
      (
        ap (λ s. s.queue.cond) e,
        ap (λ s. s.accepted) e ∙ sym (ap (λ s. s.received) e),
        ap (λ s. s.queue.callbacks) e,
        ap (λ s. s.running) e,
      )
