-- ===== src/Sync/Fifo.antt =====
-- The order and the bound of a queue of levent/queue.lua, in every history.
use levent.Prelude.{
  ℕ, zero, suc, ◌+◌, ◌≡◌, inl, inr, refl, sym, subst, ap, ◌∙◌, ◌==◌, ltb, ◌-◌, if◌then◌else◌, false,
  Option, none, some, List, [], ◌∷◌, ◌++◌, length, arith, append_assoc, Bool-cases, length-append,
}
use levent.Sync.Queue.{
  Callback, get_unlock, put_unlock, Queue, pick, assign, limit_of, init_queue, is_full,
  call_putters, call_getters, put_item, remove_first, get_item, room_at, queue_put, taken,
  queue_get, serve_getter, serve_putter, get_round, put_round,
}
use levent.Sync.QueueRun.{
  Action, putting, getting, getter_leaves, putter_leaves, run_callback, round, QueueState, begin,
  log, after_get, after_put, start_callback, run_round, step, steps,
}
use levent.Sync.Fits.{
  Fits, Fits-smaller, room_at-Fits, not_full-Fits, assign-end, call_getters-same, call_putters-same,
}

-- The size that the queue was made with is given.
module _ {ℓ} {A : Type ℓ} (limit : Option ℕ) where
  -- A queue counts its items, and is within its size; and what was got is the front of what was put.
  pub record IsFifo (q : Queue A) (accepted received : List A) : Type ℓ where
    pub kept : q.maxsize ≡ limit
    pub counted : q.size ≡ length q.items
    pub bounded : Fits q.maxsize q.size
    pub ordered : accepted ≡ received ++ q.items

  same-IsFifo :
      (q r : Queue A) (accepted received : List A)
      → (r.items ≡ q.items) × (r.size ≡ q.size) × (r.maxsize ≡ q.maxsize)
      → IsFifo q accepted received
      → IsFifo r accepted received
  same-IsFifo q r accepted received (items, size, maxsize) h = record {
    kept = maxsize ∙ h.kept;
    counted = rw (size, items) h.counted;
    bounded = rw (maxsize, size) h.bounded;
    ordered = rw items h.ordered;
  }

  put_item-IsFifo :
      (x : A) (q : Queue A) (accepted received : List A)
      → Fits q.maxsize (q.size + 1)
      → IsFifo q accepted received
      → IsFifo (put_item x q) (accepted ++ (x ∷ [])) received
  unfolding put_item
  put_item-IsFifo x q accepted received room h =
      let r : Queue A = record q {
        size = q.size + 1;
        items = assign q.size x q.items;
        cond = false;
      } in
      same-IsFifo r (call_getters r) _ received (call_getters-same r) (record {
        kept = h.kept;
        counted =
            rw (assign-end x q.items q.size h.counted)
              (omega (arith, h.counted, length-append q.items (x ∷ [])));
        bounded = room;
        ordered =
            rw (h.ordered, assign-end x q.items q.size h.counted)
              (append_assoc received q.items (x ∷ []));
      })

  remove_first-IsFifo :
      (items : List A) (q : Queue A) (accepted received : List A) (x : A) (r : Queue A)
      → q.items ≡ items
      → IsFifo q accepted received
      → remove_first items q ≡ some (x, r)
      → IsFifo r accepted (received ++ (x ∷ []))
  unfolding remove_first
  remove_first-IsFifo [] q accepted received x r same h e = cc
  remove_first-IsFifo (y ∷ ys) q accepted received x r same h e =
      let t : Queue A = record q { items = ys; size = q.size - 1 } in
      let first : y ≡ x = cc in
      let then_ : call_putters t ≡ r = cc in
      let counted : q.size ≡ length (y ∷ ys) = h.counted ∙ ap length same in
      subst (λ u. IsFifo u accepted (received ++ (x ∷ []))) then_
        (same-IsFifo t (call_putters t) accepted _ (call_putters-same t) (record {
          kept = h.kept;
          counted = omega (arith, counted);
          bounded = Fits-smaller q.maxsize (q.size - 1) q.size (omega arith) h.bounded;
          ordered =
              h.ordered
              ∙ ap (λ zs. received ++ zs) same
              ∙ ap (λ z. received ++ (z ∷ ys)) first
              ∙ sym (append_assoc received (x ∷ []) ys);
        }))

  get_item-IsFifo :
      (q : Queue A) (accepted received : List A) (x : A) (r : Queue A)
      → IsFifo q accepted received
      → get_item q ≡ some (x, r)
      → IsFifo r accepted (received ++ (x ∷ []))
  unfolding get_item
  get_item-IsFifo q accepted received x r h e = elim (Bool-cases (ltb 0 q.size)) [
    | inl b ↦
        remove_first-IsFifo q.items q accepted received x r refl h
          (ap (λ c. if c then remove_first q.items q else none) (sym b) ∙ e)
    | inr b ↦
        let no : ◌≡◌ {A = Option (A × Queue A)} none (some (x, r)) =
          ap (λ c. if c then remove_first q.items q else none) (sym b) ∙ e in
        cc
  ]

  -- The state of a run: its queue, and what was put and got.
  abbrev pub StateIsFifo : QueueState A → Type ℓ
  StateIsFifo s = IsFifo s.queue s.accepted s.received

  put-IsFifo :
      (c : ℕ) (x : A) (s : QueueState A) → StateIsFifo s → StateIsFifo (step (putting c x) s)
  unfolding step queue_put
  put-IsFifo c x s h = elim (Bool-cases (room_at s.queue.maxsize s.queue.size)) [
    | inl e ↦ rw e (
        put_item-IsFifo x s.queue s.accepted s.received
          (room_at-Fits s.queue.maxsize s.queue.size e) h)
    | inr e ↦ rw e (same-IsFifo s.queue _ s.accepted s.received (refl, refl, refl) h)
  ]

  taken-IsFifo :
      (q : Queue A) (o : Option (A × Queue A)) (accepted received : List A)
      → IsFifo q accepted received
      → ((x : A) (r : Queue A) → o ≡ some (x, r) → IsFifo r accepted (received ++ (x ∷ [])))
      → IsFifo (taken q o).1 accepted (log (taken q o).0 received)
  unfolding taken log
  taken-IsFifo q none accepted received h rest = h
  taken-IsFifo q (some (x, r)) accepted received h rest = rest x r refl

  got-IsFifo :
      (q : Queue A) (accepted received : List A)
      → IsFifo q accepted received
      → IsFifo (taken q (get_item q)).1 accepted (log (taken q (get_item q)).0 received)
  got-IsFifo q accepted received h =
      taken-IsFifo q (get_item q) accepted received h
        λ x r e. get_item-IsFifo q accepted received x r h e

  get-IsFifo : (c : ℕ) (s : QueueState A) → StateIsFifo s → StateIsFifo (step (getting c) s)
  unfolding step queue_get log
  get-IsFifo c s h = elim (Bool-cases (ltb 0 s.queue.size)) [
    | inl e ↦ rw e (
        taken-IsFifo s.queue (remove_first s.queue.items s.queue) s.accepted s.received h
          λ x r t. remove_first-IsFifo s.queue.items s.queue s.accepted s.received x r refl h t)
    | inr e ↦ rw e (same-IsFifo s.queue _ s.accepted s.received (refl, refl, refl) h)
  ]

  serve_getter-IsFifo :
      (o : Option (ℕ × List ℕ)) (s : QueueState A)
      → StateIsFifo s
      → StateIsFifo (after_get (serve_getter s.queue o) s)
  unfolding serve_getter after_get
  serve_getter-IsFifo none s h = same-IsFifo s.queue _ s.accepted s.received (refl, refl, refl) h
  serve_getter-IsFifo (some (c, rest)) s h =
      let r : Queue A = record s.queue { getters = rest } in
      got-IsFifo r s.accepted s.received
        (same-IsFifo s.queue r s.accepted s.received (refl, refl, refl) h)

  get_round-IsFifo :
      (k : ℕ) (s : QueueState A) → StateIsFifo s → StateIsFifo (after_get (get_round k s.queue) s)
  unfolding get_round after_get
  get_round-IsFifo k s h = elim (Bool-cases (s.queue.size == 0)) [
    | inl e ↦ rw e (same-IsFifo s.queue _ s.accepted s.received (refl, refl, refl) h)
    | inr e ↦ rw e (serve_getter-IsFifo (pick k s.queue.getters) s h)
  ]

  serve_putter-IsFifo :
      (o : Option ((ℕ × A) × List (ℕ × A))) (s : QueueState A)
      → StateIsFifo s
      → is_full s.queue ≡ false
      → StateIsFifo (after_put (serve_putter s.queue o) s)
  unfolding serve_putter after_put log is_full
  serve_putter-IsFifo none s h e = same-IsFifo s.queue _ s.accepted s.received (refl, refl, refl) h
  serve_putter-IsFifo (some ((c, x), rest)) s h e =
      let r : Queue A = record s.queue { putters = rest } in
      put_item-IsFifo x r s.accepted s.received
        (not_full-Fits s.queue.maxsize s.queue.size _ h.counted h.bounded e)
        (same-IsFifo s.queue r s.accepted s.received (refl, refl, refl) h)

  put_round-IsFifo :
      (k : ℕ) (s : QueueState A) → StateIsFifo s → StateIsFifo (after_put (put_round k s.queue) s)
  unfolding put_round after_put
  put_round-IsFifo k s h = elim (Bool-cases (is_full s.queue)) [
    | inl e ↦ rw e (same-IsFifo s.queue _ s.accepted s.received (refl, refl, refl) h)
    | inr e ↦ rw e (serve_putter-IsFifo (pick k s.queue.putters) s h e)
  ]

  start-IsFifo :
      (r : Option Callback) (bs : List Callback) (s : QueueState A)
      → StateIsFifo s
      → StateIsFifo (start_callback r bs s)
  unfolding start_callback
  start-IsFifo none [] s h = h
  start-IsFifo none (b ∷ bs) s h = same-IsFifo s.queue _ s.accepted s.received (refl, refl, refl) h
  start-IsFifo (some b) bs s h = h

  round-IsFifo :
      (r : Option Callback) (k : ℕ) (s : QueueState A)
      → StateIsFifo s
      → StateIsFifo (run_round r k s)
  unfolding run_round
  round-IsFifo none k s h = h
  round-IsFifo (some get_unlock) k s h = get_round-IsFifo k s h
  round-IsFifo (some put_unlock) k s h = put_round-IsFifo k s h

  pub step-IsFifo : (a : Action A) (s : QueueState A) → StateIsFifo s → StateIsFifo (step a s)
  unfolding step
  step-IsFifo (putting c x) s h = put-IsFifo c x s h
  step-IsFifo (getting c) s h = get-IsFifo c s h
  step-IsFifo (getter_leaves c) s h =
      same-IsFifo s.queue _ s.accepted s.received (refl, refl, refl) h
  step-IsFifo (putter_leaves c) s h =
      same-IsFifo s.queue _ s.accepted s.received (refl, refl, refl) h
  step-IsFifo run_callback s h = start-IsFifo s.running s.queue.callbacks s h
  step-IsFifo (round k) s h = round-IsFifo s.running k s h

  steps_keep : (es : List (Action A)) (s : QueueState A) → StateIsFifo s → StateIsFifo (steps es s)
  unfolding steps
  steps_keep [] s h = h
  steps_keep (a ∷ es) s h = steps_keep es (step a s) (step-IsFifo a s h)

module _ {ℓ} {A : Type ℓ} where
  pub begin-IsFifo : (size : Option ℕ) → StateIsFifo {A = A} (limit_of size) (begin size)
  unfolding begin init_queue limit_of
  begin-IsFifo none = record { kept = refl; counted = refl; bounded = tt; ordered = refl }
  begin-IsFifo (some zero) = record { kept = refl; counted = refl; bounded = tt; ordered = refl }
  begin-IsFifo (some (suc m)) = record {
    kept = refl;
    counted = refl;
    bounded = omega arith;
    ordered = refl;
  }

  -- In every history of a queue of items other than nil, whatever coroutines put, get, wait, time out and are resumed, and in
  -- whatever order the tables give the waiters: the items that were got are the first of those that were
  -- put, in the same order, and the rest is in the queue; the queue counts them, and never holds more
  -- than the size that it was made with, if that was not 0.
  pub steps-IsFifo :
      (size : Option ℕ) (es : List (Action A)) → StateIsFifo (limit_of size) (steps es (begin size))
  steps-IsFifo size es = steps_keep (limit_of size) es (begin size) (begin-IsFifo size)
