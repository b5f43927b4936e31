-- ===== src/Sync/Wakeups.antt =====
-- No wake-up of a queue of levent/queue.lua is lost, in every history.
use levent.Prelude.{
  ℕ, ◌≡◌, ◌⊎◌, inl, inr, refl, subst, ltb, Bool, true, false, not, Option, none, List, [], ◌∷◌,
  arith,
}
use levent.Sync.Queue.{Callback, get_unlock, put_unlock, some_entry, limit_of, init_queue, is_full}
use levent.Sync.QueueRun.{Action, QueueState, begin, steps}
use levent.Sync.Fifo.{begin-IsFifo}
use levent.Sync.Awake.{pending, StateIsAwake}
use levent.Sync.AwakeSteps.{steps-IsAwake}

-- Either no entry is left, or the test fails.
nobody_or {κ} :
    {B : Type κ} {P : Type 0} (xs : List B) (test : Bool)
    → (some_entry xs ≡ true → test ≡ true → ⊥)
    → (test ≡ false → P)
    → (xs ≡ []) ⊎ P
unfolding some_entry
nobody_or [] test none_waits rest = inl refl
nobody_or (x ∷ xs) true none_waits rest = absurd (none_waits refl refl)
nobody_or (x ∷ xs) false none_waits rest = inr (rest refl)

module _ {ℓ} {A : Type ℓ} where
  begin-IsAwake : (size : Option ℕ) → StateIsAwake {A = A} (begin size)
  unfolding begin init_queue some_entry
  begin-IsAwake size = record {
    getters_called = λ a b. cc;
    putters_called = λ a b. cc;
    get_pending = λ a. cc;
    put_pending = λ a. cc;
  }

  at_rest :
      (s : QueueState A)
      → s.running ≡ none
      → s.queue.callbacks ≡ []
      → StateIsAwake s
      → (s.queue.is_in_get_unlock ≡ false) × (s.queue.is_in_put_unlock ≡ false)
  at_rest s running none_left h = (
    lowered get_unlock s.queue.is_in_get_unlock h.get_pending,
    lowered put_unlock s.queue.is_in_put_unlock h.put_pending,
  )
    where
      lowered :
          (b : Callback) (flag : Bool)
          → (flag ≡ true → pending b s.running s.queue.callbacks ≡ true)
          → flag ≡ false
      lowered b false up = refl
      lowered b true up =
          let no : pending b none [] ≡ true =
            subst (λ cs. pending b none cs ≡ true) none_left
              (subst (λ r. pending b r s.queue.callbacks ≡ true) running (up refl)) in
          cc

  -- In every history of a queue, when none of its callbacks is running or before the loop: no coroutine
  -- waits for an item while there is one, and none waits for room while there is room.
  pub no_lost_wakeup :
      (size : Option ℕ) (es : List (Action A))
      → let s = steps es (begin size) in
        s.running ≡ none
        → s.queue.callbacks ≡ []
        → ((s.queue.getters ≡ []) ⊎ (s.queue.size ≡ 0))
          × ((s.queue.putters ≡ []) ⊎ (is_full s.queue ≡ true))
  no_lost_wakeup size es running none_left =
      let s = steps es (begin size) in
      let h =
        steps-IsAwake (limit_of size) es (begin size) (begin-IsFifo size) (begin-IsAwake size) in
      let (get_low, put_low) = at_rest s running none_left h in
      (
        nobody_or s.queue.getters (ltb 0 s.queue.size) (λ a b. let up = h.getters_called a b in cc)
            (λ e. ground (arith, e)),
        nobody_or s.queue.putters (not (is_full s.queue))
            (λ a b. let up = h.putters_called a (ground (arith, b)) in cc) (λ e. ground (arith, e)),
      )
