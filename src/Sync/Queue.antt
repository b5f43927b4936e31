-- ===== src/Sync/Queue.antt =====
-- levent/queue.lua: a queue that coroutines put into and get from, and wait at.
use levent.Prelude.{
  ℕ, zero, suc, ◌+◌, ◌-◌, ◌==◌, ltb, if◌then◌else◌, Bool, true, false, not, ◌&&◌, Option, none,
  some, List, [], ◌∷◌, ◌++◌, length,
}

-- What the queue schedules by `hub.loop:run_callback`.
pub data Callback : Type 0 where
  get_unlock put_unlock : Callback

-- A coroutine is a number. `getters` and `putters` are the waiters with their coroutines, a putter with
-- its item; `cond` is the flag of that event; and `callbacks` are those of this queue that the loop has
-- still to run.
pub record Queue {ℓ} (A : Type ℓ) : Type ℓ where
  pub maxsize : Option ℕ
  pub items : List A
  pub size : ℕ  -- `self.length`
  pub getters : List ℕ
  pub putters : List (ℕ × A)
  pub cond : Bool
  pub is_in_put_unlock : Bool
  pub is_in_get_unlock : Bool
  pub callbacks : List Callback

-- Whether a table has an entry, as `next` tells.
unfoldable pub some_entry {ℓ} : {B : Type ℓ} → List B → Bool
some_entry [] = false
some_entry (x ∷ xs) = true

-- `next` on a table of waiters, which gives any of them: the number says which. Resuming its coroutine
-- takes the waiter out.
unfoldable pub or_first {ℓ} : {B : Type ℓ} → B → List B → Option (B × List B) → Option (B × List B)
or_first x xs none = some (x, xs)
or_first x xs (some (y, rest)) = some (y, x ∷ rest)

unfoldable pub pick {ℓ} : {B : Type ℓ} → ℕ → List B → Option (B × List B)
unfolding or_first
pick k [] = none
pick zero (x ∷ xs) = some (x, xs)
pick (suc k) (x ∷ xs) = or_first x xs (pick k xs)

-- `self.maxsize and self.maxsize == #self.items`
unfoldable pub full_at : Option ℕ → ℕ → Bool
full_at none n = false
full_at (some m) n = m == n

-- `not self.maxsize or self.length < self.maxsize`
unfoldable pub room_at : Option ℕ → ℕ → Bool
room_at none n = true
room_at (some m) n = ltb n m

-- `self.items[self.length] = item`, behind the last item or in the place of one.
unfoldable pub assign {ℓ} : {A : Type ℓ} → ℕ → A → List A → List A
assign n x [] = x ∷ []
assign zero x (y ∷ ys) = x ∷ ys
assign (suc n) x (y ∷ ys) = y ∷ assign n x ys

-- `self.putters[waiter] = nil` and its like for getters, after a timeout.
unfoldable pub drop_getter : ℕ → List ℕ → List ℕ
drop_getter c [] = []
drop_getter c (d ∷ ds) = if d == c then drop_getter c ds else d ∷ drop_getter c ds

unfoldable pub drop_putter {ℓ} : {A : Type ℓ} → ℕ → List (ℕ × A) → List (ℕ × A)
drop_putter c [] = []
drop_putter c ((d, x) ∷ ds) = if d == c then drop_putter c ds else (d, x) ∷ drop_putter c ds

-- A round of the loop of `_get_unlock` or `_put_unlock`: the loop ends, or a waiter is resumed and takes
-- or puts an item. `none` is a failed assertion.
pub data Round {ℓ} (A : Type ℓ) : Type ℓ where
  ended : Queue A → Round A
  resumed : Option A → Queue A → Round A

-- `if not maxsize or maxsize <= 0`; a size below 0 is as no size.
unfoldable pub limit_of : Option ℕ → Option ℕ
limit_of none = none
limit_of (some zero) = none
limit_of (some (suc m)) = some (suc m)

module _ {ℓ} {A : Type ℓ} where
  -- `Queue:_init`
  unfoldable pub init_queue : Option ℕ → Queue A
  unfolding limit_of
  init_queue size = record {
    maxsize = limit_of size;
    items = [];
    size = 0;
    getters = [];
    putters = [];
    cond = true;
    is_in_put_unlock = false;
    is_in_get_unlock = false;
    callbacks = [];
  }

  unfoldable pub is_full : Queue A → Bool
  unfolding full_at
  is_full q = full_at q.maxsize (length q.items)

  -- The end of `_get`: a round of `_put_unlock` is scheduled for the putters.
  unfoldable pub call_putters : Queue A → Queue A
  unfolding some_entry
  call_putters q =
      if not q.is_in_put_unlock && some_entry q.putters
      then record q { is_in_put_unlock = true; callbacks = q.callbacks ++ (put_unlock ∷ []) }
      else q

  -- The end of `_put`.
  unfoldable pub call_getters : Queue A → Queue A
  unfolding some_entry
  call_getters q =
      if not q.is_in_get_unlock && some_entry q.getters
      then record q { is_in_get_unlock = true; callbacks = q.callbacks ++ (get_unlock ∷ []) }
      else q

  -- `Queue:_put`
  unfoldable pub put_item : A → Queue A → Queue A
  unfolding assign call_getters
  put_item x q =
      call_getters (record q { size = q.size + 1; items = assign q.size x q.items; cond = false })

  -- `table.remove(self.items, 1)` and what follows; `none` is an item that is not there.
  unfoldable pub remove_first : List A → Queue A → Option (A × Queue A)
  unfolding call_putters
  remove_first [] q = none
  remove_first (x ∷ xs) q = some (x, call_putters (record q { items = xs; size = q.size - 1 }))

  -- `Queue:_get`; `none` also where the assertion fails.
  unfoldable pub get_item : Queue A → Option (A × Queue A)
  unfolding remove_first
  get_item q = if ltb 0 q.size then remove_first q.items q else none

  -- `Queue:put` up to its return, `true`, or to its wait.
  unfoldable pub queue_put : ℕ → A → Queue A → Bool × Queue A
  unfolding room_at put_item
  queue_put c x q =
      if room_at q.maxsize q.size
      then (true, put_item x q)
      else (false, record q { putters = q.putters ++ ((c, x) ∷ []) })

  -- What a coroutine has from `_get`: the item, or an error.
  unfoldable pub taken : Queue A → Option (A × Queue A) → Option A × Queue A
  taken q none = (none, q)
  taken q (some (x, r)) = (some x, r)

  -- `Queue:get` up to its return, or to its wait.
  unfoldable pub queue_get : ℕ → Queue A → Option A × Queue A
  unfolding get_item taken
  queue_get c q =
      if ltb 0 q.size
      then taken q (get_item q)
      else (none, record q { getters = q.getters ++ (c ∷ []) })

  -- The getter that is next, if any, takes an item.
  unfoldable pub serve_getter : Queue A → Option (ℕ × List ℕ) → Round A
  unfolding get_item taken
  serve_getter q none = ended (record q { is_in_get_unlock = false })
  serve_getter q (some (c, rest)) =
      let r = record q { getters = rest } in let (o, u) = taken r (get_item r) in resumed o u

  -- A round of the loop of `_get_unlock`.
  unfoldable pub get_round : ℕ → Queue A → Round A
  unfolding pick serve_getter
  get_round k q =
      if q.size == 0
      then ended (record q { cond = true; is_in_get_unlock = false })
      else serve_getter q (pick k q.getters)

  -- The putter that is next, if any, puts its item.
  unfoldable pub serve_putter : Queue A → Option ((ℕ × A) × List (ℕ × A)) → Round A
  unfolding put_item
  serve_putter q none = ended (record q { is_in_put_unlock = false })
  serve_putter q (some ((c, x), rest)) = resumed (some x) (put_item x (record q { putters = rest }))

  -- A round of the loop of `_put_unlock`.
  unfoldable pub put_round : ℕ → Queue A → Round A
  unfolding pick serve_putter is_full
  put_round k q =
      if is_full q
      then ended (record q { is_in_put_unlock = false })
      else serve_putter q (pick k q.putters)
