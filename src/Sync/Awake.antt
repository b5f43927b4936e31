-- ===== src/Sync/Awake.antt =====
-- Which waiters of a queue of levent/queue.lua are called for, and what its operations do to that.
use levent.Prelude.{
  ℕ, zero, suc, ◌+◌, ◌≡◌, inl, inr, refl, ltb, Bool, true, false, not, ◌&&◌, ◌||◌, Option, none,
  some, List, [], ◌∷◌, ◌++◌, length, arith, Bool-cases,
}
use levent.Sync.Queue.{
  Callback, get_unlock, put_unlock, Queue, some_entry, pick, drop_getter, drop_putter, is_full,
  call_putters, call_getters, put_item, remove_first, room_at, full_at, or_first, taken,
}
use levent.Sync.QueueRun.{QueueState}
use levent.Sync.Fits.{Fits}

abbrev pub same_callback : Callback → Callback → Bool
same_callback get_unlock get_unlock = true
same_callback put_unlock put_unlock = true
same_callback _ _ = false

abbrev pub has : Callback → List Callback → Bool
has b [] = false
has b (c ∷ cs) = same_callback b c || has b cs

-- A callback is running, or the loop has it before it.
abbrev pub pending : Callback → Option Callback → List Callback → Bool
pending b none cs = has b cs
pending b (some r) cs = same_callback b r || has b cs

pub has-append : (b : Callback) (xs ys : List Callback) → has b (xs ++ ys) ≡ (has b xs || has b ys)
has-append b [] ys = refl
has-append b (c ∷ xs) ys = ground (arith, has-append b xs ys)

pub pending-append :
    (b c : Callback) (r : Option Callback) (xs : List Callback)
    → pending b r (xs ++ (c ∷ [])) ≡ (pending b r xs || same_callback b c)
pending-append b c none xs = ground (arith, has-append b xs (c ∷ []))
pending-append b c (some r) xs = ground (arith, has-append b xs (c ∷ []))

pub drop_getter-some :
    (c : ℕ) (ds : List ℕ) → some_entry (drop_getter c ds) ≡ true → some_entry ds ≡ true
unfolding drop_getter some_entry
drop_getter-some c [] h = h
drop_getter-some c (d ∷ ds) h = refl

pub drop_putter-some {ℓ} :
    {A : Type ℓ} (c : ℕ) (ds : List (ℕ × A))
    → some_entry (drop_putter c ds) ≡ true
    → some_entry ds ≡ true
unfolding drop_putter some_entry
drop_putter-some c [] h = h
drop_putter-some c ((d, x) ∷ ds) h = refl

pub or_first-some {ℓ} :
    {B : Type ℓ} (x : B) (xs : List B) (o : Option (B × List B))
    → (p : B × List B) × (or_first x xs o ≡ some p)
unfolding or_first
or_first-some x xs none = (_, refl)
or_first-some x xs (some (y, rest)) = (_, refl)

pub pick-none {ℓ} : {B : Type ℓ} (k : ℕ) (xs : List B) → pick k xs ≡ none → some_entry xs ≡ false
unfolding pick some_entry
pick-none k [] h = refl
pick-none zero (x ∷ xs) h = cc
pick-none (suc k) (x ∷ xs) h = let (p, e) = or_first-some x xs (pick k xs) in cc

pub pick-some {ℓ} :
    {B : Type ℓ} (k : ℕ) (xs : List B) (p : B × List B) → pick k xs ≡ some p → some_entry xs ≡ true
unfolding pick some_entry
pick-some k [] p h = cc
pick-some k (x ∷ xs) p h = refl

pub room-not_full : (m : Option ℕ) (n k : ℕ) → n ≡ k → Fits m (n + 1) → full_at m k ≡ false
unfolding full_at
room-not_full none n k same room = refl
room-not_full (some m) n k same room = ground arith

pub no_room-full :
    (m : Option ℕ) (n k : ℕ) → n ≡ k → Fits m n → room_at m n ≡ false → full_at m k ≡ true
unfolding full_at room_at
no_room-full none n k same fits h = cc
no_room-full (some m) n k same fits h = ground arith

module _ {ℓ} {A : Type ℓ} where
  -- Whoever waits for an item that is there, or for room that is there, is called for; and a call that
  -- was made is running or before the loop.
  pub record IsAwake (q : Queue A) (running : Option Callback) : Type 0 where
    pub getters_called :
        some_entry q.getters ≡ true → ltb 0 q.size ≡ true → q.is_in_get_unlock ≡ true
    pub putters_called : some_entry q.putters ≡ true → is_full q ≡ false → q.is_in_put_unlock ≡ true
    pub get_pending : q.is_in_get_unlock ≡ true → pending get_unlock running q.callbacks ≡ true
    pub put_pending : q.is_in_put_unlock ≡ true → pending put_unlock running q.callbacks ≡ true

  pub call_getters-IsAwake :
      (q : Queue A) (r : Option Callback)
      → (some_entry q.putters ≡ true → is_full q ≡ false → q.is_in_put_unlock ≡ true)
      → (q.is_in_get_unlock ≡ true → pending get_unlock r q.callbacks ≡ true)
      → (q.is_in_put_unlock ≡ true → pending put_unlock r q.callbacks ≡ true)
      → IsAwake (call_getters q) r
  unfolding call_getters is_full
  call_getters-IsAwake q r p g h =
      elim (Bool-cases (not q.is_in_get_unlock && some_entry q.getters)) [
        | inl e ↦ rw e (record {
          getters_called = λ a b. refl;
          putters_called = p;
          get_pending = λ a. ground (arith, pending-append get_unlock get_unlock r q.callbacks);
          put_pending =
              λ a. ground (arith, pending-append put_unlock get_unlock r q.callbacks, h a);
        })
        | inr e ↦ rw e (record {
          getters_called = λ a b. ground (arith, a, e);
          putters_called = p;
          get_pending = g;
          put_pending = h;
        })
      ]

  pub call_putters-IsAwake :
      (q : Queue A) (r : Option Callback)
      → (some_entry q.getters ≡ true → ltb 0 q.size ≡ true → q.is_in_get_unlock ≡ true)
      → (q.is_in_get_unlock ≡ true → pending get_unlock r q.callbacks ≡ true)
      → (q.is_in_put_unlock ≡ true → pending put_unlock r q.callbacks ≡ true)
      → IsAwake (call_putters q) r
  unfolding call_putters is_full
  call_putters-IsAwake q r p g h =
      elim (Bool-cases (not q.is_in_put_unlock && some_entry q.putters)) [
        | inl e ↦ rw e (record {
          getters_called = p;
          putters_called = λ a b. refl;
          get_pending =
              λ a. ground (arith, pending-append get_unlock put_unlock r q.callbacks, g a);
          put_pending = λ a. ground (arith, pending-append put_unlock put_unlock r q.callbacks);
        })
        | inr e ↦ rw e (record {
          getters_called = p;
          putters_called = λ a b. ground (arith, a, e);
          get_pending = g;
          put_pending = h;
        })
      ]

  pub put_item-IsAwake :
      (x : A) (q : Queue A) (r : Option Callback)
      → q.size ≡ length q.items
      → Fits q.maxsize (q.size + 1)
      → IsAwake q r
      → IsAwake (put_item x q) r
  unfolding put_item is_full
  put_item-IsAwake x q r counted room h =
      call_getters-IsAwake _ r
        (λ a b. h.putters_called a (room-not_full q.maxsize q.size _ counted room)) h.get_pending
        h.put_pending

  pub remove_first-IsAwake :
      (items : List A) (q : Queue A) (r : Option Callback)
      → IsAwake q r
      → IsAwake (taken q (remove_first items q)).1 r
  unfolding remove_first taken
  remove_first-IsAwake [] q r h = h
  remove_first-IsAwake (x ∷ xs) q r h =
      call_putters-IsAwake _ r (λ a b. h.getters_called a (ground (arith, b))) h.get_pending
        h.put_pending

  abbrev pub StateIsAwake : QueueState A → Type 0
  StateIsAwake s = IsAwake s.queue s.running
