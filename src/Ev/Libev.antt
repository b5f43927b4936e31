-- ===== src/Ev/Libev.antt =====
-- What the watchers of src/lua-ev.c ask of libev, as a record of operations and of what its manual
-- promises of them. A watcher is a userdata at an address, and a loop is its address.
use levent.Prelude.{ℕ, ◌≡◌, ◌≢◌, Bool, true, false, Option}

-- The types for which the macros `WATCHER_COMMON_METHODS` are expanded.
pub data Kind : Type 0 where
  io timer signal prepare check idle : Kind

-- What the macros `ev_*_init` set, the callback apart, which is always `watcher_cb`: integers are
-- 32-bit patterns, and times are patterns of doubles.
pub data Setup : Type 0 where
  io_setup : (fd events : ℕ) → Setup
  timer_setup : (after repeat : ℕ) → Setup
  signal_setup : (signum : ℕ) → Setup
  prepare_setup check_setup idle_setup : Setup

-- `Core` is the memory of libev, and `lists` says whether a loop in it has an address among its active
-- watchers. `accepts_start` and its like say that the call meets what libev asserts of it on a loop: that the
-- descriptor, the signal number or the `repeat` of the watcher is not out of its range, and so on. `repeats` is
-- a timer with a `repeat` other than zero. The laws are those of the manual: a
-- watcher is active from `start` to `stop`; starting an active one and stopping one that is not changes
-- no list; `again` stops a timer that does not repeat and starts one that does; a call is about no other
-- watcher.
pub record Libev : Type 1 where
  pub Core : Type 0
  pub Watcher : Type 0
  pub init : Setup → Watcher
  pub start : Core → ℕ → ℕ → Watcher → Core × Watcher
  pub stop : Core → ℕ → ℕ → Watcher → Core × Watcher
  pub again : Core → ℕ → ℕ → Watcher → Core × Watcher
  pub accepts_start : Core → ℕ → Watcher → Bool
  pub accepts_stop : Core → ℕ → Watcher → Bool
  pub accepts_again : Core → ℕ → Watcher → Bool
  pub is_active : Watcher → Bool
  pub is_pending : Watcher → Bool
  pub repeats : Watcher → Bool
  pub priority : Watcher → ℕ
  pub set_priority : ℕ → Watcher → Watcher
  pub lists : Core → ℕ → ℕ → Bool
  pub init_active : (s : Setup) → is_active (init s) ≡ false
  pub active_set : (p : ℕ) (w : Watcher) → is_active (set_priority p w) ≡ is_active w
  pub start_active : (c : Core) (l a : ℕ) (w : Watcher) → is_active (start c l a w).1 ≡ true
  pub start_twice : (c : Core) (l a : ℕ) (w : Watcher) → is_active w ≡ true → start c l a w ≡ (c, w)
  pub start_lists :
      (c : Core) (l a : ℕ) (w : Watcher) → is_active w ≡ false → lists (start c l a w).0 l a ≡ true
  pub start_others :
      (c : Core) (l a b : ℕ) (w : Watcher) → b ≢ a → lists (start c l a w).0 l b ≡ lists c l b
  pub stop_active : (c : Core) (l a : ℕ) (w : Watcher) → is_active (stop c l a w).1 ≡ false
  pub stop_twice :
      (c : Core) (l a : ℕ) (w : Watcher)
      → is_active w ≡ false
      → lists (stop c l a w).0 l a ≡ lists c l a
  pub stop_lists :
      (c : Core) (l a : ℕ) (w : Watcher) → is_active w ≡ true → lists (stop c l a w).0 l a ≡ false
  pub stop_others :
      (c : Core) (l a b : ℕ) (w : Watcher) → b ≢ a → lists (stop c l a w).0 l b ≡ lists c l b
  pub again_active : (c : Core) (l a : ℕ) (w : Watcher) → is_active (again c l a w).1 ≡ repeats w
  pub again_same :
      (c : Core) (l a : ℕ) (w : Watcher)
      → is_active w ≡ repeats w
      → lists (again c l a w).0 l a ≡ lists c l a
  pub again_starts :
      (c : Core) (l a : ℕ) (w : Watcher)
      → is_active w ≡ false
      → repeats w ≡ true
      → lists (again c l a w).0 l a ≡ true
  pub again_stops :
      (c : Core) (l a : ℕ) (w : Watcher)
      → is_active w ≡ true
      → repeats w ≡ false
      → lists (again c l a w).0 l a ≡ false
  pub again_others :
      (c : Core) (l a b : ℕ) (w : Watcher) → b ≢ a → lists (again c l a w).0 l b ≡ lists c l b

-- How Lua turns numbers into integers (`none` where it has no integer value) and back.
pub record Numbers : Type 0 where
  pub to_integer : ℕ → Option ℕ
  pub of_integer : ℕ → ℕ
