-- ===== src/Ev/Sample.antt =====
-- A libev that keeps for each loop the addresses of its active watchers: it meets the laws that the
-- theorems on the watchers of src/lua-ev.c rest on.
use levent.Prelude.{
  ℕ, refl, ltb, ◌^◌, ◌||◌, ◌==◌, ==_iff, Bool, true, false, ◌&&◌, if◌then◌else◌, some, arith, not,
}
use levent.Ev.Libev.{Setup, io_setup, signal_setup, timer_setup, Libev, Numbers}

pub record Fields : Type 0 where
  pub active : Bool
  pub pending : Bool
  pub repeated : Bool
  pub priority : ℕ
  pub legal : Bool

abbrev pub Lists : Type 0
Lists = ℕ → ℕ → Bool

abbrev pub listing : Bool → Lists → ℕ → ℕ → Lists
listing on c l a k b = if (k == l) && (b == a) then on else c k b

abbrev has_repeat : Setup → Bool
has_repeat (timer_setup after repeat) = not (repeat == 0)
has_repeat _ = false

-- A descriptor that is not negative, and a signal number below 65.
abbrev is_legal : Setup → Bool
is_legal (io_setup fd events) = ltb fd (2 ^ 31)
is_legal (signal_setup signum) = ltb 0 signum && ltb signum 65
is_legal _ = true

abbrev initial : Setup → Fields
initial s = record {
  active = false;
  pending = false;
  repeated = has_repeat s;
  priority = 0;
  legal = is_legal s;
}

abbrev begin : Lists → ℕ → ℕ → Fields → Lists × Fields
begin c l a x = if x.active then (c, x) else (listing true c l a, record x { active = true })

abbrev halt : Lists → ℕ → ℕ → Fields → Lists × Fields
halt c l a x =
    if x.active
    then (listing false c l a, record x { active = false; pending = false })
    else (c, record x { pending = false })

abbrev repeat : Lists → ℕ → ℕ → Fields → Lists × Fields
repeat c l a x =
    if x.active
    then (if x.repeated then (c, x) else halt c l a x)
    else (if x.repeated then begin c l a x else (c, x))

abbrev pub sample : Libev
sample = record {
  Core = Lists;
  Watcher = Fields;
  init = initial;
  start = begin;
  stop = halt;
  again = repeat;
  accepts_start = λ c l x. x.active || x.legal;
  accepts_stop = λ c l x. true;
  accepts_again = λ c l x. x.active || x.legal;
  is_active = λ x. x.active;
  is_pending = λ x. x.pending;
  repeats = λ x. x.repeated;
  priority = λ x. x.priority;
  set_priority = λ p x. record x { priority = p };
  lists = λ c. c;
  init_active = λ s. refl;
  active_set = λ p x. refl;
  start_active = λ c l a x. ground arith;
  start_twice = λ c l a x h. ground arith;
  start_lists = λ c l a x h. ground arith;
  start_others = λ c l a b x h. ground (arith, ==_iff b a);
  stop_active = λ c l a x. ground arith;
  stop_twice = λ c l a x h. ground arith;
  stop_lists = λ c l a x h. ground arith;
  stop_others = λ c l a b x h. ground (arith, ==_iff b a);
  again_active = λ c l a x. ground arith;
  again_same = λ c l a x h. ground arith;
  again_starts = λ c l a x h r. ground arith;
  again_stops = λ c l a x h r. ground arith;
  again_others = λ c l a b x h. ground (arith, ==_iff b a);
}

-- Numbers that are their own integers.
abbrev pub plain_numbers : Numbers
plain_numbers = record { to_integer = λ x. some x; of_integer = λ x. x }
