-- ===== src/Ev/Watching.antt =====
-- The theorems on the watchers of src/lua-ev.c at concrete histories.
use levent.Prelude.{ℕ, ◌≡◌, ◌≢◌, refl, subst, true, false, some, [], ◌∷◌}
use levent.Prelude.Result.{IsDefined, Gives}
use levent.Ev.Loop.{setloop}
use levent.Ev.Libev.{Kind, io, io_setup}
use levent.Ev.Watcher.{
  watcher_ud, loop_ud, int, start, init, argument, free, raw, ready, World, store, call,
  new_watcher, watcher_start, watcher_init, pointed,
}
use levent.Ev.Sample.{Lists, sample, plain_numbers}
use levent.Ev.Agreement.{active}
use levent.Ev.Listed.{allocate, invoke, Reach, begin, later, listed_alive}
use levent.Ev.Stages.{stage, next, started, call-Moves}
use levent.Ev.Defined.{IsReady, call-IsDefined}

abbrev Sampled : Type 0
Sampled = World sample plain_numbers

abbrev empty_lists : Lists
empty_lists l a = false

abbrev nothing : Sampled
nothing = record { core = empty_lists; heap = λ a. free }

-- An io watcher at the address 5, allocated and initialised.
abbrev one_raw : Sampled
one_raw = record { core = empty_lists; heap = store sample plain_numbers 5 (raw io) (λ a. free) }

abbrev one_ready : Sampled
one_ready = record {
  core = empty_lists;
  heap = store sample plain_numbers 5 (ready io (sample.init (io_setup 3 1))) one_raw.heap;
}

abbrev started_one : Sampled
started_one = record {
  core = (sample.start empty_lists 1 5 (sample.init (io_setup 3 1))).0;
  heap =
      store sample plain_numbers 5
        (ready io (sample.start empty_lists 1 5 (sample.init (io_setup 3 1))).1) one_ready.heap;
}

at_five : (P : ℕ → Type 0) → P 5 → (a : ℕ) → watcher_ud 5 ≡ watcher_ud a → P a
at_five P p a at = let same : 5 ≡ a = cc in subst P same p

history : Reach sample plain_numbers 1 empty_lists started_one
unfolding call new_watcher store active watcher_start watcher_init setloop
history =
    later
      (later (later begin (allocate io 5 refl)) (
        invoke io init (watcher_ud 5 ∷ int 3 ∷ int 1 ∷ []) []
          (at_five (λ a. active sample plain_numbers (one_raw.heap a) ≡ false) refl) refl))
      (invoke io start (watcher_ud 5 ∷ loop_ud (setloop (some 1)) ∷ [])
        (loop_ud (setloop (some 1)) ∷ []) refl refl)

listed_alive_example :
    (k : Kind) × (x : sample.Watcher) × (started_one.heap 5 ≡ ready k x)
    × (sample.is_active x ≡ true)
listed_alive_example = listed_alive sample plain_numbers 5 (λ b. refl) history refl

call-Moves_example :
    Gives
      (λ out.
        (stage sample plain_numbers (out.1.heap 5) ≡ started)
        × ((b : ℕ) → b ≢ 5 → out.1.heap b ≡ one_ready.heap b))
      (call sample plain_numbers io start
        (watcher_ud 5 ∷ loop_ud (setloop (some 1)) ∷ [])
        one_ready)
unfolding next
call-Moves_example =
    call-Moves sample plain_numbers io start 5 (loop_ud (setloop (some 1)) ∷ []) one_ready

call-IsDefined_example :
    IsDefined (
      call sample plain_numbers io start (watcher_ud 5 ∷ loop_ud (setloop (some 1)) ∷ []) one_ready)
unfolding store argument pointed setloop
call-IsDefined_example =
    call-IsDefined sample plain_numbers io start (watcher_ud 5 ∷ loop_ud (setloop (some 1)) ∷ [])
      one_ready (at_five (λ a. IsReady sample plain_numbers (one_ready.heap a)) tt)
      (λ lo at. let same : setloop (some 1) ≡ lo = cc in subst (λ l. IsDefined (pointed l)) same tt)
      (λ a l x lo at here looped there.
        let same : a ≡ 5 = cc in
        let stored : one_ready.heap 5 ≡ ready io x =
          subst (λ b. one_ready.heap b ≡ ready io x) same here in
        let found : sample.init (io_setup 3 1) ≡ x = cc in
        subst (λ y. sample.accepts_start one_ready.core l y ≡ true) found refl)
